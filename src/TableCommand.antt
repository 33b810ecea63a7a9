-- ===== src/TableCommand.antt =====
-- src/tableCommand.ts: one move of the XY table of a robot. It is planned and checked as a whole, and then
-- applied. A coordinate of the request that is no finite number is `none`; refusals are without messages.
pub mod Bounds
mod Tests
use hydra_umc_server.Prelude.{
  Option, none, some, Bool, true, false, ◌||◌, not, Result, ok, err, ◌>>=◌, ◌>>◌, guard, or_err,
}
use hydra_umc_server.Robots.{Numbers, Robot, TablePos, XyTable, Patch, no_patch}

pub record TableLimits {ℓ} (V : Type ℓ) : Type ℓ where
  pub max_amount : V
  pub max_absolute : V

pub data TableMode : Type 0 where
  absolute relative : TableMode

pub data TableRefusal : Type 0 where
  table_invalid table_out_of_limit table_missing : TableRefusal

-- A mode or a turn that the request leaves out is `none`.
pub record TableParams {ℓ} (V : Type ℓ) : Type ℓ where
  pub x : Option V
  pub y : Option V
  pub rz : Option (Option V)
  pub mode : Option (Option TableMode)

pub record TablePlan {ℓ} (V : Type ℓ) : Type ℓ where
  pub mode : TableMode
  pub x : V
  pub y : V
  pub rz : Option V

abbrev pub mode_of : Option (Option TableMode) → Option TableMode
mode_of none = some absolute
mode_of (some mode) = mode

module _ {ℓ} {V : Type ℓ} where
  abbrev pub pos_of : Option (XyTable V) → Option (TablePos V)
  pos_of none = none
  pos_of (some table) = table.pos

  -- `robot.hasXYTable && robot.xyTable?.pos`
  abbrev pub table_pos : Bool → Option (XyTable V) → Option (TablePos V)
  table_pos false table = none
  table_pos true table = pos_of table

  abbrev pub turn_of : Option (Option V) → Result TableRefusal (Option V)
  turn_of none = ok none
  turn_of (some none) = err table_invalid
  turn_of (some (some rz)) = ok (some rz)

module _ {ℓ} {V : Type ℓ} (num : Numbers V) where
  abbrev pub or_zero : Option V → V
  or_zero none = num.of_nat 0
  or_zero (some v) = v

  -- `Math.abs(value) > limit`
  abbrev pub exceeds : V → V → Bool
  exceeds limit value = not (num.le (num.abs value) limit)

  abbrev pub turn_exceeds : V → Option V → Bool
  turn_exceeds limit none = false
  turn_exceeds limit (some rz) = exceeds limit rz

  abbrev pub any_exceeds : V → V → V → Option V → Bool
  any_exceeds limit x y rz = exceeds limit x || exceeds limit y || turn_exceeds limit rz

  abbrev pub largest_step : TableMode → TableLimits V → V
  largest_step absolute limits = limits.max_absolute
  largest_step relative limits = limits.max_amount

  abbrev pub moved_to : TableMode → V → V → V
  moved_to absolute current value = value
  moved_to relative current value = num.plus current value

  abbrev pub turned_to : TableMode → V → Option V → Option V
  turned_to mode current none = none
  turned_to mode current (some rz) = some (moved_to mode current rz)

  -- Checks a table move against the robot and the limits; gives the position the table ends in.
  pub plan_table_move : Robot V → TableParams V → TableLimits V → Result TableRefusal (TablePlan V)
  plan_table_move robot params limits = do
    pos ← or_err (table_pos robot.has_xy_table robot.xy_table) table_missing
    mode ← or_err (mode_of params.mode) table_invalid
    px ← or_err params.x table_invalid
    py ← or_err params.y table_invalid
    prz ← turn_of params.rz
    guard (not (any_exceeds (largest_step mode limits) px py prz)) table_out_of_limit
    let x = moved_to mode (or_zero pos.x) px
    let y = moved_to mode (or_zero pos.y) py
    let rz = turned_to mode (or_zero robot.pos.trz) prz
    guard (not (any_exceeds limits.max_absolute x y rz)) table_out_of_limit
    ok (record { mode = mode; x = x; y = y; rz = rz })

module _ {ℓ} {V : Type ℓ} where
  abbrev pub table_at : V → V → Option (XyTable V) → Option (XyTable V)
  table_at x y none = none
  table_at x y (some table) = some (record table { pos = some (record { x = some x; y = some y }) })

  abbrev pub turn_or : Option V → Option V → Option V
  turn_or none old = old
  turn_or (some rz) old = some rz

  -- Applies a plan to the robot; gives the patch to broadcast too.
  unfoldable pub apply_table_move : Robot V → TablePlan V → Robot V × Patch V
  apply_table_move robot plan =
      let table = table_at plan.x plan.y robot.xy_table in
      let pos = record robot.pos {
        tx = some plan.x;
        ty = some plan.y;
        trz = turn_or plan.rz robot.pos.trz;
      } in
      (
        record robot { xy_table = table; pos = pos },
        record no_patch { xy_table = table; pos = some pos },
      )
