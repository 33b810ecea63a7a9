-- ===== src/TableCommand/Bounds.antt =====
-- What a planned table move promises of the table and of the robot it is applied to.
use hydra_umc_server.Prelude.{
  Bool, true, false, some, none, not, Option, ◌≡◌, ◌⊎◌, inl, inr, refl, ok, arith, subst, >>=-eq-ok,
  or_err-eq-ok, guard-then-eq-ok, ok-injective,
}
use hydra_umc_server.Robots.{Numbers, Robot, XyTable, TablePos}
use hydra_umc_server.TableCommand.{
  TableLimits, TableParams, TablePlan, TableMode, TableRefusal, absolute, relative, mode_of,
  turn_of, or_zero, table_pos, table_at, any_exceeds, turn_exceeds, largest_step, moved_to,
  turned_to, plan_table_move, apply_table_move,
}

table_pos-table_at {ℓ} :
    {V : Type ℓ} (has : Bool) (table : Option (XyTable V)) (x y : V) (old : TablePos V)
    → table_pos has table ≡ some old
    → table_pos has (table_at x y table) ≡ some (record { x = some x; y = some y })
table_pos-table_at false table x y old h = absurd (cc h)
table_pos-table_at true none x y old h = absurd (cc h)
table_pos-table_at true (some table) x y old h = refl

-- A mode that is left out is absolute.
abbrev pub IsMode : Option (Option TableMode) → TableMode → Type 0
IsMode asked mode = (asked ≡ some (some mode)) ⊎ ((asked ≡ none) × (mode ≡ absolute))

mode_of-IsMode :
    (asked : Option (Option TableMode)) (mode : TableMode)
    → mode_of asked ≡ some mode
    → IsMode asked mode
mode_of-IsMode none mode h = inr (refl, cc h)
mode_of-IsMode (some none) mode h = absurd (cc h)
mode_of-IsMode (some (some m)) mode h = inl (cc h)

module _ {ℓ} {V : Type ℓ} (num : Numbers V) where
  -- Where one coordinate goes that is at `current`.
  abbrev pub Goes : TableMode → V → V → V → Type ℓ
  Goes absolute current asked new = new ≡ asked
  Goes relative current asked new = new ≡ num.plus current asked

  -- Where the turn goes: it stays when it is left out, and must be a number.
  abbrev pub Turns : TableMode → V → Option (Option V) → Option V → Type ℓ
  Turns mode current none new = new ≡ none
  Turns mode current (some none) new = ⊥ × (new ≡ none)
  Turns mode current (some (some asked)) new =
      (value : V) × (new ≡ some value) × Goes mode current asked value

  abbrev pub IsWithin : V → V → Type 0
  IsWithin limit value = num.le (num.abs value) limit ≡ true

  abbrev pub IsTurnWithin : V → Option V → Type 0
  IsTurnWithin limit none = Unit
  IsTurnWithin limit (some value) = IsWithin limit value

  abbrev pub IsTurnAskedWithin : V → Option (Option V) → Type 0
  IsTurnAskedWithin limit (some (some value)) = IsWithin limit value
  IsTurnAskedWithin limit _ = Unit

  -- What was asked for, from where the table was, and where it goes.
  pub record IsPlanned (robot : Robot V) (params : TableParams V) (limits : TableLimits V)
      (plan : TablePlan V) : Type ℓ where
    pub old : TablePos V
    pub had_table : table_pos robot.has_xy_table robot.xy_table ≡ some old
    pub asked_x : V
    pub asked_y : V
    pub is_x : params.x ≡ some asked_x
    pub is_y : params.y ≡ some asked_y
    pub is_mode : IsMode params.mode plan.mode
    pub goes_x : Goes plan.mode (or_zero num old.x) asked_x plan.x
    pub goes_y : Goes plan.mode (or_zero num old.y) asked_y plan.y
    pub turns : Turns plan.mode (or_zero num robot.pos.trz) params.rz plan.rz
    pub small_step :
        plan.mode ≡ relative
        → IsWithin limits.max_amount asked_x
          × IsWithin limits.max_amount asked_y
          × IsTurnAskedWithin limits.max_amount params.rz
    pub inside :
        IsWithin limits.max_absolute plan.x
        × IsWithin limits.max_absolute plan.y
        × IsTurnWithin limits.max_absolute plan.rz

  Goes-moved_to :
      (mode : TableMode) (current asked : V)
      → Goes mode current asked (moved_to num mode current asked)
  Goes-moved_to absolute current asked = refl
  Goes-moved_to relative current asked = refl

  Turns-turned_to :
      (mode : TableMode) (current : V) (asked : Option (Option V)) (turn : Option V)
      → turn_of asked ≡ ok turn
      → Turns mode current asked (turned_to num mode current turn)
  Turns-turned_to mode current none turn h = rw (← ok-injective h) refl
  Turns-turned_to mode current (some none) turn h = absurd (cc h)
  Turns-turned_to mode current (some (some asked)) turn h =
      rw (← ok-injective h)
        (moved_to num mode current asked, refl, Goes-moved_to mode current asked)

  within_turn :
      (limit : V) (turn : Option V) → turn_exceeds num limit turn ≡ false → IsTurnWithin limit turn
  within_turn limit none h = tt
  within_turn limit (some value) h = ground arith

  IsWithin-all :
      (limit x y : V) (turn : Option V)
      → not (any_exceeds num limit x y turn) ≡ true
      → IsWithin limit x × IsWithin limit y × IsTurnWithin limit turn
  IsWithin-all limit x y turn h =
      (ground arith, ground arith, within_turn limit turn (ground arith))

  within_asked :
      (limit : V) (asked : Option (Option V)) (turn : Option V)
      → turn_of asked ≡ ok turn
      → IsTurnWithin limit turn
      → IsTurnAskedWithin limit asked
  within_asked limit none turn h k = tt
  within_asked limit (some none) turn h k = tt
  within_asked limit (some (some value)) turn h k =
      subst (λ (t : Option V). IsTurnWithin limit t)
        (ok-injective {E = TableRefusal} {a = turn} {b = some value} (cc h)) k

  small_step :
      (limits : TableLimits V) (mode : TableMode) (x y : V) (asked : Option (Option V))
      → (turn : Option V) → turn_of asked ≡ ok turn
      → not (any_exceeds num (largest_step num mode limits) x y turn) ≡ true
      → mode ≡ relative
      → IsWithin limits.max_amount x
        × IsWithin limits.max_amount y
        × IsTurnAskedWithin limits.max_amount asked
  small_step limits absolute x y asked turn e h r = absurd (cc r)
  small_step limits relative x y asked turn e h r =
      let (in_x, in_y, in_turn) = IsWithin-all limits.max_amount x y turn h in
      (in_x, in_y, within_asked limits.max_amount asked turn e in_turn)

  plan_table_move-IsPlanned :
      (robot : Robot V) (params : TableParams V) (limits : TableLimits V) (plan : TablePlan V)
      → plan_table_move num robot params limits ≡ ok plan
      → IsPlanned robot params limits plan
  unfolding plan_table_move
  plan_table_move-IsPlanned robot params limits plan h =
      let (old, had, h1) = >>=-eq-ok _ _ h in
      let (mode, is_mode, h2) = >>=-eq-ok _ _ h1 in
      let (px, is_x, h3) = >>=-eq-ok _ _ h2 in
      let (py, is_y, h4) = >>=-eq-ok _ _ h3 in
      let (turn, is_turn, h5) = >>=-eq-ok _ _ h4 in
      let (step, h6) = guard-then-eq-ok _ _ _ h5 in
      let (end, same) = guard-then-eq-ok _ _ _ h6 in
      subst (λ (p : TablePlan V). IsPlanned robot params limits p) (ok-injective same)
        (record {
          old = old;
          had_table = or_err-eq-ok _ _ had;
          asked_x = px;
          asked_y = py;
          is_x = or_err-eq-ok _ _ is_x;
          is_y = or_err-eq-ok _ _ is_y;
          is_mode = mode_of-IsMode params.mode mode (or_err-eq-ok _ _ is_mode);
          goes_x = Goes-moved_to mode _ px;
          goes_y = Goes-moved_to mode _ py;
          turns = Turns-turned_to mode _ params.rz turn is_turn;
          small_step = small_step limits mode px py params.rz turn is_turn step;
          inside = IsWithin-all limits.max_absolute _ _ _ end;
        })

  -- The robot after a plan was applied, and what is broadcast of it.
  pub record IsApplied (robot : Robot V) (plan : TablePlan V) : Type ℓ where
    pub table_there :
        table_pos
          (apply_table_move robot plan).0.has_xy_table
          (apply_table_move robot plan).0.xy_table
        ≡ some (record { x = some plan.x; y = some plan.y })
    pub copy_x : (apply_table_move robot plan).0.pos.tx ≡ some plan.x
    pub copy_y : (apply_table_move robot plan).0.pos.ty ≡ some plan.y
    pub turned :
        (value : V) → plan.rz ≡ some value → (apply_table_move robot plan).0.pos.trz ≡ some value
    pub not_turned : plan.rz ≡ none → (apply_table_move robot plan).0.pos.trz ≡ robot.pos.trz
    pub told_table :
        (apply_table_move robot plan).1.xy_table ≡ (apply_table_move robot plan).0.xy_table
    pub told_pos : (apply_table_move robot plan).1.pos ≡ some (apply_table_move robot plan).0.pos

  applied :
      (robot : Robot V) (plan : TablePlan V) (old : TablePos V)
      → table_pos robot.has_xy_table robot.xy_table ≡ some old
      → IsApplied robot plan
  unfolding apply_table_move
  applied robot plan old had = record {
    table_there = table_pos-table_at robot.has_xy_table robot.xy_table plan.x plan.y old had;
    copy_x = refl;
    copy_y = refl;
    turned = λ value e. rw e refl;
    not_turned = λ e. rw e refl;
    told_table = refl;
    told_pos = refl;
  }

  -- A table move that is let through goes where the request says: to the coordinates that it names or,
  -- where it is relative, that far from where the table was, by steps within the limit of a step. The
  -- coordinates and the turn that it ends in are within the limit of a position. Applied, the table is
  -- there, so are the copies of its coordinates, the turn is the planned one or stays, and what is
  -- broadcast is what the robot has.
  pub plan_table_move-IsApplied :
      (robot : Robot V) (params : TableParams V) (limits : TableLimits V) (plan : TablePlan V)
      → plan_table_move num robot params limits ≡ ok plan
      → IsPlanned robot params limits plan × IsApplied robot plan
  plan_table_move-IsApplied robot params limits plan h =
      let p = plan_table_move-IsPlanned robot params limits plan h in
      (p, applied robot plan p.old p.had_table)
