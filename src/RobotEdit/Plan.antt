-- ===== src/RobotEdit/Plan.antt =====
-- src/robotEdit.ts: what an edit would change, without changing anything.
use hydra_umc_server.Prelude.{
  ℕ, Option, none, some, Bool, true, false, List, ◌&&◌, ◌||◌, not, leb, length, Result, ok, err,
  ◌>>=◌, ◌>>◌, guard, or_err,
}
use hydra_umc_server.Playback.{Joints}
use hydra_umc_server.Robots.{
  Numbers, XyTable, TablePos, Robot, Patch, no_patch, is_playing, includes,
}
use hydra_umc_server.ModelHome.{Six}
use hydra_umc_server.RobotEdit.{
  EditRefusal, robot_running, invalid_loop, invalid_model, invalid_role, invalid_combine,
  invalid_joints, invalid_table, Patterns, RawTable, Edit, points, loop, model, role, combine,
  joints, xy_table_config, clean_points, unique, all_numbers, all_exist, is_listed, robot_roles,
  number_in, are_joint_values, playback_or_initial, max_combined,
}

abbrev pub is_given {ℓ} : {A : Type ℓ} → Option A → Bool
is_given none = false
is_given (some a) = true

-- A setting that may be left out, and is refused unless it is of its kind and within its bounds.
abbrev pub setting {ℓ} :
    {A : Type ℓ} → (A → Bool) → Option (Option A) → Result EditRefusal (Option A)
setting test none = ok none
setting test (some none) = err invalid_table
setting test (some (some a)) = do guard (test a) invalid_table; ok (some a)

abbrev pub or_kept {ℓ} : {A : Type ℓ} → Option A → Option A → Option A
or_kept none old = old
or_kept (some new) old = some new

module _ {ℓ} {V : Type ℓ} where
  -- `isObject(robot.xyTable) ? robot.xyTable : {}`
  abbrev pub table_or_empty : Option (XyTable V) → XyTable V
  table_or_empty (some table) = table
  table_or_empty none = record {
    pos = none;
    table_size = none;
    world_pos = none;
    world_rot = none;
    render_scale = none;
  }

  abbrev pub any_given : RawTable V → Bool
  any_given raw =
      is_given raw.enabled
      || is_given raw.table_size
      || is_given raw.world_pos
      || is_given raw.world_rot
      || is_given raw.render_scale

  abbrev pub copied : Six (Option V) → Joints V
  copied s = record { j1 = s.j1; j2 = s.j2; j3 = s.j3; j4 = s.j4; j5 = s.j5; j6 = s.j6 }

module _ {ℓ} {V : Type ℓ} (num : Numbers V) where
  abbrev pub within : ℕ → V → Bool
  within limit v = number_in num (num.neg (num.of_nat limit)) (num.of_nat limit) v

  abbrev pub is_size : V × V → Bool
  is_size (width, length) =
      number_in num (num.of_nat 1) (num.of_nat 5000) width
      && number_in num (num.of_nat 1) (num.of_nat 5000) length

  abbrev pub is_place : V × V → Bool
  is_place (x, y) = within 100000 x && within 100000 y

  abbrev pub pos_or_origin : Option (TablePos V) → TablePos V
  pos_or_origin (some pos) = pos
  pos_or_origin none = record { x = some (num.of_nat 0); y = some (num.of_nat 0) }

  unfoldable pub plan_table_config : RawTable V → Robot V → Result EditRefusal (Patch V)
  plan_table_config raw robot = do
    let old = table_or_empty robot.xy_table
    enabled ← setting (λ _. true) raw.enabled
    size ← setting is_size raw.table_size
    place ← setting is_place raw.world_pos
    rot ← setting (within 3600) raw.world_rot
    scale ← setting (number_in num (num.hundredths 1) (num.of_nat 100)) raw.render_scale
    guard (any_given raw) invalid_table
    let table : XyTable V = record {
      pos = some (pos_or_origin old.pos);
      table_size = or_kept size old.table_size;
      world_pos = or_kept place old.world_pos;
      world_rot = or_kept rot old.world_rot;
      render_scale = or_kept scale old.render_scale;
    }
    ok (record no_patch { has_xy_table = enabled; xy_table = some table })

  -- Checks one edit command against the robot, whose controller has the robots `siblings`, and says what
  -- it would change.
  unfoldable pub plan_robot_edit :
      Patterns → Edit V → Robot V → List ℕ → Result EditRefusal (Patch V)
  unfolding plan_table_config
  plan_robot_edit pat (points raw) robot siblings = do
    guard (not (is_playing robot)) robot_running
    cleaned ← clean_points raw 0
    ok (record no_patch { recorded_points = some cleaned })
  plan_robot_edit pat (loop raw) robot siblings = do
    value ← or_err raw invalid_loop
    ok (record no_patch {
      playback_state =
          some (record (playback_or_initial num robot.playback_state) { is_looping = value });
    })
  plan_robot_edit pat (model raw) robot siblings = do
    name ← or_err raw invalid_model
    guard (pat.is_model_name (pat.trim name)) invalid_model
    guard (not (is_playing robot)) robot_running
    ok (record no_patch { model = some (pat.trim name) })
  plan_robot_edit pat (role raw) robot siblings = do
    name ← or_err raw invalid_role
    guard (is_listed name robot_roles) invalid_role
    ok (record no_patch { role = some name })
  plan_robot_edit pat (combine raw) robot siblings = do
    given ← or_err raw invalid_combine
    guard (leb (length given) max_combined) invalid_combine
    ids ← or_err (all_numbers given) invalid_combine
    guard (not (includes robot.id (unique ids))) invalid_combine
    guard (all_exist siblings (unique ids)) invalid_combine
    ok (record no_patch { combined_with = some (unique ids) })
  plan_robot_edit pat (joints raw) robot siblings = do
    six ← or_err raw invalid_joints
    guard (are_joint_values num six) invalid_joints
    ok (record no_patch { joints = some (copied six) })
  plan_robot_edit pat (xy_table_config raw) robot siblings = plan_table_config raw robot
