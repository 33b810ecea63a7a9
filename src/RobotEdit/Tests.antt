-- ===== src/RobotEdit/Tests.antt =====
-- Edits on small examples.
use hydra_umc_server.Prelude.{
  ℕ, ◌+◌, ◌≤◌, Option, none, some, true, false, List, [], ◌∷◌, length, All, ◌≡◌, refl, leb,
}
use hydra_umc_server.Robots.{
  Numbers, PointField, f_x, f_y, f_z, Point, Robot, Patch, no_patch, includes,
}
use hydra_umc_server.RobotEdit.{
  RawPoint, no_type, Patterns, checked_point, clean_point, clean_all, clean_points,
  max_recorded_points, all_exist, value_of, unique, unique_from,
}
use hydra_umc_server.RobotEdit.Plan.{plan_robot_edit}
use hydra_umc_server.RobotEdit.Sound.{IsUsable, clean_points-IsUsable}
use hydra_umc_server.RobotEdit.Combine.{NoneTwice, plan_robot_edit-combine}

abbrev at_origin : PointField → Option (Option ℕ)
at_origin f_x = some (some 0)
at_origin f_y = some (some 0)
at_origin f_z = some (some 0)
at_origin _ = none

abbrev raw : RawPoint ℕ
raw = record { field = at_origin; motion_type = no_type }

abbrev cleaned : List (Point ℕ)
cleaned = record { field = λ f. value_of (at_origin f); is_model_joints = false } ∷ []

clean_points-IsUsable_example :
    (1 ≤ length cleaned) × (length cleaned ≤ max_recorded_points) × All IsUsable cleaned
unfolding clean_points clean_all clean_point checked_point
clean_points-IsUsable_example = clean_points-IsUsable (some (some raw ∷ [])) 1 cleaned refl

abbrev whole : Numbers ℕ
whole = record {
  of_nat = λ n. n;
  hundredths = λ n. n;
  plus = ◌+◌;
  neg = λ n. n;
  abs = λ n. n;
  le = leb;
}

abbrev any_name : Patterns
any_name = record {
  trim = λ s. s;
  is_model_name = λ _. true;
  is_work_file = λ _. true;
  is_example_id = λ _. true;
}

abbrev alone : Robot ℕ
alone = record {
  controller_id = "c1";
  id = 1;
  model = "m";
  role = none;
  enabled = none;
  reservation = none;
  combined_with = [];
  playback_state = none;
  pos = record {
    x = none;
    y = none;
    z = none;
    a = none;
    b = none;
    c = none;
    tx = none;
    ty = none;
    trz = none;
  };
  joints = record { j1 = none; j2 = none; j3 = none; j4 = none; j5 = none; j6 = none };
  has_xy_table = false;
  xy_table = none;
  tool = none;
  valves = none;
  pumps = none;
  jog_step = none;
  reset3d_trigger = none;
  recorded_points = [];
  selected_work_file = none;
  selected_example = none;
  vision_enabled = none;
  camera_connected = none;
}

abbrev joined : Patch ℕ
joined = record no_patch { combined_with = some (2 ∷ 3 ∷ []) }

plan_robot_edit-combine_example :
    (ids : List ℕ) × (joined.combined_with ≡ some ids)
    × NoneTwice ids
    × (includes 1 ids ≡ false)
    × (all_exist (1 ∷ 2 ∷ 3 ∷ []) ids ≡ true)
unfolding plan_robot_edit unique unique_from
plan_robot_edit-combine_example =
    plan_robot_edit-combine whole any_name (some (some 2 ∷ some 3 ∷ some 2 ∷ [])) alone
      (1 ∷ 2 ∷ 3 ∷ []) joined refl
