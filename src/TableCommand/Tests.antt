-- ===== src/TableCommand/Tests.antt =====
-- A table move and a reset on whole numbers.
use hydra_umc_server.Prelude.{ℕ, ◌+◌, none, some, true, [], refl, leb}
use hydra_umc_server.Robots.{Numbers, Robot}
use hydra_umc_server.TableCommand.{TableLimits, TableParams, TablePlan, relative, plan_table_move}
use hydra_umc_server.TableCommand.Bounds.{IsPlanned, IsApplied, plan_table_move-IsApplied}

abbrev whole : Numbers ℕ
whole = record {
  of_nat = λ n. n;
  hundredths = λ n. n;
  plus = ◌+◌;
  neg = λ n. n;
  abs = λ n. n;
  le = leb;
}

abbrev with_table : Robot ℕ
with_table = record {
  controller_id = "c1";
  id = 1;
  model = "m";
  role = none;
  enabled = none;
  reservation = none;
  combined_with = [];
  playback_state = none;
  pos = record {
    x = none;
    y = none;
    z = none;
    a = none;
    b = none;
    c = none;
    tx = none;
    ty = none;
    trz = none;
  };
  joints = record { j1 = none; j2 = none; j3 = none; j4 = none; j5 = none; j6 = none };
  has_xy_table = true;
  xy_table = some (record {
    pos = some (record { x = some 10; y = some 20 });
    table_size = none;
    world_pos = none;
    world_rot = none;
    render_scale = none;
  });
  tool = none;
  valves = none;
  pumps = none;
  jog_step = none;
  reset3d_trigger = none;
  recorded_points = [];
  selected_work_file = none;
  selected_example = none;
  vision_enabled = none;
  camera_connected = none;
}

abbrev params : TableParams ℕ
params = record { x = some 5; y = some 5; rz = none; mode = some (some relative) }

abbrev limits : TableLimits ℕ
limits = record { max_amount = 10; max_absolute = 100 }

abbrev expected : TablePlan ℕ
expected = record { mode = relative; x = 15; y = 25; rz = none }

plan_table_move-IsApplied_example :
    IsPlanned whole with_table params limits expected × IsApplied whole with_table expected
unfolding plan_table_move
plan_table_move-IsApplied_example =
    plan_table_move-IsApplied whole with_table params limits expected refl
