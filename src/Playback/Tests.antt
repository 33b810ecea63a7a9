-- ===== src/Playback/Tests.antt =====
-- The playback on a small example, with coordinates in whole numbers.
use hydra_umc_server.Prelude.{ℕ, none, some, true, false, List, [], ◌∷◌, refl}
use hydra_umc_server.Playback.{RecordedPoint, triplet, point, Joints, PlayedRobot, no_position}
use hydra_umc_server.Playback.Finish.{ticks, set_timer, IsFinished, ticks-IsFinished}

abbrev no_joints : Joints ℕ
no_joints = record { j1 = none; j2 = none; j3 = none; j4 = none; j5 = none; j6 = none }

abbrev points : List (RecordedPoint ℕ)
points =
    triplet (some 10) (some 20) (some 30)
    ∷ point false no_joints (record no_position { x = some 5; tx = some 900 })
    ∷ []

abbrev robot : PlayedRobot ℕ
robot = record {
  playback_state = record {
    is_playing = true;
    playing = true;
    is_paused = false;
    request_pause = false;
    request_stop = false;
    is_looping = false;
    is_finished = false;
    finished = false;
    active_step = none;
    trajectory_mode = none;
  };
  recorded_points = some points;
  joints = no_joints;
  pos = no_position;
  has_xy_table = false;
  xy_table = some (record { x = some 1; y = some 2 });
}

ticks-IsFinished_example : IsFinished points (ticks 3 (set_timer robot []))
ticks-IsFinished_example =
    ticks-IsFinished 2 robot points []
      (record {
        is_on = refl;
        not_stopped = refl;
        not_paused = refl;
        not_held = refl;
        not_looping = refl;
      })
      refl refl
