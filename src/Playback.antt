-- ===== src/Playback.antt =====
-- src/playback.ts: the playback of the recorded points of a robot, one tick of its timer after the
-- other. Coordinates are only copied, so they are of any type `V`; a coordinate that is not a number is
-- `none`. The robot that findRobotById finds is the argument of `tick`, `none` where it finds none.
pub mod Finish
pub mod Table
mod Tests
use hydra_umc_server.Prelude.{
  ℕ, zero, suc, ◌+◌, Option, none, some, Bool, true, false, ◌&&◌, ◌||◌, List, [], ◌∷◌, length, drop,
  not, leb, ltb, if◌then◌else◌,
}

pub record Joints {ℓ} (V : Type ℓ) : Type ℓ where
  pub j1 : Option V
  pub j2 : Option V
  pub j3 : Option V
  pub j4 : Option V
  pub j5 : Option V
  pub j6 : Option V

pub record Position {ℓ} (V : Type ℓ) : Type ℓ where
  pub x : Option V
  pub y : Option V
  pub z : Option V
  pub a : Option V
  pub b : Option V
  pub c : Option V
  pub tx : Option V
  pub ty : Option V
  pub trz : Option V

pub record TablePosition {ℓ} (V : Type ℓ) : Type ℓ where
  pub x : Option V
  pub y : Option V

-- A recorded point: a triplet of joints, or a point with all its fields.
pub data RecordedPoint {ℓ} (V : Type ℓ) : Type ℓ where
  triplet : Option V → Option V → Option V → RecordedPoint V
  point : Bool → Joints V → Position V → RecordedPoint V

pub data TrajectoryMode : Type 0 where
  model_joints cartesian legacy_generic : TrajectoryMode

pub record PlaybackState : Type 0 where
  pub is_playing : Bool
  pub playing : Bool
  pub is_paused : Bool
  pub request_pause : Bool
  pub request_stop : Bool
  pub is_looping : Bool
  pub is_finished : Bool
  pub finished : Bool
  pub active_step : Option ℕ
  pub trajectory_mode : Option TrajectoryMode

pub record PlayedRobot {ℓ} (V : Type ℓ) : Type ℓ where
  pub playback_state : PlaybackState
  pub recorded_points : Option (List (RecordedPoint V))
  pub joints : Joints V
  pub pos : Position V
  pub has_xy_table : Bool
  pub xy_table : Option (TablePosition V)

pub data PlaybackEffect : Type 0 where
  queue_settings_write broadcast_robot_delta push_job_finished : PlaybackEffect

pub record Ticked {ℓ} (V : Type ℓ) : Type ℓ where
  pub robot : Option (PlayedRobot V)
  pub is_timer_set : Bool
  pub effects : List PlaybackEffect

abbrev pub step_of : Option ℕ → ℕ
step_of none = 0
step_of (some step) = step

abbrev pub ended : PlaybackState → PlaybackState
ended pb = record pb {
  is_playing = false;
  playing = false;
  is_finished = true;
  finished = true;
  active_step = none;
}

module _ {ℓ} {V : Type ℓ} where
  abbrev pub or_else : Option V → Option V → Option V
  or_else none v = v
  or_else (some u) v = some u

  abbrev pub is_number : Option V → Bool
  is_number none = false
  is_number (some v) = true

  abbrev pub no_position : Position V
  no_position = record {
    x = none;
    y = none;
    z = none;
    a = none;
    b = none;
    c = none;
    tx = none;
    ty = none;
    trz = none;
  }

  abbrev pub joints_of : RecordedPoint V → Joints V
  joints_of (triplet j1 j2 j3) = record {
    j1 = j1;
    j2 = j2;
    j3 = j3;
    j4 = none;
    j5 = none;
    j6 = none;
  }
  joints_of (point is_model joints pos) = joints

  abbrev pub position_of : RecordedPoint V → Position V
  position_of (triplet j1 j2 j3) = no_position
  position_of (point is_model joints pos) = pos

  abbrev pub is_model_joints : RecordedPoint V → Bool
  is_model_joints (triplet j1 j2 j3) = true
  is_model_joints (point is_model joints pos) = is_model

  pub move_joints : Joints V → Joints V → Joints V
  move_joints pt joints =
      if is_number pt.j1
      then record {
        j1 = pt.j1;
        j2 = pt.j2;
        j3 = pt.j3;
        j4 = or_else pt.j4 joints.j4;
        j5 = or_else pt.j5 joints.j5;
        j6 = or_else pt.j6 joints.j6;
      }
      else joints

  pub move_arm : Position V → Position V → Position V
  move_arm pt pos =
      if is_number pt.x
      then record pos {
        x = pt.x;
        y = pt.y;
        z = pt.z;
        a = or_else pt.a pos.a;
        b = or_else pt.b pos.b;
        c = or_else pt.c pos.c;
      }
      else pos

  abbrev pub moves_table : Bool → Position V → Bool
  moves_table has_xy_table pt =
      has_xy_table && (is_number pt.tx || is_number pt.ty || is_number pt.trz)

  pub move_placement : Bool → Position V → Position V → Position V
  move_placement has_xy_table pt pos =
      if moves_table has_xy_table pt
      then record pos {
        tx = or_else pt.tx pos.tx;
        ty = or_else pt.ty pos.ty;
        trz = or_else pt.trz pos.trz;
      }
      else pos

  abbrev pub table_to : Position V → Option (TablePosition V) → Option (TablePosition V)
  table_to pt none = none
  table_to pt (some table) = some (record { x = or_else pt.tx table.x; y = or_else pt.ty table.y })

  pub move_table : Bool → Position V → Option (TablePosition V) → Option (TablePosition V)
  move_table has_xy_table pt table =
      if moves_table has_xy_table pt then table_to pt table else table

  abbrev pub mode_of : RecordedPoint V → TrajectoryMode
  mode_of pt =
      if is_model_joints pt
      then model_joints
      else if is_number (position_of pt).x
      then cartesian
      else legacy_generic

  -- The robot at a point, and on its way to the next step.
  pub go_to : RecordedPoint V → ℕ → PlayedRobot V → PlayedRobot V
  unfolding move_joints move_arm move_placement move_table
  go_to pt step r = record r {
    joints = move_joints (joints_of pt) r.joints;
    pos = move_placement r.has_xy_table (position_of pt) (move_arm (position_of pt) r.pos);
    xy_table = move_table r.has_xy_table (position_of pt) r.xy_table;
    playback_state = record r.playback_state {
      active_step = some (step + 1);
      trajectory_mode = some (mode_of pt);
    };
  }

  abbrev pub is_some_point : Option (List (RecordedPoint V)) → Bool
  is_some_point none = false
  is_some_point (some []) = false
  is_some_point (some (pt ∷ pts)) = true

  abbrev pub point_at : ℕ → Option (List (RecordedPoint V)) → Option (RecordedPoint V)
  point_at step none = none
  point_at step (some []) = none
  point_at zero (some (pt ∷ pts)) = some pt
  point_at (suc step) (some (pt ∷ pts)) = point_at step (some pts)

  -- Past the last point: once more from the first, or the end.
  pub after_last : PlayedRobot V → Ticked V
  after_last r =
      if r.playback_state.is_looping && is_some_point r.recorded_points
      then record {
        robot =
            some (record r { playback_state = record r.playback_state { active_step = some 0 } });
        is_timer_set = true;
        effects = queue_settings_write ∷ broadcast_robot_delta ∷ [];
      }
      else record {
        robot = some (record r { playback_state = ended r.playback_state });
        is_timer_set = false;
        effects = queue_settings_write ∷ broadcast_robot_delta ∷ push_job_finished ∷ [];
      }

  abbrev pub at_point : ℕ → PlayedRobot V → Option (RecordedPoint V) → Ticked V
  unfolding after_last go_to
  at_point step r none = after_last r
  at_point step r (some pt) = record {
    robot = some (go_to pt step r);
    is_timer_set = true;
    effects = queue_settings_write ∷ broadcast_robot_delta ∷ [];
  }

  abbrev pub tick_robot : PlayedRobot V → Ticked V
  unfolding at_point
  tick_robot r =
      let pb = r.playback_state in
      let step = step_of pb.active_step in
      if not pb.is_playing || pb.request_stop
      then record { robot = some r; is_timer_set = false; effects = [] }
      else if pb.is_paused || pb.request_pause
      then record { robot = some r; is_timer_set = true; effects = [] }
      else at_point step r (point_at step r.recorded_points)

  -- One tick of the timer.
  pub tick : Option (PlayedRobot V) → Ticked V
  unfolding tick_robot
  tick none = record { robot = none; is_timer_set = false; effects = [] }
  tick (some r) = tick_robot r
