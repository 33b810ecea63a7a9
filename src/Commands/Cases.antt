-- ===== src/Commands/Cases.antt =====
-- src/routes/commandRoutes.ts: what a command does to one robot that it reaches, parts of the cases of the switch.
use hydra_umc_server.Prelude.{
  ℕ, suc, zero, String, Option, none, some, Bool, true, false, ◌&&◌, List, [], ◌∷◌, leb,
  if◌then◌else◌,
}
use hydra_umc_server.Playback.{Joints, Position}
use hydra_umc_server.Robots.{
  PlaybackState, Point, TablePos, Robot, Patch, no_patch, playback_or_empty, stopped_playback_state,
  switch_all_off,
}
use hydra_umc_server.ModelHome.{Six, as_joints}
use hydra_umc_server.RobotEdit.{is_number}
use hydra_umc_server.RobotEdit.Plan.{copied}
use hydra_umc_server.Commands.{
  Axis, axis_x, axis_y, axis_z, axis_a, axis_b, axis_c, Effect, start_server_playback,
  stop_server_playback, Warning,
}

-- The robot after the command, the patch that is broadcast, and what else happens.
pub record Applied {ℓ} (V : Type ℓ) : Type ℓ where
  pub robot : Robot V
  pub patch : Option (Patch V)
  pub warnings : List Warning
  pub effects : List Effect

abbrev pub max_output_index : ℕ
max_output_index = 7

abbrev pub switched_off : Option (List Bool) → Option (List Bool)
switched_off none = none
switched_off (some outputs) = some (switch_all_off outputs)

-- `if (!outputs) outputs = [false, false]; outputs[index] = state`. What is between the end of the array
-- and the index is a hole.
abbrev pub set_at : ℕ → Bool → List Bool → List Bool
set_at zero on [] = on ∷ []
set_at zero on (old ∷ outputs) = on ∷ outputs
set_at (suc index) on [] = false ∷ set_at index on []
set_at (suc index) on (old ∷ outputs) = old ∷ set_at index on outputs

abbrev pub outputs_or_two : Option (List Bool) → List Bool
outputs_or_two none = false ∷ false ∷ []
outputs_or_two (some outputs) = outputs

-- An output with a valid index and a state.
abbrev pub output_of : Option ℕ → Option Bool → Option (ℕ × Bool)
output_of (some index) (some on) = if leb index max_output_index then some (index, on) else none
output_of _ _ = none

-- The axis of a table: x, or not x but y.
abbrev pub table_axis : Axis → Option Bool
table_axis axis_x = some true
table_axis axis_y = some false
table_axis _ = none

abbrev pub name_or_kept : Option String → Option String → Option String
name_or_kept none old = old
name_or_kept (some name) old = some name

module _ {ℓ} {V : Type ℓ} where
  abbrev pub unchanged : Robot V → Applied V
  unchanged robot = record { robot = robot; patch = none; warnings = []; effects = [] }

  abbrev pub warned : Robot V → Warning → Applied V
  warned robot warning = record {
    robot = robot;
    patch = none;
    warnings = warning ∷ [];
    effects = [];
  }

  abbrev pub changed : Robot V → Patch V → Applied V
  changed robot patch = record { robot = robot; patch = some patch; warnings = []; effects = [] }

  abbrev pub get_axis : Axis → Position V → Option V
  get_axis axis_x pos = pos.x
  get_axis axis_y pos = pos.y
  get_axis axis_z pos = pos.z
  get_axis axis_a pos = pos.a
  get_axis axis_b pos = pos.b
  get_axis axis_c pos = pos.c

  abbrev pub set_axis : Axis → Option V → Position V → Position V
  set_axis axis_x v pos = record pos { x = v }
  set_axis axis_y v pos = record pos { y = v }
  set_axis axis_z v pos = record pos { z = v }
  set_axis axis_a v pos = record pos { a = v }
  set_axis axis_b v pos = record pos { b = v }
  set_axis axis_c v pos = record pos { c = v }

  abbrev pub set_table_axis : Bool → Option V → TablePos V → TablePos V
  set_table_axis true v pos = record pos { x = v }
  set_table_axis false v pos = record pos { y = v }

  abbrev pub get_table_axis : Bool → TablePos V → Option V
  get_table_axis true pos = pos.x
  get_table_axis false pos = pos.y

  -- The older copy of the table's position, tx and ty.
  abbrev pub set_copy : Bool → Option V → Position V → Position V
  set_copy true v pos = record pos { tx = v }
  set_copy false v pos = record pos { ty = v }

  -- Six finite numbers, or no joints at all.
  abbrev pub valid_joints : Option (Six (Option V)) → Option (Joints V)
  valid_joints none = none
  valid_joints (some six) =
      if is_number six.j1
        && is_number six.j2
        && is_number six.j3
        && is_number six.j4
        && is_number six.j5
        && is_number six.j6
      then some (copied six)
      else none

  abbrev pub joints_or : Option (Joints V) → Joints V → Joints V
  joints_or none computed = computed
  joints_or (some sent) computed = sent

  -- `{ ...home }`: every robot that a reset reaches has one, and without one there would be no joints.
  abbrev pub home_joints : Option (Six V) → Joints V
  home_joints none = record { j1 = none; j2 = none; j3 = none; j4 = none; j5 = none; j6 = none }
  home_joints (some six) = as_joints six

  -- What `play` and a new trajectory do to the playback state.
  abbrev pub played : Option (PlaybackState V) → PlaybackState V
  played previous = record (playback_or_empty previous) {
    is_playing = true;
    playing = true;
    active_step = some 0;
    is_paused = some false;
    paused = false;
    request_pause = false;
    request_stop = false;
    is_finished = false;
    finished = false;
  }

  abbrev pub paused_as : Bool → Option (PlaybackState V) → PlaybackState V
  paused_as wanted previous = record (playback_or_empty previous) {
    is_playing = true;
    playing = true;
    is_paused = some wanted;
    paused = wanted;
    request_pause = wanted;
    request_stop = false;
    is_finished = false;
    finished = false;
  }

  abbrev pub loaded : Option (PlaybackState V) → PlaybackState V
  loaded previous = record (playback_or_empty previous) {
    is_playing = false;
    playing = false;
    is_paused = some false;
    paused = false;
    request_pause = false;
    request_stop = false;
    active_step = none;
    is_finished = false;
    finished = false;
  }

  unfoldable pub stop_robot : Robot V → Applied V
  stop_robot robot =
      let ps = stopped_playback_state robot.playback_state in
      record {
        robot = record robot { playback_state = some ps };
        patch = some (record no_patch { playback_state = some ps });
        warnings = [];
        effects = stop_server_playback robot.id ∷ [];
      }

  -- Safe mode.
  unfoldable pub disable_robot : Robot V → Applied V
  disable_robot robot =
      let ps = stopped_playback_state robot.playback_state in
      record {
        robot = record robot {
          enabled = some false;
          playback_state = some ps;
          valves = switched_off robot.valves;
          pumps = switched_off robot.pumps;
        };
        patch = some (record no_patch {
          enabled = some false;
          playback_state = some ps;
          valves = switched_off robot.valves;
          pumps = switched_off robot.pumps;
        });
        warnings = [];
        effects = stop_server_playback robot.id ∷ [];
      }

  -- `startServerPlayback`: without recorded points there is nothing to play, and no timer is started.
  abbrev pub started : List (Point V) → PlaybackState V → PlaybackState V
  started [] ps = record ps { is_playing = false; playing = false; active_step = none }
  started (point ∷ points) ps = ps

  abbrev pub start_effect : ℕ → List (Point V) → Effect
  start_effect robot_id [] = stop_server_playback robot_id
  start_effect robot_id (point ∷ points) = start_server_playback robot_id

  unfoldable pub play_robot : Robot V → Applied V
  play_robot robot =
      let ps = started robot.recorded_points (played robot.playback_state) in
      record {
        robot = record robot { playback_state = some ps };
        patch = some (record no_patch { playback_state = some ps });
        warnings = [];
        effects = start_effect robot.id robot.recorded_points ∷ [];
      }

  unfoldable pub pause_robot : Bool → Robot V → Applied V
  pause_robot wanted robot =
      let ps = paused_as wanted robot.playback_state in
      changed (record robot { playback_state = some ps })
        (record no_patch { playback_state = some ps })
