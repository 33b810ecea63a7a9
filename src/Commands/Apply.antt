-- ===== src/Commands/Apply.antt =====
-- src/routes/commandRoutes.ts: the rest of the switch, and the switch itself.
use hydra_umc_server.Prelude.{
  ℕ, String, Option, none, some, Bool, true, false, List, [], ◌∷◌, ◌++◌, ◌==◌, if◌then◌else◌,
  lookup, ℕ_discrete,
}
use hydra_umc_server.Robots.{PlaybackState, Point, Robot, Patch, no_patch}
use hydra_umc_server.Robots.Deltas.{merge}
use hydra_umc_server.TableCommand.{TablePlan, apply_table_move}
use hydra_umc_server.RobotEdit.{number_in, playback_or_initial}
use hydra_umc_server.Commands.{
  Command, stop, play, disable, enable, reset3d, pause, vision, jog, reset, jog_step, tool, valve,
  pump, speed, trajectory, move_table, edit, Config, Warning, speed_warning, acceleration_warning,
  Plan, no_plan, table_plan, home_plan, edit_plan, trajectory_plan,
}
use hydra_umc_server.Commands.Cases.{
  Applied, unchanged, changed, loaded, name_or_kept, stop_robot, disable_robot, play_robot,
  pause_robot,
}
use hydra_umc_server.Commands.Switch.{
  jog_robot, reset_arm, reset_table, set_valve, set_pump, set_jog_step,
}

module _ {ℓ} {V : Type ℓ} (cfg : Config V) where
  -- A setpoint that was sent and is between 10 and 500.
  abbrev pub valid_setpoint : Option (Option V) → Option V
  valid_setpoint (some (some v)) =
      if number_in cfg.num (cfg.num.of_nat 10) (cfg.num.of_nat 500) v then some v else none
  valid_setpoint _ = none

  abbrev pub is_rejected : Option (Option V) → Bool
  is_rejected none = false
  is_rejected (some sent) = elim (valid_setpoint (some sent)) [ none ↦ true | some v ↦ false ]

  abbrev pub with_speed : Option V → Option (PlaybackState V) → Option (PlaybackState V)
  with_speed none ps = ps
  with_speed (some v) ps = some (record (playback_or_initial cfg.num ps) { speed = some v })

  abbrev pub with_acceleration : Option V → Option (PlaybackState V) → Option (PlaybackState V)
  with_acceleration none ps = ps
  with_acceleration (some v) ps =
      some (record (playback_or_initial cfg.num ps) { acceleration = some v })

  abbrev pub touched : Option V → Option V → Option (PlaybackState V) → Option (Patch V)
  touched none none ps = none
  touched _ _ ps = some (record no_patch { playback_state = ps })

  abbrev pub warn_if : Bool → Warning → List Warning
  warn_if true warning = warning ∷ []
  warn_if false warning = []

  -- The setpoints that are valid are set, those that are not are warned of.
  unfoldable pub put_speed : Option V → Option V → List Warning → Robot V → Applied V
  put_speed v a warnings robot =
      let ps = with_acceleration a (with_speed v robot.playback_state) in
      record {
        robot = record robot { playback_state = ps };
        patch = touched v a ps;
        warnings = warnings;
        effects = [];
      }

  unfoldable pub set_speed : Option (Option V) → Option (Option V) → Robot V → Applied V
  unfolding put_speed
  set_speed wanted rate robot =
      put_speed (valid_setpoint wanted) (valid_setpoint rate)
        (warn_if (is_rejected wanted) (speed_warning robot.id)
          ++ warn_if (is_rejected rate) (acceleration_warning robot.id))
        robot

abbrev pub camera_set : Bool → Option Bool → Option Bool
camera_set on none = none
camera_set on (some connected) = some on

module _ {ℓ} {V : Type ℓ} where
  unfoldable pub load_trajectory :
      List (Point V) → Option String → Option String → Robot V → Applied V
  load_trajectory points file example robot =
      let ps = loaded robot.playback_state in
      changed
        (record robot {
          recorded_points = points;
          selected_work_file = name_or_kept file robot.selected_work_file;
          selected_example = name_or_kept example robot.selected_example;
          playback_state = some ps;
        })
        (record no_patch {
          recorded_points = some points;
          selected_work_file = file;
          selected_example = example;
          playback_state = some ps;
        })

  unfoldable pub move_table_of : TablePlan V → Robot V → Applied V
  move_table_of p robot = let (moved, patch) = apply_table_move robot p in changed moved patch

  unfoldable pub set_vision : Option Bool → Robot V → Applied V
  set_vision none robot = unchanged robot
  set_vision (some on) robot =
      changed
        (record robot {
          vision_enabled = some on;
          camera_connected = camera_set on robot.camera_connected;
        })
        (record no_patch {
          vision_enabled = some on;
          camera_connected = camera_set on robot.camera_connected;
        })

  unfoldable pub set_tool : Option String → Robot V → Applied V
  set_tool none robot = unchanged robot
  set_tool (some name) robot =
      changed (record robot { tool = some name }) (record no_patch { tool = some name })

  -- `Object.assign(robot, editPatch)`, of the target only.
  unfoldable pub apply_edit : ℕ → Patch V → Robot V → Applied V
  apply_edit target_id patch robot =
      if robot.id == target_id then changed (merge patch robot) patch else unchanged robot

module _ {ℓ} {V : Type ℓ} (cfg : Config V) where
  unfoldable pub planned : ℕ → Plan V → Robot V → Applied V
  unfolding move_table_of load_trajectory apply_edit
  planned target_id no_plan robot = unchanged robot
  planned target_id (table_plan p) robot = move_table_of p robot
  planned target_id (home_plan homes) robot = reset_arm cfg (lookup ℕ_discrete robot.id homes) robot
  planned target_id (edit_plan patch) robot = apply_edit target_id patch robot
  planned target_id (trajectory_plan points file example) robot =
      load_trajectory points file example robot

  -- The switch, at the time `now`, for one robot. `wanted` is the pause that was asked for.
  unfoldable pub apply_command : ℕ → Bool → ℕ → Command V → Plan V → Robot V → Applied V
  unfolding planned
  apply_command now wanted target_id stop p robot = stop_robot robot
  apply_command now wanted target_id disable p robot = disable_robot robot
  apply_command now wanted target_id enable p robot =
      changed (record robot { enabled = some true }) (record no_patch { enabled = some true })
  apply_command now wanted target_id play p robot = play_robot robot
  apply_command now wanted target_id (pause given) p robot = pause_robot wanted robot
  apply_command now wanted target_id (jog params) p robot = jog_robot cfg params robot
  apply_command now wanted target_id (reset true given) p robot = reset_table cfg robot
  apply_command now wanted target_id (reset false given) p robot = planned target_id p robot
  apply_command now wanted target_id (jog_step value) p robot = set_jog_step cfg value robot
  apply_command now wanted target_id reset3d p robot =
      changed (record robot { reset3d_trigger = some now })
        (record no_patch { reset3d_trigger = some now })
  apply_command now wanted target_id (tool name) p robot = set_tool name robot
  apply_command now wanted target_id (valve index on) p robot = set_valve index on robot
  apply_command now wanted target_id (pump index on) p robot = set_pump index on robot
  apply_command now wanted target_id (speed v a) p robot = set_speed cfg v a robot
  apply_command now wanted target_id (move_table params) p robot = planned target_id p robot
  apply_command now wanted target_id (trajectory params) p robot = planned target_id p robot
  apply_command now wanted target_id (edit params) p robot = planned target_id p robot
  apply_command now wanted target_id (vision on) p robot = set_vision on robot
