-- ===== src/Commands/Sync.antt =====
-- The patches of the deltas: a client that merges them has the robots of the server.
use hydra_umc_server.Prelude.{
  ℕ, String, Option, none, some, Bool, true, false, List, ◌++◌, ◌≡◌, refl, if_both, ◌==◌,
}
use hydra_umc_server.Robots.{Point, XyTable, TablePos, Robot, Patch}
use hydra_umc_server.Robots.Deltas.{merge, replace_field}
use hydra_umc_server.TableCommand.{TablePlan, table_at, apply_table_move}
use hydra_umc_server.Commands.{
  Axis, JogTarget, to_robot, to_table, to_other, JogParams, Command, stop, play, disable, enable,
  reset3d, pause, vision, jog, reset, jog_step, tool, valve, pump, speed, trajectory, move_table,
  edit, Config, Warning, speed_warning, acceleration_warning, Plan, no_plan, table_plan, home_plan,
  edit_plan, trajectory_plan,
}
use hydra_umc_server.Commands.Cases.{
  Applied, switched_off, unchanged, changed, name_or_kept, stop_robot, disable_robot, play_robot,
  pause_robot, table_axis, output_of,
}
use hydra_umc_server.Commands.Switch.{
  valid_jog, table_of, jog_arm, jog_table, jog_to, jog_robot, reset_arm, reset_table_of,
  reset_table, put_valve, set_valve, put_pump, set_pump, put_jog_step, set_jog_step, positive_step,
}
use hydra_umc_server.Commands.Apply.{
  warn_if, is_rejected, put_speed, set_speed, valid_setpoint, load_trajectory, move_table_of,
  set_vision, set_tool, apply_edit, planned, apply_command, camera_set,
}

off-replaced : (o : Option (List Bool)) → replace_field (switched_off o) o ≡ switched_off o
off-replaced none = refl
off-replaced (some outputs) = refl

name-replaced : (new old : Option String) → replace_field new old ≡ name_or_kept new old
name-replaced none old = refl
name-replaced (some name) old = refl

camera-replaced :
    (on : Bool) (o : Option Bool) → replace_field (camera_set on o) o ≡ camera_set on o
camera-replaced on none = refl
camera-replaced on (some connected) = refl

module _ {ℓ} {V : Type ℓ} where
  -- The copy of a client after the patch, if there is one.
  abbrev pub merged : Option (Patch V) → Robot V → Robot V
  merged none robot = robot
  merged (some patch) robot = merge patch robot

  -- What was told of the robot is what became of it.
  abbrev pub IsTold : Robot V → Applied V → Type ℓ
  IsTold robot a = merged a.patch robot ≡ a.robot

  table-replaced :
      (x y : V) (o : Option (XyTable V)) → replace_field (table_at x y o) o ≡ table_at x y o
  table-replaced x y none = refl
  table-replaced x y (some old) = refl

  disable_robot-IsTold : (robot : Robot V) → IsTold robot (disable_robot robot)
  unfolding disable_robot merge
  disable_robot-IsTold robot = λ i. record (disable_robot robot).robot {
    valves = off-replaced robot.valves i;
    pumps = off-replaced robot.pumps i;
  }

  move_table_of-IsTold : (p : TablePlan V) (robot : Robot V) → IsTold robot (move_table_of p robot)
  unfolding move_table_of apply_table_move merge
  move_table_of-IsTold p robot = λ i. record (move_table_of p robot).robot {
    xy_table = table-replaced p.x p.y robot.xy_table i;
  }

  jog_table-IsTold :
      (cfg : Config V) (absolute : Bool) (axis : Option Bool) (amount : V)
      → (found : Option (XyTable V × TablePos V)) (robot : Robot V)
      → IsTold robot (jog_table cfg absolute axis amount found robot)
  unfolding jog_table merge
  jog_table-IsTold cfg absolute none amount found robot = refl
  jog_table-IsTold cfg absolute (some is_x) amount none robot = refl
  jog_table-IsTold cfg true (some is_x) amount (some old) robot = refl
  jog_table-IsTold cfg false (some is_x) amount (some old) robot = refl

  put_speed-IsTold :
      (cfg : Config V) (v a : Option V) (warnings : List Warning) (robot : Robot V)
      → IsTold robot (put_speed cfg v a warnings robot)
  unfolding put_speed merge
  put_speed-IsTold cfg none none warnings robot = refl
  put_speed-IsTold cfg none (some a) warnings robot = refl
  put_speed-IsTold cfg (some v) none warnings robot = refl
  put_speed-IsTold cfg (some v) (some a) warnings robot = refl

  load_trajectory-IsTold :
      (points : List (Point V)) (file example : Option String) (robot : Robot V)
      → IsTold robot (load_trajectory points file example robot)
  unfolding load_trajectory merge
  load_trajectory-IsTold points file example robot = λ i.
      record (load_trajectory points file example robot).robot {
        selected_work_file = name-replaced file robot.selected_work_file i;
        selected_example = name-replaced example robot.selected_example i;
      }

  set_vision-IsTold : (on : Option Bool) (robot : Robot V) → IsTold robot (set_vision on robot)
  unfolding set_vision merge
  set_vision-IsTold none robot = refl
  set_vision-IsTold (some on) robot = λ i. record (set_vision (some on) robot).robot {
    camera_connected = camera-replaced on robot.camera_connected i;
  }

  set_tool-IsTold : (name : Option String) (robot : Robot V) → IsTold robot (set_tool name robot)
  unfolding set_tool merge
  set_tool-IsTold none robot = refl
  set_tool-IsTold (some name) robot = refl

  put_valve-IsTold : (o : Option (ℕ × Bool)) (robot : Robot V) → IsTold robot (put_valve o robot)
  unfolding put_valve merge
  put_valve-IsTold none robot = refl
  put_valve-IsTold (some (i, on)) robot = refl

  put_pump-IsTold : (o : Option (ℕ × Bool)) (robot : Robot V) → IsTold robot (put_pump o robot)
  unfolding put_pump merge
  put_pump-IsTold none robot = refl
  put_pump-IsTold (some (i, on)) robot = refl

  apply_edit-IsTold :
      (target_id : ℕ) (patch : Patch V) (robot : Robot V)
      → IsTold robot (apply_edit target_id patch robot)
  unfolding apply_edit
  apply_edit-IsTold target_id patch robot =
      if_both (λ (a : Applied V). IsTold robot a) (robot.id == target_id)
        {x = changed (merge patch robot) patch} {y = unchanged robot} (λ _. refl) (λ _. refl)

  module _ (cfg : Config V) where
    jog_to-IsTold :
        (p : JogParams V) (target : JogTarget) (o : Option (Axis × V)) (robot : Robot V)
        → IsTold robot (jog_to cfg p target o robot)
    unfolding jog_to jog_arm merge
    jog_to-IsTold p target none robot = refl
    jog_to-IsTold p to_robot (some (axis, amount)) robot = refl
    jog_to-IsTold p to_table (some (axis, amount)) robot =
        jog_table-IsTold cfg p.absolute (table_axis axis) amount (table_of cfg robot) robot
    jog_to-IsTold p to_other (some (axis, amount)) robot = refl

    reset_table_of-IsTold :
        (has : Bool) (o : Option (XyTable V)) (robot : Robot V)
        → IsTold robot (reset_table_of cfg has o robot)
    unfolding reset_table_of merge
    reset_table_of-IsTold true (some old) robot = refl
    reset_table_of-IsTold true none robot = refl
    reset_table_of-IsTold false o robot = refl

    put_jog_step-IsTold : (o : Option V) (robot : Robot V) → IsTold robot (put_jog_step cfg o robot)
    unfolding put_jog_step merge
    put_jog_step-IsTold none robot = refl
    put_jog_step-IsTold (some v) robot = refl

    set_speed-IsTold :
        (wanted rate : Option (Option V)) (robot : Robot V)
        → IsTold robot (set_speed cfg wanted rate robot)
    unfolding set_speed
    set_speed-IsTold wanted rate robot =
        let warnings =
          warn_if cfg (is_rejected cfg wanted) (speed_warning robot.id)
          ++ warn_if cfg (is_rejected cfg rate) (acceleration_warning robot.id) in
        put_speed-IsTold cfg (valid_setpoint cfg wanted) (valid_setpoint cfg rate) warnings robot

    planned-IsTold :
        (target_id : ℕ) (p : Plan V) (robot : Robot V)
        → IsTold robot (planned cfg target_id p robot)
    unfolding planned reset_arm merge
    planned-IsTold target_id no_plan robot = refl
    planned-IsTold target_id (table_plan p) robot = move_table_of-IsTold p robot
    planned-IsTold target_id (home_plan homes) robot = refl
    planned-IsTold target_id (edit_plan patch) robot = apply_edit-IsTold target_id patch robot
    planned-IsTold target_id (trajectory_plan points file example) robot =
        load_trajectory-IsTold points file example robot

    -- The patch that is broadcast of a robot is all that a command changed of it: a copy of the robot of
    -- before becomes the robot of after by merging the patch, and without a patch nothing was changed.
    pub apply_command-IsTold :
        (now : ℕ) (wanted : Bool) (target_id : ℕ) (command : Command V) (p : Plan V)
        → (robot : Robot V) → IsTold robot (apply_command cfg now wanted target_id command p robot)
    unfolding apply_command stop_robot play_robot pause_robot jog_robot reset_table set_jog_step
        set_valve set_pump merge
    apply_command-IsTold now wanted target_id stop p robot = refl
    apply_command-IsTold now wanted target_id disable p robot = disable_robot-IsTold robot
    apply_command-IsTold now wanted target_id enable p robot = refl
    apply_command-IsTold now wanted target_id play p robot = refl
    apply_command-IsTold now wanted target_id (pause given) p robot = refl
    apply_command-IsTold now wanted target_id (jog params) p robot =
        jog_to-IsTold params params.target (valid_jog cfg params robot) robot
    apply_command-IsTold now wanted target_id (reset true given) p robot =
        reset_table_of-IsTold robot.has_xy_table robot.xy_table robot
    apply_command-IsTold now wanted target_id (reset false given) p robot =
        planned-IsTold target_id p robot
    apply_command-IsTold now wanted target_id (jog_step value) p robot =
        put_jog_step-IsTold (positive_step cfg value) robot
    apply_command-IsTold now wanted target_id reset3d p robot = refl
    apply_command-IsTold now wanted target_id (tool name) p robot = set_tool-IsTold name robot
    apply_command-IsTold now wanted target_id (valve index on) p robot =
        put_valve-IsTold (output_of index on) robot
    apply_command-IsTold now wanted target_id (pump index on) p robot =
        put_pump-IsTold (output_of index on) robot
    apply_command-IsTold now wanted target_id (speed v a) p robot = set_speed-IsTold v a robot
    apply_command-IsTold now wanted target_id (move_table params) p robot =
        planned-IsTold target_id p robot
    apply_command-IsTold now wanted target_id (trajectory params) p robot =
        planned-IsTold target_id p robot
    apply_command-IsTold now wanted target_id (edit params) p robot =
        planned-IsTold target_id p robot
    apply_command-IsTold now wanted target_id (vision on) p robot = set_vision-IsTold on robot
