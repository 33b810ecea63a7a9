-- ===== src/Commands/Service.antt =====
-- Only `enable` and `disable` change whether a robot is in service.
use hydra_umc_server.Prelude.{
  ℕ, String, Option, none, some, Bool, true, false, ◌≡◌, refl, ap, if_both, ◌==◌,
}
use hydra_umc_server.Robots.{XyTable, TablePos, Robot, Patch}
use hydra_umc_server.Robots.Deltas.{merge, replace_field}
use hydra_umc_server.TableCommand.{apply_table_move}
use hydra_umc_server.Commands.{
  Axis, JogTarget, to_table, JogParams, Command, stop, disable, enable, vision, jog, reset,
  jog_step, tool, valve, pump, trajectory, move_table, edit, Config, Plan, no_plan, table_plan,
  home_plan, edit_plan, trajectory_plan, works_on_a_disabled_robot,
}
use hydra_umc_server.Commands.Cases.{
  Applied, unchanged, changed, play_robot, pause_robot, table_axis, output_of,
}
use hydra_umc_server.Commands.Switch.{
  valid_jog, table_of, jog_arm, jog_table, jog_to, jog_robot, reset_arm, reset_table_of,
  reset_table, put_valve, set_valve, put_pump, set_pump, put_jog_step, set_jog_step, positive_step,
}
use hydra_umc_server.Commands.Apply.{
  put_speed, set_speed, load_trajectory, move_table_of, set_vision, set_tool, apply_edit, planned,
  apply_command,
}

module _ {ℓ} {V : Type ℓ} where
  -- The robot is in service if it was, and disabled if it was.
  abbrev pub KeepsService : Robot V → Applied V → Type 0
  KeepsService robot a = a.robot.enabled ≡ robot.enabled

  -- An edit does not say whether a robot is in service.
  abbrev pub IsEdit : Plan V → Type 0
  IsEdit (edit_plan patch) = patch.enabled ≡ none
  IsEdit _ = Unit

  module _ (cfg : Config V) where
    jog_table-keeps :
        (absolute : Bool) (axis : Option Bool) (amount : V)
        → (found : Option (XyTable V × TablePos V)) (robot : Robot V)
        → KeepsService robot (jog_table cfg absolute axis amount found robot)
    unfolding jog_table
    jog_table-keeps absolute none amount found robot = refl
    jog_table-keeps absolute (some is_x) amount none robot = refl
    jog_table-keeps true (some is_x) amount (some old) robot = refl
    jog_table-keeps false (some is_x) amount (some old) robot = refl

    jog_to-keeps :
        (p : JogParams V) (target : JogTarget) (o : Option (Axis × V)) (robot : Robot V)
        → KeepsService robot (jog_to cfg p target o robot)
    unfolding jog_to jog_arm
    jog_to-keeps p to_table (some (axis, amount)) robot =
        jog_table-keeps p.absolute (table_axis axis) amount (table_of cfg robot) robot
    jog_to-keeps p _ none robot = refl
    jog_to-keeps p _ (some (axis, amount)) robot = refl

    reset_table_of-keeps :
        (has : Bool) (o : Option (XyTable V)) (robot : Robot V)
        → KeepsService robot (reset_table_of cfg has o robot)
    unfolding reset_table_of
    reset_table_of-keeps true (some old) robot = refl
    reset_table_of-keeps _ _ robot = refl

    put_jog_step-keeps :
        (o : Option V) (robot : Robot V) → KeepsService robot (put_jog_step cfg o robot)
    unfolding put_jog_step
    put_jog_step-keeps none robot = refl
    put_jog_step-keeps (some v) robot = refl

    put_valve-keeps :
        (o : Option (ℕ × Bool)) (robot : Robot V) → KeepsService robot (put_valve o robot)
    unfolding put_valve
    put_valve-keeps none robot = refl
    put_valve-keeps (some (i, on)) robot = refl

    put_pump-keeps :
        (o : Option (ℕ × Bool)) (robot : Robot V) → KeepsService robot (put_pump o robot)
    unfolding put_pump
    put_pump-keeps none robot = refl
    put_pump-keeps (some (i, on)) robot = refl

    apply_edit-keeps :
        (target_id : ℕ) (patch : Patch V) (robot : Robot V)
        → patch.enabled ≡ none
        → KeepsService robot (apply_edit target_id patch robot)
    unfolding apply_edit merge
    apply_edit-keeps target_id patch robot h =
        if_both (λ (a : Applied V). KeepsService robot a) (robot.id == target_id)
          {x = changed (merge patch robot) patch} {y = unchanged robot}
          (λ _. ap (λ (o : Option Bool). replace_field o robot.enabled) h) (λ _. refl)

    planned-keeps :
        (target_id : ℕ) (p : Plan V) (robot : Robot V)
        → IsEdit p
        → KeepsService robot (planned cfg target_id p robot)
    unfolding planned reset_arm move_table_of apply_table_move load_trajectory
    planned-keeps target_id (edit_plan patch) robot h = apply_edit-keeps target_id patch robot h
    planned-keeps target_id no_plan robot h = refl
    planned-keeps target_id (table_plan p) robot h = refl
    planned-keeps target_id (home_plan homes) robot h = refl
    planned-keeps target_id (trajectory_plan path file example) robot h = refl

    set_vision-keeps :
        (on : Option Bool) (robot : Robot V) → KeepsService robot (set_vision on robot)
    unfolding set_vision
    set_vision-keeps none robot = refl
    set_vision-keeps (some on) robot = refl

    set_tool-keeps :
        (name : Option String) (robot : Robot V) → KeepsService robot (set_tool name robot)
    unfolding set_tool
    set_tool-keeps none robot = refl
    set_tool-keeps (some name) robot = refl

    pub apply_command-keeps :
        (now : ℕ) (wanted : Bool) (target_id : ℕ) (command : Command V) (p : Plan V)
        → (robot : Robot V) → works_on_a_disabled_robot command ≡ false
        → IsEdit p
        → KeepsService robot (apply_command cfg now wanted target_id command p robot)
    unfolding apply_command play_robot pause_robot jog_robot reset_table set_jog_step set_valve
        set_pump set_speed put_speed
    apply_command-keeps now wanted target_id stop p robot h k = absurd (cc h)
    apply_command-keeps now wanted target_id disable p robot h k = absurd (cc h)
    apply_command-keeps now wanted target_id enable p robot h k = absurd (cc h)
    apply_command-keeps now wanted target_id (jog params) p robot h k =
        jog_to-keeps params params.target (valid_jog cfg params robot) robot
    apply_command-keeps now wanted target_id (reset true given) p robot h k =
        reset_table_of-keeps robot.has_xy_table robot.xy_table robot
    apply_command-keeps now wanted target_id (reset false given) p robot h k =
        planned-keeps target_id p robot k
    apply_command-keeps now wanted target_id (jog_step value) p robot h k =
        put_jog_step-keeps (positive_step cfg value) robot
    apply_command-keeps now wanted target_id (tool name) p robot h k = set_tool-keeps name robot
    apply_command-keeps now wanted target_id (valve index on) p robot h k =
        put_valve-keeps (output_of index on) robot
    apply_command-keeps now wanted target_id (pump index on) p robot h k =
        put_pump-keeps (output_of index on) robot
    apply_command-keeps now wanted target_id (move_table params) p robot h k =
        planned-keeps target_id p robot k
    apply_command-keeps now wanted target_id (trajectory params) p robot h k =
        planned-keeps target_id p robot k
    apply_command-keeps now wanted target_id (edit params) p robot h k =
        planned-keeps target_id p robot k
    apply_command-keeps now wanted target_id (vision on) p robot h k = set_vision-keeps on robot
    apply_command-keeps now wanted target_id _ p robot h k = refl
