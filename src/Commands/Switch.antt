-- ===== src/Commands/Switch.antt =====
-- src/routes/commandRoutes.ts: what a command does to one robot that it reaches, the switch.
use hydra_umc_server.Prelude.{ℕ, Option, none, some, Bool, true, false, ◌&&◌, not, if◌then◌else◌}
use hydra_umc_server.Robots.{XyTable, TablePos, Robot, no_patch}
use hydra_umc_server.TableCommand.{TableLimits, exceeds}
use hydra_umc_server.ModelHome.{Six}
use hydra_umc_server.Commands.{
  Axis, JogTarget, to_robot, to_table, to_other, JogParams, Config, jog_warning, valve_warning,
  pump_warning,
}
use hydra_umc_server.Commands.Cases.{
  Applied, set_at, outputs_or_two, output_of, unchanged, warned, changed, get_axis, set_axis,
  set_table_axis, get_table_axis, set_copy, table_axis, valid_joints, joints_or, home_joints,
}

module _ {ℓ} {V : Type ℓ} (cfg : Config V) where
  -- `absolute ? amount : current + amount`, where a current value that is no number gives none.
  abbrev pub moved : Bool → V → Option V → Option V
  moved true amount current = some amount
  moved false amount none = none
  moved false amount (some v) = some (cfg.num.plus v amount)

  abbrev pub jog_limit : Bool → TableLimits V → V
  jog_limit true limits = limits.max_absolute
  jog_limit false limits = limits.max_amount

  -- The axis and the amount of a jog that is within the limits of the robot's model.
  unfoldable pub valid_jog : JogParams V → Robot V → Option (Axis × V)
  valid_jog p robot = elim p.axis [
    | none ↦ none
    | some axis ↦ elim p.amount [
      | none ↦ none
      | some amount ↦
          if exceeds cfg.num (jog_limit p.absolute (cfg.jog_for robot.model)) amount
          then none
          else some (axis, amount)
    ]
  ]

  unfoldable pub jog_arm : JogParams V → Axis → V → Robot V → Applied V
  jog_arm p axis amount robot =
      let pos = set_axis axis (moved p.absolute amount (get_axis axis robot.pos)) robot.pos in
      let joints = joints_or (valid_joints p.joints) (cfg.calculate_joints pos) in
      changed (record robot { pos = pos; joints = joints })
        (record no_patch { pos = some pos; joints = some joints })

  -- An absolute jog of the table keeps the older copy of its position too.
  abbrev pub jog_table_at : Bool → Bool → V → XyTable V → TablePos V → Robot V → Applied V
  jog_table_at true is_x amount old_table old robot =
      let new_table = record old_table { pos = some (set_table_axis is_x (some amount) old) } in
      let pos = set_copy is_x (some amount) robot.pos in
      changed (record robot { xy_table = some new_table; pos = pos })
        (record no_patch { xy_table = some new_table; pos = some pos })
  jog_table_at false is_x amount old_table old robot =
      let new_pos = set_table_axis is_x (moved false amount (get_table_axis is_x old)) old in
      let new_table = record old_table { pos = some new_pos } in
      changed (record robot { xy_table = some new_table })
        (record no_patch { xy_table = some new_table })

  -- A table that is configured, with its position; without one the source throws, and nothing is changed.
  abbrev pub table_of : Robot V → Option (XyTable V × TablePos V)
  table_of robot =
      if robot.has_xy_table
      then elim robot.xy_table [
        | none ↦ none
        | some old ↦ elim old.pos [ none ↦ none | some pos ↦ some (old, pos) ]
      ]
      else none

  unfoldable pub jog_table :
      Bool → Option Bool → V → Option (XyTable V × TablePos V) → Robot V → Applied V
  jog_table absolute none amount found robot = unchanged robot
  jog_table absolute (some is_x) amount none robot = unchanged robot
  jog_table absolute (some is_x) amount (some (old_table, old)) robot =
      jog_table_at absolute is_x amount old_table old robot

  unfoldable pub jog_to : JogParams V → JogTarget → Option (Axis × V) → Robot V → Applied V
  unfolding jog_arm jog_table
  jog_to p target none robot = warned robot (jog_warning robot.id)
  jog_to p to_robot (some (axis, amount)) robot = jog_arm p axis amount robot
  jog_to p to_table (some (axis, amount)) robot =
      jog_table p.absolute (table_axis axis) amount (table_of robot) robot
  jog_to p to_other (some (axis, amount)) robot = unchanged robot

  unfoldable pub jog_robot : JogParams V → Robot V → Applied V
  unfolding valid_jog jog_to
  jog_robot p robot = jog_to p p.target (valid_jog p robot) robot

  -- The placement of the table stays, the arm goes to the home pose that was checked.
  unfoldable pub reset_arm : Option (Six V) → Robot V → Applied V
  reset_arm home robot =
      let zero = some (cfg.num.of_nat 0) in
      let pos = record robot.pos { x = zero; y = zero; z = zero; a = zero; b = zero; c = zero } in
      let joints = home_joints home in
      changed (record robot { pos = pos; joints = joints })
        (record no_patch { pos = some pos; joints = some joints })

  abbrev pub reset_table_at : XyTable V → Robot V → Applied V
  reset_table_at old robot =
      let zero = some (cfg.num.of_nat 0) in
      let pos = record robot.pos { tx = zero; ty = zero } in
      let new_table = record old { pos = some (record { x = zero; y = zero }) } in
      changed (record robot { pos = pos; xy_table = some new_table })
        (record no_patch { pos = some pos; xy_table = some new_table })

  unfoldable pub reset_table_of : Bool → Option (XyTable V) → Robot V → Applied V
  reset_table_of true (some old) robot = reset_table_at old robot
  reset_table_of _ _ robot = unchanged robot

  unfoldable pub reset_table : Robot V → Applied V
  unfolding reset_table_of
  reset_table robot = reset_table_of robot.has_xy_table robot.xy_table robot

  abbrev pub positive_step : Option V → Option V
  positive_step none = none
  positive_step (some v) =
      if not (cfg.num.le v (cfg.num.of_nat 0)) && cfg.num.le v (cfg.num.of_nat 1000)
      then some v
      else none

  unfoldable pub put_jog_step : Option V → Robot V → Applied V
  put_jog_step none robot = unchanged robot
  put_jog_step (some v) robot =
      changed (record robot { jog_step = some v }) (record no_patch { jog_step = some v })

  unfoldable pub set_jog_step : Option V → Robot V → Applied V
  unfolding put_jog_step
  set_jog_step value robot = put_jog_step (positive_step value) robot

module _ {ℓ} {V : Type ℓ} where
  unfoldable pub put_valve : Option (ℕ × Bool) → Robot V → Applied V
  put_valve none robot = warned robot (valve_warning robot.id)
  put_valve (some (i, on)) robot =
      let valves = set_at i on (outputs_or_two robot.valves) in
      changed (record robot { valves = some valves }) (record no_patch { valves = some valves })

  unfoldable pub set_valve : Option ℕ → Option Bool → Robot V → Applied V
  unfolding put_valve
  set_valve index state robot = put_valve (output_of index state) robot

  unfoldable pub put_pump : Option (ℕ × Bool) → Robot V → Applied V
  put_pump none robot = warned robot (pump_warning robot.id)
  put_pump (some (i, on)) robot =
      let pumps = set_at i on (outputs_or_two robot.pumps) in
      changed (record robot { pumps = some pumps }) (record no_patch { pumps = some pumps })

  unfoldable pub set_pump : Option ℕ → Option Bool → Robot V → Applied V
  unfolding put_pump
  set_pump index state robot = put_pump (output_of index state) robot
