-- ===== src/Commands/Planning.antt =====
-- src/routes/commandRoutes.ts: the commands that are checked as a whole before anything is changed.
use hydra_umc_server.Prelude.{
  ℕ, String, Option, none, some, Bool, false, ◌||◌, not, List, [], ◌∷◌, is_same, if◌then◌else◌,
  Result, ok, err, ◌>>=◌, ◌>>◌, guard, lookup, ℕ_discrete,
}
use hydra_umc_server.Robots.{Robot, PlaybackState, Point, f_tx, f_ty, f_trz, includes}
use hydra_umc_server.TableCommand.{plan_table_move, table_pos}
use hydra_umc_server.ModelHome.{Six, SentJoints, resolve_home}
use hydra_umc_server.RobotEdit.{clean_points, is_number}
use hydra_umc_server.RobotEdit.Plan.{plan_robot_edit}
use hydra_umc_server.Commands.{
  Command, reset, trajectory, move_table, edit, Refusal, table_refused, home_refused, edit_refused,
  invalid_trajectory, Config, Plan, no_plan, table_plan, home_plan, edit_plan, trajectory_plan,
  TrajectoryParams,
}
use hydra_umc_server.Commands.Admission.{Admitted}

abbrev pub refuse_as {ℓ} : {E : Type 0} {A : Type ℓ} → (E → Refusal) → Result E A → Result Refusal A
refuse_as f (ok a) = ok a
refuse_as f (err e) = err (f e)

-- A name that may be left out, and must fit its pattern.
abbrev pub checked_name : (String → Bool) → Option (Option String) → Result Refusal (Option String)
checked_name test none = ok none
checked_name test (some none) = err invalid_trajectory
checked_name test (some (some name)) = do guard (test name) invalid_trajectory; ok (some name)

module _ {ℓ} {V : Type ℓ} where
  abbrev pub is_table_point : Point V → Bool
  is_table_point p =
      is_number (p.field f_tx) || is_number (p.field f_ty) || is_number (p.field f_trz)

  abbrev pub has_table_axes : List (Point V) → Bool
  has_table_axes [] = false
  has_table_axes (p ∷ points) = is_table_point p || has_table_axes points

  abbrev pub same_cell : String → List (Robot V) → List ℕ
  same_cell cell [] = []
  same_cell cell (robot ∷ robots) =
      let rest = same_cell cell robots in
      if is_same robot.controller_id cell then robot.id ∷ rest else rest

  abbrev pub or_later : Option (Six V) → ℕ → Six V → List (ℕ × Six V) → List (ℕ × Six V)
  or_later (some later) id home rest = rest
  or_later none id home rest = (id, home) ∷ rest

  -- `homeByRobot.set`: of robots that share an id the last one counts.
  abbrev pub keep_last : ℕ → Six V → List (ℕ × Six V) → List (ℕ × Six V)
  keep_last id home rest = or_later (lookup ℕ_discrete id rest) id home rest

  abbrev pub with_home :
      ℕ
      → Result Refusal (Six V)
      → Result Refusal (List (ℕ × Six V))
      → Result Refusal (List (ℕ × Six V))
  with_home id home rest = do ok (keep_last id (← home) (← rest))

module _ {ℓ} {V : Type ℓ} (cfg : Config V) where
  -- The home pose of each robot that a reset reaches.
  unfoldable pub plan_homes :
      SentJoints V → List ℕ → List (Robot V) → Result Refusal (List (ℕ × Six V))
  plan_homes asked ids [] = ok []
  plan_homes asked ids (robot ∷ robots) =
      let rest = plan_homes asked ids robots in
      let home =
        refuse_as home_refused (resolve_home cfg.num cfg.model_key cfg.models robot.model asked) in
      if includes robot.id ids then with_home robot.id home rest else rest

  unfoldable pub plan_trajectory : TrajectoryParams V → Robot V → Result Refusal (Plan V)
  plan_trajectory p target = do
    points ← refuse_as (λ _. invalid_trajectory) (clean_points p.points 1)
    guard (not (has_table_axes points) || is_number (table_pos target.has_xy_table target.xy_table))
        invalid_trajectory
    file ← checked_name cfg.patterns.is_work_file p.selected_work_file
    example ← checked_name cfg.patterns.is_example_id p.selected_example
    ok (trajectory_plan points file example)

  unfoldable pub plan_for : Command V → Robot V → List ℕ → List (Robot V) → Result Refusal (Plan V)
  unfolding plan_homes plan_trajectory
  plan_for (move_table p) target ids robots = do
    ok (
        table_plan
          (← refuse_as table_refused (plan_table_move cfg.num target p (cfg.jog_for target.model))))
  plan_for (reset false asked) target ids robots = do ok (home_plan (← plan_homes asked ids robots))
  plan_for (edit e) target ids robots = do
    ok (
        edit_plan
          (← refuse_as edit_refused (
            plan_robot_edit cfg.num cfg.patterns e target (same_cell target.controller_id robots))))
  plan_for (trajectory p) target ids robots = plan_trajectory p target
  plan_for _ target ids robots = ok no_plan

  unfoldable pub plan : Admitted V → List (Robot V) → Result Refusal (Plan V)
  unfolding plan_for
  plan adm robots = plan_for adm.command adm.target adm.affected robots

  abbrev pub paused_of : Option (PlaybackState V) → Bool
  paused_of none = false
  paused_of (some ps) = elim ps.is_paused [ some paused ↦ paused | none ↦ ps.paused ]

  -- Whether a pause is asked for; without a parameter it is the other way than the target is.
  pub requested_pause : Option Bool → Robot V → Bool
  requested_pause (some paused) target = paused
  requested_pause none target = not (paused_of target.playback_state)
