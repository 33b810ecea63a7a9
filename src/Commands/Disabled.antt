-- ===== src/Commands/Disabled.antt =====
-- A disabled robot stands still, and no command but `enable` brings it back.
use hydra_umc_server.Prelude.{
  ℕ, Option, none, some, Bool, true, false, List, ◌≡◌, ◌≢◌, refl, sym, ◌∙◌, ap, subst,
  if◌then◌else◌, ok, Result, >>=-eq-ok, ok-injective, inl, inr, Bool-cases, err, guard-then-eq-ok,
  not, ◌||◌,
}
use hydra_umc_server.Robots.{
  Robot, Patch, find_last, includes, is_playing_state, stopped_playback_state,
}
use hydra_umc_server.TableCommand.{plan_table_move, table_pos}
use hydra_umc_server.RobotEdit.{clean_points, is_number}
use hydra_umc_server.RobotEdit.Plan.{plan_robot_edit}
use hydra_umc_server.RobotEdit.InService.{plan_robot_edit-enabled}
use hydra_umc_server.Commands.{
  Command, stop, disable, enable, reset, trajectory, move_table, edit, Refusal, robot_disabled,
  table_refused, edit_refused, invalid_trajectory, Config, Plan, works_on_a_disabled_robot,
}
use hydra_umc_server.Commands.Admission.{is_disabled, is_out_of_service, check_disabled}
use hydra_umc_server.Commands.Planning.{
  checked_name, has_table_axes, refuse_as, same_cell, plan_homes, plan_trajectory, plan_for,
}
use hydra_umc_server.Commands.Cases.{stop_robot, disable_robot}
use hydra_umc_server.Commands.Apply.{apply_command}
use hydra_umc_server.Commands.Service.{IsEdit, apply_command-keeps}
use hydra_umc_server.Commands.Sync.{merged}
use hydra_umc_server.Robots.Deltas.{merge}
use hydra_umc_server.Commands.Checked.{find_disabled-none, not_both}

refuse_as-eq-ok {ℓ} :
    {E : Type 0} {A : Type ℓ} (f : E → Refusal) (r : Result E A) {a : A}
    → refuse_as f r ≡ ok a
    → r ≡ ok a
refuse_as-eq-ok f (ok a) h = ap ok (ok-injective h)
refuse_as-eq-ok f (err e) h = absurd (cc h)

no_refusal :
    (b : Bool) (o : Option ℕ)
    → b ≡ false
    → (if b then none else elim o [ none ↦ none | some id ↦ some (robot_disabled id) ]) ≡ none
    → o ≡ none
no_refusal true o e h = absurd (cc e)
no_refusal false none e h = refl
no_refusal false (some id) e h = absurd (cc h)

module _ {ℓ} {V : Type ℓ} where
  -- A robot out of service is not playing.
  abbrev pub IsSafe : Robot V → Type 0
  IsSafe robot = robot.enabled ≡ some false → is_playing_state robot.playback_state ≡ false

  module _ (cfg : Config V) where
    pub plan_for-IsEdit :
        (command : Command V) (target : Robot V) (ids : List ℕ) (robots : List (Robot V))
        (p : Plan V)
        → plan_for cfg command target ids robots ≡ ok p
        → IsEdit p
    unfolding plan_for plan_trajectory
    plan_for-IsEdit (edit e) target ids robots p h =
        let cell = same_cell target.controller_id robots in
        let (patch, got, same) =
          >>=-eq-ok (refuse_as edit_refused (plan_robot_edit cfg.num cfg.patterns e target cell)) _
            h in
        subst (λ (q : Plan V). IsEdit q) (ok-injective same)
          (plan_robot_edit-enabled cfg.num cfg.patterns e target cell patch
            (refuse_as-eq-ok edit_refused _ got))
    plan_for-IsEdit (move_table params) target ids robots p h =
        let (_, _, same) =
          >>=-eq-ok
            (refuse_as table_refused
              (plan_table_move cfg.num target params (cfg.jog_for target.model)))
            _ h in
        subst (λ (q : Plan V). IsEdit q) (ok-injective same) tt
    plan_for-IsEdit (reset false asked) target ids robots p h =
        let (_, _, same) = >>=-eq-ok (plan_homes cfg asked ids robots) _ h in
        subst (λ (q : Plan V). IsEdit q) (ok-injective same) tt
    plan_for-IsEdit (trajectory params) target ids robots p h =
        let (points, _, h1) =
          >>=-eq-ok (refuse_as (λ _. invalid_trajectory) (clean_points params.points 1)) _ h in
        let (_, h2) =
          guard-then-eq-ok
            (not (has_table_axes points)
              || is_number (table_pos target.has_xy_table target.xy_table))
            _ _ h1 in
        let (_, _, h3) =
          >>=-eq-ok (checked_name cfg.patterns.is_work_file params.selected_work_file) _ h2 in
        let (_, _, same) =
          >>=-eq-ok (checked_name cfg.patterns.is_example_id params.selected_example) _ h3 in
        subst (λ (q : Plan V). IsEdit q) (ok-injective same) tt
    plan_for-IsEdit _ target ids robots p h = subst (λ (q : Plan V). IsEdit q) (ok-injective h) tt

    moving-IsSafe :
        (now : ℕ) (wanted : Bool) (target_id : ℕ) (command : Command V) (p : Plan V)
        (robot : Robot V)
        → works_on_a_disabled_robot command ≡ true
        → IsSafe (apply_command cfg now wanted target_id command p robot).robot
    unfolding apply_command stop_robot disable_robot stopped_playback_state
    moving-IsSafe now wanted target_id stop p robot w = λ _. refl
    moving-IsSafe now wanted target_id disable p robot w = λ _. refl
    moving-IsSafe now wanted target_id enable p robot w = λ e. absurd (cc e)
    moving-IsSafe now wanted target_id _ p robot w = absurd (cc w)

    pub apply_command-IsSafe :
        (now : ℕ) (wanted : Bool) (target_id : ℕ) (command : Command V) (p : Plan V)
        (robot : Robot V)
        → (works_on_a_disabled_robot command ≡ false → robot.enabled ≢ some false)
        → IsEdit p
        → IsSafe (apply_command cfg now wanted target_id command p robot).robot
    apply_command-IsSafe now wanted target_id command p robot serving plain =
        elim (Bool-cases (works_on_a_disabled_robot command)) [
          | inl w ↦ moving-IsSafe now wanted target_id command p robot w
          | inr w ↦ λ e.
              let kept = apply_command-keeps cfg now wanted target_id command p robot w plain in
              absurd (serving w (sym kept ∙ e))
        ]

  pub in_service :
      (command : Command V) (ids : List ℕ) (robots : List (Robot V)) (robot : Robot V)
      → check_disabled command ids robots ≡ none
      → find_last robot.id robots ≡ some robot
      → includes robot.id ids ≡ true
      → works_on_a_disabled_robot command ≡ false
      → robot.enabled ≢ some false
  unfolding check_disabled
  in_service command ids robots robot h own here w e =
      let none_found = no_refusal (works_on_a_disabled_robot command) _ w h in
      let good = find_disabled-none robots ids robot.id none_found here in
      let served = subst (λ (o : Option (Robot V)). is_disabled o ≡ false) own good in
      not_both (ap is_out_of_service e) served

  pub merged-id : (patch : Option (Patch V)) (robot : Robot V) → (merged patch robot).id ≡ robot.id
  unfolding merge
  merged-id none robot = refl
  merged-id (some patch) robot = refl
