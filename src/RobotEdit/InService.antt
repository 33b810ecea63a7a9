-- ===== src/RobotEdit/InService.antt =====
-- src/robotEdit.ts: no edit says whether the robot is in service.
use hydra_umc_server.Prelude.{
  ℕ, none, true, List, ◌≡◌, refl, ok, Result, >>=-eq-ok, guard-then-eq-ok, ok-injective, or_err,
  subst, not, leb, length,
}
use hydra_umc_server.Robots.{Numbers, is_playing, includes, Robot, Patch}
use hydra_umc_server.RobotEdit.{
  Edit, points, loop, model, role, combine, joints, xy_table_config, Patterns, EditRefusal,
  RawTable, number_in, clean_points, invalid_loop, invalid_model, invalid_role, invalid_combine,
  invalid_joints, is_listed, robot_roles, max_combined, all_numbers, all_exist, unique,
  are_joint_values,
}
use hydra_umc_server.RobotEdit.Plan.{
  plan_robot_edit, plan_table_config, setting, is_size, is_place, within, any_given,
}

module _ {ℓ} {V : Type ℓ} (num : Numbers V) (pat : Patterns) where
  same-enabled :
      (a b : Patch V)
      → ◌≡◌ {A = Result EditRefusal (Patch V)} (ok a) (ok b)
      → a.enabled ≡ none
      → b.enabled ≡ none
  same-enabled a b h k = subst (λ (q : Patch V). q.enabled ≡ none) (ok-injective h) k

  plan_table_config-enabled :
      (raw : RawTable V) (robot : Robot V) (patch : Patch V)
      → plan_table_config num raw robot ≡ ok patch
      → patch.enabled ≡ none
  unfolding plan_table_config
  plan_table_config-enabled raw robot patch h =
      let (a, _, h1) = >>=-eq-ok (setting (λ _. true) raw.enabled) _ h in
      let (b, _, h2) = >>=-eq-ok (setting (is_size num) raw.table_size) _ h1 in
      let (c, _, h3) = >>=-eq-ok (setting (is_place num) raw.world_pos) _ h2 in
      let (d, _, h4) = >>=-eq-ok (setting (within num 3600) raw.world_rot) _ h3 in
      let (e, _, h5) =
        >>=-eq-ok (setting (number_in num (num.hundredths 1) (num.of_nat 100)) raw.render_scale) _
          h4 in
      let (_, same) = guard-then-eq-ok (any_given raw) _ _ h5 in same-enabled _ patch same refl

  pub plan_robot_edit-enabled :
      (e : Edit V) (robot : Robot V) (siblings : List ℕ) (patch : Patch V)
      → plan_robot_edit num pat e robot siblings ≡ ok patch
      → patch.enabled ≡ none
  unfolding plan_robot_edit
  plan_robot_edit-enabled (points raw) robot siblings patch h =
      let (_, h1) = guard-then-eq-ok (not (is_playing robot)) _ _ h in
      let (_, _, same) = >>=-eq-ok (clean_points raw 0) _ h1 in same-enabled _ patch same refl
  plan_robot_edit-enabled (loop raw) robot siblings patch h =
      let (_, _, same) = >>=-eq-ok (or_err raw invalid_loop) _ h in same-enabled _ patch same refl
  plan_robot_edit-enabled (model raw) robot siblings patch h =
      let (name, _, h1) = >>=-eq-ok (or_err raw invalid_model) _ h in
      let (_, h2) = guard-then-eq-ok (pat.is_model_name (pat.trim name)) _ _ h1 in
      let (_, same) = guard-then-eq-ok (not (is_playing robot)) _ _ h2 in
      same-enabled _ patch same refl
  plan_robot_edit-enabled (role raw) robot siblings patch h =
      let (name, _, h1) = >>=-eq-ok (or_err raw invalid_role) _ h in
      let (_, same) = guard-then-eq-ok (is_listed name robot_roles) _ _ h1 in
      same-enabled _ patch same refl
  plan_robot_edit-enabled (combine raw) robot siblings patch h =
      let (given, _, h1) = >>=-eq-ok (or_err raw invalid_combine) _ h in
      let (_, h2) = guard-then-eq-ok (leb (length given) max_combined) _ _ h1 in
      let (ids, _, h3) = >>=-eq-ok (or_err (all_numbers given) invalid_combine) _ h2 in
      let (_, h4) = guard-then-eq-ok (not (includes robot.id (unique ids))) _ _ h3 in
      let (_, same) = guard-then-eq-ok (all_exist siblings (unique ids)) _ _ h4 in
      same-enabled _ patch same refl
  plan_robot_edit-enabled (joints raw) robot siblings patch h =
      let (six, _, h1) = >>=-eq-ok (or_err raw invalid_joints) _ h in
      let (_, same) = guard-then-eq-ok (are_joint_values num six) _ _ h1 in
      same-enabled _ patch same refl
  plan_robot_edit-enabled (xy_table_config raw) robot siblings patch h =
      plan_table_config-enabled raw robot patch h
