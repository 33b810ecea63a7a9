-- ===== src/RobotEdit/Sound.antt =====
-- src/robotEdit.ts: the points that are let through.
use hydra_umc_server.Prelude.{
  ℕ, suc, ◌≤◌, Option, Bool, true, ◌&&◌, ◌||◌, List, [], ◌∷◌, length, All, leb, ◌≡◌, refl, ap,
  arith, ok, >>=-eq-ok, guard-then-eq-ok, ok-injective, subst, or_err,
}
use hydra_umc_server.Robots.{Point, PointField}
use hydra_umc_server.RobotEdit.{
  RawPoint, has_native_joints, has_cartesian_pose, invalid_points, no_bad, point_fields, motion_of,
  checked_point, value_of, clean_point, clean_all, clean_points, max_recorded_points,
}

module _ {ℓ} {V : Type ℓ} where
  -- A point that the robot can be sent to.
  abbrev pub IsUsable : Point V → Type 0
  IsUsable p = (has_native_joints p.field || has_cartesian_pose p.field) ≡ true

  checked_point-IsUsable :
      (field : PointField → Option V) (is_model : Bool) (p : Point V)
      → checked_point field is_model ≡ ok p
      → IsUsable p
  unfolding checked_point
  checked_point-IsUsable field is_model p h =
      let (good, same) =
        guard-then-eq-ok (has_native_joints field || has_cartesian_pose field) invalid_points
          (ok (record { field = field; is_model_joints = is_model })) h in
      subst (λ (q : Point V). IsUsable q) (ok-injective same) good

  clean_point-IsUsable :
      (raw : Option (RawPoint V)) (p : Point V) → clean_point raw ≡ ok p → IsUsable p
  unfolding clean_point
  clean_point-IsUsable raw p h =
      let (given, _, h1) = >>=-eq-ok (or_err raw invalid_points) _ h in
      let (_, h2) = guard-then-eq-ok (no_bad given.field point_fields) _ _ h1 in
      let (is_model, _, h3) =
        >>=-eq-ok (or_err (motion_of given.motion_type) invalid_points) _ h2 in
      checked_point-IsUsable (λ f. value_of (given.field f)) is_model p h3

  clean_all-IsUsable :
      (raws : List (Option (RawPoint V))) (ps : List (Point V))
      → clean_all raws ≡ ok ps
      → (length ps ≡ length raws) × All IsUsable ps
  unfolding clean_all
  clean_all-IsUsable [] ps h =
      subst (λ (qs : List (Point V)). (length qs ≡ 0) × All IsUsable qs) (ok-injective h) (refl, tt)
  clean_all-IsUsable (raw ∷ raws) ps h =
      let (p, got, h1) = >>=-eq-ok (clean_point raw) _ h in
      let (rest, all, same) = >>=-eq-ok (clean_all raws) _ h1 in
      let (long, usable) = clean_all-IsUsable raws rest all in
      subst (λ (qs : List (Point V)). (length qs ≡ suc (length raws)) × All IsUsable qs)
        (ok-injective same) (ap suc long, (clean_point-IsUsable raw p got, usable))

  -- A list of points that is let through has as many points as asked for and no more than 10000, and the
  -- robot can be sent to each of them.
  pub clean_points-IsUsable :
      (raw : Option (List (Option (RawPoint V)))) (minimum : ℕ) (ps : List (Point V))
      → clean_points raw minimum ≡ ok ps
      → (minimum ≤ length ps) × (length ps ≤ max_recorded_points) × All IsUsable ps
  unfolding clean_points
  clean_points-IsUsable raw minimum ps h =
      let (raws, _, h1) = >>=-eq-ok (or_err raw invalid_points) _ h in
      let (fits, h2) =
        guard-then-eq-ok (leb minimum (length raws) && leb (length raws) max_recorded_points) _ _
          h1 in
      let (long, usable) = clean_all-IsUsable raws ps h2 in (ground arith, ground arith, usable)
