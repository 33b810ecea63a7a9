-- ===== src/ClaimRoutes/Holder.antt =====
-- src/routes/robotRoutes.ts: who can take and give back a claim.
use hydra_umc_server.Prelude.{
  ℕ, ◌+◌, ◌≤◌, ◌<◌, String, Option, none, some, Bool, true, false, ◌&&◌, not, ◌≡◌, refl, sym, ◌∙◌,
  ap, arith, subst, ok, or_err, >>=-eq-ok, guard-then-eq-ok, or_err-eq-ok, ok-injective, lookup,
  ℕ_discrete, lookup-delete_self, inr,
}
use hydra_umc_server.Claims.{Reservation, ClaimConflict, claim_conflict}
use hydra_umc_server.Claims.Exclusion.{claim_conflict-IsHolder}
use hydra_umc_server.JogArming.{Armed, disarm}
use hydra_umc_server.ClaimRoutes.{
  Robot, Request, invalid_controller_id, ttl_of, max_reservation_ttl_ms, missing, refused_for,
  new_reservation, grant, claim_robot, release_robot,
}

-- A request that is let through is of the holder, or of somebody who may override.
refused_for-ok :
    (now : ℕ) (o : Option ClaimConflict) (overrides : Bool) {t : Unit}
    → refused_for now o overrides ≡ ok t
    → overrides ≡ false
    → o ≡ none
refused_for-ok now none overrides h k = refl
refused_for-ok now (some c) true h k = absurd (cc k)
refused_for-ok now (some c) false h k = absurd (cc h)

lookup-disarm : (id : ℕ) (armed : Armed) → lookup ℕ_discrete id (disarm id armed) ≡ none
unfolding disarm
lookup-disarm id armed = lookup-delete_self ℕ_discrete id armed

ttl_of-le :
    (requested : Option ℕ) → (1000 ≤ ttl_of requested) × (ttl_of requested ≤ max_reservation_ttl_ms)
ttl_of-le none = (omega arith, omega arith)
ttl_of-le (some n) = (omega arith, omega arith)

module _ (now : ℕ) where
  grant-reservation :
      (req : Request) (presented : Option String) (conflict : Option ClaimConflict) (robot : Robot)
      → (grant now req presented conflict robot).reservation
        ≡ some (new_reservation now req presented)
  unfolding grant
  grant-reservation req presented conflict robot = refl

  -- After a claim was granted the robot is the caller's, who may command it until the claim runs out, in a
  -- second at the earliest and in half an hour at the latest. Without the force of an administrator it was
  -- free for the caller before.
  pub claim_robot-IsHeld :
      (is_ambiguous require : Bool) (req : Request) (robot after : Robot)
      (presented : Option String)
      → req.presented ≡ some presented
      → claim_robot now is_ambiguous require req (some robot) ≡ ok after
      → (r : Reservation) × (after.reservation ≡ some r)
        × (r.owner_id ≡ req.user_id)
        × (now + 1000 ≤ r.expires_at)
        × (r.expires_at ≤ now + max_reservation_ttl_ms)
        × ((later : ℕ)
            → later < r.expires_at
            → claim_conflict later (some r) req.user_id presented ≡ none)
        × ((req.force && req.is_admin) ≡ false
            → claim_conflict now robot.reservation req.user_id presented ≡ none)
  unfolding claim_robot new_reservation
  claim_robot-IsHeld is_ambiguous require req robot after presented shown h =
      let (_, h1) = guard-then-eq-ok (not is_ambiguous) _ _ h in
      let (shown', got, h2) = >>=-eq-ok (or_err req.presented invalid_controller_id) _ h1 in
      let (_, h3) = guard-then-eq-ok (not (missing now require shown')) _ _ h2 in
      let (_, h4) = guard-then-eq-ok req.revision_agrees _ _ h3 in
      let conflict = claim_conflict now robot.reservation req.user_id shown' in
      let (_, free, same) = >>=-eq-ok (refused_for now conflict (req.force && req.is_admin)) _ h4 in
      let mine : shown' ≡ presented = cc (sym (or_err-eq-ok _ _ got) ∙ shown) in
      let (low, high) = ttl_of-le req.ttl_ms in
      let r = new_reservation now req presented in
      (
        r,
        ap (λ (a : Robot). a.reservation) (sym (ok-injective same))
            ∙ grant-reservation req shown' conflict robot
            ∙ ap (λ (p : Option String). some (new_reservation now req p)) mine,
        refl,
        omega arith,
        omega arith,
        (λ later early.
            (claim_conflict-IsHolder later r req.user_id presented early).1 (refl, inr refl)),
        (λ plain.
            subst (λ (p : Option String). claim_conflict now robot.reservation req.user_id p ≡ none)
              mine (refused_for-ok now conflict (req.force && req.is_admin) free plain)),
      )

  -- After a robot was given back nobody holds it and its jog is armed for nobody. Only an administrator
  -- gives back a robot that another account or controller holds.
  pub release_robot-IsFree :
      (is_ambiguous : Bool) (req : Request) (robot after : Robot) (armed disarmed : Armed)
      → (presented : Option String) → req.presented ≡ some presented
      → release_robot now is_ambiguous req (some robot) armed ≡ ok (after, disarmed)
      → (after.reservation ≡ none)
        × (lookup ℕ_discrete robot.id disarmed ≡ none)
        × (req.is_admin ≡ false → claim_conflict now robot.reservation req.user_id presented ≡ none)
  unfolding release_robot
  release_robot-IsFree is_ambiguous req robot after armed disarmed presented shown h =
      let (_, h1) = guard-then-eq-ok (not is_ambiguous) _ _ h in
      let (shown', got, h2) = >>=-eq-ok (or_err req.presented invalid_controller_id) _ h1 in
      let (_, h3) = guard-then-eq-ok req.revision_agrees _ _ h2 in
      let conflict = claim_conflict now robot.reservation req.user_id shown' in
      let (_, free, same) = >>=-eq-ok (refused_for now conflict req.is_admin) _ h3 in
      let mine : shown' ≡ presented = cc (sym (or_err-eq-ok _ _ got) ∙ shown) in
      let done = ok-injective same in
      (
        ap (λ (s : Robot × Armed). s.0.reservation) (sym done),
        ap (λ (s : Robot × Armed). lookup ℕ_discrete robot.id s.1) (sym done)
            ∙ lookup-disarm robot.id armed,
        (λ plain.
            subst (λ (p : Option String). claim_conflict now robot.reservation req.user_id p ≡ none)
              mine (refused_for-ok now conflict req.is_admin free plain)),
      )
