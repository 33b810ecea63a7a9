-- ===== src/Commands/Checked.antt =====
-- What the checks of a command guarantee, when they let it go on.
use hydra_umc_server.Prelude.{
  ℕ, String, Option, none, some, Bool, true, false, not, List, [], ◌∷◌, All, ◌≡◌, refl, arith,
  if_both, ok, or_err, refuse_if, >>=-eq-ok, guard-then-eq-ok, or_err-eq-ok, refuse_if-eq-ok,
  ok-injective, subst,
}
use hydra_umc_server.Robots.{Robot, find_last, includes}
use hydra_umc_server.Claims.{ClaimConflict, claim_conflict}
use hydra_umc_server.Commands.{
  unknown_command, no_settings, robot_id_ambiguous, robot_not_found, invalid_controller_id, Request,
  Config, World, affected_ids,
}
use hydra_umc_server.Commands.Admission.{
  Admitted, admit, is_ambiguous, find_target, is_disabled, find_disabled, or_else_claim,
  blocking_claim, check_enable, check_disabled, check_claims, check_revision,
}

pub record Facts {ℓ} {V : Type ℓ} (cfg : Config V) (now : ℕ) (req : Request V) (world : World V)
    (adm : Admitted V) : Type ℓ where
  pub known : req.command ≡ some adm.command
  pub of_caller : req.presented ≡ some adm.controller
  pub found : find_target req.robot_id world.robots ≡ some adm.target
  pub reached : adm.affected ≡ affected_ids adm.command adm.target
  pub in_service : check_disabled adm.command adm.affected world.robots ≡ none
  pub held : check_claims now req adm.controller adm.command adm.affected world.robots ≡ none

module _ {ℓ} {V : Type ℓ} (cfg : Config V) (now : ℕ) (req : Request V) where
  pub admit-Facts :
      (world : World V) (adm : Admitted V)
      → admit cfg now req world ≡ ok adm
      → Facts cfg now req world adm
  unfolding admit
  admit-Facts world adm h =
      let (command, k, h1) = >>=-eq-ok (or_err req.command unknown_command) _ h in
      let (_, h2) = guard-then-eq-ok world.is_loaded no_settings _ h1 in
      let (_, h3) =
        guard-then-eq-ok (not (is_ambiguous world.robots req.robot_id)) robot_id_ambiguous _ h2 in
      let (target, f, h4) =
        >>=-eq-ok (or_err (find_target req.robot_id world.robots) robot_not_found) _ h3 in
      let (controller, c, h5) = >>=-eq-ok (or_err req.presented invalid_controller_id) _ h4 in
      let ids = affected_ids command target in
      let (_, _, h6) = >>=-eq-ok (refuse_if (check_enable cfg req command)) _ h5 in
      let (_, d, h7) = >>=-eq-ok (refuse_if (check_disabled command ids world.robots)) _ h6 in
      let (_, b, h8) =
        >>=-eq-ok (refuse_if (check_claims now req controller command ids world.robots)) _ h7 in
      let (_, _, same) = >>=-eq-ok (refuse_if (check_revision cfg req command target)) _ h8 in
      subst (λ (a : Admitted V). Facts cfg now req world a) (ok-injective same)
        (record {
          known = or_err-eq-ok _ _ k;
          of_caller = or_err-eq-ok _ _ c;
          found = or_err-eq-ok _ _ f;
          reached = refl;
          in_service = refuse_if-eq-ok _ d;
          held = refuse_if-eq-ok _ b;
        })

pub not_both : {b : Bool} → b ≡ true → b ≡ false → ⊥
not_both h k = grind arith

or_else_claim-none :
    (a b : Option ClaimConflict) → or_else_claim a b ≡ none → (a ≡ none) × (b ≡ none)
or_else_claim-none none b h = (refl, h)
or_else_claim-none (some c) b h = absurd (cc h)

module _ {ℓ} {V : Type ℓ} where
  -- The caller may command the robot, if it is one of those.
  abbrev pub IsFree : ℕ → String → Option String → List ℕ → Robot V → Type 0
  IsFree now user_id controller ids robot =
      includes robot.id ids ≡ true → claim_conflict now robot.reservation user_id controller ≡ none

  -- No claim of another stands in the way of any robot that the command reaches.
  pub blocking_claim-none :
      (now : ℕ) (user_id : String) (controller : Option String) (ids : List ℕ)
      (robots : List (Robot V))
      → blocking_claim now user_id controller ids robots ≡ none
      → All (IsFree now user_id controller ids) robots
  unfolding blocking_claim
  blocking_claim-none now user_id controller ids [] h = tt
  blocking_claim-none now user_id controller ids (robot ∷ robots) h =
      let rest = blocking_claim-none now user_id controller ids robots in
      if_both
        (λ (o : Option ClaimConflict).
          o ≡ none → All (IsFree now user_id controller ids) (robot ∷ robots))
        (includes robot.id ids)
        (λ _ k. let (free, others) = or_else_claim-none _ _ k in ((λ _. free), rest others))
        (λ other k. ((λ here. absurd (not_both here other)), rest k)) h

  -- No robot that the command reaches is disabled.
  pub find_disabled-none :
      (robots : List (Robot V)) (ids : List ℕ) (id : ℕ)
      → find_disabled robots ids ≡ none
      → includes id ids ≡ true
      → is_disabled (find_last id robots) ≡ false
  unfolding find_disabled
  find_disabled-none robots [] id h k = absurd (cc k)
  find_disabled-none robots (j ∷ ids) id h k = ground (arith, find_disabled-none robots ids id)
