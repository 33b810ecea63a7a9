-- ===== src/Commands/Reach.antt =====
-- Which robots a command can change.
use hydra_umc_server.Prelude.{
  ℕ, String, Option, none, some, Bool, true, false, List, [], All, All-imp, AllPairs, AllPairs-same,
  AllPairs-map, ◌≡◌, ◌≢◌, refl, sym, ◌∙◌, if◌then◌else◌, if_both, subst, map,
}
use hydra_umc_server.Robots.{Robot, includes}
use hydra_umc_server.Claims.{ClaimConflict, claim_conflict}
use hydra_umc_server.Commands.{
  Command, Refusal, claimed_by_other, Request, Config, World, is_stopping,
}
use hydra_umc_server.Commands.Admission.{check_claims}
use hydra_umc_server.Commands.Cases.{Applied}
use hydra_umc_server.Commands.Handle.{Handled, refused, step, perform, the_switch, command_robot}
use hydra_umc_server.Commands.Inversion.{command_robot-cases}
use hydra_umc_server.Commands.Checked.{admit-Facts, IsFree, blocking_claim-none}

no_refusal :
    (b : Bool) (o : Option ClaimConflict)
    → b ≡ false
    → (if b then none else elim o [ none ↦ none | some c ↦ some (claimed_by_other c) ]) ≡ none
    → o ≡ none
no_refusal true o e h = absurd (cc e)
no_refusal false none e h = refl
no_refusal false (some c) e h = absurd (cc h)

module _ {ℓ} {V : Type ℓ} (cfg : Config V) (now : ℕ) (req : Request V) where
  check_claims-IsFree :
      (controller : Option String) (command : Command V) (ids : List ℕ) (robots : List (Robot V))
      → is_stopping command ≡ false
      → check_claims now req controller command ids robots ≡ none
      → All (IsFree now req.user_id controller ids) robots
  unfolding check_claims
  check_claims-IsFree controller command ids robots moves h =
      blocking_claim-none now req.user_id controller ids robots
        (no_refusal (is_stopping command) _ moves h)

  -- The robot is as it was if another account or another controller holds it.
  abbrev pub KeptIfClaimed : Option String → Robot V → Robot V → Type ℓ
  KeptIfClaimed controller before after =
      claim_conflict now before.reservation req.user_id controller ≢ none → after ≡ before

  step-KeptIfClaimed :
      (f : Robot V → Applied V) (controller : Option String) (ids : List ℕ) (robot : Robot V)
      → IsFree now req.user_id controller ids robot
      → KeptIfClaimed controller robot (step f ids robot)
  unfolding step
  step-KeptIfClaimed f controller ids robot free conflict =
      if_both (λ (r : Robot V). r ≡ robot) (includes robot.id ids)
        (λ here. absurd (conflict (free here))) (λ _. refl)

  -- A command that is neither a stop nor a disable leaves every robot as it was that is claimed by another
  -- account or by another controller of the account, whatever the answer is.
  pub command_robot-KeptIfClaimed :
      (world : World V) (command : Command V) (controller : Option String)
      → req.command ≡ some command
      → req.presented ≡ some controller
      → is_stopping command ≡ false
      → AllPairs
          (KeptIfClaimed controller)
          world.robots
          (command_robot cfg now req world).world.robots
  unfolding perform step
  command_robot-KeptIfClaimed world command controller asked shown moves =
      command_robot-cases cfg now req
        (λ (h : Handled V). AllPairs (KeptIfClaimed controller) world.robots h.world.robots) world
        (λ w effects r same.
          subst (λ (l : List (Robot V)). AllPairs (KeptIfClaimed controller) world.robots l)
            (sym same) (AllPairs-same (KeptIfClaimed controller) (λ _ _. refl) world.robots))
        (λ adm p w good _ same.
          let facts = admit-Facts cfg now req world adm good in
          let f = the_switch cfg now req adm p in
          let mine : adm.controller ≡ controller = cc (sym facts.of_caller ∙ shown) in
          let same_command : adm.command ≡ command = cc (sym facts.known ∙ asked) in
          let moving = subst (λ (c : Command V). is_stopping c ≡ false) (sym same_command) moves in
          let free =
            check_claims-IsFree adm.controller adm.command adm.affected world.robots moving
              facts.held in
          subst
            (λ (l : List (Robot V)).
              AllPairs (KeptIfClaimed controller) world.robots (map (step f adm.affected) l))
            (sym same)
            (AllPairs-map (KeptIfClaimed controller) (step f adm.affected) world.robots (
              All-imp
                (λ r h.
                  step-KeptIfClaimed f controller adm.affected r
                    (subst (λ (c : Option String). IsFree now req.user_id c adm.affected r) mine h))
                world.robots free)))

  -- A request that is refused, for whatever reason, changes no robot and broadcasts no change.
  pub command_robot-refused :
      (world : World V) (r : Refusal)
      → (command_robot cfg now req world).answer ≡ refused r
      → ((command_robot cfg now req world).world.robots ≡ world.robots)
        × ((command_robot cfg now req world).deltas ≡ [])
  unfolding perform
  command_robot-refused world r =
      command_robot-cases cfg now req
        (λ (h : Handled V).
          h.answer ≡ refused r → (h.world.robots ≡ world.robots) × (h.deltas ≡ []))
        world (λ w effects e same _. (same, refl)) (λ adm p w good _ same h. absurd (cc h))
