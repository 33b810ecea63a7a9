-- ===== src/Commands/Inversion.antt =====
-- The two ways that the handler of a command ends.
use hydra_umc_server.Prelude.{ℕ, String, Option, none, some, List, [], ◌≡◌, refl, Result, ok, err}
use hydra_umc_server.Commands.{
  Command, stop, disable, Refusal, Request, Config, World, Effect, Plan,
}
use hydra_umc_server.Commands.Admission.{Admitted, admit, check_arming, check_sequence}
use hydra_umc_server.Commands.Planning.{plan}
use hydra_umc_server.Commands.Handle.{
  Handled, refuse, or_refuse, or_refuse_with, perform, perform_planned, make_safe, safe_effects,
  after_sequence, after_arming, command_robot,
}

module _ {ℓ} {V : Type ℓ} where
  or_refuse-both {κ} :
      (P : Handled V → Type κ) (world : World V) (o : Option Refusal) {rest : Handled V}
      → ((r : Refusal) → P (refuse world [] r))
      → P rest
      → P (or_refuse world o rest)
  or_refuse-both P world none stays goes = goes
  or_refuse-both P world (some r) stays goes = stays r

  or_refuse_with-both {κ υ} :
      (P : Handled V → Type κ) {A : Type υ} (world : World V) (effects : List Effect)
      → (r : Result Refusal A) {rest : A → Handled V} → ((e : Refusal) → P (refuse world effects e))
      → ((a : A) → r ≡ ok a → P (rest a))
      → P (or_refuse_with world effects r rest)
  or_refuse_with-both P world effects (ok a) stays goes = goes a refl
  or_refuse_with-both P world effects (err e) stays goes = stays e

  module _ (cfg : Config V) (now : ℕ) (req : Request V) where
    make_safe-robots :
        (command : Command V) (controller : Option String) (world : World V)
        → (make_safe cfg now req command controller world).robots ≡ world.robots
    unfolding make_safe
    make_safe-robots disable controller world = refl
    make_safe-robots stop controller world = refl
    make_safe-robots _ controller world = refl

    -- What holds of every refusal and of every loop over the robots, with the robots of before, holds of
    -- the handler's result. The loop runs after the checks and the plan.
    pub command_robot-cases {κ} :
        (P : Handled V → Type κ) (world : World V)
        → ((w : World V) (effects : List Effect) (r : Refusal)
            → w.robots ≡ world.robots
            → P (refuse w effects r))
        → ((adm : Admitted V) (p : Plan V) (w : World V)
            → admit cfg now req world ≡ ok adm
            → plan cfg adm w.robots ≡ ok p
            → w.robots ≡ world.robots
            → P (perform cfg now req adm p (safe_effects adm.command) w))
        → P (command_robot cfg now req world)
    unfolding command_robot after_arming after_sequence perform_planned
    command_robot-cases P world stays goes =
        or_refuse_with-both P world [] (admit cfg now req world) (λ r. stays world [] r refl)
          (λ adm good.
            let (armed, refusal) =
              check_arming cfg now req adm.command adm.controller world.armed in
            let held = record world { armed = armed } in
            let (marks, late) = check_sequence cfg now req adm.command adm.controller held.marks in
            let counted = record held { marks = marks } in
            let safe = make_safe cfg now req adm.command adm.controller counted in
            let same = make_safe-robots adm.command adm.controller counted in
            or_refuse-both P held refusal (λ r. stays held [] r refl)
              (or_refuse-both P counted late (λ r. stays counted [] r refl)
                (or_refuse_with-both P safe (safe_effects adm.command) (plan cfg adm safe.robots)
                  (λ r. stays safe (safe_effects adm.command) r same)
                  (λ p fits. goes adm p safe good fits same))))
