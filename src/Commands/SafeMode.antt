-- ===== src/Commands/SafeMode.antt =====
-- Whatever is asked for, a disabled robot stands still until it is enabled again.
use hydra_umc_server.Prelude.{
  ℕ, String, some, true, List, [], ◌∷◌, All, All-imp, All-map, All-both, ◌≡◌, refl, sym, ◌∙◌, ap,
  subst, map, if_both,
}
use hydra_umc_server.Robots.{Robot, find_last, includes, stopped_playback_state}
use hydra_umc_server.Robots.Ids.{DistinctIds, ids_of, find_last-own}
use hydra_umc_server.Commands.{Request, Config, World}
use hydra_umc_server.Commands.Planning.{plan}
use hydra_umc_server.Commands.Cases.{Applied}
use hydra_umc_server.Commands.Sync.{IsTold, apply_command-IsTold}
use hydra_umc_server.Commands.Handle.{
  Handled, step, the_switch, pause_wanted, perform, command_robot,
}
use hydra_umc_server.Commands.StopAll.{
  stop_in_place, stop_all, Call, command_call, stop_all_call, call, run,
}
use hydra_umc_server.Commands.Inversion.{command_robot-cases}
use hydra_umc_server.Commands.Checked.{admit-Facts}
use hydra_umc_server.Commands.Disabled.{
  IsSafe, plan_for-IsEdit, apply_command-IsSafe, in_service, merged-id,
}

module _ {ℓ} {V : Type ℓ} where
  -- The ids are distinct, and no robot out of service is playing.
  abbrev pub SafeFleet : List (Robot V) → Type 0
  SafeFleet robots = DistinctIds robots × All IsSafe robots

  step-id :
      (f : Robot V → Applied V) (ids : List ℕ) (robot : Robot V)
      → IsTold robot (f robot)
      → (step f ids robot).id ≡ robot.id
  unfolding step
  step-id f ids robot told =
      if_both (λ (r : Robot V). r.id ≡ robot.id) (includes robot.id ids)
        (λ _. sym (ap (λ (r : Robot V). r.id) told) ∙ merged-id (f robot).patch robot) (λ _. refl)

  ids_of-map :
      (g : Robot V → Robot V)
      → ((r : Robot V) → (g r).id ≡ r.id)
      → (robots : List (Robot V)) → ids_of (map g robots) ≡ ids_of robots
  ids_of-map g same [] = refl
  ids_of-map g same (robot ∷ robots) = λ i. same robot i ∷ ids_of-map g same robots i

  DistinctIds-map :
      (g : Robot V → Robot V)
      → ((r : Robot V) → (g r).id ≡ r.id)
      → (robots : List (Robot V)) → DistinctIds robots
      → DistinctIds (map g robots)
  DistinctIds-map g same [] h = tt
  DistinctIds-map g same (robot ∷ robots) (new, h) =
      (rw (same robot) (rw (ids_of-map g same robots) new), DistinctIds-map g same robots h)

  step-IsSafe :
      (f : Robot V → Applied V) (ids : List ℕ) (robot : Robot V)
      → IsSafe robot
      → (includes robot.id ids ≡ true → IsSafe (f robot).robot)
      → IsSafe (step f ids robot)
  unfolding step
  step-IsSafe f ids robot safe reached =
      if_both (λ (r : Robot V). IsSafe r) (includes robot.id ids) reached (λ _. safe)

  module _ (cfg : Config V) where
    command_robot-SafeFleet :
        (now : ℕ) (req : Request V) (world : World V)
        → SafeFleet world.robots
        → SafeFleet (command_robot cfg now req world).world.robots
    unfolding perform plan
    command_robot-SafeFleet now req world (distinct, safe) =
        command_robot-cases cfg now req (λ (h : Handled V). SafeFleet h.world.robots) world
          (λ w effects r same.
            subst (λ (l : List (Robot V)). SafeFleet l) (sym same) (distinct, safe))
          (λ adm p w good fits same.
            let facts = admit-Facts cfg now req world adm good in
            let f = the_switch cfg now req adm p in
            let plain = plan_for-IsEdit cfg adm.command adm.target adm.affected w.robots p fits in
            let told = λ (r : Robot V).
              apply_command-IsTold cfg now (pause_wanted cfg now req adm) req.robot_id adm.command p
                r in
            subst (λ (l : List (Robot V)). SafeFleet (map (step f adm.affected) l)) (sym same)
              (
                DistinctIds-map (step f adm.affected) (λ r. step-id f adm.affected r (told r))
                    world.robots distinct,
                All-map (λ (r : Robot V). IsSafe r) (step f adm.affected) world.robots
                    (All-imp
                      (λ r (own, fine). step-IsSafe f adm.affected r fine (λ here.
                        apply_command-IsSafe cfg now _ req.robot_id adm.command p r
                          (in_service adm.command adm.affected world.robots r facts.in_service own
                            here)
                          plain))
                      world.robots
                      (All-both (λ r. find_last r.id world.robots ≡ some r) IsSafe world.robots
                        (find_last-own world.robots distinct) safe)),
              ))

    stop_all-SafeFleet :
        (now : ℕ) (user_id : String) (world : World V)
        → SafeFleet world.robots
        → SafeFleet (stop_all now user_id world).world.robots
    unfolding stop_all stop_in_place stopped_playback_state
    stop_all-SafeFleet now user_id world (distinct, safe) = (
      DistinctIds-map stop_in_place (λ _. refl) world.robots distinct,
      All-map (λ (r : Robot V). IsSafe r) stop_in_place world.robots
          (All-imp (λ _ _ _. refl) world.robots safe),
    )

    -- Where the ids of the robots are distinct and no disabled robot is playing, this is so after any
    -- commands and global stops, of anybody and at any time, whether they are accepted or not.
    pub run-SafeFleet :
        (calls : List (Call V)) (world : World V)
        → SafeFleet world.robots
        → SafeFleet (run cfg calls world).robots
    unfolding run call
    run-SafeFleet [] world safe = safe
    run-SafeFleet (command_call now req ∷ calls) world safe =
        run-SafeFleet calls (command_robot cfg now req world).world
          (command_robot-SafeFleet now req world safe)
    run-SafeFleet (stop_all_call now user_id ∷ calls) world safe =
        run-SafeFleet calls (stop_all now user_id world).world
          (stop_all-SafeFleet now user_id world safe)
