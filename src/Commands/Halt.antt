-- ===== src/Commands/Halt.antt =====
-- A stop gets through, and what it stops stands still.
use hydra_umc_server.Prelude.{
  ℕ, String, Option, none, some, Bool, true, false, List, [], ◌∷◌, All, All-each, All-map, ◌≡◌,
  refl, sym, ◌∙◌, ap, map, if_both, ok, lookup, ℕ_discrete, lookup-delete_self, lookup-delete-some,
  delete, ◌++◌, All-imp, Option-cases, inl, inr,
}
use hydra_umc_server.Robots.{PlaybackState, Robot, includes, stopped_playback_state, switch_all_off}
use hydra_umc_server.JogArming.{Armed, is_armed, disarm}
use hydra_umc_server.JogArming.Bound.{disarm-is_armed}
use hydra_umc_server.Jog.{Marks}
use hydra_umc_server.Commands.{
  stop, Request, Config, World, no_plan, claims_changed, stop_server_playback, affected_ids,
}
use hydra_umc_server.Commands.Admission.{
  Admitted, admit, is_ambiguous, find_target, check_enable, check_disabled, check_claims,
  check_revision, check_arming, check_sequence, sequence_of,
}
use hydra_umc_server.Commands.Planning.{plan, plan_for}
use hydra_umc_server.Commands.Cases.{Applied, switched_off, stop_robot}
use hydra_umc_server.Commands.Apply.{apply_command}
use hydra_umc_server.Commands.Handle.{
  Answer, accepted, refused, step, perform, perform_planned, make_safe, after_sequence,
  after_arming, command_robot,
}
use hydra_umc_server.Commands.Checked.{not_both}
use hydra_umc_server.Commands.StopAll.{
  stop_in_place, disarm_all, stop_result, stop_delta, stop_effects, stop_all,
}

abbrev pub HasStopped {ℓ} : {V : Type ℓ} → Option (PlaybackState V) → Type 0
HasStopped none = ⊥
HasStopped (some ps) = (ps.is_playing ≡ false) × (ps.playing ≡ false) × (ps.request_stop ≡ true)

abbrev pub AreOff : Option (List Bool) → Type 0
AreOff none = Unit
AreOff (some outputs) = All (λ on. on ≡ false) outputs

abbrev pub is_accepted : Answer → Bool
is_accepted (accepted count warnings) = true
is_accepted (refused r) = false

switch_all_off-All : (outputs : List Bool) → All (λ on. on ≡ false) (switch_all_off outputs)
unfolding switch_all_off
switch_all_off-All [] = tt
switch_all_off-All (on ∷ outputs) = (refl, switch_all_off-All outputs)

lookup-disarm : (id : ℕ) (armed : Armed) → lookup ℕ_discrete id (disarm id armed) ≡ none
unfolding disarm
lookup-disarm id armed = lookup-delete_self ℕ_discrete id armed

-- The elements that `f` makes stand for those that `h` reads, one for one.
map-map {ℓ κ ι} :
    {A : Type ℓ} {B : Type κ} {C : Type ι} (f : A → B) (g : B → C) (h : A → C)
    → ((x : A) → g (f x) ≡ h x)
    → (xs : List A) → map g (map f xs) ≡ map h xs
map-map f g h same [] = refl
map-map f g h same (x ∷ xs) = rw (same x) (ap (◌∷◌ (h x)) (map-map f g h same xs))

AreOff-switched_off : (outputs : Option (List Bool)) → AreOff (switched_off outputs)
AreOff-switched_off none = tt
AreOff-switched_off (some outputs) = switch_all_off-All outputs

disarm-none :
    (id j : ℕ) (armed : Armed)
    → lookup ℕ_discrete id armed ≡ none
    → lookup ℕ_discrete id (disarm j armed) ≡ none
unfolding disarm
disarm-none id j armed h = elim (Option-cases (lookup ℕ_discrete id (delete ℕ_discrete j armed))) [
  | inl gone ↦ gone
  | inr (e, found) ↦ absurd (cc (sym h ∙ lookup-delete-some ℕ_discrete j id armed found))
]

module _ {ℓ} {V : Type ℓ} where
  abbrev pub stop_of : Robot V → Option String → Admitted V
  stop_of target controller = record {
    command = stop;
    target = target;
    controller = controller;
    affected = target.id ∷ target.combined_with;
  }

  stop_robot-HasStopped : (robot : Robot V) → HasStopped (stop_robot robot).robot.playback_state
  unfolding stop_robot stopped_playback_state
  stop_robot-HasStopped robot = (refl, refl, refl)

  step-HasStopped :
      (f : Robot V → Applied V) (ids : List ℕ)
      → ((r : Robot V) → HasStopped (f r).robot.playback_state)
      → (robot : Robot V) → includes (step f ids robot).id ids ≡ true
      → HasStopped (step f ids robot).playback_state
  unfolding step
  step-HasStopped f ids halts robot =
      if_both (λ (r : Robot V). includes r.id ids ≡ true → HasStopped r.playback_state)
        (includes robot.id ids) (λ _ _. halts robot) (λ other here. absurd (not_both here other))

  -- The robot has stopped, and its valves and pumps are off.
  abbrev pub IsAtRest : Robot V → Type 0
  IsAtRest robot = HasStopped robot.playback_state × AreOff robot.valves × AreOff robot.pumps

  -- What the answer calls a robot by.
  abbrev pub name_of_robot : Robot V → ℕ × String
  name_of_robot robot = (robot.id, robot.controller_id)

  stop_effects-map :
      (robots : List (Robot V))
      → stop_effects robots ≡ map (λ r. stop_server_playback r.id) robots ++ claims_changed ∷ []
  stop_effects-map [] = refl
  stop_effects-map (robot ∷ robots) =
      ap (◌∷◌ (stop_server_playback robot.id)) (stop_effects-map robots)

  disarm_all-none :
      (robots : List (Robot V)) (id : ℕ) (armed : Armed)
      → lookup ℕ_discrete id armed ≡ none
      → lookup ℕ_discrete id (disarm_all robots armed) ≡ none
  unfolding disarm_all
  disarm_all-none [] id armed h = h
  disarm_all-none (robot ∷ robots) id armed h =
      disarm_all-none robots id (disarm robot.id armed) (disarm-none id robot.id armed h)

  disarm_all-each :
      (robots : List (Robot V)) (armed : Armed)
      → All (λ r. lookup ℕ_discrete r.id (disarm_all robots armed) ≡ none) robots
  unfolding disarm_all
  disarm_all-each [] armed = tt
  disarm_all-each (robot ∷ robots) armed = (
    disarm_all-none robots robot.id (disarm robot.id armed) (lookup-disarm robot.id armed),
    disarm_all-each robots (disarm robot.id armed),
  )

  -- After a global stop every robot has stopped, its valves and pumps are off and its jog is disarmed,
  -- whoever reserved it. The answer and the broadcast each name every robot of the fleet, by its id and
  -- the id of its controller, once and in the order of the fleet, and the playback of each is stopped.
  pub stop_all-IsAtRest :
      (now : ℕ) (user_id : String) (world : World V)
      → All
          (λ r.
            IsAtRest r × (lookup ℕ_discrete r.id (stop_all now user_id world).world.armed ≡ none))
          (stop_all now user_id world).world.robots
        × (map name_of_robot (stop_all now user_id world).world.robots
            ≡ map name_of_robot world.robots)
        × (map (λ a. (a.robot_id, a.controller_id)) (stop_all now user_id world).results
            ≡ map name_of_robot world.robots)
        × (map (λ d. (d.robot_id, d.controller_id)) (stop_all now user_id world).deltas
            ≡ map name_of_robot world.robots)
        × ((stop_all now user_id world).effects
            ≡ map (λ r. stop_server_playback r.id) world.robots ++ claims_changed ∷ [])
  unfolding stop_all stop_in_place stopped_playback_state
  stop_all-IsAtRest now user_id world = (
    All-map
        (λ (r : Robot V).
          IsAtRest r × (lookup ℕ_discrete r.id (stop_all now user_id world).world.armed ≡ none))
        stop_in_place world.robots
        (All-imp
          (λ r h.
            (((refl, refl, refl), AreOff-switched_off r.valves, AreOff-switched_off r.pumps), h))
          world.robots (disarm_all-each world.robots world.armed)),
    map-map stop_in_place name_of_robot name_of_robot (λ r. refl) world.robots,
    map-map (stop_result now user_id) (λ a. (a.robot_id, a.controller_id)) name_of_robot (λ r. refl)
        world.robots,
    map-map stop_delta (λ d. (d.robot_id, d.controller_id)) name_of_robot (λ r. refl) world.robots,
    stop_effects-map world.robots,
  )

module _ {ℓ} {V : Type ℓ} (cfg : Config V) (now : ℕ) (req : Request V) where
  admit-stop :
      (world : World V) (target : Robot V) (controller : Option String)
      → req.command ≡ some stop
      → world.is_loaded ≡ true
      → is_ambiguous world.robots req.robot_id ≡ false
      → find_target req.robot_id world.robots ≡ some target
      → req.presented ≡ some controller
      → admit cfg now req world ≡ ok (stop_of target controller)
  unfolding admit check_enable check_disabled check_claims check_revision affected_ids
  admit-stop world target controller asked loaded clear found shown =
      rw asked (rw loaded (rw clear (rw found (rw shown refl))))

  sequence_of-free :
      (controller : Option String) (seq : Option (Option ℕ)) (marks : Marks)
      → sequence_of cfg now req false controller seq marks ≡ (marks, none)
  sequence_of-free controller none marks = refl
  sequence_of-free controller (some raw) marks = refl

  -- A stop that finds its robot is performed.
  stop-performed :
      (world : World V) (target : Robot V) (controller : Option String)
      → req.command ≡ some stop
      → world.is_loaded ≡ true
      → is_ambiguous world.robots req.robot_id ≡ false
      → find_target req.robot_id world.robots ≡ some target
      → req.presented ≡ some controller
      → command_robot cfg now req world
        ≡ perform cfg now req
            (stop_of target controller)
            no_plan
            (claims_changed ∷ [])
            (make_safe cfg now req stop controller world)
  unfolding command_robot after_arming after_sequence perform_planned plan plan_for check_arming
      check_sequence
  stop-performed world target controller asked loaded clear found shown =
      rw (admit-stop world target controller asked loaded clear found shown)
        (rw (sequence_of-free controller req.seq world.marks) refl)

  -- A stop is accepted whoever holds the robot and whatever else the request says, if the settings are
  -- loaded, the id belongs to one robot and the controller id is not malformed. Then every robot that it
  -- reaches, the target and those combined with it, has stopped, and the jog of the target is disarmed.
  pub stop-IsHalted :
      (world : World V) (target : Robot V) (controller : Option String)
      → req.command ≡ some stop
      → world.is_loaded ≡ true
      → is_ambiguous world.robots req.robot_id ≡ false
      → find_target req.robot_id world.robots ≡ some target
      → req.presented ≡ some controller
      → (is_accepted (command_robot cfg now req world).answer ≡ true)
        × All
            (λ r.
              includes r.id (target.id ∷ target.combined_with) ≡ true → HasStopped r.playback_state)
            (command_robot cfg now req world).world.robots
        × ((later : ℕ) (user_id : String) (presented : Option String)
            → (is_armed later req.robot_id user_id presented
                (command_robot cfg now req world).world.armed).1
              ≡ false)
  unfolding perform make_safe apply_command
  stop-IsHalted world target controller asked loaded clear found shown =
      let done = stop-performed world target controller asked loaded clear found shown in
      let ids = target.id ∷ target.combined_with in
      let f = λ (r : Robot V). stop_robot r in
      rw done (
        refl,
        All-map (λ (r : Robot V). includes r.id ids ≡ true → HasStopped r.playback_state)
            (step f ids) world.robots
            (All-each (step-HasStopped f ids stop_robot-HasStopped) world.robots),
        λ later user_id presented. disarm-is_armed later req.robot_id user_id presented world.armed,
      )
