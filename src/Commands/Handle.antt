-- ===== src/Commands/Handle.antt =====
-- src/routes/commandRoutes.ts: the two handlers, over the robots, the arming of the jog and the marks of
-- the numbered commands. Log, metrics and audit lines, the write of the settings and the operation of the
-- answer are outside.
use hydra_umc_server.Prelude.{
  ℕ, String, Option, none, some, Bool, false, ◌&&◌, ◌||◌, List, [], ◌∷◌, ◌++◌, map, ◌==◌, is_same,
  if◌then◌else◌, Result, ok, err, suc,
}
use hydra_umc_server.Robots.{Robot, Patch, includes}
use hydra_umc_server.JogArming.{disarm}
use hydra_umc_server.Commands.{
  Command, stop, disable, pause, vision, Refusal, Request, Config, Camera, World, Effect,
  claims_changed, Delta, Warning, Plan, is_stopping,
}
use hydra_umc_server.Commands.Admission.{Admitted, admit, check_arming, check_sequence, raise_mark}
use hydra_umc_server.Commands.Planning.{plan, requested_pause}
use hydra_umc_server.Commands.Cases.{Applied}
use hydra_umc_server.Commands.Apply.{apply_command}

pub data Answer : Type 0 where
  refused : Refusal → Answer
  accepted : ℕ → List Warning → Answer

-- What a request leaves: the world, the answer, the deltas that are broadcast and the other effects.
pub record Handled {ℓ} (V : Type ℓ) : Type ℓ where
  pub world : World V
  pub answer : Answer
  pub deltas : List (Delta V)
  pub effects : List Effect

abbrev pub count : List ℕ → ℕ
count [] = 0
count (id ∷ ids) = suc (count ids)

module _ {ℓ} {V : Type ℓ} where
  abbrev pub refuse : World V → List Effect → Refusal → Handled V
  refuse world effects r = record {
    world = world;
    answer = refused r;
    deltas = [];
    effects = effects;
  }

  -- An early return of the handler.
  abbrev pub or_refuse : World V → Option Refusal → Handled V → Handled V
  or_refuse world none rest = rest
  or_refuse world (some r) rest = refuse world [] r

  abbrev pub or_refuse_with {κ} :
      {A : Type κ} → World V → List Effect → Result Refusal A → (A → Handled V) → Handled V
  or_refuse_with world effects (ok a) rest = rest a
  or_refuse_with world effects (err r) rest = refuse world effects r

  -- A robot of the loop: only those that the command reaches are changed.
  unfoldable pub step : (Robot V → Applied V) → List ℕ → Robot V → Robot V
  step f ids robot = if includes robot.id ids then (f robot).robot else robot

  abbrev pub delta_of : Robot V → Option (Patch V) → List (Delta V)
  delta_of robot none = []
  delta_of robot (some patch) =
      record { controller_id = robot.controller_id; robot_id = robot.id; patch = patch } ∷ []

  pub deltas_of : (Robot V → Applied V) → List ℕ → List (Robot V) → List (Delta V)
  deltas_of f ids [] = []
  deltas_of f ids (robot ∷ robots) =
      let rest = deltas_of f ids robots in
      if includes robot.id ids then delta_of robot (f robot).patch ++ rest else rest

  pub warnings_of : (Robot V → Applied V) → List ℕ → List (Robot V) → List Warning
  warnings_of f ids [] = []
  warnings_of f ids (robot ∷ robots) =
      let rest = warnings_of f ids robots in
      if includes robot.id ids then (f robot).warnings ++ rest else rest

  pub effects_of : (Robot V → Applied V) → List ℕ → List (Robot V) → List Effect
  effects_of f ids [] = []
  effects_of f ids (robot ∷ robots) =
      let rest = effects_of f ids robots in
      if includes robot.id ids then (f robot).effects ++ rest else rest

  abbrev pub is_camera_of : Robot V → Camera → Bool
  is_camera_of robot camera =
      is_same camera.controller_id robot.controller_id
      && (elim camera.assigned_robot_id [ none ↦ false | some id ↦ id == robot.id ]
          || camera.id == robot.id)

  -- The first camera of the robot in its controller follows the vision of the robot.
  pub connect_camera : Bool → Robot V → List Camera → List Camera
  connect_camera on robot [] = []
  connect_camera on robot (camera ∷ cameras) =
      let rest = connect_camera on robot cameras in
      if is_camera_of robot camera
      then record camera { connected = on } ∷ cameras
      else camera ∷ rest

  pub connect_cameras : Bool → List ℕ → List (Robot V) → List Camera → List Camera
  unfolding connect_camera
  connect_cameras on ids [] cameras = cameras
  connect_cameras on ids (robot ∷ robots) cameras =
      let here = if includes robot.id ids then connect_camera on robot cameras else cameras in
      connect_cameras on ids robots here

  abbrev pub cameras_after : Command V → List ℕ → List (Robot V) → List Camera → List Camera
  unfolding connect_cameras
  cameras_after (vision (some on)) ids robots cameras = connect_cameras on ids robots cameras
  cameras_after _ ids robots cameras = cameras

  abbrev pub safe_effects : Command V → List Effect
  safe_effects command = if is_stopping command then claims_changed ∷ [] else []

module _ {ℓ} {V : Type ℓ} (cfg : Config V) (now : ℕ) (req : Request V) where
  abbrev pub pause_wanted : Admitted V → Bool
  pause_wanted adm = elim adm.command [
    | pause given ↦ requested_pause cfg given adm.target
    | _ ↦ false
  ]

  abbrev pub the_switch : Admitted V → Plan V → Robot V → Applied V
  the_switch adm p robot = apply_command cfg now (pause_wanted adm) req.robot_id adm.command p robot

  -- The loop over all robots.
  unfoldable pub perform : Admitted V → Plan V → List Effect → World V → Handled V
  unfolding step deltas_of warnings_of effects_of
  perform adm p effects world =
      let f = the_switch adm p in
      record {
        world = record world {
          robots = map (step f adm.affected) world.robots;
          cameras = cameras_after adm.command adm.affected world.robots world.cameras;
        };
        answer = accepted (count adm.affected) (warnings_of f adm.affected world.robots);
        deltas = deltas_of f adm.affected world.robots;
        effects = effects ++ effects_of f adm.affected world.robots;
      }

  unfoldable pub perform_planned : Admitted V → List Effect → World V → Handled V
  unfolding perform
  perform_planned adm effects world =
      or_refuse_with world effects (plan cfg adm world.robots) (λ p. perform adm p effects world)

  -- A stop and a disable disarm the jog of the target, and a stop raises the mark.
  unfoldable pub make_safe : Command V → Option String → World V → World V
  make_safe disable controller world = record world { armed = disarm req.robot_id world.armed }
  make_safe stop controller world = record world {
    armed = disarm req.robot_id world.armed;
    marks = raise_mark cfg now req controller world.marks;
  }
  make_safe _ controller world = world

  unfoldable pub after_sequence : Admitted V → World V → Handled V
  unfolding perform_planned make_safe
  after_sequence adm world =
      let (marks, refusal) = check_sequence cfg now req adm.command adm.controller world.marks in
      let checked = record world { marks = marks } in
      or_refuse checked refusal (
        perform_planned adm (safe_effects adm.command)
          (make_safe adm.command adm.controller checked))

  unfoldable pub after_arming : Admitted V → World V → Handled V
  unfolding after_sequence
  after_arming adm world =
      let (armed, refusal) = check_arming cfg now req adm.command adm.controller world.armed in
      let checked = record world { armed = armed } in
      or_refuse checked refusal (after_sequence adm checked)

  -- POST /api/robot/:id/command
  unfoldable pub command_robot : World V → Handled V
  unfolding after_arming
  command_robot world =
      or_refuse_with world [] (admit cfg now req world) (λ adm. after_arming adm world)
