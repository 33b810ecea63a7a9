-- ===== src/Commands/StopAll.antt =====
-- src/routes/commandRoutes.ts: the global stop, POST /api/stop-all, and the calls of both handlers in a
-- row. Stopping a robot of the list does not fail, so every result is of a robot that was stopped.
use hydra_umc_server.Prelude.{
  ℕ, suc, String, Option, none, some, Bool, ◌&&◌, not, List, [], ◌∷◌, map, is_same, if◌then◌else◌,
}
use hydra_umc_server.Robots.{Robot, no_patch, stopped_playback_state}
use hydra_umc_server.Claims.{Reservation, is_reservation_active}
use hydra_umc_server.JogArming.{Armed, disarm}
use hydra_umc_server.Commands.{
  Request, Config, World, Effect, stop_server_playback, claims_changed, Delta,
}
use hydra_umc_server.Commands.Cases.{switched_off}
use hydra_umc_server.Commands.Handle.{command_robot}

pub record StopResult : Type 0 where
  pub robot_id : ℕ
  pub controller_id : String
  pub valves_off : ℕ
  pub pumps_off : ℕ
  pub reserved_by : Option String

abbrev pub count_on : List Bool → ℕ
count_on [] = 0
count_on (on ∷ outputs) = if on then suc (count_on outputs) else count_on outputs

abbrev pub were_on : Option (List Bool) → ℕ
were_on none = 0
were_on (some outputs) = count_on outputs

-- Informational only: it never changes what happens to the robot.
abbrev pub reserved_by_other : ℕ → String → Option Reservation → Option String
reserved_by_other now user_id none = none
reserved_by_other now user_id (some r) =
    if is_reservation_active now (some r) && not (is_same r.owner_id user_id)
    then some r.owner_username
    else none

pub record Stopped {ℓ} (V : Type ℓ) : Type ℓ where
  pub world : World V
  pub results : List StopResult
  pub deltas : List (Delta V)
  pub effects : List Effect

module _ {ℓ} {V : Type ℓ} where
  unfoldable pub stop_in_place : Robot V → Robot V
  stop_in_place robot = record robot {
    playback_state = some (stopped_playback_state robot.playback_state);
    valves = switched_off robot.valves;
    pumps = switched_off robot.pumps;
  }

  abbrev pub stop_delta : Robot V → Delta V
  stop_delta robot = record {
    controller_id = robot.controller_id;
    robot_id = robot.id;
    patch = record no_patch {
      playback_state = some (stopped_playback_state robot.playback_state);
      valves = switched_off robot.valves;
      pumps = switched_off robot.pumps;
    };
  }

  abbrev pub stop_result : ℕ → String → Robot V → StopResult
  stop_result now user_id robot = record {
    robot_id = robot.id;
    controller_id = robot.controller_id;
    valves_off = were_on robot.valves;
    pumps_off = were_on robot.pumps;
    reserved_by = reserved_by_other now user_id robot.reservation;
  }

  unfoldable pub disarm_all : List (Robot V) → Armed → Armed
  disarm_all [] armed = armed
  disarm_all (robot ∷ robots) armed = disarm_all robots (disarm robot.id armed)

  abbrev pub stop_effects : List (Robot V) → List Effect
  stop_effects [] = claims_changed ∷ []
  stop_effects (robot ∷ robots) = stop_server_playback robot.id ∷ stop_effects robots

  -- POST /api/stop-all
  unfoldable pub stop_all : ℕ → String → World V → Stopped V
  unfolding stop_in_place disarm_all
  stop_all now user_id world = record {
    world = record world {
      robots = map stop_in_place world.robots;
      armed = disarm_all world.robots world.armed;
    };
    results = map (stop_result now user_id) world.robots;
    deltas = map stop_delta world.robots;
    effects = stop_effects world.robots;
  }

-- A call of one of the two handlers, with the time of its clock.
pub data Call {ℓ} (V : Type ℓ) : Type ℓ where
  command_call : ℕ → Request V → Call V
  stop_all_call : ℕ → String → Call V

module _ {ℓ} {V : Type ℓ} (cfg : Config V) where
  unfoldable pub call : Call V → World V → World V
  unfolding stop_all
  call (command_call now req) world = (command_robot cfg now req world).world
  call (stop_all_call now user_id) world = (stop_all now user_id world).world

  -- The first call comes first.
  unfoldable pub run : List (Call V) → World V → World V
  unfolding call
  run [] world = world
  run (c ∷ calls) world = run calls (call c world)
