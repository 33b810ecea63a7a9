-- ===== src/Commands/Tests.antt =====
-- Commands on two robots with whole numbers.
use hydra_umc_server.Prelude.{
  ℕ, ◌+◌, String, Option, none, some, Bool, true, false, List, [], ◌∷◌, All, AllPairs, map, ◌++◌,
  ◌≡◌, refl, leb, string_discrete, lookup, ℕ_discrete, put, decimal,
}
use hydra_umc_server.Playback.{Joints, Position}
use hydra_umc_server.Claims.{Reservation}
use hydra_umc_server.RobotIds.{
  see, see_robots, see_controllers, robot_id_conflicts, is_robot_id_ambiguous,
}
use hydra_umc_server.Robots.{Numbers, Robot, includes, find_last}
use hydra_umc_server.JogArming.{is_armed}
use hydra_umc_server.RobotEdit.{Patterns}
use hydra_umc_server.ModelHome.{
  Six, not_sent, home_for, has_joint_out_of_range, check_sent, resolve_home,
}
use hydra_umc_server.Commands.Planning.{plan_homes}
use hydra_umc_server.Commands.Homes.{IsHomed, reset-IsHomed}
use hydra_umc_server.Commands.{
  reset, home_plan, stop_server_playback, claims_changed, Command, stop, play, disable, enable,
  enable_not_allowed, Config, Request, World, no_plan,
}
use hydra_umc_server.Commands.Admission.{admit, check_enable}
use hydra_umc_server.Commands.Apply.{apply_command}
use hydra_umc_server.Commands.Handle.{command_robot}
use hydra_umc_server.Commands.StopAll.{stop_all, command_call, stop_all_call, run}
use hydra_umc_server.Commands.Reach.{
  KeptIfClaimed, command_robot-KeptIfClaimed, command_robot-refused,
}
use hydra_umc_server.Commands.Sync.{IsTold, apply_command-IsTold}
use hydra_umc_server.Commands.SafeMode.{SafeFleet, run-SafeFleet}
use hydra_umc_server.Commands.Halt.{
  HasStopped, IsAtRest, is_accepted, stop-IsHalted, name_of_robot, stop_all-IsAtRest,
}

abbrev whole : Numbers ℕ
whole = record {
  of_nat = λ n. n;
  hundredths = λ n. n;
  plus = ◌+◌;
  neg = λ n. n;
  abs = λ n. n;
  le = leb;
}

abbrev any_name : Patterns
any_name = record {
  trim = λ s. s;
  is_model_name = λ _. true;
  is_work_file = λ _. true;
  is_example_id = λ _. true;
}

abbrev at_rest : Joints ℕ
at_rest = record { j1 = none; j2 = none; j3 = none; j4 = none; j5 = none; j6 = none }

abbrev origin : Position ℕ
origin = record {
  x = some 0;
  y = some 0;
  z = some 0;
  a = some 0;
  b = some 0;
  c = some 0;
  tx = none;
  ty = none;
  trz = none;
}

abbrev config : Config ℕ
config = record {
  num = whole;
  patterns = any_name;
  model_key = λ s. s;
  models = [];
  jog_for = λ _. record { max_amount = 1000; max_absolute = 1000 };
  calculate_joints = λ _. at_rest;
  if_match_agrees = λ _ _. true;
  robot_enable_allowed = false;
  arm_required = false;
}

abbrev held : Reservation
held = record {
  owner_id = "u1";
  owner_username = "ana";
  controller_id = none;
  claimed_at = 1000;
  expires_at = 9000;
}

abbrev robot : ℕ → Option Bool → Option Reservation → List ℕ → Robot ℕ
robot id enabled reservation combined_with = record {
  controller_id = "c1";
  id = id;
  model = "m";
  role = none;
  enabled = enabled;
  reservation = reservation;
  combined_with = combined_with;
  playback_state = none;
  pos = origin;
  joints = at_rest;
  has_xy_table = false;
  xy_table = none;
  tool = none;
  valves = some (true ∷ false ∷ []);
  pumps = none;
  jog_step = none;
  reset3d_trigger = none;
  recorded_points = [];
  selected_work_file = none;
  selected_example = none;
  vision_enabled = none;
  camera_connected = none;
}

abbrev fleet : List (Robot ℕ)
fleet = robot 1 none (some held) (2 ∷ []) ∷ robot 2 (some false) none [] ∷ []

abbrev world : World ℕ
world = record { is_loaded = true; robots = fleet; cameras = []; armed = []; marks = [] }

abbrev request : Command ℕ → Request ℕ
request command = record {
  robot_id = 1;
  command = some command;
  user_id = "u2";
  is_admin = false;
  presented = some none;
  if_match = none;
  seq = none;
}

-- A client that did not claim the robot wants to play.
command_robot-KeptIfClaimed_example :
    AllPairs
      (KeptIfClaimed config 2000 (request play) none)
      fleet
      (command_robot config 2000 (request play) world).world.robots
command_robot-KeptIfClaimed_example =
    command_robot-KeptIfClaimed config 2000 (request play) world play none refl refl refl

run-SafeFleet_example :
    SafeFleet
      (run config
        (command_call 2000 (request play)
          ∷ stop_all_call 2100 "u2"
          ∷ command_call 2200 (request disable)
          ∷ [])
        world).robots
run-SafeFleet_example =
    run-SafeFleet config
      (command_call 2000 (request play)
        ∷ stop_all_call 2100 "u2"
        ∷ command_call 2200 (request disable)
        ∷ [])
      world ((refl, (refl, tt)), ((λ _. refl), ((λ _. refl), tt)))

apply_command-IsTold_example :
    IsTold
      (robot 1 none none [])
      (apply_command config 2000 false 1 disable no_plan (robot 1 none none []))
apply_command-IsTold_example =
    apply_command-IsTold config 2000 false 1 disable no_plan (robot 1 none none [])

stop-IsHalted_example :
    (is_accepted (command_robot config 2000 (request stop) world).answer ≡ true)
    × All
        (λ (r : Robot ℕ). includes r.id (1 ∷ 2 ∷ []) ≡ true → HasStopped r.playback_state)
        (command_robot config 2000 (request stop) world).world.robots
    × ((later : ℕ) (user_id : String) (presented : Option String)
        → (is_armed later 1 user_id presented
            (command_robot config 2000 (request stop) world).world.armed).1
          ≡ false)
unfolding find_last is_robot_id_ambiguous robot_id_conflicts see_controllers see_robots see
    string_discrete put lookup decimal
stop-IsHalted_example =
    stop-IsHalted config 2000 (request stop) world (robot 1 none (some held) (2 ∷ [])) none refl
      refl refl refl refl

stop_all-IsAtRest_example :
    All
      (λ (r : Robot ℕ).
        IsAtRest r × (lookup ℕ_discrete r.id (stop_all 2000 "u2" world).world.armed ≡ none))
      (stop_all 2000 "u2" world).world.robots
    × (map name_of_robot (stop_all 2000 "u2" world).world.robots ≡ map name_of_robot fleet)
    × (map (λ a. (a.robot_id, a.controller_id)) (stop_all 2000 "u2" world).results
        ≡ map name_of_robot fleet)
    × (map (λ d. (d.robot_id, d.controller_id)) (stop_all 2000 "u2" world).deltas
        ≡ map name_of_robot fleet)
    × ((stop_all 2000 "u2" world).effects
        ≡ map (λ r. stop_server_playback r.id) fleet ++ claims_changed ∷ [])
stop_all-IsAtRest_example = stop_all-IsAtRest 2000 "u2" world

command_robot-refused_example :
    ((command_robot config 2000 (request enable) world).world.robots ≡ fleet)
    × ((command_robot config 2000 (request enable) world).deltas ≡ [])
unfolding find_last is_robot_id_ambiguous robot_id_conflicts see_controllers see_robots see
    string_discrete put lookup decimal command_robot admit check_enable
command_robot-refused_example =
    command_robot-refused config 2000 (request enable) world enable_not_allowed refl

abbrev home : Six ℕ
home = record { j1 = 0; j2 = 0; j3 = 45; j4 = 0; j5 = 90; j6 = 0 }

-- Numbers whose negation is 0: the ranges are from 0 up.
abbrev from_zero : Config ℕ
from_zero = record config { num = record whole { neg = λ _. 0 } }

-- A reset of robot 1, which is combined with robot 2.
reset-IsHomed_example :
    All
      (λ (r : Robot ℕ).
        includes r.id (1 ∷ 2 ∷ []) ≡ true
        → IsHomed from_zero not_sent r
            (apply_command from_zero 2000 false 1
              (reset false not_sent)
              (home_plan ((1, home) ∷ (2, home) ∷ []))
              r).robot)
      fleet
unfolding plan_homes resolve_home home_for has_joint_out_of_range check_sent lookup string_discrete
    ℕ_discrete
reset-IsHomed_example =
    reset-IsHomed from_zero not_sent (1 ∷ 2 ∷ []) 2000 false 1 fleet ((1, home) ∷ (2, home) ∷ [])
      (refl, (refl, tt)) refl
