-- ===== src/Commands/Admission.antt =====
-- src/routes/commandRoutes.ts: what is checked before a command changes anything, in the order of the
-- handler. An id that more than one robot has is refused by src/robotIds.ts.
use hydra_umc_server.Prelude.{
  ℕ, String, Option, none, some, Bool, true, false, ◌&&◌, not, List, [], ◌∷◌, map, if◌then◌else◌,
  Result, ok, ◌>>=◌, ◌>>◌, guard, or_err, refuse_if,
}
use hydra_umc_server.RobotIds
use hydra_umc_server.RobotIds.{number, is_robot_id_ambiguous}
use hydra_umc_server.Robots.{Robot, find_last, includes}
use hydra_umc_server.Claims.{ClaimConflict, claim_conflict}
use hydra_umc_server.Jog.{
  Client, Marks, Answer, accepted, refused, accept, parse_sequence, note_stop,
}
use hydra_umc_server.JogArming.{Armed, is_armed}
use hydra_umc_server.Commands.{
  Command, enable, Refusal, unknown_command, no_settings, robot_id_ambiguous, robot_not_found,
  invalid_controller_id, enable_not_allowed, admin_required, robot_disabled, claimed_by_other,
  revision_mismatch, jog_not_armed, invalid_sequence, stale_sequence, Request, Config, World,
  works_on_a_disabled_robot, is_stopping, is_motion, affected_ids,
}

abbrev pub or_else_claim : Option ClaimConflict → Option ClaimConflict → Option ClaimConflict
or_else_claim none rest = rest
or_else_claim (some conflict) rest = some conflict

-- `enabled === false`
abbrev pub is_out_of_service : Option Bool → Bool
is_out_of_service (some false) = true
is_out_of_service _ = false

module _ {ℓ} {V : Type ℓ} where
  -- Each robot as its controller's list shows it to src/robotIds.ts.
  abbrev pub seen_by_ids : Robot V → RobotIds.Controller
  seen_by_ids robot = record { id = some robot.controller_id; robots = some (number robot.id) ∷ [] }

  abbrev pub is_ambiguous : List (Robot V) → ℕ → Bool
  is_ambiguous robots id = is_robot_id_ambiguous (map seen_by_ids robots) (number id)

  -- The robot of an id that is not ambiguous.
  abbrev pub find_target : ℕ → List (Robot V) → Option (Robot V)
  find_target id robots = find_last id robots

  abbrev pub is_disabled : Option (Robot V) → Bool
  is_disabled none = false
  is_disabled (some robot) = is_out_of_service robot.enabled

  unfoldable pub find_disabled : List (Robot V) → List ℕ → Option ℕ
  find_disabled robots [] = none
  find_disabled robots (id ∷ ids) =
      if is_disabled (find_last id robots) then some id else find_disabled robots ids

  -- The claim of the first robot of the command that stops the caller.
  unfoldable pub blocking_claim :
      ℕ → String → Option String → List ℕ → List (Robot V) → Option ClaimConflict
  blocking_claim now user_id controller ids [] = none
  blocking_claim now user_id controller ids (robot ∷ robots) =
      let rest = blocking_claim now user_id controller ids robots in
      if includes robot.id ids
      then or_else_claim (claim_conflict now robot.reservation user_id controller) rest
      else rest

  unfoldable pub check_enable : Config V → Request V → Command V → Option Refusal
  check_enable cfg req enable =
      if not cfg.robot_enable_allowed
      then some enable_not_allowed
      else if not req.is_admin
      then some admin_required
      else none
  check_enable cfg req _ = none

  unfoldable pub check_disabled : Command V → List ℕ → List (Robot V) → Option Refusal
  check_disabled command ids robots =
      if works_on_a_disabled_robot command
      then none
      else elim (find_disabled robots ids) [ none ↦ none | some id ↦ some (robot_disabled id) ]

  unfoldable pub check_claims :
      ℕ → Request V → Option String → Command V → List ℕ → List (Robot V) → Option Refusal
  check_claims now req controller command ids robots =
      if is_stopping command
      then none
      else elim (blocking_claim now req.user_id controller ids robots) [
        | none ↦ none
        | some conflict ↦ some (claimed_by_other conflict)
      ]

  unfoldable pub check_revision : Config V → Request V → Command V → Robot V → Option Refusal
  check_revision cfg req command target =
      if is_stopping command
      then none
      else if not (cfg.if_match_agrees req.if_match target)
      then some revision_mismatch
      else none

-- A command that may go on: for which robot, for which others, and of which controller.
pub record Admitted {ℓ} (V : Type ℓ) : Type ℓ where
  pub command : Command V
  pub target : Robot V
  pub controller : Option String
  pub affected : List ℕ

module _ {ℓ} {V : Type ℓ} (cfg : Config V) (now : ℕ) (req : Request V) where
  -- The checks from the known command to the revision.
  unfoldable pub admit : World V → Result Refusal (Admitted V)
  unfolding check_enable check_disabled check_claims check_revision affected_ids
  admit world = do
    command ← or_err req.command unknown_command
    guard world.is_loaded no_settings
    guard (not (is_ambiguous world.robots req.robot_id)) robot_id_ambiguous
    target ← or_err (find_target req.robot_id world.robots) robot_not_found
    controller ← or_err req.presented invalid_controller_id
    refuse_if (check_enable cfg req command)
    refuse_if (check_disabled command (affected_ids command target) world.robots)
    refuse_if (check_claims now req controller command (affected_ids command target) world.robots)
    refuse_if (check_revision cfg req command target)
    ok (record {
      command = command;
      target = target;
      controller = controller;
      affected = affected_ids command target;
    })

  -- A motion of the jog must be armed; looking forgets an arming that has run out.
  unfoldable pub check_arming : Command V → Option String → Armed → Armed × Option Refusal
  check_arming command controller armed =
      let (looked, is_held) = is_armed now req.robot_id req.user_id controller armed in
      if is_motion command && cfg.arm_required
      then (looked, if is_held then none else some jog_not_armed)
      else (armed, none)

  abbrev pub client_of : Option String → Client
  client_of controller = record {
    robot_id = req.robot_id;
    user_id = req.user_id;
    controller_id = controller;
  }

  abbrev pub parsed : Option ℕ → Option ℕ
  parsed none = none
  parsed (some seq) = parse_sequence seq

  abbrev pub judged : Marks × Answer → Marks × Option Refusal
  judged (marks, accepted) = (marks, none)
  judged (marks, refused last) = (marks, some (stale_sequence last))

  abbrev pub sequence_of : Bool → Option String → Option (Option ℕ) → Marks → Marks × Option Refusal
  sequence_of numbered controller none marks = (marks, none)
  sequence_of false controller (some raw) marks = (marks, none)
  sequence_of true controller (some raw) marks = elim (parsed raw) [
    | none ↦ (marks, some invalid_sequence)
    | some seq ↦ judged (accept now (client_of controller) seq marks)
  ]

  -- A motion that is numbered must be newer than what was received.
  unfoldable pub check_sequence : Command V → Option String → Marks → Marks × Option Refusal
  check_sequence command controller marks = sequence_of (is_motion command) controller req.seq marks

  -- A valid number of a stop raises the mark; a stop is never refused for it.
  pub raise_mark : Option String → Marks → Marks
  raise_mark controller marks = elim req.seq [
    | none ↦ marks
    | some raw ↦ elim (parsed raw) [
      | none ↦ marks
      | some seq ↦ note_stop now (client_of controller) seq marks
    ]
  ]
