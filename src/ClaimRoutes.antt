-- ===== src/ClaimRoutes.antt =====
-- src/routes/robotRoutes.ts: claiming and releasing a robot, POST /api/robot/:id/claim and
-- POST /api/robot/:id/release. A request is a record of what the handlers read of it; the controller id is
-- what readControllerId gives (inner `none` when absent, outer `none` when malformed), the reason is
-- trimmed and cut, and `revision_agrees` is the answer of ifMatchAgrees. The robot is the one that
-- findRobotById finds, `none` where it finds none. Audit lines, the write of the settings and the
-- broadcast are outside.
pub mod Holder
mod Tests
use hydra_umc_server.Prelude.{
  ℕ, ◌+◌, ◌*◌, min, max, String, Option, none, some, Bool, true, false, ◌&&◌, ◌||◌, not, List, [],
  ◌∷◌, is_same, if◌then◌else◌, Result, ok, err, ◌>>=◌, ◌>>◌, guard, or_err,
}
use hydra_umc_server.Claims.{
  Reservation, ClaimConflict, is_reservation_active, claim_conflict, HistoryEntry, HistoryAction,
  claimed, renewed, force_claimed, released, force_released, expired, append_reservation_history,
}
use hydra_umc_server.JogArming.{Armed, disarm}

pub record Robot : Type 0 where
  pub id : ℕ
  pub reservation : Option Reservation
  pub history : List HistoryEntry

pub record Request : Type 0 where
  pub user_id : String
  pub username : String
  pub is_admin : Bool
  pub ttl_ms : Option ℕ
  pub force : Bool
  pub reason : Option String
  pub presented : Option (Option String)
  pub revision_agrees : Bool

pub data Refusal : Type 0 where
  robot_id_ambiguous robot_not_found invalid_controller_id controller_id_missing revision_mismatch :
      Refusal
  held_by_other : ClaimConflict → Refusal

abbrev pub default_reservation_ttl_ms : ℕ
default_reservation_ttl_ms = 5 * 60 * 1000

abbrev pub max_reservation_ttl_ms : ℕ
max_reservation_ttl_ms = 30 * 60 * 1000

-- A negative time is raised to a second as 0 is.
abbrev pub ttl_of : Option ℕ → ℕ
ttl_of none = min (max default_reservation_ttl_ms 1000) max_reservation_ttl_ms
ttl_of (some requested) = min (max requested 1000) max_reservation_ttl_ms

module _ (now : ℕ) where
  abbrev pub append_as : HistoryAction → String → String → Option String → Robot → Robot
  append_as action user_id username reason robot = record robot {
    history =
        append_reservation_history
          (record {
            at = now;
            action = action;
            by_user_id = user_id;
            by_username = username;
            reason = reason;
          })
          robot.history;
  }

  -- The claim that lapsed unnoticed.
  abbrev pub note_expiry : Option Reservation → Robot → Robot
  note_expiry none robot = robot
  note_expiry (some old) robot = append_as expired old.owner_id old.owner_username none robot

  abbrev pub is_owner : Option Reservation → String → Bool
  is_owner none user_id = false
  is_owner (some r) user_id = is_same r.owner_id user_id

  -- Which kind of transition it is depends on the state before.
  pub action_of : Option ClaimConflict → Option Reservation → String → HistoryAction
  action_of (some conflict) existing user_id = force_claimed
  action_of none existing user_id =
      if is_reservation_active now existing && is_owner existing user_id then renewed else claimed

  abbrev pub lapsed : HistoryAction → Option Reservation → Robot → Robot
  lapsed claimed existing robot =
      if is_reservation_active now existing then robot else note_expiry existing robot
  lapsed _ existing robot = robot

  pub new_reservation : Request → Option String → Reservation
  new_reservation req presented = record {
    owner_id = req.user_id;
    owner_username = req.username;
    controller_id = presented;
    claimed_at = now;
    expires_at = now + ttl_of req.ttl_ms;
  }

  pub grant : Request → Option String → Option ClaimConflict → Robot → Robot
  unfolding action_of new_reservation
  grant req presented conflict robot =
      let action = action_of conflict robot.reservation req.user_id in
      let noted = lapsed action robot.reservation robot in
      append_as action req.user_id req.username req.reason
        (record noted { reservation = some (new_reservation req presented) })

  abbrev pub is_refused : Option ClaimConflict → Bool → Bool
  is_refused none overrides = false
  is_refused (some conflict) overrides = not overrides

  abbrev pub refused_for : Option ClaimConflict → Bool → Result Refusal (Unit {0})
  refused_for none overrides = ok tt
  refused_for (some conflict) overrides = guard overrides (held_by_other conflict)

  abbrev pub missing : Bool → Option String → Bool
  missing required none = required
  missing required (some id) = false

  -- POST /api/robot/:id/claim
  pub claim_robot : Bool → Bool → Request → Option Robot → Result Refusal Robot
  unfolding grant
  claim_robot is_ambiguous require_controller_id req found = do
    guard (not is_ambiguous) robot_id_ambiguous
    robot ← or_err found robot_not_found
    presented ← or_err req.presented invalid_controller_id
    guard (not (missing require_controller_id presented)) controller_id_missing
    guard req.revision_agrees revision_mismatch
    refused_for (claim_conflict now robot.reservation req.user_id presented)
        (req.force && req.is_admin)
    ok (grant req presented (claim_conflict now robot.reservation req.user_id presented) robot)

  -- The history of a release: of an active claim, or of one that had lapsed.
  pub note_release : Request → Option ClaimConflict → Option Reservation → Robot → Robot
  note_release req conflict none robot = robot
  note_release req conflict (some r) robot =
      let by_owner = is_same r.owner_id req.user_id && not (is_refused conflict false) in
      if is_reservation_active now (some r)
      then append_as (if by_owner then released else force_released) req.user_id req.username
          req.reason robot
      else append_as expired r.owner_id r.owner_username none robot

  abbrev pub given_back : Request → Option ClaimConflict → Robot → Robot
  unfolding note_release
  given_back req conflict robot = record (note_release req conflict robot.reservation robot) {
    reservation = none;
  }

  -- POST /api/robot/:id/release
  pub release_robot : Bool → Request → Option Robot → Armed → Result Refusal (Robot × Armed)
  unfolding note_release
  release_robot is_ambiguous req found armed = do
    guard (not is_ambiguous) robot_id_ambiguous
    robot ← or_err found robot_not_found
    presented ← or_err req.presented invalid_controller_id
    guard req.revision_agrees revision_mismatch
    refused_for (claim_conflict now robot.reservation req.user_id presented) req.is_admin
    ok (
      given_back req (claim_conflict now robot.reservation req.user_id presented) robot,
      disarm robot.id armed,
    )
