-- ===== src/Claims.antt =====
-- src/claimPolicy.ts, with isReservationActive and the history of the claims of src/playback.ts: who may
-- command a robot. Account ids are texts; a claim of a client that gave no controller id has none. The
-- answers are without their messages.
pub mod Exclusion
pub mod History
mod Tests
use hydra_umc_server.Prelude.{
  is_same, ℕ, ◌-◌, String, Option, none, some, Bool, true, false, List, [], ◌∷◌, ◌++◌, length, drop,
  not, ltb, if◌then◌else◌, string_discrete, ite,
}

pub record Reservation : Type 0 where
  pub owner_id : String
  pub owner_username : String
  pub controller_id : Option String
  pub claimed_at : ℕ
  pub expires_at : ℕ

pub data ClaimConflict : Type 0 where
  other_account other_controller controller_id_required : ClaimConflict

abbrev pub is_reservation_active : ℕ → Option Reservation → Bool
is_reservation_active now none = false
is_reservation_active now (some r) = ltb now r.expires_at

abbrev pub controller_conflict : Option String → Option String → Option ClaimConflict
controller_conflict none presented = none
controller_conflict (some held) none = some controller_id_required
controller_conflict (some held) (some presented) =
    if not (is_same presented held) then some other_controller else none

-- Why a claim stops this caller from commanding the robot.
unfoldable pub claim_conflict :
    ℕ → Option Reservation → String → Option String → Option ClaimConflict
claim_conflict now none user_id presented = none
claim_conflict now (some r) user_id presented =
    if not (is_reservation_active now (some r))
    then none
    else if not (is_same r.owner_id user_id)
    then some other_account
    else controller_conflict r.controller_id presented

pub record ClaimedRobot : Type 0 where
  pub id : ℕ
  pub name : Option String
  pub reservation : Option Reservation

pub record Cell : Type 0 where
  pub id : String
  pub robots : List ClaimedRobot

pub record ClaimView : Type 0 where
  pub robot_id : ℕ
  pub robot_name : Option String
  pub cell_id : String
  pub owner_id : String
  pub owner_username : String
  pub controller_id : Option String
  pub claimed_at : ℕ
  pub expires_at : ℕ
  pub jog_armed_until : Option ℕ

module _ (now : ℕ) (jog_armed_until : ℕ → Option ℕ) where
  abbrev pub view_of : String → ClaimedRobot → Option Reservation → List ClaimView
  view_of cell_id robot none = []
  view_of cell_id robot (some r) =
      if is_reservation_active now (some r)
      then record {
        robot_id = robot.id;
        robot_name = robot.name;
        cell_id = cell_id;
        owner_id = r.owner_id;
        owner_username = r.owner_username;
        controller_id = r.controller_id;
        claimed_at = r.claimed_at;
        expires_at = r.expires_at;
        jog_armed_until = jog_armed_until robot.id;
      }
        ∷ []
      else []

  pub cell_claims : String → List ClaimedRobot → List ClaimView
  cell_claims cell_id [] = []
  cell_claims cell_id (robot ∷ robots) =
      view_of cell_id robot robot.reservation ++ cell_claims cell_id robots

  -- Who controls which robot.
  pub list_claims : List Cell → List ClaimView
  list_claims [] = []
  list_claims (c ∷ cells) = cell_claims c.id c.robots ++ list_claims cells

pub data HistoryAction : Type 0 where
  claimed renewed force_claimed released force_released expired : HistoryAction

pub record HistoryEntry : Type 0 where
  pub at : ℕ
  pub action : HistoryAction
  pub by_user_id : String
  pub by_username : String
  pub reason : Option String

abbrev pub reservation_history_max_entries : ℕ
reservation_history_max_entries = 20

-- The push, and the splice of what is too much at the front.
unfoldable pub append_reservation_history : HistoryEntry → List HistoryEntry → List HistoryEntry
append_reservation_history entry history =
    let pushed = history ++ entry ∷ [] in
    if ltb reservation_history_max_entries (length pushed)
    then drop (length pushed - reservation_history_max_entries) pushed
    else pushed
