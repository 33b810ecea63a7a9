-- ===== src/ClaimRoutes/Tests.antt =====
-- Claiming and giving back a robot, on an example.
use hydra_umc_server.Prelude.{
  ℕ, ◌+◌, ◌≤◌, ◌<◌, none, some, true, false, ◌&&◌, [], ◌∷◌, ◌≡◌, refl, lookup, ℕ_discrete,
  string_discrete, delete,
}
use hydra_umc_server.Claims.{
  Reservation, claim_conflict, claimed, released, append_reservation_history,
}
use hydra_umc_server.JogArming.{ArmedEntry, disarm}
use hydra_umc_server.ClaimRoutes.{
  Robot, Request, claim_robot, release_robot, grant, action_of, new_reservation, note_release,
  max_reservation_ttl_ms,
}
use hydra_umc_server.ClaimRoutes.Holder.{claim_robot-IsHeld, release_robot-IsFree}

abbrev free : Robot
free = record { id = 1; reservation = none; history = [] }

abbrev request : Request
request = record {
  user_id = "u1";
  username = "ana";
  is_admin = false;
  ttl_ms = some 0;
  force = false;
  reason = none;
  presented = some (some "pult");
  revision_agrees = true;
}

abbrev taken : Reservation
taken = record {
  owner_id = "u1";
  owner_username = "ana";
  controller_id = some "pult";
  claimed_at = 5000;
  expires_at = 6000;
}

abbrev held : Robot
held = record {
  id = 1;
  reservation = some taken;
  history =
      record { at = 5000; action = claimed; by_user_id = "u1"; by_username = "ana"; reason = none }
      ∷ [];
}

claim_robot-IsHeld_example :
    (r : Reservation) × (held.reservation ≡ some r)
    × (r.owner_id ≡ "u1")
    × (6000 ≤ r.expires_at)
    × (r.expires_at ≤ 5000 + max_reservation_ttl_ms)
    × ((later : ℕ) → later < r.expires_at → claim_conflict later (some r) "u1" (some "pult") ≡ none)
    × ((false && false) ≡ false → claim_conflict 5000 none "u1" (some "pult") ≡ none)
unfolding claim_robot grant action_of new_reservation append_reservation_history claim_conflict
claim_robot-IsHeld_example =
    claim_robot-IsHeld 5000 false false request free held (some "pult") refl refl

abbrev given_back : Robot
given_back = record {
  id = 1;
  reservation = none;
  history =
      record { at = 5500; action = released; by_user_id = "u1"; by_username = "ana"; reason = none }
      ∷ [];
}

release_robot-IsFree_example :
    (given_back.reservation ≡ none)
    × (lookup {B = ArmedEntry} ℕ_discrete 1 [] ≡ none)
    × (false ≡ false → claim_conflict 5500 (some taken) "u1" (some "pult") ≡ none)
unfolding release_robot note_release append_reservation_history claim_conflict disarm delete
    string_discrete
release_robot-IsFree_example =
    release_robot-IsFree 5500 false request (record held { history = [] }) given_back [] []
      (some "pult") refl refl
