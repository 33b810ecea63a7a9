-- ===== src/Claims/Tests.antt =====
-- Claims on small examples.
use hydra_umc_server.Prelude.{ℕ, none, List, [], ◌∷◌, ◌≡◌}
use hydra_umc_server.Claims.{
  HistoryEntry, HistoryAction, claimed, released, reservation_history_max_entries,
}
use hydra_umc_server.Claims.History.{append_all, newest, append_all-newest}

abbrev entry : ℕ → HistoryAction → HistoryEntry
entry at action = record {
  at = at;
  action = action;
  by_user_id = "u1";
  by_username = "ana";
  reason = none;
}

abbrev entries : List HistoryEntry
entries = entry 1000 claimed ∷ entry 2000 released ∷ []

append_all-newest_example : append_all entries [] ≡ newest reservation_history_max_entries entries
append_all-newest_example = append_all-newest entries
