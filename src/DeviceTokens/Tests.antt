-- ===== src/DeviceTokens/Tests.antt =====
-- The tokens of the devices on a small example.
use hydra_umc_server.Prelude.{ℕ, String, some, List, [], ◌∷◌, ◌≡◌, refl, arith, string_discrete}
use hydra_umc_server.DeviceTokens.{
  DeviceTokenRecord, DeviceToken, IssueInput, issue, verify, verified, active_count, issued_record,
  find_record, revoke,
}
use hydra_umc_server.DeviceTokens.Revoke.{
  IsRejected, Call, verify_call, issue_call, revoke_call, run, verify-revoke-IsRejected,
}
use hydra_umc_server.DeviceTokens.Issue.{verify-issue}

abbrev sign : String → String → String → ℕ → String
sign id username account_id expiry = username

abbrev input : IssueInput
input = record {
  name = "panel";
  username = "ana";
  account_id = "u1";
  days = 1;
  created_by = "root";
  max_devices = 20;
}

abbrev stored : List DeviceTokenRecord
stored = issued_record 0 "d0" input ∷ []

abbrev token : DeviceToken
token = record { id = "d1"; expires_at_seconds = 86405; given = "ana" }

verify-issue_example :
    (verify sign 6000 token (issued_record 0 "d0" input ∷ issued_record 5000 "d1" input ∷ [])).1
    ≡ verified (record (issued_record 5000 "d1" input) { last_used_at = some 6000 })
unfolding issue active_count find_record string_discrete
verify-issue_example =
    verify-issue sign 5000 6000 "d1" input stored
      (issued_record 0 "d0" input ∷ issued_record 5000 "d1" input ∷ []) token refl refl
      (omega arith)

-- Shown, issued again under another id, and shown once more.
abbrev later_calls : List Call
later_calls = verify_call 5600 token ∷ issue_call 5700 "d2" input ∷ revoke_call 5800 "d2" ∷ []

verify-revoke-IsRejected_example :
    IsRejected
      (verify sign 6000 token
        (run sign later_calls (revoke 5500 "d1" (issued_record 5000 "d1" input ∷ [])).0)).1
unfolding find_record string_discrete
verify-revoke-IsRejected_example =
    verify-revoke-IsRejected sign 5500 6000 token later_calls (issued_record 5000 "d1" input ∷ [])
      ((λ _. refl), tt) (tt, (refl, (tt, tt)))
