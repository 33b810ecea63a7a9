-- ===== src/RefreshTokens/Tests.antt =====
-- The tokens of src/refresh_tokens.ts on small examples.
use hydra_umc_server.Prelude.{
  is_same, String, none, some, List, [], ◌∷◌, ◌≡◌, ◌≢◌, refl, ap, true, false, arith,
  string_discrete,
}
use hydra_umc_server.RefreshTokens.{
  StoredRefreshToken, consume_refresh_token, find_token, splice, revoke_refresh_token,
}
use hydra_umc_server.Users.{StoredUser, operator, find_user}
use hydra_umc_server.RefreshTokens.Use.{
  Call, issue, prune, IsDead, run, run-IsDead_of_consume, run-IsDead_of_revoke,
}
use hydra_umc_server.RefreshTokens.Limits.{IsGood, consume-IsGood}

abbrev lower : String → String
lower s = s

abbrev user : StoredUser
user = record {
  password_hash = "";
  role = operator;
  created_at = 0;
  username = "ana";
  token_version = some 2;
  id = some "u1";
}

abbrev stored : List StoredRefreshToken
stored =
    record {
      token = "t1";
      username = "ana";
      token_version = 2;
      user_id = "u1";
      expires_at = 9000;
      client_id = some "phone";
      device_id = none;
    }
    ∷ []

abbrev calls : List Call
calls = issue 1500 8000 "t3" user none none ∷ prune 1600 ∷ []

consume-IsGood_example : IsGood lower 1000 (user ∷ []) "t1" stored user
unfolding consume_refresh_token find_token splice find_user string_discrete
consume-IsGood_example =
    consume-IsGood lower 1000 8000 "t2" (user ∷ []) "t1" stored user "t2" (some "phone") none refl

t2-ne-t1 : ◌≢◌ {A = String} "t2" "t1"
unfolding string_discrete
t2-ne-t1 = λ e. let h : false ≡ true = ap (λ x. is_same x "t1") e in absurd (cc h)

t3-ne-t1 : ◌≢◌ {A = String} "t3" "t1"
unfolding string_discrete
t3-ne-t1 = λ e. let h : false ≡ true = ap (λ x. is_same x "t1") e in absurd (cc h)

run-IsDead_of_consume_example :
    IsDead lower "t1"
      (run lower calls (consume_refresh_token lower 1000 8000 "t2" (user ∷ []) "t1" stored).0)
unfolding string_discrete
run-IsDead_of_consume_example =
    run-IsDead_of_consume lower "t1" 1000 8000 "t2" (user ∷ []) calls stored (omega arith) t2-ne-t1
      (t3-ne-t1, (tt, tt))

run-IsDead_of_revoke_example :
    IsDead lower "t1" (run lower calls (revoke_refresh_token "t1" stored))
run-IsDead_of_revoke_example = run-IsDead_of_revoke lower "t1" calls stored (t3-ne-t1, (tt, tt))
