-- ===== src/Users/Tests.antt =====
-- Changes of accounts on an example.
use hydra_umc_server.Prelude.{ℕ, String, none, some, List, [], ◌∷◌, ◌≡◌, refl, string_discrete}
use hydra_umc_server.Users.{
  StoredUser, admin, operator, Updates, Change, create, update, delete, find_user, is_taken,
  others_of, replace_first, renamed, with_password, with_role, update_user, run_changes,
}
use hydra_umc_server.Users.Admins.{IsSound}
use hydra_umc_server.Users.Changes.{run_changes-IsSound}
use hydra_umc_server.Users.Sessions.{update_user-consume}
use hydra_umc_server.RefreshTokens.{
  StoredRefreshToken, Reason, refused, find_token, consume_refresh_token,
}

abbrev same_text : String → String
same_text s = s

abbrev long : String → ℕ
long _ = 8

abbrev ana : StoredUser
ana = record {
  username = "ana";
  password_hash = "h";
  role = admin;
  created_at = 0;
  token_version = none;
  id = some "u1";
}

abbrev changes : List Change
changes =
    create (record { id = "u2"; created_at = 5 }) "bob" "secret12" operator
    ∷ delete "ana"
    ∷ update "ana" (record { new_username = some "eve"; password = none; role = none })
    ∷ []

run_changes-IsSound_example :
    IsSound same_text (run_changes same_text same_text long same_text changes (ana ∷ []))
unfolding is_taken
run_changes-IsSound_example =
    run_changes-IsSound same_text same_text long same_text changes (ana ∷ []) (refl, (refl, tt))

abbrev token : StoredRefreshToken
token = record {
  token = "t1";
  username = "ana";
  token_version = 1;
  user_id = "u1";
  expires_at = 9000;
  client_id = none;
  device_id = none;
}

abbrev no_change : Updates
no_change = record { new_username = none; password = none; role = none }

abbrev after : List StoredUser
after = record ana { token_version = some 2 } ∷ []

update_user-consume_example :
    (r : Reason) × ((consume_refresh_token same_text 1000 500 "t2" after "t1" (token ∷ [])).1
      ≡ refused r token.client_id)
unfolding is_taken find_token find_user update_user renamed with_password with_role replace_first
    others_of string_discrete
update_user-consume_example =
    update_user-consume same_text same_text long same_text 1000 500 "t2" "t1" (token ∷ []) token
      no_change (ana ∷ []) after ana (refl, tt) refl refl refl refl
