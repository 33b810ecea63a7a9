-- ===== src/RefreshTokens.antt =====
-- src/refresh_tokens.ts: the tokens that renew a session.
-- The file of tokens is the list `tokens`, times are milliseconds,
-- `fresh` is what `crypto.randomBytes` gives, `ttl` is REFRESH_TOKEN_TTL_MS and `lower` is
-- `toLowerCase`.
pub mod Use
pub mod Limits
mod Tests
use hydra_umc_server.Prelude.{
  is_same, ℕ, zero, suc, ◌+◌, ◌-◌, String, Option, none, some, Bool, true, false, ◌&&◌, List, [],
  ◌∷◌, ◌++◌, length, keep, not, ltb, ◌==◌, if◌then◌else◌, lookup, put, string_discrete, ite,
}
use hydra_umc_server.Users.{StoredUser, effective_token_version, effective_id, find_user}

pub record StoredRefreshToken : Type 0 where
  pub token : String
  pub username : String
  pub token_version : ℕ
  pub user_id : String
  pub expires_at : ℕ
  pub client_id : Option String
  pub device_id : Option String

abbrev pub max_refresh_tokens_per_user : ℕ
max_refresh_tokens_per_user = 10

abbrev pub has_token : String → StoredRefreshToken → Bool
has_token token t = is_same t.token token

abbrev pub is_own : String → StoredRefreshToken → Bool
is_own username t = is_same t.username username

-- A record for the account as it is now.
abbrev pub record_for :
    ℕ → ℕ → String → StoredUser → Option String → Option String → StoredRefreshToken
record_for now ttl fresh user client_id device_id = record {
  token = fresh;
  username = user.username;
  token_version = effective_token_version user;
  user_id = effective_id user;
  expires_at = now + ttl;
  client_id = client_id;
  device_id = device_id;
}

-- `tokens.filter(t => !drop.has(t))`, where `drop` is the first n that are of the account.
pub drop_own : String → ℕ → List StoredRefreshToken → List StoredRefreshToken
drop_own username zero tokens = tokens
drop_own username (suc n) [] = []
drop_own username (suc n) (t ∷ tokens) =
    if is_own username t then drop_own username n tokens else t ∷ drop_own username (suc n) tokens

pub issue_refresh_token :
    ℕ
    → ℕ
    → String
    → StoredUser
    → Option String
    → Option String
    → List StoredRefreshToken
    → List StoredRefreshToken
issue_refresh_token now ttl fresh user client_id device_id tokens =
    let added = tokens ++ record_for now ttl fresh user client_id device_id ∷ [] in
    let own = length (keep (is_own user.username) added) in
    if ltb max_refresh_tokens_per_user own
    then drop_own user.username (own - max_refresh_tokens_per_user) added
    else added

pub data Reason : Type 0 where
  invalid expired revoked : Reason

pub data ConsumeRefreshTokenResult : Type 0 where
  renewed : StoredUser → String → Option String → Option String → ConsumeRefreshTokenResult
  refused : Reason → Option String → ConsumeRefreshTokenResult

unfoldable pub find_token : String → List StoredRefreshToken → Option StoredRefreshToken
find_token token [] = none
find_token token (t ∷ tokens) = if has_token token t then some t else find_token token tokens

-- `tokens.splice(idx, 1)`
pub splice : String → List StoredRefreshToken → List StoredRefreshToken
splice token [] = []
splice token (t ∷ tokens) = if has_token token t then tokens else t ∷ splice token tokens

-- `revokeRefreshToken`, the tokens that stay.
pub revoke_refresh_token : String → List StoredRefreshToken → List StoredRefreshToken
revoke_refresh_token token tokens = keep (λ t. not (has_token token t)) tokens

abbrev pub is_of_device : String → Option String → Bool
is_of_device device_id none = false
is_of_device device_id (some d) = is_same d device_id

pub revoke_refresh_tokens_of_device : String → List StoredRefreshToken → List StoredRefreshToken
revoke_refresh_tokens_of_device device_id tokens =
    keep (λ t. not (is_of_device device_id t.device_id)) tokens

pub prune_expired_refresh_tokens : ℕ → List StoredRefreshToken → List StoredRefreshToken
prune_expired_refresh_tokens now tokens = keep (λ t. ltb now t.expires_at) tokens

abbrev pub or_zero : Option ℕ → ℕ
or_zero none = 0
or_zero (some n) = n

abbrev pub count_session :
    ℕ → StoredRefreshToken → Option String → List (String × ℕ) → List (String × ℕ)
count_session now t none counts = counts
count_session now t (some client_id) counts =
    if ltb now t.expires_at
    then put string_discrete client_id (or_zero (lookup string_discrete client_id counts) + 1)
        counts
    else counts

pub open_sessions_by_client : ℕ → List StoredRefreshToken → List (String × ℕ) → List (String × ℕ)
open_sessions_by_client now [] counts = counts
open_sessions_by_client now (t ∷ tokens) counts =
    open_sessions_by_client now tokens (count_session now t t.client_id counts)

module _ (lower : String → String) where
  -- The account of a record, if the record is still good for it.
  abbrev pub current_user : StoredRefreshToken → Option StoredUser → Option StoredUser
  current_user t none = none
  current_user t (some user) =
      if (effective_token_version user == t.token_version) && is_same (effective_id user) t.user_id
      then some user
      else none

  abbrev pub consume_for :
      ℕ
      → ℕ
      → String
      → StoredRefreshToken
      → List StoredRefreshToken
      → Option StoredUser
      → List StoredRefreshToken × ConsumeRefreshTokenResult
  consume_for now ttl fresh t rest none = (rest, refused revoked t.client_id)
  consume_for now ttl fresh t rest (some user) = (
    rest ++ record_for now ttl fresh user t.client_id t.device_id ∷ [],
    renewed user fresh t.client_id t.device_id,
  )

  abbrev pub consume_found :
      ℕ
      → ℕ
      → String
      → List StoredUser
      → List StoredRefreshToken
      → List StoredRefreshToken
      → Option StoredRefreshToken
      → List StoredRefreshToken × ConsumeRefreshTokenResult
  consume_found now ttl fresh users rest tokens none = (tokens, refused invalid none)
  consume_found now ttl fresh users rest tokens (some t) =
      if ltb t.expires_at now
      then (rest, refused expired t.client_id)
      else consume_for now ttl fresh t rest (current_user t (find_user lower t.username users))

  unfoldable pub consume_refresh_token :
      ℕ
      → ℕ
      → String
      → List StoredUser
      → String
      → List StoredRefreshToken
      → List StoredRefreshToken × ConsumeRefreshTokenResult
  consume_refresh_token now ttl fresh users token tokens =
      consume_found now ttl fresh users (splice token tokens) tokens (find_token token tokens)
