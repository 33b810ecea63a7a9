-- ===== src/RefreshTokens/Limits.antt =====
-- What a renewed session is worth, and how many tokens an account has.
use mathlib.Core.Option.{some-injective}
use hydra_umc_server.Prelude.{
  is_same, ℕ, zero, suc, ◌-◌, ◌≤◌, String, Option, none, some, true, ◌&&◌, List, [], ◌∷◌, ◌++◌,
  length, keep, ltb, ◌==◌, ◌≡◌, ◌≢◌, inl, inr, ◌∙◌, refl, sym, ap, arith, Bool-cases, if_both,
}
use hydra_umc_server.RefreshTokens.{
  StoredRefreshToken, is_own, record_for, drop_own, issue_refresh_token, find_token, splice,
  max_refresh_tokens_per_user, Reason, renewed, refused, current_user, consume_for, consume_found,
  consume_refresh_token,
}
use hydra_umc_server.Users.{StoredUser, effective_token_version, effective_id, find_user}

-- How many tokens the account has.
abbrev pub own_tokens : String → List StoredRefreshToken → ℕ
own_tokens username tokens = length (keep (is_own username) tokens)

own-drop_own :
    (username : String) (n : ℕ) (tokens : List StoredRefreshToken)
    → own_tokens username (drop_own username n tokens) ≡ own_tokens username tokens - n
unfolding drop_own
own-drop_own username zero tokens = omega arith
own-drop_own username (suc n) [] = omega arith
own-drop_own username (suc n) (t ∷ tokens) =
    ground (arith, own-drop_own username n tokens, own-drop_own username (suc n) tokens)

-- After a new session an account has at most 10 tokens, whatever it had before.
pub own-issue-le :
    (now ttl : ℕ) (fresh : String) (user : StoredUser) (client_id device_id : Option String)
    → (tokens : List StoredRefreshToken)
    → own_tokens user.username (issue_refresh_token now ttl fresh user client_id device_id tokens)
      ≤ max_refresh_tokens_per_user
unfolding issue_refresh_token
own-issue-le now ttl fresh user client_id device_id tokens =
    let added = tokens ++ record_for now ttl fresh user client_id device_id ∷ [] in
    let own = own_tokens user.username added in
    if_both (λ ts. own_tokens user.username ts ≤ max_refresh_tokens_per_user)
      (ltb max_refresh_tokens_per_user own)
      {x = drop_own user.username (own - max_refresh_tokens_per_user) added} {y = added}
      (λ _. omega (arith, own-drop_own user.username (own - max_refresh_tokens_per_user) added))
      (λ few. ground arith)

-- What makes a token good: it is in the file, its time is not over, and the account is still there, with
-- the same version and the same identity as when the token was minted.
pub record IsGood (lower : String → String) (now : ℕ) (users : List StoredUser) (token : String)
    (tokens : List StoredRefreshToken) (user : StoredUser) : Type 0 where
  pub found : StoredRefreshToken
  pub is_found : find_token token tokens ≡ some found
  pub is_early : now ≤ found.expires_at
  pub is_user : find_user lower found.username users ≡ some user
  pub same_version : effective_token_version user ≡ found.token_version
  pub same_id : effective_id user ≡ found.user_id

same : (a b : String) → is_same a b ≡ true → a ≡ b
same a b h = ground arith

both_same : (a b : ℕ) (x y : String) → (a == b) && is_same x y ≡ true → (a ≡ b) × (x ≡ y)
both_same a b x y h = ground arith

both_tests :
    (u : StoredUser) (t : StoredRefreshToken)
    → (effective_token_version u == t.token_version) && is_same (effective_id u) t.user_id ≡ true
    → (effective_token_version u ≡ t.token_version) × (effective_id u ≡ t.user_id)
both_tests u t h = both_same _ _ _ _ h

none-ne-some : {u : StoredUser} → none ≢ some u
none-ne-some h = grind arith

refused-ne-renewed :
    {r : Reason} {c : Option String} {u : StoredUser} {s : String} {c' d : Option String}
    → refused r c ≢ renewed u s c' d
refused-ne-renewed h = grind arith

current-good :
    (lower : String → String) (t : StoredRefreshToken) (o : Option StoredUser) (user : StoredUser)
    → current_user lower t o ≡ some user
    → (o ≡ some user)
      × (effective_token_version user ≡ t.token_version)
      × (effective_id user ≡ t.user_id)
current-good lower t none user h = absurd (cc h)
current-good lower t (some u) user h =
    elim (Bool-cases
      ((effective_token_version u == t.token_version) && is_same (effective_id u) t.user_id)) [
        | inl good ↦
            let u_user = some-injective u user (rw good at h) in
            let (version, id) = both_tests u t good in
            (
              ap some u_user,
              ap effective_token_version (sym u_user) ∙ version,
              ap effective_id (sym u_user) ∙ id,
            )
        | inr bad ↦ absurd (none-ne-some (rw bad at h))
      ]

user_of_renewed :
    {u user : StoredUser} {f f' : String} {c c' d d' : Option String}
    → renewed u f c d ≡ renewed user f' c' d'
    → u ≡ user
user_of_renewed h = cc h

IsGood-of_user :
    (lower : String → String) (now ttl : ℕ) (fresh : String) (users : List StoredUser)
    (token : String)
    → (rest tokens : List StoredRefreshToken) (user : StoredUser) (minted : String)
    → (client_id device_id : Option String) (t : StoredRefreshToken) (o : Option StoredUser)
    → find_token token tokens ≡ some t
    → now ≤ t.expires_at
    → current_user lower t (find_user lower t.username users) ≡ o
    → (consume_for lower now ttl fresh t rest o).1 ≡ renewed user minted client_id device_id
    → IsGood lower now users token tokens user
IsGood-of_user lower now ttl fresh users token rest tokens user minted client_id device_id t none
      found early e h =
    absurd (refused-ne-renewed h)
IsGood-of_user lower now ttl fresh users token rest tokens user minted client_id device_id t
      (some u) found early e h =
    let (is_user, version, id) =
      current-good lower t (find_user lower t.username users) user
        (e ∙ ap some (user_of_renewed h)) in
    record {
      found = t;
      is_found = found;
      is_early = early;
      is_user = is_user;
      same_version = version;
      same_id = id;
    }

IsGood-of_found :
    (lower : String → String) (now ttl : ℕ) (fresh : String) (users : List StoredUser)
    (token : String)
    → (tokens : List StoredRefreshToken) (user : StoredUser) (minted : String)
    → (client_id device_id : Option String) (o : Option StoredRefreshToken)
    → find_token token tokens ≡ o
    → (consume_found lower now ttl fresh users (splice token tokens) tokens o).1
      ≡ renewed user minted client_id device_id
    → IsGood lower now users token tokens user
IsGood-of_found lower now ttl fresh users token tokens user minted client_id device_id none found
      h =
    absurd (refused-ne-renewed h)
IsGood-of_found lower now ttl fresh users token tokens user minted client_id device_id (some t)
      found h =
    elim (Bool-cases (ltb t.expires_at now)) [
      | inl late ↦ absurd (refused-ne-renewed (rw late at h))
      | inr early ↦
          IsGood-of_user lower now ttl fresh users token (splice token tokens) tokens user minted
            client_id device_id t (current_user lower t (find_user lower t.username users)) found
            (ground arith) refl (rw early at h)
    ]

-- Only the token of a good record renews a session, and the session is of the account of the record.
pub consume-IsGood :
    (lower : String → String) (now ttl : ℕ) (fresh : String) (users : List StoredUser)
    (token : String)
    → (tokens : List StoredRefreshToken) (user : StoredUser) (minted : String)
    → (client_id device_id : Option String)
    → (consume_refresh_token lower now ttl fresh users token tokens).1
      ≡ renewed user minted client_id device_id
    → IsGood lower now users token tokens user
unfolding consume_refresh_token
consume-IsGood lower now ttl fresh users token tokens user minted client_id device_id h =
    IsGood-of_found lower now ttl fresh users token tokens user minted client_id device_id
      (find_token token tokens) refl h
