-- ===== src/RefreshTokens/Use.antt =====
-- A refresh token works once, and not after it was revoked.
use hydra_umc_server.Prelude.{
  ℕ, zero, suc, ◌+◌, ◌-◌, ◌≤◌, String, Option, none, some, Bool, List, [], ◌∷◌, ◌++◌, length, keep,
  ltb, ◌≡◌, ◌≢◌, refl, arith, if_both, All,
}
use hydra_umc_server.RefreshTokens.{
  StoredRefreshToken, has_token, is_own, record_for, drop_own, issue_refresh_token, find_token,
  splice, revoke_refresh_token, revoke_refresh_tokens_of_device, prune_expired_refresh_tokens,
  max_refresh_tokens_per_user, ConsumeRefreshTokenResult, refused, invalid, current_user,
  consume_for, consume_found, consume_refresh_token,
}
use hydra_umc_server.Users.{StoredUser, find_user}

-- How many records have the token.
abbrev pub copies : String → List StoredRefreshToken → ℕ
copies token tokens = length (keep (has_token token) tokens)

pub copies-keep :
    (token : String) (p : StoredRefreshToken → Bool) (tokens : List StoredRefreshToken)
    → copies token (keep p tokens) ≤ copies token tokens
copies-keep token p [] = omega arith
copies-keep token p (t ∷ tokens) = ground (arith, copies-keep token p tokens)

copies-append :
    (token : String) (tokens more : List StoredRefreshToken)
    → copies token (tokens ++ more) ≡ copies token tokens + copies token more
copies-append token [] more = omega arith
copies-append token (t ∷ tokens) more = ground (arith, copies-append token tokens more)

copies-drop_own :
    (token username : String) (n : ℕ) (tokens : List StoredRefreshToken)
    → copies token (drop_own username n tokens) ≤ copies token tokens
unfolding drop_own
copies-drop_own token username zero tokens = omega arith
copies-drop_own token username (suc n) [] = omega arith
copies-drop_own token username (suc n) (t ∷ tokens) =
    ground (
      arith,
      copies-drop_own token username n tokens,
      copies-drop_own token username (suc n) tokens,
    )

copies-splice :
    (token other : String) (tokens : List StoredRefreshToken)
    → copies token (splice other tokens) ≤ copies token tokens
unfolding splice
copies-splice token other [] = omega arith
copies-splice token other (t ∷ tokens) = ground (arith, copies-splice token other tokens)

copies-splice_self :
    (token : String) (tokens : List StoredRefreshToken)
    → copies token (splice token tokens) ≡ copies token tokens - 1
unfolding splice
copies-splice_self token [] = omega arith
copies-splice_self token (t ∷ tokens) = ground (arith, copies-splice_self token tokens)

find_absent :
    (token : String) (tokens : List StoredRefreshToken)
    → copies token tokens ≡ 0
    → find_token token tokens ≡ none
unfolding find_token
find_absent token [] h = refl
find_absent token (t ∷ tokens) h = ground (arith, find_absent token tokens)

copies_of_none :
    (token : String) (tokens : List StoredRefreshToken)
    → find_token token tokens ≡ none
    → copies token tokens ≡ 0
unfolding find_token
copies_of_none token [] h = refl
copies_of_none token (t ∷ tokens) h = ground (arith, copies_of_none token tokens)

copies_record_for :
    (token : String) (t : StoredRefreshToken) → t.token ≢ token → copies token (t ∷ []) ≡ 0
copies_record_for token t other = ground arith

-- The calls that change the tokens.
pub data Call : Type 0 where
  issue : ℕ → ℕ → String → StoredUser → Option String → Option String → Call
  consume : ℕ → ℕ → String → List StoredUser → String → Call
  revoke revoke_device : String → Call
  prune : ℕ → Call

-- The call does not mint this token.
abbrev pub IsOther : String → Call → Type 0
IsOther token (issue now ttl fresh user client_id device_id) = fresh ≢ token
IsOther token (consume now ttl fresh users used) = fresh ≢ token
IsOther token _ = Unit

copies-issue :
    (token : String) (now ttl : ℕ) (fresh : String) (user : StoredUser)
    → (client_id device_id : Option String) (tokens : List StoredRefreshToken) → fresh ≢ token
    → copies token (issue_refresh_token now ttl fresh user client_id device_id tokens)
      ≤ copies token tokens
unfolding issue_refresh_token
copies-issue token now ttl fresh user client_id device_id tokens other =
    let t = record_for now ttl fresh user client_id device_id in
    let own = length (keep (is_own user.username) (tokens ++ t ∷ [])) in
    if_both (λ ts. copies token ts ≤ copies token tokens) (ltb max_refresh_tokens_per_user own)
      {x = drop_own user.username (own - max_refresh_tokens_per_user) (tokens ++ t ∷ [])}
      {y = tokens ++ t ∷ []}
      (λ _. omega (
        arith,
        copies-drop_own token user.username _ (tokens ++ t ∷ []),
        copies-append token tokens (t ∷ []),
        copies_record_for token t other,
      ))
      (λ _. omega (arith, copies-append token tokens (t ∷ []), copies_record_for token t other))

copies-consume_for :
    (lower : String → String) (token : String) (now ttl : ℕ) (fresh : String)
    (t : StoredRefreshToken)
    → (rest : List StoredRefreshToken) (o : Option StoredUser) → fresh ≢ token
    → copies token (consume_for lower now ttl fresh t rest o).0 ≤ copies token rest
copies-consume_for lower token now ttl fresh t rest none other = omega arith
copies-consume_for lower token now ttl fresh t rest (some user) other = omega (
  arith,
  copies-append token rest (record_for now ttl fresh user t.client_id t.device_id ∷ []),
  copies_record_for token (record_for now ttl fresh user t.client_id t.device_id) other,
)

copies-consume_found :
    (lower : String → String) (token : String) (now ttl : ℕ) (fresh : String)
    (users : List StoredUser)
    → (rest tokens : List StoredRefreshToken) (t : StoredRefreshToken) → fresh ≢ token
    → copies token (consume_found lower now ttl fresh users rest tokens (some t)).0
      ≤ copies token rest
copies-consume_found lower token now ttl fresh users rest tokens t other =
    if_both
      (λ (r : List StoredRefreshToken × ConsumeRefreshTokenResult).
        copies token r.0 ≤ copies token rest)
      (ltb t.expires_at now) (λ _. omega arith)
      (λ _.
        copies-consume_for lower token now ttl fresh t rest
          (current_user lower t (find_user lower t.username users)) other)

copies-consume_any :
    (lower : String → String) (token : String) (now ttl : ℕ) (fresh : String)
    (users : List StoredUser)
    → (used : String) (tokens : List StoredRefreshToken) (o : Option StoredRefreshToken)
    → fresh ≢ token
    → copies token (consume_found lower now ttl fresh users (splice used tokens) tokens o).0
      ≤ copies token tokens
copies-consume_any lower token now ttl fresh users used tokens none other = omega arith
copies-consume_any lower token now ttl fresh users used tokens (some t) other = omega (
  arith,
  copies-consume_found lower token now ttl fresh users (splice used tokens) tokens t other,
  copies-splice token used tokens,
)

consumed_any :
    (lower : String → String) (token : String) (now ttl : ℕ) (fresh : String)
    (users : List StoredUser)
    → (tokens : List StoredRefreshToken) (o : Option StoredRefreshToken)
    → find_token token tokens ≡ o
    → copies token tokens ≤ 1
    → fresh ≢ token
    → copies token (consume_found lower now ttl fresh users (splice token tokens) tokens o).0 ≤ 0
consumed_any lower token now ttl fresh users tokens none found once other =
    omega (arith, copies_of_none token tokens found)
consumed_any lower token now ttl fresh users tokens (some t) found once other = omega (
  arith,
  copies-consume_found lower token now ttl fresh users (splice token tokens) tokens t other,
  copies-splice_self token tokens,
)

module _ (lower : String → String) where
  pub step : Call → List StoredRefreshToken → List StoredRefreshToken
  step (issue now ttl fresh user client_id device_id) tokens =
      issue_refresh_token now ttl fresh user client_id device_id tokens
  step (consume now ttl fresh users used) tokens =
      (consume_refresh_token lower now ttl fresh users used tokens).0
  step (revoke used) tokens = revoke_refresh_token used tokens
  step (revoke_device device_id) tokens = revoke_refresh_tokens_of_device device_id tokens
  step (prune now) tokens = prune_expired_refresh_tokens now tokens

  pub run : List Call → List StoredRefreshToken → List StoredRefreshToken
  run [] tokens = tokens
  run (c ∷ calls) tokens = run calls (step c tokens)

  copies-consume :
      (token : String) (now ttl : ℕ) (fresh : String) (users : List StoredUser) (used : String)
      → (tokens : List StoredRefreshToken) → fresh ≢ token
      → copies token (consume_refresh_token lower now ttl fresh users used tokens).0
        ≤ copies token tokens
  unfolding consume_refresh_token
  copies-consume token now ttl fresh users used tokens other =
      copies-consume_any lower token now ttl fresh users used tokens (find_token used tokens) other

  copies-step :
      (token : String) (c : Call) (tokens : List StoredRefreshToken)
      → IsOther token c
      → copies token (step c tokens) ≤ copies token tokens
  unfolding step revoke_refresh_token revoke_refresh_tokens_of_device prune_expired_refresh_tokens
  copies-step token (issue now ttl fresh user client_id device_id) tokens other =
      copies-issue token now ttl fresh user client_id device_id tokens other
  copies-step token (consume now ttl fresh users used) tokens other =
      copies-consume token now ttl fresh users used tokens other
  copies-step token (revoke used) tokens other = copies-keep token _ tokens
  copies-step token (revoke_device device_id) tokens other = copies-keep token _ tokens
  copies-step token (prune now) tokens other = copies-keep token _ tokens

  copies-run :
      (token : String) (calls : List Call) (tokens : List StoredRefreshToken)
      → All (IsOther token) calls
      → copies token (run calls tokens) ≤ copies token tokens
  unfolding run
  copies-run token [] tokens other = omega arith
  copies-run token (c ∷ calls) tokens (other, others) =
      omega (arith, copies-step token c tokens other, copies-run token calls (step c tokens) others)

  -- The token renews nothing.
  abbrev pub IsDead : String → List StoredRefreshToken → Type 0
  IsDead token tokens =
      (now ttl : ℕ) (fresh : String) (users : List StoredUser)
      → consume_refresh_token lower now ttl fresh users token tokens
        ≡ (tokens, refused invalid none)

  IsDead-of_copies :
      (token : String) (tokens : List StoredRefreshToken)
      → copies token tokens ≤ 0
      → IsDead token tokens
  unfolding consume_refresh_token
  IsDead-of_copies token tokens h now ttl fresh users =
      rw (find_absent token tokens (omega (arith, h))) refl

  consumed :
      (token : String) (now ttl : ℕ) (fresh : String) (users : List StoredUser)
      → (tokens : List StoredRefreshToken) → copies token tokens ≤ 1
      → fresh ≢ token
      → copies token (consume_refresh_token lower now ttl fresh users token tokens).0 ≤ 0
  unfolding consume_refresh_token
  consumed token now ttl fresh users tokens once other =
      consumed_any lower token now ttl fresh users tokens (find_token token tokens) refl once other

  -- A refresh token works at most once: after a call that used it, whatever the answer was, it renews
  -- nothing, however many other calls follow that do not mint the same token again. It has to stand in
  -- the file once at most.
  pub run-IsDead_of_consume :
      (token : String) (now ttl : ℕ) (fresh : String) (users : List StoredUser) (calls : List Call)
      → (tokens : List StoredRefreshToken) → copies token tokens ≤ 1
      → fresh ≢ token
      → All (IsOther token) calls
      → IsDead token (run calls (consume_refresh_token lower now ttl fresh users token tokens).0)
  run-IsDead_of_consume token now ttl fresh users calls tokens once other others =
      IsDead-of_copies token _ (
        omega (
          arith,
          copies-run token calls (consume_refresh_token lower now ttl fresh users token tokens).0
              others,
          consumed token now ttl fresh users tokens once other,
        ))

  revoked_copies :
      (token : String) (tokens : List StoredRefreshToken)
      → copies token (revoke_refresh_token token tokens) ≤ 0
  unfolding revoke_refresh_token
  revoked_copies token [] = omega arith
  revoked_copies token (t ∷ tokens) = ground (arith, revoked_copies token tokens)

  -- A refresh token that was revoked renews nothing, however many calls follow that do not mint the same
  -- token again.
  pub run-IsDead_of_revoke :
      (token : String) (calls : List Call) (tokens : List StoredRefreshToken)
      → All (IsOther token) calls
      → IsDead token (run calls (revoke_refresh_token token tokens))
  run-IsDead_of_revoke token calls tokens others = IsDead-of_copies token _ (
      omega (
        arith,
        copies-run token calls (revoke_refresh_token token tokens) others,
        revoked_copies token tokens,
      ))
