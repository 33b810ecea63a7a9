-- ===== src/Users/Sessions.antt =====
-- A change of an account ends its sessions: with src/refresh_tokens.ts.
use hydra_umc_server.Prelude.{
  ℕ, suc, String, Option, none, some, Bool, true, false, List, [], ◌∷◌, ltb, is_same, ◌≡◌, refl,
  sym, ◌∙◌, ap, arith, subst, if_both, if◌then◌else◌, Result, ok, or_err, >>=-eq-ok, or_err-eq-ok,
  ok-injective, guard-then-eq-ok, ◌||◌, not, leb, ◌≢◌, Bool-cases, inl, inr,
}
use hydra_umc_server.Users.{
  StoredUser, UserRole, UserError, Updates, user_not_found, or_one, is_admin_role, has_admin,
  min_password_length, effective_token_version, is_named, find_user, is_taken, others_of,
  replace_first, renamed, with_password, with_role, update_user,
}
use hydra_umc_server.Users.Unique.{Unique}
use hydra_umc_server.Users.Admins.{is_taken-same, is_named-eq}
use hydra_umc_server.RefreshTokens.{
  StoredRefreshToken, refused, Reason, expired, revoked, find_token, current_user,
  consume_refresh_token,
}

only_new :
    (b : Bool) (o : Option StoredUser) {new found : StoredUser}
    → (if b then some new else o) ≡ some found
    → o ≡ none
    → found ≡ new
only_new true o h k = sym (cc h)
only_new false o h k = absurd (cc (sym k ∙ h))

skipped :
    (b : Bool) (user : StoredUser) {o : Option StoredUser} {r : Option StoredUser}
    → b ≡ false
    → (if b then some user else o) ≡ r
    → o ≡ r
skipped true user e h = absurd (cc e)
skipped false user e h = h

module _ (lower : String → String) where
  find_user-absent :
      (name : String) (users : List StoredUser)
      → is_taken lower name users ≡ false
      → find_user lower name users ≡ none
  unfolding find_user is_taken
  find_user-absent name [] h = refl
  find_user-absent name (user ∷ users) h = ground (arith, find_user-absent name users)

  -- By its old name, only the changed account can be found.
  find_user-replace :
      (name : String) (new : StoredUser) (users : List StoredUser)
      → Unique lower users
      → (found : StoredUser)
      → find_user lower name (replace_first lower name new users) ≡ some found
      → found ≡ new
  unfolding find_user replace_first
  find_user-replace name new [] u found h = absurd (cc h)
  find_user-replace name new (user ∷ users) (u, us) found h =
      elim (Bool-cases (is_named lower name user)) [
        | inl e ↦
            let same =
              is_taken-same lower user.username name users (is_named-eq lower name user e) in
            let gone = find_user-absent name users (sym same ∙ u) in
            only_new (is_named lower name new) (find_user lower name users) (rw e at h) gone
        | inr e ↦
            let there = rw e at h in
            find_user-replace name new users us found
              (skipped (is_named lower name user) user e there)
      ]

module _ (lower trim : String → String) (size : String → ℕ) (hash : String → String) where
  renamed-version :
      (name : String) (new : Option String) (others : List StoredUser) (user after : StoredUser)
      → renamed lower trim size hash name new others user ≡ ok after
      → after.token_version ≡ user.token_version
  unfolding renamed
  renamed-version name none others user after h =
      ap (λ (v : StoredUser). v.token_version) (sym (ok-injective h))
  renamed-version name (some new) others user after h =
      if_both
        (λ (r : Result UserError StoredUser).
          r ≡ ok after → after.token_version ≡ user.token_version)
        (is_same new "" || is_same (lower (trim new)) (lower name))
        (λ _ k. ap (λ (v : StoredUser). v.token_version) (sym (ok-injective k)))
        (λ _ k.
          let (_, k1) = guard-then-eq-ok (leb 1 (size (trim new))) _ _ k in
          let (_, same) = guard-then-eq-ok (not (is_taken lower (trim new) others)) _ _ k1 in
          ap (λ (v : StoredUser). v.token_version) (sym (ok-injective same)))
        h

  with_password-version :
      (password : Option String) (user after : StoredUser)
      → with_password lower trim size hash password user ≡ ok after
      → after.token_version ≡ user.token_version
  unfolding with_password
  with_password-version none user after h =
      ap (λ (v : StoredUser). v.token_version) (sym (ok-injective h))
  with_password-version (some password) user after h =
      let (_, same) = guard-then-eq-ok (leb min_password_length (size password)) _ _ h in
      ap (λ (v : StoredUser). v.token_version) (sym (ok-injective same))

  with_role-version :
      (role : Option UserRole) (others : List StoredUser) (user after : StoredUser)
      → with_role lower trim size hash role others user ≡ ok after
      → after.token_version ≡ user.token_version
  unfolding with_role
  with_role-version none others user after h =
      ap (λ (v : StoredUser). v.token_version) (sym (ok-injective h))
  with_role-version (some role) others user after h =
      let (_, same) =
        guard-then-eq-ok (not (is_admin_role user.role) || is_admin_role role || has_admin others) _
          _ h in
      ap (λ (v : StoredUser). v.token_version) (sym (ok-injective same))

  -- Who is found by the old name after an update has the next version.
  update_user-version :
      (name : String) (updates : Updates) (users after : List StoredUser) (old found : StoredUser)
      → Unique lower users
      → find_user lower name users ≡ some old
      → update_user lower trim size hash name updates users ≡ ok after
      → find_user lower name after ≡ some found
      → effective_token_version found ≡ suc (effective_token_version old)
  unfolding update_user
  update_user-version name updates users after old found unique was h here =
      let others = others_of lower name users in
      let (user, got, h1) = >>=-eq-ok (or_err (find_user lower name users) user_not_found) _ h in
      let (named, n, h2) =
        >>=-eq-ok (renamed lower trim size hash name updates.new_username others user) _ h1 in
      let (protected, p, h3) =
        >>=-eq-ok (with_password lower trim size hash updates.password named) _ h2 in
      let (placed, q, same) =
        >>=-eq-ok (with_role lower trim size hash updates.role others protected) _ h3 in
      let new = record placed { token_version = some (suc (effective_token_version placed)) } in
      let is_new = find_user-replace lower name new users unique found (
        subst (λ (l : List StoredUser). find_user lower name l ≡ some found)
          (sym (ok-injective same)) here) in
      let same_user : user ≡ old = cc (sym (or_err-eq-ok _ _ got) ∙ was) in
      let version =
        with_role-version updates.role others protected placed q
        ∙ with_password-version updates.password named protected p
        ∙ renamed-version name updates.new_username others user named n in
      ap effective_token_version is_new
      ∙ ap (λ (v : Option ℕ). suc (or_one v)) version
      ∙ ap (λ (v : StoredUser). suc (effective_token_version v)) same_user

  current_user-outdated :
      (t : StoredRefreshToken) (o : Option StoredUser)
      → ((found : StoredUser) → o ≡ some found → effective_token_version found ≢ t.token_version)
      → current_user lower t o ≡ none
  current_user-outdated t none h = refl
  current_user-outdated t (some found) h = let other = h found refl in ground arith

  -- A refresh token of an account whose names are unique renews no session after an update of the account
  -- that was accepted, be it a new name, a new password, a new role or nothing at all.
  pub update_user-consume :
      (now ttl : ℕ) (fresh token : String) (tokens : List StoredRefreshToken)
      (t : StoredRefreshToken)
      → (updates : Updates) (users after : List StoredUser) (old : StoredUser) → Unique lower users
      → find_token token tokens ≡ some t
      → find_user lower t.username users ≡ some old
      → t.token_version ≡ effective_token_version old
      → update_user lower trim size hash t.username updates users ≡ ok after
      → (r : Reason) × ((consume_refresh_token lower now ttl fresh after token tokens).1
          ≡ refused r t.client_id)
  unfolding consume_refresh_token
  update_user-consume now ttl fresh token tokens t updates users after old unique held was version
        h =
      let outdated = current_user-outdated t (find_user lower t.username after) (λ found here. λ e.
        let next = update_user-version t.username updates users after old found unique was h here in
        absurd (omega arith)) in
      elim (Bool-cases (ltb t.expires_at now)) [
        | inl e ↦ (expired, rw held (rw e refl))
        | inr e ↦ (revoked, rw held (rw e (rw outdated refl)))
      ]
