-- ===== src/Users/Changes.antt =====
-- Whatever is done with the accounts, an administrator stays and names stay unique.
use hydra_umc_server.Prelude.{
  ℕ, suc, String, Option, none, some, true, false, ◌||◌, not, List, [], ◌∷◌, leb, is_same, if_both,
  keep, ◌≡◌, refl, sym, ◌∙◌, ap, arith, subst, Result, ok, err, or_err, or_err-eq-ok, >>=-eq-ok,
  guard-then-eq-ok, ok-injective,
}
use hydra_umc_server.Users.{
  UserRole, StoredUser, UserError, user_not_found, Updates, Fresh, Change, create, update, delete,
  kept_or, change_users, run_changes, is_admin_role, has_admin, min_password_length,
  effective_token_version, is_named, find_user, is_taken, others_of, create_user, renamed,
  with_password, with_role, update_user, delete_user,
}
use hydra_umc_server.Users.Unique.{Unique-append, Unique-replace, Unique-keep}
use hydra_umc_server.Users.Admins.{
  has_admin-append, still_admin, admin_after, has_admin-replace, has_admin-others, has_admin-keep,
  found-free, IsSound,
}

module _ (lower trim : String → String) (size : String → ℕ) (hash : String → String) where
  create_user-IsSound :
      (fresh : Fresh) (username password : String) (role : UserRole) (users after : List StoredUser)
      → IsSound lower users
      → create_user lower trim size hash fresh username password role users ≡ ok after
      → IsSound lower after
  unfolding create_user
  create_user-IsSound fresh username password role users after (some_admin, unique) h =
      let (_, h1) = guard-then-eq-ok (leb 1 (size (trim username))) _ _ h in
      let (_, h2) = guard-then-eq-ok (leb min_password_length (size password)) _ _ h1 in
      let (free, same) = guard-then-eq-ok (not (is_taken lower (trim username) users)) _ _ h2 in
      subst (λ (l : List StoredUser). IsSound lower l) (ok-injective same)
        (has_admin-append users _ some_admin, Unique-append lower users _ unique (ground arith))

  delete_user-IsSound :
      (name : String) (users after : List StoredUser)
      → IsSound lower users
      → delete_user lower trim size hash name users ≡ ok after
      → IsSound lower after
  unfolding delete_user
  delete_user-IsSound name users after (some_admin, unique) h =
      let (target, found, h1) =
        >>=-eq-ok (or_err (find_user lower name users) user_not_found) _ h in
      let rest = keep (λ user. not (is_named lower name user)) users in
      let (guarded, same) =
        guard-then-eq-ok (not (is_admin_role target.role) || has_admin rest) _ _ h1 in
      let counted = has_admin-keep lower name target users unique (or_err-eq-ok _ _ found) in
      subst (λ (l : List StoredUser). IsSound lower l) (ok-injective same)
        (
          still_admin (is_admin_role target.role) (has_admin rest) guarded
              (sym counted ∙ some_admin),
          Unique-keep lower (λ user. not (is_named lower name user)) users unique,
        )

  same_user :
      (others : List StoredUser) (user after : StoredUser)
      → ◌≡◌ {A = Result UserError StoredUser} (ok user) (ok after)
      → is_taken lower user.username others ≡ false
      → (is_taken lower after.username others ≡ false) × (after.role ≡ user.role)
  same_user others user after h free =
      subst (λ (v : StoredUser). (is_taken lower v.username others ≡ false) × (v.role ≡ user.role))
        (ok-injective h) (free, refl)

  -- A new name is free among the others, or the name is as it was.
  renamed-free :
      (name : String) (new : Option String) (others : List StoredUser) (user after : StoredUser)
      → renamed lower trim size hash name new others user ≡ ok after
      → is_taken lower user.username others ≡ false
      → (is_taken lower after.username others ≡ false) × (after.role ≡ user.role)
  unfolding renamed
  renamed-free name none others user after h free = same_user others user after h free
  renamed-free name (some new) others user after h free =
      if_both
        (λ (r : Result UserError StoredUser).
          r ≡ ok after → (is_taken lower after.username others ≡ false) × (after.role ≡ user.role))
        (is_same new "" || is_same (lower (trim new)) (lower name))
        (λ _ k. same_user others user after k free)
        (λ _ k.
          let (_, k1) = guard-then-eq-ok (leb 1 (size (trim new))) _ _ k in
          let (fresh, same) = guard-then-eq-ok (not (is_taken lower (trim new) others)) _ _ k1 in
          let done = ok-injective same in
          (
            subst (λ (v : StoredUser). is_taken lower v.username others ≡ false) done
                (ground arith),
            ap (λ (v : StoredUser). v.role) (sym done),
          ))
        h

  with_password-keeps :
      (password : Option String) (user after : StoredUser)
      → with_password lower trim size hash password user ≡ ok after
      → (after.username ≡ user.username) × (after.role ≡ user.role)
  unfolding with_password
  with_password-keeps none user after h =
      let done = ok-injective h in
      (ap (λ (v : StoredUser). v.username) (sym done), ap (λ (v : StoredUser). v.role) (sym done))
  with_password-keeps (some password) user after h =
      let (_, same) = guard-then-eq-ok (leb min_password_length (size password)) _ _ h in
      let done = ok-injective same in
      (ap (λ (v : StoredUser). v.username) (sym done), ap (λ (v : StoredUser). v.role) (sym done))

  -- The name stays, and the account is an administrator after or another one is.
  with_role-keeps :
      (role : Option UserRole) (others : List StoredUser) (user after : StoredUser)
      → with_role lower trim size hash role others user ≡ ok after
      → (is_admin_role user.role || has_admin others) ≡ true
      → (after.username ≡ user.username) × ((is_admin_role after.role || has_admin others) ≡ true)
  unfolding with_role
  with_role-keeps none others user after h some_admin =
      let done = ok-injective h in
      (
        ap (λ (v : StoredUser). v.username) (sym done),
        subst (λ (v : StoredUser). (is_admin_role v.role || has_admin others) ≡ true) done
            some_admin,
      )
  with_role-keeps (some role) others user after h some_admin =
      let (guarded, same) =
        guard-then-eq-ok (not (is_admin_role user.role) || is_admin_role role || has_admin others) _
          _ h in
      let done = ok-injective same in
      (
        ap (λ (v : StoredUser). v.username) (sym done),
        subst (λ (v : StoredUser). (is_admin_role v.role || has_admin others) ≡ true) done
            (admin_after (is_admin_role user.role) (is_admin_role role) (has_admin others) guarded
              some_admin),
      )

  update_user-IsSound :
      (name : String) (updates : Updates) (users after : List StoredUser)
      → IsSound lower users
      → update_user lower trim size hash name updates users ≡ ok after
      → IsSound lower after
  unfolding update_user
  update_user-IsSound name updates users after (some_admin, unique) h =
      let others = others_of lower name users in
      let (user, got, h1) = >>=-eq-ok (or_err (find_user lower name users) user_not_found) _ h in
      let found = or_err-eq-ok _ _ got in
      let (named, n, h2) =
        >>=-eq-ok (renamed lower trim size hash name updates.new_username others user) _ h1 in
      let (protected, p, h3) =
        >>=-eq-ok (with_password lower trim size hash updates.password named) _ h2 in
      let (placed, q, same) =
        >>=-eq-ok (with_role lower trim size hash updates.role others protected) _ h3 in
      let (free, role1) =
        renamed-free name updates.new_username others user named n
          (found-free lower name user users unique found) in
      let (name2, role2) = with_password-keeps updates.password named protected p in
      let before = sym (has_admin-others lower name user users found) ∙ some_admin in
      let (name3, admins) = with_role-keeps updates.role others protected placed q (
        subst (λ (r : UserRole). (is_admin_role r || has_admin others) ≡ true) (sym (role2 ∙ role1))
          before) in
      let new = record placed { token_version = some (suc (effective_token_version placed)) } in
      subst (λ (l : List StoredUser). IsSound lower l) (ok-injective same)
        (
          has_admin-replace lower name new user users found ∙ admins,
          Unique-replace lower name new users unique
              (subst (λ (s : String). is_taken lower s others ≡ false) (sym (name3 ∙ name2)) free),
        )

  kept_or-IsSound :
      (users : List StoredUser) (r : Result UserError (List StoredUser))
      → IsSound lower users
      → ((after : List StoredUser) → r ≡ ok after → IsSound lower after)
      → IsSound lower (kept_or users r)
  kept_or-IsSound users (ok after) sound h = h after refl
  kept_or-IsSound users (err e) sound h = sound

  -- Where there is an administrator and no two accounts have one name, whatever its case, this is so after
  -- any changes of the accounts, whether they are refused or not.
  pub run_changes-IsSound :
      (changes : List Change) (users : List StoredUser)
      → IsSound lower users
      → IsSound lower (run_changes lower trim size hash changes users)
  unfolding run_changes change_users
  run_changes-IsSound [] users sound = sound
  run_changes-IsSound (create fresh username password role ∷ changes) users sound =
      run_changes-IsSound changes _ (
        kept_or-IsSound users (create_user lower trim size hash fresh username password role users)
          sound (λ after h. create_user-IsSound fresh username password role users after sound h))
  run_changes-IsSound (update name updates ∷ changes) users sound = run_changes-IsSound changes _ (
      kept_or-IsSound users (update_user lower trim size hash name updates users) sound
        (λ after h. update_user-IsSound name updates users after sound h))
  run_changes-IsSound (delete name ∷ changes) users sound = run_changes-IsSound changes _ (
      kept_or-IsSound users (delete_user lower trim size hash name users) sound
        (λ after h. delete_user-IsSound name users after sound h))
