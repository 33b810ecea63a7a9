-- ===== src/Users.antt =====
-- src/users.ts: the accounts of the server, over the list that the file holds. `lower` is toLowerCase,
-- `trim` and `size` are those of texts; the random id, the hash of a password and the date of a new account
-- are arguments, as are the two settings of the environment. The lock runs one change after the other.
pub mod Unique
pub mod Admins
pub mod Changes
pub mod Sessions
mod Tests
use hydra_umc_server.Prelude.{
  ℕ, suc, String, Option, none, some, Bool, true, false, ◌&&◌, ◌||◌, not, List, [], ◌∷◌, ◌++◌, leb,
  is_same, if◌then◌else◌, keep, Result, ok, err, ◌>>=◌, ◌>>◌, guard, or_err,
}

pub data UserRole : Type 0 where
  admin operator viewer : UserRole

pub record StoredUser : Type 0 where
  pub username : String
  pub password_hash : String
  pub role : UserRole
  pub created_at : ℕ
  pub token_version : Option ℕ
  pub id : Option String

pub data UserError : Type 0 where
  username_required password_too_short username_exists user_not_found last_admin : UserError

pub record Updates : Type 0 where
  pub new_username : Option String
  pub password : Option String
  pub role : Option UserRole

-- What a new account gets that is not asked for.
pub record Fresh : Type 0 where
  pub id : String
  pub created_at : ℕ

abbrev pub or_one : Option ℕ → ℕ
or_one none = 1
or_one (some n) = n

abbrev pub effective_token_version : StoredUser → ℕ
effective_token_version user = or_one user.token_version

abbrev pub or_string : Option String → String → String
or_string none s = s
or_string (some s) _ = s

abbrev pub effective_id : StoredUser → String
effective_id user = or_string user.id user.username

abbrev pub min_password_length : ℕ
min_password_length = 8

abbrev pub is_admin_role : UserRole → Bool
is_admin_role admin = true
is_admin_role _ = false

abbrev pub has_admin : List StoredUser → Bool
has_admin [] = false
has_admin (user ∷ users) = is_admin_role user.role || has_admin users

module _ (lower : String → String) where
  abbrev pub is_named : String → StoredUser → Bool
  is_named name user = is_same (lower user.username) (lower name)

  unfoldable pub find_user : String → List StoredUser → Option StoredUser
  find_user name [] = none
  find_user name (user ∷ users) = if is_named name user then some user else find_user name users

  -- `users.some(...)`
  unfoldable pub is_taken : String → List StoredUser → Bool
  is_taken name [] = false
  is_taken name (user ∷ users) = if is_named name user then true else is_taken name users

  -- The users but the first of that name, and the users with that one replaced.
  unfoldable pub others_of : String → List StoredUser → List StoredUser
  others_of name [] = []
  others_of name (user ∷ users) = if is_named name user then users else user ∷ others_of name users

  unfoldable pub replace_first : String → StoredUser → List StoredUser → List StoredUser
  replace_first name new [] = []
  replace_first name new (user ∷ users) =
      if is_named name user then new ∷ users else user ∷ replace_first name new users

pub data Change : Type 0 where
  create : Fresh → String → String → UserRole → Change
  update : String → Updates → Change
  delete : String → Change

abbrev pub kept_or : List StoredUser → Result UserError (List StoredUser) → List StoredUser
kept_or users (ok after) = after
kept_or users (err e) = users

-- `withUsersLock` runs one change after the other, so a change is a step of its own.
module _ (lower trim : String → String) (size : String → ℕ) (hash : String → String) where
  unfoldable pub create_user :
      Fresh → String → String → UserRole → List StoredUser → Result UserError (List StoredUser)
  create_user fresh username password role users = do
    guard (leb 1 (size (trim username))) username_required
    guard (leb min_password_length (size password)) password_too_short
    guard (not (is_taken lower (trim username) users)) username_exists
    ok (
        users
        ++ record {
          username = trim username;
          password_hash = hash password;
          role = role;
          created_at = fresh.created_at;
          token_version = some 1;
          id = some fresh.id;
        }
          ∷ [])

  -- A new name that differs from the old one in more than its case. An empty text is no new name.
  pub renamed : String → Option String → List StoredUser → StoredUser → Result UserError StoredUser
  renamed name none others user = ok user
  renamed name (some new) others user =
      if is_same new "" || is_same (lower (trim new)) (lower name) then ok user else do
        guard (leb 1 (size (trim new))) username_required
        guard (not (is_taken lower (trim new) others)) username_exists
        ok (record user { username = trim new })

  pub with_password : Option String → StoredUser → Result UserError StoredUser
  with_password none user = ok user
  with_password (some password) user = do
    guard (leb min_password_length (size password)) password_too_short
    ok (record user { password_hash = hash password })

  -- The last administrator stays one.
  pub with_role : Option UserRole → List StoredUser → StoredUser → Result UserError StoredUser
  with_role none others user = ok user
  with_role (some role) others user = do
    guard (not (is_admin_role user.role) || is_admin_role role || has_admin others) last_admin
    ok (record user { role = role })

  unfoldable pub update_user :
      String → Updates → List StoredUser → Result UserError (List StoredUser)
  unfolding renamed with_password with_role
  update_user name updates users = do
    user ← or_err (find_user lower name users) user_not_found
    named ← renamed name updates.new_username (others_of lower name users) user
    protected ← with_password updates.password named
    placed ← with_role updates.role (others_of lower name users) protected
    ok (
        replace_first lower name
          (record placed { token_version = some (suc (effective_token_version placed)) }) users)

  unfoldable pub delete_user : String → List StoredUser → Result UserError (List StoredUser)
  delete_user name users = do
    target ← or_err (find_user lower name users) user_not_found
    let rest = keep (λ user. not (is_named lower name user)) users
    guard (not (is_admin_role target.role) || has_admin rest) last_admin
    ok rest

  -- A change of the accounts. One that is refused leaves the file as it is.
  unfoldable pub change_users : Change → List StoredUser → List StoredUser
  unfolding create_user update_user delete_user
  change_users (create fresh username password role) users =
      kept_or users (create_user fresh username password role users)
  change_users (update name updates) users = kept_or users (update_user name updates users)
  change_users (delete name) users = kept_or users (delete_user name users)

  -- The first change comes first.
  unfoldable pub run_changes : List Change → List StoredUser → List StoredUser
  unfolding change_users
  run_changes [] users = users
  run_changes (c ∷ changes) users = run_changes changes (change_users c users)
