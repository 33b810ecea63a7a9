-- ===== src/Users/Admins.antt =====
-- How finding, replacing and deleting an account counts administrators and names.
use hydra_umc_server.Prelude.{
  String, some, Bool, true, false, ◌||◌, not, List, [], ◌∷◌, ◌++◌, is_same, if◌then◌else◌, keep,
  ◌≡◌, refl, sym, ◌∙◌, ap, arith, subst, Bool-cases, inl, inr,
}
use hydra_umc_server.Users.{
  StoredUser, is_admin_role, has_admin, is_named, find_user, is_taken, others_of, replace_first,
}
use hydra_umc_server.Users.Unique.{Unique}

pub has_admin-append :
    (users : List StoredUser) (new : StoredUser)
    → has_admin users ≡ true
    → has_admin (users ++ new ∷ []) ≡ true
has_admin-append [] new h = absurd (cc h)
has_admin-append (user ∷ users) new h = ground (arith, has_admin-append users new)

pub admin_after : (a b c : Bool) → (not a || b || c) ≡ true → (a || c) ≡ true → (b || c) ≡ true
admin_after a b c h k = grind arith

pub still_admin : (a b : Bool) → (not a || b) ≡ true → (a || b) ≡ true → b ≡ true
still_admin a b h k = grind arith

not_named :
    (a b c : String) {o : Bool}
    → is_same a c ≡ false
    → is_same b c ≡ true
    → o ≡ false
    → (if is_same a b then true else o) ≡ false
not_named a b c e same rest = ground arith

or-swap : (a b c : Bool) → (a || (b || c)) ≡ (b || (a || c))
or-swap true true c = refl
or-swap true false c = refl
or-swap false true c = refl
or-swap false false c = refl

module _ (lower : String → String) where
  pub has_admin-replace :
      (name : String) (new old : StoredUser) (users : List StoredUser)
      → find_user lower name users ≡ some old
      → has_admin (replace_first lower name new users)
        ≡ (is_admin_role new.role || has_admin (others_of lower name users))
  unfolding find_user replace_first others_of
  has_admin-replace name new old [] h = absurd (cc h)
  has_admin-replace name new old (user ∷ users) h =
      ground (arith, has_admin-replace name new old users)

  pub has_admin-others :
      (name : String) (old : StoredUser) (users : List StoredUser)
      → find_user lower name users ≡ some old
      → has_admin users ≡ (is_admin_role old.role || has_admin (others_of lower name users))
  unfolding find_user others_of
  has_admin-others name old [] h = absurd (cc h)
  has_admin-others name old (user ∷ users) h = ground (arith, has_admin-others name old users)

  -- Where names are unique, only the account that was found goes.
  pub keep-others :
      (name : String) (users : List StoredUser)
      → is_taken lower name users ≡ false
      → keep (λ user. not (is_named lower name user)) users ≡ users
  unfolding is_taken
  keep-others name [] h = refl
  keep-others name (user ∷ users) h = ground (arith, keep-others name users)

  pub is_taken-same :
      (a b : String) (users : List StoredUser)
      → lower a ≡ lower b
      → is_taken lower a users ≡ is_taken lower b users
  unfolding is_taken
  is_taken-same a b [] e = refl
  is_taken-same a b (user ∷ users) e =
      λ i. if is_same (lower user.username) (e i) then true else is_taken-same a b users e i

  pub is_named-eq :
      (name : String) (user : StoredUser)
      → is_named lower name user ≡ true
      → lower user.username ≡ lower name
  is_named-eq name user h = ground arith

  pub has_admin-keep :
      (name : String) (old : StoredUser) (users : List StoredUser)
      → Unique lower users
      → find_user lower name users ≡ some old
      → has_admin users
        ≡ (is_admin_role old.role || has_admin (keep (λ u. not (is_named lower name u)) users))
  unfolding find_user
  has_admin-keep name old [] u h = absurd (cc h)
  has_admin-keep name old (user ∷ users) (u, us) h = elim (Bool-cases (is_named lower name user)) [
    | inl e ↦
        let same = is_taken-same user.username name users (is_named-eq name user e) in
        let kept = keep-others name users (sym same ∙ u) in
        let found : user ≡ old = cc (rw e at h) in
        rw e (rw kept (ap (λ (v : StoredUser). is_admin_role v.role || has_admin users) found))
    | inr e ↦
        let rest = has_admin-keep name old users us in
        let r = rest (rw e at h) in
        rw e (
          rw r (
            or-swap (is_admin_role user.role) (is_admin_role old.role)
              (has_admin (keep (λ v. not (is_named lower name v)) users))))
  ]

  pub find_user-IsNamed :
      (name : String) (old : StoredUser) (users : List StoredUser)
      → find_user lower name users ≡ some old
      → is_named lower name old ≡ true
  unfolding find_user
  find_user-IsNamed name old [] h = absurd (cc h)
  find_user-IsNamed name old (user ∷ users) h = elim (Bool-cases (is_named lower name user)) [
    | inl e ↦
        let found : user ≡ old = cc (rw e at h) in
        subst (λ (v : StoredUser). is_named lower name v ≡ true) found e
    | inr e ↦ find_user-IsNamed name old users (rw e at h)
  ]

  pub found-free :
      (name : String) (old : StoredUser) (users : List StoredUser)
      → Unique lower users
      → find_user lower name users ≡ some old
      → is_taken lower old.username (others_of lower name users) ≡ false
  unfolding find_user others_of is_taken
  found-free name old [] u h = refl
  found-free name old (user ∷ users) (u, us) h = elim (Bool-cases (is_named lower name user)) [
    | inl e ↦
        let found : user ≡ old = cc (rw e at h) in
        rw e (subst (λ (v : StoredUser). is_taken lower v.username users ≡ false) found u)
    | inr e ↦
        let there = rw e at h in
        let rest = found-free name old users us there in
        let same = find_user-IsNamed name old users there in
        rw e (not_named (lower user.username) (lower old.username) (lower name) e same rest)
  ]

  -- There is an administrator, and no two accounts have one name.
  abbrev pub IsSound : List StoredUser → Type 0
  IsSound users = (has_admin users ≡ true) × Unique lower users
