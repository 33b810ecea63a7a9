-- ===== src/Users/Unique.antt =====
-- No two accounts have one name, whatever its case.
use hydra_umc_server.Prelude.{
  String, Bool, false, List, [], ◌∷◌, ◌++◌, if_both, keep, ◌≡◌, refl, arith, Bool-cases, inl, inr,
}
use hydra_umc_server.Users.{StoredUser, is_named, is_taken, others_of, replace_first}

module _ (lower : String → String) where
  abbrev pub Unique : List StoredUser → Type 0
  Unique [] = Unit
  Unique (user ∷ users) = (is_taken lower user.username users ≡ false) × Unique users

  is_taken-cons :
      (name : String) (user : StoredUser) (users : List StoredUser)
      → is_taken lower name (user ∷ users) ≡ false
      → (is_named lower name user ≡ false) × (is_taken lower name users ≡ false)
  unfolding is_taken
  is_taken-cons name user users h = (ground arith, ground arith)

  is_named-swap :
      (a b : StoredUser) → is_named lower a.username b ≡ false → is_named lower b.username a ≡ false
  is_named-swap a b h = ground arith

  is_taken-append :
      (name : String) (users : List StoredUser) (new : StoredUser)
      → is_taken lower name users ≡ false
      → is_named lower name new ≡ false
      → is_taken lower name (users ++ new ∷ []) ≡ false
  unfolding is_taken
  is_taken-append name [] new h k = ground arith
  is_taken-append name (user ∷ users) new h k = ground (arith, is_taken-append name users new)

  pub Unique-append :
      (users : List StoredUser) (new : StoredUser)
      → Unique users
      → is_taken lower new.username users ≡ false
      → Unique (users ++ new ∷ [])
  unfolding is_taken
  Unique-append [] new h k = (refl, tt)
  Unique-append (user ∷ users) new (u, h) k = (
    is_taken-append user.username users new u (ground arith),
    Unique-append users new h (ground arith),
  )

  is_taken-replace :
      (name other : String) (new : StoredUser) (users : List StoredUser)
      → is_taken lower other users ≡ false
      → is_named lower other new ≡ false
      → is_taken lower other (replace_first lower name new users) ≡ false
  unfolding is_taken replace_first
  is_taken-replace name other new [] h k = refl
  is_taken-replace name other new (user ∷ users) h k =
      ground (arith, is_taken-replace name other new users)

  pub Unique-replace :
      (name : String) (new : StoredUser) (users : List StoredUser)
      → Unique users
      → is_taken lower new.username (others_of lower name users) ≡ false
      → Unique (replace_first lower name new users)
  unfolding is_taken replace_first others_of
  Unique-replace name new [] h k = tt
  Unique-replace name new (user ∷ users) (u, h) k = elim (Bool-cases (is_named lower name user)) [
    | inl e ↦ rw e (rw e at k, h)
    | inr e ↦
        let (other, rest) =
          is_taken-cons new.username user (others_of lower name users) (rw e at k) in
        rw e (
          is_taken-replace name user.username new users u (is_named-swap new user other),
          Unique-replace name new users h rest,
        )
  ]

  is_taken-keep :
      (name : String) (p : StoredUser → Bool) (users : List StoredUser)
      → is_taken lower name users ≡ false
      → is_taken lower name (keep p users) ≡ false
  unfolding is_taken
  is_taken-keep name p [] h = refl
  is_taken-keep name p (user ∷ users) h = ground (arith, is_taken-keep name p users)

  pub Unique-keep :
      (p : StoredUser → Bool) (users : List StoredUser) → Unique users → Unique (keep p users)
  Unique-keep p [] h = tt
  Unique-keep p (user ∷ users) (u, h) =
      if_both (λ (l : List StoredUser). Unique l) (p user)
        (λ _. (is_taken-keep user.username p users u, Unique-keep p users h))
        (λ _. Unique-keep p users h)
