-- ===== src/Prelude/Lists.antt =====
-- Lists measured by native numbers, under the names of the library.
use Prim.Native.Nat.{ℕ, zero, suc, ◌+◌, ◌-◌, ◌≤◌, min}
use mathlib.Core.Path.{◌≡◌, refl, sym, ap}
use mathlib.Core.Bool.{Bool}
use mathlib.Core.Logic.{◌⊎◌}
use mathlib.Core.List.{List, [], ◌∷◌, ◌++◌, map, append-nil, append_assoc}
use Prim.Native.Nat.add
use native.Mathlib.Omega.{arith}
use hydra_umc_server.Prelude.Tests.{if◌then◌else◌}

module _ {ℓ} {A : Type ℓ} where
  abbrev pub length : List A → ℕ
  length [] = 0
  length (x ∷ xs) = suc (length xs)

  abbrev pub take : ℕ → List A → List A
  take zero xs = []
  take (suc n) [] = []
  take (suc n) (x ∷ xs) = x ∷ take n xs

  abbrev pub drop : ℕ → List A → List A
  drop zero xs = xs
  drop (suc n) [] = []
  drop (suc n) (x ∷ xs) = drop n xs

  abbrev pub replicate : ℕ → A → List A
  replicate zero a = []
  replicate (suc n) a = a ∷ replicate n a

  -- `xs.filter(p)`
  abbrev pub keep : (A → Bool) → List A → List A
  keep p [] = []
  keep p (x ∷ xs) = if p x then x ∷ keep p xs else keep p xs

  abbrev pub concat : List (List A) → List A
  concat [] = []
  concat (x ∷ xs) = x ++ concat xs

  abbrev pub All {κ} : (A → Type κ) → List A → Type κ
  All P [] = Unit {κ}
  All P (x ∷ xs) = P x × All P xs

  abbrev pub Any : (A → Type 0) → List A → Type 0
  Any P [] = ⊥
  Any P (x ∷ xs) = P x ⊎ Any P xs

  -- Two lists of one length, whose elements are related in order.
  abbrev pub AllPairs {κ} : (A → A → Type κ) → List A → List A → Type κ
  AllPairs R [] [] = Unit {κ}
  AllPairs R (x ∷ xs) (y ∷ ys) = R x y × AllPairs R xs ys
  AllPairs R _ _ = ⊥ × Unit {κ}

module _ {ℓ} {A : Type ℓ} where
  pub length-append : (xs ys : List A) → length (xs ++ ys) ≡ length xs + length ys
  length-append [] ys = omega arith
  length-append (x ∷ xs) ys = omega (arith, length-append xs ys)

  pub take-append-drop : (n : ℕ) (xs : List A) → take n xs ++ drop n xs ≡ xs
  take-append-drop zero xs = refl
  take-append-drop (suc n) [] = refl
  take-append-drop (suc n) (x ∷ xs) = ap (◌∷◌ x) (take-append-drop n xs)

  pub length-take : (n : ℕ) (xs : List A) → length (take n xs) ≡ min n (length xs)
  length-take zero xs = omega arith
  length-take (suc n) [] = omega arith
  length-take (suc n) (x ∷ xs) = omega (arith, length-take n xs)

  pub length-drop : (n : ℕ) (xs : List A) → length (drop n xs) ≡ length xs - n
  length-drop zero xs = omega arith
  length-drop (suc n) [] = omega arith
  length-drop (suc n) (x ∷ xs) = omega (arith, length-drop n xs)

  pub length-keep-le : (p : A → Bool) (xs : List A) → length (keep p xs) ≤ length xs
  length-keep-le p [] = omega arith
  length-keep-le p (x ∷ xs) = ground (arith, length-keep-le p xs)

  pub take_of_length-le : (n : ℕ) (xs : List A) → length xs ≤ n → take n xs ≡ xs
  take_of_length-le zero [] fits = refl
  take_of_length-le (suc n) [] fits = refl
  take_of_length-le zero (x ∷ xs) fits = absurd (omega arith)
  take_of_length-le (suc n) (x ∷ xs) fits = rw (take_of_length-le n xs (omega arith)) refl

  take-length-take : (k : ℕ) (xs : List A) → take k xs ≡ take (length (take k xs)) xs
  take-length-take zero xs = refl
  take-length-take (suc k) [] = refl
  take-length-take (suc k) (x ∷ xs) = ap (◌∷◌ x) (take-length-take k xs)

  -- A slice joined to what stands before it.
  pub take-append-slice :
      (n k : ℕ) (xs : List A)
      → take n xs ++ take k (drop n xs) ≡ take (n + length (take k (drop n xs))) xs
  take-append-slice zero k xs = rw (add.zero (length (take k xs))) (take-length-take k xs)
  take-append-slice (suc n) zero [] = rw (add.suc n 0) refl
  take-append-slice (suc n) (suc k) [] = rw (add.suc n 0) refl
  take-append-slice (suc n) k (x ∷ xs) =
      rw (add.suc n (length (take k (drop n xs)))) (ap (◌∷◌ x) (take-append-slice n k xs))

  pub concat-append : (xs : List (List A)) (y : List A) → concat (xs ++ y ∷ []) ≡ concat xs ++ y
  concat-append [] y = append-nil y
  concat-append (x ∷ xs) y = rw (concat-append xs y) (sym (append_assoc x (concat xs) y))

  pub All-take {κ} : (P : A → Type κ) (n : ℕ) (xs : List A) → All P xs → All P (take n xs)
  All-take P zero xs h = tt
  All-take P (suc n) [] h = tt
  All-take P (suc n) (x ∷ xs) h = (h.0, All-take P n xs h.1)

  pub All-each {κ} : {P : A → Type κ} → ((x : A) → P x) → (xs : List A) → All P xs
  All-each h [] = tt
  All-each h (x ∷ xs) = (h x, All-each h xs)

  -- What one statement on all elements gives of each, another one does too.
  pub All-imp {κ υ} :
      {P : A → Type κ} {Q : A → Type υ}
      → ((x : A) → P x → Q x)
      → (xs : List A) → All P xs
      → All Q xs
  All-imp h [] all = tt
  All-imp h (x ∷ xs) all = (h x all.0, All-imp h xs all.1)

  pub All-both {κ υ} :
      (P : A → Type κ) (Q : A → Type υ) (xs : List A)
      → All P xs
      → All Q xs
      → All (λ x. P x × Q x) xs
  All-both P Q [] ps qs = tt
  All-both P Q (x ∷ xs) ps qs = ((ps.0, qs.0), All-both P Q xs ps.1 qs.1)

  pub All-map {κ} :
      (P : A → Type κ) (f : A → A) (xs : List A) → All (λ x. P (f x)) xs → All P (map f xs)
  All-map P f [] all = tt
  All-map P f (x ∷ xs) all = (all.0, All-map P f xs all.1)

  pub AllPairs-same {κ} :
      (R : A → A → Type κ) → ((x : A) → R x x) → (xs : List A) → AllPairs R xs xs
  AllPairs-same R h [] = tt
  AllPairs-same R h (x ∷ xs) = (h x, AllPairs-same R h xs)

  pub AllPairs-map {κ} :
      (R : A → A → Type κ) (f : A → A) (xs : List A)
      → All (λ x. R x (f x)) xs
      → AllPairs R xs (map f xs)
  AllPairs-map R f [] all = tt
  AllPairs-map R f (x ∷ xs) all = (all.0, AllPairs-map R f xs all.1)
