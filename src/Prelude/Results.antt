-- ===== src/Prelude/Results.antt =====
-- Results with their refusals, and the steps that a refusal ends.
use mathlib.Core.Path.{◌≡◌, refl}
use mathlib.Core.Bool.{Bool, true, false}
use mathlib.Core.Option.{Option, none, some}

pub data Result {ℓ κ} (E : Type κ) (A : Type ℓ) : Type (ℓ ⊔ κ) where
  ok : A → Result E A
  err : E → Result E A

-- The rest of a chain is passed over after a refusal.
infixl 5 ◌>>=◌ ◌>>◌
abbrev pub ◌>>=◌ {ℓ κ υ} :
    {E : Type υ} {A : Type ℓ} {B : Type κ} → Result E A → (A → Result E B) → Result E B
err reason >>= next = err reason
ok value >>= next = next value

abbrev pub ◌>>◌ {ℓ υ} : {E : Type υ} {B : Type ℓ} → Result E (Unit {0}) → Result E B → Result E B
check >> rest = check >>= λ _. rest

-- An early return of the refusal, unless the test holds.
abbrev pub guard {υ} : {E : Type υ} → Bool → E → Result E (Unit {0})
guard false reason = err reason
guard true reason = ok tt

abbrev pub or_err {ℓ υ} : {E : Type υ} {A : Type ℓ} → Option A → E → Result E A
or_err none e = err e
or_err (some a) e = ok a

abbrev pub refuse_if {υ} : {E : Type υ} → Option E → Result E (Unit {0})
refuse_if none = ok tt
refuse_if (some e) = err e

-- A chain that ends well, taken apart.
pub >>=-eq-ok {ℓ κ υ} :
    {E : Type υ} {A : Type ℓ} {B : Type κ}
    → (head : Result E A) (next : A → Result E B) {end : B} → (head >>= next) ≡ ok end
    → (value : A) × (head ≡ ok value) × (next value ≡ ok end)
>>=-eq-ok (err reason) next done = absurd (cc done)
>>=-eq-ok (ok value) next done = (value, refl, done)

pub guard-eq-ok {υ} : {E : Type υ} (b : Bool) (e : E) {t : Unit} → guard b e ≡ ok t → b ≡ true
guard-eq-ok true e h = refl
guard-eq-ok false e h = absurd (cc h)

pub or_err-eq-ok {ℓ υ} :
    {E : Type υ} {A : Type ℓ} (o : Option A) (e : E) {a : A} → or_err o e ≡ ok a → o ≡ some a
or_err-eq-ok none e h = absurd (cc h)
or_err-eq-ok (some a) e h = cc h

pub refuse_if-eq-ok {υ} : {E : Type υ} (o : Option E) {t : Unit} → refuse_if o ≡ ok t → o ≡ none
refuse_if-eq-ok none h = refl
refuse_if-eq-ok (some e) h = absurd (cc h)

-- The same, for a guard.
pub guard-then-eq-ok {ℓ υ} :
    {E : Type υ} {B : Type ℓ} (b : Bool) (e : E) (r : Result E B) {a : B}
    → (guard b e >> r) ≡ ok a
    → (b ≡ true) × (r ≡ ok a)
guard-then-eq-ok true e r h = (refl, h)
guard-then-eq-ok false e r h = absurd (cc h)

pub err-ne-ok {ℓ υ} : {E : Type υ} {A : Type ℓ} {e : E} {a : A} → err e ≡ ok a → ⊥
err-ne-ok h = absurd (cc h)

pub ok-injective {ℓ υ} :
    {E : Type υ} {A : Type ℓ} {a b : A} → ◌≡◌ {A = Result E A} (ok a) (ok b) → a ≡ b
ok-injective h = cc h
