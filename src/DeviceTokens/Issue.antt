-- ===== src/DeviceTokens/Issue.antt =====
-- A token that was issued.
use mathlib.Core.Option.{some-injective, none-ne-some}
use hydra_umc_server.Prelude.{
  is_same, ℕ, ◌+◌, ◌*◌, ◌/◌, ◌≤◌, ◌<◌, String, none, some, Bool, true, false, List, [], ◌∷◌, ◌++◌,
  keep, not, leb, ◌==◌, ◌≡◌, refl, ap, inl, inr, arith, Bool-cases, subst,
}
use hydra_umc_server.DeviceTokens.{
  DeviceTokenRecord, DeviceToken, active_count, find_record, is_forgotten, IssueInput, kept_records,
  expiry_seconds, issued_record, issue, verify, verify_found, verified,
}

active-append :
    (now : ℕ) (records more : List DeviceTokenRecord)
    → active_count now (records ++ more) ≡ active_count now records + active_count now more
unfolding active_count
active-append now [] more = omega arith
active-append now (r ∷ records) more = ground (arith, active-append now records more)

active-one : (now : ℕ) (r : DeviceTokenRecord) → active_count now (r ∷ []) ≤ 1
unfolding active_count
active-one now r = ground arith

-- Never more tokens are active after an issue than the limit asks for.
pub active_count-issue-le :
    (sign : String → String → String → ℕ → String) (now : ℕ) (id : String) (input : IssueInput)
    → (records records' : List DeviceTokenRecord) (token : DeviceToken)
    → issue sign now id input records ≡ some (records', token)
    → active_count now records' ≤ input.max_devices
unfolding issue
active_count-issue-le sign now id input records records' token h =
    elim (Bool-cases (leb input.max_devices (active_count now (kept_records now records)))) [
      | inl full ↦ absurd (none-ne-some _ (rw full at h))
      | inr free ↦
          let same =
            ap (λ (x : List DeviceTokenRecord × DeviceToken). x.0)
              (some-injective _ _ (rw free at h)) in
          let room : active_count now (kept_records now records) < input.max_devices =
            ground arith in
          subst (λ rs. active_count now rs ≤ input.max_devices) same
            (omega (
              arith,
              active-append now (kept_records now records) (issued_record now id input ∷ []),
              active-one now (issued_record now id input),
              room,
            ))
    ]

same_self : (s : String) → is_same s s ≡ true
same_self s = ground arith

find-keep :
    (id : String) (p : DeviceTokenRecord → Bool) (records : List DeviceTokenRecord)
    → find_record id records ≡ none
    → find_record id (keep p records) ≡ none
unfolding find_record
find-keep id p [] h = refl
find-keep id p (r ∷ records) h = ground (arith, find-keep id p records)

find-append :
    (id : String) (records : List DeviceTokenRecord) (r : DeviceTokenRecord)
    → find_record id records ≡ none
    → r.id ≡ id
    → find_record id (records ++ r ∷ []) ≡ some r
unfolding find_record
find-append id [] r h own = ground arith
find-append id (x ∷ records) r h own = ground (arith, find-append id records r)

accepts :
    (sign : String → String → String → ℕ → String) (later : ℕ) (token : DeviceToken)
    → (records : List DeviceTokenRecord) (r : DeviceTokenRecord)
    → sign token.id r.username r.account_id token.expires_at_seconds ≡ token.given
    → r.expires_at ≡ token.expires_at_seconds * 1000
    → r.revoked_at ≡ none
    → later < r.expires_at
    → (verify_found sign later token records (some r)).1
      ≡ verified (record r { last_used_at = some later })
accepts sign later token records r signed expiry free early =
    let whole : (r.expires_at / 1000 == token.expires_at_seconds) ≡ true = ground arith in
    let in_time : leb (token.expires_at_seconds * 1000) later ≡ false = ground arith in
    rw (signed, same_self token.given, whole, free, in_time) refl

-- A token that was issued under an id that is not in use is taken until the second of its expiry.
pub verify-issue :
    (sign : String → String → String → ℕ → String) (now later : ℕ) (id : String)
    (input : IssueInput)
    → (records records' : List DeviceTokenRecord) (token : DeviceToken)
    → find_record id records ≡ none
    → issue sign now id input records ≡ some (records', token)
    → later < expiry_seconds now input * 1000
    → (verify sign later token records').1
      ≡ verified (record (issued_record now id input) { last_used_at = some later })
unfolding issue verify
verify-issue sign now later id input records records' token unused h early =
    elim (Bool-cases (leb input.max_devices (active_count now (kept_records now records)))) [
      | inl full ↦ absurd (none-ne-some _ (rw full at h))
      | inr free ↦
          let taken =
            find-append id (kept_records now records) (issued_record now id input)
              (find-keep id (λ r. not (is_forgotten now r)) records unused) refl in
          subst
            (λ (p : List DeviceTokenRecord × DeviceToken).
              (verify sign later p.1 p.0).1
              ≡ verified (record (issued_record now id input) { last_used_at = some later }))
            (some-injective _ _ (rw free at h))
            (rw taken (accepts sign later _ _ (issued_record now id input) refl refl refl early))
    ]
