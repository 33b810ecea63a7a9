-- ===== src/DeviceTokens/Revoke.antt =====
-- A token that was revoked.
use mathlib.Core.Option.{some-injective}
use hydra_umc_server.Prelude.{
  is_same, ℕ, ◌*◌, ◌/◌, ◌++◌, String, Option, none, some, Bool, true, false, List, [], ◌∷◌, All,
  keep, not, leb, ◌==◌, ◌≡◌, refl, arith, if_both, Option-cases, Bool-cases, inl, inr,
}
use hydra_umc_server.DeviceTokens.{
  DeviceTokenRecord, DeviceToken, IssueInput, find_record, update_record, issue, issued_record,
  kept_records, is_forgotten, active_count, revoke, revoke_found, verify, verify_time, verify_found,
  VerifyResult, verified, rejected,
}

abbrev pub IsRejected : VerifyResult → Type 0
IsRejected (verified r) = ⊥
IsRejected (rejected reason) = Unit

abbrev revoked_now : ℕ → DeviceTokenRecord → DeviceTokenRecord
revoked_now now r = record r { revoked_at = some now }

not_both : {b : Bool} → b ≡ true → b ≡ false → ⊥
not_both h k = absurd (grind arith)

-- Every record with that id was revoked.
abbrev pub AllRevoked : String → List DeviceTokenRecord → Type 0
AllRevoked id records =
    All (λ r. is_same r.id id ≡ true → (t : ℕ) × (r.revoked_at ≡ some t)) records

-- No two records have that id.
abbrev pub IsUnique : String → List DeviceTokenRecord → Type 0
IsUnique id [] = Unit
IsUnique id (r ∷ records) =
    (is_same r.id id ≡ true → find_record id records ≡ none) × IsUnique id records

AllRevoked-of_none :
    (id : String) (records : List DeviceTokenRecord)
    → find_record id records ≡ none
    → AllRevoked id records
unfolding find_record
AllRevoked-of_none id [] h = tt
AllRevoked-of_none id (r ∷ records) h =
    ((λ same. absurd (ground arith)), AllRevoked-of_none id records (ground arith))

AllRevoked-of_found :
    (id : String) (records : List DeviceTokenRecord) (r : DeviceTokenRecord) (t : ℕ)
    → IsUnique id records
    → find_record id records ≡ some r
    → r.revoked_at ≡ some t
    → AllRevoked id records
unfolding find_record
AllRevoked-of_found id [] r t u h e = tt
AllRevoked-of_found id (x ∷ records) r t (own, u) h e = elim (Bool-cases (is_same x.id id)) [
  | inl same ↦ (
    (λ _. (t, rw (some-injective _ _ (rw same at h)) e)),
    AllRevoked-of_none id records (own same),
  )
  | inr other ↦ (
    (λ same. absurd (not_both same other)),
    AllRevoked-of_found id records r t u (rw other at h) e,
  )
]

AllRevoked-update :
    (now : ℕ) (id : String) (records : List DeviceTokenRecord)
    → IsUnique id records
    → AllRevoked id (update_record id (revoked_now now) records)
unfolding update_record
AllRevoked-update now id [] u = tt
AllRevoked-update now id (x ∷ records) (own, u) =
    if_both (AllRevoked id) (is_same x.id id)
      (λ same. ((λ _. (now, refl)), AllRevoked-of_none id records (own same)))
      (λ other. ((λ same. absurd (not_both same other)), AllRevoked-update now id records u))

revoke_found-AllRevoked :
    (now : ℕ) (id : String) (records : List DeviceTokenRecord) (o : Option DeviceTokenRecord)
    → IsUnique id records
    → find_record id records ≡ o
    → AllRevoked id (revoke_found now id records o).0
revoke_found-AllRevoked now id records none u h = AllRevoked-of_none id records h
revoke_found-AllRevoked now id records (some r) u h = elim (Option-cases r.revoked_at) [
  | inl free ↦ rw free (AllRevoked-update now id records u)
  | inr (t, gone) ↦ rw gone (AllRevoked-of_found id records r t u h gone)
]

-- A change of a record that leaves its id, and does not take a revocation back.
update_record-AllRevoked :
    (id other : String) (f : DeviceTokenRecord → DeviceTokenRecord)
    → ((r : DeviceTokenRecord) → (f r).id ≡ r.id)
    → ((r : DeviceTokenRecord) (t : ℕ)
        → r.revoked_at ≡ some t
        → (u : ℕ) × ((f r).revoked_at ≡ some u))
    → (records : List DeviceTokenRecord) → AllRevoked id records
    → AllRevoked id (update_record other f records)
unfolding update_record
update_record-AllRevoked id other f named keeps [] h = tt
update_record-AllRevoked id other f named keeps (r ∷ records) (first, h) =
    if_both (AllRevoked id) (is_same r.id other)
      (λ _. ((λ same. let (t, gone) = first (rw (named r) at same) in keeps r t gone), h))
      (λ _. (first, update_record-AllRevoked id other f named keeps records h))

AllRevoked-keep :
    (id : String) (p : DeviceTokenRecord → Bool) (records : List DeviceTokenRecord)
    → AllRevoked id records
    → AllRevoked id (keep p records)
AllRevoked-keep id p [] h = tt
AllRevoked-keep id p (r ∷ records) (first, h) =
    if_both (AllRevoked id) (p r) (λ _. (first, AllRevoked-keep id p records h))
      (λ _. AllRevoked-keep id p records h)

AllRevoked-append :
    (id : String) (records more : List DeviceTokenRecord)
    → AllRevoked id records
    → AllRevoked id more
    → AllRevoked id (records ++ more)
AllRevoked-append id [] more h k = k
AllRevoked-append id (r ∷ records) more (first, h) k =
    (first, AllRevoked-append id records more h k)

find_record-revoked :
    (id : String) (records : List DeviceTokenRecord) (r : DeviceTokenRecord)
    → AllRevoked id records
    → find_record id records ≡ some r
    → (t : ℕ) × (r.revoked_at ≡ some t)
unfolding find_record
find_record-revoked id [] r h e = absurd (cc e)
find_record-revoked id (x ∷ records) r (first, h) e = elim (Bool-cases (is_same x.id id)) [
  | inl same ↦ rw (some-injective _ _ (rw same at e)) at (first same)
  | inr other ↦ find_record-revoked id records r h (rw other at e)
]

-- A call that changes the file.
pub data Call : Type 0 where
  issue_call : ℕ → String → IssueInput → Call
  verify_call : ℕ → DeviceToken → Call
  revoke_call : ℕ → String → Call

-- The call does not issue a token under this id.
abbrev pub IsOther : String → Call → Type 0
IsOther id (issue_call now new input) = is_same new id ≡ false
IsOther id (verify_call now token) = Unit
IsOther id (revoke_call now other) = Unit

abbrev pub after_issue :
    List DeviceTokenRecord → Option (List DeviceTokenRecord × DeviceToken) → List DeviceTokenRecord
after_issue records none = records
after_issue records (some (after, token)) = after

module _ (sign : String → String → String → ℕ → String) where
  unfoldable pub run : List Call → List DeviceTokenRecord → List DeviceTokenRecord
  run [] records = records
  run (issue_call now id input ∷ calls) records =
      run calls (after_issue records (issue sign now id input records))
  run (verify_call now token ∷ calls) records = run calls (verify sign now token records).0
  run (revoke_call now id ∷ calls) records = run calls (revoke now id records).0

  issue-AllRevoked :
      (id new : String) (now : ℕ) (input : IssueInput) (records : List DeviceTokenRecord)
      → is_same new id ≡ false
      → AllRevoked id records
      → AllRevoked id (after_issue records (issue sign now new input records))
  unfolding issue
  issue-AllRevoked id new now input records other h =
      if_both
        (λ (o : Option (List DeviceTokenRecord × DeviceToken)).
          AllRevoked id (after_issue records o))
        (leb input.max_devices (active_count now (kept_records now records))) (λ _. h)
        (λ _.
          AllRevoked-append id (kept_records now records) (issued_record now new input ∷ [])
            (AllRevoked-keep id (λ r. not (is_forgotten now r)) records h)
            ((λ same. absurd (not_both same other)), tt))

  verify_time-AllRevoked :
      (id : String) (now : ℕ) (token : DeviceToken) (records : List DeviceTokenRecord)
      → (r : DeviceTokenRecord) (o : Option ℕ) → AllRevoked id records
      → AllRevoked id (verify_time sign now token records r o).0
  verify_time-AllRevoked id now token records r (some t) h = h
  verify_time-AllRevoked id now token records r none h =
      if_both (λ (v : List DeviceTokenRecord × VerifyResult). AllRevoked id v.0)
        (leb (token.expires_at_seconds * 1000) now) (λ _. h)
        (λ _.
          update_record-AllRevoked id token.id (λ x. record x { last_used_at = some now })
            (λ r. refl) (λ r t gone. (t, gone)) records h)

  verify_found-AllRevoked :
      (id : String) (now : ℕ) (token : DeviceToken) (records : List DeviceTokenRecord)
      → (o : Option DeviceTokenRecord) → AllRevoked id records
      → AllRevoked id (verify_found sign now token records o).0
  verify_found-AllRevoked id now token records none h = h
  verify_found-AllRevoked id now token records (some r) h =
      let Kept = λ (v : List DeviceTokenRecord × VerifyResult). AllRevoked id v.0 in
      if_both Kept
        (not (is_same (sign token.id r.username r.account_id token.expires_at_seconds) token.given))
        (λ _. h)
        (λ _.
          if_both Kept (not (r.expires_at / 1000 == token.expires_at_seconds)) (λ _. h)
            (λ _. verify_time-AllRevoked id now token records r r.revoked_at h))

  revoke-AllRevoked :
      (id other : String) (now : ℕ) (records : List DeviceTokenRecord)
      → (o : Option DeviceTokenRecord) → AllRevoked id records
      → AllRevoked id (revoke_found now other records o).0
  revoke-AllRevoked id other now records none h = h
  revoke-AllRevoked id other now records (some r) h = elim (Option-cases r.revoked_at) [
    | inl free ↦ rw free (
        update_record-AllRevoked id other (revoked_now now) (λ r. refl) (λ r t _. (now, refl))
          records h)
    | inr (t, gone) ↦ rw gone h
  ]

  run-AllRevoked :
      (id : String) (calls : List Call) (records : List DeviceTokenRecord)
      → All (IsOther id) calls
      → AllRevoked id records
      → AllRevoked id (run calls records)
  unfolding run verify revoke
  run-AllRevoked id [] records others h = h
  run-AllRevoked id (issue_call now new input ∷ calls) records (other, others) h =
      run-AllRevoked id calls _ others (issue-AllRevoked id new now input records other h)
  run-AllRevoked id (verify_call now token ∷ calls) records (_, others) h =
      run-AllRevoked id calls _ others (verify_found-AllRevoked id now token records _ h)
  run-AllRevoked id (revoke_call now other ∷ calls) records (_, others) h =
      run-AllRevoked id calls _ others (revoke-AllRevoked id other now records _ h)

  verify-IsRejected :
      (now : ℕ) (token : DeviceToken) (records : List DeviceTokenRecord)
      → (o : Option DeviceTokenRecord) → find_record token.id records ≡ o
      → AllRevoked token.id records
      → IsRejected (verify_found sign now token records o).1
  verify-IsRejected now token records none found h = tt
  verify-IsRejected now token records (some r) found h =
      let (t, gone) = find_record-revoked token.id records r h found in
      let Refused = λ (v : List DeviceTokenRecord × VerifyResult). IsRejected v.1 in
      if_both Refused
        (not (is_same (sign token.id r.username r.account_id token.expires_at_seconds) token.given))
        (λ _. tt)
        (λ _.
          if_both Refused (not (r.expires_at / 1000 == token.expires_at_seconds)) (λ _. tt)
            (λ _. rw gone tt))

  -- Once its id was revoked, a token is never taken, whatever it says and whenever it is shown, however
  -- many calls come in between, if no two records have the id and none of those calls issues a token
  -- under it again.
  pub verify-revoke-IsRejected :
      (now later : ℕ) (token : DeviceToken) (calls : List Call) (records : List DeviceTokenRecord)
      → IsUnique token.id records
      → All (IsOther token.id) calls
      → IsRejected (verify sign later token (run calls (revoke now token.id records).0)).1
  unfolding revoke verify
  verify-revoke-IsRejected now later token calls records unique others =
      verify-IsRejected later token _ _ refl (
        run-AllRevoked token.id calls _ others
          (revoke_found-AllRevoked now token.id records _ unique refl))
