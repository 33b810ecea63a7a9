-- ===== src/Takeover/Proofs.antt =====
-- The proofs that are kept.
use hydra_umc_server.Prelude.{
  Bool, ℕ, zero, suc, ◌≤◌, ◌<◌, ◌≡◌, ◌≢◌, refl, String, none, some, Bool-cases, Option-cases, inl,
  inr, true, false, [], ◌∷◌, length, arith, ltb, lookup, put, delete, string_discrete,
  length-delete-le, lookup-put_self, if◌then◌else◌, if_pos, lookup-delete_ne, put_absent, subst,
  if_both, lookup-delete-some, lookup-put-some, ltb→lt, Any, All, ◌⊎◌, ap, sym, ◌∙◌, ◌++◌,
  length-append,
}
use hydra_umc_server.Takeover.{TakeoverSettings, Proof, Proofs, oldest, evict, record_proof}

-- Every proof stands under its own mission.
abbrev pub AreKeyed : Proofs → Type 0
AreKeyed [] = Unit
AreKeyed (e ∷ proofs) = (e.0 ≡ e.1.job_id) × AreKeyed proofs

oldest-le : (best : Proof) (proofs : Proofs) → (oldest best proofs).at_ms ≤ best.at_ms
unfolding oldest
oldest-le best [] = omega arith
oldest-le best (e ∷ proofs) = ground (arith, oldest-le e.1 proofs, oldest-le best proofs)

abbrev HasKey : String → Proofs → Type 0
HasKey k = Any (λ e. e.0 ≡ k)

oldest_older :
    (best : Proof) (e : String × Proof) (proofs : Proofs)
    → ltb e.1.at_ms best.at_ms ≡ true
    → oldest best (e ∷ proofs) ≡ oldest e.1 proofs
unfolding oldest
oldest_older best e proofs h = ap (λ (b : Bool). oldest (if b then e.1 else best) proofs) h

oldest_newer :
    (best : Proof) (e : String × Proof) (proofs : Proofs)
    → ltb e.1.at_ms best.at_ms ≡ false
    → oldest best (e ∷ proofs) ≡ oldest best proofs
unfolding oldest
oldest_newer best e proofs h = ap (λ (b : Bool). oldest (if b then e.1 else best) proofs) h

oldest-HasKey :
    (best : Proof) (proofs : Proofs)
    → AreKeyed proofs
    → (oldest best proofs ≡ best) ⊎ HasKey (oldest best proofs).job_id proofs
oldest-HasKey best [] k = inl (unfold oldest in refl)
oldest-HasKey best (e ∷ proofs) k = elim (Bool-cases (ltb e.1.at_ms best.at_ms)) [
  | inl older ↦
      subst (λ (p : Proof). (p ≡ best) ⊎ HasKey p.job_id (e ∷ proofs))
        (sym (oldest_older best e proofs older))
        (elim (oldest-HasKey e.1 proofs k.1) [
          | inl same ↦ inr (inl (k.0 ∙ ap (λ (p : Proof). p.job_id) (sym same)))
          | inr later ↦ inr (inr later)
        ])
  | inr newer ↦
      subst (λ (p : Proof). (p ≡ best) ⊎ HasKey p.job_id (e ∷ proofs))
        (sym (oldest_newer best e proofs newer))
        (elim (oldest-HasKey best proofs k.1) [ inl same ↦ inl same | inr later ↦ inr (inr later) ])
]

oldest_cons-HasKey :
    (e : String × Proof) (proofs : Proofs)
    → AreKeyed (e ∷ proofs)
    → HasKey (oldest e.1 proofs).job_id (e ∷ proofs)
oldest_cons-HasKey e proofs k = elim (oldest-HasKey e.1 proofs k.1) [
  | inl same ↦ inl (k.0 ∙ ap (λ (p : Proof). p.job_id) (sym same))
  | inr later ↦ inr later
]

delete-HasKey :
    (k : String) (proofs : Proofs)
    → HasKey k proofs
    → length (delete string_discrete k proofs) < length proofs
unfolding delete
delete-HasKey k [] h = absurd h
delete-HasKey k (e ∷ proofs) (inl here) =
    rw (if_pos _ (sym here)) (omega (arith, length-delete-le string_discrete k proofs))
delete-HasKey k (e ∷ proofs) (inr later) =
    ground (arith, delete-HasKey k proofs later, length-delete-le string_discrete k proofs)

delete-AreKeyed :
    (k : String) (proofs : Proofs) → AreKeyed proofs → AreKeyed (delete string_discrete k proofs)
unfolding delete
delete-AreKeyed k [] h = tt
delete-AreKeyed k (e ∷ proofs) h = ground (arith, delete-AreKeyed k proofs h.1)

put-AreKeyed :
    (proof : Proof) (proofs : Proofs)
    → AreKeyed proofs
    → AreKeyed (put string_discrete proof.job_id proof proofs)
unfolding put
put-AreKeyed proof [] h = (refl, tt)
put-AreKeyed proof (e ∷ proofs) h = ground (arith, put-AreKeyed proof proofs h.1)

length-evict :
    (fuel most : ℕ) (proofs : Proofs)
    → AreKeyed proofs
    → length proofs ≤ fuel
    → length (evict fuel most proofs) ≤ most
unfolding evict
length-evict zero most [] k h = omega arith
length-evict zero most (e ∷ proofs) k h = absurd (omega arith)
length-evict (suc fuel) most [] k h = omega arith
length-evict (suc fuel) most (e ∷ proofs) k h =
    let gone = (oldest e.1 proofs).job_id in
    let shorter = delete-HasKey gone (e ∷ proofs) (oldest_cons-HasKey e proofs k) in
    let rest =
      length-evict fuel most (delete string_discrete gone (e ∷ proofs))
        (delete-AreKeyed gone (e ∷ proofs) k) (omega arith) in
    elim (Bool-cases (ltb most (length (e ∷ proofs)))) [
      | inl many ↦ rw many rest
      | inr few ↦ rw few (ground arith)
    ]

evict-AreKeyed :
    (fuel most : ℕ) (proofs : Proofs) → AreKeyed proofs → AreKeyed (evict fuel most proofs)
unfolding evict
evict-AreKeyed zero most proofs k = k
evict-AreKeyed (suc fuel) most [] k = k
evict-AreKeyed (suc fuel) most (e ∷ proofs) k =
    let gone = (oldest e.1 proofs).job_id in
    let rest = evict-AreKeyed fuel most _ (delete-AreKeyed gone (e ∷ proofs) k) in
    elim (Bool-cases (ltb most (length (e ∷ proofs)))) [
      | inl many ↦ rw many rest
      | inr few ↦ rw few k
    ]

HasKey-append : (k : String) (proofs more : Proofs) → HasKey k proofs → HasKey k (proofs ++ more)
HasKey-append k [] more h = absurd h
HasKey-append k (e ∷ proofs) more (inl here) = inl here
HasKey-append k (e ∷ proofs) more (inr later) = inr (HasKey-append k proofs more later)

-- A proof that is not older than the others is not the one that goes.
oldest_append :
    (best new : Proof) (proofs : Proofs)
    → best.at_ms ≤ new.at_ms
    → oldest best (proofs ++ (new.job_id, new) ∷ []) ≡ oldest best proofs
unfolding oldest
oldest_append best new [] h = ground arith
oldest_append best new (e ∷ proofs) h =
    ground (arith, oldest_append e.1 new proofs, oldest_append best new proofs)

HasKey-absent :
    (k j : String) (proofs : Proofs)
    → HasKey k proofs
    → lookup string_discrete j proofs ≡ none
    → j ≢ k
unfolding lookup
HasKey-absent k j [] h a = absurd h
HasKey-absent k j (e ∷ proofs) (inl here) a = λ same. ground arith
HasKey-absent k j (e ∷ proofs) (inr later) a = HasKey-absent k j proofs later (ground arith)

evict_few :
    (fuel most : ℕ) (proofs : Proofs) → length proofs ≤ most → evict fuel most proofs ≡ proofs
unfolding evict
evict_few zero most proofs h = refl
evict_few (suc fuel) most [] h = refl
evict_few (suc fuel) most (e ∷ proofs) h =
    let few : ltb most (length (e ∷ proofs)) ≡ false = ground arith in rw few refl

evict_many :
    (fuel most : ℕ) (e : String × Proof) (proofs : Proofs)
    → most < length (e ∷ proofs)
    → evict (suc fuel) most (e ∷ proofs)
      ≡ evict fuel most (delete string_discrete (oldest e.1 proofs).job_id (e ∷ proofs))
unfolding evict
evict_many fuel most e proofs h =
    let many : ltb most (length (e ∷ proofs)) ≡ true = ground arith in rw many refl

lookup-append_newest :
    (new : Proof) (proofs : Proofs)
    → lookup string_discrete new.job_id proofs ≡ none
    → lookup string_discrete new.job_id (proofs ++ (new.job_id, new) ∷ []) ≡ some new
lookup-append_newest new proofs a =
    rw (← put_absent string_discrete new.job_id new proofs a)
      (lookup-put_self string_discrete new.job_id new proofs)

-- One more proof than there was, at the end, which is not older than the others.
evict_newest :
    (fuel most : ℕ) (proofs : Proofs) (new : Proof)
    → AreKeyed proofs
    → All (λ e. e.1.at_ms ≤ new.at_ms) proofs
    → lookup string_discrete new.job_id proofs ≡ none
    → length proofs ≤ most
    → 1 ≤ most
    → length proofs < fuel
    → lookup string_discrete new.job_id (evict fuel most (proofs ++ (new.job_id, new) ∷ []))
      ≡ some new
evict_newest zero most proofs new k old a few one enough = absurd (omega arith)
evict_newest (suc fuel) most [] new k old a few one enough =
    rw (evict_few (suc fuel) most ((new.job_id, new) ∷ []) (omega arith))
      (lookup-append_newest new [] a)
evict_newest (suc fuel) most (e ∷ proofs) new k old a few one enough =
    let all = (e ∷ proofs) ++ (new.job_id, new) ∷ [] in
    let gone = (oldest e.1 proofs).job_id in
    let longer = length-append (e ∷ proofs) ((new.job_id, new) ∷ []) in
    let kept = lookup-append_newest new (e ∷ proofs) a in
    elim (Bool-cases (ltb most (length all))) [
      | inr room ↦ rw (evict_few (suc fuel) most all (ground arith)) kept
      | inl many ↦
          let has = oldest_cons-HasKey e proofs k in
          let other = HasKey-absent gone new.job_id (e ∷ proofs) has a in
          let shorter = delete-HasKey gone all (HasKey-append gone (e ∷ proofs) _ has) in
          rw
            (
              evict_many fuel most e (proofs ++ (new.job_id, new) ∷ []) (ltb→lt _ _ many),
              oldest_append e.1 new proofs old.0,
              evict_few fuel most (delete string_discrete gone all) (omega arith),
              lookup-delete_ne string_discrete gone all other,
            )
            kept
    ]

length-put_present :
    (k : String) (new before : Proof) (proofs : Proofs)
    → lookup string_discrete k proofs ≡ some before
    → length (put string_discrete k new proofs) ≡ length proofs
unfolding lookup put
length-put_present k new before [] h = cc
length-put_present k new before (e ∷ proofs) h =
    ground (arith, length-put_present k new before proofs)

-- A proof that is recorded is kept, and there are never more than the settings allow, the oldest
-- going first: if every proof stands under its own mission, none is from the future and there were not
-- too many before.
pub record_proof-keeps :
    (settings : TakeoverSettings) (now : ℕ) (job_id robot_id : String) (proofs : Proofs)
    → AreKeyed proofs
    → All (λ e. e.1.at_ms ≤ now) proofs
    → length proofs ≤ settings.max_proofs
    → 1 ≤ settings.max_proofs
    → (lookup string_discrete job_id (record_proof settings now job_id robot_id proofs)
        ≡ some (record { job_id = job_id; robot_id = robot_id; at_ms = now }))
      × (length (record_proof settings now job_id robot_id proofs) ≤ settings.max_proofs)
      × AreKeyed (record_proof settings now job_id robot_id proofs)
unfolding record_proof
record_proof-keeps settings now job_id robot_id proofs k old few one =
    let new : Proof = record { job_id = job_id; robot_id = robot_id; at_ms = now } in
    let keyed = put-AreKeyed new proofs k in
    let added = put string_discrete job_id new proofs in
    (
      elim (Option-cases (lookup string_discrete job_id proofs)) [
        | inl absent ↦ rw (put_absent string_discrete job_id new proofs absent) (
            evict_newest (length (proofs ++ (job_id, new) ∷ [])) settings.max_proofs proofs new k
              old absent few one (omega (arith, length-append proofs ((job_id, new) ∷ []))))
        | inr (before, found) ↦
            rw
              (evict_few (length added) settings.max_proofs added
                (omega (arith, length-put_present job_id new before proofs found)))
              (lookup-put_self string_discrete job_id new proofs)
      ],
      length-evict (length added) settings.max_proofs added keyed (omega arith),
      evict-AreKeyed (length added) settings.max_proofs added keyed,
    )

lookup-evict :
    (fuel most : ℕ) (proofs : Proofs) (k : String) (p : Proof)
    → lookup string_discrete k (evict fuel most proofs) ≡ some p
    → lookup string_discrete k proofs ≡ some p
unfolding evict
lookup-evict zero most proofs k p h = h
lookup-evict (suc fuel) most [] k p h = h
lookup-evict (suc fuel) most (e ∷ proofs) k p h =
    let gone = (oldest e.1 proofs).job_id in
    if_both
      (λ (m : Proofs).
        lookup string_discrete k m ≡ some p → lookup string_discrete k (e ∷ proofs) ≡ some p)
      (ltb most (length (e ∷ proofs)))
      (λ many h'.
        lookup-delete-some string_discrete gone k (e ∷ proofs)
          (lookup-evict fuel most (delete string_discrete gone (e ∷ proofs)) k p h'))
      (λ few h'. h') h

-- A proof that is held after one was recorded is that one, or it was held before.
pub lookup-record_proof :
    (settings : TakeoverSettings) (now : ℕ) (job_id robot_id k : String) (proofs : Proofs)
    (p : Proof)
    → lookup string_discrete k (record_proof settings now job_id robot_id proofs) ≡ some p
    → ((k ≡ job_id) × (p ≡ record { job_id = job_id; robot_id = robot_id; at_ms = now }))
      ⊎ (lookup string_discrete k proofs ≡ some p)
unfolding record_proof
lookup-record_proof settings now job_id robot_id k proofs p h =
    let added : Proof = record { job_id = job_id; robot_id = robot_id; at_ms = now } in
    lookup-put-some string_discrete job_id k added proofs
      (lookup-evict (length (put string_discrete job_id added proofs)) settings.max_proofs _ k p h)
