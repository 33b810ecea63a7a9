-- ===== src/Takeover/Evidence.antt =====
-- Which proofs of a stop are sent with the records of a hand-over.
use hydra_umc_server.Json.{Json}
use hydra_umc_server.Prelude.{
  ℕ, ◌-◌, ◌*◌, ◌≤◌, ◌≡◌, refl, String, Option, none, some, Option-cases, inl, inr, List, [], ◌∷◌,
  All, Any, arith, suc, length, lookup, string_discrete,
}
use hydra_umc_server.Takeover.{
  TakeoverSettings, ReplicaRecord, StopEvidence, Proof, Proofs, Flight, in_flight, evidence_of,
  evidence_for, push_some,
}

-- What a piece of evidence stands on: the last stop that was acknowledged for its mission was given by
-- the robot that it names, is young enough, and one of the records says that this robot holds the
-- mission, in flight, on this attempt.
pub record IsJustified (parse : String → Option Json) (settings : TakeoverSettings)
    (proofs : Proofs) (records : List ReplicaRecord) (now : ℕ) (e : StopEvidence) : Type 0 where
  pub proof : Proof
  pub acknowledged : lookup string_discrete e.mission_id proofs ≡ some proof
  pub by_holder : proof.robot_id ≡ e.owner
  pub young : now - proof.at_ms ≤ settings.proof_max_age_seconds * 1000
  pub listed :
      Any
        (λ r.
          in_flight parse r
          ≡ some (record { mission_id = e.mission_id; owner = e.owner; attempt = e.attempt }))
        records

module _ (parse : String → Option Json) (settings : TakeoverSettings) (proofs : Proofs)
    (now : ℕ) where
  evidence_of_sound :
      (r : ReplicaRecord) (records : List ReplicaRecord) (flight : Option Flight) (e : StopEvidence)
      → in_flight parse r ≡ flight
      → evidence_of settings now proofs flight ≡ some e
      → IsJustified parse settings proofs (r ∷ records) now e
  evidence_of_sound r records none e f h = cc
  evidence_of_sound r records (some flight) e f h =
      elim (Option-cases (lookup string_discrete flight.mission_id proofs)) [
        | inl absent ↦ ground arith
        | inr (proof, found) ↦ record {
          proof = proof;
          acknowledged = ground arith;
          by_holder = ground arith;
          young = ground arith;
          listed = inl (ground arith);
        }
      ]

  IsJustified-cons :
      (r : ReplicaRecord) (records : List ReplicaRecord) (e : StopEvidence)
      → IsJustified parse settings proofs records now e
      → IsJustified parse settings proofs (r ∷ records) now e
  IsJustified-cons r records e j = record {
    proof = j.proof;
    acknowledged = j.acknowledged;
    by_holder = j.by_holder;
    young = j.young;
    listed = inr j.listed;
  }

  All-IsJustified-cons :
      (r : ReplicaRecord) (records : List ReplicaRecord) (es : List StopEvidence)
      → All (IsJustified parse settings proofs records now) es
      → All (IsJustified parse settings proofs (r ∷ records) now) es
  All-IsJustified-cons r records [] h = tt
  All-IsJustified-cons r records (e ∷ es) h =
      (IsJustified-cons r records e h.0, All-IsJustified-cons r records es h.1)

  push_some-All :
      (P : StopEvidence → Type 0) (o : Option StopEvidence) (es : List StopEvidence)
      → ((e : StopEvidence) → o ≡ some e → P e)
      → All P es
      → All P (push_some o es)
  push_some-All P none es h k = k
  push_some-All P (some e) es h k = (h e refl, k)

  -- Every piece of evidence that is made for some records is justified.
  pub evidence_for-IsJustified :
      (records : List ReplicaRecord)
      → All
          (IsJustified parse settings proofs records now)
          (evidence_for parse settings proofs records now)
  unfolding evidence_for
  evidence_for-IsJustified [] = tt
  evidence_for-IsJustified (r ∷ records) =
      push_some-All _ (evidence_of settings now proofs (in_flight parse r)) _
        (λ e. evidence_of_sound r records (in_flight parse r) e refl)
        (All-IsJustified-cons r records _ (evidence_for-IsJustified records))

  -- And nothing is left out: a record in flight has its evidence, if the robot that holds the mission
  -- acknowledged the last stop for it, and not too long ago.
  abbrev pub IsCovered : List StopEvidence → ReplicaRecord → Type 0
  IsCovered es r =
      (flight : Flight) (proof : Proof)
      → in_flight parse r ≡ some flight
      → lookup string_discrete flight.mission_id proofs ≡ some proof
      → proof.robot_id ≡ flight.owner
      → now - proof.at_ms ≤ settings.proof_max_age_seconds * 1000
      → Any
          (λ e. e ≡ record {
            owner = flight.owner;
            mission_id = flight.mission_id;
            attempt = flight.attempt;
          })
          es

  Any-push_some :
      (P : StopEvidence → Type 0) (o : Option StopEvidence) (es : List StopEvidence)
      → Any P es
      → Any P (push_some o es)
  Any-push_some P none es h = h
  Any-push_some P (some e) es h = inr h

  IsCovered-push_some :
      (o : Option StopEvidence) (es : List StopEvidence) (records : List ReplicaRecord)
      → All (IsCovered es) records
      → All (IsCovered (push_some o es)) records
  IsCovered-push_some o es [] h = tt
  IsCovered-push_some o es (r ∷ records) h = (
    λ flight proof f a b y. Any-push_some _ o es (h.0 flight proof f a b y),
    IsCovered-push_some o es records h.1,
  )

  evidence_of_complete :
      (flight : Flight) (proof : Proof)
      → lookup string_discrete flight.mission_id proofs ≡ some proof
      → proof.robot_id ≡ flight.owner
      → now - proof.at_ms ≤ settings.proof_max_age_seconds * 1000
      → evidence_of settings now proofs (some flight)
        ≡ some (record {
          owner = flight.owner;
          mission_id = flight.mission_id;
          attempt = flight.attempt;
        })
  evidence_of_complete flight proof found holder young = ground arith

  pub evidence_for-IsCovered :
      (records : List ReplicaRecord)
      → All (IsCovered (evidence_for parse settings proofs records now)) records
  unfolding evidence_for
  evidence_for-IsCovered [] = tt
  evidence_for-IsCovered (r ∷ records) = (
    λ flight proof f found holder young.
        rw (f, evidence_of_complete flight proof found holder young) (inl refl),
    IsCovered-push_some (evidence_of settings now proofs (in_flight parse r)) _ records
        (evidence_for-IsCovered records),
  )

  length-push_some :
      (o : Option StopEvidence) (es : List StopEvidence) → length (push_some o es) ≤ suc (length es)
  length-push_some none es = omega arith
  length-push_some (some e) es = omega arith

  pub length-evidence_for :
      (records : List ReplicaRecord)
      → length (evidence_for parse settings proofs records now) ≤ length records
  unfolding evidence_for
  length-evidence_for [] = omega arith
  length-evidence_for (r ∷ records) = omega (
    arith,
    length-evidence_for records,
    length-push_some (evidence_of settings now proofs (in_flight parse r))
        (evidence_for parse settings proofs records now),
  )
