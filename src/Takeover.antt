-- ===== src/Takeover.antt =====
-- src/orchestratorTakeover.ts: the hand-over of the missions to a standby orchestrator.
-- Times are milliseconds and settings are whole numbers. `JSON.parse` is the argument `parse`, `none`
-- where it throws. One call of `tick` gets the answers of the orchestrators in a `World`, and gives
-- the requests that it sent.
pub mod Proofs
pub mod Evidence
pub mod Delivery
pub mod Outage
pub mod OnTime
mod Tests
use hydra_umc_server.Json.{Json, Number, get, as_string, as_whole, as_number, as_array}
use hydra_umc_server.Prelude.{
  ℕ, zero, suc, ◌+◌, ◌-◌, ◌*◌, String, Option, none, some, Bool, true, false, ◌&&◌, ◌||◌, List, [],
  ◌∷◌, length, take, keep, ◌++◌, not, ltb, leb, ◌==◌, if◌then◌else◌, lookup, put, delete,
  string_discrete, ite,
}

abbrev pub orchestrator_max_items : ℕ
orchestrator_max_items = 5000

pub record TakeoverSettings : Type 0 where
  pub failures_before_takeover : ℕ
  pub max_snapshot_age_seconds : ℕ
  pub proof_max_age_seconds : ℕ
  pub max_proofs : ℕ
  pub max_delivery_attempts : ℕ
  pub retry_seconds : ℕ

pub record ReplicaRecord : Type 0 where
  pub key : String
  pub value : String
  pub generation : Number

pub record StopEvidence : Type 0 where
  pub owner : String
  pub mission_id : String
  pub attempt : ℕ

pub record Proof : Type 0 where
  pub job_id : String
  pub robot_id : String
  pub at_ms : ℕ

abbrev pub Proofs : Type 0
Proofs = List (String × Proof)

pub data TakeoverState : Type 0 where
  watching primary_silent delivered gave_up refused : TakeoverState

pub record Snapshot : Type 0 where
  pub records : List ReplicaRecord
  pub at_ms : ℕ

pub record Takeover : Type 0 where
  pub proofs : Proofs
  pub snapshot : Option Snapshot
  pub failures : ℕ
  pub silent_since_ms : Option ℕ
  pub attempts : ℕ
  pub next_attempt_ms : ℕ
  pub state : TakeoverState

-- `[...proofs].sort(by time)[0]`: the first of the oldest.
pub oldest : Proof → Proofs → Proof
oldest best [] = best
oldest best (e ∷ proofs) = oldest (if ltb e.1.at_ms best.at_ms then e.1 else best) proofs

-- The `while` loop of `recordProof`, one round for each unit of fuel.
pub evict : ℕ → ℕ → Proofs → Proofs
unfolding oldest
evict zero max_proofs proofs = proofs
evict (suc fuel) max_proofs [] = []
evict (suc fuel) max_proofs (e ∷ proofs) =
    let rest =
      evict fuel max_proofs (delete string_discrete (oldest e.1 proofs).job_id (e ∷ proofs)) in
    if ltb max_proofs (length (e ∷ proofs)) then rest else e ∷ proofs

unfoldable pub record_proof : TakeoverSettings → ℕ → String → String → Proofs → Proofs
unfolding evict
record_proof settings now job_id robot_id proofs =
    let proof : Proof = record { job_id = job_id; robot_id = robot_id; at_ms = now } in
    let added = put string_discrete job_id proof proofs in
    evict (length added) settings.max_proofs added

pub record Flight : Type 0 where
  pub mission_id : String
  pub owner : String
  pub attempt : ℕ

abbrev pub is_status : String → Option String → Bool
is_status wanted none = false
is_status wanted (some s) = ite (string_discrete s wanted) true false

-- The last tests of `inFlight`: an id, a holder, and an attempt that is a whole number from 0 up.
abbrev pub flight_of : Option String → Option String → Option ℕ → Option Flight
flight_of (some mission_id) (some owner) (some attempt) =
    some (record { mission_id = mission_id; owner = owner; attempt = attempt })
flight_of _ _ _ = none

abbrev pub flight_in : Json → Option Flight
flight_in v =
    let status = as_string (get "status" v) in
    if is_status "assigned" status || is_status "running" status
    then flight_of (as_string (get "mission_id" v)) (as_string (get "owner" v))
        (as_whole (get "attempt" v))
    else none

module _ (parse : String → Option Json) where
  pub in_flight : ReplicaRecord → Option Flight
  in_flight r = elim (parse r.value) [ none ↦ none | some v ↦ flight_in v ]

  abbrev pub is_open_flight : Option Flight → Option Json → Bool
  is_open_flight (some flight) v = true
  is_open_flight none none = false
  is_open_flight none (some v) = is_status "queued" (as_string (get "status" v))

  -- A mission that is in flight or queued.
  pub is_open : ReplicaRecord → Bool
  is_open r = is_open_flight (in_flight r) (parse r.value)

abbrev pub applies : TakeoverSettings → ℕ → Flight → Option Proof → Bool
applies settings now flight none = false
applies settings now flight (some proof) =
    not (ltb (settings.proof_max_age_seconds * 1000) (now - proof.at_ms))
    && ite (string_discrete proof.robot_id flight.owner) true false

abbrev pub evidence_of : TakeoverSettings → ℕ → Proofs → Option Flight → Option StopEvidence
evidence_of settings now proofs none = none
evidence_of settings now proofs (some flight) =
    if applies settings now flight (lookup string_discrete flight.mission_id proofs)
    then some
        (record { owner = flight.owner; mission_id = flight.mission_id; attempt = flight.attempt })
    else none

abbrev pub push_some : Option StopEvidence → List StopEvidence → List StopEvidence
push_some none es = es
push_some (some e) es = e ∷ es

-- An answer of an orchestrator; `none` in its place is a call that failed.
pub record HttpAnswer : Type 0 where
  pub status : ℕ
  pub json : Json

abbrev pub record_of : Option String → Option String → Option Number → Option ReplicaRecord
record_of (some key) (some value) (some generation) =
    some (record { key = key; value = value; generation = generation })
record_of _ _ _ = none

-- `isRecord`
pub as_record : Json → Option ReplicaRecord
as_record v =
    record_of (as_string (get "key" v)) (as_string (get "value" v)) (as_number (get "generation" v))

abbrev pub cons_record :
    Option ReplicaRecord → Option (List ReplicaRecord) → Option (List ReplicaRecord)
cons_record (some r) (some rs) = some (r ∷ rs)
cons_record _ _ = none

-- `records.every(isRecord)`
pub as_records : List Json → Option (List ReplicaRecord)
unfolding as_record
as_records [] = some []
as_records (v ∷ vs) = cons_record (as_record v) (as_records vs)

pub data Request : Type 0 where
  get_health get_replica : Request
  post_takeover : List ReplicaRecord → List StopEvidence → Request

-- What the orchestrators answer during one tick, and when the replica arrives.
pub record World : Type 0 where
  pub now : ℕ
  pub health : Option HttpAnswer
  pub replica : Option HttpAnswer
  pub replica_at : ℕ
  pub takeover : Option HttpAnswer

abbrev pub is_ok : Option HttpAnswer → Bool
is_ok none = false
is_ok (some a) = a.status == 200

abbrev pub is_refusal : Option HttpAnswer → Bool
is_refusal none = false
is_refusal (some a) = a.status == 404 || a.status == 401 || a.status == 403 || a.status == 400

abbrev pub keep_replica : Takeover → ℕ → Option (List ReplicaRecord) → Takeover
keep_replica t at none = t
keep_replica t at (some rs) = record t { snapshot = some (record { records = rs; at_ms = at }) }

abbrev pub replica_of : Option (List Json) → Option (List ReplicaRecord)
replica_of none = none
replica_of (some vs) = as_records vs

pub refresh_snapshot : World → Takeover → Takeover
unfolding as_records
refresh_snapshot w t = elim w.replica [
  | none ↦ t
  | some a ↦
      if not (a.status == 200)
      then t
      else keep_replica t w.replica_at (replica_of (as_array (get "records" a.json)))
]

abbrev pub reset : Takeover → Takeover
reset t = record t {
  failures = 0;
  silent_since_ms = none;
  attempts = 0;
  next_attempt_ms = 0;
  state = watching;
}

abbrev pub or_now : Option ℕ → ℕ → ℕ
or_now none t = t
or_now (some since) t = since

abbrev pub count_silence : World → Takeover → Takeover
count_silence w t = record t {
  failures = t.failures + 1;
  silent_since_ms = some (or_now t.silent_since_ms w.now);
}

abbrev pub stay_silent : Takeover → Takeover
stay_silent t = record t { state = primary_silent }

-- The answer of the standby; `attempts` already counts the request.
pub after_post : TakeoverSettings → World → Takeover → Takeover
after_post settings w t =
    if is_ok w.takeover
    then record t { state = delivered }
    else if is_refusal w.takeover
    then record t { state = refused }
    else if leb settings.max_delivery_attempts t.attempts
    then record t { state = gave_up }
    else record t { next_attempt_ms = w.now + settings.retry_seconds * 1000 }

abbrev pub is_done : TakeoverState → Bool
is_done delivered = true
is_done gave_up = true
is_done refused = true
is_done _ = false

module _ (parse : String → Option Json) (settings : TakeoverSettings) where
  pub evidence_for : Proofs → List ReplicaRecord → ℕ → List StopEvidence
  evidence_for proofs [] now = []
  evidence_for proofs (r ∷ records) now =
      push_some (evidence_of settings now proofs (in_flight parse r))
        (evidence_for proofs records now)

  -- The records to send, and the request.
  pub post : World → List ReplicaRecord → Takeover → Takeover × List Request
  unfolding after_post
  post w records t =
      let evidence = take orchestrator_max_items (evidence_for t.proofs records w.now) in
      (
        after_post settings w (record t { attempts = t.attempts + 1 }),
        post_takeover records evidence ∷ [],
      )

  pub deliver_snapshot : World → Snapshot → Takeover → Takeover × List Request
  unfolding post
  deliver_snapshot w s t =
      if ltb (settings.max_snapshot_age_seconds * 1000) (or_now t.silent_since_ms w.now - s.at_ms)
      then (record t { state = refused }, [])
      else if not (ltb orchestrator_max_items (length s.records))
      then post w s.records t
      else if ltb orchestrator_max_items (length (keep (is_open parse) s.records))
      then (record t { state = refused }, [])
      else post w (keep (is_open parse) s.records) t

  pub deliver : World → Takeover → Takeover × List Request
  unfolding deliver_snapshot
  deliver w t = elim t.snapshot [
    | none ↦ (record t { state = refused }, [])
    | some s ↦ deliver_snapshot w s t
  ]

  -- A check that got no answer 200.
  pub silent : World → Takeover → Takeover × List Request
  unfolding deliver
  silent w t =
      let counted = count_silence w t in
      if ltb counted.failures settings.failures_before_takeover
      then (counted, [])
      else if ltb w.now t.next_attempt_ms
      then (stay_silent counted, [])
      else deliver w (stay_silent counted)

  abbrev pub also : List Request → Takeover × List Request → Takeover × List Request
  also requests (t, more) = (t, requests ++ more)

  pub tick : World → Takeover → Takeover × List Request
  unfolding silent refresh_snapshot
  tick w t =
      if is_done t.state
      then (if is_ok w.health
          then (refresh_snapshot w (reset t), get_health ∷ get_replica ∷ [])
          else (t, get_health ∷ []))
      else if is_ok w.health
      then (
        refresh_snapshot w
            (record t { failures = 0; silent_since_ms = none; attempts = 0; state = watching }),
        get_health ∷ get_replica ∷ [],
      )
      else also (get_health ∷ []) (silent w t)

  -- One tick after the other, with all the requests that were sent.
  pub run : List World → Takeover → Takeover × List Request
  unfolding tick
  run [] t = (t, [])
  run (w ∷ ws) t = let (t', sent) = tick w t in also sent (run ws t')
