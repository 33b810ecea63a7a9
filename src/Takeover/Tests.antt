-- ===== src/Takeover/Tests.antt =====
-- The hand-over at concrete inputs.
use hydra_umc_server.Json.{Json, whole, null, num, str, obj, end, field, get}
use hydra_umc_server.Prelude.{
  ℕ, ◌≤◌, ◌≡◌, refl, String, Option, none, some, List, [], ◌∷◌, All, arith, ite, string_discrete,
  lookup, put, delete,
}
use hydra_umc_server.Takeover.{
  TakeoverSettings, ReplicaRecord, Proof, Proofs, Snapshot, Takeover, World, HttpAnswer, get_health,
  post_takeover, tick, run, record_proof, watching, evidence_for, in_flight, silent, deliver,
  deliver_snapshot, post,
}
use hydra_umc_server.Takeover.Delivery.{IsAllowed, tick-IsAllowed}
use hydra_umc_server.Takeover.Outage.{posts, posts-run-le}

abbrev mission : Json
mission = obj (
    field "status" (str "running") (
      field "mission_id" (str "m1")
        (field "owner" (str "r7") (field "attempt" (num (whole 2)) end))))

-- A parser that knows one text.
abbrev parse : String → Option Json
parse s = ite (string_discrete s "m1-text") (some mission) none

abbrev settings : TakeoverSettings
settings = record {
  failures_before_takeover = 3;
  max_snapshot_age_seconds = 60;
  proof_max_age_seconds = 3600;
  max_proofs = 2;
  max_delivery_attempts = 5;
  retry_seconds = 10;
}

abbrev replica_record : ReplicaRecord
replica_record = record { key = "missions/m1"; value = "m1-text"; generation = whole 4 }

abbrev last_replica : Snapshot
last_replica = record { records = replica_record ∷ []; at_ms = 90000 }

abbrev stop_proof : Proof
stop_proof = record { job_id = "m1"; robot_id = "r7"; at_ms = 80000 }

-- The primary was silent at 100 s and at 105 s.
abbrev silent_twice : Takeover
silent_twice = record {
  proofs = ("m1", stop_proof) ∷ [];
  snapshot = some last_replica;
  failures = 2;
  silent_since_ms = some 100000;
  attempts = 0;
  next_attempt_ms = 0;
  state = watching;
}

abbrev answers : ℕ → Option HttpAnswer → World
answers now takeover = record {
  now = now;
  health = none;
  replica = none;
  replica_at = now;
  takeover = takeover;
}

abbrev taken : Option HttpAnswer
taken = some (record { status = 200; json = null })

evidence_sent :
    (tick parse settings (answers 110000 taken) silent_twice).1
    ≡ get_health
      ∷ post_takeover
          (replica_record ∷ [])
          (record { owner = "r7"; mission_id = "m1"; attempt = 2 } ∷ [])
      ∷ []
unfolding tick silent deliver deliver_snapshot post evidence_for in_flight get lookup
    string_discrete
evidence_sent = refl

tick-IsAllowed_example :
    All
      (IsAllowed parse settings (answers 110000 taken) silent_twice)
      (tick parse settings (answers 110000 taken) silent_twice).1
tick-IsAllowed_example = tick-IsAllowed parse settings (answers 110000 taken) silent_twice

abbrev outage : List World
outage = answers 110000 none ∷ answers 121000 none ∷ answers 132000 taken ∷ answers 143000 none ∷ []

posts-run-le_example : posts (run parse settings outage silent_twice).1 ≤ 5
posts-run-le_example =
    posts-run-le parse settings outage silent_twice (refl, (refl, (refl, (refl, tt)))) refl
      (omega arith)

-- The primary answered until now.
abbrev watch : Takeover
watch = record silent_twice { failures = 0; silent_since_ms = none }

abbrev two_silent : List World
two_silent = answers 100000 none ∷ answers 105000 none ∷ []

abbrev two_proofs : Proofs
two_proofs =
    ("m1", stop_proof) ∷ ("m2", record { job_id = "m2"; robot_id = "r8"; at_ms = 70000 }) ∷ []

oldest_goes :
    record_proof settings 95000 "m3" "r9" two_proofs
    ≡ ("m1", stop_proof) ∷ ("m3", record { job_id = "m3"; robot_id = "r9"; at_ms = 95000 }) ∷ []
unfolding record_proof put delete string_discrete
oldest_goes = refl
