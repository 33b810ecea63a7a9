-- ===== src/Takeover/OnTime.antt =====
-- That the hand-over is made, and when.
use hydra_umc_server.Json.{Json}
use hydra_umc_server.Prelude.{
  ℕ, ◌≡◌, String, Option, List, [], ◌∷◌, keep, take, length, leb, if◌then◌else◌,
}
use hydra_umc_server.Takeover.{
  TakeoverSettings, ReplicaRecord, StopEvidence, Snapshot, Proofs, Takeover, World, Request,
  get_health, get_replica, post_takeover, is_open, evidence_for, orchestrator_max_items, delivered,
}

-- What was posted to the standby among the requests that were sent.
abbrev pub posted : List Request → List (List ReplicaRecord × List StopEvidence)
posted [] = []
posted (post_takeover records evidence ∷ sent) = (records, evidence) ∷ posted sent
posted (get_health ∷ sent) = posted sent
posted (get_replica ∷ sent) = posted sent

-- The time of the first of these checks.
abbrev pub first_time : List World → World → ℕ
first_time [] w = w.now
first_time (v ∷ ws) w = v.now

-- The outcome of some checks: delivered, by one request, with these records and their evidence.
abbrev pub IsDelivered : List ReplicaRecord → List StopEvidence → Takeover × List Request → Type 0
IsDelivered records evidence r = (r.0.state ≡ delivered) × (posted r.1 ≡ (records, evidence) ∷ [])

module _ (parse : String → Option Json) (settings : TakeoverSettings) where
  -- All records where they are not too many, else those of missions in flight or queued.
  abbrev pub to_send : List ReplicaRecord → List ReplicaRecord
  to_send records =
      if leb (length records) orchestrator_max_items then records else keep (is_open parse) records

  abbrev pub evidence_sent : Proofs → List ReplicaRecord → ℕ → List StopEvidence
  evidence_sent proofs records now =
      take orchestrator_max_items (evidence_for parse settings proofs records now)

  -- What the hand-over of the snapshot is at this time.
  abbrev IsHandedOver : World → Takeover → Snapshot → Takeover × List Request → Type 0
  IsHandedOver w t s r =
      IsDelivered (to_send s.records) (evidence_sent t.proofs (to_send s.records) w.now) r
