-- ===== src/StopRelay/HandOver.antt =====
-- src/server.ts, line 690: what the relay tells the hand-over. A proof that the hand-over holds was
-- given by a robot that was stopped.
use hydra_umc_server.Prelude.{
  ℕ, ◌≡◌, ◌⊎◌, inl, inr, String, some, List, [], ◌∷◌, ◌++◌, Any, lookup, string_discrete, arith,
  subst, true,
}
use hydra_umc_server.Takeover.{TakeoverSettings, Proof, Proofs, record_proof}
use hydra_umc_server.Takeover.Proofs.{lookup-record_proof}
use hydra_umc_server.StopRelay.{
  StopRelaySettings, StopRequest, Action, stop_robot, post_stop_ack, on_acknowledged, Answers,
  JobStopRelay, pass_over,
}
use hydra_umc_server.StopRelay.Stops.{
  IsDeliverable, Trace, idle, not_stopped, not_taken, taken, pass_over-Trace,
}

-- `onAcknowledged: (jobId, robotId) => orchestratorTakeover?.recordProof(jobId, robotId)`
unfoldable pub record_acks : TakeoverSettings → ℕ → List Action → Proofs → Proofs
record_acks settings now [] proofs = proofs
record_acks settings now (on_acknowledged job_id robot_id ∷ actions) proofs =
    record_acks settings now actions (record_proof settings now job_id robot_id proofs)
record_acks settings now (other ∷ actions) proofs = record_acks settings now actions proofs

-- A proof comes from the last word of the relay on its job, or it was there before.
record_acks-origin :
    (settings : TakeoverSettings) (now : ℕ) (actions : List Action) (proofs : Proofs)
    (job_id : String) (p : Proof)
    → lookup string_discrete job_id (record_acks settings now actions proofs) ≡ some p
    → Any (λ x. x ≡ on_acknowledged job_id p.robot_id) actions
      ⊎ (lookup string_discrete job_id proofs ≡ some p)
unfolding record_acks
record_acks-origin settings now [] proofs job_id p h = inr h
record_acks-origin settings now (on_acknowledged job robot ∷ actions) proofs job_id p h =
    elim (record_acks-origin settings now actions _ job_id p h) [
      | inl told ↦ inl (inr told)
      | inr held ↦ elim (lookup-record_proof settings now job robot job_id proofs p held) [
        | inl e ↦ inl (inl (ground arith))
        | inr before ↦ inr before
      ]
    ]
record_acks-origin settings now (stop_robot n ∷ actions) proofs job_id p h =
    elim (record_acks-origin settings now actions proofs job_id p h) [
      | inl told ↦ inl (inr told)
      | inr before ↦ inr before
    ]
record_acks-origin settings now (post_stop_ack robot job ∷ actions) proofs job_id p h =
    elim (record_acks-origin settings now actions proofs job_id p h) [
      | inl told ↦ inl (inr told)
      | inr before ↦ inr before
    ]

-- A stop of the robot `n` that was applied, for a request that names the job and the robot, and that
-- the dispatcher took as acknowledged.
pub record IsStopped (settings : StopRelaySettings) (a : Answers) (rs : List StopRequest)
    (job_id robot_id : String) : Type 0 where
  pub request : StopRequest
  pub robot : ℕ
  pub listed : Any (λ q. q ≡ request) rs
  pub job : request.job_id ≡ job_id
  pub named : request.robot_id ≡ robot_id
  pub deliverable : IsDeliverable settings a request robot
  pub applied : a.is_stopped robot ≡ true
  pub answered : (a.ack request ≡ some 200) ⊎ (a.ack request ≡ some 409)

module _ (settings : StopRelaySettings) (a : Answers) (rs : List StopRequest)
    (job_id robot_id : String) where
  abbrev Told : List Action → Type 0
  Told = Any (λ x. x ≡ on_acknowledged job_id robot_id)

  Told-append : (xs ys : List Action) → Told (xs ++ ys) → Told xs ⊎ Told ys
  Told-append [] ys h = inr h
  Told-append (x ∷ xs) ys (inl h) = inl (inl h)
  Told-append (x ∷ xs) ys (inr h) = elim (Told-append xs ys h) [
    | inl t ↦ inl (inr t)
    | inr t ↦ inr t
  ]

  Trace-IsStopped :
      {all : List Action}
      → Trace settings a rs all
      → Told all
      → IsStopped settings a rs job_id robot_id
  Trace-IsStopped idle h = absurd h
  Trace-IsStopped (not_stopped {done} r n t listed d e) h =
      elim (Told-append done _ (subst Told e h)) [
        | inl before ↦ Trace-IsStopped t before
        | inr now ↦ ground arith
      ]
  Trace-IsStopped (not_taken {done} r n t listed d stopped e) h =
      elim (Told-append done _ (subst Told e h)) [
        | inl before ↦ Trace-IsStopped t before
        | inr now ↦ ground arith
      ]
  Trace-IsStopped (taken {done} r n t listed d stopped answered e) h =
      elim (Told-append done _ (subst Told e h)) [
        | inl before ↦ Trace-IsStopped t before
        | inr now ↦
            let same : (r.job_id ≡ job_id) × (r.robot_id ≡ robot_id) =
              (ground arith, ground arith) in
            record {
              request = r;
              robot = n;
              listed = listed;
              job = same.0;
              named = same.1;
              deliverable = d;
              applied = stopped;
              answered = answered;
            }
      ]

-- After a pass of the relay, a proof that the hand-over holds for a job either was held before, or the
-- pass has stopped the robot behind it: the robot that the map gives for the robot of the proof, for an
-- open and recent request of the dispatcher that names this job and this robot, and the dispatcher
-- took the acknowledgement.
pub record_acks-IsStopped :
    (settings : StopRelaySettings) (a : Answers) (rs : List StopRequest) (relay : JobStopRelay)
    (takeover : TakeoverSettings) (now : ℕ) (proofs : Proofs) (job_id : String) (p : Proof)
    → lookup string_discrete job_id
        (record_acks takeover now (pass_over settings a rs relay).actions proofs)
      ≡ some p
    → IsStopped settings a rs job_id p.robot_id ⊎ (lookup string_discrete job_id proofs ≡ some p)
record_acks-IsStopped settings a rs relay takeover now proofs job_id p h =
    elim (record_acks-origin takeover now _ proofs job_id p h) [
      | inl told ↦ inl (
          Trace-IsStopped settings a rs job_id p.robot_id (pass_over-Trace settings a rs relay).0
            told)
      | inr before ↦ inr before
    ]
