-- ===== src/StopRelay/Tests.antt =====
-- The relay at concrete inputs.
use hydra_umc_server.Json.{Json, whole, num, str, arr, obj, nil, cons, end, field, get}
use hydra_umc_server.Prelude.{
  map, ◌≡◌, ◌⊎◌, refl, some, true, false, [], ◌∷◌, lookup, put, string_discrete,
}
use hydra_umc_server.Takeover.{TakeoverSettings, Proof, record_proof}
use hydra_umc_server.StopRelay.{
  StopRelaySettings, StopRequest, stop_robot, post_stop_ack, on_acknowledged, Answers, JobStopRelay,
  pass, pass_over, next_delay_seconds, handle_all, handle, stop_and_ack, after_ack, settle,
  still_listed, requests_of, as_request, already_acknowledged,
}
use hydra_umc_server.StopRelay.Stops.{Merge, Trace, pass_over-Trace}
use hydra_umc_server.StopRelay.HandOver.{record_acks, IsStopped, record_acks-IsStopped}

abbrev settings : StopRelaySettings
settings = record {
  poll_seconds = 2;
  max_request_age_seconds = 120;
  max_failure_backoff_seconds = 60;
  robot_map = ("r7", 3) ∷ [];
}

abbrev request : StopRequest
request = record { job_id = "m1"; robot_id = "r7"; requested_at_ms = 50000; expired = false }

abbrev unknown_robot : StopRequest
unknown_robot = record { job_id = "m2"; robot_id = "r9"; requested_at_ms = 50000; expired = false }

abbrev listed : Json
listed = arr (
    cons
      (obj (
        field "jobId" (str "m1")
          (field "robotId" (str "r7") (field "requestedAtMs" (num (whole 50000)) end))))
      (cons (str "no request") nil))

abbrev answers : Answers
answers = record {
  now = λ r. 60000;
  list = some (200, listed);
  is_stopped = λ n. true;
  ack = λ r. some 200;
}

abbrev relay : JobStopRelay
relay = record { failures = 0; settled = [] }

passes : Unit {0}
unfolding pass pass_over handle_all handle stop_and_ack after_ack settle still_listed requests_of
    as_request get lookup put string_discrete
passes = tt

one_stop :
    (pass settings answers relay).actions
    ≡ stop_robot 3 ∷ post_stop_ack "r7" "m1" ∷ on_acknowledged "m1" "r7" ∷ []
unfolding passes
one_stop = refl

second_pass :
    (pass settings answers (pass settings answers relay).relay).report.skipped
    ≡ ("m1", already_acknowledged) ∷ []
unfolding passes
second_pass = refl

backoff : next_delay_seconds settings (record relay { failures = 4 }) ≡ 32
unfolding next_delay_seconds
backoff = refl

pass_over-Trace_example :
    Trace settings answers
      (request ∷ unknown_robot ∷ [])
      (pass_over settings answers (request ∷ unknown_robot ∷ []) relay).actions
    × Merge
        (request.job_id ∷ unknown_robot.job_id ∷ [])
        (pass_over settings answers (request ∷ unknown_robot ∷ []) relay).report.acknowledged
        (map
          (λ e. e.0)
          (pass_over settings answers (request ∷ unknown_robot ∷ []) relay).report.skipped)
pass_over-Trace_example = pass_over-Trace settings answers (request ∷ unknown_robot ∷ []) relay

abbrev takeover : TakeoverSettings
takeover = record {
  failures_before_takeover = 3;
  max_snapshot_age_seconds = 60;
  proof_max_age_seconds = 3600;
  max_proofs = 10;
  max_delivery_attempts = 5;
  retry_seconds = 10;
}

abbrev new_proof : Proof
new_proof = record { job_id = "m1"; robot_id = "r7"; at_ms = 60001 }

held :
    lookup string_discrete "m1"
      (record_acks takeover 60001 (pass_over settings answers (request ∷ []) relay).actions [])
    ≡ some new_proof
unfolding passes record_acks record_proof
held = refl

record_acks-IsStopped_example :
    IsStopped settings answers (request ∷ []) "m1" "r7"
    ⊎ (lookup string_discrete "m1" [] ≡ some new_proof)
record_acks-IsStopped_example =
    record_acks-IsStopped settings answers (request ∷ []) relay takeover 60001 [] "m1" new_proof
      held
