-- ===== src/StopRelay.antt =====
-- src/jobStopRelay.ts: the delivery of the stops that the job dispatcher asks for.
-- Times are milliseconds and settings are whole numbers. What the dispatcher and the robots answer is
-- an argument: the list of requests, whether the stop of a robot is applied, and the answer to each
-- acknowledgement (`none` where the call fails). A pass gives its report and what it did, in order.
pub mod Stops
pub mod HandOver
mod Tests
use hydra_umc_server.Json.{Json, bool, get, as_string, as_whole, as_array}
use hydra_umc_server.Prelude.{
  ℕ, zero, suc, ◌+◌, ◌-◌, ◌*◌, ◌^◌, min, max, String, Option, none, some, Bool, true, false, ◌&&◌,
  ◌||◌, not, List, [], ◌∷◌, ◌++◌, length, keep, ltb, leb, ◌==◌, if◌then◌else◌, lookup, put,
  string_discrete, ite,
}

pub record StopRelaySettings : Type 0 where
  pub poll_seconds : ℕ
  pub max_request_age_seconds : ℕ
  pub max_failure_backoff_seconds : ℕ
  pub robot_map : List (String × ℕ)

pub record StopRequest : Type 0 where
  pub job_id : String
  pub robot_id : String
  pub requested_at_ms : ℕ
  pub expired : Bool

abbrev pub is_empty : String → Bool
is_empty s = ite (string_discrete s "") true false

-- `expired === true`
abbrev pub is_true : Option Json → Bool
is_true (some (bool b)) = b
is_true _ = false

abbrev pub request_of : Option String → Option String → Option ℕ → Bool → Option StopRequest
request_of (some job_id) (some robot_id) (some requested_at_ms) expired =
    if is_empty job_id || is_empty robot_id
    then none
    else some (record {
      job_id = job_id;
      robot_id = robot_id;
      requested_at_ms = requested_at_ms;
      expired = expired;
    })
request_of _ _ _ expired = none

-- `isRequest`, with the fields that it checks. A request whose time is not a whole number from 0 up is
-- left out here.
pub as_request : Json → Option StopRequest
as_request v =
    request_of (as_string (get "jobId" v)) (as_string (get "robotId" v))
      (as_whole (get "requestedAtMs" v)) (is_true (get "expired" v))

abbrev pub push_request : Option StopRequest → List StopRequest → List StopRequest
push_request none rs = rs
push_request (some r) rs = r ∷ rs

-- `list.filter(isRequest)`
pub requests_of : List Json → List StopRequest
unfolding as_request
requests_of [] = []
requests_of (v ∷ vs) = push_request (as_request v) (requests_of vs)

pub data Skip : Type 0 where
  already_acknowledged expired_at_dispatcher too_old not_mapped not_applied ack_lost : Skip
  ack_refused : ℕ → Skip

-- What a pass does to the world.
pub data Action : Type 0 where
  stop_robot : ℕ → Action
  post_stop_ack : String → String → Action
  on_acknowledged : String → String → Action

pub record PassReport : Type 0 where
  pub read : Bool
  pub seen : ℕ
  pub acknowledged : List String
  pub skipped : List (String × Skip)

-- The state that lasts: the failed reads in a row, and `settled`, a job to the robot that stopped.
abbrev pub Settled : Type 0
Settled = List (String × String)

pub record JobStopRelay : Type 0 where
  pub failures : ℕ
  pub settled : Settled

pub record Answers : Type 0 where
  pub now : StopRequest → ℕ
  pub list : Option (ℕ × Json)
  pub is_stopped : ℕ → Bool
  pub ack : StopRequest → Option ℕ

-- What the loop of `pass` carries from one request to the next.
pub record Progress : Type 0 where
  pub settled : Settled
  pub report : PassReport
  pub actions : List Action

abbrev pub skip : StopRequest → Skip → Progress → Progress
skip r reason p = record p {
  report = record p.report { skipped = p.report.skipped ++ (r.job_id, reason) ∷ [] };
}

abbrev pub act : Action → Progress → Progress
act a p = record p { actions = p.actions ++ a ∷ [] }

abbrev pub is_robot : Option String → String → Bool
is_robot none robot_id = false
is_robot (some s) robot_id = ite (string_discrete s robot_id) true false

-- The dispatcher took the acknowledgement: kept, told to the hand-over, and reported.
pub settle : StopRequest → Progress → Progress
settle r p = record p {
  settled = put string_discrete r.job_id r.robot_id p.settled;
  report = record p.report { acknowledged = p.report.acknowledged ++ r.job_id ∷ [] };
  actions = p.actions ++ on_acknowledged r.job_id r.robot_id ∷ [];
}

-- The answer to `POST /jobs/stop-ack`.
pub after_ack : StopRequest → Option ℕ → Progress → Progress
unfolding settle
after_ack r none p = skip r ack_lost p
after_ack r (some status) p =
    if status == 200 || status == 409 then settle r p else skip r (ack_refused status) p

pub stop_and_ack : Answers → StopRequest → ℕ → Progress → Progress
unfolding after_ack
stop_and_ack a r robot p =
    let stopped = act (stop_robot robot) p in
    if not (a.is_stopped robot)
    then skip r not_applied stopped
    else after_ack r (a.ack r) (act (post_stop_ack r.robot_id r.job_id) stopped)

abbrev pub if_mapped : (ℕ → Progress) → Progress → Option ℕ → Progress
if_mapped go otherwise none = otherwise
if_mapped go otherwise (some robot) = go robot

-- The body of the loop over the requests.
pub handle : StopRelaySettings → Answers → StopRequest → Progress → Progress
unfolding stop_and_ack
handle settings a r p =
    if is_robot (lookup string_discrete r.job_id p.settled) r.robot_id
    then skip r already_acknowledged p
    else if r.expired
    then skip r expired_at_dispatcher p
    else if ltb (settings.max_request_age_seconds * 1000) (a.now r - r.requested_at_ms)
    then skip r too_old p
    else if_mapped (λ robot. stop_and_ack a r robot p) (skip r not_mapped p)
        (lookup string_discrete r.robot_id settings.robot_map)

pub handle_all : StopRelaySettings → Answers → List StopRequest → Progress → Progress
unfolding handle
handle_all settings a [] p = p
handle_all settings a (r ∷ rs) p = handle_all settings a rs (handle settings a r p)

abbrev pub is_listed : List StopRequest → String → Bool
is_listed [] job_id = false
is_listed (r ∷ rs) job_id = ite (string_discrete job_id r.job_id) true (is_listed rs job_id)

-- A job that the dispatcher no longer lists is forgotten.
pub still_listed : List StopRequest → Settled → Settled
still_listed rs settled = keep (λ e. is_listed rs e.0) settled

abbrev pub nothing_done : Bool → PassReport
nothing_done read = record { read = read; seen = 0; acknowledged = []; skipped = [] }

pub pass_over : StopRelaySettings → Answers → List StopRequest → JobStopRelay → Progress
unfolding handle_all still_listed
pass_over settings a rs relay = handle_all settings a rs (record {
  settled = still_listed rs relay.settled;
  report = record { read = true; seen = length rs; acknowledged = []; skipped = [] };
  actions = [];
})

pub record Pass : Type 0 where
  pub relay : JobStopRelay
  pub report : PassReport
  pub actions : List Action

abbrev pub failed_read : JobStopRelay → Pass
failed_read relay = record {
  relay = record relay { failures = relay.failures + 1 };
  report = nothing_done false;
  actions = [];
}

abbrev pub finished : Progress → Pass
finished p = record {
  relay = record { failures = 0; settled = p.settled };
  report = p.report;
  actions = p.actions;
}

abbrev pub pass_list : StopRelaySettings → Answers → JobStopRelay → Option (List Json) → Pass
unfolding pass_over requests_of
pass_list settings a relay none = failed_read relay
pass_list settings a relay (some vs) = finished (pass_over settings a (requests_of vs) relay)

pub pass : StopRelaySettings → Answers → JobStopRelay → Pass
pass settings a relay = elim a.list [
  | none ↦ failed_read relay
  | some (status, json) ↦
      if status == 404
      then record {
        relay = record relay { failures = 0 };
        report = nothing_done true;
        actions = [];
      }
      else if not (status == 200)
      then failed_read relay
      else pass_list settings a relay (as_array (some json))
]

pub next_delay_seconds : StopRelaySettings → JobStopRelay → ℕ
next_delay_seconds settings relay =
    if relay.failures == 0
    then settings.poll_seconds
    else min (settings.poll_seconds * 2 ^ min relay.failures 20)
        (max settings.max_failure_backoff_seconds settings.poll_seconds)
