-- ===== src/Presence/Operators.antt =====
-- src/operatorPresence.ts: the operators, their heartbeats, the check that is made each second and the
-- return of the speeds.
use hydra_umc_server.Prelude.{
  ℕ, ◌+◌, ◌-◌, ◌*◌, max, String, Option, none, some, Bool, true, false, ◌&&◌, List, [], ◌∷◌, ◌++◌,
  not, ltb, leb, ◌==◌, if◌then◌else◌, lookup, put, string_discrete,
}
use hydra_umc_server.Presence.{
  PresenceSettings, Robot, DegradedRobots, Delta, Effect, broadcast, persist, warn, is_owned, hold,
  Held,
}

pub data PresenceState : Type 0 where
  present lost left recovering : PresenceState

pub data BeatState : Type 0 where
  is_present has_left : BeatState

pub record PresenceBeat : Type 0 where
  pub sequence : ℕ
  pub interval_ms : ℕ
  pub state : BeatState

-- The last sequence is `none` before the first heartbeat.
pub record Operator : Type 0 where
  pub user_id : String
  pub last_sequence : Option ℕ
  pub last_beat_at : ℕ
  pub interval_ms : ℕ
  pub state : PresenceState
  pub good_beats : ℕ

pub record OperatorPresence : Type 0 where
  pub operators : List (String × Operator)
  pub degraded : DegradedRobots
  pub robots : List Robot

-- The robots after an action, what is held back, and what was done.
pub record HeldAll : Type 0 where
  pub degraded : DegradedRobots
  pub robots : List Robot
  pub names : List String
  pub deltas : List Delta
  pub effects : List Effect

-- `op` stays the same value while the robots change.
pub record Outcome : Type 0 where
  pub operator : Operator
  pub degraded : DegradedRobots
  pub robots : List Robot
  pub effects : List Effect

abbrev pub is_lost : PresenceState → Bool
is_lost lost = true
is_lost _ = false

abbrev pub is_away : PresenceState → Bool
is_away lost = true
is_away recovering = true
is_away _ = false

abbrev pub effective_timeout_ms : PresenceSettings → Operator → ℕ
effective_timeout_ms settings op = max settings.timeout_ms (op.interval_ms * 2 + 1000)

-- `push`: nothing to broadcast, nothing to save.
abbrev pub push_deltas : List Delta → Bool → List Effect
push_deltas [] persist_needed = if persist_needed then persist ∷ [] else []
push_deltas deltas persist_needed = broadcast deltas ∷ (if persist_needed then persist ∷ [] else [])

abbrev pub is_some_delta : List Delta → Bool
is_some_delta [] = false
is_some_delta (_ ∷ _) = true

abbrev pub before_rest : String → Held → HeldAll → HeldAll
before_rest name h rest = record {
  degraded = rest.degraded;
  robots = h.robot ∷ rest.robots;
  names = name ∷ rest.names;
  deltas = h.deltas ++ rest.deltas;
  effects = h.effects ++ rest.effects;
}

abbrev pub before_others : Robot → HeldAll → HeldAll
before_others robot rest = record rest { robots = robot ∷ rest.robots }

-- The loop over `ownedRobots`.
unfoldable pub hold_all :
    PresenceSettings → ℕ → String → Bool → List Robot → DegradedRobots → HeldAll
hold_all settings now user_id first [] degraded = record {
  degraded = degraded;
  robots = [];
  names = [];
  deltas = [];
  effects = [];
}
hold_all settings now user_id first (robot ∷ robots) degraded =
    let held = hold settings user_id robot degraded first in
    let rest_held = hold_all settings now user_id first robots held.degraded in
    let rest = hold_all settings now user_id first robots degraded in
    if is_owned now user_id robot
    then before_rest robot.name held rest_held
    else before_others robot rest

unfoldable pub lose : PresenceSettings → ℕ → Operator → DegradedRobots → List Robot → Outcome
lose settings now op degraded robots =
    let h = hold_all settings now op.user_id true robots degraded in
    record {
      operator = record op { state = lost; good_beats = 0 };
      degraded = h.degraded;
      robots = h.robots;
      effects = h.effects ++ push_deltas h.deltas (is_some_delta h.deltas) ++ warn h.names ∷ [];
    }

unfoldable pub enforce : PresenceSettings → ℕ → Operator → DegradedRobots → List Robot → Outcome
enforce settings now op degraded robots =
    let h = hold_all settings now op.user_id false robots degraded in
    record {
      operator = op;
      degraded = h.degraded;
      robots = h.robots;
      effects = h.effects ++ push_deltas h.deltas (is_some_delta h.deltas);
    }

abbrev pub no_change : Operator → DegradedRobots → List Robot → Outcome
no_change op degraded robots = record {
  operator = op;
  degraded = degraded;
  robots = robots;
  effects = [];
}

unfoldable pub evaluate : PresenceSettings → ℕ → Operator → DegradedRobots → List Robot → Outcome
evaluate settings now op degraded robots =
    if not (is_lost op.state) && ltb (effective_timeout_ms settings op) (now - op.last_beat_at)
    then lose settings now op degraded robots
    else no_change op degraded robots

-- What a heartbeat that counts does, after the silence was looked at. `recover` changes the operator only.
abbrev pub return_of : PresenceSettings → Operator → Operator
return_of settings op =
    if leb settings.recover_beats (op.good_beats + 1)
    then record op { state = present; good_beats = 0 }
    else record op { state = recovering; good_beats = op.good_beats + 1 }

abbrev pub present_again : PresenceSettings → PresenceState → Operator → Operator
present_again settings left op = record op { state = present }
present_again settings present op = op
present_again settings _ op = return_of settings op

unfoldable pub accept_beat : PresenceSettings → ℕ → BeatState → Outcome → Outcome
accept_beat settings now has_left o =
    let gone = record o.operator { good_beats = 0 } in
    let went : Operator = record gone { state = left } in
    let loses = lose settings now went o.degraded o.robots in
    if is_lost o.operator.state
    then record o { operator = gone }
    else if settings.left_immediate
    then record loses { effects = o.effects ++ loses.effects }
    else record o { operator = went }
accept_beat settings now is_present o = record o {
  operator = present_again settings o.operator.state o.operator;
}

pub data BeatResult : Type 0 where
  accepted duplicate stale : BeatResult

-- The tests on the sequence of an operator that had a heartbeat before.
abbrev pub judge_beat : PresenceSettings → ℕ → Operator → PresenceBeat → Option ℕ → BeatResult
judge_beat settings now op beat none = accepted
judge_beat settings now op beat (some last_sequence) =
    if beat.sequence == last_sequence
    then duplicate
    else if ltb beat.sequence last_sequence
        && ltb (now - op.last_beat_at) (effective_timeout_ms settings op)
    then stale
    else accepted

abbrev pub operator_of : String → ℕ → PresenceBeat → Option Operator → Operator
operator_of user_id now beat (some op) = op
operator_of user_id now beat none = record {
  user_id = user_id;
  last_sequence = none;
  last_beat_at = now;
  interval_ms = beat.interval_ms;
  state = present;
  good_beats = 0;
}

-- The operator of an accepted heartbeat: silence first, then the heartbeat.
unfoldable pub take_beat :
    PresenceSettings → ℕ → PresenceBeat → Operator → DegradedRobots → List Robot → Outcome
take_beat settings now beat op degraded robots =
    let o = evaluate settings now op degraded robots in
    accept_beat settings now beat.state (record o {
      operator = record o.operator {
        last_sequence = some beat.sequence;
        last_beat_at = now;
        interval_ms = beat.interval_ms;
      };
    })

abbrev pub after_judge :
    BeatResult
    → PresenceSettings
    → ℕ
    → PresenceBeat
    → Operator
    → DegradedRobots
    → List Robot
    → Outcome
after_judge accepted settings now beat op degraded robots =
    take_beat settings now beat op degraded robots
after_judge _ settings now beat op degraded robots = no_change op degraded robots

unfoldable pub beat :
    PresenceSettings
    → ℕ
    → String
    → PresenceBeat
    → OperatorPresence
    → OperatorPresence × BeatResult × List Effect
beat settings now user_id b p =
    let op = operator_of user_id now b (lookup string_discrete user_id p.operators) in
    let result = judge_beat settings now op b op.last_sequence in
    let o = after_judge result settings now b op p.degraded p.robots in
    (
      record {
        operators = put string_discrete user_id o.operator p.operators;
        degraded = o.degraded;
        robots = o.robots;
      },
      result,
      o.effects,
    )
