-- ===== src/Presence/Silence.antt =====
-- src/operatorPresence.ts: how long an operator may be silent after a heartbeat that counted.
use mathlib.Core.Option.{some-injective}
use mathlib.Core.Logic.{ite}
use hydra_umc_server.Prelude.{
  Option, ap, ℕ, ◌+◌, ◌*◌, ◌-◌, ◌<◌, ◌≤◌, max, ltb, ◌&&◌, not, String, some, true, List, [], ◌∷◌,
  All, ◌≡◌, refl, ◌∙◌, sym, arith, if_both, lookup, string_discrete, lookup-put_self,
}
use hydra_umc_server.Presence.{PresenceSettings, Robot, DegradedRobots}
use hydra_umc_server.Presence.Operators.{
  PresenceState, present, lost, left, recovering, PresenceBeat, BeatState, is_present, has_left,
  Operator, OperatorPresence, Outcome, lose, enforce, evaluate, accept_beat, take_beat, beat,
  BeatResult, accepted, duplicate, stale, after_judge, is_lost, effective_timeout_ms, present_again,
  judge_beat, operator_of,
}
use hydra_umc_server.Presence.Ramp.{ramp, check_operator, check_all, tick}

-- Twice the interval that the heartbeat announced and a second more, and no less than the setting.
abbrev pub allowed_silence : PresenceSettings → ℕ → ℕ
allowed_silence settings interval = max settings.timeout_ms (2 * interval + 1000)

-- The last heartbeat of the operator, with the interval that it announced.
abbrev IsLastBeat : ℕ → ℕ → Operator → Type 0
IsLastBeat at interval op = (op.last_beat_at ≡ at) × (op.interval_ms ≡ interval)

-- The check of each second, at each of these times.
unfoldable pub ticks : PresenceSettings → List ℕ → OperatorPresence → OperatorPresence
ticks settings [] p = p
ticks settings (now ∷ times) p = ticks settings times (tick true settings now p).0

-- Two values that are chosen by one decision.
same_side :
    {P : Type 0} {a b c d : Option Operator} (G : Option Operator → Option Operator → Type 0)
    → (dec : Dec P) → G a b
    → G c d
    → G (ite dec a c) (ite dec b d)
same_side G (yes p) first second = first
same_side G (no n) first second = second

module _ (settings : PresenceSettings) (at interval : ℕ) where
  evaluate-IsLastBeat :
      (now : ℕ) (op : Operator) (d : DegradedRobots) (robots : List Robot)
      → IsLastBeat at interval op
      → IsLastBeat at interval (evaluate settings now op d robots).operator
  unfolding evaluate lose
  evaluate-IsLastBeat now op d robots h =
      if_both (λ (o : Outcome). IsLastBeat at interval o.operator)
        (not (is_lost op.state) && ltb (effective_timeout_ms settings op) (now - op.last_beat_at))
        (λ _. h) (λ _. h)

  evaluate_silent :
      (now : ℕ) (op : Operator) (d : DegradedRobots) (robots : List Robot)
      → IsLastBeat at interval op
      → allowed_silence settings interval < now - at
      → is_lost (evaluate settings now op d robots).operator.state ≡ true
  unfolding evaluate lose
  evaluate_silent now op d robots (same_at, same_interval) silent =
      if_both (λ (o : Outcome). is_lost o.operator.state ≡ true)
        (not (is_lost op.state) && ltb (effective_timeout_ms settings op) (now - op.last_beat_at))
        (λ _. refl) (λ e. ground arith)

  evaluate_heard :
      (now : ℕ) (op : Operator) (d : DegradedRobots) (robots : List Robot)
      → IsLastBeat at interval op
      → now - at ≤ allowed_silence settings interval
      → (evaluate settings now op d robots).operator ≡ op
  unfolding evaluate
  evaluate_heard now op d robots (same_at, same_interval) heard =
      if_both (λ (o : Outcome). o.operator ≡ op)
        (not (is_lost op.state) && ltb (effective_timeout_ms settings op) (now - op.last_beat_at))
        (λ e. absurd (ground arith)) (λ _. refl)

  check_operator-evaluate :
      (now : ℕ) (op : Operator) (d : DegradedRobots) (robots : List Robot)
      → (check_operator settings now op d robots).operator
        ≡ (evaluate settings now op d robots).operator
  unfolding check_operator enforce
  check_operator-evaluate now op d robots =
      if_both (λ (o : Outcome). o.operator ≡ (evaluate settings now op d robots).operator)
        (is_lost (evaluate settings now op d robots).operator.state) (λ _. refl) (λ _. refl)

  -- The operator after a check is the one that was looked at.
  check_all-lookup :
      (now : ℕ) (user_id : String) (op : Operator) (ops : List (String × Operator))
      → (d : DegradedRobots) (robots : List Robot) → lookup string_discrete user_id ops ≡ some op
      → (d' : DegradedRobots) × (robots' : List Robot) × (lookup string_discrete user_id
            (check_all settings now ops d robots).0.operators
          ≡ some (evaluate settings now op d' robots').operator)
  unfolding check_all lookup
  check_all-lookup now user_id op [] d robots h = absurd (cc h)
  check_all-lookup now user_id op (e ∷ ops) d robots h =
      let o = check_operator settings now e.1 d robots in
      same_side
        (λ (seen after : Option Operator).
          seen ≡ some op
          → (d' : DegradedRobots) × (robots' : List Robot) × (after
              ≡ some (evaluate settings now op d' robots').operator))
        (string_discrete user_id e.0)
        (λ own. (
          d,
          robots,
          ap some (check_operator-evaluate now e.1 d robots)
              ∙ ap (λ (v : Operator). some (evaluate settings now v d robots).operator)
                  (some-injective _ _ own),
        ))
        (check_all-lookup now user_id op ops o.degraded o.robots) h

  tick-lookup :
      (now : ℕ) (user_id : String) (op : Operator) (p : OperatorPresence)
      → lookup string_discrete user_id p.operators ≡ some op
      → (d' : DegradedRobots) × (robots' : List Robot) × (lookup string_discrete user_id
            (tick true settings now p).0.operators
          ≡ some (evaluate settings now op d' robots').operator)
  unfolding tick ramp
  tick-lookup now user_id op p h = check_all-lookup now user_id op p.operators p.degraded p.robots h

  ticks-IsLastBeat :
      (user_id : String) (times : List ℕ) (p : OperatorPresence) (op : Operator)
      → lookup string_discrete user_id p.operators ≡ some op
      → IsLastBeat at interval op
      → (op' : Operator) × (lookup string_discrete user_id (ticks settings times p).operators
          ≡ some op')
        × IsLastBeat at interval op'
  unfolding ticks
  ticks-IsLastBeat user_id [] p op found h = (op, found, h)
  ticks-IsLastBeat user_id (now ∷ times) p op found h =
      let (d, robots, seen) = tick-lookup now user_id op p found in
      ticks-IsLastBeat user_id times (tick true settings now p).0 _ seen
        (evaluate-IsLastBeat now op d robots h)

  ticks_heard :
      (user_id : String) (times : List ℕ) (p : OperatorPresence) (op : Operator)
      → lookup string_discrete user_id p.operators ≡ some op
      → IsLastBeat at interval op
      → All (λ now. now - at ≤ allowed_silence settings interval) times
      → lookup string_discrete user_id (ticks settings times p).operators ≡ some op
  unfolding ticks
  ticks_heard user_id [] p op found h in_time = found
  ticks_heard user_id (now ∷ times) p op found h (early, in_time) =
      let (d, robots, seen) = tick-lookup now user_id op p found in
      ticks_heard user_id times (tick true settings now p).0 op
        (seen ∙ ap some (evaluate_heard now op d robots h early)) h in_time

-- A heartbeat that counts is the last one.
present_again-IsLastBeat :
    (settings : PresenceSettings) (at interval : ℕ) (op : Operator) (s : PresenceState)
    → IsLastBeat at interval op
    → IsLastBeat at interval (present_again settings s op)
present_again-IsLastBeat settings at interval op present h = h
present_again-IsLastBeat settings at interval op left h = h
present_again-IsLastBeat settings at interval op lost h = (ground arith, ground arith)
present_again-IsLastBeat settings at interval op recovering h = (ground arith, ground arith)

accept_beat-IsLastBeat :
    (settings : PresenceSettings) (now at interval : ℕ) (s : BeatState) (o : Outcome)
    → IsLastBeat at interval o.operator
    → IsLastBeat at interval (accept_beat settings now s o).operator
unfolding accept_beat lose
accept_beat-IsLastBeat settings now at interval is_present o h =
    present_again-IsLastBeat settings at interval o.operator o.operator.state h
accept_beat-IsLastBeat settings now at interval has_left o h =
    if_both (λ (o' : Outcome). IsLastBeat at interval o'.operator) (is_lost o.operator.state)
      (λ _. h)
      (λ _.
        if_both (λ (o' : Outcome). IsLastBeat at interval o'.operator) settings.left_immediate
          (λ _. h) (λ _. h))

after_judge-IsLastBeat :
    (result : BeatResult) (settings : PresenceSettings) (now : ℕ) (b : PresenceBeat) (op : Operator)
    → (d : DegradedRobots) (robots : List Robot) → result ≡ accepted
    → IsLastBeat now b.interval_ms (after_judge result settings now b op d robots).operator
unfolding take_beat
after_judge-IsLastBeat accepted settings now b op d robots h =
    accept_beat-IsLastBeat settings now now b.interval_ms b.state _ (refl, refl)
after_judge-IsLastBeat duplicate settings now b op d robots h = absurd (cc h)
after_judge-IsLastBeat stale settings now b op d robots h = absurd (cc h)

beat-IsLastBeat :
    (settings : PresenceSettings) (at : ℕ) (user_id : String) (b : PresenceBeat)
    → (p : OperatorPresence) → (beat settings at user_id b p).1 ≡ accepted
    → (op : Operator) × (lookup string_discrete user_id (beat settings at user_id b p).0.operators
        ≡ some op)
      × IsLastBeat at b.interval_ms op
unfolding beat
beat-IsLastBeat settings at user_id b p counted =
    let op = operator_of user_id at b (lookup string_discrete user_id p.operators) in
    let result = judge_beat settings at op b op.last_sequence in
    (
      (after_judge result settings at b op p.degraded p.robots).operator,
      lookup-put_self string_discrete user_id _ p.operators,
      after_judge-IsLastBeat result settings at b op p.degraded p.robots counted,
    )

-- After a heartbeat that counted, whatever checks follow without another one: an operator is lost from
-- the first check at which the heartbeat is more than the timeout of the settings ago, and more than
-- twice its interval and a second; while no check is later than that, the operator stays as the heartbeat
-- left it.
pub ticks-IsTimely :
    (settings : PresenceSettings) (at : ℕ) (user_id : String) (b : PresenceBeat)
    → (p : OperatorPresence) (times : List ℕ) (now : ℕ)
    → (beat settings at user_id b p).1 ≡ accepted
    → (max settings.timeout_ms (2 * b.interval_ms + 1000) < now - at
        → (op : Operator) × (lookup string_discrete user_id
              (tick true settings now
                (ticks settings times (beat settings at user_id b p).0)).0.operators
            ≡ some op)
          × (is_lost op.state ≡ true))
      × (All (λ t. t - at ≤ max settings.timeout_ms (2 * b.interval_ms + 1000)) times
          → lookup string_discrete user_id
              (ticks settings times (beat settings at user_id b p).0).operators
            ≡ lookup string_discrete user_id (beat settings at user_id b p).0.operators)
ticks-IsTimely settings at user_id b p times now counted =
    let p' = (beat settings at user_id b p).0 in
    let (op, found, last) = beat-IsLastBeat settings at user_id b p counted in
    let (op', found', last') =
      ticks-IsLastBeat settings at b.interval_ms user_id times p' op found last in
    let (d, robots, seen) =
      tick-lookup settings at b.interval_ms now user_id op' (ticks settings times p') found' in
    (
      (λ silent.
          (_, seen, evaluate_silent settings at b.interval_ms now op' d robots last' silent)),
      (λ in_time.
          ticks_heard settings at b.interval_ms user_id times p' op found last in_time ∙ sym found),
    )
