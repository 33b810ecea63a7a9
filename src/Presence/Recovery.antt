-- ===== src/Presence/Recovery.antt =====
-- src/operatorPresence.ts: how an operator that was lost comes back.
use hydra_umc_server.Prelude.{
  ℕ, suc, ◌+◌, ◌≤◌, ◌<◌, ◌-◌, String, some, ltb, true, ◌&&◌, List, [], ◌∷◌, not, length, ◌≡◌, refl,
  arith, if_both, lookup, string_discrete, lookup-put_self,
}
use hydra_umc_server.Presence.{PresenceSettings, Robot, DegradedRobots}
use hydra_umc_server.Presence.Operators.{
  PresenceState, present, lost, left, recovering, PresenceBeat, BeatState, is_present, has_left,
  Operator, OperatorPresence, Outcome, lose, evaluate, accept_beat, take_beat, beat, BeatResult,
  accepted, duplicate, stale, after_judge, is_lost, is_away, effective_timeout_ms, present_again,
}
use hydra_umc_server.Presence.Deadman.{not_both}

-- Away, with at most so many good heartbeats.
abbrev pub IsAway : ℕ → Operator → Type 0
IsAway n op = (is_away op.state ≡ true) × (op.good_beats ≤ n)

evaluate-IsAway :
    (settings : PresenceSettings) (now n : ℕ) (op : Operator) (d : DegradedRobots)
    (robots : List Robot)
    → IsAway n op
    → IsAway n (evaluate settings now op d robots).operator
unfolding evaluate lose
evaluate-IsAway settings now n op d robots h =
    if_both (λ (o : Outcome). IsAway n o.operator)
      (not (is_lost op.state) && ltb (effective_timeout_ms settings op) (now - op.last_beat_at))
      (λ _. (refl, omega arith)) (λ _. h)

present_again-IsAway :
    (settings : PresenceSettings) (n : ℕ) (op : Operator) (s : PresenceState)
    → is_away s ≡ true
    → op.good_beats ≤ n
    → suc n < settings.recover_beats
    → IsAway (suc n) (present_again settings s op)
present_again-IsAway settings n op present h few early = absurd (cc h)
present_again-IsAway settings n op left h few early = absurd (cc h)
present_again-IsAway settings n op lost h few early = ground arith
present_again-IsAway settings n op recovering h few early = ground arith

accept_beat-IsAway :
    (settings : PresenceSettings) (now n : ℕ) (s : BeatState) (o : Outcome)
    → settings.left_immediate ≡ true
    → IsAway n o.operator
    → suc n < settings.recover_beats
    → IsAway (suc n) (accept_beat settings now s o).operator
unfolding accept_beat lose
accept_beat-IsAway settings now n is_present o immediate (away, few) early =
    present_again-IsAway settings n o.operator o.operator.state away few early
accept_beat-IsAway settings now n has_left o immediate (away, few) early =
    if_both (λ (o' : Outcome). IsAway (suc n) o'.operator) (is_lost o.operator.state)
      (λ found. (away, omega arith))
      (λ _.
        if_both (λ (o' : Outcome). IsAway (suc n) o'.operator) settings.left_immediate
          (λ _. (refl, omega arith)) (λ later. absurd (not_both immediate later)))

after_judge-IsAway :
    (result : BeatResult) (settings : PresenceSettings) (now n : ℕ) (b : PresenceBeat)
    (op : Operator)
    → (d : DegradedRobots) (robots : List Robot) → settings.left_immediate ≡ true
    → IsAway n op
    → suc n < settings.recover_beats
    → IsAway (suc n) (after_judge result settings now b op d robots).operator
unfolding take_beat
after_judge-IsAway accepted settings now n b op d robots immediate away early =
    accept_beat-IsAway settings now n b.state _ immediate
      (evaluate-IsAway settings now n op d robots away) early
after_judge-IsAway duplicate settings now n b op d robots immediate away early =
    (away.0, omega (arith, away.1))
after_judge-IsAway stale settings now n b op d robots immediate away early =
    (away.0, omega (arith, away.1))

-- One heartbeat of an account after the other.
abbrev pub beats :
    PresenceSettings → String → List (ℕ × PresenceBeat) → OperatorPresence → OperatorPresence
beats settings user_id [] p = p
beats settings user_id ((now, b) ∷ bs) p =
    beats settings user_id bs (beat settings now user_id b p).0

beat-operator :
    (settings : PresenceSettings) (now n : ℕ) (user_id : String) (b : PresenceBeat)
    → (p : OperatorPresence) (op : Operator) → lookup string_discrete user_id p.operators ≡ some op
    → settings.left_immediate ≡ true
    → IsAway n op
    → suc n < settings.recover_beats
    → (op' : Operator) × (lookup string_discrete user_id (beat settings now user_id b p).0.operators
        ≡ some op')
      × IsAway (suc n) op'
unfolding beat
beat-operator settings now n user_id b p op found immediate away early = rw found (
  _,
  lookup-put_self string_discrete user_id _ p.operators,
  after_judge-IsAway _ settings now n b op p.degraded p.robots immediate away early,
)

-- An operator that is lost, or that is coming back, is still away after fewer heartbeats than the
-- settings ask for, where LEFT acts at once.
pub beats-IsAway :
    (settings : PresenceSettings) (user_id : String) (bs : List (ℕ × PresenceBeat))
    → (p : OperatorPresence) (n : ℕ) (op : Operator)
    → lookup string_discrete user_id p.operators ≡ some op
    → settings.left_immediate ≡ true
    → IsAway n op
    → n + length bs < settings.recover_beats
    → (op' : Operator) × (lookup string_discrete user_id (beats settings user_id bs p).operators
        ≡ some op')
      × IsAway (n + length bs) op'
beats-IsAway settings user_id [] p n op found immediate away early =
    (op, found, (away.0, omega (arith, away.1)))
beats-IsAway settings user_id ((now, b) ∷ bs) p n op found immediate away early =
    let (op', found', away') =
      beat-operator settings now n user_id b p op found immediate away (omega (arith, early)) in
    let (op'', found'', far) =
      beats-IsAway settings user_id bs (beat settings now user_id b p).0 (suc n) op' found'
        immediate away' (omega (arith, early)) in
    (op'', found'', (far.0, omega (arith, far.1)))
