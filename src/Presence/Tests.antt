-- ===== src/Presence/Tests.antt =====
-- The dead-man of src/operatorPresence.ts on small examples.
use hydra_umc_server.Prelude.{
  ℕ, ◌+◌, ◌*◌, ◌-◌, ◌<◌, ◌≤◌, max, some, true, false, [], ◌∷◌, ◌≡◌, refl, arith, All, lookup, put,
  string_discrete,
}
use hydra_umc_server.Presence.{PresenceSettings, slow, pause, Robot, hold, fresh_playback_state}
use hydra_umc_server.Presence.Operators.{
  Operator, OperatorPresence, PresenceBeat, is_present, has_left, present, lost, beat, take_beat,
  evaluate, accept_beat, is_lost,
}
use hydra_umc_server.Presence.Ramp.{tick}
use hydra_umc_server.Presence.Motion.{NoneStarted, tick-NoneStarted}
use hydra_umc_server.Presence.Deadman.{LostStandStill, tick-LostStandStill}
use hydra_umc_server.Presence.Silence.{ticks, ticks-IsTimely}
use hydra_umc_server.Presence.Cap.{IsCapped, hold-IsCapped}
use hydra_umc_server.Presence.Recovery.{IsAway, beats, beats-IsAway}

abbrev settings : PresenceSettings
settings = record {
  action = pause;
  timeout_ms = 15000;
  slow_factor = 300;
  recover_beats = 3;
  ramp_ms = 5000;
  left_immediate = true;
}

abbrev robot : Robot
robot = record {
  controller_id = "c1";
  id = 7;
  name = "R7";
  reservation = some (record { owner_id = "u1"; expires_at = some 900000 });
  playback_state = some (record fresh_playback_state { is_playing = true; playing = true });
}

abbrev operator : Operator
operator = record {
  user_id = "u1";
  last_sequence = some 4;
  last_beat_at = 100000;
  interval_ms = 5000;
  state = present;
  good_beats = 0;
}

abbrev presence : OperatorPresence
presence = record { operators = ("u1", operator) ∷ []; degraded = []; robots = robot ∷ [] }

abbrev gone : OperatorPresence
gone = record presence { operators = ("u1", record operator { state = lost }) ∷ [] }

abbrev here : ℕ → PresenceBeat
here n = record { sequence = n; interval_ms = 5000; state = is_present }

tick-NoneStarted_example : NoneStarted (robot ∷ []) (tick true settings 130000 presence).0.robots
tick-NoneStarted_example = tick-NoneStarted true settings 130000 presence

tick-LostStandStill_example :
    LostStandStill 130000
      (tick true settings 130000 presence).0.operators
      (tick true settings 130000 presence).0.robots
tick-LostStandStill_example = tick-LostStandStill settings 130000 presence refl

-- A heartbeat at 105000, a check at 106000, and one at 130000 that finds 25 seconds of silence.
ticks-IsTimely_example :
    (max 15000 (2 * 5000 + 1000) < 130000 - 105000
      → (op : Operator) × (lookup string_discrete "u1"
            (tick true settings 130000 (
              ticks settings
                (106000 ∷ [])
                (beat settings 105000 "u1" (here 5) presence).0)).0.operators
          ≡ some op)
        × (is_lost op.state ≡ true))
    × (All (λ t. t - 105000 ≤ max 15000 (2 * 5000 + 1000)) (106000 ∷ [])
        → lookup string_discrete "u1"
            (ticks settings (106000 ∷ []) (beat settings 105000 "u1" (here 5) presence).0).operators
          ≡ lookup string_discrete "u1" (beat settings 105000 "u1" (here 5) presence).0.operators)
unfolding beat lookup string_discrete
ticks-IsTimely_example =
    ticks-IsTimely settings 105000 "u1" (here 5) presence (106000 ∷ []) 130000 refl

hold-IsCapped_example :
    IsCapped
      (record settings { action = slow })
      "u1"
      []
      (some 100)
      (hold (record settings { action = slow }) "u1" robot [] true)
hold-IsCapped_example = hold-IsCapped (record settings { action = slow }) "u1" robot [] true refl tt

beats-IsAway_example :
    (op : Operator) × (lookup string_discrete "u1"
        (beats settings "u1" ((101000, here 5) ∷ (106000, here 6) ∷ []) gone).operators
      ≡ some op)
    × IsAway 2 op
unfolding lookup string_discrete
beats-IsAway_example =
    beats-IsAway settings "u1" ((101000, here 5) ∷ (106000, here 6) ∷ []) gone 0
      (record operator { state = lost }) refl refl (refl, omega arith) (omega arith)

-- Where LEFT does not act at once, a LEFT during the return ends it: one heartbeat is enough.
abbrev late_left : PresenceSettings
late_left = record settings { left_immediate = false }

left_ends_recovery :
    lookup string_discrete "u1"
      (beats late_left "u1"
        ((101000, here 5) ∷ (106000, record (here 6) { state = has_left }) ∷ (111000, here 7) ∷ [])
        gone).operators
    ≡ some (record operator {
      last_sequence = some 7;
      last_beat_at = 111000;
      state = present;
      good_beats = 0;
    })
unfolding beat lookup string_discrete put take_beat evaluate accept_beat
left_ends_recovery = refl
