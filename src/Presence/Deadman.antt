-- ===== src/Presence/Deadman.antt =====
-- src/operatorPresence.ts: a lost operator's robots stand still.
use hydra_umc_server.Prelude.{
  ℕ, String, Bool, true, false, ◌&&◌, List, [], ◌∷◌, not, sym, ◌≡◌, ◌∙◌, refl, arith, Bool-cases,
  if_both, All, inl, inr,
}
use hydra_umc_server.Presence.{
  PresenceSettings, PresenceAction, notify, slow, pause, stop, PlaybackState, Robot, DegradedRobots,
  Held, hold_pause, hold_stop, hold_as, hold, is_owned,
}
use hydra_umc_server.Presence.Operators.{
  Operator, OperatorPresence, HeldAll, Outcome, hold_all, enforce, evaluate, is_lost,
}
use hydra_umc_server.Presence.Ramp.{ramp, check_operator, check_all, tick}
use hydra_umc_server.Presence.Motion.{
  is_moving, NotStarted, NoneStarted, nobody, each, check_all-NoneStarted, ramp_all-NoneStarted,
}

-- The action of an installation that stands the robots still.
abbrev pub is_halting : PresenceAction → Bool
is_halting pause = true
is_halting stop = true
is_halting _ = false

pause-still :
    (a b c d : Bool) → (a && not b && not c) ≡ false → (a && not b && not d && not c) ≡ false
pause-still true false false d h = absurd (cc h)
pause-still true false true true h = refl
pause-still true false true false h = refl
pause-still true true c d h = refl
pause-still false b c d h = refl

idle-still : (first a b c d : Bool) → not first && not a ≡ true → (a && b && c && d) ≡ false
idle-still first false b c d h = refl
idle-still true true b c d h = absurd (cc h)
idle-still false true b c d h = absurd (cc h)

pub not_both : {b : Bool} → b ≡ true → b ≡ false → ⊥
not_both h k = grind arith

hold-still :
    (settings : PresenceSettings) (action : PresenceAction) (user_id : String) (robot : Robot)
    → (ps : PlaybackState) (d : DegradedRobots) (first : Bool) → is_halting action ≡ true
    → is_moving (hold_as action settings user_id robot ps d first).robot.playback_state ≡ false
unfolding hold_as hold_pause hold_stop
hold-still settings notify user_id robot ps d first h = absurd (cc h)
hold-still settings slow user_id robot ps d first h = absurd (cc h)
hold-still settings pause user_id robot ps d first h =
    if_both (λ (r : Held). is_moving r.robot.playback_state ≡ false)
      (ps.is_playing && not ps.is_paused && not ps.request_stop) (λ _. refl)
      (λ e. pause-still ps.is_playing ps.is_paused ps.request_stop ps.request_pause e)
hold-still settings stop user_id robot ps d first h =
    if_both (λ (r : Held). is_moving r.robot.playback_state ≡ false)
      (not first && not ps.is_playing) (λ e. idle-still first ps.is_playing _ _ _ e) (λ _. refl)

-- The robots that an account holds stand still.
abbrev pub StandStill : ℕ → String → List Robot → Type 0
StandStill now user_id robots =
    All (λ r. is_owned now user_id r ≡ true → is_moving r.playback_state ≡ false) robots

hold_all-still :
    (settings : PresenceSettings) (now : ℕ) (user_id : String) (first : Bool) (robots : List Robot)
    → (d : DegradedRobots) → is_halting settings.action ≡ true
    → StandStill now user_id (hold_all settings now user_id first robots d).robots
unfolding hold_all hold
hold_all-still settings now user_id first [] d h = tt
hold_all-still settings now user_id first (robot ∷ robots) d h =
    if_both (λ (r : HeldAll). StandStill now user_id r.robots) (is_owned now user_id robot)
      (λ _. (
        (λ _. hold-still settings settings.action user_id robot _ d first h),
        hold_all-still settings now user_id first robots _ h,
      ))
      (λ other. (
        (λ mine. absurd (not_both mine other)),
        hold_all-still settings now user_id first robots d h,
      ))

is_owned_same :
    (now : ℕ) (user_id : String) (before after : Robot)
    → after.reservation ≡ before.reservation
    → is_owned now user_id after ≡ is_owned now user_id before
unfolding is_owned
is_owned_same now user_id before after e = rw e refl

still_moving :
    {before after : Robot}
    → NotStarted before after
    → is_moving before.playback_state ≡ false
    → is_moving after.playback_state ≡ false
still_moving {after} n h = elim (Bool-cases (is_moving after.playback_state)) [
  | inl moves ↦ absurd (not_both (n.moving moves) h)
  | inr still ↦ still
]

StandStill-after :
    (now : ℕ) (user_id : String) {robots robots' : List Robot}
    → NoneStarted robots robots'
    → StandStill now user_id robots
    → StandStill now user_id robots'
StandStill-after now user_id nobody h = tt
StandStill-after now user_id (each {before = before} {after = after} n ns) (h, hs) = (
  (λ mine. still_moving n (h (sym (is_owned_same now user_id before after n.same_claim) ∙ mine))),
  StandStill-after now user_id ns hs,
)

enforce-still :
    (settings : PresenceSettings) (now : ℕ) (op : Operator) (d : DegradedRobots)
    (robots : List Robot)
    → is_halting settings.action ≡ true
    → StandStill now op.user_id (enforce settings now op d robots).robots
unfolding enforce
enforce-still settings now op d robots h = hold_all-still settings now op.user_id false robots d h

check_operator-still :
    (settings : PresenceSettings) (now : ℕ) (op : Operator) (d : DegradedRobots)
    (robots : List Robot)
    → is_halting settings.action ≡ true
    → is_lost (check_operator settings now op d robots).operator.state ≡ true
    → StandStill now
        (check_operator settings now op d robots).operator.user_id
        (check_operator settings now op d robots).robots
unfolding check_operator enforce
check_operator-still settings now op d robots h =
    if_both
      (λ (o : Outcome).
        is_lost o.operator.state ≡ true → StandStill now o.operator.user_id o.robots)
      (is_lost (evaluate settings now op d robots).operator.state)
      (λ _ _. hold_all-still settings now _ false _ _ h)
      (λ found lost. absurd (not_both lost found))

-- The operators that are lost, and what stands still for them.
abbrev pub LostStandStill : ℕ → List (String × Operator) → List Robot → Type 0
LostStandStill now operators robots =
    All (λ e. is_lost e.1.state ≡ true → StandStill now e.1.user_id robots) operators

LostStandStill-after :
    (now : ℕ) (operators : List (String × Operator)) {robots robots' : List Robot}
    → NoneStarted robots robots'
    → LostStandStill now operators robots
    → LostStandStill now operators robots'
LostStandStill-after now [] n h = tt
LostStandStill-after now (e ∷ operators) n (h, hs) =
    ((λ lost. StandStill-after now e.1.user_id n (h lost)), LostStandStill-after now operators n hs)

check_all-still :
    (settings : PresenceSettings) (now : ℕ) (ops : List (String × Operator)) (d : DegradedRobots)
    → (robots : List Robot) → is_halting settings.action ≡ true
    → LostStandStill now
        (check_all settings now ops d robots).0.operators
        (check_all settings now ops d robots).0.robots
unfolding check_all
check_all-still settings now [] d robots h = tt
check_all-still settings now (e ∷ ops) d robots h = (
  (λ lost.
      StandStill-after now _ (check_all-NoneStarted settings now ops _ _)
        (check_operator-still settings now e.1 d robots h lost)),
  check_all-still settings now ops _ _ h,
)

-- Where the action is to pause or to stop, every robot that a lost operator holds stands still after
-- the check of each second.
pub tick-LostStandStill :
    (settings : PresenceSettings) (now : ℕ) (p : OperatorPresence)
    → is_halting settings.action ≡ true
    → LostStandStill now (tick true settings now p).0.operators (tick true settings now p).0.robots
unfolding tick ramp
tick-LostStandStill settings now p h =
    LostStandStill-after now _ (ramp_all-NoneStarted false settings now _ _ _)
      (check_all-still settings now p.operators p.degraded p.robots h)
