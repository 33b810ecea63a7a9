-- ===== src/Presence/Motion.antt =====
-- src/operatorPresence.ts never sets a robot in motion.
use mathlib.Core.Option.{some-injective}
use hydra_umc_server.Prelude.{
  ℕ, String, Option, none, some, Bool, ltb, ◌-◌, true, false, ◌&&◌, List, [], ◌∷◌, not, ◌==◌, subst,
  ap, sym, ◌≢◌, lookup, string_discrete, ◌≡◌, ◌∙◌, refl, arith, Bool-cases, if_both, inl, inr,
}
use hydra_umc_server.Presence.{
  PresenceSettings, PresenceAction, notify, slow, pause, stop, PlaybackState, Robot, Degraded,
  DegradedRobots, Held, playback_of, unchanged, hold_slow, hold_pause, hold_stop, hold_as, hold,
  is_owned, is_within_cap, is_speed, capped, cap_of, base_speed, stopped_playback_state,
}
use hydra_umc_server.Presence.Operators.{
  PresenceBeat, BeatState, is_present, has_left, Operator, OperatorPresence, HeldAll, Outcome,
  hold_all, lose, enforce, evaluate, accept_beat, take_beat, beat, BeatResult, accepted, duplicate,
  stale, after_judge, is_lost, effective_timeout_ms,
}
use hydra_umc_server.Presence.Ramp.{
  Ramped, Fate, stay, forget, raise, find_robot, set_playback_state, fate, ramp_all, ramp,
  check_operator, check_all, tick, robots_after, after_fate, to_speed, fate_of_speed, fate_of_robot,
  is_operator_away,
}

-- What `startServerPlayback` of src/playback.ts asks of a robot that it moves.
abbrev pub is_moving : Option PlaybackState → Bool
is_moving none = false
is_moving (some ps) =
    ps.is_playing && not ps.is_paused && not ps.request_pause && not ps.request_stop

abbrev pub is_stopped : Option PlaybackState → Bool
is_stopped none = false
is_stopped (some ps) = ps.request_stop

-- A robot that moves moved before, one that was to stop is still to stop, and nobody changed its claim.
pub record NotStarted (before after : Robot) : Type 0 where
  pub moving : is_moving after.playback_state ≡ true → is_moving before.playback_state ≡ true
  pub stopped : is_stopped before.playback_state ≡ true → is_stopped after.playback_state ≡ true
  pub same_id : after.id ≡ before.id
  pub same_claim : after.reservation ≡ before.reservation

pub data NoneStarted : List Robot → List Robot → Type 0 where
  nobody : NoneStarted [] []
  each :
      {before after : Robot} {robots robots' : List Robot}
      → NotStarted before after
      → NoneStarted robots robots'
      → NoneStarted (before ∷ robots) (after ∷ robots')

NotStarted-refl : (robot : Robot) → NotStarted robot robot
NotStarted-refl robot = record {
  moving = λ h. h;
  stopped = λ h. h;
  same_id = refl;
  same_claim = refl;
}

pub NoneStarted-refl : (robots : List Robot) → NoneStarted robots robots
NoneStarted-refl [] = nobody
NoneStarted-refl (robot ∷ robots) = each (NotStarted-refl robot) (NoneStarted-refl robots)

NotStarted-trans : {a b c : Robot} → NotStarted a b → NotStarted b c → NotStarted a c
NotStarted-trans h k = record {
  moving = λ m. h.moving (k.moving m);
  stopped = λ s. k.stopped (h.stopped s);
  same_id = k.same_id ∙ h.same_id;
  same_claim = k.same_claim ∙ h.same_claim;
}

pub NoneStarted-trans : {a b c : List Robot} → NoneStarted a b → NoneStarted b c → NoneStarted a c
NoneStarted-trans nobody nobody = nobody
NoneStarted-trans (each h hs) (each k ks) = each (NotStarted-trans h k) (NoneStarted-trans hs ks)

moving-playback_of :
    (o : Option PlaybackState) → is_moving (some (playback_of o)) ≡ true → is_moving o ≡ true
moving-playback_of none h = h
moving-playback_of (some ps) h = h

stopped-playback_of :
    (o : Option PlaybackState) → is_stopped o ≡ true → (playback_of o).request_stop ≡ true
stopped-playback_of none h = absurd (cc h)
stopped-playback_of (some ps) h = h

changed-NotStarted :
    (robot : Robot) (ps : PlaybackState)
    → (is_moving (some ps) ≡ true → is_moving (some (playback_of robot.playback_state)) ≡ true)
    → ((playback_of robot.playback_state).request_stop ≡ true → ps.request_stop ≡ true)
    → NotStarted robot (record robot { playback_state = some ps })
changed-NotStarted robot ps moves stops = record {
  moving = λ h. moving-playback_of robot.playback_state (moves h);
  stopped = λ h. stops (stopped-playback_of robot.playback_state h);
  same_id = refl;
  same_claim = refl;
}

unchanged-NotStarted :
    (robot : Robot) (d : DegradedRobots)
    → NotStarted robot (unchanged robot (playback_of robot.playback_state) d).robot
unchanged-NotStarted robot d = changed-NotStarted robot _ (λ h. h) (λ h. h)

slow-NotStarted :
    (settings : PresenceSettings) (user_id : String) (robot : Robot) (mine : Option Degraded)
    → (d : DegradedRobots)
    → NotStarted robot
        (hold_slow settings user_id robot (playback_of robot.playback_state) mine d).robot
unfolding hold_slow
slow-NotStarted settings user_id robot mine d =
    let ps = playback_of robot.playback_state in
    if_both (λ (h : Held). NotStarted robot h.robot) (is_within_cap mine ps.speed)
      (λ _. unchanged-NotStarted robot d)
      (λ _.
        if_both (λ (h : Held). NotStarted robot h.robot)
          (is_speed ps.speed (capped (cap_of settings (base_speed mine ps.speed)) ps.speed))
          (λ _. unchanged-NotStarted robot d)
          (λ _. changed-NotStarted robot (record ps { speed = _ }) (λ h. h) (λ h. h)))

not_stopped : (a b c : Bool) → a && not b && not c ≡ true → c ≡ true → ⊥
not_stopped a b true h e = grind arith
not_stopped a b false h e = absurd (cc e)

pause-NotStarted :
    (robot : Robot) (d : DegradedRobots)
    → NotStarted robot (hold_pause robot (playback_of robot.playback_state) d).robot
unfolding hold_pause
pause-NotStarted robot d =
    let ps = playback_of robot.playback_state in
    if_both (λ (h : Held). NotStarted robot h.robot)
      (ps.is_playing && not ps.is_paused && not ps.request_stop)
      (λ runs.
        changed-NotStarted robot _ (λ h. absurd (cc h)) (λ h. absurd (not_stopped _ _ _ runs h)))
      (λ _. unchanged-NotStarted robot d)

stop-NotStarted :
    (robot : Robot) (d : DegradedRobots) (first : Bool)
    → NotStarted robot (hold_stop robot (playback_of robot.playback_state) d first).robot
unfolding hold_stop
stop-NotStarted robot d first =
    let ps = playback_of robot.playback_state in
    if_both (λ (h : Held). NotStarted robot h.robot) (not first && not ps.is_playing)
      (λ _. unchanged-NotStarted robot d)
      (λ _. changed-NotStarted robot (stopped_playback_state ps) (λ h. absurd (cc h)) (λ h. refl))

hold_as-NotStarted :
    (action : PresenceAction) (settings : PresenceSettings) (user_id : String) (robot : Robot)
    → (d : DegradedRobots) (first : Bool)
    → NotStarted robot
        (hold_as action settings user_id robot (playback_of robot.playback_state) d first).robot
unfolding hold_as
hold_as-NotStarted notify settings user_id robot d first = unchanged-NotStarted robot d
hold_as-NotStarted slow settings user_id robot d first = slow-NotStarted settings user_id robot _ d
hold_as-NotStarted pause settings user_id robot d first = pause-NotStarted robot d
hold_as-NotStarted stop settings user_id robot d first = stop-NotStarted robot d first

pub hold_all-NoneStarted :
    (settings : PresenceSettings) (now : ℕ) (user_id : String) (first : Bool) (robots : List Robot)
    → (d : DegradedRobots)
    → NoneStarted robots (hold_all settings now user_id first robots d).robots
unfolding hold_all hold
hold_all-NoneStarted settings now user_id first [] d = nobody
hold_all-NoneStarted settings now user_id first (robot ∷ robots) d =
    if_both (λ (h : HeldAll). NoneStarted (robot ∷ robots) h.robots) (is_owned now user_id robot)
      (λ _.
        each (hold_as-NotStarted settings.action settings user_id robot d first)
          (hold_all-NoneStarted settings now user_id first robots _))
      (λ _. each (NotStarted-refl robot) (hold_all-NoneStarted settings now user_id first robots d))

pub lose-NoneStarted :
    (settings : PresenceSettings) (now : ℕ) (op : Operator) (d : DegradedRobots)
    (robots : List Robot)
    → NoneStarted robots (lose settings now op d robots).robots
unfolding lose
lose-NoneStarted settings now op d robots =
    hold_all-NoneStarted settings now op.user_id true robots d

pub enforce-NoneStarted :
    (settings : PresenceSettings) (now : ℕ) (op : Operator) (d : DegradedRobots)
    (robots : List Robot)
    → NoneStarted robots (enforce settings now op d robots).robots
unfolding enforce
enforce-NoneStarted settings now op d robots =
    hold_all-NoneStarted settings now op.user_id false robots d

evaluate-NoneStarted :
    (settings : PresenceSettings) (now : ℕ) (op : Operator) (d : DegradedRobots)
    (robots : List Robot)
    → NoneStarted robots (evaluate settings now op d robots).robots
unfolding evaluate
evaluate-NoneStarted settings now op d robots =
    if_both (λ (o : Outcome). NoneStarted robots o.robots)
      (not (is_lost op.state) && ltb (effective_timeout_ms settings op) (now - op.last_beat_at))
      (λ _. lose-NoneStarted settings now op d robots) (λ _. NoneStarted-refl robots)

accept_beat-NoneStarted :
    (settings : PresenceSettings) (now : ℕ) (s : BeatState) (o : Outcome)
    → NoneStarted o.robots (accept_beat settings now s o).robots
unfolding accept_beat
accept_beat-NoneStarted settings now has_left o =
    if_both (λ (o' : Outcome). NoneStarted o.robots o'.robots) (is_lost o.operator.state)
      (λ _. NoneStarted-refl o.robots)
      (λ _.
        if_both (λ (o' : Outcome). NoneStarted o.robots o'.robots) settings.left_immediate
          (λ _. lose-NoneStarted settings now _ o.degraded o.robots)
          (λ _. NoneStarted-refl o.robots))
accept_beat-NoneStarted settings now is_present o = NoneStarted-refl o.robots

after_judge-NoneStarted :
    (result : BeatResult) (settings : PresenceSettings) (now : ℕ) (b : PresenceBeat) (op : Operator)
    → (d : DegradedRobots) (robots : List Robot)
    → NoneStarted robots (after_judge result settings now b op d robots).robots
unfolding take_beat
after_judge-NoneStarted accepted settings now b op d robots =
    NoneStarted-trans (evaluate-NoneStarted settings now op d robots)
      (accept_beat-NoneStarted settings now b.state _)
after_judge-NoneStarted duplicate settings now b op d robots = NoneStarted-refl robots
after_judge-NoneStarted stale settings now b op d robots = NoneStarted-refl robots

-- A heartbeat sets no robot in motion, and takes back no stop and no claim.
pub beat-NoneStarted :
    (settings : PresenceSettings) (now : ℕ) (user_id : String) (b : PresenceBeat)
    (p : OperatorPresence)
    → NoneStarted p.robots (beat settings now user_id b p).0.robots
unfolding beat
beat-NoneStarted settings now user_id b p =
    after_judge-NoneStarted _ settings now b _ p.degraded p.robots

pub check_operator-NoneStarted :
    (settings : PresenceSettings) (now : ℕ) (op : Operator) (d : DegradedRobots)
    (robots : List Robot)
    → NoneStarted robots (check_operator settings now op d robots).robots
unfolding check_operator
check_operator-NoneStarted settings now op d robots =
    if_both (λ (o : Outcome). NoneStarted robots o.robots)
      (is_lost (evaluate settings now op d robots).operator.state)
      (λ _.
        NoneStarted-trans (evaluate-NoneStarted settings now op d robots)
          (enforce-NoneStarted settings now _ _ _))
      (λ _. evaluate-NoneStarted settings now op d robots)

pub check_all-NoneStarted :
    (settings : PresenceSettings) (now : ℕ) (ops : List (String × Operator)) (d : DegradedRobots)
    → (robots : List Robot) → NoneStarted robots (check_all settings now ops d robots).0.robots
unfolding check_all
check_all-NoneStarted settings now [] d robots = NoneStarted-refl robots
check_all-NoneStarted settings now (e ∷ ops) d robots =
    NoneStarted-trans (check_operator-NoneStarted settings now e.1 d robots)
      (check_all-NoneStarted settings now ops _ _)

speed-NotStarted :
    (r : Robot) (speed : ℕ) {ps : PlaybackState}
    → r.playback_state ≡ some ps
    → NotStarted r (record r { playback_state = some (to_speed ps speed) })
speed-NotStarted r speed e = record {
  moving = λ h. rw e h;
  stopped = λ h. subst (λ o. is_stopped o ≡ true) e h;
  same_id = refl;
  same_claim = refl;
}

find_first :
    (robot_id : ℕ) (r : Robot) (robots : List Robot) (robot : Robot)
    → find_robot robot_id (r ∷ robots) ≡ some robot
    → (r.id == robot_id) ≡ true
    → r ≡ robot
unfolding find_robot
find_first robot_id r robots robot found same = some-injective _ _ (rw same at found)

find_later :
    (robot_id : ℕ) (r : Robot) (robots : List Robot) (robot : Robot)
    → find_robot robot_id (r ∷ robots) ≡ some robot
    → (r.id == robot_id) ≡ false
    → find_robot robot_id robots ≡ some robot
unfolding find_robot
find_later robot_id r robots robot found other = rw other at found

-- A new speed, of the robot that `find_robot` finds.
set_speed-NoneStarted :
    (robot_id speed : ℕ) (robots : List Robot) (robot : Robot) {ps : PlaybackState}
    → find_robot robot_id robots ≡ some robot
    → robot.playback_state ≡ some ps
    → NoneStarted robots (set_playback_state robot_id (to_speed ps speed) robots)
unfolding find_robot set_playback_state
set_speed-NoneStarted robot_id speed [] robot found e = nobody
set_speed-NoneStarted robot_id speed (r ∷ robots) robot found e =
    elim (Bool-cases (r.id == robot_id)) [
      | inl same ↦ rw same (
          each
            (speed-NotStarted r speed (
              ap (λ (x : Robot). x.playback_state) (find_first robot_id r robots robot found same)
              ∙ e))
            (NoneStarted-refl robots))
      | inr other ↦ rw other (
          each (NotStarted-refl r) (
            set_speed-NoneStarted robot_id speed robots robot
              (find_later robot_id r robots robot found other) e))
    ]

fate-NoneStarted :
    (settings : PresenceSettings) (robot_id : ℕ) (d : Degraded) (f : Fate) (robots : List Robot)
    → ((robot : Robot) (ps : PlaybackState)
        → f ≡ raise robot ps
        → (find_robot robot_id robots ≡ some robot) × (robot.playback_state ≡ some ps))
    → NoneStarted robots (robots_after settings robot_id d f robots)
fate-NoneStarted settings robot_id d stay robots h = NoneStarted-refl robots
fate-NoneStarted settings robot_id d (forget b) robots h = NoneStarted-refl robots
fate-NoneStarted settings robot_id d (raise robot ps) robots h =
    set_speed-NoneStarted robot_id _ robots robot (h robot ps refl).0 (h robot ps refl).1

fate_of_speed-raise :
    (now : ℕ) (d : Degraded) (r robot : Robot) (o : Option PlaybackState) (ps : PlaybackState)
    → fate_of_speed now d r o ≡ raise robot ps
    → (r ≡ robot) × (o ≡ some ps)
fate_of_speed-raise now d r robot none ps h = grind arith
fate_of_speed-raise now d r robot (some ps') ps h = ground arith

stay-ne-raise : {robot : Robot} {ps : PlaybackState} → stay ≢ raise robot ps
stay-ne-raise h = grind arith

fate_of_robot-raise :
    (now : ℕ) (d : Degraded) (o : Option Robot) (robot : Robot) (ps : PlaybackState)
    → fate_of_robot now d o ≡ raise robot ps
    → (o ≡ some robot) × (robot.playback_state ≡ some ps)
fate_of_robot-raise now d none robot ps h = grind arith
fate_of_robot-raise now d (some r) robot ps h =
    let (same, playing) = fate_of_speed-raise now d r robot r.playback_state ps h in
    (ap some same, ap (λ (x : Robot). x.playback_state) (sym same) ∙ playing)

fate-raise :
    (all : Bool) (now : ℕ) (ops : List (String × Operator)) (robots : List Robot) (robot_id : ℕ)
    → (d : Degraded) (robot : Robot) (ps : PlaybackState)
    → fate all now ops robots robot_id d ≡ raise robot ps
    → (find_robot robot_id robots ≡ some robot) × (robot.playback_state ≡ some ps)
unfolding fate
fate-raise all now ops robots robot_id d robot ps h =
    elim (Bool-cases (not all && is_operator_away (lookup string_discrete d.user_id ops))) [
      | inl away ↦ absurd (stay-ne-raise (rw away at h))
      | inr back ↦ fate_of_robot-raise now d (find_robot robot_id robots) robot ps (rw back at h)
    ]

robots-after_fate :
    (settings : PresenceSettings) (robot_id : ℕ) (d : Degraded) (f : Fate) (rest : Ramped)
    → (after_fate settings robot_id d f rest).robots ≡ rest.robots
robots-after_fate settings robot_id d stay rest = refl
robots-after_fate settings robot_id d (forget b) rest = refl
robots-after_fate settings robot_id d (raise robot ps) rest = ground arith

pub ramp_all-NoneStarted :
    (all : Bool) (settings : PresenceSettings) (now : ℕ) (ops : List (String × Operator))
    → (d : DegradedRobots) (robots : List Robot)
    → NoneStarted robots (ramp_all all settings now ops d robots).robots
unfolding ramp_all
ramp_all-NoneStarted all settings now ops [] robots = NoneStarted-refl robots
ramp_all-NoneStarted all settings now ops (e ∷ d) robots =
    let f = fate all now ops robots e.0 e.1 in
    let rest = ramp_all all settings now ops d (robots_after settings e.0 e.1 f robots) in
    subst (NoneStarted robots) (sym (robots-after_fate settings e.0 e.1 f rest)) (
      NoneStarted-trans
        (fate-NoneStarted settings e.0 e.1 f robots (fate-raise all now ops robots e.0 e.1))
        (ramp_all-NoneStarted all settings now ops d _))

-- The check of each second sets no robot in motion, and takes back no stop and no claim, whether the
-- function is on or off.
pub tick-NoneStarted :
    (enabled : Bool) (settings : PresenceSettings) (now : ℕ) (p : OperatorPresence)
    → NoneStarted p.robots (tick enabled settings now p).0.robots
unfolding tick ramp
tick-NoneStarted true settings now p =
    NoneStarted-trans (check_all-NoneStarted settings now p.operators p.degraded p.robots)
      (ramp_all-NoneStarted false settings now _ _ _)
tick-NoneStarted false settings now p =
    ramp_all-NoneStarted true settings now [] p.degraded p.robots
