-- ===== src/Presence/Ramp.antt =====
-- src/operatorPresence.ts: the check that is made each second, and the return of the speeds.
use hydra_umc_server.Prelude.{
  ℕ, ◌+◌, ◌-◌, ◌*◌, ◌/◌, min, max, String, Option, none, some, Bool, true, false, ◌&&◌, ◌||◌, List,
  [], ◌∷◌, ◌++◌, not, leb, ◌==◌, if◌then◌else◌, lookup, string_discrete,
}
use hydra_umc_server.Presence.{
  PresenceSettings, PlaybackState, Robot, Degraded, DegradedRobots, Delta, Effect, is_owned,
  is_speed,
}
use hydra_umc_server.Presence.Operators.{
  Operator, OperatorPresence, Outcome, is_lost, is_away, push_deltas, evaluate, enforce,
}

-- `findRobot`: the first with the id.
unfoldable pub find_robot : ℕ → List Robot → Option Robot
find_robot robot_id [] = none
find_robot robot_id (robot ∷ robots) =
    if robot.id == robot_id then some robot else find_robot robot_id robots

-- `ps.speed = next`, on the robot that `find_robot` finds.
unfoldable pub set_playback_state : ℕ → PlaybackState → List Robot → List Robot
set_playback_state robot_id ps [] = []
set_playback_state robot_id ps (robot ∷ robots) =
    if robot.id == robot_id
    then record robot { playback_state = some ps } ∷ robots
    else robot ∷ set_playback_state robot_id ps robots

abbrev pub ceil_div : ℕ → ℕ → ℕ
ceil_div a b = (a + b - 1) / b

abbrev pub ramp_step : PresenceSettings → Degraded → ℕ
ramp_step settings d =
    if settings.ramp_ms == 0
    then d.original_speed - d.last
    else max 1 (ceil_div ((d.original_speed - d.cap) * 1000) settings.ramp_ms)

abbrev pub next_speed : PresenceSettings → Degraded → ℕ
next_speed settings d = min d.original_speed (d.last + ramp_step settings d)

pub record Ramped : Type 0 where
  pub degraded : DegradedRobots
  pub robots : List Robot
  pub deltas : List Delta
  pub is_finished : Bool

-- What becomes of one robot that is held back: it stays so, it is let go, or its speed goes up.
pub data Fate : Type 0 where
  stay : Fate
  forget : Bool → Fate
  raise : Robot → PlaybackState → Fate

abbrev pub is_operator_away : Option Operator → Bool
is_operator_away none = false
is_operator_away (some op) = is_away op.state

abbrev pub fate_of_speed : ℕ → Degraded → Robot → Option PlaybackState → Fate
fate_of_speed now d robot none = forget true
fate_of_speed now d robot (some ps) =
    if not (is_speed ps.speed d.last)
    then forget true
    else if not (is_owned now d.user_id robot)
    then forget false
    else raise robot ps

abbrev pub fate_of_robot : ℕ → Degraded → Option Robot → Fate
fate_of_robot now d none = forget false
fate_of_robot now d (some robot) = fate_of_speed now d robot robot.playback_state

unfoldable pub fate : Bool → ℕ → List (String × Operator) → List Robot → ℕ → Degraded → Fate
fate all now operators robots robot_id d =
    if not all && is_operator_away (lookup string_discrete d.user_id operators)
    then stay
    else fate_of_robot now d (find_robot robot_id robots)

abbrev pub keep_held : ℕ × Degraded → Ramped → Ramped
keep_held e rest = record rest { degraded = e ∷ rest.degraded }

abbrev pub let_go : Bool → Ramped → Ramped
let_go finished rest = record rest { is_finished = finished || rest.is_finished }

abbrev pub add_delta : Delta → Ramped → Ramped
add_delta delta rest = record rest { deltas = delta ∷ rest.deltas }

abbrev pub to_speed : PlaybackState → ℕ → PlaybackState
to_speed ps speed = record ps { speed = some speed }

-- The robots after the fate of one of them.
abbrev pub robots_after : PresenceSettings → ℕ → Degraded → Fate → List Robot → List Robot
robots_after settings robot_id d (raise robot ps) robots =
    set_playback_state robot_id (to_speed ps (next_speed settings d)) robots
robots_after settings robot_id d _ robots = robots

abbrev pub after_fate : PresenceSettings → ℕ → Degraded → Fate → Ramped → Ramped
after_fate settings robot_id d stay rest = keep_held (robot_id, d) rest
after_fate settings robot_id d (forget finished) rest = let_go finished rest
after_fate settings robot_id d (raise robot ps) rest =
    let next = next_speed settings d in
    let sent =
      add_delta
        (record {
          controller_id = robot.controller_id;
          robot_id = robot_id;
          patch = to_speed ps next;
        })
        rest in
    if leb d.original_speed next
    then let_go true sent
    else keep_held (robot_id, record d { last = next }) sent

-- The loop over the robots that are held back.
unfoldable pub ramp_all :
    Bool → PresenceSettings → ℕ → List (String × Operator) → DegradedRobots → List Robot → Ramped
ramp_all all settings now operators [] robots = record {
  degraded = [];
  robots = robots;
  deltas = [];
  is_finished = false;
}
ramp_all all settings now operators (e ∷ degraded) robots =
    let f = fate all now operators robots e.0 e.1 in
    let rest =
      ramp_all all settings now operators degraded (robots_after settings e.0 e.1 f robots) in
    after_fate settings e.0 e.1 f rest

unfoldable pub ramp :
    Bool → PresenceSettings → ℕ → OperatorPresence → OperatorPresence × List Effect
ramp all settings now p =
    let r = ramp_all all settings now p.operators p.degraded p.robots in
    (
      record { operators = p.operators; degraded = r.degraded; robots = r.robots },
      push_deltas r.deltas r.is_finished,
    )

-- One operator in the check each second.
unfoldable pub check_operator :
    PresenceSettings → ℕ → Operator → DegradedRobots → List Robot → Outcome
check_operator settings now op degraded robots =
    let o = evaluate settings now op degraded robots in
    let held = enforce settings now o.operator o.degraded o.robots in
    if is_lost o.operator.state then record held { effects = o.effects ++ held.effects } else o

abbrev pub with_operator :
    String → Outcome → OperatorPresence × List Effect → OperatorPresence × List Effect
with_operator key o (p, effects) =
    (record p { operators = (key, o.operator) ∷ p.operators }, o.effects ++ effects)

-- The loop over the operators.
unfoldable pub check_all :
    PresenceSettings
    → ℕ
    → List (String × Operator)
    → DegradedRobots
    → List Robot
    → OperatorPresence × List Effect
check_all settings now [] degraded robots =
    (record { operators = []; degraded = degraded; robots = robots }, [])
check_all settings now (e ∷ operators) degraded robots =
    let o = check_operator settings now e.1 degraded robots in
    with_operator e.0 o (check_all settings now operators o.degraded o.robots)

abbrev pub then_ramp :
    PresenceSettings → ℕ → OperatorPresence × List Effect → OperatorPresence × List Effect
then_ramp settings now (p, effects) =
    let (p', more) = ramp false settings now p in (p', effects ++ more)

-- The check that is made about once a second.
unfoldable pub tick :
    Bool → PresenceSettings → ℕ → OperatorPresence → OperatorPresence × List Effect
tick enabled settings now p =
    if enabled
    then then_ramp settings now (check_all settings now p.operators p.degraded p.robots)
    else ramp true settings now (record p { operators = [] })
