-- ===== src/Presence.antt =====
-- src/operatorPresence.ts, with stoppedPlaybackState of src/routes/commandRoutes.ts and
-- isReservationActive of src/playback.ts: what the dead-man does to the robots of an operator. The
-- operators and their heartbeats are in Presence/Operators, the check each second in Presence/Ramp.
-- Times are milliseconds, speeds are whole numbers and the share of the speed is in thousandths. The
-- robots of all controllers are one list, in the order of the loops, each with its controller's id.
pub mod Operators
pub mod Ramp
pub mod Motion
pub mod Deadman
pub mod Silence
pub mod Recovery
pub mod Cap
mod Tests
use hydra_umc_server.Prelude.{
  ℕ, ◌+◌, ◌-◌, ◌*◌, ◌/◌, min, max, String, Option, none, some, Bool, true, false, ◌&&◌, ◌||◌, List,
  [], ◌∷◌, ◌++◌, not, ltb, leb, ◌==◌, if◌then◌else◌, lookup, put, string_discrete, ℕ_discrete, ite,
}

pub data PresenceAction : Type 0 where
  notify slow pause stop : PresenceAction

pub record PresenceSettings : Type 0 where
  pub action : PresenceAction
  pub timeout_ms : ℕ
  pub slow_factor : ℕ
  pub recover_beats : ℕ
  pub ramp_ms : ℕ
  pub left_immediate : Bool

-- A step of -1 is `none`, and so is a speed that is not a number.
pub record PlaybackState : Type 0 where
  pub is_playing : Bool
  pub playing : Bool
  pub active_step : Option ℕ
  pub is_paused : Bool
  pub paused : Bool
  pub request_pause : Bool
  pub request_stop : Bool
  pub is_finished : Bool
  pub finished : Bool
  pub speed : Option ℕ

pub record Reservation : Type 0 where
  pub owner_id : String
  pub expires_at : Option ℕ

pub record Robot : Type 0 where
  pub controller_id : String
  pub id : ℕ
  pub name : String
  pub reservation : Option Reservation
  pub playback_state : Option PlaybackState

-- What was done to one robot.
pub record Degraded : Type 0 where
  pub user_id : String
  pub original_speed : ℕ
  pub cap : ℕ
  pub last : ℕ

abbrev pub DegradedRobots : Type 0
DegradedRobots = List (ℕ × Degraded)

pub record Delta : Type 0 where
  pub controller_id : String
  pub robot_id : ℕ
  pub patch : PlaybackState

pub data Effect : Type 0 where
  disarm stop_server_playback : ℕ → Effect
  broadcast : List Delta → Effect
  persist : Effect
  warn : List String → Effect

abbrev pub min_speed : ℕ
min_speed = 10

abbrev pub is_later : Option ℕ → ℕ → Bool
is_later none now = false
is_later (some t) now = ltb now t

abbrev pub is_reservation_active : ℕ → Option Reservation → Bool
is_reservation_active now none = false
is_reservation_active now (some r) = is_later r.expires_at now

abbrev pub is_owner : Option Reservation → String → Bool
is_owner none user_id = false
is_owner (some r) user_id = ite (string_discrete r.owner_id user_id) true false

-- The test of `ownedRobots`, which `ramp` makes too.
pub is_owned : ℕ → String → Robot → Bool
is_owned now user_id robot =
    is_reservation_active now robot.reservation && is_owner robot.reservation user_id

abbrev pub stopped_playback_state : PlaybackState → PlaybackState
stopped_playback_state ps = record ps {
  is_playing = false;
  playing = false;
  active_step = none;
  is_paused = false;
  paused = false;
  request_pause = false;
  request_stop = true;
  is_finished = false;
  finished = false;
}

abbrev pub fresh_playback_state : PlaybackState
fresh_playback_state = record {
  is_playing = false;
  playing = false;
  active_step = some 0;
  is_paused = false;
  paused = false;
  request_pause = false;
  request_stop = false;
  is_finished = false;
  finished = false;
  speed = some 100;
}

abbrev pub playback_of : Option PlaybackState → PlaybackState
playback_of none = fresh_playback_state
playback_of (some ps) = ps

-- `degraded.get(robot.id)`, where it is of this operator.
abbrev pub mine_of : String → Option Degraded → Option Degraded
mine_of user_id none = none
mine_of user_id (some d) = ite (string_discrete d.user_id user_id) (some d) none

abbrev pub is_within_cap : Option Degraded → Option ℕ → Bool
is_within_cap (some d) (some current) = leb current d.cap
is_within_cap _ _ = false

abbrev pub base_speed : Option Degraded → Option ℕ → ℕ
base_speed (some d) current = d.original_speed
base_speed none none = 100
base_speed none (some current) = if ltb 0 current then current else 100

-- `Math.round(base * slowFactor)`, and no less than 10 or than the speed itself.
abbrev pub cap_of : PresenceSettings → ℕ → ℕ
cap_of settings base = max (min min_speed base) ((base * settings.slow_factor + 500) / 1000)

abbrev pub capped : ℕ → Option ℕ → ℕ
capped cap none = cap
capped cap (some current) = min current cap

abbrev pub is_speed : Option ℕ → ℕ → Bool
is_speed none speed = false
is_speed (some current) speed = current == speed

pub record Held : Type 0 where
  pub robot : Robot
  pub degraded : DegradedRobots
  pub deltas : List Delta
  pub effects : List Effect

-- A robot that changed, with the change to broadcast.
abbrev pub changed : Robot → PlaybackState → DegradedRobots → List Effect → Held
changed robot ps degraded effects = record {
  robot = record robot { playback_state = some ps };
  degraded = degraded;
  deltas = record { controller_id = robot.controller_id; robot_id = robot.id; patch = ps } ∷ [];
  effects = effects;
}

abbrev pub unchanged : Robot → PlaybackState → DegradedRobots → Held
unchanged robot ps degraded = record {
  robot = record robot { playback_state = some ps };
  degraded = degraded;
  deltas = [];
  effects = [];
}

pub hold_slow :
    PresenceSettings → String → Robot → PlaybackState → Option Degraded → DegradedRobots → Held
hold_slow settings user_id robot ps mine degraded =
    let base = base_speed mine ps.speed in
    let cap = cap_of settings base in
    let next = capped cap ps.speed in
    let d : Degraded = record {
      user_id = user_id;
      original_speed = base;
      cap = cap;
      last = next;
    } in
    let kept = put ℕ_discrete robot.id d degraded in
    if is_within_cap mine ps.speed
    then unchanged robot ps degraded
    else if is_speed ps.speed next
    then unchanged robot ps kept
    else changed robot (record ps { speed = some next }) kept []

pub hold_pause : Robot → PlaybackState → DegradedRobots → Held
hold_pause robot ps degraded =
    if ps.is_playing && not ps.is_paused && not ps.request_stop
    then changed robot
        (record ps {
          is_playing = true;
          playing = true;
          is_paused = true;
          paused = true;
          request_pause = true;
          request_stop = false;
        })
        degraded []
    else unchanged robot ps degraded

pub hold_stop : Robot → PlaybackState → DegradedRobots → Bool → Held
hold_stop robot ps degraded first =
    if not first && not ps.is_playing
    then unchanged robot ps degraded
    else changed robot (stopped_playback_state ps) degraded
        (disarm robot.id ∷ stop_server_playback robot.id ∷ [])

abbrev pub hold_as :
    PresenceAction
    → PresenceSettings
    → String
    → Robot
    → PlaybackState
    → DegradedRobots
    → Bool
    → Held
unfolding hold_slow hold_pause hold_stop
hold_as slow settings user_id robot ps degraded first =
    hold_slow settings user_id robot ps (mine_of user_id (lookup ℕ_discrete robot.id degraded))
      degraded
hold_as pause settings user_id robot ps degraded first = hold_pause robot ps degraded
hold_as stop settings user_id robot ps degraded first = hold_stop robot ps degraded first
hold_as notify settings user_id robot ps degraded first = unchanged robot ps degraded

-- The action on one robot; `first` is the moment of the loss.
pub hold : PresenceSettings → String → Robot → DegradedRobots → Bool → Held
hold settings user_id robot degraded first =
    hold_as settings.action settings user_id robot (playback_of robot.playback_state) degraded first
