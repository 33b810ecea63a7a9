-- ===== src/Liveness.antt =====
-- src/robotLiveness.ts: the signal of life of each robot. The roster of the settings is that of RobotIds;
-- the clock is an argument of each call, in milliseconds, and an instant stands for its text.
pub mod News
mod Tests
use hydra_umc_server.Prelude.{
  ℕ, ◌+◌, ◌-◌, ◌/◌, String, Option, none, some, List, [], ◌∷◌, ◌++◌, leb, ◌&&◌, ℕ_discrete, lookup,
  put, if◌then◌else◌,
}
use hydra_umc_server.RobotIds.{RobotId, number, text, Controller, name_of}

pub data LivenessState : Type 0 where
  live stale unknown : LivenessState

pub data LivenessSource : Type 0 where
  state heartbeat : LivenessSource

abbrev pub default_stale_after_s : ℕ
default_stale_after_s = 30

abbrev pub min_stale_after_s : ℕ
min_stale_after_s = 1

abbrev pub max_stale_after_s : ℕ
max_stale_after_s = 3600

-- The configured value, `none` when it is not a whole number or is below zero.
unfoldable pub stale_after_from : Option ℕ → ℕ
stale_after_from none = default_stale_after_s
stale_after_from (some value) =
    if leb min_stale_after_s value && leb value max_stale_after_s
    then value
    else default_stale_after_s

pub record RobotLiveness : Type 0 where
  pub controller_id : String
  pub robot_id : ℕ
  pub state : LivenessState
  pub last_update_utc : Option ℕ
  pub age_s : Option ℕ
  pub source : Option LivenessSource

pub record Touch : Type 0 where
  pub at : ℕ
  pub source : LivenessSource

abbrev pub Touches : Type 0
Touches = List (ℕ × Touch)

unfoldable pub touch : ℕ → ℕ → LivenessSource → Touches → Touches
touch now robot_id source touches =
    put ℕ_discrete robot_id (record { at = now; source = source }) touches

-- `Math.max(0, Math.round((now - touch.at) / 1000))`
abbrev pub age_of : ℕ → ℕ → ℕ
age_of now at = (now - at + 500) / 1000

-- The line of one robot, with what is known of it.
unfoldable pub line_of : ℕ → ℕ → String → ℕ → Option Touch → RobotLiveness
line_of now stale_after_s controller_id robot_id none = record {
  controller_id = controller_id;
  robot_id = robot_id;
  state = unknown;
  last_update_utc = none;
  age_s = none;
  source = none;
}
line_of now stale_after_s controller_id robot_id (some t) = record {
  controller_id = controller_id;
  robot_id = robot_id;
  state = if leb (age_of now t.at) stale_after_s then live else stale;
  last_update_utc = some t.at;
  age_s = some (age_of now t.at);
  source = some t.source;
}

-- The robots of a controller. One whose id is not a number has no line.
unfoldable pub lines_of : ℕ → ℕ → String → List (Option RobotId) → Touches → List RobotLiveness
unfolding line_of
lines_of now stale_after_s controller [] touches = []
lines_of now stale_after_s controller (none ∷ robots) touches =
    lines_of now stale_after_s controller robots touches
lines_of now stale_after_s controller (some (text s) ∷ robots) touches =
    lines_of now stale_after_s controller robots touches
lines_of now stale_after_s controller (some (number id) ∷ robots) touches =
    line_of now stale_after_s controller id (lookup ℕ_discrete id touches)
    ∷ lines_of now stale_after_s controller robots touches

unfoldable pub report : ℕ → ℕ → List Controller → Touches → List RobotLiveness
unfolding lines_of
report now stale_after_s [] touches = []
report now stale_after_s (c ∷ controllers) touches =
    lines_of now stale_after_s (name_of c.id) c.robots touches
    ++ report now stale_after_s controllers touches
