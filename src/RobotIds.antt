-- ===== src/RobotIds.antt =====
-- src/robotIds.ts: robot ids that more than one robot has. A robot without an id is `none`, and an id is
-- a whole number or a text. Controllers and robots that are not arrays are empty lists.
pub mod Count
mod Tests
use hydra_umc_server.Prelude.{
  ℕ, ◌+◌, String, Option, none, some, Bool, true, false, List, [], ◌∷◌, ◌++◌, map, length, keep,
  not, ltb, if◌then◌else◌, lookup, put, string_discrete, decimal, ite,
}

pub data RobotId : Type 0 where
  number : ℕ → RobotId
  text : String → RobotId

-- `String(robot.id)`
abbrev pub string_of : RobotId → String
string_of (number n) = decimal n
string_of (text s) = s

pub record Controller : Type 0 where
  pub id : Option String
  pub robots : List (Option RobotId)

pub record RobotIdConflict : Type 0 where
  pub robot_id : RobotId
  pub controllers : List String

abbrev pub Seen : Type 0
Seen = List (String × RobotIdConflict)

-- `String(controller?.id ?? "")`
abbrev pub name_of : Option String → String
name_of none = ""
name_of (some s) = s

abbrev pub entry_of : RobotId → Option RobotIdConflict → RobotIdConflict
entry_of robot_id none = record { robot_id = robot_id; controllers = [] }
entry_of robot_id (some entry) = entry

-- One robot of the loop: its entry gets one more controller.
unfoldable pub see : String → RobotId → Seen → Seen
see controller robot_id seen =
    let entry = entry_of robot_id (lookup string_discrete (string_of robot_id) seen) in
    put string_discrete (string_of robot_id)
      (record entry { controllers = entry.controllers ++ controller ∷ [] }) seen

unfoldable pub see_robots : String → List (Option RobotId) → Seen → Seen
unfolding see
see_robots controller [] seen = seen
see_robots controller (none ∷ robots) seen = see_robots controller robots seen
see_robots controller (some robot_id ∷ robots) seen =
    see_robots controller robots (see controller robot_id seen)

unfoldable pub see_controllers : List Controller → Seen → Seen
unfolding see_robots
see_controllers [] seen = seen
see_controllers (c ∷ controllers) seen =
    see_controllers controllers (see_robots (name_of c.id) c.robots seen)

abbrev pub is_shared : RobotIdConflict → Bool
is_shared entry = ltb 1 (length entry.controllers)

unfoldable pub robot_id_conflicts : List Controller → List RobotIdConflict
unfolding see_controllers
robot_id_conflicts settings = keep is_shared (map (λ e. e.1) (see_controllers settings []))

abbrev pub is_about : String → RobotIdConflict → Bool
is_about id c = ite (string_discrete (string_of c.robot_id) id) true false

abbrev pub find_about : String → List RobotIdConflict → Option RobotIdConflict
find_about id [] = none
find_about id (c ∷ conflicts) = if is_about id c then some c else find_about id conflicts

abbrev pub some_about : String → List RobotIdConflict → Bool
some_about id [] = false
some_about id (c ∷ conflicts) = if is_about id c then true else some_about id conflicts

unfoldable pub is_robot_id_ambiguous : List Controller → RobotId → Bool
unfolding robot_id_conflicts
is_robot_id_ambiguous settings robot_id =
    some_about (string_of robot_id) (robot_id_conflicts settings)

-- What a registration would add.
pub new_robot_id_conflicts : List Controller → List Controller → List RobotIdConflict
unfolding robot_id_conflicts
new_robot_id_conflicts current payload =
    keep (λ c. not (some_about (string_of c.robot_id) (robot_id_conflicts current)))
      (robot_id_conflicts payload)
