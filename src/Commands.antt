-- ===== src/Commands.antt =====
-- src/routes/commandRoutes.ts: the commands that reach the robots, POST /api/robot/:id/command and
-- POST /api/stop-all. A request is a record of what the handler reads of it: a command with its
-- parameters, the account, the controller id as readControllerId gives it (inner `none` when absent, outer
-- `none` when malformed) and the numbering. What is checked is in Commands/Admission, what happens to one
-- robot in Commands/Switch, the whole handlers in Commands/Handle.
pub mod Admission
pub mod Planning
pub mod Cases
pub mod Switch
pub mod Apply
pub mod Handle
pub mod StopAll
pub mod Inversion
pub mod Checked
pub mod Reach
pub mod Service
pub mod Disabled
pub mod SafeMode
pub mod Halt
pub mod Homes
pub mod Sync
mod Tests
use hydra_umc_server.Prelude.{ℕ, String, Option, none, some, Bool, true, false, List, [], ◌∷◌, ◌++◌}
use hydra_umc_server.Playback.{Joints, Position}
use hydra_umc_server.Robots.{Numbers, Point, Robot, Patch}
use hydra_umc_server.Claims.{ClaimConflict}
use hydra_umc_server.Jog.{Marks}
use hydra_umc_server.JogArming.{Armed}
use hydra_umc_server.TableCommand.{TableLimits, TableParams, TablePlan, TableRefusal}
use hydra_umc_server.ModelHome.{Six, Entry, SentJoints, HomeRefusal}
use hydra_umc_server.RobotEdit.{RawPoint, Edit, Patterns, EditRefusal, edit_affected_ids}

pub data Axis : Type 0 where
  axis_x axis_y axis_z axis_a axis_b axis_c : Axis

pub data JogTarget : Type 0 where
  to_robot to_table to_other : JogTarget

pub record JogParams {ℓ} (V : Type ℓ) : Type ℓ where
  pub axis : Option Axis
  pub amount : Option V
  pub absolute : Bool
  pub target : JogTarget
  pub joints : Option (Six (Option V))

pub record TrajectoryParams {ℓ} (V : Type ℓ) : Type ℓ where
  pub points : Option (List (Option (RawPoint V)))
  pub selected_work_file : Option (Option String)
  pub selected_example : Option (Option String)

-- The known commands, each with what its case reads of `params`: `none` where it is absent or of the wrong
-- kind. A reset says whether it is for the table; the two settings of `speed` may be left out.
pub data Command {ℓ} (V : Type ℓ) : Type ℓ where
  stop play disable enable reset3d : Command V
  pause vision : Option Bool → Command V
  jog : JogParams V → Command V
  reset : Bool → SentJoints V → Command V
  jog_step : Option V → Command V
  tool : Option String → Command V
  valve pump : Option ℕ → Option Bool → Command V
  speed : Option (Option V) → Option (Option V) → Command V
  trajectory : TrajectoryParams V → Command V
  move_table : TableParams V → Command V
  edit : Edit V → Command V

pub data Refusal : Type 0 where
  unknown_command no_settings robot_id_ambiguous robot_not_found invalid_controller_id : Refusal
  enable_not_allowed admin_required : Refusal
  robot_disabled : ℕ → Refusal
  claimed_by_other : ClaimConflict → Refusal
  revision_mismatch jog_not_armed invalid_sequence : Refusal
  stale_sequence : ℕ → Refusal
  table_refused : TableRefusal → Refusal
  home_refused : HomeRefusal → Refusal
  edit_refused : EditRefusal → Refusal
  invalid_trajectory : Refusal

pub record Request {ℓ} (V : Type ℓ) : Type ℓ where
  pub robot_id : ℕ
  pub command : Option (Command V)
  pub user_id : String
  pub is_admin : Bool
  pub presented : Option (Option String)
  pub if_match : Option String
  pub seq : Option (Option ℕ)

-- The settings and the rest of the program that a handler reads: `if_match_agrees` compares a header with
-- the revision of a robot, `calculate_joints` is that of src/kinematics.ts.
pub record Config {ℓ} (V : Type ℓ) : Type ℓ where
  pub num : Numbers V
  pub patterns : Patterns
  pub model_key : String → String
  pub models : List (String × Entry V)
  pub jog_for : String → TableLimits V
  pub calculate_joints : Position V → Joints V
  pub if_match_agrees : Option String → Robot V → Bool
  pub robot_enable_allowed : Bool
  pub arm_required : Bool

pub record Camera : Type 0 where
  pub controller_id : String
  pub id : ℕ
  pub assigned_robot_id : Option ℕ
  pub connected : Bool

pub record World {ℓ} (V : Type ℓ) : Type ℓ where
  pub is_loaded : Bool
  pub robots : List (Robot V)
  pub cameras : List Camera
  pub armed : Armed
  pub marks : Marks

pub data Effect : Type 0 where
  start_server_playback stop_server_playback : ℕ → Effect
  claims_changed : Effect

pub record Delta {ℓ} (V : Type ℓ) : Type ℓ where
  pub controller_id : String
  pub robot_id : ℕ
  pub patch : Patch V

pub data Warning : Type 0 where
  jog_warning valve_warning pump_warning speed_warning acceleration_warning : ℕ → Warning

-- What was checked before anything is changed, of the commands that are planned as a whole.
pub data Plan {ℓ} (V : Type ℓ) : Type ℓ where
  no_plan : Plan V
  table_plan : TablePlan V → Plan V
  home_plan : List (ℕ × Six V) → Plan V
  edit_plan : Patch V → Plan V
  trajectory_plan : List (Point V) → Option String → Option String → Plan V

module _ {ℓ} {V : Type ℓ} where
  -- The commands that still work on a disabled robot.
  abbrev pub works_on_a_disabled_robot : Command V → Bool
  works_on_a_disabled_robot stop = true
  works_on_a_disabled_robot disable = true
  works_on_a_disabled_robot enable = true
  works_on_a_disabled_robot _ = false

  -- `command === "stop" || command === "disable"`: what makes a robot safer is never held back.
  abbrev pub is_stopping : Command V → Bool
  is_stopping stop = true
  is_stopping disable = true
  is_stopping _ = false

  -- `jog`, `table`, `joints` and `reset`.
  abbrev pub is_motion : Command V → Bool
  is_motion (jog p) = true
  is_motion (move_table p) = true
  is_motion (edit (Edit.joints p)) = true
  is_motion (reset for_table p) = true
  is_motion _ = false

  -- The robots that a command reaches.
  unfoldable pub affected_ids : Command V → Robot V → List ℕ
  affected_ids (edit e) target = edit_affected_ids e target
  affected_ids (trajectory p) target = target.id ∷ []
  affected_ids (move_table p) target = target.id ∷ []
  affected_ids enable target = target.id ∷ []
  affected_ids disable target = target.id ∷ []
  affected_ids command target = target.id ∷ target.combined_with
