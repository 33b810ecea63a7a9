-- ===== src/RobotEdit.antt =====
-- src/robotEdit.ts: the edits of one robot, checked as a whole before anything changes. A value that is
-- absent is `none`, and inside a value of the wrong kind is `none` too. The tests of the patterns and
-- `trim` are arguments (`Patterns`). Refusals are without messages.
pub mod Sound
pub mod Plan
pub mod Combine
pub mod InService
mod Tests
use hydra_umc_server.Prelude.{
  ℕ, String, Option, none, some, Bool, true, false, List, [], ◌∷◌, ◌++◌, ◌&&◌, ◌||◌, not, leb, ltb,
  length, if◌then◌else◌, is_same, Result, ok, err, ◌>>=◌, ◌>>◌, guard, or_err, map, keep,
}
use hydra_umc_server.Robots.{
  Numbers, PlaybackState, XyTable, TablePos, PointField, f_j1, f_j2, f_j3, f_j4, f_j5, f_j6, f_x,
  f_y, f_z, f_a, f_b, f_c, f_tx, f_ty, f_trz, Point, Robot, Patch, no_patch, playback_or_empty,
  is_playing, includes,
}
use hydra_umc_server.ModelHome.{Six, as_joints}

abbrev pub max_recorded_points : ℕ
max_recorded_points = 10000

abbrev pub max_joint_abs : ℕ
max_joint_abs = 720

abbrev pub max_combined : ℕ
max_combined = 8

pub data EditRefusal : Type 0 where
  robot_running invalid_points invalid_loop invalid_model invalid_role invalid_combine
        invalid_joints invalid_table :
      EditRefusal

-- What the source tests texts with: `trim` and its patterns.
pub record Patterns : Type 0 where
  pub trim : String → String
  pub is_model_name : String → Bool
  pub is_work_file : String → Bool
  pub is_example_id : String → Bool

-- The motion type of a point of a request: absent, `model-joints`, or anything else.
pub data MotionType : Type 0 where
  no_type model_joints other_type : MotionType

-- A point of a request that is an object.
pub record RawPoint {ℓ} (V : Type ℓ) : Type ℓ where
  pub field : PointField → Option (Option V)
  pub motion_type : MotionType

pub record RawTable {ℓ} (V : Type ℓ) : Type ℓ where
  pub enabled : Option (Option Bool)
  pub table_size : Option (Option (V × V))
  pub world_pos : Option (Option (V × V))
  pub world_rot : Option (Option V)
  pub render_scale : Option (Option V)

-- The edit commands with what they read of `params`.
pub data Edit {ℓ} (V : Type ℓ) : Type ℓ where
  points : Option (List (Option (RawPoint V))) → Edit V
  loop : Option Bool → Edit V
  model role : Option String → Edit V
  combine : Option (List (Option ℕ)) → Edit V
  joints : Option (Six (Option V)) → Edit V
  xy_table_config : RawTable V → Edit V

abbrev pub point_fields : List PointField
point_fields =
    f_j1 ∷ f_j2 ∷ f_j3 ∷ f_j4 ∷ f_j5 ∷ f_j6 ∷ f_x ∷ f_y ∷ f_z ∷ f_a ∷ f_b ∷ f_c ∷ f_tx ∷ f_ty
    ∷ f_trz ∷ []

abbrev pub motion_of : MotionType → Option Bool
motion_of no_type = some false
motion_of model_joints = some true
motion_of other_type = none

-- A field that is there and is no finite number.
abbrev pub is_bad {ℓ} : {V : Type ℓ} → Option (Option V) → Bool
is_bad (some none) = true
is_bad _ = false

abbrev pub value_of {ℓ} : {V : Type ℓ} → Option (Option V) → Option V
value_of none = none
value_of (some v) = v

abbrev pub is_number {ℓ} : {V : Type ℓ} → Option V → Bool
is_number none = false
is_number (some v) = true

module _ {ℓ} {V : Type ℓ} where
  abbrev pub no_bad : (PointField → Option (Option V)) → List PointField → Bool
  no_bad field [] = true
  no_bad field (f ∷ fields) = not (is_bad (field f)) && no_bad field fields

  abbrev pub has_native_joints : (PointField → Option V) → Bool
  has_native_joints field =
      is_number (field f_j1)
      && is_number (field f_j2)
      && is_number (field f_j3)
      && is_number (field f_j4)
      && is_number (field f_j5)
      && is_number (field f_j6)

  abbrev pub has_cartesian_pose : (PointField → Option V) → Bool
  has_cartesian_pose field = is_number (field f_x) && is_number (field f_y) && is_number (field f_z)

  pub checked_point : (PointField → Option V) → Bool → Result EditRefusal (Point V)
  checked_point field is_model = do
    guard (has_native_joints field || has_cartesian_pose field) invalid_points
    ok (record { field = field; is_model_joints = is_model })

  -- One recorded point reduced to the fields a point may carry.
  pub clean_point : Option (RawPoint V) → Result EditRefusal (Point V)
  unfolding checked_point
  clean_point raw = do
    given ← or_err raw invalid_points
    guard (no_bad given.field point_fields) invalid_points
    is_model ← or_err (motion_of given.motion_type) invalid_points
    checked_point (λ f. value_of (given.field f)) is_model

  pub clean_all : List (Option (RawPoint V)) → Result EditRefusal (List (Point V))
  unfolding clean_point
  clean_all [] = ok []
  clean_all (raw ∷ raws) = do ok ((← clean_point raw) ∷ (← clean_all raws))

  pub clean_points : Option (List (Option (RawPoint V))) → ℕ → Result EditRefusal (List (Point V))
  unfolding clean_all
  clean_points raw minimum = do
    raws ← or_err raw invalid_points
    guard (leb minimum (length raws) && leb (length raws) max_recorded_points) invalid_points
    clean_all raws

-- `Array.from(new Set(ids))`
pub unique_from : List ℕ → List ℕ → List ℕ
unique_from seen [] = []
unique_from seen (id ∷ ids) =
    let rest = unique_from (id ∷ seen) ids in
    let others = unique_from seen ids in if includes id seen then others else id ∷ rest

pub unique : List ℕ → List ℕ
unique ids = unique_from [] ids

-- The ids that are numbers.
abbrev pub numbers_of : List (Option ℕ) → List ℕ
numbers_of [] = []
numbers_of (none ∷ ids) = numbers_of ids
numbers_of (some id ∷ ids) = id ∷ numbers_of ids

abbrev pub all_numbers : List (Option ℕ) → Option (List ℕ)
all_numbers [] = some []
all_numbers (none ∷ ids) = none
all_numbers (some id ∷ ids) = elim (all_numbers ids) [ none ↦ none | some rest ↦ some (id ∷ rest) ]

abbrev pub all_exist : List ℕ → List ℕ → Bool
all_exist siblings [] = true
all_exist siblings (id ∷ ids) = includes id siblings && all_exist siblings ids

abbrev pub robot_roles : List String
robot_roles = "Idle" ∷ "CNC" ∷ "Laser" ∷ "Pnp" ∷ "3D printing" ∷ "Inspection" ∷ []

abbrev pub is_listed : String → List String → Bool
is_listed s [] = false
is_listed s (t ∷ ts) = is_same t s || is_listed s ts

module _ {ℓ} {V : Type ℓ} where
  -- The ids a command touches beyond its own robot.
  pub edit_affected_ids : Edit V → Robot V → List ℕ
  edit_affected_ids (combine (some ids)) robot =
      unique (robot.id ∷ robot.combined_with ++ numbers_of ids)
  edit_affected_ids (combine none) robot = unique (robot.id ∷ robot.combined_with)
  edit_affected_ids edit robot = robot.id ∷ []

module _ {ℓ} {V : Type ℓ} (num : Numbers V) where
  abbrev pub number_in : V → V → V → Bool
  number_in low high v = num.le low v && num.le v high

  abbrev pub is_joint_value : Option V → Bool
  is_joint_value none = false
  is_joint_value (some v) =
      number_in (num.neg (num.of_nat max_joint_abs)) (num.of_nat max_joint_abs) v

  abbrev pub are_joint_values : Six (Option V) → Bool
  are_joint_values s =
      is_joint_value s.j1
      && is_joint_value s.j2
      && is_joint_value s.j3
      && is_joint_value s.j4
      && is_joint_value s.j5
      && is_joint_value s.j6

  -- The playback state that a robot without one starts from.
  abbrev pub initial_playback_state : PlaybackState V
  initial_playback_state = record (playback_or_empty none) {
    active_step = some 0;
    speed = some (num.of_nat 100);
  }

  abbrev pub playback_or_initial : Option (PlaybackState V) → PlaybackState V
  playback_or_initial none = initial_playback_state
  playback_or_initial (some ps) = ps
