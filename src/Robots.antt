-- ===== src/Robots.antt =====
-- The robots as the settings hold them, for the commands of src/routes/commandRoutes.ts, src/robotEdit.ts,
-- src/tableCommand.ts and src/modelHome.ts. The numbers of the language are any type `V` with its
-- operations, and a value that is no finite number is `none`. The robots of all controllers are one list,
-- in the order of the loops, each with its controller's id.
pub mod Deltas
pub mod Ids
use hydra_umc_server.Prelude.{
  ℕ, String, Option, none, some, Bool, true, false, List, [], ◌∷◌, ite, ℕ_discrete, if◌then◌else◌,
  map, ◌==◌,
}
use hydra_umc_server.Claims.{Reservation}
use hydra_umc_server.Playback.{Joints, Position}

-- The arithmetic of the language: the literals n and n / 100, and what the source computes with.
pub record Numbers {ℓ} (V : Type ℓ) : Type ℓ where
  pub of_nat : ℕ → V
  pub hundredths : ℕ → V
  pub plus : V → V → V
  pub neg : V → V
  pub abs : V → V
  pub le : V → V → Bool

-- A step of -1 is `none`.
pub record PlaybackState {ℓ} (V : Type ℓ) : Type ℓ where
  pub is_playing : Bool
  pub playing : Bool
  pub active_step : Option ℕ
  pub is_paused : Option Bool
  pub paused : Bool
  pub request_pause : Bool
  pub request_stop : Bool
  pub is_finished : Bool
  pub finished : Bool
  pub is_looping : Bool
  pub speed : Option V
  pub acceleration : Option V

pub record TablePos {ℓ} (V : Type ℓ) : Type ℓ where
  pub x : Option V
  pub y : Option V

pub record XyTable {ℓ} (V : Type ℓ) : Type ℓ where
  pub pos : Option (TablePos V)
  pub table_size : Option (V × V)
  pub world_pos : Option (V × V)
  pub world_rot : Option V
  pub render_scale : Option V

-- The fields of a recorded point that are numbers.
pub data PointField : Type 0 where
  f_j1 f_j2 f_j3 f_j4 f_j5 f_j6 f_x f_y f_z f_a f_b f_c f_tx f_ty f_trz : PointField

pub record Point {ℓ} (V : Type ℓ) : Type ℓ where
  pub field : PointField → Option V
  pub is_model_joints : Bool

pub record Robot {ℓ} (V : Type ℓ) : Type ℓ where
  pub controller_id : String
  pub id : ℕ
  pub model : String
  pub role : Option String
  pub enabled : Option Bool
  pub reservation : Option Reservation
  pub combined_with : List ℕ
  pub playback_state : Option (PlaybackState V)
  pub pos : Position V
  pub joints : Joints V
  pub has_xy_table : Bool
  pub xy_table : Option (XyTable V)
  pub tool : Option String
  pub valves : Option (List Bool)
  pub pumps : Option (List Bool)
  pub jog_step : Option V
  pub reset3d_trigger : Option ℕ
  pub recorded_points : List (Point V)
  pub selected_work_file : Option String
  pub selected_example : Option String
  pub vision_enabled : Option Bool
  pub camera_connected : Option Bool

-- What is sent to the clients of a robot: the new values of whole fields, `none` for a field that is not
-- in the patch.
pub record Patch {ℓ} (V : Type ℓ) : Type ℓ where
  pub model : Option String
  pub role : Option String
  pub enabled : Option Bool
  pub combined_with : Option (List ℕ)
  pub playback_state : Option (PlaybackState V)
  pub pos : Option (Position V)
  pub joints : Option (Joints V)
  pub has_xy_table : Option Bool
  pub xy_table : Option (XyTable V)
  pub tool : Option String
  pub valves : Option (List Bool)
  pub pumps : Option (List Bool)
  pub jog_step : Option V
  pub reset3d_trigger : Option ℕ
  pub recorded_points : Option (List (Point V))
  pub selected_work_file : Option String
  pub selected_example : Option String
  pub vision_enabled : Option Bool
  pub camera_connected : Option Bool

module _ {ℓ} {V : Type ℓ} where
  abbrev pub no_patch : Patch V
  no_patch = record {
    model = none;
    role = none;
    enabled = none;
    combined_with = none;
    playback_state = none;
    pos = none;
    joints = none;
    has_xy_table = none;
    xy_table = none;
    tool = none;
    valves = none;
    pumps = none;
    jog_step = none;
    reset3d_trigger = none;
    recorded_points = none;
    selected_work_file = none;
    selected_example = none;
    vision_enabled = none;
    camera_connected = none;
  }

  -- `{ ...undefined }` has no field, and a field that is not there is no `true`.
  abbrev pub playback_or_empty : Option (PlaybackState V) → PlaybackState V
  playback_or_empty none = record {
    is_playing = false;
    playing = false;
    active_step = none;
    is_paused = none;
    paused = false;
    request_pause = false;
    request_stop = false;
    is_finished = false;
    finished = false;
    is_looping = false;
    speed = none;
    acceleration = none;
  }
  playback_or_empty (some ps) = ps

  -- The playback state that a stopped robot ends in.
  unfoldable pub stopped_playback_state : Option (PlaybackState V) → PlaybackState V
  stopped_playback_state previous = record (playback_or_empty previous) {
    is_playing = false;
    playing = false;
    active_step = none;
    is_paused = some false;
    paused = false;
    request_pause = false;
    request_stop = true;
    is_finished = false;
    finished = false;
  }

  abbrev pub is_playing_state : Option (PlaybackState V) → Bool
  is_playing_state none = false
  is_playing_state (some ps) = if ps.is_playing then true else ps.playing

  -- Whether the robot is running a playback right now.
  pub is_playing : Robot V → Bool
  is_playing robot = is_playing_state robot.playback_state

  -- The robot with an id: the last one that a loop over all robots sees.
  unfoldable pub find_last : ℕ → List (Robot V) → Option (Robot V)
  find_last id [] = none
  find_last id (robot ∷ robots) = elim (find_last id robots) [
    | some found ↦ some found
    | none ↦ if robot.id == id then some robot else none
  ]

abbrev pub includes : ℕ → List ℕ → Bool
includes id [] = false
includes id (j ∷ ids) = if j == id then true else includes id ids

-- Every valve or pump off, and how many were on. A hole of the array is off.
unfoldable pub switch_all_off : List Bool → List Bool
switch_all_off [] = []
switch_all_off (on ∷ outputs) = false ∷ switch_all_off outputs
