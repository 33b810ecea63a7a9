-- ===== src/Robots/Deltas.antt =====
-- What a client does with a patch: it puts each field of it in the place of its own.
use hydra_umc_server.Prelude.{Option, none, some}
use hydra_umc_server.Robots.{Robot, Patch}

abbrev pub replace {ℓ} : {A : Type ℓ} → Option A → A → A
replace none old = old
replace (some new) old = new

abbrev pub replace_field {ℓ} : {A : Type ℓ} → Option A → Option A → Option A
replace_field none old = old
replace_field (some new) old = some new

module _ {ℓ} {V : Type ℓ} where
  -- `{ ...robot, ...patch }`
  unfoldable pub merge : Patch V → Robot V → Robot V
  merge patch robot = record robot {
    model = replace patch.model robot.model;
    role = replace_field patch.role robot.role;
    enabled = replace_field patch.enabled robot.enabled;
    combined_with = replace patch.combined_with robot.combined_with;
    playback_state = replace_field patch.playback_state robot.playback_state;
    pos = replace patch.pos robot.pos;
    joints = replace patch.joints robot.joints;
    has_xy_table = replace patch.has_xy_table robot.has_xy_table;
    xy_table = replace_field patch.xy_table robot.xy_table;
    tool = replace_field patch.tool robot.tool;
    valves = replace_field patch.valves robot.valves;
    pumps = replace_field patch.pumps robot.pumps;
    jog_step = replace_field patch.jog_step robot.jog_step;
    reset3d_trigger = replace_field patch.reset3d_trigger robot.reset3d_trigger;
    recorded_points = replace patch.recorded_points robot.recorded_points;
    selected_work_file = replace_field patch.selected_work_file robot.selected_work_file;
    selected_example = replace_field patch.selected_example robot.selected_example;
    vision_enabled = replace_field patch.vision_enabled robot.vision_enabled;
    camera_connected = replace_field patch.camera_connected robot.camera_connected;
  }
