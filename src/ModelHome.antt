-- ===== src/ModelHome.antt =====
-- src/modelHome.ts: the home pose of each robot model and the range of its joints. The table that
-- src/data/kinematicData.json holds is an argument, and so is the text that a model is looked up by
-- (`String(model ?? "").trim().toLowerCase()`). Refusals are without messages.
pub mod Pose
mod Tests
use hydra_umc_server.Prelude.{
  String, Option, none, some, Bool, true, false, List, [], ◌∷◌, ◌||◌, ◌&&◌, not, lookup,
  string_discrete, Result, ok, err, ◌>>=◌, ◌>>◌, guard, if◌then◌else◌, ℕ, or_err,
}
use hydra_umc_server.Playback.{Joints}
use hydra_umc_server.Robots.{Numbers}

-- A value for each of the joints j1 to j6.
pub record Six {ℓ} (A : Type ℓ) : Type ℓ where
  pub j1 : A
  pub j2 : A
  pub j3 : A
  pub j4 : A
  pub j5 : A
  pub j6 : A

pub record Entry {ℓ} (V : Type ℓ) : Type ℓ where
  pub limits : Six (V × V)
  pub home : Six V

pub record ModelHome {ℓ} (V : Type ℓ) : Type ℓ where
  pub listed : Bool
  pub joints : Six V
  pub limits : Six (V × V)

pub data HomeRefusal : Type 0 where
  home_pose_mismatch home_out_of_limits : HomeRefusal

-- The joints of a request: not there, no object, or an object with a value for each joint, `none` where it
-- is no finite number.
pub data SentJoints {ℓ} (V : Type ℓ) : Type ℓ where
  not_sent no_object : SentJoints V
  sent : Six (Option V) → SentJoints V

module _ {ℓ} {V : Type ℓ} where
  abbrev pub as_joints : Six V → Joints V
  as_joints s = record {
    j1 = some s.j1;
    j2 = some s.j2;
    j3 = some s.j3;
    j4 = some s.j4;
    j5 = some s.j5;
    j6 = some s.j6;
  }

  -- The six numbers, where all are finite.
  pub all_six : Six (Option V) → Result HomeRefusal (Six V)
  all_six asked = do
    a ← or_err asked.j1 home_pose_mismatch
    b ← or_err asked.j2 home_pose_mismatch
    c ← or_err asked.j3 home_pose_mismatch
    d ← or_err asked.j4 home_pose_mismatch
    e ← or_err asked.j5 home_pose_mismatch
    f ← or_err asked.j6 home_pose_mismatch
    ok (record { j1 = a; j2 = b; j3 = c; j4 = d; j5 = e; j6 = f })

module _ {ℓ} {V : Type ℓ} (num : Numbers V) where
  abbrev pub generic_home : Six V
  generic_home = record {
    j1 = num.of_nat 0;
    j2 = num.neg (num.of_nat 45);
    j3 = num.of_nat 45;
    j4 = num.of_nat 0;
    j5 = num.of_nat 90;
    j6 = num.of_nat 0;
  }

  abbrev pub generic_range : V × V
  generic_range = (num.neg (num.of_nat 180), num.of_nat 180)

  abbrev pub home_of : Option (Entry V) → ModelHome V
  home_of (some entry) = record { listed = true; joints = entry.home; limits = entry.limits }
  home_of none = record {
    listed = false;
    joints = generic_home;
    limits = record {
      j1 = generic_range;
      j2 = generic_range;
      j3 = generic_range;
      j4 = generic_range;
      j5 = generic_range;
      j6 = generic_range;
    };
  }

  -- `value < low || value > high`, of finite numbers.
  abbrev pub is_outside : V → V × V → Bool
  is_outside value (low, high) = not (num.le low value) || not (num.le value high)

  -- Whether some joint is not inside its range.
  unfoldable pub has_joint_out_of_range : Six V → Six (V × V) → Bool
  has_joint_out_of_range joints limits =
      is_outside joints.j1 limits.j1
      || is_outside joints.j2 limits.j2
      || is_outside joints.j3 limits.j3
      || is_outside joints.j4 limits.j4
      || is_outside joints.j5 limits.j5
      || is_outside joints.j6 limits.j6

  -- `Math.abs(asked - home) > 0.01`
  abbrev pub is_off : V → V → Bool
  is_off asked home = not (num.le (num.abs (num.plus asked (num.neg home))) (num.hundredths 1))

  pub is_off_home : Six V → Six V → Bool
  is_off_home asked home =
      is_off asked.j1 home.j1
      || is_off asked.j2 home.j2
      || is_off asked.j3 home.j3
      || is_off asked.j4 home.j4
      || is_off asked.j5 home.j5
      || is_off asked.j6 home.j6

  -- What a client asks for must be the home pose.
  unfoldable pub check_sent : ModelHome V → SentJoints V → Result HomeRefusal (Six V)
  check_sent home not_sent = ok home.joints
  check_sent home no_object = err home_pose_mismatch
  check_sent home (sent joints) = do
    asked ← all_six joints
    guard (not (has_joint_out_of_range asked home.limits)) home_out_of_limits
    guard (not (is_off_home asked home.joints)) home_pose_mismatch
    ok home.joints

  module _ (key : String → String) (by_key : List (String × Entry V)) where
    unfoldable pub home_for : String → ModelHome V
    home_for model = home_of (lookup string_discrete (key model) by_key)

    -- What a reset of the arm may do for a model.
    unfoldable pub resolve_home : String → SentJoints V → Result HomeRefusal (Six V)
    unfolding has_joint_out_of_range check_sent home_for
    resolve_home model asked = do
      let home = home_for model
      guard (not (has_joint_out_of_range home.joints home.limits)) home_out_of_limits
      check_sent home asked
