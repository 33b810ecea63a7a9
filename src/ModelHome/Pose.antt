-- ===== src/ModelHome/Pose.antt =====
-- The pose that a reset of the arm is given, against the table of the models.
use hydra_umc_server.Prelude.{
  String, Option, none, some, true, not, List, ◌≡◌, refl, sym, ok, lookup, string_discrete,
  >>=-eq-ok, guard-then-eq-ok, or_err-eq-ok, ok-injective, arith, subst,
}
use hydra_umc_server.Robots.{Numbers}
use hydra_umc_server.ModelHome.{
  Six, Entry, ModelHome, SentJoints, not_sent, no_object, sent, all_six, home_of, home_for,
  has_joint_out_of_range, is_off_home, check_sent, resolve_home,
}

module _ {ℓ} {V : Type ℓ} (num : Numbers V) where
  abbrev pub IsInside : V → V × V → Type 0
  IsInside value (low, high) = (num.le low value ≡ true) × (num.le value high ≡ true)

  abbrev pub AllInside : Six V → Six (V × V) → Type 0
  AllInside joints limits =
      IsInside joints.j1 limits.j1
      × IsInside joints.j2 limits.j2
      × IsInside joints.j3 limits.j3
      × IsInside joints.j4 limits.j4
      × IsInside joints.j5 limits.j5
      × IsInside joints.j6 limits.j6

  -- The pose of a listed model is the one of its entry; any other model has the pose 0, -45, 45, 0, 90, 0
  -- and joints from -180 to 180.
  abbrev pub IsHomeOf : Option (Entry V) → Six V → Type ℓ
  IsHomeOf (some entry) joints = (joints ≡ entry.home) × AllInside joints entry.limits
  IsHomeOf none joints =
      let range : V × V = (num.neg (num.of_nat 180), num.of_nat 180) in
      (joints ≡ record {
        j1 = num.of_nat 0;
        j2 = num.neg (num.of_nat 45);
        j3 = num.of_nat 45;
        j4 = num.of_nat 0;
        j5 = num.of_nat 90;
        j6 = num.of_nat 0;
      })
      × AllInside joints
          (record { j1 = range; j2 = range; j3 = range; j4 = range; j5 = range; j6 = range })

  -- A number was sent, and it is the home value to a hundredth.
  abbrev pub IsNear : Option V → V → Type ℓ
  IsNear asked home =
      (v : V) × (asked ≡ some v)
      × (num.le (num.abs (num.plus v (num.neg home))) (num.hundredths 1) ≡ true)

  -- What a client may send with a reset that goes to `home`: no joints, or the six of it.
  abbrev pub IsAsked : SentJoints V → Six V → Type ℓ
  IsAsked not_sent home = Unit
  IsAsked no_object home = Unit {ℓ} × ⊥
  IsAsked (sent six) home =
      IsNear six.j1 home.j1
      × IsNear six.j2 home.j2
      × IsNear six.j3 home.j3
      × IsNear six.j4 home.j4
      × IsNear six.j5 home.j5
      × IsNear six.j6 home.j6

  all-inside :
      (joints : Six V) (limits : Six (V × V))
      → not (has_joint_out_of_range num joints limits) ≡ true
      → AllInside joints limits
  unfolding has_joint_out_of_range
  all-inside joints limits h = (
    (ground arith, ground arith),
    (ground arith, ground arith),
    (ground arith, ground arith),
    (ground arith, ground arith),
    (ground arith, ground arith),
    (ground arith, ground arith),
  )

  sent-IsAsked :
      (six : Six (Option V)) (asked home : Six V)
      → all_six six ≡ ok asked
      → not (is_off_home num asked home) ≡ true
      → IsAsked (sent six) home
  unfolding all_six is_off_home
  sent-IsAsked six asked home h near =
      let (a, ha, h1) = >>=-eq-ok _ _ h in
      let (b, hb, h2) = >>=-eq-ok _ _ h1 in
      let (c, hc, h3) = >>=-eq-ok _ _ h2 in
      let (d, hd, h4) = >>=-eq-ok _ _ h3 in
      let (e, he, h5) = >>=-eq-ok _ _ h4 in
      let (f, hf, h6) = >>=-eq-ok _ _ h5 in
      let given : Six V = record { j1 = a; j2 = b; j3 = c; j4 = d; j5 = e; j6 = f } in
      let near' : not (is_off_home num given home) ≡ true =
        subst (λ (s : Six V). not (is_off_home num s home) ≡ true) (sym (ok-injective h6)) near in
      (
        (a, or_err-eq-ok _ _ ha, ground arith),
        (b, or_err-eq-ok _ _ hb, ground arith),
        (c, or_err-eq-ok _ _ hc, ground arith),
        (d, or_err-eq-ok _ _ hd, ground arith),
        (e, or_err-eq-ok _ _ he, ground arith),
        (f, or_err-eq-ok _ _ hf, ground arith),
      )

  check_sent-home :
      (home : ModelHome V) (asked : SentJoints V) {joints : Six V}
      → check_sent num home asked ≡ ok joints
      → (joints ≡ home.joints) × IsAsked asked home.joints
  unfolding check_sent
  check_sent-home home not_sent h = (ground arith, tt)
  check_sent-home home no_object h = absurd (cc h)
  check_sent-home home (sent six) h =
      let (given, is_given, h1) = >>=-eq-ok _ _ h in
      let (_, h2) = guard-then-eq-ok _ _ _ h1 in
      let (near, same) = guard-then-eq-ok _ _ _ h2 in
      (sym (ok-injective same), sent-IsAsked six given home.joints is_given near)

  home_of-IsHomeOf :
      (entry : Option (Entry V))
      → AllInside (home_of num entry).joints (home_of num entry).limits
      → IsHomeOf entry (home_of num entry).joints
  home_of-IsHomeOf none h = (refl, h)
  home_of-IsHomeOf (some entry) h = (refl, h)

  module _ (key : String → String) (by_key : List (String × Entry V)) where
    -- The pose that is given for a model is its home pose, with every joint inside its range, and what
    -- the client sent agrees with it.
    pub resolve_home-IsHome :
        (model : String) (asked : SentJoints V) (joints : Six V)
        → resolve_home num key by_key model asked ≡ ok joints
        → IsHomeOf (lookup string_discrete (key model) by_key) joints × IsAsked asked joints
    unfolding resolve_home home_for
    resolve_home-IsHome model asked joints h =
        let entry = lookup string_discrete (key model) by_key in
        let (inside, rest) = guard-then-eq-ok _ _ _ h in
        let (same, agreed) = check_sent-home (home_of num entry) asked rest in
        rw same (home_of-IsHomeOf entry (all-inside _ _ inside), agreed)
