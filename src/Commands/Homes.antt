-- ===== src/Commands/Homes.antt =====
-- A reset of the arms that it reaches: each goes to the home pose of its own model.
use mathlib.Core.Option.{some-injective}
use hydra_umc_server.Prelude.{
  if◌then◌else◌, ℕ, Option, none, some, Bool, true, false, List, [], ◌∷◌, ◌==◌, All, All-imp, ◌≡◌,
  refl, sym, ◌∙◌, ok, err, Result, lookup, ℕ_discrete, string_discrete, >>=-eq-ok, ok-injective,
  arith, Bool-cases, inl, inr, subst,
}
use hydra_umc_server.Robots.{Robot, find_last, includes}
use hydra_umc_server.Robots.Ids.{DistinctIds, find_last-own}
use hydra_umc_server.ModelHome.{Six, SentJoints, as_joints, resolve_home}
use hydra_umc_server.ModelHome.Pose.{IsHomeOf, IsAsked, resolve_home-IsHome}
use hydra_umc_server.Commands.{reset, Config, home_plan, home_refused, Refusal}
use hydra_umc_server.Commands.Checked.{not_both}
use hydra_umc_server.Commands.Planning.{refuse_as, or_later, keep_last, plan_homes}
use hydra_umc_server.Commands.Switch.{reset_arm}
use hydra_umc_server.Commands.Apply.{planned, apply_command}

lookup-cons_self {ℓ} :
    {V : Type ℓ} (id : ℕ) (home : Six V) (rest : List (ℕ × Six V))
    → lookup ℕ_discrete id ((id, home) ∷ rest) ≡ some home
unfolding lookup
lookup-cons_self id home rest = ground arith

lookup-cons_ne {ℓ} :
    {V : Type ℓ} (id j : ℕ) (home : Six V) (rest : List (ℕ × Six V))
    → (j == id) ≡ false
    → lookup ℕ_discrete id ((j, home) ∷ rest) ≡ lookup ℕ_discrete id rest
unfolding lookup
lookup-cons_ne id j home rest other = ground arith

lookup-or_later_self {ℓ} :
    {V : Type ℓ} (o : Option (Six V)) (id : ℕ) (home : Six V) (rest : List (ℕ × Six V))
    → o ≡ none
    → lookup ℕ_discrete id (or_later o id home rest) ≡ some home
lookup-or_later_self none id home rest h = lookup-cons_self id home rest
lookup-or_later_self (some six) id home rest h = absurd (cc h)

lookup-or_later_ne {ℓ} :
    {V : Type ℓ} (o : Option (Six V)) (id j : ℕ) (home : Six V) (rest : List (ℕ × Six V))
    → (j == id) ≡ false
    → lookup ℕ_discrete id (or_later o j home rest) ≡ lookup ℕ_discrete id rest
lookup-or_later_ne none id j home rest other = lookup-cons_ne id j home rest other
lookup-or_later_ne (some six) id j home rest other = refl

lookup-or_later_found {ℓ} :
    {V : Type ℓ} (o : Option (Six V)) (id : ℕ) (home six : Six V) (rest : List (ℕ × Six V))
    → lookup ℕ_discrete id rest ≡ o
    → lookup ℕ_discrete id rest ≡ some six
    → lookup ℕ_discrete id (or_later o id home rest) ≡ some six
lookup-or_later_found none id home six rest e found = absurd (cc (sym e ∙ found))
lookup-or_later_found (some other) id home six rest e found = found

refuse_as-eq-ok {ℓ} :
    {E : Type 0} {A : Type ℓ} (f : E → Refusal) (r : Result E A) {a : A}
    → refuse_as f r ≡ ok a
    → r ≡ ok a
refuse_as-eq-ok f (ok a) h = cc h
refuse_as-eq-ok f (err e) h = absurd (cc h)

same_id : (a b : ℕ) → (a == b) ≡ true → a ≡ b
same_id a b h = ground arith

lookup-keep_last_found {ℓ} :
    {V : Type ℓ} (id j : ℕ) (home six : Six V) (rest : List (ℕ × Six V))
    → lookup ℕ_discrete id rest ≡ some six
    → lookup ℕ_discrete id (keep_last j home rest) ≡ some six
lookup-keep_last_found id j home six rest found = elim (Bool-cases (j == id)) [
  | inr other ↦ lookup-or_later_ne (lookup ℕ_discrete j rest) id j home rest other ∙ found
  | inl same ↦
      subst (λ k. lookup ℕ_discrete id (keep_last k home rest) ≡ some six) (sym (same_id j id same))
        (lookup-or_later_found _ id home six rest refl found)
]

lookup-keep_last_self {ℓ} :
    {V : Type ℓ} (id j : ℕ) (home : Six V) (rest : List (ℕ × Six V))
    → (j == id) ≡ true
    → lookup ℕ_discrete id rest ≡ none
    → lookup ℕ_discrete id (keep_last j home rest) ≡ some home
lookup-keep_last_self id j home rest same absent =
    subst (λ k. lookup ℕ_discrete id (keep_last k home rest) ≡ some home) (sym (same_id j id same))
      (lookup-or_later_self _ id home rest absent)

module _ {ℓ} {V : Type ℓ} where
  abbrev or_first : Option (Robot V) → Robot V → ℕ → Option (Robot V)
  or_first (some found) robot id = some found
  or_first none robot id = if robot.id == id then some robot else none

  -- What a loop over all robots last sees of an id, one robot after the other.
  find_last-cons :
      (id : ℕ) (robot : Robot V) (robots : List (Robot V)) (o : Option (Robot V))
      → find_last id robots ≡ o
      → find_last id (robot ∷ robots) ≡ or_first o robot id
  unfolding find_last
  find_last-cons id robot robots none e = rw e refl
  find_last-cons id robot robots (some r) e = rw e refl

module _ {ℓ} {V : Type ℓ} (cfg : Config V) (asked : SentJoints V) where
  -- The robot after a reset of its arm.
  pub record IsHomed (before after : Robot V) : Type ℓ where
    pub pose : Six V
    pub is_there : after.joints ≡ as_joints pose
    pub is_home :
        IsHomeOf cfg.num (lookup string_discrete (cfg.model_key before.model) cfg.models) pose
    pub as_asked : IsAsked cfg.num asked pose
    pub x_zero : after.pos.x ≡ some (cfg.num.of_nat 0)
    pub y_zero : after.pos.y ≡ some (cfg.num.of_nat 0)
    pub z_zero : after.pos.z ≡ some (cfg.num.of_nat 0)
    pub a_zero : after.pos.a ≡ some (cfg.num.of_nat 0)
    pub b_zero : after.pos.b ≡ some (cfg.num.of_nat 0)
    pub c_zero : after.pos.c ≡ some (cfg.num.of_nat 0)
    pub same_table : after.xy_table ≡ before.xy_table
    pub same_trz : after.pos.trz ≡ before.pos.trz
    pub same_tx : after.pos.tx ≡ before.pos.tx
    pub same_ty : after.pos.ty ≡ before.pos.ty

module _ {ℓ} {V : Type ℓ} (cfg : Config V) (asked : SentJoints V) (ids : List ℕ) where
  -- What the map holds under an id: nothing without a robot of that id, else the pose of the last one.
  abbrev Holds : ℕ → List (ℕ × Six V) → Option (Robot V) → Type ℓ
  Holds id homes none = Unit {ℓ} × (lookup ℕ_discrete id homes ≡ none)
  Holds id homes (some r) =
      includes id ids ≡ true
      → (six : Six V) × (lookup ℕ_discrete id homes ≡ some six)
        × (resolve_home cfg.num cfg.model_key cfg.models r.model asked ≡ ok six)

  Holds-reached :
      (id : ℕ) (robot : Robot V) (o : Option (Robot V)) (homes : List (ℕ × Six V)) (home : Six V)
      → resolve_home cfg.num cfg.model_key cfg.models robot.model asked ≡ ok home
      → Holds id homes o
      → Holds id (keep_last robot.id home homes) (or_first o robot id)
  Holds-reached id robot (some r) homes home resolved h = λ reached.
      let (six, found, its_own) = h reached in
      (six, lookup-keep_last_found id robot.id home six homes found, its_own)
  Holds-reached id robot none homes home resolved (_, absent) = elim (Bool-cases (robot.id == id)) [
    | inl same ↦
        rw same
          (λ reached. (home, lookup-keep_last_self id robot.id home homes same absent, resolved))
    | inr other ↦ rw other (
      tt,
      lookup-or_later_ne (lookup ℕ_discrete robot.id homes) id robot.id home homes other ∙ absent,
    )
  ]

  Holds-passed :
      (id : ℕ) (robot : Robot V) (o : Option (Robot V)) (homes : List (ℕ × Six V))
      → includes robot.id ids ≡ false
      → Holds id homes o
      → Holds id homes (or_first o robot id)
  Holds-passed id robot (some r) homes out h = h
  Holds-passed id robot none homes out h = elim (Bool-cases (robot.id == id)) [
    | inl same ↦
        rw same (λ reached. absurd (not_both reached (rw (same_id robot.id id same) at out)))
    | inr other ↦ rw other h
  ]

  plan_homes-Holds :
      (id : ℕ) (robots : List (Robot V)) (homes : List (ℕ × Six V))
      → plan_homes cfg asked ids robots ≡ ok homes
      → Holds id homes (find_last id robots)
  unfolding plan_homes find_last
  plan_homes-Holds id [] homes h = rw (← ok-injective h) (unfold lookup in (tt, refl))
  plan_homes-Holds id (robot ∷ robots) homes h =
      subst (λ (o : Option (Robot V)). Holds id homes o)
        (sym (find_last-cons id robot robots _ refl))
        (elim (Bool-cases (includes robot.id ids)) [
          | inr out ↦
              Holds-passed id robot _ homes out (plan_homes-Holds id robots homes (rw out at h))
          | inl reached ↦
              let (home, resolved, h1) = >>=-eq-ok _ _ (rw reached at h) in
              let (rest, planned_rest, same) = >>=-eq-ok _ _ h1 in
              subst (λ (l : List (ℕ × Six V)). Holds id l (or_first (find_last id robots) robot id))
                (ok-injective same)
                (Holds-reached id robot _ rest home (refuse_as-eq-ok home_refused _ resolved)
                  (plan_homes-Holds id robots rest planned_rest))
        ])

  homed :
      (homes : List (ℕ × Six V)) (robot : Robot V) (o : Option (Robot V))
      → o ≡ some robot
      → Holds robot.id homes o
      → includes robot.id ids ≡ true
      → IsHomed cfg asked robot (reset_arm cfg (lookup ℕ_discrete robot.id homes) robot).robot
  unfolding reset_arm
  homed homes robot none e h reached = absurd (cc e)
  homed homes robot (some r) e h reached =
      let (six, found, resolved) = h reached in
      let own : r ≡ robot = some-injective _ _ e in
      let (is_home, as_asked) =
        resolve_home-IsHome cfg.num cfg.model_key cfg.models robot.model asked six
          (rw own at resolved) in
      record {
        pose = six;
        is_there = rw found refl;
        is_home = is_home;
        as_asked = as_asked;
        x_zero = refl;
        y_zero = refl;
        z_zero = refl;
        a_zero = refl;
        b_zero = refl;
        c_zero = refl;
        same_table = refl;
        same_trz = refl;
        same_tx = refl;
        same_ty = refl;
      }

  -- A reset of the arm that is let through puts the joints of each robot that it reaches to the home
  -- pose of the model of that robot, where every joint is inside its range; what the client sent agrees
  -- with every one of these poses to a hundredth. The coordinates are 0, and the table stays. No two
  -- robots have one id.
  pub reset-IsHomed :
      (now : ℕ) (wanted : Bool) (target_id : ℕ) (robots : List (Robot V)) (homes : List (ℕ × Six V))
      → DistinctIds robots
      → plan_homes cfg asked ids robots ≡ ok homes
      → All
          (λ r.
            includes r.id ids ≡ true
            → IsHomed cfg asked r
                (apply_command cfg now wanted target_id
                  (reset false asked)
                  (home_plan homes)
                  r).robot)
          robots
  unfolding apply_command planned
  reset-IsHomed now wanted target_id robots homes distinct h =
      All-imp (λ r own reached. homed homes r _ own (plan_homes-Holds r.id robots homes h) reached)
        robots (find_last-own robots distinct)
