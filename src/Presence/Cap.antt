-- ===== src/Presence/Cap.antt =====
-- src/operatorPresence.ts: the speed of a robot that is held back.
use mathlib.Core.Option.{some-injective}
use hydra_umc_server.Prelude.{
  ite, zero, suc, ◌+◌, ◌*◌, max, [], ◌∷◌, All, ap, ◌∙◌, put, ℕ, ◌≤◌, String, Option, none, some,
  Bool, true, subst, sym, ◌≡◌, refl, arith, if_both, lookup, ℕ_discrete, lookup-put_self,
}
use hydra_umc_server.Presence.{
  PresenceSettings, PresenceAction, slow, PlaybackState, Robot, Degraded, DegradedRobots, Held,
  playback_of, mine_of, is_within_cap, is_speed, capped, cap_of, base_speed, hold_slow, hold_as,
  hold,
}

abbrev pub SpeedLe : Option ℕ → ℕ → Type 0
SpeedLe none v = ⊥
SpeedLe (some current) v = current ≤ v

-- A value that is no more than 10, or no more than the slow factor's share of the original speed (in
-- thousandths), rounded.
abbrev pub IsSlow : PresenceSettings → ℕ → ℕ → Type 0
IsSlow settings original v = 1000 * v ≤ max 10000 (original * settings.slow_factor + 500)

-- What is kept of the robots that are held back.
abbrev pub AllSlow : PresenceSettings → DegradedRobots → Type 0
AllSlow settings degraded = All (λ e. IsSlow settings e.1.original_speed e.1.cap) degraded

-- The speed that a robot returns to: that of before, or 100 where it was not above 0.
abbrev pub original_of : Option ℕ → ℕ
original_of none = 100
original_of (some zero) = 100
original_of (some (suc n)) = suc n

abbrev pub IsSpeedSlow : PresenceSettings → ℕ → Option ℕ → Type 0
IsSpeedSlow settings original none = ⊥
IsSpeedSlow settings original (some v) = IsSlow settings original v

-- The robot is held back for the account.
pub record IsCapped (settings : PresenceSettings) (user_id : String) (d : DegradedRobots)
    (before : Option ℕ) (h : Held) : Type 0 where
  pub entry : Degraded
  pub is_kept : lookup ℕ_discrete h.robot.id h.degraded ≡ some entry
  pub is_mine : entry.user_id ≡ user_id
  pub is_new :
      mine_of user_id (lookup ℕ_discrete h.robot.id d) ≡ none
      → entry.original_speed ≡ original_of before
  pub is_same :
      (e : Degraded)
      → mine_of user_id (lookup ℕ_discrete h.robot.id d) ≡ some e
      → entry.original_speed ≡ e.original_speed
  pub is_slow : IsSpeedSlow settings entry.original_speed (playback_of h.robot.playback_state).speed
  pub is_not_raised :
      (u : ℕ) → before ≡ some u → SpeedLe (playback_of h.robot.playback_state).speed u
  pub all_slow : AllSlow settings h.degraded

within :
    (mine : Option Degraded) (speed : Option ℕ)
    → is_within_cap mine speed ≡ true
    → (d : Degraded) × (mine ≡ some d) × SpeedLe speed d.cap
within none speed h = absurd (cc h)
within (some d) none h = absurd (cc h)
within (some d) (some u) h = (d, refl, ground arith)

mine-found :
    (user_id : String) (o : Option Degraded) (d : Degraded)
    → mine_of user_id o ≡ some d
    → (o ≡ some d) × (d.user_id ≡ user_id)
mine-found user_id none d h = absurd (cc h)
mine-found user_id (some e) d h = ground arith

SpeedLe-refl : (speed : Option ℕ) (u : ℕ) → speed ≡ some u → SpeedLe speed u
SpeedLe-refl speed u e = rw e (omega arith)

capped-le : (cap : ℕ) (speed : Option ℕ) → capped cap speed ≤ cap
capped-le cap none = omega arith
capped-le cap (some u) = omega arith

capped-le_speed : (cap : ℕ) (speed : Option ℕ) (u : ℕ) → speed ≡ some u → capped cap speed ≤ u
capped-le_speed cap speed u e = rw e (omega arith)

is_speed-some : (speed : Option ℕ) (v : ℕ) → is_speed speed v ≡ true → speed ≡ some v
is_speed-some none v h = absurd (cc h)
is_speed-some (some u) v h = ground arith

base_speed_new :
    (mine : Option Degraded) (speed : Option ℕ)
    → mine ≡ none
    → base_speed mine speed ≡ original_of speed
base_speed_new none none h = refl
base_speed_new none (some zero) h = ground arith
base_speed_new none (some (suc n)) h = ground arith
base_speed_new (some d) speed h = absurd (cc h)

base_speed_same :
    (mine : Option Degraded) (speed : Option ℕ) (e : Degraded)
    → mine ≡ some e
    → base_speed mine speed ≡ e.original_speed
base_speed_same none speed e h = absurd (cc h)
base_speed_same (some d) speed e h = ap (λ (x : Degraded). x.original_speed) (some-injective _ _ h)

cap_of-IsSlow :
    (settings : PresenceSettings) (base : ℕ) → IsSlow settings base (cap_of settings base)
cap_of-IsSlow settings base = omega arith

slower :
    (settings : PresenceSettings) (original cap : ℕ) (speed : Option ℕ)
    → IsSlow settings original cap
    → SpeedLe speed cap
    → IsSpeedSlow settings original speed
slower settings original most none share h = h
slower settings original most (some v) share h = omega arith

ite_both {ℓ} :
    {P : Type 0} {A : Type ℓ} {a b : A} (G : A → Type 0) (dec : Dec P)
    → (P → G a)
    → (¬ P → G b)
    → G (ite dec a b)
ite_both G (yes p) f g = f p
ite_both G (no n) f g = g n

AllSlow-put :
    (settings : PresenceSettings) (id : ℕ) (v : Degraded) (d : DegradedRobots)
    → IsSlow settings v.original_speed v.cap
    → AllSlow settings d
    → AllSlow settings (put ℕ_discrete id v d)
unfolding put
AllSlow-put settings id v [] first h = (first, tt)
AllSlow-put settings id v (e ∷ d) first (here, h) =
    ite_both (AllSlow settings) (ℕ_discrete id e.0) (λ _. (first, h))
      (λ _. (here, AllSlow-put settings id v d first h))

AllSlow-lookup :
    (settings : PresenceSettings) (id : ℕ) (d : DegradedRobots) (v : Degraded)
    → AllSlow settings d
    → lookup ℕ_discrete id d ≡ some v
    → IsSlow settings v.original_speed v.cap
unfolding lookup
AllSlow-lookup settings id [] v h found = absurd (cc found)
AllSlow-lookup settings id (e ∷ d) v (here, h) found =
    ite_both (λ (o : Option Degraded). o ≡ some v → IsSlow settings v.original_speed v.cap)
      (ℕ_discrete id e.0)
      (λ _ own.
        subst (λ (x : Degraded). IsSlow settings x.original_speed x.cap) (some-injective _ _ own)
          here)
      (λ _ later. AllSlow-lookup settings id d v h later) found

hold_slow-IsCapped :
    (settings : PresenceSettings) (user_id : String) (robot : Robot) (ps : PlaybackState)
    → (d : DegradedRobots) → AllSlow settings d
    → IsCapped settings user_id d ps.speed
        (hold_slow settings user_id robot ps (mine_of user_id (lookup ℕ_discrete robot.id d)) d)
unfolding hold_slow
hold_slow-IsCapped settings user_id robot ps d slow_so_far =
    let mine = mine_of user_id (lookup ℕ_discrete robot.id d) in
    let base = base_speed mine ps.speed in
    let cap = cap_of settings base in
    let next = capped cap ps.speed in
    let entry : Degraded = record {
      user_id = user_id;
      original_speed = base;
      cap = cap;
      last = next;
    } in
    let of_cap = cap_of-IsSlow settings base in
    let kept = AllSlow-put settings robot.id entry d of_cap slow_so_far in
    if_both (IsCapped settings user_id d ps.speed) (is_within_cap mine ps.speed)
      (λ fits.
        let (e, e_mine, under) = within mine ps.speed fits in
        let (e_kept, e_user) = mine-found user_id (lookup ℕ_discrete robot.id d) e e_mine in
        let e_slow = AllSlow-lookup settings robot.id d e slow_so_far e_kept in
        record {
          entry = e;
          is_kept = e_kept;
          is_mine = e_user;
          is_new = λ absent. absurd (cc (sym absent ∙ e_mine));
          is_same = λ f f_mine.
              ap (λ (x : Degraded). x.original_speed) (some-injective _ _ (sym e_mine ∙ f_mine));
          is_slow = slower settings e.original_speed e.cap ps.speed e_slow under;
          is_not_raised = λ u eq. SpeedLe-refl ps.speed u eq;
          all_slow = slow_so_far;
        })
      (λ _.
        if_both (IsCapped settings user_id d ps.speed) (is_speed ps.speed next)
          (λ same. record {
            entry = entry;
            is_kept = lookup-put_self ℕ_discrete robot.id entry d;
            is_mine = refl;
            is_new = base_speed_new mine ps.speed;
            is_same = base_speed_same mine ps.speed;
            is_slow = slower settings base cap ps.speed of_cap (
                subst (λ s. SpeedLe s cap) (sym (is_speed-some ps.speed next same))
                  (capped-le cap ps.speed));
            is_not_raised = λ u eq. SpeedLe-refl ps.speed u eq;
            all_slow = kept;
          })
          (λ _. record {
            entry = entry;
            is_kept = lookup-put_self ℕ_discrete robot.id entry d;
            is_mine = refl;
            is_new = base_speed_new mine ps.speed;
            is_same = base_speed_same mine ps.speed;
            is_slow = slower settings base cap (some next) of_cap (capped-le cap ps.speed);
            is_not_raised = λ u eq. capped-le_speed cap ps.speed u eq;
            all_slow = kept;
          }))

-- Where the action is to slow down, a robot that is held back ends with a speed that is a number, no
-- higher than it was, and no higher than 10 or than the slow factor's share of its original speed,
-- whichever is more. The original speed is that of before the first time (100 where that was not above
-- 0), and it stays the same while the robot is held back. What is kept of all robots stays of that kind.
pub hold-IsCapped :
    (settings : PresenceSettings) (user_id : String) (robot : Robot) (d : DegradedRobots)
    (first : Bool)
    → settings.action ≡ slow
    → AllSlow settings d
    → IsCapped settings user_id d
        (playback_of robot.playback_state).speed
        (hold settings user_id robot d first)
unfolding hold hold_as
hold-IsCapped settings user_id robot d first e slow_so_far =
    subst
      (λ (action : PresenceAction).
        IsCapped settings user_id d (playback_of robot.playback_state).speed
          (hold_as action settings user_id robot (playback_of robot.playback_state) d first))
      (sym e)
      (hold_slow-IsCapped settings user_id robot (playback_of robot.playback_state) d slow_so_far)
