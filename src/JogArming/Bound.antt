-- ===== src/JogArming/Bound.antt =====
-- src/safetyLimits.ts: who a jog is armed for.
use hydra_umc_server.Prelude.{
  ℕ, ◌+◌, ◌<◌, String, Option, none, some, true, false, ◌≡◌, ◌↔◌, refl, arith, put, delete,
  ℕ_discrete, lookup-put_self, lookup-delete_self, sym, subst,
}
use hydra_umc_server.JogArming.{
  Armed, ArmedEntry, arm, disarm, is_armed, judge_entry, same_controller,
}

same_controller-eq : (a b : Option String) → same_controller a b ≡ true → a ≡ b
same_controller-eq none none h = refl
same_controller-eq (some a) (some b) h = ground arith
same_controller-eq none (some b) h = absurd (cc h)
same_controller-eq (some a) none h = absurd (cc h)

same_controller_self : (a : Option String) → same_controller a a ≡ true
same_controller_self none = refl
same_controller_self (some a) = ground arith

judge_entry-holder :
    (now robot_id : ℕ) (user_id : String) (controller_id : Option String) (armed : Armed)
    → (entry : ArmedEntry)
    → ((judge_entry now robot_id user_id controller_id armed (some entry)).1 ≡ true) ↔ (
        (user_id ≡ entry.user_id)
        × (controller_id ≡ entry.controller_id)
        × (now < entry.expires_at))
unfolding judge_entry
judge_entry-holder now robot_id user_id controller_id armed entry = (
  (λ h.
      let same = same_controller-eq entry.controller_id controller_id in
      (ground arith, ground arith, ground arith)),
  (λ (user, controller, early).
      rw user
        (rw controller (let self = same_controller_self entry.controller_id in ground arith))),
)

-- After a jog was armed it is armed for the account and the controller that armed it, until the time that
-- was asked for has passed, and for nobody else and no longer.
pub arm-is_armed :
    (now later robot_id ttl_ms : ℕ) (user_id other : String)
    (controller_id presented : Option String)
    → (armed : Armed)
    → ((is_armed later robot_id other presented
          (arm now robot_id user_id controller_id ttl_ms armed).0).1
        ≡ true)
      ↔ ((other ≡ user_id) × (presented ≡ controller_id) × (later < now + ttl_ms))
unfolding arm is_armed
arm-is_armed now later robot_id ttl_ms user_id other controller_id presented armed =
    let entry : ArmedEntry = record {
      user_id = user_id;
      controller_id = controller_id;
      expires_at = now + ttl_ms;
    } in
    let found = lookup-put_self ℕ_discrete robot_id entry armed in
    let armed' = put ℕ_discrete robot_id entry armed in
    rw found (judge_entry-holder later robot_id other presented armed' entry)

-- A robot that was disarmed is armed for nobody.
pub disarm-is_armed :
    (now robot_id : ℕ) (user_id : String) (controller_id : Option String) (armed : Armed)
    → (is_armed now robot_id user_id controller_id (disarm robot_id armed)).1 ≡ false
unfolding disarm is_armed judge_entry
disarm-is_armed now robot_id user_id controller_id armed =
    let gone = lookup-delete_self ℕ_discrete robot_id armed in
    let rest = delete ℕ_discrete robot_id armed in
    subst
      (λ (o : Option ArmedEntry). (judge_entry now robot_id user_id controller_id rest o).1 ≡ false)
      (sym gone) refl
