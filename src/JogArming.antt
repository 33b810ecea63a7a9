-- ===== src/JogArming.antt =====
-- The class JogArming of src/safetyLimits.ts: the explicit arming of the jog, bound to the account and the
-- controller that armed it. The clock is an argument of each call. An account that is compared with
-- `===` is a text.
pub mod Bound
mod Tests
use hydra_umc_server.Prelude.{
  ℕ, ◌+◌, String, Option, none, some, Bool, true, false, List, ◌&&◌, ltb, leb, not, is_same, lookup,
  put, delete, ℕ_discrete, if◌then◌else◌,
}

pub record ArmedEntry : Type 0 where
  pub user_id : String
  pub controller_id : Option String
  pub expires_at : ℕ

-- The map `armed`.
abbrev pub Armed : Type 0
Armed = List (ℕ × ArmedEntry)

abbrev pub same_controller : Option String → Option String → Bool
same_controller none none = true
same_controller (some a) (some b) = is_same a b
same_controller _ _ = false

pub arm : ℕ → ℕ → String → Option String → ℕ → Armed → Armed × ℕ
arm now robot_id user_id controller_id ttl_ms armed =
    let expires_at = now + ttl_ms in
    (
      put ℕ_discrete robot_id
          (record { user_id = user_id; controller_id = controller_id; expires_at = expires_at })
          armed,
      expires_at,
    )

unfoldable pub disarm : ℕ → Armed → Armed
disarm robot_id armed = delete ℕ_discrete robot_id armed

-- An entry that has run out is deleted.
pub judge_entry : ℕ → ℕ → String → Option String → Armed → Option ArmedEntry → Armed × Bool
unfolding disarm
judge_entry now robot_id user_id controller_id armed none = (armed, false)
judge_entry now robot_id user_id controller_id armed (some entry) =
    if leb entry.expires_at now
    then (disarm robot_id armed, false)
    else (armed, is_same entry.user_id user_id && same_controller entry.controller_id controller_id)

pub is_armed : ℕ → ℕ → String → Option String → Armed → Armed × Bool
unfolding judge_entry
is_armed now robot_id user_id controller_id armed =
    judge_entry now robot_id user_id controller_id armed (lookup ℕ_discrete robot_id armed)

pub expires_at : ℕ → ℕ → Armed → Option ℕ
expires_at now robot_id armed = elim (lookup ℕ_discrete robot_id armed) [
  | none ↦ none
  | some entry ↦ if ltb now entry.expires_at then some entry.expires_at else none
]
