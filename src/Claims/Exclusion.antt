-- ===== src/Claims/Exclusion.antt =====
-- Who may command a robot that is claimed.
use hydra_umc_server.Prelude.{ℕ, ◌<◌, String, Option, none, some, ◌≡◌, ◌↔◌, ◌⊎◌, inl, refl, arith}
use hydra_umc_server.Claims.{Reservation, controller_conflict, claim_conflict}

-- The caller is the holder: the account, and the controller if the claim names one.
abbrev pub IsHolder : Reservation → String → Option String → Type 0
IsHolder r user_id presented =
    (r.owner_id ≡ user_id) × ((r.controller_id ≡ none) ⊎ (presented ≡ r.controller_id))

controller-none :
    (held presented : Option String)
    → controller_conflict held presented ≡ none
    → (held ≡ none) ⊎ (presented ≡ held)
controller-none none presented h = inl refl
controller-none (some held) none h = ground arith
controller-none (some held) (some presented) h = ground arith

controller-free :
    (held presented : Option String)
    → (held ≡ none) ⊎ (presented ≡ held)
    → controller_conflict held presented ≡ none
controller-free none presented h = refl
controller-free (some held) none h = ground arith
controller-free (some held) (some presented) h = ground arith

-- A claim that has not expired lets its holder command the robot, and nobody else.
pub claim_conflict-IsHolder :
    (now : ℕ) (r : Reservation) (user_id : String) (presented : Option String)
    → now < r.expires_at
    → (claim_conflict now (some r) user_id presented ≡ none) ↔ IsHolder r user_id presented
unfolding claim_conflict
claim_conflict-IsHolder now r user_id presented early = (
  (λ free. (ground arith, controller-none r.controller_id presented (ground arith))),
  (λ (mine, controls).
      let free = controller-free r.controller_id presented controls in ground arith),
)
