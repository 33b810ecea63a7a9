-- ===== src/Robots/Ids.antt =====
-- Robots whose ids are distinct: the robot found by an id is the one that has it.
use hydra_umc_server.Prelude.{ℕ, none, some, false, List, [], ◌∷◌, All, All-imp, ◌≡◌, refl, arith}
use hydra_umc_server.Robots.{Robot, find_last, includes}

module _ {ℓ} {V : Type ℓ} where
  abbrev pub ids_of : List (Robot V) → List ℕ
  ids_of [] = []
  ids_of (robot ∷ robots) = robot.id ∷ ids_of robots

  -- No two robots have one id.
  abbrev pub DistinctIds : List (Robot V) → Type 0
  DistinctIds [] = Unit
  DistinctIds (robot ∷ robots) = (includes robot.id (ids_of robots) ≡ false) × DistinctIds robots

  find_last-absent :
      (id : ℕ) (robots : List (Robot V))
      → includes id (ids_of robots) ≡ false
      → find_last id robots ≡ none
  unfolding find_last
  find_last-absent id [] h = refl
  find_last-absent id (robot ∷ robots) h =
      let rest = find_last-absent id robots (ground arith) in rw rest (ground arith)

  pub find_last-own :
      (robots : List (Robot V))
      → DistinctIds robots
      → All (λ r. find_last r.id robots ≡ some r) robots
  unfolding find_last
  find_last-own [] h = tt
  find_last-own (robot ∷ robots) (new, h) = (
    rw (find_last-absent robot.id robots new) (ground arith),
    All-imp (λ r own. rw own refl) robots (find_last-own robots h),
  )
