-- ===== src/RobotEdit/Combine.antt =====
-- src/robotEdit.ts: the robots that a combination joins.
use hydra_umc_server.Prelude.{
  ℕ, Option, some, true, false, not, List, [], ◌∷◌, leb, length, ◌≡◌, refl, sym, arith, ok,
  >>=-eq-ok, guard-then-eq-ok, ok-injective, or_err, if_both, ap,
}
use hydra_umc_server.Robots.{Numbers, Robot, Patch, includes}
use hydra_umc_server.RobotEdit.{
  combine, Patterns, invalid_combine, unique_from, unique, all_numbers, all_exist, max_combined,
}
use hydra_umc_server.RobotEdit.Plan.{plan_robot_edit}

-- No number stands twice in the list.
abbrev pub NoneTwice : List ℕ → Type 0
NoneTwice [] = Unit
NoneTwice (id ∷ ids) = (includes id ids ≡ false) × NoneTwice ids

unique_from-fresh :
    (seen ids : List ℕ) (j : ℕ) → includes j seen ≡ true → includes j (unique_from seen ids) ≡ false
unfolding unique_from
unique_from-fresh seen [] j h = refl
unique_from-fresh seen (id ∷ ids) j h =
    if_both (λ (l : List ℕ). includes j l ≡ false) (includes id seen)
      (λ _. unique_from-fresh seen ids j h)
      (λ new. let rest = unique_from-fresh (id ∷ seen) ids j (ground arith) in ground arith)

unique_from-NoneTwice : (seen ids : List ℕ) → NoneTwice (unique_from seen ids)
unfolding unique_from
unique_from-NoneTwice seen [] = tt
unique_from-NoneTwice seen (id ∷ ids) =
    if_both (λ (l : List ℕ). NoneTwice l) (includes id seen) (λ _. unique_from-NoneTwice seen ids)
      (λ new. (
        unique_from-fresh (id ∷ seen) ids id (ground arith),
        unique_from-NoneTwice (id ∷ seen) ids,
      ))

unique-NoneTwice : (ids : List ℕ) → NoneTwice (unique ids)
unfolding unique
unique-NoneTwice ids = unique_from-NoneTwice [] ids

module _ {ℓ} {V : Type ℓ} (num : Numbers V) where
  -- A combination that is let through names robots of the same controller, none of them twice, and not the
  -- robot itself.
  pub plan_robot_edit-combine :
      (pat : Patterns) (given : Option (List (Option ℕ))) (robot : Robot V) (siblings : List ℕ)
      → (patch : Patch V) → plan_robot_edit num pat (combine given) robot siblings ≡ ok patch
      → (ids : List ℕ) × (patch.combined_with ≡ some ids)
        × NoneTwice ids
        × (includes robot.id ids ≡ false)
        × (all_exist siblings ids ≡ true)
  unfolding plan_robot_edit
  plan_robot_edit-combine pat given robot siblings patch h =
      let (list, _, h1) = >>=-eq-ok (or_err given invalid_combine) _ h in
      let (_, h2) = guard-then-eq-ok (leb (length list) max_combined) _ _ h1 in
      let (ids, _, h3) = >>=-eq-ok (or_err (all_numbers list) invalid_combine) _ h2 in
      let (other, h4) = guard-then-eq-ok (not (includes robot.id (unique ids))) _ _ h3 in
      let (exist, same) = guard-then-eq-ok (all_exist siblings (unique ids)) _ _ h4 in
      (
        unique ids,
        ap (λ (p : Patch V). p.combined_with) (sym (ok-injective same)),
        unique-NoneTwice ids,
        ground arith,
        exist,
      )
