-- ===== src/Prelude/Assoc.antt =====
-- The `Map` of the language: an association list in insertion order.
use Prim.Native.Nat.{suc, ◌≤◌}
use mathlib.Core.Path.{◌≡◌, refl, sym, ◌∙◌}
use mathlib.Core.Logic.{◌≢◌, ◌⊎◌, inl, inr, ite, if_pos}
use mathlib.Core.Option.{none, some}
use mathlib.Core.List.{List, [], ◌∷◌, ◌++◌, lookup}
use native.Mathlib.Omega.{arith}
use hydra_umc_server.Prelude.Lists.{length}

module _ {ℓ} {K V : Type ℓ} (dec : Discrete K) where
  -- `map.set(k, v)`: in place, or at the end.
  unfoldable pub put : K → V → List (K × V) → List (K × V)
  put k v [] = (k, v) ∷ []
  put k v (e ∷ m) = ite (dec k e.0) ((k, v) ∷ m) (e ∷ put k v m)

  -- `map.delete(k)`
  unfoldable pub delete : K → List (K × V) → List (K × V)
  delete k [] = []
  delete k (e ∷ m) = ite (dec k e.0) (delete k m) (e ∷ delete k m)

  pub lookup-put_self : (k : K) (v : V) (m : List (K × V)) → lookup dec k (put k v m) ≡ some v
  unfolding lookup put
  lookup-put_self k v [] = rw (if_pos _ refl)
  lookup-put_self k v (e ∷ m) = ground (arith, lookup-put_self k v m)

  pub lookup-put_ne :
      {j : K} (k : K) (v : V) (m : List (K × V)) → j ≢ k → lookup dec j (put k v m) ≡ lookup dec j m
  unfolding lookup put
  lookup-put_ne {j} k v [] h = ground arith
  lookup-put_ne {j} k v (e ∷ m) h = ground (arith, lookup-put_ne {j = j} k v m)

  pub lookup-delete_ne :
      {j : K} (k : K) (m : List (K × V)) → j ≢ k → lookup dec j (delete k m) ≡ lookup dec j m
  unfolding lookup delete
  lookup-delete_ne k [] other = refl
  lookup-delete_ne {j} k (entry ∷ rest) other =
      ground (arith, lookup-delete_ne {j = j} k rest other)

  pub lookup-delete_self : (k : K) (m : List (K × V)) → lookup dec k (delete k m) ≡ none
  unfolding lookup delete
  lookup-delete_self k [] = refl
  lookup-delete_self k (e ∷ m) = ground (arith, lookup-delete_self k m)

  pub length-put-le : (k : K) (v : V) (m : List (K × V)) → length (put k v m) ≤ suc (length m)
  unfolding put
  length-put-le k v [] = omega arith
  length-put-le k v (e ∷ m) = ground (arith, length-put-le k v m)

  pub length-delete-le : (k : K) (m : List (K × V)) → length (delete k m) ≤ length m
  unfolding delete
  length-delete-le k [] = omega arith
  length-delete-le k (e ∷ m) = ground (arith, length-delete-le k m)

  pub put_absent :
      (k : K) (v : V) (m : List (K × V)) → lookup dec k m ≡ none → put k v m ≡ m ++ (k, v) ∷ []
  unfolding lookup put
  put_absent k v [] h = refl
  put_absent k v (e ∷ m) h = ground (arith, put_absent k v m)

  pub lookup-delete-some :
      {v : V} (k j : K) (m : List (K × V))
      → lookup dec j (delete k m) ≡ some v
      → lookup dec j m ≡ some v
  unfolding lookup delete
  lookup-delete-some k j [] h = h
  lookup-delete-some {v} k j (e ∷ m) h =
      ground (arith, lookup-delete-some {v = v} k j m, lookup-delete_self k m)

  pub lookup-put-some :
      {w : V} (k j : K) (v : V) (m : List (K × V))
      → lookup dec j (put k v m) ≡ some w
      → ((j ≡ k) × (w ≡ v)) ⊎ (lookup dec j m ≡ some w)
  lookup-put-some {w} k j v m h = elim (dec j k) [
    | yes same ↦ inl (same, cc (lookup-put_self k v m))
    | no other ↦ inr (sym (lookup-put_ne {j = j} k v m other) ∙ h)
  ]
