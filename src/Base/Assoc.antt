-- ===== src/Base/Assoc.antt =====
-- Go's maps as association lists. The laws read a map only through `lookup`.
use mathlib.Core.Path.{◌≡◌, refl}
use mathlib.Core.Bool.{Bool, true, false}
use mathlib.Core.List.{List, [], ◌∷◌}
use mathlib.Core.Option.{Option, none, some}
use native.Mathlib.Omega.{arith}
use tjsip.Base.Tests.{if◌then◌else◌, is_some}
use tjsip.Base.Classes.{Eq, ◌==◌}

abbrev pub Assoc {ℓ κ} : Type ℓ → Type κ → Type (ℓ ⊔ κ)
Assoc K V = List (K × V)

module _ {ℓ κ} {K : Type ℓ} {V : Type κ} ⦃e : Eq K⦄ where
  unfoldable pub lookup : K → Assoc K V → Option V
  lookup k [] = none
  lookup k ((j, v) ∷ m) = if j == k then some v else lookup k m

  -- m[k] = v
  unfoldable pub insert : K → V → Assoc K V → Assoc K V
  insert k v m = (k, v) ∷ m

  -- delete(m, k)
  unfoldable pub delete : K → Assoc K V → Assoc K V
  delete k [] = []
  delete k ((j, v) ∷ m) = let rest = delete k m in if j == k then rest else (j, v) ∷ rest

  -- len(m) == 0
  unfoldable pub is_empty : Assoc K V → Bool
  is_empty [] = true
  is_empty (_ ∷ _) = false

  pub lookup-nil : (k : K) → lookup k [] ≡ none
  unfolding lookup
  lookup-nil k = refl

  pub lookup-insert :
      (k j : K) (v : V) (m : Assoc K V)
      → lookup j (insert k v m) ≡ (if k == j then some v else lookup j m)
  unfolding lookup insert
  lookup-insert k j v m = refl

  pub lookup-delete :
      (k j : K) (m : Assoc K V) → lookup j (delete k m) ≡ (if k == j then none else lookup j m)
  unfolding lookup delete
  lookup-delete k j [] = ground arith
  lookup-delete k j ((i, v) ∷ m) =
      ground (arith, lookup-delete k j m, e.beq_iff i k, e.beq_iff i j, e.beq_iff k j)

  pub lookup_empty : (k : K) (m : Assoc K V) → is_empty m ≡ true → lookup k m ≡ none
  unfolding lookup is_empty
  lookup_empty k [] h = refl
  lookup_empty k (x ∷ m) h = cc

  -- A map that is not empty has a key.
  pub some_key : (m : Assoc K V) → is_empty m ≡ false → (k : K) × (is_some (lookup k m) ≡ true)
  unfolding lookup is_empty
  some_key [] h = cc
  some_key ((k, v) ∷ m) h = (k, ground (arith, e.beq_iff k k))
