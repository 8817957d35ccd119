-- ===== src/Common/Map.antt =====
-- Go's map as an association list. A range over a map follows the order of the list, which the
-- theorems leave open.
use mathlib.Core.Path.{◌≡◌, refl, sym, subst}
use mathlib.Core.Option.{Option, none, some}
use mathlib.Core.List.{List, [], ◌∷◌}
use native.Mathlib.Omega.{arith}
use mathlib.Core.Logic.{inl, inr}
use copilot_review_mcp.Common.Tests.{if◌then◌else◌, Bool-cases}
use copilot_review_mcp.Common.Equality.{Eq, ◌==◌}

abbrev pub Map {ℓ κ} : Type ℓ → Type κ → Type (ℓ ⊔ κ)
Map K V = List (K × V)

module _ {ℓ κ} {K : Type ℓ} {V : Type κ} ⦃e : Eq K⦄ where
  -- `v, ok := m[k]`.
  unfoldable pub lookup : K → Map K V → Option V
  lookup key [] = none
  lookup key ((k, v) ∷ rest) = if k == key then some v else lookup key rest

  -- `m[key] = v`.
  unfoldable pub insert : K → V → Map K V → Map K V
  insert key v [] = (key, v) ∷ []
  insert key v ((k, old) ∷ rest) =
      let done = insert key v rest in if k == key then (key, v) ∷ rest else (k, old) ∷ done

  -- `delete(m, key)`.
  unfoldable pub delete : K → Map K V → Map K V
  delete key [] = []
  delete key ((k, v) ∷ rest) =
      let done = delete key rest in if k == key then done else (k, v) ∷ done

  pub lookup-delete :
      (key j : K) (m : Map K V) → lookup j (delete key m) ≡ (if key == j then none else lookup j m)
  unfolding lookup delete
  lookup-delete key j [] = ground arith
  lookup-delete key j ((k, v) ∷ rest) =
      ground (arith, e.beq_iff k key, e.beq_iff k j, e.beq_iff key j, lookup-delete key j rest)

  pub lookup-insert :
      (key j : K) (new : V) (m : Map K V)
      → lookup j (insert key new m) ≡ (if key == j then some new else lookup j m)
  unfolding lookup insert
  lookup-insert key j new [] = refl
  lookup-insert key j new ((k, v) ∷ rest) =
      ground (arith, e.beq_iff k key, e.beq_iff k j, e.beq_iff key j, lookup-insert key j new rest)

  pub delete_twice : (k : K) (m : Map K V) → delete k (delete k m) ≡ delete k m
  unfolding delete
  delete_twice k [] = refl
  delete_twice k ((j, v) ∷ m) = ground (arith, delete_twice k m)

module _ {K V : Type 0} ⦃e : Eq K⦄ where
  -- No key stands twice.
  abbrev pub NoDup : Map K V → Type 0
  NoDup [] = Unit
  NoDup ((k, v) ∷ m) = (lookup k m ≡ none) × NoDup m

  pub insert-NoDup : (k : K) (v : V) (m : Map K V) → NoDup m → NoDup (insert k v m)
  unfolding insert lookup
  insert-NoDup k v [] h = (refl, tt)
  insert-NoDup k v ((j, w) ∷ m) h = elim (Bool-cases (j == k)) [
    | inl b ↦
        let same : insert k v ((j, w) ∷ m) ≡ ((k, v) ∷ m) = ground arith in
        let absent : lookup k m ≡ none = ground (arith, e.beq_iff j k) in
        subst NoDup (sym same) (absent, h.1)
    | inr b ↦
        let same : insert k v ((j, w) ∷ m) ≡ ((j, w) ∷ insert k v m) = ground arith in
        let absent : lookup j (insert k v m) ≡ none =
          ground (arith, e.beq_iff j k, e.beq_iff k j, lookup-insert k j v m) in
        subst NoDup (sym same) (absent, insert-NoDup k v m h.1)
  ]

pub ruleset map_laws = (lookup-delete, lookup-insert)
