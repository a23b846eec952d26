-- ===== src/Base/Maps.antt =====
-- Go's `map`: an association list. The order of the entries stands for the order in which a `range`
-- loop happens to meet them, so a theorem for every list holds for every such order.
use mathlib.Core.Path.{◌≡◌, refl}
use mathlib.Core.Bool.{Bool, true, false}
use mathlib.Core.Option
use mathlib.Core.Option.{Option, none, some}
use mathlib.Core.List.{List, [], ◌∷◌}
use native.Mathlib.Omega.{arith}
use nekoq_bootstrap.Base.Tests.{if◌then◌else◌}
use nekoq_bootstrap.Base.Keys.{Key, ◌==◌, ==_refl}

abbrev pub Map {ℓ κ} : Type ℓ → Type κ → Type (ℓ ⊔ κ)
Map K V = List (K × V)

module _ {ℓ κ} {K : Type ℓ} ⦃key : Key K⦄ {V : Type κ} where
  -- v, ok := m[k]
  unfoldable pub lookup : K → Map K V → Option V
  lookup k [] = none
  lookup k ((i, u) ∷ entries) = if i == k then some u else lookup k entries

  -- m[k] = v
  unfoldable pub insert : K → V → Map K V → Map K V
  insert k v [] = (k, v) ∷ []
  insert k v ((i, u) ∷ entries) =
      let rest = insert k v entries in if i == k then (k, v) ∷ entries else (i, u) ∷ rest

  -- delete(m, k)
  unfoldable pub delete : K → Map K V → Map K V
  delete k [] = []
  delete k ((j, w) ∷ m) = let rest = delete k m in if j == k then rest else (j, w) ∷ rest

  -- What is under `q` after an insertion under `k`.
  pub lookup-insert :
      (k q : K) (v : V) (m : Map K V)
      → lookup q (insert k v m) ≡ (if k == q then some v else lookup q m)
  unfolding lookup insert
  lookup-insert k q v [] = refl
  lookup-insert k q v ((i, u) ∷ entries) =
      let ih = lookup-insert k q v entries in
      ground (arith, ih, key.same_iff k q, key.same_iff i k, key.same_iff i q)

  pub lookup-delete :
      (k j : K) (m : Map K V) → lookup j (delete k m) ≡ (if k == j then none else lookup j m)
  unfolding lookup delete
  lookup-delete k j [] = ground arith
  lookup-delete k j ((i, w) ∷ m) =
      ground (arith, key.same_iff k j, key.same_iff i k, key.same_iff i j, lookup-delete k j m)

  pub lookup-insert_self : (k : K) (v : V) (m : Map K V) → lookup k (insert k v m) ≡ some v
  lookup-insert_self k v m = simp (lookup-insert, ==_refl)

  pub lookup-singleton : (k : K) (v : V) → lookup k ((k, v) ∷ []) ≡ some v
  unfolding lookup
  lookup-singleton k v = rw ==_refl

-- len(m) == 0
abbrev pub is_empty {ℓ} : {A : Type ℓ} → List A → Bool
is_empty [] = true
is_empty (x ∷ xs) = false

module _ {ℓ κ} {K : Type ℓ} ⦃key : Key K⦄ {V : Type κ} where
  pub lookup-is_empty : (k : K) (m : Map K V) → is_empty m ≡ true → lookup k m ≡ none
  unfolding lookup
  lookup-is_empty k [] h = refl
  lookup-is_empty k (x ∷ m) h = cc

module _ {ℓ κ μ} {K : Type ℓ} ⦃key : Key K⦄ {V : Type κ} {W : Type μ} where
  -- for _, v := range m { … }, where the body overwrites what `v` points to
  unfoldable pub map_values : (V → W) → Map K V → Map K W
  map_values f [] = []
  map_values f ((j, v) ∷ m) = (j, f v) ∷ map_values f m

  pub lookup-map_values :
      (f : V → W) (k : K) (m : Map K V) → lookup k (map_values f m) ≡ Option.map f (lookup k m)
  unfolding lookup map_values
  lookup-map_values f k [] = refl
  lookup-map_values f k ((j, v) ∷ m) = ground (arith, lookup-map_values f k m)

pub ruleset map_laws = (lookup-insert, lookup-delete, lookup-map_values)
