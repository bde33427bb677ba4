-- ===== src/Prelude/Assoc.antt =====
-- A GHashTable as an association list: one entry for each key, the order of the entries unused.
use mathlib.Core.Path.{◌≡◌, refl}
use mathlib.Core.Option.{Option, none, some}
use mathlib.Core.List.{List, [], ◌∷◌}
use native.Mathlib.Omega.{arith}
use connui_cellular.Prelude.Tests.{KeyEq, ◌==◌, if◌then◌else◌}

abbrev pub Table {ℓ κ} : Type ℓ → Type κ → Type (ℓ ⊔ κ)
Table K V = List (K × V)

module _ {ℓ κ} {K : Type ℓ} {V : Type κ} ⦃keys : KeyEq K⦄ where
  -- g_hash_table_lookup
  unfoldable pub lookup : K → Table K V → Option V
  lookup k [] = none
  lookup k ((j, v) ∷ t) = if j == k then some v else lookup k t

  -- g_hash_table_remove
  unfoldable pub remove : K → Table K V → Table K V
  remove k [] = []
  remove k ((j, v) ∷ t) = let rest = remove k t in if j == k then rest else (j, v) ∷ rest

  -- g_hash_table_insert, which replaces the value of a key that is there
  unfoldable pub insert : K → V → Table K V → Table K V
  unfolding remove
  insert k v t = (k, v) ∷ remove k t

  pub lookup-remove :
      (k j : K) (t : Table K V) → lookup j (remove k t) ≡ (if k == j then none else lookup j t)
  unfolding lookup remove
  lookup-remove k j [] = ground arith
  lookup-remove k j ((i, v) ∷ t) =
      ground (arith, lookup-remove k j t, keys.test_iff i k, keys.test_iff i j, keys.test_iff k j)

  pub lookup-insert :
      (k j : K) (v : V) (t : Table K V)
      → lookup j (insert k v t) ≡ (if k == j then some v else lookup j t)
  unfolding lookup insert
  lookup-insert k j v t = ground (arith, lookup-remove k j t)

  pub lookup-insert_self : (k : K) (v : V) (t : Table K V) → lookup k (insert k v t) ≡ some v
  lookup-insert_self k v t = ground (arith, lookup-insert k k v t, keys.test_iff k k)

  -- A key that is absent is not touched by a removal.
  pub remove-absent : (k : K) (t : Table K V) → lookup k t ≡ none → remove k t ≡ t
  unfolding lookup remove
  remove-absent k [] h = refl
  remove-absent k ((i, v) ∷ t) h = ground (arith, remove-absent k t)

pub ruleset table_laws = (lookup-insert, lookup-remove)
