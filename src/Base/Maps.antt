-- ===== src/Base/Maps.antt =====
-- Go maps with string keys as association lists: each key stands once, in the order of insertion.
use mathlib.Core.Path.{◌≡◌, refl}
use mathlib.Core.Option.{Option, none, some}
use mathlib.Core.List.{List, [], ◌∷◌}
use native.Mathlib.Omega.{arith}
use dippin_lang.Base.Tests.{if◌then◌else◌}
use dippin_lang.Base.Text.{Str, ◌==◌, ==_iff}

abbrev pub Map {ℓ} : Type ℓ → Type ℓ
Map V = List (Str × V)

module _ {ℓ} {V : Type ℓ} where
  -- v, ok := m[k]
  unfoldable pub lookup : Str → Map V → Option V
  lookup k [] = none
  lookup k ((j, v) ∷ m) = if k == j then some v else lookup k m

  -- m[k] = v
  unfoldable pub insert : Str → V → Map V → Map V
  insert k v [] = (k, v) ∷ []
  insert k v ((j, w) ∷ m) = if k == j then (k, v) ∷ m else (j, w) ∷ insert k v m

  -- delete(m, k)
  unfoldable pub delete : Str → Map V → Map V
  delete k [] = []
  delete k ((j, w) ∷ m) = let rest = delete k m in if k == j then rest else (j, w) ∷ rest

  pub lookup-insert :
      (key other : Str) (value : V) (m : Map V)
      → lookup other (insert key value m) ≡ (if other == key then some value else lookup other m)
  unfolding lookup insert
  lookup-insert key other value [] = refl
  lookup-insert key other value (entry ∷ m) = ground (
    arith,
    ==_iff key other,
    ==_iff other key,
    ==_iff key entry.0,
    ==_iff other entry.0,
    lookup-insert key other value m,
  )

  pub lookup-delete :
      (k j : Str) (m : Map V) → lookup j (delete k m) ≡ (if j == k then none else lookup j m)
  unfolding lookup delete
  lookup-delete k j [] = ground arith
  lookup-delete k j ((i, w) ∷ m) =
      ground (arith, ==_iff j k, ==_iff k i, ==_iff j i, lookup-delete k j m)

-- m[k] of a `map[string]string`: the zero value where the key is missing.
unfoldable pub value_at : Str → Map Str → Str
value_at k m = elim (lookup k m) [ none ↦ [] | some v ↦ v ]
