-- ===== src/Prelude/Map.antt =====
-- Hash maps as association lists: `find`, `operator[] =` and `operator[].push_back`. The program
-- reads these maps by key only, so the order of the entries plays no part.
use mathlib.Core.Path.{◌≡◌}
use mathlib.Core.List.{List, [], ◌∷◌, ◌++◌}
use mathlib.Core.Option.{Option, none, some}
use native.Mathlib.Omega.{arith}
use experimental_gcode_parse.Prelude.Tests.{if◌then◌else◌}
use experimental_gcode_parse.Prelude.Equality.{Comparable, ◌==◌}

module _ {ℓ κ} {K : Type ℓ} {V : Type κ} ⦃e : Comparable K⦄ where
  -- `map.find(key)`
  unfoldable pub lookup : K → List (K × V) → Option V
  lookup key [] = none
  lookup key ((k, value) ∷ others) = if k == key then some value else lookup key others

  -- `map[key] = value`: a new key comes last.
  unfoldable pub insert : K → V → List (K × V) → List (K × V)
  insert key value [] = (key, value) ∷ []
  insert key value ((k, old) ∷ others) =
      if k == key then (k, value) ∷ others else (k, old) ∷ insert key value others

module _ {ℓ κ} {K : Type ℓ} {V : Type κ} ⦃e : Comparable K⦄ where
  -- `map[k].push_back(v)` on a map of vectors.
  unfoldable pub push_at : K → V → List (K × List V) → List (K × List V)
  push_at k v [] = (k, v ∷ []) ∷ []
  push_at k v ((j, vs) ∷ m) = if j == k then (j, vs ++ v ∷ []) ∷ m else (j, vs) ∷ push_at k v m

  -- The vector of a key, empty where the map has no such key.
  unfoldable pub lookup_all : K → List (K × List V) → List V
  lookup_all k [] = []
  lookup_all k ((j, vs) ∷ m) = if j == k then vs else lookup_all k m

  pub lookup_all-push_at :
      (k j : K) (v : V) (m : List (K × List V))
      → lookup_all j (push_at k v m) ≡ (if k == j then lookup_all j m ++ v ∷ [] else lookup_all j m)
  unfolding lookup_all push_at
  lookup_all-push_at k j v [] = ground arith
  lookup_all-push_at k j v ((i, w) ∷ m) =
      ground (arith, e.same_iff k j, e.same_iff i k, e.same_iff i j, lookup_all-push_at k j v m)
