-- ===== src/Js/Map.antt =====
-- `Map` and `Set`: entries in the order of their insertion, with keys compared by a given test.
pub mod Laws
use mtdd.Prelude.{
  ℕ, Bool, true, false, ◌||◌, List, [], ◌∷◌, ◌++◌, Option, none, some, if◌then◌else◌,
}

abbrev pub Test : Type 0 → Type 0
Test K = K → K → Bool

module _ {K V : Type 0} (same : Test K) where
  unfoldable pub get : K → List (K × V) → Option V
  get k [] = none
  get k (e ∷ map) = let rest = get k map in if same e.0 k then some e.1 else rest

  -- `map.set(k, v)`: a key that is there keeps its place
  unfoldable pub put : K → V → List (K × V) → List (K × V)
  put k v [] = (k, v) ∷ []
  put k v (e ∷ map) = let rest = put k v map in if same e.0 k then (e.0, v) ∷ map else e ∷ rest

  -- `map.delete(k)`
  unfoldable pub delete : K → List (K × V) → List (K × V)
  delete k [] = []
  delete k (e ∷ map) = let rest = delete k map in if same e.0 k then rest else e ∷ rest

module _ {K : Type 0} (same : Test K) where
  -- `set.has(k)`
  unfoldable pub has : K → List K → Bool
  has k [] = false
  has k (x ∷ set) = same x k || has k set

  -- `set.add(k)`
  unfoldable pub add : K → List K → List K
  unfolding has
  add k set = if has k set then set else set ++ k ∷ []

  -- `set.delete(k)`
  unfoldable pub discard : K → List K → List K
  discard k [] = []
  discard k (x ∷ set) = let rest = discard k set in if same x k then rest else x ∷ rest
