-- ===== src/Base/Dict.antt =====
-- Python's `dict`, in insertion order, and `set`, over a test of its keys.
pub mod Laws
use nlsqlc.Base.{Bool, false, ◌||◌, Option, none, some, List, [], ◌∷◌, if◌then◌else◌}

abbrev pub Dict {ℓ κ} : Type ℓ → Type κ → Type (ℓ ⊔ κ)
Dict K V = List (K × V)

-- `k in s` of a set
unfoldable pub member {ℓ} : {K : Type ℓ} → (K → K → Bool) → K → List K → Bool
member eq k [] = false
member eq k (j ∷ s) = eq k j || member eq k s

module _ {ℓ κ} {K : Type ℓ} {V : Type κ} (eq : K → K → Bool) where
  unfoldable pub lookup : K → Dict K V → Option V
  lookup k [] = none
  lookup k ((j, v) ∷ d) = if eq k j then some v else lookup k d

  -- `k in d`
  unfoldable pub has : K → Dict K V → Bool
  has k [] = false
  has k ((j, v) ∷ d) = eq k j || has k d

  -- `d[k] = v`: a key that is there keeps its place
  unfoldable pub insert : K → V → Dict K V → Dict K V
  insert k v [] = (k, v) ∷ []
  insert k v ((j, w) ∷ d) = if eq k j then (j, v) ∷ d else (j, w) ∷ insert k v d

  -- `d.pop(k, None)`, and a file that is removed
  unfoldable pub erase : K → Dict K V → Dict K V
  erase k [] = []
  erase k ((j, v) ∷ d) = let rest = erase k d in if eq k j then rest else (j, v) ∷ rest
