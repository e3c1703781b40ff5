-- ===== src/Base/Sort.antt =====
-- `sorted` of Python, an insertion sort over a test of the order, and `set` as a list without
-- repeated elements.
use Prim.Native.Nat.{Ordering}
use Prim.Native.String.{String, compare}
use mathlib.Core.Bool.{Bool, true, false, ◌||◌}
use mathlib.Core.List.{List, [], ◌∷◌}
use text.Mathlib.Text.{◌==◌}
use nlsqlc.Base.Tests.{if◌then◌else◌}

-- `a <= b` of two texts, by their code points
abbrev pub text_le : String → String → Bool
text_le a b = elim (compare a b) [ Ordering.gt ↦ false | _ ↦ true ]

-- `(a, b) <= (c, d)` over the orders of the components
abbrev pub pair_le : String × String → String × String → Bool
pair_le (a, b) (c, d) = if a == c then text_le b d else text_le a c

module _ {ℓ} {A : Type ℓ} where
  unfoldable pub place : (A → A → Bool) → A → List A → List A
  place le a [] = a ∷ []
  place le a (b ∷ bs) = if le a b then a ∷ b ∷ bs else b ∷ place le a bs

  -- The elements that are equal in the order keep theirs.
  unfoldable pub sorted : (A → A → Bool) → List A → List A
  unfolding place
  sorted le [] = []
  sorted le (a ∷ as') = place le a (sorted le as')

  unfoldable pub in_set : (A → A → Bool) → A → List A → Bool
  in_set eq a [] = false
  in_set eq a (b ∷ bs) = eq a b || in_set eq a bs

  -- `{a for a in xs}`
  unfoldable pub set_of : (A → A → Bool) → List A → List A
  unfolding in_set
  set_of eq [] = []
  set_of eq (a ∷ as') = let rest = set_of eq as' in if in_set eq a rest then rest else a ∷ rest

  -- `s - t`
  unfoldable pub difference : (A → A → Bool) → List A → List A → List A
  unfolding in_set
  difference eq [] t = []
  difference eq (a ∷ s) t = let rest = difference eq s t in if in_set eq a t then rest else a ∷ rest
