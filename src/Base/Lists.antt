-- ===== src/Base/Lists.antt =====
-- Lists measured by native numbers, and predicates on their elements.
use Prim.Native.Nat.{ℕ, suc, ◌+◌}
use mathlib.Core.Logic.{◌⊎◌, inl, inr}
use mathlib.Core.Path.{◌≡◌, refl}
use mathlib.Core.List.{List, [], ◌∷◌, ◌++◌}
use native.Mathlib.Omega.{arith}

module _ {ℓ} {A : Type ℓ} where
  abbrev pub length : List A → ℕ
  length [] = 0
  length (x ∷ xs) = suc (length xs)

  pub length-append : (xs ys : List A) → length (xs ++ ys) ≡ length xs + length ys
  length-append [] ys = omega arith
  length-append (x ∷ xs) ys = omega (arith, length-append xs ys)

-- Every element satisfies `P`.
abbrev pub All {ℓ κ} : {A : Type ℓ} → (A → Type κ) → List A → Type κ
All P [] = Unit
All P (x ∷ xs) = P x × All P xs

pub All-append {ℓ κ} :
    {A : Type ℓ} (P : A → Type κ) (xs ys : List A) → All P xs → All P ys → All P (xs ++ ys)
All-append P [] ys h k = k
All-append P (x ∷ xs) ys h k = (h.0, All-append P xs ys h.1 k)

-- `a` stands in the list.
abbrev pub Elem : {A : Type 0} → A → List A → Type 0
Elem a [] = ⊥
Elem a (x ∷ xs) = (a ≡ x) ⊎ Elem a xs

pub Elem-append_left : {A : Type 0} (a : A) (xs ys : List A) → Elem a xs → Elem a (xs ++ ys)
Elem-append_left a [] ys m = absurd m
Elem-append_left a (x ∷ xs) ys (inl e) = inl e
Elem-append_left a (x ∷ xs) ys (inr m) = inr (Elem-append_left a xs ys m)

pub Elem-append_right : {A : Type 0} (a : A) (xs ys : List A) → Elem a ys → Elem a (xs ++ ys)
Elem-append_right a [] ys m = m
Elem-append_right a (x ∷ xs) ys m = inr (Elem-append_right a xs ys m)

pub All-intro {κ} :
    {A : Type 0} (P : A → Type κ) (xs : List A) → ((a : A) → Elem a xs → P a) → All P xs
All-intro P [] h = tt
All-intro P (x ∷ xs) h = (h x (inl refl), All-intro P xs λ a m. h a (inr m))

pub All-append-split {ℓ κ} :
    {A : Type ℓ} (P : A → Type κ) (xs ys : List A) → All P (xs ++ ys) → All P xs × All P ys
All-append-split P [] ys h = (tt, h)
All-append-split P (x ∷ xs) ys h = let (k, l) = All-append-split P xs ys h.1 in ((h.0, k), l)
