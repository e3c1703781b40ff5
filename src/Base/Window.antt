-- ===== src/Base/Window.antt =====
-- A list that is kept short: a new element goes to the end, and beyond the bound the first goes.
use Prim.Native.Nat.{ℕ, zero, suc, ◌+◌, ◌-◌, ◌≤◌}
use mathlib.Core.Logic.{inl, inr}
use mathlib.Core.Path.{◌≡◌, refl, sym, ap, ◌∙◌}
use mathlib.Core.List.{List, [], ◌∷◌, ◌++◌}
use native.Mathlib.Omega.{arith}
use nlsqlc.Base.Tests.{ltb, Bool-cases, if◌then◌else◌}
use nlsqlc.Base.Lists.{length, length-append}

module _ {ℓ} {A : Type ℓ} where
  abbrev pub drop : ℕ → List A → List A
  drop zero xs = xs
  drop (suc n) [] = []
  drop (suc n) (x ∷ xs) = drop n xs

  -- `xs.append(x)`, and `xs.pop(0)` if `len(xs) > cap`
  unfoldable pub push_bounded : ℕ → A → List A → List A
  push_bounded cap x xs =
      if ltb cap (length (xs ++ (x ∷ []))) then drop 1 (xs ++ (x ∷ [])) else xs ++ (x ∷ [])

  -- the last `n` elements
  unfoldable pub last : ℕ → List A → List A
  last n xs = drop (length xs - n) xs

  drop-nil : (n : ℕ) → drop n [] ≡ []
  drop-nil zero = refl
  drop-nil (suc n) = refl

  pub last-nil : (n : ℕ) → [] ≡ last n []
  unfolding last
  last-nil n = sym (drop-nil (length {A = A} [] - n))

  drop-append : (n : ℕ) (xs ys : List A) → n ≤ length xs → drop n (xs ++ ys) ≡ drop n xs ++ ys
  drop-append zero xs ys h = refl
  drop-append (suc n) [] ys h = absurd (omega arith)
  drop-append (suc n) (x ∷ xs) ys h = drop-append n xs ys (omega arith)

  drop_one-drop : (n : ℕ) (xs : List A) → drop 1 (drop n xs) ≡ drop (suc n) xs
  drop_one-drop zero xs = refl
  drop_one-drop (suc n) [] = refl
  drop_one-drop (suc n) (x ∷ xs) = drop_one-drop n xs

  length-drop : (n : ℕ) (xs : List A) → length (drop n xs) ≡ length xs - n
  length-drop zero xs = omega arith
  length-drop (suc n) [] = omega arith
  length-drop (suc n) (x ∷ xs) = omega (arith, length-drop n xs)

  pub length-last_lem : (n : ℕ) (xs : List A) → length (last n xs) ≡ length xs - (length xs - n)
  unfolding last
  length-last_lem n xs = length-drop (length xs - n) xs

  pub length-last : (n : ℕ) (xs : List A) → length (last n xs) ≤ n
  length-last n xs = omega (arith, length-last_lem n xs)

  -- The bounded list holds the end of the whole one.
  pub push_bounded-last :
      (cap : ℕ) (x : A) (xs : List A) → push_bounded cap x (last cap xs) ≡ last cap (xs ++ (x ∷ []))
  unfolding push_bounded last
  push_bounded-last cap x xs =
      let n = length xs - cap in
      let longer = xs ++ (x ∷ []) in
      let kept : drop n xs ++ (x ∷ []) ≡ drop n longer =
        sym (drop-append n xs (x ∷ []) (omega arith)) in
      let size : length longer ≡ length xs + 1 = length-append xs (x ∷ []) in
      let short : length (drop n xs ++ (x ∷ [])) ≡ length xs - n + 1 =
        omega (arith, length-append (drop n xs) (x ∷ []), length-drop n xs) in
      elim (Bool-cases (ltb cap (length (drop n xs ++ (x ∷ []))))) [
        | inl h ↦
            let more : suc n ≡ length longer - cap = ground (arith, size, short) in
            rw h (ap (drop 1) kept ∙ drop_one-drop n longer ∙ ap (λ k. drop k longer) more)
        | inr h ↦
            let none_more : n ≡ length longer - cap = ground (arith, size, short) in
            rw h (kept ∙ ap (λ k. drop k longer) none_more)
      ]
