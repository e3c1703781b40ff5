-- ===== src/Repl/Counting.antt =====
-- How many parentheses the buffer has.
use Prim.Native.Char.{Char, code}
use package.text.Mathlib.TextLemmas.{nil-append, cons-append}
use nlsqlc.Base.{
  ℕ, ◌+◌, String, ◌<>◌, true, false, ◌&&◌, ◌≡◌, refl, sym, ap, ◌∙◌, inl, inr, List, [], ◌∷◌, ◌++◌,
  Bool-cases, and-cases, ◌==◌, eq_iff, eqb, arith,
}
use nlsqlc.Base.Text.{join, is_space}
use nlsqlc.Api.{text}
use nlsqlc.Gateway.{strip, strip_left, strip_right}
use nlsqlc.Repl.{combined, count_char, opens, closes}

module _ (c : ℕ) where
  pub count-append : (s t : String) → count_char c (s <> t) ≡ count_char c s + count_char c t
  unfolding count_char
  count-append String.[] t = rw (nil-append t) (omega arith)
  count-append (String.◌∷◌ d s) t = elim (Bool-cases (eqb (code d) c)) [
    | inl e ↦ rw (cons-append d s t, e) (omega (arith, count-append s t))
    | inr e ↦ rw (cons-append d s t, e) (count-append s t)
  ]

  count-join :
      (b : String) (bs : List String) (l : String)
      → count_char c "\n" ≡ 0
      → count_char c (join "\n" ((b ∷ bs) ++ (l ∷ [])))
        ≡ count_char c (join "\n" (b ∷ bs)) + count_char c l
  unfolding join
  count-join b [] l h = rw (count-append b ("\n" <> l), count-append "\n" l, h) (omega arith)
  count-join b (d ∷ bs) l h =
      rw
        (
          count-append b ("\n" <> join "\n" ((d ∷ bs) ++ (l ∷ []))),
          count-append "\n" (join "\n" ((d ∷ bs) ++ (l ∷ []))),
          count-append b ("\n" <> join "\n" (d ∷ bs)),
          count-append "\n" (join "\n" (d ∷ bs)),
          count-join d bs l h,
          h,
        )
        (omega arith)

  not_space : (d : Char) → is_space c ≡ false → is_space (code d) ≡ true → eqb (code d) c ≡ false
  not_space d h k = elim (Bool-cases (eqb (code d) c)) [
    | inl e ↦
        let same : code d ≡ c = ground arith in
        let bad : true ≡ false = sym k ∙ (ap is_space same ∙ h) in cc
    | inr e ↦ e
  ]

  count-strip_left :
      (s : String) → is_space c ≡ false → count_char c (strip_left s) ≡ count_char c s
  unfolding strip_left count_char
  count-strip_left String.[] h = refl
  count-strip_left (String.◌∷◌ d s) h = elim (Bool-cases (is_space (code d))) [
    | inl e ↦ rw (e, not_space d h e) (count-strip_left s h)
    | inr e ↦ rw e refl
  ]

  count-strip_right :
      (s : String) → is_space c ≡ false → count_char c (strip_right s) ≡ count_char c s
  unfolding strip_right count_char
  count-strip_right String.[] h = refl
  count-strip_right (String.◌∷◌ d s) h =
      let more = count-strip_right s h in
      elim (Bool-cases (strip_right s == "" && is_space (code d))) [
        | inl e ↦
            let (blank, space) = and-cases _ _ e in
            let none_left : count_char c s ≡ 0 =
              sym more ∙ ap (count_char c) ((eq_iff (strip_right s) "").0 blank) in
            rw (e, not_space d h space) (sym none_left)
        | inr e ↦ rw e (rw more refl)
      ]

  count-strip : (s : String) → is_space c ≡ false → count_char c (strip s) ≡ count_char c s
  unfolding strip
  count-strip s h = count-strip_right (strip_left s) h ∙ count-strip_left s h

  -- What the line adds to the count of the buffer
  pub count-combined :
      (b : String) (bs : List String) (l : String)
      → is_space c ≡ false
      → count_char c "\n" ≡ 0
      → count_char c (combined ((b ∷ bs) ++ (l ∷ [])))
        ≡ count_char c (join "\n" (b ∷ bs)) + count_char c l
  unfolding combined
  count-combined b bs l h k = count-strip (join "\n" ((b ∷ bs) ++ (l ∷ []))) h ∙ count-join b bs l k

-- `n` closing parentheses
unfoldable pub closers : ℕ → String
closers ℕ.zero = ""
closers (ℕ.suc n) = ")" <> closers n

pub count-closers : (n : ℕ) → (closes (closers n) ≡ n) × (opens (closers n) ≡ 0)
unfolding closers count_char
count-closers ℕ.zero = (refl, refl)
count-closers (ℕ.suc n) =
    let (h, k) = count-closers n in
    (
      count-append b')' ")" (closers n) ∙ omega (arith, h),
      count-append b'(' ")" (closers n) ∙ omega (arith, k),
    )
