-- ===== src/Sexpr/Numerals.antt =====
-- The numerals that Python writes are words of the S-expressions.
use mathlib.Core.Path.{subst}
use text.Mathlib.TextLemmas.{cons-append, nil-append, append-nil}
use nlsqlc.Base.{
  ℕ, suc, ◌+◌, ◌/◌, ◌%◌, ◌≡◌, refl, sym, ap, ◌∙◌, [], ◌∷◌, String, ◌<>◌, Bool-cases, inl, inr, eqb,
  arith,
}
use nlsqlc.Base.Text.{digit_text, digits, decimal, is_space}
use nlsqlc.Base.Int.{ℤ, pos, negsuc, show_ℤ}
use nlsqlc.Sexpr.{is_run_char, run, find_tokens}
use nlsqlc.Sexpr.RoundTrip.{AreRunChars, IsRun, find_tokens-proper}

AreRunChars-append : (s t : String) → AreRunChars s → AreRunChars t → AreRunChars (s <> t)
AreRunChars-append String.[] t h k = rw (nil-append t) k
AreRunChars-append (String.◌∷◌ c s) t h k =
    rw (cons-append c s t) (h.0, AreRunChars-append s t h.1 k)

AreRunChars-IsRun : (s : String) → IsRun s → AreRunChars s
AreRunChars-IsRun String.[] h = absurd h
AreRunChars-IsRun (String.◌∷◌ c s) h = h

IsRun-append : (s t : String) → IsRun s → AreRunChars t → IsRun (s <> t)
IsRun-append String.[] t h k = absurd h
IsRun-append (String.◌∷◌ c s) t h k = rw (cons-append c s t) (h.0, AreRunChars-append s t h.1 k)

digit_text-IsRun : (d : ℕ) → IsRun (digit_text d)
unfolding is_run_char is_space
digit_text-IsRun ℕ.zero = (refl, tt)
digit_text-IsRun (ℕ.suc ℕ.zero) = (refl, tt)
digit_text-IsRun (ℕ.suc (ℕ.suc ℕ.zero)) = (refl, tt)
digit_text-IsRun (ℕ.suc (ℕ.suc (ℕ.suc ℕ.zero))) = (refl, tt)
digit_text-IsRun (ℕ.suc (ℕ.suc (ℕ.suc (ℕ.suc ℕ.zero)))) = (refl, tt)
digit_text-IsRun (ℕ.suc (ℕ.suc (ℕ.suc (ℕ.suc (ℕ.suc ℕ.zero))))) = (refl, tt)
digit_text-IsRun (ℕ.suc (ℕ.suc (ℕ.suc (ℕ.suc (ℕ.suc (ℕ.suc ℕ.zero)))))) = (refl, tt)
digit_text-IsRun (ℕ.suc (ℕ.suc (ℕ.suc (ℕ.suc (ℕ.suc (ℕ.suc (ℕ.suc ℕ.zero))))))) = (refl, tt)
digit_text-IsRun (ℕ.suc (ℕ.suc (ℕ.suc (ℕ.suc (ℕ.suc (ℕ.suc (ℕ.suc (ℕ.suc ℕ.zero)))))))) = (refl, tt)
digit_text-IsRun (ℕ.suc (ℕ.suc (ℕ.suc (ℕ.suc (ℕ.suc (ℕ.suc (ℕ.suc (ℕ.suc (ℕ.suc n))))))))) =
    (refl, tt)

digits-AreRunChars : (fuel n : ℕ) → AreRunChars (digits fuel n)
unfolding digits
digits-AreRunChars ℕ.zero n = tt
digits-AreRunChars (ℕ.suc fuel) n =
    let last = AreRunChars-IsRun _ (digit_text-IsRun (n % 10)) in
    elim (Bool-cases (eqb (n / 10) 0)) [
      | inl e ↦ rw e last
      | inr e ↦ rw e (AreRunChars-append _ _ (digits-AreRunChars fuel (n / 10)) last)
    ]

-- The last digit is there.
IsRun-behind : (s t : String) → AreRunChars s → IsRun t → IsRun (s <> t)
IsRun-behind String.[] t h k = rw (nil-append t) k
IsRun-behind (String.◌∷◌ c s) t h k = IsRun-append (String.◌∷◌ c s) t h (AreRunChars-IsRun t k)

digits-IsRun : (fuel n : ℕ) → IsRun (digits (suc fuel) n)
unfolding digits
digits-IsRun fuel n = elim (Bool-cases (eqb (n / 10) 0)) [
  | inl e ↦ rw e (digit_text-IsRun (n % 10))
  | inr e ↦ rw e (IsRun-behind _ _ (digits-AreRunChars fuel (n / 10)) (digit_text-IsRun (n % 10)))
]

decimal-IsRun : (n : ℕ) → IsRun (decimal n)
unfolding decimal
decimal-IsRun n =
    let more : suc n ≡ n + 1 = omega arith in
    subst (λ k. IsRun (digits k n)) more (digits-IsRun n n)

show_ℤ-IsRun : (n : ℤ) → IsRun (show_ℤ n)
unfolding show_ℤ is_run_char is_space
show_ℤ-IsRun (pos n) = decimal-IsRun n
show_ℤ-IsRun (negsuc n) =
    IsRun-append "-" (decimal (suc n)) (refl, tt) (AreRunChars-IsRun _ (decimal-IsRun (suc n)))

-- `str(n)` is one word.
pub find_tokens-show_ℤ : (n : ℤ) → find_tokens (show_ℤ n) ≡ run (show_ℤ n) ∷ []
unfolding find_tokens
find_tokens-show_ℤ n =
    ap find_tokens (sym (append-nil (show_ℤ n)))
    ∙ find_tokens-proper (show_ℤ n) "" (show_ℤ-IsRun n) refl
