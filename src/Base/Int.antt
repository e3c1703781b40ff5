-- ===== src/Base/Int.antt =====
-- Python's `int` over the native numbers, and `int(s)` of a text.
use Prim.Native.Nat.{ℕ, zero, suc, ◌+◌, ◌-◌, ◌*◌, ◌/◌}
use Prim.Native.String.{String, ◌++◌ as ◌<>◌}
use mathlib.Core.Path.{◌≡◌, refl}
use mathlib.Core.Bool.{Bool, true, false}
use mathlib.Core.Option.{Option, none, some}
use mathlib.Core.List.{List, [], ◌∷◌}
use nlsqlc.Base.Tests.{leb, eqb, if◌then◌else◌}
use nlsqlc.Base.Text.{codes, decimal, is_space}

-- `negsuc n` is -(n + 1).
pub data ℤ : Type 0 where
  pos : ℕ → ℤ
  negsuc : ℕ → ℤ

abbrev pos_part : ℤ → ℕ
pos_part (pos n) = n
pos_part (negsuc n) = 0

abbrev neg_part : ℤ → ℕ
neg_part (pos n) = 0
neg_part (negsuc n) = suc n

abbrev sub_ℕ : ℕ → ℕ → ℤ
sub_ℕ a b = if leb b a then pos (a - b) else negsuc (b - a - 1)

infixl 65 ◌+ℤ◌ ◌-ℤ◌
infixl 70 ◌*ℤ◌ ◌/ℤ◌
unfoldable pub ◌+ℤ◌ : ℤ → ℤ → ℤ
a +ℤ b = sub_ℕ (pos_part a + pos_part b) (neg_part a + neg_part b)

unfoldable pub ◌-ℤ◌ : ℤ → ℤ → ℤ
a -ℤ b = sub_ℕ (pos_part a + neg_part b) (neg_part a + pos_part b)

unfoldable pub ◌*ℤ◌ : ℤ → ℤ → ℤ
a *ℤ b =
    sub_ℕ (pos_part a * pos_part b + neg_part a * neg_part b)
      (pos_part a * neg_part b + neg_part a * pos_part b)

-- `a // b`, rounding down; the callers test `b != 0` first.
unfoldable pub ◌/ℤ◌ : ℤ → ℤ → ℤ
pos a /ℤ pos b = pos (a / b)
negsuc a /ℤ pos b = negsuc (a / b)
pos zero /ℤ negsuc b = pos 0
pos (suc a) /ℤ negsuc b = negsuc (a / suc b)
negsuc a /ℤ negsuc b = pos (suc a / suc b)

abbrev pub eq_ℤ : ℤ → ℤ → Bool
eq_ℤ (pos a) (pos b) = eqb a b
eq_ℤ (negsuc a) (negsuc b) = eqb a b
eq_ℤ _ _ = false

-- `str(i)`
unfoldable pub show_ℤ : ℤ → String
show_ℤ (pos n) = decimal n
show_ℤ (negsuc n) = "-" <> decimal (suc n)

floor_runs : negsuc 6 /ℤ pos 2 ≡ negsuc 3
unfolding ◌/ℤ◌
floor_runs = refl

-- The decimal digits of a numeral; one `_` may stand between two of them. The flag says that a
-- digit stands just before.
module _ (digit : ℕ → Option ℕ) where
  scan_digits : Bool → ℕ → List ℕ → Option ℕ
  scan_digits after n [] = if after then some n else none
  scan_digits after n (c ∷ cs) = elim (digit c) [
    | some d ↦ scan_digits true (n * 10 + d) cs
    | none ↦ if eqb c b'_' then (if after then scan_digits false n cs else none) else none
  ]

  negate : ℕ → ℤ
  negate zero = pos 0
  negate (suc n) = negsuc n

  map_int : (ℕ → ℤ) → Option ℕ → Option ℤ
  map_int f none = none
  map_int f (some n) = some (f n)

  scan_signed : List ℕ → Option ℤ
  scan_signed [] = none
  scan_signed (c ∷ cs) =
      if eqb c b'-'
      then map_int negate (scan_digits false 0 cs)
      else if eqb c b'+'
      then map_int pos (scan_digits false 0 cs)
      else map_int pos (scan_digits false 0 (c ∷ cs))

  drop_space : List ℕ → List ℕ
  drop_space [] = []
  drop_space (c ∷ cs) = let rest = drop_space cs in if is_space c then rest else c ∷ cs

  trim_space : List ℕ → List ℕ
  trim_space [] = []
  trim_space (c ∷ cs) = elim (trim_space cs) [
    | [] ↦ if is_space c then [] else c ∷ []
    | d ∷ ds ↦ c ∷ d ∷ ds
  ]

  -- `int(s)`, `none` for a ValueError; `digit` is the decimal value of a code point.
  unfoldable pub int_of_text : String → Option ℤ
  unfolding scan_digits negate map_int scan_signed drop_space trim_space is_space
  int_of_text s = scan_signed (trim_space (drop_space (codes s)))
