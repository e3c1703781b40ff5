-- ===== src/Base/Text.antt =====
-- Python's `str` as the native `String`, a list of code points. Strings that hold surrogates have
-- no counterpart here.
pub mod Join
use Prim.Native.Nat.{ℕ, zero, suc, ◌+◌, ◌/◌, ◌%◌}
use Prim.Native.Char.{code}
use Prim.Native.String.{String, ◌++◌ as ◌<>◌}
use mathlib.Core.Bool.{Bool, true, false, ◌||◌, ◌&&◌}
use mathlib.Core.Path.{◌≡◌, refl}
use mathlib.Core.Option.{none, some}
use mathlib.Core.List.{List, [], ◌∷◌, map}
use text.Mathlib.Text.{find?}
use nlsqlc.Base.Tests.{leb, eqb, if◌then◌else◌}

abbrev pub codes : String → List ℕ
codes String.[] = []
codes (String.◌∷◌ c s) = code c ∷ codes s

-- `sep.join(parts)`
unfoldable pub join : String → List String → String
join sep [] = ""
join sep (x ∷ []) = x
join sep (x ∷ y ∷ rest) = x <> (sep <> join sep (y ∷ rest))

-- `part in text`
unfoldable pub contains : String → String → Bool
contains part text = elim (find? text part) [ none ↦ false | some _ ↦ true ]

-- `c.isspace()`, which is also `\s` of `re` on a `str`
unfoldable pub is_space : ℕ → Bool
is_space c =
    (leb 9 c && leb c 13)
    || (leb 28 c && leb c 32)
    || eqb c 0x85
    || eqb c 0xa0
    || eqb c 0x1680
    || (leb 0x2000 c && leb c 0x200a)
    || eqb c 0x2028
    || eqb c 0x2029
    || eqb c 0x202f
    || eqb c 0x205f
    || eqb c 0x3000

abbrev pub digit_text : ℕ → String
digit_text zero = "0"
digit_text (suc zero) = "1"
digit_text (suc (suc zero)) = "2"
digit_text (suc (suc (suc zero))) = "3"
digit_text (suc (suc (suc (suc zero)))) = "4"
digit_text (suc (suc (suc (suc (suc zero))))) = "5"
digit_text (suc (suc (suc (suc (suc (suc zero)))))) = "6"
digit_text (suc (suc (suc (suc (suc (suc (suc zero))))))) = "7"
digit_text (suc (suc (suc (suc (suc (suc (suc (suc zero)))))))) = "8"
digit_text _ = "9"

unfoldable pub digits : ℕ → ℕ → String
digits zero n = ""
digits (suc fuel) n =
    let more = digits fuel (n / 10) in
    if eqb (n / 10) 0 then digit_text (n % 10) else more <> digit_text (n % 10)

-- `str(n)`. A number has fewer digits than itself plus one.
unfoldable pub decimal : ℕ → String
unfolding digits
decimal n = digits (n + 1) n

decimal_runs : decimal 1207 ≡ "1207"
unfolding decimal
decimal_runs = refl

-- `s.replace("'", "").replace('"', "")`
unfoldable pub strip_quotes : String → String
strip_quotes String.[] = ""
strip_quotes (String.◌∷◌ c s) =
    let rest = strip_quotes s in
    if eqb (code c) b'\'' || eqb (code c) b'"' then rest else String.◌∷◌ c rest

abbrev pub lower_code : ℕ → ℕ
lower_code c = if leb b'A' c && leb c b'Z' then c + 32 else c

abbrev pub same_codes : List ℕ → List ℕ → Bool
same_codes [] [] = true
same_codes (a ∷ as') (b ∷ bs) = eqb a b && same_codes as' bs
same_codes _ _ = false

-- `s.lower() == "desc"`: no letter outside ASCII has `d`, `e`, `s` or `c` for its lower case.
unfoldable pub is_desc : String → Bool
is_desc s = same_codes (map lower_code (codes s)) (codes "desc")

is_desc_runs : is_desc "DesC" ≡ true
unfolding is_desc
is_desc_runs = refl
