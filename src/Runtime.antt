-- ===== src/Runtime.antt =====
-- What the engine takes from the Python runtime and does not implement: IEEE floats and the
-- Unicode tables. A float is carried as its `repr`, the shortest text that reads back as it.
use nlsqlc.Base.{ℕ, String, Bool, Option}
use nlsqlc.Base.Int.{ℤ}

-- The outcomes of `int(f)` of a float: a NaN gives a ValueError, an infinity an OverflowError.
pub data FloatInt : Type 0 where
  whole : ℤ → FloatInt
  not_a_number infinite : FloatInt

pub record Runtime : Type 0 where
  -- `float(s)`, `none` for a ValueError; `float_of_int` gives `none` for an OverflowError
  pub float_of_text : String → Option String
  pub float_of_int : ℤ → Option String
  pub int_of_float : String → FloatInt
  pub float_add : String → String → String
  pub float_sub : String → String → String
  pub float_mul : String → String → String
  pub float_div : String → String → String
  pub float_floor_div : String → String → String
  -- `f == g`, and `f == i` for an int
  pub float_eq : String → String → Bool
  pub float_eq_int : String → ℤ → Bool
  -- the decimal value of a code point, `c.isalpha()`, `c.isalnum()`, `s.upper()` and `repr(s)`
  pub digit : ℕ → Option ℕ
  pub is_alpha : ℕ → Bool
  pub is_alnum : ℕ → Bool
  pub upper : String → String
  pub repr_text : String → String
