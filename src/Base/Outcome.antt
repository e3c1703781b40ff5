-- ===== src/Base/Outcome.antt =====
-- A computation of the compiler: it has a value, raises a Python exception, or returns early from
-- `_py_compile_ir_engine` with a status and an error text (bindings/python/nlsql.py).
use Prim.Native.Nat.{ℕ}
use Prim.Native.String.{String}
use mathlib.Core.Path.{◌≡◌, refl}
use mathlib.Core.Bool.{Bool, true, false}
use nlsqlc.Base.Tests.{if◌then◌else◌}
use mathlib.Core.Option.{Option, none, some}

-- The `NLSQL_E_...` codes, and with `NLSQL_OK` all of them.
pub data Failure : Type 0 where
  invalid_argument oom limit parse schema policy unsupported type dialect internal : Failure

pub data Status : Type 0 where
  ok : Status
  failed : Failure → Status

abbrev pub failure_code : Failure → ℕ
failure_code Failure.invalid_argument = 1
failure_code Failure.oom = 2
failure_code Failure.limit = 3
failure_code Failure.parse = 4
failure_code Failure.schema = 5
failure_code Failure.policy = 6
failure_code Failure.unsupported = 7
failure_code Failure.type = 8
failure_code Failure.dialect = 9
failure_code Failure.internal = 10

abbrev pub failure_name : Failure → String
failure_name Failure.invalid_argument = "INVALID_ARGUMENT"
failure_name Failure.oom = "OOM"
failure_name Failure.limit = "LIMIT"
failure_name Failure.parse = "PARSE"
failure_name Failure.schema = "SCHEMA"
failure_name Failure.policy = "POLICY"
failure_name Failure.unsupported = "UNSUPPORTED"
failure_name Failure.type = "TYPE"
failure_name Failure.dialect = "DIALECT"
failure_name Failure.internal = "INTERNAL"

-- `NLSQL_STATUS_NAMES`, and the code of a status
abbrev pub status_name : Status → String
status_name ok = "OK"
status_name (failed f) = failure_name f

abbrev pub status_code : Status → ℕ
status_code ok = 0
status_code (failed f) = failure_code f

-- The classes that the code tells apart, with the text that `str(e)` gives. `fuel` has no
-- counterpart in the program.
pub data Exception : Type 0 where
  value_error index_error type_error overflow_error attribute_error key_error zero_division_error
        os_error runtime_error :
      String → Exception
  fuel : Exception

abbrev pub message : Exception → String
message (value_error m) = m
message (index_error m) = m
message (type_error m) = m
message (overflow_error m) = m
message (attribute_error m) = m
message (key_error m) = m
message (zero_division_error m) = m
message (os_error m) = m
message (runtime_error m) = m
message fuel = ""

pub data Outcome {ℓ} (A : Type ℓ) : Type ℓ where
  value : A → Outcome A
  raised : Exception → Outcome A
  returned : Failure → String → Outcome A

infixl 5 ◌>>=◌
abbrev pub ◌>>=◌ {ℓ κ} : {A : Type ℓ} {B : Type κ} → Outcome A → (A → Outcome B) → Outcome B
value a >>= f = f a
raised e >>= f = raised e
returned s m >>= f = returned s m

abbrev pub or_raise {ℓ} : {A : Type ℓ} → Option A → Exception → Outcome A
or_raise none e = raised e
or_raise (some a) e = value a

-- Inversion of a bind that has a value.
pub >>=-eq-value {ℓ κ} :
    {A : Type ℓ} {B : Type κ} (m : Outcome A) (f : A → Outcome B) {b : B}
    → (m >>= f) ≡ value b
    → (a : A) × (m ≡ value a) × (f a ≡ value b)
>>=-eq-value (value a) f h = (a, refl, h)
>>=-eq-value (raised e) f h = cc
>>=-eq-value (returned s m) f h = cc

pub value-injective : {A : Type 0} (a b : A) → value a ≡ value b → a ≡ b
value-injective a b e = cc

-- A guard with an early return that is passed.
pub guard-eq-value {ℓ} :
    {A : Type ℓ} (b : Bool) (f : Failure) (m : String) (rest : Outcome A) {a : A}
    → (if b then returned f m else rest) ≡ value a
    → (b ≡ false) × (rest ≡ value a)
guard-eq-value true f m rest h = cc
guard-eq-value false f m rest h = (refl, h)

-- A test with an exception that is passed.
pub test-eq-value {ℓ} :
    {A : Type ℓ} (b : Bool) (x : A) (e : Exception) {a : A}
    → (if b then value x else raised e) ≡ value a
    → (b ≡ true) × (value x ≡ value a)
test-eq-value true x e h = (refl, h)
test-eq-value false x e h = cc

-- The outcome is a value, and the value satisfies the predicate.
abbrev pub Returns {ℓ} : {A : Type ℓ} → (A → Type 0) → Outcome A → Type 0
Returns P (value a) = P a
Returns P (raised e) = ⊥
Returns P (returned f m) = ⊥

pub Returns-bind {ℓ ℓ'} :
    {A : Type ℓ} {B : Type ℓ'} (P : A → Type 0) (Q : B → Type 0) (m : Outcome A) (f : A → Outcome B)
    → Returns P m
    → ((a : A) → P a → Returns Q (f a))
    → Returns Q (m >>= f)
Returns-bind P Q (value a) f h k = k a h
Returns-bind P Q (raised e) f h k = absurd h
Returns-bind P Q (returned g m) f h k = absurd h
