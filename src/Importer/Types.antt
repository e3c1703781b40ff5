-- ===== src/Importer/Types.antt =====
-- The type names that the importer writes, and those that the compiler knows.
use nlsqlc.Base.{String, Bool, true, false, ◌≢◌, if◌then◌else◌, arith}
use nlsqlc.Runtime.{Runtime}
use nlsqlc.Catalog.{type_code, type_unknown}
use nlsqlc.Importer.{type_of_upper, sql_type}

record IsKnown (name : String) : Type 0 where
  known : type_code name ≢ type_unknown

-- What holds of both branches holds of the conditional.
branch : (b : Bool) (x y : String) → IsKnown x → IsKnown y → IsKnown (if b then x else y)
branch true x y h k = h
branch false x y h k = k

type_of_upper-IsKnown : (t : String) → IsKnown (type_of_upper t)
unfolding type_of_upper type_code
type_of_upper-IsKnown t =
    branch _ "int64" _ (record { known = λ e. omega (arith, e) })
      (branch _ "float64" _ (record { known = λ e. omega (arith, e) })
        (branch _ "decimal" _ (record { known = λ e. omega (arith, e) })
          (branch _ "boolean" _ (record { known = λ e. omega (arith, e) })
            (branch _ "binary" _ (record { known = λ e. omega (arith, e) })
              (branch _ "uuid" _ (record { known = λ e. omega (arith, e) })
                (branch _ "date" _ (record { known = λ e. omega (arith, e) })
                  (branch _ "timestamp" "text" (record { known = λ e. omega (arith, e) })
                    (record { known = λ e. omega (arith, e) }))))))))

-- Every type that the importer gives to a column is one that the compiler knows.
pub type_code-sql_type :
    (rt : Runtime) (declared : String) → type_code (sql_type rt declared) ≢ type_unknown
unfolding sql_type
type_code-sql_type rt declared = (type_of_upper-IsKnown (rt.upper declared)).known
