-- ===== src/Gateway.antt =====
-- tools/server.py: `NLSQLGateway.reload`, the schema and the policy that the gateway serves. The text
-- of the schema file, if there is one, is an argument.
use Prim.Native.Char.{Char, code}
use nlsqlc.Base.{
  ℕ, String, Bool, true, false, ◌&&◌, ◌||◌, Option, none, some, List, [], ◌∷◌, ◌++◌, if◌then◌else◌,
  ◌==◌, eqb, leb,
}
use nlsqlc.Base.Text.{contains, is_space}
use nlsqlc.Base.Outcome.{Outcome, value, raised, index_error, ◌>>=◌}
use nlsqlc.Catalog.{TableKey, PySchema, PyPolicy, type_code, type_uuid, column_tenant_key, table_eq}
use nlsqlc.Catalog.Build.{ColumnSpec, TableSpec, TenantSpec, build_schema, build_policy}
use nlsqlc.Question.{split_words}

-- the line boundaries of `str.splitlines`
abbrev is_line_end : ℕ → Bool
is_line_end c =
    (leb 10 c && leb c 13) || (leb 28 c && leb c 30) || eqb c 0x85 || eqb c 0x2028 || eqb c 0x2029

-- A character joins the first of the lines behind it.
lengthen_line : Char → List String → List String
lengthen_line c [] = String.◌∷◌ c "" ∷ []
lengthen_line c (l ∷ ls) = String.◌∷◌ c l ∷ ls

-- `splitlines`, up to empty lines, which the loop passes over
unfoldable pub split_lines : String → List String
unfolding lengthen_line
split_lines String.[] = []
split_lines (String.◌∷◌ c s) =
    let rest = split_lines s in if is_line_end (code c) then "" ∷ rest else lengthen_line c rest

-- `line.lstrip()` and `line.rstrip()`
unfoldable pub strip_left : String → String
strip_left String.[] = ""
strip_left (String.◌∷◌ c s) =
    let rest = strip_left s in if is_space (code c) then rest else String.◌∷◌ c s

unfoldable pub strip_right : String → String
strip_right String.[] = ""
strip_right (String.◌∷◌ c s) =
    let rest = strip_right s in if rest == "" && is_space (code c) then "" else String.◌∷◌ c rest

unfoldable pub strip : String → String
unfolding strip_left strip_right is_space
strip s = strip_right (strip_left s)

-- `text.startswith(prefix)`
unfoldable pub starts_with : String → String → Bool
starts_with String.[] text = true
starts_with (String.◌∷◌ c p) String.[] = false
starts_with (String.◌∷◌ c p) (String.◌∷◌ d s) = eqb (code c) (code d) && starts_with p s

-- `text.split(".")`
lengthen_part : Char → List String → List String
lengthen_part c [] = String.◌∷◌ c "" ∷ []
lengthen_part c (p ∷ ps) = String.◌∷◌ c p ∷ ps

unfoldable pub split_dots : String → List String
unfolding lengthen_part
split_dots String.[] = "" ∷ []
split_dots (String.◌∷◌ c s) =
    let rest = split_dots s in if eqb (code c) b'.' then "" ∷ rest else lengthen_part c rest

abbrev out_of_range {ℓ} : {A : Type ℓ} → Outcome A
out_of_range = raised (index_error "list index out of range")

-- `(sc, tb, [])`
unfoldable pub table_spec : List String → TableSpec
table_spec (tag ∷ sc ∷ tb ∷ more) = record {
  key = record { schema = sc; table = tb };
  columns = [];
}
table_spec (tag ∷ sc ∷ []) = record { key = record { schema = sc; table = "orders" }; columns = [] }
table_spec _ = record { key = record { schema = "public"; table = "orders" }; columns = [] }

-- `NLSQL_TYPE_NAMES.get(typ_str, NLSQL_TYPE_TEXT)`
unfoldable pub type_or_text : String → ℕ
unfolding type_code
type_or_text name = if eqb (type_code name) 0 then 7 else type_code name

unfoldable pub flags_of : String → ℕ
flags_of line =
    if contains "tenant_key" line then column_tenant_key else if contains "pk" line then 1 else 0

-- a column with the table that it is for
unfoldable pub column_spec : String → List String → Outcome (TableKey × ColumnSpec)
unfolding split_dots type_or_text flags_of
column_spec line (tag ∷ sc ∷ path ∷ typ ∷ more) = elim (split_dots path) [
  | tb ∷ col ∷ rest ↦ value (
    record { schema = sc; table = tb },
    record { name = col; type = type_or_text typ; flags = some (flags_of line) },
  )
  | _ ↦ out_of_range
]
column_spec line _ = out_of_range

-- the inner loop: the column is appended to every table of its name
unfoldable pub append_column : TableKey → ColumnSpec → List TableSpec → List TableSpec
append_column k c [] = []
append_column k c (t ∷ ts) =
    let rest = append_column k c ts in
    if table_eq t.key k then record t { columns = t.columns ++ (c ∷ []) } ∷ rest else t ∷ rest

unfoldable pub read_line : String → List TableSpec → Outcome (List TableSpec)
unfolding starts_with table_spec column_spec append_column split_words
read_line line tables =
    if starts_with "table " line
    then value (tables ++ (table_spec (split_words line) ∷ []))
    else if starts_with "column " line
    then (column_spec line (split_words line) >>= λ c. value (append_column c.0 c.1 tables))
    else value tables

unfoldable pub read_lines : List String → List TableSpec → Outcome (List TableSpec)
unfolding strip read_line
read_lines [] tables = value tables
read_lines (l ∷ ls) tables = read_line (strip l) tables >>= λ ts. read_lines ls ts

abbrev public_key : String → TableKey
public_key table = record { schema = "public"; table = table }

abbrev column : String → ℕ → ℕ → ColumnSpec
column name type flags = record { name = name; type = type; flags = some flags }

-- the schema without a file
abbrev pub built_in_schema : PySchema
unfolding build_schema
built_in_schema =
    build_schema
      (record {
        key = public_key "orders";
        columns =
            column "id" 3 1
            ∷ column "tenant_id" 9 4
            ∷ column "customer_id" 3 0
            ∷ column "total_amount" 5 0
            ∷ column "status" 7 0
            ∷ [];
      }
        ∷ record {
          key = public_key "customers";
          columns = column "id" 3 1 ∷ column "tenant_id" 9 4 ∷ column "region" 7 0 ∷ [];
        }
        ∷ [])
      []
      (record {
        from = record { schema = "public"; table = "orders"; column = "customer_id" };
        to = record { schema = "public"; table = "customers"; column = "id" };
      }
        ∷ [])

abbrev tenant_on : String → TenantSpec
tenant_on table = record { key = public_key table; column = "tenant_id"; type = some type_uuid }

abbrev pub gateway_policy : PyPolicy
unfolding build_policy
gateway_policy =
    build_policy (public_key "orders" ∷ public_key "customers" ∷ []) []
      (tenant_on "orders" ∷ tenant_on "customers" ∷ []) none (some ("tenant_id", type_uuid))

unfoldable pub load_schema : Option String → Outcome PySchema
unfolding split_lines read_lines build_schema
load_schema none = value built_in_schema
load_schema (some text) = read_lines (split_lines text) [] >>= λ ts. value (build_schema ts [] [])

-- The gateway's state
pub record Gateway : Type 0 where
  pub schema : Option PySchema
  pub policy : Option PyPolicy

-- `reload`: an exception leaves the gateway as it was
unfoldable pub reload : Option String → Gateway → Outcome (Unit {0}) × Gateway
unfolding load_schema
reload file g = elim (load_schema file) [
  | value s ↦ (value tt, record { schema = some s; policy = some gateway_policy })
  | raised e ↦ (raised e, g)
  | Outcome.returned f m ↦ (Outcome.returned f m, g)
]
