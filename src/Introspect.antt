-- ===== src/Introspect.antt =====
-- tools/db_introspect.py: the schema and the policy that are written for a database. What the drivers
-- answer to the queries is an argument.
pub mod Names
pub mod Tenancy
use nlsqlc.Base.{
  ℕ, String, ◌<>◌, Bool, true, false, ◌&&◌, Option, none, some, List, [], ◌∷◌, ◌++◌, if◌then◌else◌,
  ◌==◌, eqb,
}
use Prim.Native.Char.{Char, code}
use nlsqlc.Base.Dict
use nlsqlc.Base.Dict.{Dict}
use nlsqlc.Base.Text.{join}
use nlsqlc.Base.Outcome.{Outcome, Exception, value, raised, returned, ◌>>=◌}
use nlsqlc.Runtime.{Runtime}
use nlsqlc.Importer.{ColumnRow, ForeignKeyRow, Database, sql_type, ident}
use nlsqlc.Gateway.{strip}

-- `schema_lines` and `policy_lines`
pub record Lines : Type 0 where
  pub schema_lines : List String
  pub policy_lines : List String

infixr 20 ◌and_then◌
abbrev pub ◌and_then◌ : Lines → Lines → Lines
a and_then b = record {
  schema_lines = a.schema_lines ++ b.schema_lines;
  policy_lines = a.policy_lines ++ b.policy_lines;
}

abbrev pub no_lines : Lines
no_lines = record { schema_lines = []; policy_lines = [] }

-- the two texts that are returned
abbrev pub texts : Lines → String × String
texts l = (join "\n" l.schema_lines <> "\n", join "\n" l.policy_lines <> "\n")

abbrev pub Tenants : Type 0
Tenants = Dict String String

-- `safe_table in tenant_columns`
unfoldable pub is_tenant : Tenants → String → Bool
is_tenant tenants table = Dict.has (◌==◌) table tenants

abbrev is_some_text : Option String → String → Bool
is_some_text none s = false
is_some_text (some t) s = t == s

-- `is_tenant and tenant_columns[safe_table] == col_name`
unfoldable pub is_tenant_key : Tenants → String → String → Bool
unfolding Dict.lookup
is_tenant_key tenants table column = is_some_text (Dict.lookup (◌==◌) table tenants) column

abbrev flag : Bool → String → List String
flag true name = name ∷ []
flag false name = []

-- `f" {' '.join(flags)}" if flags else ""`
abbrev flag_str : List String → String
flag_str [] = ""
flag_str (f ∷ fs) = " " <> join " " (f ∷ fs)

-- the lines of a column: `pk` and `not_null` say which flags it has
unfoldable pub column_lines : Tenants → String → String → String → Bool → Bool → Lines
unfolding is_tenant_key
column_lines tenants table column mapped pk not_null =
    let key = is_tenant_key tenants table column in
    record {
      schema_lines =
          ("column public "
            <> (table
                <> ("."
                    <> (column
                        <> (" "
                            <> (mapped
                                <> flag_str (
                                    flag pk "pk"
                                    ++ flag not_null "not_null"
                                    ++ flag key "tenant_key")))))))
          ∷ [];
      policy_lines =
          if key
          then ("tenant public " <> (table <> (" " <> (column <> (" " <> mapped))))) ∷ []
          else [];
    }

-- the lines of a table before its columns
unfoldable pub table_lines : Tenants → String → Lines
unfolding is_tenant
table_lines tenants table = record {
  schema_lines =
      ("table public " <> (table <> (if is_tenant tenants table then " tenant" else ""))) ∷ [];
  policy_lines = ("allow_table public " <> table) ∷ [];
}

-- `["nlschema 1"]`, `["nlpolicy 1"]` and the limit behind the tables
abbrev pub framed : Lines → Lines
framed l = record {
  schema_lines = "nlschema 1" ∷ l.schema_lines;
  policy_lines = "nlpolicy 1" ∷ (l.policy_lines ++ "limit 16 1000" ∷ []);
}

-- the lines of each element, one after the other; an exception ends the loop
unfoldable pub each {ℓ} : {A : Type ℓ} → (A → Outcome Lines) → List A → Outcome Lines
each f [] = value no_lines
each f (x ∷ xs) = do l ← f x; rest ← each f xs; value (l and_then rest)

-- A row of `information_schema.columns`
pub record InformationRow : Type 0 where
  pub column_name : String
  pub data_type : String
  pub is_nullable : String

pub record InformationSchema : Type 0 where
  pub tables : List String
  pub columns : String → List InformationRow

-- `col[2] or "TEXT"`
abbrev pub declared_type : String → String
declared_type d = if d == "" then "TEXT" else d

module _ (rt : Runtime) (tenants : Tenants) where
  unfoldable pub sqlite_column : String → ColumnRow → Outcome Lines
  unfolding ident sql_type column_lines
  sqlite_column table row = ident rt row.name >>= λ column. value (
      column_lines tenants table column (sql_type rt (declared_type row.declared)) row.pk
        row.notnull)

  unfoldable pub sqlite_foreign_key : String → ForeignKeyRow → Outcome Lines
  unfolding ident
  sqlite_foreign_key table fk = do
    target ← ident rt fk.parent
    from_col ← ident rt fk.from_col
    to_col ← ident rt fk.to_col
    value (record {
      schema_lines =
          ("fk public "
            <> (table <> ("." <> (from_col <> (" public " <> (target <> ("." <> to_col)))))))
          ∷ [];
      policy_lines = [];
    })

  unfoldable pub sqlite_table : Database → String → Outcome Lines
  unfolding ident table_lines each sqlite_column sqlite_foreign_key
  sqlite_table db name = do
    table ← ident rt name
    columns ← each (sqlite_column table) (db.columns table)
    fks ← each (sqlite_foreign_key table) (db.foreign_keys table)
    value (table_lines tenants table and_then (columns and_then fks))

  unfoldable pub introspect_sqlite : Database → Outcome (String × String)
  unfolding each sqlite_table
  introspect_sqlite db = each (sqlite_table db) db.tables >>= λ l. value (texts (framed l))

  unfoldable pub information_column : String → InformationRow → Outcome Lines
  unfolding ident sql_type column_lines
  information_column table row = ident rt row.column_name >>= λ column. value (
      column_lines tenants table column (sql_type rt row.data_type) false (row.is_nullable == "NO"))

  unfoldable pub information_table : InformationSchema → String → Outcome Lines
  unfolding ident table_lines each information_column
  information_table db name = do
    table ← ident rt name
    columns ← each (information_column table) (db.columns table)
    value (table_lines tenants table and_then columns)

  unfoldable pub introspect_information : InformationSchema → Outcome (String × String)
  unfolding each information_table
  introspect_information db =
      each (information_table db) db.tables >>= λ l. value (texts (framed l))

-- The answer of a database behind a driver: the driver's import fails, or the connection or a query, or
-- the queries are answered.
pub data Driver : Type 0 where
  missing : Driver
  failing : Exception → Driver
  answering : InformationSchema → Driver

-- what stands for the answer of a driver that is missing
abbrev pub template : String → String → String × String
template schema_title policy_title = (
  schema_title
      <> "\nnlschema 1\ntable public orders tenant\ncolumn public orders.id int64 pk\ncolumn public orders.tenant_id uuid tenant_key\n",
  policy_title
      <> "\nnlpolicy 1\nallow_table public orders\ntenant public orders tenant_id uuid\nlimit 16 1000\n",
)

abbrev pub duckdb_template : String × String
duckdb_template = template "# DuckDB Introspection (Driver optional)" "# DuckDB Policy"

abbrev pub postgres_template : String × String
postgres_template = template "# PostgreSQL Introspection" "# PostgreSQL Policy"

-- `except (ImportError, Exception): return …`
abbrev pub or_template : String × String → Outcome (String × String) → Outcome (String × String)
or_template t (value ts) = value ts
or_template t (raised e) = value t
or_template t (returned f m) = value t

module _ (rt : Runtime) (tenants : Tenants) where
  unfoldable pub introspect_duckdb : Driver → Outcome (String × String)
  unfolding introspect_information
  introspect_duckdb missing = value duckdb_template
  introspect_duckdb (failing e) = raised e
  introspect_duckdb (answering db) = introspect_information rt tenants db

  unfoldable pub introspect_postgres : Driver → Outcome (String × String)
  unfolding introspect_information
  introspect_postgres missing = value postgres_template
  introspect_postgres (failing e) = value postgres_template
  introspect_postgres (answering db) =
      or_template postgres_template (introspect_information rt tenants db)

-- `k, v = t.split("=", 1)` where there is a `=`
unfoldable pub split_once : String → Option (String × String)
split_once String.[] = none
split_once (String.◌∷◌ c s) =
    let rest = split_once s in
    if eqb (code c) b'='
    then some ("", s)
    else elim rest [ none ↦ none | some (k, v) ↦ some (String.◌∷◌ c k, v) ]

-- the loop over `args.tenant`
unfoldable pub tenant_map : List String → Tenants → Tenants
unfolding split_once strip Dict.insert
tenant_map [] tenants = tenants
tenant_map (t ∷ ts) tenants = elim (split_once t) [
  | none ↦ tenant_map ts tenants
  | some (k, v) ↦ tenant_map ts (Dict.insert (◌==◌) (strip k) (strip v) tenants)
]

-- `args.type`, with what is behind `args.source`
pub data Source : Type 0 where
  sqlite : Database → Source
  duckdb : Driver → Source
  postgres : Driver → Source
  -- `mysql` and `sqlserver`
  unsupported : String → Source

-- the texts that `main` writes
unfoldable pub generate : Runtime → List String → Source → Outcome (String × String)
unfolding introspect_sqlite introspect_duckdb introspect_postgres tenant_map
generate rt args (sqlite db) = introspect_sqlite rt (tenant_map args []) db
generate rt args (duckdb d) = introspect_duckdb rt (tenant_map args []) d
generate rt args (postgres d) = introspect_postgres rt (tenant_map args []) d
generate rt args (unsupported name) =
    value (template ("# Generated for " <> name) ("# Generated for " <> name))
