-- ===== src/Importer.antt =====
-- tools/sqlite_schema_import.py: `sql_type`, `ident` and `import_schema`. What the database answers
-- to the queries is an argument.
pub mod Types
pub mod Write
pub mod Posts
pub mod Files
pub mod Main
pub mod Commands
pub mod Identifiers
use Prim.Native.Char.{Char, code}
use nlsqlc.Base.{
  ℕ, String, ◌<>◌, Bool, true, false, not, ◌&&◌, ◌||◌, Option, none, some, List, [], ◌∷◌, ◌++◌, map,
  if◌then◌else◌, ◌==◌, eqb,
}
use nlsqlc.Base.Dict
use nlsqlc.Base.Dict.{Dict}
use nlsqlc.Base.Sort.{text_le, sorted, in_set, set_of}
use nlsqlc.Base.Text.{contains, join}
use nlsqlc.Base.Outcome.{Outcome, value, raised, value_error, ◌>>=◌}
use nlsqlc.Runtime.{Runtime}

-- the tests on `declared.upper()`
unfoldable pub type_of_upper : String → String
type_of_upper t =
    if contains "INT" t
    then "int64"
    else if contains "REAL" t || (contains "FLOA" t || contains "DOUB" t)
    then "float64"
    else if contains "DEC" t || contains "NUM" t
    then "decimal"
    else if contains "BOOL" t
    then "boolean"
    else if contains "BLOB" t || contains "BINARY" t
    then "binary"
    else if contains "UUID" t
    then "uuid"
    else if contains "DATE" t && not (contains "TIME" t)
    then "date"
    else if contains "TIME" t
    then "timestamp"
    else "text"

-- A row of `PRAGMA table_info`, with `notnull` and `pk` as the code tests them
pub record ColumnRow : Type 0 where
  pub name : String
  pub declared : String
  pub notnull : Bool
  pub pk : Bool

-- A row of `PRAGMA foreign_key_list`, its values as texts
pub record ForeignKeyRow : Type 0 where
  pub parent : String
  pub from_col : String
  pub to_col : String

-- The answers of the database: its tables, and the columns and foreign keys of each
pub record Database : Type 0 where
  pub tables : List String
  pub columns : String → List ColumnRow
  pub foreign_keys : String → List ForeignKeyRow

-- the order of the key `(from_col, parent, to_col)`
abbrev row_le : ForeignKeyRow → ForeignKeyRow → Bool
row_le a b =
    if a.from_col == b.from_col
    then (if a.parent == b.parent then text_le a.to_col b.to_col else text_le a.parent b.parent)
    else text_le a.from_col b.from_col

module _ (rt : Runtime) where
  unfoldable pub sql_type : String → String
  unfolding type_of_upper
  sql_type declared = type_of_upper (rt.upper declared)

  abbrev is_word_char : ℕ → Bool
  is_word_char c = rt.is_alnum c || eqb c b'_'

  unfoldable pub all_word_chars : String → Bool
  all_word_chars String.[] = true
  all_word_chars (String.◌∷◌ c s) = is_word_char (code c) && all_word_chars s

  -- the condition under which `ident` does not raise
  unfoldable pub is_safe : String → Bool
  unfolding all_word_chars
  is_safe String.[] = false
  is_safe (String.◌∷◌ c s) =
      (rt.is_alpha (code c) || eqb (code c) b'_') && all_word_chars (String.◌∷◌ c s)

  unfoldable pub ident : String → Outcome String
  ident s =
      if is_safe s
      then value s
      else raised (value_error ("unsafe SQLite identifier: " <> rt.repr_text s))

  -- `[ident(x) for x in xs]`
  unfoldable pub idents : List String → Outcome (List String)
  idents [] = value []
  idents (x ∷ xs) = ident x >>= λ y. idents xs >>= λ ys. value (y ∷ ys)

  -- `if tenant_column is not None and tenant_column not in names`
  unfoldable pub check_tenant : String → Option String → List String → Outcome (Option String)
  check_tenant table none names = value none
  check_tenant table (some c) names =
      if in_set (◌==◌) c names
      then value (some c)
      else raised (
          value_error ("configured tenant column is missing from table " <> (table <> (": " <> c))))

  abbrev is_tenant : Option String → String → Bool
  is_tenant none name = false
  is_tenant (some c) name = name == c

  -- `" tenant" if tenant_column else ""`
  abbrev tenant_marker : Option String → String
  tenant_marker none = ""
  tenant_marker (some c) = if c == "" then "" else " tenant"

  abbrev flag : Bool → String → List String
  flag true name = name ∷ []
  flag false name = []

  abbrev suffix_of : List String → String
  suffix_of [] = ""
  suffix_of (f ∷ fs) = " " <> join "," (f ∷ fs)

  unfoldable pub column_line : String → Option String → ColumnRow → Outcome String
  column_line table tenant row = ident row.name >>= λ name. value (
      "column public "
      <> (table
          <> ("."
              <> (name
                  <> (" "
                      <> (sql_type row.declared
                          <> suffix_of (
                              flag row.pk "pk"
                              ++ flag row.notnull "not_null"
                              ++ flag (is_tenant tenant name) "tenant_key")))))))

  unfoldable pub column_lines : String → Option String → List ColumnRow → Outcome (List String)
  column_lines table tenant [] = value []
  column_lines table tenant (r ∷ rs) =
      column_line table tenant r >>= λ l. column_lines table tenant rs >>= λ ls. value (l ∷ ls)

  unfoldable pub key_line : List String → String → ForeignKeyRow → Outcome String
  key_line tables table row = ident row.parent >>= λ parent. ident row.from_col >>= λ from_col.
      ident row.to_col >>= λ to_col.
      if in_set (◌==◌) parent tables
      then value (
          "fk public "
          <> (table <> ("." <> (from_col <> (" public " <> (parent <> ("." <> to_col)))))))
      else raised (value_error ("foreign key references unknown table: " <> parent))

  unfoldable pub key_lines : List String → String → List ForeignKeyRow → Outcome (List String)
  key_lines tables table [] = value []
  key_lines tables table (r ∷ rs) =
      key_line tables table r >>= λ l. key_lines tables table rs >>= λ ls. value (l ∷ ls)

  module _ (db : Database) (tenant_columns : Dict String String) where
    -- the body of the loop over `sorted(tables)`
    unfoldable pub table_lines : List String → String → Outcome (List String)
    table_lines tables table = do
      names ← idents (map (λ (r : ColumnRow). r.name) (db.columns table))
      tenant ← check_tenant table (Dict.lookup (◌==◌) table tenant_columns) names
      columns ← column_lines table tenant (db.columns table)
      keys ← key_lines tables table (sorted row_le (db.foreign_keys table))
      value (("table public " <> (table <> tenant_marker tenant)) ∷ columns ++ keys)

    unfoldable pub all_lines : List String → List String → Outcome (List String)
    all_lines tables [] = value []
    all_lines tables (t ∷ ts) =
        table_lines tables t >>= λ ls. all_lines tables ts >>= λ rest. value (ls ++ rest)

    unfoldable pub import_schema : Outcome String
    unfolding sorted set_of in_set idents ident check_tenant column_line column_lines key_line
        key_lines table_lines all_lines
    import_schema = do
      names ← idents db.tables
      lines ← all_lines (set_of (◌==◌) names) (sorted text_le (set_of (◌==◌) names))
      value (join "\n" ("nlschema 1" ∷ lines) <> "\n")
