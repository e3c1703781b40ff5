-- ===== src/Catalog.antt =====
-- bindings/python/nlsql.py: the schema and policy tables (`_TableDef` to `_PyPolicy`), what
-- `Schema` and `Policy` put into them, and the constants of types, dialects and parameters. The
-- C library's handles, which `Schema` and `Policy` fill beside, are not modelled.
pub mod Build
use nlsqlc.Base.{ℕ, String, Bool, ◌&&◌, Option, List, [], ◌∷◌, if◌then◌else◌, ◌==◌}
use nlsqlc.Base.Dict
use nlsqlc.Base.Dict.{Dict}

pub data Dialect : Type 0 where
  postgres sqlite duckdb mysql sqlserver : Dialect
  -- a code outside the five
  other : ℕ → Dialect

-- `NLSQL_DIALECT_NAMES.get(dialect, 'postgres')`
abbrev pub dialect_name : Dialect → String
dialect_name sqlite = "sqlite"
dialect_name duckdb = "duckdb"
dialect_name mysql = "mysql"
dialect_name sqlserver = "sqlserver"
dialect_name _ = "postgres"

-- `NLSQL_TYPE_NAMES.get(name, NLSQL_TYPE_UNKNOWN)`, with the `NLSQL_TYPE_...` codes
unfoldable pub type_code : String → ℕ
type_code name =
    if name == "boolean"
    then 2
    else if name == "int64"
    then 3
    else if name == "uint64"
    then 4
    else if name == "decimal"
    then 5
    else if name == "float64"
    then 6
    else if name == "text"
    then 7
    else if name == "binary"
    then 8
    else if name == "uuid"
    then 9
    else if name == "date"
    then 10
    else if name == "timestamp"
    then 11
    else if name == "timestamptz"
    then 12
    else 0

-- `NLSQL_TYPE_UNKNOWN` and `NLSQL_TYPE_UUID`
abbrev pub type_unknown : ℕ
type_unknown = 0

abbrev pub type_uuid : ℕ
type_uuid = 9

-- `NLSQL_COLUMN_TENANT_KEY`
abbrev pub column_tenant_key : ℕ
column_tenant_key = 4

-- `NLSQL_PARAM_...` and `NLSQL_RISK_...`
pub data Origin : Type 0 where
  from_user from_policy from_trusted : Origin

pub data Risk : Type 0 where
  low moderate high denied : Risk

-- The keys of the dictionaries: `(schema, table)` and `(schema, table, column)`.
pub record TableKey : Type 0 where
  pub schema : String
  pub table : String

pub record ColumnKey : Type 0 where
  pub schema : String
  pub table : String
  pub column : String

unfoldable pub table_eq : TableKey → TableKey → Bool
table_eq a b = a.schema == b.schema && a.table == b.table

unfoldable pub column_eq : ColumnKey → ColumnKey → Bool
column_eq a b = a.schema == b.schema && (a.table == b.table && a.column == b.column)

-- `_TableDef`, `_ColumnDef` and `_FKDef`; what the first two repeat of their key is left out.
pub record TableDef : Type 0 where
  pub flags : ℕ

pub record ColumnDef : Type 0 where
  pub type : ℕ
  pub flags : ℕ

pub record FkDef : Type 0 where
  pub from : ColumnKey
  pub to : ColumnKey

-- `_PySchema`
pub record PySchema : Type 0 where
  pub tables : Dict TableKey TableDef
  pub columns : Dict ColumnKey ColumnDef
  pub foreign_keys : List FkDef

-- `_PyPolicy`
pub record PyPolicy : Type 0 where
  pub allowed_tables : List TableKey
  pub denied_columns : List ColumnKey
  pub tenant_rules : Dict TableKey (String × ℕ)
  pub runtime_tenant_name : String
  pub runtime_tenant_type : ℕ
  pub max_limit : ℕ
  pub max_joins : ℕ

abbrev pub empty_schema : PySchema
empty_schema = record { tables = []; columns = []; foreign_keys = [] }

abbrev pub default_policy : PyPolicy
default_policy = record {
  allowed_tables = [];
  denied_columns = [];
  tenant_rules = [];
  runtime_tenant_name = "tenant_id";
  runtime_tenant_type = type_uuid;
  max_limit = 1000;
  max_joins = 16;
}

-- `key in schema.tables` and `key in policy.allowed_tables`
unfoldable pub has_table : PySchema → TableKey → Bool
has_table schema k = Dict.has table_eq k schema.tables

unfoldable pub is_allowed : PyPolicy → TableKey → Bool
is_allowed policy k = Dict.member table_eq k policy.allowed_tables

-- `schema.columns.get(key)`, and `policy.tenant_rules[key]` behind its test
unfoldable pub find_column : PySchema → ColumnKey → Option ColumnDef
find_column schema k = Dict.lookup column_eq k schema.columns

unfoldable pub tenant_rule : PyPolicy → TableKey → Option (String × ℕ)
tenant_rule policy k = Dict.lookup table_eq k policy.tenant_rules

unfoldable pub is_denied : PyPolicy → ColumnKey → Bool
is_denied policy k = Dict.member column_eq k policy.denied_columns
