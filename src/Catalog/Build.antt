-- ===== src/Catalog/Build.antt =====
-- What `Schema.__init__` and `Policy.__init__` put into the Python tables.
pub mod Tables
use nlsqlc.Base.{ℕ, String, Bool, Option, none, some, List, [], ◌∷◌, ◌++◌, if◌then◌else◌}
use nlsqlc.Base.Dict
use nlsqlc.Base.Dict.{Dict}
use nlsqlc.Catalog.{
  TableKey, ColumnKey, ColumnDef, FkDef, PySchema, PyPolicy, table_eq, column_eq, empty_schema,
  default_policy, type_unknown,
}

-- `(name, type)` or `(name, type, flags)`
pub record ColumnSpec : Type 0 where
  pub name : String
  pub type : ℕ
  pub flags : Option ℕ

pub record TableSpec : Type 0 where
  pub key : TableKey
  pub columns : List ColumnSpec

-- `rest[0] if rest else default`, and `d.get(key, default)`
abbrev pub or_default : Option ℕ → ℕ → ℕ
or_default none d = d
or_default (some n) d = n

abbrev pub column_key : TableKey → String → ColumnKey
column_key k name = record { schema = k.schema; table = k.table; column = name }

unfoldable pub add_columns :
    TableKey → List ColumnSpec → Dict ColumnKey ColumnDef → Dict ColumnKey ColumnDef
add_columns k [] columns = columns
add_columns k (c ∷ cs) columns = add_columns k cs (
    Dict.insert column_eq (column_key k c.name)
      (record { type = c.type; flags = or_default c.flags 0 }) columns)

unfoldable pub add_table : Dict TableKey ℕ → TableSpec → PySchema → PySchema
unfolding add_columns
add_table table_flags t s = record s {
  tables =
      Dict.insert table_eq t.key
        (record { flags = or_default (Dict.lookup table_eq t.key table_flags) 0 }) s.tables;
  columns = add_columns t.key t.columns s.columns;
}

unfoldable pub add_tables : Dict TableKey ℕ → List TableSpec → PySchema → PySchema
unfolding add_table
add_tables table_flags [] s = s
add_tables table_flags (t ∷ ts) s = add_tables table_flags ts (add_table table_flags t s)

-- the part of `Schema.__init__` that fills `py_schema`
unfoldable pub build_schema : List TableSpec → Dict TableKey ℕ → List FkDef → PySchema
unfolding add_tables
build_schema tables table_flags foreign_keys =
    let s = add_tables table_flags tables empty_schema in
    record s { foreign_keys = s.foreign_keys ++ foreign_keys }

-- `(schema, table, column)` or `(schema, table, column, type)`
pub record TenantSpec : Type 0 where
  pub key : TableKey
  pub column : String
  pub type : Option ℕ

unfoldable pub add_all {ℓ} : {K : Type ℓ} → (K → K → Bool) → List K → List K → List K
add_all eq [] s = s
add_all eq (k ∷ ks) s = add_all eq ks (if Dict.member eq k s then s else s ++ k ∷ [])

unfoldable pub add_rules : List TenantSpec → Dict TableKey (String × ℕ) → Dict TableKey (String × ℕ)
add_rules [] rules = rules
add_rules (t ∷ ts) rules =
    add_rules ts (Dict.insert table_eq t.key (t.column, or_default t.type type_unknown) rules)

-- `max_joins, max_limit = limits`
unfoldable pub set_limits : Option (ℕ × ℕ) → PyPolicy → PyPolicy
set_limits none p = p
set_limits (some (joins, limit)) p = record p { max_limit = limit; max_joins = joins }

unfoldable pub set_runtime_tenant : Option (String × ℕ) → PyPolicy → PyPolicy
set_runtime_tenant none p = p
set_runtime_tenant (some (name, type)) p = record p {
  runtime_tenant_name = name;
  runtime_tenant_type = type;
}

-- the part of `Policy.__init__` that fills `py_policy`
unfoldable pub build_policy :
    List TableKey
    → List ColumnKey
    → List TenantSpec
    → Option (ℕ × ℕ)
    → Option (String × ℕ)
    → PyPolicy
unfolding add_all add_rules set_limits set_runtime_tenant
build_policy allow deny tenant limits runtime_tenant = set_runtime_tenant runtime_tenant (
    set_limits limits (record default_policy {
      allowed_tables = add_all table_eq allow [];
      denied_columns = add_all column_eq deny [];
      tenant_rules = add_rules tenant [];
    }))
