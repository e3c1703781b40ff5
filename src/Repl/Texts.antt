-- ===== src/Repl/Texts.antt =====
-- tools/repl.py: what is printed: the prompt, the menus and the text of each `Report`. The times are
-- arguments, and so is the order in which a set of tables is listed.
use nlsqlc.Base.{
  ℕ, String, ◌<>◌, ◌&&◌, none, some, List, [], ◌∷◌, ◌++◌, map, if◌then◌else◌, ◌==◌, eqb,
}
use Prim.Native.Nat.{bit_and}
use nlsqlc.Base.Text.{join, decimal}
use nlsqlc.Base.Int.{show_ℤ}
use nlsqlc.Base.Outcome.{Outcome, value, raised, key_error, Status, ok, failed, ◌>>=◌}
use nlsqlc.Runtime.{Runtime}
use nlsqlc.Sexpr.{node_text}
use nlsqlc.Catalog.{
  Dialect, postgres, sqlite, duckdb, mysql, sqlserver, other, Origin, from_policy, from_user,
  from_trusted, Risk, low, moderate, high, denied, TableKey, TableDef, ColumnKey, ColumnDef,
  PySchema, PyPolicy,
}
use nlsqlc.Catalog.Build.{ColumnSpec, TenantSpec, build_schema, build_policy}
use nlsqlc.Action.{Param}
use nlsqlc.Engine.{PyCompileResult}
use nlsqlc.Repl.{
  State, Report, goodbye, exiting, help, schema_listing, policy_listing, invalid_input, waiting,
  dialect_switched, current_dialect, unknown_dialect, benchmarked, compiled,
}

abbrev cyan : String
cyan = "\u{1b}[96m"

abbrev green : String
green = "\u{1b}[92m"

abbrev yellow : String
yellow = "\u{1b}[93m"

abbrev red : String
red = "\u{1b}[91m"

abbrev bold : String
bold = "\u{1b}[1m"

abbrev dim : String
dim = "\u{1b}[2m"

abbrev reset : String
reset = "\u{1b}[0m"

abbrev pub banner : String
banner =
    "\u{1b}[96m\u{1b}[1m\n   ____  __          __         \n  / __ \\/ /_____ ___/ /______   \n / / / / // (_-</ _  / __/ -_)  \u{1b}[95mv0.1.2 Enterprise Interactive REPL\u{1b}[96m\n/_/ /_/_/___/___/\\_,_/\\__/\\__/   \u{1b}[2mSub-microsecond Multi-Tenant SQL Compiler\u{1b}[0m\n"

abbrev pub help_text : String
help_text =
    "\n\u{1b}[1mCommands:\u{1b}[0m\n  \u{1b}[96m\\d [postgres|sqlite|duckdb|mysql|sqlserver]\u{1b}[0m : Switch target SQL dialect\n  \u{1b}[96m\\s\u{1b}[0m                                      : Show loaded schema tables & columns\n  \u{1b}[96m\\p\u{1b}[0m                                      : Show active tenant isolation policy\n  \u{1b}[96m\\b [N]\u{1b}[0m                                   : Run compile benchmark (default: 5000 iter)\n  \u{1b}[96m\\e\u{1b}[0m                                      : Load and compile a sample multi-join query\n  \u{1b}[96m\\q\u{1b}[0m, \u{1b}[96mexit\u{1b}[0m, \u{1b}[96mquit\u{1b}[0m                       : Exit the REPL\n  \u{1b}[96m\\h\u{1b}[0m, \u{1b}[96mhelp\u{1b}[0m                             : Show this help menu\n"

abbrev pub sample_query : String
sample_query =
    "(nlsql 2\n  (query\n    (from orders o)\n    (join inner customers c (eq (column o customer_id) (column c id)))\n    (select\n      (field (column o id) order_id)\n      (field (column c region) region)\n      (field (sum (column o total_amount)) total_revenue))\n    (where (gt (column o total_amount) (param min_val decimal)))\n    (group-by (column c region))\n    (order-by (ref total_revenue) desc)\n    (limit 10)))"

-- `dialect_names[current_dialect]`
unfoldable pub dialect_label : Dialect → Outcome String
dialect_label postgres = value "PostgreSQL"
dialect_label sqlite = value "SQLite"
dialect_label duckdb = value "DuckDB"
dialect_label mysql = value "MySQL"
dialect_label sqlserver = value "SQL Server"
dialect_label (other n) = raised (key_error (decimal n))

abbrev coloured : String → String → String
coloured colour s = colour <> (s <> reset)

abbrev prompt_of : List String → String → String
prompt_of [] label = coloured cyan "nlsqlc" <> ("[" <> (coloured green label <> "]> "))
prompt_of (l ∷ ls) label = dim <> ("... " <> reset)

-- the argument of `input`; the name is looked up whether it is shown or not
unfoldable pub prompt : State → Outcome String
unfolding dialect_label
prompt s = dialect_label s.dialect >>= λ label. value (prompt_of s.buffer label)

-- The schema of the REPL
abbrev column : String → ℕ → ℕ → ColumnSpec
column name type flags = record { name = name; type = type; flags = some flags }

abbrev orders : TableKey
orders = record { schema = "public"; table = "orders" }

abbrev customers : TableKey
customers = record { schema = "public"; table = "customers" }

unfoldable pub repl_schema : PySchema
unfolding build_schema
repl_schema =
    build_schema
      (record {
        key = orders;
        columns =
            column "id" 3 1
            ∷ column "tenant_id" 9 4
            ∷ column "customer_id" 3 0
            ∷ column "total_amount" 5 0
            ∷ column "status" 7 0
            ∷ [];
      }
        ∷ record {
          key = customers;
          columns =
              column "id" 3 1
              ∷ column "tenant_id" 9 4
              ∷ column "region" 7 0
              ∷ column "tier" 7 0
              ∷ [];
        }
        ∷ [])
      []
      (record {
        from = record { schema = "public"; table = "orders"; column = "customer_id" };
        to = record { schema = "public"; table = "customers"; column = "id" };
      }
        ∷ [])

abbrev tenant_on : TableKey → TenantSpec
tenant_on key = record { key = key; column = "tenant_id"; type = some 9 }

unfoldable pub repl_policy : PyPolicy
unfolding build_policy
repl_policy =
    build_policy (orders ∷ customers ∷ []) [] (tenant_on orders ∷ tenant_on customers ∷ []) none
      (some ("tenant_id", 9))

abbrev table_name : TableKey → String
table_name k = k.schema <> ("." <> k.table)

abbrev flag_names : ℕ → List String
flag_names flags =
    (if eqb (bit_and flags 1) 0 then [] else "PK" ∷ [])
    ++ (if eqb (bit_and flags 4) 0 then [] else "TENANT_KEY" ∷ [])

abbrev flag_text : List String → String
flag_text [] = ""
flag_text (f ∷ fs) = " " <> coloured yellow ("[" <> (join ", " (f ∷ fs) <> "]"))

-- A line of the listing. The type is looked up by its number in a dictionary whose keys are names.
unfoldable pub column_text : ColumnKey → ColumnDef → String
column_text k d = "    • " <> (k.column <> (": " <> ("unknown" <> flag_text (flag_names d.flags))))

-- the inner loop: the columns of a table
unfoldable pub column_texts : TableKey → List (ColumnKey × ColumnDef) → List String
unfolding column_text
column_texts t [] = []
column_texts t ((k, d) ∷ columns) =
    let rest = column_texts t columns in
    if k.schema == t.schema && k.table == t.table then column_text k d ∷ rest else rest

unfoldable pub table_texts : List (TableKey × TableDef) → List (ColumnKey × ColumnDef) → List String
unfolding column_texts
table_texts [] columns = []
table_texts ((t, d) ∷ tables) columns =
    ("  " <> coloured cyan (table_name t)) ∷ (column_texts t columns ++ table_texts tables columns)

-- `\\s`
unfoldable pub schema_text : PySchema → List String
unfolding table_texts
schema_text s =
    ("\n" <> coloured bold "Loaded Schema:") ∷ (table_texts s.tables s.columns ++ ("" ∷ []))

-- `\\p`
unfoldable pub policy_text : (List TableKey → List TableKey) → PyPolicy → List String
policy_text arrange p =
    ("\n" <> coloured bold "Tenant Isolation Policy:")
    ∷ ("  Runtime Tenant Parameter: " <> coloured green ("$" <> p.runtime_tenant_name))
    ∷ ("  Allowed Tables: " <> join ", " (map table_name (arrange p.allowed_tables)))
    ∷ ("  Tenant Rules: "
        <> (join ", " (
              map (λ (r : TableKey × (String × ℕ)). table_name r.0 <> ("." <> r.1.0))
                p.tenant_rules)
            <> "\n"))
    ∷ []

abbrev source_label : Origin → String
source_label from_policy = coloured yellow "TENANT_ISOLATION_ENFORCED"
source_label from_user = coloured cyan "USER_INPUT"
source_label from_trusted = coloured cyan "USER_INPUT"

abbrev risk_label : Risk → String
risk_label low = coloured green "LOW (Isolated)"
risk_label moderate = coloured yellow "MODERATE"
risk_label high = coloured yellow "MODERATE"
risk_label denied = coloured yellow "MODERATE"

module _ (rt : Runtime) (latency : String) where
  unfoldable pub param_text : Param → String
  param_text p =
      "  $"
      <> (decimal p.position
          <> (": "
              <> (coloured bold (node_text rt p.name)
                  <> (" (unknown) [" <> (source_label p.source <> "]")))))

  abbrev param_texts : List Param → List String
  param_texts [] = []
  param_texts (p ∷ ps) = coloured bold "Bound Parameters:" ∷ map param_text (p ∷ ps)

  -- what is printed for a result
  abbrev result_texts : Status → PyCompileResult → List String
  result_texts ok r =
      ("\n" <> coloured (green <> bold) "✓ Compiled SQL:")
      ∷ (r.sql <> "\n")
      ∷ (param_texts r.params
          ++ ((dim
                <> ("Metrics: complexity="
                    <> (decimal r.complexity
                        <> (" | risk="
                            <> (risk_label r.risk
                                <> (" | latency=" <> (latency <> ("µs" <> (reset <> "\n")))))))))
              ∷ []))
  result_texts (failed f) r =
      ("\n" <> (coloured (red <> bold) "✗ Compilation Error:" <> (" " <> r.error)))
      ∷ (coloured dim "Security Guarantee: Failed closed at compiler boundary." <> "\n")
      ∷ []

  unfoldable pub compiled_text : PyCompileResult → List String
  unfolding param_text
  compiled_text r = result_texts r.status r

  -- The text of a report; the figures of a benchmark are an argument, one text for each line.
  unfoldable pub report_text :
      (List TableKey → List TableKey)
      → List String
      → PySchema
      → PyPolicy
      → Report
      → Outcome (List String)
  unfolding dialect_label schema_text policy_text compiled_text
  report_text arrange figures s p goodbye = value (coloured dim "Goodbye!" ∷ [])
  report_text arrange figures s p exiting =
      value (("\n" <> coloured dim "Exiting nlsqlc REPL...") ∷ [])
  report_text arrange figures s p help = value (help_text ∷ [])
  report_text arrange figures s p schema_listing = value (schema_text s)
  report_text arrange figures s p policy_listing = value (policy_text arrange p)
  report_text arrange figures s p invalid_input =
      value
        (coloured red "Invalid input: S-expression must start with '(' (type \\h for help)" ∷ [])
  report_text arrange figures s p waiting = value []
  report_text arrange figures s p (dialect_switched d) =
      dialect_label d >>= λ label. value (("Dialect switched to " <> coloured green label) ∷ [])
  report_text arrange figures s p (current_dialect d) =
      dialect_label d >>= λ label. value (("Current dialect: " <> coloured green label) ∷ [])
  report_text arrange figures s p (unknown_dialect name) =
      value (coloured red ("Unknown dialect: " <> name) ∷ [])
  report_text arrange figures s p (benchmarked n) =
      value (coloured dim ("Running benchmark with " <> (show_ℤ n <> " iterations...")) ∷ figures)
  report_text arrange figures s p (compiled r) = value (compiled_text r)
