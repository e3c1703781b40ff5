-- ===== src/ConsoleTests.antt =====
-- Runs of the models of tools/db_introspect.py, tools/repl.py and the client classes of
-- bindings/python/nlsql.py, and the theorems at concrete inputs.
use nlsqlc.Base.{
  ℕ, ◌<◌, ◌<>◌, String, Bool, true, false, ◌≡◌, refl, ◌⊎◌, inl, inr, Option, none, some, List, [],
  ◌∷◌, ◌++◌, map, All, if◌then◌else◌, ◌==◌,
}
use nlsqlc.Base.Dict
use nlsqlc.Base.Int.{pos}
use nlsqlc.Base.Text.{join}
use nlsqlc.Base.Outcome.{value, raised, zero_division_error}
use nlsqlc.Samples.{plain, sample_schema, sample_policy}
use nlsqlc.Catalog.{postgres, sqlserver}
use nlsqlc.Engine.{compile_ir_engine}
use nlsqlc.Importer.{ColumnRow, Database, sql_type}
use nlsqlc.Gateway.{strip}
use nlsqlc.Introspect.{Tenants, introspect_sqlite}
use nlsqlc.Introspect.Tenancy.{table_policies, introspect_sqlite-policy}
use nlsqlc.Repl.{State, start, line, Report, continue, stop, waiting, combined, step, run}
use nlsqlc.Repl.Balance.{IsOpen, run-IsOpen}
use nlsqlc.Repl.Exit.{run-stops}
use nlsqlc.Client
use nlsqlc.Client.{
  Native, CompileResult, AsyncNlsqlClient, compile_batch, Scope, with_tenant, new_client, is_header,
  state_or_new,
}
use nlsqlc.Client.Batches.{compile_batch-postgres}

abbrev row : String → ColumnRow
row name = record { name = name; declared = ""; notnull = false; pk = false }

abbrev shop : Database
shop = record {
  tables = "orders" ∷ [];
  columns = λ t. row "id" ∷ row "tenant_id" ∷ [];
  foreign_keys = λ t. [];
}

abbrev by_tenant_id : Tenants
by_tenant_id = ("orders", "tenant_id") ∷ []

abbrev shop_texts : String × String
shop_texts = (
  "nlschema 1\ntable public orders tenant\ncolumn public orders.id text\ncolumn public orders.tenant_id text tenant_key\n",
  "nlpolicy 1\nallow_table public orders\ntenant public orders tenant_id text\nlimit 16 1000\n",
)

shop_introspected : introspect_sqlite plain by_tenant_id shop ≡ value shop_texts
unfolding introspect_sqlite sql_type join nlsqlc.Importer.is_safe Dict.has nlsqlc.Base.Text.contains
shop_introspected = refl

introspect_sqlite-policy_example :
    shop_texts.1
    ≡ join "\n" (
        "nlpolicy 1" ∷ (table_policies plain by_tenant_id shop shop.tables ++ "limit 16 1000" ∷ []))
      <> "\n"
introspect_sqlite-policy_example =
    introspect_sqlite-policy plain by_tenant_id shop shop_texts shop_introspected

-- The table is marked as a tenant's, and no rule guards it.
misspelt_column :
    introspect_sqlite plain (("orders", "tenant") ∷ []) shop
    ≡ value (
      "nlschema 1\ntable public orders tenant\ncolumn public orders.id text\ncolumn public orders.tenant_id text\n",
      "nlpolicy 1\nallow_table public orders\nlimit 16 1000\n",
    )
unfolding introspect_sqlite sql_type join nlsqlc.Importer.is_safe Dict.has nlsqlc.Base.Text.contains
misspelt_column = refl

abbrev same_case : String → String
same_case s = s

abbrev half_typed : State
half_typed = record { dialect = postgres; buffer = "(nlsql 1" ∷ "\\q" ∷ [] }

-- Inside an open text `\q` is no command.
quit_inside :
    run plain same_case sample_schema sample_policy (line "(nlsql 1" ∷ line "\\q" ∷ []) start
    ≡ value (waiting ∷ waiting ∷ [], continue half_typed)
unfolding run strip join
quit_inside = refl

start_combined : combined [] ≡ ""
unfolding combined strip join
start_combined = refl

run-IsOpen_example : IsOpen (combined half_typed.buffer)
run-IsOpen_example =
    run-IsOpen plain same_case sample_schema sample_policy (line "(nlsql 1" ∷ line "\\q" ∷ []) start
      half_typed (waiting ∷ waiting ∷ []) (inl start_combined) quit_inside

run-stops_example :
    (ls : List String) × (out : List Report) × (run plain same_case sample_schema sample_policy
        (map line ls)
        half_typed
      ≡ value (out, stop))
run-stops_example = run-stops plain same_case sample_schema sample_policy half_typed

sample_line : strip " \\e " ≡ "\\e"
unfolding strip
sample_line = refl

no_iterations :
    step plain same_case sample_schema sample_policy (line "\\b 0") start
    ≡ raised (zero_division_error "float division by zero")
unfolding step strip nlsqlc.Base.Int.int_of_text
no_iterations = refl

-- a C library whose results are all OK
abbrev native : Native
native = record {
  Pointer = ℕ;
  Params = List ℕ;
  result_status = λ q. 0;
  result_sql = λ q. some "SELECT 1";
  result_canonical_ir = λ q. none;
  result_manifest = λ q. none;
  result_error = λ q. none;
  result_risk = λ q. 0;
  result_complexity = λ q. 1;
  result_fingerprint = λ q. 1;
  result_params = λ q. [];
  no_params = [];
  python_params = λ ps. [];
}

abbrev native_result : CompileResult native
native_result = record { ptr = some 1; py = none }

native_ok : Client.status native native_result ≡ 0
unfolding Client.status
native_ok = refl

abbrev client : AsyncNlsqlClient
client = record { schema = sample_schema; policy = sample_policy }

abbrev two_texts : List String
two_texts =
    "(" ∷ "(nlsql 1 (query (from orders o) (select (field (column o id) id)) (limit 10)))" ∷ []

compile_batch-postgres_example :
    compile_batch plain client two_texts sqlserver
    ≡ value (map (compile_ir_engine plain sample_schema sample_policy postgres) two_texts)
compile_batch-postgres_example = compile_batch-postgres plain client two_texts sqlserver

abbrev scope : Scope
scope = record {
  type = "http";
  headers = ("Host", "example.org") ∷ ("X-Tenant-ID", "first") ∷ ("x-tenant-id", "second") ∷ [];
  state = none;
}

host_header : is_header "x-tenant-id" "Host" ≡ false
unfolding is_header
host_header = refl

tenant_header : is_header "x-tenant-id" "X-Tenant-ID" ≡ true
unfolding is_header
tenant_header = refl
