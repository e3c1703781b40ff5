-- ===== src/Agent.antt =====
-- examples/ai-agent-integration/agent_demo.py: the schema and the policy of the demonstration, and
-- `execute_agent_query` with the statement that it hands to the database. The database is an
-- argument: what a statement gives, or the exception that it raises.
pub mod Bound
use nlsqlc.Base.{ℕ, String, Option, none, some, List, [], ◌∷◌, map}
use nlsqlc.Base.Outcome.{Outcome, value, raised, returned, Status, ◌>>=◌}
use nlsqlc.Runtime.{Runtime}
use nlsqlc.Catalog.{
  sqlite, TableKey, Origin, from_user, from_policy, from_trusted, PySchema, PyPolicy,
}
use nlsqlc.Catalog.Build.{ColumnSpec, TableSpec, TenantSpec, build_schema, build_policy}
use nlsqlc.Action.{Param}
use nlsqlc.Engine.{PyCompileResult}
use nlsqlc.Json.{Json, object, array, entry, no_fields, item, no_items}
use nlsqlc.Api.{text, schema_object, policy_object, compile_ir}

abbrev pub orders : TableKey
orders = record { schema = "public"; table = "orders" }

abbrev pub customers : TableKey
customers = record { schema = "public"; table = "customers" }

abbrev column : String → ℕ → ℕ → ColumnSpec
column name type flags = record { name = name; type = type; flags = some flags }

abbrev pub orders_spec : TableSpec
orders_spec = record {
  key = orders;
  columns =
      column "id" 3 1
      ∷ column "tenant_id" 9 4
      ∷ column "customer_id" 3 0
      ∷ column "total" 5 0
      ∷ column "status" 7 0
      ∷ [];
}

abbrev pub customers_spec : TableSpec
customers_spec = record {
  key = customers;
  columns = column "id" 3 1 ∷ column "tenant_id" 9 4 ∷ column "name" 7 0 ∷ column "region" 7 0 ∷ [];
}

unfoldable pub demo_schema : PySchema
demo_schema = build_schema (orders_spec ∷ customers_spec ∷ []) [] (
    record {
      from = record { schema = "public"; table = "orders"; column = "customer_id" };
      to = record { schema = "public"; table = "customers"; column = "id" };
    }
    ∷ [])

abbrev tenant_on : TableKey → TenantSpec
tenant_on key = record { key = key; column = "tenant_id"; type = some 9 }

unfoldable pub demo_policy : PyPolicy
unfolding build_policy
demo_policy =
    build_policy (orders ∷ customers ∷ []) [] (tenant_on orders ∷ tenant_on customers ∷ []) none
      (some ("tenant_id", 9))

-- What `cursor.execute` is given
pub record Statement : Type 0 where
  pub sql : String
  pub args : List String

-- The compiler has rejected the query, with its text, or the database was asked, with its answer.
pub data Answer : Type 0 where
  rejected : String → Answer
  asked : Statement → Outcome (List String) → Answer

abbrev pub bound_arg : String → Origin → String
bound_arg tenant from_policy = tenant
bound_arg tenant from_user = "completed"
bound_arg tenant from_trusted = "completed"

-- `bound_args`
unfoldable pub bound_args : String → List Param → List String
bound_args tenant params = map (λ (p : Param). bound_arg tenant p.source) params

module _ (rt : Runtime) (database : Statement → Outcome (List String)) where
  unfoldable pub ask : String → PyCompileResult → Answer
  unfolding bound_args
  ask tenant r =
      let statement : Statement = record { sql = r.sql; args = bound_args tenant r.params } in
      asked statement (database statement)

  -- `if result.status != nlsql.NLSQL_OK`
  unfoldable pub answer : String → PyCompileResult → Status → Answer
  unfolding ask
  answer tenant r Status.ok = ask tenant r
  answer tenant r (Status.failed f) = rejected r.error

  -- `execute_agent_query`
  unfoldable pub execute_agent_query : PySchema → PyPolicy → String → String → Outcome Answer
  unfolding answer
  execute_agent_query schema policy ir tenant =
      compile_ir rt (text ir ∷ schema_object schema ∷ policy_object policy ∷ []) sqlite >>= λ r.
      value (answer tenant r r.status)

abbrev pub legit_ir : String
legit_ir =
    "(nlsql 2\n      (query\n        (from orders o)\n        (join inner customers c (eq (column o customer_id) (column c id)))\n        (select\n          (field (column o id) order_id)\n          (field (column c name) customer_name)\n          (field (column o total) total_amount))\n        (limit 10)))"

abbrev pub hacked_ir : String
hacked_ir =
    "(nlsql 2\n      (query\n        (from orders o)\n        (select (field (column o id) id))\n        (where (eq (column o tenant_id) (param fake_tenant text)))\n        (limit 10)))"

-- What `setup_sample_database` runs
abbrev pub setup_statements : List String
setup_statements =
    "ATTACH DATABASE ':memory:' AS public"
    ∷ "CREATE TABLE public.orders (id INTEGER PRIMARY KEY, tenant_id TEXT, customer_id INTEGER, total NUMERIC, status TEXT)"
    ∷ "CREATE TABLE public.customers (id INTEGER PRIMARY KEY, tenant_id TEXT, name TEXT, region TEXT)"
    ∷ "INSERT INTO public.customers VALUES (1, 'tenant-acme', 'Alice', 'US-West')"
    ∷ "INSERT INTO public.orders VALUES (101, 'tenant-acme', 1, 450.00, 'completed')"
    ∷ "INSERT INTO public.orders VALUES (102, 'tenant-acme', 1, 120.50, 'pending')"
    ∷ "INSERT INTO public.customers VALUES (2, 'tenant-evil', 'Bob', 'EU-Central')"
    ∷ "INSERT INTO public.orders VALUES (201, 'tenant-evil', 2, 99999.00, 'completed')" ∷ []

-- `get_llm_tool_definition`
abbrev pub tool_definition : Json
tool_definition =
    let ir_property = object (
      entry "type" (Json.text "string") (
        entry "description"
          (Json.text "Constrained S-expression Query IR v2 representing the analytical intent.")
          no_fields)) in
    object (
      entry "name" (Json.text "execute_database_query") (
        entry "description"
          (Json.text
            "Execute an analytical database query using safe S-expression Query IR format.")
          (entry "parameters"
            (object (
              entry "type" (Json.text "object") (
                entry "properties" (object (entry "ir" ir_property no_fields))
                  (entry "required" (array (item (Json.text "ir") no_items)) no_fields))))
            no_fields)))

-- `main`; `connect` is sqlite3 with a new database in memory, after the statements it is given.
unfoldable pub main :
    Runtime → (List String → Statement → Outcome (List String)) → Outcome (List Answer)
unfolding execute_agent_query
main rt connect =
    let database = connect setup_statements in
    execute_agent_query rt database demo_schema demo_policy legit_ir "tenant-acme" >>= λ a.
    execute_agent_query rt database demo_schema demo_policy hacked_ir "tenant-acme" >>= λ b.
    value (a ∷ b ∷ [])
