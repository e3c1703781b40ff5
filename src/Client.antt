-- ===== src/Client.antt =====
-- bindings/python/nlsql.py: `CompileResult`, `AsyncNLSQLClient` and `TenantContextMiddleware`.
pub mod Closing
pub mod Headers
pub mod Batches
use nlsqlc.Base.{
  ℕ, String, Bool, true, false, Option, none, some, List, [], ◌∷◌, map, if◌then◌else◌, ◌==◌,
}
use nlsqlc.Base.Dict
use nlsqlc.Base.Dict.{Dict}
use nlsqlc.Base.Text.{codes, lower_code, same_codes}
use nlsqlc.Base.Outcome.{Outcome, value, raised, Status, status_code, ◌>>=◌}
use nlsqlc.Runtime.{Runtime}
use nlsqlc.Catalog.{
  Dialect, postgres, Risk, low, moderate, high, denied, TableKey, PySchema, PyPolicy, type_uuid,
  column_tenant_key,
}
use nlsqlc.Catalog.Build.{TableSpec, ColumnSpec, TenantSpec, build_schema, build_policy}
use nlsqlc.Action.{Param}
use nlsqlc.Engine.{PyCompileResult}
use nlsqlc.Api.{compile_ir, text, schema_object, policy_object, number}

-- The functions of the C library that read a result; texts are decoded, `none` for a null pointer.
-- A `Params` is a list of parameters as either side has it.
pub record Native : Type 1 where
  pub Pointer : Type 0
  pub Params : Type 0
  pub result_status : Pointer → ℕ
  pub result_sql : Pointer → Option String
  pub result_canonical_ir : Pointer → Option String
  pub result_manifest : Pointer → Option String
  pub result_error : Pointer → Option String
  pub result_risk : Pointer → ℕ
  pub result_complexity : Pointer → ℕ
  pub result_fingerprint : Pointer → ℕ
  pub result_params : Pointer → Params
  pub no_params : Params
  pub python_params : List Param → Params

-- the `NLSQL_RISK_...` codes
abbrev pub risk_code : Risk → ℕ
risk_code low = 0
risk_code moderate = 1
risk_code high = 2
risk_code denied = 3

abbrev or_empty : Option String → String
or_empty none = ""
or_empty (some s) = s

module _ (n : Native) where
  open n use {Pointer, Params}

  -- `_ptr` and `_py`
  pub record CompileResult : Type 0 where
    pub ptr : Option Pointer
    pub py : Option PyCompileResult

  -- `if self._py: …`, and else the pointer's answer or a default
  unfoldable pub read {ℓ} :
      {A : Type ℓ}
      → (PyCompileResult → A)
      → (Pointer → A)
      → A
      → Option PyCompileResult
      → Option Pointer
      → A
  read of_python of_pointer default (some r) p = of_python r
  read of_python of_pointer default none (some p) = of_pointer p
  read of_python of_pointer default none none = default

  unfoldable pub status : CompileResult → ℕ
  unfolding read
  status r = read (λ p. status_code p.status) n.result_status 10 r.py r.ptr

  unfoldable pub sql : CompileResult → String
  unfolding read
  sql r = read (λ p. p.sql) (λ q. or_empty (n.result_sql q)) "" r.py r.ptr

  unfoldable pub canonical_ir : CompileResult → String
  unfolding read
  canonical_ir r = read (λ p. p.ir) (λ q. or_empty (n.result_canonical_ir q)) "" r.py r.ptr

  unfoldable pub manifest : CompileResult → String
  unfolding read
  manifest r = read (λ p. p.manifest) (λ q. or_empty (n.result_manifest q)) "" r.py r.ptr

  unfoldable pub error : CompileResult → String
  unfolding read
  error r = read (λ p. p.error) (λ q. or_empty (n.result_error q)) "" r.py r.ptr

  unfoldable pub risk : CompileResult → ℕ
  unfolding read
  risk r = read (λ p. risk_code p.risk) n.result_risk 3 r.py r.ptr

  unfoldable pub complexity : CompileResult → ℕ
  unfolding read
  complexity r = read (λ p. p.complexity) n.result_complexity 0 r.py r.ptr

  unfoldable pub fingerprint : CompileResult → ℕ
  unfolding read
  fingerprint r = read (λ p. p.fingerprint) n.result_fingerprint 0 r.py r.ptr

  unfoldable pub params : CompileResult → Params
  unfolding read
  params r = read (λ p. n.python_params p.params) n.result_params n.no_params r.py r.ptr

  -- `close`, with whether `_native_lib` is there
  unfoldable pub close : Bool → CompileResult → CompileResult
  close loaded r = if loaded then record r { ptr = none } else r

-- `AsyncNLSQLClient`; its context holds nothing on the path without the C library
pub record AsyncNlsqlClient : Type 0 where
  pub schema : PySchema
  pub policy : PyPolicy

-- `specs or default`
abbrev or_default {ℓ} : {A : Type ℓ} → List A → List A → List A
or_default d [] = d
or_default d (x ∷ xs) = x ∷ xs

abbrev orders : TableKey
orders = record { schema = "public"; table = "orders" }

abbrev flagged : String → ℕ → ℕ → ColumnSpec
flagged name type flags = record { name = name; type = type; flags = some flags }

-- `__init__`, where an argument that is not given is empty
unfoldable pub new_client : List TableSpec → List TableKey → List TenantSpec → AsyncNlsqlClient
unfolding build_schema build_policy
new_client specs allow rules = record {
  schema =
      build_schema
        (or_default
          (record {
            key = orders;
            columns =
                flagged "id" 3 1
                ∷ flagged "tenant_id" 9 column_tenant_key
                ∷ flagged "total" 5 0
                ∷ [];
          }
            ∷ [])
          specs)
        [] [];
  policy =
      build_policy (or_default (orders ∷ []) allow) []
        (or_default (record { key = orders; column = "tenant_id"; type = some type_uuid } ∷ [])
          rules)
        none (some ("tenant_id", type_uuid));
}

module _ (rt : Runtime) (client : AsyncNlsqlClient) where
  -- `compile`: `run_in_executor` passes the dialect as a positional argument
  unfoldable pub compile : String → Dialect → Outcome PyCompileResult
  unfolding compile_ir
  compile ir d =
      compile_ir rt
        (text ir ∷ schema_object client.schema ∷ policy_object client.policy ∷ number d ∷ [])
        postgres

  -- `compile_batch`: `asyncio.gather` gives the results in the order of the tasks
  unfoldable pub compile_batch : List String → Dialect → Outcome (List PyCompileResult)
  unfolding compile
  compile_batch [] d = value []
  compile_batch (ir ∷ irs) d = do r ← compile ir d; rs ← compile_batch irs d; value (r ∷ rs)

-- An ASGI scope: bytes are the texts that they decode to by Latin-1.
pub record Scope : Type 0 where
  pub type : String
  pub headers : List (String × String)
  pub state : Option (Dict String String)

-- `key.lower() == self.header_name`; `lower` of bytes changes ASCII letters only
unfoldable pub is_header : String → String → Bool
is_header header_name key = same_codes (map lower_code (codes key)) (codes header_name)

-- the loop over the headers
unfoldable pub first_header : String → List (String × String) → Option String
unfolding is_header
first_header header_name [] = none
first_header header_name ((key, val) ∷ rest) =
    if is_header header_name key then some val else first_header header_name rest

-- `tenant_id or "default-tenant"`
unfoldable pub tenant_or_default : Option String → String
tenant_or_default none = "default-tenant"
tenant_or_default (some t) = if t == "" then "default-tenant" else t

abbrev pub state_or_new : Option (Dict String String) → Dict String String
state_or_new none = []
state_or_new (some d) = d

-- `TenantContextMiddleware.__call__` up to the call of the application, which gets this scope
unfoldable pub with_tenant : String → Scope → Scope
unfolding first_header tenant_or_default Dict.insert
with_tenant header_name s =
    if s.type == "http"
    then record s {
      state = some (
          Dict.insert (◌==◌) "tenant_id" (tenant_or_default (first_header header_name s.headers))
            (state_or_new s.state));
    }
    else s
