-- ===== src/Engine.antt =====
-- bindings/python/nlsql.py: `_py_compile_ir_engine` from end to end, its denied columns and its
-- result.
pub mod Run
pub mod Safety
pub mod Figures
use nlsqlc.Base.{ℕ, ◌+◌, String, ◌<>◌, ◌&&◌, List, [], ◌∷◌, if◌then◌else◌, ◌==◌, eqb, length}
use nlsqlc.Base.Dict
use nlsqlc.Base.Int.{int_of_text, show_ℤ}
use nlsqlc.Base.Text.{contains, decimal, is_desc, join, strip_quotes}
use nlsqlc.Base.Outcome.{Outcome, value, raised, returned, Status, Failure, message, ◌>>=◌}
use nlsqlc.Runtime.{Runtime}
use nlsqlc.Sexpr.{Node, find_tokens, push_token, parse_sexpr, canonical_ir, repr, node_text}
use nlsqlc.Optimizer.{optimize, optimize_list, atom_eq}
use nlsqlc.Catalog.{
  Dialect, dialect_name, Risk, low, moderate, ColumnKey, ColumnDef, PySchema, PyPolicy, is_denied,
  table_eq, column_eq, has_table, is_allowed, find_column, tenant_rule, type_code,
}
use nlsqlc.Action.{Param, append_param}
use nlsqlc.Forms.{quote_ident, placeholder, form}
use nlsqlc.Emit.{
  Env, direction, emit_each, emit_column, emit_param, part_text, reject, emit_expr, emit_list,
  emit_form,
}
use nlsqlc.Fingerprint.{fingerprint, mix_all, mix, utf8_bytes, encode}
use nlsqlc.Plan.{Clauses, no_clauses, Plan, check_root, scan_clauses, resolve}
use nlsqlc.Body.{Body, emit_body}

-- `PyCompileResult`, but for `relevance_score`, a float, and the empty `diagnostics`
pub record PyCompileResult : Type 0 where
  pub status : Status
  pub sql : String
  pub ir : String
  pub manifest : String
  pub error : String
  pub params : List Param
  pub risk : Risk
  pub complexity : ℕ
  pub fingerprint : ℕ

-- `PyCompileResult(status, error=error)`
abbrev pub failure : Failure → String → PyCompileResult
failure status error = record {
  status = Status.failed status;
  sql = "";
  ir = "";
  manifest = "";
  error = error;
  params = [];
  risk = low;
  complexity = 1;
  fingerprint = 0;
}

-- `_py_fingerprint(ir) if ir else 0`
unfoldable pub ir_fingerprint : String → ℕ
ir_fingerprint ir = if ir == "" then 0 else fingerprint ir

-- the loop over `schema.columns`
unfoldable pub check_denied : PyPolicy → String → List (ColumnKey × ColumnDef) → Outcome (Unit {0})
check_denied policy ir [] = value tt
check_denied policy ir ((k, d) ∷ rest) =
    let more = check_denied policy ir rest in
    if is_denied policy k && (contains k.column ir && contains k.table ir)
    then returned Failure.policy ("POLICY: column denied " <> k.column)
    else more

-- `NLSQL_RISK_LOW if tenant_count > 0 else NLSQL_RISK_MODERATE`
unfoldable pub risk_of : ℕ → Risk
risk_of tenant_count = if eqb tenant_count 0 then moderate else low

-- the text in the manifest
unfoldable pub risk_name : ℕ → String
risk_name tenant_count = if eqb tenant_count 0 then "MODERATE" else "LOW"

unfoldable pub manifest_text : Dialect → ℕ → ℕ → ℕ → String
unfolding risk_name
manifest_text dialect params tenants complexity =
    "version=2\ndialect="
    <> (dialect_name dialect
        <> ("\nparameters="
            <> (decimal params
                <> ("\ntenant_predicates="
                    <> (decimal tenants
                        <> ("\ncomplexity="
                            <> (decimal complexity
                                <> ("\nrisk=" <> (risk_name tenants <> "\n")))))))))

unfoldable pub complexity_of : Plan → Body → ℕ
complexity_of plan body = 1 + length plan.joins + length body.fields + length body.tenants

-- the result of `NLSQL_OK`
unfoldable pub success : Dialect → Node → Plan → Body × List Param → PyCompileResult
unfolding risk_of manifest_text complexity_of ir_fingerprint
success dialect tree plan (body, params) = record {
  status = Status.ok;
  sql = body.sql;
  ir = canonical_ir tree;
  manifest = manifest_text dialect (length params) (length body.tenants) (complexity_of plan body);
  error = "";
  params = params;
  risk = risk_of (length body.tenants);
  complexity = complexity_of plan body;
  fingerprint = ir_fingerprint (canonical_ir tree);
}

-- `except Exception as e`, and the early returns
unfoldable pub handle : Outcome PyCompileResult → PyCompileResult
handle (value r) = r
handle (raised e) = failure Failure.parse ("PARSE: " <> message e)
handle (returned status error) = failure status error

module _ (rt : Runtime) (schema : PySchema) (policy : PyPolicy) (dialect : Dialect) where
  abbrev pub env_of : Plan → Env
  env_of plan = record { rt = rt; sources = plan.sources; schema = schema; dialect = dialect }

  unfoldable pub compile_clauses : String → Node → Clauses → Outcome PyCompileResult
  compile_clauses ir tree c = do
    plan ← resolve rt schema policy c
    passed ← check_denied policy ir schema.columns
    body ← emit_body (env_of plan) policy c plan []
    value (success dialect tree plan body)

  unfoldable pub compile_tree : String → Node → Outcome PyCompileResult
  compile_tree ir tree = do
    items ← check_root tree
    compile_clauses ir tree (scan_clauses items no_clauses)

  unfoldable pub compile_text : String → Outcome PyCompileResult
  compile_text ir = do raw ← parse_sexpr ir; tree ← optimize rt raw; compile_tree ir tree

  -- `_py_compile_ir_engine`
  unfoldable pub compile_ir_engine : String → PyCompileResult
  unfolding is_desc direction parse_sexpr find_tokens push_token optimize optimize_list check_root
      scan_clauses resolve table_eq column_eq has_table is_allowed find_column tenant_rule is_denied
      Dict.member Dict.lookup Dict.has Dict.insert atom_eq check_denied contains append_param
      quote_ident placeholder type_code int_of_text show_ℤ join decimal strip_quotes emit_each
      emit_column emit_param part_text reject emit_expr emit_list emit_form form emit_body
      canonical_ir repr node_text success fingerprint mix_all mix utf8_bytes encode compile_clauses
      compile_tree compile_text handle
  compile_ir_engine ir = handle (compile_text ir)
