-- ===== src/Explain.antt =====
-- bindings/python/nlsql.py: `explain` and `diff`.
pub mod Identical
use nlsqlc.Base.{ℕ, String, ◌<>◌, Bool, List, [], ◌∷◌, ◌++◌, map, ◌==◌}
use nlsqlc.Base.Text.{join, decimal}
use nlsqlc.Base.Outcome.{Outcome, value, Status, status_name, ◌>>=◌}
use nlsqlc.Runtime.{Runtime}
use nlsqlc.Sexpr.{node_text, parse_sexpr, canonical_ir}
use nlsqlc.Optimizer.{optimize}
use nlsqlc.Catalog.{Dialect, dialect_name, Origin, from_policy, Risk, low, PySchema, PyPolicy}
use nlsqlc.Action.{Param}
use nlsqlc.Engine.{PyCompileResult, compile_ir_engine}

-- the dictionary that `explain` returns
pub record Explanation : Type 0 where
  pub status : String
  pub plan_ascii : String
  pub complexity : ℕ
  pub risk : String
  pub sql : String
  pub params : List Param
  pub error : String

unfoldable pub risk_text : Risk → String
risk_text low = "LOW"
risk_text _ = "MODERATE"

unfoldable pub source_text : Origin → String
source_text from_policy = "TENANT_POLICY"
source_text _ = "USER_INPUT"

-- One line of "Parameter Bindings". `NLSQL_TYPE_NAMES` has names for its keys and codes for its
-- values, so the lookup of a code gives the default.
unfoldable pub param_line : Runtime → Param → String
unfolding source_text
param_line rt p =
    "│  │   • $"
    <> (decimal p.position
        <> (": " <> (node_text rt p.name <> (" (text) [" <> (source_text p.source <> "]")))))

param_lines : Runtime → List Param → List String
unfolding param_line
param_lines rt [] = []
param_lines rt (p ∷ ps) = "│  ├── Parameter Bindings:" ∷ map (param_line rt) (p ∷ ps)

ok_lines : Runtime → Dialect → PyCompileResult → List String
unfolding risk_text param_lines
ok_lines rt d r =
    ("│  ├── Status: OK (Dialect: " <> (dialect_name d <> ")"))
    ∷ ("│  ├── Complexity: " <> (decimal r.complexity <> (" (Risk: " <> (risk_text r.risk <> ")"))))
    ∷ "│  ├── Invariant Tenant Predicates: Injected"
    ∷ (param_lines rt r.params ++ "│  └── Generated SQL:" ∷ ("│      " <> r.sql) ∷ [])

plan_lines : Runtime → Dialect → Status → PyCompileResult → List String
unfolding ok_lines
plan_lines rt d Status.ok r = ok_lines rt d r
plan_lines rt d (Status.failed f) r =
    ("│  ├── Status: REJECTED (" <> (status_name (Status.failed f) <> ")"))
    ∷ ("│  └── Error: " <> r.error)
    ∷ []

unfoldable pub ok_or_error : Status → String
ok_or_error Status.ok = "OK"
ok_or_error (Status.failed f) = "ERROR"

unfoldable pub explain_result : Runtime → Dialect → PyCompileResult → Explanation
unfolding plan_lines ok_or_error risk_text
explain_result rt d r = record {
  status = ok_or_error r.status;
  plan_ascii =
      join "\n" ("┌── [Query Execution Plan]" ∷ (plan_lines rt d r.status r ++ "└──" ∷ []));
  complexity = r.complexity;
  risk = risk_text r.risk;
  sql = r.sql;
  params = r.params;
  error = r.error;
}

-- The tree that `explain` parses once more is not used.
unfoldable pub explain : Runtime → PySchema → PyPolicy → Dialect → String → Explanation
unfolding explain_result
explain rt schema policy d ir = explain_result rt d (compile_ir_engine rt schema policy d ir)

pub record Difference : Type 0 where
  pub identical : Bool
  pub ir1_canonical : String
  pub ir2_canonical : String

-- `_py_canonical_ir(_py_optimize_ast(_py_parse_sexpr(ir)))`
unfoldable pub canonical_text : Runtime → String → Outcome String
canonical_text rt ir = do raw ← parse_sexpr ir; tree ← optimize rt raw; value (canonical_ir tree)

unfoldable pub diff : Runtime → String → String → Outcome Difference
unfolding canonical_text
diff rt ir1 ir2 = do
  c1 ← canonical_text rt ir1
  c2 ← canonical_text rt ir2
  value (record { identical = c1 == c2; ir1_canonical = c1; ir2_canonical = c2 })
