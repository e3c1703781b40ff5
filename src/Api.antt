-- ===== src/Api.antt =====
-- bindings/python/nlsql.py: `compile_ir`, `compile_cte`, `compile_set` and `compile_question`, on
-- their path without the C library (`_native_lib` is None).
pub mod Combined
use nlsqlc.Base.{ℕ, ◌+◌, String, ◌<>◌, Option, none, some, List, [], ◌∷◌, ◌++◌, if◌then◌else◌, ◌==◌}
use nlsqlc.Base.Outcome.{Outcome, value, raised, Status, Failure, type_error}
use nlsqlc.Runtime.{Runtime}
use nlsqlc.Sexpr.{Token, run, find_tokens}
use nlsqlc.Catalog.{Dialect, postgres, low, PySchema, PyPolicy, empty_schema, default_policy}
use nlsqlc.Action.{Param}
use nlsqlc.Forms.{quote_ident}
use nlsqlc.Engine.{PyCompileResult, failure, ir_fingerprint, compile_ir_engine}

-- A positional argument of `compile_ir` behind the context.
pub data Argument : Type 0 where
  text : String → Argument
  schema_object : PySchema → Argument
  policy_object : PyPolicy → Argument
  number : Dialect → Argument
  nothing : Argument

-- `ir`, `schema` and `policy`, as the code finds them
pub record Request : Type 0 where
  pub ir : Argument
  pub schema : Argument
  pub policy : Argument

-- `args[i] if len(args) > i else None`
abbrev first_or_none : List Argument → Argument
first_or_none [] = nothing
first_or_none (a ∷ rest) = a

abbrev second_or_none : List Argument → Argument
second_or_none (a ∷ b ∷ rest) = b
second_or_none _ = nothing

unfoldable pub read_arguments : List Argument → Outcome Request
read_arguments (text s ∷ a ∷ b ∷ []) = value (record { ir = text s; schema = a; policy = b })
read_arguments (a ∷ b ∷ c ∷ []) = value (record { ir = c; schema = a; policy = b })
read_arguments (a ∷ b ∷ c ∷ text s ∷ []) = value (record { ir = text s; schema = a; policy = b })
read_arguments (text s ∷ rest) =
    value (record { ir = text s; schema = first_or_none rest; policy = second_or_none rest })
read_arguments _ = raised (type_error "compile_ir requires context, ir, schema, and policy")

-- `getattr(schema, "py_schema", _PySchema()) if schema else _PySchema()`
abbrev pub schema_of : Argument → PySchema
schema_of (schema_object s) = s
schema_of _ = empty_schema

abbrev pub policy_of : Argument → PyPolicy
policy_of (policy_object p) = p
policy_of _ = default_policy

abbrev not_text : String → PyCompileResult
not_text name =
    failure Failure.parse ("PARSE: expected string or bytes-like object, got '" <> (name <> "'"))

-- the engine, which meets an `ir` that is no text in its `try`
unfoldable pub run_engine : Runtime → Dialect → PySchema → PyPolicy → Argument → PyCompileResult
run_engine rt d schema policy (text ir) = compile_ir_engine rt schema policy d ir
run_engine rt d schema policy (schema_object s) = not_text "Schema"
run_engine rt d schema policy (policy_object p) = not_text "Policy"
run_engine rt d schema policy (number n) = not_text "int"
run_engine rt d schema policy nothing = not_text "NoneType"

unfoldable pub compile_request : Runtime → Dialect → Outcome Request → Outcome PyCompileResult
unfolding run_engine
compile_request rt d (value r) =
    value (run_engine rt d (schema_of r.schema) (policy_of r.policy) r.ir)
compile_request rt d (raised e) = raised e
compile_request rt d (Outcome.returned s m) = Outcome.returned s m

-- `compile_ir(context, *args, dialect=dialect)`
unfoldable pub compile_ir : Runtime → List Argument → Dialect → Outcome PyCompileResult
unfolding read_arguments compile_request
compile_ir rt args d = compile_request rt d (read_arguments args)

-- `PyCompileResult(NLSQL_OK, sql=…, ir=…, params=…, complexity=…)`
abbrev pub combined : String → String → List Param → ℕ → PyCompileResult
combined sql ir params complexity = record {
  status = Status.ok;
  sql = sql;
  ir = ir;
  manifest = "";
  error = "";
  params = params;
  risk = low;
  complexity = complexity;
  fingerprint = ir_fingerprint ir;
}

-- `if res.status != NLSQL_OK: return res`
unfoldable pub unless_ok : PyCompileResult → Status → PyCompileResult → PyCompileResult
unless_ok r Status.ok next = next
unless_ok r (Status.failed f) next = r

pub data SetOperation : Type 0 where
  union union_all intersect except : SetOperation
  -- a code outside the four
  other_operation : ℕ → SetOperation

abbrev pub set_text : SetOperation → String
set_text union_all = "UNION ALL"
set_text intersect = "INTERSECT"
set_text except = "EXCEPT"
set_text _ = "UNION"

module _ (rt : Runtime) (schema : PySchema) (policy : PyPolicy) (d : Dialect) where
  abbrev engine : String → PyCompileResult
  engine = compile_ir_engine rt schema policy d

  cte_result : String → String → PyCompileResult → PyCompileResult → PyCompileResult
  cte_result name full_ir cte outer =
      combined ("WITH " <> (quote_ident name d <> (" AS (" <> (cte.sql <> (") " <> outer.sql)))))
        full_ir (cte.params ++ outer.params) (cte.complexity + outer.complexity + 1)

  unfoldable pub compile_cte : String → String → String → PyCompileResult
  unfolding cte_result unless_ok
  compile_cte name cte_ir query_ir =
      let cte = engine cte_ir in
      unless_ok cte cte.status (
        cte_result name ("(with " <> (name <> (" " <> (cte_ir <> (" " <> (query_ir <> ")")))))) cte
          (engine query_ir))

  set_result : SetOperation → PyCompileResult → PyCompileResult → PyCompileResult
  set_result op left right =
      combined ("(" <> (left.sql <> (") " <> (set_text op <> (" (" <> (right.sql <> ")"))))))
        ("(set " <> (set_text op <> (" " <> (left.ir <> (" " <> (right.ir <> ")"))))))
        (left.params ++ right.params) (left.complexity + right.complexity + 1)

  unfoldable pub compile_set : String → String → SetOperation → PyCompileResult
  unfolding set_result unless_ok
  compile_set left_ir right_ir op =
      let left = engine left_ir in
      let right = engine right_ir in
      unless_ok left left.status (unless_ok right right.status (set_result op left right))
