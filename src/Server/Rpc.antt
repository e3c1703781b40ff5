-- ===== src/Server/Rpc.antt =====
-- tools/server.py: `handle_rpc_item` and the JSON-RPC branch of `do_POST`.
use nlsqlc.Base.{String, ◌<>◌, Bool, true, false, not, if◌then◌else◌, ◌==◌}
use nlsqlc.Base.Int.{ℤ, negsuc}
use nlsqlc.Base.Outcome.{Outcome, value, raised, attribute_error, Status, ◌>>=◌}
use nlsqlc.Catalog.{Dialect}
use nlsqlc.Engine.{PyCompileResult}
use nlsqlc.Explain.{risk_text}
use nlsqlc.Gateway.{Gateway}
use nlsqlc.Json.{
  Json, null, boolean, number, text, array, object, Items, no_items, item, Fields, no_fields, entry,
  get_or, truthy, natural, params_json, explanation_json,
}
use nlsqlc.Server.{Environment, Response, reply, dialect_of, compile, explain, diff_json}
use nlsqlc.Server

abbrev no_attribute {ℓ} : {A : Type ℓ} → String → Outcome A
no_attribute name = raised (attribute_error ("no attribute '" <> (name <> "'")))

-- `.get` is there for a dictionary only.
unfoldable pub as_fields : Json → Outcome Fields
as_fields (object fields) = value fields
as_fields _ = no_attribute "get"

-- `.lower()` is there for a text only.
unfoldable pub lowered : (String → String) → Json → Outcome String
lowered lower (text s) = value (lower s)
lowered lower _ = no_attribute "lower"

-- `{"jsonrpc": "2.0", "id": req_id, "result": …}`
abbrev pub rpc_result : Json → Json → Json
rpc_result id result =
    object (entry "jsonrpc" (text "2.0") (entry "id" id (entry "result" result no_fields)))

-- `{"jsonrpc": "2.0", "id": req_id, "error": {"code": …, "message": …}}`; a code is -(n + 1)
abbrev pub rpc_error : Json → ℤ → String → Json
rpc_error id code message = object (
    entry "jsonrpc" (text "2.0") (
      entry "id" id (
        entry "error"
          (object (entry "code" (number code) (entry "message" (text message) no_fields)))
          no_fields)))

abbrev pub invalid_params : ℤ
invalid_params = negsuc 32601

abbrev pub compilation_failed : ℤ
compilation_failed = negsuc 31999

abbrev pub method_not_found : ℤ
method_not_found = negsuc 32600

-- `a or b` of texts
abbrev pub or_text : String → String → String
or_text a b = if a == "" then b else a

-- `method == name`
abbrev pub is_method : String → Json → Bool
is_method name (text m) = m == name
is_method name _ = false

-- the answer of the method `compile` to a result
unfoldable pub compile_answer : Json → PyCompileResult → Status → Json
unfolding risk_text params_json
compile_answer id r Status.ok = rpc_result id (
    object (
      entry "sql" (text r.sql) (
        entry "complexity" (natural r.complexity) (
          entry "risk" (text (risk_text r.risk))
            (entry "params" (params_json r.params) no_fields)))))
compile_answer id r (Status.failed f) =
    rpc_error id compilation_failed (or_text r.error "Compilation failed")

-- the answer of the method `validate` to a result
unfoldable pub validate_answer : Json → PyCompileResult → Status → Json
validate_answer id r Status.ok =
    rpc_result id (object (entry "valid" (boolean true) (entry "error" null no_fields)))
validate_answer id r (Status.failed f) =
    rpc_result id (object (entry "valid" (boolean false) (entry "error" (text r.error) no_fields)))

module _ (env : Environment) (g : Gateway) where
  -- `f"{method}"`
  abbrev method_text : Json → String
  method_text (text m) = m
  method_text m = env.str_of m

  unfoldable pub call_compile : Json → Json → Dialect → Outcome Json
  unfolding truthy compile compile_answer
  call_compile id ir d =
      if not (truthy env.runtime ir)
      then value (rpc_error id invalid_params "Invalid params: missing ir")
      else (compile env.runtime g ir d >>= λ r. value (compile_answer id r r.status))

  unfoldable pub call_validate : Json → Json → Dialect → Outcome Json
  unfolding compile validate_answer
  call_validate id ir d = compile env.runtime g ir d >>= λ r. value (validate_answer id r r.status)

  -- the dispatch on the name of the method
  unfoldable pub call_method : Json → Json → Fields → Dialect → Outcome Json
  unfolding get_or call_compile call_validate explain explanation_json diff_json
  call_method id method params d =
      if is_method "compile" method
      then call_compile id (get_or "ir" null params) d
      else if is_method "validate" method
      then call_validate id (get_or "ir" null params) d
      else if is_method "explain" method
      then (explain env.runtime g (get_or "ir" null params) d >>= λ plan.
          value (rpc_result id (explanation_json plan)))
      else if is_method "diff" method
      then (diff_json env.runtime (get_or "ir1" (text "") params) (get_or "ir2" (text "") params)
          >>= λ d. value (rpc_result id d))
      else value (rpc_error id method_not_found ("Method not found: " <> method_text method))

  unfoldable pub handle_rpc_item : Fields → Outcome Json
  unfolding get_or as_fields lowered dialect_of call_method
  handle_rpc_item fields = do
    params ← as_fields (get_or "params" (object no_fields) fields)
    name ← lowered env.lower (get_or "dialect" (text "postgres") params)
    call_method (get_or "id" null fields) (get_or "method" null fields) params (dialect_of name)

  -- `[handle_rpc_item(item) for item in req_data if isinstance(item, dict)]`
  unfoldable pub handle_batch : Items → Outcome Items
  unfolding handle_rpc_item
  handle_batch no_items = value no_items
  handle_batch (item (object fields) rest) = do
    answer ← handle_rpc_item fields
    answers ← handle_batch rest
    value (item answer answers)
  handle_batch (item _ rest) = handle_batch rest

  unfoldable pub handle_rpc : Json → Outcome Response
  unfolding handle_batch handle_rpc_item
  handle_rpc (array items) =
      handle_batch items >>= λ answers. value (Server.json_response 200 (array answers))
  handle_rpc (object fields) =
      handle_rpc_item fields >>= λ answer. value (Server.json_response 200 answer)
  handle_rpc _ = value (
      reply 400 (
        entry "jsonrpc" (text "2.0") (
          entry "error"
            (object (
              entry "code" (number (negsuc 32599))
                (entry "message" (text "Invalid Request") no_fields)))
            no_fields)))
