-- ===== src/Server/Post.antt =====
-- tools/server.py: `do_POST`. An exception that leaves the handler ends the request without a
-- response.
use nlsqlc.Base.{String, Bool, true, false, not, ◌||◌, ◌⊎◌, inl, inr, if◌then◌else◌, ◌==◌}
use nlsqlc.Base.Int.{ℤ}
use nlsqlc.Base.Outcome.{Outcome, value, raised, attribute_error, ◌>>=◌}
use nlsqlc.Catalog.{Dialect}
use nlsqlc.Engine.{PyCompileResult}
use nlsqlc.Question.{compile_question}
use nlsqlc.Gateway.{Gateway, reload}
use nlsqlc.Limiter.{Limiter, allow}
use nlsqlc.Metrics.{record_request, record_rate_limit}
use nlsqlc.Json.{Json, null, text, object, Fields, no_fields, entry, get_or, truthy}
use nlsqlc.Server.{
  Environment, State, Request, Moment, Response, reply, json_response, or_else, dialect_of, compile,
  explain, diff_json,
}
use nlsqlc.Server.Rpc.{as_fields, handle_rpc}
use nlsqlc.Server.Replies.{
  schema_or_empty, policy_or_default, is_ok, traced, refuse, length_header, is_too_large, body_text,
  parse_body, compile_reply, validate_reply, question_reply, explain_reply,
}

module _ (env : Environment) (m : Moment env) where
  unfoldable pub score_of : PyCompileResult → String
  score_of r = env.relevance_score r.complexity r.risk

  -- a compilation that the metrics count; an exception leaves before `record_request`
  unfoldable pub counted :
      (PyCompileResult → Response)
      → Outcome PyCompileResult
      → State env
      → Outcome Response × State env
  unfolding record_request
  counted answer (value r) s = (
    value (answer r),
    record s { metrics = record_request m.duration (is_ok r.status) s.metrics },
  )
  counted answer (raised e) s = (raised e, s)
  counted answer (Outcome.returned f t) s = (Outcome.returned f t, s)

  unfoldable pub post_compile : String → Dialect → Json → State env → Outcome Response × State env
  unfolding truthy compile compile_reply counted score_of
  post_compile trace d ir s =
      if not (truthy env.runtime ir)
      then (value (refuse "Missing 'ir' field in request body" trace), s)
      else counted (λ r. compile_reply score_of m.duration_ms trace r r.status)
          (compile env.runtime s.gateway ir d) s

  unfoldable pub post_validate : String → Dialect → Json → Gateway → Outcome Response
  unfolding truthy compile validate_reply
  post_validate trace d ir g =
      if not (truthy env.runtime ir)
      then value (refuse "Missing 'ir' field" trace)
      else (compile env.runtime g ir d >>= λ r. value (validate_reply trace r r.status))

  -- `question.strip()` is there for a text only.
  unfoldable pub ask : Gateway → Dialect → Json → Outcome PyCompileResult
  unfolding compile_question
  ask g d (text q) =
      compile_question env.runtime (schema_or_empty g.schema) (policy_or_default g.policy) q d
  ask g d _ = raised (attribute_error "no attribute 'strip'")

  unfoldable pub post_question : String → Dialect → Json → State env → Outcome Response × State env
  unfolding truthy ask question_reply counted score_of
  post_question trace d q s =
      if not (truthy env.runtime q)
      then (value (refuse "Missing 'question' field" trace), s)
      else counted (λ r. question_reply score_of trace r r.status) (ask s.gateway d q) s

  unfoldable pub post_explain : String → Dialect → Json → Gateway → Outcome Response
  unfolding truthy explain explain_reply
  post_explain trace d ir g =
      if not (truthy env.runtime ir)
      then value (refuse "Missing 'ir' field" trace)
      else (explain env.runtime g ir d >>= λ plan. value (explain_reply plan))

  unfoldable pub post_diff : String → Json → Json → Outcome Response
  unfolding truthy diff_json
  post_diff trace ir1 ir2 =
      if not (truthy env.runtime ir1) || not (truthy env.runtime ir2)
      then value (refuse "Missing 'ir1' or 'ir2' field" trace)
      else (diff_json env.runtime ir1 ir2 >>= λ d. value (json_response 200 d))

  -- `req_data.get("dialect", "postgres") if isinstance(req_data, dict) else "postgres"`
  unfoldable pub requested_dialect : Json → Dialect
  unfolding get_or dialect_of
  requested_dialect (object fields) = elim (get_or "dialect" (text "postgres") fields) [
    | text name ↦ dialect_of (env.lower name)
    | other ↦ dialect_of (env.lower (env.str_of other))
  ]
  requested_dialect _ = dialect_of (env.lower "postgres")

  -- a handler that changes no state
  abbrev unchanged : State env → Outcome Response → Outcome Response × State env
  unchanged s r = (r, s)

  -- the endpoints that look into the dictionary
  unfoldable pub post_fields :
      String → String → Dialect → Fields → State env → Outcome Response × State env
  unfolding get_or post_compile post_validate post_question post_explain post_diff
  post_fields path trace d fields s =
      if path == "/v1/compile"
      then post_compile trace d (get_or "ir" null fields) s
      else if path == "/v1/validate"
      then unchanged s (post_validate trace d (get_or "ir" null fields) s.gateway)
      else if path == "/v1/question"
      then post_question trace d (get_or "question" null fields) s
      else if path == "/v1/explain"
      then unchanged s (post_explain trace d (get_or "ir" null fields) s.gateway)
      else unchanged s (post_diff trace (get_or "ir1" null fields) (get_or "ir2" null fields))

  abbrev pub reads_fields : String → Bool
  reads_fields path =
      path == "/v1/compile"
      || path == "/v1/validate"
      || path == "/v1/question"
      || path == "/v1/explain"
      || path == "/v1/diff"

  unfoldable pub with_fields :
      String → String → Json → Outcome Fields → State env → Outcome Response × State env
  unfolding post_fields requested_dialect
  with_fields path trace j (value fields) s = post_fields path trace (requested_dialect j) fields s
  with_fields path trace j (raised e) s = (raised e, s)
  with_fields path trace j (Outcome.returned f t) s = (Outcome.returned f t, s)

  -- `self.gateway.reload()` and its answer
  unfoldable pub post_reload : String → State env → Outcome Response × State env
  unfolding reload
  post_reload trace s =
      let (done, g) = reload m.schema_file s.gateway in
      (
        done >>= λ _. value (
            reply 200 (
              entry "status" (text "OK")
                (entry "message" (text "Schema and policy reloaded successfully") (traced trace)))),
        record s { gateway = g },
      )

  -- the branches behind the parsing of the body
  unfoldable pub route : String → String → Json → State env → Outcome Response × State env
  unfolding post_reload with_fields as_fields handle_rpc
  route path trace j s =
      if path == "/v1/schema/reload" || path == "/v1/policy/reload"
      then post_reload trace s
      else if reads_fields path
      then with_fields path trace j (as_fields j) s
      else if path == "/rpc"
      then unchanged s (handle_rpc env s.gateway j)
      else unchanged s (
          value (
            reply 404
              (entry "error" (text "Endpoint not found") (entry "path" (text path) no_fields))))

  -- `except Exception as e: …400…`
  unfoldable pub with_body :
      String → String → String ⊎ Json → State env → Outcome Response × State env
  unfolding route
  with_body path trace (inl message) s = unchanged s (
      value (
        reply 400
          (entry "error" (text "Bad Request") (entry "message" (text message) (traced trace)))))
  with_body path trace (inr j) s = route path trace j s

  unfoldable pub with_length :
      Request → String → Outcome ℤ → State env → Outcome Response × State env
  unfolding body_text parse_body with_body
  with_length q trace (value n) s =
      if is_too_large n
      then unchanged s (value (reply 413 (entry "error" (text "Payload Too Large") (traced trace))))
      else with_body q.path trace (parse_body env.loads (body_text n q.read)) s
  with_length q trace (raised e) s = (raised e, s)
  with_length q trace (Outcome.returned f t) s = (Outcome.returned f t, s)

  -- the request behind the answer of the limiter
  unfoldable pub admitted : Request → String → Bool → State env → Outcome Response × State env
  unfolding record_rate_limit length_header with_length
  admitted q trace true s = with_length q trace (length_header env.runtime.digit q.content_length) s
  admitted q trace false s = (
    value (
        reply 429 (
          entry "error" (text "Too Many Requests")
            (entry "message" (text "Rate limit exceeded") (traced trace)))),
    record s { metrics = record_rate_limit s.metrics },
  )

  -- what the answer of `allow` leads to
  unfoldable pub behind_limiter :
      Request
      → String
      → Outcome (Bool × Limiter env.floats)
      → State env
      → Outcome Response × State env
  unfolding admitted
  behind_limiter q trace (value (ok, l)) s = admitted q trace ok (record s { limiter = l })
  behind_limiter q trace (raised e) s = (raised e, s)
  behind_limiter q trace (Outcome.returned f t) s = (Outcome.returned f t, s)

  unfoldable pub do_post : Request → State env → Outcome Response × State env
  unfolding allow behind_limiter
  do_post q s =
      let client = or_else q.address q.client_header in
      behind_limiter q (or_else m.fresh_trace q.trace_header)
        (allow env.floats s.limiter m.now client env.cost) s
