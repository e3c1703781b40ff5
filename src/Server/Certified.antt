-- ===== src/Server/Certified.antt =====
-- tools/server.py: what stands behind a response with status 200 of `/v1/compile`.
use mathlib.Core.Path.{subst}
use nlsqlc.Base.{
  if-elim, String, Bool, true, false, not, ◌≡◌, refl, sym, ap, ◌∙◌, ◌⊎◌, inl, inr, Option, none,
  some, ◌∷◌, map, arith, All,
}
use nlsqlc.Base.Int.{ℤ}
use nlsqlc.Base.Outcome.{Outcome, value, raised, returned, Status}
use nlsqlc.Runtime.{Runtime}
use nlsqlc.Catalog.{Dialect, PySchema, PyPolicy}
use nlsqlc.Engine.{PyCompileResult, compile_ir_engine}
use nlsqlc.Engine.Safety.{tables_permitted}
use nlsqlc.Engine.Run.{plan_of}
use nlsqlc.Plan.{Plan}
use nlsqlc.Plan.Tables.{SourcePermitted, from_source, source_of}
use nlsqlc.Api.{compile_ir, run_engine, schema_of, policy_of}
use nlsqlc.Gateway.{Gateway}
use nlsqlc.Limiter.{Limiter, allow}
use nlsqlc.Json.{Json, Fields, truthy, get_or, null}
use nlsqlc.Server.{
  Environment, State, Request, Moment, Response, or_else, compile, schema_argument, policy_argument,
  risk_word,
}
use nlsqlc.Server.Rpc.{as_fields}
use nlsqlc.Server.Reads.{IsRead, NamesDialect, requested_dialect-NamesDialect, IsAsked, Carries}
use nlsqlc.Server.Replies.{
  schema_or_empty, policy_or_default, length_header, is_too_large, body_text, parse_body,
  compile_reply,
}
use nlsqlc.Server.Post.{
  counted, score_of, post_compile, requested_dialect, post_fields, with_fields, route, with_body,
  with_length, admitted, behind_limiter, do_post,
}

abbrev pub engine_of : Runtime → Gateway → Dialect → String → PyCompileResult
engine_of rt g d ir =
    compile_ir_engine rt (schema_or_empty g.schema) (policy_or_default g.policy) d ir

-- An OK result of a field is the engine's, and the field a text.
abbrev IsEngine : Runtime → Gateway → Dialect → Json → Outcome PyCompileResult → Type 0
IsEngine rt g d j (value c) =
    c.status ≡ Status.ok → (ir : String) × (j ≡ Json.text ir) × (c ≡ engine_of rt g d ir)
IsEngine rt g d j (raised e) = Unit
IsEngine rt g d j (returned f t) = Unit

schema_of-schema_argument :
    (o : Option PySchema) → schema_of (schema_argument o) ≡ schema_or_empty o
schema_of-schema_argument none = refl
schema_of-schema_argument (some x) = refl

policy_of-policy_argument :
    (o : Option PyPolicy) → policy_of (policy_argument o) ≡ policy_or_default o
policy_of-policy_argument none = refl
policy_of-policy_argument (some p) = refl

-- Without a text, `compile_ir` takes its last argument for the IR.
no_text-IsEngine :
    (rt : Runtime) (g : Gateway) (d : Dialect) (j : Json) (schema : PySchema) (policy : PyPolicy)
    (p : Option PyPolicy)
    → IsEngine rt g d j (value (run_engine rt d schema policy (policy_argument p)))
unfolding run_engine
no_text-IsEngine rt g d j schema policy none = λ h. cc
no_text-IsEngine rt g d j schema policy (some p) = λ h. cc

module _ (rt : Runtime) (g : Gateway) (d : Dialect) where
  compile-IsEngine : (ir : Json) → IsEngine rt g d ir (compile rt g ir d)
  unfolding compile compile_ir
  compile-IsEngine (Json.text ir) = λ h.
      (ir, refl, rw (schema_of-schema_argument g.schema, policy_of-policy_argument g.policy) refl)
  compile-IsEngine Json.null = no_text-IsEngine rt g d _ _ _ g.policy
  compile-IsEngine (Json.boolean b) = no_text-IsEngine rt g d _ _ _ g.policy
  compile-IsEngine (Json.number n) = no_text-IsEngine rt g d _ _ _ g.policy
  compile-IsEngine (Json.float f) = no_text-IsEngine rt g d _ _ _ g.policy
  compile-IsEngine (Json.array vs) = no_text-IsEngine rt g d _ _ _ g.policy
  compile-IsEngine (Json.object fs) = no_text-IsEngine rt g d _ _ _ g.policy

-- The dictionary of the response to a result with status OK
compile_reply-Carries :
    (score : PyCompileResult → String) (duration trace : String) (c : PyCompileResult)
    → Carries c (compile_reply score duration trace c Status.ok)
unfolding compile_reply get_or risk_word
compile_reply-Carries score duration trace c = record {
  fields = _;
  content = refl;
  status = refl;
  sql = refl;
  canonical_ir = refl;
  manifest = refl;
  fingerprint = refl;
  complexity = refl;
  risk_low = λ e. ap (λ r. Json.text (risk_word r)) e;
  risk_moderate = λ e. ap (λ r. Json.text (risk_word r)) e;
  params = refl;
}

module _ (env : Environment) (m : Moment env) (q : Request) where
  -- A response with status 200 carries the engine's result with status OK, under the gateway's schema
  -- and policy, of the text that the request asks for.
  abbrev pub IsCertified : Gateway → Outcome Response → Type 0
  IsCertified g (value r) =
      r.status ≡ 200
      → (ir : String) × (d : Dialect) × IsAsked env q ir d
        × ((engine_of env.runtime g d ir).status ≡ Status.ok)
        × Carries (engine_of env.runtime g d ir) r
  IsCertified g (raised e) = Unit
  IsCertified g (returned f t) = Unit

  module _ (trace : String) (g : Gateway) (d : Dialect) (fs : Fields)
      (read : IsRead env q (Json.object fs)) (names : NamesDialect env fs d) where
    compile_reply-IsCertified :
        (c : PyCompileResult) (st : Status)
        → c.status ≡ st
        → IsEngine env.runtime g d (get_or "ir" null fs) (value c)
        → IsCertified g (value (compile_reply (score_of env m) m.duration_ms trace c st))
    unfolding compile_reply
    compile_reply-IsCertified c Status.ok e h = λ k.
        let (ir, asks, is) = h e in
        (
          ir,
          d,
          record { fields = fs; read = read; text_is = asks; dialect_is = names },
          ap (λ (x : PyCompileResult). x.status) (sym is) ∙ e,
          subst (λ x. Carries x (compile_reply (score_of env m) m.duration_ms trace c Status.ok)) is
              (compile_reply-Carries (score_of env m) m.duration_ms trace c),
        )
    compile_reply-IsCertified c (Status.failed f) e h = λ k. absurd (omega (arith, k))

    counted-IsCertified :
        (s : State env) (o : Outcome PyCompileResult)
        → IsEngine env.runtime g d (get_or "ir" null fs) o
        → IsCertified g
            (counted env m
              (λ c. compile_reply (score_of env m) m.duration_ms trace c c.status)
              o
              s).0
    unfolding counted
    counted-IsCertified s (value c) h = compile_reply-IsCertified c c.status refl h
    counted-IsCertified s (raised e) h = tt
    counted-IsCertified s (returned f t) h = tt

  module _ (trace : String) (s : State env) where
    abbrev IsCertifiedResult : Outcome Response × State env → Type 0
    IsCertifiedResult r = IsCertified s.gateway r.0

    post_compile-IsCertified :
        (d : Dialect) (fs : Fields)
        → IsRead env q (Json.object fs)
        → NamesDialect env fs d
        → IsCertifiedResult (post_compile env m trace d (get_or "ir" null fs) s)
    unfolding post_compile
    post_compile-IsCertified d fs read names =
        if-elim IsCertifiedResult (not (truthy env.runtime (get_or "ir" null fs))) _ _
          (λ e. λ k. absurd (omega (arith, k)))
          (λ e.
            counted-IsCertified trace s.gateway d fs read names s
              (compile env.runtime s.gateway (get_or "ir" null fs) d)
              (compile-IsEngine env.runtime s.gateway d (get_or "ir" null fs)))

    with_fields-IsCertified :
        (j : Json)
        → IsRead env q j
        → IsCertifiedResult (with_fields env m "/v1/compile" trace j (as_fields j) s)
    unfolding with_fields post_fields as_fields
    with_fields-IsCertified (Json.object fs) read =
        post_compile-IsCertified (requested_dialect env m (Json.object fs)) fs read
          (requested_dialect-NamesDialect env m fs)
    with_fields-IsCertified Json.null read = tt
    with_fields-IsCertified (Json.boolean b) read = tt
    with_fields-IsCertified (Json.number n) read = tt
    with_fields-IsCertified (Json.float f) read = tt
    with_fields-IsCertified (Json.text t) read = tt
    with_fields-IsCertified (Json.array vs) read = tt

    with_body-IsCertified :
        (b : String ⊎ Json)
        → ((j : Json) → b ≡ inr j → IsRead env q j)
        → IsCertifiedResult (with_body env m "/v1/compile" trace b s)
    unfolding with_body route
    with_body-IsCertified (inl message) read = λ k. absurd (omega (arith, k))
    with_body-IsCertified (inr j) read = with_fields-IsCertified j (read j refl)

    with_length-IsCertified :
        (o : Outcome ℤ)
        → length_header env.runtime.digit q.content_length ≡ o
        → q.path ≡ "/v1/compile"
        → IsCertifiedResult (with_length env m q trace o s)
    unfolding with_length
    with_length-IsCertified (value n) h e =
        if-elim IsCertifiedResult (is_too_large n) _ _ (λ _. λ k. absurd (omega (arith, k)))
          (λ small.
            subst
              (λ p.
                IsCertifiedResult
                  (with_body env m p trace (parse_body env.loads (body_text n q.read)) s))
              (sym e)
              (with_body-IsCertified (parse_body env.loads (body_text n q.read))
                λ j b. (n, h, small, b)))
    with_length-IsCertified (raised x) h e = tt
    with_length-IsCertified (returned f t) h e = tt

    admitted-IsCertified :
        (ok : Bool) → q.path ≡ "/v1/compile" → IsCertifiedResult (admitted env m q trace ok s)
    unfolding admitted
    admitted-IsCertified true e =
        with_length-IsCertified (length_header env.runtime.digit q.content_length) refl e
    admitted-IsCertified false e = λ k. absurd (omega (arith, k))

  behind_limiter-IsCertified :
      (trace : String) (s : State env) (o : Outcome (Bool × Limiter env.floats))
      → q.path ≡ "/v1/compile"
      → IsCertified s.gateway (behind_limiter env m q trace o s).0
  unfolding behind_limiter
  behind_limiter-IsCertified trace s (value (ok, l)) e =
      admitted-IsCertified trace (record s { limiter = l }) ok e
  behind_limiter-IsCertified trace s (raised x) e = tt
  behind_limiter-IsCertified trace s (returned f t) e = tt

-- If a request on `/v1/compile` has a response with status 200, then the field `ir` of its body is a
-- text, and the response holds, each under its name, the status OK and the SQL text, the canonical IR,
-- the manifest, the fingerprint, the complexity, the risk (LOW or MODERATE) and the parameters of the
-- engine's result for this text, which has status OK, under the schema and the policy that the gateway
-- has and in the dialect that a text under `dialect` names.
pub do_post-IsCertified :
    (env : Environment) (m : Moment env) (q : Request) (s : State env)
    → q.path ≡ "/v1/compile"
    → IsCertified env m q s.gateway (do_post env m q s).0
unfolding do_post
do_post-IsCertified env m q s e =
    behind_limiter-IsCertified env m q (or_else m.fresh_trace q.trace_header) s
      (allow env.floats s.limiter m.now (or_else q.address q.client_header) env.cost) e

-- If a request on `/v1/compile` has a response with status 200, then the field `ir` of its body is a
-- text that has a plan, and the plan's from table and every joined table are declared in the gateway's
-- schema and allowed by its policy.
pub do_post-SourcePermitted :
    (env : Environment) (m : Moment env) (q : Request) (s : State env) (r : Response)
    → q.path ≡ "/v1/compile"
    → (do_post env m q s).0 ≡ value r
    → r.status ≡ 200
    → (ir : String) × (d : Dialect) × (plan : Plan) × IsAsked env q ir d
      × (plan_of env.runtime
            (schema_or_empty s.gateway.schema)
            (policy_or_default s.gateway.policy)
            ir
          ≡ value plan)
      × All
          (SourcePermitted env.runtime
            (schema_or_empty s.gateway.schema)
            (policy_or_default s.gateway.policy))
          (from_source env.runtime
              (schema_or_empty s.gateway.schema)
              (policy_or_default s.gateway.policy)
              plan
            ∷ map source_of plan.joins)
do_post-SourcePermitted env m q s r e h k =
    let (ir, d, asked, ok, carries) =
      subst (IsCertified env m q s.gateway) h (do_post-IsCertified env m q s e) k in
    let (plan, e1, sources) = tables_permitted env.runtime _ _ d ir ok in
    (ir, d, plan, asked, e1, sources)
