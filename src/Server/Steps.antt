-- ===== src/Server/Steps.antt =====
-- tools/server.py: `do_POST` makes the steps of Server/Relation.
use mathlib.Core.Path.{subst}
use nlsqlc.Base.{
  String, Bool, true, false, not, ◌||◌, ◌≡◌, refl, ◌⊎◌, inl, inr, arith, ◌==◌, if◌then◌else◌,
  if-elim, Bool-cases, eq_iff,
}
use nlsqlc.Base.Int.{ℤ}
use nlsqlc.Base.Outcome.{Outcome, value, raised, returned, ◌>>=◌, Status}
use nlsqlc.Catalog.{Dialect}
use nlsqlc.Engine.{PyCompileResult}
use nlsqlc.Explain.{Explanation}
use nlsqlc.Gateway.{Gateway, reload}
use nlsqlc.Limiter.{Limiter, allow}
use nlsqlc.Json.{Json, Fields, truthy, get_or, null}
use nlsqlc.Server.{
  Environment, State, Request, Moment, Response, or_else, compile, explain, diff_json,
}
use nlsqlc.Server.Reads.{IsRead, NamesDialect, requested_dialect-NamesDialect}
use nlsqlc.Server.Rpc.{as_fields, handle_rpc, handle_rpc_item, handle_batch}
use nlsqlc.Server.Replies.{
  is_ok, length_header, is_too_large, compile_reply, validate_reply, question_reply, explain_reply,
}
use nlsqlc.Server.Post.{
  counted, post_compile, post_validate, post_question, post_explain, post_diff, ask, post_fields,
  with_fields, reads_fields, post_reload, route, with_body, with_length, admitted, do_post,
  behind_limiter, score_of, requested_dialect,
}
use nlsqlc.Server.Relation.{is_reload, IsPlain, is_counted, IsUntold, IsCompiled, Step}

IsPlain-bind {ℓ} :
    {A : Type ℓ} (m : Outcome A) (f : A → Outcome Response)
    → ((a : A) → IsPlain (f a))
    → IsPlain (m >>= f)
IsPlain-bind (value a) f h = h a
IsPlain-bind (raised e) f h = tt
IsPlain-bind (returned g t) f h = tt

validate_reply-IsPlain :
    (trace : String) (r : PyCompileResult) (st : Status)
    → IsPlain (value (validate_reply trace r st))
unfolding validate_reply
validate_reply-IsPlain trace r Status.ok = inl refl
validate_reply-IsPlain trace r (Status.failed f) = inr (inl refl)

explain_reply-IsPlain : (plan : Explanation) → IsPlain (value (explain_reply plan))
unfolding explain_reply
explain_reply-IsPlain plan = elim (Bool-cases (plan.status == "OK")) [
  | inl e ↦ rw e (inl refl)
  | inr e ↦ rw e (inr (inl refl))
]

compile_reply-status :
    (score : PyCompileResult → String) (duration trace : String) (r : PyCompileResult) (st : Status)
    → (compile_reply score duration trace r st).status ≡ (if is_ok st then 200 else 400)
unfolding compile_reply
compile_reply-status score duration trace r Status.ok = refl
compile_reply-status score duration trace r (Status.failed f) = refl

question_reply-status :
    (score : PyCompileResult → String) (trace : String) (r : PyCompileResult) (st : Status)
    → (question_reply score trace r st).status ≡ (if is_ok st then 200 else 400)
unfolding question_reply
question_reply-status score trace r Status.ok = refl
question_reply-status score trace r (Status.failed f) = refl

module _ (env : Environment) where
  handle_rpc-IsPlain : (g : Gateway) (j : Json) → IsPlain (handle_rpc env g j)
  unfolding handle_rpc
  handle_rpc-IsPlain g (Json.array items) = IsPlain-bind (handle_batch env g items) _ λ a. inl refl
  handle_rpc-IsPlain g (Json.object fs) = IsPlain-bind (handle_rpc_item env g fs) _ λ a. inl refl
  handle_rpc-IsPlain g Json.null = inr (inl refl)
  handle_rpc-IsPlain g (Json.boolean b) = inr (inl refl)
  handle_rpc-IsPlain g (Json.number n) = inr (inl refl)
  handle_rpc-IsPlain g (Json.float f) = inr (inl refl)
  handle_rpc-IsPlain g (Json.text t) = inr (inl refl)

  module _ (m : Moment env) (q : Request) (s : State env) where
    -- the answer and the state are a step
    abbrev IsStep : Outcome Response × State env → Type 0
    IsStep r = Step m q s r.0 r.1

    -- a path that is not counted
    elsewhere :
        (name : String) (o : Outcome Response)
        → is_counted name ≡ false
        → (q.path == name) ≡ true
        → is_counted q.path ≡ true
        → IsUntold o
    elsewhere name o f e h =
        let g = subst (λ p. is_counted p ≡ true) ((eq_iff q.path name).0 e) h in cc

    counted-IsStep :
        (fs : Fields) (answer : PyCompileResult → Response) (o : Outcome PyCompileResult)
        → IsRead env q (Json.object fs)
        → ((c : PyCompileResult) → o ≡ value c → IsCompiled env m q.path s.gateway fs c)
        → ((r : PyCompileResult) → (answer r).status ≡ (if is_ok r.status then 200 else 400))
        → IsStep (counted env m answer o s)
    unfolding counted
    counted-IsStep fs answer (value c) read is h =
        Step.recorded fs c (answer c) read (is c refl) (h c)
    counted-IsStep fs answer (raised e) read is h = Step.kept (raised e) tt (λ _. tt)
    counted-IsStep fs answer (returned f t) read is h = Step.kept (returned f t) tt (λ _. tt)

    module _ (trace : String) (d : Dialect) (fs : Fields) (read : IsRead env q (Json.object fs))
        (names : NamesDialect env fs d) where
      post_compile-IsStep :
          q.path ≡ "/v1/compile" → IsStep (post_compile env m trace d (get_or "ir" null fs) s)
      unfolding post_compile get_or
      post_compile-IsStep path =
          if-elim IsStep (not (truthy env.runtime (get_or "ir" null fs))) _ _
            (λ e. Step.kept _ (inr (inl refl)) (λ _. (_, refl, refl)))
            (λ e.
              counted-IsStep fs (λ r. compile_reply (score_of env m) m.duration_ms trace r r.status)
                (compile env.runtime s.gateway (get_or "ir" null fs) d) read
                (λ c k. (d, names, inl (path, k)))
                λ r. compile_reply-status (score_of env m) m.duration_ms trace r r.status)

      post_question-IsStep :
          q.path ≡ "/v1/question"
          → IsStep (post_question env m trace d (get_or "question" null fs) s)
      unfolding post_question get_or
      post_question-IsStep path =
          if-elim IsStep (not (truthy env.runtime (get_or "question" null fs))) _ _
            (λ e. Step.kept _ (inr (inl refl)) (λ _. (_, refl, refl)))
            (λ e.
              counted-IsStep fs (λ r. question_reply (score_of env m) trace r r.status)
                (ask env m s.gateway d (get_or "question" null fs)) read
                (λ c k. (d, names, inr (path, k)))
                λ r. question_reply-status (score_of env m) trace r r.status)

    post_validate-IsPlain :
        (trace : String) (d : Dialect) (ir : Json)
        → IsPlain (post_validate env m trace d ir s.gateway)
    unfolding post_validate
    post_validate-IsPlain trace d ir =
        if-elim IsPlain (not (truthy env.runtime ir)) _ _ (λ e. inr (inl refl))
          (λ e.
            IsPlain-bind (compile env.runtime s.gateway ir d) _
              λ r. validate_reply-IsPlain trace r r.status)

    post_explain-IsPlain :
        (trace : String) (d : Dialect) (ir : Json)
        → IsPlain (post_explain env m trace d ir s.gateway)
    unfolding post_explain
    post_explain-IsPlain trace d ir =
        if-elim IsPlain (not (truthy env.runtime ir)) _ _ (λ e. inr (inl refl))
          (λ e. IsPlain-bind (explain env.runtime s.gateway ir d) _ explain_reply-IsPlain)

    post_diff-IsPlain : (trace : String) (a b : Json) → IsPlain (post_diff env m trace a b)
    unfolding post_diff
    post_diff-IsPlain trace a b =
        if-elim IsPlain (not (truthy env.runtime a) || not (truthy env.runtime b)) _ _
          (λ e. inr (inl refl)) (λ e. IsPlain-bind (diff_json env.runtime a b) _ λ d. inl refl)

    post_fields-IsStep :
        (trace : String) (d : Dialect) (fs : Fields)
        → IsRead env q (Json.object fs)
        → NamesDialect env fs d
        → IsStep (post_fields env m q.path trace d fs s)
    unfolding post_fields
    post_fields-IsStep trace d fs read names =
        if-elim IsStep (q.path == "/v1/compile") _ _
          (λ e. post_compile-IsStep trace d fs read names ((eq_iff q.path "/v1/compile").0 e))
          λ not_compile.
            if-elim IsStep (q.path == "/v1/validate") _ _
              (λ e.
                Step.kept _ (post_validate-IsPlain trace d (get_or "ir" null fs))
                  (elsewhere "/v1/validate" _ refl e))
              λ _.
                if-elim IsStep (q.path == "/v1/question") _ _
                  (λ e.
                    post_question-IsStep trace d fs read names ((eq_iff q.path "/v1/question").0 e))
                  λ not_question.
                    if-elim IsStep (q.path == "/v1/explain") _ _
                      (λ e.
                        Step.kept _ (post_explain-IsPlain trace d (get_or "ir" null fs))
                          (elsewhere "/v1/explain" _ refl e))
                      (λ _.
                        Step.kept _
                          (post_diff-IsPlain trace (get_or "ir1" null fs) (get_or "ir2" null fs))
                          (λ h. absurd (neither not_compile not_question h)))
      where
        neither : {a b : Bool} → a ≡ false → b ≡ false → (a || b) ≡ true → ⊥
        neither e f h = ground arith

    with_fields-IsStep :
        (trace : String) (j : Json)
        → IsRead env q j
        → IsStep (with_fields env m q.path trace j (as_fields j) s)
    unfolding with_fields as_fields
    with_fields-IsStep trace (Json.object fs) read =
        post_fields-IsStep trace (requested_dialect env m (Json.object fs)) fs read
          (requested_dialect-NamesDialect env m fs)
    with_fields-IsStep trace Json.null read = Step.kept _ tt (λ _. tt)
    with_fields-IsStep trace (Json.boolean b) read = Step.kept _ tt (λ _. tt)
    with_fields-IsStep trace (Json.number n) read = Step.kept _ tt (λ _. tt)
    with_fields-IsStep trace (Json.float f) read = Step.kept _ tt (λ _. tt)
    with_fields-IsStep trace (Json.text t) read = Step.kept _ tt (λ _. tt)
    with_fields-IsStep trace (Json.array vs) read = Step.kept _ tt (λ _. tt)

    post_reload-IsStep :
        (trace : String) → is_reload q.path ≡ true → IsStep (post_reload env m trace s)
    unfolding post_reload
    post_reload-IsStep trace e =
        Step.reloaded _ e (IsPlain-bind (reload m.schema_file s.gateway).0 _ λ u. inl refl)

    route-IsStep :
        (trace : String) (j : Json) → IsRead env q j → IsStep (route env m q.path trace j s)
    unfolding route get_or
    route-IsStep trace j read =
        if-elim IsStep (is_reload q.path) _ _ (post_reload-IsStep trace) λ _.
          if-elim IsStep (reads_fields env m q.path) _ _ (λ _. with_fields-IsStep trace j read)
            λ _.
              if-elim IsStep (q.path == "/rpc") _ _
                (λ e. Step.kept _ (handle_rpc-IsPlain s.gateway j) (elsewhere "/rpc" _ refl e))
                (λ _. Step.kept _ (inr (inr (inl refl))) (λ _. (_, refl, refl)))

    with_body-IsStep :
        (trace : String) (b : String ⊎ Json)
        → ((j : Json) → b ≡ inr j → IsRead env q j)
        → IsStep (with_body env m q.path trace b s)
    unfolding with_body get_or
    with_body-IsStep trace (inl message) read = Step.kept _ (inr (inl refl)) (λ _. (_, refl, refl))
    with_body-IsStep trace (inr j) read = route-IsStep trace j (read j refl)

    with_length-IsStep :
        (trace : String) (o : Outcome ℤ)
        → length_header env.runtime.digit q.content_length ≡ o
        → IsStep (with_length env m q trace o s)
    unfolding with_length get_or
    with_length-IsStep trace (value n) h =
        if-elim IsStep (is_too_large n) _ _
          (λ _. Step.kept _ (inr (inr (inr (inl refl)))) (λ _. (_, refl, refl)))
          (λ small. with_body-IsStep trace _ λ j b. (n, h, small, b))
    with_length-IsStep trace (raised e) h = Step.kept _ tt (λ _. tt)
    with_length-IsStep trace (returned f t) h = Step.kept _ tt (λ _. tt)

    admitted-IsStep : (trace : String) (ok : Bool) → IsStep (admitted env m q trace ok s)
    unfolding admitted
    admitted-IsStep trace true =
        with_length-IsStep trace (length_header env.runtime.digit q.content_length) refl
    admitted-IsStep trace false = Step.limited _ refl

  -- The limiter behind a call of `allow`: an exception leaves it as it was.
  abbrev pub limiter_after :
      Limiter env.floats → Outcome (Bool × Limiter env.floats) → Limiter env.floats
  limiter_after l (value r) = r.1
  limiter_after l (raised e) = l
  limiter_after l (returned f t) = l

  behind_limiter-Step :
      (m : Moment env) (q : Request) (s : State env) (trace : String)
      (o : Outcome (Bool × Limiter env.floats))
      → Step m q
          (record s { limiter = limiter_after s.limiter o })
          (behind_limiter env m q trace o s).0
          (behind_limiter env m q trace o s).1
  unfolding behind_limiter
  behind_limiter-Step m q s trace (value (ok, l)) =
      admitted-IsStep m q (record s { limiter = l }) trace ok
  behind_limiter-Step m q s trace (raised e) = Step.kept _ tt (λ _. tt)
  behind_limiter-Step m q s trace (returned f t) = Step.kept _ tt (λ _. tt)

  -- A POST request takes the state with the limiter of its `allow` by one step. It is refused with
  -- 429 and counted as refused. Or, on `/v1/compile` and `/v1/question` only, the text or the question
  -- in its body is compiled, and the request is answered with 200 and counted as a success if the
  -- result's status is OK, and else answered with 400 and counted as a failure. Or it reloads the
  -- gateway, on the two reload paths only. Or it changes nothing and is answered with 200, 400, 404 or
  -- 413, or not at all; on `/v1/compile` and `/v1/question` such an answer has no `status` field.
  pub do_post-Step :
      (m : Moment env) (q : Request) (s : State env)
      → Step m q
          (record s {
            limiter =
                limiter_after s.limiter
                  (allow env.floats s.limiter m.now (or_else q.address q.client_header) env.cost);
          })
          (do_post env m q s).0
          (do_post env m q s).1
  unfolding do_post
  do_post-Step m q s =
      behind_limiter-Step m q s (or_else m.fresh_trace q.trace_header)
        (allow env.floats s.limiter m.now (or_else q.address q.client_header) env.cost)
