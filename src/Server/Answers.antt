-- ===== src/Server/Answers.antt =====
-- tools/server.py: what any sequence of POST requests does to the gateway, the counters and the
-- limiter. The lock of each object makes its methods atomic; requests are served one by one here.
use mathlib.Core.Path.{subst}
use nlsqlc.Base.{
  ℕ, ◌+◌, Bool, true, false, ◌≡◌, refl, sym, ◌∙◌, inl, inr, List, [], ◌∷◌, if◌then◌else◌, eqb, All,
  arith,
}
use nlsqlc.Base.Outcome.{Outcome, value, raised, returned, Returns}
use nlsqlc.Limiter.{Limiter, allow}
use nlsqlc.Limiter.Clients.{FloatLaws, IsValid, allow-IsValid}
use nlsqlc.Metrics.{record_request, record_rate_limit}
use nlsqlc.Metrics.Counts.{IsConsistent, record_request-IsConsistent}
use nlsqlc.Server.{Environment, State, Request, Moment, Response, or_else}
use nlsqlc.Server.Post.{do_post}
use nlsqlc.Server.Replies.{is_ok}
use nlsqlc.Server.Relation.{Step, IsPlain, is_reload}
use nlsqlc.Server.Steps.{limiter_after, do_post-Step}

module _ (env : Environment) where
  -- The requests, each with its moment, one after the other; their answers, in order
  abbrev pub serve : List (Moment env × Request) → State env → List (Outcome Response) × State env
  serve [] s = ([], s)
  serve ((m, q) ∷ rest) s =
      let (o, t) = do_post env m q s in let (os, u) = serve rest t in (o ∷ os, u)

  Step-IsConsistent :
      {m : Moment env} {q : Request} {s t : State env} {o : Outcome Response}
      → Step m q s o t
      → IsConsistent s.metrics
      → IsConsistent t.metrics
  unfolding record_rate_limit
  Step-IsConsistent (Step.kept o p u) c = c
  Step-IsConsistent (Step.limited r e) c = record {
    counted = c.counted;
    bounded = c.bounded;
    full = c.full;
  }
  Step-IsConsistent (Step.recorded fs result r read is e) c = record_request-IsConsistent _ _ _ c
  Step-IsConsistent (Step.reloaded o e p) c = c

  Step-limiter :
      {m : Moment env} {q : Request} {s t : State env} {o : Outcome Response}
      → Step m q s o t
      → t.limiter ≡ s.limiter
  Step-limiter (Step.kept o p u) = refl
  Step-limiter (Step.limited r e) = refl
  Step-limiter (Step.recorded fs c r read is e) = refl
  Step-limiter (Step.reloaded o e p) = refl

  Step-gateway :
      {m : Moment env} {q : Request} {s t : State env} {o : Outcome Response}
      → Step m q s o t
      → is_reload q.path ≡ false
      → t.gateway ≡ s.gateway
  Step-gateway (Step.kept o p u) h = refl
  Step-gateway (Step.limited r e) h = refl
  Step-gateway (Step.recorded fs c r read is e) h = refl
  Step-gateway (Step.reloaded o e p) h = cc

  -- Requests on other paths than the two reload paths leave the gateway's schema and policy as they are,
  -- whatever they hold and however they end.
  pub serve-gateway :
      (rs : List (Moment env × Request)) (s : State env)
      → All (λ (r : Moment env × Request). is_reload r.1.path ≡ false) rs
      → (serve rs s).1.gateway ≡ s.gateway
  serve-gateway [] s h = refl
  serve-gateway ((m, q) ∷ rest) s h =
      serve-gateway rest (do_post env m q s).1 h.1 ∙ Step-gateway (do_post-Step env m q s) h.0

  -- 1 for a response with status 429
  abbrev pub refusal : Outcome Response → ℕ
  refusal (value r) = if eqb r.status 429 then 1 else 0
  refusal (raised e) = 0
  refusal (returned f t) = 0

  abbrev pub refusals : List (Outcome Response) → ℕ
  refusals [] = 0
  refusals (o ∷ os) = refusal o + refusals os

  plain-refusal : (o : Outcome Response) → IsPlain o → refusal o ≡ 0
  plain-refusal (value r) (inl e) = rw e refl
  plain-refusal (value r) (inr (inl e)) = rw e refl
  plain-refusal (value r) (inr (inr (inl e))) = rw e refl
  plain-refusal (value r) (inr (inr (inr (inl e)))) = rw e refl
  plain-refusal (value r) (inr (inr (inr (inr x)))) = elim x [ ]
  plain-refusal (raised e) p = refl
  plain-refusal (returned f t) p = refl

  recorded-refusal :
      (r : Response) (b : Bool) → r.status ≡ (if b then 200 else 400) → refusal (value r) ≡ 0
  recorded-refusal r true e = rw e refl
  recorded-refusal r false e = rw e refl

  Step-rate_limited :
      {m : Moment env} {q : Request} {s t : State env} {o : Outcome Response}
      → Step m q s o t
      → t.metrics.rate_limited_total ≡ s.metrics.rate_limited_total + refusal o
  unfolding record_rate_limit record_request
  Step-rate_limited (Step.kept o p u) = omega (arith, plain-refusal o p)
  Step-rate_limited (Step.limited r e) = rw e refl
  Step-rate_limited (Step.recorded fs c r read is e) =
      omega (arith, recorded-refusal r (is_ok c.status) e)
  Step-rate_limited (Step.reloaded o e p) = omega (arith, plain-refusal o p)

  -- `nlsql_rate_limited_total` grows by the number of responses with status 429.
  pub serve-rate_limited :
      (rs : List (Moment env × Request)) (s : State env)
      → (serve rs s).1.metrics.rate_limited_total
        ≡ s.metrics.rate_limited_total + refusals (serve rs s).0
  serve-rate_limited [] s = omega arith
  serve-rate_limited ((m, q) ∷ rest) s = omega (
    arith,
    serve-rate_limited rest (do_post env m q s).1,
    Step-rate_limited (do_post-Step env m q s),
  )

  -- The metrics are consistent, and so is the limiter.
  pub record IsSound (s : State env) : Type 0 where
    pub metrics : IsConsistent s.metrics
    pub limiter : IsValid env.floats s.limiter

  after-IsValid :
      (l : Limiter env.floats) (o : Outcome (Bool × Limiter env.floats))
      → Returns (λ (r : Bool × Limiter env.floats). IsValid env.floats r.1) o
      → IsValid env.floats (limiter_after env l o)
  after-IsValid l (value r) h = h
  after-IsValid l (raised e) h = absurd h
  after-IsValid l (returned f t) h = absurd h

  do_post-IsSound :
      FloatLaws env.floats
      → env.floats.lt env.cost env.floats.zero ≡ false
      → (m : Moment env) (q : Request) (s : State env) → IsSound s
      → IsSound (do_post env m q s).1
  do_post-IsSound laws p m q s h =
      let step = do_post-Step env m q s in
      record {
        metrics = Step-IsConsistent step h.metrics;
        limiter =
            subst (λ l. IsValid env.floats l) (sym (Step-limiter step))
              (after-IsValid s.limiter
                (allow env.floats s.limiter m.now (or_else q.address q.client_header) env.cost)
                (allow-IsValid env.floats laws s.limiter m.now _ env.cost p h.limiter));
      }

  -- From a state where this holds, any requests, whatever they hold and at whatever times, keep the
  -- counters consistent with one another, the latencies at most 10000, and every client's tokens at
  -- most the capacity, where the cost of a request is not below zero and floats obey FloatLaws.
  pub serve-IsSound :
      FloatLaws env.floats
      → env.floats.lt env.cost env.floats.zero ≡ false
      → (rs : List (Moment env × Request)) (s : State env) → IsSound s
      → IsSound (serve rs s).1
  serve-IsSound laws p [] s h = h
  serve-IsSound laws p ((m, q) ∷ rest) s h =
      serve-IsSound laws p rest (do_post env m q s).1 (do_post-IsSound laws p m q s h)
