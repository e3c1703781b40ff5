-- ===== src/Agent/Bound.antt =====
-- The tenant predicates in the text of the demonstration's statement, and the arguments bound to them.
use mathlib.Core.Path.{subst}
use nlsqlc.Base.{
  ℕ, suc, ◌+◌, String, ◌<>◌, Bool, true, false, ◌||◌, ◌≡◌, refl, sym, ap, ◌∙◌, arith, Option, none,
  some, List, [], ◌∷◌, map, All, Elem, inl, inr, if◌then◌else◌,
}
use nlsqlc.Base.Dict
use nlsqlc.Base.Text.{join}
use nlsqlc.Base.Outcome.{Outcome, value, raised, returned, Status, Failure, >>=-eq-value}
use nlsqlc.Runtime.{Runtime}
use nlsqlc.Sexpr.{Atom, parse_sexpr}
use nlsqlc.Optimizer.{optimize}
use nlsqlc.Catalog.{sqlite, TableKey, tenant_rule, is_allowed, table_eq}
use nlsqlc.Action.{Param}
use nlsqlc.Action.Extending.{Numbered}
use nlsqlc.Plan.{Plan, check_root}
use nlsqlc.Plan.Tables.{SourcePermitted, resolve-PlanResolved}
use nlsqlc.Body.{tenant_text}
use nlsqlc.Body.Where.{AmongPieces}
use nlsqlc.Engine.{PyCompileResult, env_of, compile_ir_engine}
use nlsqlc.Engine.Run.{plan_of}
use nlsqlc.Engine.Safety.{Predicated, IsPredicated, tenant_predicates, params-Numbered}
use nlsqlc.Api.{compile_ir}
use nlsqlc.Agent.{
  demo_schema, demo_policy, orders, customers, Statement, Answer, rejected, asked, bound_arg,
  bound_args, ask, answer, execute_agent_query,
}

-- The element at a place, counted from 0.
abbrev pub nth : {A : Type 0} → ℕ → List A → Option A
nth n [] = none
nth ℕ.zero (x ∷ xs) = some x
nth (suc n) (x ∷ xs) = nth n xs

nth-map :
    {A B : Type 0} (f : A → B) (i : ℕ) (xs : List A) {a : A}
    → nth i xs ≡ some a
    → nth i (map f xs) ≡ some (f a)
nth-map f i [] h = cc
nth-map f ℕ.zero (x ∷ xs) h = ground arith
nth-map f (suc i) (x ∷ xs) h = nth-map f i xs h

-- A parameter stands at the place that its position counts.
nth-Numbered :
    (n : ℕ) (ps : List Param) (p : Param)
    → Numbered n ps
    → Elem p ps
    → (i : ℕ) × (p.position ≡ suc (n + i)) × (nth i ps ≡ some p)
nth-Numbered n [] p h m = absurd m
nth-Numbered n (q ∷ ps) p h (inl e) =
    (0, ap (λ (r : Param). r.position) e ∙ h.0 ∙ omega arith, ap some (sym e))
nth-Numbered n (q ∷ ps) p h (inr m) =
    let (i, e, k) = nth-Numbered (suc n) ps p h.1 m in (suc i, omega (arith, e), k)

abbrev pub rule : String × ℕ
rule = ("tenant_id", 9)

-- Every table that the policy allows has its rule.
tenant_rule-demo :
    (t : TableKey) → is_allowed demo_policy t ≡ true → tenant_rule demo_policy t ≡ some rule
unfolding demo_policy is_allowed tenant_rule table_eq Dict.member Dict.lookup Dict.insert
tenant_rule-demo t h = go (table_eq t orders) (table_eq t customers) h
  where
    go :
        (a b : Bool)
        → (a || (b || false)) ≡ true
        → (if a then some rule else if b then some rule else none) ≡ some rule
    go true b h = refl
    go false true h = refl
    go false false h = cc

All-zip :
    {A : Type 0} {P Q R : A → Type 0}
    → ((a : A) → P a → Q a → R a)
    → (xs : List A) → All P xs
    → All Q xs
    → All R xs
All-zip f [] h k = tt
All-zip f (x ∷ xs) h k = (f x h.0 k.0, All-zip f xs h.1 k.1)

module _ (rt : Runtime) (tenant : String) where
  -- The predicate of a source is one of the texts that stand joined by " AND " behind "WHERE ", and the
  -- argument with the number of its placeholder is the tenant. The other texts may hold anything.
  pub record IsTenantBound (plan : Plan) (statement : Statement) (source : Atom × TableKey)
      : Type 0 where
    pub index : ℕ
    pub pieces : List String
    pub before : String
    pub after : String
    pub text : statement.sql ≡ before <> ("WHERE " <> join " AND " pieces) <> after
    pub predicate :
        Elem
          (tenant_text
            (env_of rt demo_schema demo_policy sqlite plan)
            demo_policy
            source.0
            "tenant_id"
            (suc index))
          pieces
    pub argument : nth index statement.args ≡ some tenant

  abbrev compiled : String → PyCompileResult
  compiled ir = compile_ir_engine rt demo_schema demo_policy sqlite ir

  module _ (ir : String) (ok : (compiled ir).status ≡ Status.ok) where
    abbrev statement_of : Statement
    statement_of = record { sql = (compiled ir).sql; args = bound_args tenant (compiled ir).params }

    AmongPieces-IsTenantBound :
        (plan : Plan) (source : Atom × TableKey)
        → AmongPieces
            (env_of rt demo_schema demo_policy sqlite plan)
            demo_policy
            source
            rule
            (compiled ir).sql
            (compiled ir).params
        → IsTenantBound plan statement_of source
    unfolding bound_args
    AmongPieces-IsTenantBound plan source w =
        let (i, e, k) =
          nth-Numbered 0 _ _ (params-Numbered rt demo_schema demo_policy sqlite ir ok).0 w.bound in
        record {
          index = i;
          pieces = w.pieces;
          before = w.before;
          after = w.after;
          text = w.text;
          predicate =
              subst
                (λ n.
                  Elem
                    (tenant_text (env_of rt demo_schema demo_policy sqlite plan) demo_policy
                      source.0 "tenant_id" n)
                    w.pieces)
                (omega (arith, e)) w.predicate;
          argument = nth-map (λ (p : Param). bound_arg tenant p.source) i _ k;
        }

    Predicated-IsTenantBound :
        (plan : Plan) (source : Atom × TableKey)
        → SourcePermitted rt demo_schema demo_policy source
        → IsPredicated rt demo_schema demo_policy sqlite plan (compiled ir) source
        → IsTenantBound plan statement_of source
    Predicated-IsTenantBound plan source p h = AmongPieces-IsTenantBound plan source (
        subst (Predicated rt demo_schema demo_policy sqlite plan (compiled ir) source)
          (tenant_rule-demo source.1 p.1) h)

  sources_permitted :
      (ir : String) (plan : Plan)
      → plan_of rt demo_schema demo_policy ir ≡ value plan
      → All (SourcePermitted rt demo_schema demo_policy) plan.sources
  sources_permitted ir plan h =
      let (raw, h1, k1) = >>=-eq-value (parse_sexpr ir) _ h in
      let (tree, h2, k2) = >>=-eq-value (optimize rt raw) _ k1 in
      let (items, h3, k3) = >>=-eq-value (check_root tree) _ k2 in
      (resolve-PlanResolved rt demo_schema demo_policy _ k3).0

  module _ (database : Statement → Outcome (List String)) (ir : String) where
    -- What the call of `execute_agent_query` gives.
    abbrev pub IsSound : Outcome Answer → Type 0
    IsSound (value (rejected error)) =
        (f : Failure) × ((compiled ir).status ≡ Status.failed f) × (error ≡ (compiled ir).error)
    IsSound (value (asked statement rows)) =
        (plan : Plan) × (plan_of rt demo_schema demo_policy ir ≡ value plan)
        × All (IsTenantBound plan statement) plan.sources
        × (rows ≡ database statement)
    IsSound (raised e) = ⊥
    IsSound (returned f m) = ⊥

    predicates_bound :
        (compiled ir).status ≡ Status.ok → IsSound (value (ask rt database tenant (compiled ir)))
    unfolding ask
    predicates_bound ok =
        let (plan, e, predicated) = tenant_predicates rt demo_schema demo_policy sqlite ir ok in
        (
          plan,
          e,
          All-zip (Predicated-IsTenantBound ir ok plan) plan.sources (sources_permitted ir plan e)
              predicated,
          refl,
        )

    -- Whatever the query is, the call either gives the compiler's error text and asks the database
    -- nothing, or it hands the database one statement: the query has a plan, and the
    -- statement's text has a part that is "WHERE " and texts joined by " AND "; for every source of the
    -- plan, `alias.tenant_id = ?k` is one of these texts, where the k-th argument is the tenant of the
    -- session. This is about the text: another of these texts may hold a comment or an OR.
    pub execute_agent_query-IsSound :
        IsSound (execute_agent_query rt database demo_schema demo_policy ir tenant)
    unfolding execute_agent_query answer compile_ir
    execute_agent_query-IsSound = go (compiled ir).status refl
      where
        go :
            (s : Status)
            → (compiled ir).status ≡ s
            → IsSound (value (answer rt database tenant (compiled ir) s))
        go Status.ok e = predicates_bound e
        go (Status.failed f) e = (f, e, refl)
