-- ===== src/Engine/Safety.antt =====
-- What a compilation with status OK guarantees.
use nlsqlc.Base.{
  ℕ, String, ◌≡◌, refl, sym, ap, List, [], ◌∷◌, none, some, Option, All, All-intro, Elem, map, ◌&&◌,
  false,
}
use mathlib.Core.Path.{subst}
use nlsqlc.Base.Outcome.{value, Status, guard-eq-value}
use nlsqlc.Runtime.{Runtime}
use nlsqlc.Sexpr.{Atom}
use nlsqlc.Catalog.{
  Dialect, TableKey, PySchema, PyPolicy, ColumnKey, ColumnDef, tenant_rule, is_denied,
}
use nlsqlc.Base.Text.{contains}
use nlsqlc.Action.{Param}
use nlsqlc.Action.Extending.{Numbered, Extended, Extends}
use nlsqlc.Plan.{Plan}
use nlsqlc.Plan.Tables.{SourcePermitted, from_source, source_of, resolve-PlanResolved}
use nlsqlc.Body.Rule.{IsExpected, emit_body-Extending}
use nlsqlc.Body.Where.{AmongPieces, emit_body-AmongPieces}
use nlsqlc.Engine.{PyCompileResult, check_denied, success, env_of, compile_ir_engine}
use nlsqlc.Engine.Run.{Run, compile-Run, plan_of, plan_of-Run}

module _ (rt : Runtime) (schema : PySchema) (policy : PyPolicy) (dialect : Dialect) where
  abbrev compiled : String → PyCompileResult
  compiled = compile_ir_engine rt schema policy dialect

  success-fields :
      {ir : String} {r : PyCompileResult} (run : Run rt schema policy dialect ir r)
      → (r.sql ≡ run.body.sql) × (r.params ≡ run.params)
  unfolding success
  success-fields run = (
    ap (λ (r : PyCompileResult). r.sql) run.result,
    ap (λ (r : PyCompileResult). r.params) run.result,
  )

  -- What the tenant rule of a source's table asks of the SQL text and the parameters.
  abbrev pub Predicated : Plan → PyCompileResult → Atom × TableKey → Option (String × ℕ) → Type 0
  Predicated plan r source none = Unit
  Predicated plan r source (some rule) =
      AmongPieces (env_of rt schema policy dialect plan) policy source rule r.sql r.params

  abbrev pub IsPredicated : Plan → PyCompileResult → Atom × TableKey → Type 0
  IsPredicated plan r source = Predicated plan r source (tenant_rule policy source.1)

  Predicated-Run :
      {ir : String} {r : PyCompileResult} (run : Run rt schema policy dialect ir r)
      (source : Atom × TableKey) (o : Option (String × ℕ))
      → Elem source run.plan.sources
      → tenant_rule policy source.1 ≡ o
      → Predicated run.plan r source o
  Predicated-Run run source none m e = tt
  Predicated-Run run source (some rule) m e =
      let (sql, params) = success-fields run in
      subst
        (λ (p : String × List Param).
          AmongPieces (env_of rt schema policy dialect run.plan) policy source rule p.0 p.1)
        (λ i. (sym sql i, sym params i))
        (emit_body-AmongPieces (env_of rt schema policy dialect run.plan) policy _ run.plan
          run.emitted source rule m e)

  -- If the status is OK, then the query has a plan, and for each source of the plan whose table has
  -- a tenant rule, the SQL text has a part that is "WHERE " and texts joined by " AND ", of which one
  -- is `alias.column = placeholder`; the placeholder's parameter is bound to the runtime's tenant by
  -- the policy, and the rule's column is a declared tenant key of an agreeing type. This is about the
  -- text: the other texts are the query's own, and may hold a comment or an OR.
  pub tenant_predicates :
      (ir : String)
      → (compiled ir).status ≡ Status.ok
      → (plan : Plan) × (plan_of rt schema policy ir ≡ value plan)
        × All (IsPredicated plan (compiled ir)) plan.sources
  tenant_predicates ir h =
      let run = compile-Run rt schema policy dialect ir h in
      (
        run.plan,
        plan_of-Run rt schema policy dialect run,
        All-intro _ run.plan.sources λ source m. Predicated-Run run source _ m refl,
      )

  -- If the status is OK, then the query has a plan, and its "from" table and every joined table
  -- are declared in the schema and allowed by the policy.
  pub tables_permitted :
      (ir : String)
      → (compiled ir).status ≡ Status.ok
      → (plan : Plan) × (plan_of rt schema policy ir ≡ value plan)
        × All
            (SourcePermitted rt schema policy)
            (from_source rt schema policy plan ∷ map source_of plan.joins)
  tables_permitted ir h =
      let run = compile-Run rt schema policy dialect ir h in
      (
        run.plan,
        plan_of-Run rt schema policy dialect run,
        (resolve-PlanResolved rt schema policy _ run.resolved).1,
      )

  -- If the status is OK, the positions of the bound parameters are 1, 2, 3 and so on, and each is
  -- a parameter of the query's text or one that the policy binds to the runtime's tenant.
  pub params-Numbered :
      (ir : String)
      → (compiled ir).status ≡ Status.ok
      → Numbered 0 (compiled ir).params × All (IsExpected policy) (compiled ir).params
  params-Numbered ir h =
      let run = compile-Run rt schema policy dialect ir h in
      let env = env_of rt schema policy dialect run.plan in
      let x : Extends (IsExpected policy) [] run.params =
        subst (Extended (IsExpected policy) []) run.emitted
          (emit_body-Extending env policy _ run.plan []) in
      subst (λ ps. Numbered 0 ps × All (IsExpected policy) ps) {x = x.new}
        (cc ((success-fields run).1, x.split)) (x.numbered, x.every)

  -- The query's text does not hold both the column's name and its table's name, or the policy does
  -- not deny the column.
  abbrev pub IsUndenied : String → ColumnKey × ColumnDef → Type 0
  IsUndenied ir (k, d) =
      (is_denied policy k && (contains k.column ir && contains k.table ir)) ≡ false

  check_denied-IsUndenied :
      (ir : String) (cs : List (ColumnKey × ColumnDef))
      → check_denied policy ir cs ≡ value tt
      → All (IsUndenied ir) cs
  unfolding check_denied
  check_denied-IsUndenied ir [] h = tt
  check_denied-IsUndenied ir ((k, d) ∷ cs) h =
      let (e, rest) = guard-eq-value _ _ _ (check_denied policy ir cs) h in
      (e, check_denied-IsUndenied ir cs rest)

  -- If the status is OK, then of no column of the schema that the policy denies the name and the
  -- table's name both occur in the query's text.
  pub columns_denied :
      (ir : String) → (compiled ir).status ≡ Status.ok → All (IsUndenied ir) schema.columns
  columns_denied ir h =
      check_denied-IsUndenied ir schema.columns (compile-Run rt schema policy dialect ir h).undenied
