-- ===== src/Engine/Run.antt =====
-- A compilation that succeeds, taken apart into its stages.
use nlsqlc.Base.{String, List, [], ◌≡◌, refl, sym}
use nlsqlc.Base.Outcome.{
  Outcome, value, raised, returned, Status, ◌>>=◌, >>=-eq-value, value-injective,
}
use nlsqlc.Runtime.{Runtime}
use nlsqlc.Sexpr.{Node, parse_sexpr}
use nlsqlc.Optimizer.{optimize}
use nlsqlc.Catalog.{Dialect, PySchema, PyPolicy}
use nlsqlc.Action.{Param}
use nlsqlc.Emit.{Env}
use nlsqlc.Plan.{no_clauses, Plan, check_root, scan_clauses, resolve}
use nlsqlc.Body.{Body, emit_body}
use nlsqlc.Engine.{
  PyCompileResult, check_denied, success, handle, env_of, compile_clauses, compile_tree,
  compile_text, compile_ir_engine,
}

-- The plan of a query: the stages up to the resolved tables.
abbrev pub plan_of : Runtime → PySchema → PyPolicy → String → Outcome Plan
plan_of rt schema policy ir = parse_sexpr ir >>= λ raw. optimize rt raw >>= λ tree.
    check_root tree >>= λ items. resolve rt schema policy (scan_clauses items no_clauses)

module _ (rt : Runtime) (schema : PySchema) (policy : PyPolicy) (dialect : Dialect) where
  abbrev env : Plan → Env
  env = env_of rt schema policy dialect

  -- The stages of a compilation and their values.
  pub record Run (ir : String) (r : PyCompileResult) : Type 0 where
    pub raw : Node
    pub tree : Node
    pub items : List Node
    pub plan : Plan
    pub body : Body
    pub params : List Param
    pub parsed : parse_sexpr ir ≡ value raw
    pub optimized : optimize rt raw ≡ value tree
    pub rooted : check_root tree ≡ value items
    pub resolved : resolve rt schema policy (scan_clauses items no_clauses) ≡ value plan
    pub undenied : check_denied policy ir schema.columns ≡ value tt
    pub emitted :
        emit_body (env plan) policy (scan_clauses items no_clauses) plan [] ≡ value (body, params)
    pub result : r ≡ success dialect tree plan (body, params)

  handle-ok : (o : Outcome PyCompileResult) → (handle o).status ≡ Status.ok → o ≡ value (handle o)
  unfolding handle
  handle-ok (value r) h = refl
  handle-ok (raised e) h = cc
  handle-ok (returned s m) h = cc

  text-Run :
      (ir : String) {r : PyCompileResult}
      → compile_text rt schema policy dialect ir ≡ value r
      → Run ir r
  unfolding compile_text compile_tree compile_clauses
  text-Run ir h =
      let (raw, h1, k1) = >>=-eq-value (parse_sexpr ir) _ h in
      let (tree, h2, k2) = >>=-eq-value (optimize rt raw) _ k1 in
      let (items, h3, k3) = >>=-eq-value (check_root tree) _ k2 in
      let (plan, h4, k4) =
        >>=-eq-value (resolve rt schema policy (scan_clauses items no_clauses)) _ k3 in
      let (passed, h5, k5) = >>=-eq-value (check_denied policy ir schema.columns) _ k4 in
      let (body, h6, k6) =
        >>=-eq-value (emit_body (env plan) policy (scan_clauses items no_clauses) plan []) _ k5 in
      record {
        raw = raw;
        tree = tree;
        items = items;
        plan = plan;
        body = body.0;
        params = body.1;
        parsed = h1;
        optimized = h2;
        rooted = h3;
        resolved = h4;
        undenied = h5;
        emitted = h6;
        result = sym (value-injective _ _ k6);
      }

  -- A result with status OK comes from a run through all stages.
  pub compile-Run :
      (ir : String)
      → (compile_ir_engine rt schema policy dialect ir).status ≡ Status.ok
      → Run ir (compile_ir_engine rt schema policy dialect ir)
  unfolding compile_ir_engine
  compile-Run ir h = text-Run ir (handle-ok _ h)

  pub plan_of-Run :
      {ir : String} {r : PyCompileResult} (run : Run ir r)
      → plan_of rt schema policy ir ≡ value run.plan
  plan_of-Run run = rw (run.parsed, run.optimized, run.rooted, run.resolved) refl
