-- ===== src/Engine/Figures.antt =====
-- The risk, the complexity and the manifest of a compilation with status OK.
use mathlib.Core.Path.{subst}
use nlsqlc.Base.{
  ℕ, ◌+◌, ◌<◌, String, ◌<>◌, Bool, true, false, ◌≡◌, refl, sym, ap, ◌∙◌, length, List, [], ◌∷◌,
  if◌then◌else◌, eqb, arith,
}
use text.Mathlib.TextLemmas.{append_assoc}
use nlsqlc.Base.Text.{decimal}
use nlsqlc.Base.Outcome.{Outcome, value, Status, ◌>>=◌}
use nlsqlc.Runtime.{Runtime}
use nlsqlc.Sexpr.{parse_sexpr}
use nlsqlc.Optimizer.{optimize}
use nlsqlc.Catalog.{Dialect, dialect_name, Risk, low, moderate, PySchema, PyPolicy}
use nlsqlc.Plan.{Clauses, no_clauses, Plan, check_root, scan_clauses, resolve}
use nlsqlc.Body.{select_items}
use nlsqlc.Body.Counts.{ruled_sources, emit_body-counts}
use nlsqlc.Engine.{
  PyCompileResult, risk_of, risk_name, manifest_text, complexity_of, success, env_of,
  compile_ir_engine,
}
use nlsqlc.Engine.Run.{Run, compile-Run}

-- The clauses of a query
abbrev pub clauses_of : Runtime → String → Outcome Clauses
clauses_of rt ir = parse_sexpr ir >>= λ raw.
    optimize rt raw >>= λ tree. check_root tree >>= λ items. value (scan_clauses items no_clauses)

-- The text of these lines, each ended by a line feed
abbrev pub lines : List String → String
lines [] = ""
lines (x ∷ xs) = x <> ("\n" <> lines xs)

-- A line feed that stands in one text with the label behind it
broken :
    (label x : String) {t u : String}
    → t ≡ u
    → ("\n" <> label) <> (x <> t) ≡ "\n" <> ((label <> x) <> u)
broken label x {t} e = simp append_assoc (ap (λ u. "\n" <> (label <> (x <> u))) e)

-- The words of the manifest for a risk
abbrev pub IsNamed : Risk → String → Type 0
IsNamed r word = (r ≡ low → word ≡ "LOW") × (r ≡ moderate → word ≡ "MODERATE")

risk_of-IsNamed : (n : ℕ) → IsNamed (risk_of n) (risk_name n)
unfolding risk_of risk_name
risk_of-IsNamed n = go (eqb n 0)
  where
    go : (b : Bool) → IsNamed (if b then moderate else low) (if b then "MODERATE" else "LOW")
    go true = (λ e. cc, λ e. refl)
    go false = (λ e. refl, λ e. cc)

module _ (rt : Runtime) (schema : PySchema) (policy : PyPolicy) (dialect : Dialect) where
  -- What the figures of a result say of the clauses and the plan of its query.
  pub record AreExact (c : Clauses) (plan : Plan) (r : PyCompileResult) : Type 0 where
    pub complexity :
        r.complexity
        ≡ 1 + length plan.joins + length (select_items c.select) + ruled_sources policy plan.sources
    pub unruled : ruled_sources policy plan.sources ≡ 0 → r.risk ≡ moderate
    pub ruled : 0 < ruled_sources policy plan.sources → r.risk ≡ low
    pub word : String
    pub named : IsNamed r.risk word
    pub manifest :
        r.manifest
        ≡ lines (
            "version=2"
            ∷ ("dialect=" <> dialect_name dialect)
            ∷ ("parameters=" <> decimal (length r.params))
            ∷ ("tenant_predicates=" <> decimal (ruled_sources policy plan.sources))
            ∷ ("complexity=" <> decimal r.complexity)
            ∷ ("risk=" <> word)
            ∷ [])

  risk_of-unruled : (n : ℕ) → n ≡ 0 → risk_of n ≡ moderate
  unfolding risk_of
  risk_of-unruled n e = rw e refl

  risk_of-ruled : (n : ℕ) → 0 < n → risk_of n ≡ low
  unfolding risk_of
  risk_of-ruled n h = ground arith

  manifest_text-lines :
      (params tenants complexity : ℕ)
      → manifest_text dialect params tenants complexity
        ≡ lines (
            "version=2"
            ∷ ("dialect=" <> dialect_name dialect)
            ∷ ("parameters=" <> decimal params)
            ∷ ("tenant_predicates=" <> decimal tenants)
            ∷ ("complexity=" <> decimal complexity)
            ∷ ("risk=" <> risk_name tenants)
            ∷ [])
  unfolding manifest_text
  manifest_text-lines params tenants complexity =
      ap (λ t. "version=2\ndialect=" <> (dialect_name dialect <> t))
        (broken "parameters=" (decimal params) (
          broken "tenant_predicates=" (decimal tenants) (
            broken "complexity=" (decimal complexity)
              (broken "risk=" (risk_name tenants) {t = "\n"} refl))))
      ∙ append_assoc "version=2" "\ndialect=" _
      ∙ ap (λ t. "version=2" <> t) (broken "dialect=" (dialect_name dialect) refl)

  AreExact-Run :
      {ir : String} {r : PyCompileResult} (run : Run rt schema policy dialect ir r)
      → AreExact (scan_clauses run.items no_clauses) run.plan r
  unfolding success complexity_of
  AreExact-Run {r} run =
      let (fields, tenants) =
        emit_body-counts (env_of rt schema policy dialect run.plan) policy _ run.plan run.emitted in
      let e = run.result in
      let complexity = ap (λ (q : PyCompileResult). q.complexity) e in
      let params = ap (λ (q : PyCompileResult). q.params) e in
      let risk = ap (λ (q : PyCompileResult). q.risk) e ∙ ap risk_of tenants in
      record {
        complexity = complexity ∙ (λ i. 1 + length run.plan.joins + fields i + tenants i);
        unruled = λ h. risk ∙ risk_of-unruled _ h;
        ruled = λ h. risk ∙ risk_of-ruled _ h;
        word = risk_name (ruled_sources policy run.plan.sources);
        named =
            subst (λ x. IsNamed x (risk_name (ruled_sources policy run.plan.sources))) (sym risk)
              (risk_of-IsNamed (ruled_sources policy run.plan.sources));
        manifest =
            ap (λ (q : PyCompileResult). q.manifest) e
            ∙ (λ i. manifest_text dialect (length (sym params i)) (tenants i) (sym complexity i))
            ∙ manifest_text-lines (length r.params) _ r.complexity;
      }

  -- If the status is OK, then the query has clauses and a plan, and the complexity is the number of
  -- joins, fields and sources with a tenant rule, and one. The risk is MODERATE if no source has a
  -- tenant rule, and else LOW. The manifest is six lines: the version 2, the dialect, the number of
  -- bound parameters, that of the sources with a tenant rule, the complexity, and the risk's name.
  pub compile_ir_engine-AreExact :
      (ir : String)
      → (compile_ir_engine rt schema policy dialect ir).status ≡ Status.ok
      → (c : Clauses) × (plan : Plan) × (clauses_of rt ir ≡ value c)
        × (resolve rt schema policy c ≡ value plan)
        × AreExact c plan (compile_ir_engine rt schema policy dialect ir)
  compile_ir_engine-AreExact ir h =
      let run = compile-Run rt schema policy dialect ir h in
      (
        scan_clauses run.items no_clauses,
        run.plan,
        rw (run.parsed, run.optimized, run.rooted) refl,
        run.resolved,
        AreExact-Run run,
      )
