-- ===== src/Explain/Identical.antt =====
-- What it means for two queries to be identical in the eyes of `diff`.
use mathlib.Core.Path.{subst}
use nlsqlc.Base.{String, true, ◌≡◌, refl, sym, ap, ◌∙◌, [], All, ◌==◌, eq_iff}
use nlsqlc.Base.Outcome.{Outcome, value, ◌>>=◌, >>=-eq-value, value-injective}
use nlsqlc.Runtime.{Runtime}
use nlsqlc.Sexpr.{Node, find_tokens, parse_sexpr, canonical_ir}
use nlsqlc.Sexpr.Parse.{flatten, IsWorded, parse_tokens-IsWorded, flatten-parse_tokens}
use nlsqlc.Sexpr.RoundTrip.{IsProper, find_tokens-IsProper, parse_flat}
use nlsqlc.Optimizer.{optimize}
use nlsqlc.Catalog.{Dialect, PySchema, PyPolicy}
use nlsqlc.Plan.{no_clauses, check_root, scan_clauses, resolve}
use nlsqlc.Body.{emit_body}
use nlsqlc.Engine.{
  PyCompileResult, check_denied, success, handle, env_of, compile_clauses, compile_tree,
  compile_text, compile_ir_engine,
}
use nlsqlc.Explain.{Difference, canonical_text, diff}

-- The tree of a text behind the optimizer
abbrev pub tree_of : Runtime → String → Outcome Node
tree_of rt ir = parse_sexpr ir >>= λ raw. optimize rt raw

-- Every atom of the tree is a text that the parser reads as one token: no constant was folded.
abbrev pub IsPlain : Node → Type 0
IsPlain t = IsWorded t × All IsProper (flatten t)

-- What the parser gives is such a tree.
pub parse_sexpr-IsPlain : (text : String) (t : Node) → parse_sexpr text ≡ value t → IsPlain t
unfolding parse_sexpr
parse_sexpr-IsPlain text t h = (
  parse_tokens-IsWorded (find_tokens text) t h,
  subst (All IsProper) (flatten-parse_tokens (find_tokens text) t h) (find_tokens-IsProper text),
)

canonical_ir-injective :
    (t u : Node) → IsPlain t → IsPlain u → canonical_ir t ≡ canonical_ir u → t ≡ u
canonical_ir-injective t u p q e =
    value-injective _ _ (sym (parse_flat t p.0 p.1) ∙ ap parse_sexpr e ∙ parse_flat u q.0 q.1)

canonical_text-tree_of :
    (rt : Runtime) (ir : String) (t : Node)
    → tree_of rt ir ≡ value t
    → canonical_text rt ir ≡ value (canonical_ir t)
unfolding canonical_text
canonical_text-tree_of rt ir t h =
    let (raw, h1, k1) = >>=-eq-value (parse_sexpr ir) _ h in rw (h1, k1) refl

diff-trees :
    (rt : Runtime) (ir1 ir2 : String) (t u : Node) {d : Difference}
    → tree_of rt ir1 ≡ value t
    → tree_of rt ir2 ≡ value u
    → IsPlain t
    → IsPlain u
    → diff rt ir1 ir2 ≡ value d
    → d.identical ≡ true
    → t ≡ u
unfolding diff
diff-trees rt ir1 ir2 t u {d} h k p q e same =
    let c1 = canonical_text-tree_of rt ir1 t h in
    let c2 = canonical_text-tree_of rt ir2 u k in
    let (a, e1, f1) = >>=-eq-value (canonical_text rt ir1) _ e in
    let (b, e2, f2) = >>=-eq-value (canonical_text rt ir2) _ f1 in
    let first : a ≡ canonical_ir t = value-injective _ _ (sym e1 ∙ c1) in
    let second : b ≡ canonical_ir u = value-injective _ _ (sym e2 ∙ c2) in
    let equal : (a == b) ≡ true =
      ap (λ (x : Difference). x.identical) (value-injective _ _ f2) ∙ same in
    canonical_ir-injective t u p q (sym first ∙ (eq_iff a b).0 equal ∙ second)

module _ (rt : Runtime) (schema : PySchema) (policy : PyPolicy) (dialect : Dialect) where
  -- The compilation of a tree, with the outcome of the test of the denied columns
  abbrev behind_test : Node → Outcome (Unit {0}) → Outcome PyCompileResult
  behind_test tree test = check_root tree >>= λ items.
      resolve rt schema policy (scan_clauses items no_clauses) >>= λ plan. test >>= λ passed.
      emit_body (env_of rt schema policy dialect plan) policy (scan_clauses items no_clauses) plan
        []
      >>= λ body. value (success dialect tree plan body)

  compile_ir_engine-tree :
      (ir : String) (t : Node)
      → tree_of rt ir ≡ value t
      → compile_ir_engine rt schema policy dialect ir
        ≡ handle (behind_test t (check_denied policy ir schema.columns))
  unfolding compile_ir_engine compile_text compile_tree compile_clauses
  compile_ir_engine-tree ir t h =
      let (raw, h1, k1) = >>=-eq-value (parse_sexpr ir) _ h in rw (h1, k1) refl

  -- If `diff` calls two queries identical, no constant of either was folded into a number, and the
  -- test of the denied columns has the same outcome for both texts, then both queries compile to
  -- the same result, for every dialect.
  pub diff-compile :
      (ir1 ir2 : String) (t u : Node) (d : Difference)
      → tree_of rt ir1 ≡ value t
      → tree_of rt ir2 ≡ value u
      → IsPlain t
      → IsPlain u
      → diff rt ir1 ir2 ≡ value d
      → d.identical ≡ true
      → check_denied policy ir1 schema.columns ≡ check_denied policy ir2 schema.columns
      → compile_ir_engine rt schema policy dialect ir1
        ≡ compile_ir_engine rt schema policy dialect ir2
  diff-compile ir1 ir2 t u d h k p q e same test =
      compile_ir_engine-tree ir1 t h
      ∙ (λ i. handle (behind_test (diff-trees rt ir1 ir2 t u h k p q e same i) (test i)))
      ∙ sym (compile_ir_engine-tree ir2 u k)
