-- ===== src/Body/Where.antt =====
-- Where the tenant predicates stand in the text of a body.
use mathlib.Core.Path.{subst}
use nlsqlc.Base.{
  ℕ, String, ◌<>◌, some, List, [], ◌∷◌, ◌++◌, ◌≡◌, refl, sym, ap, ◌∙◌, Elem, Elem-append_left,
  Elem-append_right, true,
}
use nlsqlc.Base.Text.{join}
use nlsqlc.Base.Text.Join.{join_before, join_after, join-append}
use nlsqlc.Base.Outcome.{value, value-injective}
use nlsqlc.Sexpr.{Atom}
use nlsqlc.Catalog.{TableKey, PyPolicy, tenant_rule}
use nlsqlc.Action.{Param, Action, lift}
use nlsqlc.Action.Inversion.{proceed-eq-value}
use nlsqlc.Action.Extending.{Extends, Extended, Extending}
use nlsqlc.Emit.{Env}
use nlsqlc.Plan.{Clauses, Plan}
use nlsqlc.Body.{
  Body, is_tenant_key, types_agree, column_type, tenant_text, limit_value, limit_part, select_text,
  where_part, emit_fields, emit_joins, emit_where, emit_tenants, emit_group, emit_order, emit_body,
  select_items,
}
use nlsqlc.Body.Rule.{IsExpected, emit_group-Extending, emit_order-Extending}
use nlsqlc.Body.Tenants.{tenant_param, found, TenantsRun, emit_tenants-Run}

module _ (env : Env) (policy : PyPolicy) where
  -- The text holds a part that is "WHERE " and pieces joined by " AND "; the predicate of the source is
  -- a piece, and its parameter is bound. A piece is a text, and not always a conjunct in SQL.
  pub record AmongPieces (source : Atom × TableKey) (rule : String × ℕ) (sql : String)
      (params : List Param) : Type 0 where
    pub position : ℕ
    pub pieces : List String
    pub before : String
    pub after : String
    pub text : sql ≡ before <> ("WHERE " <> join " AND " pieces) <> after
    pub predicate : Elem (tenant_text env policy source.0 rule.0 position) pieces
    pub bound : Elem (tenant_param env policy position) params
    pub key : is_tenant_key (found env policy source.1 rule.0) ≡ true
    pub agrees : types_agree rule.1 (column_type (found env policy source.1 rule.0)) ≡ true

  where_part-Elem :
      (e : String) (l : List String)
      → Elem e l
      → where_part env policy l ≡ ("WHERE " <> join " AND " l) ∷ []
  unfolding where_part
  where_part-Elem e [] m = absurd m
  where_part-Elem e (x ∷ xs) m = refl

  -- The text around the conditions.
  around :
      (h : String) (js conditions rest : List String) (e : String)
      → Elem e conditions
      → join " " (h ∷ (js ++ (where_part env policy conditions ++ rest)))
        ≡ join_before " " (h ∷ js) <> (("WHERE " <> join " AND " conditions) <> join_after " " rest)
  around h js conditions rest e m =
      rw (where_part-Elem e conditions m) (join-append " " (h ∷ js) _ rest)

  -- A parameter stays where it is when others are appended.
  kept :
      {A : Type 0} (m : Action A) (ps : List Param) {a : A} {qs : List Param} (p : Param)
      → Extending (IsExpected policy) A m
      → m ps ≡ value (a, qs)
      → Elem p ps
      → Elem p qs
  kept m ps {a} {qs} p h e i =
      let x : Extends (IsExpected policy) ps qs =
        subst (Extended (IsExpected policy) ps) e (h ps) in
      subst (Elem p) (sym x.split) (Elem-append_left p ps x.new i)

  pub emit_body-AmongPieces :
      (c : Clauses) (plan : Plan) {body : Body} {params : List Param}
      → emit_body env policy c plan [] ≡ value (body, params)
      → (source : Atom × TableKey) (rule : String × ℕ) → Elem source plan.sources
      → tenant_rule policy source.1 ≡ some rule
      → AmongPieces source rule body.sql params
  unfolding emit_body
  emit_body-AmongPieces c plan {body} {params} h source rule m e =
      let (fs, p1, h1, k1) =
        proceed-eq-value (emit_fields env policy (select_items c.select) []) _ h in
      let (n, p2, h2, k2) = proceed-eq-value (lift (limit_value env.rt c.limit) p1) _ k1 in
      let (js, p3, h3, k3) = proceed-eq-value (emit_joins env policy plan.joins p2) _ k2 in
      let (ws, p4, h4, k4) = proceed-eq-value (emit_where env policy c.where_ p3) _ k3 in
      let (ts, p5, h5, k5) = proceed-eq-value (emit_tenants env policy plan.sources p4) _ k4 in
      let (gs, p6, h6, k6) = proceed-eq-value (emit_group env policy c.group_by p5) _ k5 in
      let (os, p7, h7, k7) = proceed-eq-value (emit_order env policy c.order_by p6) _ k6 in
      let run : TenantsRun env policy plan.sources p4 ts p5 =
        emit_tenants-Run env policy plan.sources p4 h5 in
      let (pos, i, j, key, agrees) = run.covered source rule m e in
      let in_all = Elem-append_right _ ws ts i in
      record {
        position = pos;
        pieces = ws ++ ts;
        before = join_before " " (select_text env policy n fs plan ∷ js);
        after = join_after " " (gs ++ (os ++ limit_part env policy n));
        text =
            ap (λ (b : Body × List Param). b.0.sql) (sym (value-injective _ _ k7))
            ∙ around (select_text env policy n fs plan) js (ws ++ ts) _ _ in_all;
        predicate = in_all;
        bound =
            subst (Elem (tenant_param env policy pos))
              (ap (λ (b : Body × List Param). b.1) (value-injective _ _ k7))
              (kept _ p6 _ (emit_order-Extending env policy c.order_by) h7 (
                kept _ p5 _ (emit_group-Extending env policy c.group_by) h6 (
                  subst (Elem (tenant_param env policy pos)) (sym run.split)
                    (Elem-append_right _ p4 run.new j))));
        key = key;
        agrees = agrees;
      }
