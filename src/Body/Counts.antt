-- ===== src/Body/Counts.antt =====
-- How many fields and tenant predicates a body has.
use nlsqlc.Base.{
  ℕ, suc, ◌+◌, String, Option, none, some, List, [], ◌∷◌, ◌++◌, ◌≡◌, sym, ap, ◌∙◌, arith, length,
  length-append,
}
use nlsqlc.Base.Outcome.{value, value-injective}
use nlsqlc.Sexpr.{Atom, Node}
use nlsqlc.Catalog.{TableKey, PyPolicy, tenant_rule}
use nlsqlc.Action.{Param, lift}
use nlsqlc.Action.Inversion.{proceed-eq-value}
use nlsqlc.Emit.{Sources, Env}
use nlsqlc.Plan.{Clauses, Plan}
use nlsqlc.Body.{
  Body, limit_value, emit_field, emit_fields, emit_joins, emit_where, emit_tenant, emit_tenants,
  emit_group, emit_order, emit_body, select_items,
}
use nlsqlc.Body.Tenants.{emit_tenant-some}

abbrev counted : Option (String × ℕ) → ℕ → ℕ
counted none n = n
counted (some rule) n = suc n

-- The number of sources whose table has a tenant rule
pub ruled_sources : PyPolicy → Sources → ℕ
ruled_sources policy [] = 0
ruled_sources policy ((alias, t) ∷ rest) =
    counted (tenant_rule policy t) (ruled_sources policy rest)

module _ (env : Env) (policy : PyPolicy) where
  emit_tenant-count :
      (alias : Atom) (t : TableKey) (o : Option (String × ℕ)) (ps : List Param) (n : ℕ)
      {one : List String} {qs : List Param}
      → emit_tenant env policy alias t o ps ≡ value (one, qs)
      → length one + n ≡ counted o n
  unfolding emit_tenant
  emit_tenant-count alias t none ps n {one} h = let e : one ≡ [] = cc in omega (arith, ap length e)
  emit_tenant-count alias t (some (column, type)) ps n h =
      let (key, agree, texts, params) = emit_tenant-some env policy alias t column type ps h in
      omega (arith, ap length texts)

  emit_tenants-count :
      (sources : Sources) (ps : List Param) {texts : List String} {qs : List Param}
      → emit_tenants env policy sources ps ≡ value (texts, qs)
      → length texts ≡ ruled_sources policy sources
  unfolding emit_tenants ruled_sources
  emit_tenants-count [] ps {texts} h = let e : texts ≡ [] = cc in ap length e
  emit_tenants-count ((alias, t) ∷ rest) ps {texts} h =
      let (one, p1, h1, k1) =
        proceed-eq-value (emit_tenant env policy alias t (tenant_rule policy t) ps) _ h in
      let (more, p2, h2, k2) = proceed-eq-value (emit_tenants env policy rest p1) _ k1 in
      let e : texts ≡ one ++ more = cc in
      ap length e
      ∙ length-append one more
      ∙ ap (λ n. length one + n) (emit_tenants-count rest p1 h2)
      ∙ emit_tenant-count alias t (tenant_rule policy t) ps (ruled_sources policy rest) h1

  emit_fields-length :
      (xs : List Node) (ps : List Param) {texts : List String} {qs : List Param}
      → emit_fields env policy xs ps ≡ value (texts, qs)
      → length texts ≡ length xs
  unfolding emit_fields
  emit_fields-length [] ps {texts} h = let e : texts ≡ [] = cc in ap length e
  emit_fields-length (x ∷ xs) ps {texts} h =
      let (one, p1, h1, k1) = proceed-eq-value (emit_field env policy x ps) _ h in
      let (more, p2, h2, k2) = proceed-eq-value (emit_fields env policy xs p1) _ k1 in
      let e : texts ≡ one ∷ more = cc in ap length e ∙ ap suc (emit_fields-length xs p1 h2)

  pub emit_body-counts :
      (c : Clauses) (plan : Plan) {body : Body} {params : List Param}
      → emit_body env policy c plan [] ≡ value (body, params)
      → (length body.fields ≡ length (select_items c.select))
        × (length body.tenants ≡ ruled_sources policy plan.sources)
  unfolding emit_body
  emit_body-counts c plan {body} h =
      let (fs, p1, h1, k1) =
        proceed-eq-value (emit_fields env policy (select_items c.select) []) _ h in
      let (n, p2, h2, k2) = proceed-eq-value (lift (limit_value env.rt c.limit) p1) _ k1 in
      let (js, p3, h3, k3) = proceed-eq-value (emit_joins env policy plan.joins p2) _ k2 in
      let (ws, p4, h4, k4) = proceed-eq-value (emit_where env policy c.where_ p3) _ k3 in
      let (ts, p5, h5, k5) = proceed-eq-value (emit_tenants env policy plan.sources p4) _ k4 in
      let (gs, p6, h6, k6) = proceed-eq-value (emit_group env policy c.group_by p5) _ k5 in
      let (os, p7, h7, k7) = proceed-eq-value (emit_order env policy c.order_by p6) _ k6 in
      let e = sym (value-injective _ _ k7) in
      (
        ap (λ (b : Body × List Param). length b.0.fields) e
            ∙ emit_fields-length (select_items c.select) [] h1,
        ap (λ (b : Body × List Param). length b.0.tenants) e
            ∙ emit_tenants-count plan.sources p4 h5,
      )
