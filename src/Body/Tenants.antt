-- ===== src/Body/Tenants.antt =====
-- The tenant predicates: what `emit_tenants` writes, and the parameters that it appends.
use mathlib.Core.Path.{subst}
use nlsqlc.Base.{
  ℕ, ◌+◌, String, true, Option, none, some, List, [], ◌∷◌, ◌++◌, ◌≡◌, refl, sym, ap, arith, inl,
  inr, length, length-append, Elem, Elem-append_left, Elem-append_right,
}
use mathlib.Core.List.{append-nil, append_assoc}
use nlsqlc.Base.Outcome.{value}
use nlsqlc.Sexpr.{Atom, word}
use nlsqlc.Catalog.{TableKey, ColumnDef, PyPolicy, from_policy, find_column, tenant_rule}
use nlsqlc.Action.{Param, append_param}
use nlsqlc.Action.Inversion.{proceed-eq-value}
use nlsqlc.Emit.{Sources, Env}
use nlsqlc.Body.{is_tenant_key, types_agree, column_type, tenant_text, emit_tenant, emit_tenants}

module _ (env : Env) (policy : PyPolicy) where
  -- The parameter that carries the runtime's tenant.
  abbrev pub tenant_param : ℕ → Param
  tenant_param n = record {
    position = n;
    name = word policy.runtime_tenant_name;
    type = policy.runtime_tenant_type;
    source = from_policy;
  }

  abbrev pub found : TableKey → String → Option ColumnDef
  found t column =
      find_column env.schema (record { schema = t.schema; table = t.table; column = column })

  pub emit_tenant-some :
      (alias : Atom) (t : TableKey) (column : String) (type : ℕ) (ps : List Param)
      {one : List String} {qs : List Param}
      → emit_tenant env policy alias t (some (column, type)) ps ≡ value (one, qs)
      → (is_tenant_key (found t column) ≡ true)
        × (types_agree type (column_type (found t column)) ≡ true)
        × (one ≡ tenant_text env policy alias column (length ps + 1) ∷ [])
        × (qs ≡ ps ++ tenant_param (length ps + 1) ∷ [])
  unfolding emit_tenant append_param
  emit_tenant-some alias t column type ps h = ground arith

  -- The predicate of a source is in the text and its parameter is bound, on a sound tenant column.
  abbrev pub Covers : List String → List Param → Atom × TableKey → String × ℕ → Type 0
  Covers texts new source rule =
      (n : ℕ) × Elem (tenant_text env policy source.0 rule.0 n) texts
      × Elem (tenant_param n) new
      × (is_tenant_key (found source.1 rule.0) ≡ true)
      × (types_agree rule.1 (column_type (found source.1 rule.0)) ≡ true)

  -- What a run over some sources appends: a predicate and a parameter for each source whose table
  -- has a rule.
  pub record TenantsRun (sources : Sources) (ps : List Param) (texts : List String)
      (qs : List Param) : Type 0 where
    pub new : List Param
    pub split : qs ≡ ps ++ new
    pub same_length : length texts ≡ length new
    pub covered :
        (source : Atom × TableKey) (rule : String × ℕ)
        → Elem source sources
        → tenant_rule policy source.1 ≡ some rule
        → Covers texts new source rule

  -- One source in front of a run.
  add_source :
      (alias : Atom) (t : TableKey) (rest : Sources) (o : Option (String × ℕ))
      (ps one_ps qs : List Param) (one more : List String)
      → tenant_rule policy t ≡ o
      → emit_tenant env policy alias t o ps ≡ value (one, one_ps)
      → TenantsRun rest one_ps more qs
      → TenantsRun ((alias, t) ∷ rest) ps (one ++ more) qs
  unfolding emit_tenant
  add_source alias t rest none ps one_ps qs one more rule h r =
      let empty : one ≡ [] = cc in
      record {
        new = r.new;
        split = cc (r.split, h);
        same_length = omega (arith, length-append one more, ap length empty, r.same_length);
        covered = λ source s m e. elim m [
          | inl p ↦ absurd (cc (ap (λ (x : Atom × TableKey). tenant_rule policy x.1) p))
          | inr m' ↦
              let (n, i, j, k, l) = r.covered source s m' e in
              (n, Elem-append_right _ one more i, j, k, l)
        ];
      }
  add_source alias t rest (some (col, ty)) ps one_ps qs one more rule h r =
      let (key, agree, texts, params) = emit_tenant-some alias t col ty ps h in
      let here : Covers (one ++ more) (tenant_param (length ps + 1) ∷ r.new) (alias, t) (col, ty) =
        (
          length ps + 1,
          Elem-append_left _ one more (
              subst (λ l. Elem (tenant_text env policy alias col (length ps + 1)) l) (sym texts)
                (inl refl)),
          inl refl,
          key,
          agree,
        ) in
      record {
        new = tenant_param (length ps + 1) ∷ r.new;
        split = cc (r.split, params, append_assoc ps (tenant_param (length ps + 1) ∷ []) r.new);
        same_length = omega (arith, length-append one more, ap length texts, r.same_length);
        covered = λ source s m e. elim m [
          | inl p ↦
              subst (λ x. Covers (one ++ more) (tenant_param (length ps + 1) ∷ r.new) x s) (sym p)
                (subst
                  (λ y. Covers (one ++ more) (tenant_param (length ps + 1) ∷ r.new) (alias, t) y)
                  (cc (rule, e, ap (λ (x : Atom × TableKey). tenant_rule policy x.1) p)) here)
          | inr m' ↦
              let (n, i, j, k, l) = r.covered source s m' e in
              (n, Elem-append_right _ one more i, inr j, k, l)
        ];
      }

  -- A run of `emit_tenants` covers its sources.
  pub emit_tenants-Run :
      (sources : Sources) (ps : List Param) {texts : List String} {qs : List Param}
      → emit_tenants env policy sources ps ≡ value (texts, qs)
      → TenantsRun sources ps texts qs
  unfolding emit_tenants
  emit_tenants-Run [] ps {texts} h = record {
    new = [];
    split = cc (append-nil ps);
    same_length = let e : texts ≡ [] = cc in omega (arith, ap length e);
    covered = λ source s m e. absurd m;
  }
  emit_tenants-Run ((alias, t) ∷ rest) ps {texts} {qs} h =
      let (one, one_ps, h1, k1) =
        proceed-eq-value (emit_tenant env policy alias t (tenant_rule policy t) ps) _ h in
      let (more, more_ps, h2, k2) = proceed-eq-value (emit_tenants env policy rest one_ps) _ k1 in
      let text : one ++ more ≡ texts = cc in
      let params : more_ps ≡ qs = cc in
      subst (λ l. TenantsRun ((alias, t) ∷ rest) ps l qs) text
        (subst (λ l. TenantsRun ((alias, t) ∷ rest) ps (one ++ more) l) params
          (add_source alias t rest (tenant_rule policy t) ps one_ps more_ps one more refl h1
            (emit_tenants-Run rest one_ps h2)))
