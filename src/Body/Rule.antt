-- ===== src/Body/Rule.antt =====
-- A property of actions that its building blocks keep holds of the whole body.
use nlsqlc.Base.{
  ℕ, String, refl, ◌⊎◌, Option, none, some, List, [], ◌∷◌, ◌≡◌, ◌≢◌, arith, inl, inr, Bool-cases,
}
use nlsqlc.Base.Outcome.{raised, Exception}
use nlsqlc.Runtime.{Runtime}
use nlsqlc.Sexpr.{Atom, Node, atom, list, word, is_word, to_list}
use nlsqlc.Catalog.{TableKey, PyPolicy, from_policy, find_column, tenant_rule}
use nlsqlc.Action.{Param, append_param}
use nlsqlc.Action.Closed.{
  Property, Closed, NoFuel, Terminates-Closed, of_pure, of_raise, of_return, of_lift_bind,
}
use nlsqlc.Action.Extending.{Extending, Extending-Closed, Extending-append_param, IsUser}
use nlsqlc.Emit.{Sources, Env, emit_each, emit_expr}
use nlsqlc.Emit.Rule.{emit_expr-rule}
use nlsqlc.Plan.{Clauses, Join, Plan}
use nlsqlc.Body.{
  Body, is_tenant_key, types_agree, column_type, limit_value, emit_field_args, emit_field,
  emit_fields, emit_joins, emit_where, emit_tenant, emit_tenants, emit_group, emit_order, emit_body,
  select_items,
}

NoFuel-limit_value : (rt : Runtime) (o : Option (List Node)) → NoFuel (limit_value rt o)
unfolding limit_value
NoFuel-limit_value rt o = ground arith

module _ {P : Property} (closed : Closed P) (env : Env) (policy : PyPolicy)
    (policy_param : P ℕ
      (append_param (word policy.runtime_tenant_name) policy.runtime_tenant_type from_policy)) where
  open closed use {of_lift, of_bind}

  expr : (x : Node) → P String (emit_expr env x)
  expr = emit_expr-rule closed env

  field_args : (xs : List Node) → P String (emit_field_args env policy xs)
  unfolding emit_field_args
  field_args [] = of_raise closed _ _ (cc)
  field_args (t ∷ []) = of_return closed _ _ _
  field_args (t ∷ x ∷ []) = of_return closed _ _ _
  field_args (t ∷ x ∷ a ∷ []) = elim (Bool-cases (is_word "field" t)) [
    | inl e ↦ rw e (of_bind _ _ _ _ (expr x) λ s. of_pure closed _ _)
    | inr e ↦ rw e (of_return closed _ _ _)
  ]
  field_args (t ∷ x ∷ a ∷ b ∷ more) = of_return closed _ _ _

  field : (x : Node) → P String (emit_field env policy x)
  unfolding emit_field
  field (list xs) = field_args (to_list xs)
  field (atom a) = of_return closed _ _ _

  fields : (xs : List Node) → P (List String) (emit_fields env policy xs)
  unfolding emit_fields
  fields [] = of_pure closed _ _
  fields (x ∷ xs) =
      of_bind _ _ _ _ (field x) λ s. of_bind _ _ _ _ (fields xs) λ rest. of_pure closed _ _

  joins : (js : List Join) → P (List String) (emit_joins env policy js)
  unfolding emit_joins
  joins [] = of_pure closed _ _
  joins (j ∷ js) =
      of_bind _ _ _ _ (expr j.on) λ s. of_bind _ _ _ _ (joins js) λ rest. of_pure closed _ _

  wheres : (o : Option (List Node)) → P (List String) (emit_where env policy o)
  unfolding emit_where
  wheres (some (x ∷ more)) = of_bind _ _ _ _ (expr x) λ s. of_pure closed _ _
  wheres (some []) = of_pure closed _ _
  wheres none = of_pure closed _ _

  tenant :
      (a : Atom) (t : TableKey) (o : Option (String × ℕ))
      → P (List String) (emit_tenant env policy a t o)
  unfolding emit_tenant
  tenant a t none = of_pure closed _ _
  tenant a t (some (column, type)) =
      let found =
        find_column env.schema (record { schema = t.schema; table = t.table; column = column }) in
      elim (Bool-cases (is_tenant_key found)) [
        | inr e ↦ rw e (of_return closed _ _ _)
        | inl e ↦ elim (Bool-cases (types_agree type (column_type found))) [
          | inr d ↦ rw (e, d) (of_return closed _ _ _)
          | inl d ↦ rw (e, d) (of_bind _ _ _ _ policy_param λ pos. of_pure closed _ _)
        ]
      ]

  tenants : (s : Sources) → P (List String) (emit_tenants env policy s)
  unfolding emit_tenants
  tenants [] = of_pure closed _ _
  tenants ((a, t) ∷ rest) =
      of_bind _ _ _ _ (tenant a t (tenant_rule policy t))
        λ one. of_bind _ _ _ _ (tenants rest) λ more. of_pure closed _ _

  each : (xs : List Node) → P (List String) (emit_each env (emit_expr env) xs)
  unfolding emit_each
  each [] = of_pure closed _ _
  each (x ∷ xs) = of_bind _ _ _ _ (expr x) λ s. of_bind _ _ _ _ (each xs) λ rest. of_pure closed _ _

  pub emit_group-rule : (o : Option (List Node)) → P (List String) (emit_group env policy o)
  unfolding emit_group
  emit_group-rule (some (x ∷ xs)) = of_bind _ _ _ _ (each (x ∷ xs)) λ parts. of_pure closed _ _
  emit_group-rule (some []) = of_pure closed _ _
  emit_group-rule none = of_pure closed _ _

  pub emit_order-rule : (o : Option (List Node)) → P (List String) (emit_order env policy o)
  unfolding emit_order
  emit_order-rule (some (x ∷ d ∷ more)) = of_bind _ _ _ _ (expr x) λ s. of_pure closed _ _
  emit_order-rule (some (x ∷ [])) = of_pure closed _ _
  emit_order-rule (some []) = of_pure closed _ _
  emit_order-rule none = of_pure closed _ _

  -- The property holds of the body.
  pub emit_body-rule : (c : Clauses) (plan : Plan) → P Body (emit_body env policy c plan)
  unfolding emit_body
  emit_body-rule c plan = of_bind _ _ _ _ (fields (select_items c.select)) λ fs.
      of_lift_bind closed _ _ _ _ (NoFuel-limit_value env.rt c.limit) λ n e.
        of_bind _ _ _ _ (joins plan.joins) λ js. of_bind _ _ _ _ (wheres c.where_) λ ws.
          of_bind _ _ _ _ (tenants plan.sources) λ ts.
            of_bind _ _ _ _ (emit_group-rule c.group_by)
              λ gs. of_bind _ _ _ _ (emit_order-rule c.order_by) λ os. of_pure closed _ _

-- The parameter comes from the query's text, or carries the runtime's tenant.
abbrev pub IsExpected : PyPolicy → Param → Type 0
IsExpected policy p =
    IsUser p
    ⊎ ((p.source ≡ from_policy)
        × (p.name ≡ word policy.runtime_tenant_name)
        × (p.type ≡ policy.runtime_tenant_type))

module _ (env : Env) (policy : PyPolicy) where
  IsExpected-Closed : Closed (Extending (IsExpected policy))
  IsExpected-Closed = Extending-Closed (IsExpected policy) (λ p h. inl h)

  policy_param-Extending :
      Extending
        (IsExpected policy)
        ℕ
        (append_param (word policy.runtime_tenant_name) policy.runtime_tenant_type from_policy)
  policy_param-Extending = Extending-append_param _ _ _ _ (λ n. inr (refl, refl, refl))

  pub emit_group-Extending :
      (o : Option (List Node))
      → Extending (IsExpected policy) (List String) (emit_group env policy o)
  emit_group-Extending = emit_group-rule IsExpected-Closed env policy policy_param-Extending

  pub emit_order-Extending :
      (o : Option (List Node))
      → Extending (IsExpected policy) (List String) (emit_order env policy o)
  emit_order-Extending = emit_order-rule IsExpected-Closed env policy policy_param-Extending

  pub emit_body-Extending :
      (c : Clauses) (plan : Plan) → Extending (IsExpected policy) Body (emit_body env policy c plan)
  emit_body-Extending = emit_body-rule IsExpected-Closed env policy policy_param-Extending

  pub emit_body-NoFuel :
      (c : Clauses) (plan : Plan) (ps : List Param)
      → emit_body env policy c plan ps ≢ raised Exception.fuel
  unfolding append_param
  emit_body-NoFuel c plan ps = emit_body-rule Terminates-Closed env policy (λ qs e. cc) c plan ps
