-- ===== src/Body.antt =====
-- bindings/python/nlsql.py, the middle of `_py_compile_ir_engine`: the clauses of the SQL text and
-- the tenant predicates.
pub mod Rule
pub mod Tenants
pub mod Counts
pub mod Where
use Prim.Native.Nat.{bit_and}
use nlsqlc.Base.{
  ℕ, String, ◌<>◌, Bool, true, false, not, ◌&&◌, ◌||◌, Option, none, some, List, [], ◌∷◌, ◌++◌,
  if◌then◌else◌, eqb,
}
use nlsqlc.Base.Text.{join}
use nlsqlc.Base.Int.{ℤ, pos, show_ℤ, int_of_text}
use nlsqlc.Base.Outcome.{
  Outcome, value, raised, returned, Status, Failure, index_error, type_error, overflow_error,
}
use nlsqlc.Runtime.{Runtime, FloatInt, whole, not_a_number, infinite}
use nlsqlc.Sexpr.{
  Atom, str, int, flt, Node, atom, list, word, is_word, to_list, atom_text, node_text,
}
use nlsqlc.Catalog.{
  sqlserver, from_policy, TableKey, ColumnDef, PyPolicy, find_column, tenant_rule, type_unknown,
  column_tenant_key,
}
use nlsqlc.Action.{Action, pure, raise, lift, ◌>>=◌, append_param}
use nlsqlc.Forms.{quote_ident, placeholder}
use nlsqlc.Emit.{Sources, Env, direction, emit_each, emit_expr}
use nlsqlc.Plan.{Clauses, Join, Plan}

unfoldable pub invalid_limit : Outcome ℤ
invalid_limit = returned Failure.parse "PARSE: invalid limit"

unfoldable pub limit_of_float : FloatInt → Outcome ℤ
unfolding invalid_limit
limit_of_float (whole i) = value i
limit_of_float not_a_number = invalid_limit
limit_of_float infinite = raised (overflow_error "cannot convert float infinity to integer")

unfoldable pub limit_of_text : Option ℤ → Outcome ℤ
unfolding invalid_limit
limit_of_text none = invalid_limit
limit_of_text (some i) = value i

unfoldable pub int_of_node : Runtime → Node → Outcome ℤ
unfolding limit_of_float limit_of_text
int_of_node rt (atom (str s)) = limit_of_text (int_of_text rt.digit s)
int_of_node rt (atom (int i)) = value i
int_of_node rt (atom (flt f)) = limit_of_float (rt.int_of_float f)
int_of_node rt (list xs) =
    raised (
      type_error
        "int() argument must be a string, a bytes-like object or a real number, not 'list'")

-- `limit_val`
unfoldable pub limit_value : Runtime → Option (List Node) → Outcome ℤ
unfolding int_of_node
limit_value rt (some (x ∷ more)) = int_of_node rt x
limit_value rt _ = value (pos 100)

-- INT64, UINT64, DECIMAL and FLOAT64
abbrev is_numeric : ℕ → Bool
is_numeric t = eqb t 3 || eqb t 4 || eqb t 5 || eqb t 6

unfoldable pub types_agree : ℕ → ℕ → Bool
types_agree rule column =
    eqb rule type_unknown || eqb column rule || (is_numeric column && is_numeric rule)

unfoldable pub is_tenant_key : Option ColumnDef → Bool
is_tenant_key none = false
is_tenant_key (some d) = not (eqb (bit_and d.flags column_tenant_key) 0)

abbrev pub column_type : Option ColumnDef → ℕ
column_type none = 0
column_type (some d) = d.type

-- The text, with what the result counts: `len(fields)` and `tenant_count`.
pub record Body : Type 0 where
  pub sql : String
  pub fields : List String
  pub tenants : List String

abbrev pub select_items : Option (List Node) → List Node
select_items none = []
select_items (some xs) = xs

module _ (env : Env) (policy : PyPolicy) where
  -- one "field" of the select clause
  unfoldable pub emit_field_args : List Node → Action String
  emit_field_args (tag ∷ x ∷ alias ∷ []) =
      if is_word "field" tag
      then (do
        s ← emit_expr env x
        pure (s <> (" AS " <> quote_ident (node_text env.rt alias) env.dialect)))
      else lift (returned Failure.parse "PARSE: invalid field")
  emit_field_args [] = raise (index_error "list index out of range")
  emit_field_args _ = lift (returned Failure.parse "PARSE: invalid field")

  unfoldable pub emit_field : Node → Action String
  unfolding emit_field_args
  emit_field (list xs) = emit_field_args (to_list xs)
  emit_field (atom a) = lift (returned Failure.parse "PARSE: invalid field")

  unfoldable pub emit_fields : List Node → Action (List String)
  unfolding emit_field
  emit_fields [] = pure []
  emit_fields (x ∷ xs) = do s ← emit_field x; rest ← emit_fields xs; pure (s ∷ rest)

  abbrev pub quote : String → String
  quote s = quote_ident s env.dialect

  -- `{public}.{table} AS {alias}`
  abbrev pub table_text : String → Atom → String
  table_text t alias = quote "public" <> ("." <> (quote t <> (" AS " <> quote (atom_text alias))))

  unfoldable pub emit_joins : List Join → Action (List String)
  emit_joins [] = pure []
  emit_joins (j ∷ js) = do
    on ← emit_expr env j.on
    rest ← emit_joins js
    pure ((j.keyword <> (" " <> (table_text j.table j.alias <> (" ON " <> on)))) ∷ rest)

  unfoldable pub emit_where : Option (List Node) → Action (List String)
  emit_where (some (x ∷ more)) = do s ← emit_expr env x; pure (s ∷ [])
  emit_where _ = pure []

  -- `{alias}.{tcol} = {param_ph}`
  abbrev pub tenant_text : Atom → String → ℕ → String
  tenant_text alias column position =
      quote (atom_text alias)
      <> ("." <> (quote column <> (" = " <> placeholder env.dialect position)))

  -- the tenant predicate of one source, if its table has a rule
  unfoldable pub emit_tenant : Atom → TableKey → Option (String × ℕ) → Action (List String)
  emit_tenant alias t none = pure []
  emit_tenant alias t (some (column, type)) =
      let found =
        find_column env.schema (record { schema = t.schema; table = t.table; column = column }) in
      if not (is_tenant_key found)
      then lift (returned Failure.policy "POLICY: tenant column missing or invalid")
      else if not (types_agree type (column_type found))
      then lift (returned Failure.type "TYPE: tenant type mismatch")
      else do
        position ←
            append_param (word policy.runtime_tenant_name) policy.runtime_tenant_type from_policy
        pure (tenant_text alias column position ∷ [])

  unfoldable pub emit_tenants : Sources → Action (List String)
  unfolding emit_tenant
  emit_tenants [] = pure []
  emit_tenants ((alias, t) ∷ rest) = do
    one ← emit_tenant alias t (tenant_rule policy t)
    more ← emit_tenants rest
    pure (one ++ more)

  unfoldable pub where_part : List String → List String
  where_part [] = []
  where_part (c ∷ cs) = ("WHERE " <> join " AND " (c ∷ cs)) ∷ []

  unfoldable pub emit_group : Option (List Node) → Action (List String)
  emit_group (some (x ∷ xs)) = do
    parts ← emit_each env (emit_expr env) (x ∷ xs)
    pure (("GROUP BY " <> join ", " parts) ∷ [])
  emit_group _ = pure []

  unfoldable pub emit_order : Option (List Node) → Action (List String)
  emit_order (some (x ∷ d ∷ more)) = do
    s ← emit_expr env x
    pure (("ORDER BY " <> (s <> (" " <> direction d))) ∷ [])
  emit_order _ = pure []

  unfoldable pub top_text : ℤ → String
  top_text n = elim env.dialect [ sqlserver ↦ "TOP " <> (show_ℤ n <> " ") | _ ↦ "" ]

  unfoldable pub limit_part : ℤ → List String
  limit_part n = elim env.dialect [ sqlserver ↦ [] | _ ↦ ("LIMIT " <> show_ℤ n) ∷ [] ]

  unfoldable pub select_text : ℤ → List String → Plan → String
  unfolding top_text
  select_text n fields plan =
      "SELECT "
      <> (top_text n <> (join ", " fields <> (" FROM " <> table_text plan.table plan.alias)))

  unfoldable pub emit_body : Clauses → Plan → Action Body
  unfolding is_tenant_key types_agree limit_value emit_fields emit_joins emit_where emit_tenants
      where_part emit_group emit_order limit_part select_text
  emit_body c plan = do
    fields ← emit_fields (select_items c.select)
    n ← lift (limit_value env.rt c.limit)
    joins ← emit_joins plan.joins
    conditions ← emit_where c.where_
    tenants ← emit_tenants plan.sources
    groups ← emit_group c.group_by
    orders ← emit_order c.order_by
    pure (record {
      sql = join " " (
          select_text n fields plan
          ∷ (joins
              ++ (where_part (conditions ++ tenants) ++ (groups ++ (orders ++ limit_part n)))));
      fields = fields;
      tenants = tenants;
    })
