-- ===== src/Emit.antt =====
-- bindings/python/nlsql.py: `_py_emit_expr`. The recursion takes fuel; a node needs its height
-- (Emit/Rule.antt).
pub mod Rule
use Prim.Native.Nat.{max}
use nlsqlc.Base.{ℕ, zero, suc, String, ◌<>◌, Option, none, some, List, [], ◌∷◌, ◌++◌, if◌then◌else◌}
use nlsqlc.Base.Text.{join, strip_quotes, is_desc}
use nlsqlc.Base.Dict
use nlsqlc.Base.Outcome
use nlsqlc.Base.Outcome.{
  Outcome, value, raised, Exception, value_error, index_error, type_error, fuel, or_raise,
}
use nlsqlc.Runtime.{Runtime}
use nlsqlc.Sexpr.{
  Atom, str, int, flt, Node, Nodes, atom, list, nil, cons, word, is_word, to_list, atom_text,
  node_text,
}
use nlsqlc.Optimizer.{atom_eq}
use nlsqlc.Catalog.{Dialect, sqlite, from_user, TableKey, PySchema, find_column, type_code}
use nlsqlc.Action.{Action, pure, raise, lift, ◌>>=◌, append_param}
use nlsqlc.Forms.{
  quote_ident, placeholder, Form, column_ref, param_ref, output_ref, unary, binary, variadic,
  membership, between, now, date_trunc, extract, case_when, window, unsupported, form,
}

-- `sources`, in insertion order
abbrev pub Sources : Type 0
Sources = List (Atom × TableKey)

-- what every call of `_py_emit_expr` hands on unchanged
pub record Env : Type 0 where
  pub rt : Runtime
  pub sources : Sources
  pub schema : PySchema
  pub dialect : Dialect

-- An atom may be a key of a dictionary, a list may not.
unfoldable pub hashable : Node → Outcome Atom
hashable (atom a) = value a
hashable (list xs) = raised (type_error "unhashable type: 'list'")

-- `schema.columns` has keys of texts only
unfoldable pub known_column : PySchema → TableKey → Atom → Option String
known_column schema t (str s) =
    elim (find_column schema (record { schema = t.schema; table = t.table; column = s })) [
      | none ↦ none
      | some _ ↦ some s
    ]
known_column schema t _ = none

-- `node[i]`
unfoldable pub item : List Node → ℕ → Exception → Outcome Node
item [] i e = raised e
item (x ∷ xs) zero e = value x
item (x ∷ xs) (suc i) e = item xs i e

abbrev pub characters : String → List Node
characters String.[] = []
characters (String.◌∷◌ c s) = word (String.◌∷◌ c "") ∷ characters s

unfoldable pub get_item : Node → ℕ → Outcome Node
unfolding item
get_item (list xs) i = item (to_list xs) i (index_error "list index out of range")
get_item (atom (str s)) i = item (characters s) i (index_error "string index out of range")
get_item (atom (int _)) i = raised (type_error "'int' object is not subscriptable")
get_item (atom (flt _)) i = raised (type_error "'float' object is not subscriptable")

-- `node[1:]`
abbrev pub rest_of : List Node → List Node
rest_of [] = []
rest_of (x ∷ xs) = xs

unfoldable pub get_rest : Node → Outcome (List Node)
get_rest (list xs) = value (rest_of (to_list xs))
get_rest (atom (str s)) = value (rest_of (characters s))
get_rest (atom (int _)) = raised (type_error "'int' object is not subscriptable")
get_rest (atom (flt _)) = raised (type_error "'float' object is not subscriptable")

-- `"DESC" if str(node).lower() == "desc" else "ASC"`: the text of no list and no number is `desc`
unfoldable pub direction : Node → String
direction (atom (str s)) = if is_desc s then "DESC" else "ASC"
direction _ = "ASC"

abbrev pub invalid {ℓ} : {A : Type ℓ} → Action A
invalid = raise (value_error "invalid expression")

module _ (env : Env) where
  -- `if alias not in sources` and `sources[alias]`
  unfoldable pub find_source : Atom → Outcome TableKey
  unfolding atom_eq
  find_source alias =
      or_raise (Dict.lookup (atom_eq env.rt) alias env.sources)
        (value_error ("unknown source alias: " <> atom_text alias))

  unknown_column : TableKey → Atom → String
  unknown_column t col =
      "unknown column: " <> (t.schema <> ("." <> (t.table <> ("." <> atom_text col))))

  -- "column"
  unfoldable pub emit_column : Node → Node → Outcome String
  unfolding hashable find_source known_column unknown_column
  emit_column alias col = Outcome.◌>>=◌ (hashable alias) λ a. Outcome.◌>>=◌ (find_source a) λ t.
      Outcome.◌>>=◌ (hashable col) λ k.
        Outcome.◌>>=◌ (or_raise (known_column env.schema t k) (value_error (unknown_column t k)))
          λ c. value (quote_ident (atom_text a) env.dialect <> ("." <> quote_ident c env.dialect))

  -- `NLSQL_TYPE_NAMES.get(typ_str, NLSQL_TYPE_UNKNOWN)`
  type_of : Atom → ℕ
  type_of (str s) = type_code s
  type_of _ = 0

  -- "param"
  unfoldable pub emit_param : Node → Node → Action String
  unfolding hashable type_of
  emit_param name type = do
    t ← lift (hashable type)
    pos ← append_param name (type_of t) from_user
    pure (placeholder env.dialect pos)

  -- `str(node).replace("'", "").replace('"', "")`
  unfoldable pub part_text : Node → String
  part_text x = strip_quotes (node_text env.rt x)

  trunc_text : String → String → String
  trunc_text part sub = elim env.dialect [
    | sqlite ↦ "strftime('%Y-%m-01', " <> (sub <> ")")
    | _ ↦ "DATE_TRUNC('" <> (part <> ("', " <> (sub <> ")")))
  ]

  unfoldable pub reject {ℓ} : {A : Type ℓ} → Node → Action A
  reject op = raise (value_error ("unsupported operator: " <> node_text env.rt op))

  -- `go` is the recursive call.
  module _ (go : Node → Action String) where
    -- the list comprehensions and the repeated calls
    unfoldable pub emit_each : List Node → Action (List String)
    emit_each [] = pure []
    emit_each (x ∷ xs) = do s ← go x; rest ← emit_each xs; pure (s ∷ rest)

    -- one branch of "case"; other branches are passed over
    unfoldable pub emit_branch : List Node → Action (List String)
    emit_branch (tag ∷ x ∷ []) =
        if is_word "else" tag then (do v ← go x; pure (("ELSE " <> v) ∷ [])) else pure []
    emit_branch (tag ∷ c ∷ x ∷ []) =
        if is_word "when" tag
        then (do w ← go c; v ← go x; pure (("WHEN " <> (w <> (" THEN " <> v))) ∷ []))
        else pure []
    emit_branch _ = pure []

    abbrev branch_of : Node → List Node
    branch_of (list xs) = to_list xs
    branch_of (atom a) = []

    unfoldable pub emit_branches : List Node → Action (List String)
    unfolding emit_branch
    emit_branches [] = pure []
    emit_branches (b ∷ bs) = do
      s ← emit_branch (branch_of b)
      rest ← emit_branches bs
      pure (s ++ rest)

    -- "window"
    unfoldable pub emit_window : Node → Node → Node → Action String
    unfolding emit_each get_rest get_item
    emit_window x p o = do
      sub ← go x
      keys ← lift (get_rest p)
      parts ← emit_each keys
      target ← lift (get_item o 1)
      order ← go target
      dir ← lift (get_item o 2)
      pure (
          sub
          <> (" OVER (PARTITION BY "
              <> (join ", " parts <> (" ORDER BY " <> (order <> (" " <> (direction dir <> ")")))))))

    unfoldable pub emit_form : Form → Node → List Node → Action String
    unfolding emit_each emit_branches emit_window trunc_text
    emit_form column_ref op (a ∷ c ∷ []) = lift (emit_column a c)
    emit_form param_ref op (n ∷ t ∷ []) = emit_param n t
    emit_form output_ref op (x ∷ []) = pure (quote_ident (node_text env.rt x) env.dialect)
    emit_form (unary f) op (x ∷ []) = do s ← go x; pure (f s)
    emit_form (binary f) op (x ∷ y ∷ []) = do l ← go x; r ← go y; pure (f l r)
    emit_form (variadic f) op (x ∷ xs) = do parts ← emit_each (x ∷ xs); pure (f parts)
    emit_form membership op (x ∷ y ∷ ys) = do
      target ← go x
      parts ← emit_each (y ∷ ys)
      pure ("(" <> (target <> (" IN (" <> (join ", " parts <> "))"))))
    emit_form between op (x ∷ y ∷ z ∷ []) = do
      target ← go x
      low ← go y
      high ← go z
      pure ("(" <> (target <> (" BETWEEN " <> (low <> (" AND " <> (high <> ")"))))))
    emit_form now op args = pure "CURRENT_TIMESTAMP"
    emit_form date_trunc op (p ∷ x ∷ []) = do s ← go x; pure (trunc_text (part_text p) s)
    emit_form extract op (p ∷ x ∷ []) = do
      s ← go x
      pure ("EXTRACT(" <> (env.rt.upper (part_text p) <> (" FROM " <> (s <> ")"))))
    emit_form case_when op (b ∷ bs) = do
      parts ← emit_branches (b ∷ bs)
      pure (join " " ("CASE" ∷ (parts ++ "END" ∷ [])))
    emit_form window op (x ∷ p ∷ o ∷ more) = emit_window x p o
    emit_form _ op args = reject op

    -- a list that is not empty
    unfoldable pub emit_list : Node → List Node → Action String
    unfolding form emit_form
    emit_list (word op) args = emit_form (form env.dialect op) (word op) args
    emit_list op args = reject op

  -- `_py_emit_expr`, with fuel for the nesting
  unfoldable pub emit_fuel : ℕ → Node → Action String
  unfolding emit_list
  emit_fuel zero x = raise fuel
  emit_fuel (suc n) (word s) = pure s
  emit_fuel (suc n) (atom _) = invalid
  emit_fuel (suc n) (list nil) = invalid
  emit_fuel (suc n) (list (cons op args)) = emit_list (emit_fuel n) op (to_list args)

unfoldable mutual
  pub height : Node → ℕ
  height (atom a) = 1
  height (list xs) = suc (heights xs)

  pub heights : Nodes → ℕ
  heights nil = 0
  heights (cons x xs) = max (height x) (heights xs)

-- `_py_emit_expr`
unfoldable pub emit_expr : Env → Node → Action String
unfolding emit_fuel height
emit_expr env x = emit_fuel env (height x) x
