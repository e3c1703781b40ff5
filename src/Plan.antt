-- ===== src/Plan.antt =====
-- bindings/python/nlsql.py, the first part of `_py_compile_ir_engine`: the root of the tree, its
-- clauses, and the tables that "from" and "join" name.
pub mod Tables
use nlsqlc.Base.{
  ℕ, String, ◌<>◌, Bool, ◌&&◌, ◌||◌, Option, none, some, List, [], ◌∷◌, ◌++◌, if◌then◌else◌, ◌==◌,
}
use nlsqlc.Base.Dict
use nlsqlc.Base.Outcome.{
  Outcome, value, raised, returned, Status, Failure, index_error, type_error, ◌>>=◌,
}
use nlsqlc.Runtime.{Runtime}
use nlsqlc.Sexpr.{Atom, str, Node, atom, list, nil, cons, word, is_word, to_list, node_text}
use nlsqlc.Optimizer.{atom_eq}
use nlsqlc.Catalog.{TableKey, PySchema, PyPolicy, has_table, is_allowed}
use nlsqlc.Emit.{Sources, hashable}

invalid_root : Outcome (List Node)
invalid_root = returned Failure.parse "PARSE: invalid root structure"

check_query : List Node → Outcome (List Node)
unfolding invalid_root
check_query [] = raised (index_error "list index out of range")
check_query (tag ∷ items) = if is_word "query" tag then value items else invalid_root

-- the items of the query, `tree[2][1:]`
unfoldable pub check_root : Node → Outcome (List Node)
unfolding check_query
check_root (list (cons tag (cons version (cons (list q) more)))) =
    if is_word "nlsql" tag && (is_word "1" version || is_word "2" version)
    then check_query (to_list q)
    else invalid_root
check_root _ = invalid_root

-- What stands behind the tag of each clause; of two clauses with one tag the later counts.
pub record Clauses : Type 0 where
  pub from : Option (List Node)
  pub select : Option (List Node)
  pub where_ : Option (List Node)
  pub group_by : Option (List Node)
  pub order_by : Option (List Node)
  pub limit : Option (List Node)
  pub joins : List (List Node)

abbrev pub no_clauses : Clauses
no_clauses = record {
  from = none;
  select = none;
  where_ = none;
  group_by = none;
  order_by = none;
  limit = none;
  joins = [];
}

put_clause : Node → List Node → Clauses → Clauses
put_clause tag args c =
    if is_word "from" tag
    then record c { from = some args }
    else if is_word "select" tag
    then record c { select = some args }
    else if is_word "where" tag
    then record c { where_ = some args }
    else if is_word "group-by" tag
    then record c { group_by = some args }
    else if is_word "order-by" tag
    then record c { order_by = some args }
    else if is_word "limit" tag
    then record c { limit = some args }
    else if is_word "join" tag
    then record c { joins = c.joins ++ args ∷ [] }
    else c

put_item : Node → Clauses → Clauses
unfolding put_clause
put_item (list (cons tag args)) c = put_clause tag (to_list args) c
put_item _ c = c

-- the loop over `q[1:]`
unfoldable pub scan_clauses : List Node → Clauses → Clauses
unfolding put_item
scan_clauses [] c = c
scan_clauses (x ∷ xs) c = scan_clauses xs (put_item x c)

abbrev pub public_table : String → TableKey
public_table name = record { schema = "public"; table = name }

-- `keyword` is the value of `jt_map`
pub record Join : Type 0 where
  pub keyword : String
  pub table : String
  pub alias : Atom
  pub on : Node

pub record Plan : Type 0 where
  pub table : String
  pub alias : Atom
  pub joins : List Join
  pub sources : Sources

-- `jt_map.get(jtype_str, "INNER JOIN")`
unfoldable pub join_keyword : Atom → String
join_keyword (str s) =
    if s == "left"
    then "LEFT JOIN"
    else if s == "right"
    then "RIGHT JOIN"
    else if s == "full"
    then "FULL OUTER JOIN"
    else "INNER JOIN"
join_keyword _ = "INNER JOIN"

module _ (rt : Runtime) (schema : PySchema) (policy : PyPolicy) where
  -- the test of one table, with the text of its error; the keys are texts only
  unfoldable pub check_table : Node → String → Outcome String
  check_table (word t) error =
      if has_table schema (public_table t) && is_allowed policy (public_table t)
      then value t
      else returned Failure.policy error
  check_table (atom _) error = returned Failure.policy error
  check_table (list _) error = raised (type_error "unhashable type: 'list'")

  abbrev add_source : Atom → String → Sources → Sources
  add_source alias t sources = Dict.insert (atom_eq rt) alias (public_table t) sources

  unfoldable pub resolve_join : List Node → Sources → Outcome (Join × Sources)
  resolve_join (kind ∷ table ∷ alias ∷ on ∷ more) sources = do
    t ← check_table table ("POLICY: joined table not allowed " <> node_text rt table)
    a ← hashable alias
    k ← hashable kind
    value
        (record { keyword = join_keyword k; table = t; alias = a; on = on }, add_source a t sources)
  resolve_join _ sources = raised (index_error "list index out of range")

  unfoldable pub resolve_joins : List (List Node) → Sources → Outcome (List Join × Sources)
  resolve_joins [] sources = value ([], sources)
  resolve_joins (j ∷ js) sources = do
    one ← resolve_join j sources
    rest ← resolve_joins js one.1
    value (one.0 ∷ rest.0, rest.1)

  unfoldable pub resolve_from : Node → Node → List (List Node) → Outcome Plan
  resolve_from table alias joins = do
    a ← hashable alias
    t ← check_table table "POLICY: table not allowed"
    rest ← resolve_joins joins ((a, public_table t) ∷ [])
    value (record { table = t; alias = a; joins = rest.0; sources = rest.1 })

  unfoldable pub missing : Outcome Plan
  missing = returned Failure.parse "PARSE: missing from or select"

  unfoldable pub resolve_clause : Option (List Node) → List (List Node) → Outcome Plan
  resolve_clause (some (table ∷ [])) joins = resolve_from table table joins
  resolve_clause (some (table ∷ alias ∷ more)) joins = resolve_from table alias joins
  resolve_clause _ joins = missing

  -- `if not select_clause`
  unfoldable pub require_select : Option (List Node) → Outcome Plan → Outcome Plan
  require_select none plan = missing
  require_select (some items) plan = plan

  unfoldable pub resolve : Clauses → Outcome Plan
  unfolding check_table hashable join_keyword resolve_join resolve_joins resolve_from missing
      resolve_clause require_select
  resolve c = require_select c.select (resolve_clause c.from c.joins)
