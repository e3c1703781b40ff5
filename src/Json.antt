-- ===== src/Json.antt =====
-- The values of Python's `json`, and the dictionaries of bindings/python/nlsql.py as such values.
use nlsqlc.Base.{
  ℕ, String, Bool, true, false, not, Option, none, some, List, [], ◌∷◌, if◌then◌else◌, ◌==◌,
}
use nlsqlc.Base.Int.{ℤ, pos, eq_ℤ}
use nlsqlc.Runtime.{Runtime}
use nlsqlc.Sexpr.{Atom, str, int, flt, Node, Nodes, atom, list, nil, cons}
use nlsqlc.Catalog.{Origin, from_user, from_policy, from_trusted}
use nlsqlc.Action.{Param}
use nlsqlc.Explain.{Explanation, Difference}

mutual
  pub data Json : Type 0 where
    null : Json
    boolean : Bool → Json
    number : ℤ → Json
    -- the `repr` of a float
    float : String → Json
    text : String → Json
    array : Items → Json
    object : Fields → Json

  pub data Items : Type 0 where
    no_items : Items
    item : Json → Items → Items

  -- a dictionary; no key stands twice in what `json.loads` gives
  pub data Fields : Type 0 where
    no_fields : Fields
    entry : String → Json → Fields → Fields

abbrev pub natural : ℕ → Json
natural n = number (pos n)

-- `d.get(key)`; `none` for a key that is not there
unfoldable pub get : String → Fields → Option Json
get key no_fields = none
get key (entry k v rest) = if key == k then some v else get key rest

abbrev or_default : Json → Option Json → Json
or_default d none = d
or_default d (some v) = v

-- `d.get(key, default)`
unfoldable pub get_or : String → Json → Fields → Json
unfolding get
get_or key d fields = or_default d (get key fields)

-- `bool(v)`
unfoldable pub truthy : Runtime → Json → Bool
truthy rt null = false
truthy rt (boolean b) = b
truthy rt (number n) = not (eq_ℤ n (pos 0))
truthy rt (float f) = not (rt.float_eq_int f (pos 0))
truthy rt (text s) = not (s == "")
truthy rt (array no_items) = false
truthy rt (array (item v vs)) = true
truthy rt (object no_fields) = false
truthy rt (object (entry k v vs)) = true

abbrev atom_json : Atom → Json
atom_json (str s) = text s
atom_json (int i) = number i
atom_json (flt f) = float f

-- a tree is a list of lists
mutual
  pub node_json : Node → Json
  node_json (atom a) = atom_json a
  node_json (list ns) = array (nodes_json ns)

  nodes_json : Nodes → Items
  nodes_json nil = no_items
  nodes_json (cons n ns) = item (node_json n) (nodes_json ns)

-- the `NLSQL_PARAM_...` codes
unfoldable pub source_code : Origin → ℕ
source_code from_user = 0
source_code from_policy = 1
source_code from_trusted = 2

unfoldable pub param_json : Param → Json
unfolding source_code
param_json p = object (
    entry "position" (natural p.position) (
      entry "name" (node_json p.name) (
        entry "type" (natural p.type) (
          entry "source" (natural (source_code p.source))
            (entry "runtime_required" (natural 1) no_fields)))))

params_items : List Param → Items
unfolding param_json
params_items [] = no_items
params_items (p ∷ ps) = item (param_json p) (params_items ps)

unfoldable pub params_json : List Param → Json
unfolding params_items
params_json ps = array (params_items ps)

-- what `explain` returns
unfoldable pub explanation_json : Explanation → Json
unfolding params_json
explanation_json e = object (
    entry "status" (text e.status) (
      entry "plan_ascii" (text e.plan_ascii) (
        entry "complexity" (natural e.complexity) (
          entry "risk" (text e.risk) (
            entry "sql" (text e.sql)
              (entry "params" (params_json e.params) (entry "error" (text e.error) no_fields)))))))

-- what `diff` returns
unfoldable pub difference_json : Difference → Json
difference_json d = object (
    entry "identical" (boolean d.identical) (
      entry "ir1_canonical" (text d.ir1_canonical)
        (entry "ir2_canonical" (text d.ir2_canonical) no_fields)))
