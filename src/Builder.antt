-- ===== src/Builder.antt =====
-- bindings/python/nlsql.py: the fluent builder `Query`. A method returns the changed builder.
pub mod Texts
pub mod Trees
use nlsqlc.Base.{
  String, ◌<>◌, Bool, Option, none, some, List, [], ◌∷◌, ◌++◌, map, if◌then◌else◌, ◌==◌,
}
use nlsqlc.Base.Text.{join}
use nlsqlc.Base.Int.{ℤ, pos, show_ℤ}

-- `Query`; a join is (type, table, alias, condition)
pub record JoinSpec : Type 0 where
  pub kind : String
  pub table : String
  pub alias : String
  pub on : String

pub record Query : Type 0 where
  pub table : String
  pub alias : String
  pub fields : List (String × String)
  pub joins : List JoinSpec
  pub where_ : Option String
  pub group_by : List String
  pub order_by : Option (String × String)
  pub limit : ℤ

abbrev pub new_query : String → Option String → Query
new_query table alias = record {
  table = table;
  alias = elim alias [ none ↦ table | some a ↦ if a == "" then table else a ];
  fields = [];
  joins = [];
  where_ = none;
  group_by = [];
  order_by = none;
  limit = pos 100;
}

abbrev pub select : String → String → Query → Query
select expr alias q = record q { fields = q.fields ++ (expr, alias) ∷ [] }

abbrev pub add_join : String → String → String → String → Query → Query
add_join table alias on kind q = record q {
  joins = q.joins ++ record { kind = kind; table = table; alias = alias; on = on } ∷ [];
}

abbrev pub where_clause : String → Query → Query
where_clause cond q = record q { where_ = some cond }

abbrev pub group_by : List String → Query → Query
group_by cols q = record q { group_by = q.group_by ++ cols }

abbrev pub order_by : String → Bool → Query → Query
order_by col desc q = record q { order_by = some (col, if desc then "desc" else "asc") }

abbrev pub limit : ℤ → Query → Query
limit n q = record q { limit = n }

-- `f"({tag} {body})"`
abbrev pub tagged : String → String → String
tagged tag body = "(" <> (tag <> (" " <> (body <> ")")))

unfoldable pub join_ir : JoinSpec → String
join_ir j = tagged "join" (j.kind <> (" " <> (j.table <> (" " <> (j.alias <> (" " <> j.on))))))

unfoldable pub field_ir : String × String → String
field_ir (f, alias) = tagged "field" (f <> (" " <> alias))

unfoldable pub where_ir : Option String → List String
where_ir none = []
where_ir (some cond) = if cond == "" then [] else tagged "where" cond ∷ []

unfoldable pub group_ir : List String → List String
group_ir [] = []
group_ir (c ∷ cs) = tagged "group-by" (join " " (c ∷ cs)) ∷ []

unfoldable pub order_ir : Option (String × String) → List String
order_ir none = []
order_ir (some (col, dir)) = tagged "order-by" (col <> (" " <> dir)) ∷ []

-- `clauses`
unfoldable pub clauses : Query → List String
unfolding join_ir field_ir where_ir group_ir order_ir
clauses q =
    tagged "from" (q.table <> (" " <> q.alias))
    ∷ (map join_ir q.joins
        ++ (tagged "select" (join " " (map field_ir q.fields))
            ∷ (where_ir q.where_
                ++ (group_ir q.group_by
                    ++ (order_ir q.order_by ++ tagged "limit" (show_ℤ q.limit) ∷ [])))))

unfoldable pub to_ir : Query → String
unfolding clauses
to_ir q = "(nlsql 2 (query " <> (join " " (clauses q) <> "))")
