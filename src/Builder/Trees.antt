-- ===== src/Builder/Trees.antt =====
-- The tree that the text of a builder parses to.
use mathlib.Core.Path.{subst}
use nlsqlc.Base.{
  ◌≡◌, refl, ap, ◌∙◌, List, [], ◌∷◌, ◌++◌, map, String, Option, none, some, All, Bool-cases, inl,
  inr, ◌==◌, if◌then◌else◌,
}
use nlsqlc.Base.Text.{join, is_space}
use nlsqlc.Base.Int.{ℤ, show_ℤ}
use nlsqlc.Base.Outcome.{value}
use nlsqlc.Sexpr.{Node, list, nil, cons, word, find_tokens, parse_tokens, parse_sexpr, is_run_char}
use nlsqlc.Sexpr.Numerals.{find_tokens-show_ℤ}
use nlsqlc.Sexpr.Parse.{flatten, IsWorded, parse_tokens_lem, parse_tokens-flatten}
use nlsqlc.Sexpr.RoundTrip.{IsRun}
use nlsqlc.Builder.{
  Query, JoinSpec, tagged, join_ir, field_ir, where_ir, group_ir, order_ir, clauses, to_ir,
}
use nlsqlc.Builder.Texts.{
  IsText, AreTexts, nodes, AreTexts-append, tagged-IsText, join-AreTexts, find_tokens-wrapped,
}

module _ (p : String → Node) where
  -- The text parses to `p s`.
  abbrev pub IsRead : String → Type 0
  IsRead s = parse_sexpr s ≡ value (p s)

  read-IsText : (s : String) → IsRead s → IsText s (p s)
  unfolding parse_sexpr
  read-IsText s h = let (w, e) = (parse_tokens_lem (find_tokens s) (p s)).0 h in (e, w)

  reads-AreTexts : (ss : List String) → All IsRead ss → AreTexts ss (map p ss)
  reads-AreTexts [] h = tt
  reads-AreTexts (s ∷ ss) h = (read-IsText s h.0, reads-AreTexts ss h.1)

  abbrev pub clause : String → List Node → Node
  clause tag ts = list (cons (word tag) (nodes ts))

  abbrev pub join_tree : JoinSpec → Node
  join_tree j = clause "join" (map p (j.kind ∷ j.table ∷ j.alias ∷ j.on ∷ []))

  abbrev pub field_tree : String × String → Node
  field_tree f = clause "field" (map p (f.0 ∷ f.1 ∷ []))

  abbrev pub where_trees : Option String → List Node
  where_trees none = []
  where_trees (some cond) = if cond == "" then [] else clause "where" (p cond ∷ []) ∷ []

  abbrev pub group_trees : List String → List Node
  group_trees [] = []
  group_trees (c ∷ cs) = clause "group-by" (map p (c ∷ cs)) ∷ []

  abbrev pub order_trees : Option (String × String) → List Node
  order_trees none = []
  order_trees (some (col, dir)) = clause "order-by" (map p (col ∷ dir ∷ [])) ∷ []

  -- the clauses of the query as trees
  abbrev pub clause_trees : Query → List Node
  clause_trees q =
      clause "from" (map p (q.table ∷ q.alias ∷ []))
      ∷ (map join_tree q.joins
          ++ (clause "select" (map field_tree q.fields)
              ∷ (where_trees q.where_
                  ++ (group_trees q.group_by
                      ++ (order_trees q.order_by
                          ++ clause "limit" (word (show_ℤ q.limit) ∷ []) ∷ [])))))

  -- the texts behind a condition and an order
  abbrev pub where_pieces : Option String → List String
  where_pieces none = []
  where_pieces (some cond) = if cond == "" then [] else cond ∷ []

  abbrev pub order_pieces : Option (String × String) → List String
  order_pieces none = []
  order_pieces (some (col, dir)) = col ∷ dir ∷ []

  -- Each text that the builder was given parses; an empty condition is none.
  pub record IsReadable (q : Query) : Type 0 where
    pub source : All IsRead (q.table ∷ q.alias ∷ [])
    pub joins : All (λ (j : JoinSpec). All IsRead (j.kind ∷ j.table ∷ j.alias ∷ j.on ∷ [])) q.joins
    pub fields : All (λ (f : String × String). All IsRead (f.0 ∷ f.1 ∷ [])) q.fields
    pub condition : All IsRead (where_pieces q.where_)
    pub groups : All IsRead q.group_by
    pub order : All IsRead (order_pieces q.order_by)

  clause-IsText :
      (tag : String) (ss : List String)
      → IsRun tag
      → All IsRead ss
      → IsText (tagged tag (join " " ss)) (clause tag (map p ss))
  clause-IsText tag ss h k =
      tagged-IsText tag (join " " ss) (map p ss) h
        (join-AreTexts ss (map p ss) (reads-AreTexts ss k))

  joins-AreTexts :
      (js : List JoinSpec)
      → All (λ (j : JoinSpec). All IsRead (j.kind ∷ j.table ∷ j.alias ∷ j.on ∷ [])) js
      → AreTexts (map join_ir js) (map join_tree js)
  unfolding join_ir join is_run_char is_space
  joins-AreTexts [] h = tt
  joins-AreTexts (j ∷ js) h = (
    clause-IsText "join" (j.kind ∷ j.table ∷ j.alias ∷ j.on ∷ []) (refl, (refl, (refl, (refl, tt))))
        h.0,
    joins-AreTexts js h.1,
  )

  fields-AreTexts :
      (fs : List (String × String))
      → All (λ (f : String × String). All IsRead (f.0 ∷ f.1 ∷ [])) fs
      → AreTexts (map field_ir fs) (map field_tree fs)
  unfolding field_ir join is_run_char is_space
  fields-AreTexts [] h = tt
  fields-AreTexts (f ∷ fs) h = (
    clause-IsText "field" (f.0 ∷ f.1 ∷ []) (refl, (refl, (refl, (refl, (refl, tt))))) h.0,
    fields-AreTexts fs h.1,
  )

  where-AreTexts :
      (o : Option String) → All IsRead (where_pieces o) → AreTexts (where_ir o) (where_trees o)
  unfolding where_ir join is_run_char is_space
  where-AreTexts none h = tt
  where-AreTexts (some c) h = elim (Bool-cases (c == "")) [
    | inl e ↦ rw e tt
    | inr e ↦ rw e (
      clause-IsText "where" (c ∷ []) (refl, (refl, (refl, (refl, (refl, tt)))))
          (subst (λ b. All IsRead (if b then [] else c ∷ [])) e h),
      tt,
    )
  ]

  group-AreTexts : (cs : List String) → All IsRead cs → AreTexts (group_ir cs) (group_trees cs)
  unfolding group_ir is_run_char is_space
  group-AreTexts [] h = tt
  group-AreTexts (c ∷ cs) h = (
    clause-IsText "group-by" (c ∷ cs)
        (refl, (refl, (refl, (refl, (refl, (refl, (refl, (refl, tt)))))))) h,
    tt,
  )

  order-AreTexts :
      (o : Option (String × String))
      → All IsRead (order_pieces o)
      → AreTexts (order_ir o) (order_trees o)
  unfolding order_ir join is_run_char is_space
  order-AreTexts none h = tt
  order-AreTexts (some (col, dir)) h = (
    clause-IsText "order-by" (col ∷ dir ∷ [])
        (refl, (refl, (refl, (refl, (refl, (refl, (refl, (refl, tt)))))))) h,
    tt,
  )

  limit-IsText :
      (n : ℤ) → IsText (tagged "limit" (show_ℤ n)) (clause "limit" (word (show_ℤ n) ∷ []))
  unfolding is_run_char is_space
  limit-IsText n =
      tagged-IsText "limit" (show_ℤ n) (word (show_ℤ n) ∷ [])
        (refl, (refl, (refl, (refl, (refl, tt))))) (find_tokens-show_ℤ n, (tt, tt))

  clauses-AreTexts : (q : Query) → IsReadable q → AreTexts (clauses q) (clause_trees q)
  unfolding clauses join is_run_char is_space
  clauses-AreTexts q h = (
    clause-IsText "from" (q.table ∷ q.alias ∷ []) (refl, (refl, (refl, (refl, tt)))) h.source,
    AreTexts-append _ _ _ _ (joins-AreTexts q.joins h.joins) (
      tagged-IsText "select" (join " " (map field_ir q.fields)) (map field_tree q.fields)
          (refl, (refl, (refl, (refl, (refl, (refl, tt))))))
          (join-AreTexts _ _ (fields-AreTexts q.fields h.fields)),
      AreTexts-append _ _ _ _ (where-AreTexts q.where_ h.condition) (
          AreTexts-append _ _ _ _ (group-AreTexts q.group_by h.groups) (
            AreTexts-append _ _ _ _ (order-AreTexts q.order_by h.order)
              (limit-IsText q.limit, tt))),
    ),
  )

  abbrev pub query_tree : Query → Node
  query_tree q = list (
      cons (word "nlsql")
        (cons (word "2") (cons (list (cons (word "query") (nodes (clause_trees q)))) nil)))

  query-tokens :
      (q : Query)
      → IsReadable q
      → (find_tokens (to_ir q) ≡ flatten (query_tree q)) × IsWorded (query_tree q)
  unfolding to_ir
  query-tokens q h =
      let (e, w) = join-AreTexts (clauses q) (clause_trees q) (clauses-AreTexts q h) in
      (
        find_tokens-wrapped (join " " (clauses q)) (nodes (clause_trees q)) e,
        (tt, (tt, ((tt, w), tt))),
      )

  -- If every text that the builder was given parses, the text of the builder parses, to the tree whose
  -- clauses stand in the order from, joins, select, where, group-by, order-by and limit, and hold the
  -- trees of those texts; a clause that was not given is left out.
  pub parse_sexpr-to_ir : (q : Query) → IsReadable q → parse_sexpr (to_ir q) ≡ value (query_tree q)
  unfolding parse_sexpr
  parse_sexpr-to_ir q h =
      let (e, w) = query-tokens q h in ap parse_tokens e ∙ parse_tokens-flatten (query_tree q) w
