-- ===== src/Tests.antt =====
-- Runs of the model on small inputs, and the theorems at concrete inputs.
use nlsqlc.Base.{String, ◌≡◌, ◌≢◌, ◌↔◌, refl, [], ◌∷◌, map, All, some}
use nlsqlc.Base.Text.{contains, join}
use nlsqlc.Base.Outcome.{value, raised, Status, Exception}
use nlsqlc.Samples.{plain, orders, customers, sample_schema, sample_policy}
use nlsqlc.Catalog.{Dialect, postgres, sqlserver}
use nlsqlc.Catalog.Build.{build_schema, build_policy}
use nlsqlc.Sexpr.{
  atom, int, Node, str, list, cons, nil, word, parse_tokens, parse_sexpr, canonical_ir, find_tokens,
  push_token,
}
use nlsqlc.Sexpr.Parse.{parse_tokens_lem, IsWorded, flatten}
use nlsqlc.Sexpr.RoundTrip.{parse_sexpr-canonical_ir}
use nlsqlc.Optimizer.{atom_eq, optimize, optimize_list}
use nlsqlc.Optimizer.Idempotent.{optimize-optimize}
use nlsqlc.Base.Int.{pos, int_of_text, ◌+ℤ◌}
use nlsqlc.Action.Extending.{Numbered}
use nlsqlc.Emit.{emit_expr}
use nlsqlc.Emit.Rule.{emit_expr-NoFuel}
use nlsqlc.Plan.{Clauses, no_clauses, Plan, resolve}
use nlsqlc.Plan.Tables.{SourcePermitted, DistinctAliases, from_source, source_of, resolve-sources}
use nlsqlc.Body.Rule.{IsExpected}
use nlsqlc.Engine.{PyCompileResult, env_of, compile_ir_engine}
use nlsqlc.Engine.Run.{plan_of}
use nlsqlc.Engine.Safety.{
  IsPredicated, IsUndenied, tenant_predicates, tables_permitted, params-Numbered, columns_denied,
}
use nlsqlc.Engine.Figures.{AreExact, clauses_of, compile_ir_engine-AreExact}
use nlsqlc.Api.{SetOperation, compile_cte, compile_set}
use nlsqlc.Api.Combined.{compile_cte-status}
use nlsqlc.Question.{compile_question}
use nlsqlc.Question.Dialects.{compile_question-dialect}

abbrev joined : String
joined =
    "(nlsql 2 (query (from orders o) (join inner customers c (eq (column o customer_id) (column c id))) (select (field (column o id) order_id) (field (sum (column o total_amount)) total)) (where (gt (column o total_amount) (param min_val decimal))) (group-by (column c region)) (order-by (ref total) desc) (limit 10)))"

abbrev compile : Dialect → String → PyCompileResult
compile d ir = compile_ir_engine plain sample_schema sample_policy d ir

joined_sql :
    (compile postgres joined).sql
    ≡ "SELECT \"o\".\"id\" AS \"order_id\", SUM(\"o\".\"total_amount\") AS \"total\" FROM \"public\".\"orders\" AS \"o\" INNER JOIN \"public\".\"customers\" AS \"c\" ON (\"o\".\"customer_id\" = \"c\".\"id\") WHERE (\"o\".\"total_amount\" > $1) AND \"o\".\"tenant_id\" = $2 AND \"c\".\"tenant_id\" = $3 GROUP BY \"c\".\"region\" ORDER BY \"total\" DESC LIMIT 10"
unfolding compile_ir_engine build_schema build_policy
joined_sql = refl

joined_ok : (compile postgres joined).status ≡ Status.ok
unfolding compile_ir_engine build_schema build_policy
joined_ok = refl

tenant_predicates_example :
    (plan : Plan) × (plan_of plain sample_schema sample_policy joined ≡ value plan)
    × All
        (IsPredicated plain sample_schema sample_policy postgres plan (compile postgres joined))
        plan.sources
tenant_predicates_example =
    tenant_predicates plain sample_schema sample_policy postgres joined joined_ok

tables_permitted_example :
    (plan : Plan) × (plan_of plain sample_schema sample_policy joined ≡ value plan)
    × All
        (SourcePermitted plain sample_schema sample_policy)
        (from_source plain sample_schema sample_policy plan ∷ map source_of plan.joins)
tables_permitted_example =
    tables_permitted plain sample_schema sample_policy postgres joined joined_ok

compile_ir_engine-AreExact_example :
    (c : Clauses) × (plan : Plan) × (clauses_of plain joined ≡ value c)
    × (resolve plain sample_schema sample_policy c ≡ value plan)
    × AreExact plain sample_schema sample_policy postgres c plan (compile postgres joined)
compile_ir_engine-AreExact_example =
    compile_ir_engine-AreExact plain sample_schema sample_policy postgres joined joined_ok

params-Numbered_example :
    Numbered 0 (compile postgres joined).params
    × All (IsExpected sample_policy) (compile postgres joined).params
params-Numbered_example =
    params-Numbered plain sample_schema sample_policy postgres joined joined_ok

columns_denied_example :
    All (IsUndenied plain sample_schema sample_policy postgres joined) sample_schema.columns
columns_denied_example = columns_denied plain sample_schema sample_policy postgres joined joined_ok

abbrev spaced : String
spaced = " (nlsql\n 1 (query( from t)) ) "

abbrev spaced_tree : Node
spaced_tree = list (
    cons (word "nlsql") (
      cons (word "1") (
        cons
          (list (cons (word "query") (cons (list (cons (word "from") (cons (word "t") nil))) nil)))
          nil)))

spaced_parse : parse_sexpr spaced ≡ value spaced_tree
unfolding parse_sexpr find_tokens push_token
spaced_parse = refl

spaced_canonical : canonical_ir spaced_tree ≡ "(nlsql 1 (query (from t)))"
unfolding canonical_ir join
spaced_canonical = refl

parse_sexpr-canonical_ir_example : parse_sexpr (canonical_ir spaced_tree) ≡ value spaced_tree
parse_sexpr-canonical_ir_example = parse_sexpr-canonical_ir spaced spaced_tree spaced_parse

parse_tokens_lem_example :
    (parse_tokens (find_tokens spaced) ≡ value spaced_tree)
    ↔ (IsWorded spaced_tree × (find_tokens spaced ≡ flatten spaced_tree))
parse_tokens_lem_example = parse_tokens_lem (find_tokens spaced) spaced_tree

abbrev on_customer : Node
on_customer = word "true"

abbrev the_clauses : Clauses
the_clauses = record no_clauses {
  from = some (word "orders" ∷ word "o" ∷ []);
  select = some [];
  joins = (word "left" ∷ word "customers" ∷ word "c" ∷ on_customer ∷ []) ∷ [];
}

abbrev the_plan : Plan
the_plan = record {
  table = "orders";
  alias = str "o";
  joins =
      record { keyword = "LEFT JOIN"; table = "customers"; alias = str "c"; on = on_customer } ∷ [];
  sources = (str "o", orders) ∷ (str "c", customers) ∷ [];
}

resolve_clauses : resolve plain sample_schema sample_policy the_clauses ≡ value the_plan
unfolding compile_ir_engine build_schema build_policy
resolve_clauses = refl

distinct : DistinctAliases plain ((str "o", orders) ∷ []) the_plan.joins
unfolding atom_eq
distinct = ((refl, tt), tt)

resolve-sources_example :
    the_plan.sources
    ≡ from_source plain sample_schema sample_policy the_plan ∷ map source_of the_plan.joins
resolve-sources_example =
    resolve-sources plain sample_schema sample_policy the_clauses the_plan resolve_clauses distinct

emit_expr-NoFuel_example :
    emit_expr (env_of plain sample_schema sample_policy postgres the_plan) on_customer []
    ≢ raised Exception.fuel
emit_expr-NoFuel_example =
    emit_expr-NoFuel (env_of plain sample_schema sample_policy postgres the_plan) on_customer []

abbrev simple : String
simple = "(nlsql 1 (query (from orders o) (select (field (column o id) id))))"

abbrev united : String → String → SetOperation → PyCompileResult
united = compile_set plain sample_schema sample_policy postgres

compile_cte-status_example :
    (compile_cte plain sample_schema sample_policy postgres "recent" simple "(").status
    ≡ (compile postgres simple).status
compile_cte-status_example =
    compile_cte-status plain sample_schema sample_policy postgres "recent" simple "("

compile_question-dialect_example :
    compile_question plain sample_schema sample_policy "count orders" sqlserver
    ≡ compile_question plain sample_schema sample_policy "count orders" postgres
compile_question-dialect_example =
    compile_question-dialect plain sample_schema sample_policy "count orders" sqlserver postgres

abbrev pair_of : String → Node → Node → Node
pair_of op x y = list (cons (word op) (cons x (cons y nil)))

abbrev negated : Node → Node
negated x = list (cons (word "not") (cons x nil))

abbrev foldable : Node
foldable =
    pair_of "or" (pair_of "eq" (pair_of "add" (word "1") (word "2")) (word "x"))
      (negated (negated (pair_of "eq" (word "a") (word "b"))))

abbrev folded : Node
folded =
    pair_of "or" (pair_of "eq" (atom (int (pos 3))) (word "x")) (pair_of "eq" (word "a") (word "b"))

foldable_value : optimize plain foldable ≡ value folded
unfolding optimize optimize_list contains int_of_text ◌+ℤ◌
foldable_value = refl

optimize-optimize_example : optimize plain folded ≡ value folded
optimize-optimize_example = optimize-optimize plain foldable folded foldable_value

-- A folded constant is rejected, where the same sum of a column is not.
sum_rejected :
    (compile postgres "(nlsql 1 (query (from orders o) (select (field (add 1 2) x))))").error
    ≡ "PARSE: invalid expression"
unfolding compile_ir_engine build_schema build_policy
sum_rejected = refl

sum_accepted :
    (compile postgres
      "(nlsql 1 (query (from orders o) (select (field (add (column o id) 2) x))))").status
    ≡ Status.ok
unfolding compile_ir_engine build_schema build_policy
sum_accepted = refl

-- The text of an atom comes before the tenant predicate and ends in a comment.
commented :
    (compile postgres
      "(nlsql 1 (query (from orders o) (select (field (column o id) x)) (where 1=1--)))").sql
    ≡ "SELECT \"o\".\"id\" AS \"x\" FROM \"public\".\"orders\" AS \"o\" WHERE 1=1-- AND \"o\".\"tenant_id\" = $1 LIMIT 100"
unfolding compile_ir_engine build_schema build_policy
commented = refl
