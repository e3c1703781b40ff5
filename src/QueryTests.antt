-- ===== src/QueryTests.antt =====
-- Runs of the models of the builder `Query` and of `diff`, and their theorems at concrete inputs.
use nlsqlc.Base.{String, ◌≡◌, refl, some, [], ◌∷◌, true}
use nlsqlc.Base.Int.{pos}
use nlsqlc.Base.Outcome.{value, raised, returned}
use nlsqlc.Sexpr.{Node, word, parse_sexpr, find_tokens, push_token}
use nlsqlc.Base.Text.{contains, join, decimal}
use nlsqlc.Samples.{plain, sample_schema, sample_policy}
use nlsqlc.Optimizer.{optimize, optimize_list}
use nlsqlc.Base.Dict
use nlsqlc.Catalog.{postgres, is_denied}
use nlsqlc.Catalog.Build.{build_schema, build_policy}
use nlsqlc.Engine.{compile_ir_engine, check_denied}
use nlsqlc.Sexpr.{canonical_ir}
use nlsqlc.Base.Outcome.{Status, Failure}
use nlsqlc.Base.Int.{int_of_text, ◌+ℤ◌, show_ℤ}
use nlsqlc.Explain.{Difference, diff}
use nlsqlc.Explain.Identical.{parse_sexpr-IsPlain, diff-compile}
use nlsqlc.Builder.{
  Query, new_query, select, add_join, where_clause, group_by, order_by, limit, to_ir,
}
use nlsqlc.Builder.Trees.{IsReadable, query_tree, parse_sexpr-to_ir}

abbrev parsed : String → Node
parsed s = elim (parse_sexpr s) [ value t ↦ t | raised e ↦ word "" | returned f m ↦ word "" ]

abbrev sample : Query
sample = limit (pos 10) (
    order_by "(ref total)" true (
      group_by ("(column c region)" ∷ []) (
        where_clause "(gt (column o total_amount) 5)" (
          add_join "customers" "c" "(eq (column o customer_id) (column c id))" "inner"
            (select "(sum (column o total_amount))" "total" (new_query "orders" (some "o")))))))

sample-IsReadable : IsReadable parsed sample
unfolding parse_sexpr find_tokens push_token
sample-IsReadable = record {
  source = (refl, (refl, tt));
  joins = ((refl, (refl, (refl, (refl, tt)))), tt);
  fields = ((refl, (refl, tt)), tt);
  condition = (refl, tt);
  groups = (refl, tt);
  order = (refl, (refl, tt));
}

parse_sexpr-to_ir_example : parse_sexpr (to_ir sample) ≡ value (query_tree parsed sample)
parse_sexpr-to_ir_example = parse_sexpr-to_ir parsed sample sample-IsReadable

abbrev short : String
short = "(nlsql 2 (query (from orders o) (select (field (column o id) id)) (where (column o id))))"

-- The same query with a double negation
abbrev negated : String
negated =
    "(nlsql 2 (query (from orders o) (select (field (column o id) id)) (where (not (not (column o id))))))"

abbrev no_difference : Difference
no_difference = record { identical = true; ir1_canonical = short; ir2_canonical = short }

short_parses : parse_sexpr short ≡ value (parsed short)
unfolding parse_sexpr find_tokens push_token
short_parses = refl

same_test :
    check_denied sample_policy short sample_schema.columns
    ≡ check_denied sample_policy negated sample_schema.columns
unfolding check_denied is_denied Dict.member build_schema build_policy
same_test = refl

diff-compile_example :
    compile_ir_engine plain sample_schema sample_policy postgres short
    ≡ compile_ir_engine plain sample_schema sample_policy postgres negated
unfolding parse_sexpr find_tokens push_token optimize optimize_list diff canonical_ir join contains
    int_of_text
diff-compile_example =
    diff-compile plain sample_schema sample_policy postgres short negated (parsed short)
      (parsed short) no_difference refl refl (parse_sexpr-IsPlain short _ short_parses)
      (parse_sexpr-IsPlain short _ short_parses) refl refl same_test

abbrev sum_query : String
sum_query =
    "(nlsql 2 (query (from orders o) (select (field (column o id) id)) (where (eq (column o id) (add 1 2)))))"

abbrev number_query : String
number_query =
    "(nlsql 2 (query (from orders o) (select (field (column o id) id)) (where (eq (column o id) 3))))"

-- `diff` calls these two identical, but the folded constant is rejected by the emitter.
sum_is_number :
    diff plain sum_query number_query
    ≡ value
        (record { identical = true; ir1_canonical = number_query; ir2_canonical = number_query })
unfolding diff parse_sexpr find_tokens push_token optimize optimize_list canonical_ir contains
    int_of_text ◌+ℤ◌ join show_ℤ decimal
sum_is_number = refl

sum_fails :
    (compile_ir_engine plain sample_schema sample_policy postgres sum_query).status
    ≡ Status.failed Failure.parse
unfolding compile_ir_engine build_schema build_policy
sum_fails = refl

number_compiles :
    (compile_ir_engine plain sample_schema sample_policy postgres number_query).status ≡ Status.ok
unfolding compile_ir_engine build_schema build_policy
number_compiles = refl
