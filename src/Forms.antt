-- ===== src/Forms.antt =====
-- bindings/python/nlsql.py: what differs from dialect to dialect (`_py_quote_ident`, the
-- placeholders), and the operators of `_py_emit_expr` with the text that each gives.
use nlsqlc.Base.{ℕ, String, ◌<>◌, List, if◌then◌else◌, ◌==◌}
use nlsqlc.Base.Text.{join, decimal}
use nlsqlc.Catalog.{Dialect, postgres, sqlite, duckdb, mysql, sqlserver, other}

-- `_py_quote_ident`
unfoldable pub quote_ident : String → Dialect → String
quote_ident s mysql = "`" <> (s <> "`")
quote_ident s sqlserver = "[" <> (s <> "]")
quote_ident s _ = "\"" <> (s <> "\"")

unfoldable pub placeholder : Dialect → ℕ → String
placeholder postgres pos = "$" <> decimal pos
placeholder duckdb pos = "$" <> decimal pos
placeholder sqlserver pos = "@p" <> decimal pos
placeholder sqlite pos = "?" <> decimal pos
placeholder _ pos = "?"

-- How an operator is emitted. `column_ref`, `param_ref` and `output_ref` are "column", "param" and
-- "ref"; a fixed number of operands stands for the test on `len(expr)`, and `variadic` for
-- `len(expr) >= 2`.
pub data Form : Type 0 where
  column_ref param_ref output_ref : Form
  unary : (String → String) → Form
  binary : (String → String → String) → Form
  variadic : (List String → String) → Form
  membership between now date_trunc extract case_when window : Form
  unsupported : Form

-- `f"{name}({sub})"`
abbrev call : String → String → String
call name sub = name <> ("(" <> (sub <> ")"))

-- `f"({l} {op} {r})"`
abbrev infixed : String → String → String → String
infixed op l r = "(" <> (l <> (" " <> (op <> (" " <> (r <> ")")))))

abbrev ilike_text : Dialect → String → String → String
ilike_text postgres l r = infixed "ILIKE" l r
ilike_text duckdb l r = infixed "ILIKE" l r
ilike_text _ l r = infixed "LIKE" (call "LOWER" l) (call "LOWER" r)

abbrev concat_text : Dialect → List String → String
concat_text mysql parts = call "CONCAT" (join ", " parts)
concat_text sqlserver parts = call "CONCAT" (join ", " parts)
concat_text (other n) parts = call "CONCAT" (join ", " parts)
concat_text _ parts = "(" <> (join " || " parts <> ")")

-- the tests on `op`; those on the number of operands are in `emit_form`
unfoldable pub scalar_form : Dialect → String → Form
scalar_form d op =
    if op == "not"
    then unary (λ s. "(NOT " <> (s <> ")"))
    else if op == "in"
    then membership
    else if op == "between"
    then between
    else if op == "like"
    then binary (infixed "LIKE")
    else if op == "ilike"
    then binary (ilike_text d)
    else if op == "is-null"
    then unary (λ s. "(" <> (s <> " IS NULL)"))
    else if op == "is-not-null"
    then unary (λ s. "(" <> (s <> " IS NOT NULL)"))
    else if op == "lower"
    then unary (call "LOWER")
    else if op == "upper"
    then unary (call "UPPER")
    else if op == "trim"
    then unary (call "TRIM")
    else if op == "abs"
    then unary (call "ABS")
    else if op == "coalesce"
    then variadic (λ parts. call "COALESCE" (join ", " parts))
    else if op == "concat"
    then variadic (concat_text d)
    else if op == "now"
    then now
    else if op == "date-trunc"
    then date_trunc
    else if op == "extract"
    then extract
    else if op == "case"
    then case_when
    else if op == "window"
    then window
    else unsupported

unfoldable pub operator_form : Dialect → String → Form
unfolding scalar_form
operator_form d op =
    if op == "eq"
    then binary (infixed "=")
    else if op == "gte"
    then binary (infixed ">=")
    else if op == "gt"
    then binary (infixed ">")
    else if op == "lte"
    then binary (infixed "<=")
    else if op == "lt"
    then binary (infixed "<")
    else if op == "neq"
    then binary (infixed "<>")
    else if op == "mul"
    then binary (infixed "*")
    else if op == "add"
    then binary (infixed "+")
    else if op == "sub"
    then binary (infixed "-")
    else if op == "div"
    then binary (infixed "/")
    else if op == "and"
    then variadic (λ parts. "(" <> (join " AND " parts <> ")"))
    else if op == "or"
    then variadic (λ parts. "(" <> (join " OR " parts <> ")"))
    else scalar_form d op

unfoldable pub form : Dialect → String → Form
unfolding operator_form
form d op =
    if op == "column"
    then column_ref
    else if op == "param"
    then param_ref
    else if op == "ref"
    then output_ref
    else if op == "sum"
    then unary (call "SUM")
    else if op == "avg"
    then unary (call "AVG")
    else if op == "count"
    then unary (call "COUNT")
    else if op == "min"
    then unary (call "MIN")
    else if op == "max"
    then unary (call "MAX")
    else if op == "count-distinct"
    then unary (λ s. "COUNT(DISTINCT " <> (s <> ")"))
    else if op == "sum-distinct"
    then unary (λ s. "SUM(DISTINCT " <> (s <> ")"))
    else if op == "distinct"
    then unary (λ s. "DISTINCT " <> s)
    else operator_form d op
