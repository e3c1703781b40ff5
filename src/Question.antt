-- ===== src/Question.antt =====
-- bindings/python/nlsql.py: `compile_question`.
pub mod Dialects
use Prim.Native.Char.{Char, code}
use nlsqlc.Base.{
  ℕ, String, ◌<>◌, Bool, true, false, not, Option, none, some, List, [], ◌∷◌, if◌then◌else◌, ◌==◌,
}
use nlsqlc.Base.Text.{is_space}
use nlsqlc.Base.Outcome.{Outcome, value, Status, Failure}
use nlsqlc.Runtime.{Runtime}
use nlsqlc.Catalog.{Dialect, postgres, PySchema, PyPolicy}
use nlsqlc.Engine.{PyCompileResult, failure}
use nlsqlc.Api.{Argument, text, schema_object, policy_object, number, compile_ir}

abbrev starts_word : String → Bool
starts_word String.[] = false
starts_word (String.◌∷◌ c s) = not (is_space (code c))

lengthen : Char → Bool → List String → List String
lengthen c true (w ∷ ws) = String.◌∷◌ c w ∷ ws
lengthen c _ ws = String.◌∷◌ c "" ∷ ws

-- `s.strip().split()`
unfoldable pub split_words : String → List String
unfolding is_space lengthen
split_words String.[] = []
split_words (String.◌∷◌ c s) =
    let rest = split_words s in if is_space (code c) then rest else lengthen c (starts_word s) rest

abbrev query_from : String → String → String
query_from table field =
    "(nlsql 1 (query (from " <> (table <> (" t) (select (field " <> (field <> "))))")))

abbrev column_of : List String → String
column_of [] = "id"
column_of (c ∷ cs) = c

-- the IR of a question, by its kind
unfoldable pub question_ir : String → String → List String → Option String
question_ir kind table more =
    if kind == "count"
    then some (query_from table "(count (column t id)) count")
    else if kind == "list"
    then some (query_from table ("(column t " <> (column_of more <> ") value")))
    else if kind == "sum"
    then some (query_from table ("(sum (column t " <> (column_of more <> ")) value")))
    else if kind == "average"
    then some (query_from table ("(avg (column t " <> (column_of more <> ")) value")))
    else none

unsupported_question : Outcome PyCompileResult
unsupported_question = value (failure Failure.unsupported "UNSUPPORTED")

module _ (rt : Runtime) (schema : PySchema) (policy : PyPolicy) where
  -- `compile_ir(context, ir, schema, policy, dialect)`: the dialect is positional
  unfoldable answer : Dialect → Option String → Outcome PyCompileResult
  unfolding unsupported_question compile_ir
  answer d none = unsupported_question
  answer d (some ir) =
      compile_ir rt (text ir ∷ schema_object schema ∷ policy_object policy ∷ number d ∷ []) postgres

  unfoldable compile_parts : Dialect → List String → Outcome PyCompileResult
  unfolding question_ir answer
  compile_parts d (kind ∷ table ∷ more) = answer d (question_ir kind table more)
  compile_parts d _ = unsupported_question

  unfoldable pub compile_question : String → Dialect → Outcome PyCompileResult
  unfolding split_words compile_parts
  compile_question question d = compile_parts d (split_words question)
