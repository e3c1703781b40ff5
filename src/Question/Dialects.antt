-- ===== src/Question/Dialects.antt =====
-- The dialect that is passed to `compile_question`.
use nlsqlc.Base.{String, ◌≡◌, refl, Option, none, some, List, [], ◌∷◌}
use nlsqlc.Runtime.{Runtime}
use nlsqlc.Catalog.{Dialect, PySchema, PyPolicy}
use nlsqlc.Api.{compile_ir, read_arguments}
use nlsqlc.Question.{split_words, answer, compile_parts, compile_question}

module _ (rt : Runtime) (schema : PySchema) (policy : PyPolicy) where
  answer-same :
      (d e : Dialect) (o : Option String)
      → answer rt schema policy d o ≡ answer rt schema policy e o
  unfolding answer compile_ir read_arguments
  answer-same d e none = refl
  answer-same d e (some ir) = refl

  compile_parts-same :
      (d e : Dialect) (words : List String)
      → compile_parts rt schema policy d words ≡ compile_parts rt schema policy e words
  unfolding compile_parts
  compile_parts-same d e [] = refl
  compile_parts-same d e (kind ∷ []) = refl
  compile_parts-same d e (kind ∷ table ∷ more) = answer-same d e _

  -- The answer to a question does not depend on the dialect that is asked for.
  pub compile_question-dialect :
      (question : String) (d e : Dialect)
      → compile_question rt schema policy question d ≡ compile_question rt schema policy question e
  unfolding compile_question
  compile_question-dialect question d e = compile_parts-same d e (split_words question)
