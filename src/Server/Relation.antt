-- ===== src/Server/Relation.antt =====
-- tools/server.py: the step that a request is: a relation between the state behind the limiter,
-- the answer and the state after the request.
use nlsqlc.Base.{String, Bool, true, ◌||◌, ◌≡◌, ◌⊎◌, [], ◌∷◌, ◌==◌, if◌then◌else◌, Elem}
use nlsqlc.Base.Outcome.{Outcome, value, raised, returned}
use nlsqlc.Catalog.{Dialect}
use nlsqlc.Engine.{PyCompileResult}
use nlsqlc.Gateway.{Gateway, reload}
use nlsqlc.Metrics.{record_request, record_rate_limit}
use nlsqlc.Json.{Json, Fields, get_or, null}
use nlsqlc.Server.{Environment, State, Request, Moment, Response, json, compile}
use nlsqlc.Server.Reads.{IsRead, NamesDialect}
use nlsqlc.Server.Replies.{is_ok}
use nlsqlc.Server.Post.{ask}

abbrev pub is_reload : String → Bool
is_reload path = path == "/v1/schema/reload" || path == "/v1/policy/reload"

-- No response at all, or one of a status that says nothing of the limiter.
abbrev pub IsPlain : Outcome Response → Type 0
IsPlain (value r) = Elem r.status (200 ∷ 400 ∷ 404 ∷ 413 ∷ [])
IsPlain (raised e) = Unit
IsPlain (returned f m) = Unit

-- The paths whose requests are compiled and counted
abbrev pub is_counted : String → Bool
is_counted path = path == "/v1/compile" || path == "/v1/question"

-- No response, or a dictionary without `status`: none that tells the outcome of a compilation.
abbrev pub IsUntold : Outcome Response → Type 0
IsUntold (value r) =
    (fs : Fields) × (r.content ≡ json (Json.object fs)) × (get_or "status" null fs ≡ null)
IsUntold (raised e) = Unit
IsUntold (returned f m) = Unit

-- What the path does with the field of the dictionary gives the result.
abbrev pub IsCompiled :
    (env : Environment) → Moment env → String → Gateway → Fields → PyCompileResult → Type 0
IsCompiled env m path g fs c =
    (d : Dialect) × NamesDialect env fs d
    × (((path ≡ "/v1/compile") × (compile env.runtime g (get_or "ir" null fs) d ≡ value c))
        ⊎ ((path ≡ "/v1/question") × (ask env m g d (get_or "question" null fs) ≡ value c)))

-- `Step m q s o s'`: the request `q` is answered by `o` and takes `s` to `s'`.
pub data Step {env : Environment} (m : Moment env) (q : Request) (s : State env)
    : Outcome Response → State env → Type 0 where
  kept :
      (o : Outcome Response) → IsPlain o → (is_counted q.path ≡ true → IsUntold o) → Step m q s o s
  limited :
      (r : Response)
      → r.status ≡ 429
      → Step m q s (value r) (record s { metrics = record_rate_limit s.metrics })
  recorded :
      (fs : Fields) (c : PyCompileResult) (r : Response)
      → IsRead env q (Json.object fs)
      → IsCompiled env m q.path s.gateway fs c
      → r.status ≡ (if is_ok c.status then 200 else 400)
      → Step m q s
          (value r)
          (record s { metrics = record_request m.duration (is_ok c.status) s.metrics })
  reloaded :
      (o : Outcome Response)
      → is_reload q.path ≡ true
      → IsPlain o
      → Step m q s o (record s { gateway = (reload m.schema_file s.gateway).1 })
