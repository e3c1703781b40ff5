-- ===== src/Server.antt =====
-- tools/server.py: the state that the threads of the gateway share, a request, its response, and the
-- calls of the compiler with what stands in a request.
pub mod Rpc
pub mod Replies
pub mod Reads
pub mod Post
pub mod Get
pub mod Relation
pub mod Steps
pub mod Answers
pub mod Certified
pub mod Batch
use nlsqlc.Base.{ℕ, String, ◌⊎◌, Option, none, some, [], ◌∷◌, if◌then◌else◌, ◌==◌}
use nlsqlc.Base.Outcome.{Outcome, value, raised, type_error, ◌>>=◌}
use nlsqlc.Runtime.{Runtime}
use nlsqlc.Catalog.{
  Dialect, postgres, sqlite, duckdb, mysql, sqlserver, Risk, low, moderate, PySchema, PyPolicy,
}
use nlsqlc.Engine.{PyCompileResult}
use nlsqlc.Explain.{Explanation, explain_result, canonical_text, diff}
use nlsqlc.Api
use nlsqlc.Api.{Argument, schema_object, policy_object, nothing}
use nlsqlc.Gateway.{Gateway}
use nlsqlc.Limiter.{Floats, Limiter}
use nlsqlc.Metrics.{ServerMetrics, Formats}
use nlsqlc.Json
use nlsqlc.Json.{Json, Fields, entry, no_fields, difference_json}

-- What the handler takes from Python: its floats and clock are texts, but for those of the limiter.
pub record Environment : Type 1 where
  pub runtime : Runtime
  pub floats : Floats
  pub formats : Formats
  -- the default cost of a request, 1.0
  pub cost : floats.F
  -- `s.lower()`, `str(v)`, and `relevance_score` of an OK result
  pub lower : String → String
  pub str_of : Json → String
  pub relevance_score : ℕ → Risk → String
  -- `json.loads`: the message of its exception, or a value
  pub loads : String → String ⊎ Json

module _ (env : Environment) where
  -- `gateway`, `metrics` and `limiter` of the handler's class
  pub record State : Type 0 where
    pub gateway : Gateway
    pub metrics : ServerMetrics
    pub limiter : Limiter env.floats

-- The path is that of `urlparse`; headers that are not there are `none`.
pub record Request : Type 0 where
  pub path : String
  pub client_header : Option String
  pub address : String
  pub trace_header : Option String
  pub content_length : Option String
  -- `self.rfile.read(n).decode("utf-8")`: the message of its exception, or a text
  pub read : String ⊎ String

-- What the outside gives while a request is served
pub record Moment (env : Environment) : Type 0 where
  pub now : env.floats.F
  -- `f"trace-{int(time.time()*1000)}"`, the time that the request took and its rounded milliseconds
  pub fresh_trace : String
  pub duration : String
  pub duration_ms : String
  pub uptime : String
  -- the files of the schema and of the playground, where they exist
  pub schema_file : Option String
  pub playground : Option String

pub data Content : Type 0 where
  json : Json → Content
  page : String → Content

pub record Response : Type 0 where
  pub status : ℕ
  pub content : Content

-- `self._send_json(status, data)`
abbrev pub json_response : ℕ → Json → Response
json_response status j = record { status = status; content = json j }

abbrev pub reply : ℕ → Fields → Response
reply status fields = json_response status (Json.object fields)

abbrev pub or_else : String → Option String → String
or_else d none = d
or_else d (some s) = s

-- `dialect_map.get(name, NLSQL_DIALECT_POSTGRES)`
unfoldable pub dialect_of : String → Dialect
dialect_of name =
    if name == "sqlite"
    then sqlite
    else if name == "duckdb"
    then duckdb
    else if name == "mysql"
    then mysql
    else if name == "sqlserver"
    then sqlserver
    else postgres

abbrev pub schema_argument : Option PySchema → Argument
schema_argument none = nothing
schema_argument (some s) = schema_object s

abbrev pub policy_argument : Option PyPolicy → Argument
policy_argument none = nothing
policy_argument (some p) = policy_object p

-- A value that is no text has neither a `py_schema` nor a `py_policy`.
abbrev pub ir_argument : Json → Argument
ir_argument (Json.text s) = Api.text s
ir_argument _ = nothing

module _ (rt : Runtime) (g : Gateway) where
  -- `nlsql.compile_ir(self.gateway.context, ir, self.gateway.schema, self.gateway.policy, dialect=d)`
  unfoldable pub compile : Json → Dialect → Outcome PyCompileResult
  compile ir d =
      Api.compile_ir rt (ir_argument ir ∷ schema_argument g.schema ∷ policy_argument g.policy ∷ [])
        d

  -- `nlsql.explain`, which parses the text once more for a tree that it does not use
  unfoldable pub explain : Json → Dialect → Outcome Explanation
  unfolding compile explain_result
  explain ir d = compile ir d >>= λ r. value (explain_result rt d r)

abbrev not_a_text {ℓ} : {A : Type ℓ} → Outcome A
not_a_text = raised (type_error "expected string or bytes-like object")

-- `nlsql.diff`, as a dictionary: `re.findall` refuses what is no text.
unfoldable pub diff_json : Runtime → Json → Json → Outcome Json
unfolding diff canonical_text difference_json
diff_json rt (Json.text a) (Json.text b) = diff rt a b >>= λ d. value (difference_json d)
diff_json rt (Json.text a) other = canonical_text rt a >>= λ c. not_a_text
diff_json rt other b = not_a_text

-- `"LOW" if … else ("MODERATE" if … else "HIGH")`
unfoldable pub risk_word : Risk → String
risk_word low = "LOW"
risk_word moderate = "MODERATE"
risk_word _ = "HIGH"
