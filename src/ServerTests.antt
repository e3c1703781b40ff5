-- ===== src/ServerTests.antt =====
-- Runs of the models of tools/server.py and tools/monitor.py, and the theorems at concrete inputs.
use nlsqlc.Base.{
  ℕ, ◌+◌, ◌-◌, ◌*◌, ◌/◌, ◌≤◌, ◌<◌, String, Bool, true, false, not, ◌≡◌, refl, ◌⊎◌, inl, inr, Option,
  none, some, List, [], ◌∷◌, map, All, length, ltb, leb, ◌==◌, arith, if◌then◌else◌,
}
use nlsqlc.Base.Int.{pos}
use nlsqlc.Base.Outcome.{Outcome, value, raised, Returns, value_error}
use nlsqlc.Samples.{plain, sample_schema, sample_policy}
use nlsqlc.Catalog.{Dialect}
use nlsqlc.Catalog.Build.{build_schema, build_policy}
use nlsqlc.Plan.{Plan}
use nlsqlc.Plan.Tables.{SourcePermitted, from_source, source_of}
use nlsqlc.Engine.{compile_ir_engine}
use nlsqlc.Engine.Run.{plan_of}
use nlsqlc.Limiter.{Floats, Limiter, new_limiter, allow}
use nlsqlc.Limiter.Clients.{FloatLaws, IsValid, allow_all, allow_all-IsValid}
use nlsqlc.Metrics.{ServerMetrics, new_metrics, Formats, render_prometheus}
use nlsqlc.Metrics.Counts.{new_metrics-IsConsistent}
use nlsqlc.Metrics.Percentiles.{IsOrder, IsPage, render_prometheus-IsPage}
use nlsqlc.Monitor.{Statistics, QueryAuditRecord, AnomalyDetector, new_anomaly_detector}
use nlsqlc.Monitor.History.{Keeps, record_all, record_all-Keeps}
use nlsqlc.Json
use nlsqlc.Json.{Json, text, object, entry, no_fields, Items, item, no_items, null}
use nlsqlc.Server
use nlsqlc.Server.{Environment, State, Request, Moment, Response, or_else}
use nlsqlc.Server.Rpc
use nlsqlc.Server.Rpc.{handle_batch}
use nlsqlc.Server.Post.{do_post}
use nlsqlc.Server.Reads.{IsAsked}
use nlsqlc.Server.Relation.{Step}
use nlsqlc.Server.Steps.{limiter_after, do_post-Step}
use nlsqlc.Server.Answers.{
  serve, refusals, IsSound, serve-gateway, serve-rate_limited, serve-IsSound,
}
use nlsqlc.Server.Certified.{IsCertified, do_post-IsCertified, do_post-SourcePermitted}
use nlsqlc.Server.Batch.{ids, answer_ids, handle_batch-ids}

-- natural numbers for the floats of the limiter
abbrev naturals : Floats
naturals = record {
  F = ℕ;
  add = λ a b. a + b;
  sub = λ a b. a - b;
  mul = λ a b. a * b;
  lt = ltb;
  ge = λ a b. leb b a;
  zero = 0;
}

naturals-FloatLaws : FloatLaws naturals
naturals-FloatLaws = record {
  lt_irrefl = λ x. ground arith;
  lt_asym = λ x y h. ground arith;
  sub_le = λ c x y h k. ground arith;
}

-- an order of floats in which 0.9 is above all others
abbrev rank : String → ℕ
rank t = if t == "0.9" then 1 else 0

abbrev formats : Formats
formats = record {
  float_le = λ a b. leb (rank a) (rank b);
  times_1000 = λ t. t;
  two_digits = λ t. t;
  three_digits = λ t. t;
}

abbrev sample_ir : String
sample_ir = "(nlsql 1 (query (from orders o) (select (field (column o id) id)) (limit 10)))"

-- a server whose requests all have the same body
abbrev sample_env : Environment
sample_env = record {
  runtime = plain;
  floats = naturals;
  formats = formats;
  cost = 1;
  lower = λ s. s;
  str_of = λ j. "";
  relevance_score = λ c r. "1.0";
  loads = λ s. inr (object (entry "ir" (text sample_ir) no_fields));
}

abbrev moment : Moment sample_env
moment = record {
  now = 0;
  fresh_trace = "trace-0";
  duration = "0.001";
  duration_ms = "1.0";
  uptime = "60.0";
  schema_file = none;
  playground = none;
}

abbrev request : Request
request = record {
  path = "/v1/compile";
  client_header = some "a";
  address = "127.0.0.1";
  trace_header = none;
  content_length = some "7";
  read = inr "{\"ir\"…";
}

-- two requests fit into the bucket of a client
abbrev fresh : State sample_env
fresh = record {
  gateway = record { schema = some sample_schema; policy = some sample_policy };
  metrics = new_metrics;
  limiter = new_limiter naturals 1 2;
}

abbrev three : List (Moment sample_env × Request)
three = (moment, request) ∷ (moment, request) ∷ (moment, request) ∷ []

refusals_value : refusals sample_env (serve sample_env three fresh).0 ≡ 1
unfolding do_post allow compile_ir_engine build_schema build_policy
refusals_value = refl

serve-rate_limited_example :
    (serve sample_env three fresh).1.metrics.rate_limited_total
    ≡ 0 + refusals sample_env (serve sample_env three fresh).0
serve-rate_limited_example = serve-rate_limited sample_env three fresh

serve-gateway_example : (serve sample_env three fresh).1.gateway ≡ fresh.gateway
serve-gateway_example = serve-gateway sample_env three fresh (refl, (refl, (refl, tt)))

fresh-IsSound : IsSound sample_env fresh
unfolding nlsqlc.Base.Dict.lookup
fresh-IsSound = record { metrics = new_metrics-IsConsistent; limiter = λ client. tt }

serve-IsSound_example : IsSound sample_env (serve sample_env three fresh).1
serve-IsSound_example = serve-IsSound sample_env naturals-FloatLaws refl three fresh fresh-IsSound

do_post-Step_example :
    Step moment request
      (record fresh {
        limiter = limiter_after sample_env fresh.limiter (allow naturals fresh.limiter 0 "a" 1);
      })
      (do_post sample_env moment request fresh).0
      (do_post sample_env moment request fresh).1
do_post-Step_example = do_post-Step sample_env moment request fresh

do_post-IsCertified_example :
    IsCertified sample_env moment request fresh.gateway (do_post sample_env moment request fresh).0
do_post-IsCertified_example = do_post-IsCertified sample_env moment request fresh refl

abbrev response_of : Outcome Response → Response
response_of (value r) = r
response_of (raised e) = record { status = 0; content = Server.json null }
response_of (Outcome.returned f m) = record { status = 0; content = Server.json null }

abbrev answer : Response
answer = response_of (do_post sample_env moment request fresh).0

answer_is : (do_post sample_env moment request fresh).0 ≡ value answer
unfolding do_post allow compile_ir_engine build_schema build_policy
answer_is = refl

answer_status : answer.status ≡ 200
unfolding do_post allow compile_ir_engine build_schema build_policy
answer_status = refl

do_post-SourcePermitted_example :
    (ir : String) × (d : Dialect) × (plan : Plan) × IsAsked sample_env request ir d
    × (plan_of plain sample_schema sample_policy ir ≡ value plan)
    × All
        (SourcePermitted plain sample_schema sample_policy)
        (from_source plain sample_schema sample_policy plan ∷ map source_of plan.joins)
do_post-SourcePermitted_example =
    do_post-SourcePermitted sample_env moment request fresh answer refl answer_is answer_status

-- `{"id": 7, "method": "reload"}`, and a number between two such requests
abbrev unknown_method : Json
unknown_method = object (entry "id" (Json.natural 7) (entry "method" (text "reload") no_fields))

abbrev batch : Items
batch = item unknown_method (item (Json.natural 3) (item unknown_method no_items))

abbrev no_method : Json
no_method = Rpc.rpc_error (Json.natural 7) Rpc.method_not_found "Method not found: reload"

batch_answers :
    handle_batch sample_env fresh.gateway batch ≡ value (item no_method (item no_method no_items))
unfolding handle_batch
batch_answers = refl

handle_batch-ids_example :
    answer_ids (item no_method (item no_method no_items)) ≡ map some (ids batch)
handle_batch-ids_example =
    handle_batch-ids sample_env fresh.gateway batch (item no_method (item no_method no_items))
      batch_answers

-- A malformed IR leaves the handler by an exception.
abbrev malformed : Environment
malformed = record sample_env {
  loads = λ s. inr (object (entry "ir1" (text "(") (entry "ir2" (text "(") no_fields)));
}

abbrev malformed_moment : Moment malformed
malformed_moment = record {
  now = 0;
  fresh_trace = "trace-0";
  duration = "0.001";
  duration_ms = "1.0";
  uptime = "60.0";
  schema_file = none;
  playground = none;
}

abbrev diff_request : Request
diff_request = record request { path = "/v1/diff" }

malformed_text :
    (do_post malformed malformed_moment diff_request (record {
      gateway = fresh.gateway;
      metrics = new_metrics;
      limiter = new_limiter naturals 1 2;
    })).0
    ≡ raised (value_error "unbalanced parentheses")
unfolding do_post allow nlsqlc.Base.Dict.lookup nlsqlc.Base.Int.int_of_text nlsqlc.Sexpr.parse_sexpr
    nlsqlc.Sexpr.find_tokens nlsqlc.Sexpr.push_token
malformed_text = refl

abbrev calls : List (ℕ × String × ℕ)
calls = (0, "a", 1) ∷ (0, "b", 1) ∷ (5, "a", 1) ∷ []

allow_all-IsValid_example :
    Returns (IsValid naturals) (allow_all naturals calls (new_limiter naturals 1 2))
allow_all-IsValid_example =
    allow_all-IsValid naturals naturals-FloatLaws 1 2 calls (refl, (refl, (refl, tt)))

-- the limiter behind one call of the client `a`
abbrev limiter_of_a : Limiter naturals
limiter_of_a = record (new_limiter naturals 1 2) {
  tokens = ("a", 1) ∷ [];
  last_update = ("a", 0) ∷ [];
}

call_of_a : allow naturals (new_limiter naturals 1 2) 0 "a" 1 ≡ value (true, limiter_of_a)
unfolding allow nlsqlc.Base.Dict.lookup nlsqlc.Base.Dict.insert
call_of_a = refl

formats-IsOrder : IsOrder formats.float_le
formats-IsOrder = record {
  total = λ x y h. total (rank x) (rank y) h;
  transitive = λ x y z h k. transitive (rank x) (rank y) (rank z) h k;
}
  where
    total : (a b : ℕ) → leb a b ≡ false → leb b a ≡ true
    total a b h = ground arith

    transitive : (a b c : ℕ) → leb a b ≡ true → leb b c ≡ true → leb a c ≡ true
    transitive a b c h k = ground arith

abbrev two_latencies : ServerMetrics
two_latencies = record new_metrics { latencies = "0.9" ∷ "0.5" ∷ [] }

render_prometheus-IsPage_example :
    (page : String) × (render_prometheus formats "60.0" two_latencies ≡ value page)
    × IsPage formats formats-IsOrder "60.0" two_latencies page
render_prometheus-IsPage_example =
    render_prometheus-IsPage formats formats-IsOrder "60.0" two_latencies

-- a module `statistics` that finds no outlier
abbrev statistics : Statistics
statistics = record {
  mean = λ xs. "0";
  mean_of_floats = λ xs. "0";
  stdev = λ xs. "1";
  float_gt = λ a b. false;
  float_mul = λ a b. a;
  int_sub = λ i a. a;
  one_digit = λ a. a;
  rounded = λ a n. a;
}

abbrev refused : QueryAuditRecord
refused = record {
  timestamp = "0.0";
  tenant_id = "t";
  trace_id = "trace-0";
  dialect = "postgres";
  status = "POLICY";
  complexity = pos 0;
  risk = "DENIED";
  duration_ms = "0.1";
  error = some "POLICY: denied";
}

abbrev history : List QueryAuditRecord
history = refused ∷ record refused { status = "OK"; risk = "LOW" } ∷ refused ∷ []

abbrev detector : AnomalyDetector
detector = record_all statistics history (new_anomaly_detector 2 "3.0")

record_all-Keeps_example : Keeps history detector
record_all-Keeps_example = record_all-Keeps statistics 2 "3.0" history
