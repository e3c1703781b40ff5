-- ===== src/Metrics.antt =====
-- tools/server.py: `ServerMetrics`. The clock, the arithmetic of floats and their formats are
-- arguments; the lock makes each method one step.
pub mod Counts
pub mod Percentiles
use nlsqlc.Base.{
  ℕ, ◌+◌, ◌*◌, ◌/◌, String, ◌<>◌, Bool, true, false, Option, none, some, List, [], ◌∷◌, ◌++◌,
  if◌then◌else◌, ltb, length,
}
use nlsqlc.Base.Text.{decimal}
use nlsqlc.Base.Sort.{sorted}
use nlsqlc.Base.Outcome.{Outcome, value, raised, index_error, ◌>>=◌, or_raise}

pub record ServerMetrics : Type 0 where
  pub requests_total : ℕ
  pub compilations_success : ℕ
  pub compilations_failed : ℕ
  pub rate_limited_total : ℕ
  -- floats as texts
  pub latencies : List String

abbrev pub new_metrics : ServerMetrics
new_metrics = record {
  requests_total = 0;
  compilations_success = 0;
  compilations_failed = 0;
  rate_limited_total = 0;
  latencies = [];
}

-- `if len(self.latencies) < 10000: self.latencies.append(duration_sec)`
unfoldable pub add_latency : String → List String → List String
add_latency t ts = if ltb (length ts) 10000 then ts ++ (t ∷ []) else ts

unfoldable pub record_request : String → Bool → ServerMetrics → ServerMetrics
unfolding add_latency
record_request duration success m = record {
  requests_total = m.requests_total + 1;
  compilations_success = if success then m.compilations_success + 1 else m.compilations_success;
  compilations_failed = if success then m.compilations_failed else m.compilations_failed + 1;
  rate_limited_total = m.rate_limited_total;
  latencies = add_latency duration m.latencies;
}

unfoldable pub record_rate_limit : ServerMetrics → ServerMetrics
record_rate_limit m = record m { rate_limited_total = m.rate_limited_total + 1 }

-- `int(count * 0.5)`; the product is exact
abbrev pub half : ℕ → ℕ
half count = count / 2

-- `int(count * 0.99)`: for a count up to 10000 the rounded product has this integer part.
abbrev pub ninety_nine_percent : ℕ → ℕ
ninety_nine_percent count = count * 99 / 100

-- The order of floats, `x * 1000` and the formats `.2f`, `.3f`
pub record Formats : Type 0 where
  pub float_le : String → String → Bool
  pub times_1000 : String → String
  pub two_digits : String → String
  pub three_digits : String → String

abbrev pub get_elem? {ℓ} : {A : Type ℓ} → List A → ℕ → Option A
get_elem? [] i = none
get_elem? (x ∷ xs) ℕ.zero = some x
get_elem? (x ∷ xs) (ℕ.suc i) = get_elem? xs i

module _ (fm : Formats) where
  -- `sorted(self.latencies)[i] * 1000 if count else 0.0`
  unfoldable pub percentile : (ℕ → ℕ) → List String → Outcome String
  percentile index [] = value "0.0"
  percentile index (t ∷ ts) =
      or_raise (get_elem? (sorted fm.float_le (t ∷ ts)) (index (length (t ∷ ts))))
        (index_error "list index out of range")
      >>= λ x. value (fm.times_1000 x)

  unfoldable pub metrics_text : String → String → String → ServerMetrics → String
  metrics_text uptime p50 p99 m =
      "# HELP nlsql_uptime_seconds Total server uptime in seconds\n"
      <> ("# TYPE nlsql_uptime_seconds gauge\n"
          <> ("nlsql_uptime_seconds "
              <> (fm.two_digits uptime
                  <> ("\n# HELP nlsql_requests_total Total number of HTTP requests\n"
                      <> ("# TYPE nlsql_requests_total counter\nnlsql_requests_total "
                          <> (decimal m.requests_total
                              <> ("\n# HELP nlsql_compilations_total Total compilations by status\n"
                                  <> ("# TYPE nlsql_compilations_total counter\nnlsql_compilations_total{status=\"success\"} "
                                      <> (decimal m.compilations_success
                                          <> ("\nnlsql_compilations_total{status=\"failed\"} "
                                              <> (decimal m.compilations_failed
                                                  <> ("\n# HELP nlsql_rate_limited_total Total requests rejected by rate limiter\n"
                                                      <> ("# TYPE nlsql_rate_limited_total counter\nnlsql_rate_limited_total "
                                                          <> (decimal m.rate_limited_total
                                                            <> ("\n# HELP nlsql_compilation_latency_ms_p50 Median compilation latency in ms\n"
                                                            <> ("nlsql_compilation_latency_ms_p50 "
                                                            <> (fm.three_digits p50
                                                            <> ("\n# HELP nlsql_compilation_latency_ms_p99 99th percentile compilation latency in ms\n"
                                                            <> ("nlsql_compilation_latency_ms_p99 "
                                                            <> (fm.three_digits p99
                                                            <> "\n"))))))))))))))))))))

  -- `render_prometheus`, with the uptime
  unfoldable pub render_prometheus : String → ServerMetrics → Outcome String
  unfolding percentile metrics_text sorted
  render_prometheus uptime m = do
    p50 ← percentile half m.latencies
    p99 ← percentile ninety_nine_percent m.latencies
    value (metrics_text uptime p50 p99 m)
