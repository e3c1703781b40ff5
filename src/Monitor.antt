-- ===== src/Monitor.antt =====
-- tools/monitor.py: `AnomalyDetector`. The module `statistics`, the arithmetic of floats and their
-- formats are a parameter; a float is carried as a text.
pub mod History
use nlsqlc.Base.{
  ℕ, String, ◌<>◌, Bool, true, false, ◌&&◌, ◌||◌, Option, none, some, List, [], ◌∷◌, ◌++◌,
  if◌then◌else◌, ◌==◌, ltb, leb, length,
}
use nlsqlc.Base.Int.{ℤ, show_ℤ}
use nlsqlc.Base.Text.{contains}
use nlsqlc.Base.Window.{drop, push_bounded}

-- `statistics.mean` and `statistics.stdev`, `a > b`, `a * b`, `x - a` and `f"{a:.1f}"`
pub record Statistics : Type 0 where
  pub mean : List ℤ → String
  pub mean_of_floats : List String → String
  pub stdev : List ℤ → String
  pub float_gt : String → String → Bool
  pub float_mul : String → String → String
  pub int_sub : ℤ → String → String
  pub one_digit : String → String
  -- `round(a, n)`
  pub rounded : String → ℕ → String

pub record QueryAuditRecord : Type 0 where
  pub timestamp : String
  pub tenant_id : String
  pub trace_id : String
  pub dialect : String
  pub status : String
  pub complexity : ℤ
  pub risk : String
  pub duration_ms : String
  pub error : Option String

pub record AnomalyDetector : Type 0 where
  pub window_size : ℕ
  pub std_dev_threshold : String
  pub complexities : List ℤ
  pub durations : List String
  pub audit_log : List QueryAuditRecord
  pub policy_violations : List QueryAuditRecord

abbrev pub new_anomaly_detector : ℕ → String → AnomalyDetector
new_anomaly_detector window_size threshold = record {
  window_size = window_size;
  std_dev_threshold = threshold;
  complexities = [];
  durations = [];
  audit_log = [];
  policy_violations = [];
}

-- what `record` returns
pub record Verdict : Type 0 where
  pub is_anomaly : Bool
  pub reasons : List String
  pub complexity : ℤ
  pub risk : String

-- `record.error or ""`, and `{record.error}` in a text
abbrev error_or_empty : Option String → String
error_or_empty none = ""
error_or_empty (some e) = e

abbrev error_text : Option String → String
error_text none = "None"
error_text (some e) = e

unfoldable pub is_ok : QueryAuditRecord → Bool
is_ok r = r.status == "OK"

-- the reason for a status that is not OK
unfoldable pub violation_reasons : QueryAuditRecord → List String
unfolding is_ok
violation_reasons r =
    if is_ok r
    then []
    else if contains "POLICY" (error_or_empty r.error) || contains "SCHEMA" (error_or_empty r.error)
    then ("Security/Policy violation: " <> error_text r.error) ∷ []
    else []

unfoldable pub risk_reasons : QueryAuditRecord → List String
risk_reasons r =
    if r.risk == "HIGH" || r.risk == "DENIED" then ("Elevated risk level: " <> r.risk) ∷ [] else []

-- `len(reasons) > 0`
abbrev pub some_reason : List String → Bool
some_reason [] = false
some_reason (r ∷ rs) = true

abbrev zero_text : String
zero_text = "0"

module _ (st : Statistics) where
  -- `statistics.stdev(xs) if len(xs) > 1 else 1.0`
  stdev_of : List ℤ → String
  stdev_of xs = if ltb 1 (length xs) then st.stdev xs else "1.0"

  unfoldable pub is_outlier : AnomalyDetector → ℤ → Bool
  unfolding stdev_of
  is_outlier d x =
      leb 30 (length d.complexities)
      && (st.float_gt (stdev_of d.complexities) zero_text
          && st.float_gt (st.int_sub x (st.mean d.complexities))
              (st.float_mul d.std_dev_threshold (stdev_of d.complexities)))

  unfoldable pub outlier_reasons : AnomalyDetector → ℤ → List String
  outlier_reasons d x =
      if is_outlier d x
      then ("Complexity outlier: "
          <> (show_ℤ x
              <> (" vs mean "
                  <> (st.one_digit (st.mean d.complexities)
                      <> (" (+" <> (d.std_dev_threshold <> " sigma)"))))))
        ∷ []
      else []

  unfoldable pub verdict_of : AnomalyDetector → QueryAuditRecord → Verdict
  verdict_of d r =
      let reasons = violation_reasons r ++ (risk_reasons r ++ outlier_reasons d r.complexity) in
      record {
        is_anomaly = is_outlier d r.complexity || some_reason reasons;
        reasons = reasons;
        complexity = r.complexity;
        risk = r.risk;
      }

-- The logs and the window behind a record. The window loses its first element, and the durations
-- with it, by the length of the complexities.
unfoldable pub keep_violation : QueryAuditRecord → List QueryAuditRecord → List QueryAuditRecord
keep_violation r vs = if is_ok r then vs else push_bounded 1000 r vs

unfoldable pub slide : ℕ → ℤ → String → List ℤ × List String → List ℤ × List String
slide window x t (xs, ts) =
    if ltb window (length (xs ++ (x ∷ [])))
    then (drop 1 (xs ++ (x ∷ [])), drop 1 (ts ++ (t ∷ [])))
    else (xs ++ (x ∷ []), ts ++ (t ∷ []))

unfoldable pub log_record : QueryAuditRecord → AnomalyDetector → AnomalyDetector
log_record r d =
    let (xs, ts) = slide d.window_size r.complexity r.duration_ms (d.complexities, d.durations) in
    record d {
      complexities = xs;
      durations = ts;
      audit_log = push_bounded 10000 r d.audit_log;
      policy_violations = keep_violation r d.policy_violations;
    }

-- `record`
unfoldable pub record_query :
    Statistics → QueryAuditRecord → AnomalyDetector → Verdict × AnomalyDetector
unfolding verdict_of log_record
record_query st r d = (verdict_of st d r, log_record r d)

pub record Summary : Type 0 where
  pub total_queries_logged : ℕ
  pub policy_violations_count : ℕ
  pub avg_complexity : String
  pub avg_latency_ms : String

unfoldable pub summary : Statistics → AnomalyDetector → Summary
summary st d = record {
  total_queries_logged = length d.audit_log;
  policy_violations_count = length d.policy_violations;
  avg_complexity = st.rounded (elim d.complexities [ [] ↦ "0.0" | x ∷ xs ↦ st.mean (x ∷ xs) ]) 2;
  avg_latency_ms =
      st.rounded (elim d.durations [ [] ↦ "0.0" | x ∷ xs ↦ st.mean_of_floats (x ∷ xs) ]) 3;
}
