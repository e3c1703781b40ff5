-- ===== src/Monitor/History.antt =====
-- What the detector keeps of all the queries recorded so far.
use mathlib.Core.List.{append-nil, append_assoc, map-append}
use mathlib.Core.Path.{subst}
use nlsqlc.Base.{
  ℕ, ◌≤◌, String, true, ◌≡◌, refl, sym, ap, ◌∙◌, List, [], ◌∷◌, ◌++◌, map, arith, length,
  length-append, if◌then◌else◌, ltb, Bool-cases, inl, inr,
}
use nlsqlc.Base.Int.{ℤ}
use nlsqlc.Base.Window.{
  last, last-nil, push_bounded, push_bounded-last, length-last, length-last_lem,
}
use nlsqlc.Monitor.{
  Statistics, QueryAuditRecord, AnomalyDetector, new_anomaly_detector, is_ok, is_outlier,
  outlier_reasons, some_reason, violation_reasons, risk_reasons, verdict_of, keep_violation, slide,
  log_record, record_query,
}

-- The queries whose status is not OK.
abbrev pub failures : List QueryAuditRecord → List QueryAuditRecord
failures [] = []
failures (r ∷ rs) = if is_ok r then failures rs else r ∷ failures rs

failures-append :
    (rs : List QueryAuditRecord) (r : QueryAuditRecord)
    → failures (rs ++ (r ∷ [])) ≡ failures rs ++ failures (r ∷ [])
failures-append [] r = refl
failures-append (x ∷ rs) r = elim (Bool-cases (is_ok x)) [
  | inl e ↦ rw e (failures-append rs r)
  | inr e ↦ rw e (ap (λ l. x ∷ l) (failures-append rs r))
]

abbrev pub complexities_of : List QueryAuditRecord → List ℤ
complexities_of rs = map (λ (r : QueryAuditRecord). r.complexity) rs

abbrev pub durations_of : List QueryAuditRecord → List String
durations_of rs = map (λ (r : QueryAuditRecord). r.duration_ms) rs

-- The detector stands for the whole history: it holds the last 10000 records, the last 1000
-- failures, and the complexities and durations of the last `window_size` records.
pub record Keeps (history : List QueryAuditRecord) (d : AnomalyDetector) : Type 0 where
  pub log : d.audit_log ≡ last 10000 history
  pub violations : d.policy_violations ≡ last 1000 (failures history)
  pub window : d.complexities ≡ last d.window_size (complexities_of history)
  pub times : d.durations ≡ last d.window_size (durations_of history)

keep_violation-last :
    (r : QueryAuditRecord) (history : List QueryAuditRecord)
    → keep_violation r (last 1000 (failures history)) ≡ last 1000 (failures (history ++ (r ∷ [])))
unfolding keep_violation
keep_violation-last r history = elim (Bool-cases (is_ok r)) [
  | inl e ↦ rw (failures-append history r, e) (ap (last 1000) (sym (append-nil (failures history))))
  | inr e ↦ rw (failures-append history r, e) (push_bounded-last 1000 r (failures history))
]

slide-push_bounded :
    (w : ℕ) (x : ℤ) (t : String) (xs : List ℤ) (ts : List String)
    → length xs ≡ length ts
    → slide w x t (xs, ts) ≡ (push_bounded w x xs, push_bounded w t ts)
unfolding slide push_bounded
slide-push_bounded w x t xs ts h =
    let same : length (ts ++ (t ∷ [])) ≡ length (xs ++ (x ∷ [])) =
      omega (arith, h, length-append ts (t ∷ []), length-append xs (x ∷ [])) in
    elim (Bool-cases (ltb w (length (xs ++ (x ∷ []))))) [
      | inl e ↦ rw (e, ap (ltb w) same ∙ e) refl
      | inr e ↦ rw (e, ap (ltb w) same ∙ e) refl
    ]

length-map {ℓ} : {A : Type 0} {B : Type ℓ} (f : A → B) (xs : List A) → length (map f xs) ≡ length xs
length-map f [] = refl
length-map f (x ∷ xs) = omega (arith, length-map f xs)

window-durations :
    (w : ℕ) (history : List QueryAuditRecord)
    → length (last w (complexities_of history)) ≡ length (last w (durations_of history))
window-durations w history = omega (
  arith,
  length-last_lem w (complexities_of history),
  length-last_lem w (durations_of history),
  length-map (λ (r : QueryAuditRecord). r.complexity) history,
  length-map (λ (r : QueryAuditRecord). r.duration_ms) history,
)

-- One more record is one more in the history.
log_record-Keeps :
    (r : QueryAuditRecord) (history : List QueryAuditRecord) (d : AnomalyDetector)
    → Keeps history d
    → Keeps (history ++ (r ∷ [])) (log_record r d)
unfolding log_record
log_record-Keeps r history d k = record {
  log = ap (push_bounded 10000 r) k.log ∙ push_bounded-last 10000 r history;
  violations = ap (keep_violation r) k.violations ∙ keep_violation-last r history;
  window =
      ap (λ (p : List ℤ × List String). p.0) slid
      ∙ ap (push_bounded d.window_size r.complexity) k.window
      ∙ push_bounded-last d.window_size r.complexity (complexities_of history)
      ∙ ap (last d.window_size)
          (sym (map-append (λ (q : QueryAuditRecord). q.complexity) history (r ∷ [])));
  times =
      ap (λ (p : List ℤ × List String). p.1) slid
      ∙ ap (push_bounded d.window_size r.duration_ms) k.times
      ∙ push_bounded-last d.window_size r.duration_ms (durations_of history)
      ∙ ap (last d.window_size)
          (sym (map-append (λ (q : QueryAuditRecord). q.duration_ms) history (r ∷ [])));
}
  where
    slid : slide d.window_size r.complexity r.duration_ms (d.complexities, d.durations) ≡ (
      push_bounded d.window_size r.complexity d.complexities,
      push_bounded d.window_size r.duration_ms d.durations,
    )
    slid =
        slide-push_bounded d.window_size r.complexity r.duration_ms d.complexities d.durations
          (ap length k.window ∙ window-durations d.window_size history ∙ ap length (sym k.times))

module _ (st : Statistics) where
  -- The detector after the records, from the first to the last
  abbrev pub record_all : List QueryAuditRecord → AnomalyDetector → AnomalyDetector
  record_all [] d = d
  record_all (r ∷ rs) d = record_all rs (record_query st r d).1

  record_all-Keeps_from :
      (rs history : List QueryAuditRecord) (d : AnomalyDetector)
      → Keeps history d
      → Keeps (history ++ rs) (record_all rs d)
  unfolding record_query
  record_all-Keeps_from [] history d k = subst (λ h. Keeps h d) (sym (append-nil history)) k
  record_all-Keeps_from (r ∷ rs) history d k =
      subst (λ h. Keeps h (record_all (r ∷ rs) d)) (append_assoc history (r ∷ []) rs)
        (record_all-Keeps_from rs (history ++ (r ∷ [])) (log_record r d)
          (log_record-Keeps r history d k))

  -- After any records a new detector holds the last 10000 of them, the last 1000 of those whose
  -- status is not OK, and the complexities and the durations of the last `window_size`.
  pub record_all-Keeps :
      (window_size : ℕ) (threshold : String) (rs : List QueryAuditRecord)
      → Keeps rs (record_all rs (new_anomaly_detector window_size threshold))
  record_all-Keeps window_size threshold rs =
      record_all-Keeps_from rs [] (new_anomaly_detector window_size threshold) (record {
        log = last-nil 10000;
        violations = last-nil 1000;
        window = last-nil window_size;
        times = last-nil window_size;
      })

  window_size-record_all :
      (rs : List QueryAuditRecord) (d : AnomalyDetector)
      → (record_all rs d).window_size ≡ d.window_size
  unfolding record_query log_record
  window_size-record_all [] d = refl
  window_size-record_all (r ∷ rs) d = window_size-record_all rs _

  -- A detector never holds more than 10000 records, 1000 failures and `window_size` complexities,
  -- and it holds as many durations as complexities.
  pub record_all-le :
      (window_size : ℕ) (threshold : String) (rs : List QueryAuditRecord)
      → let d = record_all rs (new_anomaly_detector window_size threshold) in
        (length d.audit_log ≤ 10000)
        × (length d.policy_violations ≤ 1000)
        × (length d.complexities ≤ window_size)
        × (length d.durations ≡ length d.complexities)
  record_all-le window_size threshold rs =
      let d = record_all rs (new_anomaly_detector window_size threshold) in
      let k = record_all-Keeps window_size threshold rs in
      let same = window_size-record_all rs (new_anomaly_detector window_size threshold) in
      (
        omega (arith, ap length k.log, length-last 10000 rs),
        omega (arith, ap length k.violations, length-last 1000 (failures rs)),
        omega (arith, ap length k.window, length-last d.window_size (complexities_of rs), same),
        ap length k.times ∙ sym (window-durations d.window_size rs) ∙ ap length (sym k.window),
      )

  some_reason_last :
      (xs ys : List String) (z : String) → true ≡ some_reason (xs ++ (ys ++ (z ∷ [])))
  some_reason_last [] [] z = refl
  some_reason_last [] (y ∷ ys) z = refl
  some_reason_last (x ∷ xs) ys z = refl

  -- A query is called an anomaly if and only if a reason is given.
  pub record_query-is_anomaly :
      (d : AnomalyDetector) (r : QueryAuditRecord)
      → (record_query st r d).0.is_anomaly ≡ some_reason (record_query st r d).0.reasons
  unfolding record_query verdict_of outlier_reasons
  record_query-is_anomaly d r = elim (Bool-cases (is_outlier st d r.complexity)) [
    | inl e ↦ rw e (some_reason_last (violation_reasons r) (risk_reasons r) _)
    | inr e ↦ rw e refl
  ]
