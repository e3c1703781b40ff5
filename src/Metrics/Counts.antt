-- ===== src/Metrics/Counts.antt =====
-- The counters.
use nlsqlc.Base.{
  ℕ, ◌+◌, ◌≤◌, ◌<◌, String, Bool, true, false, ◌≡◌, refl, ap, List, [], ◌∷◌, arith, length,
  length-append, ltb, if◌then◌else◌, Bool-cases, inl, inr,
}
use nlsqlc.Metrics.{ServerMetrics, new_metrics, add_latency, record_request, record_rate_limit}

-- Every request is counted once, as a success or as a failure, and the latencies are those of the
-- first 10000 requests.
pub record IsConsistent (m : ServerMetrics) : Type 0 where
  pub counted : m.requests_total ≡ m.compilations_success + m.compilations_failed
  pub bounded : length m.latencies ≤ 10000
  pub full : length m.latencies < 10000 → length m.latencies ≡ m.requests_total

add_latency-length :
    (t : String) (ts : List String) (n : ℕ)
    → length ts ≤ 10000
    → (length ts < 10000 → length ts ≡ n)
    → (length (add_latency t ts) ≤ 10000)
      × (length (add_latency t ts) < 10000 → length (add_latency t ts) ≡ n + 1)
unfolding add_latency
add_latency-length t ts n h k = elim (Bool-cases (ltb (length ts) 10000)) [
  | inl e ↦
      rw (e, length-append ts (t ∷ []))
        (let lt : length ts < 10000 = ground arith in (omega arith, λ _. ap (λ i. i + 1) (k lt)))
  | inr e ↦ rw e ((h, λ lt. ground arith))
]

counted_once :
    (success : Bool) (m : ServerMetrics)
    → m.requests_total ≡ m.compilations_success + m.compilations_failed
    → m.requests_total + 1
      ≡ (if success then m.compilations_success + 1 else m.compilations_success)
        + (if success then m.compilations_failed else m.compilations_failed + 1)
counted_once true m h = omega arith
counted_once false m h = omega arith

pub record_request-IsConsistent :
    (duration : String) (success : Bool) (m : ServerMetrics)
    → IsConsistent m
    → IsConsistent (record_request duration success m)
unfolding record_request
record_request-IsConsistent duration success m c =
    let (b, f) = add_latency-length duration m.latencies m.requests_total c.bounded c.full in
    record { counted = counted_once success m c.counted; bounded = b; full = f }

-- One call of a method that writes.
pub data Event : Type 0 where
  request : String → Bool → Event
  rate_limit : Event

unfoldable pub record_event : Event → ServerMetrics → ServerMetrics
unfolding record_request record_rate_limit
record_event (request duration success) m = record_request duration success m
record_event rate_limit m = record_rate_limit m

unfoldable pub record_events : List Event → ServerMetrics → ServerMetrics
unfolding record_event
record_events [] m = m
record_events (e ∷ es) m = record_events es (record_event e m)

record_event-IsConsistent :
    (e : Event) (m : ServerMetrics) → IsConsistent m → IsConsistent (record_event e m)
unfolding record_event record_rate_limit
record_event-IsConsistent (request duration success) m c =
    record_request-IsConsistent duration success m c
record_event-IsConsistent rate_limit m c = record {
  counted = c.counted;
  bounded = c.bounded;
  full = c.full;
}

-- A run of calls takes consistent metrics to consistent metrics, and counts no request away.
record_events-IsConsistent :
    (es : List Event) (m : ServerMetrics) → IsConsistent m → IsConsistent (record_events es m)
unfolding record_events
record_events-IsConsistent [] m c = c
record_events-IsConsistent (e ∷ es) m c =
    record_events-IsConsistent es (record_event e m) (record_event-IsConsistent e m c)

pub new_metrics-IsConsistent : IsConsistent new_metrics
new_metrics-IsConsistent = record { counted = refl; bounded = omega arith; full = λ _. refl }

-- Whatever calls a server makes of its metrics, in any order, the successes and the failures sum to the
-- requests, at most 10000 latencies are kept, and below 10000 there is one for every request.
pub new_metrics-IsConsistent_always :
    (es : List Event) → IsConsistent (record_events es new_metrics)
new_metrics-IsConsistent_always es =
    record_events-IsConsistent es new_metrics new_metrics-IsConsistent
