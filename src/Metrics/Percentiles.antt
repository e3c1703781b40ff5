-- ===== src/Metrics/Percentiles.antt =====
-- The percentiles on the page of the metrics.
use mathlib.Core.Path.{subst}
use nlsqlc.Base.{
  ℕ, ◌+◌, ◌*◌, ◌/◌, ◌≤◌, ◌<◌, String, Bool, true, false, ◌≡◌, refl, sym, ap, ◌∙◌, some, List, [],
  ◌∷◌, arith, length, if◌then◌else◌, Bool-cases, inl, inr, All, Elem,
}
use nlsqlc.Base.Outcome.{value}
use nlsqlc.Base.Sort.{place, sorted}
use nlsqlc.Metrics.{
  ServerMetrics, Formats, half, ninety_nine_percent, get_elem?, percentile, metrics_text,
  render_prometheus,
}

length-place :
    (le : String → String → Bool) (x : String) (xs : List String)
    → length (place le x xs) ≡ length xs + 1
unfolding place
length-place le x [] = omega arith
length-place le x (y ∷ ys) = elim (Bool-cases (le x y)) [
  | inl e ↦ rw e (omega arith)
  | inr e ↦ rw e (omega (arith, length-place le x ys))
]

length-sorted : (le : String → String → Bool) (xs : List String) → length (sorted le xs) ≡ length xs
unfolding sorted
length-sorted le [] = refl
length-sorted le (x ∷ xs) = omega (arith, length-place le x (sorted le xs), length-sorted le xs)

-- An order of floats: any two are comparable, and it is transitive.
pub record IsOrder (le : String → String → Bool) : Type 0 where
  pub total : (x y : String) → le x y ≡ false → le y x ≡ true
  pub transitive : (x y z : String) → le x y ≡ true → le y z ≡ true → le x z ≡ true

abbrev one_if : Bool → ℕ
one_if b = if b then 1 else 0

-- How many elements pass a test
abbrev pub count : (String → Bool) → List String → ℕ
count p [] = 0
count p (x ∷ xs) = one_if (p x) + count p xs

count-place :
    (p : String → Bool) (le : String → String → Bool) (x : String) (xs : List String)
    → count p (place le x xs) ≡ one_if (p x) + count p xs
unfolding place
count-place p le x [] = refl
count-place p le x (y ∷ ys) = elim (Bool-cases (le x y)) [
  | inl e ↦ rw e refl
  | inr e ↦ rw e (omega (arith, count-place p le x ys))
]

count-sorted :
    (p : String → Bool) (le : String → String → Bool) (xs : List String)
    → count p (sorted le xs) ≡ count p xs
unfolding sorted
count-sorted p le [] = refl
count-sorted p le (x ∷ xs) =
    count-place p le x (sorted le xs) ∙ ap (λ n. one_if (p x) + n) (count-sorted p le xs)

-- Where an element stands in an order of the list: more than i elements are at most it, and all but i
-- are at least it.
abbrev pub Stands : (String → String → Bool) → ℕ → List String → String → Type 0
Stands le i xs s = (i < count (λ x. le x s) xs) × (length xs ≤ i + count (le s) xs)

module _ (le : String → String → Bool) (o : IsOrder le) where
  -- The element is at most each of the others.
  abbrev IsLeast : String → List String → Type 0
  IsLeast x xs = All (λ y. le x y ≡ true) xs

  abbrev IsSorted : List String → Type 0
  IsSorted [] = Unit
  IsSorted (x ∷ xs) = IsLeast x xs × IsSorted xs

  IsLeast-weaken : (x y : String) (ys : List String) → le x y ≡ true → IsLeast y ys → IsLeast x ys
  IsLeast-weaken x y [] h k = tt
  IsLeast-weaken x y (z ∷ zs) h k = (o.transitive x y z h k.0, IsLeast-weaken x y zs h k.1)

  IsLeast-place :
      (z x : String) (xs : List String) → le z x ≡ true → IsLeast z xs → IsLeast z (place le x xs)
  unfolding place
  IsLeast-place z x [] h k = (h, tt)
  IsLeast-place z x (y ∷ ys) h k = elim (Bool-cases (le x y)) [
    | inl e ↦ rw e (h, k)
    | inr e ↦ rw e (k.0, IsLeast-place z x ys h k.1)
  ]

  place-IsSorted : (x : String) (xs : List String) → IsSorted xs → IsSorted (place le x xs)
  unfolding place
  place-IsSorted x [] h = (tt, tt)
  place-IsSorted x (y ∷ ys) h = elim (Bool-cases (le x y)) [
    | inl e ↦ rw e ((e, IsLeast-weaken x y ys e h.0), h)
    | inr e ↦ rw e (IsLeast-place y x ys (o.total x y e) h.0, place-IsSorted x ys h.1)
  ]

  sorted-IsSorted : (xs : List String) → IsSorted (sorted le xs)
  unfolding sorted
  sorted-IsSorted [] = tt
  sorted-IsSorted (x ∷ xs) = place-IsSorted x (sorted le xs) (sorted-IsSorted xs)

  refl_le : (x : String) → le x x ≡ true
  refl_le x = elim (Bool-cases (le x x)) [ inl e ↦ e | inr e ↦ o.total x x e ]

  count-IsLeast : (x : String) (xs : List String) → IsLeast x xs → count (le x) xs ≡ length xs
  count-IsLeast x [] h = refl
  count-IsLeast x (y ∷ ys) h = rw h.0 (omega (arith, count-IsLeast x ys h.1))

  Stands-get_elem? :
      (xs : List String) (i : ℕ)
      → IsSorted xs
      → i < length xs
      → (s : String) × (get_elem? xs i ≡ some s) × Stands le i xs s × Elem s xs
  Stands-get_elem? [] i h k = absurd (omega (arith, k))
  Stands-get_elem? (x ∷ xs) ℕ.zero h k = (
    x,
    refl,
    (rw (refl_le x) (omega arith), rw (refl_le x) (omega (arith, count-IsLeast x xs h.0))),
    inl refl,
  )
  Stands-get_elem? (x ∷ xs) (ℕ.suc i) h k =
      let (s, e, w, m) = Stands-get_elem? xs i h.1 (omega (arith, k)) in
      (s, e, (rw (least s xs h.0 m) (omega (arith, w.0)), omega (arith, w.1)), inr m)
    where
      least : (s : String) (ys : List String) → IsLeast x ys → Elem s ys → le x s ≡ true
      least s [] h m = absurd m
      least s (y ∷ ys) h (inl e) = subst (λ z. le x z ≡ true) (sym e) h.0
      least s (y ∷ ys) h (inr m) = least s ys h.1 m

Stands-sorted :
    (le : String → String → Bool) (i : ℕ) (xs : List String) (s : String)
    → Stands le i (sorted le xs) s
    → Stands le i xs s
Stands-sorted le i xs s h = (
  omega (arith, h.0, count-sorted (λ x. le x s) le xs),
  omega (arith, h.1, count-sorted (le s) le xs, length-sorted le xs),
)

module _ (fm : Formats) (o : IsOrder fm.float_le) where
  -- A percentile is `0.0` when there is no latency, and else in milliseconds a latency that stands at
  -- the place.
  abbrev pub IsPercentile : ℕ → List String → String → Type 0
  IsPercentile i [] x = x ≡ "0.0"
  IsPercentile i (t ∷ ts) x =
      (s : String) × Elem s (sorted fm.float_le (t ∷ ts))
      × Stands fm.float_le i (t ∷ ts) s
      × (x ≡ fm.times_1000 s)

  percentile-IsPercentile :
      (index : ℕ → ℕ)
      → ((n : ℕ) → 0 < n → index n < n)
      → (ts : List String)
      → (x : String) × (percentile fm index ts ≡ value x) × IsPercentile (index (length ts)) ts x
  unfolding percentile
  percentile-IsPercentile index h [] = ("0.0", refl, refl)
  percentile-IsPercentile index h (t ∷ ts) =
      let le = fm.float_le in
      let (s, e, w, m) =
        Stands-get_elem? le o (sorted le (t ∷ ts)) (index (length (t ∷ ts)))
          (sorted-IsSorted le o (t ∷ ts))
          (rw (length-sorted le (t ∷ ts)) (h (length (t ∷ ts)) (omega arith))) in
      (fm.times_1000 s, rw e refl, (s, m, Stands-sorted le _ (t ∷ ts) s w, refl))

  -- The page is the text of the metrics with the two percentiles of their latencies.
  abbrev pub IsPage : String → ServerMetrics → String → Type 0
  IsPage uptime m page =
      (p q : String) × IsPercentile (length m.latencies / 2) m.latencies p
      × IsPercentile (length m.latencies * 99 / 100) m.latencies q
      × (page ≡ metrics_text fm uptime p q m)

  -- If the order of floats is total and transitive, the page of the metrics is rendered without an
  -- IndexError, also when there is no latency yet. Its two percentiles are `0.0` when there is none.
  -- When there are n, they are in milliseconds a latency such that more than n / 2 are at most it and
  -- all but n / 2 at least it, and one such that this holds with n * 99 / 100, both rounded down.
  pub render_prometheus-IsPage :
      (uptime : String) (m : ServerMetrics)
      → (page : String) × (render_prometheus fm uptime m ≡ value page) × IsPage uptime m page
  unfolding render_prometheus
  render_prometheus-IsPage uptime m =
      let (p, e, hp) = percentile-IsPercentile half (λ n h. omega arith) m.latencies in
      let (q, f, hq) =
        percentile-IsPercentile ninety_nine_percent (λ n h. omega arith) m.latencies in
      (metrics_text fm uptime p q m, rw (e, f) refl, (p, q, hp, hq, refl))
