-- ===== src/Worker/Drift.antt =====
-- What the drift detector reports.
use nlsqlc.Base.{
  String, Bool, true, false, not, ◌&&◌, ◌||◌, List, [], ◌∷◌, ◌≡◌, refl, ap, ◌∙◌, ◌==◌, eq_iff,
  Bool-cases, and-cases, inl, inr,
}
use nlsqlc.Base.Sort.{in_set, difference}
use nlsqlc.Runtime.{Runtime}
use nlsqlc.Importer.{Database}
use nlsqlc.Worker.{
  pair_eq, Detector, Report, has_drifted, changes, compare_snapshot, snapshot, check_drift,
}

and_false : (b : Bool) → (b && false) ≡ false
and_false true = refl
and_false false = refl

module _ {A : Type 0} (eq : A → A → Bool) (sound : (a b : A) → eq a b ≡ true → a ≡ b) where
  in_set-difference :
      (a : A) (s t : List A)
      → in_set eq a (difference eq s t) ≡ (in_set eq a s && not (in_set eq a t))
  unfolding difference in_set
  in_set-difference a [] t = refl
  in_set-difference a (b ∷ s) t =
      let rest = in_set-difference a s t in
      elim (Bool-cases (in_set eq b t)) [
        | inl m ↦ elim (Bool-cases (eq a b)) [
          | inl e ↦
              let there : in_set eq a t ≡ true = ap (λ x. in_set eq x t) (sound a b e) ∙ m in
              rw (m, rest, e, there) (and_false (in_set eq a s))
          | inr e ↦ rw (m, e) rest
        ]
        | inr m ↦ elim (Bool-cases (eq a b)) [
          | inl e ↦
              let absent : in_set eq a t ≡ false = ap (λ x. in_set eq x t) (sound a b e) ∙ m in
              rw (m, e, absent) refl
          | inr e ↦ rw (m, e) rest
        ]
      ]

  -- The old elements that were not dropped and the new ones are the current elements.
  rebuilt :
      (a : A) (current known : List A)
      → ((in_set eq a known && not (in_set eq a (difference eq known current)))
          || in_set eq a (difference eq current known))
        ≡ in_set eq a current
  rebuilt a current known =
      rw (in_set-difference a known current, in_set-difference a current known)
        (table (in_set eq a known) (in_set eq a current))
    where
      table : (k c : Bool) → ((k && not (k && not c)) || (c && not k)) ≡ c
      table true true = refl
      table true false = refl
      table false true = refl
      table false false = refl

pair_eq_sound : (a b : String × String) → pair_eq a b ≡ true → a ≡ b
pair_eq_sound (a, b) (c, d) h =
    let (p, q) = and-cases (a == c) (b == d) h in λ i. ((eq_iff a c).0 p i, (eq_iff b d).0 q i)

-- The current elements are the known ones without the dropped ones, and the added ones.
abbrev pub IsExact {ℓ} :
    {A : Type ℓ} → (A → A → Bool) → List A → List A → List A → List A → A → Type 0
IsExact eq current known added dropped a =
    ((in_set eq a known && not (in_set eq a dropped)) || in_set eq a added) ≡ in_set eq a current

module _ (rt : Runtime) (sha256 : String → String) (db : Database) (d : Detector) where
  abbrev report : Report
  report = (check_drift rt sha256 db d).0

  changes-IsExact :
      {A : Type 0} (eq : A → A → Bool) (sound : (a b : A) → eq a b ≡ true → a ≡ b) (drift : Bool)
      (current known : List A) (a : A)
      → drift ≡ true
      → IsExact eq current known (changes drift eq current known) (changes drift eq known current) a
  unfolding changes
  changes-IsExact eq sound true current known a h = rebuilt eq sound a current known
  changes-IsExact eq sound false current known a h = cc

  -- If drift is detected, then the tables that the report calls new and dropped, applied to the
  -- tables known before, give the tables of the database, and so do the columns.
  pub check_drift-IsExact :
      (table : String) (column : String × String)
      → report.drift_detected ≡ true
      → IsExact
          (◌==◌)
          (snapshot rt sha256 db).tables
          d.known_tables
          report.new_tables
          report.dropped_tables
          table
        × IsExact pair_eq
            (snapshot rt sha256 db).columns
            d.known_columns
            report.new_columns
            report.dropped_columns
            column
  unfolding check_drift compare_snapshot
  check_drift-IsExact table column h = (
    changes-IsExact (◌==◌) (λ a b. (eq_iff a b).0) _ _ _ table h,
    changes-IsExact pair_eq pair_eq_sound _ _ _ column h,
  )

  -- A check of a database that has not changed since the last check detects no drift.
  pub check_drift-again :
      (check_drift rt sha256 db (check_drift rt sha256 db d).1).0.drift_detected ≡ false
  unfolding check_drift compare_snapshot has_drifted
  check_drift-again = ap not ((eq_iff (snapshot rt sha256 db).hash _).1 refl)
