-- ===== src/Worker/Loop.antt =====
-- How many rounds the polling loop makes.
use nlsqlc.Base.{
  ℕ, ◌+◌, ◌≤◌, ◌<◌, String, Bool, true, ◌≡◌, refl, some, List, [], ◌∷◌, length, Bool-cases, inl,
  inr, arith, leb,
}
use nlsqlc.Runtime.{Runtime}
use nlsqlc.Importer.{Database}
use nlsqlc.Worker.{Detector, DatabasePath, is_done, run_once, run_rounds, start}

is_done_lem : (n count : ℕ) → 0 < n → is_done (some n) count ≡ leb n count
unfolding is_done
is_done_lem n count h = ground arith

module _ (rt : Runtime) (sha256 : String → String) (path : DatabasePath) (has_out : Bool) where
  run_rounds-length :
      (n : ℕ) (dbs : List Database) (count : ℕ) (d : Detector)
      → count < n
      → n ≤ count + length dbs
      → (count + length (run_rounds rt sha256 path has_out (some n) dbs count d).0 ≡ n)
        × ((run_rounds rt sha256 path has_out (some n) dbs count d).2 ≡ true)
  unfolding run_rounds
  run_rounds-length n [] count d h k = absurd (omega (arith, h, k))
  run_rounds-length n (db ∷ dbs) count d h k =
      let next = (run_once rt sha256 db path has_out d).1 in
      let positive : 0 < n = omega (arith, h) in
      elim (Bool-cases (leb n (count + 1))) [
        | inl e ↦ rw (is_done_lem n (count + 1) positive, e) ((ground arith, refl))
        | inr e ↦
            let (a, b) =
              run_rounds-length n dbs (count + 1) next (ground arith) (omega (arith, k)) in
            rw (is_done_lem n (count + 1) positive, e) ((omega (arith, a), b))
      ]

  -- With a number of iterations above 0, the loop ends after exactly that many rounds, whichever of them
  -- raise an exception, if the database is there for as many.
  pub start-length :
      (n : ℕ) (dbs : List Database) (d : Detector)
      → 0 < n
      → n ≤ length dbs
      → (length (start rt sha256 path has_out (some n) dbs d).0 ≡ n)
        × ((start rt sha256 path has_out (some n) dbs d).2 ≡ true)
  unfolding start
  start-length n dbs d h k =
      let (a, b) = run_rounds-length n dbs 0 d h (omega (arith, k)) in (omega (arith, a), b)
