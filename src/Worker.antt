-- ===== src/Worker.antt =====
-- tools/worker.py: `SchemaDriftDetector` and `MigrationWorker`. What the database answers and the
-- digest of a text are arguments; the log and the pauses between two rounds are not modelled.
pub mod Drift
pub mod Loop
use nlsqlc.Base.{
  eqb, leb, ◌+◌, ℕ, String, ◌<>◌, Bool, true, false, not, Option, none, some, List, [], ◌∷◌, ◌++◌,
  map, length, if◌then◌else◌, ◌==◌, ◌&&◌,
}
use nlsqlc.Base.Dict.{Dict}
use nlsqlc.Base.Sort.{text_le, pair_le, sorted, set_of, difference}
use nlsqlc.Base.Text.{join}
use nlsqlc.Base.Outcome.{Outcome, value, raised, attribute_error, ◌>>=◌}
use nlsqlc.Runtime.{Runtime}
use nlsqlc.Importer.{Database, ColumnRow, import_schema}

abbrev pub pair_eq : String × String → String × String → Bool
pair_eq (a, b) (c, d) = a == c && b == d

-- The state of a `SchemaDriftDetector`; sets are lists without repeated elements, whose order
-- stands for the arbitrary one of Python
pub record Detector : Type 0 where
  pub last_schema_hash : Option String
  pub known_tables : List String
  pub known_columns : List (String × String)

abbrev pub new_detector : Detector
new_detector = record { last_schema_hash = none; known_tables = []; known_columns = [] }

pub record Snapshot : Type 0 where
  pub hash : String
  pub tables : List String
  pub columns : List (String × String)

-- The answer of `check_drift`
pub record Report : Type 0 where
  pub drift_detected : Bool
  pub schema_hash : String
  pub table_count : ℕ
  pub column_count : ℕ
  pub new_tables : List String
  pub dropped_tables : List String
  pub new_columns : List (String × String)
  pub dropped_columns : List (String × String)

-- the pairs of a table with each of its columns
columns_of : Database → List String → List (String × String)
columns_of db [] = []
columns_of db (t ∷ ts) = map (λ (r : ColumnRow). (t, r.name)) (db.columns t) ++ columns_of db ts

-- `last is not None and schema_hash != last`
unfoldable pub has_drifted : Option String → String → Bool
has_drifted none hash = false
has_drifted (some last) hash = not (hash == last)

-- The four differences are computed where drift was detected; else the lists stay empty.
unfoldable pub changes {ℓ} : {A : Type ℓ} → Bool → (A → A → Bool) → List A → List A → List A
changes true eq s t = difference eq s t
changes false eq s t = []

unfoldable pub compare_snapshot : Snapshot → Detector → Report × Detector
unfolding has_drifted changes
compare_snapshot s d =
    let drift = has_drifted d.last_schema_hash s.hash in
    (
      record {
        drift_detected = drift;
        schema_hash = s.hash;
        table_count = length s.tables;
        column_count = length s.columns;
        new_tables = changes drift (◌==◌) s.tables d.known_tables;
        dropped_tables = changes drift (◌==◌) d.known_tables s.tables;
        new_columns = changes drift pair_eq s.columns d.known_columns;
        dropped_columns = changes drift pair_eq d.known_columns s.columns;
      },
      record { last_schema_hash = some s.hash; known_tables = s.tables; known_columns = s.columns },
    )

-- What `db_path` is: the annotations say `str`
pub data DatabasePath : Type 0 where
  as_text as_path : DatabasePath

-- `database.resolve()`, at the start of the importer: a `str` has no such method
unfoldable pub resolve : DatabasePath → Outcome (Unit {0})
resolve as_path = value tt
resolve as_text = raised (attribute_error "'str' object has no attribute 'resolve'")

-- `iterations and count >= iterations`
unfoldable pub is_done : Option ℕ → ℕ → Bool
is_done none count = false
is_done (some n) count = not (eqb n 0) && leb n count

module _ (rt : Runtime) (sha256 : String → String) where
  -- `repr` of a list of texts, and of one of pairs
  texts_repr : List String → String
  texts_repr xs = "[" <> (join ", " (map rt.repr_text xs) <> "]")

  pairs_repr : List (String × String) → String
  pairs_repr xs =
      "["
      <> (join ", " (
            map
              (λ (p : String × String).
                "(" <> (rt.repr_text p.0 <> (", " <> (rt.repr_text p.1 <> ")"))))
              xs)
          <> "]")

  unfoldable pub snapshot : Database → Snapshot
  unfolding texts_repr pairs_repr columns_of set_of sorted
  snapshot db =
      let tables = set_of (◌==◌) (sorted text_le db.tables) in
      let columns = set_of pair_eq (columns_of db (sorted text_le db.tables)) in
      record {
        hash = sha256 (
            "tables="
            <> (texts_repr (sorted text_le tables)
                <> (";columns=" <> pairs_repr (sorted pair_le columns))));
        tables = tables;
        columns = columns;
      }

  unfoldable pub check_drift : Database → Detector → Report × Detector
  unfolding snapshot compare_snapshot
  check_drift db d = compare_snapshot (snapshot db) d

  -- `import_schema(self.detector.db_path, self.detector.tenant_columns)`
  unfoldable pub import_from : Database → DatabasePath → Outcome String
  unfolding resolve
  import_from db path = resolve path >>= λ _. import_schema rt db []

  -- the text written to the schema file, where `out_schema_path` is given
  unfoldable pub written : Database → DatabasePath → Bool → Bool → Outcome (Option String)
  unfolding import_from
  written db path true true = import_from db path >>= λ text. value (some text)
  written db path _ _ = value none

  -- `run_once`: the report with what it writes, and the detector behind it
  unfoldable pub run_once :
      Database → DatabasePath → Bool → Detector → Outcome (Report × Option String) × Detector
  unfolding check_drift written
  run_once db path has_out d =
      let (report, next) = check_drift db d in
      (written db path report.drift_detected has_out >>= λ text. value (report, text), next)

  -- the rounds of `start`, one for each state in which the database is found: what `run_once` gives,
  -- an exception that is logged included, the detector, and whether the loop has ended
  unfoldable pub run_rounds :
      DatabasePath
      → Bool
      → Option ℕ
      → List Database
      → ℕ
      → Detector
      → List (Outcome (Report × Option String)) × Detector × Bool
  unfolding run_once is_done
  run_rounds path has_out iterations [] count d = ([], d, false)
  run_rounds path has_out iterations (db ∷ dbs) count d =
      let (o, next) = run_once db path has_out d in
      let (os, last, ended) = run_rounds path has_out iterations dbs (count + 1) next in
      if is_done iterations (count + 1) then (o ∷ [], next, true) else (o ∷ os, last, ended)

  -- `start(iterations)`
  unfoldable pub start :
      DatabasePath
      → Bool
      → Option ℕ
      → List Database
      → Detector
      → List (Outcome (Report × Option String)) × Detector × Bool
  unfolding run_rounds
  start path has_out iterations dbs d = run_rounds path has_out iterations dbs 0 d
