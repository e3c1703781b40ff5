-- ===== src/ToolTests.antt =====
-- Runs of the models of the programs under tools/, and the theorems at concrete inputs.
use nlsqlc.Base.{
  length, arith, String, ◌≡◌, ◌≢◌, refl, [], ◌∷◌, some, none, Option, List, true, ◌==◌,
}
use nlsqlc.Base.Dict
use nlsqlc.Base.Text.{contains, join}
use nlsqlc.Base.Outcome.{value, os_error, Exception}
use nlsqlc.Samples.{plain, orders}
use nlsqlc.Catalog.{type_code, type_unknown}
use nlsqlc.Catalog.Build.{TableSpec}
use nlsqlc.Importer.{ColumnRow, Database, sql_type, is_safe, import_schema}
use nlsqlc.Importer.Types.{type_code-sql_type}
use nlsqlc.Importer.Write.{Call, Os, atomic_write}
use nlsqlc.Importer.Posts.{Seen}
use nlsqlc.Importer.Files.{
  IsWhole, AllOrNothing, fresh, atomic_write-IsWhole, atomic_write-AllOrNothing,
}
use nlsqlc.Importer.Main.{Arguments, finished, main}
use nlsqlc.Importer.Commands.{Ended, main-Ended}
use nlsqlc.Worker.{Detector, pair_eq, as_text, snapshot, check_drift, start}
use nlsqlc.Worker.Loop.{start-length}
use nlsqlc.Worker.Drift.{IsExact, check_drift-IsExact}
use nlsqlc.Gateway.{Gateway, reload}

type_code-sql_type_example : type_code (sql_type plain "VARCHAR(10)") ≢ type_unknown
type_code-sql_type_example = type_code-sql_type plain "VARCHAR(10)"

abbrev users_row : ColumnRow
users_row = record { name = "id"; declared = "INTEGER"; notnull = true; pk = true }

abbrev users_only : Database
users_only = record {
  tables = "users" ∷ [];
  columns = λ t. users_row ∷ [];
  foreign_keys = λ t. record { parent = "users"; from_col = "id"; to_col = "id" } ∷ [];
}

users_import :
    import_schema plain users_only []
    ≡ value
        "nlschema 1\ntable public users\ncolumn public users.id int64 pk,not_null\nfk public users.id public users.id\n"
unfolding import_schema sql_type is_safe contains join Dict.lookup
users_import = refl

abbrev same : String → String
same s = s

abbrev seen : Detector
seen = record {
  last_schema_hash = some "old";
  known_tables = "orders" ∷ [];
  known_columns = ("orders", "id") ∷ [];
}

users_drift : (check_drift plain same users_only seen).0.drift_detected ≡ true
unfolding check_drift join
users_drift = refl

check_drift-IsExact_example :
    IsExact
      (◌==◌)
      (snapshot plain same users_only).tables
      seen.known_tables
      (check_drift plain same users_only seen).0.new_tables
      (check_drift plain same users_only seen).0.dropped_tables
      "users"
    × IsExact pair_eq
        (snapshot plain same users_only).columns
        seen.known_columns
        (check_drift plain same users_only seen).0.new_columns
        (check_drift plain same users_only seen).0.dropped_columns
        ("orders", "id")
check_drift-IsExact_example =
    check_drift-IsExact plain same users_only seen "users" ("orders", "id") users_drift

abbrev one_table : List TableSpec
one_table =
    record { key = orders; columns = record { name = "id"; type = 3; flags = none } ∷ [] } ∷ []

abbrev no_gateway : Gateway
no_gateway = record { schema = none; policy = none }

broken_file : (reload (some "table public t\ncolumn public t") no_gateway).1 ≡ no_gateway
unfolding reload
broken_file = refl

abbrev three_times : List Database
three_times = users_only ∷ users_only ∷ users_only ∷ []

start-length_example :
    (length (start plain same as_text true (some 2) three_times seen).0 ≡ 2)
    × ((start plain same as_text true (some 2) three_times seen).2 ≡ true)
start-length_example =
    start-length plain same as_text true 2 three_times seen (omega arith) (omega arith)

abbrev only : Call → Call → Option Exception
only Call.replace Call.replace = some (os_error "Permission denied")
only _ _ = none

-- Only `os.replace` fails.
abbrev no_replace : Os
no_replace = record {
  fails = only Call.replace;
  temporary = "/data/.out.x.tmp";
  buffered = λ s. "";
}

abbrev working : Os
working = record no_replace { fails = λ c. none }

abbrev old_files : List (String × String)
old_files = ("/data/out", "old") ∷ []

atomic_write-IsWhole_example :
    Seen
      (IsWhole no_replace "/data/out" "new" old_files)
      (atomic_write no_replace "/data/out" "new" (fresh old_files)).1
unfolding atomic_write Dict.lookup
atomic_write-IsWhole_example = atomic_write-IsWhole no_replace "/data/out" "new" old_files refl refl

atomic_write-AllOrNothing_example :
    AllOrNothing no_replace "/data/out" "new" old_files
      (atomic_write no_replace "/data/out" "new" (fresh old_files))
unfolding Dict.lookup
atomic_write-AllOrNothing_example =
    atomic_write-AllOrNothing no_replace "/data/out" "new" old_files refl refl tt tt tt refl

not_replaced : (atomic_write no_replace "/data/out" "new" (fresh old_files)).1.files ≡ old_files
unfolding atomic_write Dict.insert Dict.erase
not_replaced = refl

abbrev users_arguments : Arguments
users_arguments = record {
  database = "/data/db";
  is_file = true;
  output = "/data/out";
  tenant_tables = "users=id" ∷ [];
}

main-Ended_example :
    Ended plain working users_only users_arguments old_files
      (main plain working users_only users_arguments (fresh old_files))
unfolding Dict.lookup
main-Ended_example =
    main-Ended plain working users_only users_arguments old_files refl refl tt tt tt refl

users_finished : (main plain working users_only users_arguments (fresh old_files)).0 ≡ finished
unfolding main import_schema atomic_write Dict.lookup Dict.insert Dict.erase sql_type is_safe
    contains join
users_finished = refl
