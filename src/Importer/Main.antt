-- ===== src/Importer/Main.antt =====
-- tools/sqlite_schema_import.py: `main`, with the arguments that argparse has read.
use Prim.Native.Char.{code}
use nlsqlc.Base.{String, ◌<>◌, Bool, Option, none, some, List, [], ◌∷◌, ◌==◌, eqb, if◌then◌else◌}
use nlsqlc.Base.Dict
use nlsqlc.Base.Dict.{Dict}
use nlsqlc.Base.Outcome.{Outcome, value, raised, returned, Exception, value_error, message, ◌>>=◌}
use nlsqlc.Runtime.{Runtime}
use nlsqlc.Importer.{Database, ident, import_schema}
use nlsqlc.Importer.Write.{Os, World, Run, atomic_write}

-- `text.split("=", 1)`; `none` where there is no "="
unfoldable pub split_once : String → Option (String × String)
split_once String.[] = none
split_once (String.◌∷◌ c s) =
    let rest = split_once s in
    if eqb (code c) b'='
    then some ("", s)
    else elim rest [ none ↦ none | some (a, b) ↦ some (String.◌∷◌ c a, b) ]

-- How the program ends: `parser.error`, whose exit status is 2, an exception, or the status 0
pub data Finish : Type 0 where
  usage : String → Finish
  stopped : Exception → Finish
  finished : Finish

-- The arguments of the command line, and whether the database is a file
pub record Arguments : Type 0 where
  pub database : String
  pub is_file : Bool
  pub output : String
  pub tenant_tables : List String

-- The dictionary, or the text for `parser.error`
pub data Mappings : Type 0 where
  invalid : String → Mappings
  mapped : Dict String String → Mappings

module _ (rt : Runtime) where
  -- `tenant_columns[ident(table)] = ident(column)`, where the right side comes first
  unfoldable pub add_mapping : String → String → Dict String String → Outcome (Dict String String)
  add_mapping table column columns =
      ident rt column >>= λ c. ident rt table >>= λ t. value (Dict.insert (◌==◌) t c columns)

  -- the loop over `args.tenant_table`
  unfoldable pub read_mappings : List String → Dict String String → Mappings
  unfolding add_mapping split_once
  read_mappings [] columns = mapped columns
  read_mappings (m ∷ ms) columns = elim (split_once m) [
    | none ↦
        invalid
          ("invalid --tenant-table mapping: " <> (rt.repr_text m <> "; expected TABLE=COLUMN"))
    | some (table, column) ↦ elim (add_mapping table column columns) [
      | value added ↦ read_mappings ms added
      | raised e ↦ invalid (message e)
      | returned f e ↦ invalid e
    ]
  ]

  abbrev pub finish : Run → Finish × World
  finish (value u, w) = (finished, w)
  finish (raised e, w) = (stopped e, w)
  finish (returned f m, w) = (stopped (value_error m), w)

  module _ (os : Os) (db : Database) where
    -- `atomic_write(args.output, import_schema(args.database, tenant_columns))`
    unfoldable pub import_to : String → Dict String String → World → Finish × World
    import_to output columns w = elim (import_schema rt db columns) [
      | value text ↦ finish (atomic_write os output text w)
      | raised e ↦ (stopped e, w)
      | returned f m ↦ (stopped (value_error m), w)
    ]

    unfoldable pub main : Arguments → World → Finish × World
    unfolding read_mappings import_to
    main args w =
        if args.is_file
        then (elim (read_mappings args.tenant_tables []) [
          | invalid m ↦ (usage m, w)
          | mapped columns ↦ import_to args.output columns w
        ])
        else (usage ("database does not exist: " <> args.database), w)
