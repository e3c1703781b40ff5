-- ===== src/Importer/Commands.antt =====
-- How a run of the importer's `main` ends.
use mathlib.Core.Path.{subst}
use nlsqlc.Base.{
  String, ◌<>◌, false, ◌≡◌, refl, sym, Option, none, some, List, [], ◌∷◌, ◌==◌, All, Bool-cases,
  inl, inr,
}
use nlsqlc.Base.Dict
use nlsqlc.Base.Sort.{set_of}
use nlsqlc.Base.Dict.{Dict}
use nlsqlc.Base.Outcome.{
  Outcome, value, raised, returned, value_error, message, >>=-eq-value, value-injective,
}
use nlsqlc.Runtime.{Runtime}
use nlsqlc.Importer.{Database, ident, import_schema}
use nlsqlc.Importer.Identifiers.{IsSafe, ident-IsSafe, IsSafeTable, import_schema-IsSafe}
use nlsqlc.Importer.Write.{Call, Files, Os, World, Run, atomic_write}
use nlsqlc.Importer.Posts.{read, IsOsError}
use nlsqlc.Importer.Files.{IsOld, IsNew, IsClean, AllOrNothing, fresh, atomic_write-AllOrNothing}
use nlsqlc.Importer.Main.{
  Arguments, Finish, usage, stopped, finished, Mappings, invalid, mapped, split_once, add_mapping,
  read_mappings, finish, import_to, main,
}

module _ (rt : Runtime) where
  abbrev pub IsSafePair : String × String → Type 0
  IsSafePair (table, column) = IsSafe rt table × IsSafe rt column

  insert-IsSafePair :
      (t c : String) (d : Dict String String)
      → IsSafe rt t
      → IsSafe rt c
      → All IsSafePair d
      → All IsSafePair (Dict.insert (◌==◌) t c d)
  unfolding Dict.insert
  insert-IsSafePair t c [] st sc h = ((st, sc), tt)
  insert-IsSafePair t c ((j, v) ∷ d) st sc h = elim (Bool-cases (t == j)) [
    | inl e ↦ rw e ((h.0.0, sc), h.1)
    | inr e ↦ rw e (h.0, insert-IsSafePair t c d st sc h.1)
  ]

  safe : (s t : String) → ident rt s ≡ value t → IsSafe rt t
  safe s t h = let (k, e) = ident-IsSafe rt s h in subst (IsSafe rt) (sym e) k

  -- The mappings that are accepted name safe identifiers only.
  abbrev MappedSafely : Mappings → Type 0
  MappedSafely (invalid m) = Unit
  MappedSafely (mapped d) = All IsSafePair d

  read_mappings-MappedSafely :
      (ms : List String) (d : Dict String String)
      → All IsSafePair d
      → MappedSafely (read_mappings rt ms d)
  unfolding read_mappings add_mapping
  read_mappings-MappedSafely [] d h = h
  read_mappings-MappedSafely (m ∷ ms) d h' =
      go (split_once m) λ e k. read_mappings-MappedSafely ms e k
    where
      added :
          (table column : String) (o : Outcome (Dict String String))
          → ((e : Dict String String) → All IsSafePair e → MappedSafely (read_mappings rt ms e))
          → add_mapping rt table column d ≡ o
          → MappedSafely (elim o [
            | value added ↦ read_mappings rt ms added
            | raised e ↦ invalid (message e)
            | returned f e ↦ invalid e
          ])
      added table column (value e) again h =
          let (c, h1, k1) = >>=-eq-value (ident rt column) _ h in
          let (t, h2, k2) = >>=-eq-value (ident rt table) _ k1 in
          again e (
            subst (All IsSafePair) (value-injective _ _ k2)
              (insert-IsSafePair t c d (safe table t h2) (safe column c h1) h'))
      added table column (raised e) again h = tt
      added table column (returned f e) again h = tt

      go :
          (o : Option (String × String))
          → ((e : Dict String String) → All IsSafePair e → MappedSafely (read_mappings rt ms e))
          → MappedSafely (elim o [
            | none ↦ invalid (
                "invalid --tenant-table mapping: " <> (rt.repr_text m <> "; expected TABLE=COLUMN"))
            | some (table, column) ↦ elim (add_mapping rt table column d) [
              | value added ↦ read_mappings rt ms added
              | raised e ↦ invalid (message e)
              | returned f e ↦ invalid e
            ]
          ])
      go none again = tt
      go (some (table, column)) again =
          added table column (add_mapping rt table column d) again refl

  module _ (os : Os) (db : Database) (args : Arguments) (files : Files) where
    -- What a run leaves behind, by the way in which it ends.
    abbrev pub Ended : Finish × World → Type 0
    Ended (usage m, w) = w ≡ fresh files
    Ended (stopped e, w) =
        IsOld os args.output "" files w.files × IsClean os args.output "" files w.files
    Ended (finished, w) =
        (columns : Dict String String) × (text : String) × (read_mappings rt args.tenant_tables []
          ≡ mapped columns)
        × (import_schema rt db columns ≡ value text)
        × All IsSafePair columns
        × All (IsSafe rt) db.tables
        × All (IsSafeTable rt db (set_of (◌==◌) db.tables)) db.tables
        × IsNew os args.output text files w.files
        × IsClean os args.output text files w.files

    module _ (other : os.temporary == args.output ≡ false) (free : read os.temporary files ≡ none)
        (opening : IsOsError (os.fails Call.open_directory))
        (syncing : IsOsError (os.fails Call.sync_directory))
        (closing : IsOsError (os.fails Call.close_directory))
        (unlinking : os.fails Call.unlink ≡ none) where
      import_to-Ended :
          (columns : Dict String String)
          → read_mappings rt args.tenant_tables [] ≡ mapped columns
          → All IsSafePair columns
          → Ended (import_to rt os db args.output columns (fresh files))
      unfolding import_to
      import_to-Ended columns given safe = go (import_schema rt db columns) refl
        where
          wrote :
              (text : String) (r : Run)
              → import_schema rt db columns ≡ value text
              → AllOrNothing os args.output text files r
              → Ended (finish rt r)
          wrote text (value u, w) e h = (
            columns,
            text,
            given,
            e,
            safe,
            (import_schema-IsSafe rt db columns text e).0,
            (import_schema-IsSafe rt db columns text e).1,
            h.0,
            h.1,
          )
          wrote text (raised x, w) e h = h
          wrote text (returned f m, w) e h = absurd h

          go :
              (o : Outcome String)
              → import_schema rt db columns ≡ o
              → Ended (elim o [
                | value text ↦ finish rt (atomic_write os args.output text (fresh files))
                | raised e ↦ (stopped e, fresh files)
                | returned f m ↦ (stopped (value_error m), fresh files)
              ])
          go (value text) e = wrote text _ e (
              atomic_write-AllOrNothing os args.output text files other free opening syncing closing
                unlinking)
          go (raised x) e = ((λ j _. refl), free)
          go (returned f m) e = ((λ j _. refl), free)

      -- If the name of the temporary file is new and not the output's, the calls on the directory
      -- raise nothing but OSErrors, and the temporary file can be removed, then a run that finishes
      -- has read mappings between safe identifiers, the names of the database's tables, columns and
      -- foreign keys are safe identifiers, and the output holds the text of the import under these
      -- mappings; a usage error changes nothing; and a run that an exception stops leaves every
      -- file as it was. No run leaves a temporary file.
      pub main-Ended : Ended (main rt os db args (fresh files))
      unfolding main
      main-Ended = elim (Bool-cases args.is_file) [
        | inl e ↦ rw e (go (read_mappings rt args.tenant_tables []) refl)
        | inr e ↦ rw e refl
      ]
        where
          go :
              (ms : Mappings)
              → read_mappings rt args.tenant_tables [] ≡ ms
              → Ended (elim ms [
                | invalid m ↦ (usage m, fresh files)
                | mapped columns ↦ import_to rt os db args.output columns (fresh files)
              ])
          go (invalid m) e = refl
          go (mapped columns) e =
              import_to-Ended columns e
                (subst MappedSafely e (read_mappings-MappedSafely args.tenant_tables [] tt))
