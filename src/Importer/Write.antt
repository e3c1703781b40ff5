-- ===== src/Importer/Write.antt =====
-- tools/sqlite_schema_import.py: `atomic_write`, over a store of files. The calls of the operating
-- system can fail one by one; every state of the store that another process can see is kept.
use nlsqlc.Base.{String, Option, none, some, List, [], ◌∷◌, ◌==◌}
use nlsqlc.Base.Dict
use nlsqlc.Base.Dict.{Dict}
use nlsqlc.Base.Outcome.{Outcome, value, raised, returned, Exception, os_error}

abbrev pub Files : Type 0
Files = Dict String String

-- The calls that `atomic_write` makes, each once at most
pub data Call : Type 0 where
  mkdir create write flush sync close replace open_directory sync_directory close_directory unlink :
      Call

-- The operating system: the exception of each call, if it fails, the name of the temporary file,
-- and what of a text stands in a file whose write has not been flushed
pub record Os : Type 0 where
  pub fails : Call → Option Exception
  pub temporary : String
  pub buffered : String → String

-- The files, and their earlier states, the latest first
pub record World : Type 0 where
  pub files : Files
  pub past : List Files

unfoldable pub note : Files → World → World
note files w = record { files = files; past = w.files ∷ w.past }

-- A call, and what the files are behind it when it is done and when it has failed
pub record Operation : Type 0 where
  pub call : Call
  pub done : Files → Files
  pub broken : Files → Files

abbrev pub same_files : Files → Files
same_files files = files

abbrev pub silent : Call → Operation
silent c = record { call = c; done = same_files; broken = same_files }

abbrev pub put : String → String → Files → Files
put path text files = Dict.insert (◌==◌) path text files

-- `os.replace`
unfoldable pub moved : String → String → Files → Files
moved temporary path files = elim (Dict.lookup (◌==◌) temporary files) [
  | none ↦ files
  | some text ↦ put path text (Dict.erase (◌==◌) temporary files)
]

abbrev pub Run : Type 0
Run = Outcome (Unit {0}) × World

module _ (os : Os) where
  -- calls one after another, up to the first that fails
  unfoldable pub sequence : List Operation → World → Run
  unfolding note
  sequence [] w = (value tt, w)
  sequence (op ∷ ops) w = elim (os.fails op.call) [
    | none ↦ sequence ops (note (op.done w.files) w)
    | some e ↦ (raised e, note (op.broken w.files) w)
  ]

  abbrev pub after : Run → (World → Run) → Run
  after (value u, w) k = k w
  after (raised e, w) k = (raised e, w)
  after (returned f m, w) k = (returned f m, w)

  -- a call that is made however the part before it has ended; its exception takes over
  unfoldable pub finally : Operation → Run → Run
  unfolding note
  finally op (o, w) = elim (os.fails op.call) [
    | none ↦ (o, note (op.done w.files) w)
    | some e ↦ (raised e, note (op.broken w.files) w)
  ]

  -- `except OSError: pass`
  abbrev pub except_os_error : Run → Run
  except_os_error (raised (os_error m), w) = (value tt, w)
  except_os_error r = r

  module _ (path content : String) where
    abbrev pub creation : Operation
    creation = record { call = create; done = put os.temporary ""; broken = same_files }

    abbrev pub filling : List Operation
    filling =
        record {
          call = write;
          done = put os.temporary (os.buffered content);
          broken = put os.temporary (os.buffered content);
        }
        ∷ record {
          call = flush;
          done = put os.temporary content;
          broken = put os.temporary (os.buffered content);
        }
        ∷ silent sync
        ∷ []

    -- the body of `with tempfile.NamedTemporaryFile(...) as handle` and its end, and `os.replace`
    unfoldable pub fill_and_replace : World → Run
    unfolding sequence finally moved
    fill_and_replace w = after (finally (silent close) (sequence filling w)) (
        sequence
          (record { call = replace; done = moved os.temporary path; broken = same_files } ∷ []))

    -- the inner `try`, which makes the new name durable
    unfoldable pub sync_parent : World → Run
    unfolding sequence finally
    sync_parent w = except_os_error (
        after (sequence (silent open_directory ∷ []) w)
          (λ v. finally (silent close_directory) (sequence (silent sync_directory ∷ []) v)))

    abbrev pub removal : Operation
    removal = record { call = unlink; done = Dict.erase (◌==◌) os.temporary; broken = same_files }

    -- the outer `finally`: `temporary` is None once the file has its name
    unfoldable pub clean_up : Run → Run
    unfolding finally sync_parent
    clean_up (value u, w) = sync_parent w
    clean_up r = finally removal r

    unfoldable pub atomic_write : World → Run
    unfolding sequence clean_up fill_and_replace
    atomic_write w =
        after (sequence (silent mkdir ∷ creation ∷ []) w) (λ v. clean_up (fill_and_replace v))
