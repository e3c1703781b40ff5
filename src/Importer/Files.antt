-- ===== src/Importer/Files.antt =====
-- `atomic_write` writes everything or nothing.
use nlsqlc.Base.{
  String, false, ◌≡◌, refl, ◌⊎◌, inl, inr, Option, none, some, [], ◌∷◌, ◌==◌, eq_iff, if◌then◌else◌,
}
use nlsqlc.Base.Dict
use nlsqlc.Base.Dict.{Dict}
use nlsqlc.Base.Dict.Laws.{lookup-insert, lookup-erase}
use nlsqlc.Base.Outcome.{value, raised, returned, Exception, os_error}
use nlsqlc.Importer.Write.{
  Files, Call, Os, World, Run, note, moved, sequence, after, finally, except_os_error, creation,
  filling, fill_and_replace, sync_parent, clean_up, atomic_write, silent, put,
}
use nlsqlc.Importer.Posts.{
  IsOsError, OnlyOsErrors, one-OnlyOsErrors, finally-OnlyOsErrors, after-OnlyOsErrors, read, Seen,
  Post, sequence-Post, last-Post, after-Post, finally-Post,
}

module _ (os : Os) (path content : String) (files : Files) where
  -- Every file but the temporary one is as it was at the beginning.
  abbrev pub IsOld : Files → Type 0
  IsOld f = (j : String) → (j == os.temporary) ≡ false → read j f ≡ read j files

  -- The target holds the content, and every other file but the temporary one is as it was.
  abbrev pub IsNew : Files → Type 0
  IsNew f =
      (j : String)
      → (j == os.temporary) ≡ false
      → read j f ≡ (if j == path then some content else read j files)

  abbrev pub IsWhole : Files → Type 0
  IsWhole f = IsOld f ⊎ IsNew f

  -- There is no temporary file.
  abbrev pub IsClean : Files → Type 0
  IsClean f = read os.temporary f ≡ none

  abbrev IsFilled : Files → Type 0
  IsFilled f = IsOld f × (read os.temporary f ≡ some content)

  abbrev IsWritten : Files → Type 0
  IsWritten f = IsNew f × IsClean f

  put-IsOld : (text : String) (f : Files) → IsOld f → IsOld (put os.temporary text f)
  put-IsOld text f h j e = rw (lookup-insert j os.temporary text f, e) (h j e)

  read-put : (text : String) (f : Files) → read os.temporary (put os.temporary text f) ≡ some text
  read-put text f =
      rw (lookup-insert os.temporary os.temporary text f, (eq_iff os.temporary os.temporary).1 refl)
        refl

  erase-IsOld : (f : Files) → IsOld f → IsOld (Dict.erase (◌==◌) os.temporary f)
  erase-IsOld f h j e = rw (lookup-erase j os.temporary f, e) (h j e)

  erase-IsClean : (f : Files) → IsClean (Dict.erase (◌==◌) os.temporary f)
  erase-IsClean f =
      rw (lookup-erase os.temporary os.temporary f, (eq_iff os.temporary os.temporary).1 refl) refl

  moved-IsWritten :
      (os.temporary == path) ≡ false
      → (f : Files) → IsFilled f
      → IsWritten (moved os.temporary path f)
  unfolding moved
  moved-IsWritten other f (old, filled) =
      rw (moved, filled)
        (
          (λ j e.
              rw (lookup-insert j path content _, lookup-erase j os.temporary f, e, old j e) refl),
          rw (lookup-insert os.temporary path content _, other) (erase-IsClean f),
        )

  abbrev Any : Files → Type 0
  Any f = Unit

  abbrev IsOldClean : Files → Type 0
  IsOldClean f = IsOld f × IsClean f

  creation-Post :
      (w : World)
      → Seen IsWhole w
      → IsOldClean w.files
      → Post IsWhole IsOld IsOldClean
          (sequence os (silent Call.mkdir ∷ creation os path content ∷ []) w)
  creation-Post w s p =
      sequence-Post os IsWhole IsOldClean IsOldClean IsOld IsOldClean _ _ w s p
        (λ f q. (inl q.0, q)) (λ f q. (inl q.0, q))
        λ v sv q.
          last-Post os IsWhole IsOldClean IsOld IsOldClean _ v sv q
            (λ f k. let old = put-IsOld "" f k.0 in (inl old, old)) (λ f k. (inl k.0, k))

  filling-Post :
      (w : World)
      → Seen IsWhole w
      → IsOld w.files
      → Post IsWhole IsFilled IsOld (sequence os (filling os path content) w)
  filling-Post w s p =
      let buffer : (f : Files)
          → IsOld f
          → IsWhole (put os.temporary (os.buffered content) f)
            × IsOld (put os.temporary (os.buffered content) f) =
        λ f k. let old = put-IsOld (os.buffered content) f k in (inl old, old) in
      sequence-Post os IsWhole IsOld IsOld IsFilled IsOld _ _ w s p buffer buffer λ v sv q.
        sequence-Post os IsWhole IsOld IsFilled IsFilled IsOld _ _ v sv q
          (λ f k. let old = put-IsOld content f k in (inl old, (old, read-put content f))) buffer
          λ u su k.
            last-Post os IsWhole IsFilled IsFilled IsOld _ u su k (λ f l. (inl l.0, l))
              (λ f l. (inl l.0, l.0))

  fill_and_replace-Post :
      (os.temporary == path) ≡ false
      → (w : World) → Seen IsWhole w
      → IsOld w.files
      → Post IsWhole IsWritten IsOld (fill_and_replace os path content w)
  unfolding fill_and_replace
  fill_and_replace-Post other w s p =
      after-Post os IsWhole IsFilled IsWritten IsOld _ _
        (finally-Post os IsWhole IsFilled IsOld _ _ (λ f k. k.0) (filling-Post w s p))
        λ v sv q.
          last-Post os IsWhole IsFilled IsWritten IsOld _ v sv q
            (λ f k. let new = moved-IsWritten other f k in (inr new.0, new)) (λ f k. (inl k.0, k.0))

  -- The end of `sync_parent`, but for the exceptions that it passes on.
  parent-Post :
      (w : World)
      → Seen IsWhole w
      → IsWritten w.files
      → Post IsWhole IsWritten IsWritten (
          after os (sequence os (silent Call.open_directory ∷ []) w) (λ v.
            finally os
              (silent Call.close_directory)
              (sequence os (silent Call.sync_directory ∷ []) v)))
  parent-Post w s p =
      let keep : (f : Files) → IsWritten f → IsWhole f × IsWritten f = λ f k. (inr k.0, k) in
      after-Post os IsWhole IsWritten IsWritten IsWritten _ _
        (last-Post os IsWhole IsWritten IsWritten IsWritten _ w s p keep keep)
        λ v sv q.
          finally-Post os IsWhole IsWritten IsWritten _ _ (λ f k. k)
            (last-Post os IsWhole IsWritten IsWritten IsWritten _ v sv q keep keep)

  -- Whatever fails, at every moment each file but the temporary one is as it was, or the target
  -- holds the whole content and the others are as they were.
  clean_up-Seen :
      (r : Run) → Post IsWhole IsWritten IsOld r → Seen IsWhole (clean_up os path content r).1
  unfolding clean_up sync_parent finally note
  clean_up-Seen (value u, w) h = go _ (parent-Post w h.0 h.1)
    where
      go : (r : Run) → Post IsWhole IsWritten IsWritten r → Seen IsWhole (except_os_error os r).1
      go (value u, w) h = h.0
      go (raised (os_error m), w) h = h.0
      go (raised _, w) h = h.0
      go (returned f m, w) h = absurd h
  clean_up-Seen (raised e, w) h = go (os.fails Call.unlink)
    where
      go :
          (o : Option Exception)
          → Seen IsWhole
              (elim o as (λ _. Run) [
                | none ↦ (raised e, note (Dict.erase (◌==◌) os.temporary w.files) w)
                | some e' ↦ (raised e', note w.files w)
              ]).1
      go none = (inl (erase-IsOld w.files h.1), h.0)
      go (some e') = (h.0.0, h.0)
  clean_up-Seen (returned f m, w) h = absurd h

  -- The run has ended well and the target is written, or it has raised and nothing has changed.
  abbrev pub AllOrNothing : Run → Type 0
  AllOrNothing (value u, w) = IsNew w.files × IsClean w.files
  AllOrNothing (raised e, w) = IsOld w.files × IsClean w.files
  AllOrNothing (returned f m, w) = ⊥

  except_os_error-AllOrNothing :
      (r : Run)
      → OnlyOsErrors os r
      → Post IsWhole IsWritten IsWritten r
      → AllOrNothing (except_os_error os r)
  except_os_error-AllOrNothing (value u, w) h k = k.1
  except_os_error-AllOrNothing (raised (os_error m), w) h k = k.1
  except_os_error-AllOrNothing (raised _, w) h k = absurd h
  except_os_error-AllOrNothing (returned f m, w) h k = absurd h

  module _ (opening : IsOsError (os.fails Call.open_directory))
      (syncing : IsOsError (os.fails Call.sync_directory))
      (closing : IsOsError (os.fails Call.close_directory))
      (unlinking : os.fails Call.unlink ≡ none) where
    clean_up-AllOrNothing :
        (r : Run) → Post IsWhole IsWritten IsOld r → AllOrNothing (clean_up os path content r)
    unfolding clean_up sync_parent
    clean_up-AllOrNothing (value u, w) h =
        except_os_error-AllOrNothing _
          (after-OnlyOsErrors os _ _ (one-OnlyOsErrors os (silent Call.open_directory) w opening)
            λ v.
              finally-OnlyOsErrors os Call.close_directory _ closing
                (one-OnlyOsErrors os (silent Call.sync_directory) v syncing))
          (parent-Post w h.0 h.1)
    clean_up-AllOrNothing (raised e, w) h =
        rw (finally, unlinking) (erase-IsOld w.files h.1, erase-IsClean w.files)
    clean_up-AllOrNothing (returned f m, w) h = absurd h

    after_creation :
        (r : Run)
        → Post IsWhole IsOld IsOldClean r
        → os.temporary == path ≡ false
        → AllOrNothing
            (after os r λ v. clean_up os path content (fill_and_replace os path content v))
    after_creation (value u, w) h other =
        clean_up-AllOrNothing _ (fill_and_replace-Post other w h.0 h.1)
    after_creation (raised e, w) h other = h.1
    after_creation (returned f m, w) h other = absurd h

  states_after_creation :
      (r : Run)
      → Post IsWhole IsOld IsOldClean r
      → os.temporary == path ≡ false
      → Seen IsWhole
          (after os r λ v. clean_up os path content (fill_and_replace os path content v)).1
  states_after_creation (value u, w) h other =
      clean_up-Seen _ (fill_and_replace-Post other w h.0 h.1)
  states_after_creation (raised e, w) h other = h.0
  states_after_creation (returned f m, w) h other = absurd h

-- The world in which the files have no past yet
abbrev pub fresh : Files → World
fresh files = record { files = files; past = [] }

module _ (os : Os) (path content : String) (files : Files) (other : os.temporary == path ≡ false)
    (free : read os.temporary files ≡ none) where
  start :
      Post
        (IsWhole os path content files)
        (IsOld os path content files)
        (IsOldClean os path content files)
        (sequence os (silent Call.mkdir ∷ creation os path content ∷ []) (fresh files))
  start =
      creation-Post os path content files (fresh files) (inl (λ j e. refl), tt)
        ((λ j e. refl), free)

  -- Whichever calls fail, at every moment each file but the temporary one is as it was, or the
  -- target holds the whole content and the others are as they were, if the name of the temporary
  -- file is new and not the target's.
  pub atomic_write-IsWhole :
      Seen (IsWhole os path content files) (atomic_write os path content (fresh files)).1
  unfolding atomic_write
  atomic_write-IsWhole = states_after_creation os path content files _ start other

  -- If the name of the temporary file is new and not the target's, the calls on the directory
  -- raise nothing but OSErrors, and the temporary file can be removed, then the write ends well and
  -- the target holds the content, or it raises and no file has changed; in both cases there is no
  -- temporary file left.
  pub atomic_write-AllOrNothing :
      IsOsError (os.fails Call.open_directory)
      → IsOsError (os.fails Call.sync_directory)
      → IsOsError (os.fails Call.close_directory)
      → os.fails Call.unlink ≡ none
      → AllOrNothing os path content files (atomic_write os path content (fresh files))
  unfolding atomic_write
  atomic_write-AllOrNothing opening syncing closing unlinking =
      after_creation os path content files opening syncing closing unlinking _ start other
