-- ===== src/Importer/Posts.antt =====
-- The states of the files along a run of `atomic_write`.
use nlsqlc.Base.{String, Option, none, some, List, [], ◌∷◌, ◌==◌, All}
use nlsqlc.Base.Dict
use nlsqlc.Base.Dict.{Dict}
use nlsqlc.Base.Outcome.{Outcome, value, raised, returned, Exception, os_error}
use nlsqlc.Importer.Write.{
  Files, Call, Os, World, Operation, Run, note, sequence, after, finally, silent,
}

abbrev pub read : String → Files → Option String
read path files = Dict.lookup (◌==◌) path files

-- Every state of the files that another process can see satisfies `S`.
abbrev pub Seen : (Files → Type 0) → World → Type 0
Seen S w = S w.files × All S w.past

-- What a run leaves: `V` if it ends well, `R` if it raises, and `S` all along.
abbrev pub Post : (Files → Type 0) → (Files → Type 0) → (Files → Type 0) → Run → Type 0
Post S V R (value u, w) = Seen S w × V w.files
Post S V R (raised e, w) = Seen S w × R w.files
Post S V R (returned f m, w) = ⊥

module _ (os : Os) (S : Files → Type 0) where
  -- One call of a sequence.
  pub sequence-Post :
      (P Q V R : Files → Type 0) (op : Operation) (ops : List Operation) (w : World)
      → Seen S w
      → P w.files
      → ((f : Files) → P f → S (op.done f) × Q (op.done f))
      → ((f : Files) → P f → S (op.broken f) × R (op.broken f))
      → ((v : World) → Seen S v → Q v.files → Post S V R (sequence os ops v))
      → Post S V R (sequence os (op ∷ ops) w)
  unfolding sequence note
  sequence-Post P Q V R op ops w s p done broken rest = go (os.fails op.call)
    where
      go :
          (o : Option Exception)
          → Post S V R (elim o [
            | none ↦ sequence os ops (note (op.done w.files) w)
            | some e ↦ (raised e, note (op.broken w.files) w)
          ])
      go none = let (sd, q) = done w.files p in rest _ (sd, s) q
      go (some e) = let (sb, r) = broken w.files p in ((sb, s), r)

  -- The last call of a sequence.
  pub last-Post :
      (P V R : Files → Type 0) (op : Operation) (w : World)
      → Seen S w
      → P w.files
      → ((f : Files) → P f → S (op.done f) × V (op.done f))
      → ((f : Files) → P f → S (op.broken f) × R (op.broken f))
      → Post S V R (sequence os (op ∷ []) w)
  unfolding sequence
  last-Post P V R op w s p done broken =
      sequence-Post P V V R op [] w s p done broken λ v sv q. (sv, q)

  pub after-Post :
      (P V R : Files → Type 0) (r : Run) (k : World → Run)
      → Post S P R r
      → ((v : World) → Seen S v → P v.files → Post S V R (k v))
      → Post S V R (after os r k)
  after-Post P V R (value u, w) k h more = more w h.0 h.1
  after-Post P V R (raised e, w) k h more = h
  after-Post P V R (returned f m, w) k h more = absurd h

  -- A call that leaves the files as they are, behind any end.
  pub finally-Post :
      (V R : Files → Type 0) (c : Call) (r : Run)
      → ((f : Files) → V f → R f)
      → Post S V R r
      → Post S V R (finally os (silent c) r)
  unfolding finally note
  finally-Post V R c (o, w) weaken h = go o (os.fails c) h
    where
      go :
          (o : Outcome (Unit {0})) (failing : Option Exception)
          → Post S V R (o, w)
          → Post S V R
              (elim failing [ none ↦ (o, note w.files w) | some e ↦ (raised e, note w.files w) ])
      go (value u) none h = ((h.0.0, h.0), h.1)
      go (value u) (some e) h = ((h.0.0, h.0), weaken _ h.1)
      go (raised e') none h = ((h.0.0, h.0), h.1)
      go (raised e') (some e) h = ((h.0.0, h.0), h.1)
      go (returned f m) failing h = absurd h

-- A failing call of the directory raises an OSError.
abbrev pub IsOsError : Option Exception → Type 0
IsOsError none = Unit
IsOsError (some (os_error m)) = Unit
IsOsError (some _) = ⊥

module _ (os : Os) where
  -- An exception of the run is an OSError.
  abbrev pub OnlyOsErrors : Run → Type 0
  OnlyOsErrors (value u, w) = Unit
  OnlyOsErrors (raised e, w) = IsOsError (some e)
  OnlyOsErrors (returned f m, w) = ⊥

  pub one-OnlyOsErrors :
      (op : Operation) (w : World)
      → IsOsError (os.fails op.call)
      → OnlyOsErrors (sequence os (op ∷ []) w)
  unfolding sequence
  one-OnlyOsErrors op w h = go (os.fails op.call) h
    where
      go :
          (o : Option Exception)
          → IsOsError o
          → OnlyOsErrors (elim o [
            | none ↦ (value tt, note (op.done w.files) w)
            | some e ↦ (raised e, note (op.broken w.files) w)
          ])
      go none h = tt
      go (some e) h = h

  pub finally-OnlyOsErrors :
      (c : Call) (r : Run)
      → IsOsError (os.fails c)
      → OnlyOsErrors r
      → OnlyOsErrors (finally os (silent c) r)
  unfolding finally
  finally-OnlyOsErrors c (o, w) h k = go o (os.fails c) h k
    where
      go :
          (o : Outcome (Unit {0})) (failing : Option Exception)
          → IsOsError failing
          → OnlyOsErrors (o, w)
          → OnlyOsErrors
              (elim failing [ none ↦ (o, note w.files w) | some e ↦ (raised e, note w.files w) ])
      go (value u) none h k = tt
      go (raised e) none h k = k
      go (returned f m) none h k = k
      go o (some e) h k = h

  pub after-OnlyOsErrors :
      (r : Run) (k : World → Run)
      → OnlyOsErrors r
      → ((v : World) → OnlyOsErrors (k v))
      → OnlyOsErrors (after os r k)
  after-OnlyOsErrors (value u, w) k h more = more w
  after-OnlyOsErrors (raised e, w) k h more = h
  after-OnlyOsErrors (returned f m, w) k h more = absurd h
