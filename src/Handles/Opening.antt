-- ===== src/Handles/Opening.antt =====
-- What opening a context, a schema or a policy does to the handles of the C library.
use mathlib.Core.Path.{subst}
use nlsqlc.Base.{
  ℕ, suc, ◌≤◌, ◌<◌, Bool, true, false, not, ◌||◌, ◌≡◌, refl, sym, ap, ◌∙◌, arith, Option, none,
  some, List, [], ◌∷◌, ◌++◌, All, if◌then◌else◌, eqb,
}
use nlsqlc.Base.Outcome.{Outcome, value, raised, returned, runtime_error}
use nlsqlc.Handles.{
  check, name_of_code, Request, World, alive, without, use_handle, use_all, destroy, created,
  create, send, SchemaHandles, keep, finalized, filled, built, open_schema, ruled, allowed,
  open_policy, opened, open_context, first_status, next_status,
}

or_false : (b : Bool) → (b || false) ≡ b
or_false b = ground arith

pub eqb_refl : (n : ℕ) → eqb n n ≡ true
eqb_refl n = ground arith

-- The handles `M` have been created and are kept by an exception; all else is as before, but for the
-- number of the next handle, and no handle was used that was not alive.
abbrev pub Held : World → List ℕ → World → Type 0
Held w M v =
    (v.live ≡ M ++ w.live)
    × (v.pending ≡ M ++ w.pending)
    × All (λ h. w.next ≤ h) M
    × (v.misused ≡ w.misused)
    × (w.next ≤ v.next)

-- No handle has been created or destroyed.
abbrev pub Steady : World → World → Type 0
Steady w v = Held w [] v

pub Steady-trans : (u v w : World) → Steady u v → Steady v w → Steady u w
Steady-trans u v w (a, b, t, c, d) (a1, b1, t1, c1, d1) =
    (a1 ∙ a, b1 ∙ b, tt, c1 ∙ c, omega (arith, d, d1))

-- A result comes with nothing kept.
abbrev pub Ends {ℓ} : {A : Type ℓ} → World → Outcome A × World → Type 0
Ends w (value a, v) = Steady w v
Ends w (raised e, v) = (M : List ℕ) × Held w M v
Ends w (returned f m, v) = ⊥

use_handle-alive : (h : ℕ) (w : World) → alive h w.live ≡ true → use_handle h w ≡ w
unfolding use_handle
use_handle-alive h w e = ap (λ (b : Bool). record w { misused = b }) (rw e (or_false w.misused))

abbrev pub AllAlive : List ℕ → World → Type 0
AllAlive hs w = All (λ h. alive h w.live ≡ true) hs

pub use_all-AllAlive : (hs : List ℕ) (w : World) → AllAlive hs w → use_all hs w ≡ w
unfolding use_all
use_all-AllAlive [] w a = refl
use_all-AllAlive (h ∷ hs) w a =
    ap (use_all hs) (use_handle-alive h w a.0) ∙ use_all-AllAlive hs w a.1

-- The handle on top is destroyed.
pub destroy-first :
    (h : ℕ) (L : List ℕ) (w : World)
    → w.live ≡ h ∷ L
    → ((destroy h w).live ≡ L) × ((destroy h w).misused ≡ w.misused)
unfolding destroy use_handle alive without
destroy-first h L w e =
    subst (λ l. (without h l ≡ L) × ((w.misused || not (alive h l)) ≡ w.misused)) (sym e)
      (rw (eqb_refl h) (refl, or_false w.misused))

without-under :
    (h : ℕ) (M L : List ℕ) → All (λ x. eqb h x ≡ false) M → without h (M ++ (h ∷ L)) ≡ M ++ L
unfolding without
without-under h [] L d = rw (eqb_refl h) refl
without-under h (x ∷ M) L d = rw (d.0, without-under h M L d.1) refl

alive-under : (h : ℕ) (M L : List ℕ) → alive h (M ++ (h ∷ L)) ≡ true
unfolding alive
alive-under h [] L = rw (eqb_refl h) refl
alive-under h (x ∷ M) L = rw (alive-under h M L) (right_true (eqb h x))
  where
    right_true : (b : Bool) → (b || true) ≡ true
    right_true true = refl
    right_true false = refl

-- A handle below others is destroyed.
pub destroy-under :
    (h : ℕ) (M L : List ℕ) (w : World)
    → All (λ x. eqb h x ≡ false) M
    → w.live ≡ M ++ (h ∷ L)
    → ((destroy h w).live ≡ M ++ L) × ((destroy h w).misused ≡ w.misused)
unfolding destroy use_handle
destroy-under h M L w d e =
    subst (λ l. (without h l ≡ M ++ L) × ((w.misused || not (alive h l)) ≡ w.misused)) (sym e)
      (without-under h M L d, rw (alive-under h M L) (or_false w.misused))

-- What a destruction leaves as it was
pub destroy-others :
    (h : ℕ) (w : World) → ((destroy h w).pending ≡ w.pending) × ((destroy h w).next ≡ w.next)
unfolding destroy use_handle
destroy-others h w = (refl, refl)

-- What a creation gives.
abbrev Created : World → Outcome ℕ × World → Type 0
Created w (value h, v) =
    (h ≡ w.next)
    × (v.live ≡ h ∷ w.live)
    × (v.misused ≡ w.misused)
    × (v.next ≡ suc w.next)
    × (v.pending ≡ w.pending)
Created w (raised e, v) = Steady w v
Created w (returned f m, v) = ⊥

create-Created : (hs : List ℕ) (w : World) → AllAlive hs w → Created w (create hs w)
unfolding create check
create-Created hs w a = rw (use_all-AllAlive hs w a) (go (eqb (first_status w.script) 0))
  where
    go :
        (b : Bool)
        → Created w (
            created
              (if b
                then value tt
                else raised (runtime_error (name_of_code (first_status w.script))))
              (next_status w))
    go true = (refl, refl, refl, refl, refl)
    go false = (refl, refl, tt, refl, omega arith)

-- What a row of requests gives.
abbrev Sent : World → Outcome (Unit {0}) × World → Type 0
Sent w (value u, v) = Steady w v × (v.next ≡ w.next)
Sent w (raised e, v) = Steady w v
Sent w (returned f m, v) = ⊥

-- `_check` passes or raises.
abbrev Checked : Outcome (Unit {0}) → Type 0
Checked (value u) = Unit
Checked (raised e) = Unit
Checked (returned f m) = ⊥

check-Checked : (n : ℕ) → Checked (check n)
unfolding check
check-Checked n = go (eqb n 0)
  where
    go : (b : Bool) → Checked (if b then value tt else raised (runtime_error (name_of_code n)))
    go true = tt
    go false = tt

send-Sent : (h : ℕ) (rs : List Request) (w : World) → alive h w.live ≡ true → Sent w (send h rs w)
unfolding send
send-Sent h [] w a = ((refl, refl, tt, refl, omega arith), refl)
send-Sent h (r ∷ rs) w a =
    let u = record w { sent = w.sent ++ (r ∷ []) } in
    go (check (first_status w.script)) (check-Checked _) (use_handle h u) (use_handle-alive h u a)
      (send-Sent h rs (next_status u) a)
  where
    go :
        (o : Outcome (Unit {0}))
        → Checked o
        → (x : World) → x ≡ record w { sent = w.sent ++ (r ∷ []) }
        → Sent w (send h rs (next_status (record w { sent = w.sent ++ (r ∷ []) })))
        → Sent w (elim o [
          | value u ↦ send h rs (next_status x)
          | raised e ↦ (raised e, next_status x)
          | returned f m ↦ (returned f m, next_status x)
        ])
    go (value u) c x e k = subst (λ y. Sent w (send h rs (next_status y))) (sym e) k
    go (raised _) c x e k = (
      ap (λ (y : World). y.live) e,
      ap (λ (y : World). y.pending) e,
      tt,
      ap (λ (y : World). y.misused) e,
      omega (arith, ap (λ (y : World). y.next) e),
    )
    go (returned f m) c x e k = absurd c

-- What opening an object gives: the handles `L` of it are on top, and it satisfies `I`.
abbrev pub Opened {ℓ} :
    {A : Type ℓ} → (A → List ℕ) → (A → Type 0) → World → Outcome A × World → Type 0
Opened L I w (value a, v) =
    (v.live ≡ L a ++ w.live)
    × (v.misused ≡ w.misused)
    × I a
    × (v.pending ≡ w.pending)
    × (w.next ≤ v.next)
    × All (λ h. h < v.next) (L a)
Opened L I w (raised e, v) = (M : List ℕ) × Held w M v
Opened L I w (returned f m, v) = ⊥

abbrev pub handles_of : Option ℕ → List ℕ
handles_of none = []
handles_of (some h) = h ∷ []

abbrev pub Any : Option ℕ → Type 0
Any o = Unit

pub open_context-Opened :
    (loaded : Bool) (w : World) → Opened handles_of Any w (open_context loaded w)
unfolding open_context
open_context-Opened true w = go (create [] w) (create-Created [] w tt)
  where
    go : (r : Outcome ℕ × World) → Created w r → Opened handles_of Any w (opened r)
    go (value h, v) c = (c.1, c.2, tt, c.4, omega (arith, c.3), (omega (arith, c.0, c.3), tt))
    go (raised e, v) c = ([], c)
    go (returned f m, v) c = c
open_context-Opened false w = (refl, refl, tt, refl, omega arith, tt)

-- The context is one of the living handles.
abbrev pub IsAlive : Option ℕ → World → Type 0
IsAlive none w = Unit
IsAlive (some c) w = alive c w.live ≡ true

-- The one handle that an exception keeps, on top of what was there
kept_one :
    (h : ℕ) (w v t : World)
    → h ≡ w.next
    → v.live ≡ h ∷ w.live
    → v.misused ≡ w.misused
    → v.pending ≡ w.pending
    → w.next ≤ v.next
    → Steady v t
    → Held w (h ∷ []) (keep h t)
kept_one h w v t f e m p n s =
    (s.0 ∙ e, ap (λ l. h ∷ l) (s.1 ∙ p), (omega (arith, f), tt), s.3 ∙ m, omega (arith, n, s.4))

ruled-Opened :
    (p : ℕ) (w v : World) (r : Outcome (Unit {0}) × World)
    → Created w (value p, v)
    → Sent v r
    → Opened handles_of Any w (ruled p r)
ruled-Opened p w v (value u, t) (f, e, m, n, k) (s, _) =
    (s.0 ∙ e, s.3 ∙ m, tt, s.1 ∙ k, omega (arith, n, s.4), (omega (arith, f, n, s.4), tt))
ruled-Opened p w v (raised x, t) (f, e, m, n, k) s =
    (p ∷ [], kept_one p w v t f e m k (omega (arith, n)) s)
ruled-Opened p w v (returned f n, t) c s = absurd s

pub alive-first : (h : ℕ) (L M : List ℕ) → M ≡ h ∷ L → alive h M ≡ true
unfolding alive
alive-first h L M e = subst (λ l. alive h l ≡ true) (sym e) (rw (eqb_refl h) refl)

allowed-Opened :
    (requests : List Request) (w : World) (r : Outcome ℕ × World)
    → Created w r
    → Opened handles_of Any w (allowed requests r)
allowed-Opened requests w (value p, v) c =
    ruled-Opened p w v _ c (send-Sent p requests v (alive-first p w.live v.live c.1))
allowed-Opened requests w (raised e, v) c = ([], c)
allowed-Opened requests w (returned f m, v) c = absurd c

pub open_policy-Opened :
    (c : Option ℕ) (requests : List Request) (w : World)
    → IsAlive c w
    → Opened handles_of Any w (open_policy c requests w)
unfolding open_policy
open_policy-Opened none requests w a = (refl, refl, tt, refl, omega arith, tt)
open_policy-Opened (some c) requests w a =
    allowed-Opened requests w _ (create-Created (c ∷ []) w (a, tt))

-- Builder and schema are two handles, or there is neither.
abbrev pub Distinct : Option ℕ → Option ℕ → Type 0
Distinct none none = Unit
Distinct (some b) (some p) = eqb b p ≡ false
Distinct _ _ = ⊥

abbrev pub AreDistinct : SchemaHandles → Type 0
AreDistinct s = Distinct s.builder s.ptr

abbrev pub schema_handles : SchemaHandles → List ℕ
schema_handles s = handles_of s.ptr ++ handles_of s.builder

finalized-Opened :
    (b : ℕ) (w v t : World) (r : Outcome ℕ × World)
    → Created w (value b, v)
    → Steady v t
    → t.next ≡ v.next
    → Created t r
    → Opened schema_handles AreDistinct w (finalized b r)
finalized-Opened b w v t (value p, u) (f, e, m, n, k) s h c = (
  c.1 ∙ ap (λ l. p ∷ l) (s.0 ∙ e),
  c.2 ∙ s.3 ∙ m,
  ground (arith, c.0, h, n, f),
  c.4 ∙ s.1 ∙ k,
  omega (arith, c.3, h, n),
  (omega (arith, c.0, c.3), (omega (arith, f, n, h, c.3), tt)),
)
finalized-Opened b w v t (raised x, u) (f, e, m, n, k) s h c =
    (b ∷ [], kept_one b w v u f e m k (omega (arith, n)) (Steady-trans v t u s c))
finalized-Opened b w v t (returned f x, u) d s h c = absurd c

filled-Opened :
    (b : ℕ) (w v : World) (r : Outcome (Unit {0}) × World)
    → Created w (value b, v)
    → Sent v r
    → Opened schema_handles AreDistinct w (filled b r)
filled-Opened b w v (value u, t) c (s, h) =
    finalized-Opened b w v t _ c s h
      (create-Created (b ∷ []) t (alive-first b w.live t.live (s.0 ∙ c.1), tt))
filled-Opened b w v (raised x, t) (f, e, m, n, k) s =
    (b ∷ [], kept_one b w v t f e m k (omega (arith, n)) s)
filled-Opened b w v (returned f x, t) c s = absurd s

built-Opened :
    (requests : List Request) (w : World) (r : Outcome ℕ × World)
    → Created w r
    → Opened schema_handles AreDistinct w (built requests r)
built-Opened requests w (value b, v) c =
    filled-Opened b w v _ c (send-Sent b requests v (alive-first b w.live v.live c.1))
built-Opened requests w (raised e, v) c = ([], c)
built-Opened requests w (returned f m, v) c = absurd c

pub open_schema-Opened :
    (c : Option ℕ) (requests : List Request) (w : World)
    → IsAlive c w
    → Opened schema_handles AreDistinct w (open_schema c requests w)
unfolding open_schema
open_schema-Opened none requests w a = (refl, refl, tt, refl, omega arith, tt)
open_schema-Opened (some c) requests w a =
    built-Opened requests w _ (create-Created (c ∷ []) w (a, tt))
