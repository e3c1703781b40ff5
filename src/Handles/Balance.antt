-- ===== src/Handles/Balance.antt =====
-- Every handle of the C library that the `with` blocks create is destroyed, at the latest with the
-- exception that keeps its object.
use mathlib.Core.Path.{subst}
use mathlib.Core.List.{append-nil, append_assoc}
use nlsqlc.Base.{
  ℕ, zero, suc, ◌≤◌, ◌<◌, All, arith, Bool, true, false, ◌||◌, ◌≡◌, refl, sym, ap, ◌∙◌, Option,
  none, some, List, [], ◌∷◌, ◌++◌, if◌then◌else◌, eqb,
}
use nlsqlc.Base.Outcome.{Outcome, value, raised, returned, zero_division_error}
use nlsqlc.Handles.{
  Request, World, alive, use_all, destroy, destroy_all, drop_exception, figures, destroy_option,
  SchemaHandles, close_schema, with_open, Native, compile_native, compile_all, run_blocks,
  benchmark, first_status, next_status,
}
use nlsqlc.Handles.Opening.{
  Steady, Steady-trans, use_all-AllAlive, destroy-first, destroy-under, destroy-others, Held, Ends,
  open_context-Opened, open_policy-Opened, open_schema-Opened, alive-first, Opened, handles_of, Any,
  IsAlive, Distinct, AreDistinct, schema_handles,
}

Steady-refl : (w : World) → Steady w w
Steady-refl w = (refl, refl, tt, refl, omega arith)

module _ (gives_result : ℕ → Bool) where
  -- The context, the schema and the policy are alive, as far as they are there.
  abbrev AreAlive : Option ℕ → Option ℕ → Option ℕ → World → Type 0
  AreAlive c s p w = IsAlive c w × IsAlive s w × IsAlive p w

  compile_native-Steady :
      (c s p : Option ℕ) (w : World)
      → AreAlive c s p w
      → Steady w (compile_native gives_result c s p w)
  unfolding compile_native
  compile_native-Steady (some c) (some s) (some p) w a =
      go (gives_result (first_status w.script)) (use_all (c ∷ s ∷ p ∷ []) w)
        (use_all-AllAlive (c ∷ s ∷ p ∷ []) w (a.0, (a.1, (a.2, tt))))
    where
      go :
          (b : Bool) (x : World)
          → x ≡ w
          → Steady w (
              let v = next_status x in
              if b
              then destroy v.next (record v { live = v.next ∷ v.live; next = suc v.next })
              else v)
      go true x e =
          let v = next_status x in
          let u = record v { live = v.next ∷ v.live; next = suc v.next } in
          let (k, l) = destroy-first v.next v.live u refl in
          let (f, g) = destroy-others v.next u in
          (
            k ∙ ap (λ (y : World). y.live) e,
            f ∙ ap (λ (y : World). y.pending) e,
            tt,
            l ∙ ap (λ (y : World). y.misused) e,
            omega (arith, g, ap (λ (y : World). y.next) e),
          )
      go false x e = (
        ap (λ (y : World). y.live) e,
        ap (λ (y : World). y.pending) e,
        tt,
        ap (λ (y : World). y.misused) e,
        omega (arith, ap (λ (y : World). y.next) e),
      )
  compile_native-Steady none s p w a = Steady-refl w
  compile_native-Steady (some c) none p w a = Steady-refl w
  compile_native-Steady (some c) (some s) none w a = Steady-refl w

  IsAlive-Steady : (c : Option ℕ) (w v : World) → Steady w v → IsAlive c w → IsAlive c v
  IsAlive-Steady none w v h a = tt
  IsAlive-Steady (some c) w v h a = subst (λ l. alive c l ≡ true) (sym h.0) a

  compile_all-Steady :
      (n : ℕ) (c : Option ℕ) (s : SchemaHandles) (p : Option ℕ) (w : World)
      → AreAlive c s.ptr p w
      → Steady w (compile_all gives_result n c s p w)
  unfolding compile_all
  compile_all-Steady zero c s p w a = Steady-refl w
  compile_all-Steady (suc n) c s p w a =
      let v = compile_native gives_result c s.ptr p w in
      let h = compile_native-Steady c s.ptr p w a in
      Steady-trans w v (compile_all gives_result n c s p v) h (
        compile_all-Steady n c s p v
          (IsAlive-Steady c w v h a.0, IsAlive-Steady s.ptr w v h a.1, IsAlive-Steady p w v h a.2))

weaken : (m n : ℕ) (M : List ℕ) → m ≤ n → All (λ h. n ≤ h) M → All (λ h. m ≤ h) M
weaken m n [] e h = tt
weaken m n (x ∷ M) e h = (omega (arith, e, h.0), weaken m n M e h.1)

-- A handle below all others is none of them.
apart : (c n : ℕ) (M : List ℕ) → c < n → All (λ h. n ≤ h) M → All (λ x. eqb c x ≡ false) M
apart c n [] e h = tt
apart c n (x ∷ M) e h = let f : n ≤ x = h.0 in (different (omega (arith, e, f)), apart c n M e h.1)
  where
    different : c < x → eqb c x ≡ false
    different g = ground arith

-- What `close` of an object does: its handles go, from below those that an exception keeps.
abbrev Closes {ℓ} : {A : Type ℓ} → (A → List ℕ) → (A → Type 0) → (A → World → World) → Type ℓ
Closes L I close =
    (a : _) (R : List ℕ) (n : ℕ) (v : World) (M : List ℕ)
    → I a
    → All (λ h. h < n) (L a)
    → All (λ h. n ≤ h) M
    → v.live ≡ M ++ (L a ++ R)
    → ((close a v).live ≡ M ++ R)
      × ((close a v).misused ≡ v.misused)
      × ((close a v).pending ≡ v.pending)
      × ((close a v).next ≡ v.next)

-- A block leaves the handles as they were before its object was opened, but for those that an
-- exception keeps.
with_open-Ends {ℓ κ} :
    {A : Type ℓ} {B : Type κ} (L : A → List ℕ) (I : A → Type 0) (w : World) (r : Outcome A × World)
    (close : A → World → World) (body : A → Native B)
    → Opened L I w r
    → Closes L I close
    → ((a : A) (v : World) → I a → v.live ≡ L a ++ w.live → Ends v (body a v))
    → Ends w (with_open r close body)
with_open-Ends {B = B} L I w (value a, u) close body (e, m, i, p, n, b) closes keeps =
    go (body a u) (keeps a u i e)
  where
    behind : (v : World) (M : List ℕ) → Held u M v → Held w M (close a v)
    behind v M (live, pending, fresh, misused, next) =
        let (k, l, f, g) = closes a w.live u.next v M i b fresh (live ∙ ap (λ x. M ++ x) e) in
        (
          k,
          f ∙ pending ∙ ap (λ x. M ++ x) p,
          weaken w.next u.next M n fresh,
          l ∙ misused ∙ m,
          omega (arith, n, next, g),
        )

    go : (x : Outcome B × World) → Ends u x → Ends w (x.0, close a x.1)
    go (value y, v) h = behind v [] h
    go (raised x, v) (M, h) = (M, behind v M h)
    go (returned f t, v) h = absurd h
with_open-Ends L I w (raised e, v) close body o closes keeps = o
with_open-Ends L I w (returned f m, v) close body o closes keeps = absurd o

close_option-Closes : Closes handles_of Any destroy_option
close_option-Closes none R n v M i b fresh e = (e, refl, refl, refl)
close_option-Closes (some c) R n v M i b fresh e =
    let (k, l) = destroy-under c M R v (apart c n M b.0 fresh) e in
    let (f, g) = destroy-others c v in (k, l, f, g)

apart-append :
    (b p : ℕ) (M : List ℕ)
    → All (λ x. eqb b x ≡ false) M
    → eqb b p ≡ false
    → All (λ x. eqb b x ≡ false) (M ++ (p ∷ []))
apart-append b p [] h e = (e, tt)
apart-append b p (x ∷ M) h e = (h.0, apart-append b p M h.1 e)

close_schema-Closes : Closes schema_handles AreDistinct close_schema
unfolding close_schema
close_schema-Closes s R n v M = go s.builder s.ptr
  where
    go :
        (b p : Option ℕ)
        → Distinct b p
        → All (λ h. h < n) (handles_of p ++ handles_of b)
        → All (λ h. n ≤ h) M
        → v.live ≡ M ++ ((handles_of p ++ handles_of b) ++ R)
        → ((destroy_option p (destroy_option b v)).live ≡ M ++ R)
          × ((destroy_option p (destroy_option b v)).misused ≡ v.misused)
          × ((destroy_option p (destroy_option b v)).pending ≡ v.pending)
          × ((destroy_option p (destroy_option b v)).next ≡ v.next)
    go none none d a fresh e = (e, refl, refl, refl)
    go (some b) (some p) d a fresh e =
        let (k, l) =
          destroy-under b (M ++ (p ∷ [])) R v (apart-append b p M (apart b n M a.1.0 fresh) d)
            (e ∙ sym (append_assoc M (p ∷ []) (b ∷ R))) in
        let (f, g) = destroy-others b v in
        let (k1, l1) =
          destroy-under p M R (destroy b v) (apart p n M a.0 fresh)
            (k ∙ append_assoc M (p ∷ []) R) in
        let (f1, g1) = destroy-others p (destroy b v) in (k1, l1 ∙ l, f1 ∙ f, g1 ∙ g)
    go none (some p) d a fresh e = absurd d
    go (some b) none d a fresh e = absurd d

alive-append : (h : ℕ) (M L : List ℕ) → alive h L ≡ true → alive h (M ++ L) ≡ true
unfolding alive
alive-append h [] L a = a
alive-append h (x ∷ M) L a = rw (alive-append h M L a) (right_true (eqb h x))
  where
    right_true : (b : Bool) → (b || true) ≡ true
    right_true true = refl
    right_true false = refl

-- The handles of an object that is open are alive.
IsAlive-first : (c : Option ℕ) (L : List ℕ) (v : World) → v.live ≡ handles_of c ++ L → IsAlive c v
IsAlive-first none L v e = tt
IsAlive-first (some c) L v e = alive-first c L v.live e

IsAlive-append :
    (c : Option ℕ) (M : List ℕ) (w v : World) → v.live ≡ M ++ w.live → IsAlive c w → IsAlive c v
IsAlive-append none M w v e a = tt
IsAlive-append (some c) M w v e a =
    subst (λ l. alive c l ≡ true) (sym e) (alive-append c M w.live a)

IsAlive-schema :
    (s : SchemaHandles) (w v : World)
    → AreDistinct s
    → v.live ≡ schema_handles s ++ w.live
    → IsAlive s.ptr v
IsAlive-schema s w v = go s.builder s.ptr
  where
    go :
        (b p : Option ℕ)
        → Distinct b p
        → v.live ≡ (handles_of p ++ handles_of b) ++ w.live
        → IsAlive p v
    go none none d e = tt
    go (some b) (some p) d e = alive-first p (b ∷ w.live) v.live e
    go none (some p) d e = absurd d
    go (some b) none d e = absurd d

figures-Ends :
    (gives_result : ℕ → Bool) (n : ℕ) (w v : World)
    → Steady w v
    → Ends w (figures gives_result n, v)
figures-Ends gives_result n w v s = go (eqb n 0)
  where
    go :
        (b : Bool)
        → Ends {A = Unit {0}} w
            (if b then raised (zero_division_error "float division by zero") else value tt, v)
    go true = ([], s)
    go false = s

-- The blocks keep nothing if they end, and else what the exception keeps.
run_blocks-Ends :
    (gives_result : ℕ → Bool) (loaded : Bool) (schema policy : List Request) (iterations : ℕ)
    (w : World)
    → Ends w (run_blocks gives_result loaded schema policy iterations w)
unfolding run_blocks
run_blocks-Ends gives_result loaded schema policy iterations w =
    with_open-Ends handles_of Any w _ destroy_option _ (open_context-Opened loaded w)
      close_option-Closes
      λ c v _ e.
        let context = IsAlive-first c w.live v e in
        with_open-Ends schema_handles AreDistinct v _ close_schema _
          (open_schema-Opened c schema v context) close_schema-Closes
          λ s u d k.
            let again = IsAlive-append c (schema_handles s) v u k context in
            with_open-Ends handles_of Any u _ destroy_option _ (open_policy-Opened c policy u again)
              close_option-Closes
              λ p t _ l. figures-Ends gives_result iterations t _ (
                compile_all-Steady gives_result iterations c s p t (
                  IsAlive-append c (handles_of p) u t l again,
                  IsAlive-append s.ptr (handles_of p) u t l (IsAlive-schema s v u d k),
                  IsAlive-first p u.live t l,
                ))

destroy_all-live :
    (M L : List ℕ) (v : World)
    → v.live ≡ M ++ L
    → ((destroy_all M v).live ≡ L) × ((destroy_all M v).misused ≡ v.misused)
unfolding destroy_all
destroy_all-live [] L v e = (e, refl)
destroy_all-live (h ∷ M) L v e =
    let (k, l) = destroy-first h (M ++ L) v e in
    let (k1, l1) = destroy_all-live M L (destroy h v) k in (k1, l1 ∙ l)

-- If the computation gives a result, the same handles are alive as before it. If it raises, the
-- handles of the objects that the exception keeps are alive too, and they are destroyed once when
-- the exception is dropped. No call was given a handle that is not alive.
abbrev pub IsBalanced {ℓ} : {A : Type ℓ} → World → Outcome A × World → Type 0
IsBalanced w (value a, v) = (v.live ≡ w.live) × (v.pending ≡ []) × (v.misused ≡ w.misused)
IsBalanced w (raised e, v) =
    (v.live ≡ v.pending ++ w.live)
    × ((drop_exception v).live ≡ w.live)
    × ((drop_exception v).misused ≡ w.misused)
IsBalanced w (returned f m, v) = ⊥

Ends-IsBalanced {ℓ} :
    {A : Type ℓ} (w : World) (r : Outcome A × World) → w.pending ≡ [] → Ends w r → IsBalanced w r
Ends-IsBalanced w (value a, v) nothing (k, p, t, m, n) = (k, p ∙ nothing, m)
Ends-IsBalanced w (raised e, v) nothing (M, (k, p, t, m, n)) =
    let same : M ≡ v.pending = sym (p ∙ ap (λ x. M ++ x) nothing ∙ append-nil M) in
    let live = k ∙ ap (λ x. x ++ w.live) same in
    let (f, g) = destroy_all-live v.pending w.live (record v { pending = [] }) live in
    (live, f, g ∙ m)
Ends-IsBalanced w (returned f m, v) nothing h = h

-- Whichever calls of the C library fail, and however many iterations are asked for: if `benchmark`
-- ends, the same handles are alive that were alive before it; if it raises, the handles that are
-- alive besides are those of the object whose `__init__` raised, which the exception keeps, and when
-- the exception is dropped the same handles are alive as before. No call of the library was given a
-- handle that is not alive. This is for a call of `benchmark` while no exception keeps an object.
pub benchmark-IsBalanced :
    (gives_result : ℕ → Bool) (loaded : Bool) (iterations : ℕ) (w : World)
    → w.pending ≡ []
    → IsBalanced w (benchmark gives_result loaded iterations w)
unfolding benchmark
benchmark-IsBalanced gives_result loaded iterations w nothing =
    Ends-IsBalanced w _ nothing (run_blocks-Ends gives_result loaded _ _ iterations w)
