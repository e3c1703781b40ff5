-- ===== src/Repl/Balance.antt =====
-- The buffer of the loop is open while the loop waits.
use mathlib.Core.Path.{subst}
use nlsqlc.Base.{
  ℕ, ◌<◌, String, true, false, not, ◌&&◌, ◌≡◌, refl, sym, ap, ◌∙◌, ◌⊎◌, inl, inr, Option, none,
  some, ◌||◌, List, [], ◌∷◌, if-elim, Bool-cases, ◌==◌, eq_iff, eqb, ltb, leb, arith,
}
use nlsqlc.Base.Text.{join}
use nlsqlc.Base.Outcome.{Outcome, value, raised, returned, ◌>>=◌, >>=-eq-value, value-injective}
use nlsqlc.Runtime.{Runtime}
use nlsqlc.Catalog.{Dialect, PySchema, PyPolicy}
use nlsqlc.Api.{compile_ir, text, schema_object, policy_object}
use nlsqlc.Gateway.{strip, strip_left, strip_right, starts_with}
use nlsqlc.Repl.{
  State, Input, line, interrupted, Report, compiled, waiting, Next, continue, stop, Result, go_on,
  combined, opens, closes, submit, add_line, command, read_line, step, run, behind, switch,
  dialect_command, benchmark_command, iterations_of, benchmark,
}

-- A text that waits for more: it is blank, or has more `(` than `)`.
abbrev pub IsOpen : String → Type 0
IsOpen t = (t ≡ "") ⊎ (closes t < opens t)

-- The loop waits with an open text only.
abbrev pub IsWaiting : Result → Type 0
IsWaiting (value (continue t, r)) = IsOpen (combined t.buffer)
IsWaiting (value (stop, r)) = Unit
IsWaiting (raised e) = Unit
IsWaiting (returned f m) = Unit

IsWaiting-bind {ℓ} :
    {A : Type ℓ} (m : Outcome A) (f : A → Result)
    → ((a : A) → IsWaiting (f a))
    → IsWaiting (m >>= f)
IsWaiting-bind (value a) f h = h a
IsWaiting-bind (raised e) f h = tt
IsWaiting-bind (returned g t) f h = tt

no_balance : (o c : ℕ) → ltb 0 o && leb o c ≡ false → eqb o 0 && true ≡ false → c < o
no_balance o c h k = ground arith

IsOpen-when :
    (t : String)
    → ltb 0 (opens t) && leb (opens t) (closes t) ≡ false
    → eqb (opens t) 0 && not (t == "") ≡ false
    → IsOpen t
IsOpen-when t h k = elim (Bool-cases (t == "")) [
  | inl e ↦ inl ((eq_iff t "").0 e)
  | inr e ↦
      inr (no_balance (opens t) (closes t) h (subst (λ b. eqb (opens t) 0 && not b ≡ false) e k))
]

combined-nil : combined [] ≡ ""
unfolding combined strip strip_left strip_right join
combined-nil = refl

module _ (rt : Runtime) (lower : String → String) (schema : PySchema) (policy : PyPolicy) where
  submit-IsWaiting :
      (t : String) (s : State)
      → combined s.buffer ≡ t
      → IsWaiting (submit rt lower schema policy t s)
  unfolding submit
  submit-IsWaiting t s h =
      if-elim IsWaiting (ltb 0 (opens t) && leb (opens t) (closes t)) _ _
        (λ e.
          IsWaiting-bind
            (compile_ir rt (text t ∷ schema_object schema ∷ policy_object policy ∷ []) s.dialect)
            (λ r. go_on (record s { buffer = [] }) (compiled r)) λ r. inl combined-nil)
        λ e1.
          if-elim IsWaiting (eqb (opens t) 0 && not (t == "")) _ _ (λ e. inl combined-nil)
            (λ e2. subst IsOpen (sym h) (IsOpen-when t e1 e2))

  add_line-IsWaiting : (l : String) (s : State) → IsWaiting (add_line rt lower schema policy l s)
  unfolding add_line
  add_line-IsWaiting l s = submit-IsWaiting _ _ refl

  switch-IsWaiting :
      (d : Option Dialect) (target : String) (s : State)
      → IsOpen (combined s.buffer)
      → IsWaiting (switch rt lower schema policy d target s)
  unfolding switch
  switch-IsWaiting none target s h = h
  switch-IsWaiting (some d) target s h = h

  dialect_command-IsWaiting :
      (parts : List String) (s : State)
      → IsOpen (combined s.buffer)
      → IsWaiting (dialect_command rt lower schema policy parts s)
  unfolding dialect_command
  dialect_command-IsWaiting [] s h = h
  dialect_command-IsWaiting (d ∷ []) s h = h
  dialect_command-IsWaiting (d ∷ target ∷ rest) s h = switch-IsWaiting _ _ s h

  benchmark_command-IsWaiting :
      (parts : List String) (s : State)
      → IsOpen (combined s.buffer)
      → IsWaiting (benchmark_command rt lower schema policy parts s)
  unfolding benchmark_command
  benchmark_command-IsWaiting parts s h =
      IsWaiting-bind (iterations_of rt.digit parts) _ λ n. IsWaiting-bind (benchmark n) _ λ done. h

  command-IsWaiting :
      (c l : String) (s : State)
      → IsOpen (combined s.buffer)
      → IsWaiting (command rt lower schema policy c l s)
  unfolding command
  command-IsWaiting c l s h =
      if-elim IsWaiting (c == "\\q" || c == "exit" || c == "quit") _ _ (λ _. tt)
        λ _.
          if-elim IsWaiting (c == "\\h" || c == "help") _ _ (λ _. h)
            λ _.
              if-elim IsWaiting (c == "\\e") _ _ (λ _. add_line-IsWaiting l s)
                λ _.
                  if-elim IsWaiting (starts_with "\\d" c) _ _ (λ _. dialect_command-IsWaiting _ s h)
                    λ _.
                      if-elim IsWaiting (c == "\\s") _ _ (λ _. h)
                        λ _.
                          if-elim IsWaiting (c == "\\p") _ _ (λ _. h)
                            λ _.
                              if-elim IsWaiting (starts_with "\\b" c) _ _
                                (λ _. benchmark_command-IsWaiting _ s h)
                                (λ _. add_line-IsWaiting l s)

  read_line-IsWaiting :
      (d : Dialect) (bs : List String) (l : String)
      → IsWaiting (read_line rt lower schema policy bs l (record { dialect = d; buffer = bs }))
  unfolding read_line
  read_line-IsWaiting d [] l =
      command-IsWaiting (strip l) l (record { dialect = d; buffer = [] }) (inl combined-nil)
  read_line-IsWaiting d (b ∷ bs) l = add_line-IsWaiting l (record { dialect = d; buffer = b ∷ bs })

  step-IsWaiting : (i : Input) (s : State) → IsWaiting (step rt lower schema policy i s)
  unfolding step
  step-IsWaiting interrupted s = tt
  step-IsWaiting (line l) s = read_line-IsWaiting s.dialect s.buffer l

  behind-IsOpen :
      (rest : State → Outcome (List Report × Next)) (r : Next × Report) (t : State)
      (out : List Report)
      → IsWaiting (value r)
      → behind rt lower schema policy rest r ≡ value (out, continue t)
      → ((s : State) (os : List Report)
          → IsOpen (combined s.buffer)
          → rest s ≡ value (os, continue t)
          → IsOpen (combined t.buffer))
      → IsOpen (combined t.buffer)
  unfolding behind
  behind-IsOpen rest (stop, r) t out h e k =
      let bad : Next.stop ≡ continue t =
        ap (λ (x : List Report × Next). x.1) (value-injective _ _ e) in
      cc
  behind-IsOpen rest (continue s, r) t out h e k =
      let (o, e1, e2) = >>=-eq-value (rest s) _ e in
      let same = ap (λ (x : List Report × Next). x.1) (value-injective _ _ e2) in
      k s o.0 h (e1 ∙ ap (λ n. value (o.0, n)) same)

  -- If the loop starts with an open buffer and goes on behind some inputs, its buffer is open then:
  -- blank, or with more opening than closing parentheses. So no text is held back that could be
  -- compiled or refused.
  pub run-IsOpen :
      (is : List Input) (s t : State) (out : List Report)
      → IsOpen (combined s.buffer)
      → run rt lower schema policy is s ≡ value (out, continue t)
      → IsOpen (combined t.buffer)
  unfolding run
  run-IsOpen [] s t out h e =
      let same = ap (λ (x : List Report × Next). x.1) (value-injective _ _ e) in
      subst (λ n. IsWaiting (value (n, waiting))) same h
  run-IsOpen (i ∷ is) s t out h e =
      let (r, e1, e2) = >>=-eq-value (step rt lower schema policy i s) _ e in
      behind-IsOpen (run rt lower schema policy is) r t out
        (subst IsWaiting e1 (step-IsWaiting i s)) e2 (λ u os k e3. run-IsOpen is u t os k e3)
