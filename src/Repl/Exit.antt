-- ===== src/Repl/Exit.antt =====
-- The ways out of the loop, and the line `\e`.
use nlsqlc.Base.{
  ◌+◌, ◌<◌, String, true, false, ◌≡◌, refl, ap, ◌∙◌, inl, inr, List, map, [], ◌∷◌, ◌++◌, Bool-cases,
  ◌==◌, eq_iff, eqb, ltb, leb, arith,
}
use nlsqlc.Base.Text.{join, is_space}
use nlsqlc.Base.Outcome.{value, ◌>>=◌}
use nlsqlc.Runtime.{Runtime}
use nlsqlc.Catalog.{Dialect, PySchema, PyPolicy}
use nlsqlc.Api.{read_arguments, compile_request, compile_ir}
use nlsqlc.Gateway.{strip, strip_left, strip_right}
use nlsqlc.Repl.{
  State, line, Report, goodbye, continue, stop, combined, count_char, opens, closes, submit,
  add_line, command, read_line, step, run, behind,
}
use nlsqlc.Repl.Counting.{count-combined, closers, count-closers}

not_blank : (t : String) → opens t < closes t → (t == "") ≡ false
unfolding count_char
not_blank t h = elim (Bool-cases (t == "")) [
  | inl e ↦ absurd (omega (arith, h, ap closes ((eq_iff t "").0 e)))
  | inr e ↦ e
]

module _ (rt : Runtime) (lower : String → String) (schema : PySchema) (policy : PyPolicy) where
  -- A text with as many closing as opening parentheses that is not blank empties the buffer.
  submit-empties :
      (t : String) (s : State)
      → opens t < closes t
      → (r : Report) × (submit rt lower schema policy t s
          ≡ value (continue (record s { buffer = [] }), r))
  unfolding submit compile_ir read_arguments compile_request
  submit-empties t s h =
      let enough : leb (opens t) (closes t) ≡ true = ground arith in
      elim (Bool-cases (ltb 0 (opens t))) [
        | inl e ↦ rw (e, enough) (_, refl)
        | inr e ↦
            let none_open : eqb (opens t) 0 ≡ true = ground arith in
            let some_text : (t == "") ≡ false = not_blank t h in
            rw (e, none_open, some_text) (_, refl)
      ]

  -- When the loop waits, there is a line that lets it go on with an empty buffer.
  closers-empty :
      (d : Dialect) (b : String) (bs : List String)
      → (l : String) × (r : Report) × (step rt lower schema policy
            (line l)
            (record { dialect = d; buffer = b ∷ bs })
          ≡ value (continue (record { dialect = d; buffer = [] }), r))
  unfolding step read_line add_line
  closers-empty d b bs =
      let n = opens (join "\n" (b ∷ bs)) + 1 in
      let (h, k) = count-closers n in
      let o = count-combined b'(' b bs (closers n) refl refl in
      let c = count-combined b')' b bs (closers n) refl refl in
      let (r, e) =
        submit-empties (combined ((b ∷ bs) ++ (closers n ∷ [])))
          (record { dialect = d; buffer = (b ∷ bs) ++ (closers n ∷ []) })
          (omega (arith, h, k, o, c)) in
      (closers n, r, e)

  run-quit :
      (d : Dialect)
      → run rt lower schema policy (line "\\q" ∷ []) (record { dialect = d; buffer = [] })
        ≡ value (goodbye ∷ [], stop)
  unfolding run step read_line command strip strip_left strip_right is_space behind
  run-quit d = refl

  run-stops_from :
      (d : Dialect) (bs : List String)
      → (ls : List String) × (out : List Report) × (run rt lower schema policy
            (map line ls)
            (record { dialect = d; buffer = bs })
          ≡ value (out, stop))
  unfolding run behind
  run-stops_from d [] = ("\\q" ∷ [], goodbye ∷ [], run-quit d)
  run-stops_from d (b ∷ bs) =
      let (l, r, e) = closers-empty d b bs in
      (
        l ∷ "\\q" ∷ [],
        r ∷ goodbye ∷ [],
        ap (λ o. o >>= behind rt lower schema policy (run rt lower schema policy (line "\\q" ∷ [])))
              e
            ∙ ap (λ o. o >>= λ out. value (r ∷ out.0, out.1)) (run-quit d),
      )

  -- From every state the loop can be ended by lines alone, without an interrupt.
  pub run-stops :
      (s : State)
      → (ls : List String) × (out : List Report) × (run rt lower schema policy (map line ls) s
          ≡ value (out, stop))
  run-stops s = run-stops_from s.dialect s.buffer
