-- ===== src/Repl.antt =====
-- tools/repl.py: the loop of `main` as a step per line. Each printed message is a value of `Report`; its
-- text and its colours are left out.
pub mod Counting
pub mod Balance
pub mod Exit
pub mod Texts
use Prim.Native.Char.{code}
use nlsqlc.Base.{
  ℕ, zero, suc, String, ◌<>◌, Bool, true, false, not, ◌&&◌, ◌||◌, Option, none, some, List, [], ◌∷◌,
  ◌++◌, if◌then◌else◌, ◌==◌, eqb, ltb, leb,
}
use nlsqlc.Base.Text.{join}
use nlsqlc.Base.Int.{ℤ, pos, eq_ℤ, int_of_text}
use nlsqlc.Base.Outcome.{Outcome, value, raised, value_error, zero_division_error, ◌>>=◌, or_raise}
use nlsqlc.Runtime.{Runtime}
use nlsqlc.Catalog.{Dialect, postgres, sqlite, duckdb, mysql, sqlserver, PySchema, PyPolicy}
use nlsqlc.Engine.{PyCompileResult}
use nlsqlc.Api.{compile_ir, text, schema_object, policy_object}
use nlsqlc.Question.{split_words}
use nlsqlc.Gateway.{strip, starts_with}

-- the state of the loop: `current_dialect` and `buffer`
pub record State : Type 0 where
  pub dialect : Dialect
  pub buffer : List String

abbrev pub start : State
start = record { dialect = postgres; buffer = [] }

-- What `input` gives: a line, or an EOFError or a KeyboardInterrupt
pub data Input : Type 0 where
  line : String → Input
  interrupted : Input

-- What is printed
pub data Report : Type 0 where
  goodbye exiting help schema_listing policy_listing invalid_input waiting : Report
  dialect_switched current_dialect : Dialect → Report
  unknown_dialect : String → Report
  benchmarked : ℤ → Report
  compiled : PyCompileResult → Report

-- The loop goes on with a state, or ends.
pub data Next : Type 0 where
  continue : State → Next
  stop : Next

unfoldable pub count_char : ℕ → String → ℕ
count_char c String.[] = 0
count_char c (String.◌∷◌ d s) =
    let rest = count_char c s in if eqb (code d) c then suc rest else rest

-- `d_map` behind `if target in d_map`
unfoldable pub dialect_named : String → Option Dialect
dialect_named name =
    if name == "postgres" || name == "postgresql"
    then some postgres
    else if name == "sqlite"
    then some sqlite
    else if name == "duckdb"
    then some duckdb
    else if name == "mysql"
    then some mysql
    else if name == "sqlserver"
    then some sqlserver
    else none

-- A step that is not waited for: the state behind it and what is printed
abbrev pub Result : Type 0
Result = Outcome (Next × Report)

abbrev pub go_on : State → Report → Result
go_on s r = value (continue s, r)

-- the iterations of `\b`
abbrev iterations_of : (ℕ → Option ℕ) → List String → Outcome ℤ
iterations_of digit (b ∷ n ∷ rest) =
    or_raise (int_of_text digit n) (value_error "invalid literal for int() with base 10")
iterations_of digit _ = value (pos 5000)

-- `nlsql.benchmark(SAMPLE_QUERY, iterations=n)` divides by the iterations.
unfoldable pub benchmark : ℤ → Outcome ℤ
benchmark n =
    if eq_ℤ n (pos 0) then raised (zero_division_error "float division by zero") else value n

-- `"\n".join(buffer).strip()`
unfoldable pub combined : List String → String
unfolding strip
combined buffer = strip (join "\n" buffer)

abbrev pub opens : String → ℕ
opens s = count_char b'(' s

abbrev pub closes : String → ℕ
closes s = count_char b')' s

module _ (rt : Runtime) (lower : String → String) (schema : PySchema) (policy : PyPolicy) where
  -- the branch `open_p > 0 and open_p <= close_p`, and the one for a text without `(`
  unfoldable pub submit : String → State → Result
  unfolding compile_ir count_char
  submit input s =
      if ltb 0 (opens input) && leb (opens input) (closes input)
      then (compile_ir rt (text input ∷ schema_object schema ∷ policy_object policy ∷ []) s.dialect
          >>= λ r. go_on (record s { buffer = [] }) (compiled r))
      else if eqb (opens input) 0 && not (input == "")
      then go_on (record s { buffer = [] }) invalid_input
      else go_on s waiting

  -- what stands behind the commands: the line as it was read joins the buffer
  unfoldable pub add_line : String → State → Result
  unfolding combined submit
  add_line l s =
      submit (combined (s.buffer ++ (l ∷ []))) (record s { buffer = s.buffer ++ (l ∷ []) })

  unfoldable pub switch : Option Dialect → String → State → Result
  switch none target s = go_on s (unknown_dialect target)
  switch (some d) target s = go_on (record s { dialect = d }) (dialect_switched d)

  -- `\d`
  unfoldable pub dialect_command : List String → State → Result
  unfolding dialect_named switch
  dialect_command (d ∷ target ∷ rest) s = switch (dialect_named (lower target)) (lower target) s
  dialect_command _ s = go_on s (current_dialect s.dialect)

  -- `\b`
  unfoldable pub benchmark_command : List String → State → Result
  unfolding benchmark
  benchmark_command parts s = do
    n ← iterations_of rt.digit parts
    done ← benchmark n
    go_on s (benchmarked done)

  -- the commands, which an empty buffer accepts; `l` is the line and `c` the line without spaces around
  unfoldable pub command : String → String → State → Result
  unfolding dialect_command benchmark_command add_line starts_with split_words
  command c l s =
      if c == "\\q" || c == "exit" || c == "quit"
      then value (stop, goodbye)
      else if c == "\\h" || c == "help"
      then go_on s help
      else if c == "\\e"
      then add_line l s
      else if starts_with "\\d" c
      then dialect_command (split_words c) s
      else if c == "\\s"
      then go_on s schema_listing
      else if c == "\\p"
      then go_on s policy_listing
      else if starts_with "\\b" c
      then benchmark_command (split_words c) s
      else add_line l s

  -- `if not buffer: …`
  unfoldable pub read_line : List String → String → State → Result
  unfolding command add_line strip
  read_line [] l s = command (strip l) l s
  read_line (b ∷ bs) l s = add_line l s

  -- one round of the loop
  unfoldable pub step : Input → State → Result
  unfolding read_line
  step interrupted s = value (stop, exiting)
  step (line l) s = read_line s.buffer l s

  -- the rest of the loop behind a step
  unfoldable pub behind :
      (State → Outcome (List Report × Next)) → Next × Report → Outcome (List Report × Next)
  behind rest (stop, r) = value (r ∷ [], stop)
  behind rest (continue t, r) = rest t >>= λ out. value (r ∷ out.0, out.1)

  -- The loop over the inputs: what is printed, and the state unless the loop has ended
  unfoldable pub run : List Input → State → Outcome (List Report × Next)
  unfolding step behind
  run [] s = value ([], continue s)
  run (i ∷ is) s = step i s >>= behind (run is)
