-- ===== src/Sexpr/RoundTrip.antt =====
-- `_py_canonical_ir` and `_py_parse_sexpr`: the canonical text of a parsed tree parses to it.
use Prim.Native.Char.{Char, code}
use mathlib.Core.Path.{subst}
use mathlib.Core.List.{append_assoc, append-nil}
use text.Mathlib.TextLemmas.{
  append_assoc as text_assoc, append-nil as text-nil, cons-append, nil-append,
}
use nlsqlc.Base.{
  ◌≡◌, refl, sym, ap, ◌∙◌, List, [], ◌∷◌, ◌++◌, String, ◌<>◌, Bool, true, false, not, ◌||◌,
  Bool-cases, inl, inr, All, All-append-split, eqb,
}
use nlsqlc.Base.Text.{join, is_space}
use nlsqlc.Base.Outcome.{value}
use nlsqlc.Sexpr.{
  Node, Nodes, atom, list, nil, cons, is_run_char, starts_run, Token, lparen, rparen, run, extend,
  find_tokens, parse_tokens, parse_sexpr, canonical_ir, canonical_irs,
}
use nlsqlc.Sexpr.Parse.{
  IsWorded, flatten, flatten_all, parse_tokens-flatten, flatten-parse_tokens, parse_tokens-IsWorded,
}

-- A match of `[^\s()]+`: the characters, and that there is one.
abbrev pub AreRunChars : String → Type 0
AreRunChars String.[] = Unit
AreRunChars (String.◌∷◌ c s) = (is_run_char (code c) ≡ true) × AreRunChars s

abbrev pub IsRun : String → Type 0
IsRun String.[] = ⊥
IsRun (String.◌∷◌ c s) = AreRunChars (String.◌∷◌ c s)

abbrev pub IsProper : Token → Type 0
IsProper (run w) = IsRun w
IsProper t = Unit

-- A character of a run is neither a parenthesis nor a space.
nor-cases : (s l r : Bool) → not (s || (l || r)) ≡ true → (l ≡ false) × (r ≡ false) × (s ≡ false)
nor-cases false false false h = (refl, refl, refl)
nor-cases true l r h = cc
nor-cases false true r h = cc
nor-cases false false true h = cc

pub find_tokens-run_char :
    (c : Char) (s : String)
    → is_run_char (code c) ≡ true
    → find_tokens (String.◌∷◌ c s) ≡ extend c (starts_run s) (find_tokens s)
unfolding find_tokens is_run_char
find_tokens-run_char c s h =
    let (l, r, n) = nor-cases (is_space (code c)) (eqb (code c) b'(') (eqb (code c) b')') h in
    rw (l, r, n) refl

single-append : (c : Char) (t : String) → String.◌∷◌ c "" <> t ≡ String.◌∷◌ c t
single-append c t = cons-append c "" t ∙ ap (String.◌∷◌ c) (nil-append t)

-- A run is one token, up to a character that is none of a run.
find_tokens-run :
    (c : Char) (s rest : String)
    → AreRunChars (String.◌∷◌ c s)
    → starts_run rest ≡ false
    → find_tokens (String.◌∷◌ c s <> rest) ≡ run (String.◌∷◌ c s) ∷ find_tokens rest
unfolding extend
find_tokens-run c String.[] rest h k =
    ap find_tokens (single-append c rest) ∙ find_tokens-run_char c rest h.0 ∙ rw k refl
find_tokens-run c (String.◌∷◌ d s) rest h k =
    ap find_tokens (cons-append c (String.◌∷◌ d s) rest)
    ∙ find_tokens-run_char c (String.◌∷◌ d s <> rest) h.0
    ∙ rw (find_tokens-run d s rest h.1 k, cons-append d s rest, h.1.0) refl

pub find_tokens-proper :
    (w rest : String)
    → IsRun w
    → starts_run rest ≡ false
    → find_tokens (w <> rest) ≡ run w ∷ find_tokens rest
find_tokens-proper String.[] rest h k = absurd h
find_tokens-proper (String.◌∷◌ c s) rest h k = find_tokens-run c s rest h k

-- The tokens of a text are proper.
extend-IsProper :
    (c : Char) (b : Bool) (ts : List Token)
    → is_run_char (code c) ≡ true
    → All IsProper ts
    → All IsProper (extend c b ts)
unfolding extend
extend-IsProper c false ts h k = ((h, tt), k)
extend-IsProper c true [] h k = ((h, tt), k)
extend-IsProper c true (lparen ∷ ts) h k = ((h, tt), k)
extend-IsProper c true (rparen ∷ ts) h k = ((h, tt), k)
extend-IsProper c true (run String.[] ∷ ts) h k = absurd k.0
extend-IsProper c true (run (String.◌∷◌ d s) ∷ ts) h k = ((h, k.0), k.1)

pub find_tokens-IsProper : (s : String) → All IsProper (find_tokens s)
unfolding find_tokens is_run_char
find_tokens-IsProper String.[] = tt
find_tokens-IsProper (String.◌∷◌ c s) =
    let rest = find_tokens-IsProper s in
    elim (Bool-cases (eqb (code c) b'(')) [
      | inl l ↦ rw l (tt, rest)
      | inr l ↦ elim (Bool-cases (eqb (code c) b')')) [
        | inl r ↦ rw (l, r) (tt, rest)
        | inr r ↦ elim (Bool-cases (is_space (code c))) [
          | inl n ↦ rw (l, r, n) rest
          | inr n ↦ rw (l, r, n) (extend-IsProper c _ _ (rw (l, r, n) refl) rest)
        ]
      ]
    ]

pub find_tokens-lparen : (s : String) → find_tokens ("(" <> s) ≡ lparen ∷ find_tokens s
unfolding find_tokens
find_tokens-lparen s = ap find_tokens (single-append "(" s)

pub find_tokens-rparen : (s : String) → find_tokens (")" <> s) ≡ rparen ∷ find_tokens s
unfolding find_tokens
find_tokens-rparen s = ap find_tokens (single-append ")" s)

pub find_tokens-space : (s : String) → find_tokens (" " <> s) ≡ find_tokens s
unfolding find_tokens is_space
find_tokens-space s = ap find_tokens (single-append " " s)

starts_run-rparen : (s : String) → starts_run (")" <> s) ≡ false
unfolding is_run_char is_space
starts_run-rparen s = ap starts_run (single-append ")" s)

pub starts_run-space : (s : String) → starts_run (" " <> s) ≡ false
unfolding is_run_char is_space
starts_run-space s = ap starts_run (single-append " " s)

mutual
  unfolding canonical_ir join

  -- The canonical text of a tree has the tree's tokens.
  find_tokens-canonical_ir :
      (t : Node) (rest : String)
      → All IsProper (flatten t)
      → starts_run rest ≡ false
      → find_tokens (canonical_ir t <> rest) ≡ flatten t ++ find_tokens rest
  find_tokens-canonical_ir (atom a) rest h k = find_tokens-proper _ rest h.0 k
  find_tokens-canonical_ir (list xs) rest h k =
      let inner = join " " (canonical_irs xs) in
      ap find_tokens
        (text_assoc "(" (inner <> ")") rest ∙ ap (λ t. "(" <> t) (text_assoc inner ")" rest))
      ∙ find_tokens-lparen (inner <> (")" <> rest))
      ∙ ap (λ ts. lparen ∷ ts)
          (find_tokens-canonical_irs xs (")" <> rest)
              (All-append-split IsProper (flatten_all xs) (rparen ∷ []) h.1).0
              (starts_run-rparen rest)
            ∙ ap (λ ts. flatten_all xs ++ ts) (find_tokens-rparen rest)
            ∙ sym (append_assoc (flatten_all xs) (rparen ∷ []) (find_tokens rest)))

  find_tokens-canonical_irs :
      (xs : Nodes) (rest : String)
      → All IsProper (flatten_all xs)
      → starts_run rest ≡ false
      → find_tokens (join " " (canonical_irs xs) <> rest) ≡ flatten_all xs ++ find_tokens rest
  find_tokens-canonical_irs nil rest h k = ap find_tokens (nil-append rest)
  find_tokens-canonical_irs (cons x nil) rest h k =
      let (p, _) = All-append-split IsProper (flatten x) [] h in
      find_tokens-canonical_ir x rest p k
      ∙ ap (λ ts. ts ++ find_tokens rest) (sym (append-nil (flatten x)))
  find_tokens-canonical_irs (cons x (cons y ys)) rest h k =
      let more = join " " (canonical_irs (cons y ys)) in
      let (p, q) = All-append-split IsProper (flatten x) (flatten_all (cons y ys)) h in
      ap find_tokens (
        text_assoc (canonical_ir x) (" " <> more) rest
        ∙ ap (λ t. canonical_ir x <> t) (text_assoc " " more rest))
      ∙ find_tokens-canonical_ir x (" " <> (more <> rest)) p (starts_run-space (more <> rest))
      ∙ ap (λ ts. flatten x ++ ts)
          (find_tokens-space (more <> rest) ∙ find_tokens-canonical_irs (cons y ys) rest q k)
      ∙ sym (append_assoc (flatten x) (flatten_all (cons y ys)) (find_tokens rest))

-- A tree whose atoms are runs of characters is read back from its canonical text.
pub parse_flat :
    (t : Node) → IsWorded t → All IsProper (flatten t) → parse_sexpr (canonical_ir t) ≡ value t
unfolding parse_sexpr find_tokens
parse_flat t words proper =
    let tokens : find_tokens (canonical_ir t) ≡ flatten t =
      ap find_tokens (sym (text-nil (canonical_ir t)))
      ∙ find_tokens-canonical_ir t "" proper refl
      ∙ append-nil (flatten t) in
    ap parse_tokens tokens ∙ parse_tokens-flatten t words

-- If a text parses to a tree, then the canonical text of the tree parses to the same tree.
pub parse_sexpr-canonical_ir :
    (text : String) (t : Node) → parse_sexpr text ≡ value t → parse_sexpr (canonical_ir t) ≡ value t
unfolding parse_sexpr find_tokens
parse_sexpr-canonical_ir text t h =
    parse_flat t (parse_tokens-IsWorded _ t h)
      (subst (All IsProper) (flatten-parse_tokens _ t h) (find_tokens-IsProper text))
