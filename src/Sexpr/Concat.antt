-- ===== src/Sexpr/Concat.antt =====
-- The tokens of a text that is put together of parts.
use Prim.Native.Char.{Char, code}
use mathlib.Core.List.{append-nil}
use text.Mathlib.TextLemmas.{cons-append, nil-append}
use nlsqlc.Base.{
  ◌≡◌, refl, sym, ap, ◌∙◌, List, [], ◌∷◌, ◌++◌, String, ◌<>◌, Bool, true, false, Bool-cases, inl,
  inr, eqb,
}
use nlsqlc.Base.Text.{join, is_space}
use nlsqlc.Sexpr.{is_run_char, starts_run, Token, lparen, rparen, run, extend, find_tokens}
use nlsqlc.Sexpr.RoundTrip.{
  IsRun, find_tokens-run_char, find_tokens-proper, find_tokens-lparen, find_tokens-space,
  starts_run-space,
}

-- A run that is taken further to the left is a run.
extend-run :
    (c : Char) (b : Bool) (ts : List Token)
    → (w : String) × (more : List Token) × (extend c b ts ≡ run w ∷ more)
unfolding extend
extend-run c false ts = (_, _, refl)
extend-run c true [] = (_, _, refl)
extend-run c true (lparen ∷ ts) = (_, _, refl)
extend-run c true (rparen ∷ ts) = (_, _, refl)
extend-run c true (run w ∷ ts) = (_, _, refl)

starts_run-append : (s t : String) → starts_run t ≡ false → starts_run (s <> t) ≡ starts_run s
starts_run-append String.[] t h = ap starts_run (nil-append t) ∙ h
starts_run-append (String.◌∷◌ c s) t h = ap starts_run (cons-append c s t)

-- Where a text begins with a run, so do its tokens.
extend-append :
    (c : Char) (s : String) (ts : List Token)
    → extend c (starts_run s) (find_tokens s ++ ts) ≡ extend c (starts_run s) (find_tokens s) ++ ts
unfolding extend
extend-append c String.[] ts = refl
extend-append c (String.◌∷◌ d s) ts = elim (Bool-cases (is_run_char (code d))) [
  | inl e ↦
      let (w, more, h) = extend-run d (starts_run s) (find_tokens s) in
      rw (e, find_tokens-run_char d s e, h) refl
  | inr e ↦ rw e refl
]

-- A text splits before a character that is none of a run.
pub find_tokens-append :
    (s t : String) → starts_run t ≡ false → find_tokens (s <> t) ≡ find_tokens s ++ find_tokens t
unfolding find_tokens
find_tokens-append String.[] t h = ap find_tokens (nil-append t)
find_tokens-append (String.◌∷◌ c s) t h =
    ap find_tokens (cons-append c s t) ∙ elim (Bool-cases (eqb (code c) b'(')) [
      | inl l ↦ rw l (ap (λ ts. lparen ∷ ts) (find_tokens-append s t h))
      | inr l ↦ elim (Bool-cases (eqb (code c) b')')) [
        | inl r ↦ rw (l, r) (ap (λ ts. rparen ∷ ts) (find_tokens-append s t h))
        | inr r ↦ elim (Bool-cases (is_space (code c))) [
          | inl n ↦ rw (l, r, n) (find_tokens-append s t h)
          | inr n ↦
              rw (l, r, n, starts_run-append s t h, find_tokens-append s t h)
                (extend-append c s (find_tokens t))
        ]
      ]
    ]

-- Two texts with a space between them
pub find_tokens-space_between :
    (s t : String) → find_tokens (s <> (" " <> t)) ≡ find_tokens s ++ find_tokens t
find_tokens-space_between s t =
    find_tokens-append s (" " <> t) (starts_run-space t)
    ∙ ap (λ ts. find_tokens s ++ ts) (find_tokens-space t)

-- The tokens of each text, one after the other
abbrev pub tokens_of : List String → List Token
tokens_of [] = []
tokens_of (s ∷ ss) = find_tokens s ++ tokens_of ss

pub find_tokens-join : (ss : List String) → find_tokens (join " " ss) ≡ tokens_of ss
unfolding join find_tokens
find_tokens-join [] = refl
find_tokens-join (s ∷ []) = sym (append-nil (find_tokens s))
find_tokens-join (s ∷ t ∷ ss) =
    find_tokens-space_between s (join " " (t ∷ ss))
    ∙ ap (λ ts. find_tokens s ++ ts) (find_tokens-join (t ∷ ss))

closing_paren : (starts_run ")" ≡ false) × (find_tokens ")" ≡ rparen ∷ [])
unfolding is_run_char is_space find_tokens
closing_paren = (refl, refl)

find_tokens-closed : (body : String) → find_tokens (body <> ")") ≡ find_tokens body ++ (rparen ∷ [])
find_tokens-closed body =
    find_tokens-append body ")" closing_paren.0 ∙ ap (λ ts. find_tokens body ++ ts) closing_paren.1

-- `f"({tag} {body})"`
pub find_tokens-tagged :
    (tag body : String)
    → IsRun tag
    → find_tokens ("(" <> (tag <> (" " <> (body <> ")"))))
      ≡ lparen ∷ run tag ∷ (find_tokens body ++ (rparen ∷ []))
find_tokens-tagged tag body h =
    find_tokens-lparen _
    ∙ ap (λ ts. lparen ∷ ts)
        (find_tokens-proper tag (" " <> (body <> ")")) h (starts_run-space _)
          ∙ ap (λ ts. run tag ∷ ts) (find_tokens-space (body <> ")") ∙ find_tokens-closed body))
