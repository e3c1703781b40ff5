-- ===== src/Builder/Texts.antt =====
-- Texts with the tokens of trees, and what the builder puts around them.
use mathlib.Core.List.{append_assoc, append-nil}
use package.text.Mathlib.TextLemmas.{append_assoc as text_assoc}
use nlsqlc.Base.{◌≡◌, refl, sym, ap, ◌∙◌, List, [], ◌∷◌, ◌++◌, String, ◌<>◌, false}
use nlsqlc.Base.Text.{join, is_space}
use nlsqlc.Sexpr.{
  Node, Nodes, list, nil, cons, word, Token, lparen, rparen, run, find_tokens, is_run_char,
  starts_run, extend,
}
use nlsqlc.Sexpr.Parse.{flatten, flatten_all, IsWorded, AreWorded}
use nlsqlc.Sexpr.RoundTrip.{IsRun}
use nlsqlc.Sexpr.Concat.{
  find_tokens-append, find_tokens-space_between, tokens_of, find_tokens-join, find_tokens-tagged,
}
use nlsqlc.Builder.{tagged}

-- The text has the tokens of the tree, and the atoms of the tree are texts.
abbrev pub IsText : String → Node → Type 0
IsText s t = (find_tokens s ≡ flatten t) × IsWorded t

abbrev pub AreTexts : List String → List Node → Type 0
AreTexts [] [] = Unit
AreTexts [] (t ∷ ts) = ⊥
AreTexts (s ∷ ss) [] = ⊥
AreTexts (s ∷ ss) (t ∷ ts) = IsText s t × AreTexts ss ts

abbrev pub nodes : List Node → Nodes
nodes [] = nil
nodes (t ∷ ts) = cons t (nodes ts)

pub AreTexts-append :
    (ss : List String) (ts : List Node) (us : List String) (vs : List Node)
    → AreTexts ss ts
    → AreTexts us vs
    → AreTexts (ss ++ us) (ts ++ vs)
AreTexts-append [] [] us vs h k = k
AreTexts-append [] (t ∷ ts) us vs h k = absurd h
AreTexts-append (s ∷ ss) [] us vs h k = absurd h
AreTexts-append (s ∷ ss) (t ∷ ts) us vs h k = (h.0, AreTexts-append ss ts us vs h.1 k)

tokens_of-AreTexts :
    (ss : List String) (ts : List Node)
    → AreTexts ss ts
    → (tokens_of ss ≡ flatten_all (nodes ts)) × AreWorded (nodes ts)
tokens_of-AreTexts [] [] h = (refl, tt)
tokens_of-AreTexts [] (t ∷ ts) h = absurd h
tokens_of-AreTexts (s ∷ ss) [] h = absurd h
tokens_of-AreTexts (s ∷ ss) (t ∷ ts) h =
    let (e, w) = tokens_of-AreTexts ss ts h.1 in (rw (h.0.0, e) refl, (h.0.1, w))

-- `(tag …)` over texts with spaces between them
pub tagged-IsText :
    (tag : String) (body : String) (ts : List Node)
    → IsRun tag
    → (find_tokens body ≡ flatten_all (nodes ts)) × AreWorded (nodes ts)
    → IsText (tagged tag body) (list (cons (word tag) (nodes ts)))
tagged-IsText tag body ts h k = (
  find_tokens-tagged tag body h ∙ ap (λ x. lparen ∷ run tag ∷ (x ++ (rparen ∷ []))) k.0,
  (tt, k.1),
)

pub join-AreTexts :
    (ss : List String) (ts : List Node)
    → AreTexts ss ts
    → (find_tokens (join " " ss) ≡ flatten_all (nodes ts)) × AreWorded (nodes ts)
join-AreTexts ss ts h = let (e, w) = tokens_of-AreTexts ss ts h in (find_tokens-join ss ∙ e, w)

two-AreTexts :
    (a b : String) (t u : Node)
    → IsText a t
    → IsText b u
    → (find_tokens (a <> (" " <> b)) ≡ flatten_all (nodes (t ∷ u ∷ [])))
      × AreWorded (nodes (t ∷ u ∷ []))
unfolding join
two-AreTexts a b t u h k = join-AreTexts (a ∷ b ∷ []) (t ∷ u ∷ []) (h, (k, tt))

outer_parens :
    (find_tokens "(nlsql 2 (query" ≡ lparen ∷ run "nlsql" ∷ run "2" ∷ lparen ∷ run "query" ∷ [])
    × (starts_run "))" ≡ false)
    × (find_tokens "))" ≡ rparen ∷ rparen ∷ [])
unfolding find_tokens extend is_run_char is_space
outer_parens = (refl, refl, refl)

two_closed :
    (ts : List Token)
    → ts ++ (rparen ∷ rparen ∷ []) ≡ ((ts ++ (rparen ∷ [])) ++ []) ++ (rparen ∷ [])
two_closed ts =
    rw (append-nil (ts ++ (rparen ∷ []))) (sym (append_assoc ts (rparen ∷ []) (rparen ∷ [])))

-- `f"(nlsql 2 (query {body}))"`
pub find_tokens-wrapped :
    (body : String) (ns : Nodes)
    → find_tokens body ≡ flatten_all ns
    → find_tokens ("(nlsql 2 (query " <> (body <> "))"))
      ≡ flatten
          (list (cons (word "nlsql") (cons (word "2") (cons (list (cons (word "query") ns)) nil))))
find_tokens-wrapped body ns e =
    let (a, b, c) = outer_parens in
    ap find_tokens (text_assoc "(nlsql 2 (query" " " (body <> "))"))
    ∙ find_tokens-space_between "(nlsql 2 (query" (body <> "))")
    ∙ rw (a, find_tokens-append body "))" b, c, e)
        (ap (λ ts. lparen ∷ run "nlsql" ∷ run "2" ∷ lparen ∷ run "query" ∷ ts)
          (two_closed (flatten_all ns)))
