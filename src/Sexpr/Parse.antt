-- ===== src/Sexpr/Parse.antt =====
-- `_py_parse_sexpr` on tokens: it reads exactly the token sequences of the trees.
use mathlib.Core.List.{append_assoc, append-nil}
use mathlib.Core.Path.{subst}
use mathlib.Core.Logic.{◌↔◌}
use nlsqlc.Base.{◌≡◌, refl, sym, ap, ◌∙◌, List, [], ◌∷◌, ◌++◌}
use nlsqlc.Base.Outcome.{Outcome, value, raised, returned, ◌>>=◌, >>=-eq-value, value-injective}
use nlsqlc.Sexpr.{
  int, flt, Node, Nodes, atom, list, nil, cons, word, snoc, atom_text, Token, lparen, rparen, run,
  Stack, close, push_token, push_tokens, finish, parse_tokens,
}

-- The tokens of a tree.
abbrev mutual
  pub flatten : Node → List Token
  flatten (atom a) = run (atom_text a) ∷ []
  flatten (list xs) = lparen ∷ (flatten_all xs ++ (rparen ∷ []))

  pub flatten_all : Nodes → List Token
  flatten_all nil = []
  flatten_all (cons x xs) = flatten x ++ flatten_all xs

-- The atoms of the tree are texts.
abbrev mutual
  pub IsWorded : Node → Type 0
  IsWorded (word s) = Unit
  IsWorded (atom a) = ⊥
  IsWorded (list xs) = AreWorded xs

  pub AreWorded : Nodes → Type 0
  AreWorded nil = Unit
  AreWorded (cons x xs) = IsWorded x × AreWorded xs

abbrev append : Nodes → Nodes → Nodes
append nil ys = ys
append (cons x xs) ys = cons x (append xs ys)

append-nil_nodes : (xs : Nodes) → append xs nil ≡ xs
append-nil_nodes nil = refl
append-nil_nodes (cons x xs) = ap (cons x) (append-nil_nodes xs)

append-snoc : (xs : Nodes) (y : Node) (ys : Nodes) → append (snoc xs y) ys ≡ append xs (cons y ys)
append-snoc nil y ys = refl
append-snoc (cons x xs) y ys = ap (cons x) (append-snoc xs y ys)

abbrev stack : Nodes → List Nodes → Stack
stack top below = record { top = top; below = below }

mutual
  unfolding push_tokens push_token close

  push_tokens-flatten :
      (x : Node) (top : Nodes) (below : List Nodes) (ts : List Token)
      → IsWorded x
      → push_tokens (stack top below) (flatten x ++ ts) ≡ push_tokens (stack (snoc top x) below) ts
  push_tokens-flatten (word s) top below ts h = refl
  push_tokens-flatten (atom (int i)) top below ts h = absurd h
  push_tokens-flatten (atom (flt f)) top below ts h = absurd h
  push_tokens-flatten (list xs) top below ts h =
      ap (push_tokens (stack nil (top ∷ below))) (append_assoc (flatten_all xs) (rparen ∷ []) ts)
      ∙ push_tokens-flatten_all xs nil (top ∷ below) (rparen ∷ ts) h

  push_tokens-flatten_all :
      (xs : Nodes) (top : Nodes) (below : List Nodes) (ts : List Token)
      → AreWorded xs
      → push_tokens (stack top below) (flatten_all xs ++ ts)
        ≡ push_tokens (stack (append top xs) below) ts
  push_tokens-flatten_all nil top below ts h =
      ap (λ n. push_tokens (stack n below) ts) (sym (append-nil_nodes top))
  push_tokens-flatten_all (cons x xs) top below ts h =
      ap (push_tokens (stack top below)) (append_assoc (flatten x) (flatten_all xs) ts)
      ∙ push_tokens-flatten x top below (flatten_all xs ++ ts) h.0
      ∙ push_tokens-flatten_all xs (snoc top x) below ts h.1
      ∙ ap (λ n. push_tokens (stack n below) ts) (append-snoc top x xs)

parse_tokens-unfold :
    (ts : List Token) (t : Node)
    → push_tokens (stack nil []) ts ≡ value (stack (cons t nil) [])
    → parse_tokens ts ≡ value t
unfolding parse_tokens
parse_tokens-unfold [] t h = cc
parse_tokens-unfold (x ∷ ts) t h = rw h refl

-- The tokens of a tree parse to the tree.
pub parse_tokens-flatten : (t : Node) → IsWorded t → parse_tokens (flatten t) ≡ value t
unfolding push_tokens
parse_tokens-flatten t h = parse_tokens-unfold (flatten t) t (
    ap (push_tokens (stack nil [])) (sym (append-nil (flatten t)))
    ∙ push_tokens-flatten t nil [] [] h)

-- The tokens that the loop has read.
abbrev tokens_of : Nodes → List Nodes → List Token
tokens_of top [] = flatten_all top
tokens_of top (outer ∷ below) = tokens_of outer below ++ (lparen ∷ flatten_all top)

flatten_all-snoc : (xs : Nodes) (x : Node) → flatten_all (snoc xs x) ≡ flatten_all xs ++ flatten x
flatten_all-snoc nil x = append-nil (flatten x)
flatten_all-snoc (cons y xs) x =
    ap (λ ts. flatten y ++ ts) (flatten_all-snoc xs x)
    ∙ sym (append_assoc (flatten y) (flatten_all xs) (flatten x))

tokens_of-snoc :
    (top : Nodes) (below : List Nodes) (x : Node)
    → tokens_of (snoc top x) below ≡ tokens_of top below ++ flatten x
tokens_of-snoc top [] x = flatten_all-snoc top x
tokens_of-snoc top (outer ∷ below) x =
    ap (λ ts. tokens_of outer below ++ (lparen ∷ ts)) (flatten_all-snoc top x)
    ∙ sym (append_assoc (tokens_of outer below) (lparen ∷ flatten_all top) (flatten x))

-- The tokens of the stack that a step leaves, if it leaves one.
abbrev Reads : List Token → Outcome Stack → Type 0
Reads ts (value s) = tokens_of s.top s.below ≡ ts
Reads ts (raised e) = Unit
Reads ts (returned f m) = Unit

push_token-Reads :
    (top : Nodes) (below : List Nodes) (t : Token)
    → Reads (tokens_of top below ++ (t ∷ [])) (push_token (stack top below) t)
unfolding push_token close
push_token-Reads top below lparen = refl
push_token-Reads top [] rparen = tt
push_token-Reads top (outer ∷ below) rparen =
    tokens_of-snoc outer below (list top)
    ∙ sym (append_assoc (tokens_of outer below) (lparen ∷ flatten_all top) (rparen ∷ []))
push_token-Reads top below (run w) = tokens_of-snoc top below (word w)

Reads-bind :
    (f : Stack → Outcome Stack) (o : Outcome Stack) (ts us : List Token)
    → Reads ts o
    → ((s : Stack) → Reads (tokens_of s.top s.below ++ us) (f s))
    → Reads (ts ++ us) (o >>= f)
Reads-bind f (value s) ts us h k = subst (λ vs. Reads (vs ++ us) (f s)) h (k s)
Reads-bind f (raised e) ts us h k = tt
Reads-bind f (returned g m) ts us h k = tt

push_tokens-Reads :
    (s : Stack) (ts : List Token) → Reads (tokens_of s.top s.below ++ ts) (push_tokens s ts)
unfolding push_tokens
push_tokens-Reads s [] = sym (append-nil (tokens_of s.top s.below))
push_tokens-Reads s (t ∷ ts) =
    subst (λ us. Reads us (push_tokens s (t ∷ ts)))
      (append_assoc (tokens_of s.top s.below) (t ∷ []) ts)
      (Reads-bind (λ s'. push_tokens s' ts) (push_token s t) _ ts (push_token-Reads s.top s.below t)
        λ s'. push_tokens-Reads s' ts)

finish-flatten :
    (top : Nodes) (below : List Nodes) (t : Node)
    → finish top below ≡ value t
    → tokens_of top below ≡ flatten t
unfolding finish
finish-flatten (cons x nil) [] t h = append-nil (flatten x) ∙ ap flatten (value-injective _ _ h)
finish-flatten nil below t h = cc
finish-flatten (cons x (cons y ys)) below t h = cc
finish-flatten (cons x nil) (o ∷ below) t h = cc

-- Only the tokens of a tree parse to it.
pub flatten-parse_tokens : (ts : List Token) (t : Node) → parse_tokens ts ≡ value t → ts ≡ flatten t
unfolding parse_tokens
flatten-parse_tokens [] t h = cc
flatten-parse_tokens (x ∷ ts) t h =
    let (s, h1, k) = >>=-eq-value (push_tokens (stack nil []) (x ∷ ts)) _ h in
    let read : tokens_of s.top s.below ≡ x ∷ ts =
      subst (Reads (x ∷ ts)) h1 (push_tokens-Reads (stack nil []) (x ∷ ts)) in
    sym read ∙ finish-flatten s.top s.below t k

-- The tree with its atoms written as texts.
abbrev mutual
  reword : Node → Node
  reword (atom a) = word (atom_text a)
  reword (list xs) = list (reword_all xs)

  reword_all : Nodes → Nodes
  reword_all nil = nil
  reword_all (cons x xs) = cons (reword x) (reword_all xs)

mutual
  reword-IsWorded : (t : Node) → IsWorded (reword t)
  reword-IsWorded (atom a) = tt
  reword-IsWorded (list xs) = reword_all-AreWorded xs

  reword_all-AreWorded : (xs : Nodes) → AreWorded (reword_all xs)
  reword_all-AreWorded nil = tt
  reword_all-AreWorded (cons x xs) = (reword-IsWorded x, reword_all-AreWorded xs)

mutual
  flatten-reword : (t : Node) → flatten (reword t) ≡ flatten t
  flatten-reword (atom a) = refl
  flatten-reword (list xs) = ap (λ ts. lparen ∷ (ts ++ (rparen ∷ []))) (flatten_all-reword_all xs)

  flatten_all-reword_all : (xs : Nodes) → flatten_all (reword_all xs) ≡ flatten_all xs
  flatten_all-reword_all nil = refl
  flatten_all-reword_all (cons x xs) = λ i. flatten-reword x i ++ flatten_all-reword_all xs i

-- A parsed tree is made of texts.
pub parse_tokens-IsWorded : (ts : List Token) (t : Node) → parse_tokens ts ≡ value t → IsWorded t
parse_tokens-IsWorded ts t h =
    let again : parse_tokens ts ≡ value (reword t) =
      ap parse_tokens (flatten-parse_tokens ts t h ∙ sym (flatten-reword t))
      ∙ parse_tokens-flatten (reword t) (reword-IsWorded t) in
    subst IsWorded (value-injective _ _ (sym again ∙ h)) (reword-IsWorded t)

-- The parser gives a tree for a sequence of tokens if and only if the atoms of the tree are texts
-- and the sequence is the tree's own, so that it takes no other sequence to the tree.
pub parse_tokens_lem :
    (ts : List Token) (t : Node) → (parse_tokens ts ≡ value t) ↔ (IsWorded t × (ts ≡ flatten t))
parse_tokens_lem ts t = (
  λ h. (parse_tokens-IsWorded ts t h, flatten-parse_tokens ts t h),
  λ (w, e). ap parse_tokens e ∙ parse_tokens-flatten t w,
)
