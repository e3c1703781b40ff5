-- ===== src/Sexpr.antt =====
-- bindings/python/nlsql.py: the S-expression trees, `_py_parse_sexpr` and `_py_canonical_ir`.
-- A list inside a tree is a `Nodes`. Besides texts a tree holds the numbers that the optimizer
-- puts there.
pub mod Parse
pub mod RoundTrip
pub mod Concat
pub mod Numerals
use Prim.Native.Char.{Char, code}
use nlsqlc.Base.{
  ℕ, zero, suc, ◌+◌, String, ◌<>◌, Bool, true, false, not, ◌||◌, List, [], ◌∷◌, eqb, if◌then◌else◌,
  ◌==◌,
}
use nlsqlc.Base.Text.{join, is_space}
use nlsqlc.Base.Int.{ℤ, show_ℤ}
use nlsqlc.Base.Outcome.{Outcome, value, raised, value_error, ◌>>=◌}
use nlsqlc.Runtime.{Runtime}

-- What is no list: a `str`, an `int` or a `float`.
pub data Atom : Type 0 where
  str : String → Atom
  int : ℤ → Atom
  flt : String → Atom

mutual
  pub data Node : Type 0 where
    atom : Atom → Node
    list : Nodes → Node

  pub data Nodes : Type 0 where
    nil : Nodes
    cons : Node → Nodes → Nodes

pattern abbrev pub word : String → Node
word s = atom (str s)

abbrev pub to_list : Nodes → List Node
to_list nil = []
to_list (cons x xs) = x ∷ to_list xs

abbrev pub count : Nodes → ℕ
count nil = 0
count (cons x xs) = suc (count xs)

abbrev pub snoc : Nodes → Node → Nodes
snoc nil y = cons y nil
snoc (cons x xs) y = cons x (snoc xs y)

-- `node == "tag"`
abbrev pub is_word : String → Node → Bool
is_word tag (word s) = s == tag
is_word tag _ = false

-- The matches of `\(|\)|[^\s()]+`
pub data Token : Type 0 where
  lparen rparen : Token
  run : String → Token

abbrev pub is_paren : ℕ → Bool
is_paren c = eqb c b'(' || eqb c b')'

-- `[^\s()]`
unfoldable pub is_run_char : ℕ → Bool
unfolding is_space
is_run_char c = not (is_space c || is_paren c)

abbrev pub starts_run : String → Bool
starts_run String.[] = false
starts_run (String.◌∷◌ c s) = is_run_char (code c)

-- A run goes on to the left by one character: a run that begins just behind it takes it in.
unfoldable pub extend : Char → Bool → List Token → List Token
extend c true (run w ∷ ts) = run (String.◌∷◌ c w) ∷ ts
extend c _ ts = run (String.◌∷◌ c "") ∷ ts

-- `re.findall`: the longest runs, from left to right
unfoldable pub find_tokens : String → List Token
unfolding is_run_char extend
find_tokens String.[] = []
find_tokens (String.◌∷◌ c s) =
    let rest = find_tokens s in
    if eqb (code c) b'('
    then lparen ∷ rest
    else if eqb (code c) b')'
    then rparen ∷ rest
    else if is_space (code c)
    then rest
    else extend c (starts_run s) rest

-- The stack of the loop: the innermost open list and the lists around it. A list is put into the
-- one around it when it closes; until then nothing else is appended there.
pub record Stack : Type 0 where
  pub top : Nodes
  pub below : List Nodes

unfoldable pub close : Nodes → List Nodes → Outcome Stack
close top [] = raised (value_error "unexpected ')'")
close top (outer ∷ below) = value (record { top = snoc outer (list top); below = below })

unfoldable pub push_token : Stack → Token → Outcome Stack
unfolding close
push_token s lparen = value (record { top = nil; below = s.top ∷ s.below })
push_token s rparen = close s.top s.below
push_token s (run w) = value (record s { top = snoc s.top (word w) })

unfoldable pub push_tokens : Stack → List Token → Outcome Stack
push_tokens s [] = value s
push_tokens s (t ∷ ts) = push_token s t >>= λ s'. push_tokens s' ts

-- `if len(stack) != 1 or len(stack[0]) != 1`
unfoldable pub finish : Nodes → List Nodes → Outcome Node
finish (cons tree nil) [] = value tree
finish _ _ = raised (value_error "unbalanced parentheses")

unfoldable pub parse_tokens : List Token → Outcome Node
unfolding push_tokens finish
parse_tokens [] = raised (value_error "empty input")
parse_tokens ts = push_tokens (record { top = nil; below = [] }) ts >>= λ s. finish s.top s.below

-- `_py_parse_sexpr`
unfoldable pub parse_sexpr : String → Outcome Node
unfolding parse_tokens
parse_sexpr text = parse_tokens (find_tokens text)

-- `str(atom)`
abbrev pub atom_text : Atom → String
atom_text (str s) = s
atom_text (int i) = show_ℤ i
atom_text (flt f) = f

-- `_py_canonical_ir`
unfoldable mutual
  pub canonical_ir : Node → String
  canonical_ir (atom a) = atom_text a
  canonical_ir (list xs) = "(" <> (join " " (canonical_irs xs) <> ")")

  pub canonical_irs : Nodes → List String
  canonical_irs nil = []
  canonical_irs (cons x xs) = canonical_ir x ∷ canonical_irs xs

-- `str(node)`: a list is shown by the `repr` of its elements.
module _ (rt : Runtime) where
  unfoldable mutual
    pub repr : Node → String
    repr (word s) = rt.repr_text s
    repr (atom a) = atom_text a
    repr (list xs) = "[" <> (join ", " (reprs xs) <> "]")

    pub reprs : Nodes → List String
    reprs nil = []
    reprs (cons x xs) = repr x ∷ reprs xs

  unfoldable pub node_text : Node → String
  node_text (atom a) = atom_text a
  node_text (list xs) = repr (list xs)
