-- ===== src/Optimizer.antt =====
-- bindings/python/nlsql.py: `_py_optimize_ast`. A list is optimized after its children; the folds
-- below look at the children only. `bool` values never stand in a tree that was parsed.
pub mod Normal
pub mod Idempotent
pub mod Logic
pub mod Constants
pub mod Connectives
pub mod Meaning
use nlsqlc.Base.{String, Bool, false, not, ◌&&◌, ◌||◌, Option, none, some, if◌then◌else◌, ◌==◌}
use nlsqlc.Base.Text.{contains}
use nlsqlc.Base.Int.{pos, ◌+ℤ◌, ◌-ℤ◌, ◌*ℤ◌, ◌/ℤ◌, eq_ℤ, int_of_text}
use nlsqlc.Base.Outcome.{Outcome, value, raised, value_error, overflow_error, ◌>>=◌, or_raise}
use nlsqlc.Runtime.{Runtime, FloatInt, whole, not_a_number, infinite}
use nlsqlc.Sexpr.{Atom, str, int, flt, Node, Nodes, atom, list, nil, cons, word, is_word}

pub data Arith : Type 0 where
  add sub mul div : Arith

-- `op in ("add", "sub", "mul", "div")`
unfoldable pub arith_op : String → Option Arith
arith_op op =
    if op == "add"
    then some add
    else if op == "sub"
    then some sub
    else if op == "mul"
    then some mul
    else if op == "div"
    then some div
    else none

module _ (rt : Runtime) where
  pub whole_part : FloatInt → Outcome Atom
  whole_part (whole i) = value (int i)
  whole_part not_a_number = raised (value_error "cannot convert float NaN to integer")
  whole_part infinite = raised (overflow_error "cannot convert float infinity to integer")

  abbrev pub or_value_error : Option Atom → Outcome Atom
  or_value_error o = or_raise o (value_error "invalid literal")

  -- `float(l) if "." in str(l) else int(l)`
  unfoldable pub to_number : Atom → Outcome Atom
  unfolding whole_part
  to_number (str s) =
      if contains "." s
      then or_value_error (elim (rt.float_of_text s) [ none ↦ none | some f ↦ some (flt f) ])
      else or_value_error (elim (int_of_text rt.digit s) [ none ↦ none | some i ↦ some (int i) ])
  to_number (int i) = value (int i)
  to_number (flt f) = if contains "." f then value (flt f) else whole_part (rt.int_of_float f)

  -- the float that a mixed operation reads an operand as
  pub as_float : Atom → Outcome String
  as_float (flt f) = value f
  as_float (int i) =
      or_raise (rt.float_of_int i) (overflow_error "int too large to convert to float")
  as_float (str s) = value s

  -- `nr != 0`
  unfoldable pub is_zero : Atom → Bool
  is_zero (int i) = eq_ℤ i (pos 0)
  is_zero (flt f) = rt.float_eq_int f (pos 0)
  is_zero (str s) = false

  abbrev pub in_floats : (String → String → String) → Atom → Atom → Outcome (Option Atom)
  in_floats f nl nr = as_float nl >>= λ a. as_float nr >>= λ b. value (some (flt (f a b)))

  -- `"." in str(n)`
  abbrev pub has_point : Atom → Bool
  has_point (flt f) = contains "." f
  has_point _ = false

  -- the four branches; `none` where none of them returns
  unfoldable pub combine : Arith → Atom → Atom → Outcome (Option Atom)
  unfolding as_float is_zero
  combine add (int i) (int j) = value (some (int (i +ℤ j)))
  combine add nl nr = in_floats rt.float_add nl nr
  combine sub (int i) (int j) = value (some (int (i -ℤ j)))
  combine sub nl nr = in_floats rt.float_sub nl nr
  combine mul (int i) (int j) = value (some (int (i *ℤ j)))
  combine mul nl nr = in_floats rt.float_mul nl nr
  combine div (int i) (int j) = if eq_ℤ j (pos 0) then value none else value (some (int (i /ℤ j)))
  combine div nl nr =
      if is_zero nr
      then value none
      else if has_point nl || has_point nr
      then in_floats rt.float_div nl nr
      else in_floats rt.float_floor_div nl nr

  -- `except (ValueError, TypeError, ZeroDivisionError): pass`
  unfoldable pub except_value_error : Outcome (Option Atom) → Outcome (Option Atom)
  except_value_error (raised (value_error m)) = value none
  except_value_error o = o

  unfoldable pub fold_atoms : Option Arith → Atom → Atom → Outcome (Option Atom)
  unfolding to_number combine except_value_error
  fold_atoms none l r = value none
  fold_atoms (some op) l r =
      except_value_error (to_number l >>= λ nl. to_number r >>= λ nr. combine op nl nr)

  -- Constant Folding: Arithmetic
  unfoldable pub fold_arithmetic : String → Nodes → Outcome (Option Atom)
  unfolding arith_op fold_atoms
  fold_arithmetic op (cons (atom l) (cons (atom r) nil)) = fold_atoms (arith_op op) l r
  fold_arithmetic op args = value none

  -- `l == r`
  unfoldable pub atom_eq : Atom → Atom → Bool
  atom_eq (str s) (str t) = s == t
  atom_eq (int i) (int j) = eq_ℤ i j
  atom_eq (flt f) (flt g) = rt.float_eq f g
  atom_eq (int i) (flt f) = rt.float_eq_int f i
  atom_eq (flt f) (int i) = rt.float_eq_int f i
  atom_eq _ _ = false

  -- `str(l).startswith("(")`: a token has no parenthesis, and no number begins with one
  abbrev pub opens_paren : Atom → Bool
  opens_paren (str (String.◌∷◌ c s)) = String.◌∷◌ c "" == "("
  opens_paren _ = false

  -- Constant Folding: Comparison
  unfoldable pub fold_comparison : Nodes → Option Node
  unfolding atom_eq
  fold_comparison (cons (atom l) (cons (atom r) nil)) =
      if not (opens_paren l) && not (opens_paren r) && atom_eq l r then some (word "true") else none
  fold_comparison args = none

  -- `x in ("true", True)` and `x in ("false", False)`: `True` equals 1 and `False` equals 0
  unfoldable pub is_true : Node → Bool
  is_true (atom (str s)) = s == "true"
  is_true (atom (int i)) = eq_ℤ i (pos 1)
  is_true (atom (flt f)) = rt.float_eq_int f (pos 1)
  is_true (list xs) = false

  unfoldable pub is_false : Node → Bool
  is_false (atom (str s)) = s == "false"
  is_false (atom (int i)) = eq_ℤ i (pos 0)
  is_false (atom (flt f)) = rt.float_eq_int f (pos 0)
  is_false (list xs) = false

  -- (not (not X)) -> X
  unfoldable pub double_negation : Node → Option Node
  double_negation (list (cons op (cons x nil))) = if is_word "not" op then some x else none
  double_negation _ = none

  -- Boolean Reduction: NOT
  unfoldable pub reduce_not : Nodes → Option Node
  unfolding is_true is_false double_negation
  reduce_not (cons x nil) =
      if is_true x
      then some (word "false")
      else if is_false x
      then some (word "true")
      else double_negation x
  reduce_not args = none

  -- The loops of AND and OR: `none` is the early return at an absorbing operand; a neutral
  -- operand is dropped.
  unfoldable pub filter_operands : (Node → Bool) → (Node → Bool) → Nodes → Option Nodes
  filter_operands absorbs neutral nil = some nil
  filter_operands absorbs neutral (cons x xs) =
      let rest = filter_operands absorbs neutral xs in
      if absorbs x
      then none
      else elim rest [ none ↦ none | some kept ↦ some (if neutral x then kept else cons x kept) ]

  unfoldable pub rebuild : String → String → Nodes → Node
  rebuild op unit nil = word unit
  rebuild op unit (cons x nil) = x
  rebuild op unit xs = list (cons (word op) xs)

  -- Boolean Reduction: AND, OR; `zero` is what an absorbing operand makes of the whole
  unfoldable pub reduce_operands :
      String → String → String → (Node → Bool) → (Node → Bool) → Nodes → Option Node
  unfolding filter_operands rebuild
  reduce_operands op unit zero absorbs neutral nil = none
  reduce_operands op unit zero absorbs neutral xs = elim (filter_operands absorbs neutral xs) [
    | none ↦ some (word zero)
    | some kept ↦ some (rebuild op unit kept)
  ]

  unfoldable pub reduce_boolean : String → Nodes → Option Node
  unfolding fold_comparison reduce_not reduce_operands
  reduce_boolean op args =
      if op == "eq"
      then fold_comparison args
      else if op == "not"
      then reduce_not args
      else if op == "and"
      then reduce_operands "and" "true" "false" is_false is_true args
      else if op == "or"
      then reduce_operands "or" "false" "true" is_true is_false args
      else none

  abbrev pub or_else : Option Node → Node → Node
  or_else none n = n
  or_else (some m) n = m

  abbrev pub choose : Option Atom → String → Nodes → Node
  choose (some a) op args = atom a
  choose none op args = or_else (reduce_boolean op args) (list (cons (word op) args))

  -- what becomes of a list with these optimized children
  unfoldable pub optimize_list : Nodes → Outcome Node
  unfolding fold_arithmetic reduce_boolean
  optimize_list (cons (word op) args) =
      fold_arithmetic op args >>= λ folded. value (choose folded op args)
  optimize_list xs = value (list xs)

  -- `_py_optimize_ast`, bottom-up
  unfoldable mutual
    pub optimize : Node → Outcome Node
    optimize (atom a) = value (atom a)
    optimize (list xs) = optimize_all xs >>= optimize_list

    pub optimize_all : Nodes → Outcome Nodes
    optimize_all nil = value nil
    optimize_all (cons x xs) = optimize x >>= λ y. optimize_all xs >>= λ ys. value (cons y ys)
