-- ===== src/Optimizer/Logic.antt =====
-- What a tree of a query means in a logic: the values of its atoms, of AND, OR and NOT, and of the
-- other operators.
use nlsqlc.Base.{String, Bool, true, false, some, List, [], ◌∷◌, ◌≡◌, ◌==◌, ◌||◌, if◌then◌else◌}
use nlsqlc.Base.Text.{contains}
use nlsqlc.Base.Int.{ℤ, pos, eq_ℤ, ◌+ℤ◌, ◌-ℤ◌, ◌*ℤ◌, ◌/ℤ◌, int_of_text}
use nlsqlc.Runtime.{Runtime, whole}
use nlsqlc.Sexpr.{Atom, str, int, flt, Node, Nodes, atom, list, nil, cons, word}

-- What the atoms and the operators mean; `plain` is a list whose first element is no word.
pub record Logic : Type 1 where
  pub Value : Type 0
  pub yes : Value
  pub no : Value
  pub negate : Value → Value
  pub meet : Value → Value → Value
  pub join : Value → Value → Value
  pub of_atom : Atom → Value
  pub apply : String → List Value → Value
  pub plain : List Value → Value

-- The float that stands for a number
abbrev pub IsFloat : Runtime → Atom → String → Type 0
IsFloat rt (int i) f = rt.float_of_int i ≡ some f
IsFloat rt (flt x) f = x ≡ f
IsFloat rt (str s) f = ⊥

-- Two numbers that are not both integers
abbrev pub IsMixed : Atom → Atom → Type 0
IsMixed (int i) (int j) = ⊥
IsMixed m n = Unit

abbrev pub IsNonzero : Runtime → Atom → Type 0
IsNonzero rt (int i) = eq_ℤ i (pos 0) ≡ false
IsNonzero rt (flt f) = rt.float_eq_int f (pos 0) ≡ false
IsNonzero rt (str s) = Unit

-- whether a point stands in the text of a float
abbrev pub shows_point : Atom → Bool
shows_point (flt f) = contains "." f
shows_point (int i) = false
shows_point (str s) = false

-- The laws of the connectives, of the numbers and of equality. A text without a point is the integer
-- that it reads as, and equal texts are equal values: a value that is unknown, such as NULL, has no
-- place in these logics.
pub record IsLawful (rt : Runtime) (S : Logic) : Type 0 where
  pub negate-yes : S.negate S.yes ≡ S.no
  pub negate-no : S.negate S.no ≡ S.yes
  pub negate-negate : (v : S.Value) → S.negate (S.negate v) ≡ v
  pub yes_meet : (v : S.Value) → S.meet S.yes v ≡ v
  pub meet_yes : (v : S.Value) → S.meet v S.yes ≡ v
  pub no_meet : (v : S.Value) → S.meet S.no v ≡ S.no
  pub meet_no : (v : S.Value) → S.meet v S.no ≡ S.no
  pub no_join : (v : S.Value) → S.join S.no v ≡ v
  pub join_no : (v : S.Value) → S.join v S.no ≡ v
  pub yes_join : (v : S.Value) → S.join S.yes v ≡ S.yes
  pub join_yes : (v : S.Value) → S.join v S.yes ≡ S.yes
  -- the words, 1 and 0, and the floats that equal them
  pub word_true : S.of_atom (str "true") ≡ S.yes
  pub word_false : S.of_atom (str "false") ≡ S.no
  pub one : S.of_atom (int (pos 1)) ≡ S.yes
  pub zero : S.of_atom (int (pos 0)) ≡ S.no
  pub float_one : (f : String) → rt.float_eq_int f (pos 1) ≡ true → S.of_atom (flt f) ≡ S.yes
  pub float_zero : (f : String) → rt.float_eq_int f (pos 0) ≡ true → S.of_atom (flt f) ≡ S.no
  -- the number that a text or a float is
  pub text_int :
      (s : String) (i : ℤ)
      → contains "." s ≡ false
      → int_of_text rt.digit s ≡ some i
      → S.of_atom (str s) ≡ S.of_atom (int i)
  pub text_float :
      (s f : String)
      → contains "." s ≡ true
      → rt.float_of_text s ≡ some f
      → S.of_atom (str s) ≡ S.of_atom (flt f)
  pub whole_float :
      (f : String) (i : ℤ)
      → contains "." f ≡ false
      → rt.int_of_float f ≡ whole i
      → S.of_atom (flt f) ≡ S.of_atom (int i)
  -- equality
  pub eq_text : (s : String) → S.apply "eq" (S.of_atom (str s) ∷ S.of_atom (str s) ∷ []) ≡ S.yes
  pub eq_int : (i : ℤ) → S.apply "eq" (S.of_atom (int i) ∷ S.of_atom (int i) ∷ []) ≡ S.yes
  pub eq_float :
      (f g : String)
      → rt.float_eq f g ≡ true
      → S.apply "eq" (S.of_atom (flt f) ∷ S.of_atom (flt g) ∷ []) ≡ S.yes
  pub eq_int_float :
      (i : ℤ) (f : String)
      → rt.float_eq_int f i ≡ true
      → S.apply "eq" (S.of_atom (int i) ∷ S.of_atom (flt f) ∷ []) ≡ S.yes
  pub eq_float_int :
      (f : String) (i : ℤ)
      → rt.float_eq_int f i ≡ true
      → S.apply "eq" (S.of_atom (flt f) ∷ S.of_atom (int i) ∷ []) ≡ S.yes
  -- integers
  pub add_ints :
      (i j : ℤ)
      → S.apply "add" (S.of_atom (int i) ∷ S.of_atom (int j) ∷ []) ≡ S.of_atom (int (i +ℤ j))
  pub sub_ints :
      (i j : ℤ)
      → S.apply "sub" (S.of_atom (int i) ∷ S.of_atom (int j) ∷ []) ≡ S.of_atom (int (i -ℤ j))
  pub mul_ints :
      (i j : ℤ)
      → S.apply "mul" (S.of_atom (int i) ∷ S.of_atom (int j) ∷ []) ≡ S.of_atom (int (i *ℤ j))
  pub div_ints :
      (i j : ℤ)
      → eq_ℤ j (pos 0) ≡ false
      → S.apply "div" (S.of_atom (int i) ∷ S.of_atom (int j) ∷ []) ≡ S.of_atom (int (i /ℤ j))
  -- numbers of which one is a float
  pub add_floats :
      (m n : Atom) (f g : String)
      → IsMixed m n
      → IsFloat rt m f
      → IsFloat rt n g
      → S.apply "add" (S.of_atom m ∷ S.of_atom n ∷ []) ≡ S.of_atom (flt (rt.float_add f g))
  pub sub_floats :
      (m n : Atom) (f g : String)
      → IsMixed m n
      → IsFloat rt m f
      → IsFloat rt n g
      → S.apply "sub" (S.of_atom m ∷ S.of_atom n ∷ []) ≡ S.of_atom (flt (rt.float_sub f g))
  pub mul_floats :
      (m n : Atom) (f g : String)
      → IsMixed m n
      → IsFloat rt m f
      → IsFloat rt n g
      → S.apply "mul" (S.of_atom m ∷ S.of_atom n ∷ []) ≡ S.of_atom (flt (rt.float_mul f g))
  -- a quotient of floats of which none shows a point is rounded down
  pub div_floats :
      (m n : Atom) (f g : String)
      → IsMixed m n
      → IsNonzero rt n
      → IsFloat rt m f
      → IsFloat rt n g
      → S.apply "div" (S.of_atom m ∷ S.of_atom n ∷ [])
        ≡ S.of_atom (
            flt
              (if shows_point m || shows_point n then rt.float_div f g else rt.float_floor_div f g))

abbrev pub fold_right : {A : Type 0} → (A → A → A) → A → List A → A
fold_right f u [] = u
fold_right f u (v ∷ vs) = f v (fold_right f u vs)

module _ (S : Logic) where
  abbrev negation : List S.Value → S.Value
  negation (v ∷ []) = S.negate v
  negation vs = S.apply "not" vs

  abbrev pub operate : String → List S.Value → S.Value
  operate op vs =
      if op == "not"
      then negation vs
      else if op == "and"
      then fold_right S.meet S.yes vs
      else if op == "or"
      then fold_right S.join S.no vs
      else S.apply op vs

  -- The value of a tree
  abbrev mutual
    pub eval : Node → S.Value
    eval (atom a) = S.of_atom a
    eval (list xs) = eval_list xs

    eval_list : Nodes → S.Value
    eval_list nil = S.plain []
    eval_list (cons (word op) args) = operate op (evals args)
    eval_list (cons x args) = S.plain (eval x ∷ evals args)

    pub evals : Nodes → List S.Value
    evals nil = []
    evals (cons x xs) = eval x ∷ evals xs

-- No list of the tree begins with a list.
abbrev mutual
  pub IsForm : Node → Type 0
  IsForm (atom a) = Unit
  IsForm (list nil) = Unit
  IsForm (list (cons (atom a) args)) = AreForms args
  IsForm (list (cons (list xs) args)) = ⊥

  pub AreForms : Nodes → Type 0
  AreForms nil = Unit
  AreForms (cons x xs) = IsForm x × AreForms xs
