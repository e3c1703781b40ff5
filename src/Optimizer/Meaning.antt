-- ===== src/Optimizer/Meaning.antt =====
-- `_py_optimize_ast` and the value of a tree in a logic.
use mathlib.Core.Path.{subst}
use nlsqlc.Base.{
  String, Bool, true, false, not, ◌&&◌, Option, none, some, [], ◌∷◌, ◌≡◌, refl, sym, ap, ◌∙◌,
  Bool-cases, inl, inr, ◌==◌, eq_iff, if◌then◌else◌,
}
use nlsqlc.Base.Outcome.{value, >>=-eq-value, value-injective}
use nlsqlc.Runtime.{Runtime}
use nlsqlc.Sexpr.{Atom, str, int, flt, Node, Nodes, atom, list, nil, cons, word}
use nlsqlc.Optimizer.{
  fold_arithmetic, arith_op, fold_atoms, fold_comparison, opens_paren, is_true, is_false,
  double_negation, reduce_not, reduce_boolean, or_else, choose, optimize_list, optimize,
  optimize_all,
}
use nlsqlc.Optimizer.Logic.{Logic, IsLawful, operate, eval, evals, IsForm, AreForms}
use nlsqlc.Optimizer.Constants.{equal, arithmetic}
use nlsqlc.Optimizer.Connectives.{eval-true, eval-false, some-injective, eval-reduce_operands}

module _ (rt : Runtime) (S : Logic) (laws : IsLawful rt S) where
  if-some :
      (b : Bool) (x : Node) (o : Option Node) (y : Node) (v : S.Value)
      → (b ≡ true → eval S x ≡ v)
      → (b ≡ false → o ≡ some y → eval S y ≡ v)
      → (if b then some x else o) ≡ some y
      → eval S y ≡ v
  if-some true x o y v h k e = ap (eval S) (sym (some-injective rt S laws _ _ e)) ∙ h refl
  if-some false x o y v h k e = k refl e

  eval-word_yes : eval S (word "true") ≡ S.yes
  eval-word_yes = laws.word_true

  eval-word_no : eval S (word "false") ≡ S.no
  eval-word_no = laws.word_false

  right_test : (b c : Bool) → (b && c) ≡ true → c ≡ true
  right_test true c h = h
  right_test false c h = cc

  eval-fold_comparison :
      (xs : Nodes) (y : Node)
      → fold_comparison rt xs ≡ some y
      → eval S y ≡ operate S "eq" (evals S xs)
  unfolding fold_comparison
  eval-fold_comparison (cons (atom l) (cons (atom r) nil)) y e =
      if-some _ (word "true") none y _
        (λ h.
          eval-word_yes
          ∙ sym (
              equal rt S laws l r
                (right_test (not (opens_paren rt l) && not (opens_paren rt r)) _ h)))
        (λ h k. cc) e
  eval-fold_comparison _ y e = cc

  eval-double_negation :
      (x y : Node) → double_negation rt x ≡ some y → eval S y ≡ S.negate (eval S x)
  unfolding double_negation
  eval-double_negation (list (cons (word op) (cons x nil))) y e =
      if-some (op == "not") x none y _
        (λ h.
          subst (λ w. eval S x ≡ S.negate (operate S w (eval S x ∷ [])))
            (sym ((eq_iff op "not").0 h)) (sym (laws.negate-negate (eval S x))))
        (λ h k. cc) e
  eval-double_negation (list (cons (atom (int i)) (cons x nil))) y e = cc
  eval-double_negation (list (cons (atom (flt f)) (cons x nil))) y e = cc
  eval-double_negation (list (cons (list xs) (cons x nil))) y e = cc
  eval-double_negation (list (cons op nil)) y e = cc
  eval-double_negation (list (cons op (cons x (cons x' xs)))) y e = cc
  eval-double_negation (list nil) y e = cc
  eval-double_negation (atom a) y e = cc

  eval-reduce_not :
      (xs : Nodes) (y : Node) → reduce_not rt xs ≡ some y → eval S y ≡ operate S "not" (evals S xs)
  unfolding reduce_not
  eval-reduce_not (cons x nil) y e =
      if-some (is_true rt x) (word "false") _ y _
        (λ h. eval-word_no ∙ sym (ap S.negate (eval-true rt S laws x h) ∙ laws.negate-yes))
        (λ h.
          if-some (is_false rt x) (word "true") _ y _
            (λ k. eval-word_yes ∙ sym (ap S.negate (eval-false rt S laws x k) ∙ laws.negate-no))
            (λ k. eval-double_negation x y))
        e
  eval-reduce_not _ y e = cc

  either :
      {G : Type 0} (b : Bool) (o p : Option Node) (y : Node)
      → (b ≡ true → o ≡ some y → G)
      → (p ≡ some y → G)
      → (if b then o else p) ≡ some y
      → G
  either true o p y h k e = h refl e
  either false o p y h k e = k e

  -- A reduction gives a tree with the value of the list.
  eval-reduce_boolean :
      (op : String) (xs : Nodes) (y : Node)
      → reduce_boolean rt op xs ≡ some y
      → eval S y ≡ operate S op (evals S xs)
  unfolding reduce_boolean
  eval-reduce_boolean op xs y e =
      either (op == "eq") _ _ y (at "eq" (eval-fold_comparison xs y))
        (either (op == "not") _ _ y (at "not" (eval-reduce_not xs y)) (
          either (op == "and") _ _ y
            (at "and" (
              eval-reduce_operands rt S laws "and" "true" "false" S.meet S.yes S.no (is_false rt)
                (is_true rt) (eval-false rt S laws) (eval-true rt S laws) laws.yes_meet
                laws.meet_yes laws.no_meet laws.meet_no (λ vs. refl) eval-word_yes eval-word_no xs
                y))
            (either (op == "or") _ none y
              (at "or" (
                eval-reduce_operands rt S laws "or" "false" "true" S.join S.no S.yes (is_true rt)
                  (is_false rt) (eval-true rt S laws) (eval-false rt S laws) laws.no_join
                  laws.join_no laws.yes_join laws.join_yes (λ vs. refl) eval-word_no eval-word_yes
                  xs y))
              (λ k. cc))))
        e
    where
      at :
          (name : String) {o : Option Node}
          → (o ≡ some y → eval S y ≡ operate S name (evals S xs))
          → op == name ≡ true
          → o ≡ some y
          → eval S y ≡ operate S op (evals S xs)
      at name k h e =
          subst (λ w. eval S y ≡ operate S w (evals S xs)) (sym ((eq_iff op name).0 h)) (k e)

  -- An operator that folds is none of the connectives.
  fold_atoms-op :
      (op name : String) (l r c : Atom)
      → arith_op name ≡ none
      → fold_atoms rt (arith_op op) l r ≡ value (some c)
      → (op == name) ≡ false
  unfolding fold_atoms
  fold_atoms-op op name l r c none_is e = elim (Bool-cases (op == name)) [
    | inr h ↦ h
    | inl h ↦
        let f : fold_atoms rt (arith_op name) l r ≡ value (some c) =
          subst (λ w. fold_atoms rt (arith_op w) l r ≡ value (some c)) ((eq_iff op name).0 h) e in
        absurd (none_value (subst (λ o. fold_atoms rt o l r ≡ value (some c)) none_is f))
  ]
    where
      none_value : fold_atoms rt none l r ≡ value (some c) → ⊥
      none_value e = cc

  eval-fold_arithmetic :
      (op : String) (xs : Nodes) (c : Atom)
      → fold_arithmetic rt op xs ≡ value (some c)
      → S.of_atom c ≡ operate S op (evals S xs)
  unfolding fold_arithmetic arith_op
  eval-fold_arithmetic op (cons (atom l) (cons (atom r) nil)) c e =
      rw
        (
          fold_atoms-op op "not" l r c refl e,
          fold_atoms-op op "and" l r c refl e,
          fold_atoms-op op "or" l r c refl e,
        )
        (sym (arithmetic rt S laws op l r c e))
  eval-fold_arithmetic op _ c e = cc

  eval-choose :
      (op : String) (xs : Nodes) (folded : Option Atom)
      → fold_arithmetic rt op xs ≡ value folded
      → eval S (choose rt folded op xs) ≡ operate S op (evals S xs)
  eval-choose op xs (some c) e = eval-fold_arithmetic op xs c e
  eval-choose op xs none e = go (reduce_boolean rt op xs) refl
    where
      go :
          (o : Option Node)
          → reduce_boolean rt op xs ≡ o
          → eval S (or_else rt o (list (cons (word op) xs))) ≡ operate S op (evals S xs)
      go none h = refl
      go (some y) h = eval-reduce_boolean op xs y h

  eval-optimize_list :
      (xs : Nodes) (y : Node) → optimize_list rt xs ≡ value y → eval S y ≡ eval S (list xs)
  unfolding optimize_list
  eval-optimize_list (cons (word op) xs) y e =
      let (folded, f, k) = >>=-eq-value (fold_arithmetic rt op xs) _ e in
      ap (eval S) (sym (value-injective _ _ k)) ∙ eval-choose op xs folded f
  eval-optimize_list nil y e = ap (eval S) (sym (value-injective _ _ e))
  eval-optimize_list (cons (list ys) xs) y e = ap (eval S) (sym (value-injective _ _ e))
  eval-optimize_list (cons (atom (int i)) xs) y e = ap (eval S) (sym (value-injective _ _ e))
  eval-optimize_list (cons (atom (flt f)) xs) y e = ap (eval S) (sym (value-injective _ _ e))

  head_kept :
      (a : Atom) (xs zs : Nodes)
      → evals S zs ≡ evals S xs
      → eval S (list (cons (atom a) zs)) ≡ eval S (list (cons (atom a) xs))
  head_kept (str op) xs zs e = ap (operate S op) e
  head_kept (int i) xs zs e = ap (λ vs. S.plain (S.of_atom (int i) ∷ vs)) e
  head_kept (flt f) xs zs e = ap (λ vs. S.plain (S.of_atom (flt f) ∷ vs)) e

  mutual
    unfolding optimize

    tree_kept : (x y : Node) → IsForm x → optimize rt x ≡ value y → eval S y ≡ eval S x
    tree_kept (atom a) y h e = ap (eval S) (sym (value-injective _ _ e))
    tree_kept (list nil) y h e = eval-optimize_list nil y e
    tree_kept (list (cons (atom a) xs)) y h e =
        let (ws, m, n) = >>=-eq-value (optimize_all rt (cons (atom a) xs)) (optimize_list rt) e in
        let (zs, g, k) = >>=-eq-value (optimize_all rt xs) _ m in
        eval-optimize_list ws y n
        ∙ ap (λ w. eval S (list w)) (sym (value-injective _ _ k))
        ∙ head_kept a xs zs (trees_kept xs zs h g)
    tree_kept (list (cons (list xs) ys)) y h e = absurd h

    trees_kept :
        (xs ys : Nodes) → AreForms xs → optimize_all rt xs ≡ value ys → evals S ys ≡ evals S xs
    trees_kept nil ys h e = ap (evals S) (sym (value-injective _ _ e))
    trees_kept (cons x xs) ys h e =
        let (z, f, k) = >>=-eq-value (optimize rt x) _ e in
        let (zs, g, l) = >>=-eq-value (optimize_all rt xs) _ k in
        ap (evals S) (sym (value-injective _ _ l))
        ∙ (λ i. tree_kept x z h.0 f i ∷ trees_kept xs zs h.1 g i)
