-- ===== src/Optimizer/Normal.antt =====
-- The trees that the folds of `_py_optimize_ast` leave as they are, and its Boolean reductions.
use mathlib.Core.Path.{subst}
use nlsqlc.Base.{String, Bool, true, false, Option, none, some, ◌≡◌, refl, ◌==◌, if◌then◌else◌}
use nlsqlc.Base.Outcome.{value}
use nlsqlc.Runtime.{Runtime}
use nlsqlc.Sexpr.{Node, Nodes, atom, list, nil, cons, word, is_word}
use nlsqlc.Optimizer.{
  fold_arithmetic, arith_op, fold_atoms, fold_comparison, is_true, is_false, double_negation,
  reduce_not, filter_operands, rebuild, reduce_operands, reduce_boolean, optimize_list,
}

module _ (rt : Runtime) where
  -- The folds change no list of the tree.
  abbrev mutual
    pub IsNormal : Node → Type 0
    IsNormal (atom a) = Unit
    IsNormal (list xs) = AreNormal xs × (optimize_list rt xs ≡ value (list xs))

    pub AreNormal : Nodes → Type 0
    AreNormal nil = Unit
    AreNormal (cons x xs) = IsNormal x × AreNormal xs

  some-injective : {A : Type 0} (a b : A) → some a ≡ some b → a ≡ b
  some-injective a b e = cc

  -- Whatever the option holds is normal.
  pub record Result (o : Option Node) : Type 0 where
    pub normal : (y : Node) → o ≡ some y → IsNormal y

  Result-none : Result none
  Result-none = record { normal = λ y e. cc }

  Result-some : (x : Node) → IsNormal x → Result (some x)
  Result-some x h = record { normal = λ y e. subst IsNormal (some-injective x y e) h }

  Result-if : (b : Bool) (o p : Option Node) → Result o → Result p → Result (if b then o else p)
  Result-if true o p h k = h
  Result-if false o p h k = k

  -- An operator that is none of the four does not fold.
  fold_arithmetic-none :
      (op : String) (args : Nodes) → arith_op op ≡ none → fold_arithmetic rt op args ≡ value none
  unfolding fold_arithmetic fold_atoms
  fold_arithmetic-none op nil e = refl
  fold_arithmetic-none op (cons (list xs) ys) e = refl
  fold_arithmetic-none op (cons (atom l) nil) e = refl
  fold_arithmetic-none op (cons (atom l) (cons (list xs) ys)) e = refl
  fold_arithmetic-none op (cons (atom l) (cons (atom r) nil)) e = rw e refl
  fold_arithmetic-none op (cons (atom l) (cons (atom r) (cons x xs))) e = refl

  -- AND and OR: an operator, its unit, what an absorbing operand gives, and the two tests
  module _ (op unit zero : String) (absorbs neutral : Node → Bool) (no_arith : arith_op op ≡ none)
      (reduces : (xs : Nodes)
        → reduce_boolean rt op xs ≡ reduce_operands rt op unit zero absorbs neutral xs) where
    record Kept (ys : Nodes) : Type 0 where
      normal : AreNormal ys
      again : filter_operands rt absorbs neutral ys ≡ some ys

    keep :
        (x : Node) (a n : Bool) (o : Option Nodes) (ys : Nodes)
        → absorbs x ≡ a
        → neutral x ≡ n
        → IsNormal x
        → ((ks : Nodes) → o ≡ some ks → Kept ks)
        → (if a
            then none
            else elim o [ none ↦ none | some ks ↦ some (if n then ks else cons x ks) ])
          ≡ some ys
        → Kept ys
    unfolding filter_operands
    keep x true n o ys a b h k e = cc
    keep x false n none ys a b h k e = cc
    keep x false true (some ks) ys a b h k e = subst Kept (some-injective ks ys e) (k ks refl)
    keep x false false (some ks) ys a b h k e =
        let kept = k ks refl in
        subst Kept (some-injective (cons x ks) ys e)
          (record { normal = (h, kept.normal); again = rw (a, kept.again, b) refl })

    filter_operands-Kept :
        (xs ys : Nodes) → AreNormal xs → filter_operands rt absorbs neutral xs ≡ some ys → Kept ys
    unfolding filter_operands
    filter_operands-Kept nil ys h e =
        subst Kept (some-injective nil ys e) (record { normal = tt; again = refl })
    filter_operands-Kept (cons x xs) ys h e =
        keep x (absorbs x) (neutral x) (filter_operands rt absorbs neutral xs) ys refl refl h.0
          (λ ks e'. filter_operands-Kept xs ks h.1 e') e

    rebuilt_again :
        (x y : Node) (zs : Nodes)
        → Kept (cons x (cons y zs))
        → reduce_operands rt op unit zero absorbs neutral (cons x (cons y zs))
          ≡ some (list (cons (word op) (cons x (cons y zs))))
    unfolding reduce_operands rebuild
    rebuilt_again x y zs k = rw (reduce_operands, k.again) refl

    rebuild-IsNormal : (ks : Nodes) → Kept ks → IsNormal (rebuild rt op unit ks)
    unfolding rebuild optimize_list
    rebuild-IsNormal nil k = tt
    rebuild-IsNormal (cons x nil) k = k.normal.0
    rebuild-IsNormal (cons x (cons y zs)) k =
        let ks = cons x (cons y zs) in
        (
          (tt, k.normal),
          rw (fold_arithmetic-none op ks no_arith, reduces ks, rebuilt_again x y zs k) refl,
        )

    reduce_filtered :
        (o : Option Nodes)
        → ((ks : Nodes) → o ≡ some ks → Kept ks)
        → Result (elim o [ none ↦ some (word zero) | some ks ↦ some (rebuild rt op unit ks) ])
    reduce_filtered none k = Result-some (word zero) tt
    reduce_filtered (some ks) k =
        Result-some (rebuild rt op unit ks) (rebuild-IsNormal ks (k ks refl))

    reduce_operands-Result :
        (xs : Nodes) → AreNormal xs → Result (reduce_operands rt op unit zero absorbs neutral xs)
    unfolding reduce_operands
    reduce_operands-Result nil h = Result-none
    reduce_operands-Result (cons x xs) h =
        reduce_filtered (filter_operands rt absorbs neutral (cons x xs))
          (λ ks e. filter_operands-Kept (cons x xs) ks h e)

  double_negation-Result : (x : Node) → IsNormal x → Result (double_negation rt x)
  unfolding double_negation
  double_negation-Result (atom a) h = Result-none
  double_negation-Result (list nil) h = Result-none
  double_negation-Result (list (cons op nil)) h = Result-none
  double_negation-Result (list (cons op (cons x nil))) h =
      Result-if (is_word "not" op) (some x) none (Result-some x h.0.1.0) Result-none
  double_negation-Result (list (cons op (cons x (cons y ys)))) h = Result-none

  reduce_not-Result : (xs : Nodes) → AreNormal xs → Result (reduce_not rt xs)
  unfolding reduce_not
  reduce_not-Result nil h = Result-none
  reduce_not-Result (cons x nil) h =
      Result-if (is_true rt x) (some (word "false")) _ (Result-some (word "false") tt) (
        Result-if (is_false rt x) (some (word "true")) (double_negation rt x)
          (Result-some (word "true") tt) (double_negation-Result x h.0))
  reduce_not-Result (cons x (cons y ys)) h = Result-none

  fold_comparison-Result : (xs : Nodes) → Result (fold_comparison rt xs)
  unfolding fold_comparison
  fold_comparison-Result nil = Result-none
  fold_comparison-Result (cons (list xs) ys) = Result-none
  fold_comparison-Result (cons (atom l) nil) = Result-none
  fold_comparison-Result (cons (atom l) (cons (list xs) ys)) = Result-none
  fold_comparison-Result (cons (atom l) (cons (atom r) nil)) =
      Result-if _ (some (word "true")) none (Result-some (word "true") tt) Result-none
  fold_comparison-Result (cons (atom l) (cons (atom r) (cons x xs))) = Result-none

  pub reduce_boolean-Result :
      (op : String) (xs : Nodes) → AreNormal xs → Result (reduce_boolean rt op xs)
  unfolding reduce_boolean arith_op
  reduce_boolean-Result op xs h =
      Result-if (op == "eq") (fold_comparison rt xs) _ (fold_comparison-Result xs) (
        Result-if (op == "not") (reduce_not rt xs) _ (reduce_not-Result xs h) (
          Result-if (op == "and") _ _
            (reduce_operands-Result "and" "true" "false" (is_false rt) (is_true rt) refl
              (λ ys. refl) xs h)
            (Result-if (op == "or") _ none
              (reduce_operands-Result "or" "false" "true" (is_true rt) (is_false rt) refl
                (λ ys. refl) xs h)
              Result-none)))
