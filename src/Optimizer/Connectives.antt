-- ===== src/Optimizer/Connectives.antt =====
-- The value of a conjunction or disjunction behind the filter of its operands.
use mathlib.Core.Path.{subst}
use nlsqlc.Base.{
  eq_iff, String, Bool, true, false, Option, none, some, List, ◌≡◌, refl, sym, ap, ◌∙◌,
  if◌then◌else◌,
}
use nlsqlc.Base.Int.{pos}
use nlsqlc.Runtime.{Runtime}
use nlsqlc.Sexpr.{str, int, flt, Node, Nodes, atom, list, nil, cons, word}
use nlsqlc.Optimizer.{is_true, is_false, filter_operands, rebuild, reduce_operands}
use nlsqlc.Optimizer.Constants.{eq_ℤ-eq}
use nlsqlc.Optimizer.Logic.{Logic, IsLawful, fold_right, operate, eval, evals}

module _ (rt : Runtime) (S : Logic) (laws : IsLawful rt S) where
  pub eval-true : (x : Node) → is_true rt x ≡ true → eval S x ≡ S.yes
  unfolding is_true
  eval-true (atom (str s)) h =
      subst (λ t. S.of_atom (str t) ≡ S.yes) (sym ((eq_iff s "true").0 h)) laws.word_true
  eval-true (atom (int i)) h =
      subst (λ j. S.of_atom (int j) ≡ S.yes) (sym (eq_ℤ-eq i (pos 1) h)) laws.one
  eval-true (atom (flt f)) h = laws.float_one f h
  eval-true (list xs) h = cc

  pub eval-false : (x : Node) → is_false rt x ≡ true → eval S x ≡ S.no
  unfolding is_false
  eval-false (atom (str s)) h =
      subst (λ t. S.of_atom (str t) ≡ S.no) (sym ((eq_iff s "false").0 h)) laws.word_false
  eval-false (atom (int i)) h =
      subst (λ j. S.of_atom (int j) ≡ S.no) (sym (eq_ℤ-eq i (pos 0) h)) laws.zero
  eval-false (atom (flt f)) h = laws.float_zero f h
  eval-false (list xs) h = cc

  pub some-injective : {A : Type 0} (a b : A) → some a ≡ some b → a ≡ b
  some-injective a b e = cc

  -- AND and OR: the connective with its unit and its zero, and the tests on the operands
  module _ (op unit zero : String) (f : S.Value → S.Value → S.Value) (u z : S.Value)
      (absorbs neutral : Node → Bool) (absorbed : (x : Node) → absorbs x ≡ true → eval S x ≡ z)
      (dropped : (x : Node) → neutral x ≡ true → eval S x ≡ u)
      (unit_left : (v : S.Value) → f u v ≡ v) (unit_right : (v : S.Value) → f v u ≡ v)
      (zero_left : (v : S.Value) → f z v ≡ z) (zero_right : (v : S.Value) → f v z ≡ z)
      (operated : (vs : List S.Value) → operate S op vs ≡ fold_right f u vs)
      (of_unit : eval S (word unit) ≡ u) (of_zero : eval S (word zero) ≡ z) where
    abbrev total : Nodes → S.Value
    total xs = fold_right f u (evals S xs)

    -- What the filtered operands give, or the zero at an early return.
    abbrev kept : Option Nodes → S.Value
    kept none = z
    kept (some ks) = total ks

    kept-filter_operands : (xs : Nodes) → kept (filter_operands rt absorbs neutral xs) ≡ total xs
    unfolding filter_operands
    kept-filter_operands nil = refl
    kept-filter_operands (cons x xs) =
        go (absorbs x) refl (neutral x) refl (filter_operands rt absorbs neutral xs)
          (kept-filter_operands xs)
      where
        go :
            (a : Bool)
            → absorbs x ≡ a
            → (n : Bool) → neutral x ≡ n
            → (o : Option Nodes) → kept o ≡ total xs
            → kept (
                if a
                then none
                else elim o [ none ↦ none | some ks ↦ some (if n then ks else cons x ks) ])
              ≡ f (eval S x) (total xs)
        go true e n d o h = sym (ap (λ v. f v (total xs)) (absorbed x e) ∙ zero_left _)
        go false e n d none h = sym (ap (λ v. f (eval S x) v) (sym h) ∙ zero_right _)
        go false e true d (some ks) h =
            h ∙ sym (ap (λ v. f v (total xs)) (dropped x d) ∙ unit_left _)
        go false e false d (some ks) h = ap (λ v. f (eval S x) v) h

    eval-rebuild : (ks : Nodes) → eval S (rebuild rt op unit ks) ≡ total ks
    unfolding rebuild
    eval-rebuild nil = of_unit
    eval-rebuild (cons x nil) = sym (unit_right _)
    eval-rebuild (cons x (cons y ys)) = operated (evals S (cons x (cons y ys)))

    pub eval-reduce_operands :
        (xs : Nodes) (y : Node)
        → reduce_operands rt op unit zero absorbs neutral xs ≡ some y
        → eval S y ≡ operate S op (evals S xs)
    unfolding reduce_operands
    eval-reduce_operands nil y e = cc
    eval-reduce_operands (cons x xs) y e =
        go (filter_operands rt absorbs neutral (cons x xs)) (kept-filter_operands (cons x xs)) e
        ∙ sym (operated (evals S (cons x xs)))
      where
        go :
            (o : Option Nodes)
            → kept o ≡ total (cons x xs)
            → elim o [ none ↦ some (word zero) | some ks ↦ some (rebuild rt op unit ks) ] ≡ some y
            → eval S y ≡ total (cons x xs)
        go none h e = ap (eval S) (sym (some-injective _ _ e)) ∙ of_zero ∙ h
        go (some ks) h e = ap (eval S) (sym (some-injective _ _ e)) ∙ eval-rebuild ks ∙ h
