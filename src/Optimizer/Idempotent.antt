-- ===== src/Optimizer/Idempotent.antt =====
-- `_py_optimize_ast` applied to its own result.
use mathlib.Core.Path.{subst}
use nlsqlc.Base.{String, Option, none, some, ◌≡◌, refl, sym, ap, ◌∙◌}
use nlsqlc.Base.Outcome.{value, ◌>>=◌, >>=-eq-value, value-injective}
use nlsqlc.Runtime.{Runtime}
use nlsqlc.Sexpr.{Atom, int, flt, Node, Nodes, atom, list, nil, cons, word}
use nlsqlc.Optimizer.{
  fold_arithmetic, reduce_boolean, or_else, choose, optimize_list, optimize, optimize_all,
}
use nlsqlc.Optimizer.Normal.{IsNormal, AreNormal, reduce_boolean-Result}

module _ (rt : Runtime) where
  mutual
    unfolding optimize

    optimize-IsNormal : (x : Node) → IsNormal rt x → optimize rt x ≡ value x
    optimize-IsNormal (atom a) h = refl
    optimize-IsNormal (list xs) h =
        ap (λ o. o >>= optimize_list rt) (optimize_all-AreNormal xs h.0) ∙ h.1

    optimize_all-AreNormal : (xs : Nodes) → AreNormal rt xs → optimize_all rt xs ≡ value xs
    optimize_all-AreNormal nil h = refl
    optimize_all-AreNormal (cons x xs) h =
        rw (optimize-IsNormal x h.0, optimize_all-AreNormal xs h.1) refl

  -- The three ends of `optimize_list`: a constant, a reduction, and the list as it is.
  choose-IsNormal :
      (op : String) (xs : Nodes) (folded : Option Atom) (reduced : Option Node)
      → AreNormal rt xs
      → fold_arithmetic rt op xs ≡ value folded
      → reduce_boolean rt op xs ≡ reduced
      → IsNormal rt (choose rt folded op xs)
  unfolding optimize_list
  choose-IsNormal op xs (some a) reduced h f r = tt
  choose-IsNormal op xs none (some y) h f r =
      subst (λ o. IsNormal rt (or_else rt o (list (cons (word op) xs)))) (sym r)
        ((reduce_boolean-Result rt op xs h).normal y r)
  choose-IsNormal op xs none none h f r =
      subst (λ o. IsNormal rt (or_else rt o (list (cons (word op) xs)))) (sym r)
        ((tt, h), rw (f, r) refl)

  optimize_list-IsNormal :
      (xs : Nodes) (y : Node) → AreNormal rt xs → optimize_list rt xs ≡ value y → IsNormal rt y
  unfolding optimize_list
  optimize_list-IsNormal nil y h e = subst (IsNormal rt) (value-injective _ _ e) (tt, refl)
  optimize_list-IsNormal (cons (list ys) xs) y h e =
      subst (IsNormal rt) (value-injective _ _ e) (h, refl)
  optimize_list-IsNormal (cons (atom (int i)) xs) y h e =
      subst (IsNormal rt) (value-injective _ _ e) (h, refl)
  optimize_list-IsNormal (cons (atom (flt f)) xs) y h e =
      subst (IsNormal rt) (value-injective _ _ e) (h, refl)
  optimize_list-IsNormal (cons (word op) xs) y h e =
      let (folded, f, k) = >>=-eq-value (fold_arithmetic rt op xs) _ e in
      subst (IsNormal rt) (value-injective _ _ k) (choose-IsNormal op xs folded _ h.1 f refl)

  mutual
    unfolding optimize

    IsNormal-optimize : (x y : Node) → optimize rt x ≡ value y → IsNormal rt y
    IsNormal-optimize (atom a) y e = subst (IsNormal rt) (value-injective _ _ e) tt
    IsNormal-optimize (list xs) y e =
        let (ys, h, k) = >>=-eq-value (optimize_all rt xs) _ e in
        optimize_list-IsNormal ys y (AreNormal-optimize_all xs ys h) k

    AreNormal-optimize_all : (xs ys : Nodes) → optimize_all rt xs ≡ value ys → AreNormal rt ys
    AreNormal-optimize_all nil ys e = subst (AreNormal rt) (value-injective _ _ e) tt
    AreNormal-optimize_all (cons x xs) ys e =
        let (z, h, k) = >>=-eq-value (optimize rt x) _ e in
        let (zs, h', k') = >>=-eq-value (optimize_all rt xs) _ k in
        subst (AreNormal rt) (value-injective _ _ k')
          (IsNormal-optimize x z h, AreNormal-optimize_all xs zs h')

  -- If the optimizer gives a tree, then it gives the same tree for that tree.
  pub optimize-optimize : (x y : Node) → optimize rt x ≡ value y → optimize rt y ≡ value y
  optimize-optimize x y e = optimize-IsNormal y (IsNormal-optimize x y e)
