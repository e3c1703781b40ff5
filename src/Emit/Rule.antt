-- ===== src/Emit/Rule.antt =====
-- A property of actions that its building blocks keep holds of every expression that is emitted.
use mathlib.Core.Path.{subst}
use nlsqlc.Base.{
  ℕ, zero, suc, ◌≤◌, String, List, [], ◌∷◌, ◌≡◌, ◌≢◌, arith, Bool-cases, All, inl, inr,
}
use nlsqlc.Base.Outcome.{value, raised, Exception, value-injective}
use nlsqlc.Sexpr.{str, int, flt, Node, Nodes, atom, list, nil, cons, word, is_word, to_list}
use nlsqlc.Action.{Param, Action}
use nlsqlc.Action.Closed.{
  Property, Closed, NoFuel, Terminates-Closed, of_pure, of_raise, of_lift_bind,
}
use nlsqlc.Forms.{
  Form, column_ref, param_ref, output_ref, unary, binary, variadic, membership, between, now,
  date_trunc, extract, case_when, window, form,
}
use nlsqlc.Emit.{
  Env, hashable, item, characters, get_item, rest_of, get_rest, emit_column, emit_param, reject,
  emit_each, emit_branch, branch_of, emit_branches, emit_window, emit_form, emit_list, emit_fuel,
  emit_expr, height, heights,
}

-- Each node has at most this height.
abbrev Below : ℕ → List Node → Type 0
Below n xs = All (λ x. height x ≤ n) xs

heights-Below : (n : ℕ) (xs : Nodes) → heights xs ≤ n → Below n (to_list xs)
unfolding height
heights-Below n nil h = tt
heights-Below n (cons x xs) h = (omega arith, heights-Below n xs (omega arith))

NoFuel-emit_column : (env : Env) (a c : Node) → NoFuel (emit_column env a c)
unfolding emit_column
NoFuel-emit_column env a c = ground arith

NoFuel-hashable : (x : Node) → NoFuel (hashable x)
unfolding hashable
NoFuel-hashable x = ground arith

NoFuel-item : (xs : List Node) (i : ℕ) (e : Exception) → e ≢ Exception.fuel → NoFuel (item xs i e)
unfolding item
NoFuel-item [] i e h = ground arith
NoFuel-item (x ∷ xs) zero e h = cc
NoFuel-item (x ∷ xs) (suc i) e h = NoFuel-item xs i e h

NoFuel-get_item : (x : Node) (i : ℕ) → NoFuel (get_item x i)
unfolding get_item
NoFuel-get_item (list xs) i = NoFuel-item _ i _ (cc)
NoFuel-get_item (atom (str s)) i = NoFuel-item _ i _ (cc)
NoFuel-get_item (atom (int n)) i = cc
NoFuel-get_item (atom (flt f)) i = cc

NoFuel-get_rest : (x : Node) → NoFuel (get_rest x)
unfolding get_rest
NoFuel-get_rest x = ground arith

Below-characters : (n : ℕ) (s : String) → 1 ≤ n → Below n (characters s)
unfolding height
Below-characters n String.[] h = tt
Below-characters n (String.◌∷◌ c s) h = (h, Below-characters n s h)

Below-rest : (n : ℕ) (xs : List Node) → Below n xs → Below n (rest_of xs)
Below-rest n [] h = tt
Below-rest n (x ∷ xs) h = h.1

item-Below :
    (n : ℕ) (xs : List Node) (i : ℕ) (e : Exception) (x : Node)
    → Below n xs
    → item xs i e ≡ value x
    → height x ≤ n
unfolding item
item-Below n [] i e x h p = cc
item-Below n (y ∷ ys) zero e x h p = ground (arith, h.0)
item-Below n (y ∷ ys) (suc i) e x h p = item-Below n ys i e x h.1 p

get_item-le :
    (n : ℕ) (x : Node) (i : ℕ) (y : Node) → height x ≤ n → get_item x i ≡ value y → height y ≤ n
unfolding get_item height
get_item-le n (list xs) i y h p = item-Below n _ i _ y (heights-Below n xs (omega arith)) p
get_item-le n (atom (str s)) i y h p = item-Below n _ i _ y (Below-characters n s h) p
get_item-le n (atom (int k)) i y h p = cc
get_item-le n (atom (flt f)) i y h p = cc

get_rest-Below :
    (n : ℕ) (x : Node) (ys : List Node) → height x ≤ n → get_rest x ≡ value ys → Below n ys
unfolding get_rest height
get_rest-Below n (list xs) ys h p =
    subst (Below n) (value-injective _ _ p) (Below-rest n _ (heights-Below n xs (omega arith)))
get_rest-Below n (atom (str s)) ys h p =
    subst (Below n) (value-injective _ _ p) (Below-rest n _ (Below-characters n s h))
get_rest-Below n (atom (int k)) ys h p = cc
get_rest-Below n (atom (flt f)) ys h p = cc

module _ {P : Property} (closed : Closed P) (env : Env) (n : ℕ) (go : Node → Action String)
    (ih : (x : Node) → height x ≤ n → P String (go x)) where
  open closed use {of_lift, of_bind, of_user_param}

  each : (xs : List Node) → Below n xs → P (List String) (emit_each env go xs)
  unfolding emit_each
  each [] h = of_pure closed _ []
  each (x ∷ xs) h =
      of_bind _ _ _ _ (ih x h.0) λ s. of_bind _ _ _ _ (each xs h.1) λ rest. of_pure closed _ _

  branch : (xs : List Node) → Below n xs → P (List String) (emit_branch env go xs)
  unfolding emit_branch
  branch [] h = of_pure closed _ []
  branch (t ∷ []) h = of_pure closed _ []
  branch (t ∷ x ∷ []) h = elim (Bool-cases (is_word "else" t)) [
    | inl e ↦ rw e (of_bind _ _ _ _ (ih x h.1.0) λ v. of_pure closed _ _)
    | inr e ↦ rw e (of_pure closed _ [])
  ]
  branch (t ∷ c ∷ x ∷ []) h = elim (Bool-cases (is_word "when" t)) [
    | inl e ↦
        rw e
          (of_bind _ _ _ _ (ih c h.1.0) λ w. of_bind _ _ _ _ (ih x h.1.1.0) λ v. of_pure closed _ _)
    | inr e ↦ rw e (of_pure closed _ [])
  ]
  branch (t ∷ c ∷ x ∷ y ∷ more) h = of_pure closed _ []

  branches : (xs : List Node) → Below n xs → P (List String) (emit_branches env go xs)
  unfolding emit_branches height
  branches [] h = of_pure closed _ []
  branches (b ∷ bs) h =
      of_bind _ _ _ _ (branch (branch_of env go b) (inside b h.0))
        λ s. of_bind _ _ _ _ (branches bs h.1) λ rest. of_pure closed _ _
    where
      inside : (b : Node) → height b ≤ n → Below n (branch_of env go b)
      inside (atom a) h = tt
      inside (list xs) h = heights-Below n xs (omega arith)

  windowed :
      (x p o : Node)
      → height x ≤ n
      → height p ≤ n
      → height o ≤ n
      → P String (emit_window env go x p o)
  unfolding emit_window
  windowed x p o hx hp ho = of_bind _ _ _ _ (ih x hx) λ sub.
      of_lift_bind closed _ _ _ _ (NoFuel-get_rest p) λ keys kp.
        of_bind _ _ _ _ (each keys (get_rest-Below n p keys hp kp)) λ parts.
          of_lift_bind closed _ _ _ _ (NoFuel-get_item o 1) λ target tp.
            of_bind _ _ _ _ (ih target (get_item-le n o 1 target ho tp)) λ order.
              of_lift_bind closed _ _ _ _ (NoFuel-get_item o 2) λ dir dp. of_pure closed _ _

  params : (a t : Node) → P String (emit_param env a t)
  unfolding emit_param
  params a t =
      of_lift_bind closed _ _ _ _ (NoFuel-hashable t)
        λ k e. of_bind _ _ _ _ (of_user_param a _) λ pos. of_pure closed _ _

  rejected : (A : Type 0) (op : Node) → P A (reject env op)
  unfolding reject
  rejected A op = of_raise closed A _ (cc)

  formed :
      (f : Form) (op : Node) (xs : List Node) → Below n xs → P String (emit_form env go f op xs)
  unfolding emit_form
  formed column_ref op (a ∷ c ∷ []) h =
      of_lift String (emit_column env a c) (NoFuel-emit_column env a c)
  formed param_ref op (a ∷ t ∷ []) h = params a t
  formed output_ref op (x ∷ []) h = of_pure closed _ _
  formed (unary f) op (x ∷ []) h = of_bind _ _ _ _ (ih x h.0) λ s. of_pure closed _ _
  formed (binary f) op (x ∷ y ∷ []) h =
      of_bind _ _ _ _ (ih x h.0) λ l. of_bind _ _ _ _ (ih y h.1.0) λ r. of_pure closed _ _
  formed (variadic f) op (x ∷ xs) h = of_bind _ _ _ _ (each (x ∷ xs) h) λ parts. of_pure closed _ _
  formed membership op (x ∷ y ∷ ys) h =
      of_bind _ _ _ _ (ih x h.0)
        λ target. of_bind _ _ _ _ (each (y ∷ ys) h.1) λ parts. of_pure closed _ _
  formed between op (x ∷ y ∷ z ∷ []) h = of_bind _ _ _ _ (ih x h.0) λ target.
      of_bind _ _ _ _ (ih y h.1.0) λ low. of_bind _ _ _ _ (ih z h.1.1.0) λ high. of_pure closed _ _
  formed now op xs h = of_pure closed _ _
  formed date_trunc op (p ∷ x ∷ []) h = of_bind _ _ _ _ (ih x h.1.0) λ s. of_pure closed _ _
  formed extract op (p ∷ x ∷ []) h = of_bind _ _ _ _ (ih x h.1.0) λ s. of_pure closed _ _
  formed case_when op (b ∷ bs) h = of_bind _ _ _ _ (branches (b ∷ bs) h) λ parts. of_pure closed _ _
  formed window op (x ∷ p ∷ o ∷ more) h = windowed x p o h.0 h.1.0 h.1.1.0
  formed _ op xs h = rejected String op

  listed : (op : Node) (xs : List Node) → Below n xs → P String (emit_list env go op xs)
  unfolding emit_list
  listed (word op) xs h = formed (form env.dialect op) (word op) xs h
  listed (atom (int i)) xs h = rejected String _
  listed (atom (flt f)) xs h = rejected String _
  listed (list ys) xs h = rejected String _

module _ {P : Property} (closed : Closed P) (env : Env) where
  fueled : (n : ℕ) (x : Node) → height x ≤ n → P String (emit_fuel env n x)
  unfolding emit_fuel height
  fueled zero (atom a) h = absurd (omega arith)
  fueled zero (list xs) h = absurd (omega arith)
  fueled (suc n) (word s) h = of_pure closed _ _
  fueled (suc n) (atom (int i)) h = of_raise closed _ _ (cc)
  fueled (suc n) (atom (flt f)) h = of_raise closed _ _ (cc)
  fueled (suc n) (list nil) h = of_raise closed _ _ (cc)
  fueled (suc n) (list (cons op args)) h =
      listed closed env n (emit_fuel env n) (fueled n) op (to_list args)
        (heights-Below n args (omega arith))

  -- Every expression that `emit_expr` reads has the property.
  pub emit_expr-rule : (x : Node) → P String (emit_expr env x)
  unfolding emit_expr
  emit_expr-rule x = fueled (height x) x (omega arith)

-- `_py_emit_expr` ends: its fuel, the height of the node, is never used up.
pub emit_expr-NoFuel :
    (env : Env) (x : Node) (ps : List Param) → emit_expr env x ps ≢ raised Exception.fuel
emit_expr-NoFuel env x ps = emit_expr-rule Terminates-Closed env x ps
