-- ===== src/Optimizer/Constants.antt =====
-- The folds of constants, in a logic that has the laws of the numbers and of equality.
use mathlib.Core.Path.{subst}
use nlsqlc.Base.{
  String, Bool, true, false, ◌||◌, Option, none, some, [], ◌∷◌, ◌≡◌, refl, ap, ◌∙◌, arith,
  Bool-cases, inl, inr, eq_iff, ◌==◌, if◌then◌else◌,
}
use nlsqlc.Base.Text.{contains}
use nlsqlc.Base.Int.{ℤ, pos, negsuc, eq_ℤ, ◌/ℤ◌, int_of_text}
use nlsqlc.Base.Outcome.{
  Outcome, value, raised, value_error, overflow_error, or_raise, >>=-eq-value, value-injective,
}
use nlsqlc.Runtime.{Runtime, FloatInt, whole, not_a_number, infinite}
use nlsqlc.Sexpr.{Atom, str, int, flt}
use nlsqlc.Optimizer.{
  Arith, arith_op, whole_part, or_value_error, to_number, as_float, is_zero, in_floats, has_point,
  combine, except_value_error, fold_atoms, atom_eq,
}
use nlsqlc.Optimizer.Logic.{Logic, IsLawful, IsFloat, IsMixed, IsNonzero, shows_point}

pub eq_ℤ-eq : (i j : ℤ) → eq_ℤ i j ≡ true → i ≡ j
eq_ℤ-eq (pos a) (pos b) h = ground arith
eq_ℤ-eq (negsuc a) (negsuc b) h = ground arith
eq_ℤ-eq (pos a) (negsuc b) h = cc
eq_ℤ-eq (negsuc a) (pos b) h = cc

abbrev name_of : Arith → String
name_of Arith.add = "add"
name_of Arith.sub = "sub"
name_of Arith.mul = "mul"
name_of Arith.div = "div"

arith_op-name : (op : String) (k : Arith) → arith_op op ≡ some k → op ≡ name_of k
unfolding arith_op
arith_op-name op k h = elim (Bool-cases (op == "add")) [
  | inl e ↦ named Arith.add ((eq_iff op "add").0 e) (rw⁻¹ h (rw e refl))
  | inr a ↦ elim (Bool-cases (op == "sub")) [
    | inl e ↦ named Arith.sub ((eq_iff op "sub").0 e) (rw⁻¹ h (rw (a, e) refl))
    | inr b ↦ elim (Bool-cases (op == "mul")) [
      | inl e ↦ named Arith.mul ((eq_iff op "mul").0 e) (rw⁻¹ h (rw (a, b, e) refl))
      | inr c ↦ elim (Bool-cases (op == "div")) [
        | inl e ↦ named Arith.div ((eq_iff op "div").0 e) (rw⁻¹ h (rw (a, b, c, e) refl))
        | inr d ↦ let impossible : none ≡ some k = rw⁻¹ h (rw (a, b, c, d) refl) in cc
      ]
    ]
  ]
]
  where
    named : (x : Arith) → op ≡ name_of x → some x ≡ some k → op ≡ name_of k
    named x e g = let same : x ≡ k = cc in e ∙ ap name_of same

module _ (rt : Runtime) where
  abbrev IsNumber : Atom → Type 0
  IsNumber (str s) = ⊥
  IsNumber _ = Unit

  except_value :
      (o : Outcome (Option Atom)) {c : Atom}
      → except_value_error rt o ≡ value (some c)
      → o ≡ value (some c)
  unfolding except_value_error
  except_value (raised (value_error m)) h = cc
  except_value o h = h

  as_float-IsFloat : (n : Atom) (f : String) → IsNumber n → as_float rt n ≡ value f → IsFloat rt n f
  unfolding as_float
  as_float-IsFloat (flt x) f p h = value-injective _ _ h
  as_float-IsFloat (int i) f p h = go (rt.float_of_int i) h
    where
      go :
          (o : Option String)
          → or_raise o (overflow_error "int too large to convert to float") ≡ value f
          → o ≡ some f
      go none h = cc
      go (some x) h = ap some (value-injective _ _ h)
  as_float-IsFloat (str s) f p h = absurd p

  is_zero-IsNonzero : (n : Atom) → is_zero rt n ≡ false → IsNonzero rt n
  unfolding is_zero
  is_zero-IsNonzero (int i) h = h
  is_zero-IsNonzero (flt f) h = h
  is_zero-IsNonzero (str s) h = tt

  has_point-shows_point : (n : Atom) → has_point rt n ≡ shows_point n
  has_point-shows_point (int i) = refl
  has_point-shows_point (flt f) = refl
  has_point-shows_point (str s) = refl

  -- The branches of `combine` below those of two integers
  abbrev mixed : Arith → Atom → Atom → Outcome (Option Atom)
  mixed Arith.add m n = in_floats rt rt.float_add m n
  mixed Arith.sub m n = in_floats rt rt.float_sub m n
  mixed Arith.mul m n = in_floats rt rt.float_mul m n
  mixed Arith.div m n =
      if is_zero rt n
      then value none
      else if has_point rt m || has_point rt n
      then in_floats rt rt.float_div m n
      else in_floats rt rt.float_floor_div m n

  module _ (S : Logic) (laws : IsLawful rt S) where
    pub equal :
        (a b : Atom) → atom_eq rt a b ≡ true → S.apply "eq" (S.of_atom a ∷ S.of_atom b ∷ []) ≡ S.yes
    unfolding atom_eq
    equal (str s) (str t) h =
        subst (λ r. S.apply "eq" (S.of_atom (str s) ∷ S.of_atom (str r) ∷ []) ≡ S.yes)
          ((eq_iff s t).0 h) (laws.eq_text s)
    equal (int i) (int j) h =
        subst (λ r. S.apply "eq" (S.of_atom (int i) ∷ S.of_atom (int r) ∷ []) ≡ S.yes)
          (eq_ℤ-eq i j h) (laws.eq_int i)
    equal (flt f) (flt g) h = laws.eq_float f g h
    equal (int i) (flt f) h = laws.eq_int_float i f h
    equal (flt f) (int i) h = laws.eq_float_int f i h
    equal (str s) (int j) h = cc
    equal (str s) (flt g) h = cc
    equal (int i) (str t) h = cc
    equal (flt f) (str t) h = cc

    -- An atom has the value of the number that it is read as.
    abbrev IsValueOf : Atom → Atom → Type 0
    IsValueOf a n = IsNumber n × (S.of_atom a ≡ S.of_atom n)

    to_number-value : (a n : Atom) → to_number rt a ≡ value n → IsValueOf a n
    unfolding to_number whole_part
    to_number-value (int i) n h = subst (IsValueOf (int i)) (value-injective _ _ h) (tt, refl)
    to_number-value (str s) n h =
        go (contains "." s) (rt.float_of_text s) (int_of_text rt.digit s) refl refl refl h
      where
        go :
            (b : Bool) (o : Option String) (i : Option ℤ)
            → contains "." s ≡ b
            → rt.float_of_text s ≡ o
            → int_of_text rt.digit s ≡ i
            → (if b
                then or_value_error rt
                    (elim o as (λ _. Option Atom) [ none ↦ none | some f ↦ some (flt f) ])
                else or_value_error rt
                    (elim i as (λ _. Option Atom) [ none ↦ none | some j ↦ some (int j) ]))
              ≡ value n
            → IsValueOf (str s) n
        go true (some f) i e x y h =
            subst (IsValueOf (str s)) (value-injective _ _ h) (tt, laws.text_float s f e x)
        go false o (some i) e x y h =
            subst (IsValueOf (str s)) (value-injective _ _ h) (tt, laws.text_int s i e y)
        go true none i e x y h = cc
        go false o none e x y h = cc
    to_number-value (flt f) n h = go (contains "." f) (rt.int_of_float f) refl refl h
      where
        go :
            (b : Bool) (w : FloatInt)
            → contains "." f ≡ b
            → rt.int_of_float f ≡ w
            → (if b then value (flt f) else whole_part rt w) ≡ value n
            → IsValueOf (flt f) n
        go true w e x h = subst (IsValueOf (flt f)) (value-injective _ _ h) (tt, refl)
        go false (whole i) e x h =
            subst (IsValueOf (flt f)) (value-injective _ _ h) (tt, laws.whole_float f i e x)
        go false not_a_number e x h = cc
        go false infinite e x h = cc

    of_value : {x c : Atom} → value (some x) ≡ value (some c) → S.of_atom x ≡ S.of_atom c
    of_value {x} {c} h = let e : x ≡ c = cc in ap S.of_atom e

    float_case :
        (op : String) (f : String → String → String) (m n c : Atom)
        → IsNumber m
        → IsNumber n
        → ((a b : String)
            → IsFloat rt m a
            → IsFloat rt n b
            → S.apply op (S.of_atom m ∷ S.of_atom n ∷ []) ≡ S.of_atom (flt (f a b)))
        → in_floats rt f m n ≡ value (some c)
        → S.apply op (S.of_atom m ∷ S.of_atom n ∷ []) ≡ S.of_atom c
    float_case op f m n c p q law h =
        let (a, e, k) = >>=-eq-value (as_float rt m) _ h in
        let (b, g, l) = >>=-eq-value (as_float rt n) _ k in
        law a b (as_float-IsFloat m a p e) (as_float-IsFloat n b q g) ∙ of_value l

    -- An operation on two numbers of which one is a float
    mixed_case :
        (op : Arith) (m n c : Atom)
        → IsNumber m
        → IsNumber n
        → IsMixed m n
        → mixed op m n ≡ value (some c)
        → S.apply (name_of op) (S.of_atom m ∷ S.of_atom n ∷ []) ≡ S.of_atom c
    mixed_case Arith.add m n c p q x h =
        float_case "add" rt.float_add m n c p q (λ a b e f. laws.add_floats m n a b x e f) h
    mixed_case Arith.sub m n c p q x h =
        float_case "sub" rt.float_sub m n c p q (λ a b e f. laws.sub_floats m n a b x e f) h
    mixed_case Arith.mul m n c p q x h =
        float_case "mul" rt.float_mul m n c p q (λ a b e f. laws.mul_floats m n a b x e f) h
    mixed_case Arith.div m n c p q x h =
        go (is_zero rt n) (has_point rt m || has_point rt n) refl refl h
      where
        points : (shows_point m || shows_point n) ≡ (has_point rt m || has_point rt n)
        points = rw (has_point-shows_point m, has_point-shows_point n) refl

        chosen :
            (a b : String) {d : Bool}
            → has_point rt m || has_point rt n ≡ d
            → S.of_atom (
                flt (
                  if shows_point m || shows_point n
                  then rt.float_div a b
                  else rt.float_floor_div a b))
              ≡ S.of_atom (flt (if d then rt.float_div a b else rt.float_floor_div a b))
        chosen a b k =
            ap (λ d. S.of_atom (flt (if d then rt.float_div a b else rt.float_floor_div a b)))
              (points ∙ k)

        go :
            (z b : Bool)
            → is_zero rt n ≡ z
            → has_point rt m || has_point rt n ≡ b
            → (if z
                then value none
                else if b
                then in_floats rt rt.float_div m n
                else in_floats rt rt.float_floor_div m n)
              ≡ value (some c)
            → S.apply "div" (S.of_atom m ∷ S.of_atom n ∷ []) ≡ S.of_atom c
        go true b e k h = cc
        go false true e k h =
            float_case "div" rt.float_div m n c p q
              (λ a b u v. laws.div_floats m n a b x (is_zero-IsNonzero n e) u v ∙ chosen a b k) h
        go false false e k h =
            float_case "div" rt.float_floor_div m n c p q
              (λ a b u v. laws.div_floats m n a b x (is_zero-IsNonzero n e) u v ∙ chosen a b k) h

    combine-value :
        (op : Arith) (m n c : Atom)
        → IsNumber m
        → IsNumber n
        → combine rt op m n ≡ value (some c)
        → S.apply (name_of op) (S.of_atom m ∷ S.of_atom n ∷ []) ≡ S.of_atom c
    unfolding combine
    combine-value Arith.add (int i) (int j) c p q h = laws.add_ints i j ∙ of_value h
    combine-value Arith.sub (int i) (int j) c p q h = laws.sub_ints i j ∙ of_value h
    combine-value Arith.mul (int i) (int j) c p q h = laws.mul_ints i j ∙ of_value h
    combine-value Arith.div (int i) (int j) c p q h = go (eq_ℤ j (pos 0)) refl h
      where
        go :
            (b : Bool)
            → eq_ℤ j (pos 0) ≡ b
            → (if b then value none else value (some (int (i /ℤ j)))) ≡ value (some c)
            → S.apply "div" (S.of_atom (int i) ∷ S.of_atom (int j) ∷ []) ≡ S.of_atom c
        go true e h = cc
        go false e h = laws.div_ints i j e ∙ of_value h
    combine-value op (flt f) n c p q h = mixed_case op (flt f) n c p q tt (combined op f n h)
      where
        combined :
            (op : Arith) (f : String) (n : Atom)
            → combine rt op (flt f) n ≡ value (some c)
            → mixed op (flt f) n ≡ value (some c)
        combined Arith.add f n h = h
        combined Arith.sub f n h = h
        combined Arith.mul f n h = h
        combined Arith.div f n h = h
    combine-value Arith.add (int i) (flt g) c p q h =
        mixed_case Arith.add (int i) (flt g) c p q tt h
    combine-value Arith.sub (int i) (flt g) c p q h =
        mixed_case Arith.sub (int i) (flt g) c p q tt h
    combine-value Arith.mul (int i) (flt g) c p q h =
        mixed_case Arith.mul (int i) (flt g) c p q tt h
    combine-value Arith.div (int i) (flt g) c p q h =
        mixed_case Arith.div (int i) (flt g) c p q tt h
    combine-value op (str s) n c p q h = absurd p
    combine-value op (int i) (str s) c p q h = absurd q

    folded :
        (k : Option Arith) (op : String) (a b c : Atom)
        → arith_op op ≡ k
        → fold_atoms rt k a b ≡ value (some c)
        → S.apply op (S.of_atom a ∷ S.of_atom b ∷ []) ≡ S.of_atom c
    unfolding fold_atoms
    folded none op a b c is h = cc
    folded (some k) op a b c is h =
        let (m, e, g) = >>=-eq-value (to_number rt a) _ (except_value _ h) in
        let (n, f, l) = >>=-eq-value (to_number rt b) _ g in
        let (p, v) = to_number-value a m e in
        let (q, w) = to_number-value b n f in
        rw (arith_op-name op k is, v, w) (combine-value k m n c p q l)

    -- What is folded is the value of the operation.
    pub arithmetic :
        (op : String) (a b c : Atom)
        → fold_atoms rt (arith_op op) a b ≡ value (some c)
        → S.apply op (S.of_atom a ∷ S.of_atom b ∷ []) ≡ S.of_atom c
    arithmetic op a b c h = folded (arith_op op) op a b c refl h
