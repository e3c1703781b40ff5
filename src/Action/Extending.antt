-- ===== src/Action/Extending.antt =====
-- Actions that only append parameters, numbered in order.
use mathlib.Core.Path.{subst}
use mathlib.Core.List.{append-nil, append_assoc}
use nlsqlc.Base.{
  ℕ, suc, ◌+◌, List, [], ◌∷◌, ◌++◌, ◌≡◌, refl, sym, ap, arith, length, length-append, All,
  All-append,
}
use nlsqlc.Base.Outcome.{Outcome, value, raised, returned}
use nlsqlc.Sexpr.{Node}
use nlsqlc.Catalog.{Origin, from_user}
use nlsqlc.Action.{Param, Action, lift, proceed, ◌>>=◌, append_param}
use nlsqlc.Action.Closed.{Property, Closed}

-- The positions are `n + 1`, `n + 2`, and so on.
abbrev pub Numbered : ℕ → List Param → Type 0
Numbered n [] = Unit
Numbered n (p ∷ ps) = (p.position ≡ suc n) × Numbered (suc n) ps

pub Numbered-append :
    (n m : ℕ) (xs ys : List Param)
    → m ≡ n + length xs
    → Numbered n xs
    → Numbered m ys
    → Numbered n (xs ++ ys)
Numbered-append n m [] ys e h k = subst (λ t. Numbered t ys) (omega arith) k
Numbered-append n m (x ∷ xs) ys e h k = (h.0, Numbered-append (suc n) m xs ys (omega arith) h.1 k)

-- `qs` is `ps` with new parameters behind it, which satisfy `Q` and carry on its numbers.
pub record Extends (Q : Param → Type 0) (ps qs : List Param) : Type 0 where
  pub new : List Param
  pub split : qs ≡ ps ++ new
  pub every : All Q new
  pub numbered : Numbered (length ps) new

module _ (Q : Param → Type 0) where
  pub Extends-refl : (ps : List Param) → Extends Q ps ps
  Extends-refl ps = record { new = []; split = sym (append-nil ps); every = tt; numbered = tt }

  pub Extends-trans : (ps qs rs : List Param) → Extends Q ps qs → Extends Q qs rs → Extends Q ps rs
  Extends-trans ps qs rs g h = record {
    new = g.new ++ h.new;
    split = cc (g.split, h.split, append_assoc ps g.new h.new);
    every = All-append Q g.new h.new g.every h.every;
    numbered =
        Numbered-append (length ps) (length qs) g.new h.new
          (omega (arith, ap length g.split, length-append ps g.new)) g.numbered h.numbered;
  }

  -- What an outcome says of the parameters that it leaves.
  abbrev pub Extended {ℓ} : {A : Type ℓ} → List Param → Outcome (A × List Param) → Type 0
  Extended ps (value (a, qs)) = Extends Q ps qs
  Extended ps _ = Unit

  abbrev pub Extending : Property
  Extending A m = (ps : List Param) → Extended ps (m ps)

  Extended-proceed :
      (A B : Type 0) (ps qs : List Param) (o : Outcome (A × List Param)) (f : A → Action B)
      → Extends Q ps qs
      → Extended qs o
      → ((a : A) → Extending B (f a))
      → Extended ps (proceed o f)
  Extended-proceed A B ps qs (value (a, rs)) f g h k = after (f a rs) (k a rs)
    where
      after : (o : Outcome (B × List Param)) → Extended rs o → Extended ps o
      after (value (b, ts)) e = Extends-trans ps rs ts (Extends-trans ps qs rs g h) e
      after (raised e) _ = tt
      after (returned s m) _ = tt
  Extended-proceed A B ps qs (raised e) f g h k = tt
  Extended-proceed A B ps qs (returned s m) f g h k = tt

  pub Extending-bind :
      (A B : Type 0) (m : Action A) (f : A → Action B)
      → Extending A m
      → ((a : A) → Extending B (f a))
      → Extending B (m >>= f)
  Extending-bind A B m f h k ps = Extended-proceed A B ps ps (m ps) f (Extends-refl ps) (h ps) k

  pub Extending-lift : (A : Type 0) (m : Outcome A) → Extending A (lift m)
  Extending-lift A (value a) ps = Extends-refl ps
  Extending-lift A (raised e) ps = tt
  Extending-lift A (returned s m) ps = tt

  pub Extending-append_param :
      (name : Node) (type : ℕ) (source : Origin)
      → ((n : ℕ) → Q (record { position = n; name = name; type = type; source = source }))
      → Extending ℕ (append_param name type source)
  unfolding append_param
  Extending-append_param name type source q ps = record {
    new = record { position = length ps + 1; name = name; type = type; source = source } ∷ [];
    split = refl;
    every = (q (length ps + 1), tt);
    numbered = (omega arith, tt);
  }

-- The parameter comes from the query's text.
abbrev pub IsUser : Param → Type 0
IsUser p = p.source ≡ from_user

pub Extending-Closed : (Q : Param → Type 0) → ((p : Param) → IsUser p → Q p) → Closed (Extending Q)
Extending-Closed Q user = record {
  of_lift = λ A m h. Extending-lift Q A m;
  of_bind = Extending-bind Q;
  of_user_param = λ name type. Extending-append_param Q name type from_user (λ n. user _ refl);
}
