-- ===== src/Action/Closed.antt =====
-- Properties of actions that the building blocks of the emitter keep.
use nlsqlc.Base.{ℕ, String, List, ◌≡◌, refl, ◌≢◌, arith}
use nlsqlc.Base.Outcome.{Outcome, value, raised, returned, Failure, Exception, fuel}
use nlsqlc.Sexpr.{Node}
use nlsqlc.Catalog.{from_user}
use nlsqlc.Action.{Param, Action, pure, raise, lift, proceed, ◌>>=◌, append_param}

abbrev pub Property : Type 1
Property = (A : Type 0) → Action A → Type 0

-- An outcome that did not run out of fuel.
abbrev pub NoFuel : {A : Type 0} → Outcome A → Type 0
NoFuel m = m ≢ raised fuel

pub record Closed (P : Property) : Type 1 where
  pub of_lift : (A : Type 0) (m : Outcome A) → NoFuel m → P A (lift m)
  pub of_bind :
      (A B : Type 0) (m : Action A) (f : A → Action B)
      → P A m
      → ((a : A) → P B (f a))
      → P B (m >>= f)
  pub of_user_param : (name : Node) (type : ℕ) → P ℕ (append_param name type from_user)

-- The action does not run out of fuel.
abbrev pub Terminates : Property
Terminates A m = (ps : List Param) → NoFuel (m ps)

NoFuel-proceed :
    (A B : Type 0) (o : Outcome (A × List Param)) (f : A → Action B)
    → NoFuel o
    → ((a : A) → Terminates B (f a))
    → NoFuel (proceed o f)
NoFuel-proceed A B (value (a, ps)) f h k = k a ps
NoFuel-proceed A B (raised e) f h k = ground arith
NoFuel-proceed A B (returned s m) f h k = cc

NoFuel-lift : (A : Type 0) (m : Outcome A) (ps : List Param) → NoFuel m → NoFuel (lift m ps)
NoFuel-lift A (value a) ps h = cc
NoFuel-lift A (raised e) ps h = ground arith
NoFuel-lift A (returned s m) ps h = cc

pub Terminates-Closed : Closed Terminates
unfolding append_param
Terminates-Closed = record {
  of_lift = λ A m h ps. NoFuel-lift A m ps h;
  of_bind = λ A B m f h k ps. NoFuel-proceed A B (m ps) f (h ps) k;
  of_user_param = λ name type ps e. cc;
}

module _ {P : Property} (closed : Closed P) where
  open closed use {of_lift, of_bind}

  pub of_pure : (A : Type 0) (a : A) → P A (pure a)
  of_pure A a = of_lift A (value a) (λ e. cc)

  pub of_raise : (A : Type 0) (e : Exception) → e ≢ fuel → P A (raise e)
  of_raise A e h = of_lift A (raised e) (λ p. ground arith)

  -- What is lifted is known in the rest.
  pub of_lift_bind :
      (A B : Type 0) (m : Outcome A) (f : A → Action B)
      → NoFuel m
      → ((a : A) → m ≡ value a → P B (f a))
      → P B (lift m >>= f)
  of_lift_bind A B (value a) f h k = k a refl
  of_lift_bind A B (raised e) f h k = of_lift B (raised e) (λ p. ground arith)
  of_lift_bind A B (returned s m) f h k = of_lift B (returned s m) (λ p. cc)

  pub of_return : (A : Type 0) (s : Failure) (m : String) → P A (lift (returned s m))
  of_return A s m = of_lift A (returned s m) (λ p. cc)
