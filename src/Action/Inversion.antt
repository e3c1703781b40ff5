-- ===== src/Action/Inversion.antt =====
-- What a run of an action that has a value tells of its parts.
use nlsqlc.Base.{List, ◌≡◌, refl}
use nlsqlc.Base.Outcome.{Outcome, value, raised, returned}
use nlsqlc.Action.{Param, Action, lift, proceed}

pub proceed-eq-value :
    {A B : Type 0} (o : Outcome (A × List Param)) (f : A → Action B) {r : B × List Param}
    → proceed o f ≡ value r
    → (a : A) × (qs : List Param) × (o ≡ value (a, qs)) × (f a qs ≡ value r)
proceed-eq-value (value (a, qs)) f h = (a, qs, refl, h)
proceed-eq-value (raised e) f h = cc
proceed-eq-value (returned s m) f h = cc

pub lift-eq-value :
    {A : Type 0} (m : Outcome A) (ps : List Param) {a : A} {qs : List Param}
    → lift m ps ≡ value (a, qs)
    → (m ≡ value a) × (qs ≡ ps)
lift-eq-value (value a) ps h = (cc, cc)
lift-eq-value (raised e) ps h = (cc, cc)
lift-eq-value (returned s m) ps h = (cc, cc)
