-- ===== src/Action.antt =====
-- bindings/python/nlsql.py: the parameters of a query, and a computation that appends to them: the list `params` that
-- `_py_emit_expr` changes in place.
pub mod Closed
pub mod Extending
pub mod Inversion
use nlsqlc.Base.{ℕ, ◌+◌, List, [], ◌∷◌, ◌++◌, length}
use nlsqlc.Base.Outcome.{Outcome, value, raised, returned, Exception}
use nlsqlc.Sexpr.{Node}
use nlsqlc.Catalog.{Origin}

-- The dictionary of one parameter; `runtime_required` is always 1.
pub record Param : Type 0 where
  pub position : ℕ
  pub name : Node
  pub type : ℕ
  pub source : Origin

abbrev pub Action {ℓ} : Type ℓ → Type ℓ
Action A = List Param → Outcome (A × List Param)

abbrev pub pure {ℓ} : {A : Type ℓ} → A → Action A
pure a ps = value (a, ps)

abbrev pub raise {ℓ} : {A : Type ℓ} → Exception → Action A
raise e ps = raised e

abbrev pub lift {ℓ} : {A : Type ℓ} → Outcome A → Action A
lift (value a) ps = value (a, ps)
lift (raised e) ps = raised e
lift (returned s m) ps = returned s m

abbrev pub proceed {ℓ κ} :
    {A : Type ℓ} {B : Type κ} → Outcome (A × List Param) → (A → Action B) → Outcome (B × List Param)
proceed (value (a, ps)) f = f a ps
proceed (raised e) f = raised e
proceed (returned s m) f = returned s m

infixl 5 ◌>>=◌
abbrev pub ◌>>=◌ {ℓ κ} : {A : Type ℓ} {B : Type κ} → Action A → (A → Action B) → Action B
◌>>=◌ m f ps = proceed (m ps) f

-- `params.append(...)`, and the position of the new parameter
unfoldable pub append_param : Node → ℕ → Origin → Action ℕ
append_param name type source ps = value (
  length ps + 1,
  ps ++ (record { position = length ps + 1; name = name; type = type; source = source } ∷ []),
)
