-- ===== src/Api/Combined.antt =====
-- `compile_set` and `compile_cte`: which statuses of the parts they let through.
use nlsqlc.Base.{String, ◌≡◌, refl}
use mathlib.Core.Logic.{◌↔◌}
use nlsqlc.Base.Outcome.{Status}
use nlsqlc.Runtime.{Runtime}
use nlsqlc.Catalog.{Dialect, PySchema, PyPolicy}
use nlsqlc.Engine.{PyCompileResult, compile_ir_engine}
use nlsqlc.Api.{unless_ok, SetOperation, compile_cte, compile_set}

-- The guard `if res.status != NLSQL_OK: return res` lets an OK part through only.
unless_ok-elim :
    (r next : PyCompileResult) (s : Status)
    → r.status ≡ s
    → (unless_ok r s next).status ≡ Status.ok
    → (s ≡ Status.ok) × (next.status ≡ Status.ok)
unfolding unless_ok
unless_ok-elim r next Status.ok e h = (refl, h)
unless_ok-elim r next (Status.failed f) e h = cc

module _ (rt : Runtime) (schema : PySchema) (policy : PyPolicy) (d : Dialect) where
  abbrev engine : String → PyCompileResult
  engine = compile_ir_engine rt schema policy d

  abbrev set_of : String → String → SetOperation → PyCompileResult
  set_of = compile_set rt schema policy d

  abbrev cte_of : String → String → String → PyCompileResult
  cte_of = compile_cte rt schema policy d

  -- The set operation has status OK if and only if both operands have.
  pub compile_set-ok :
      (left right : String) (op : SetOperation)
      → ((set_of left right op).status ≡ Status.ok)
        ↔ (((engine left).status ≡ Status.ok) × ((engine right).status ≡ Status.ok))
  unfolding compile_set
  compile_set-ok left right op = (
    λ h.
        let (a, k) = unless_ok-elim (engine left) _ _ refl h in
        let (b, _) = unless_ok-elim (engine right) _ _ refl k in (a, b),
    λ (a, b). rw (a, b) refl,
  )

  unless_ok-same :
      (r next : PyCompileResult) (s : Status)
      → r.status ≡ s
      → next.status ≡ Status.ok
      → (unless_ok r s next).status ≡ s
  unfolding unless_ok
  unless_ok-same r next Status.ok e h = h
  unless_ok-same r next (Status.failed f) e h = e

  -- The status of a common table expression is that of its inner query, whatever the compilation
  -- of the outer query gives.
  pub compile_cte-status :
      (name cte_ir query_ir : String)
      → (cte_of name cte_ir query_ir).status ≡ (engine cte_ir).status
  unfolding compile_cte
  compile_cte-status name cte_ir query_ir = unless_ok-same (engine cte_ir) _ _ refl refl
