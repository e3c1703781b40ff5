-- ===== src/Server/Batch.antt =====
-- tools/server.py: the answers of JSON-RPC and the requests that they belong to.
use mathlib.Core.Path.{subst}
use nlsqlc.Base.{map, Option, none, some, if-elim, not, ◌≡◌, refl, sym, ap, ◌∙◌, List, [], ◌∷◌}
use nlsqlc.Base.Outcome.{
  Outcome, value, raised, returned, Status, ◌>>=◌, >>=-eq-value, value-injective,
}
use nlsqlc.Catalog.{Dialect}
use nlsqlc.Engine.{PyCompileResult}
use nlsqlc.Gateway.{Gateway}
use nlsqlc.Json
use nlsqlc.Json.{Json, Items, Fields, get, get_or, null, text, truthy, explanation_json}
use nlsqlc.Server.{Environment, compile, explain, diff_json, dialect_of}
use nlsqlc.Server.Rpc.{
  as_fields, lowered, compile_answer, validate_answer, call_compile, call_validate, call_method,
  is_method, handle_rpc_item, handle_batch,
}

-- The `id` of every dictionary of a list, in order
unfoldable pub ids : Items → List Json
ids Json.no_items = []
ids (Json.item (Json.object fs) rest) = get_or "id" null fs ∷ ids rest
ids (Json.item _ rest) = ids rest

-- The `id` of every element of a list, `none` for what is no dictionary
unfoldable pub answer_ids : Items → List (Option Json)
answer_ids Json.no_items = []
answer_ids (Json.item (Json.object fs) rest) = some (get_or "id" null fs) ∷ answer_ids rest
answer_ids (Json.item _ rest) = none ∷ answer_ids rest

-- Whatever is answered is a dictionary with this `id`.
abbrev HasId : Json → Outcome Json → Type 0
HasId id (value a) = (fs : Fields) × (a ≡ Json.object fs) × (get_or "id" null fs ≡ id)
HasId id (raised e) = Unit
HasId id (returned f t) = Unit

HasId-bind {ℓ} :
    {A : Type ℓ} (id : Json) (m : Outcome A) (f : A → Outcome Json)
    → ((a : A) → HasId id (f a))
    → HasId id (m >>= f)
HasId-bind id (value a) f h = h a
HasId-bind id (raised e) f h = tt
HasId-bind id (returned g t) f h = tt

compile_answer-HasId :
    (id : Json) (r : PyCompileResult) (st : Status) → HasId id (value (compile_answer id r st))
unfolding compile_answer get_or get
compile_answer-HasId id r Status.ok = (_, refl, refl)
compile_answer-HasId id r (Status.failed f) = (_, refl, refl)

validate_answer-HasId :
    (id : Json) (r : PyCompileResult) (st : Status) → HasId id (value (validate_answer id r st))
unfolding validate_answer get_or get
validate_answer-HasId id r Status.ok = (_, refl, refl)
validate_answer-HasId id r (Status.failed f) = (_, refl, refl)

module _ (env : Environment) (g : Gateway) where
  call_compile-HasId : (id ir : Json) (d : Dialect) → HasId id (call_compile env g id ir d)
  unfolding call_compile get_or get
  call_compile-HasId id ir d =
      if-elim (HasId id) (not (truthy env.runtime ir)) _ _ (λ e. (_, refl, refl))
        (λ e. HasId-bind id (compile env.runtime g ir d) _ λ r. compile_answer-HasId id r r.status)

  call_validate-HasId : (id ir : Json) (d : Dialect) → HasId id (call_validate env g id ir d)
  unfolding call_validate
  call_validate-HasId id ir d =
      HasId-bind id (compile env.runtime g ir d) _ λ r. validate_answer-HasId id r r.status

  call_method-HasId :
      (id method : Json) (ps : Fields) (d : Dialect) → HasId id (call_method env g id method ps d)
  unfolding call_method get_or get
  call_method-HasId id method ps d =
      if-elim (HasId id) (is_method "compile" method) _ _
        (λ e. call_compile-HasId id (get_or "ir" null ps) d)
        λ e.
          if-elim (HasId id) (is_method "validate" method) _ _
            (λ e. call_validate-HasId id (get_or "ir" null ps) d)
            λ e.
              if-elim (HasId id) (is_method "explain" method) _ _
                (λ e.
                  HasId-bind id (explain env.runtime g (get_or "ir" null ps) d) _
                    λ plan. (_, refl, refl))
                λ e.
                  if-elim (HasId id) (is_method "diff" method) _ _
                    (λ e.
                      HasId-bind id
                        (diff_json env.runtime (get_or "ir1" (text "") ps)
                          (get_or "ir2" (text "") ps))
                        _ λ v. (_, refl, refl))
                    (λ e. (_, refl, refl))

  handle_rpc_item-HasId : (fs : Fields) → HasId (get_or "id" null fs) (handle_rpc_item env g fs)
  unfolding handle_rpc_item
  handle_rpc_item-HasId fs =
      HasId-bind _ (as_fields (get_or "params" (Json.object Json.no_fields) fs)) _ λ ps.
        HasId-bind _ (lowered env.lower (get_or "dialect" (text "postgres") ps)) _
          λ name. call_method-HasId _ (get_or "method" null fs) ps (dialect_of name)

  item-ids :
      (a : Json) (gs : Fields) (more : Items) (fs : Fields) (rest : Items)
      → a ≡ Json.object gs
      → get_or "id" null gs ≡ get_or "id" null fs
      → answer_ids more ≡ map some (ids rest)
      → answer_ids (Json.item a more) ≡ map some (ids (Json.item (Json.object fs) rest))
  unfolding ids answer_ids
  item-ids a gs more fs rest e i h = rw e (rw (i, h) refl)

  -- If a batch is answered, there is one answer, a dictionary, for each dictionary of the batch, in the order of the
  -- batch and with the `id` of its request, whatever the methods are and whether they succeed; what
  -- is no dictionary has no answer.
  pub handle_batch-ids :
      (items answers : Items)
      → handle_batch env g items ≡ value answers
      → answer_ids answers ≡ map some (ids items)
  unfolding handle_batch ids answer_ids
  handle_batch-ids Json.no_items answers h = ap answer_ids (sym (value-injective _ _ h))
  handle_batch-ids (Json.item (Json.object fs) rest) answers h =
      let (a, ha, h1) = >>=-eq-value (handle_rpc_item env g fs) _ h in
      let (more, hm, h2) = >>=-eq-value (handle_batch env g rest) _ h1 in
      let (gs, e, i) = subst (HasId (get_or "id" null fs)) ha (handle_rpc_item-HasId fs) in
      ap answer_ids (sym (value-injective _ _ h2))
      ∙ item-ids a gs more fs rest e i (handle_batch-ids rest more hm)
  handle_batch-ids (Json.item Json.null rest) answers h = handle_batch-ids rest answers h
  handle_batch-ids (Json.item (Json.boolean b) rest) answers h = handle_batch-ids rest answers h
  handle_batch-ids (Json.item (Json.number n) rest) answers h = handle_batch-ids rest answers h
  handle_batch-ids (Json.item (Json.float f) rest) answers h = handle_batch-ids rest answers h
  handle_batch-ids (Json.item (Json.text t) rest) answers h = handle_batch-ids rest answers h
  handle_batch-ids (Json.item (Json.array vs) rest) answers h = handle_batch-ids rest answers h
