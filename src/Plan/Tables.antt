-- ===== src/Plan/Tables.antt =====
-- The tables of a plan: each is declared and allowed, and with distinct aliases each is a source.
use mathlib.Core.Path.{subst}
use mathlib.Core.List.{append-nil, append_assoc}
use nlsqlc.Base.{
  String, true, false, Option, none, some, List, [], ◌∷◌, ◌++◌, map, ◌≡◌, refl, sym, ap, ◌∙◌, arith,
  All, Bool-cases, inl, inr,
}
use nlsqlc.Base.Dict
use nlsqlc.Base.Outcome.{Outcome, value, >>=-eq-value, value-injective}
use nlsqlc.Runtime.{Runtime}
use nlsqlc.Sexpr.{Atom, int, flt, Node, atom, list, word}
use nlsqlc.Optimizer.{atom_eq}
use nlsqlc.Catalog.{TableKey, PySchema, PyPolicy, has_table, is_allowed}
use nlsqlc.Emit.{Sources, hashable}
use nlsqlc.Plan.{
  Clauses, Plan, Join, public_table, check_table, add_source, resolve_join, resolve_joins,
  resolve_from, missing, resolve_clause, require_select, resolve,
}

-- The key is not among the sources.
abbrev pub Absent : Runtime → Atom → Sources → Type 0
Absent rt a [] = Unit
Absent rt a ((b, t) ∷ rest) = (atom_eq rt a b ≡ false) × Absent rt a rest

abbrev pub source_of : Join → Atom × TableKey
source_of j = (j.alias, public_table j.table)

-- Each join brings an alias that is not there yet.
abbrev pub DistinctAliases : Runtime → Sources → List Join → Type 0
DistinctAliases rt sources [] = Unit
DistinctAliases rt sources (j ∷ js) =
    Absent rt j.alias sources × DistinctAliases rt (sources ++ source_of j ∷ []) js

insert-Absent :
    (rt : Runtime) (a : Atom) (t : TableKey) (sources : Sources)
    → Absent rt a sources
    → Dict.insert (atom_eq rt) a t sources ≡ sources ++ (a, t) ∷ []
unfolding Dict.insert
insert-Absent rt a t [] h = refl
insert-Absent rt a t ((b, u) ∷ rest) h =
    rw h.0 (ap (λ l. (b, u) ∷ l) (insert-Absent rt a t rest h.1))

module _ (rt : Runtime) (schema : PySchema) (policy : PyPolicy) where
  -- The table is declared in the schema and allowed by the policy.
  abbrev pub IsPermitted : TableKey → Type 0
  IsPermitted t = (has_table schema t ≡ true) × (is_allowed policy t ≡ true)

  abbrev pub SourcePermitted : Atom × TableKey → Type 0
  SourcePermitted s = IsPermitted s.1

  abbrev pub JoinPermitted : Join → Type 0
  JoinPermitted j = IsPermitted (public_table j.table)

  check_table-IsPermitted :
      (x : Node) (error t : String)
      → check_table rt schema policy x error ≡ value t
      → IsPermitted (public_table t)
  unfolding check_table
  check_table-IsPermitted (word s) error t h = ground arith
  check_table-IsPermitted (atom (int i)) error t h = cc
  check_table-IsPermitted (atom (flt f)) error t h = cc
  check_table-IsPermitted (list xs) error t h = cc

  insert-Permitted :
      (a : Atom) (t : TableKey) (sources : Sources)
      → IsPermitted t
      → All SourcePermitted sources
      → All SourcePermitted (Dict.insert (atom_eq rt) a t sources)
  unfolding Dict.insert
  insert-Permitted a t [] p h = (p, tt)
  insert-Permitted a t ((b, u) ∷ rest) p h = elim (Bool-cases (atom_eq rt a b)) [
    | inl e ↦ rw e (p, h.1)
    | inr e ↦ rw e (h.0, insert-Permitted a t rest p h.1)
  ]

  resolve_join-lem :
      (args : List Node) (sources : Sources) {r : Join × Sources}
      → resolve_join rt schema policy args sources ≡ value r
      → IsPermitted (public_table r.0.table)
        × (r.1 ≡ add_source rt schema policy r.0.alias r.0.table sources)
  unfolding resolve_join
  resolve_join-lem (kind ∷ table ∷ alias ∷ on ∷ more) sources {r} h =
      let (t, ht, k1) = >>=-eq-value (check_table rt schema policy table _) _ h in
      let (a, ha, k2) = >>=-eq-value (hashable alias) _ k1 in
      let (k, hk, k3) = >>=-eq-value (hashable kind) _ k2 in
      let same_table : t ≡ r.0.table = cc in
      let same_alias : a ≡ r.0.alias = cc in
      (
        subst (λ n. IsPermitted (public_table n)) same_table (check_table-IsPermitted table _ t ht),
        cc (k3, same_table, same_alias),
      )
  resolve_join-lem [] sources h = cc
  resolve_join-lem (_ ∷ []) sources h = cc
  resolve_join-lem (_ ∷ _ ∷ []) sources h = cc
  resolve_join-lem (_ ∷ _ ∷ _ ∷ []) sources h = cc

  -- What the joins leave: permitted sources, which are the joined tables if the aliases differ.
  abbrev JoinsResolved : Sources → List Join × Sources → Type 0
  JoinsResolved sources out =
      All SourcePermitted out.1
      × All JoinPermitted out.0
      × (DistinctAliases rt sources out.0 → out.1 ≡ sources ++ map source_of out.0)

  resolve_joins-lem :
      (js : List (List Node)) (sources : Sources) {out : List Join × Sources}
      → resolve_joins rt schema policy js sources ≡ value out
      → All SourcePermitted sources
      → JoinsResolved sources out
  unfolding resolve_joins
  resolve_joins-lem [] sources {out} h p =
      subst (JoinsResolved sources) (value-injective _ _ h) (p, tt, λ d. sym (append-nil sources))
  resolve_joins-lem (j ∷ js) sources {out} h p =
      let (one, h1, k1) = >>=-eq-value (resolve_join rt schema policy j sources) _ h in
      let (rest, h2, k2) = >>=-eq-value (resolve_joins rt schema policy js one.1) _ k1 in
      let (permitted, added) = resolve_join-lem j sources h1 in
      let (all, joins, sources_are) = resolve_joins-lem js one.1 h2 (
        subst (All SourcePermitted) (sym added)
          (insert-Permitted one.0.alias _ sources permitted p)) in
      subst (JoinsResolved sources) (value-injective _ _ k2) (
        all,
        (permitted, joins),
        λ d.
            let first : one.1 ≡ sources ++ source_of one.0 ∷ [] =
              added ∙ insert-Absent rt one.0.alias _ sources d.0 in
            cc (
              first,
              sources_are (subst (λ s. DistinctAliases rt s rest.0) (sym first) d.1),
              append_assoc sources (source_of one.0 ∷ []) (map source_of rest.0),
            ),
      )

  abbrev pub from_source : Plan → Atom × TableKey
  from_source plan = (plan.alias, public_table plan.table)

  -- The tables of a plan are permitted; with distinct aliases they are its sources.
  abbrev pub PlanResolved : Plan → Type 0
  PlanResolved plan =
      All SourcePermitted plan.sources
      × All SourcePermitted (from_source plan ∷ map source_of plan.joins)
      × (DistinctAliases rt (from_source plan ∷ []) plan.joins
          → plan.sources ≡ from_source plan ∷ map source_of plan.joins)

  All-map-source_of :
      (js : List Join) → All JoinPermitted js → All SourcePermitted (map source_of js)
  All-map-source_of [] h = tt
  All-map-source_of (j ∷ js) h = (h.0, All-map-source_of js h.1)

  resolve_from-lem :
      (table alias : Node) (js : List (List Node)) {plan : Plan}
      → resolve_from rt schema policy table alias js ≡ value plan
      → PlanResolved plan
  unfolding resolve_from
  resolve_from-lem table alias js h =
      let (a, ha, k1) = >>=-eq-value (hashable alias) _ h in
      let (t, ht, k2) = >>=-eq-value (check_table rt schema policy table _) _ k1 in
      let (rest, hr, k3) = >>=-eq-value (resolve_joins rt schema policy js _) _ k2 in
      let from = check_table-IsPermitted table _ t ht in
      let (all, joins, sources_are) = resolve_joins-lem js _ hr (from, tt) in
      subst PlanResolved (value-injective _ _ k3)
        (all, (from, All-map-source_of rest.0 joins), sources_are)

  resolve_clause-lem :
      (from : Option (List Node)) (js : List (List Node)) {plan : Plan}
      → resolve_clause rt schema policy from js ≡ value plan
      → PlanResolved plan
  unfolding resolve_clause missing
  resolve_clause-lem none js h = cc
  resolve_clause-lem (some []) js h = cc
  resolve_clause-lem (some (t ∷ [])) js h = resolve_from-lem t t js h
  resolve_clause-lem (some (t ∷ a ∷ more)) js h = resolve_from-lem t a js h

  require_select-value :
      (select : Option (List Node)) (o : Outcome Plan) {plan : Plan}
      → require_select rt schema policy select o ≡ value plan
      → o ≡ value plan
  unfolding require_select missing
  require_select-value none o h = cc
  require_select-value (some xs) o h = h

  -- What the stage gives is resolved.
  pub resolve-PlanResolved :
      (c : Clauses) {plan : Plan} → resolve rt schema policy c ≡ value plan → PlanResolved plan
  unfolding resolve
  resolve-PlanResolved c h = resolve_clause-lem c.from c.joins (require_select-value c.select _ h)

  -- If no join repeats an alias, then the sources of a plan are the "from" table and the joined
  -- tables, in order.
  pub resolve-sources :
      (c : Clauses) (plan : Plan)
      → resolve rt schema policy c ≡ value plan
      → DistinctAliases rt (from_source plan ∷ []) plan.joins
      → plan.sources ≡ from_source plan ∷ map source_of plan.joins
  resolve-sources c plan h = (resolve-PlanResolved c h).2
