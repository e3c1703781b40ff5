-- ===== src/Handles.antt =====
-- bindings/python/nlsql.py: the handles of the C library that `Context`, `Schema`, `Policy` and
-- `CompileResult` hold: how they are created, used and destroyed. The statuses that the library
-- returns are a script, an argument.
pub mod Opening
pub mod Balance
use nlsqlc.Base.{
  ℕ, zero, suc, String, Bool, true, false, not, ◌||◌, Option, none, some, List, [], ◌∷◌, ◌++◌, map,
  if◌then◌else◌, eqb,
}
use nlsqlc.Base.Dict
use nlsqlc.Base.Dict.{Dict}
use nlsqlc.Base.Outcome.{Outcome, value, raised, returned, runtime_error, zero_division_error}
use nlsqlc.Catalog.{TableKey, ColumnKey, FkDef, PySchema, PyPolicy, table_eq}
use nlsqlc.Catalog.Build.{
  ColumnSpec, TableSpec, TenantSpec, or_default, column_key, build_schema, build_policy,
}

-- `NLSQL_STATUS_NAMES.get(status, "UNKNOWN_ERROR")`
abbrev pub name_of_code : ℕ → String
name_of_code n =
    if eqb n 0
    then "OK"
    else if eqb n 1
    then "INVALID_ARGUMENT"
    else if eqb n 2
    then "OOM"
    else if eqb n 3
    then "LIMIT"
    else if eqb n 4
    then "PARSE"
    else if eqb n 5
    then "SCHEMA"
    else if eqb n 6
    then "POLICY"
    else if eqb n 7
    then "UNSUPPORTED"
    else if eqb n 8
    then "TYPE"
    else if eqb n 9
    then "DIALECT"
    else if eqb n 10
    then "INTERNAL"
    else "UNKNOWN_ERROR"

-- `_check`
unfoldable pub check : ℕ → Outcome (Unit {0})
check status = if eqb status 0 then value tt else raised (runtime_error (name_of_code status))

-- What the calls between creation and use hand to the library
pub data Request : Type 0 where
  add_table : TableKey → ℕ → Request
  add_column : ColumnKey → ℕ → ℕ → Request
  add_foreign_key : FkDef → Request
  allow_table : TableKey → Request
  deny_column : ColumnKey → Request
  require_tenant_typed : TableKey → String → ℕ → Request
  require_tenant : TableKey → String → Request
  set_limits : ℕ → ℕ → Request
  set_runtime_tenant : String → ℕ → Request

-- The library: the statuses that it will return, what it was sent, the handles that are alive, the
-- number of the next one, and whether it was called with a handle that is not alive; and the handles
-- of objects that an exception on its way out keeps from being deleted.
pub record World : Type 0 where
  pub script : List ℕ
  pub sent : List Request
  pub live : List ℕ
  pub next : ℕ
  pub misused : Bool
  pub pending : List ℕ

-- behind the script every call succeeds
abbrev pub first_status : List ℕ → ℕ
first_status [] = 0
first_status (n ∷ ns) = n

abbrev pub later_statuses : List ℕ → List ℕ
later_statuses [] = []
later_statuses (n ∷ ns) = ns

unfoldable pub alive : ℕ → List ℕ → Bool
alive h [] = false
alive h (x ∷ xs) = eqb h x || alive h xs

unfoldable pub without : ℕ → List ℕ → List ℕ
without h [] = []
without h (x ∷ xs) = let rest = without h xs in if eqb h x then xs else x ∷ rest

unfoldable pub use_handle : ℕ → World → World
use_handle h w = record w { misused = w.misused || not (alive h w.live) }

unfoldable pub use_all : List ℕ → World → World
unfolding use_handle
use_all [] w = w
use_all (h ∷ hs) w = use_all hs (use_handle h w)

abbrev pub Native {ℓ} : Type ℓ → Type ℓ
Native A = World → Outcome A × World

abbrev pub next_status : World → World
next_status w = record w { script = later_statuses w.script }

-- a `..._destroy` function
unfoldable pub destroy : ℕ → World → World
destroy h w = let v = use_handle h w in record v { live = without h v.live }

abbrev pub destroy_option : Option ℕ → World → World
destroy_option none w = w
destroy_option (some h) w = destroy h w

-- a new handle, if the status is OK; the pointer stays NULL if it is not
abbrev pub created : Outcome (Unit {0}) → World → Outcome ℕ × World
created (value u) w = (value w.next, record w { live = w.next ∷ w.live; next = suc w.next })
created (raised e) w = (raised e, w)
created (returned f m) w = (returned f m, w)

unfoldable pub create : List ℕ → Native ℕ
unfolding check use_all
create parents w = created (check (first_status w.script)) (next_status (use_all parents w))

-- `_check` of each call, up to the first that fails
unfoldable pub send : ℕ → List Request → Native (Unit {0})
unfolding check use_handle
send h [] w = (value tt, w)
send h (r ∷ rs) w =
    let v = next_status (use_handle h (record w { sent = w.sent ++ (r ∷ []) })) in
    elim (check (first_status w.script)) [
      | value u ↦ send h rs v
      | raised e ↦ (raised e, v)
      | returned f m ↦ (returned f m, v)
    ]

abbrev column_requests : TableKey → List ColumnSpec → List Request
column_requests k [] = []
column_requests k (c ∷ cs) =
    add_column (column_key k c.name) c.type (or_default c.flags 0) ∷ column_requests k cs

unfoldable pub schema_requests : Dict TableKey ℕ → List TableSpec → List FkDef → List Request
schema_requests table_flags [] foreign_keys = map add_foreign_key foreign_keys
schema_requests table_flags (t ∷ ts) foreign_keys =
    add_table t.key (or_default (Dict.lookup table_eq t.key table_flags) 0)
    ∷ (column_requests t.key t.columns ++ schema_requests table_flags ts foreign_keys)

abbrev tenant_request : TenantSpec → Request
tenant_request t = elim t.type [
  | some type ↦ require_tenant_typed t.key t.column type
  | none ↦ require_tenant t.key t.column
]

abbrev limit_requests : Option (ℕ × ℕ) → List Request
limit_requests none = []
limit_requests (some (joins, limit)) = set_limits joins limit ∷ []

abbrev runtime_requests : Option (String × ℕ) → List Request
runtime_requests none = []
runtime_requests (some (name, type)) = set_runtime_tenant name type ∷ []

unfoldable pub policy_requests :
    List TableKey
    → List ColumnKey
    → List TenantSpec
    → Option (ℕ × ℕ)
    → Option (String × ℕ)
    → List Request
policy_requests allow deny tenant limits runtime_tenant =
    map allow_table allow
    ++ (map deny_column deny
        ++ (map tenant_request tenant
            ++ (limit_requests limits ++ runtime_requests runtime_tenant)))

-- The handles of a `Schema`: `_builder` and `_ptr`
pub record SchemaHandles : Type 0 where
  pub builder : Option ℕ
  pub ptr : Option ℕ

-- `Schema.close`
unfoldable pub close_schema : SchemaHandles → World → World
close_schema s w = destroy_option s.ptr (destroy_option s.builder w)

-- An object whose `__init__` raises: the traceback of the exception keeps it alive, behind the
-- `__exit__` of the blocks around it.
abbrev pub keep : ℕ → World → World
keep h w = record w { pending = h ∷ w.pending }

unfoldable pub destroy_all : List ℕ → World → World
unfolding destroy
destroy_all [] w = w
destroy_all (h ∷ hs) w = destroy_all hs (destroy h w)

-- The exception is dropped, and with it the objects that it keeps: `__del__` calls `close`.
abbrev pub drop_exception : World → World
drop_exception w = destroy_all w.pending (record w { pending = [] })

-- What follows the creation of the builder.
abbrev pub finalized : ℕ → Outcome ℕ × World → Outcome SchemaHandles × World
finalized b (value p, w) = (value (record { builder = some b; ptr = some p }), w)
finalized b (raised e, w) = (raised e, keep b w)
finalized b (returned f m, w) = (returned f m, w)

abbrev pub filled : ℕ → Outcome (Unit {0}) × World → Outcome SchemaHandles × World
filled b (value u, w) = finalized b (create (b ∷ []) w)
filled b (raised e, w) = (raised e, keep b w)
filled b (returned f m, w) = (returned f m, w)

abbrev pub built : List Request → Outcome ℕ × World → Outcome SchemaHandles × World
built requests (value b, w) = filled b (send b requests w)
built requests (raised e, w) = (raised e, w)
built requests (returned f m, w) = (returned f m, w)

-- `Schema.__init__`, with the pointer of the context
unfoldable pub open_schema : Option ℕ → List Request → Native SchemaHandles
unfolding create send close_schema
open_schema none requests w = (value (record { builder = none; ptr = none }), w)
open_schema (some c) requests w = built requests (create (c ∷ []) w)

abbrev pub ruled : ℕ → Outcome (Unit {0}) × World → Outcome (Option ℕ) × World
ruled p (value u, w) = (value (some p), w)
ruled p (raised e, w) = (raised e, keep p w)
ruled p (returned f m, w) = (returned f m, w)

abbrev pub allowed : List Request → Outcome ℕ × World → Outcome (Option ℕ) × World
allowed requests (value p, w) = ruled p (send p requests w)
allowed requests (raised e, w) = (raised e, w)
allowed requests (returned f m, w) = (returned f m, w)

-- `Policy.__init__`; its `close` destroys the pointer
unfoldable pub open_policy : Option ℕ → List Request → Native (Option ℕ)
unfolding create send destroy
open_policy none requests w = (value none, w)
open_policy (some c) requests w = allowed requests (create (c ∷ []) w)

abbrev pub opened : Outcome ℕ × World → Outcome (Option ℕ) × World
opened (value p, w) = (value (some p), w)
opened (raised e, w) = (raised e, w)
opened (returned f m, w) = (returned f m, w)

-- `Context.__init__`, with whether `_native_lib` is there
unfoldable pub open_context : Bool → Native (Option ℕ)
unfolding create
open_context loaded w = if loaded then opened (create [] w) else (value none, w)

-- `with … as x: …`: the object is closed however the block ends.
abbrev pub with_open {ℓ κ} :
    {A : Type ℓ} {B : Type κ}
    → Outcome A × World
    → (A → World → World)
    → (A → Native B)
    → Outcome B × World
with_open (value a, w) close body = let (o, v) = body a w in (o, close a v)
with_open (raised e, w) close body = (raised e, w)
with_open (returned f m, w) close body = (returned f m, w)

module _ (gives_result : ℕ → Bool) where
  -- `compile_ir` through the library, and `close` of its result; without the library, or without one
  -- of the pointers, the Python engine runs
  unfoldable pub compile_native : Option ℕ → Option ℕ → Option ℕ → World → World
  unfolding use_all destroy
  compile_native (some c) (some s) (some p) w =
      let v = next_status (use_all (c ∷ s ∷ p ∷ []) w) in
      if gives_result (first_status w.script)
      then destroy v.next (record v { live = v.next ∷ v.live; next = suc v.next })
      else v
  compile_native _ _ _ w = w

  unfoldable pub compile_all : ℕ → Option ℕ → SchemaHandles → Option ℕ → World → World
  unfolding compile_native
  compile_all zero c s p w = w
  compile_all (suc n) c s p w = compile_all n c s p (compile_native c s.ptr p w)

  -- `elapsed / iterations`
  abbrev figures : ℕ → Outcome (Unit {0})
  figures n = if eqb n 0 then raised (zero_division_error "float division by zero") else value tt

  -- The `with` blocks of `benchmark`, with the tables and the rules as requests
  unfoldable pub run_blocks : Bool → List Request → List Request → ℕ → Native (Unit {0})
  unfolding open_context open_schema open_policy close_schema destroy compile_all
  run_blocks loaded schema policy iterations w =
      with_open (open_context loaded w) destroy_option (λ c v.
        with_open (open_schema c schema v) close_schema (λ s u.
          with_open (open_policy c policy u) destroy_option
            (λ p t. (figures iterations, compile_all iterations c s p t))))

  abbrev benchmark_tables : List TableSpec
  benchmark_tables =
      record {
        key = record { schema = "public"; table = "orders" };
        columns =
            record { name = "id"; type = 3; flags = some 1 }
            ∷ record { name = "tenant_id"; type = 9; flags = some 4 }
            ∷ record { name = "total"; type = 5; flags = some 0 }
            ∷ [];
      }
      ∷ []

  abbrev benchmark_rules : List TenantSpec
  benchmark_rules =
      record {
        key = record { schema = "public"; table = "orders" };
        column = "tenant_id";
        type = some 9;
      }
      ∷ []

  -- `benchmark`, but for the times and the figures made of them
  unfoldable pub benchmark : Bool → ℕ → Native (Unit {0})
  unfolding schema_requests policy_requests run_blocks
  benchmark loaded iterations =
      run_blocks loaded (schema_requests [] benchmark_tables [])
        (policy_requests (record { schema = "public"; table = "orders" } ∷ []) [] benchmark_rules
          none none)
        iterations
