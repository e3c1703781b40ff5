-- ===== src/Catalog/Build/Tables.antt =====
-- The columns of a schema that `Schema` builds belong to its tables.
use nlsqlc.Base.{
  ℕ, Bool, true, false, ◌||◌, List, [], ◌∷◌, ◌≡◌, refl, sym, ap, ◌∙◌, All, eq_iff, Bool-cases, inl,
  inr,
}
use nlsqlc.Base.Dict
use nlsqlc.Base.Dict.{Dict}
use nlsqlc.Catalog.{
  TableKey, ColumnKey, TableDef, ColumnDef, FkDef, PySchema, table_eq, column_eq, empty_schema,
}
use nlsqlc.Catalog.Build.{ColumnSpec, TableSpec, add_columns, add_table, add_tables, build_schema}

or_true : (b : Bool) {c : Bool} → c ≡ true → (b || c) ≡ true
or_true true h = refl
or_true false h = h

All-impl {ℓ} :
    {A : Type 0} (P Q : A → Type ℓ) (xs : List A) → ((a : A) → P a → Q a) → All P xs → All Q xs
All-impl P Q [] f h = tt
All-impl P Q (x ∷ xs) f h = (f x h.0, All-impl P Q xs f h.1)

module _ {K V : Type 0} (eq : K → K → Bool) where
  has-insert :
      (k : K) (v : V) (d : Dict K V) → eq k k ≡ true → Dict.has eq k (Dict.insert eq k v d) ≡ true
  unfolding Dict.has Dict.insert
  has-insert k v [] e = rw e refl
  has-insert k v ((j, w) ∷ d) e = elim (Bool-cases (eq k j)) [
    | inl h ↦ rw h (rw h refl)
    | inr h ↦ rw h (or_true (eq k j) (has-insert k v d e))
  ]

  has-insert_other :
      (k j : K) (v : V) (d : Dict K V)
      → Dict.has eq k d ≡ true
      → Dict.has eq k (Dict.insert eq j v d) ≡ true
  unfolding Dict.has Dict.insert
  has-insert_other k j v [] e = cc
  has-insert_other k j v ((i, w) ∷ d) e = elim (Bool-cases (eq j i)) [
    | inl h ↦ rw h e
    | inr h ↦ elim (Bool-cases (eq k i)) [
      | inl m ↦ rw (h, m) refl
      | inr m ↦ rw (h, m) (has-insert_other k j v d (ap (λ b. b || Dict.has eq k d) (sym m) ∙ e))
    ]
  ]

  All-insert :
      (P : K → Type 0) (k : K) (v : V) (d : Dict K V)
      → P k
      → All (λ (c : K × V). P c.0) d
      → All (λ (c : K × V). P c.0) (Dict.insert eq k v d)
  unfolding Dict.insert
  All-insert P k v [] p h = (p, tt)
  All-insert P k v ((j, w) ∷ d) p h = elim (Bool-cases (eq k j)) [
    | inl e ↦ rw e h
    | inr e ↦ rw e (h.0, All-insert P k v d p h.1)
  ]

-- The table of the column is among the tables.
abbrev pub table_of : ColumnKey → TableKey
table_of k = record { schema = k.schema; table = k.table }

abbrev pub HasTable : Dict TableKey TableDef → ColumnKey → Type 0
HasTable tables k = Dict.has table_eq (table_of k) tables ≡ true

abbrev pub AllHaveTables : PySchema → Type 0
AllHaveTables s = All (λ (c : ColumnKey × ColumnDef). HasTable s.tables c.0) s.columns

table_eq-same : (k : TableKey) → table_eq k k ≡ true
unfolding table_eq
table_eq-same k = rw ((eq_iff k.schema k.schema).1 refl, (eq_iff k.table k.table).1 refl) refl

add_columns-HasTable :
    (tables : Dict TableKey TableDef) (k : TableKey) (cs : List ColumnSpec)
    (columns : Dict ColumnKey ColumnDef)
    → Dict.has table_eq k tables ≡ true
    → All (λ (c : ColumnKey × ColumnDef). HasTable tables c.0) columns
    → All (λ (c : ColumnKey × ColumnDef). HasTable tables c.0) (add_columns k cs columns)
unfolding add_columns
add_columns-HasTable tables k [] columns e h = h
add_columns-HasTable tables k (c ∷ cs) columns e h =
    add_columns-HasTable tables k cs _ e (All-insert column_eq (HasTable tables) _ _ columns e h)

add_table-AllHaveTables :
    (table_flags : Dict TableKey ℕ) (t : TableSpec) (s : PySchema)
    → AllHaveTables s
    → AllHaveTables (add_table table_flags t s)
unfolding add_table
add_table-AllHaveTables table_flags t s h =
    add_columns-HasTable _ t.key t.columns s.columns
      (has-insert table_eq t.key _ s.tables (table_eq-same t.key))
      (All-impl (λ (c : ColumnKey × ColumnDef). HasTable s.tables c.0) _ s.columns
        (λ c e. has-insert_other table_eq (table_of c.0) t.key _ s.tables e) h)

add_tables-AllHaveTables :
    (table_flags : Dict TableKey ℕ) (ts : List TableSpec) (s : PySchema)
    → AllHaveTables s
    → AllHaveTables (add_tables table_flags ts s)
unfolding add_tables
add_tables-AllHaveTables table_flags [] s h = h
add_tables-AllHaveTables table_flags (t ∷ ts) s h =
    add_tables-AllHaveTables table_flags ts _ (add_table-AllHaveTables table_flags t s h)

-- Every column of a schema that is built from table specifications belongs to one of its tables.
pub build_schema-AllHaveTables :
    (tables : List TableSpec) (table_flags : Dict TableKey ℕ) (foreign_keys : List FkDef)
    → AllHaveTables (build_schema tables table_flags foreign_keys)
unfolding build_schema
build_schema-AllHaveTables tables table_flags foreign_keys =
    add_tables-AllHaveTables table_flags tables empty_schema tt
