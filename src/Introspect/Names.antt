-- ===== src/Introspect/Names.antt =====
-- The names that an introspection accepts.
use mathlib.Core.Path.{subst}
use nlsqlc.Base.{String, ◌≡◌, refl, List, [], ◌∷◌, All, sym, ◌⊎◌, inl, inr}
use nlsqlc.Base.Outcome.{
  Outcome, value, raised, returned, Returns, test-eq-value, >>=-eq-value, value-injective, ◌>>=◌,
}
use nlsqlc.Runtime.{Runtime}
use nlsqlc.Importer.{ColumnRow, ForeignKeyRow, Database, ident, is_safe}
use nlsqlc.Importer.Identifiers.{IsSafe}
use nlsqlc.Introspect.{
  Lines, each, Tenants, sqlite_column, sqlite_foreign_key, sqlite_table, introspect_sqlite, Driver,
  missing, failing, answering, introspect_postgres, introspect_information, postgres_template,
  or_template, InformationSchema, table_lines, ◌and_then◌,
}

-- A loop that returns has returned for every element.
pub each-All {ℓ} :
    {A : Type ℓ} (f : A → Outcome Lines) (P : A → Type 0) (xs : List A) (l : Lines)
    → ((x : A) (k : Lines) → f x ≡ value k → P x)
    → each f xs ≡ value l
    → All P xs
unfolding each
each-All f P [] l h e = tt
each-All f P (x ∷ xs) l h e =
    let (k, e1, e2) = >>=-eq-value (f x) _ e in
    let (m, e3, e4) = >>=-eq-value (each f xs) _ e2 in (h x k e1, each-All f P xs m h e3)

module _ (rt : Runtime) where
  -- A name that `ident` accepts is safe, and is passed on as it is.
  pub ident-IsSafe : (s t : String) → ident rt s ≡ value t → IsSafe rt s × (t ≡ s)
  unfolding ident
  ident-IsSafe s t e =
      let (a, b) = test-eq-value (is_safe rt s) s _ e in (a, sym (value-injective _ _ b))

  -- the names of a table, of its columns and of its foreign keys
  pub record HasSafeNames (db : Database) (table : String) : Type 0 where
    pub table_safe : IsSafe rt table
    pub columns_safe : All (λ (r : ColumnRow). IsSafe rt r.name) (db.columns table)
    pub keys_safe :
        All
          (λ (k : ForeignKeyRow). IsSafe rt k.parent × IsSafe rt k.from_col × IsSafe rt k.to_col)
          (db.foreign_keys table)

  module _ (tenants : Tenants) where
    sqlite_column-IsSafe :
        (table : String) (row : ColumnRow) (l : Lines)
        → sqlite_column rt tenants table row ≡ value l
        → IsSafe rt row.name
    unfolding sqlite_column
    sqlite_column-IsSafe table row l e =
        let (c, e1, _) = >>=-eq-value (ident rt row.name) _ e in (ident-IsSafe row.name c e1).0

    sqlite_foreign_key-IsSafe :
        (table : String) (k : ForeignKeyRow) (l : Lines)
        → sqlite_foreign_key rt tenants table k ≡ value l
        → IsSafe rt k.parent × IsSafe rt k.from_col × IsSafe rt k.to_col
    unfolding sqlite_foreign_key
    sqlite_foreign_key-IsSafe table k l e =
        let (a, e1, f1) = >>=-eq-value (ident rt k.parent) _ e in
        let (b, e2, f2) = >>=-eq-value (ident rt k.from_col) _ f1 in
        let (c, e3, f3) = >>=-eq-value (ident rt k.to_col) _ f2 in
        ((ident-IsSafe _ a e1).0, (ident-IsSafe _ b e2).0, (ident-IsSafe _ c e3).0)

    -- The parts of a table's lines, and the table's own name
    pub sqlite_table-parts :
        (db : Database) (name : String) (l : Lines)
        → sqlite_table rt tenants db name ≡ value l
        → IsSafe rt name
          × (columns : Lines) × (fks : Lines) × (each
                (sqlite_column rt tenants name)
                (db.columns name)
              ≡ value columns)
          × (each (sqlite_foreign_key rt tenants name) (db.foreign_keys name) ≡ value fks)
          × ((table_lines tenants name and_then (columns and_then fks)) ≡ l)
    unfolding sqlite_table
    sqlite_table-parts db name l e =
        let (t, e1, f1) = >>=-eq-value (ident rt name) _ e in
        let (safe, same) = ident-IsSafe name t e1 in
        let f2 =
          subst
            (λ t.
              (each (sqlite_column rt tenants t) (db.columns t) >>= λ columns.
              each (sqlite_foreign_key rt tenants t) (db.foreign_keys t) >>= λ fks.
              value (table_lines tenants t and_then (columns and_then fks)))
              ≡ value l)
            same f1 in
        let (columns, e2, f3) =
          >>=-eq-value (each (sqlite_column rt tenants name) (db.columns name)) _ f2 in
        let (fks, e3, f4) =
          >>=-eq-value (each (sqlite_foreign_key rt tenants name) (db.foreign_keys name)) _ f3 in
        (safe, columns, fks, e2, e3, value-injective _ _ f4)

    sqlite_table-HasSafeNames :
        (db : Database) (name : String) (l : Lines)
        → sqlite_table rt tenants db name ≡ value l
        → HasSafeNames db name
    sqlite_table-HasSafeNames db name l e =
        let (safe, columns, fks, e2, e3, _) = sqlite_table-parts db name l e in
        record {
          table_safe = safe;
          columns_safe = each-All _ _ _ columns (sqlite_column-IsSafe name) e2;
          keys_safe = each-All _ _ _ fks (sqlite_foreign_key-IsSafe name) e3;
        }

    -- If the introspection of a SQLite database gives its texts, then the names of all of its tables, of
    -- their columns and of their foreign keys are safe identifiers.
    pub introspect_sqlite-HasSafeNames :
        (db : Database) (ts : String × String)
        → introspect_sqlite rt tenants db ≡ value ts
        → All (HasSafeNames db) db.tables
    unfolding introspect_sqlite
    introspect_sqlite-HasSafeNames db ts e =
        let (l, e1, _) = >>=-eq-value (each (sqlite_table rt tenants db) db.tables) _ e in
        each-All _ _ _ l (sqlite_table-HasSafeNames db) e1

    -- Where the texts of a PostgreSQL introspection come from: the database's answers, or the template.
    abbrev pub IsAnswer : Driver → String × String → Type 0
    IsAnswer d ts =
        (ts ≡ postgres_template)
        ⊎ ((db : InformationSchema) × (d ≡ answering db)
            × (introspect_information rt tenants db ≡ value ts))

    or_template-IsAnswer :
        (db : InformationSchema) (o : Outcome (String × String))
        → introspect_information rt tenants db ≡ o
        → Returns (IsAnswer (answering db)) (or_template postgres_template o)
    or_template-IsAnswer db (value ts) e = inr (db, refl, e)
    or_template-IsAnswer db (raised x) e = inl refl
    or_template-IsAnswer db (returned f m) e = inl refl

    -- The introspection of a PostgreSQL database never raises: it gives the texts of the database's
    -- answers, or else the template for a table `orders`.
    pub introspect_postgres-Returns :
        (d : Driver) → Returns (IsAnswer d) (introspect_postgres rt tenants d)
    unfolding introspect_postgres
    introspect_postgres-Returns missing = inl refl
    introspect_postgres-Returns (failing e) = inl refl
    introspect_postgres-Returns (answering db) = or_template-IsAnswer db _ refl
