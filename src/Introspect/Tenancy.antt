-- ===== src/Introspect/Tenancy.antt =====
-- The policy that is written for a SQLite database.
use mathlib.Core.List.{append-nil}
use nlsqlc.Base.{String, ◌<>◌, ◌≡◌, refl, sym, ap, ◌∙◌, List, [], ◌∷◌, ◌++◌, if◌then◌else◌}
use nlsqlc.Base.Text.{join}
use nlsqlc.Base.Outcome.{Outcome, value, >>=-eq-value, value-injective}
use nlsqlc.Runtime.{Runtime}
use nlsqlc.Importer.{ColumnRow, ForeignKeyRow, Database, ident, sql_type}
use nlsqlc.Introspect.{
  Lines, each, Tenants, is_tenant_key, declared_type, column_lines, table_lines, sqlite_column,
  sqlite_foreign_key, sqlite_table, introspect_sqlite,
}
use nlsqlc.Introspect.Names.{ident-IsSafe, sqlite_table-parts}

module _ (rt : Runtime) (tenants : Tenants) where
  -- A tenant rule for a column that is the tenant column asked for
  abbrev pub tenant_line : String → ColumnRow → List String
  tenant_line table r =
      if is_tenant_key tenants table r.name
      then ("tenant public "
          <> (table <> (" " <> (r.name <> (" " <> sql_type rt (declared_type r.declared))))))
        ∷ []
      else []

  abbrev pub tenant_lines : String → List ColumnRow → List String
  tenant_lines table [] = []
  tenant_lines table (r ∷ rs) = tenant_line table r ++ tenant_lines table rs

  -- The permission of each table, followed by its tenant rules
  abbrev pub table_policies : Database → List String → List String
  table_policies db [] = []
  table_policies db (t ∷ ts) =
      (("allow_table public " <> t) ∷ tenant_lines t (db.columns t)) ++ table_policies db ts

  abbrev policy : Lines → List String
  policy l = l.policy_lines

  column-policy :
      (table : String) (r : ColumnRow) (l : Lines)
      → sqlite_column rt tenants table r ≡ value l
      → l.policy_lines ≡ tenant_line table r
  unfolding sqlite_column column_lines
  column-policy table r l e =
      let (c, e1, e2) = >>=-eq-value (ident rt r.name) _ e in
      let (_, same) = ident-IsSafe rt r.name c e1 in
      ap policy (sym (value-injective _ _ e2))
      ∙ ap
          (λ t.
            policy (
              column_lines tenants table t (sql_type rt (declared_type r.declared)) r.pk r.notnull))
          same

  -- The lines of a loop are those of its elements, when the policy lines of each are known.
  each-policy {ℓ} :
      {A : Type ℓ} (f : A → Outcome Lines) (lines : List A → List String) (line : A → List String)
      → lines [] ≡ []
      → ((x : A) (xs : List A) → lines (x ∷ xs) ≡ line x ++ lines xs)
      → ((x : A) (l : Lines) → f x ≡ value l → l.policy_lines ≡ line x)
      → (xs : List A) (l : Lines) → each f xs ≡ value l
      → l.policy_lines ≡ lines xs
  unfolding each
  each-policy f lines line p q h [] l e = ap policy (sym (value-injective _ _ e)) ∙ sym p
  each-policy f lines line p q h (x ∷ xs) l e =
      let (k, e1, f1) = >>=-eq-value (f x) _ e in
      let (m, e2, f2) = >>=-eq-value (each f xs) _ f1 in
      ap policy (sym (value-injective _ _ f2))
      ∙ rw (h x k e1, each-policy f lines line p q h xs m e2, q x xs) refl

  foreign_key-policy :
      (table : String) (k : ForeignKeyRow) (l : Lines)
      → sqlite_foreign_key rt tenants table k ≡ value l
      → l.policy_lines ≡ []
  unfolding sqlite_foreign_key
  foreign_key-policy table k l e =
      let (a, _, f1) = >>=-eq-value (ident rt k.parent) _ e in
      let (b, _, f2) = >>=-eq-value (ident rt k.from_col) _ f1 in
      let (c, _, f3) = >>=-eq-value (ident rt k.to_col) _ f2 in
      ap policy (sym (value-injective _ _ f3))

  table-policy :
      (db : Database) (name : String) (l : Lines)
      → sqlite_table rt tenants db name ≡ value l
      → l.policy_lines ≡ ("allow_table public " <> name) ∷ tenant_lines name (db.columns name)
  unfolding table_lines
  table-policy db name l e =
      let (_, columns, fks, e1, e2, same) = sqlite_table-parts rt tenants db name l e in
      let h1 =
        each-policy _ (tenant_lines name) (tenant_line name) refl (λ x xs. refl)
          (column-policy name) (db.columns name) columns e1 in
      let h2 =
        each-policy _ (λ _. []) (λ _. []) refl (λ x xs. refl) (foreign_key-policy name)
          (db.foreign_keys name) fks e2 in
      ap policy (sym same)
      ∙ rw (h1, h2)
          (ap (λ ls. ("allow_table public " <> name) ∷ ls)
            (append-nil (tenant_lines name (db.columns name))))

  -- If the introspection of a SQLite database gives its texts, the policy allows the tables of the
  -- database and no other, and behind the permission of a table stand the tenant rules of just those of
  -- its columns that are the tenant column asked for: none, if the table has no such column.
  pub introspect_sqlite-policy :
      (db : Database) (ts : String × String)
      → introspect_sqlite rt tenants db ≡ value ts
      → ts.1
        ≡ join "\n" ("nlpolicy 1" ∷ (table_policies db db.tables ++ "limit 16 1000" ∷ [])) <> "\n"
  unfolding introspect_sqlite
  introspect_sqlite-policy db ts e =
      let (l, e1, f) = >>=-eq-value (each (sqlite_table rt tenants db) db.tables) _ e in
      let h =
        each-policy _ (table_policies db)
          (λ t. ("allow_table public " <> t) ∷ tenant_lines t (db.columns t)) refl (λ x xs. refl)
          (table-policy db) db.tables l e1 in
      ap (λ (p : String × String). p.1) (sym (value-injective _ _ f))
      ∙ ap (λ ls. join "\n" ("nlpolicy 1" ∷ (ls ++ "limit 16 1000" ∷ [])) <> "\n") h
