-- ===== src/Importer/Identifiers.antt =====
-- What an import that succeeds has checked.
use mathlib.Core.Path.{subst}
use nlsqlc.Base.{
  String, Bool, true, false, ◌||◌, List, [], ◌∷◌, ◌≡◌, refl, sym, ap, ◌∙◌, ◌==◌, eq_iff, map, All,
  Bool-cases, inl, inr, if◌then◌else◌,
}
use nlsqlc.Base.Dict
use nlsqlc.Base.Dict.{Dict}
use nlsqlc.Base.Sort.{place, sorted, in_set, set_of, text_le}
use nlsqlc.Base.Outcome.{value, >>=-eq-value, value-injective, test-eq-value}
use nlsqlc.Runtime.{Runtime}
use nlsqlc.Importer.{
  ColumnRow, ForeignKeyRow, Database, row_le, is_safe, ident, idents, check_tenant, column_lines,
  key_line, key_lines, table_lines, all_lines, import_schema,
}

module _ {A : Type 0} (P : A → Type 0) (le : A → A → Bool) where
  All-place : (a : A) (bs : List A) → All P (place le a bs) → P a × All P bs
  unfolding place
  All-place a [] h = h
  All-place a (b ∷ bs) h = go (le a b) (All-place a bs) h
    where
      go :
          (t : Bool)
          → (All P (place le a bs) → P a × All P bs)
          → All P (if t then a ∷ b ∷ bs else b ∷ place le a bs)
          → P a × All P (b ∷ bs)
      go true more h = h
      go false more h = let (k, l) = more h.1 in (k, (h.0, l))

  All-sorted : (as' : List A) → All P (sorted le as') → All P as'
  unfolding sorted
  All-sorted [] h = tt
  All-sorted (a ∷ as') h = let (k, l) = All-place a (sorted le as') h in (k, All-sorted as' l)

module _ (P : String → Type 0) where
  in_set-All : (a : String) (s : List String) → in_set (◌==◌) a s ≡ true → All P s → P a
  unfolding in_set
  in_set-All a [] e h = cc
  in_set-All a (b ∷ s) e h = elim (Bool-cases (a == b)) [
    | inl k ↦ subst P (sym ((eq_iff a b).0 k)) h.0
    | inr k ↦ in_set-All a s (ap (λ t. t || in_set (◌==◌) a s) (sym k) ∙ e) h.1
  ]

  All-set_of : (as' : List String) → All P (set_of (◌==◌) as') → All P as'
  unfolding set_of
  All-set_of [] h = tt
  All-set_of (a ∷ as') h = go (in_set (◌==◌) a (set_of (◌==◌) as')) refl (All-set_of as') h
    where
      go :
          (t : Bool)
          → in_set (◌==◌) a (set_of (◌==◌) as') ≡ t
          → (All P (set_of (◌==◌) as') → All P as')
          → All P (if t then set_of (◌==◌) as' else a ∷ set_of (◌==◌) as')
          → P a × All P as'
      go true e more h = (in_set-All a _ e h, more h)
      go false e more h = (h.0, more h.1)

-- What the loop checks of a table: the name of each of its columns, and of each of its foreign keys
-- the names and that the parent is one of the tables.
module _ (rt : Runtime) where
  abbrev pub IsSafe : String → Type 0
  IsSafe s = is_safe rt s ≡ true

  abbrev pub IsSafeKey : List String → ForeignKeyRow → Type 0
  IsSafeKey tables k =
      IsSafe k.parent × IsSafe k.from_col × IsSafe k.to_col × (in_set (◌==◌) k.parent tables ≡ true)

  pub record IsSafeTable (db : Database) (tables : List String) (table : String) : Type 0 where
    pub columns_safe : All (λ (r : ColumnRow). IsSafe r.name) (db.columns table)
    pub keys_safe : All (IsSafeKey tables) (db.foreign_keys table)

  pub ident-IsSafe : (s : String) {t : String} → ident rt s ≡ value t → IsSafe s × (t ≡ s)
  unfolding ident
  ident-IsSafe s h =
      let (e, k) = test-eq-value (is_safe rt s) s _ h in (e, sym (value-injective _ _ k))

  idents-IsSafe :
      (xs : List String) {ys : List String} → idents rt xs ≡ value ys → All IsSafe xs × (ys ≡ xs)
  unfolding idents
  idents-IsSafe [] h = (tt, sym (value-injective _ _ h))
  idents-IsSafe (x ∷ xs) h =
      let (y, h1, k1) = >>=-eq-value (ident rt x) _ h in
      let (ys, h2, k2) = >>=-eq-value (idents rt xs) _ k1 in
      let (s1, e1) = ident-IsSafe x h1 in let (s2, e2) = idents-IsSafe xs h2 in ((s1, s2), cc)

  All-names :
      (rows : List ColumnRow)
      → All IsSafe (map (λ (r : ColumnRow). r.name) rows)
      → All (λ (r : ColumnRow). IsSafe r.name) rows
  All-names [] h = tt
  All-names (r ∷ rows) h = (h.0, All-names rows h.1)

  key_line-IsSafeKey :
      (tables : List String) (table : String) (k : ForeignKeyRow) {l : String}
      → key_line rt tables table k ≡ value l
      → IsSafeKey tables k
  unfolding key_line
  key_line-IsSafeKey tables table k h =
      let (p, h1, k1) = >>=-eq-value (ident rt k.parent) _ h in
      let (f, h2, k2) = >>=-eq-value (ident rt k.from_col) _ k1 in
      let (t, h3, k3) = >>=-eq-value (ident rt k.to_col) _ k2 in
      let (s1, e1) = ident-IsSafe k.parent h1 in
      let (s2, e2) = ident-IsSafe k.from_col h2 in
      let (s3, e3) = ident-IsSafe k.to_col h3 in
      let (e, _) = test-eq-value (in_set (◌==◌) p tables) _ _ k3 in
      (s1, s2, s3, subst (λ q. in_set (◌==◌) q tables ≡ true) e1 e)

  key_lines-IsSafeKey :
      (tables : List String) (table : String) (ks : List ForeignKeyRow) {ls : List String}
      → key_lines rt tables table ks ≡ value ls
      → All (IsSafeKey tables) ks
  unfolding key_lines
  key_lines-IsSafeKey tables table [] h = tt
  key_lines-IsSafeKey tables table (k ∷ ks) h =
      let (l, h1, k1) = >>=-eq-value (key_line rt tables table k) _ h in
      let (ls, h2, k2) = >>=-eq-value (key_lines rt tables table ks) _ k1 in
      (key_line-IsSafeKey tables table k h1, key_lines-IsSafeKey tables table ks h2)

  module _ (db : Database) (tenant_columns : Dict String String) where
    table_lines-IsSafeTable :
        (tables : List String) (table : String) {ls : List String}
        → table_lines rt db tenant_columns tables table ≡ value ls
        → IsSafeTable db tables table
    unfolding table_lines
    table_lines-IsSafeTable tables table h =
        let (names, h1, k1) =
          >>=-eq-value (idents rt (map (λ (r : ColumnRow). r.name) (db.columns table))) _ h in
        let (tenant, h2, k2) =
          >>=-eq-value (check_tenant rt table (Dict.lookup (◌==◌) table tenant_columns) names) _
            k1 in
        let (columns, h3, k3) =
          >>=-eq-value (column_lines rt table tenant (db.columns table)) _ k2 in
        let (keys, h4, k4) =
          >>=-eq-value (key_lines rt tables table (sorted row_le (db.foreign_keys table))) _ k3 in
        record {
          columns_safe = All-names (db.columns table) (idents-IsSafe _ h1).0;
          keys_safe =
              All-sorted (IsSafeKey tables) row_le _ (key_lines-IsSafeKey tables table _ h4);
        }

    all_lines-IsSafeTable :
        (tables ts : List String) {ls : List String}
        → all_lines rt db tenant_columns tables ts ≡ value ls
        → All (IsSafeTable db tables) ts
    unfolding all_lines
    all_lines-IsSafeTable tables [] h = tt
    all_lines-IsSafeTable tables (t ∷ ts) h =
        let (ls, h1, k1) = >>=-eq-value (table_lines rt db tenant_columns tables t) _ h in
        let (rest, h2, k2) = >>=-eq-value (all_lines rt db tenant_columns tables ts) _ k1 in
        (table_lines-IsSafeTable tables t h1, all_lines-IsSafeTable tables ts h2)

    -- If the import gives a text, then the name of every table of the database, of every column
    -- and of every column of a foreign key is a safe identifier, and the parent of every foreign
    -- key is a safe identifier and one of the tables.
    pub import_schema-IsSafe :
        (text : String)
        → import_schema rt db tenant_columns ≡ value text
        → All IsSafe db.tables × All (IsSafeTable db (set_of (◌==◌) db.tables)) db.tables
    unfolding import_schema
    import_schema-IsSafe text h =
        let (names, h1, k1) = >>=-eq-value (idents rt db.tables) _ h in
        let (lines, h2, k2) =
          >>=-eq-value
            (all_lines rt db tenant_columns (set_of (◌==◌) names)
              (sorted text_le (set_of (◌==◌) names)))
            _ k1 in
        let (safe, e) = idents-IsSafe db.tables h1 in
        let tables = set_of (◌==◌) names in
        let all : All (IsSafeTable db tables) names =
          All-set_of (IsSafeTable db tables) names (
            All-sorted (IsSafeTable db tables) text_le tables
              (all_lines-IsSafeTable tables _ h2)) in
        (safe, subst (λ ns. All (IsSafeTable db (set_of (◌==◌) ns)) ns) e all)
