-- ===== src/Samples.antt =====
-- Test data: a runtime that knows the ASCII digits and reads no float, and the catalog of
-- tools/server.py.
use nlsqlc.Base.{
  ℕ, String, Bool, false, ◌-◌, ◌&&◌, ◌||◌, Option, none, some, [], ◌∷◌, leb, if◌then◌else◌,
}
use nlsqlc.Runtime.{Runtime, not_a_number}
use nlsqlc.Catalog.{TableKey, PySchema, PyPolicy}
use nlsqlc.Catalog.Build.{ColumnSpec, TenantSpec, build_schema, build_policy}

abbrev ascii_digit : ℕ → Option ℕ
ascii_digit c = if leb b'0' c && leb c b'9' then some (c - b'0') else none

abbrev ascii_letter : ℕ → Bool
ascii_letter c = (leb b'a' c && leb c b'z') || (leb b'A' c && leb c b'Z')

abbrev pub plain : Runtime
plain = record {
  float_of_text = λ s. none;
  float_of_int = λ i. none;
  int_of_float = λ s. not_a_number;
  float_add = λ a b. a;
  float_sub = λ a b. a;
  float_mul = λ a b. a;
  float_div = λ a b. a;
  float_floor_div = λ a b. a;
  float_eq = λ a b. false;
  float_eq_int = λ a b. false;
  digit = ascii_digit;
  is_alpha = ascii_letter;
  is_alnum = λ c. ascii_letter c || (leb b'0' c && leb c b'9');
  upper = λ s. s;
  repr_text = λ s. s;
}

abbrev pub orders : TableKey
orders = record { schema = "public"; table = "orders" }

abbrev pub customers : TableKey
customers = record { schema = "public"; table = "customers" }

abbrev plain_column : String → ℕ → ColumnSpec
plain_column name type = record { name = name; type = type; flags = none }

abbrev flagged_column : String → ℕ → ℕ → ColumnSpec
flagged_column name type flags = record { name = name; type = type; flags = some flags }

abbrev pub sample_schema : PySchema
unfolding build_schema
sample_schema =
    build_schema
      (record {
        key = orders;
        columns =
            flagged_column "id" 3 1
            ∷ flagged_column "tenant_id" 9 4
            ∷ plain_column "customer_id" 3
            ∷ plain_column "total_amount" 5
            ∷ [];
      }
        ∷ record {
          key = customers;
          columns =
              flagged_column "id" 3 1
              ∷ flagged_column "tenant_id" 9 4
              ∷ plain_column "region" 7
              ∷ [];
        }
        ∷ [])
      [] []

abbrev tenant_on : TableKey → TenantSpec
tenant_on key = record { key = key; column = "tenant_id"; type = some 9 }

abbrev pub sample_policy : PyPolicy
unfolding build_policy
sample_policy =
    build_policy (orders ∷ customers ∷ []) [] (tenant_on orders ∷ tenant_on customers ∷ []) none
      (some ("tenant_id", 9))
