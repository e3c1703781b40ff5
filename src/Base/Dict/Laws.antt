-- ===== src/Base/Dict/Laws.antt =====
-- Dictionaries whose keys are texts.
use nlsqlc.Base.{String, ◌≡◌, refl, none, some, [], ◌∷◌, arith, if◌then◌else◌, ◌==◌, eq_iff}
use nlsqlc.Base.Dict.{Dict, lookup, insert, erase}

module _ {ℓ} {V : Type ℓ} where
  pub lookup-insert :
      (j k : String) (v : V) (d : Dict String V)
      → lookup (◌==◌) j (insert (◌==◌) k v d) ≡ (if j == k then some v else lookup (◌==◌) j d)
  unfolding lookup insert
  lookup-insert j k v [] = refl
  lookup-insert j k v ((i, w) ∷ d) =
      ground (arith, eq_iff j k, eq_iff k i, eq_iff j i, lookup-insert j k v d)

  pub lookup-erase :
      (j k : String) (d : Dict String V)
      → lookup (◌==◌) j (erase (◌==◌) k d) ≡ (if j == k then none else lookup (◌==◌) j d)
  unfolding lookup erase
  lookup-erase j k [] = ground arith
  lookup-erase j k ((i, w) ∷ d) =
      ground (arith, eq_iff j k, eq_iff k i, eq_iff j i, lookup-erase j k d)
