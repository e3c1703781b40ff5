-- ===== src/Limiter/Clients.antt =====
-- The bucket of each client.
use nlsqlc.Base.{
  String, Bool, true, false, ◌≡◌, refl, sym, ap, ◌∙◌, Option, none, some, ◌==◌, Bool-cases, inl,
  inr, List, [], ◌∷◌, All,
}
use nlsqlc.Base.Dict
use nlsqlc.Base.Dict.Laws.{lookup-insert}
use nlsqlc.Base.Outcome.{
  value, Outcome, ◌>>=◌, Returns, Returns-bind, >>=-eq-value, value-injective,
}
use nlsqlc.Limiter.{Floats, Limiter, new_limiter, min, refilled, spend, allow}

-- What the code relies on of floats that are no NaN: `<` is irreflexive and asymmetric, and taking
-- away what is not below zero gives nothing larger.
pub record FloatLaws (fl : Floats) : Type 0 where
  pub lt_irrefl : (x : fl.F) → fl.lt x x ≡ false
  pub lt_asym : (x y : fl.F) → fl.lt x y ≡ true → fl.lt y x ≡ false
  pub sub_le :
      (c x y : fl.F) → fl.lt c x ≡ false → fl.lt y fl.zero ≡ false → fl.lt c (fl.sub x y) ≡ false

module _ (fl : Floats) where
  open fl use {F, lt, zero}

  -- Two entries of one client: both are there, with the tokens not above the capacity, or neither.
  abbrev pub IsBucket : F → Option F → Option F → Type 0
  IsBucket capacity none none = Unit
  IsBucket capacity none (some u) = ⊥
  IsBucket capacity (some t) none = ⊥
  IsBucket capacity (some t) (some u) = lt capacity t ≡ false

  abbrev pub IsValid : Limiter fl → Type 0
  IsValid l =
      (client : String)
      → IsBucket l.capacity (Dict.lookup (◌==◌) client l.tokens)
          (Dict.lookup (◌==◌) client l.last_update)

  min-IsBucket : FloatLaws fl → (c x : F) → lt c (min fl c x) ≡ false
  unfolding min
  min-IsBucket laws c x = elim (Bool-cases (lt x c)) [
    | inl e ↦ rw e (laws.lt_asym x c e)
    | inr e ↦ rw e (laws.lt_irrefl c)
  ]

  refilled-le :
      FloatLaws fl
      → (l : Limiter fl) (now : F) (client : String) (t u : Option F)
      → Dict.lookup (◌==◌) client l.last_update ≡ u
      → IsBucket l.capacity t u
      → Returns (λ level. lt l.capacity level ≡ false) (refilled fl l now client t)
  unfolding refilled
  refilled-le laws l now client none u e h = laws.lt_irrefl l.capacity
  refilled-le laws l now client (some t) none e h = absurd h
  refilled-le laws l now client (some t) (some u) e h = rw e (min-IsBucket laws l.capacity _)

  IsBucket-insert :
      (l : Limiter fl) (client j : String) (level now : F)
      → lt l.capacity level ≡ false
      → IsValid l
      → IsBucket l.capacity
          (Dict.lookup (◌==◌) j (Dict.insert (◌==◌) client level l.tokens))
          (Dict.lookup (◌==◌) j (Dict.insert (◌==◌) client now l.last_update))
  IsBucket-insert l client j level now h v =
      rw (lookup-insert j client level l.tokens, lookup-insert j client now l.last_update)
        (elim (Bool-cases (j == client)) [ inl e ↦ rw e h | inr e ↦ rw e (v j) ])

  spend-IsValid :
      FloatLaws fl
      → (l : Limiter fl) (now : F) (client : String) (cost level : F) → lt cost zero ≡ false
      → lt l.capacity level ≡ false
      → IsValid l
      → IsValid (spend fl l now client cost level).1
  unfolding spend
  spend-IsValid laws l now client cost level p h v = elim (Bool-cases (fl.ge level cost)) [
    | inl e ↦ rw e (λ j. IsBucket-insert l client j _ now (laws.sub_le l.capacity level cost h p) v)
    | inr e ↦ rw e (λ j. IsBucket-insert l client j level now h v)
  ]

  -- One call keeps a valid limiter valid, and does not raise.
  pub allow-IsValid :
      FloatLaws fl
      → (l : Limiter fl) (now : F) (client : String) (cost : F) → lt cost zero ≡ false
      → IsValid l
      → Returns (λ (r : Bool × Limiter fl). IsValid r.1) (allow fl l now client cost)
  unfolding allow
  allow-IsValid laws l now client cost p v =
      Returns-bind _ (λ (r : Bool × Limiter fl). IsValid r.1)
        (refilled fl l now client (Dict.lookup (◌==◌) client l.tokens)) _
        (refilled-le laws l now client _ _ refl (v client))
        (λ level h. spend-IsValid laws l now client cost level p h v)

  -- Calls of `allow`, each with its time, client and cost
  abbrev pub allow_all : List (F × String × F) → Limiter fl → Outcome (Limiter fl)
  allow_all [] l = value l
  allow_all ((now, client, cost) ∷ calls) l =
      allow fl l now client cost >>= λ r. allow_all calls r.1

  allow_all-IsValid_from :
      FloatLaws fl
      → (calls : List (F × String × F)) (l : Limiter fl)
      → All (λ (c : F × String × F). lt c.2 zero ≡ false) calls
      → IsValid l
      → Returns IsValid (allow_all calls l)
  allow_all-IsValid_from laws [] l h v = v
  allow_all-IsValid_from laws ((now, client, cost) ∷ calls) l h v =
      Returns-bind (λ (r : Bool × Limiter fl). IsValid r.1) IsValid (allow fl l now client cost) _
        (allow-IsValid laws l now client cost h.0 v)
        (λ r k. allow_all-IsValid_from laws calls r.1 h.1 k)

  -- Any calls of a new limiter, whatever their times, whose costs are not below zero all return, and
  -- leave it such that no client has more tokens than the capacity and that the two dictionaries
  -- have the same clients.
  pub allow_all-IsValid :
      FloatLaws fl
      → (rate capacity : F) (calls : List (F × String × F))
      → All (λ (c : F × String × F). lt c.2 zero ≡ false) calls
      → Returns IsValid (allow_all calls (new_limiter fl rate capacity))
  unfolding Dict.lookup
  allow_all-IsValid laws rate capacity calls h =
      allow_all-IsValid_from laws calls (new_limiter fl rate capacity) h (λ client. tt)

  -- The entries of a client in the two dictionaries
  abbrev pub bucket : String → Limiter fl → Option F × Option F
  bucket j l = (Dict.lookup (◌==◌) j l.tokens, Dict.lookup (◌==◌) j l.last_update)

  spend-bucket :
      (l : Limiter fl) (now : F) (client j : String) (cost level : F)
      → (j == client) ≡ false
      → bucket j (spend fl l now client cost level).1 ≡ bucket j l
  unfolding spend
  spend-bucket l now client j cost level e = elim (Bool-cases (fl.ge level cost)) [
    | inl g ↦
        rw g
          (rw (lookup-insert j client _ l.tokens, lookup-insert j client now l.last_update, e) refl)
    | inr g ↦
        rw g
          (rw (lookup-insert j client _ l.tokens, lookup-insert j client now l.last_update, e) refl)
  ]

  -- A call that returns leaves the entries of every other client as they are.
  pub allow-bucket :
      (l l' : Limiter fl) (now : F) (client j : String) (cost : F) (granted : Bool)
      → (j == client) ≡ false
      → allow fl l now client cost ≡ value (granted, l')
      → bucket j l' ≡ bucket j l
  unfolding allow
  allow-bucket l l' now client j cost granted e h =
      let (level, h1, k) =
        >>=-eq-value (refilled fl l now client (Dict.lookup (◌==◌) client l.tokens)) _ h in
      ap (λ (r : Bool × Limiter fl). bucket j r.1) (sym (value-injective _ _ k))
      ∙ spend-bucket l now client j cost level e
