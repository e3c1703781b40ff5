-- ===== src/Limiter.antt =====
-- tools/server.py: `TokenBucketRateLimiter`. The numbers are Python's floats, a parameter; the lock
-- makes one call of `allow` one step.
pub mod Clients
use nlsqlc.Base.{String, Bool, true, false, Option, none, some, List, [], ◌∷◌, if◌then◌else◌, ◌==◌}
use nlsqlc.Base.Dict
use nlsqlc.Base.Dict.{Dict}
use nlsqlc.Base.Outcome.{Outcome, value, raised, key_error, ◌>>=◌}

-- Floats with `+`, `-`, `*`, `<` and `>=`, and zero
pub record Floats : Type 1 where
  pub F : Type 0
  pub add : F → F → F
  pub sub : F → F → F
  pub mul : F → F → F
  pub lt : F → F → Bool
  pub ge : F → F → Bool
  pub zero : F

module _ (fl : Floats) where
  open fl use {F, add, sub, mul, lt, ge}

  pub record Limiter : Type 0 where
    pub rate : F
    pub capacity : F
    pub tokens : Dict String F
    pub last_update : Dict String F

  abbrev pub new_limiter : F → F → Limiter
  new_limiter rate capacity = record {
    rate = rate;
    capacity = capacity;
    tokens = [];
    last_update = [];
  }

  -- `min(a, b)`
  unfoldable pub min : F → F → F
  min a b = if lt b a then b else a

  abbrev or_key_error : Option F → Outcome F
  or_key_error none = raised (key_error "client_id")
  or_key_error (some x) = value x

  -- what stands in `self.tokens[client_id]` before the cost is taken
  unfoldable pub refilled : Limiter → F → String → Option F → Outcome F
  unfolding min
  refilled l now client none = value l.capacity
  refilled l now client (some t) = or_key_error (Dict.lookup (◌==◌) client l.last_update) >>= λ u.
      value (min l.capacity (add t (mul (sub now u) l.rate)))

  -- the test, with the tokens left and the time of the update
  unfoldable pub spend : Limiter → F → String → F → F → Bool × Limiter
  spend l now client cost level =
      if ge level cost
      then (
        true,
        record l {
          tokens = Dict.insert (◌==◌) client (sub level cost) l.tokens;
          last_update = Dict.insert (◌==◌) client now l.last_update;
        },
      )
      else (
        false,
        record l {
          tokens = Dict.insert (◌==◌) client level l.tokens;
          last_update = Dict.insert (◌==◌) client now l.last_update;
        },
      )

  -- `allow`, with the time of `time.time()`
  unfoldable pub allow : Limiter → F → String → F → Outcome (Bool × Limiter)
  unfolding refilled spend
  allow l now client cost = refilled l now client (Dict.lookup (◌==◌) client l.tokens) >>= λ level.
      value (spend l now client cost level)
