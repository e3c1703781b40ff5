-- ===== src/Client/Closing.antt =====
-- A result of the C library behind `close`.
use nlsqlc.Base.{true, ◌≡◌, refl, none}
use nlsqlc.Client.{
  Native, CompileResult, status, sql, canonical_ir, manifest, error, risk, complexity, fingerprint,
  params, close,
}

module _ (n : Native) where
  -- Nothing can be read of the result: its status is INTERNAL, and its risk DENIED.
  pub record IsDenied (r : CompileResult n) : Type 0 where
    pub internal : status n r ≡ 10
    pub denied : risk n r ≡ 3
    pub no_sql : sql n r ≡ ""
    pub no_ir : canonical_ir n r ≡ ""
    pub no_manifest : manifest n r ≡ ""
    pub no_error : error n r ≡ ""
    pub free : complexity n r ≡ 0
    pub unnamed : fingerprint n r ≡ 0
    pub unbound : params n r ≡ n.no_params

  IsDenied-without : (r : CompileResult n) → r.py ≡ none → r.ptr ≡ none → IsDenied r
  unfolding status sql canonical_ir manifest error risk complexity fingerprint params
  IsDenied-without r e h = record {
    internal = rw (e, h) refl;
    denied = rw (e, h) refl;
    no_sql = rw (e, h) refl;
    no_ir = rw (e, h) refl;
    no_manifest = rw (e, h) refl;
    no_error = rw (e, h) refl;
    free = rw (e, h) refl;
    unnamed = rw (e, h) refl;
    unbound = rw (e, h) refl;
  }

  -- A result of the C library that is closed is denied: no SQL text, no parameters, and a status and a
  -- risk that are not those of a success.
  pub close-IsDenied : (r : CompileResult n) → r.py ≡ none → IsDenied (close n true r)
  unfolding close
  close-IsDenied r e = IsDenied-without (record r { ptr = none }) e refl
