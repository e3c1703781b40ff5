-- ===== src/Server/Reads.antt =====
-- tools/server.py: what a POST request asks for, and what a response of `/v1/compile` says of a
-- result, as fields of its dictionary.
use nlsqlc.Base.{String, false, ◌≡◌, refl, inr}
use nlsqlc.Base.Text.{decimal}
use nlsqlc.Base.Int.{ℤ}
use nlsqlc.Base.Outcome.{value}
use nlsqlc.Catalog.{Dialect, low, moderate}
use nlsqlc.Engine.{PyCompileResult}
use nlsqlc.Json.{Json, null, text, object, natural, Fields, get_or, params_json}
use nlsqlc.Server.{Environment, Request, Moment, Response, json, dialect_of}
use nlsqlc.Server.Replies.{length_header, is_too_large, body_text, parse_body}
use nlsqlc.Server.Post.{requested_dialect}

-- The body of the request is read as the dictionary.
abbrev pub IsRead : Environment → Request → Json → Type 0
IsRead env q j =
    (n : ℤ) × (length_header env.runtime.digit q.content_length ≡ value n)
    × (is_too_large n ≡ false)
    × (parse_body env.loads (body_text n q.read) ≡ inr j)

-- A name under `dialect`, or `postgres` where there is none, is that of the dialect.
abbrev pub NamesDialect : Environment → Fields → Dialect → Type 0
NamesDialect env fs d =
    (name : String)
    → get_or "dialect" (text "postgres") fs ≡ text name
    → d ≡ dialect_of (env.lower name)

pub requested_dialect-NamesDialect :
    (env : Environment) (m : Moment env) (fs : Fields)
    → NamesDialect env fs (requested_dialect env m (object fs))
unfolding requested_dialect
requested_dialect-NamesDialect env m fs name e = rw (e, requested_dialect) refl

-- The request asks for the compilation of the text to the dialect.
pub record IsAsked (env : Environment) (q : Request) (ir : String) (d : Dialect) : Type 0 where
  pub fields : Fields
  pub read : IsRead env q (object fields)
  pub text_is : get_or "ir" null fields ≡ text ir
  pub dialect_is : NamesDialect env fields d

-- The response holds what the result says, each under its name.
pub record Carries (c : PyCompileResult) (r : Response) : Type 0 where
  pub fields : Fields
  pub content : r.content ≡ json (object fields)
  pub status : get_or "status" null fields ≡ text "OK"
  pub sql : get_or "sql" null fields ≡ text c.sql
  pub canonical_ir : get_or "canonical_ir" null fields ≡ text c.ir
  pub manifest : get_or "manifest" null fields ≡ text c.manifest
  pub fingerprint : get_or "fingerprint" null fields ≡ text (decimal c.fingerprint)
  pub complexity : get_or "complexity" null fields ≡ natural c.complexity
  pub risk_low : c.risk ≡ low → get_or "risk" null fields ≡ text "LOW"
  pub risk_moderate : c.risk ≡ moderate → get_or "risk" null fields ≡ text "MODERATE"
  pub params : get_or "params" null fields ≡ params_json c.params
