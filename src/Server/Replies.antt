-- ===== src/Server/Replies.antt =====
-- tools/server.py: the dictionaries that `do_POST` answers with, and what it reads of a request.
use nlsqlc.Base.{
  ℕ, String, Bool, true, false, ◌⊎◌, inl, inr, Option, none, some, if◌then◌else◌, ◌==◌, ltb, eqb,
}
use nlsqlc.Base.Text.{decimal}
use nlsqlc.Base.Int.{ℤ, pos, negsuc, int_of_text}
use nlsqlc.Base.Outcome.{Outcome, value, value_error, Status, status_name, or_raise}
use nlsqlc.Catalog.{PySchema, PyPolicy, empty_schema, default_policy}
use nlsqlc.Explain.{Explanation}
use nlsqlc.Engine.{PyCompileResult}
use nlsqlc.Json.{
  Json, null, boolean, text, float, object, Fields, no_fields, entry, natural, params_json,
  explanation_json,
}
use nlsqlc.Server.{Response, reply, json_response, risk_word}
use nlsqlc.Server.Rpc.{or_text}

abbrev pub schema_or_empty : Option PySchema → PySchema
schema_or_empty none = empty_schema
schema_or_empty (some s) = s

abbrev pub policy_or_default : Option PyPolicy → PyPolicy
policy_or_default none = default_policy
policy_or_default (some p) = p

abbrev pub is_ok : Status → Bool
is_ok Status.ok = true
is_ok (Status.failed f) = false

abbrev pub traced : String → Fields
traced trace = entry "trace_id" (text trace) no_fields

-- a 400 with a text under `error`
abbrev pub refuse : String → String → Response
refuse message trace = reply 400 (entry "error" (text message) (traced trace))

-- `int(self.headers.get("Content-Length", 0))`
unfoldable pub length_header : (ℕ → Option ℕ) → Option String → Outcome ℤ
length_header digit none = value (pos 0)
length_header digit (some t) =
    or_raise (int_of_text digit t) (value_error "invalid literal for int() with base 10")

-- `content_length > 1048576`
abbrev pub is_too_large : ℤ → Bool
is_too_large (pos n) = ltb 1048576 n
is_too_large (negsuc n) = false

-- The body that is parsed: without a positive length it is `{}`.
unfoldable pub body_text : ℤ → String ⊎ String → String ⊎ String
body_text (pos n) read = if eqb n 0 then inr "{}" else read
body_text (negsuc n) read = inr "{}"

-- `json.loads(body) if body else {}`
unfoldable pub parse_body : (String → String ⊎ Json) → String ⊎ String → String ⊎ Json
parse_body loads (inl message) = inl message
parse_body loads (inr body) = if body == "" then inr (object no_fields) else loads body

-- the response of `/v1/compile` to a result; the score and the duration are texts of floats
unfoldable pub compile_reply :
    (PyCompileResult → String) → String → String → PyCompileResult → Status → Response
unfolding params_json risk_word decimal
compile_reply score duration trace r Status.ok = reply 200 (
    entry "status" (text "OK") (
      entry "sql" (text r.sql) (
        entry "canonical_ir" (text r.ir) (
          entry "manifest" (text r.manifest) (
            entry "fingerprint" (text (decimal r.fingerprint)) (
              entry "complexity" (natural r.complexity) (
                entry "risk" (text (risk_word r.risk)) (
                  entry "relevance_score" (float (score r)) (
                    entry "params" (params_json r.params)
                      (entry "duration_ms" (float duration) (traced trace)))))))))))
compile_reply score duration trace r (Status.failed f) = reply 400 (
    entry "status" (text "ERROR") (
      entry "error" (text (or_text r.error (status_name (Status.failed f))))
        (entry "duration_ms" (float duration) (traced trace))))

-- the response of `/v1/validate`
unfoldable pub validate_reply : String → PyCompileResult → Status → Response
validate_reply trace r Status.ok =
    reply 200 (
      entry "valid" (boolean true) (entry "status" (text "OK") (entry "error" null (traced trace))))
validate_reply trace r (Status.failed f) = reply 400 (
    entry "valid" (boolean false) (
      entry "status" (text (status_name (Status.failed f)))
        (entry "error" (text r.error) (traced trace))))

-- the response of `/v1/question`
unfoldable pub question_reply :
    (PyCompileResult → String) → String → PyCompileResult → Status → Response
unfolding decimal
question_reply score trace r Status.ok = reply 200 (
    entry "status" (text "OK") (
      entry "sql" (text r.sql) (
        entry "fingerprint" (text (decimal r.fingerprint))
          (entry "relevance_score" (float (score r)) (traced trace)))))
question_reply score trace r (Status.failed f) = reply 400 (
    entry "status" (text "UNSUPPORTED")
      (entry "error" (text (or_text r.error "Unsupported question")) (traced trace)))

-- the response of `/v1/explain`, by the status in the dictionary
unfoldable pub explain_reply : Explanation → Response
unfolding explanation_json
explain_reply plan =
    json_response (if plan.status == "OK" then 200 else 400) (explanation_json plan)
