-- ===== src/Server/Get.antt =====
-- tools/server.py: `do_GET`.
use nlsqlc.Base.{String, ◌||◌, Option, none, some, if◌then◌else◌, ◌==◌}
use nlsqlc.Base.Outcome.{Outcome, value, ◌>>=◌}
use nlsqlc.Metrics.{render_prometheus}
use nlsqlc.Json.{text, no_fields, entry, natural}
use nlsqlc.Server.{Environment, State, Request, Moment, Response, page, reply, or_else}
use nlsqlc.Server.Replies.{traced}

module _ (env : Environment) (m : Moment env) where
  not_found : String → Response
  not_found path = reply 404 (entry "error" (text "Not Found") (entry "path" (text path) no_fields))

  -- the branches of `do_GET` behind the page of the playground
  unfoldable pub get_route : String → String → State env → Outcome Response
  unfolding render_prometheus not_found
  get_route path trace s =
      if path == "/healthz" || path == "/readyz" || path == "/livez"
      then value
          (reply 200 (entry "status" (text "UP") (entry "version" (text "0.1.2") (traced trace))))
      else if path == "/metrics"
      then (render_prometheus env.formats m.uptime s.metrics >>= λ p.
          value (record { status = 200; content = page p }))
      else if path == "/v1/version"
      then value (
          reply 200 (
            entry "name" (text "nlsqlc") (
              entry "version" (text "0.1.2")
                (entry "abi_version" (natural 1) (entry "ir_version" (natural 2) no_fields)))))
      else value (not_found path)

  playground_or : Option String → Outcome Response → Outcome Response
  playground_or none rest = rest
  playground_or (some p) rest = value (record { status = 200; content = page p })

  unfoldable pub do_get : Request → State env → Outcome Response
  unfolding playground_or get_route
  do_get q s =
      let rest = get_route q.path (or_else m.fresh_trace q.trace_header) s in
      if q.path == "/" || q.path == "/playground" then playground_or m.playground rest else rest
