-- ===== src/Client/Batches.antt =====
-- The dialect that is passed to the asynchronous client, and the results of a batch.
use nlsqlc.Base.{String, ◌≡◌, refl, ap, List, [], ◌∷◌, map}
use nlsqlc.Base.Outcome.{value, ◌>>=◌}
use nlsqlc.Runtime.{Runtime}
use nlsqlc.Catalog.{Dialect, postgres}
use nlsqlc.Engine.{compile_ir_engine}
use nlsqlc.Api.{compile_ir, read_arguments, compile_request, run_engine}
use nlsqlc.Client.{AsyncNlsqlClient, compile, compile_batch}

-- A batch gives the results of its texts, in their order, one for each, and each as the engine gives it
-- for PostgreSQL, whatever the dialect is that is asked for.
pub compile_batch-postgres :
    (rt : Runtime) (client : AsyncNlsqlClient) (irs : List String) (d : Dialect)
    → compile_batch rt client irs d
      ≡ value (map (compile_ir_engine rt client.schema client.policy postgres) irs)
unfolding compile_batch compile compile_ir read_arguments compile_request run_engine
compile_batch-postgres rt client [] d = refl
compile_batch-postgres rt client (ir ∷ irs) d =
    ap (λ o. o >>= λ rs. value (compile_ir_engine rt client.schema client.policy postgres ir ∷ rs))
      (compile_batch-postgres rt client irs d)
