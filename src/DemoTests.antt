-- ===== src/DemoTests.antt =====
-- Runs of the models of examples/ and of the handles of the C library, and the theorems at concrete
-- inputs.
use nlsqlc.Base.{String, true, false, ◌≡◌, refl, List, [], ◌∷◌}
use nlsqlc.Base.Outcome.{Outcome, value, raised, runtime_error}
use nlsqlc.Samples.{plain}
use nlsqlc.Catalog.Build.{build_schema}
use nlsqlc.Engine.{compile_ir_engine}
use nlsqlc.Api.{compile_ir}
use nlsqlc.Handles.{World, benchmark}
use nlsqlc.Handles.Balance.{IsBalanced, benchmark-IsBalanced}
use nlsqlc.Agent.{Statement, asked, demo_schema, demo_policy, execute_agent_query, hacked_ir}
use nlsqlc.Agent.Bound.{IsSound, execute_agent_query-IsSound}

abbrev answering : Statement → Outcome (List String)
answering statement = value statement.args

execute_agent_query-IsSound_example :
    IsSound plain "tenant-acme" answering hacked_ir
      (execute_agent_query plain answering demo_schema demo_policy hacked_ir "tenant-acme")
execute_agent_query-IsSound_example =
    execute_agent_query-IsSound plain "tenant-acme" answering hacked_ir

-- The parameter of the text and the tenant of the session are bound, in this order.
hacked_answer :
    execute_agent_query plain answering demo_schema demo_policy hacked_ir "tenant-acme"
    ≡ value (
        asked
          (record {
            sql =
                "SELECT \"o\".\"id\" AS \"id\" FROM \"public\".\"orders\" AS \"o\" WHERE (\"o\".\"tenant_id\" = ?1) AND \"o\".\"tenant_id\" = ?2 LIMIT 10";
            args = "completed" ∷ "tenant-acme" ∷ [];
          })
          (value ("completed" ∷ "tenant-acme" ∷ [])))
unfolding execute_agent_query demo_schema demo_policy compile_ir compile_ir_engine build_schema
hacked_answer = refl

-- The context is created and the builder is, but the library refuses the second column.
abbrev refusing : World
refusing = record {
  script = 0 ∷ 0 ∷ 0 ∷ 0 ∷ 8 ∷ [];
  sent = [];
  live = [];
  next = 1;
  misused = false;
  pending = [];
}

benchmark-IsBalanced_example : IsBalanced refusing (benchmark (λ n. true) true 3 refusing)
benchmark-IsBalanced_example = benchmark-IsBalanced (λ n. true) true 3 refusing refl

-- The builder, which is the handle 2, is still alive when the exception leaves.
builder_pending : (benchmark (λ n. true) true 3 refusing).1.live ≡ 2 ∷ []
unfolding benchmark nlsqlc.Handles.without
builder_pending = refl

benchmark_refused : (benchmark (λ n. true) true 3 refusing).0 ≡ raised (runtime_error "TYPE")
unfolding benchmark
benchmark_refused = refl

benchmark_runs : (benchmark (λ n. true) true 3 (record refusing { script = [] })).0 ≡ value tt
unfolding benchmark
benchmark_runs = refl
