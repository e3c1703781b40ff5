-- ===== src/Lib.antt =====
-- A model of the pure-Python engine of nlsqlc, bindings/python/nlsql.py: a compiler that takes a
-- query, written as an S-expression, and the catalog of a database to SQL text with bound
-- parameters, under a policy of allowed tables, denied columns and tenant predicates.
--
-- A query is read by `_py_parse_sexpr` (Sexpr), folded by `_py_optimize_ast` (Optimizer), taken
-- apart into its clauses and tables by the first part of `_py_compile_ir_engine` (Plan), and
-- written as SQL by the second part (Body), which calls `_py_emit_expr` (Emit, with the texts of
-- the operators in Forms). Engine puts these together, with the test of the denied columns and the
-- result. The entry points above it are `compile_ir`, `compile_cte` and `compile_set` (Api),
-- `compile_question` (Question), `explain` and `diff` (Explain), and the class `Query` (Builder).
-- Catalog has the schema and the policy with the constants, Catalog/Build what `Schema` and
-- `Policy` put into them, Fingerprint `_py_fingerprint`. The part of a child module is in its name:
-- Sexpr/Parse, Sexpr/RoundTrip, Sexpr/Concat, Sexpr/Numerals, Builder/*, Optimizer/Normal,
-- Optimizer/*, Catalog/Build/Tables, Action/*, Emit/Rule, Plan/Tables, Body/*, Engine/*,
-- Api/Combined, Question/Dialects, Explain/Identical, Importer/Types, Importer/Identifiers and
-- Worker/* hold proofs about the module above them; Optimizer/Logic has the logics in which a tree
-- is given a meaning.
--
-- Client has what stands around a compilation: `CompileResult`, which reads the result of either
-- engine, `AsyncNLSQLClient` and `TenantContextMiddleware`. Handles has how `Context`, `Schema`,
-- `Policy` and a result create, use and destroy the handles of the C library, up to the `with`
-- blocks of `benchmark`; an exception keeps the object whose `__init__` raised until it is dropped,
-- and Handles/* hold the proofs. Agent has
-- examples/ai-agent-integration/agent_demo.py: its catalog, and how it binds the arguments of the
-- statement that it hands to the database (Agent/Bound for the proof).
--
-- tools/server.py is an HTTP gateway over the engine: Gateway has `NLSQLGateway.reload`, Limiter
-- the token buckets, Metrics the counters and their page, Json the values that requests and
-- responses hold, and Server the handlers. `do_POST` (Server/Post, with the JSON-RPC branch in
-- Server/Rpc and the dictionaries of the answers in Server/Replies) takes a request and a `State`
-- of gateway, metrics and limiter to an answer and a state; `do_GET` (Server/Get) changes nothing.
-- An exception that leaves a handler is an answer too: the connection ends without a response.
-- Server/Reads has what a request asks for and a response says, and Server/Relation the steps that a
-- request can be; Server/Steps, Server/Answers, Server/Certified and Server/Batch build on these.
--
-- Of the other programs under tools/, Importer has sqlite_schema_import.py, with `atomic_write` in
-- Importer/Write, `main` in Importer/Main and the proofs in Importer/Posts, Importer/Files and
-- Importer/Commands; Introspect has db_introspect.py, Worker worker.py, Monitor the anomaly detector
-- of monitor.py, and Repl the loop of repl.py, as a step per line, with what it prints in
-- Repl/Texts. What a database answers, the text of a file and SHA-256 are
-- arguments there. Monitor/History, Limiter/Clients, Metrics/*, Introspect/*, Repl/* and
-- Client/* hold proofs, Base/Window and Base/Dict/Laws lemmas that they use.
--
-- How the program's state is modelled. `params`, the list that `_py_emit_expr` appends to, is the
-- state of the monad `Action` (Action), whose computations end as an `Outcome` (Base/Outcome): a
-- value, an exception that the engine's `except` turns into the status PARSE, or an early return
-- with a status and a text. A dictionary is a list of pairs in insertion order (Base/Dict). A list
-- inside a query is a `Nodes`; the loop of the parser, which appends to the innermost open list,
-- puts a list into the one around it when it closes, which no one can see before. Python's `int` is
-- ℤ, its `str` the native String.
--
-- Fuel. `emit_fuel` recurses on fuel, and `emit_expr` gives it the height of the expression: every
-- call goes down to an operand, whose height is smaller. The other loops are structural.
--
-- Parameters. Runtime is what Python's own library does and the model leaves open: arithmetic and
-- the reading of floats, the Unicode classes of characters, `str.upper` and `repr`. Environment
-- (Server) adds `json.loads`, `str.lower` and `str`; Floats (Limiter), Formats (Metrics) and
-- Statistics (Monitor) have the floats of those classes, with the laws that the limiter needs in
-- FloatLaws; Native (Client) has the functions of the C library that read a result. Os
-- (Importer/Write) says which calls of the operating system fail, and World (Handles) which statuses
-- the C library returns; a function stands for the database of Agent. A Logic (Optimizer/Logic) is
-- any meaning of the operators, with the laws of its connectives, numbers and equality in IsLawful.
--
-- Not modelled: the C library; the ctypes structures, and the calls to the library but for those of
-- Client and Handles, so `_native_lib` is None everywhere else; `relevance_score`, a float; the
-- limits that CPython sets on recursion and on the digits of an integer; strings with surrogates;
-- errors of a database in the middle of its answers; directories, and the power failing between a
-- write and its `fsync`. Requests are served one by one; the locks of the limiter, the metrics and
-- the gateway make each of their methods one step. Sockets, the bytes of a response, the texts that
-- agent_demo.py prints, the files that db_introspect.py writes, times, the log and the pauses of the
-- worker are left out, and so are the command lines but for the importer's, tools/live-db-matrix.py
-- and the release scripts, which run commands and statements of fixed text and print.
--
-- Samples, Tests, QueryTests, ToolTests, ServerTests, ConsoleTests, DemoTests and LogicTests run the
-- model on small inputs and apply the results to them.
pub mod Base
pub mod Runtime
pub mod Sexpr
pub mod Optimizer
pub mod Catalog
pub mod Action
pub mod Forms
pub mod Emit
pub mod Fingerprint
pub mod Plan
pub mod Body
pub mod Engine
pub mod Api
pub mod Question
pub mod Builder
pub mod Explain
pub mod Importer
pub mod Worker
pub mod Gateway
pub mod Monitor
pub mod Limiter
pub mod Metrics
pub mod Json
pub mod Server
pub mod Introspect
pub mod Repl
pub mod Client
pub mod Agent
pub mod Handles
mod Samples
mod Tests
mod ToolTests
mod ServerTests
mod ConsoleTests
mod QueryTests
mod DemoTests
mod LogicTests
