-- ===== src/Lib.antt =====
-- The router in src/sir serves several language models from one GPU: requests wait in one queue per
-- model, and a scheduler decides which model is loaded. The parts and the files that model them:
--
-- Types (src/sir/types.py): the records and enums that the parts exchange. Request holds the
-- generation half and Scheduling the half that the policy sees.
-- Config (src/sir/config.py): the sections with their validators, and the lookups by name and by tag.
-- Policy (src/sir/policy.py): Defs has score_model and decide. decide is one function in the source;
-- its numbered steps are the definitions choose, past_ceiling, among, contest and by_score, in this
-- order. Estimate has estimate_wait.
-- Queues (src/sir/queues.py): Defs has every operation of ModelQueues. The code shares mutable request
-- objects between the queues, the engine, the jobs and the HTTP handlers, so a request is a reference
-- into a heap, and an assignment to its attributes is a write to the heap. View, Popping and Fifo
-- relate the queues to the lists of live requests, which is what a reader of the interface sees.
-- Jobs (src/sir/jobs.py): Defs has Job and creation, Life has polls, the pump, cancellation and the
-- sweep. A job refers to its request in the same heap.
-- Engine (src/sir/engine.py): Defs has the state, submit and _snapshot; Serve has _serve, one turn of
-- the backend's stream at a time; Loop has the steps of the control loop; Switch has _drain and
-- _switch; Estimate has estimate_wait. The control loop is one task, so its steps are functions on the
-- state. Loop and Switch give each step whole: where it awaits, the outcome is an argument, and
-- nothing else happens meanwhile. Control cuts the same steps at the awaits: a Phase is the await that
-- the loop is at, resume is the stretch to the next one, and Steps is the relation in which arrivals,
-- departures, turns of served requests and stretches of the loop follow each other in any order.
-- Shutdown has start and stop. A served task has begun before it can be stopped. The set of failed
-- models is a list.
-- Api (src/sir/api.py): Document has _document without the rendered completion and error, Flow has
-- chat_completions and the job endpoints as functions on the engine and the jobs, Sse has _sse with
-- the text of its frames and Collect has _collect with build_response of schemas.py. What they read of
-- the HTTP request is an argument.
-- Backends (src/sir/backends): for vllm.py, Sse has _parse_sse and _usage, Stream has stream, whose
-- items are the turns that the engine's _serve takes, and the body sent upstream; Vllm has start, stop
-- and the health loop. The server, Docker, json and the wording of errors are arguments. Mock has the
-- simulated backend of backends/mock.py.
-- Client (clients/python/src/sir_client): Registry has registry.py; Polling has the wait for a job and
-- Run has submit and run of client.py. The router's answers and the clock are arguments.
-- Schemas (src/sir/schemas.py): the request body and its translation for the backend, over the JSON of
-- Json.
-- Prelude and Float are shared. Prelude has the lists, Prelude.Dict the dictionaries in insertion
-- order as association lists, which raise KeyError as none.
-- Floats are not modelled bit by bit: F with its operations is a parameter (Float), and the theorems
-- that need it take Laws: a total order, and monotone operations. Both hold of IEEE doubles without
-- NaN, of which the code makes none in these places. Float.Fixed is an instance in thousandths, on
-- which the definitions run. Positions, depths and counters are natural numbers, as Python's integers
-- do not overflow; where the code subtracts from a capacity, it has returned already if the result
-- were negative. Loops are structural, over queues, lists of jobs, lines, hosts, or the turns of a
-- stream; _await_health alone takes fuel, and the number of polls until the clock passes the deadline,
-- plus one, is enough. A wait of the client runs over what it meets, and is none if it goes on. The
-- logs keep their last 200 entries, as the source's _HISTORY.
-- Not modelled: HTTP itself, the clocks, the handle of a job in the Python client, the command line
-- and the log output; load_config, which reads YAML; asyncio itself. The TypeScript client is another
-- language.
pub mod Prelude
pub mod Float
pub mod Json
pub mod Types
pub mod Config
pub mod Policy
pub mod Queues
pub mod Schemas
pub mod Jobs
pub mod Engine
pub mod Api
pub mod Backends
pub mod Client
pub mod Examples
