-- ===== src/Lib.antt =====
-- A verification library of the semantics toolchain (Python, src/assistant_memory and
-- src/review_harness): the memory's graph of versioned nodes, who sees and may write what, the
-- scheduler that runs jobs on that graph, and the guard, the gates and the run catalogue of the
-- review harness.
--
-- The parts and how they interact. The graph's tables are the shared state: `Graph` has the
-- functions that change them, `Access` reads them for an account, `Policy` decides how strict a
-- write is, and `Proposals` applies the writes that a human approved. A job is a node of the
-- graph: `Scheduler.Job` finds due jobs, claims and finishes them by updates of the graph with the
-- objects that the session holds; a job's predicate is accepted and evaluated by
-- `Scheduler.Predicate`; what a reasoner answers is accepted and turned into actions by
-- `Scheduler.Plan`, and `Scheduler.Act` executes the actions on the graph within the job's fence.
-- `Scheduler.Runner` composes all of these for each job that is due.
--
-- Prelude (Tests, Lists, Filters, Text, Int, Raising): Boolean tests on numbers, lists measured by
--   native numbers, what holds of all or some members of a list, Python's text operations over
--   code points, signed integers, and `Result` for code that raises, with do blocks.
-- Json (Data, Compare, Convert, Laws): JSON values as data, dicts in the order of their keys,
--   comparison, `uuid.UUID(str(v))` and `int(v)`. A finite float is m / 2^k.
-- Graph: src/assistant_memory/models/graph.py and repository/graph.py. Tables has the records,
--   Nodes create_node, get_node, update_node and delete_node, Edges link, unlink, the references to
--   spaces and the derived sensitivity, Operations all of them as one type and their runs. The laws
--   are in Versions, Written, Invariant, Cas, Containment and Sharing.
-- Access: src/assistant_memory/access.py. Reading has the class Access, Subtree containment_subtree;
--   the laws are in Scopes, Permissions, Neighbors, Hidden, Isolation and Descent.
-- Policy: src/assistant_memory/policy.py. Factors has the factors, evaluate and enforcement, and
--   Strictest the laws.
-- Scheduler.Predicate: src/assistant_memory/scheduler/predicate.py. Grammar has validate, Evaluation
--   evaluate; Shape, Clauses, Soundness, Named, Reads and Boolean the laws.
-- Scheduler.Plan: src/assistant_memory/scheduler/plan.py. Validation has validate_final_plan,
--   Actions canonical_actions, Decimal the numbers of keys; Contract and Order the laws.
-- Scheduler.Act: src/assistant_memory/scheduler/act.py. Fence has parse_writes_scope and the fence
--   phase of execute_actions, Execution the rest; Confined the law.
-- Scheduler.Job: src/assistant_memory/scheduler/job.py and scheduler/repository.py. Time has iso,
--   View the class ScheduledJob, Lease due_jobs, claim_job, finish_job and next_due; Claims
--   the laws.
-- Scheduler.Gather: src/assistant_memory/scheduler/gather.py. Steps has validate_gather_steps with its
--   registry and validators, and gather_budget_chars, Running effective_principal, run_steps and
--   run_gather; Contract and Budget the laws.
-- Scheduler.Reasoning: src/assistant_memory/scheduler/reasoning.py. Fences has _strip_json_fences,
--   Backends the reasoners and get_reasoner; Wrapping the law.
-- Scheduler.Runner: src/assistant_memory/scheduler/runner.py. Summary has the record of a run and
--   _run_source_ref, Execution execute, Processing _process, tick and _sleep_seconds; Finishing,
--   Containment, Handlers and Endings the laws.
-- Scheduler.Authoring: src/assistant_memory/scheduler/authoring.py. Building has initial_next_run and
--   build_job_properties, Schedulable the law that ties them to advance of job.py.
-- Proposals: src/assistant_memory/proposals.py. Staged has a proposal and its fields, Ordering
--   order_proposals, Applying apply_proposal; Emitting, Batches, Order, Cycles, Tokens and
--   Parents the laws.
-- ReviewHarness.Guard: src/review_harness/readonly_guard.py. Argv has the guard of the critic's
--   command, Output the reading of its output; Grammar and Parsing have the form of a command, and
--   Commands and Attestation the laws.
-- ReviewHarness.Gates: src/review_harness/gates.py. Words has _read_yes_no, Asking the questions;
--   Reading and Answers the laws.
-- ReviewHarness.Catalogue: src/review_harness/runcat.py. Files has the names and the reading of
--   files, Meta the checks of run.json and of a round's metadata, Restoring restore and RunState,
--   Writing and Repairing the operations of RunCatalog that write, Calls sequences of them; Numbers
--   and Ranges are about lists of round numbers, Naming, Checks, History, Replacing, Trace and Records are the laws.
-- In each component the file Examples has its tests and the theorems at concrete inputs.
--
-- Correspondence. A function keeps its name. Database sessions are explicit state: a function that
-- writes returns the new `Graph` beside its result, and one that raises returns `err` and no graph.
-- Ids are numbers, drawn from the counter `next_id`; a UUID is its 128-bit number. Timestamps that are
-- only tested for NULL are Booleans, other times are microseconds since the start of the year 1, in
-- UTC. Columns that a check constraint restricts to a few values are data types. An exception is a
-- constructor; its message is left out.
--
-- Bounds and fuel. `decimal` has the number itself, plus one, as fuel, which is at least the
-- number of its digits; `digits_of` has the number itself. `uuid_of_number` writes at most 32
-- digits and treats longer numbers apart.
-- A loop with an index (`while i < len(argv)`) is a recursion on the list that remembers what the
-- token before asks for. `rounds` of a batch has the number of its proposals as fuel, and each
-- round takes out one at least. `closure`, the recursive query of containment_subtree, has one
-- round for each edge: each round adds the source of an edge, so there is none to add after them.
-- All other recursions are structural.
--
-- Parameters. The answers of a reasoner, the results of the read tools, json.loads and json.dumps,
-- the texts of errors, croniter, the text that the database gives to a JSON value that is neither
-- a text nor a Boolean, Python's repr, git's answer, the disk's to a write, and Python's reading of
-- an ISO time are arguments of the definitions that use them; no theorem assumes anything of them.
--
-- Not modelled: concurrent transactions (orders of whole operations are), broken foreign keys to
-- spaces and accounts and those of references, HTTP, pages, processes, models and search, the
-- stores of reviews and audiences, the waiting loop of the scheduler's runner, the composite read
-- of gather.py, and parse_iso of job.py. The order in which the database returns rows is that of
-- the table.
pub mod Access
pub mod Graph
pub mod Json
pub mod Policy
pub mod Prelude
pub mod Proposals
pub mod ReviewHarness
pub mod Scheduler
