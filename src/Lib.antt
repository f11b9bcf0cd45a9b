-- ===== src/Lib.antt =====
-- Verification of the trusted Go kernel of the agent harness.
--
-- The program. A run (go/internal/workflow/run.go, run_completion.go) goes from a draft through the
-- approval of a specification and of a task graph, the execution, verification, review and approval
-- of one candidate commit, to a recorded merge. Its tasks (task.go) are planned from the approved
-- task graph; each is leased, reasoned about, executed, verified, reviewed and approved, within a
-- limit of attempts. Both are snapshots that typed commands change; every accepted command yields
-- the next snapshot and events. The store (store.go) reserves the command, appends the events and
-- updates the snapshots in one transaction. Services around it (execution, verification, review,
-- approval, publication, the reasoning gateway) act on a run only by such commands. Every
-- transaction is retried after a conflict (go/internal/postgres/retry.go).
--
-- The files.
--   Base                 shared helpers: tests, lists, results, the patterns over texts, Go's int
--   Workflow/Types       types.go: states, actors, artifacts, envelopes, errors, events
--   Workflow/Actors      the tests of an actor's kind
--   Workflow/Task        task.go: Model (snapshot), Command, Checks and Apply (`Task.Apply`); proofs
--                        in Inversion, Lifecycle, Effect, Evidence, Fencing, Trace, Approval, Attempts
--   Workflow/Plan        `NewPlannedTasks`: Graph (maps), Kahn (`taskGraphAcyclic`), Build; proofs in
--                        Graph/Maps, Counting, Kahn/*, Accepted
--   Workflow/Run         run.go and run_completion.go: Model, Command, Intake, Completion, Apply, and
--                        Decide (`decideRunCommand` of store.go); proofs in Inversion, Lifecycle,
--                        Evidence, History, Approvals, Merge
--   Workflow/Store       store.go: Rows, Tables (tables, transactions), Commands (reservation and
--                        replay), Records (statements), Dependents, Gates, Execute (`ExecuteRun`,
--                        `ExecuteTask`), Within (`ExecuteRunTx`); proofs in Rows/Codec, Steps,
--                        Decisions, Sound (the invariant) and its children, Kept, Replay and its
--                        children
--   Postgres             go/internal/postgres/retry.go: Retry (`IsTransient`, `RetryTransaction`); proofs
--                        in Retried
--   Orchestration        go/internal/orchestration/reconciler.go: Backoff (`saturatingBackoff`),
--                        Failure (`handleFailure`) and Once (a round on the job ledger); proof in
--                        Released
--   Runtime              go/internal/runtime/ledger.go: Jobs (the table of jobs and its statements), Queue
--                        (`Claim` and sequences of calls), Idempotency (`BeginIdempotency` and
--                        its reservations); proofs in Follows, Calls, History, Fencing, Claims and
--                        Replies
--   */Tests              samples, tests and the theorems at concrete inputs
--
-- The correspondence. A Go method keeps its name in snake case: `Task.recordExecution` is
-- `Task.Apply.record_execution`, `Run.approve` is `approve_step`, `Run.ApproveTaskGraph` is
-- `approve_planning`, `Run.Apply` with `applyCompletion` is `apply_run`. A struct is a record with
-- the source's fields. An interface of commands is a data type with a constructor for each command.
-- `(T, error)` is `Result Err T`, where an error is the sentinel that it wraps, which is what
-- `errors.Is` sees. A pointer that may be nil is an `Option`. uint32 and uint64 are natural numbers
-- with their wrap-around written out. A time is the count of nanoseconds since Go's zero time. A
-- map is a function or the list of its keys.
--
-- What comes from outside: `Env` holds whether `uuid.Parse` and `url.ParseRequestURI` accept a
-- text, the result of `uuid.NewSHA1`, and the order in which `range` visits a map's keys; the one
-- law that a theorem assumes of it is that every key is visited once. `Driver` holds what a retried
-- transaction calls: the callback, the error code, the random draw and the wait; the law that a
-- theorem assumes of it is that a draw below a positive bound is below that bound.
--
-- `Backend` holds what the store takes from outside: its columns, the order of the rows of a query
-- that names none, the JSON text of a command, if it can be encoded, and the hash. `Columns` are
-- what a `timestamptz` keeps of a time, a `uuid` of an identifier's spelling and a `jsonb` of a
-- text, with the JSON of a run's lifecycle bindings; every identifier goes through its column where
-- it is written and where a statement compares it. The laws that theorems assume are that such a
-- query returns its rows and that a `uuid` column keeps a spelling that it has given back. `Store`
-- holds the fault injection.
--
-- Transactions. The tables are lists of rows. A transaction is serializable, so it is a function
-- from the tables it begins with to a result and the tables it commits, or to an error, after which
-- the tables are as they were. The parameter `arrived` are the commands that others have committed
-- meanwhile, which an insertion may collide with. Primary keys, unique constraints and the foreign
-- keys of dependencies are modelled, with the failure of the statement that breaks one.
--
-- The job ledger runs at read committed: each call is one statement, or one on a locked row, so a
-- history is a sequence of calls, and `locked` are the rows that `SKIP LOCKED` passes over.
-- `Database` holds what a column keeps of a time and the order of identifiers; the answer of an
-- idempotency reservation is the text that its `jsonb` column keeps of the response. `Worker` holds
-- what a round of the reconciler calls: the handler, the artifact store, `uuid.NewSHA1` and `fmt`,
-- and the times it reads.
--
-- Fuel: the loop of `taskGraphAcyclic` gets one unit for each task. A task joins the queue at most
-- once, so this is enough, and the test is proved to return. The retry loop counts its five rounds.
--
-- Not modelled: the text that an error wraps, the JSON of a command's result and of an event's
-- payload, which are kept as values, the spelling of identifiers in the job ledger, a nil command
-- or transaction, the location of a time, the range of the database's integers and its CHECK
-- constraints, a begin or a commit that fails, the time of completion of a command, the
-- reconciler's heartbeat and its polling loop, and, so far, the other packages around
-- go/internal/workflow.

pub mod Base
pub mod Workflow
pub mod Postgres
pub mod Orchestration
pub mod Runtime
