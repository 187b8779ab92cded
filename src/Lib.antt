-- ===== src/Lib.antt =====
-- The execution ledger of nyanya-agent, as a model of the Python package src/nyanya_agent.
--
-- The program runs the work of messenger users through local agent processes. Its state is one
-- SQLite database; every operation is a transaction over it. A request becomes a task with an
-- operation; a worker claims it, which starts an execution; the worker's result is committed under
-- the claim; file changes wait for a reviewed plan's approval; external commands need an approval
-- bound to their scope and a writer lease.
--
-- - Prelude (Tests, Results, Tables, Queries, Orders, Steps): Boolean tests, computations that may raise,
--   SQL statements on lists of rows and their lemmas, sequences of transactions.
-- - Ledger (Status, Rows, Events): the tables of execution_store.py and operation_schema.py, their
--   statuses and transition tables, `append_event_conn` and `log_audit`.
-- - Leases: `acquire_writer_lease`, `renew_writer_lease` and `release_writer_lease` of
--   execution_store.py. Fencing runs them in sequences, Refinement compares them with a map of locks.
-- - Tasks, Executions: creation and transitions of tasks and executions and the session heartbeat of
--   execution_store.py. Lifecycle and Settled run them in sequences, Contract is about one transition.
-- - Approvals: `request_approval` and `decide_approval` of execution_store.py and `check_approval` of
--   approval_contract.py. Trail and SingleUse run them in sequences.
-- - Paths: texts, `PurePosixPath` and the path checks of upload_approval.py. RoundTrip is about what a
--   checked path denotes.
-- - Uploads (Scope): upload_approval.py. Shut and SingleUse run its operations in sequences with those
--   of the approvals, Bounds counts the pending ones.
-- - Effects: `_unresolved_effects` of operation_store.py; Certain is about what its absence means.
-- - Conversations: the session and turn operations of conversation_store.py. Reset is about late answers.
-- - WorkQueue (Finish): work_queue.py. Trace, Once and Delivery run its operations in sequences,
--   Outcomes is about what is stored.
-- - Operations (Intake, Dispatch, Control, Cancel, Upgrade): operation_store.py, and Admission, Recovery, Slots,
--   Withdrawn,
--   Exclusion and Consent about its intake, recoveries, claims, resumptions and cancellations;
--   Progress is about what a claim takes and when.
-- - Apply (Checks): `apply` of reviewed_changes.py, over the ledger and the workspace's files. Follows,
--   Leftovers and Crash are about the files wherever it stops, Applied and Written about how it ends. Resolution and
--   Resolve: `observe`, `reconcile`, `plan_file` and `resolve`, with Observed and Resolved about what they see
--   and settle.
-- - Coordinator (Start, Observe): execution_runtime.py, over adapters that are parameters. Ended,
--   Observed, Granted and Started are about what cancel, observe and start_command have done when they return.
-- - Messages: `split_message` of bridge_store.py, a loop on fuel, of which the text's length is enough.
-- - Plans: the decisions of reviewed_changes.py and `require_plan_conn` of work_drafts.py.
--   Submit: `approve_and_submit_apply` of operation_store.py.
-- - Examples: a small ledger and runs of the operations on it.
--
-- An operation is a function from the ledger to a result: an exception is an error and the ledger
-- stays as it was; `decide_approval`, which commits before it raises, and `resume`, which recovers
-- first, return the ledger as well. A transaction that begins with BEGIN IMMEDIATE or with a
-- write holds SQLite's write lock, so an interleaving of processes is a sequence of operations.
-- `transition_task`, `attach_codex_session` and `update_task_context` read before that: their checks
-- are of an earlier ledger, an argument of their own. Every other operation is one step. Identifiers, owners, workspaces and hashes are only
-- compared: they are numbers, never the empty text. New identifiers are arguments; an INSERT of a
-- taken primary key raises. Instants are microseconds, and the clock is an argument: the statements
-- hold for every clock, also one that goes back. One transaction reads it once. All other loops
-- are over lists of rows, so no bounds or fuel are needed.
--
-- Free texts, exit codes, confidences, hosts, redaction and the columns that no condition reads are
-- left out. The coordinator's functions and `apply` are sequences of transactions: what is committed stays when a
-- later step raises; they read the clock once per step, and other processes may do anything to the
-- ledger while an adapter works and before each transaction of `apply`, but write none of the files that
-- it applies. An application's temporary files are apart from the others: their names hold the plan's
-- random number. `check_workspace` asks a record of functions for the file system and the workspace
-- configuration. `work_memory.complete_conn`, which `finish` also calls, writes only its own tables and
-- is left out. Bridges, the dashboard, logs, providers and the command line are not modelled: they are
-- I/O around these operations. Drafts and proposals of plans are not modelled here.
pub mod Prelude
pub mod Paths
pub mod Ledger
pub mod Leases
pub mod Tasks
pub mod Executions
pub mod Approvals
pub mod Uploads
pub mod Effects
pub mod Conversations
pub mod WorkQueue
pub mod Coordinator
pub mod Messages
pub mod Operations
pub mod Plans
pub mod Apply
pub mod Examples
