-- ===== src/Executions.antt =====
-- Executions: `create_execution`, `transition_execution` and `heartbeat_runtime_session` of
-- src/nyanya_agent/execution_store.py. Exit codes, error texts and the confidence, which no
-- condition reads, are left out.
pub mod Lifecycle
pub mod Contract
pub mod Settled
use nyanya_agent.Prelude.{
  ℕ, Bool, true, false, not, ◌&&◌, Option, none, some, [], ◌∷◌, List, if◌then◌else◌, is_id, is_some,
  ◌or◌, Result, ok, ◌>>=◌, ◌>>◌, raise_if, require, key_error, stale_execution, terminal_transition,
  invalid_transition, runtime_error, integrity_error, find, update, insert, upsert,
}
use nyanya_agent.Ledger.{
  Ledger, Task, TaskStatus, Execution, ExecutionStatus, ExecutionMetadata, RuntimeSession,
  SessionStatus, task_keyed, execution_keyed, session_keyed, execution_status_coded, ◌is◌, ◌among◌,
  execution_terminal, execution_transitions, whole_second, append_event, event, log_audit,
  execution_created, execution_status,
}
use nyanya_agent.Tasks.{set_task_status}

-- `status in {"starting", "running"}`
abbrev pub execution_started : ExecutionStatus → Bool
execution_started s = s among (ExecutionStatus.starting ∷ ExecutionStatus.running ∷ [])

pub record NewExecution : Type 0 where
  pub id : ℕ
  pub task : ℕ
  pub adapter : ℕ
  pub status : ExecutionStatus
  pub metadata : ExecutionMetadata

unfoldable pub execution_row : NewExecution → ℕ → Execution
execution_row n now =
    let started : Option ℕ = if execution_started n.status then some now else none in
    record {
      id = n.id;
      task = n.task;
      adapter = n.adapter;
      status = n.status;
      metadata = n.metadata;
      created_at = now;
      started_at = started;
      ended_at = if execution_terminal n.status then some now else none;
      last_heartbeat_at = started;
      updated_at = now;
    }

unfoldable pub set_current_execution : ℕ → ℕ → Task → Task
set_current_execution execution now t = record t {
  current_execution = some execution;
  updated_at = now;
}

unfoldable pub create_execution : NewExecution → ℕ → Ledger → Result Ledger
create_execution n clock l = do
  let now = whole_second clock
  _ ← require (find n.task l.tasks) key_error
  executions ← insert (execution_row n now) l.executions
  append_event (event execution_created (some n.task) (some n.id)) (record l {
    executions = executions;
    tasks = update n.task (set_current_execution n.id now) l.tasks;
  })

-- `existing.update(metadata)`
unfoldable pub merge_metadata : ExecutionMetadata → ExecutionMetadata → ExecutionMetadata
merge_metadata new old = record {
  worker_id = new.worker_id or old.worker_id;
  writer_lease = new.writer_lease or old.writer_lease;
  timeout_seconds = new.timeout_seconds or old.timeout_seconds;
  runtime_session = new.runtime_session or old.runtime_session;
  approval_id = new.approval_id or old.approval_id;
  legacy = new.legacy or old.legacy;
}

-- The columns that `updates` sets.
unfoldable pub set_execution_status :
    ExecutionStatus → ExecutionMetadata → ℕ → Execution → Execution
set_execution_status status metadata now e = record e {
  status = status;
  updated_at = now;
  started_at =
      if execution_started status && not (is_some e.started_at) then some now else e.started_at;
  last_heartbeat_at = if status is ExecutionStatus.running then some now else e.last_heartbeat_at;
  ended_at = if execution_terminal status then some now else e.ended_at;
  metadata = merge_metadata metadata e.metadata;
}

-- The task status that an execution status brings with it.
abbrev pub task_status_for : ExecutionStatus → Option TaskStatus
task_status_for ExecutionStatus.starting = some TaskStatus.running
task_status_for ExecutionStatus.running = some TaskStatus.running
task_status_for ExecutionStatus.awaiting_approval = some TaskStatus.awaiting_approval
task_status_for ExecutionStatus.stale = some TaskStatus.blocked
task_status_for ExecutionStatus.succeeded = some TaskStatus.completed
task_status_for ExecutionStatus.failed = some TaskStatus.failed
task_status_for ExecutionStatus.timed_out = some TaskStatus.failed
task_status_for ExecutionStatus.lost = some TaskStatus.failed
task_status_for ExecutionStatus.cancelled = some TaskStatus.cancelled
task_status_for ExecutionStatus.pending = none
task_status_for ExecutionStatus.cancelling = none

unfoldable pub follow_task : Option TaskStatus → ℕ → ℕ → List Task → List Task
follow_task none task now tasks = tasks
follow_task (some status) task now tasks = update task (set_task_status status now) tasks

-- The checks at the head of `transition_execution`: the row that is about to change.
unfoldable pub check_transition : ℕ → ExecutionStatus → Bool → Ledger → Result Execution
check_transition id status force l = do
  current ← require (find id l.executions) key_error
  owner ← require (find current.task l.tasks) runtime_error
  raise_if (not (is_id owner.current_execution id)) stale_execution
  raise_if (execution_terminal current.status && not (status is current.status)) terminal_transition
  raise_if
      (not (status is current.status)
        && not force
        && not (status among execution_transitions current.status))
      invalid_transition
  ok current

-- Its two UPDATE statements.
unfoldable pub write_transition :
    ℕ → ExecutionStatus → ExecutionMetadata → ℕ → Execution → Ledger → Ledger
write_transition id status metadata now current l = record l {
  executions = update id (set_execution_status status metadata now) l.executions;
  tasks = follow_task (task_status_for status) current.task now l.tasks;
}

unfoldable pub transition_execution :
    ℕ → ExecutionStatus → ExecutionMetadata → Bool → ℕ → ℕ → Ledger → Result Ledger
transition_execution id status metadata force actor clock l = do
  current ← check_transition id status force l
  let moved = write_transition id status metadata (whole_second clock) current l
  logged ←
      (if status is current.status
        then ok moved
        else append_event (event execution_status (some current.task) (some id)) moved)
  ok (log_audit actor execution_status id logged)

unfoldable pub session_ended : SessionStatus → Bool
session_ended SessionStatus.stopped = true
session_ended SessionStatus.failed = true
session_ended SessionStatus.cancelled = true
session_ended s = false

unfoldable pub session_row :
    ℕ → Option ℕ → ℕ → SessionStatus → Option ℕ → ℕ → Option RuntimeSession → RuntimeSession
session_row id execution adapter status handle now current = record {
  id = id;
  execution = execution;
  adapter = adapter;
  status = status;
  handle = handle;
  started_at = elim current [ none ↦ now | some s ↦ s.started_at ];
  last_heartbeat_at = now;
  ended_at = if session_ended status then some now else none;
  updated_at = now;
}

unfoldable pub beat : ℕ → Execution → Execution
beat now e = record e { last_heartbeat_at = some now; updated_at = now }

-- The foreign key runtime_sessions.execution_id.
unfoldable pub known_execution : Option ℕ → Ledger → Bool
known_execution none l = true
known_execution (some e) l = is_some (find e l.executions)

unfoldable pub beat_execution : Option ℕ → ℕ → List Execution → List Execution
beat_execution none now executions = executions
beat_execution (some e) now executions = update e (beat now) executions

-- Hosts are not modelled: the heartbeat of a host is left out.
unfoldable pub heartbeat_runtime_session :
    ℕ → ℕ → SessionStatus → Option ℕ → Option ℕ → ℕ → Ledger → Result Ledger
heartbeat_runtime_session id adapter status execution handle clock l = do
  raise_if (not (known_execution execution l)) integrity_error
  let now = whole_second clock
  ok (record l {
    sessions =
        upsert (session_row id execution adapter status handle now (find id l.sessions)) l.sessions;
    executions = beat_execution execution now l.executions;
  })
