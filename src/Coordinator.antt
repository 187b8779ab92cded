-- ===== src/Coordinator.antt =====
-- The coordinator of external processes, src/nyanya_agent/execution_runtime.py. An adapter is the
-- interface `ExecutionAdapter`: what it answers is a parameter, and so is what other processes do to
-- the ledger while it works. A step reads the clock as a function of its number.
pub mod Start
pub mod Observe
pub mod Ended
pub mod Observed
pub mod Granted
pub mod Started
use nyanya_agent.Prelude.{
  ℕ, ◌+◌, max, Bool, true, false, not, ◌&&◌, ◌||◌, Option, none, some, List, [], ◌∷◌, if◌then◌else◌,
  leb, ltb, is_id, is_some, get_or, Result, ok, err, Error, key_error, value_error, runtime_error,
  permission_error, find, latest, select, order_by,
}
use nyanya_agent.Ledger.{
  Ledger, Execution, ExecutionStatus, ExecutionMetadata, LeaseNote, RuntimeSession, SessionStatus,
  WriterLease, execution_keyed, session_keyed, execution_status_coded, ◌is◌, ◌among◌,
  execution_terminal, seconds,
}
use nyanya_agent.Approvals.{check_approval}
use nyanya_agent.Leases.{acquire_writer_lease, release_writer_lease}
use nyanya_agent.Executions.{
  NewExecution, create_execution, transition_execution, heartbeat_runtime_session,
}
use nyanya_agent.Prelude.Steps.{
  Run, ◌>>=◌, ◌>>◌, return, raise, transact, read, require_that, try_except,
}

-- `ACTIVE_EXECUTION_STATUSES`
unfoldable pub active_status : ExecutionStatus → Bool
unfolding ◌among◌
active_status s = s among (
    ExecutionStatus.pending ∷ ExecutionStatus.starting ∷ ExecutionStatus.running
    ∷ ExecutionStatus.awaiting_approval ∷ ExecutionStatus.cancelling ∷ ExecutionStatus.stale ∷ [])

-- The fields of `AdapterObservation` that conditions read.
pub record Observation : Type 0 where
  pub status : ExecutionStatus
  pub running : Bool

-- The adapter of one type; a handle is a number.
pub record Adapter : Type 0 where
  pub start : ℕ → Result ℕ
  pub observe : ℕ → Observation
  pub cancel : ℕ → Observation

pub record StartRequest : Type 0 where
  pub execution : ℕ
  pub task : ℕ
  pub adapter : ℕ
  pub timeout_seconds : ℕ
  pub write_resource_key : Option ℕ
  pub approval_id : Option ℕ
  pub scope_hash : ℕ  -- `command_scope` of the request

abbrev pub no_metadata : ExecutionMetadata
no_metadata = record {
  worker_id = none;
  writer_lease = none;
  timeout_seconds = none;
  runtime_session = none;
  approval_id = none;
  legacy = none;
}

-- The actor "nyanya-agent" of the audit log.
abbrev pub system_actor : ℕ
system_actor = 0

-- `store.transition_execution`, which returns the row that it wrote.
unfoldable pub transition :
    ℕ → ExecutionStatus → ExecutionMetadata → Bool → ℕ → ℕ → Run Ledger Execution
transition id status metadata force actor clock = do
  transact (transition_execution id status metadata force actor clock)
  read (λ l. find id l.executions) key_error

unfoldable pub heartbeat : ℕ → ℕ → SessionStatus → Option ℕ → Option ℕ → ℕ → Run Ledger (Unit {0})
heartbeat id adapter status execution handle clock =
    transact (heartbeat_runtime_session id adapter status execution handle clock)

unfoldable pub release_note : Option LeaseNote → ℕ → Run Ledger (Unit {0})
release_note none id l = (ok tt, l)
release_note (some note) id l =
    (ok tt, (release_writer_lease note.resource_key id note.fence_token l).1)

-- `_release_lease`
unfoldable pub release_lease : Execution → Run Ledger (Unit {0})
unfolding release_note
release_lease e = release_note e.metadata.writer_lease e.id

-- A call of the adapter, during which others use the ledger.
unfoldable pub asked {ℓ} : {A : Type ℓ} → (Ledger → Ledger) → Result A → Run Ledger A
asked meanwhile answer l = (answer, meanwhile l)

-- `_session_for_execution`
unfoldable pub session_for : ℕ → Ledger → Option RuntimeSession
session_for id l = latest (λ s. s.updated_at) (λ s. is_id s.execution id) l.sessions

unfoldable pub finished_session : ExecutionStatus → SessionStatus
finished_session ExecutionStatus.succeeded = SessionStatus.stopped
finished_session ExecutionStatus.cancelled = SessionStatus.stopped
finished_session status = SessionStatus.failed

-- `status if status in EXECUTION_TERMINAL_STATUSES else "lost"`
unfoldable pub final_status : ExecutionStatus → ExecutionStatus
final_status status = if execution_terminal status then status else ExecutionStatus.lost
