-- ===== src/Coordinator/Start.antt =====
-- `start_command` of src/nyanya_agent/execution_runtime.py.
use nyanya_agent.Prelude.{
  ℕ, ◌+◌, max, false, Option, none, some, ok, Error, value_error, runtime_error, permission_error,
}
use nyanya_agent.Ledger.{
  Ledger, Execution, ExecutionStatus, ExecutionMetadata, SessionStatus, WriterLease,
  execution_keyed, session_keyed, execution_status_coded,
}
use nyanya_agent.Approvals.{check_approval}
use nyanya_agent.Leases.{acquire_writer_lease}
use nyanya_agent.Executions.{NewExecution, create_execution}
use nyanya_agent.Prelude.Steps.{Run, ◌>>=◌, ◌>>◌, return, raise, transact, read, try_except}
use nyanya_agent.Coordinator.{
  Adapter, StartRequest, no_metadata, system_actor, transition, heartbeat, release_lease, asked,
}

unfoldable pub write_guard : StartRequest → ℕ → Run Ledger (Unit {0})
write_guard r clock = elim r.write_resource_key [
  | none ↦ return tt
  | some key ↦ elim r.approval_id [
    | none ↦ raise permission_error
    | some approval ↦ transact (check_approval approval r.task r.scope_hash none clock)
  ]
]

unfoldable pub start_row : StartRequest → NewExecution
start_row r = record {
  id = r.execution;
  task = r.task;
  adapter = r.adapter;
  status = ExecutionStatus.starting;
  metadata = record no_metadata {
    timeout_seconds = some r.timeout_seconds;
    approval_id = r.approval_id;
  };
}

-- `store.acquire_writer_lease`
unfoldable pub acquire : ℕ → ℕ → ℕ → ℕ → Run Ledger (Option WriterLease)
acquire key owner ttl clock l =
    let answer = acquire_writer_lease key owner ttl clock l in (ok answer.0, answer.1)

unfoldable pub lease_note : ℕ → WriterLease → ExecutionMetadata
lease_note key lease = record no_metadata {
  writer_lease = some (record { resource_key = key; fence_token = lease.fence_token });
}

module _ (clock : ℕ → ℕ) where
  unfoldable pub leased : StartRequest → ℕ → Option WriterLease → Run Ledger (Unit {0})
  leased r key none = do
    _ ← transition r.execution ExecutionStatus.failed no_metadata false system_actor (clock 3)
    raise runtime_error
  leased r key (some lease) = do
    _ ←
        transition r.execution ExecutionStatus.starting (lease_note key lease) false system_actor
          (clock 3)
    return tt

  unfoldable pub take_lease : StartRequest → Run Ledger (Unit {0})
  unfolding leased
  take_lease r = elim r.write_resource_key [
    | none ↦ return tt
    | some key ↦ (do
      lease ← acquire key r.execution (max 60 (r.timeout_seconds + 30)) (clock 2)
      leased r key lease)
  ]

  -- The second check consumes the approval.
  unfoldable pub consume_guard : StartRequest → Run Ledger (Unit {0})
  consume_guard r = elim r.write_resource_key [
    | none ↦ return tt
    | some key ↦ elim r.approval_id [
      | none ↦ raise permission_error
      | some approval ↦
          transact (check_approval approval r.task r.scope_hash (some r.execution) (clock 4))
    ]
  ]

  unfoldable pub abandon : ℕ → Error → Run Ledger ℕ
  abandon id e = do
    failed ← transition id ExecutionStatus.failed no_metadata false system_actor (clock 5)
    release_lease failed
    raise e

  module _ (adapters : ℕ → Option Adapter) (meanwhile : Ledger → Ledger) where
    unfoldable pub launch : StartRequest → Adapter → Run Ledger ℕ
    launch r adapter = do consume_guard r; asked meanwhile (adapter.start r.execution)

    -- The session of an execution has the execution's number.
    unfoldable pub start_command : StartRequest → Run Ledger Execution
    start_command r = do
      adapter ← read (λ l. adapters r.adapter) value_error
      write_guard r (clock 0)
      transact (create_execution (start_row r) (clock 1))
      take_lease r
      handle ← try_except (launch r adapter) (abandon r.execution)
      heartbeat r.execution r.adapter SessionStatus.running (some r.execution) (some handle)
          (clock 6)
      transition r.execution ExecutionStatus.running
          (record no_metadata { runtime_session = some r.execution }) false system_actor (clock 7)
