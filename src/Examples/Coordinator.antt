-- ===== src/Examples/Coordinator.antt =====
-- Runs of the coordinator.
use nyanya_agent.Prelude.{
  ℕ, ◌+◌, true, false, Option, none, some, [], ◌∷◌, ◌≡◌, refl, Result, ok, err, find, latest,
  update, update_if, upsert, insert,
}
use nyanya_agent.Ledger.{
  Ledger, Execution, ExecutionStatus, Approval, ApprovalStatus, RuntimeSession, SessionStatus,
  execution_keyed, approval_keyed, execution_terminal, execution_status_code, execution_transitions,
  task_status_code, task_terminal, ◌among◌, approval_status_code,
}
use nyanya_agent.Approvals.{
  set_consumed, usable, check_approval, is_workspace_write, expired_at, decided_as_authorized,
  execution_exists,
}
use nyanya_agent.Coordinator.{
  Adapter, StartRequest, session_for, transition, asked, heartbeat, release_lease, release_note,
}
use nyanya_agent.Coordinator.Observe.{
  cancel, observe, cancel_found, cancel_session, stop_session, confirm_cancel,
}
use nyanya_agent.Coordinator.Start.{
  start_command, write_guard, start_row, abandon, acquire, consume_guard, launch, lease_note,
  leased, take_lease,
}
use nyanya_agent.Coordinator.Ended.{cancel-CancelAnswer, CancelAnswer}
use nyanya_agent.Coordinator.Granted.{IsGranted}
use nyanya_agent.Coordinator.Started.{start_command_consumes}
use nyanya_agent.Examples.{busy, an_execution}
use nyanya_agent.Examples.Approvals.{asked as asking}
use nyanya_agent.Prelude.Steps.{
  ◌>>=◌, read, ◌>>◌, transact, proceed, return, raise, recovered, try_except,
}
use nyanya_agent.Executions.{
  transition_execution, check_transition, write_transition, beat, beat_execution, follow_task,
  heartbeat_runtime_session, known_execution, merge_metadata, session_ended, session_row,
  set_execution_status, create_execution, execution_row, set_current_execution,
}
use nyanya_agent.Leases.{
  releasable, release_writer_lease, released, acquire_writer_lease, acquired_since, granted,
  held_by_other, next_fence,
}
use nyanya_agent.Tasks.{set_task_status}

-- A process that has failed, and whose cancellation cannot be confirmed.
abbrev an_adapter : Adapter
an_adapter = record {
  start = λ execution. ok (execution + 500);
  observe = λ handle. record { status = ExecutionStatus.failed; running = false };
  cancel = λ handle. record { status = ExecutionStatus.lost; running = true };
}

abbrev adapters : ℕ → Option Adapter
adapters kind = some an_adapter

abbrev clock : ℕ → ℕ
clock n = n + 20

abbrev alone : Ledger → Ledger
alone l = l

abbrev a_session : RuntimeSession
a_session = record {
  id = 11;
  execution = some 11;
  adapter = 2;
  status = SessionStatus.running;
  handle = some 511;
  started_at = 10;
  last_heartbeat_at = 10;
  ended_at = none;
  updated_at = 10;
}

abbrev supervised : Ledger
supervised = record (busy ExecutionStatus.running) { sessions = a_session ∷ [] }

abbrev or_else : Result Execution → Execution → Execution
or_else (ok e) d = e
or_else (err x) d = d

abbrev a_cancel : Result Execution × Ledger
a_cancel = cancel clock adapters alone 11 5 supervised

abbrev cancelled_one : Execution
cancelled_one = or_else a_cancel.0 (an_execution ExecutionStatus.pending)

cancel_returns : cancel clock adapters alone 11 5 supervised ≡ (ok cancelled_one, a_cancel.1)
unfolding cancel ◌>>=◌ read find execution_terminal cancel_found session_for latest cancel_session
    stop_session transition ◌>>◌ transact transition_execution check_transition write_transition
    update confirm_cancel proceed return asked heartbeat release_lease release_note beat
    beat_execution follow_task heartbeat_runtime_session known_execution merge_metadata
    session_ended session_row set_execution_status releasable release_writer_lease released
    execution_status_code execution_transitions task_status_code task_terminal ◌among◌ update_if
    upsert set_task_status
cancel_returns = refl

cancel-CancelAnswer_example :
    (e : Execution) × (find 11 supervised.executions ≡ some e)
    × CancelAnswer clock adapters alone e supervised cancelled_one a_cancel.1
cancel-CancelAnswer_example =
    cancel-CancelAnswer clock adapters alone 11 5 supervised cancel_returns

abbrev an_observation : Result Execution × Ledger
an_observation = observe clock adapters alone 11 supervised

abbrev observed_one : Execution
observed_one = or_else an_observation.0 (an_execution ExecutionStatus.pending)

abbrev a_start : StartRequest
a_start = record {
  execution = 12;
  task = 1;
  adapter = 2;
  timeout_seconds = 600;
  write_resource_key = some 3;
  approval_id = some 21;
  scope_hash = 77;
}

abbrev a_launch : Result Execution × Ledger
a_launch = start_command clock adapters alone a_start (asking ApprovalStatus.approved (some 5))

abbrev started_one : Execution
started_one = or_else a_launch.0 (an_execution ExecutionStatus.pending)

start_returns :
    start_command clock adapters alone a_start (asking ApprovalStatus.approved (some 5))
    ≡ (ok started_one, a_launch.1)
unfolding start_command ◌>>=◌ read ◌>>◌ write_guard transact check_approval find usable
    approval_status_code is_workspace_write expired_at decided_as_authorized create_execution
    start_row insert execution_row execution_exists set_consumed abandon acquire consume_guard
    launch lease_note leased take_lease proceed raise recovered return try_except asked heartbeat
    release_lease release_note transition beat beat_execution check_transition follow_task
    heartbeat_runtime_session known_execution merge_metadata session_ended session_row
    set_current_execution set_execution_status transition_execution write_transition
    acquire_writer_lease acquired_since granted held_by_other next_fence releasable
    release_writer_lease released execution_status_code execution_terminal execution_transitions
    task_status_code task_terminal ◌among◌ update update_if upsert set_task_status
start_returns = refl

start_command_consumes_example :
    (started_one.status ≡ ExecutionStatus.running)
    × ((approval : ℕ) × (a : Approval) × (some 21 ≡ some approval)
        × (find approval (asking ApprovalStatus.approved (some 5)).approvals ≡ some a)
        × IsGranted 1 77 24 a
        × (find approval a_launch.1.approvals ≡ some (set_consumed 12 a)))
start_command_consumes_example =
    start_command_consumes clock adapters alone a_start (asking ApprovalStatus.approved (some 5))
      (λ l i a final there. there) refl start_returns
