-- ===== src/Coordinator/Observed.antt =====
-- What one observation of src/nyanya_agent/execution_runtime.py concludes.
use nyanya_agent.Prelude.{ℕ, ◌≡◌, true, false, Option, none, ◌⊎◌, if◌then◌else◌}
use nyanya_agent.Ledger.{
  Ledger, Execution, ExecutionStatus, execution_keyed, execution_status_coded, ◌is◌,
  execution_terminal,
}
use nyanya_agent.Coordinator.{Observation, Adapter, asked, session_for, final_status, active_status}
use nyanya_agent.Coordinator.Observe.{overdue, observe}
use nyanya_agent.Coordinator.Ended.{Asked, IsEnded}

module _ (clock : ℕ → ℕ) (adapters : ℕ → Option Adapter) (meanwhile : Ledger → Ledger) where
  -- What the execution's adapter answers for the session's handle: to the cancellation of what is
  -- overdue, and to the observation of all else.
  pub record IsReport (e : Execution) (l : Ledger) (report : Observation) : Type 0 where
    pub adapter : Adapter
    pub handle : ℕ
    pub asked : Asked clock adapters meanwhile e l adapter handle
    pub answered : report ≡ (
        if overdue clock adapters meanwhile e
        then adapter.cancel handle
        else adapter.observe handle)

  -- What `observe` can answer.
  pub data ObserveAnswer (e : Execution) (l : Ledger) (answer : Execution) (l' : Ledger)
      : Type 0 where
    no_session :
        session_for e.id l ≡ none
        → ((active_status e.status ≡ true) × (answer.status ≡ ExecutionStatus.lost))
          ⊎ ((active_status e.status ≡ false) × (answer ≡ e))
        → ObserveAnswer e l answer l'
    running :
        (report : Observation)
        → IsReport e l report
        → report.running ≡ true
        → ((answer ≡ e)
            × (report.status is ExecutionStatus.stale ≡ e.status is ExecutionStatus.stale))
          ⊎ ((answer.status ≡ ExecutionStatus.stale) × (report.status ≡ ExecutionStatus.stale))
          ⊎ ((answer.status ≡ ExecutionStatus.running) × (e.status ≡ ExecutionStatus.stale))
        → ObserveAnswer e l answer l'
    ended :
        (report : Observation)
        → IsReport e l report
        → report.running ≡ false
        → execution_terminal (final_status report.status) ≡ true
        → IsEnded e.id (final_status report.status) answer l'
        → ObserveAnswer e l answer l'
    timed_out :
        (report : Observation)
        → IsReport e l report
        → overdue clock adapters meanwhile e ≡ true
        → report.status ≡ ExecutionStatus.cancelled
        → IsEnded e.id ExecutionStatus.timed_out answer l'
        → ObserveAnswer e l answer l'
