-- ===== src/Coordinator/Observe.antt =====
-- `observe`, `cancel` and `recover_active` of src/nyanya_agent/execution_runtime.py.
use nyanya_agent.Prelude.{
  ℕ, zero, suc, ◌+◌, Bool, true, false, not, ◌&&◌, Option, none, some, List, [], ◌∷◌, if◌then◌else◌,
  ltb, is_some, get_or, ok, key_error, value_error, runtime_error, find, select, order_by,
}
use nyanya_agent.Ledger.{
  Ledger, Execution, ExecutionStatus, RuntimeSession, SessionStatus, execution_keyed, session_keyed,
  execution_status_coded, ◌is◌, execution_terminal, seconds,
}
use nyanya_agent.Prelude.Steps.{Run, ◌>>=◌, ◌>>◌, return, read}
use nyanya_agent.Coordinator.{
  active_status, Observation, Adapter, no_metadata, system_actor, transition, heartbeat,
  release_lease, asked, session_for, finished_session, final_status,
}

module _ (clock : ℕ → ℕ) (adapters : ℕ → Option Adapter) (meanwhile : Ledger → Ledger) where
  unfoldable pub follow_running : Execution → RuntimeSession → ℕ → Bool → Run Ledger Execution
  follow_running e s handle stale = do
    heartbeat s.id e.adapter (if stale then SessionStatus.stale else SessionStatus.running)
        (some e.id) (some handle) (clock 2)
    if stale && not (e.status is ExecutionStatus.stale)
        then transition e.id ExecutionStatus.stale no_metadata false system_actor (clock 3)
        else if not stale && e.status is ExecutionStatus.stale
        then transition e.id ExecutionStatus.running no_metadata false system_actor (clock 3)
        else return e

  unfoldable pub settle_observed :
      Execution → RuntimeSession → ℕ → ExecutionStatus → Run Ledger Execution
  settle_observed e s handle status = do
    transitioned ← transition e.id status no_metadata true system_actor (clock 2)
    heartbeat s.id e.adapter (finished_session status) (some e.id) (some handle) (clock 3)
    release_lease transitioned
    return transitioned

  -- `_apply_observation`
  unfoldable pub apply_observation :
      Execution → RuntimeSession → ℕ → Observation → Run Ledger Execution
  apply_observation e s handle observation =
      if observation.running
      then follow_running e s handle (observation.status is ExecutionStatus.stale)
      else settle_observed e s handle (final_status observation.status)

  unfoldable pub overdue : Execution → Bool
  overdue e = active_status e.status && elim e.started_at [
    | none ↦ false
    | some started ↦ ltb (started + seconds (get_or e.metadata.timeout_seconds 600)) (clock 0)
  ]

  unfoldable pub time_out : Execution → RuntimeSession → ℕ → Run Ledger Execution
  time_out e s handle = do
    timed_out ← transition e.id ExecutionStatus.timed_out no_metadata true system_actor (clock 2)
    heartbeat s.id e.adapter SessionStatus.failed (some e.id) (some handle) (clock 3)
    release_lease timed_out
    return timed_out

  -- After the attempt to cancel what ran too long.
  unfoldable pub judge_overdue : Execution → RuntimeSession → ℕ → Observation → Run Ledger Execution
  judge_overdue e s handle cancellation =
      if cancellation.status is ExecutionStatus.cancelled
      then time_out e s handle
      else apply_observation e s handle cancellation

  unfoldable pub observe_handle : Execution → RuntimeSession → ℕ → Adapter → Run Ledger Execution
  observe_handle e s handle adapter =
      if overdue e
      then asked meanwhile (ok (adapter.cancel handle)) >>= judge_overdue e s handle
      else asked meanwhile (ok (adapter.observe handle)) >>= apply_observation e s handle

  unfoldable pub observe_session : Execution → RuntimeSession → Run Ledger Execution
  observe_session e s = do
    handle ← read (λ l. s.handle) runtime_error
    adapter ← read (λ l. adapters e.adapter) value_error
    observe_handle e s handle adapter

  unfoldable pub observe_found : Execution → Option RuntimeSession → Run Ledger Execution
  observe_found e none =
      if active_status e.status
      then transition e.id ExecutionStatus.lost no_metadata true system_actor (clock 2)
      else return e
  observe_found e (some s) = observe_session e s

  unfoldable pub observe : ℕ → Run Ledger Execution
  observe id = do
    e ← read (λ l. find id l.executions) key_error
    s ← read (λ l. some (session_for id l)) key_error
    observe_found e s

  unfoldable pub confirm_cancel : Execution → RuntimeSession → ℕ → ℕ → Bool → Run Ledger Execution
  confirm_cancel e s actor handle confirmed = do
    cancelled ←
        transition e.id (if confirmed then ExecutionStatus.cancelled else ExecutionStatus.lost)
          no_metadata true actor (clock 3)
    heartbeat s.id e.adapter (if confirmed then SessionStatus.cancelled else SessionStatus.failed)
        (some e.id) (some handle) (clock 4)
    release_lease cancelled
    return cancelled

  unfoldable pub stop_session : Execution → RuntimeSession → ℕ → ℕ → Adapter → Run Ledger Execution
  stop_session e s actor handle adapter = do
    _ ← transition e.id ExecutionStatus.cancelling no_metadata true actor (clock 2)
    observation ← asked meanwhile (ok (adapter.cancel handle))
    confirm_cancel e s actor handle (observation.status is ExecutionStatus.cancelled)

  unfoldable pub cancel_session : Execution → RuntimeSession → ℕ → Run Ledger Execution
  cancel_session e s actor = do
    handle ← read (λ l. s.handle) runtime_error
    adapter ← read (λ l. adapters e.adapter) value_error
    stop_session e s actor handle adapter

  unfoldable pub cancel_found : Execution → Option RuntimeSession → ℕ → Run Ledger Execution
  cancel_found e none actor = transition e.id ExecutionStatus.lost no_metadata true actor (clock 2)
  cancel_found e (some s) actor = cancel_session e s actor

  unfoldable pub cancel : ℕ → ℕ → Run Ledger Execution
  cancel id actor = do
    e ← read (λ l. find id l.executions) key_error
    if execution_terminal e.status
        then return e
        else (do s ← read (λ l. some (session_for id l)) key_error; cancel_found e s actor)

-- `LIMIT`
unfoldable pub newest : ℕ → List Execution → List Execution
newest limit [] = []
newest zero (e ∷ es) = []
newest (suc limit) (e ∷ es) = e ∷ newest limit es

unfoldable pub recoverable : Execution → Bool
recoverable e = active_status e.status && not (is_some e.metadata.worker_id)

-- The clock of each observation is another.
module _ (clocks : ℕ → ℕ → ℕ) (adapters : ℕ → Option Adapter) (meanwhile : Ledger → Ledger) where
  unfoldable pub observe_all : ℕ → List Execution → Run Ledger (List Execution)
  observe_all n [] = return []
  observe_all n (e ∷ es) = do
    observed ← observe (clocks n) adapters meanwhile e.id
    rest ← observe_all (n + 1) es
    return (observed ∷ rest)

  -- `list_executions(limit=500)`, newest first
  unfoldable pub recover_active : Run Ledger (List Execution)
  recover_active = do
    listed ←
        read (λ l. some (newest 500 (order_by (λ a b. ltb b.created_at a.created_at) l.executions)))
          key_error
    observe_all 0 (select recoverable listed)
