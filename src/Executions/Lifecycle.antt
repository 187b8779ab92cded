-- ===== src/Executions/Lifecycle.antt =====
-- Terminal attempts under sequences of task creations and transitions, execution creations and
-- transitions and heartbeats (src/nyanya_agent/execution_store.py).
use nyanya_agent.Prelude.{
  ℕ, ◌≡◌, refl, Bool, true, false, Option, none, some, ◌⊎◌, inl, inr, List, [], ◌∷◌, arith, is_id,
  Result, Result-cases, ok, err, find, find-update, find-append, insert,
}
use nyanya_agent.Ledger.{
  Ledger, Task, TaskStatus, Execution, ExecutionStatus, ExecutionMetadata, SessionStatus,
  task_keyed, execution_keyed, session_keyed, execution_status_coded, ◌among◌,
  execution_transitions, execution_terminal, execution_status_code-injective, whole_second,
}
use nyanya_agent.Tasks.{NewTask, create_task, transition_task}
use nyanya_agent.Executions.{
  NewExecution, create_execution, check_transition, write_transition, transition_execution,
  heartbeat_runtime_session, set_execution_status, execution_row, beat, beat_execution,
}

pub data LedgerOp : Type 0 where
  create_task_op : NewTask → ℕ → LedgerOp
  transition_task_op : ℕ → TaskStatus → Bool → ℕ → ℕ → Ledger → LedgerOp
  create_execution_op : NewExecution → ℕ → LedgerOp
  transition_execution_op : ℕ → ExecutionStatus → ExecutionMetadata → Bool → ℕ → ℕ → LedgerOp
  heartbeat_op : ℕ → ℕ → SessionStatus → Option ℕ → Option ℕ → ℕ → LedgerOp

unfoldable pub attempt : LedgerOp → Ledger → Result Ledger
attempt (create_task_op n clock) l = create_task n clock l
attempt (transition_task_op id status force actor clock seen) l =
    transition_task id status force actor clock seen l
attempt (create_execution_op n clock) l = create_execution n clock l
attempt (transition_execution_op id status metadata force actor clock) l =
    transition_execution id status metadata force actor clock l
attempt (heartbeat_op id adapter status execution handle clock) l =
    heartbeat_runtime_session id adapter status execution handle clock l

-- `with connect(…)`: an error rolls back.
abbrev pub committed : Ledger → Result Ledger → Ledger
committed l (ok l') = l'
committed l (err e) = l

unfoldable pub run : List LedgerOp → Ledger → Ledger
run [] l = l
run (op ∷ ops) l = run ops (committed l (attempt op l))

abbrev pub status_in : Option Execution → Option ExecutionStatus
status_in none = none
status_in (some e) = some e.status

abbrev pub execution_status_of : ℕ → Ledger → Option ExecutionStatus
execution_status_of id l = status_in (find id l.executions)

abbrev pub is_current : ℕ → Option Task → Bool
is_current id none = false
is_current id (some t) = is_id t.current_execution id

-- What `transition_execution` has checked when it writes: the row is there, its task counts it as
-- the current attempt, a terminal status only repeats, and an unforced change is a listed one.
pub record IsChecked (id : ℕ) (status : ExecutionStatus) (force : Bool) (l : Ledger) (e : Execution)
    : Type 0 where
  pub found : find id l.executions ≡ some e
  pub owned : is_current id (find e.task l.tasks) ≡ true
  pub final : execution_terminal e.status ≡ true → status ≡ e.status
  pub listed :
      force ≡ false → (status ≡ e.status) ⊎ (status among execution_transitions e.status ≡ true)

pub check_transition-IsChecked :
    (id : ℕ) (status : ExecutionStatus) (force : Bool) (l : Ledger) {e : Execution}
    → check_transition id status force l ≡ ok e
    → IsChecked id status force l e
unfolding check_transition
check_transition-IsChecked id status force l {e} h = record {
  found = ground arith;
  owned = ground arith;
  final = λ over. execution_status_code-injective _ _ (ground arith);
  listed = λ free. ground (arith, execution_status_code-injective status e.status);
}

module _ (i : ℕ) {s : ExecutionStatus} (over : execution_terminal s ≡ true) (l : Ledger)
    (at : execution_status_of i l ≡ some s) where
  create_task-final :
      (n : NewTask) (clock : ℕ)
      → execution_status_of i (committed l (create_task n clock l)) ≡ some s
  unfolding create_task
  create_task-final n clock = ground arith

  transition_task-final :
      (id : ℕ) (status : TaskStatus) (force : Bool) (actor clock : ℕ) (seen : Ledger)
      → execution_status_of i (committed l (transition_task id status force actor clock seen l))
        ≡ some s
  unfolding transition_task
  transition_task-final id status force actor clock seen = ground arith

  create_execution-final :
      (n : NewExecution) (clock : ℕ)
      → execution_status_of i (committed l (create_execution n clock l)) ≡ some s
  unfolding create_execution insert execution_row
  create_execution-final n clock =
      ground (arith, find-append i l.executions (execution_row n (whole_second clock)))

  transition_execution-final :
      (id : ℕ) (status : ExecutionStatus) (metadata : ExecutionMetadata) (force : Bool)
      (actor clock : ℕ)
      → execution_status_of i
          (committed l (transition_execution id status metadata force actor clock l))
        ≡ some s
  unfolding transition_execution write_transition set_execution_status
  transition_execution-final id status metadata force actor clock =
      elim (Result-cases (check_transition id status force l)) [
        | inl (e, checked) ↦
            let c = check_transition-IsChecked id status force l checked in
            ground (
              arith,
              c.found,
              c.final,
              checked,
              find-update id i (set_execution_status status metadata (whole_second clock))
                  l.executions (λ r. refl),
            )
        | inr (x, refused) ↦ ground (arith, refused)
      ]

  heartbeat-final :
      (id adapter : ℕ) (status : SessionStatus) (execution handle : Option ℕ) (clock : ℕ)
      → execution_status_of i
          (committed l (heartbeat_runtime_session id adapter status execution handle clock l))
        ≡ some s
  unfolding heartbeat_runtime_session beat beat_execution
  heartbeat-final id adapter status none handle clock = ground arith
  heartbeat-final id adapter status (some e) handle clock =
      ground (arith, find-update e i (beat (whole_second clock)) l.executions (λ r. refl))

  attempt-final : (op : LedgerOp) → execution_status_of i (committed l (attempt op l)) ≡ some s
  unfolding attempt
  attempt-final (create_task_op n clock) = create_task-final n clock
  attempt-final (transition_task_op id status force actor clock seen) =
      transition_task-final id status force actor clock seen
  attempt-final (create_execution_op n clock) = create_execution-final n clock
  attempt-final (transition_execution_op id status metadata force actor clock) =
      transition_execution-final id status metadata force actor clock
  attempt-final (heartbeat_op id adapter status execution handle clock) =
      heartbeat-final id adapter status execution handle clock

-- An attempt whose status is terminal keeps that status under every sequence of task creations
-- and transitions, execution creations and transitions, forced or not, and heartbeats.
pub terminal_is_final :
    (ops : List LedgerOp) (i : ℕ) (l : Ledger) {s : ExecutionStatus}
    → execution_terminal s ≡ true
    → execution_status_of i l ≡ some s
    → execution_status_of i (run ops l) ≡ some s
unfolding run
terminal_is_final [] i l over at = at
terminal_is_final (op ∷ ops) i l over at =
    terminal_is_final ops i (committed l (attempt op l)) over (attempt-final i over l at op)
