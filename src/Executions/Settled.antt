-- ===== src/Executions/Settled.antt =====
-- About the times `completed_at` and `ended_at` beside the statuses (execution_store.py).
use native.Mathlib.Decide.{ℕ_discrete}
use nyanya_agent.Prelude.{
  ℕ, ◌≡◌, refl, Bool, true, Option, none, some, inl, inr, List, [], ◌∷◌, arith, is_some,
  Result-cases, find, find-update, find-append, insert,
}
use nyanya_agent.Ledger.{
  Ledger, Task, TaskStatus, Execution, ExecutionStatus, ExecutionMetadata, SessionStatus,
  task_keyed, execution_keyed, task_terminal, execution_terminal, whole_second,
}
use nyanya_agent.Tasks.{
  NewTask, create_task, transition_task, set_task_status, task_row, check_context,
}
use nyanya_agent.Executions.{
  NewExecution, create_execution, transition_execution, heartbeat_runtime_session,
  set_execution_status, task_status_for, execution_row, set_current_execution, beat, beat_execution,
}
use nyanya_agent.Executions.Lifecycle.{
  LedgerOp, create_task_op, transition_task_op, create_execution_op, transition_execution_op,
  heartbeat_op, attempt, committed, run,
}
use nyanya_agent.Executions.Contract.{followed, IsTransition, transition_execution-IsTransition}

abbrev pub TaskSettled : Option Task → Type 0
TaskSettled none = Unit
TaskSettled (some t) = is_some t.completed_at ≡ task_terminal t.status

abbrev pub ExecutionSettled : Option Execution → Type 0
ExecutionSettled none = Unit
ExecutionSettled (some e) = is_some e.ended_at ≡ execution_terminal e.status

-- A task has a completion time exactly when its status is terminal, an execution an end time.
pub record IsSettled (l : Ledger) : Type 0 where
  pub tasks : (i : ℕ) → TaskSettled (find i l.tasks)
  pub executions : (i : ℕ) → ExecutionSettled (find i l.executions)

set_task_status-settled :
    (status : TaskStatus) (now : ℕ) (t : Task) → TaskSettled (some (set_task_status status now t))
unfolding set_task_status
set_task_status-settled status now t = ground arith

followed-settled :
    (s : Option TaskStatus) (now : ℕ) (t : Option Task)
    → TaskSettled t
    → TaskSettled (followed s now t)
followed-settled none now t h = h
followed-settled (some s) now none h = tt
followed-settled (some s) now (some t) h = set_task_status-settled s now t

set_execution_status-settled :
    (status : ExecutionStatus) (metadata : ExecutionMetadata) (now : ℕ) (e : Execution)
    → ExecutionSettled (some e)
    → (execution_terminal e.status ≡ true → status ≡ e.status)
    → ExecutionSettled (some (set_execution_status status metadata now e))
unfolding set_execution_status
set_execution_status-settled status metadata now e h final = ground arith

task_row-settled :
    (n : NewTask) (project : Option ℕ) (now : ℕ) → TaskSettled (some (task_row n project now))
unfolding task_row
task_row-settled n project now = ground arith

execution_row-settled : (n : NewExecution) (now : ℕ) → ExecutionSettled (some (execution_row n now))
unfolding execution_row
execution_row-settled n now = ground arith

module _ (l : Ledger) (s : IsSettled l) where
  create_task-IsSettled :
      (n : NewTask) (clock : ℕ) → IsSettled (committed l (create_task n clock l))
  unfolding create_task insert
  create_task-IsSettled n clock = elim (Result-cases (check_context n.project n.codex_session l)) [
    | inl (project, checked) ↦ record {
      tasks = λ i. ground (
        arith,
        checked,
        s.tasks i,
        find-append i l.tasks (task_row n project (whole_second clock)),
        task_row-settled n project (whole_second clock),
      );
      executions = λ i. ground (arith, checked, s.executions i);
    }
    | inr (x, refused) ↦ record {
      tasks = λ i. ground (arith, refused, s.tasks i);
      executions = λ i. ground (arith, refused, s.executions i);
    }
  ]

  transition_task-IsSettled :
      (id : ℕ) (status : TaskStatus) (force : Bool) (actor clock : ℕ) (seen : Ledger)
      → IsSettled (committed l (transition_task id status force actor clock seen l))
  unfolding transition_task set_task_status
  transition_task-IsSettled id status force actor clock seen = record {
    tasks = λ i. ground (
      arith,
      s.tasks i,
      find-update id i (set_task_status status (whole_second clock)) l.tasks (λ r. refl),
    );
    executions = λ i. ground (arith, s.executions i);
  }

  create_execution-IsSettled :
      (n : NewExecution) (clock : ℕ) → IsSettled (committed l (create_execution n clock l))
  unfolding create_execution insert set_current_execution
  create_execution-IsSettled n clock = record {
    tasks = λ i. ground (
      arith,
      s.tasks i,
      find-update n.task i (set_current_execution n.id (whole_second clock)) l.tasks (λ r. refl),
    );
    executions = λ i. ground (
      arith,
      s.executions i,
      execution_row-settled n (whole_second clock),
      find-append i l.executions (execution_row n (whole_second clock)),
    );
  }

  IsSettled-IsTransition :
      {id : ℕ} {status : ExecutionStatus} {metadata : ExecutionMetadata} {force : Bool} {now : ℕ}
      {l' : Ledger}
      → IsTransition id status metadata force now l l'
      → IsSettled l'
  IsSettled-IsTransition {id} {status} {metadata} {force} {now} {l'} t = record {
    tasks = λ i. elim (ℕ_discrete i t.before.task) [
      | yes same ↦
          rw (same, t.task_after)
            (followed-settled (task_status_for status) now _ (s.tasks t.before.task))
      | no other ↦ rw (t.other_tasks i other) (s.tasks i)
    ];
    executions = λ i. elim (ℕ_discrete i id) [
      | yes same ↦
          rw (same, t.after)
            (set_execution_status-settled status metadata now t.before
              (rw t.checked.found at (s.executions id)) t.checked.final)
      | no other ↦ rw (t.other_executions i other) (s.executions i)
    ];
  }

  transition_execution-IsSettled :
      (id : ℕ) (status : ExecutionStatus) (metadata : ExecutionMetadata) (force : Bool)
      (actor clock : ℕ)
      → IsSettled (committed l (transition_execution id status metadata force actor clock l))
  transition_execution-IsSettled id status metadata force actor clock =
      elim (Result-cases (transition_execution id status metadata force actor clock l)) [
        | inl (l', done) ↦ rw done (
            IsSettled-IsTransition
              (transition_execution-IsTransition id status metadata force actor clock l done))
        | inr (x, refused) ↦ rw refused s
      ]

  heartbeat-IsSettled :
      (id adapter : ℕ) (status : SessionStatus) (execution handle : Option ℕ) (clock : ℕ)
      → IsSettled
          (committed l (heartbeat_runtime_session id adapter status execution handle clock l))
  unfolding heartbeat_runtime_session beat beat_execution
  heartbeat-IsSettled id adapter status none handle clock = record {
    tasks = λ i. ground (arith, s.tasks i);
    executions = λ i. ground (arith, s.executions i);
  }
  heartbeat-IsSettled id adapter status (some e) handle clock = record {
    tasks = λ i. ground (arith, s.tasks i);
    executions = λ i. ground (
      arith,
      s.executions i,
      find-update e i (beat (whole_second clock)) l.executions (λ r. refl),
    );
  }

  attempt-IsSettled : (op : LedgerOp) → IsSettled (committed l (attempt op l))
  unfolding attempt
  attempt-IsSettled (create_task_op n clock) = create_task-IsSettled n clock
  attempt-IsSettled (transition_task_op id status force actor clock seen) =
      transition_task-IsSettled id status force actor clock seen
  attempt-IsSettled (create_execution_op n clock) = create_execution-IsSettled n clock
  attempt-IsSettled (transition_execution_op id status metadata force actor clock) =
      transition_execution-IsSettled id status metadata force actor clock
  attempt-IsSettled (heartbeat_op id adapter status execution handle clock) =
      heartbeat-IsSettled id adapter status execution handle clock

-- Every sequence of task creations and transitions, execution creations and transitions, forced
-- or not, and heartbeats keeps the invariant: a task has a completion time exactly when its status
-- is terminal, and an execution has an end time exactly when its status is.
pub run-IsSettled : (ops : List LedgerOp) (l : Ledger) → IsSettled l → IsSettled (run ops l)
unfolding run
run-IsSettled [] l s = s
run-IsSettled (op ∷ ops) l s =
    run-IsSettled ops (committed l (attempt op l)) (attempt-IsSettled l s op)
