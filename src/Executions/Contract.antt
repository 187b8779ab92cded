-- ===== src/Executions/Contract.antt =====
-- What `transition_execution` of src/nyanya_agent/execution_store.py checks and changes.
use mathlib.Core.Option
use nyanya_agent.Prelude.{
  ℕ, ◌≡◌, ◌≢◌, refl, Bool, Option, none, some, inl, inr, arith, if◌then◌else◌, ◌==◌, Result-cases,
  ok, find, update, find-update,
}
use nyanya_agent.Ledger.{
  Ledger, Task, TaskStatus, Execution, ExecutionStatus, ExecutionMetadata, task_keyed,
  execution_keyed, execution_status_coded, whole_second,
}
use nyanya_agent.Tasks.{set_task_status}
use nyanya_agent.Executions.{
  check_transition, write_transition, transition_execution, set_execution_status, task_status_for,
  follow_task,
}
use nyanya_agent.Executions.Lifecycle.{IsChecked, check_transition-IsChecked}

-- The task's row after an attempt's status change.
abbrev pub followed : Option TaskStatus → ℕ → Option Task → Option Task
followed none now t = t
followed (some status) now none = none
followed (some status) now (some t) = some (set_task_status status now t)

pub record IsTransition (id : ℕ) (status : ExecutionStatus) (metadata : ExecutionMetadata)
    (force : Bool) (now : ℕ) (l l' : Ledger) : Type 0 where
  pub before : Execution
  pub checked : IsChecked id status force l before
  pub after : find id l'.executions ≡ some (set_execution_status status metadata now before)
  pub task_after :
      find before.task l'.tasks ≡ followed (task_status_for status) now (find before.task l.tasks)
  pub other_executions : (j : ℕ) → j ≢ id → find j l'.executions ≡ find j l.executions
  pub other_tasks : (j : ℕ) → j ≢ before.task → find j l'.tasks ≡ find j l.tasks

find-follow_task :
    (s : Option TaskStatus) (id now j : ℕ) (l : Ledger)
    → find j (follow_task s id now l.tasks)
      ≡ (if id == j then followed s now (find j l.tasks) else find j l.tasks)
unfolding follow_task set_task_status
find-follow_task none id now j l = ground arith
find-follow_task (some s) id now j l =
    ground (arith, find-update id j (set_task_status s now) l.tasks (λ r. refl))

find-set_execution_status :
    (id : ℕ) (status : ExecutionStatus) (metadata : ExecutionMetadata) (now j : ℕ) (l : Ledger)
    → find j (update id (set_execution_status status metadata now) l.executions) ≡ (
        if id == j
        then Option.map (set_execution_status status metadata now) (find j l.executions)
        else find j l.executions)
unfolding set_execution_status
find-set_execution_status id status metadata now j l =
    find-update id j (set_execution_status status metadata now) l.executions (λ r. refl)

module _ (id : ℕ) (status : ExecutionStatus) (metadata : ExecutionMetadata) (force : Bool)
    (actor clock : ℕ) (l : Ledger) where
  pub executions-transition :
      {l' : Ledger} {e : Execution} (j : ℕ)
      → transition_execution id status metadata force actor clock l ≡ ok l'
      → check_transition id status force l ≡ ok e
      → find j l'.executions ≡ (
          if id == j
          then Option.map
              (set_execution_status status metadata (whole_second clock))
              (find j l.executions)
          else find j l.executions)
  unfolding transition_execution write_transition
  executions-transition j h checked =
      ground (arith, find-set_execution_status id status metadata (whole_second clock) j l)

  pub tasks-transition :
      {l' : Ledger} {e : Execution} (j : ℕ)
      → transition_execution id status metadata force actor clock l ≡ ok l'
      → check_transition id status force l ≡ ok e
      → find j l'.tasks ≡ (
          if e.task == j
          then followed (task_status_for status) (whole_second clock) (find j l.tasks)
          else find j l.tasks)
  unfolding transition_execution write_transition
  tasks-transition {e = e} j h checked =
      ground (arith, find-follow_task (task_status_for status) e.task (whole_second clock) j l)

  -- A successful transition has passed every check, sets the attempt's row and, where the status
  -- implies one, its task's status and completion time, and changes no other attempt or task.
  pub transition_execution-IsTransition :
      {l' : Ledger}
      → transition_execution id status metadata force actor clock l ≡ ok l'
      → IsTransition id status metadata force (whole_second clock) l l'
  transition_execution-IsTransition h = elim (Result-cases (check_transition id status force l)) [
    | inl (e, checked) ↦
        let c = check_transition-IsChecked id status force l checked in
        record {
          before = e;
          checked = c;
          after = ground (arith, executions-transition id h checked, c.found);
          task_after = ground (arith, tasks-transition e.task h checked);
          other_executions = λ j other. ground (arith, executions-transition j h checked);
          other_tasks = λ j other. ground (arith, tasks-transition j h checked);
        }
    | inr (x, refused) ↦ absurd (unfold transition_execution in ground (arith, refused))
  ]

  check_transition_accepts :
      (e : Execution) → IsChecked id status force l e → check_transition id status force l ≡ ok e
  unfolding check_transition
  check_transition_accepts e c = ground (arith, c.final, c.listed)

  -- The checks are also enough: where they hold the transition is accepted.
  pub transition_execution_accepts :
      (e : Execution)
      → IsChecked id status force l e
      → (l' : Ledger) × (transition_execution id status metadata force actor clock l ≡ ok l')
  transition_execution_accepts e c =
      elim (Result-cases (transition_execution id status metadata force actor clock l)) [
        | inl done ↦ done
        | inr (x, refused) ↦
            absurd
              (unfold transition_execution in ground (arith, refused, check_transition_accepts e c))
      ]
