-- ===== src/Operations/Control.antt =====
-- What an owner does to a task: `dismiss`, `acknowledge_delivery` and `resume` of
-- src/nyanya_agent/operation_store.py, with its `record_start_failure` and `claim_delivery`.
use nyanya_agent.Prelude.{
  ℕ, Bool, true, false, not, ◌&&◌, ◌||◌, Option, none, some, List, [], ◌∷◌, if◌then◌else◌, ◌==◌,
  leb, is_id, is_some, Result, ok, err, ◌>>=◌, ◌>>◌, raise_if, require, permission_error,
  safe_operation, find, update, update_if, touches, insert, any_row,
}
use nyanya_agent.Ledger.{
  Ledger, Task, TaskStatus, Execution, ExecutionStatus, Operation, HoldReason, TaskResult, Outcome,
  DeliveryStatus, ChangePlan, PlanStatus, task_keyed, execution_keyed, claim_keyed, result_keyed,
  operation_keyed, worker_keyed, plan_keyed, task_status_coded, execution_status_coded,
  approval_status_coded, delivery_status_coded, plan_status_coded, outcome_coded, ◌is◌, ◌among◌,
  append_event, event, operation_dismissed, operation_resume_requested,
  operation_worker_start_failed, delivery_acknowledged,
}
use nyanya_agent.Effects.{is_apply, unresolved_effects}
use nyanya_agent.WorkQueue.Finish.{set_delivery, undelivered}
use nyanya_agent.Operations.{Workspaces, check_workspace, worker_ready}
use nyanya_agent.Operations.Dispatch.{recover}

unfoldable pub set_dismissed : ℕ → Task → Task
set_dismissed now t = record t {
  metadata = record t.metadata { dismissed_at = some now };
  updated_at = now;
}

unfoldable pub dismiss_conn : Task → ℕ → Ledger → Result (TaskStatus × Ledger)
dismiss_conn t now l = do
  raise_if (not (t.status is TaskStatus.failed) || unresolved_effects t.id true l) safe_operation
  if is_some t.metadata.dismissed_at then ok (TaskStatus.failed, l) else (do
    logged ←
        append_event (event operation_dismissed (some t.id) none)
          (record l { tasks = update t.id (set_dismissed now) l.tasks })
    ok (TaskStatus.failed, logged))

-- `_require_selected_revision`, negated: an expectation that is given holds.
unfoldable pub selected_revision : Option TaskStatus → Option ℕ → Task → Bool
selected_revision status updated_at t =
    elim status [ none ↦ true | some s ↦ t.status is s ]
    && elim updated_at [ none ↦ true | some u ↦ t.updated_at == u ]

-- The guards that `dismiss` and `cancel` share: the owner's task at the revision that was selected.
unfoldable pub owned_task : ℕ → ℕ → Option TaskStatus → Option ℕ → Ledger → Result Task
owned_task task owner status updated_at l = do
  t ← require (find task l.tasks) permission_error
  raise_if (not (t.requested_by == owner)) permission_error
  raise_if (not (selected_revision status updated_at t)) safe_operation
  ok t

unfoldable pub dismiss :
    ℕ → ℕ → Option TaskStatus → Option ℕ → ℕ → Ledger → Result (TaskStatus × Ledger)
dismiss task owner status updated_at now l = do
  t ← owned_task task owner status updated_at l
  dismiss_conn t now l

unfoldable pub ambiguous : DeliveryStatus → Bool
ambiguous s = s among (DeliveryStatus.sending ∷ DeliveryStatus.uncertain ∷ [])

-- The result of the task's current execution.
unfoldable pub current_result : Task → Ledger → Option TaskResult
current_result t l = elim t.current_execution [ none ↦ none | some e ↦ find e l.results ]

unfoldable pub set_acknowledged : ℕ → ℕ → List TaskResult → List TaskResult
set_acknowledged execution now results =
    update_if execution (λ x. ambiguous x.delivery) (set_delivery DeliveryStatus.acknowledged now)
      results

unfoldable pub acknowledge_delivery : ℕ → ℕ → ℕ → Ledger → Result Ledger
acknowledge_delivery task owner now l = do
  t ← require (find task l.tasks) permission_error
  raise_if (not (t.requested_by == owner)) permission_error
  x ← require (current_result t l) safe_operation
  if x.delivery is DeliveryStatus.acknowledged then ok l else (do
    raise_if (not (ambiguous x.delivery)) safe_operation
    append_event (event delivery_acknowledged (some task) (some x.execution))
        (record l { results = set_acknowledged x.execution now l.results }))

unfoldable pub agrees : Outcome → TaskStatus → Bool
agrees outcome status =
    (outcome is Outcome.succeeded && status is TaskStatus.completed)
    || (outcome among (Outcome.failed ∷ Outcome.timed_out ∷ []) && status is TaskStatus.failed)
    || (outcome is Outcome.awaiting_approval && status is TaskStatus.awaiting_approval)
    || (outcome is Outcome.cancelled && status is TaskStatus.cancelled)
    || (outcome is Outcome.blocked && status is TaskStatus.blocked)

-- The EXISTS of this module's `claim_delivery`.
unfoldable pub deliverable : ℕ → ℕ → ℕ → ℕ → Ledger → TaskResult → Bool
deliverable task owner execution attempt l x =
    undelivered x
    && any_row
        (λ t.
          t.id == task
          && t.requested_by == owner
          && is_id t.current_execution execution
          && any_row (λ o. o.task == t.id && o.attempts == attempt) l.operations
          && agrees x.outcome t.status)
        l.tasks

unfoldable pub claim_delivery : ℕ → ℕ → ℕ → ℕ → ℕ → Ledger → Bool × Ledger
claim_delivery task owner execution attempt now l = (
  touches execution (deliverable task owner execution attempt l) l.results,
  record l {
    results =
        update_if execution (deliverable task owner execution attempt l)
          (set_delivery DeliveryStatus.sending now) l.results;
  },
)

unfoldable pub failed_row : ℕ → ℕ → ℕ → ℕ → Execution
failed_row execution task adapter now = record {
  id = execution;
  task = task;
  adapter = adapter;
  status = ExecutionStatus.failed;
  metadata = record {
    worker_id = none;
    writer_lease = none;
    timeout_seconds = none;
    runtime_session = none;
    approval_id = none;
    legacy = none;
  };
  created_at = now;
  started_at = none;
  ended_at = some now;
  last_heartbeat_at = none;
  updated_at = now;
}

unfoldable pub start_failure_result : ℕ → ℕ → ℕ → TaskResult
start_failure_result execution task now = record {
  execution = execution;
  task = task;
  outcome = Outcome.blocked;
  delivery = DeliveryStatus.pending;
  created_at = now;
  updated_at = now;
}

unfoldable pub set_hold : HoldReason → Operation → Operation
set_hold hold o = record o { hold = hold }

unfoldable pub set_current : ℕ → ℕ → Task → Task
set_current execution now t = record t { current_execution = some execution; updated_at = now }

-- `execution` is the new identifier, `adapter` the text "operation".
unfoldable pub record_start_failure : ℕ → ℕ → ℕ → ℕ → ℕ → Ledger → Result Ledger
record_start_failure execution adapter task owner now l = do
  t ← require (find task l.tasks) permission_error
  raise_if (not (t.requested_by == owner)) permission_error
  if not (t.status is TaskStatus.blocked) || is_some t.current_execution then ok l else (do
    executions ← insert (failed_row execution task adapter now) l.executions
    results ← insert (start_failure_result execution task now) l.results
    append_event (event operation_worker_start_failed (some task) (some execution)) (record l {
      executions = executions;
      results = results;
      tasks = update task (set_current execution now) l.tasks;
      operations = update task (set_hold HoldReason.worker_start_failed) l.operations;
    }))

unfoldable pub plan_touched : ℕ → ChangePlan → Bool
plan_touched task p =
    p.task == task
    && p.status among (
        PlanStatus.applying ∷ PlanStatus.uncertain ∷ PlanStatus.applied ∷ PlanStatus.reconciled
        ∷ [])

-- The guards of `resume` after its `recover`, in their order.
unfoldable pub check_resume : Workspaces → ℕ → ℕ → ℕ → ℕ → Ledger → Result (Unit {0})
check_resume w task owner generation now l = do
  t ← require (find task l.tasks) permission_error
  o ← require (find task l.operations) permission_error
  raise_if (not (t.requested_by == owner)) permission_error
  raise_if (elim (current_result t l) [ none ↦ false | some x ↦ ambiguous x.delivery ])
      safe_operation
  raise_if
      (is_apply o.spec.kind
        || not (t.status among (TaskStatus.blocked ∷ TaskStatus.failed ∷ []))
        || leb o.max_attempts o.attempts)
      safe_operation
  raise_if (unresolved_effects task false l) safe_operation
  raise_if (any_row (plan_touched task) l.plans) safe_operation
  _ ← check_workspace w o.spec.workspace owner
  raise_if (not (worker_ready now (find generation l.workers))) safe_operation

unfoldable pub requeue : ℕ → Operation → Operation
requeue generation o = record o {
  eligible = true;
  generation = generation;
  hold = HoldReason.clear;
}

unfoldable pub reopen : ℕ → Task → Task
reopen now t = record t {
  status = TaskStatus.queued;
  completed_at = none;
  updated_at = now;
  metadata = record t.metadata { dismissed_at = none };
}

unfoldable pub resume_conn : Workspaces → ℕ → ℕ → ℕ → ℕ → Ledger → Result Ledger
resume_conn w task owner generation now l = do
  _ ← check_resume w task owner generation now l
  append_event (event operation_resume_requested (some task) none) (record l {
    operations = update task (requeue generation) l.operations;
    tasks = update task (reopen now) l.tasks;
  })

-- `recover` commits on its own before the guards of `resume` run.
unfoldable pub resume : Workspaces → ℕ → ℕ → ℕ → ℕ → Ledger → Result Ledger × Ledger
resume w task owner generation now l = elim (recover now l) [
  | err e ↦ (err e, l)
  | ok recovered ↦ elim (resume_conn w task owner generation now recovered) [
    | err e ↦ (err e, recovered)
    | ok l' ↦ (ok l', l')
  ]
]
