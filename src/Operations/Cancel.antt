-- ===== src/Operations/Cancel.antt =====
-- `cancel` of src/nyanya_agent/operation_store.py.
use nyanya_agent.Prelude.{
  ℕ, Bool, true, false, not, ◌&&◌, ◌||◌, Option, none, some, List, [], ◌∷◌, if◌then◌else◌, ◌==◌,
  ltb, is_id, Result, ok, ◌>>=◌, ◌>>◌, raise_if, safe_operation, find, update, update_where,
  any_row, select,
}
use nyanya_agent.Ledger.{
  Ledger, Task, TaskStatus, Execution, ExecutionStatus, Approval, ApprovalStatus, HoldReason,
  ChangePlan, PlanStatus, Outcome, task_keyed, execution_keyed, claim_keyed, operation_keyed,
  plan_keyed, task_status_coded, execution_status_coded, approval_status_coded, plan_status_coded,
  ◌is◌, ◌among◌, execution_terminal, append_event, event, operation_cancel_requested,
}
use nyanya_agent.Effects.{unresolved_effects}
use nyanya_agent.Tasks.{set_task_status}
use nyanya_agent.WorkQueue.Finish.{release}
use nyanya_agent.Operations.Dispatch.{hold_operation}
use nyanya_agent.Operations.Control.{owned_task, dismiss_conn}

unfoldable pub stoppable : ExecutionStatus → Bool
stoppable s = s among (ExecutionStatus.running ∷ ExecutionStatus.cancelling ∷ [])

-- Whether the task's current attempt is claimed and live; the attempt.
unfoldable pub active_attempt : Task → ℕ → Ledger → Option ℕ
active_attempt t now l = elim (find t.id l.claims) [
  | none ↦ none
  | some c ↦ elim (find c.execution l.executions) [
    | none ↦ none
    | some e ↦
        if is_id t.current_execution c.execution
          && not c.released
          && ltb now c.expires_at
          && stoppable e.status
        then some e.id
        else none
  ]
]

unfoldable pub pending_of : ℕ → Approval → Bool
pending_of task a = is_id a.task task && a.status is ApprovalStatus.pending

unfoldable pub reject : ℕ → ℕ → Approval → Approval
reject owner now a = record a {
  status = ApprovalStatus.rejected;
  decided_by = some owner;
  decided_at = some now;
}

unfoldable pub open_plan_of : ℕ → ChangePlan → Bool
open_plan_of task p =
    p.task == task && p.status among (PlanStatus.pending ∷ PlanStatus.approved ∷ [])

unfoldable pub revoke : ℕ → ChangePlan → ChangePlan
revoke owner p = record p { status = PlanStatus.revoked; decided_by = some owner }

unfoldable pub set_cancelling : ℕ → Task → Task
set_cancelling now t = record t { status = TaskStatus.cancelling; updated_at = now }

unfoldable pub stop_execution : ℕ → Execution → Execution
stop_execution now e = record e { status = ExecutionStatus.cancelling; updated_at = now }

unfoldable pub running_of : ℕ → Execution → Bool
running_of task e = e.task == task && e.status is ExecutionStatus.running

-- The body of the loop over a revoked plan's apply tasks.
unfoldable pub cancel_child : HoldReason → ℕ → Task → Ledger → Ledger
cancel_child hold now child l =
    if child.status is TaskStatus.queued
    then record l {
      tasks = update child.id (set_task_status TaskStatus.cancelled now) l.tasks;
      operations = update child.id (hold_operation hold) l.operations;
    }
    else if child.status among (TaskStatus.running ∷ TaskStatus.cancelling ∷ [])
    then record l {
      tasks = update child.id (set_cancelling now) l.tasks;
      executions = update_where (running_of child.id) (stop_execution now) l.executions;
    }
    else l

unfoldable pub cancel_children : HoldReason → ℕ → List Task → Ledger → Ledger
cancel_children hold now [] l = l
cancel_children hold now (child ∷ rows) l =
    cancel_children hold now rows (cancel_child hold now child l)

unfoldable pub child_of : ℕ → ℕ → Ledger → Task → Bool
child_of task plan l t =
    any_row (λ o. o.task == t.id && is_id o.parent task && o.spec.plan_id == plan) l.operations

unfoldable pub revoke_plan : ℕ → ℕ → ℕ → ChangePlan → Ledger → Ledger
revoke_plan task owner now p l =
    let revoked = record l { plans = update p.id (revoke owner) l.plans } in
    cancel_children HoldReason.parent_cancelled now
      (select (child_of task p.id revoked) revoked.tasks) revoked

unfoldable pub revoke_plans : ℕ → ℕ → ℕ → List ChangePlan → Ledger → Ledger
revoke_plans task owner now [] l = l
revoke_plans task owner now (p ∷ rows) l =
    revoke_plans task owner now rows (revoke_plan task owner now p l)

-- The approvals, plans and children of a task that is being cancelled.
unfoldable pub withdraw : ℕ → ℕ → ℕ → Ledger → Ledger
withdraw task owner now l =
    revoke_plans task owner now (select (open_plan_of task) l.plans)
      (record l { approvals = update_where (pending_of task) (reject owner now) l.approvals })

-- A live attempt is asked to stop; its worker acknowledges on its own.
unfoldable pub ask_to_stop : ℕ → ℕ → ℕ → Ledger → Ledger
ask_to_stop task execution now l = record l {
  executions = update execution (stop_execution now) l.executions;
  tasks = update task (set_cancelling now) l.tasks;
}

unfoldable pub unfinished_of : ℕ → Execution → Bool
unfinished_of task e = e.task == task && not (execution_terminal e.status)

unfoldable pub in_flight : ℕ → Execution → Bool
in_flight task e =
    e.task == task
    && e.status among (
        ExecutionStatus.starting ∷ ExecutionStatus.running ∷ ExecutionStatus.cancelling
        ∷ ExecutionStatus.stale ∷ [])

unfoldable pub end_as : ExecutionStatus → ℕ → Execution → Execution
end_as status now e = record e { status = status; ended_at = some now; updated_at = now }

-- Without a live claim the task ends now: cancelled, or blocked where an effect is in doubt.
unfoldable pub end_now : ℕ → ℕ → Bool → Ledger → Ledger
end_now task now uncertain l =
    let ended = if uncertain then ExecutionStatus.lost else ExecutionStatus.cancelled in
    let hold =
      if uncertain
      then HoldReason.cancellation_unconfirmed
      else HoldReason.outcome Outcome.cancelled in
    record l {
      tasks =
          update task
            (set_task_status (if uncertain then TaskStatus.blocked else TaskStatus.cancelled) now)
            l.tasks;
      claims = update task release l.claims;
      executions = update_where (unfinished_of task) (end_as ended now) l.executions;
      operations = update task (hold_operation hold) l.operations;
    }

unfoldable pub uncertain_effects : ℕ → Ledger → Bool
uncertain_effects task l = unresolved_effects task true l || any_row (in_flight task) l.executions

-- The branch that writes: the status it returns.
unfoldable pub cancel_open : Task → ℕ → ℕ → Ledger → TaskStatus × Ledger
cancel_open t owner now l =
    let withdrawn = withdraw t.id owner now l in
    elim (active_attempt t now l) [
      | some execution ↦ (TaskStatus.cancelling, ask_to_stop t.id execution now withdrawn)
      | none ↦
          let uncertain = uncertain_effects t.id withdrawn in
          (
            (if uncertain then TaskStatus.blocked else TaskStatus.cancelled),
            end_now t.id now uncertain withdrawn,
          )
    ]

unfoldable pub stale_selection : Option ℕ → Task → Bool
stale_selection none t = false
stale_selection (some e) t = not (is_id t.current_execution e)

unfoldable pub cancel :
    ℕ → ℕ → Option ℕ → Option TaskStatus → Option ℕ → ℕ → Ledger → Result (TaskStatus × Ledger)
cancel task owner execution status updated_at now l = do
  t ← owned_task task owner status updated_at l
  raise_if (stale_selection execution t) safe_operation
  if t.status is TaskStatus.failed
      then dismiss_conn t now l
      else if t.status among (TaskStatus.completed ∷ TaskStatus.cancelled ∷ [])
      then (do raise_if (unresolved_effects t.id true l) safe_operation; ok (t.status, l))
      else if t.status is TaskStatus.blocked && unresolved_effects t.id true l
      then ok (TaskStatus.blocked, l)
      else (do
        let (answer, cancelled) = cancel_open t owner now l
        logged ← append_event (event operation_cancel_requested (some task) none) cancelled
        ok (answer, logged))
