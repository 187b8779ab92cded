-- ===== src/WorkQueue/Finish.antt =====
-- `finish` and the deliveries of src/nyanya_agent/work_queue.py: the fenced commit of an attempt's
-- result, and the reservation of its delivery.
use nyanya_agent.Prelude.{
  ℕ, ◌+◌, Bool, true, false, not, ◌&&◌, ◌||◌, Option, none, some, List, [], ◌∷◌, if◌then◌else◌,
  ◌==◌, ltb, leb, is_id, Result, ok, ◌>>=◌, ◌>>◌, raise_if, require, value_error, find, update,
  update_if, touches, insert, any_row, latest, select, order_by,
}
use nyanya_agent.Ledger.{
  Ledger, Task, TaskStatus, Execution, ExecutionStatus, Approval, ApprovalStatus, Action, Claim,
  TaskResult, DeliveryStatus, Outcome, HoldReason, Operation, PlanStatus, task_keyed,
  execution_keyed, approval_keyed, claim_keyed, result_keyed, operation_keyed, plan_keyed,
  task_status_coded, execution_status_coded, delivery_status_coded, plan_status_coded,
  outcome_coded, ◌is◌, ◌among◌, execution_terminal, seconds, append_event, event, task_result,
  task_plan_completed,
}
use nyanya_agent.Tasks.{set_task_status}
use nyanya_agent.Effects.{is_apply}
use nyanya_agent.Conversations.{complete_conn}
use nyanya_agent.WorkQueue.{
  ClaimRecord, Review, check_live_claim, reviewed, confirmed, acknowledged, task_status_of,
  execution_status_of, owner_of, owned_by,
}

unfoldable pub end_execution : ExecutionStatus → ℕ → Execution → Execution
end_execution status now e = record e {
  status = status;
  ended_at = if execution_terminal status then some now else none;
  updated_at = now;
}

unfoldable pub release : Claim → Claim
release c = record c { released = true }

unfoldable pub hold_for : Outcome → HoldReason
hold_for outcome =
    if outcome is Outcome.succeeded then HoldReason.clear else HoldReason.outcome outcome

unfoldable pub close_operation : Outcome → Operation → Operation
unfolding hold_for
close_operation outcome o = record o { eligible = false; hold = hold_for outcome }

unfoldable pub result_row : ClaimRecord → Outcome → ℕ → TaskResult
result_row r outcome now = record {
  execution = r.execution;
  task = r.task;
  outcome = outcome;
  delivery = DeliveryStatus.pending;
  created_at = now;
  updated_at = now;
}

-- The statements of `finish` from the attempt's UPDATE to the operation's.
unfoldable pub write_result : ClaimRecord → Outcome → ℕ → Ledger → Result Ledger
write_result r outcome now l = do
  results ← insert (result_row r outcome now) l.results
  ok (record l {
    executions = update r.execution (end_execution (execution_status_of outcome) now) l.executions;
    tasks = update r.task (set_task_status (task_status_of outcome) now) l.tasks;
    claims = update r.task release l.claims;
    results = results;
    operations = update r.task (close_operation outcome) l.operations;
  })

unfoldable pub awaiting : Task → Bool
awaiting t = t.status is TaskStatus.awaiting_approval

-- The plan's task, where a successful apply left it applied.
unfoldable pub complete_parent : ℕ → ℕ → Ledger → Result Ledger
complete_parent plan_id now l = do
  p ← require (find plan_id l.plans) value_error
  raise_if (not (p.status is PlanStatus.applied)) value_error
  if not (touches p.task awaiting l.tasks)
      then ok l
      else append_event (event task_plan_completed (some p.task) none) (record l {
        tasks = update_if p.task awaiting (set_task_status TaskStatus.completed now) l.tasks;
      })

unfoldable pub complete_apply : ClaimRecord → Outcome → ℕ → Ledger → Result Ledger
complete_apply r outcome now l = elim r.spec [
  | none ↦ ok l
  | some spec ↦
      if outcome is Outcome.succeeded && is_apply spec.kind
      then complete_parent spec.plan_id now l
      else ok l
]

unfoldable pub review_action : Option Review → Action
review_action none = Action.feedback_review
review_action (some v) = if v.read_scope then Action.draft_read_scope else Action.feedback_review

unfoldable pub review_approved : Option Review → Bool
review_approved none = false
review_approved (some v) = v.approved

unfoldable pub review_decider : Option Review → Option ℕ
review_decider none = none
review_decider (some v) = if v.approved then v.decided_by else none

unfoldable pub review_row : ℕ → ClaimRecord → Option Review → ℕ → Approval
review_row approval r review now = record {
  id = approval;
  task = some r.task;
  execution = some r.execution;
  action = review_action review;
  status = if review_approved review then ApprovalStatus.approved else ApprovalStatus.pending;
  requested_by = r.worker;
  decided_by = review_decider review;
  authorized_actor = none;
  scope_hash = none;
  upload = none;
  requested_at = now;
  expires_at = some (now + seconds 3600);
  decided_at = if review_approved review then some now else none;
}

-- The approval that a paused attempt waits for; `approval` is its new identifier.
unfoldable pub open_review : ℕ → ClaimRecord → Outcome → Option Review → ℕ → Ledger → Result Ledger
open_review approval r outcome review now l =
    if not (outcome is Outcome.awaiting_approval) then ok l else (do
      approvals ← insert (review_row approval r review now) l.approvals
      ok (record l { approvals = approvals }))

-- The outcome that `finish` commits, with the review it waits for and the ledger after the
-- cancellation's own UPDATE.
unfoldable pub committed_outcome :
    ClaimRecord → Outcome → ExecutionStatus → ℕ → Ledger → Outcome × Option Review × Ledger
committed_outcome r outcome status now l =
    let (asked, review) = reviewed r outcome now l in
    let (sure, stopped) = confirmed r asked l in (acknowledged status sure, review, stopped)

unfoldable pub commit : ℕ → ClaimRecord → Outcome → Option Review → ℕ → Ledger → Result Ledger
commit approval r outcome review now l = do
  written ← write_result r outcome now l
  applied ← complete_apply r outcome now written
  opened ← open_review approval r outcome review now applied
  append_event (event task_result (some r.task) (some r.execution))
      (complete_conn r.task r.execution r.question outcome opened)

unfoldable pub finish : ℕ → ClaimRecord → Outcome → ℕ → Ledger → Result Ledger
finish approval r outcome now l = do
  status ← check_live_claim r now l
  let (final, review, stopped) = committed_outcome r outcome status now l
  commit approval r final review now stopped

unfoldable pub undelivered : TaskResult → Bool
undelivered x = x.delivery is DeliveryStatus.pending

unfoldable pub set_delivery : DeliveryStatus → ℕ → TaskResult → TaskResult
set_delivery status now x = record x { delivery = status; updated_at = now }

unfoldable pub current_for : ℕ → ℕ → Task → Bool
current_for execution owner t = is_id t.current_execution execution && owner_of t == owner

unfoldable pub claim_delivery : ℕ → ℕ → ℕ → ℕ → Ledger → Bool × Ledger
claim_delivery task owner execution now l =
    if touches task (current_for execution owner) l.tasks && touches execution undelivered l.results
    then (
      true,
      record l {
        results =
            update_if execution undelivered (set_delivery DeliveryStatus.sending now) l.results;
      },
    )
    else (false, l)

unfoldable pub sending : TaskResult → Bool
sending x = x.delivery is DeliveryStatus.sending

unfoldable pub record_delivery : ℕ → Bool → ℕ → Ledger → Ledger
record_delivery execution delivered now l =
    let status = if delivered then DeliveryStatus.delivered else DeliveryStatus.uncertain in
    record l { results = update_if execution sending (set_delivery status now) l.results }

-- The newest result of the owner's task.
unfoldable pub result : ℕ → ℕ → Ledger → Option TaskResult
result task owner l =
    latest (λ x. x.created_at)
      (λ x. x.task == task && any_row (λ t. t.id == task && owned_by (some owner) t) l.tasks)
      l.results

unfoldable pub reclaimable : ℕ → ℕ → Option Claim → Bool
reclaimable worker now none = true
reclaimable worker now (some c) = not (c.worker == worker) && (c.released || leb c.expires_at now)

unfoldable pub open_statuses : List TaskStatus
open_statuses =
    TaskStatus.queued ∷ TaskStatus.running ∷ TaskStatus.blocked ∷ TaskStatus.awaiting_approval
    ∷ TaskStatus.cancelling ∷ []

unfoldable pub by_age : Task → Task → Bool
by_age a b = ltb a.created_at b.created_at || (a.created_at == b.created_at && ltb a.id b.id)

unfoldable pub recovery_tasks : ℕ → ℕ → Ledger → List Task
recovery_tasks worker now l = order_by by_age (
    select (λ t. t.status among open_statuses && reclaimable worker now (find t.id l.claims))
      l.tasks)
