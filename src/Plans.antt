-- ===== src/Plans.antt =====
-- Decisions on reviewed plans: `decide_conn`, `_settle_closed_plan`, `_close_review_executions` and
-- `settle_expired` of src/nyanya_agent/reviewed_changes.py, `require_plan_conn` of work_drafts.py.
pub mod Decisions
pub mod Submit
use nyanya_agent.Prelude.{
  ℕ, Bool, true, false, not, ◌&&◌, ◌||◌, Option, none, some, List, [], ◌∷◌, if◌then◌else◌, ◌==◌,
  ltb, leb, is_id, is_some, Result, ok, err, ◌>>=◌, ◌>>◌, raise_if, require, safe_operation, find,
  update, update_where, any_row, first, select,
}
use nyanya_agent.Ledger.{
  Ledger, Task, TaskStatus, Execution, ExecutionStatus, Approval, ApprovalStatus, Action, Claim,
  Operation, HoldReason, ChangePlan, PlanStatus, Draft, DraftStatus, Event, EventType, task_keyed,
  execution_keyed, claim_keyed, operation_keyed, plan_keyed, task_status_coded,
  execution_status_coded, approval_status_coded, plan_status_coded, ◌is◌, ◌among◌, task_terminal,
  append_event, event, plan_approved, plan_revoked, plan_expired, operation_plan_closed,
  operation_review_effects_held, execution_review_closed,
}
use nyanya_agent.Tasks.{set_task_status}
use nyanya_agent.Effects.{unresolved_effects}
use nyanya_agent.WorkQueue.{plan_open}
use nyanya_agent.Operations.Dispatch.{hold_operation}
use nyanya_agent.Operations.Cancel.{cancel_children, end_as, pending_of, open_plan_of}

unfoldable pub is_ready : DraftStatus → Bool
is_ready DraftStatus.ready = true
is_ready s = false

-- Whether a draft is the plan's task's own.
unfoldable pub draft_of : Operation → Draft → Bool
draft_of o d = is_id o.spec.draft_id d.id || d.source_task == o.task

unfoldable pub plan_draft : ℕ → Ledger → Option Draft
plan_draft plan l = elim (find plan l.plans) [
  | none ↦ none
  | some p ↦ elim (find p.task l.operations) [ none ↦ none | some o ↦ first (draft_of o) l.drafts ]
]

unfoldable pub latest_plan : ℕ → Option Draft → Bool
latest_plan plan none = true
latest_plan plan (some d) = is_ready d.status && is_id d.plan plan

unfoldable pub require_plan_conn : ℕ → Ledger → Result (Unit {0})
require_plan_conn plan l = raise_if (not (latest_plan plan (plan_draft plan l))) safe_operation

pub data CloseReason : Type 0 where
  revoked expired closed : CloseReason

unfoldable pub hold_of : CloseReason → HoldReason
hold_of CloseReason.revoked = HoldReason.plan_revoked
hold_of CloseReason.expired = HoldReason.plan_expired
hold_of CloseReason.closed = HoldReason.plan_closed

unfoldable pub approval_end : CloseReason → ApprovalStatus
approval_end CloseReason.expired = ApprovalStatus.expired
approval_end r = ApprovalStatus.rejected

unfoldable pub end_approval : CloseReason → ℕ → ℕ → Approval → Approval
unfolding approval_end
end_approval reason owner now a = record a {
  status = approval_end reason;
  decided_by = some owner;
  decided_at = some now;
}

unfoldable pub unsettled_plan_of : ℕ → ChangePlan → Bool
unsettled_plan_of task p =
    p.task == task
    && p.status among (PlanStatus.pending ∷ PlanStatus.approved ∷ PlanStatus.applying ∷ [])

unfoldable pub live_claim : ℕ → Option Claim → Bool
live_claim now none = false
live_claim now (some c) = not c.released && ltb now c.expires_at

unfoldable pub awaits_review : ℕ → Execution → Bool
awaits_review task e = e.task == task && e.status is ExecutionStatus.awaiting_approval

-- The loop of `_close_review_executions`.
unfoldable pub close_reviews : ExecutionStatus → ℕ → List Execution → Ledger → Result Ledger
close_reviews status now [] l = ok l
close_reviews status now (e ∷ rows) l = do
  next ←
      (append_event (event execution_review_closed (some e.task) (some e.id))
        (record l { executions = update e.id (end_as status now) l.executions }))
  close_reviews status now rows next

unfoldable pub close_review_executions : ℕ → ℕ → Bool → Ledger → Result Ledger
close_review_executions task now uncertain l =
    close_reviews (if uncertain then ExecutionStatus.lost else ExecutionStatus.cancelled) now
      (select (awaits_review task) l.executions) l

-- The branch of a parent that is terminal already.
unfoldable pub settle_terminal : ℕ → ℕ → Ledger → Result Ledger
settle_terminal task now l = do
  let uncertain = unresolved_effects task true l
  settled ← close_review_executions task now uncertain l
  if not uncertain
      then ok settled
      else append_event (event operation_review_effects_held (some task) none) (record settled {
        tasks = update task (set_task_status TaskStatus.blocked now) settled.tasks;
      })

-- The children with that parent, whatever their plan.
unfoldable pub is_child : ℕ → Ledger → Task → Bool
is_child task l t = any_row (λ o. o.task == t.id && is_id o.parent task) l.operations

unfoldable pub settle_open : ℕ → CloseReason → ℕ → Ledger → Result Ledger
settle_open task reason now l = do
  let stopped = cancel_children (hold_of reason) now (select (is_child task l) l.tasks) l
  let uncertain = unresolved_effects task true stopped
  settled ← close_review_executions task now uncertain stopped
  append_event (event operation_plan_closed (some task) none) (record settled {
    tasks =
        update task
          (set_task_status (if uncertain then TaskStatus.blocked else TaskStatus.cancelled) now)
          settled.tasks;
    operations = update task (hold_operation (hold_of reason)) settled.operations;
  })

unfoldable pub settle_closed_plan : ℕ → ℕ → CloseReason → ℕ → Ledger → Result Ledger
settle_closed_plan task owner reason now l =
    if any_row (unsettled_plan_of task) l.plans
    then ok l
    else let ended = record l {
      approvals = update_where (pending_of task) (end_approval reason owner now) l.approvals;
    } in
      elim (find task ended.tasks) [
        | none ↦ ok ended
        | some parent ↦
            if live_claim now (find task ended.claims)
            then ok ended
            else if task_terminal parent.status
            then settle_terminal task now ended
            else settle_open task reason now ended
      ]

unfoldable pub decidable_plan : PlanStatus → Bool
decidable_plan s = s among (PlanStatus.pending ∷ PlanStatus.approved ∷ [])

unfoldable pub open_parent : Option Task → Bool
open_parent none = false
open_parent (some t) =
    t.status among (TaskStatus.queued ∷ TaskStatus.running ∷ TaskStatus.awaiting_approval ∷ [])

-- The row that both decisions select: the owner's plan, pending or approved.
unfoldable pub decidable_row : ℕ → ℕ → Ledger → Result ChangePlan
decidable_row plan owner l = do
  p ← require (find plan l.plans) safe_operation
  raise_if (not (p.owner == owner) || not (decidable_plan p.status)) safe_operation
  ok p

unfoldable pub check_approve : ℕ → ℕ → ℕ → ℕ → Ledger → Result ChangePlan
check_approve plan owner plan_hash now l = do
  _ ← require_plan_conn plan l
  p ← decidable_row plan owner l
  raise_if (not (open_parent (find p.task l.tasks))) safe_operation
  raise_if (leb p.expires_at now || not (p.plan_hash == plan_hash)) safe_operation
  ok p

unfoldable pub decide_plan : PlanStatus → ℕ → ChangePlan → ChangePlan
decide_plan status owner p = record p { status = status; decided_by = some owner }

unfoldable pub is_feedback : Action → Bool
is_feedback Action.feedback_review = true
is_feedback a = false

unfoldable pub approve_row : ℕ → ℕ → Approval → Approval
approve_row owner now a = record a {
  status = ApprovalStatus.approved;
  decided_by = some owner;
  decided_at = some now;
}

unfoldable pub plan_event : EventType → ℕ → ℕ → Event
plan_event event_type task plan = record (event event_type (some task) none) { plan = some plan }

-- `decide_conn(..., revoke=False)`
unfoldable pub approve_plan : ℕ → ℕ → ℕ → ℕ → Ledger → Result Ledger
approve_plan plan owner plan_hash now l = do
  p ← check_approve plan owner plan_hash now l
  append_event (plan_event plan_approved p.task plan) (record l {
    plans = update plan (decide_plan PlanStatus.approved owner) l.plans;
    approvals =
        update_where (λ a. pending_of p.task a && is_feedback a.action) (approve_row owner now)
          l.approvals;
  })

-- `decide_conn(..., revoke=True)`
unfoldable pub revoke_plan : ℕ → ℕ → ℕ → Ledger → Result Ledger
revoke_plan plan owner now l = do
  p ← decidable_row plan owner l
  settled ←
      (settle_closed_plan p.task owner CloseReason.revoked now
        (record l { plans = update plan (decide_plan PlanStatus.revoked owner) l.plans }))
  append_event (plan_event plan_revoked p.task plan) settled

unfoldable pub expire_plan : ChangePlan → ChangePlan
expire_plan p = record p { status = PlanStatus.expired }

unfoldable pub overdue : ℕ → ChangePlan → Bool
overdue now p = decidable_plan p.status && leb p.expires_at now

unfoldable pub expire_plans : ℕ → List ChangePlan → Ledger → Result Ledger
expire_plans now [] l = ok l
expire_plans now (p ∷ rows) l = do
  settled ←
      (settle_closed_plan p.task p.owner CloseReason.expired now
        (record l { plans = update p.id expire_plan l.plans }))
  logged ← append_event (plan_event plan_expired p.task p.id) settled
  expire_plans now rows logged

-- Terminal tasks with an attempt that still awaits a review, and no open plan.
unfoldable pub stale_review : Ledger → Task → Bool
stale_review l t =
    task_terminal t.status
    && any_row (awaits_review t.id) l.executions
    && not (any_row (unsettled_plan_of t.id) l.plans)

unfoldable pub close_stale : ℕ → ℕ → List Task → Ledger → Result Ledger
close_stale system now [] l = ok l
close_stale system now (t ∷ rows) l = do
  settled ← settle_closed_plan t.id system CloseReason.closed now l
  close_stale system now rows settled

-- `system` is the text "system". The early return on nothing to do is the empty case of both loops.
unfoldable pub settle_expired : ℕ → ℕ → Ledger → Result Ledger
settle_expired system now l = do
  expired_all ← expire_plans now (select (overdue now) l.plans) l
  close_stale system now (select (stale_review expired_all) expired_all.tasks) expired_all
