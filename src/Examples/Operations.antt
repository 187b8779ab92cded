-- ===== src/Examples/Operations.antt =====
-- Runs of the operations and of the plans.
use nyanya_agent.Prelude.{
  ◌≤◌, true, false, Option, none, some, [], ◌∷◌, ◌≡◌, refl, find, any_row, insert, select, first,
  count, order_by, delete_where, ok, err, Result, arith, update,
}
use mathlib.Core.Option
use nyanya_agent.Ledger.{
  Ledger, TaskStatus, ChangePlan, PlanStatus, task_keyed, execution_keyed, claim_keyed,
  operation_keyed, worker_keyed, plan_keyed, task_status_code, plan_status_code, ◌among◌,
}
use nyanya_agent.Effects.{
  is_apply, unresolved_effects, effect_tasks, resolution_owner, task_in_doubt, plan_in_doubt,
}
use nyanya_agent.Conversations.{has_earlier_work_conn}
use nyanya_agent.Operations.{Workspaces, check_workspace, worker_ready}
use nyanya_agent.Operations.Dispatch.{
  claim, next_task, start_operation, claimed_operation, queued_operation, eligible_for, startable,
  holds_slot, held_conflict, conflicts, released_of,
}
use nyanya_agent.Operations.Slots.{claim_within_slots, claim-BoundedAttempts, BoundedAttempts}
use nyanya_agent.Operations.Exclusion.{claim-IsExclusive, IsExclusive}
use nyanya_agent.Operations.Control.{
  resume_conn, requeue, check_resume, current_result, owned_task, selected_revision,
}
use nyanya_agent.Operations.Consent.{resume_needs, IsResumable, cancelled_needs, IsCancelled}
use nyanya_agent.Operations.Withdrawn.{HasPlanKeys}
use nyanya_agent.Operations.Cancel.{
  cancel, cancel_open, withdraw, stale_selection, active_attempt, uncertain_effects, revoke_plans,
  open_plan_of, revoke_plan, cancel_children, child_of, revoke,
}
use nyanya_agent.Plans.{
  approve_plan, check_approve, require_plan_conn, latest_plan, plan_draft, decidable_row,
  decidable_plan, open_parent, plan_event,
}
use nyanya_agent.Plans.Decisions.{approve_plan-IsApproval, IsApproval}
use nyanya_agent.WorkQueue.Trace.{committed}
use nyanya_agent.Operations.Progress.{
  IsUnclaimed, claimable_by, claim_progresses, claim_takes_first,
}
use nyanya_agent.Prelude.{inl, inr, All, IsRow, ◌<◌, ◌⊎◌}
use nyanya_agent.Ledger.{Task}
use nyanya_agent.Examples.{waiting, a_task}
use nyanya_agent.WorkQueue.{ClaimRecord}
use nyanya_agent.Ledger.{
  Execution, ExecutionStatus, HoldReason, execution_terminal, execution_status_code,
}
use nyanya_agent.Examples.{an_execution, busy, an_operation, a_worker, a_claim}
use nyanya_agent.Operations.Dispatch.{
  recover, interrupted, interrupt_all, interrupt, hold_operation, interrupted_by, worker_lost,
  recoverable_statuses,
}
use nyanya_agent.Operations.Recovery.{recover_holds, IsLapsed}

abbrev answered : Ledger → Result (Option ClaimRecord × Ledger) → Ledger
answered l (ok (r, l')) = l'
answered l (err e) = l

abbrev started : Ledger
started = answered waiting (claim 12 2 7 2 20 waiting)

starts :
    claim 12 2 7 2 20 waiting
    ≡ ok (some (claimed_operation 12 7 (a_task TaskStatus.queued none) waiting), started)
unfolding claim count next_task first order_by select queued_operation find eligible_for
    task_status_code startable has_earlier_work_conn any_row start_operation insert delete_where
starts = refl

claim_within_slots_example : count (holds_slot started) started.claims ≤ 2
claim_within_slots_example = claim_within_slots 12 2 7 2 20 waiting starts

waiting-BoundedAttempts : BoundedAttempts waiting
unfolding find
waiting-BoundedAttempts i = ground arith

claim-BoundedAttempts_example : BoundedAttempts started
claim-BoundedAttempts_example =
    claim-BoundedAttempts 12 2 7 2 20 waiting waiting-BoundedAttempts starts

waiting-IsExclusive : IsExclusive waiting
unfolding find
waiting-IsExclusive i j o o' apart oi oj same = ground arith

claim-IsExclusive_example : IsExclusive started
claim-IsExclusive_example = claim-IsExclusive 12 2 7 2 20 waiting waiting-IsExclusive starts

abbrev here : Workspaces
here = record {
  resolve = λ w. some w;
  is_dir = λ w. true;
  is_anchor = λ w. false;
  is_allowed = λ w. true;
  is_remote = λ o. false;
  assigned = λ o. none;
}

-- A request whose attempt failed.
abbrev failed : Ledger
failed = record waiting { tasks = a_task TaskStatus.failed none ∷ [] }

abbrev resumed : Ledger
resumed = committed failed (resume_conn here 1 5 7 20 failed)

resumes : resume_conn here 1 5 7 20 failed ≡ ok resumed
unfolding resume_conn check_resume find current_result is_apply ◌among◌ task_status_code
    unresolved_effects any_row effect_tasks task_in_doubt resolution_owner select check_workspace
    worker_ready
resumes = refl

resume_needs_example :
    IsResumable here 1 5 7 20 failed
    × (find 1 resumed.operations ≡ Option.map (requeue 7) (find 1 failed.operations))
resume_needs_example = resume_needs here 1 5 7 20 failed resumes

abbrev told : Ledger → Result (TaskStatus × Ledger) → Ledger
told l (ok (s, l')) = l'
told l (err e) = l

abbrev a_plan : ChangePlan
a_plan = record {
  id = 41;
  task = 1;
  owner = 5;
  workspace = 3;
  plan_hash = 99;
  changes = [];
  status = PlanStatus.pending;
  expires_at = 1000;
  decided_by = none;
  created_at = 10;
}

-- A task that waits, with a plan under review.
abbrev in_review : Ledger
in_review = record waiting { plans = a_plan ∷ [] }

abbrev cancelled : Ledger
cancelled = told in_review (cancel 1 5 none none none 20 in_review)

cancels : cancel 1 5 none none none 20 in_review ≡ ok (TaskStatus.cancelled, cancelled)
unfolding cancel owned_task find selected_revision stale_selection task_status_code ◌among◌
    cancel_open active_attempt uncertain_effects unresolved_effects any_row effect_tasks
    task_in_doubt withdraw revoke_plans select resolution_owner open_plan_of plan_status_code
    revoke_plan cancel_children child_of update plan_in_doubt revoke
cancels = refl

in_review-HasPlanKeys : HasPlanKeys in_review
unfolding find
in_review-HasPlanKeys = (refl, tt)

cancelled_needs_example : IsCancelled 1 in_review cancelled
cancelled_needs_example =
    cancelled_needs 1 5 none none none 20 in_review in_review-HasPlanKeys cancels

abbrev reviewing : Ledger
reviewing = record waiting {
  tasks = a_task TaskStatus.awaiting_approval none ∷ [];
  plans = a_plan ∷ [];
}

abbrev approved : Ledger
approved = committed reviewing (approve_plan 41 5 99 20 reviewing)

approves : approve_plan 41 5 99 20 reviewing ≡ ok approved
unfolding approve_plan check_approve require_plan_conn latest_plan plan_draft find first
    decidable_row decidable_plan ◌among◌ plan_status_code open_parent task_status_code plan_event
approves = refl

approve_plan-IsApproval_example : IsApproval 41 5 99 20 reviewing approved
approve_plan-IsApproval_example = approve_plan-IsApproval 41 5 99 20 reviewing approves

abbrev ended_execution : Execution
ended_execution = record (an_execution ExecutionStatus.succeeded) { id = 10 }

-- Worker 7 has not been heard of for 40 seconds.
abbrev lapsed : Ledger
lapsed = record (busy ExecutionStatus.running) {
  executions = an_execution ExecutionStatus.running ∷ ended_execution ∷ [];
}

abbrev recovered : Ledger
recovered = committed lapsed (recover 40000000 lapsed)

recovers : recover 40000000 lapsed ≡ ok recovered
unfolding recover interrupt_all select interrupted find interrupted_by worker_lost ◌among◌
    recoverable_statuses task_status_code interrupt
recovers = refl

lapsed-IsLapsed : IsLapsed 40000000 lapsed an_operation
unfolding find
lapsed-IsLapsed = record {
  eligible = refl;
  worker = a_worker;
  worker_found = refl;
  task = a_task TaskStatus.running (some 11);
  task_found = refl;
  unfinished = inr (inl refl);
  lapsed = inr (inr (a_claim, refl, refl, omega arith));
}

recover_holds_example :
    (find 1 recovered.operations ≡ some (hold_operation HoldReason.worker_interrupted an_operation))
    × (find 10 recovered.executions ≡ some ended_execution)
recover_holds_example =
    recover_holds 40000000 1 10 lapsed recovers (unfold find in refl) lapsed-IsLapsed
      (unfold find in refl) (unfold execution_terminal ◌among◌ execution_status_code in refl)

-- Task 1 runs, and task 2 waits for the same worker.
abbrev one_waits : Ledger
one_waits = record (busy ExecutionStatus.running) {
  tasks =
      a_task TaskStatus.running (some 11) ∷ record (a_task TaskStatus.queued none) { id = 2 } ∷ [];
  operations = an_operation ∷ record an_operation { task = 2 } ∷ [];
}

one_waits-IsUnclaimed : IsUnclaimed 7 one_waits
unfolding delete_where find queued_operation eligible_for task_status_code released_of
one_waits-IsUnclaimed = ((λ queued. cc), ((λ queued. refl), tt))

claim_progresses_example :
    (r : ClaimRecord) × (l' : Ledger) × (claim 12 2 7 2 20 one_waits ≡ ok (some r, l'))
unfolding any_row queued_operation find eligible_for task_status_code startable
    has_earlier_work_conn held_conflict conflicts is_apply
claim_progresses_example =
    claim_progresses 12 2 7 2 20 one_waits
      (unfold count in unfold holds_slot in unfold find in omega arith) (refl) (unfold find in refl)
      one_waits-IsUnclaimed

claim_takes_first_example :
    (t : Task) × IsRow waiting.tasks t
    × ((claimed_operation 12 7 (a_task TaskStatus.queued none) waiting).task ≡ t.id)
    × (claimable_by 7 waiting t ≡ true)
    × All
        (λ u.
          queued_operation 7 waiting u ≡ true
          → startable waiting u ≡ true
          → (t.priority < u.priority) ⊎ ((t.priority ≡ u.priority) × (t.created_at ≤ u.created_at)))
        waiting.tasks
claim_takes_first_example = claim_takes_first 12 2 7 2 20 waiting starts
