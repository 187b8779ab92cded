-- ===== src/Apply/Resolution.antt =====
-- What the owner's resolution of an interrupted application observes and writes in the ledger:
-- `observe` and `resolve` of src/nyanya_agent/reviewed_changes.py. Diagnosis texts are left out.
use nyanya_agent.Prelude.{
  ℕ, ◌+◌, Bool, true, false, not, ◌&&◌, ◌||◌, Option, none, some, List, [], ◌∷◌, ◌++◌, map,
  if◌then◌else◌, ◌==◌, ltb, leb, is_id, is_some, Result, ok, safe_operation, runtime_error,
  raise_if, require, find, update, update_where, select, any_row, ◌>>=◌, ◌>>◌,
}
use nyanya_agent.Ledger.{
  Ledger, Task, TaskStatus, Execution, ExecutionStatus, Claim, HoldReason, Change, ChangePlan,
  PlanStatus, Draft, DraftStatus, Event, task_keyed, plan_keyed, operation_keyed, task_status_coded,
  execution_status_coded, plan_status_coded, ◌is◌, ◌among◌, append_event, plan_resolved,
  task_apply_reconciled,
}
use nyanya_agent.Tasks.{set_task_status}
use nyanya_agent.Effects.{is_apply, unresolved_effects}
use nyanya_agent.Operations.Dispatch.{hold_operation}
use nyanya_agent.Plans.{plan_event}
use nyanya_agent.Apply.{Outside, Disk, digest, hash_eq, set_plan_status, ready_draft_of}

pub data Observation : Type 0 where
  after before diverged : Observation

pub record Evidence : Type 0 where
  pub path : ℕ
  pub observed : Observation
  pub sha256 : Option ℕ

unfoldable pub observation : Option ℕ → Change → Observation
observation current c =
    if hash_eq current c.after_hash
    then Observation.after
    else if hash_eq current c.before_hash
    then Observation.before
    else Observation.diverged

unfoldable pub observe_file : Outside → Disk → Change → Evidence
observe_file o disk c = record {
  path = c.path;
  observed = observation (digest o (disk c.path)) c;
  sha256 = digest o (disk c.path);
}

unfoldable pub observe : Outside → Disk → List Change → List Evidence
observe o disk changes = map (observe_file o disk) changes

unfoldable pub is_after : Observation → Bool
is_after Observation.after = true
is_after x = false

-- `complete`
unfoldable pub all_after : List Evidence → Bool
all_after [] = true
all_after (e ∷ rows) = is_after e.observed && all_after rows

-- A claim that is held on the plan's task or on one of its children.
unfoldable pub held_claim : ℕ → ℕ → Ledger → Claim → Bool
held_claim task now l c =
    is_some (find c.task l.tasks)
    && (c.task == task || any_row (λ x. x.task == c.task && is_id x.parent task) l.operations)
    && not c.released
    && ltb now c.expires_at

-- An applied plan can be resolved while its task is not completed.
unfoldable pub check_status : PlanStatus → ℕ → Ledger → Result (Unit {0})
check_status PlanStatus.applied task l = do
  parent ← require (find task l.tasks) runtime_error
  raise_if (parent.status is TaskStatus.completed) safe_operation
check_status status task l =
    raise_if (not (status among (PlanStatus.applying ∷ PlanStatus.uncertain ∷ []))) safe_operation

unfoldable pub check_resolvable : ChangePlan → ℕ → Ledger → Result (Unit {0})
check_resolvable plan now l = do
  raise_if (any_row (held_claim plan.task now l) l.claims) safe_operation
  row ← require (find plan.id l.plans) runtime_error
  check_status row.status plan.task l

-- The failed or blocked tasks that were to apply this plan.
unfoldable pub failed_apply : ℕ → Ledger → Task → Bool
failed_apply plan l t =
    any_row (λ x. x.task == t.id && is_apply x.spec.kind && x.spec.plan_id == plan) l.operations
    && t.status among (TaskStatus.blocked ∷ TaskStatus.failed ∷ [])

unfoldable pub at_most : Option ℕ → ℕ → Bool
at_most none t = false
at_most (some s) t = leb s t

unfoldable pub at_least : Option ℕ → ℕ → Bool
at_least none t = false
at_least (some s) t = leb t s

-- The lost attempt during which the plan was proposed.
unfoldable pub proposing_attempt : ChangePlan → Ledger → Execution → Bool
proposing_attempt plan l e =
    any_row (λ t. t.id == plan.task && is_id t.current_execution e.id) l.tasks
    && e.task == plan.task
    && e.status is ExecutionStatus.lost
    && at_most e.started_at plan.created_at
    && at_least e.ended_at plan.created_at

-- A lost attempt of a child of the plan's task for this plan.
unfoldable pub applying_attempt : ChangePlan → Ledger → Execution → Bool
applying_attempt plan l e =
    any_row (λ x. x.task == e.task && is_id x.parent plan.task && x.spec.plan_id == plan.id)
      l.operations
    && e.status is ExecutionStatus.lost

unfoldable pub resolved_executions : ChangePlan → Ledger → List ℕ
resolved_executions plan l =
    map (λ e. e.id) (select (proposing_attempt plan l) l.executions)
    ++ map (λ e. e.id) (select (applying_attempt plan l) l.executions)

unfoldable pub resolved_event : ChangePlan → Ledger → Event
resolved_event plan l = record (plan_event plan_resolved plan.task plan.id) {
  resolved = resolved_executions plan l;
}

unfoldable pub resolution : Bool → PlanStatus
resolution complete = if complete then PlanStatus.applied else PlanStatus.reconciled

unfoldable pub end_draft : Bool → Draft → Draft
end_draft complete d = record d {
  status = if complete then DraftStatus.applied else DraftStatus.closed;
  revision = d.revision + 1;
}

unfoldable pub parent_end : Bool → Bool → TaskStatus
parent_end complete unresolved =
    if complete && not unresolved then TaskStatus.completed else TaskStatus.blocked

unfoldable pub parent_hold : Bool → Bool → HoldReason
parent_hold complete unresolved =
    if unresolved
    then HoldReason.unresolved_effects
    else if complete
    then HoldReason.clear
    else HoldReason.partial_apply_resolved

unfoldable pub settle_parent : ChangePlan → Bool → Bool → ℕ → Ledger → Ledger
settle_parent plan complete unresolved now l = record l {
  drafts =
      if unresolved
      then l.drafts
      else update_where (ready_draft_of plan.id) (end_draft complete) l.drafts;
  tasks = update plan.task (set_task_status (parent_end complete unresolved) now) l.tasks;
  operations = update plan.task (hold_operation (parent_hold complete unresolved)) l.operations;
}

unfoldable pub child_end : Bool → Bool → TaskStatus
child_end complete unresolved =
    if unresolved
    then TaskStatus.blocked
    else if complete
    then TaskStatus.completed
    else TaskStatus.cancelled

-- The loop over the related tasks.
unfoldable pub settle_related : ℕ → Bool → ℕ → List ℕ → Ledger → Result Ledger
settle_related plan complete now [] l = ok l
settle_related plan complete now (t ∷ ts) l = do
  next ←
      (append_event (plan_event task_apply_reconciled t plan) (record l {
        tasks =
            update t (set_task_status (child_end complete (unresolved_effects t true l)) now)
              l.tasks;
      }))
  settle_related plan complete now ts next

-- `related`
unfoldable pub related : ℕ → Ledger → List ℕ
related plan l = map (λ t. t.id) (select (failed_apply plan l) l.tasks)

-- The transaction of `resolve`
unfoldable pub resolve_conn : ChangePlan → Bool → ℕ → Ledger → Result Ledger
resolve_conn plan complete now l = do
  check_resolvable plan now l
  logged ←
      (append_event (resolved_event plan l)
        (record l { plans = update plan.id (set_plan_status (resolution complete)) l.plans }))
  settle_related plan.id complete now (related plan.id l)
      (settle_parent plan complete (unresolved_effects plan.task true logged) now logged)
