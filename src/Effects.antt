-- ===== src/Effects.antt =====
-- `_unresolved_effects` of src/nyanya_agent/operation_store.py: evidence that an attempt of a task
-- may have changed something outside, or may still be running.
pub mod Certain
use nyanya_agent.Prelude.{
  ℕ, Bool, true, false, not, ◌&&◌, ◌||◌, Option, none, some, List, [], ◌∷◌, map, if◌then◌else◌,
  ◌==◌, is_id, find, select, any_row,
}
use nyanya_agent.Ledger.{
  Ledger, Execution, ExecutionStatus, Operation, OperationKind, ChangePlan, PlanStatus, Journal,
  EventType, operation_keyed, plan_keyed, execution_status_coded, plan_status_coded, ◌is◌, ◌among◌,
}

unfoldable pub is_apply : OperationKind → Bool
is_apply OperationKind.apply = true
is_apply OperationKind.request = false

-- An apply's effects are resolved at its parent, all others at the task itself.
unfoldable pub resolution_owner : ℕ → Option Operation → ℕ
unfolding is_apply
resolution_owner task none = task
resolution_owner task (some o) = elim o.parent [
  | none ↦ task
  | some p ↦ if is_apply o.spec.kind then p else task
]

-- The task and, where it resolves itself, its child operations.
unfoldable pub effect_tasks : ℕ → ℕ → Ledger → List ℕ
effect_tasks task owner l =
    task
    ∷ (if owner == task
        then map (λ o. o.task) (select (λ o. is_id o.parent task) l.operations)
        else [])

unfoldable pub is_plan_resolved : EventType → Bool
is_plan_resolved EventType.plan_resolved = true
is_plan_resolved e = false

unfoldable pub plan_settled : PlanStatus → Bool
plan_settled s = s among (PlanStatus.applied ∷ PlanStatus.reconciled ∷ [])

-- plan.resolved evidence at `owner` that names this attempt, for a plan applied or reconciled.
unfoldable pub attempt_resolved : ℕ → ℕ → Ledger → Bool
attempt_resolved owner attempt l =
    any_row
      (λ v.
        is_id v.task owner
        && is_plan_resolved v.event_type
        && any_row (λ x. x == attempt) v.resolved
        && any_row (λ p. is_id v.plan p.id && p.task == owner && plan_settled p.status) l.plans)
      l.events

unfoldable pub uncertain_statuses : Bool → List ExecutionStatus
uncertain_statuses include_lost =
    let active : List ExecutionStatus =
      ExecutionStatus.stale ∷ ExecutionStatus.starting ∷ ExecutionStatus.running
      ∷ ExecutionStatus.cancelling ∷ [] in
    if include_lost then ExecutionStatus.lost ∷ active else active

unfoldable pub unresolved_attempt : ℕ → ℕ → Bool → Ledger → Execution → Bool
unresolved_attempt owner current include_lost l e =
    e.task == current
    && e.status among uncertain_statuses include_lost
    && (not (e.status is ExecutionStatus.lost) || not (attempt_resolved owner e.id l))

unfoldable pub plan_in_doubt : ℕ → ChangePlan → Bool
plan_in_doubt current p =
    p.task == current && p.status among (PlanStatus.applying ∷ PlanStatus.uncertain ∷ [])

unfoldable pub journal_in_doubt : ℕ → Ledger → Journal → Bool
journal_in_doubt current l j =
    any_row (λ p. p.id == j.plan && p.task == current && not (plan_settled p.status)) l.plans

unfoldable pub task_in_doubt : ℕ → Bool → Ledger → ℕ → Bool
task_in_doubt owner include_lost l current =
    any_row (unresolved_attempt owner current include_lost l) l.executions
    || any_row (plan_in_doubt current) l.plans
    || any_row (journal_in_doubt current l) l.journal

unfoldable pub unresolved_effects : ℕ → Bool → Ledger → Bool
unresolved_effects task include_lost l =
    let owner = resolution_owner task (find task l.operations) in
    any_row (task_in_doubt owner include_lost l) (effect_tasks task owner l)
