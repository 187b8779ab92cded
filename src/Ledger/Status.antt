-- ===== src/Ledger/Status.antt =====
-- The status columns of the ledger, and the transition tables at the top of
-- src/nyanya_agent/execution_store.py.
use Prim.Native.Nat.{ℕ}
use mathlib.Core.Bool.{Bool, false, ◌||◌}
use mathlib.Core.List.{List, [], ◌∷◌}
use nyanya_agent.Prelude.{◌==◌, ◌≡◌, arith}

-- An enumeration whose values are compared as texts: each has a number of its own.
pub record Coded {ℓ} (S : Type ℓ) : Type ℓ where
  pub code : S → ℕ

infix 50 ◌is◌ ◌among◌
abbrev pub ◌is◌ {ℓ} : {S : Type ℓ} ⦃c : Coded S⦄ → S → S → Bool
◌is◌ ⦃c⦄ s t = c.code s == c.code t

-- `s in {…}`
unfoldable pub ◌among◌ {ℓ} : {S : Type ℓ} ⦃c : Coded S⦄ → S → List S → Bool
◌among◌ ⦃c⦄ s [] = false
◌among◌ ⦃c⦄ s (t ∷ ts) = c.code s == c.code t || s among ts

-- agent_tasks.status. `cancelling` is written by `operation_store.cancel` and is no key of
-- `TASK_TRANSITIONS`.
pub data TaskStatus : Type 0 where
  queued running awaiting_approval blocked completed failed cancelled cancelling : TaskStatus

unfoldable pub task_status_code : TaskStatus → ℕ
task_status_code TaskStatus.queued = 0
task_status_code TaskStatus.running = 1
task_status_code TaskStatus.awaiting_approval = 2
task_status_code TaskStatus.blocked = 3
task_status_code TaskStatus.completed = 4
task_status_code TaskStatus.failed = 5
task_status_code TaskStatus.cancelled = 6
task_status_code TaskStatus.cancelling = 7

instance abbrev pub task_status_coded : Coded TaskStatus
task_status_coded = record { code = task_status_code }

-- executions.status
pub data ExecutionStatus : Type 0 where
  pending starting running awaiting_approval cancelling stale succeeded failed cancelled timed_out
        lost :
      ExecutionStatus

unfoldable pub execution_status_code : ExecutionStatus → ℕ
execution_status_code ExecutionStatus.pending = 0
execution_status_code ExecutionStatus.starting = 1
execution_status_code ExecutionStatus.running = 2
execution_status_code ExecutionStatus.awaiting_approval = 3
execution_status_code ExecutionStatus.cancelling = 4
execution_status_code ExecutionStatus.stale = 5
execution_status_code ExecutionStatus.succeeded = 6
execution_status_code ExecutionStatus.failed = 7
execution_status_code ExecutionStatus.cancelled = 8
execution_status_code ExecutionStatus.timed_out = 9
execution_status_code ExecutionStatus.lost = 10

instance abbrev pub execution_status_coded : Coded ExecutionStatus
execution_status_coded = record { code = execution_status_code }

-- approvals.status
pub data ApprovalStatus : Type 0 where
  pending approved rejected expired consumed : ApprovalStatus

unfoldable pub approval_status_code : ApprovalStatus → ℕ
approval_status_code ApprovalStatus.pending = 0
approval_status_code ApprovalStatus.approved = 1
approval_status_code ApprovalStatus.rejected = 2
approval_status_code ApprovalStatus.expired = 3
approval_status_code ApprovalStatus.consumed = 4

instance abbrev pub approval_status_coded : Coded ApprovalStatus
approval_status_coded = record { code = approval_status_code }

-- task_results.delivery_status
pub data DeliveryStatus : Type 0 where
  pending sending delivered uncertain acknowledged : DeliveryStatus

unfoldable pub delivery_status_code : DeliveryStatus → ℕ
delivery_status_code DeliveryStatus.pending = 0
delivery_status_code DeliveryStatus.sending = 1
delivery_status_code DeliveryStatus.delivered = 2
delivery_status_code DeliveryStatus.uncertain = 3
delivery_status_code DeliveryStatus.acknowledged = 4

instance abbrev pub delivery_status_coded : Coded DeliveryStatus
delivery_status_coded = record { code = delivery_status_code }

-- change_plans.status
pub data PlanStatus : Type 0 where
  pending approved applying applied uncertain reconciled revoked expired : PlanStatus

unfoldable pub plan_status_code : PlanStatus → ℕ
plan_status_code PlanStatus.pending = 0
plan_status_code PlanStatus.approved = 1
plan_status_code PlanStatus.applying = 2
plan_status_code PlanStatus.applied = 3
plan_status_code PlanStatus.uncertain = 4
plan_status_code PlanStatus.reconciled = 5
plan_status_code PlanStatus.revoked = 6
plan_status_code PlanStatus.expired = 7

instance abbrev pub plan_status_coded : Coded PlanStatus
plan_status_coded = record { code = plan_status_code }

-- The status of a `TaskOutcome` (task_outcomes.py) and task_results.outcome
pub data Outcome : Type 0 where
  succeeded failed timed_out cancelled awaiting_approval blocked : Outcome

unfoldable pub outcome_code : Outcome → ℕ
outcome_code Outcome.succeeded = 0
outcome_code Outcome.failed = 1
outcome_code Outcome.timed_out = 2
outcome_code Outcome.cancelled = 3
outcome_code Outcome.awaiting_approval = 4
outcome_code Outcome.blocked = 5

instance abbrev pub outcome_coded : Coded Outcome
outcome_coded = record { code = outcome_code }

-- `TASK_TERMINAL_STATUSES`
unfoldable pub task_terminal : TaskStatus → Bool
unfolding ◌among◌ task_status_code
task_terminal s = s among (TaskStatus.completed ∷ TaskStatus.failed ∷ TaskStatus.cancelled ∷ [])

-- `EXECUTION_TERMINAL_STATUSES`
unfoldable pub execution_terminal : ExecutionStatus → Bool
unfolding ◌among◌ execution_status_code
execution_terminal s = s among (
    ExecutionStatus.succeeded ∷ ExecutionStatus.failed ∷ ExecutionStatus.cancelled
    ∷ ExecutionStatus.timed_out ∷ ExecutionStatus.lost ∷ [])

-- `TASK_TRANSITIONS.get(status, set())`
unfoldable pub task_transitions : TaskStatus → List TaskStatus
task_transitions TaskStatus.queued =
    TaskStatus.running ∷ TaskStatus.awaiting_approval ∷ TaskStatus.blocked ∷ TaskStatus.completed
    ∷ TaskStatus.failed ∷ TaskStatus.cancelled ∷ []
task_transitions TaskStatus.running =
    TaskStatus.awaiting_approval ∷ TaskStatus.blocked ∷ TaskStatus.completed ∷ TaskStatus.failed
    ∷ TaskStatus.cancelled ∷ []
task_transitions TaskStatus.awaiting_approval =
    TaskStatus.queued ∷ TaskStatus.running ∷ TaskStatus.blocked ∷ TaskStatus.failed
    ∷ TaskStatus.cancelled ∷ []
task_transitions TaskStatus.blocked =
    TaskStatus.queued ∷ TaskStatus.running ∷ TaskStatus.failed ∷ TaskStatus.cancelled ∷ []
task_transitions TaskStatus.completed = []
task_transitions TaskStatus.failed = TaskStatus.queued ∷ []
task_transitions TaskStatus.cancelled = TaskStatus.queued ∷ []
task_transitions TaskStatus.cancelling = []

-- `EXECUTION_TRANSITIONS.get(status, set())`
unfoldable pub execution_transitions : ExecutionStatus → List ExecutionStatus
execution_transitions ExecutionStatus.pending =
    ExecutionStatus.starting ∷ ExecutionStatus.running ∷ ExecutionStatus.awaiting_approval
    ∷ ExecutionStatus.cancelled ∷ ExecutionStatus.failed ∷ []
execution_transitions ExecutionStatus.starting =
    ExecutionStatus.running ∷ ExecutionStatus.awaiting_approval ∷ ExecutionStatus.cancelling
    ∷ ExecutionStatus.failed ∷ ExecutionStatus.cancelled ∷ ExecutionStatus.timed_out ∷ []
execution_transitions ExecutionStatus.running =
    ExecutionStatus.awaiting_approval ∷ ExecutionStatus.cancelling ∷ ExecutionStatus.succeeded
    ∷ ExecutionStatus.failed ∷ ExecutionStatus.cancelled ∷ ExecutionStatus.timed_out
    ∷ ExecutionStatus.stale ∷ []
execution_transitions ExecutionStatus.awaiting_approval =
    ExecutionStatus.running ∷ ExecutionStatus.cancelling ∷ ExecutionStatus.failed
    ∷ ExecutionStatus.cancelled ∷ ExecutionStatus.timed_out ∷ []
execution_transitions ExecutionStatus.cancelling =
    ExecutionStatus.cancelled ∷ ExecutionStatus.failed ∷ ExecutionStatus.timed_out
    ∷ ExecutionStatus.lost ∷ []
execution_transitions ExecutionStatus.stale =
    ExecutionStatus.running ∷ ExecutionStatus.cancelling ∷ ExecutionStatus.failed
    ∷ ExecutionStatus.cancelled ∷ ExecutionStatus.lost ∷ []
execution_transitions ExecutionStatus.succeeded = []
execution_transitions ExecutionStatus.failed = []
execution_transitions ExecutionStatus.cancelled = []
execution_transitions ExecutionStatus.timed_out = []
execution_transitions ExecutionStatus.lost = []

pub execution_status_code-injective :
    (s t : ExecutionStatus) → execution_status_code s ≡ execution_status_code t → s ≡ t
unfolding execution_status_code
execution_status_code-injective s t h = ground arith

pub task_status_code-injective :
    (s t : TaskStatus) → task_status_code s ≡ task_status_code t → s ≡ t
unfolding task_status_code
task_status_code-injective s t h = ground arith

pub approval_status_code-injective :
    (s t : ApprovalStatus) → approval_status_code s ≡ approval_status_code t → s ≡ t
unfolding approval_status_code
approval_status_code-injective s t h = ground arith

pub delivery_status_code-injective :
    (s t : DeliveryStatus) → delivery_status_code s ≡ delivery_status_code t → s ≡ t
unfolding delivery_status_code
delivery_status_code-injective s t h = ground arith

pub plan_status_code-injective :
    (s t : PlanStatus) → plan_status_code s ≡ plan_status_code t → s ≡ t
unfolding plan_status_code
plan_status_code-injective s t h = ground arith

pub outcome_code-injective : (s t : Outcome) → outcome_code s ≡ outcome_code t → s ≡ t
unfolding outcome_code
outcome_code-injective s t h = ground arith
