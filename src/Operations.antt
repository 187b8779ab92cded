-- ===== src/Operations.antt =====
-- Serializable operations and their workers: src/nyanya_agent/operation_store.py, its intake and
-- its ownership checks. `OperationSpec.validate` is left out.
pub mod Dispatch
pub mod Control
pub mod Cancel
pub mod Upgrade
pub mod Withdrawn
pub mod Slots
pub mod Progress
pub mod Intake
pub mod Admission
pub mod Recovery
pub mod Consent
pub mod Exclusion
use nyanya_agent.Prelude.{
  ℕ, ◌+◌, ◌-◌, Bool, true, false, not, ◌&&◌, ◌||◌, Option, none, some, List, [], ◌∷◌, if◌then◌else◌,
  ◌==◌, ltb, is_id, is_some, Result, ok, err, ◌>>=◌, ◌>>◌, raise_if, require, permission_error,
  safe_operation, integrity_error, runtime_error, find, update, insert, any_row, select, first,
}
use nyanya_agent.Ledger.{
  Ledger, Task, TaskMetadata, TaskStatus, Execution, ExecutionStatus, Claim, Operation,
  OperationSpec, OperationKind, HoldReason, Worker, Change, ChangeAction, ChangePlan, PlanStatus,
  task_keyed, execution_keyed, claim_keyed, operation_keyed, worker_keyed, plan_keyed, turn_keyed,
  task_status_coded, execution_status_coded, plan_status_coded, ◌is◌, ◌among◌, seconds,
  append_event, event, operation_accepted,
}
use nyanya_agent.Effects.{is_apply}
use nyanya_agent.Conversations.{is_request, bind_conn}

-- The file system and the workspace policy that `check_workspace` asks: `Path.resolve(strict=True)`,
-- `is_dir`, the root test, `is_allowed_workspace_path`, whether an owner is a messenger's user, and
-- the path that workspace_config assigns to one.
pub record Workspaces : Type 0 where
  pub resolve : ℕ → Option ℕ
  pub is_dir : ℕ → Bool
  pub is_anchor : ℕ → Bool
  pub is_allowed : ℕ → Bool
  pub is_remote : ℕ → Bool
  pub assigned : ℕ → Option ℕ

unfoldable pub assigned_root : Workspaces → ℕ → Result ℕ
assigned_root w owner = do
  path ← require (w.assigned owner) permission_error
  require (w.resolve path) runtime_error

unfoldable pub check_workspace : Workspaces → ℕ → ℕ → Result ℕ
check_workspace w workspace owner = do
  root ← require (w.resolve workspace) runtime_error
  raise_if (not (w.is_dir root) || w.is_anchor root || not (w.is_allowed root)) safe_operation
  if not (w.is_remote owner) then ok root else (do
    home ← assigned_root w owner
    raise_if (not (home == root)) permission_error
    ok root)

unfoldable pub worker_row : ℕ → ℕ → Worker
worker_row id now = record { id = id; heartbeat_at = now; closed = false }

unfoldable pub register_worker : ℕ → ℕ → Ledger → Result Ledger
register_worker id now l = do
  workers ← insert (worker_row id now) l.workers
  ok (record l { workers = workers })

unfoldable pub worker_beat : ℕ → Bool → Worker → Worker
worker_beat now closed w = record w { heartbeat_at = now; closed = closed }

unfoldable pub heartbeat : ℕ → Bool → ℕ → Ledger → Ledger
heartbeat id closed now l = record l { workers = update id (worker_beat now closed) l.workers }

unfoldable pub cutoff : ℕ → ℕ
cutoff now = now - seconds 30

-- `not worker or worker["closed"] or worker["heartbeat_at"] < cutoff`, negated
unfoldable pub worker_ready : ℕ → Option Worker → Bool
unfolding cutoff
worker_ready now none = false
worker_ready now (some w) = not w.closed && not (ltb w.heartbeat_at (cutoff now))

unfoldable pub is_apply_of : ℕ → Operation → Bool
unfolding is_apply
is_apply_of plan o = is_apply o.spec.kind && o.spec.plan_id == plan

-- The tasks of a plan's apply operations.
unfoldable pub apply_tasks : ℕ → Ledger → List Task
apply_tasks plan l =
    select (λ t. any_row (λ o. o.task == t.id && is_apply_of plan o) l.operations) l.tasks

unfoldable pub apply_admitted : PlanStatus → Bool
apply_admitted s = s among (
    PlanStatus.approved ∷ PlanStatus.applying ∷ PlanStatus.applied ∷ PlanStatus.uncertain
    ∷ PlanStatus.reconciled ∷ [])

unfoldable pub check_existing : ChangePlan → ℕ → ℕ → Task → Ledger → Result Task
check_existing p owner workspace t l = do
  o ← require (find t.id l.operations) permission_error
  raise_if
      (not (t.requested_by == owner)
        || not (p.workspace == workspace)
        || not (is_id o.parent p.task)
        || not (is_id t.metadata.workspace_root workspace))
      permission_error
  raise_if (not (apply_admitted p.status)) safe_operation
  ok t

unfoldable pub existing_apply : ℕ → ℕ → ℕ → Ledger → Result (Option Task)
existing_apply plan owner workspace l = elim (apply_tasks plan l) [
  | [] ↦ ok none
  | (t ∷ []) ↦ (do
    p ← require (find plan l.plans) permission_error
    raise_if (not (p.owner == owner)) permission_error
    kept ← check_existing p owner workspace t l
    ok (some kept))
  | (t ∷ u ∷ rest) ↦ err safe_operation
]

-- One row of the conditions of `require_execution_ownership`.
unfoldable pub owns : ℕ → ℕ → ℕ → ℕ → ℕ → Task → Operation → Claim → Execution → Worker → Bool
unfolding cutoff
owns execution worker owner adapter now t o c e w =
    (is_id t.current_execution c.execution && e.task == t.id && o.generation == c.worker)
    && (c.execution == execution
        && c.worker == worker
        && t.requested_by == owner
        && c.owner == owner)
    && (t.status is TaskStatus.running
        && e.status is ExecutionStatus.running
        && e.adapter == adapter)
    && (o.eligible
        && not c.released
        && ltb now c.expires_at
        && not w.closed
        && ltb (cutoff now) w.heartbeat_at)

-- `adapter` is the text "operation".
unfoldable pub require_execution_ownership : ℕ → ℕ → ℕ → ℕ → ℕ → ℕ → Ledger → Result Operation
require_execution_ownership task execution worker owner adapter now l = do
  t ← require (find task l.tasks) safe_operation
  o ← require (find task l.operations) safe_operation
  c ← require (find task l.claims) safe_operation
  e ← require (find c.execution l.executions) safe_operation
  w ← require (find c.worker l.workers) safe_operation
  raise_if (not (owns execution worker owner adapter now t o c e w)) safe_operation
  ok o

unfoldable pub is_create : ChangeAction → Bool
is_create ChangeAction.create = true
is_create a = false

-- `all(x["action"] == "create" for x in changes)`
unfoldable pub creates_only : List Change → Bool
creates_only changes = not (any_row (λ x. not (is_create x.action)) changes)

-- Whether a claimed operation may apply this plan.
unfoldable pub plan_matches : ℕ → Operation → ChangePlan → Bool
plan_matches task o p =
    o.spec.workspace == p.workspace
    && (if is_apply o.spec.kind
        then o.spec.plan_id == p.id && is_id o.parent p.task
        else task == p.task && creates_only p.changes)

unfoldable pub require_apply_ownership :
    ℕ → ℕ → ℕ → ChangePlan → ℕ → ℕ → ℕ → Ledger → Result (Unit {0})
require_apply_ownership task execution worker plan owner adapter now l = do
  o ← require_execution_ownership task execution worker owner adapter now l
  raise_if (not (plan_matches task o plan)) safe_operation
