-- ===== src/Approvals.antt =====
-- Approvals: `request_approval` and `decide_approval` of src/nyanya_agent/execution_store.py, and
-- `check_approval` of approval_contract.py. The scope hash of a command is SHA-256's, a number here.
pub mod Trail
pub mod SingleUse
pub mod Requests
use nyanya_agent.Prelude.{
  ℕ, ◌+◌, max, Bool, true, false, not, ◌&&◌, ◌||◌, Option, none, some, [], ◌∷◌, List, if◌then◌else◌,
  ◌==◌, leb, is_id, is_some, Result, ok, err, ◌>>=◌, ◌>>◌, raise_if, require, Error, key_error,
  value_error, integrity_error, approval_expired, already_decided, actor_mismatch, permission_error,
  find, update, insert,
}
use nyanya_agent.Ledger.{
  Ledger, Task, TaskStatus, Execution, ExecutionStatus, Approval, ApprovalStatus, Action,
  task_keyed, execution_keyed, approval_keyed, approval_status_coded, ◌is◌, ◌among◌, seconds,
  whole_second, append_event, event, log_audit, approval_requested, approval_decided,
  approval_consumed,
}
use nyanya_agent.Ledger

pub record NewApproval : Type 0 where
  pub id : ℕ
  pub action : Action
  pub requested_by : ℕ
  pub task : Option ℕ
  pub execution : Option ℕ
  pub ttl_seconds : ℕ
  pub authorized_actor : Option ℕ
  pub scope_hash : Option ℕ

unfoldable pub approval_row : NewApproval → ℕ → Approval
approval_row n now = record {
  id = n.id;
  task = n.task;
  execution = n.execution;
  action = n.action;
  status = ApprovalStatus.pending;
  requested_by = n.requested_by;
  decided_by = none;
  authorized_actor = n.authorized_actor;
  scope_hash = n.scope_hash;
  upload = none;
  requested_at = now;
  expires_at = some (now + seconds (max 60 n.ttl_seconds));
  decided_at = none;
}

-- The foreign keys approvals.task_id and approvals.execution_id.
unfoldable pub task_exists : Option ℕ → Ledger → Bool
task_exists none l = true
task_exists (some t) l = is_some (find t l.tasks)

unfoldable pub execution_exists : Option ℕ → Ledger → Bool
execution_exists none l = true
execution_exists (some e) l = is_some (find e l.executions)

-- SET status, updated_at: the completion time is not touched.
unfoldable pub mark_task : TaskStatus → ℕ → Task → Task
mark_task status now t = record t { status = status; updated_at = now }

unfoldable pub mark_tasks : TaskStatus → ℕ → Option ℕ → List Task → List Task
mark_tasks status now none tasks = tasks
mark_tasks status now (some id) tasks = update id (mark_task status now) tasks

unfoldable pub await_execution : ℕ → Execution → Execution
await_execution now e = record e { status = ExecutionStatus.awaiting_approval; updated_at = now }

unfoldable pub await_executions : ℕ → Option ℕ → List Execution → List Execution
await_executions now none executions = executions
await_executions now (some id) executions = update id (await_execution now) executions

unfoldable pub request_approval : NewApproval → ℕ → Ledger → Result Ledger
request_approval n clock l = do
  raise_if (not (is_some n.task) && not (is_some n.execution)) value_error
  let now = whole_second clock
  raise_if (not (task_exists n.task l && execution_exists n.execution l)) integrity_error
  approvals ← insert (approval_row n now) l.approvals
  logged ← append_event (event approval_requested n.task n.execution) (record l {
    approvals = approvals;
    tasks = mark_tasks TaskStatus.awaiting_approval now n.task l.tasks;
    executions = await_executions now n.execution l.executions;
  })
  ok (log_audit n.requested_by approval_requested n.id logged)

unfoldable pub is_upload : Action → Bool
is_upload Action.discord_upload_pii = true
is_upload a = false

-- `authorized_actor and decided_by != authorized_actor`
unfoldable pub wrong_actor : Option ℕ → ℕ → Bool
wrong_actor none decided_by = false
wrong_actor (some a) decided_by = not (decided_by == a)

-- `expires_at and expires_at <= timestamp`
unfoldable pub expired_at : Option ℕ → ℕ → Bool
expired_at none now = false
expired_at (some t) now = leb t now

unfoldable pub set_decision : ApprovalStatus → ℕ → ℕ → Approval → Approval
set_decision status decided_by now a = record a {
  status = status;
  decided_by = some decided_by;
  decided_at = some now;
}

unfoldable pub set_expired : ℕ → Approval → Approval
set_expired now a = record a { status = ApprovalStatus.expired; decided_at = some now }

-- `with connect(…)` where the block may commit and then raise: the inner result is what it
-- raises after its commit, the outer error rolls back.
abbrev pub settle : Ledger → Result (Result (Unit {0}) × Ledger) → Result (Unit {0}) × Ledger
settle l (ok done) = done
settle l (err e) = (err e, l)

-- The branch of a live, pending approval.
unfoldable pub decide_pending : ℕ → ApprovalStatus → ℕ → ℕ → Approval → Ledger → Result Ledger
decide_pending id decision decided_by now current l = do
  logged ← append_event (event approval_decided current.task current.execution) (record l {
    approvals = update id (set_decision decision decided_by now) l.approvals;
    tasks =
        if decision is ApprovalStatus.rejected
        then mark_tasks TaskStatus.blocked now current.task l.tasks
        else l.tasks;
  })
  ok (log_audit decided_by approval_decided id logged)

unfoldable pub expire_pending : ℕ → ℕ → Approval → Ledger → Result Ledger
expire_pending id now current l =
    append_event (event Ledger.approval_expired current.task current.execution)
      (record l { approvals = update id (set_expired now) l.approvals })

-- The checks of `decide_approval`, in their order, up to the expiry.
unfoldable pub check_decision : ℕ → ApprovalStatus → ℕ → Ledger → Result Approval
check_decision id decision decided_by l = do
  raise_if (not (decision among (ApprovalStatus.approved ∷ ApprovalStatus.rejected ∷ [])))
      value_error
  current ← require (find id l.approvals) key_error
  raise_if (is_upload current.action) value_error
  raise_if (wrong_actor current.authorized_actor decided_by) actor_mismatch
  raise_if (not (current.status is ApprovalStatus.pending) && not (current.status is decision))
      already_decided
  ok current

unfoldable pub decide_approval : ℕ → ApprovalStatus → ℕ → ℕ → Ledger → Result (Unit {0}) × Ledger
decide_approval id decision decided_by clock l = settle l (do
  current ← check_decision id decision decided_by l
  let now = whole_second clock
  if not (current.status is ApprovalStatus.pending)
      then ok (ok tt, l)
      else if expired_at current.expires_at now
      then (do expired ← expire_pending id now current l; ok (err approval_expired, expired))
      else (do decided ← decide_pending id decision decided_by now current l; ok (ok tt, decided)))

unfoldable pub is_workspace_write : Action → Bool
is_workspace_write Action.workspace_write = true
is_workspace_write a = false

-- `metadata.get("authorized_actor") and metadata["authorized_actor"] == row["decided_by"]`
unfoldable pub decided_as_authorized : Option ℕ → Option ℕ → Bool
decided_as_authorized none decided_by = false
decided_as_authorized (some a) decided_by = is_id decided_by a

-- Whether an approval lets this task run a command of this scope now.
unfoldable pub usable : ℕ → ℕ → ℕ → Approval → Bool
usable task scope_hash clock a =
    a.status is ApprovalStatus.approved
    && is_id a.task task
    && is_workspace_write a.action
    && is_some a.expires_at
    && not (expired_at a.expires_at clock)
    && decided_as_authorized a.authorized_actor a.decided_by
    && is_id a.scope_hash scope_hash

unfoldable pub set_consumed : ℕ → Approval → Approval
set_consumed execution a = record a { status = ApprovalStatus.consumed; execution = some execution }

-- With an execution the approval is consumed; without one it is only checked.
unfoldable pub check_approval : ℕ → ℕ → ℕ → Option ℕ → ℕ → Ledger → Result Ledger
check_approval id task scope_hash execution clock l = do
  a ← require (find id l.approvals) permission_error
  raise_if (not (usable task scope_hash clock a)) permission_error
  elim execution [
    | none ↦ ok l
    | some e ↦ (do
      raise_if (not (execution_exists (some e) l)) integrity_error
      append_event (event approval_consumed (some task) (some e))
          (record l { approvals = update id (set_consumed e) l.approvals }))
  ]
