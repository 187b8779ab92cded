-- ===== src/Operations/Intake.antt =====
-- `submit` and `_submit_conn` of src/nyanya_agent/operation_store.py: the intake of an operation.
use nyanya_agent.Prelude.{
  ℕ, Bool, true, false, not, ◌||◌, Option, none, some, List, if◌then◌else◌, ◌==◌, is_id, is_some,
  Result, ok, err, ◌>>=◌, ◌>>◌, raise_if, require, permission_error, safe_operation,
  integrity_error, runtime_error, find, update, insert, first,
}
use nyanya_agent.Ledger.{
  Ledger, Task, TaskMetadata, TaskStatus, Execution, ExecutionStatus, Operation, OperationSpec,
  HoldReason, PlanStatus, task_keyed, execution_keyed, operation_keyed, worker_keyed, plan_keyed,
  turn_keyed, task_status_coded, execution_status_coded, plan_status_coded, ◌is◌, append_event,
  event, operation_accepted,
}
use nyanya_agent.Effects.{is_apply}
use nyanya_agent.Tasks.{project_exists}
use nyanya_agent.Conversations.{bind_conn}
use nyanya_agent.Operations.{Workspaces, check_workspace, worker_ready, existing_apply}

-- The arguments of `_submit_conn`. `task` and `session` are the new identifiers, `root` the checked
-- workspace and `conversation` the hash of the conversation's key.
pub record Intake : Type 0 where
  pub task : ℕ
  pub session : ℕ
  pub spec : OperationSpec
  pub owner : ℕ
  pub generation : ℕ
  pub root : ℕ
  pub source_request : Option ℕ
  pub project : Option ℕ
  pub parent : Option ℕ
  pub conversation : Option ℕ

unfoldable pub prior_task : Option ℕ → Ledger → Option Task
prior_task none l = none
prior_task (some s) l = first (λ t. is_id t.source_request s) l.tasks

-- A conversation's turn is checked again where the task has one.
unfoldable pub replay : Intake → Task → Ledger → Result (ℕ × Ledger)
replay n p l = elim n.conversation [
  | none ↦ ok (p.id, l)
  | some hash ↦
      if not (is_some (find p.id l.turns))
      then ok (p.id, l)
      else (do bound ← bind_conn n.session p.id n.owner hash n.root l; ok (p.id, bound))
]

unfoldable pub is_legacy : Option Bool → Bool
is_legacy none = false
is_legacy (some b) = b

unfoldable pub cancel_legacy : ℕ → Execution → Execution
cancel_legacy now e = record e { status = ExecutionStatus.cancelled; ended_at = some now }

-- The pending execution that an older connector left on a queued task.
unfoldable pub drop_legacy : Task → ℕ → Ledger → Result Ledger
drop_legacy p now l = elim p.current_execution [
  | none ↦ ok l
  | some e ↦ (do
    old ← require (find e l.executions) runtime_error
    raise_if (not (old.status is ExecutionStatus.pending) || not (is_legacy old.metadata.legacy))
        safe_operation
    ok (record l { executions = update e (cancel_legacy now) l.executions }))
]

unfoldable pub intake_metadata : Intake → TaskMetadata
intake_metadata n = record {
  owner_key = some n.owner;
  workspace_root = some n.root;
  dismissed_at = none;
}

unfoldable pub intake_row : Intake → ℕ → ℕ → Task
intake_row n task now = record {
  id = task;
  status = TaskStatus.queued;
  priority = 100;
  requested_by = n.owner;
  source_request = n.source_request;
  project = n.project;
  codex_session = none;
  current_execution = none;
  metadata = intake_metadata n;
  created_at = now;
  updated_at = now;
  completed_at = none;
}

unfoldable pub adopt_row : Intake → Task → Task
adopt_row n t = record t {
  metadata = intake_metadata n;
  requested_by = n.owner;
  current_execution = none;
}

-- INSERT … ON CONFLICT(id) DO UPDATE
unfoldable pub write_task : Intake → ℕ → ℕ → Ledger → Result (List Task)
write_task n task now l =
    if is_some (find task l.tasks)
    then ok (update task (adopt_row n) l.tasks)
    else if not (project_exists n.project l)
    then err integrity_error
    else insert (intake_row n task now) l.tasks

unfoldable pub operation_row : Intake → ℕ → Option ℕ → Operation
operation_row n task parent = record {
  task = task;
  spec = n.spec;
  generation = n.generation;
  eligible = true;
  attempts = 0;
  max_attempts = 3;
  hold = HoldReason.clear;
  parent = parent;
}

unfoldable pub bind_intake : Intake → ℕ → Ledger → Result Ledger
bind_intake n task l = elim n.conversation [
  | none ↦ ok l
  | some hash ↦
      if is_apply n.spec.kind then ok l else bind_conn n.session task n.owner hash n.root l
]

unfoldable pub admit : Intake → ℕ → Option ℕ → ℕ → Ledger → Result (ℕ × Ledger)
admit n task parent now l = do
  tasks ← write_task n task now l
  operations ← insert (operation_row n task parent) l.operations
  bound ← bind_intake n task (record l { tasks = tasks; operations = operations })
  logged ← append_event (event operation_accepted (some task) none) bound
  ok (task, logged)

-- The plan of a first apply: the owner's, in this workspace, approved.
unfoldable pub apply_parent : Intake → Ledger → Result ℕ
apply_parent n l = do
  p ← require (find n.spec.plan_id l.plans) safe_operation
  raise_if
      (not (p.owner == n.owner)
        || not (p.workspace == n.root)
        || not (p.status is PlanStatus.approved))
      safe_operation
  ok p.task

-- From `if spec.kind == "apply"` on.
unfoldable pub admit_kind : Intake → ℕ → ℕ → Ledger → Result (ℕ × Ledger)
admit_kind n task now l = if not (is_apply n.spec.kind) then admit n task n.parent now l else (do
  known ← existing_apply n.spec.plan_id n.owner n.root l
  elim known [
    | some t ↦ ok (t.id, l)
    | none ↦ (do parent ← apply_parent n l; admit n task (some parent) now l)
  ])

unfoldable pub adopt : Intake → Task → ℕ → Ledger → Result (ℕ × Ledger)
adopt n p now l = do
  raise_if (not (p.status is TaskStatus.queued)) safe_operation
  dropped ← drop_legacy p now l
  admit_kind n p.id now dropped

unfoldable pub submit_conn : Intake → ℕ → Ledger → Result (ℕ × Ledger)
submit_conn n now l = do
  raise_if (not (worker_ready now (find n.generation l.workers))) safe_operation
  elim (prior_task n.source_request l) [
    | none ↦ admit_kind n n.task now l
    | some p ↦ (do
      raise_if (not (p.requested_by == n.owner)) permission_error
      if is_some (find p.id l.operations) then replay n p l else adopt n p now l)
  ]

-- `submit`, after `spec.validate()`.
unfoldable pub submit : Workspaces → Intake → ℕ → Ledger → Result (ℕ × Ledger)
submit w n now l = do
  root ← check_workspace w n.spec.workspace n.owner
  submit_conn (record n { root = root }) now l
