-- ===== src/Tasks.antt =====
-- Tasks: `create_task`, `transition_task`, `update_task_context` and `attach_codex_session` of
-- src/nyanya_agent/execution_store.py. An error leaves the ledger as it was. The last three read
-- before their first write takes the write lock: they check the ledger `seen` and write to `l`, which
-- others may have changed since. The row that the code reads back at the end is the ledger's own.
use nyanya_agent.Prelude.{
  ℕ, Bool, true, false, not, ◌&&◌, Option, none, some, List, if◌then◌else◌, ◌==◌, is_id, is_some,
  ◌or◌, Result, ok, ◌>>=◌, ◌>>◌, raise_if, require, key_error, value_error, invalid_transition,
  integrity_error, find, update, insert, any_row,
}
use nyanya_agent.Ledger.{
  Ledger, Task, TaskMetadata, TaskStatus, CodexSession, task_keyed, codex_session_keyed,
  task_status_coded, ◌is◌, ◌among◌, task_terminal, task_transitions, whole_second, append_event,
  event, log_audit, task_created, task_status, task_session_attached,
}

-- `status in TASK_TRANSITIONS`
unfoldable pub known_task_status : TaskStatus → Bool
known_task_status TaskStatus.cancelling = false
known_task_status s = true

unfoldable pub listed : ℕ → List ℕ → Bool
listed p ps = any_row (λ q. q == p) ps

-- `if project_id and conn.execute("SELECT 1 FROM execution_projects …") is None: raise KeyError`
unfoldable pub project_exists : Option ℕ → Ledger → Bool
project_exists none l = true
project_exists (some p) l = listed p l.projects

-- The checks that `create_task` and `update_task_context` share; the project that results.
unfoldable pub check_context : Option ℕ → Option ℕ → Ledger → Result (Option ℕ)
check_context project none l = do raise_if (not (project_exists project l)) key_error; ok project
check_context project (some s) l = do
  raise_if (not (project_exists project l)) key_error
  session ← require (find s l.codex_sessions) key_error
  raise_if (is_some project && not (is_id project session.project)) value_error
  ok (project or some session.project)

pub record NewTask : Type 0 where
  pub id : ℕ
  pub status : TaskStatus
  pub priority : ℕ
  pub requested_by : ℕ
  pub source_request : Option ℕ
  pub project : Option ℕ
  pub codex_session : Option ℕ
  pub metadata : TaskMetadata

unfoldable pub task_row : NewTask → Option ℕ → ℕ → Task
task_row n project now = record {
  id = n.id;
  status = n.status;
  priority = n.priority;
  requested_by = n.requested_by;
  source_request = n.source_request;
  project = project;
  codex_session = n.codex_session;
  current_execution = none;
  metadata = n.metadata;
  created_at = now;
  updated_at = now;
  completed_at = if task_terminal n.status then some now else none;
}

-- The unique index on source_request_id.
unfoldable pub source_taken : Option ℕ → List Task → Bool
source_taken none tasks = false
source_taken (some s) tasks = any_row (λ t. is_id t.source_request s) tasks

unfoldable pub create_task : NewTask → ℕ → Ledger → Result Ledger
create_task n clock l = do
  raise_if (not (known_task_status n.status)) value_error
  project ← check_context n.project n.codex_session l
  raise_if (source_taken n.source_request l.tasks) integrity_error
  tasks ← insert (task_row n project (whole_second clock)) l.tasks
  logged ← append_event (event task_created (some n.id) none) (record l { tasks = tasks })
  ok (log_audit n.requested_by task_created n.id logged)

-- SET status, updated_at, completed_at
unfoldable pub set_task_status : TaskStatus → ℕ → Task → Task
set_task_status status now t = record t {
  status = status;
  updated_at = now;
  completed_at = if task_terminal status then some now else none;
}

-- The guard of `transition_task`, as `allowed`: no change, a forced one, or a listed one.
abbrev pub task_move_allowed : TaskStatus → TaskStatus → Bool → Bool
task_move_allowed current status force =
    not (not (status is current) && not force && not (status among task_transitions current))

unfoldable pub transition_task : ℕ → TaskStatus → Bool → ℕ → ℕ → Ledger → Ledger → Result Ledger
transition_task id status force actor clock seen l = do
  current ← require (find id seen.tasks) key_error
  raise_if (not (task_move_allowed current.status status force)) invalid_transition
  let moved : Ledger = record l {
    tasks = update id (set_task_status status (whole_second clock)) l.tasks;
  }
  if status is current.status then ok moved else do
    logged ← append_event (event task_status (some id) none) moved
    ok (log_audit actor task_status id logged)

-- `existing_metadata.update(metadata)`
unfoldable pub merge_metadata : TaskMetadata → TaskMetadata → TaskMetadata
merge_metadata new old = record {
  owner_key = new.owner_key or old.owner_key;
  workspace_root = new.workspace_root or old.workspace_root;
  dismissed_at = new.dismissed_at or old.dismissed_at;
}

-- `old` is the row as it was read.
unfoldable pub set_context : Option ℕ → Option ℕ → TaskMetadata → ℕ → Task → Task → Task
set_context project session metadata now old t = record t {
  project = project or old.project;
  codex_session = session or old.codex_session;
  metadata = merge_metadata metadata old.metadata;
  updated_at = now;
}

unfoldable pub update_task_context :
    ℕ → Option ℕ → Option ℕ → TaskMetadata → ℕ → Ledger → Ledger → Result Ledger
update_task_context id project session metadata clock seen l = do
  old ← require (find id seen.tasks) key_error
  bound ← check_context project session seen
  ok (record l {
    tasks = update id (set_context bound session metadata (whole_second clock) old) l.tasks;
  })

unfoldable pub in_project : Option CodexSession → ℕ → Bool
in_project none project = false
in_project (some s) project = s.project == project

unfoldable pub attach_codex_session : ℕ → ℕ → ℕ → ℕ → Ledger → Ledger → Result Ledger
attach_codex_session id project session clock seen l = do
  task ← require (find id seen.tasks) key_error
  raise_if (not (in_project (find session seen.codex_sessions) project)) value_error
  raise_if (is_some task.project && not (is_id task.project project)) value_error
  let now = whole_second clock
  append_event (event task_session_attached (some id) none) (record l {
    tasks =
        update id
          (λ t. record t { project = some project; codex_session = some session; updated_at = now })
          l.tasks;
    codex_sessions = update session (λ s. record s { last_activity_at = now }) l.codex_sessions;
  })
