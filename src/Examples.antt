-- ===== src/Examples.antt =====
-- A small ledger, and runs of the operations on it.
pub mod Leases
pub mod Executions
pub mod Coordinator
pub mod Messages
pub mod Approvals
pub mod Uploads
pub mod Queue
pub mod Intake
pub mod Conversations
pub mod Operations
pub mod Apply
pub mod Submit
use nyanya_agent.Prelude.{
  ℕ, Bool, true, false, Option, none, some, List, [], ◌∷◌, ◌≡◌, refl, Result, ok, err,
}
use nyanya_agent.Ledger.{
  Ledger, Task, TaskMetadata, TaskStatus, Execution, ExecutionMetadata, ExecutionStatus,
  WriterLease, Claim, Operation, OperationSpec, OperationKind, HoldReason, Worker, Approval,
  ApprovalStatus, Action, Outcome,
}
use nyanya_agent.WorkQueue.{ClaimRecord}

abbrev pub empty : Ledger
empty = record {
  tasks = [];
  executions = [];
  sessions = [];
  approvals = [];
  leases = [];
  claims = [];
  results = [];
  operations = [];
  workers = [];
  plans = [];
  journal = [];
  projects = [];
  codex_sessions = [];
  conversations = [];
  turns = [];
  drafts = [];
  events = [];
  audits = [];
}

abbrev pub no_metadata : ExecutionMetadata
no_metadata = record {
  worker_id = none;
  writer_lease = none;
  timeout_seconds = none;
  runtime_session = none;
  approval_id = none;
  legacy = none;
}

abbrev pub a_task : TaskStatus → Option ℕ → Task
a_task status execution = record {
  id = 1;
  status = status;
  priority = 100;
  requested_by = 5;
  source_request = none;
  project = none;
  codex_session = none;
  current_execution = execution;
  metadata = record { owner_key = some 5; workspace_root = some 3; dismissed_at = none };
  created_at = 10;
  updated_at = 10;
  completed_at = none;
}

abbrev pub an_execution : ExecutionStatus → Execution
an_execution status = record {
  id = 11;
  task = 1;
  adapter = 2;
  status = status;
  metadata = no_metadata;
  created_at = 10;
  started_at = some 10;
  ended_at = none;
  last_heartbeat_at = some 10;
  updated_at = 10;
}

abbrev pub a_claim : Claim
a_claim = record {
  task = 1;
  worker = 7;
  owner = 5;
  execution = 11;
  expires_at = 5000;
  released = false;
}

abbrev pub an_operation : Operation
an_operation = record {
  task = 1;
  spec = record { kind = OperationKind.request; workspace = 3; plan_id = 0; draft_id = none };
  generation = 7;
  eligible = true;
  attempts = 1;
  max_attempts = 3;
  hold = HoldReason.clear;
  parent = none;
}

abbrev pub a_worker : Worker
a_worker = record { id = 7; heartbeat_at = 10; closed = false }

-- A task that worker 7 runs as attempt 11, of that status.
abbrev pub busy : ExecutionStatus → Ledger
busy status = record empty {
  tasks = a_task TaskStatus.running (some 11) ∷ [];
  executions = an_execution status ∷ [];
  claims = a_claim ∷ [];
  operations = an_operation ∷ [];
  workers = a_worker ∷ [];
}

-- A task that waits for a worker.
abbrev pub waiting : Ledger
waiting = record empty {
  tasks = a_task TaskStatus.queued none ∷ [];
  operations = an_operation ∷ [];
  workers = a_worker ∷ [];
}

abbrev pub held_record : ClaimRecord
held_record = record {
  task = 1;
  worker = 7;
  execution = 11;
  spec = some an_operation.spec;
  question = false;
}
