-- ===== src/Ledger/Rows.antt =====
-- The rows of the ledger's tables (the migrations of src/nyanya_agent/execution_store.py and
-- operation_schema.py) and the ledger as their record. Identifiers, owners, workspaces and hashes
-- are texts that the code only compares: they are numbers here. An instant is the number of
-- microseconds since 1970; the ISO texts of the code are ordered as these are. Free texts
-- (titles, messages, errors) and columns that no condition reads are left out.
use Prim.Native.Nat.{ℕ, ◌-◌, ◌*◌, ◌%◌}
use mathlib.Core.Bool.{Bool}
use mathlib.Core.Option.{Option}
use mathlib.Core.List.{List}
use nyanya_agent.Prelude.{Keyed}
use nyanya_agent.Paths.{Text}
use nyanya_agent.Ledger.Status.{
  TaskStatus, ExecutionStatus, ApprovalStatus, DeliveryStatus, PlanStatus, Outcome,
}

abbrev pub seconds : ℕ → ℕ
seconds n = n * 1000000

-- `replace(microsecond=0)`
abbrev pub whole_second : ℕ → ℕ
whole_second t = t - t % 1000000

-- The keys of agent_tasks.metadata_json that conditions read.
pub record TaskMetadata : Type 0 where
  pub owner_key : Option ℕ
  pub workspace_root : Option ℕ
  pub dismissed_at : Option ℕ  -- user_disposition = "dismissed", user_disposition_at

pub record Task : Type 0 where
  pub id : ℕ
  pub status : TaskStatus
  pub priority : ℕ
  pub requested_by : ℕ
  pub source_request : Option ℕ
  pub project : Option ℕ
  pub codex_session : Option ℕ
  pub current_execution : Option ℕ
  pub metadata : TaskMetadata
  pub created_at : ℕ
  pub updated_at : ℕ
  pub completed_at : Option ℕ

-- metadata["writer_lease"]
pub record LeaseNote : Type 0 where
  pub resource_key : ℕ
  pub fence_token : ℕ

-- The keys of executions.metadata_json that conditions read.
pub record ExecutionMetadata : Type 0 where
  pub worker_id : Option ℕ
  pub writer_lease : Option LeaseNote
  pub timeout_seconds : Option ℕ
  pub runtime_session : Option ℕ
  pub approval_id : Option ℕ
  pub legacy : Option Bool

pub record Execution : Type 0 where
  pub id : ℕ
  pub task : ℕ
  pub adapter : ℕ
  pub status : ExecutionStatus
  pub metadata : ExecutionMetadata
  pub created_at : ℕ
  pub started_at : Option ℕ
  pub ended_at : Option ℕ
  pub last_heartbeat_at : Option ℕ
  pub updated_at : ℕ

pub data SessionStatus : Type 0 where
  running stale stopped failed cancelled : SessionStatus

pub record RuntimeSession : Type 0 where
  pub id : ℕ
  pub execution : Option ℕ
  pub adapter : ℕ
  pub status : SessionStatus
  pub handle : Option ℕ  -- metadata["handle"], opaque to the ledger
  pub started_at : ℕ
  pub last_heartbeat_at : ℕ
  pub ended_at : Option ℕ
  pub updated_at : ℕ

pub data Action : Type 0 where
  workspace_write discord_upload_pii feedback_review draft_read_scope other : Action

-- `COUNT_KINDS` of upload_approval.py
pub data CountKind : Type 0 where
  email phone resident_id payment_card bank_account passport person_name address local_path :
      CountKind

-- `_IDENTITY_KEYS`
pub record FileIdentity : Type 0 where
  pub dev : ℕ
  pub ino : ℕ
  pub size : ℕ
  pub mtime_ns : ℕ
  pub ctime_ns : ℕ

-- `_SCOPE_KEYS` without the actor, who is `Approval.authorized_actor`
pub record UploadScope : Type 0 where
  pub conversation_key : ℕ
  pub workspace : Text
  pub relative_path : Text
  pub destination_id : ℕ
  pub request_channel_id : ℕ
  pub sha256 : Text
  pub file_identity : FileIdentity
  pub counts : List (CountKind × ℕ)

-- The rest of the metadata of an upload's confirmation
pub record Upload : Type 0 where
  pub schema_version : ℕ
  pub phase : ApprovalStatus
  pub scope : UploadScope

pub record Approval : Type 0 where
  pub id : ℕ
  pub task : Option ℕ
  pub execution : Option ℕ
  pub action : Action
  pub status : ApprovalStatus
  pub requested_by : ℕ
  pub decided_by : Option ℕ
  pub authorized_actor : Option ℕ  -- metadata["authorized_actor"]
  pub scope_hash : Option ℕ  -- metadata["scope_hash"]
  pub upload : Option Upload
  pub requested_at : ℕ
  pub expires_at : Option ℕ
  pub decided_at : Option ℕ

pub record WriterLease : Type 0 where
  pub resource_key : ℕ
  pub owner_id : ℕ
  pub fence_token : ℕ
  pub acquired_at : ℕ
  pub heartbeat_at : ℕ
  pub expires_at : ℕ

-- task_claims
pub record Claim : Type 0 where
  pub task : ℕ
  pub worker : ℕ
  pub owner : ℕ
  pub execution : ℕ
  pub expires_at : ℕ
  pub released : Bool

-- task_results
pub record TaskResult : Type 0 where
  pub execution : ℕ
  pub task : ℕ
  pub outcome : Outcome
  pub delivery : DeliveryStatus
  pub created_at : ℕ
  pub updated_at : ℕ

pub data OperationKind : Type 0 where
  request apply : OperationKind

-- The fields of `OperationSpec` that the store reads.
pub record OperationSpec : Type 0 where
  pub kind : OperationKind
  pub workspace : ℕ
  pub plan_id : ℕ
  pub draft_id : Option ℕ

pub data HoldReason : Type 0 where
  clear worker_interrupted worker_start_failed cancellation_unconfirmed : HoldReason
  cancelled_by_owner parent_cancelled plan_revoked plan_expired plan_closed : HoldReason
  unresolved_effects partial_apply_resolved : HoldReason
  outcome : Outcome → HoldReason

-- task_operations
pub record Operation : Type 0 where
  pub task : ℕ
  pub spec : OperationSpec
  pub generation : ℕ
  pub eligible : Bool
  pub attempts : ℕ
  pub max_attempts : ℕ
  pub hold : HoldReason
  pub parent : Option ℕ

-- operation_workers
pub record Worker : Type 0 where
  pub id : ℕ
  pub heartbeat_at : ℕ
  pub closed : Bool

pub data ChangeAction : Type 0 where
  create modify delete : ChangeAction

-- One item of change_plans.changes_json; the hash of a missing file is none
pub record Change : Type 0 where
  pub path : ℕ
  pub action : ChangeAction
  pub content : Text
  pub before_hash : Option ℕ
  pub after_hash : Option ℕ

-- change_plans
pub record ChangePlan : Type 0 where
  pub id : ℕ
  pub task : ℕ
  pub owner : ℕ
  pub workspace : ℕ
  pub plan_hash : ℕ
  pub changes : List Change
  pub status : PlanStatus
  pub expires_at : ℕ
  pub decided_by : Option ℕ
  pub created_at : ℕ

-- change_journal
pub record Journal : Type 0 where
  pub plan : ℕ
  pub ordinal : ℕ
  pub path : ℕ
  pub before_hash : Option ℕ
  pub after_hash : Option ℕ
  pub before_content : Option Text
  pub applied : Bool  -- state = "applied"

pub data EventType : Type 0 where
  task_created task_status task_claimed task_result task_plan_completed : EventType
  task_session_attached execution_created execution_status execution_review_closed : EventType
  approval_requested approval_decided approval_expired approval_consumed : EventType
  operation_accepted operation_claimed operation_interrupted operation_routed : EventType
  operation_resume_requested operation_cancel_requested operation_dismissed : EventType
  operation_worker_start_failed operation_plan_closed operation_review_effects_held : EventType
  plan_approved plan_revoked plan_expired plan_resolved plan_applied : EventType
  plan_reconciled task_apply_reconciled : EventType
  operation_legacy_upgrade_held execution_legacy_upgrade_held : EventType
  delivery_acknowledged : EventType
  upload_requested upload_expired upload_rejected upload_consumed : EventType

-- execution_events; the last two fields are metadata["plan_id"] and ["resolved_execution_ids"]
pub record Event : Type 0 where
  pub event_type : EventType
  pub task : Option ℕ
  pub execution : Option ℕ
  pub plan : Option ℕ
  pub resolved : List ℕ

-- audit_logs
pub record Audit : Type 0 where
  pub actor : ℕ
  pub event_type : EventType
  pub entity : ℕ

pub record CodexSession : Type 0 where
  pub id : ℕ
  pub project : ℕ
  pub last_activity_at : ℕ

-- conversation_sessions; the conversation's key is kept as its hash
pub record Conversation : Type 0 where
  pub id : ℕ
  pub owner : ℕ
  pub conversation_hash : ℕ
  pub workspace : ℕ
  pub generation : ℕ
  pub next_sequence : ℕ
  pub pending_task : Option ℕ
  pub pending_execution : Option ℕ

-- conversation_turns
pub record Turn : Type 0 where
  pub task : ℕ
  pub session : ℕ
  pub generation : ℕ
  pub sequence : ℕ
  pub related_task : Option ℕ
  pub is_question : Bool  -- reply_kind = "question"
  pub completed_execution : Option ℕ

pub data DraftStatus : Type 0 where
  pending ready closed applied : DraftStatus

-- operation_drafts
pub record Draft : Type 0 where
  pub id : ℕ
  pub owner : ℕ
  pub workspace : ℕ
  pub source_task : ℕ
  pub status : DraftStatus
  pub plan : Option ℕ
  pub revision : ℕ
  pub scope_hash : ℕ
  pub expires_at : ℕ

-- The database. Events and audits stand newest first.
pub record Ledger : Type 0 where
  pub tasks : List Task
  pub executions : List Execution
  pub sessions : List RuntimeSession
  pub approvals : List Approval
  pub leases : List WriterLease
  pub claims : List Claim
  pub results : List TaskResult
  pub operations : List Operation
  pub workers : List Worker
  pub plans : List ChangePlan
  pub journal : List Journal
  pub projects : List ℕ
  pub codex_sessions : List CodexSession
  pub conversations : List Conversation
  pub turns : List Turn
  pub drafts : List Draft
  pub events : List Event
  pub audits : List Audit

instance abbrev pub task_keyed : Keyed Task
task_keyed = record { key = λ r. r.id }

instance abbrev pub execution_keyed : Keyed Execution
execution_keyed = record { key = λ r. r.id }

instance abbrev pub session_keyed : Keyed RuntimeSession
session_keyed = record { key = λ r. r.id }

instance abbrev pub approval_keyed : Keyed Approval
approval_keyed = record { key = λ r. r.id }

instance abbrev pub lease_keyed : Keyed WriterLease
lease_keyed = record { key = λ r. r.resource_key }

instance abbrev pub claim_keyed : Keyed Claim
claim_keyed = record { key = λ r. r.task }

instance abbrev pub result_keyed : Keyed TaskResult
result_keyed = record { key = λ r. r.execution }

instance abbrev pub operation_keyed : Keyed Operation
operation_keyed = record { key = λ r. r.task }

instance abbrev pub worker_keyed : Keyed Worker
worker_keyed = record { key = λ r. r.id }

instance abbrev pub plan_keyed : Keyed ChangePlan
plan_keyed = record { key = λ r. r.id }

instance abbrev pub codex_session_keyed : Keyed CodexSession
codex_session_keyed = record { key = λ r. r.id }

instance abbrev pub conversation_keyed : Keyed Conversation
conversation_keyed = record { key = λ r. r.id }

instance abbrev pub turn_keyed : Keyed Turn
turn_keyed = record { key = λ r. r.task }

instance abbrev pub draft_keyed : Keyed Draft
draft_keyed = record { key = λ r. r.id }
