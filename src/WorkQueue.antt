-- ===== src/WorkQueue.antt =====
-- Claims, results and deliveries of tasks: src/nyanya_agent/work_queue.py. The owner of a task is
-- `metadata["owner_key"] or requested_by`, never the empty text here. `work_memory.complete_conn`,
-- which writes only tables of its own, is left out.
pub mod Finish
pub mod Trace
pub mod Once
pub mod Delivery
pub mod Outcomes
use nyanya_agent.Prelude.{
  ℕ, ◌+◌, Bool, true, false, not, ◌&&◌, ◌||◌, Option, none, some, List, [], ◌∷◌, if◌then◌else◌,
  ◌==◌, ltb, leb, is_id, is_some, get_or, Result, ok, err, ◌>>=◌, ◌>>◌, raise_if, require,
  value_error, find, update, update_if, touches, insert, any_row, first, latest, select, order_by,
}
use nyanya_agent.Ledger.{
  Ledger, Task, TaskStatus, Execution, ExecutionStatus, ExecutionMetadata, Approval, ApprovalStatus,
  Action, Claim, TaskResult, DeliveryStatus, Outcome, HoldReason, Operation, OperationSpec,
  ChangePlan, PlanStatus, Draft, DraftStatus, task_keyed, execution_keyed, approval_keyed,
  claim_keyed, result_keyed, operation_keyed, plan_keyed, task_status_coded, execution_status_coded,
  delivery_status_coded, plan_status_coded, outcome_coded, ◌is◌, ◌among◌, task_terminal,
  execution_terminal, seconds, append_event, event, task_claimed, task_result, task_plan_completed,
}
use nyanya_agent.Tasks.{set_task_status}
use nyanya_agent.Effects.{is_apply, unresolved_effects}
use nyanya_agent.Conversations.{complete_conn}

-- The dictionary that a claim returns and that its worker hands back; `question` is
-- reply_kind = "question".
pub record ClaimRecord : Type 0 where
  pub task : ℕ
  pub worker : ℕ
  pub execution : ℕ
  pub spec : Option OperationSpec
  pub question : Bool

unfoldable pub owner_of : Task → ℕ
owner_of t = get_or t.metadata.owner_key t.requested_by

unfoldable pub sort_key : Task → Task → Bool
sort_key a b =
    ltb a.priority b.priority || (a.priority == b.priority && ltb a.created_at b.created_at)

unfoldable pub owned_by : Option ℕ → Task → Bool
owned_by none t = true
owned_by (some owner) t = owner_of t == owner

unfoldable pub pending_tasks : Option ℕ → Ledger → List Task
pending_tasks owner l =
    order_by sort_key (select (λ t. not (task_terminal t.status) && owned_by owner t) l.tasks)

unfoldable pub running_row : ℕ → ℕ → ℕ → ℕ → ℕ → Execution
running_row execution task adapter worker now = record {
  id = execution;
  task = task;
  adapter = adapter;
  status = ExecutionStatus.running;
  metadata = record {
    worker_id = some worker;
    writer_lease = none;
    timeout_seconds = none;
    runtime_session = none;
    approval_id = none;
    legacy = none;
  };
  created_at = now;
  started_at = some now;
  ended_at = none;
  last_heartbeat_at = some now;
  updated_at = now;
}

unfoldable pub claim_row : ℕ → ℕ → ℕ → ℕ → ℕ → Claim
claim_row task worker owner execution expires_at = record {
  task = task;
  worker = worker;
  owner = owner;
  execution = execution;
  expires_at = expires_at;
  released = false;
}

unfoldable pub start_task : ℕ → ℕ → Task → Task
start_task execution now t = record t {
  status = TaskStatus.running;
  current_execution = some execution;
  updated_at = now;
}

unfoldable pub queued_for : ℕ → Task → Bool
queued_for owner t = t.status is TaskStatus.queued && owner_of t == owner

unfoldable pub is_live_of : ℕ → Claim → Bool
is_live_of owner c = c.owner == owner && not c.released

-- Whether the guards of `claim` let this owner have the task.
unfoldable pub claimable : ℕ → ℕ → Ledger → Bool
claimable task owner l =
    touches task (queued_for owner) l.tasks
    && not (is_some (find task l.claims))
    && not (any_row (is_live_of owner) l.claims)

-- The writes of `claim`; `execution` is the new attempt's identifier and `adapter` the task's
-- metadata["execution_adapter"].
unfoldable pub start_claim : ℕ → ℕ → ℕ → ℕ → ℕ → ℕ → ℕ → Ledger → Result Ledger
start_claim execution adapter task worker owner ttl now l = do
  executions ← insert (running_row execution task adapter worker now) l.executions
  claims ← insert (claim_row task worker owner execution (now + seconds ttl)) l.claims
  append_event (event task_claimed (some task) (some execution)) (record l {
    executions = executions;
    claims = claims;
    tasks = update task (start_task execution now) l.tasks;
  })

unfoldable pub claimed : ℕ → ℕ → ℕ → ClaimRecord
claimed task worker execution = record {
  task = task;
  worker = worker;
  execution = execution;
  spec = none;
  question = false;
}

unfoldable pub claim : ℕ → ℕ → ℕ → ℕ → ℕ → ℕ → ℕ → Ledger → Result (Option ClaimRecord × Ledger)
claim execution adapter task worker owner ttl now l =
    if not (claimable task owner l) then ok (none, l) else (do
      started ← start_claim execution adapter task worker owner ttl now l
      ok (some (claimed task worker execution), started))

unfoldable pub renewable : ClaimRecord → ℕ → Claim → Bool
renewable r now c =
    c.worker == r.worker && c.execution == r.execution && not c.released && ltb now c.expires_at

unfoldable pub extend : ℕ → Claim → Claim
extend expires_at c = record c { expires_at = expires_at }

unfoldable pub touch_execution : ℕ → Execution → Execution
touch_execution now e = record e { last_heartbeat_at = some now }

unfoldable pub renew : ClaimRecord → ℕ → ℕ → Ledger → Bool × Ledger
renew r ttl now l =
    if touches r.task (renewable r now) l.claims
    then (
      true,
      record l {
        claims = update_if r.task (renewable r now) (extend (now + seconds ttl)) l.claims;
        executions = update r.execution (touch_execution now) l.executions;
      },
    )
    else (false, l)

-- The claim fence of `finish`; what it keeps of the row is the attempt's status.
unfoldable pub check_live_claim : ClaimRecord → ℕ → Ledger → Result ExecutionStatus
check_live_claim r now l = do
  c ← require (find r.task l.claims) value_error
  t ← require (find c.task l.tasks) value_error
  e ← require (find c.execution l.executions) value_error
  raise_if
      (not (c.worker == r.worker)
        || not (c.execution == r.execution)
        || not (is_id t.current_execution r.execution)
        || c.released
        || leb c.expires_at now
        || execution_terminal e.status)
      value_error
  ok e.status

-- The plan or draft that an attempt's pause waits for.
pub record Review : Type 0 where
  pub approved : Bool
  pub decided_by : Option ℕ
  pub read_scope : Bool

unfoldable pub plan_open : ℕ → ℕ → ChangePlan → Bool
plan_open task now p =
    p.task == task
    && p.status among (PlanStatus.pending ∷ PlanStatus.approved ∷ [])
    && ltb now p.expires_at

unfoldable pub is_pending_draft : DraftStatus → Bool
is_pending_draft DraftStatus.pending = true
is_pending_draft s = false

unfoldable pub draft_open : ℕ → ℕ → Draft → Bool
draft_open task now d = d.source_task == task && is_pending_draft d.status && ltb now d.expires_at

unfoldable pub live_review : ℕ → ℕ → Ledger → Option Review
live_review task now l = elim (latest (λ p. p.created_at) (plan_open task now) l.plans) [
  | some p ↦ some (record {
    approved = p.status is PlanStatus.approved;
    decided_by = p.decided_by;
    read_scope = false;
  })
  | none ↦
      if any_row (draft_open task now) l.drafts
      then some (record { approved = false; decided_by = none; read_scope = true })
      else none
]

-- A pause that nothing is left to approve ends as a cancellation.
unfoldable pub reviewed : ClaimRecord → Outcome → ℕ → Ledger → Outcome × Option Review
reviewed r outcome now l =
    if outcome is Outcome.awaiting_approval && is_some r.spec
    then elim (live_review r.task now l) [
      | none ↦ (Outcome.cancelled, none)
      | some v ↦ (outcome, some v)
    ]
    else (outcome, none)

unfoldable pub effect_task : ClaimRecord → Ledger → ℕ
effect_task r l = elim r.spec [
  | none ↦ r.task
  | some spec ↦
      if is_apply spec.kind
      then elim (find spec.plan_id l.plans) [ none ↦ r.task | some p ↦ p.task ]
      else r.task
]

unfoldable pub set_stopped : Execution → Execution
set_stopped e = record e { status = ExecutionStatus.cancelled }

-- A cancellation with effects in doubt is held for reconciliation.
unfoldable pub confirmed : ClaimRecord → Outcome → Ledger → Outcome × Ledger
confirmed r outcome l =
    let stopped = record l { executions = update r.execution set_stopped l.executions } in
    if outcome is Outcome.cancelled
    then (
      if unresolved_effects (effect_task r stopped) true stopped then Outcome.blocked else outcome,
      stopped,
    )
    else (outcome, l)

-- A cancellation that was asked for but not acknowledged is not one.
unfoldable pub acknowledged : ExecutionStatus → Outcome → Outcome
acknowledged status outcome =
    if status is ExecutionStatus.cancelling && not (outcome is Outcome.cancelled)
    then Outcome.blocked
    else outcome

unfoldable pub task_status_of : Outcome → TaskStatus
task_status_of Outcome.succeeded = TaskStatus.completed
task_status_of Outcome.timed_out = TaskStatus.failed
task_status_of Outcome.failed = TaskStatus.failed
task_status_of Outcome.cancelled = TaskStatus.cancelled
task_status_of Outcome.awaiting_approval = TaskStatus.awaiting_approval
task_status_of Outcome.blocked = TaskStatus.blocked

unfoldable pub execution_status_of : Outcome → ExecutionStatus
execution_status_of Outcome.succeeded = ExecutionStatus.succeeded
execution_status_of Outcome.timed_out = ExecutionStatus.timed_out
execution_status_of Outcome.failed = ExecutionStatus.failed
execution_status_of Outcome.cancelled = ExecutionStatus.cancelled
execution_status_of Outcome.awaiting_approval = ExecutionStatus.awaiting_approval
execution_status_of Outcome.blocked = ExecutionStatus.lost
