-- ===== src/Operations/Dispatch.antt =====
-- `recover`, `claim`, `has_queued` and `watch_attempt` of src/nyanya_agent/operation_store.py.
use nyanya_agent.Prelude.{
  ℕ, ◌+◌, Bool, false, not, ◌&&◌, ◌||◌, Option, none, some, List, [], ◌∷◌, if◌then◌else◌, ◌==◌, ltb,
  leb, is_some, Result, ok, ◌>>=◌, ◌>>◌, raise_if, require, permission_error, find, update, insert,
  any_row, count, first, select, order_by, delete_where,
}
use nyanya_agent.Ledger.{
  Ledger, Task, TaskStatus, Execution, ExecutionStatus, Claim, Operation, HoldReason, Worker,
  task_keyed, execution_keyed, claim_keyed, operation_keyed, worker_keyed, task_status_coded, ◌is◌,
  ◌among◌, execution_terminal, seconds, append_event, event, operation_claimed,
  operation_interrupted,
}
use nyanya_agent.Effects.{is_apply}
use nyanya_agent.Conversations.{has_earlier_work_conn}
use nyanya_agent.WorkQueue.{ClaimRecord, running_row, claim_row, start_task, sort_key}
use nyanya_agent.WorkQueue.Finish.{release}
use nyanya_agent.Operations.{cutoff}

unfoldable pub claim_lapsed : ℕ → Option Claim → Bool
claim_lapsed now none = false
claim_lapsed now (some c) = not c.released && leb c.expires_at now

unfoldable pub worker_lost : ℕ → Worker → Bool
unfolding cutoff
worker_lost now w = w.closed || ltb w.heartbeat_at (cutoff now)

unfoldable pub recoverable_statuses : List TaskStatus
recoverable_statuses = TaskStatus.queued ∷ TaskStatus.running ∷ TaskStatus.cancelling ∷ []

unfoldable pub interrupted_by : ℕ → Ledger → Operation → Worker → Task → Bool
interrupted_by now l o w t =
    o.eligible
    && (worker_lost now w || claim_lapsed now (find o.task l.claims))
    && t.status among recoverable_statuses

-- The rows that `recover` selects.
unfoldable pub interrupted : ℕ → Ledger → Operation → Bool
interrupted now l o = elim (find o.generation l.workers) [
  | none ↦ false
  | some w ↦ elim (find o.task l.tasks) [ none ↦ false | some t ↦ interrupted_by now l o w t ]
]

unfoldable pub hold_operation : HoldReason → Operation → Operation
hold_operation hold o = record o { eligible = false; hold = hold }

unfoldable pub block_task : ℕ → Task → Task
block_task now t = record t { status = TaskStatus.blocked; updated_at = now }

-- UPDATE executions … WHERE id=? AND status NOT IN (terminal)
unfoldable pub lose_execution : ℕ → Execution → Execution
lose_execution now e =
    if execution_terminal e.status
    then e
    else record e { status = ExecutionStatus.lost; ended_at = some now; updated_at = now }

unfoldable pub lose_attempt : Option ℕ → ℕ → ℕ → Ledger → Ledger
lose_attempt none task now l = l
lose_attempt (some execution) task now l = record l {
  executions = update execution (lose_execution now) l.executions;
  claims = update task release l.claims;
}

unfoldable pub current_execution_of : ℕ → Ledger → Option ℕ
current_execution_of task l = elim (find task l.tasks) [
  | none ↦ none
  | some t ↦ t.current_execution
]

-- The body of `recover`'s loop.
unfoldable pub interrupt : ℕ → Operation → Ledger → Result Ledger
interrupt now o l =
    let execution = current_execution_of o.task l in
    append_event (event operation_interrupted (some o.task) execution) (
      lose_attempt execution o.task now (record l {
        operations = update o.task (hold_operation HoldReason.worker_interrupted) l.operations;
        tasks = update o.task (block_task now) l.tasks;
      }))

unfoldable pub interrupt_all : ℕ → List Operation → Ledger → Result Ledger
interrupt_all now [] l = ok l
interrupt_all now (o ∷ rows) l = do held ← interrupt now o l; interrupt_all now rows held

unfoldable pub recover : ℕ → Ledger → Result Ledger
recover now l = interrupt_all now (select (interrupted now l) l.operations) l

-- A claim that holds a slot: unreleased, and of an operation.
unfoldable pub holds_slot : Ledger → Claim → Bool
holds_slot l c = not c.released && is_some (find c.task l.operations)

unfoldable pub eligible_for : ℕ → Task → Operation → Bool
eligible_for generation t o =
    t.status is TaskStatus.queued
    && o.eligible
    && o.generation == generation
    && ltb o.attempts o.max_attempts

unfoldable pub queued_operation : ℕ → Ledger → Task → Bool
queued_operation generation l t = elim (find t.id l.operations) [
  | none ↦ false
  | some o ↦ eligible_for generation t o
]

unfoldable pub conflicts : Operation → Operation → Bool
unfolding is_apply
conflicts o other =
    other.spec.workspace == o.spec.workspace && (is_apply o.spec.kind || is_apply other.spec.kind)

unfoldable pub held_conflict : Operation → Ledger → Claim → Bool
held_conflict o l c =
    not c.released
    && elim (find c.task l.operations) [ none ↦ false | some other ↦ conflicts o other ]

-- Whether the loop of `claim` passes no `continue` on this row.
unfoldable pub startable : Ledger → Task → Bool
startable l t = not (has_earlier_work_conn t.id l) && elim (find t.id l.operations) [
  | none ↦ false
  | some o ↦ not (any_row (held_conflict o l) l.claims)
]

-- The task that `claim` starts: the first startable one in the order of priority and age.
unfoldable pub next_task : ℕ → Ledger → Option Task
next_task generation l =
    first (startable l) (order_by sort_key (select (queued_operation generation l) l.tasks))

unfoldable pub released_of : ℕ → Claim → Bool
released_of task c = c.task == task && c.released

unfoldable pub count_attempt : Operation → Operation
count_attempt o = record o { attempts = o.attempts + 1 }

-- The writes of `claim`; `adapter` is the text "operation".
unfoldable pub start_operation : ℕ → ℕ → ℕ → ℕ → Task → Ledger → Result Ledger
start_operation execution adapter generation now t l = do
  executions ← insert (running_row execution t.id adapter generation now) l.executions
  claims ←
      (insert (claim_row t.id generation t.requested_by execution (now + seconds 30))
        (delete_where (released_of t.id) l.claims))
  append_event (event operation_claimed (some t.id) (some execution)) (record l {
    executions = executions;
    claims = claims;
    tasks = update t.id (start_task execution now) l.tasks;
    operations = update t.id count_attempt l.operations;
  })

unfoldable pub claimed_operation : ℕ → ℕ → Task → Ledger → ClaimRecord
claimed_operation execution generation t l = record {
  task = t.id;
  worker = generation;
  execution = execution;
  spec = elim (find t.id l.operations) [ none ↦ none | some o ↦ some o.spec ];
  question = false;
}

unfoldable pub claim : ℕ → ℕ → ℕ → ℕ → ℕ → Ledger → Result (Option ClaimRecord × Ledger)
claim execution adapter generation slots now l =
    if leb slots (count (holds_slot l) l.claims)
    then ok (none, l)
    else elim (next_task generation l) [
      | none ↦ ok (none, l)
      | some t ↦ (do
        started ← start_operation execution adapter generation now t l
        ok (some (claimed_operation execution generation t l), started))
    ]

unfoldable pub has_queued : ℕ → Ledger → Bool
has_queued generation l = any_row (queued_operation generation l) l.tasks

unfoldable pub watch_attempt : ℕ → ℕ → Ledger → Result ℕ
watch_attempt task owner l = do
  t ← require (find task l.tasks) permission_error
  o ← require (find task l.operations) permission_error
  raise_if (not (t.requested_by == owner)) permission_error
  ok (o.attempts + (if t.status is TaskStatus.queued then 1 else 0))
