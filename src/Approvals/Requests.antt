-- ===== src/Approvals/Requests.antt =====
-- About `request_approval` of src/nyanya_agent/execution_store.py and finished tasks.
use nyanya_agent.Prelude.{ℕ, ◌≡◌, refl, some, arith, ok, find, find-update}
use nyanya_agent.Ledger.{
  Ledger, Task, TaskStatus, Execution, ExecutionStatus, task_keyed, execution_keyed, whole_second,
}
use nyanya_agent.Approvals.{
  NewApproval, request_approval, mark_task, mark_tasks, await_execution, await_executions,
}

-- A successful request moves its task and its execution to awaiting_approval from whatever status
-- they had, terminal ones included, and leaves the task's completion time and the execution's end
-- time as they were.
pub request_approval_reopens :
    (n : NewApproval) (clock task execution : ℕ) (l : Ledger) (t : Task) (e : Execution)
    {l' : Ledger}
    → n.task ≡ some task
    → n.execution ≡ some execution
    → find task l.tasks ≡ some t
    → find execution l.executions ≡ some e
    → request_approval n clock l ≡ ok l'
    → (find task l'.tasks
        ≡ some
            (record t { status = TaskStatus.awaiting_approval; updated_at = whole_second clock }))
      × (find execution l'.executions
          ≡ some (record e {
            status = ExecutionStatus.awaiting_approval;
            updated_at = whole_second clock;
          }))
unfolding request_approval mark_tasks mark_task await_executions await_execution
request_approval_reopens n clock task execution l t e nt ne ht he done = (
  ground (
    arith,
    find-update task task (mark_task TaskStatus.awaiting_approval (whole_second clock)) l.tasks
        (λ r. refl),
  ),
  ground (
    arith,
    find-update execution execution (await_execution (whole_second clock)) l.executions (λ r. refl),
  ),
)
