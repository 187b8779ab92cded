-- ===== src/Examples/Approvals.antt =====
-- Runs of the approvals.
use nyanya_agent.Prelude.{
  ℕ, true, Option, none, some, List, [], ◌∷◌, ◌≡◌, refl, find, update, insert, ok, err,
  permission_error,
}
use nyanya_agent.Ledger.{
  Ledger, Task, TaskStatus, Execution, ExecutionStatus, Approval, ApprovalStatus, Action,
  task_keyed, execution_keyed, approval_keyed, approval_status_coded, approval_status_code,
  whole_second, ◌among◌,
}
use nyanya_agent.Approvals.{
  NewApproval, check_approval, decide_approval, request_approval, usable, check_decision,
  decide_pending, is_workspace_write, expired_at, decided_as_authorized, execution_exists,
  task_exists, is_upload, wrong_actor, set_decision,
}
use nyanya_agent.Approvals.Trail.{ApprovalOp, decide, step, run, committed}
use nyanya_agent.Approvals.SingleUse.{
  approval_single_use, use_needs_approval, final-IsFinal, approved_within,
}
use nyanya_agent.Approvals.Requests.{request_approval_reopens}
use nyanya_agent.Examples.{empty, busy, a_task, an_execution}

abbrev an_approval : ApprovalStatus → Option ℕ → Approval
an_approval status decided_by = record {
  id = 21;
  task = some 1;
  execution = none;
  action = Action.workspace_write;
  status = status;
  requested_by = 5;
  decided_by = decided_by;
  authorized_actor = some 5;
  scope_hash = some 77;
  upload = none;
  requested_at = 0;
  expires_at = some 60000000;
  decided_at = none;
}

abbrev pub asked : ApprovalStatus → Option ℕ → Ledger
asked status decided_by = record (busy ExecutionStatus.running) {
  approvals = an_approval status decided_by ∷ [];
}

abbrev used : Ledger
used =
    committed (asked ApprovalStatus.approved (some 5))
      (check_approval 21 1 77 (some 11) 10 (asked ApprovalStatus.approved (some 5)))

first_use : check_approval 21 1 77 (some 11) 10 (asked ApprovalStatus.approved (some 5)) ≡ ok used
unfolding check_approval find usable approval_status_code is_workspace_write expired_at
    decided_as_authorized execution_exists
first_use = refl

approval_single_use_example :
    check_approval 21 1 77 (some 12) 20 (run (decide 21 ApprovalStatus.approved 5 15 ∷ []) used)
    ≡ err permission_error
approval_single_use_example =
    approval_single_use 21 1 77 11 10 (asked ApprovalStatus.approved (some 5))
      (decide 21 ApprovalStatus.approved 5 15 ∷ []) 1 77 20 (some 12) first_use

abbrev yes_by_owner : List ApprovalOp
yes_by_owner = decide 21 ApprovalStatus.approved 5 10 ∷ []

abbrev usable_after : Ledger
usable_after =
    committed empty
      (check_approval 21 1 77 none 10 (run yes_by_owner (asked ApprovalStatus.pending none)))

passes :
    check_approval 21 1 77 none 10 (run yes_by_owner (asked ApprovalStatus.pending none))
    ≡ ok usable_after
unfolding check_approval find update usable approval_status_code is_workspace_write expired_at
    decided_as_authorized run step decide_approval check_decision is_upload wrong_actor
    decide_pending set_decision ◌among◌
passes = refl

use_needs_approval_example : approved_within 21 5 yes_by_owner ≡ true
use_needs_approval_example =
    use_needs_approval yes_by_owner 21 5 1 77 10 none (asked ApprovalStatus.pending none)
      (an_approval ApprovalStatus.pending none) (unfold find in refl) refl refl passes

final-IsFinal_example :
    find 21 (run yes_by_owner (asked ApprovalStatus.rejected (some 5))).approvals
    ≡ some (an_approval ApprovalStatus.rejected (some 5))
final-IsFinal_example =
    final-IsFinal yes_by_owner 21 (asked ApprovalStatus.rejected (some 5))
      {a = an_approval ApprovalStatus.rejected (some 5)} ((λ p. cc), (λ p. cc))
      (unfold find in refl)

abbrev a_request : NewApproval
a_request = record {
  id = 22;
  action = Action.workspace_write;
  requested_by = 5;
  task = some 1;
  execution = some 11;
  ttl_seconds = 600;
  authorized_actor = none;
  scope_hash = none;
}

-- A finished task with a finished attempt.
abbrev finished : Ledger
finished = record empty {
  tasks = record (a_task TaskStatus.completed (some 11)) { completed_at = some 30 } ∷ [];
  executions = record (an_execution ExecutionStatus.succeeded) { ended_at = some 30 } ∷ [];
}

abbrev reopened : Ledger
reopened = committed finished (request_approval a_request 40 finished)

request_accepted : request_approval a_request 40 finished ≡ ok reopened
unfolding request_approval find execution_exists task_exists insert
request_accepted = refl

abbrev finished_task : Task
finished_task = record (a_task TaskStatus.completed (some 11)) { completed_at = some 30 }

abbrev finished_execution : Execution
finished_execution = record (an_execution ExecutionStatus.succeeded) { ended_at = some 30 }

request_approval_reopens_example :
    (find 1 reopened.tasks
      ≡ some (record finished_task {
        status = TaskStatus.awaiting_approval;
        updated_at = whole_second 40;
      }))
    × (find 11 reopened.executions
        ≡ some (record finished_execution {
          status = ExecutionStatus.awaiting_approval;
          updated_at = whole_second 40;
        }))
request_approval_reopens_example =
    request_approval_reopens a_request 40 1 11 finished finished_task finished_execution refl refl
      (unfold find in refl) (unfold find in refl) request_accepted
