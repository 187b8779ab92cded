-- ===== src/Examples/Submit.antt =====
-- Runs of the approval with its intake and of the hold before an upgrade.
use nyanya_agent.Prelude.{
  ℕ, Bool, err, select, ◌≡◌, refl, true, false, none, some, [], ◌∷◌, Result, ok, find, any_row,
  first, update, update_where, select, insert, latest,
}
use nyanya_agent.Ledger.{
  Ledger, TaskStatus, event, operation_legacy_upgrade_held, execution_status_code, plan_status_code,
  task_status_code, ◌among◌, task_terminal, approval_status_code,
}
use nyanya_agent.Operations.{
  check_workspace, assigned_root, cutoff, existing_apply, apply_tasks, is_apply_of, apply_admitted,
  check_existing, worker_ready,
}
use nyanya_agent.Examples.{waiting, a_task}
use nyanya_agent.Plans.Submit.{approve_and_submit_apply, apply_intake, apply_spec}
use nyanya_agent.Operations.Upgrade.{
  hold_legacy_for_quiesced_upgrade, hold_legacy_tasks, held_task, hold_legacy_task, lose_attempts,
  hold_task,
}
use nyanya_agent.Plans.{
  require_plan_conn, latest_plan, plan_draft, draft_of, is_ready, plan_event, approve_plan,
  check_approve, decidable_row, decidable_plan, approve_row, decide_plan, is_feedback, open_parent,
}
use nyanya_agent.Effects.{is_apply}
use nyanya_agent.Tasks.{listed, project_exists}
use nyanya_agent.Conversations.{
  append_turn, bind_conn, check_intake, clear_pending, in_generation, in_scope, is_request,
  new_turn, same_scope, sequence_taken, session_conn,
}
use nyanya_agent.Operations.Cancel.{pending_of}
use nyanya_agent.Operations.Intake.{
  admit, admit_kind, adopt, adopt_row, apply_parent, bind_intake, cancel_legacy, drop_legacy,
  intake_metadata, intake_row, is_legacy, operation_row, prior_task, replay, submit_conn,
  write_task,
}
use nyanya_agent.Examples.Apply.{everywhere, a_world}

-- The approval of the plan with the intake of its apply, and its repetition.
abbrev ledger_of : Result ((ℕ × Bool) × Ledger) → Ledger
ledger_of (ok (answer, l)) = l
ledger_of (err e) = waiting

abbrev submission : Ledger → Result ((ℕ × Bool) × Ledger)
submission l = approve_and_submit_apply everywhere 2 60 41 5 99 7 20 l

abbrev submitted : Ledger
submitted = ledger_of (submission a_world.ledger)

submission_is_new : submission a_world.ledger ≡ ok ((2, true), submitted)
unfolding approve_and_submit_apply find check_workspace existing_apply apply_tasks select any_row
    is_apply_of approve_plan check_approve require_plan_conn latest_plan plan_draft first
    decidable_row decidable_plan ◌among◌ append_turn bind_conn check_intake clear_pending
    in_generation in_scope is_request new_turn same_scope sequence_taken session_conn is_apply
    approval_status_code execution_status_code plan_status_code task_status_code pending_of admit
    admit_kind adopt adopt_row apply_parent bind_intake cancel_legacy drop_legacy intake_metadata
    intake_row is_legacy operation_row prior_task replay submit_conn write_task apply_admitted
    assigned_root check_existing cutoff worker_ready apply_intake apply_spec approve_row decide_plan
    draft_of is_feedback is_ready open_parent plan_event insert latest update update_where listed
    project_exists
submission_is_new = refl

submission_is_repeated : submission submitted ≡ ok ((2, false), submitted)
unfolding approve_and_submit_apply find check_workspace existing_apply apply_tasks select any_row
    is_apply_of approve_plan check_approve require_plan_conn latest_plan plan_draft first
    decidable_row decidable_plan ◌among◌ append_turn bind_conn check_intake clear_pending
    in_generation in_scope is_request new_turn same_scope sequence_taken session_conn is_apply
    approval_status_code execution_status_code plan_status_code task_status_code pending_of admit
    admit_kind adopt adopt_row apply_parent bind_intake cancel_legacy drop_legacy intake_metadata
    intake_row is_legacy operation_row prior_task replay submit_conn write_task apply_admitted
    assigned_root check_existing cutoff worker_ready apply_intake apply_spec approve_row decide_plan
    draft_of is_feedback is_ready open_parent plan_event insert latest update update_where listed
    project_exists
submission_is_repeated = refl

-- A task without an operation is held for the upgrade.
abbrev unheld : Ledger
unheld = record waiting { operations = [] }

abbrev held : Result Ledger
held = hold_legacy_for_quiesced_upgrade true true 30 unheld

hold_blocks :
    held
    ≡ ok (record unheld {
      tasks =
          record (a_task TaskStatus.queued none) { status = TaskStatus.blocked; updated_at = 30 }
          ∷ [];
      events = event operation_legacy_upgrade_held (some 1) none ∷ [];
    })
unfolding hold_legacy_for_quiesced_upgrade hold_legacy_tasks select held_task find task_terminal
    any_row hold_legacy_task lose_attempts update update_where hold_task
hold_blocks = refl
