-- ===== src/Examples/Queue.antt =====
-- Runs of the work queue.
use nyanya_agent.Prelude.{
  true, false, none, some, [], ◌∷◌, ◌≡◌, refl, find, update, any_row, insert, select, ok, err,
  value_error,
}
use nyanya_agent.Ledger.{
  Ledger, TaskStatus, ExecutionStatus, Outcome, TaskResult, task_keyed, execution_keyed,
  claim_keyed, result_keyed, operation_keyed, task_status_code, execution_status_code,
  delivery_status_code, outcome_code, execution_terminal, ◌among◌, DeliveryStatus,
}
use nyanya_agent.Effects.{
  is_apply, unresolved_effects, resolution_owner, effect_tasks, task_in_doubt, unresolved_attempt,
  uncertain_statuses,
}
use nyanya_agent.Conversations.{complete_conn, live_turn}
use nyanya_agent.WorkQueue.{
  claim, claimable, queued_for, owner_of, start_claim, claimed, check_live_claim, reviewed,
  confirmed, acknowledged, effect_task, set_stopped,
}
use nyanya_agent.WorkQueue.Finish.{
  finish, commit, committed_outcome, write_result, result_row, complete_apply, open_review,
  claim_delivery, current_for, undelivered,
}
use nyanya_agent.WorkQueue.Trace.{claim_op, finish_op, record_delivery_op, run, committed, after}
use nyanya_agent.WorkQueue.Once.{finish_once, claim_once}
use nyanya_agent.WorkQueue.Delivery.{deliver_once}
use nyanya_agent.WorkQueue.Outcomes.{unconfirmed_cancel_is_blocked, cancelled_is_quiet}
use nyanya_agent.Effects.Certain.{IsCertain}
use nyanya_agent.Examples.{empty, busy, held_record, a_task}

abbrev running : Ledger
running = busy ExecutionStatus.running

abbrev stopping : Ledger
stopping = busy ExecutionStatus.cancelling

abbrev finished : Ledger
finished = committed running (finish 31 held_record Outcome.succeeded 100 running)

finishes : finish 31 held_record Outcome.succeeded 100 running ≡ ok finished
unfolding finish check_live_claim find execution_terminal execution_status_code ◌among◌
    committed_outcome reviewed confirmed acknowledged commit write_result insert result_row
    complete_apply open_review outcome_code is_apply
finishes = refl

finish_once_example :
    finish 32 held_record Outcome.failed 120 (run (claim_op 12 2 1 7 5 30 110 ∷ []) finished)
    ≡ err value_error
finish_once_example =
    finish_once 31 held_record Outcome.succeeded 100 running (claim_op 12 2 1 7 5 30 110 ∷ []) 32
      held_record Outcome.failed 120 finishes refl

abbrev queue : Ledger
queue = record empty { tasks = a_task TaskStatus.queued none ∷ [] }

abbrev taken : Ledger
taken = after queue (claim 12 2 1 7 5 30 100 queue)

claims : claim 12 2 1 7 5 30 100 queue ≡ ok (some (claimed 1 7 12), taken)
unfolding claim claimable find queued_for task_status_code owner_of any_row start_claim insert
claims = refl

claim_once_example :
    claim 13 2 1 8 5 30 90000000 (run (finish_op 31 (claimed 1 7 12) Outcome.failed 200 ∷ []) taken)
    ≡ ok (none, run (finish_op 31 (claimed 1 7 12) Outcome.failed 200 ∷ []) taken)
claim_once_example =
    claim_once 12 2 1 7 5 30 100 queue (finish_op 31 (claimed 1 7 12) Outcome.failed 200 ∷ []) 13 2
      8 5 30 90000000 claims

abbrev a_result : TaskResult
a_result = record {
  execution = 11;
  task = 1;
  outcome = Outcome.succeeded;
  delivery = DeliveryStatus.pending;
  created_at = 100;
  updated_at = 100;
}

abbrev ready : Ledger
ready = record empty { tasks = a_task TaskStatus.completed (some 11) ∷ []; results = a_result ∷ [] }

sent : (claim_delivery 1 5 11 200 ready).0 ≡ true
unfolding claim_delivery find current_for undelivered owner_of delivery_status_code
sent = refl

abbrev sent_ledger : Ledger
sent_ledger = run (record_delivery_op 11 false 210 ∷ []) (claim_delivery 1 5 11 200 ready).1

deliver_once_example : claim_delivery 1 5 11 220 sent_ledger ≡ (false, sent_ledger)
deliver_once_example =
    deliver_once 1 5 11 200 ready (record_delivery_op 11 false 210 ∷ []) 1 5 220 sent

abbrev stopped : Ledger
stopped = committed stopping (finish 31 held_record Outcome.succeeded 100 stopping)

stopping_live : check_live_claim held_record 100 stopping ≡ ok ExecutionStatus.cancelling
unfolding check_live_claim find execution_terminal execution_status_code ◌among◌
stopping_live = refl

stopping_finishes : finish 31 held_record Outcome.succeeded 100 stopping ≡ ok stopped
unfolding finish check_live_claim find execution_terminal execution_status_code ◌among◌
    committed_outcome reviewed confirmed acknowledged commit write_result insert result_row
    complete_apply open_review outcome_code is_apply
stopping_finishes = refl

unconfirmed_cancel_is_blocked_example :
    find 11 stopped.results ≡ some (result_row held_record Outcome.blocked 100)
unconfirmed_cancel_is_blocked_example =
    unconfirmed_cancel_is_blocked 31 held_record Outcome.succeeded 100 stopping stopping_live
      (λ p. cc) (λ p. cc) stopping_finishes

abbrev cancelled : Ledger
cancelled = committed stopping (finish 31 held_record Outcome.cancelled 100 stopping)

cancel_finishes : finish 31 held_record Outcome.cancelled 100 stopping ≡ ok cancelled
unfolding finish check_live_claim find execution_terminal execution_status_code ◌among◌
    committed_outcome reviewed confirmed acknowledged commit write_result insert result_row
    complete_apply open_review outcome_code is_apply unresolved_effects any_row effect_tasks
    task_in_doubt update unresolved_attempt set_stopped effect_task uncertain_statuses
    resolution_owner select
cancel_finishes = refl

cancelled_row : find 11 cancelled.results ≡ some (result_row held_record Outcome.cancelled 100)
unfolding finish check_live_claim find update any_row execution_terminal execution_status_code
    ◌among◌ committed_outcome reviewed confirmed acknowledged commit write_result insert result_row
    complete_apply open_review outcome_code is_apply complete_conn live_turn unresolved_effects
    effect_task resolution_owner effect_tasks task_in_doubt unresolved_attempt uncertain_statuses
    set_stopped select
cancelled_row = refl

cancelled_is_quiet_example : IsCertain (some 11) (effect_task held_record stopping) stopping
cancelled_is_quiet_example =
    cancelled_is_quiet 31 held_record Outcome.cancelled 100 stopping stopping_live cancel_finishes
      cancelled_row (unfold result_row in refl)
