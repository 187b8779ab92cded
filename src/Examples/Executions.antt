-- ===== src/Examples/Executions.antt =====
-- Runs of the execution ledger.
use nyanya_agent.Prelude.{ℕ, true, false, some, inr, List, [], ◌∷◌, ◌≡◌, refl, find, ok, arith}
use nyanya_agent.Ledger.{
  Ledger, ExecutionStatus, task_keyed, execution_keyed, execution_status_coded,
  execution_status_code, execution_terminal, execution_transitions, task_terminal, ◌among◌,
  whole_second,
}
use nyanya_agent.Executions.{transition_execution, check_transition}
use nyanya_agent.Executions.Lifecycle.{
  LedgerOp, transition_execution_op, run, committed, terminal_is_final, execution_status_of,
  IsChecked,
}
use nyanya_agent.Executions.Contract.{
  IsTransition, transition_execution-IsTransition, transition_execution_accepts,
}
use nyanya_agent.Executions.Settled.{IsSettled, run-IsSettled, TaskSettled, ExecutionSettled}
use nyanya_agent.Examples.{busy, no_metadata, an_execution}

abbrev forced : List LedgerOp
forced = transition_execution_op 11 ExecutionStatus.running no_metadata true 5 20 ∷ []

terminal_is_final_example :
    execution_status_of 11 (run forced (busy ExecutionStatus.succeeded))
    ≡ some ExecutionStatus.succeeded
terminal_is_final_example =
    terminal_is_final forced 11 (busy ExecutionStatus.succeeded) {s = ExecutionStatus.succeeded}
      (unfold execution_terminal ◌among◌ execution_status_code in refl) (unfold find in refl)

running_checked :
    check_transition 11 ExecutionStatus.succeeded false (busy ExecutionStatus.running)
    ≡ ok (an_execution ExecutionStatus.running)
unfolding check_transition find execution_terminal execution_transitions ◌among◌
    execution_status_code
running_checked = refl

abbrev done : Ledger
done = committed (busy ExecutionStatus.running) (
    transition_execution 11 ExecutionStatus.succeeded no_metadata false 5 20
      (busy ExecutionStatus.running))

succeeds :
    transition_execution 11 ExecutionStatus.succeeded no_metadata false 5 20
      (busy ExecutionStatus.running)
    ≡ ok done
unfolding transition_execution check_transition find execution_terminal execution_transitions
    ◌among◌ execution_status_code
succeeds = refl

transition_execution-IsTransition_example :
    IsTransition 11 ExecutionStatus.succeeded no_metadata false
      (whole_second 20)
      (busy ExecutionStatus.running)
      done
transition_execution-IsTransition_example =
    transition_execution-IsTransition 11 ExecutionStatus.succeeded no_metadata false 5 20
      (busy ExecutionStatus.running) succeeds

running-IsChecked :
    IsChecked 11 ExecutionStatus.succeeded false
      (busy ExecutionStatus.running)
      (an_execution ExecutionStatus.running)
unfolding find execution_terminal execution_transitions ◌among◌ execution_status_code
running-IsChecked = record {
  found = refl;
  owned = refl;
  final = λ over. cc;
  listed = λ free. inr refl;
}

transition_execution_accepts_example :
    (l' : Ledger) × (transition_execution 11 ExecutionStatus.succeeded no_metadata false 5 20
        (busy ExecutionStatus.running)
      ≡ ok l')
transition_execution_accepts_example =
    transition_execution_accepts 11 ExecutionStatus.succeeded no_metadata false 5 20
      (busy ExecutionStatus.running) (an_execution ExecutionStatus.running) running-IsChecked

busy-TaskSettled : (i : ℕ) → TaskSettled (find i (busy ExecutionStatus.running).tasks)
unfolding find task_terminal ◌among◌
busy-TaskSettled i = ground arith

busy-ExecutionSettled :
    (i : ℕ) → ExecutionSettled (find i (busy ExecutionStatus.running).executions)
unfolding find execution_terminal ◌among◌ execution_status_code
busy-ExecutionSettled i = ground arith

run-IsSettled_example : IsSettled (run forced (busy ExecutionStatus.running))
run-IsSettled_example =
    run-IsSettled forced (busy ExecutionStatus.running)
      (record { tasks = busy-TaskSettled; executions = busy-ExecutionSettled })
