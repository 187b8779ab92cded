-- ===== src/WorkQueue/Outcomes.antt =====
-- Which outcome `finish` of src/nyanya_agent/work_queue.py stores.
use nyanya_agent.Prelude.{
  ℕ, ◌≡◌, ◌≢◌, true, false, none, some, refl, inl, inr, arith, ◌==◌, ok, find, update, find-insert,
  find-update, Bool-cases,
}
use mathlib.Core.Path.{subst}
use nyanya_agent.Effects.Certain.{IsCertain, unresolved_effects-IsCertain}
use nyanya_agent.Ledger.{
  Ledger, TaskResult, Outcome, ExecutionStatus, result_keyed, execution_keyed, outcome_coded,
  execution_status_coded, outcome_code, outcome_code-injective,
}
use nyanya_agent.Effects.{unresolved_effects}
use nyanya_agent.WorkQueue.{
  ClaimRecord, check_live_claim, reviewed, confirmed, acknowledged, effect_task, set_stopped,
}
use nyanya_agent.WorkQueue.Finish.{finish, result_row, committed_outcome}
use nyanya_agent.WorkQueue.Trace.{finish-IsFinished}

stored :
    (approval : ℕ) (r : ClaimRecord) (outcome : Outcome) (now : ℕ) (l : Ledger)
    {s : ExecutionStatus} {l' : Ledger}
    → check_live_claim r now l ≡ ok s
    → finish approval r outcome now l ≡ ok l'
    → find r.execution l'.results ≡ some (result_row r (committed_outcome r outcome s now l).0 now)
unfolding result_row
stored approval r outcome now l {s} live done =
    let f = finish-IsFinished approval r outcome now l done in
    let same : f.status ≡ s = ground (arith, f.checked, live) in
    ground (
      arith,
      same,
      find-insert r.execution (result_row r (committed_outcome r outcome f.status now l).0 now)
          l.results f.results,
    )

unacknowledged :
    (r : ClaimRecord) (outcome : Outcome) (now : ℕ) (l : Ledger)
    → outcome ≢ Outcome.cancelled
    → outcome ≢ Outcome.awaiting_approval
    → (committed_outcome r outcome ExecutionStatus.cancelling now l).0 ≡ Outcome.blocked
unfolding committed_outcome reviewed confirmed acknowledged
unacknowledged r outcome now l c a = ground (
  arith,
  c,
  a,
  outcome_code-injective outcome Outcome.cancelled,
  outcome_code-injective outcome Outcome.awaiting_approval,
)

-- A worker whose attempt was being cancelled and which reports anything but a cancellation or a
-- pause (success, failure, timeout, block) has its result stored as blocked.
pub unconfirmed_cancel_is_blocked :
    (approval : ℕ) (r : ClaimRecord) (outcome : Outcome) (now : ℕ) (l : Ledger) {l' : Ledger}
    → check_live_claim r now l ≡ ok ExecutionStatus.cancelling
    → outcome ≢ Outcome.cancelled
    → outcome ≢ Outcome.awaiting_approval
    → finish approval r outcome now l ≡ ok l'
    → find r.execution l'.results ≡ some (result_row r Outcome.blocked now)
unconfirmed_cancel_is_blocked approval r outcome now l live c a done =
    rw (unacknowledged r outcome now l c a) at (stored approval r outcome now l live done)

certain :
    (r : ClaimRecord) (outcome : Outcome) (s : ExecutionStatus) (now : ℕ) (l : Ledger)
    → (committed_outcome r outcome s now l).0 ≡ Outcome.cancelled
    → let stopped = (committed_outcome r outcome s now l).2 in
      unresolved_effects (effect_task r stopped) true stopped ≡ false
unfolding committed_outcome reviewed confirmed acknowledged outcome_code
certain r outcome s now l h = ground arith

apart : (a i : ℕ) → some a ≢ some i → (a == i) ≡ false
apart a i other = elim (Bool-cases (a == i)) [
  | inr h ↦ h
  | inl h ↦ absurd (other (ground (arith, h)))
]

the_stopped :
    (r : ClaimRecord) (outcome : Outcome) (s : ExecutionStatus) (now : ℕ) (l : Ledger)
    → (committed_outcome r outcome s now l).0 ≡ Outcome.cancelled
    → (committed_outcome r outcome s now l).2
      ≡ record l { executions = update r.execution set_stopped l.executions }
unfolding committed_outcome reviewed confirmed acknowledged outcome_code
the_stopped r outcome s now l h = ground arith

stopped-IsCertain :
    (r : ClaimRecord) (l : Ledger)
    → let stopped = record l { executions = update r.execution set_stopped l.executions } in
      IsCertain none (effect_task r stopped) stopped
      → IsCertain (some r.execution) (effect_task r l) l
unfolding effect_task set_stopped
stopped-IsCertain r l h = record {
  attempts = λ i e other there same.
      h.attempts i e (λ p. cc p)
        (ground (
          arith,
          there,
          apart r.execution i other,
          find-update r.execution i set_stopped l.executions (λ x. refl),
        ))
        same;
  plans = h.plans;
  journal = h.journal;
}

-- A result is stored as cancelled only where nothing of its task (for an apply: of its plan's task)
-- is left in doubt: no other attempt is in flight, no plan is being applied or in doubt, and the plans
-- with journaled changes were applied or reconciled.
pub cancelled_is_quiet :
    (approval : ℕ) (r : ClaimRecord) (outcome : Outcome) (now : ℕ) (l : Ledger)
    {s : ExecutionStatus} {x : TaskResult} {l' : Ledger}
    → check_live_claim r now l ≡ ok s
    → finish approval r outcome now l ≡ ok l'
    → find r.execution l'.results ≡ some x
    → x.outcome ≡ Outcome.cancelled
    → IsCertain (some r.execution) (effect_task r l) l
cancelled_is_quiet approval r outcome now l {s} {x} live done there is_cancelled =
    let final : (committed_outcome r outcome s now l).0 ≡ Outcome.cancelled =
      unfold result_row in
      ground (arith, stored approval r outcome now l live done, there, is_cancelled) in
    let quiet = certain r outcome s now l final in
    stopped-IsCertain r l (
      subst (λ stopped. IsCertain none (effect_task r stopped) stopped)
        (the_stopped r outcome s now l final) (unresolved_effects-IsCertain _ true _ quiet))
