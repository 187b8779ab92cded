-- ===== src/WorkQueue/Delivery.antt =====
-- About the deliveries of a stored result (src/nyanya_agent/work_queue.py).
use nyanya_agent.Prelude.{
  ℕ, ◌≡◌, refl, Bool, true, false, Option, none, some, inl, inr, List, [], ◌∷◌, arith,
  if◌then◌else◌, Result-cases, find, insert, find-update_if, find-append,
}
use nyanya_agent.Ledger.{
  Ledger, TaskResult, DeliveryStatus, Outcome, result_keyed, delivery_status_coded,
  delivery_status_code, ◌is◌,
}
use nyanya_agent.WorkQueue.{ClaimRecord, claim, start_claim, renew}
use nyanya_agent.WorkQueue.Finish.{
  finish, claim_delivery, record_delivery, undelivered, set_delivery, sending, result_row,
  committed_outcome,
}
use nyanya_agent.WorkQueue.Trace.{
  QueueOp, claim_op, renew_op, finish_op, claim_delivery_op, record_delivery_op, after, committed,
  step, run, finish-IsFinished,
}

-- The result is there and no longer pending.
abbrev pub taken : Option TaskResult → Bool
taken none = false
taken (some x) = if x.delivery is DeliveryStatus.pending then false else true

module _ (e : ℕ) (l : Ledger) (gone : taken (find e l.results) ≡ true) where
  finish-taken :
      (approval : ℕ) (r : ClaimRecord) (outcome : Outcome) (now : ℕ)
      → taken (find e (committed l (finish approval r outcome now l)).results) ≡ true
  unfolding insert
  finish-taken approval r outcome now = elim (Result-cases (finish approval r outcome now l)) [
    | inr (x, refused) ↦ ground (arith, refused, gone)
    | inl (l', done) ↦
        let f = finish-IsFinished approval r outcome now l done in
        let row = result_row r (committed_outcome r outcome f.status now l).0 now in
        ground (arith, done, gone, f.results, find-append e l.results row)
  ]

  claim_delivery-taken :
      (task owner execution now : ℕ)
      → taken (find e (claim_delivery task owner execution now l).1.results) ≡ true
  unfolding claim_delivery undelivered set_delivery delivery_status_code
  claim_delivery-taken task owner execution now = ground (
    arith,
    gone,
    find-update_if execution e undelivered (set_delivery DeliveryStatus.sending now) l.results
        (λ r. refl),
  )

  record_delivery-taken :
      (execution : ℕ) (delivered : Bool) (now : ℕ)
      → taken (find e (record_delivery execution delivered now l).results) ≡ true
  unfolding record_delivery sending set_delivery delivery_status_code
  record_delivery-taken execution delivered now =
      let status = if delivered then DeliveryStatus.delivered else DeliveryStatus.uncertain in
      ground (
        arith,
        gone,
        find-update_if execution e sending (set_delivery status now) l.results (λ r. refl),
      )

  claim-taken :
      (execution adapter task worker owner ttl now : ℕ)
      → taken (find e (after l (claim execution adapter task worker owner ttl now l)).results)
        ≡ true
  unfolding claim start_claim
  claim-taken execution adapter task worker owner ttl now = ground (arith, gone)

  renew-taken :
      (r : ClaimRecord) (ttl now : ℕ) → taken (find e (renew r ttl now l).1.results) ≡ true
  unfolding renew
  renew-taken r ttl now = ground (arith, gone)

  step-taken : (op : QueueOp) → taken (find e (step op l).results) ≡ true
  unfolding step
  step-taken (claim_op execution adapter task worker owner ttl now) =
      claim-taken execution adapter task worker owner ttl now
  step-taken (renew_op r ttl now) = renew-taken r ttl now
  step-taken (finish_op approval r outcome now) = finish-taken approval r outcome now
  step-taken (claim_delivery_op task owner execution now) =
      claim_delivery-taken task owner execution now
  step-taken (record_delivery_op execution delivered now) =
      record_delivery-taken execution delivered now

run-taken :
    (ops : List QueueOp) (e : ℕ) (l : Ledger)
    → taken (find e l.results) ≡ true
    → taken (find e (run ops l).results) ≡ true
unfolding run
run-taken [] e l gone = gone
run-taken (op ∷ ops) e l gone = run-taken ops e (step op l) (step-taken e l gone op)

claim_delivery-takes :
    (task owner execution now : ℕ) (l : Ledger)
    → (claim_delivery task owner execution now l).0 ≡ true
    → taken (find execution (claim_delivery task owner execution now l).1.results) ≡ true
unfolding claim_delivery undelivered set_delivery delivery_status_code
claim_delivery-takes task owner execution now l h = ground (
  arith,
  find-update_if execution execution undelivered (set_delivery DeliveryStatus.sending now) l.results
      (λ r. refl),
)

claim_delivery-refuses :
    (task owner execution now : ℕ) (l : Ledger)
    → taken (find execution l.results) ≡ true
    → claim_delivery task owner execution now l ≡ (false, l)
unfolding claim_delivery undelivered
claim_delivery-refuses task owner execution now l gone = ground arith

-- A result is handed out at most once: after a delivery claim that succeeded, and after any further
-- queue operations, every delivery claim of the same result returns False and writes nothing.
pub deliver_once :
    (task owner execution now : ℕ) (l : Ledger) (ops : List QueueOp) (task' owner' now' : ℕ)
    → (claim_delivery task owner execution now l).0 ≡ true
    → let end = run ops (claim_delivery task owner execution now l).1 in
      claim_delivery task' owner' execution now' end ≡ (false, end)
deliver_once task owner execution now l ops task' owner' now' sent =
    let l' = (claim_delivery task owner execution now l).1 in
    claim_delivery-refuses task' owner' execution now' (run ops l')
      (run-taken ops execution l' (claim_delivery-takes task owner execution now l sent))
