-- ===== src/WorkQueue/Once.antt =====
-- About a task's claim and its result over sequences of queue operations
-- (src/nyanya_agent/work_queue.py).
use nyanya_agent.Prelude.{
  ℕ, ◌+◌, ◌≡◌, refl, true, false, none, some, inl, inr, List, [], ◌∷◌, arith, is_some, Result-cases,
  Option-cases, ok, err, value_error, find, insert, find-update_if, find-append,
}
use nyanya_agent.Ledger.{Ledger, Claim, Outcome, ExecutionStatus, claim_keyed, seconds}
use nyanya_agent.WorkQueue.{
  ClaimRecord, claim, claimable, start_claim, claim_row, renew, renewable, extend, check_live_claim,
}
use nyanya_agent.WorkQueue.Finish.{release, finish, claim_delivery, record_delivery}
use nyanya_agent.WorkQueue.Trace.{
  QueueOp, claim_op, renew_op, finish_op, claim_delivery_op, record_delivery_op, after, committed,
  step, run, find-release, finish-IsFinished,
}

check_live_claim-live :
    (r : ClaimRecord) (now : ℕ) (l : Ledger) {s : ExecutionStatus} {c : Claim}
    → check_live_claim r now l ≡ ok s
    → find r.task l.claims ≡ some c
    → c.released ≡ false
unfolding check_live_claim
check_live_claim-live r now l h there = ground arith

-- A claim that was released stays as it is.
module _ (t : ℕ) (l : Ledger) {c : Claim} (there : find t l.claims ≡ some c)
    (over : c.released ≡ true) where
  claim-released :
      (execution adapter task worker owner ttl now : ℕ)
      → find t (after l (claim execution adapter task worker owner ttl now l)).claims ≡ some c
  unfolding claim start_claim insert claim_row
  claim-released execution adapter task worker owner ttl now = ground (
    arith,
    there,
    find-append t l.claims (claim_row task worker owner execution (now + seconds ttl)),
  )

  renew-released : (r : ClaimRecord) (ttl now : ℕ) → find t (renew r ttl now l).1.claims ≡ some c
  unfolding renew renewable extend
  renew-released r ttl now = ground (
    arith,
    there,
    over,
    find-update_if r.task t (renewable r now) (extend (now + seconds ttl)) l.claims (λ x. refl),
  )

  finish-released :
      (approval : ℕ) (r : ClaimRecord) (outcome : Outcome) (now : ℕ)
      → find t (committed l (finish approval r outcome now l)).claims ≡ some c
  finish-released approval r outcome now = elim (Result-cases (finish approval r outcome now l)) [
    | inr (x, refused) ↦ ground (arith, refused, there)
    | inl (l', done) ↦
        let f = finish-IsFinished approval r outcome now l done in
        ground (
          arith,
          done,
          there,
          over,
          f.claims,
          f.checked,
          find-release r.task t l.claims,
          check_live_claim-live r now l {s = f.status} {c = c},
        )
  ]

  step-released : (op : QueueOp) → find t (step op l).claims ≡ some c
  unfolding step claim_delivery record_delivery
  step-released (claim_op execution adapter task worker owner ttl now) =
      claim-released execution adapter task worker owner ttl now
  step-released (renew_op r ttl now) = renew-released r ttl now
  step-released (finish_op approval r outcome now) = finish-released approval r outcome now
  step-released (claim_delivery_op task owner execution now) = ground (arith, there)
  step-released (record_delivery_op execution delivered now) = there

run-released :
    (ops : List QueueOp) (t : ℕ) (l : Ledger) {c : Claim}
    → find t l.claims ≡ some c
    → c.released ≡ true
    → find t (run ops l).claims ≡ some c
unfolding run
run-released [] t l there over = there
run-released (op ∷ ops) t l there over =
    run-released ops t (step op l) (step-released t l there over op) over

check_live_claim-refuses :
    (r : ClaimRecord) (now : ℕ) (l : Ledger) (c : Claim)
    → find r.task l.claims ≡ some c
    → c.released ≡ true
    → check_live_claim r now l ≡ err value_error
unfolding check_live_claim
check_live_claim-refuses r now l c there over = ground arith

claim_of_live :
    (r : ClaimRecord) (now : ℕ) (l : Ledger) {s : ExecutionStatus}
    → check_live_claim r now l ≡ ok s
    → (c : Claim) × (find r.task l.claims ≡ some c)
claim_of_live r now l h = elim (Option-cases (find r.task l.claims)) [
  | inl missing ↦ absurd (unfold check_live_claim in ground (arith, missing))
  | inr there ↦ there
]

-- A task's result is committed once: after a successful finish, and after any further queue
-- operations, every finish for the same task, with any claim record, raises ValueError.
pub finish_once :
    (approval : ℕ) (r : ClaimRecord) (outcome : Outcome) (now : ℕ) (l : Ledger) (ops : List QueueOp)
    (approval' : ℕ) (r' : ClaimRecord) (outcome' : Outcome) (now' : ℕ) {l' : Ledger}
    → finish approval r outcome now l ≡ ok l'
    → r'.task ≡ r.task
    → finish approval' r' outcome' now' (run ops l') ≡ err value_error
finish_once approval r outcome now l ops approval' r' outcome' now' {l'} done same =
    let f = finish-IsFinished approval r outcome now l done in
    let (c, there) = claim_of_live r now l f.checked in
    let closed : find r.task l'.claims ≡ some (release c) =
      ground (arith, f.claims, there, find-release r.task r.task l.claims) in
    let kept = run-released ops r.task l' closed (unfold release in refl) in
    let refused =
      check_live_claim-refuses r' now' (run ops l') (release c) (rw same kept)
        (unfold release in refl) in
    unfold finish in ground (arith, refused)

module _ (t : ℕ) (l : Ledger) (has : is_some (find t l.claims) ≡ true) where
  claim-has :
      (execution adapter task worker owner ttl now : ℕ)
      → is_some (find t (after l (claim execution adapter task worker owner ttl now l)).claims)
        ≡ true
  unfolding claim start_claim insert claim_row
  claim-has execution adapter task worker owner ttl now = ground (
    arith,
    has,
    find-append t l.claims (claim_row task worker owner execution (now + seconds ttl)),
  )

  renew-has : (r : ClaimRecord) (ttl now : ℕ) → is_some (find t (renew r ttl now l).1.claims) ≡ true
  unfolding renew extend
  renew-has r ttl now = ground (
    arith,
    has,
    find-update_if r.task t (renewable r now) (extend (now + seconds ttl)) l.claims (λ x. refl),
  )

  finish-has :
      (approval : ℕ) (r : ClaimRecord) (outcome : Outcome) (now : ℕ)
      → is_some (find t (committed l (finish approval r outcome now l)).claims) ≡ true
  finish-has approval r outcome now = elim (Result-cases (finish approval r outcome now l)) [
    | inr (x, refused) ↦ ground (arith, refused, has)
    | inl (l', done) ↦
        let f = finish-IsFinished approval r outcome now l done in
        ground (arith, done, has, f.claims, find-release r.task t l.claims)
  ]

  step-has : (op : QueueOp) → is_some (find t (step op l).claims) ≡ true
  unfolding step claim_delivery record_delivery
  step-has (claim_op execution adapter task worker owner ttl now) =
      claim-has execution adapter task worker owner ttl now
  step-has (renew_op r ttl now) = renew-has r ttl now
  step-has (finish_op approval r outcome now) = finish-has approval r outcome now
  step-has (claim_delivery_op task owner execution now) = ground (arith, has)
  step-has (record_delivery_op execution delivered now) = has

run-has :
    (ops : List QueueOp) (t : ℕ) (l : Ledger)
    → is_some (find t l.claims) ≡ true
    → is_some (find t (run ops l).claims) ≡ true
unfolding run
run-has [] t l has = has
run-has (op ∷ ops) t l has = run-has ops t (step op l) (step-has t l has op)

claim-makes :
    (execution adapter task worker owner ttl now : ℕ) (l : Ledger) {r : ClaimRecord} {l' : Ledger}
    → claim execution adapter task worker owner ttl now l ≡ ok (some r, l')
    → is_some (find task l'.claims) ≡ true
unfolding claim start_claim insert claim_row
claim-makes execution adapter task worker owner ttl now l h =
    ground
      (arith, find-append task l.claims (claim_row task worker owner execution (now + seconds ttl)))

claim-refuses :
    (execution adapter task worker owner ttl now : ℕ) (l : Ledger)
    → is_some (find task l.claims) ≡ true
    → claim execution adapter task worker owner ttl now l ≡ ok (none, l)
unfolding claim claimable
claim-refuses execution adapter task worker owner ttl now l has = ground arith

-- A task is claimed once: after a successful claim, and after any further queue operations, every
-- claim of the same task, by any worker and owner and also after the first claim expired, returns
-- None and writes nothing.
pub claim_once :
    (execution adapter task worker owner ttl now : ℕ) (l : Ledger) (ops : List QueueOp)
    (execution' adapter' worker' owner' ttl' now' : ℕ) {r : ClaimRecord} {l' : Ledger}
    → claim execution adapter task worker owner ttl now l ≡ ok (some r, l')
    → claim execution' adapter' task worker' owner' ttl' now' (run ops l') ≡ ok (none, run ops l')
claim_once execution adapter task worker owner ttl now l ops execution' adapter' worker' owner' ttl'
      now' {l' = l'} done =
    claim-refuses execution' adapter' task worker' owner' ttl' now' (run ops l')
      (run-has ops task l' (claim-makes execution adapter task worker owner ttl now l done))
