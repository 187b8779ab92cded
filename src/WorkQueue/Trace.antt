-- ===== src/WorkQueue/Trace.antt =====
-- Sequences of the operations of src/nyanya_agent/work_queue.py, and what one operation does.
use mathlib.Core.Option
use nyanya_agent.Prelude.{
  ℕ, ◌≡◌, refl, Bool, Option, inl, inr, List, [], ◌∷◌, arith, if◌then◌else◌, Result, >>=-eq-ok,
  ◌==◌, Option-cases, ok, err, find, insert, update, find-update,
}
use nyanya_agent.Ledger.{
  Ledger, Claim, Outcome, ExecutionStatus, claim_keyed, result_keyed, delivery_status_coded,
}
use nyanya_agent.Conversations.{complete_conn}
use nyanya_agent.WorkQueue.{ClaimRecord, Review, claim, renew, check_live_claim, confirmed}
use nyanya_agent.WorkQueue.Finish.{
  release, write_result, result_row, complete_parent, complete_apply, open_review,
  committed_outcome, commit, finish, claim_delivery, record_delivery,
}

pub data QueueOp : Type 0 where
  claim_op : (execution adapter task worker owner ttl now : ℕ) → QueueOp
  renew_op : (record_ : ClaimRecord) (ttl now : ℕ) → QueueOp
  finish_op : (approval : ℕ) (record_ : ClaimRecord) (outcome : Outcome) (now : ℕ) → QueueOp
  claim_delivery_op : (task owner execution now : ℕ) → QueueOp
  record_delivery_op : (execution : ℕ) (delivered : Bool) (now : ℕ) → QueueOp

abbrev pub after : Ledger → Result (Option ClaimRecord × Ledger) → Ledger
after l (ok (r, l')) = l'
after l (err e) = l

abbrev pub committed : Ledger → Result Ledger → Ledger
committed l (ok l') = l'
committed l (err e) = l

unfoldable pub step : QueueOp → Ledger → Ledger
step (claim_op execution adapter task worker owner ttl now) l =
    after l (claim execution adapter task worker owner ttl now l)
step (renew_op r ttl now) l = (renew r ttl now l).1
step (finish_op approval r outcome now) l = committed l (finish approval r outcome now l)
step (claim_delivery_op task owner execution now) l = (claim_delivery task owner execution now l).1
step (record_delivery_op execution delivered now) l = record_delivery execution delivered now l

unfoldable pub run : List QueueOp → Ledger → Ledger
run [] l = l
run (op ∷ ops) l = run ops (step op l)

-- What `commit` does to the claims and the results, and nothing of its later statements undoes.
complete_conn-keeps :
    (task execution : ℕ) (question : Bool) (outcome : Outcome) (l : Ledger)
    → let l' = complete_conn task execution question outcome l in
      (l'.claims ≡ l.claims) × (l'.results ≡ l.results)
unfolding complete_conn
complete_conn-keeps task execution question outcome l = (ground arith, ground arith)

complete_parent-keeps :
    (plan now : ℕ) (l : Ledger)
    → let l' = committed l (complete_parent plan now l) in
      (l'.claims ≡ l.claims) × (l'.results ≡ l.results)
unfolding complete_parent
complete_parent-keeps plan now l = (ground arith, ground arith)

complete_apply-keeps :
    (r : ClaimRecord) (outcome : Outcome) (now : ℕ) (l : Ledger) {l' : Ledger}
    → complete_apply r outcome now l ≡ ok l'
    → (l'.claims ≡ l.claims) × (l'.results ≡ l.results)
unfolding complete_apply
complete_apply-keeps r outcome now l {l'} h = elim (Option-cases r.spec) [
  | inl plain ↦ (ground (arith, plain), ground (arith, plain))
  | inr (spec, given) ↦ (
    ground (arith, given, complete_parent-keeps spec.plan_id now l),
    ground (arith, given, complete_parent-keeps spec.plan_id now l),
  )
]

open_review-keeps :
    (approval : ℕ) (r : ClaimRecord) (outcome : Outcome) (review : Option Review) (now : ℕ)
    (l : Ledger) {l' : Ledger}
    → open_review approval r outcome review now l ≡ ok l'
    → (l'.claims ≡ l.claims) × (l'.results ≡ l.results)
unfolding open_review
open_review-keeps approval r outcome review now l h = (ground arith, ground arith)

committed_outcome-keeps :
    (r : ClaimRecord) (outcome : Outcome) (status : ExecutionStatus) (now : ℕ) (l : Ledger)
    → let l' = (committed_outcome r outcome status now l).2 in
      (l'.claims ≡ l.claims) × (l'.results ≡ l.results)
unfolding committed_outcome confirmed
committed_outcome-keeps r outcome status now l = (ground arith, ground arith)

pub find-release :
    (i j : ℕ) (rows : List Claim)
    → find j (update i release rows)
      ≡ (if i == j then Option.map release (find j rows) else find j rows)
unfolding release
find-release i j rows = find-update i j release rows (λ c. refl)

write_result-claims :
    (r : ClaimRecord) (outcome : Outcome) (now : ℕ) (l : Ledger) {l' : Ledger}
    → write_result r outcome now l ≡ ok l'
    → (l'.claims ≡ update r.task release l.claims)
      × (insert (result_row r outcome now) l.results ≡ ok l'.results)
unfolding write_result
write_result-claims r outcome now l h = (ground arith, ground arith)

-- What a successful `commit` leaves of the claims and the results.
commit-effect :
    (approval : ℕ) (r : ClaimRecord) (outcome : Outcome) (review : Option Review) (now : ℕ)
    (l : Ledger) {l' : Ledger}
    → commit approval r outcome review now l ≡ ok l'
    → (l'.claims ≡ update r.task release l.claims)
      × (insert (result_row r outcome now) l.results ≡ ok l'.results)
unfolding commit
commit-effect approval r outcome review now l {l'} h =
    let (written, done1, rest1) = >>=-eq-ok (write_result r outcome now l) _ h in
    let (applied, done2, rest2) = >>=-eq-ok (complete_apply r outcome now written) _ rest1 in
    let (opened, done3, rest3) =
      >>=-eq-ok (open_review approval r outcome review now applied) _ rest2 in
    let w = write_result-claims r outcome now l done1 in
    let a = complete_apply-keeps r outcome now written done2 in
    let o = open_review-keeps approval r outcome review now applied done3 in
    let c = complete_conn-keeps r.task r.execution r.question outcome opened in
    (ground (arith, w, a, o, c), ground (arith, w, a, o, c))

-- What a successful `finish` has checked and leaves of the claims and the results.
pub record IsFinished (r : ClaimRecord) (outcome : Outcome) (now : ℕ) (l l' : Ledger) : Type 0 where
  pub status : ExecutionStatus
  pub checked : check_live_claim r now l ≡ ok status
  pub claims : l'.claims ≡ update r.task release l.claims
  pub results :
      insert (result_row r (committed_outcome r outcome status now l).0 now) l.results
      ≡ ok l'.results

pub finish-IsFinished :
    (approval : ℕ) (r : ClaimRecord) (outcome : Outcome) (now : ℕ) (l : Ledger) {l' : Ledger}
    → finish approval r outcome now l ≡ ok l'
    → IsFinished r outcome now l l'
unfolding finish
finish-IsFinished approval r outcome now l {l'} h =
    let (status, live, rest) = >>=-eq-ok (check_live_claim r now l) _ h in
    let (final, review, stopped) = committed_outcome r outcome status now l in
    let done = commit-effect approval r final review now stopped rest in
    let kept = committed_outcome-keeps r outcome status now l in
    record {
      status = status;
      checked = live;
      claims = ground (arith, done, kept);
      results = ground (arith, done, kept);
    }
