-- ===== src/Operations/Slots.antt =====
-- About what `claim` of src/nyanya_agent/operation_store.py starts, and its slots.
use nyanya_agent.Prelude.{
  ℕ, ◌+◌, ◌≤◌, ◌<◌, ◌≡◌, refl, true, Option, none, some, inl, inr, [], ◌∷◌, ◌++◌, arith,
  Result-cases, Option-cases, ok, find, insert, update, count, delete_where, find-update,
  count-same, count-append, count-delete_where, All-first, All-order_by, All-select, first-holds,
}
use nyanya_agent.Ledger.{
  Ledger, Task, Claim, Operation, task_keyed, claim_keyed, operation_keyed, execution_keyed,
  seconds,
}
use nyanya_agent.WorkQueue.{ClaimRecord, claim_row, sort_key}
use nyanya_agent.Operations.Dispatch.{
  claim, next_task, start_operation, startable, queued_operation, holds_slot, released_of,
  count_attempt, claimed_operation, eligible_for,
}

-- What a successful claim has found and leaves of the claims and the operations.
pub record IsClaimed (execution adapter generation slots now : ℕ) (l : Ledger) (r : ClaimRecord)
    (l' : Ledger) : Type 0 where
  pub task : Task
  pub chosen : next_task generation l ≡ some task
  pub slot_free : count (holds_slot l) l.claims < slots
  pub answer : r ≡ claimed_operation execution generation task l
  pub claims :
      insert
        (claim_row task.id generation task.requested_by execution (now + seconds 30))
        (delete_where (released_of task.id) l.claims)
      ≡ ok l'.claims
  pub operations : l'.operations ≡ update task.id count_attempt l.operations

start_operation-writes :
    (execution adapter generation now : ℕ) (t : Task) (l : Ledger) {l' : Ledger}
    → start_operation execution adapter generation now t l ≡ ok l'
    → (insert
          (claim_row t.id generation t.requested_by execution (now + seconds 30))
          (delete_where (released_of t.id) l.claims)
        ≡ ok l'.claims)
      × (l'.operations ≡ update t.id count_attempt l.operations)
unfolding start_operation
start_operation-writes execution adapter generation now t l h = (ground arith, ground arith)

pub claim-IsClaimed :
    (execution adapter generation slots now : ℕ) (l : Ledger) {r : ClaimRecord} {l' : Ledger}
    → claim execution adapter generation slots now l ≡ ok (some r, l')
    → IsClaimed execution adapter generation slots now l r l'
claim-IsClaimed execution adapter generation slots now l {r} {l'} h =
    elim (Option-cases (next_task generation l)) [
      | inl idle ↦ absurd (unfold claim in ground (arith, idle))
      | inr (t, chosen) ↦
          elim (Result-cases (start_operation execution adapter generation now t l)) [
            | inr (x, refused) ↦ absurd (unfold claim in ground (arith, chosen, refused))
            | inl (l1, started) ↦
                let same : l1 ≡ l' = unfold claim in ground (arith, chosen, started) in
                let w = start_operation-writes execution adapter generation now t l started in
                record {
                  task = t;
                  chosen = chosen;
                  slot_free = unfold claim in ground (arith, chosen, started);
                  answer = unfold claim in ground (arith, chosen, started);
                  claims = ground (arith, w, same);
                  operations = ground (arith, w, same);
                }
          ]
    ]

holds_slot-counted :
    (t : ℕ) (l l' : Ledger)
    → l'.operations ≡ update t count_attempt l.operations
    → (c : Claim) → holds_slot l' c ≡ holds_slot l c
unfolding holds_slot count_attempt
holds_slot-counted t l l' h c =
    ground (arith, h, find-update t c.task count_attempt l.operations (λ o. refl))

-- A claim keeps the slots: where one succeeds, at most `slots` unreleased claims of operations
-- stand afterwards.
pub claim_within_slots :
    (execution adapter generation slots now : ℕ) (l : Ledger) {r : ClaimRecord} {l' : Ledger}
    → claim execution adapter generation slots now l ≡ ok (some r, l')
    → count (holds_slot l') l'.claims ≤ slots
unfolding insert
claim_within_slots execution adapter generation slots now l {r} {l'} h =
    let d = claim-IsClaimed execution adapter generation slots now l h in
    let row = claim_row d.task.id generation d.task.requested_by execution (now + seconds 30) in
    let kept = delete_where (released_of d.task.id) l.claims in
    let grown : l'.claims ≡ kept ++ row ∷ [] = ground (arith, d.claims) in
    ground (
      arith,
      grown,
      d.slot_free,
      count-same (holds_slot l') (holds_slot l) l'.claims
          (holds_slot-counted d.task.id l l' d.operations),
      count-append (holds_slot l) kept row,
      count-delete_where (holds_slot l) (released_of d.task.id) l.claims,
    )

-- The task that is chosen is queued and startable.
chosen-queued :
    (generation : ℕ) (l : Ledger) {t : Task}
    → next_task generation l ≡ some t
    → queued_operation generation l t ≡ true
unfolding next_task
chosen-queued generation l h =
    All-first (λ t. queued_operation generation l t ≡ true) (startable l) _
      (All-order_by (λ t. queued_operation generation l t ≡ true) sort_key _
        (All-select (queued_operation generation l) l.tasks))
      h

pub chosen-startable :
    (generation : ℕ) (l : Ledger) {t : Task}
    → next_task generation l ≡ some t
    → startable l t ≡ true
unfolding next_task
chosen-startable generation l h = first-holds (startable l) _ h

abbrev pub WithinLimit : Option Operation → Type 0
WithinLimit none = Unit
WithinLimit (some o) = o.attempts ≤ o.max_attempts

-- Every operation's attempts are at most its limit.
abbrev pub BoundedAttempts : Ledger → Type 0
BoundedAttempts l = (i : ℕ) → WithinLimit (find i l.operations)

queued-bounded :
    (generation : ℕ) (l : Ledger) (t : Task) {o : Operation}
    → queued_operation generation l t ≡ true
    → find t.id l.operations ≡ some o
    → o.attempts < o.max_attempts
unfolding queued_operation eligible_for
queued-bounded generation l t h there = ground arith

-- No claim takes an operation beyond its attempts.
pub claim-BoundedAttempts :
    (execution adapter generation slots now : ℕ) (l : Ledger) {r : ClaimRecord} {l' : Ledger}
    → BoundedAttempts l
    → claim execution adapter generation slots now l ≡ ok (some r, l')
    → BoundedAttempts l'
unfolding count_attempt
claim-BoundedAttempts execution adapter generation slots now l {r} {l'} bounded h i =
    let d = claim-IsClaimed execution adapter generation slots now l h in
    elim (Option-cases (find i l.operations)) [
      | inl missing ↦ ground (
        arith,
        d.operations,
        missing,
        find-update d.task.id i count_attempt l.operations (λ o. refl),
      )
      | inr (o, before) ↦ ground (
        arith,
        before,
        d.operations,
        bounded i,
        find-update d.task.id i count_attempt l.operations (λ o. refl),
        queued-bounded generation l d.task {o = o} (chosen-queued generation l d.chosen),
      )
    ]
