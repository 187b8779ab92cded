-- ===== src/Operations/Progress.antt =====
-- About when `claim` of src/nyanya_agent/operation_store.py starts an operation, and in which order.
use nyanya_agent.Prelude.{
  Bool-cases, ltb, ℕ, ◌<◌, ◌≤◌, ◌≡◌, ◌⊎◌, IsRow, All-IsRow, All-map, All-selected, Bool, true,
  false, ◌&&◌, none, some, inl, inr, arith, Result-cases, ok, find, insert, count, delete_where,
  select, any_row, first, order_by, All, All-first, All-select, All-order_by, first-holds,
  any_row-select, any_row-order_by, first-found, IsRanking, order_by-IsOrdered, first-IsOrdered,
  All-unselect, All-unorder,
}
use nyanya_agent.Ledger.{Ledger, Task, task_keyed, claim_keyed, operation_keyed, execution_keyed}
use nyanya_agent.WorkQueue.{ClaimRecord, claim_row, running_row, sort_key}
use nyanya_agent.Operations.Dispatch.{
  claim, next_task, start_operation, startable, queued_operation, holds_slot, released_of,
  claimed_operation,
}
use nyanya_agent.Operations.Slots.{claim-IsClaimed}

sort_key-IsRanking : IsRanking sort_key
unfolding sort_key
sort_key-IsRanking = record {
  asymmetric = λ a b h. ground arith;
  cotransitive = λ a b c h k. ground arith;
}

-- Whether `claim` may start this task now.
abbrev pub claimable_by : ℕ → Ledger → Task → Bool
claimable_by generation l t = queued_operation generation l t && startable l t

next_task-found :
    (generation : ℕ) (l : Ledger)
    → any_row (claimable_by generation l) l.tasks ≡ true
    → (t : Task) × (next_task generation l ≡ some t)
unfolding next_task
next_task-found generation l h =
    let queue = select (queued_operation generation l) l.tasks in
    first-found (startable l) (order_by sort_key queue) (
      cc (
        any_row-order_by (startable l) sort_key queue,
        any_row-select (startable l) (queued_operation generation l) l.tasks,
        h,
      ))

-- The invariant of the claims on the rows of queued tasks: their claims are released.
abbrev pub IsUnclaimed : ℕ → Ledger → Type 0
IsUnclaimed generation l =
    All
      (λ t.
        queued_operation generation l t ≡ true
        → find t.id (delete_where (released_of t.id) l.claims) ≡ none)
      l.tasks

-- What holds of every row holds of the one that is chosen.
next_task-All :
    (P : Task → Type 0) (generation : ℕ) (l : Ledger) {t : Task}
    → All P l.tasks
    → next_task generation l ≡ some t
    → P t
unfolding next_task
next_task-All P generation l all h =
    let queue = select (queued_operation generation l) l.tasks in
    All-first P (startable l) (order_by sort_key queue)
      (All-order_by P sort_key queue (All-selected P (queued_operation generation l) l.tasks all)) h

next_task-queued :
    (generation : ℕ) (l : Ledger) {t : Task}
    → next_task generation l ≡ some t
    → queued_operation generation l t ≡ true
unfolding next_task
next_task-queued generation l {t} h =
    let queue = select (queued_operation generation l) l.tasks in
    All-first (λ u. queued_operation generation l u ≡ true) (startable l) (order_by sort_key queue)
      (All-order_by (λ u. queued_operation generation l u ≡ true) sort_key queue
        (All-select (queued_operation generation l) l.tasks))
      h

start_operation-succeeds :
    (execution adapter generation now : ℕ) (t : Task) (l : Ledger)
    → find execution l.executions ≡ none
    → find t.id (delete_where (released_of t.id) l.claims) ≡ none
    → (l' : Ledger) × (start_operation execution adapter generation now t l ≡ ok l')
start_operation-succeeds execution adapter generation now t l fresh free =
    elim (Result-cases (start_operation execution adapter generation now t l)) [
      | inl done ↦ done
      | inr (e, refused) ↦ absurd (
          unfold start_operation in
          unfold insert in
          unfold running_row in unfold claim_row in ground (arith, refused, fresh, free))
    ]

-- A worker never idles beside work that it may do: while a slot is free, some queued operation of
-- its generation is startable, the new execution's identifier is fresh and no stored task with a
-- queued operation has a claim that is not released, `claim` starts an operation and returns its
-- record.
pub claim_progresses :
    (execution adapter generation slots now : ℕ) (l : Ledger)
    → count (holds_slot l) l.claims < slots
    → any_row (claimable_by generation l) l.tasks ≡ true
    → find execution l.executions ≡ none
    → IsUnclaimed generation l
    → (r : ClaimRecord) × (l' : Ledger) × (claim execution adapter generation slots now l
        ≡ ok (some r, l'))
unfolding claim
claim_progresses execution adapter generation slots now l slot work fresh unclaimed =
    let (t, chosen) = next_task-found generation l work in
    let (l', started) =
      start_operation-succeeds execution adapter generation now t l fresh
        (next_task-All _ generation l unclaimed chosen (next_task-queued generation l chosen)) in
    (claimed_operation execution generation t l, l', ground (arith, slot, chosen, started))

sort_key-later :
    (u t : Task)
    → sort_key u t ≡ false
    → (t.priority < u.priority) ⊎ ((t.priority ≡ u.priority) × (t.created_at ≤ u.created_at))
unfolding sort_key
sort_key-later u t h = elim (Bool-cases (ltb t.priority u.priority)) [
  | inl larger ↦ inl (ground arith)
  | inr same ↦ inr (ground arith, ground arith)
]

-- Work is taken in its order: a successful claim takes a stored task, and every stored task whose
-- queued operation could also have been started has a larger priority number than that one, or the
-- same and no earlier creation.
pub claim_takes_first :
    (execution adapter generation slots now : ℕ) (l : Ledger) {r : ClaimRecord} {l' : Ledger}
    → claim execution adapter generation slots now l ≡ ok (some r, l')
    → (t : Task) × IsRow l.tasks t
      × (r.task ≡ t.id)
      × (claimable_by generation l t ≡ true)
      × All
          (λ u.
            queued_operation generation l u ≡ true
            → startable l u ≡ true
            → (t.priority < u.priority)
              ⊎ ((t.priority ≡ u.priority) × (t.created_at ≤ u.created_at)))
          l.tasks
claim_takes_first execution adapter generation slots now l {r} h =
    let c = claim-IsClaimed execution adapter generation slots now l h in
    let queue = select (queued_operation generation l) l.tasks in
    let chosen : first (startable l) (order_by sort_key queue) ≡ some c.task =
      unfold next_task in c.chosen in
    (
      c.task,
      next_task-All (IsRow l.tasks) generation l (All-IsRow l.tasks) c.chosen,
      (unfold claimed_operation in ground (arith, c.answer)),
      ground (
        arith,
        next_task-queued generation l c.chosen,
        first-holds (startable l) (order_by sort_key queue) chosen,
      ),
      All-map _ _ l.tasks (λ u later queued could. sort_key-later u c.task (later queued could))
          (All-unselect (λ u. startable l u ≡ true → sort_key u c.task ≡ false)
            (queued_operation generation l) l.tasks
            (All-unorder (λ u. startable l u ≡ true → sort_key u c.task ≡ false) sort_key queue
              (first-IsOrdered sort_key sort_key-IsRanking (startable l) (order_by sort_key queue)
                (order_by-IsOrdered sort_key sort_key-IsRanking queue) chosen))),
    )
