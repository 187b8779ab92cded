-- ===== src/Operations/Recovery.antt =====
-- What `recover` of src/nyanya_agent/operation_store.py holds, and what it leaves alone.
use mathlib.Core.Option
use nyanya_agent.Prelude.{
  ℕ, ◌+◌, ◌<◌, ◌≤◌, ◌⊎◌, ◌||◌, Option, false, ◌≡◌, refl, Bool, true, some, inl, inr, List, [], ◌∷◌,
  arith, ◌==◌, if◌then◌else◌, Bool-cases, Option-cases, >>=-eq-ok, ok, find, update, select,
  any_row, find-update,
}
use nyanya_agent.Ledger.{
  Ledger, Task, TaskStatus, Claim, Worker, task_keyed, claim_keyed, worker_keyed, task_status_coded,
  task_status_code, ◌among◌, seconds, Execution, Operation, HoldReason, execution_keyed,
  operation_keyed, execution_terminal,
}
use nyanya_agent.Operations.{cutoff}
use nyanya_agent.Operations.Dispatch.{
  interrupted_by, worker_lost, claim_lapsed, recoverable_statuses, recover, interrupt,
  interrupt_all, interrupted, hold_operation, lose_attempt, lose_execution, current_execution_of,
}

abbrev pub hold : Operation → Operation
hold o = hold_operation HoldReason.worker_interrupted o

-- An eligible operation of a task that is queued, running or being cancelled, whose worker is closed
-- or has not been heard of for 30 seconds, or whose claim is held and has expired.
pub record IsLapsed (now : ℕ) (l : Ledger) (o : Operation) : Type 0 where
  pub eligible : o.eligible ≡ true
  pub worker : Worker
  pub worker_found : find o.generation l.workers ≡ some worker
  pub task : Task
  pub task_found : find o.task l.tasks ≡ some task
  pub unfinished :
      (task.status ≡ TaskStatus.queued)
      ⊎ (task.status ≡ TaskStatus.running)
      ⊎ (task.status ≡ TaskStatus.cancelling)
  pub lapsed :
      (worker.closed ≡ true)
      ⊎ (worker.heartbeat_at + seconds 30 < now)
      ⊎ ((c : Claim) × (find o.task l.claims ≡ some c)
          × (c.released ≡ false)
          × (c.expires_at ≤ now))

IsLapsed-status :
    (s : TaskStatus)
    → (s ≡ TaskStatus.queued) ⊎ (s ≡ TaskStatus.running) ⊎ (s ≡ TaskStatus.cancelling)
    → s among recoverable_statuses ≡ true
unfolding recoverable_statuses ◌among◌ task_status_code
IsLapsed-status s (inl h) = ground (arith, h)
IsLapsed-status s (inr (inl h)) = ground (arith, h)
IsLapsed-status s (inr (inr h)) = ground (arith, h)

IsLapsed-cause :
    (now : ℕ) (w : Worker) (found : Option Claim)
    → (w.closed ≡ true)
      ⊎ (w.heartbeat_at + seconds 30 < now)
      ⊎ ((c : Claim) × (found ≡ some c) × (c.released ≡ false) × (c.expires_at ≤ now))
    → (worker_lost now w || claim_lapsed now found) ≡ true
unfolding worker_lost claim_lapsed cutoff
IsLapsed-cause now w found (inl h) = ground (arith, h)
IsLapsed-cause now w found (inr (inl h)) = ground (arith, h)
IsLapsed-cause now w found (inr (inr (c, here, held, late))) = ground (arith, here, held, late)

IsLapsed-interrupted :
    (now : ℕ) (l : Ledger) (o : Operation) → IsLapsed now l o → interrupted now l o ≡ true
unfolding interrupted interrupted_by
IsLapsed-interrupted now l o h = ground (
  arith,
  h.eligible,
  h.worker_found,
  h.task_found,
  IsLapsed-status h.task.status h.unfinished,
  IsLapsed-cause now h.worker (find o.task l.claims) h.lapsed,
)

interrupt-operations :
    (now : ℕ) (o : Operation) (l : Ledger) {l' : Ledger}
    → interrupt now o l ≡ ok l'
    → l'.operations ≡ update o.task hold l.operations
unfolding interrupt lose_attempt
interrupt-operations now o l h = ground arith

-- The operation of a task that the loop visits is held, every other one stays.
interrupt_all-operations :
    (now t : ℕ) (rows : List Operation) (l : Ledger) {l' : Ledger}
    → interrupt_all now rows l ≡ ok l'
    → find t l'.operations ≡ (
        if any_row (λ o. o.task == t) rows
        then Option.map hold (find t l.operations)
        else find t l.operations)
unfolding interrupt_all any_row hold_operation
interrupt_all-operations now t [] l h = ground arith
interrupt_all-operations now t (o ∷ rows) l h =
    let (held, done, rest) = >>=-eq-ok (interrupt now o l) _ h in
    ground (
      arith,
      interrupt-operations now o l done,
      interrupt_all-operations now t rows held rest,
      find-update o.task t hold l.operations (λ r. refl),
    )

visited :
    (p : Operation → Bool) (t : ℕ) (rows : List Operation) {o : Operation}
    → find t rows ≡ some o
    → p o ≡ true
    → any_row (λ r. r.task == t) (select p rows) ≡ true
unfolding find select any_row
visited p t [] there held_by = cc
visited p t (x ∷ rows) there held_by = elim (Bool-cases (x.task == t)) [
  | inl here ↦ ground arith
  | inr later ↦ let rest = visited p t rows (ground arith) held_by in ground arith
]

interrupt-finished :
    (now i : ℕ) (o : Operation) (l : Ledger) {l' : Ledger} {e : Execution}
    → interrupt now o l ≡ ok l'
    → find i l.executions ≡ some e
    → execution_terminal e.status ≡ true
    → find i l'.executions ≡ some e
interrupt-finished now i o l {l'} {e} h there over =
    elim (Option-cases (current_execution_of o.task l)) [
      | inl idle ↦ unfold interrupt lose_attempt in ground (arith, idle)
      | inr (c, current) ↦
          unfold interrupt lose_attempt lose_execution in
          ground (
            arith,
            current,
            over,
            find-update c i (lose_execution now) l.executions (λ r. ground arith),
          )
    ]

interrupt_all-finished :
    (now i : ℕ) (rows : List Operation) (l : Ledger) {l' : Ledger} {e : Execution}
    → interrupt_all now rows l ≡ ok l'
    → find i l.executions ≡ some e
    → execution_terminal e.status ≡ true
    → find i l'.executions ≡ some e
unfolding interrupt_all
interrupt_all-finished now i [] l h there over = ground arith
interrupt_all-finished now i (o ∷ rows) l h there over =
    let (held, done, rest) = >>=-eq-ok (interrupt now o l) _ h in
    interrupt_all-finished now i rows held rest (interrupt-finished now i o l done there over) over

-- A recovery holds every eligible operation of a task that is queued, running or being cancelled and
-- whose worker is closed or silent for 30 seconds or whose held claim has expired: as interrupted and
-- not eligible. It changes no execution that has ended.
pub recover_holds :
    (now t i : ℕ) (l : Ledger) {o : Operation} {e : Execution} {l' : Ledger}
    → recover now l ≡ ok l'
    → find t l.operations ≡ some o
    → IsLapsed now l o
    → find i l.executions ≡ some e
    → execution_terminal e.status ≡ true
    → (find t l'.operations ≡ some (hold_operation HoldReason.worker_interrupted o))
      × (find i l'.executions ≡ some e)
unfolding recover
recover_holds now t i l h there lapsed ended over = (
  ground (
    arith,
    there,
    visited (interrupted now l) t l.operations there (IsLapsed-interrupted now l _ lapsed),
    interrupt_all-operations now t (select (interrupted now l) l.operations) l h,
  ),
  interrupt_all-finished now i (select (interrupted now l) l.operations) l h ended over,
)
