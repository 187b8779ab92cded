-- ===== src/Operations/Consent.antt =====
-- What `resume` and `cancel` of src/nyanya_agent/operation_store.py need, and what they leave.
use mathlib.Core.Option
use mathlib.Core.Path.{subst}
use nyanya_agent.Prelude.{
  ℕ, ◌+◌, ◌<◌, ◌≤◌, ◌≡◌, ◌≢◌, ◌⊎◌, refl, any_row-find, find-key, true, false, Option, none, some,
  inl, inr, [], ◌∷◌, arith, Result-cases, Option-cases, Bool-cases, ok, find, any_row, find-update,
}
use nyanya_agent.Ledger.{
  Ledger, Task, TaskStatus, Operation, task_keyed, claim_keyed, operation_keyed, worker_keyed,
  task_status_coded, ◌is◌, ◌among◌, Worker, TaskResult, DeliveryStatus, ChangePlan, PlanStatus,
  plan_status_coded, plan_status_code, delivery_status_code, task_status_code-injective, plan_keyed,
  result_keyed, seconds,
}
use nyanya_agent.Effects.{is_apply}
use nyanya_agent.Effects.Certain.{IsCertain, unresolved_effects-IsCertain}
use nyanya_agent.Operations.{Workspaces, check_workspace, worker_ready, cutoff}
use nyanya_agent.Operations.Control.{
  check_resume, current_result, ambiguous, resume_conn, requeue, plan_touched, owned_task,
  dismiss_conn,
}
use nyanya_agent.Tasks.{set_task_status}
use nyanya_agent.Operations.Withdrawn.{HasPlanKeys, withdraw-IsCertain, withdraw-task}
use nyanya_agent.Operations.Cancel.{cancel, cancel_open, withdraw, uncertain_effects, end_now}

abbrev pub IsUntouched : PlanStatus → Type 0
IsUntouched s =
    (s ≢ PlanStatus.applying)
    × (s ≢ PlanStatus.uncertain)
    × (s ≢ PlanStatus.applied)
    × (s ≢ PlanStatus.reconciled)

-- Neither under way to its owner nor possibly lost.
abbrev pub IsTold : DeliveryStatus → Type 0
IsTold s = (s ≢ DeliveryStatus.sending) × (s ≢ DeliveryStatus.uncertain)

-- The conditions of a new attempt.
pub record IsResumable (w : Workspaces) (task owner generation now : ℕ) (l : Ledger) : Type 0 where
  pub operation : Operation
  pub found : find task l.operations ≡ some operation
  pub is_request : is_apply operation.spec.kind ≡ false
  pub attempts_left : operation.attempts < operation.max_attempts
  pub certain : IsCertain none task l
  pub no_plan :
      (i : ℕ) (p : ChangePlan) → find i l.plans ≡ some p → p.task ≡ task → IsUntouched p.status
  pub workspace : (root : ℕ) × (check_workspace w operation.spec.workspace owner ≡ ok root)
  pub worker : Worker
  pub worker_found : find generation l.workers ≡ some worker
  pub live : (worker.closed ≡ false) × (now ≤ worker.heartbeat_at + seconds 30)
  pub row : Task
  pub row_found : find task l.tasks ≡ some row
  pub owned : row.requested_by ≡ owner
  pub stopped : (row.status ≡ TaskStatus.blocked) ⊎ (row.status ≡ TaskStatus.failed)
  pub told :
      (e : ℕ) (x : TaskResult)
      → row.current_execution ≡ some e
      → find e l.results ≡ some x
      → IsTold x.delivery

untouched :
    (task : ℕ) (p : ChangePlan) → plan_touched task p ≡ false → p.task ≡ task → IsUntouched p.status
unfolding plan_touched ◌among◌ plan_status_code
untouched task p h same = (
  (λ s. ground (arith, h, same, s)),
  (λ s. ground (arith, h, same, s)),
  (λ s. ground (arith, h, same, s)),
  (λ s. ground (arith, h, same, s)),
)

live_worker :
    (now : ℕ) (found : Option Worker)
    → worker_ready now found ≡ true
    → (worker : Worker) × (found ≡ some worker)
      × (worker.closed ≡ false)
      × (now ≤ worker.heartbeat_at + seconds 30)
unfolding worker_ready cutoff
live_worker now none h = cc h
live_worker now (some worker) h = (worker, refl, ground (arith, h), ground (arith, h))

stopped_status :
    (s : TaskStatus)
    → s among (TaskStatus.blocked ∷ TaskStatus.failed ∷ []) ≡ true
    → (s ≡ TaskStatus.blocked) ⊎ (s ≡ TaskStatus.failed)
unfolding ◌among◌
stopped_status s h = elim (Bool-cases (s is TaskStatus.blocked)) [
  | inl blocked ↦ inl (task_status_code-injective _ _ (ground (arith, blocked)))
  | inr other ↦ inr (task_status_code-injective _ _ (ground (arith, h, other)))
]

told_delivery : (s : DeliveryStatus) → ambiguous s ≡ false → IsTold s
unfolding ambiguous ◌among◌ delivery_status_code
told_delivery s h = ((λ p. ground (arith, h, p)), (λ p. ground (arith, h, p)))

checked_delivery :
    (t : Task) (l : Ledger) (e : ℕ) (x : TaskResult)
    → (elim (current_result t l) [ none ↦ false | some x ↦ ambiguous x.delivery ]) ≡ false
    → t.current_execution ≡ some e
    → find e l.results ≡ some x
    → IsTold x.delivery
unfolding current_result
checked_delivery t l e x h current there =
    told_delivery x.delivery (ground (arith, h, current, there))

check_resume-IsResumable :
    (w : Workspaces) (task owner generation now : ℕ) (l : Ledger)
    → check_resume w task owner generation now l ≡ ok tt
    → IsResumable w task owner generation now l
check_resume-IsResumable w task owner generation now l h =
    elim (Option-cases (find task l.operations)) [
      | inl missing ↦ absurd (unfold check_resume in ground (arith, missing))
      | inr (o, there) ↦ elim (Option-cases (find task l.tasks)) [
        | inl missing ↦ absurd (unfold check_resume in ground (arith, there, missing))
        | inr (t, row) ↦ elim (Result-cases (check_workspace w o.spec.workspace owner)) [
          | inr (x, refused) ↦ absurd (unfold check_resume in ground (arith, there, row, refused))
          | inl (root, allowed) ↦
              let (worker, worker_found, unclosed, recent) =
                live_worker now (find generation l.workers)
                  (unfold check_resume in ground (arith, there, row, allowed)) in
              let quiet : any_row (plan_touched task) l.plans ≡ false =
                unfold check_resume in ground (arith, there, row) in
              record {
                operation = o;
                found = there;
                is_request = unfold check_resume in ground (arith, there, row);
                attempts_left = unfold check_resume in ground (arith, there, row);
                certain =
                    unresolved_effects-IsCertain task false l
                      (unfold check_resume in ground (arith, there, row));
                no_plan = λ i p found same.
                    untouched task p (any_row-find (plan_touched task) i l.plans quiet found) same;
                workspace = (root, allowed);
                worker = worker;
                worker_found = worker_found;
                live = (unclosed, recent);
                row = t;
                row_found = row;
                owned = unfold check_resume in ground (arith, there, row);
                stopped =
                    stopped_status t.status (unfold check_resume in ground (arith, there, row));
                told = λ e x current result.
                    checked_delivery t l e x (unfold check_resume in ground (arith, there, row))
                      current result;
              }
        ]
      ]
    ]

-- A resume (after its recovery) succeeds only for the owner's blocked or failed task that is a request
-- with attempts left, whose last result is not being delivered and not lost in delivery, without an
-- attempt in flight, journaled changes in doubt or plans that were begun, in an allowed workspace and
-- for a worker heard of in the last 30 seconds; it then makes the operation eligible for that worker.
pub resume_needs :
    (w : Workspaces) (task owner generation now : ℕ) (l : Ledger) {l' : Ledger}
    → resume_conn w task owner generation now l ≡ ok l'
    → IsResumable w task owner generation now l
      × (find task l'.operations ≡ Option.map (requeue generation) (find task l.operations))
unfolding resume_conn
resume_needs w task owner generation now l {l'} h =
    elim (Result-cases (check_resume w task owner generation now l)) [
      | inr (x, refused) ↦ absurd (ground (arith, refused))
      | inl (u, checked) ↦ (
        check_resume-IsResumable w task owner generation now l checked,
        unfold requeue in
            ground
              (arith, checked, find-update task task (requeue generation) l.operations (λ o. refl)),
      )
    ]

-- How "cancelled" is the answer: the task was cancelled before, or is now; nothing of it is in doubt.
pub data IsCancelled (task : ℕ) (l l' : Ledger) : Type 0 where
  already :
      (t : Task)
      → find task l.tasks ≡ some t
      → t.status ≡ TaskStatus.cancelled
      → IsCertain none task l
      → l' ≡ l
      → IsCancelled task l l'
  ended :
      (t : Task)
      → find task l'.tasks ≡ some t
      → t.status ≡ TaskStatus.cancelled
      → IsCertain none task l
      → IsCancelled task l l'

owned_task-found :
    (task owner : ℕ) (status : Option TaskStatus) (updated_at : Option ℕ) (l : Ledger) {t : Task}
    → owned_task task owner status updated_at l ≡ ok t
    → (find task l.tasks ≡ some t) × (t.requested_by ≡ owner)
unfolding owned_task
owned_task-found task owner status updated_at l h = (ground arith, ground arith)

cancel_open-cancelled :
    (t : Task) (owner now : ℕ) (l : Ledger)
    → (cancel_open t owner now l).0 ≡ TaskStatus.cancelled
    → (uncertain_effects t.id (withdraw t.id owner now l) ≡ false)
      × ((cancel_open t owner now l).1 ≡ end_now t.id now false (withdraw t.id owner now l))
unfolding cancel_open
cancel_open-cancelled t owner now l h = (ground arith, ground arith)

end_now-status :
    (task now : ℕ) (l : Ledger) (t : Task)
    → find task l.tasks ≡ some t
    → (t' : Task) × (find task (end_now task now false l).tasks ≡ some t')
      × (t'.status ≡ TaskStatus.cancelled)
unfolding end_now set_task_status
end_now-status task now l t there = (
  set_task_status TaskStatus.cancelled now t,
  ground (
    arith,
    there,
    find-update task task (set_task_status TaskStatus.cancelled now) l.tasks (λ r. refl),
  ),
  refl,
)

cancel_open-IsCancelled :
    (task owner now : ℕ) (l : Ledger) (t : Task) {l' : Ledger}
    → HasPlanKeys l
    → find task l.tasks ≡ some t
    → t.id ≡ task
    → (cancel_open t owner now l).0 ≡ TaskStatus.cancelled
    → l'.tasks ≡ (cancel_open t owner now l).1.tasks
    → IsCancelled task l l'
cancel_open-IsCancelled task owner now l t keys found key answer same =
    let (sure, ends) = cancel_open-cancelled t owner now l answer in
    let withdrawn = withdraw t.id owner now l in
    let certain = withdraw-IsCertain t.id owner now l keys (
      unresolved_effects-IsCertain t.id true withdrawn
        (unfold uncertain_effects in ground (arith, sure))) in
    let (t1, there) = withdraw-task t.id owner now t.id l t keys (cc (found, key)) in
    let (t2, stored, status) = end_now-status t.id now withdrawn t1 there in
    ended t2 (cc (stored, same, ends, key)) status (subst (λ i. IsCertain none i l) key certain)

-- "cancelled" is answered only where nothing of the task is in doubt: no attempt of it is in flight,
-- none of its plans is being applied or in doubt, and its plans with journaled changes were applied or
-- reconciled. The task was stored as cancelled before and nothing is written, or it is stored so now.
-- The plans' identifiers are distinct.
pub cancelled_needs :
    (task owner : ℕ) (execution : Option ℕ) (status : Option TaskStatus) (updated_at : Option ℕ)
    (now : ℕ) (l : Ledger) {l' : Ledger}
    → HasPlanKeys l
    → cancel task owner execution status updated_at now l ≡ ok (TaskStatus.cancelled, l')
    → IsCancelled task l l'
cancelled_needs task owner execution status updated_at now l {l'} keys h =
    elim (Result-cases (owned_task task owner status updated_at l)) [
      | inr (x, refused) ↦ absurd (unfold cancel in ground (arith, refused))
      | inl (t, owned) ↦
          let found = owned_task-found task owner status updated_at l owned in
          let key = find-key task l.tasks found.0 in
          elim (Bool-cases (t.status is TaskStatus.failed)) [
            | inl failed ↦ absurd (unfold cancel dismiss_conn in ground (arith, owned, failed))
            | inr other ↦
                elim (Bool-cases
                  (t.status among (TaskStatus.completed ∷ TaskStatus.cancelled ∷ []))) [
                    | inl over ↦
                        already t found.0 (unfold cancel in ground (arith, owned, other, over))
                          (subst (λ i. IsCertain none i l) key
                            (unresolved_effects-IsCertain t.id true l
                              (unfold cancel in ground (arith, owned, other, over))))
                          (unfold cancel in ground (arith, owned, other, over))
                    | inr unfinished ↦
                        cancel_open-IsCancelled task owner now l t keys found.0 key
                          (unfold cancel in ground (arith, owned, other, unfinished))
                          (unfold cancel in ground (arith, owned, other, unfinished))
                  ]
          ]
    ]
