-- ===== src/Operations/Withdrawn.antt =====
-- What `withdraw`, the first writes of `cancel` of src/nyanya_agent/operation_store.py, leaves of the
-- evidence of effects.
use mathlib.Core.Path.{subst}
use nyanya_agent.Prelude.{
  ℕ, ◌≡◌, ◌⊎◌, inl, inr, refl, true, none, some, List, [], ◌∷◌, arith, ◌==◌, Bool-cases, find,
  update, update_where, select, find-update, find-update_where, All, All-map, All-select,
  All-selected, All-both,
}
use nyanya_agent.Ledger.{
  Ledger, Task, TaskStatus, Execution, ExecutionStatus, ChangePlan, PlanStatus, HoldReason,
  task_keyed, execution_keyed, plan_keyed, task_status_coded, execution_status_coded,
  plan_status_coded, ◌is◌, ◌among◌, plan_status_code-injective,
}
use nyanya_agent.Tasks.{set_task_status}
use nyanya_agent.Effects.Certain.{IsCertain, IsStill, IsNotBegun, IsResolvedStatus}
use nyanya_agent.Operations.Cancel.{
  withdraw, revoke_plans, revoke_plan, revoke, cancel_children, cancel_child, child_of,
  open_plan_of, running_of, stop_execution, set_cancelling,
}

-- The primary key of the plans.
abbrev pub HasPlanKeys : Ledger → Type 0
HasPlanKeys l = All (λ p. find p.id l.plans ≡ some p) l.plans

abbrev pub IsOpen : PlanStatus → Type 0
IsOpen s = (s ≡ PlanStatus.pending) ⊎ (s ≡ PlanStatus.approved)

-- The later ledger has the rows of the earlier one, of which attempts may have been asked to stop and
-- open plans revoked.
record IsWithdrawn (l l' : Ledger) : Type 0 where
  journal : l'.journal ≡ l.journal
  tasks : (i : ℕ) (t : Task) → find i l.tasks ≡ some t → (t' : Task) × (find i l'.tasks ≡ some t')
  executions :
      (i : ℕ) (e : Execution)
      → find i l.executions ≡ some e
      → (e' : Execution) × (find i l'.executions ≡ some e')
        × (e'.task ≡ e.task)
        × ((e'.status ≡ e.status) ⊎ (e'.status ≡ ExecutionStatus.cancelling))
  plans :
      (i : ℕ) (p : ChangePlan)
      → find i l.plans ≡ some p
      → (q : ChangePlan) × (find i l'.plans ≡ some q)
        × (q.task ≡ p.task)
        × ((q.status ≡ p.status) ⊎ ((q.status ≡ PlanStatus.revoked) × IsOpen p.status))

found-update :
    (i j : ℕ) (f : Task → Task) (tasks : List Task) (t : Task)
    → ((r : Task) → (f r).id ≡ r.id)
    → find j tasks ≡ some t
    → (t' : Task) × (find j (update i f tasks) ≡ some t')
found-update i j f tasks t keep there = elim (Bool-cases (i == j)) [
  | inl same ↦ (f t, ground (arith, find-update i j f tasks keep, there, same))
  | inr other ↦ (t, ground (arith, find-update i j f tasks keep, there, other))
]

stopped-execution :
    (child now i : ℕ) (executions : List Execution) (e : Execution)
    → find i executions ≡ some e
    → (e' : Execution) × (find i (update_where (running_of child) (stop_execution now) executions)
        ≡ some e')
      × (e'.task ≡ e.task)
      × ((e'.status ≡ e.status) ⊎ (e'.status ≡ ExecutionStatus.cancelling))
unfolding stop_execution
stopped-execution child now i executions e there =
    let moved =
      find-update_where i (running_of child) (stop_execution now) executions (λ r. refl) in
    elim (Bool-cases (running_of child e)) [
      | inl runs ↦ (stop_execution now e, ground (arith, moved, there, runs), refl, inr refl)
      | inr rests ↦ (e, ground (arith, moved, there, rests), refl, inl refl)
    ]

cancel_child-IsWithdrawn :
    (hold : HoldReason) (now : ℕ) (child : Task) (l l' : Ledger)
    → IsWithdrawn l l'
    → IsWithdrawn l (cancel_child hold now child l')
unfolding cancel_child set_task_status set_cancelling
cancel_child-IsWithdrawn hold now child l l' h =
    elim (Bool-cases (child.status is TaskStatus.queued)) [
      | inl queued ↦ rw queued (record {
        journal = h.journal;
        tasks = λ i t there.
            let (t', found) = h.tasks i t there in
            found-update child.id i (set_task_status TaskStatus.cancelled now) l'.tasks t'
              (λ r. refl) found;
        executions = h.executions;
        plans = h.plans;
      })
      | inr other ↦
          elim (Bool-cases (child.status among (TaskStatus.running ∷ TaskStatus.cancelling ∷ []))) [
            | inr rests ↦ rw other (rw rests h)
            | inl runs ↦ rw other (
                rw runs (record {
                  journal = h.journal;
                  tasks = λ i t there.
                      let (t', found) = h.tasks i t there in
                      found-update child.id i (set_cancelling now) l'.tasks t' (λ r. refl) found;
                  executions = λ i e there.
                      let (e', found, same, status) = h.executions i e there in
                      let (x, here, task, moved) =
                        stopped-execution child.id now i l'.executions e' found in
                      (
                        x,
                        here,
                        cc (task, same),
                        elim moved [
                          | inr asked ↦ inr asked
                          | inl kept ↦ elim status [
                            | inl s ↦ inl (cc (kept, s))
                            | inr s ↦ inr (cc (kept, s))
                          ]
                        ],
                      );
                  plans = h.plans;
                }))
          ]
    ]

cancel_children-IsWithdrawn :
    (hold : HoldReason) (now : ℕ) (rows : List Task) (l l' : Ledger)
    → IsWithdrawn l l'
    → IsWithdrawn l (cancel_children hold now rows l')
unfolding cancel_children
cancel_children-IsWithdrawn hold now [] l l' h = h
cancel_children-IsWithdrawn hold now (child ∷ rows) l l' h =
    cancel_children-IsWithdrawn hold now rows l (cancel_child hold now child l')
      (cancel_child-IsWithdrawn hold now child l l' h)

revoke_plan-IsWithdrawn :
    (task owner now : ℕ) (p : ChangePlan) (l l' : Ledger)
    → find p.id l.plans ≡ some p
    → IsOpen p.status
    → IsWithdrawn l l'
    → IsWithdrawn l (revoke_plan task owner now p l')
unfolding revoke_plan revoke
revoke_plan-IsWithdrawn task owner now p l l' stored unsettled h =
    let revoked = record l' { plans = update p.id (revoke owner) l'.plans } in
    cancel_children-IsWithdrawn HoldReason.parent_cancelled now
      (select (child_of task p.id revoked) revoked.tasks) l revoked
      (record {
        journal = h.journal;
        tasks = h.tasks;
        executions = h.executions;
        plans = λ i x there.
            let (q, found, same, status) = h.plans i x there in
            let moved = find-update p.id i (revoke owner) l'.plans (λ r. refl) in
            elim (Bool-cases (p.id == i)) [
              | inr other ↦ (q, ground (arith, moved, found, other), same, status)
              | inl here ↦
                  let key : p.id ≡ i = ground (arith, here) in
                  let known : x ≡ p = cc (there, stored, key) in
                  (
                    revoke owner q,
                    ground (arith, moved, found, here),
                    same,
                    inr (
                      refl,
                      elim unsettled [ inl s ↦ inl (cc (s, known)) | inr s ↦ inr (cc (s, known)) ],
                    ),
                  )
            ];
      })

revoke_plans-IsWithdrawn :
    (task owner now : ℕ) (rows : List ChangePlan) (l l' : Ledger)
    → All (λ p. (find p.id l.plans ≡ some p) × (open_plan_of task p ≡ true)) rows
    → IsWithdrawn l l'
    → IsWithdrawn l (revoke_plans task owner now rows l')
unfolding revoke_plans
revoke_plans-IsWithdrawn task owner now [] l l' all h = h
revoke_plans-IsWithdrawn task owner now (p ∷ rows) l l' all h =
    revoke_plans-IsWithdrawn task owner now rows l (revoke_plan task owner now p l') all.1
      (revoke_plan-IsWithdrawn task owner now p l l' all.0.0 (unsettled all.0.1) h)
  where
    unsettled : open_plan_of task p ≡ true → IsOpen p.status
    unsettled h = elim (Bool-cases (p.status is PlanStatus.pending)) [
      | inl pending ↦ inl (plan_status_code-injective _ _ (ground (arith, pending)))
      | inr other ↦
          inr (
            plan_status_code-injective _ _
              (unfold open_plan_of ◌among◌ in ground (arith, h, other)))
    ]

withdraw-IsWithdrawn :
    (task owner now : ℕ) (l : Ledger) → HasPlanKeys l → IsWithdrawn l (withdraw task owner now l)
unfolding withdraw
withdraw-IsWithdrawn task owner now l keys =
    revoke_plans-IsWithdrawn task owner now (select (open_plan_of task) l.plans) l _
      (All-both _ _ (select (open_plan_of task) l.plans)
        (All-selected (λ p. find p.id l.plans ≡ some p) (open_plan_of task) l.plans keys)
        (All-select (open_plan_of task) l.plans))
      (record {
        journal = refl;
        tasks = λ i t there. (t, there);
        executions = λ i e there. (e, there, refl, inl refl);
        plans = λ i p there. (p, there, refl, inl refl);
      })

open-IsNotBegun : (s : PlanStatus) → IsOpen s → IsNotBegun s
open-IsNotBegun s (inl h) = ((λ p. cc (h, p)), (λ p. cc (h, p)))
open-IsNotBegun s (inr h) = ((λ p. cc (h, p)), (λ p. cc (h, p)))

-- What is certain after the withdrawal was so before it.
pub withdraw-IsCertain :
    (task owner now : ℕ) (l : Ledger)
    → HasPlanKeys l
    → IsCertain none task (withdraw task owner now l)
    → IsCertain none task l
withdraw-IsCertain task owner now l keys certain =
    let h = withdraw-IsWithdrawn task owner now l keys in
    record {
      attempts = λ i e spared there same.
          let (e', found, task', status) = h.executions i e there in
          let still = certain.attempts i e' spared found (cc (task', same)) in
          elim status [ inl kept ↦ subst IsStill kept still | inr asked ↦ absurd (still.3 asked) ];
      plans = λ i p there same.
          let (q, found, task', status) = h.plans i p there in
          elim status [
            | inl kept ↦ subst IsNotBegun kept (certain.plans i q found (cc (task', same)))
            | inr (revoked, unsettled) ↦ open-IsNotBegun p.status unsettled
          ];
      journal =
          subst
            (All (λ j.
              (p : ChangePlan)
              → find j.plan l.plans ≡ some p
              → p.task ≡ task
              → IsResolvedStatus p.status))
            h.journal
            (All-map _ _ (withdraw task owner now l).journal
              (λ j resolved p there same.
                let (q, found, task', status) = h.plans j.plan p there in
                let done = resolved q found (cc (task', same)) in
                elim status [
                  | inl kept ↦ subst IsResolvedStatus kept done
                  | inr (revoked, unsettled) ↦
                      absurd (elim done [ inl s ↦ cc (s, revoked) | inr s ↦ cc (s, revoked) ])
                ])
              certain.journal);
    }

pub withdraw-task :
    (task owner now i : ℕ) (l : Ledger) (t : Task)
    → HasPlanKeys l
    → find i l.tasks ≡ some t
    → (t' : Task) × (find i (withdraw task owner now l).tasks ≡ some t')
withdraw-task task owner now i l t keys there =
    (withdraw-IsWithdrawn task owner now l keys).tasks i t there
