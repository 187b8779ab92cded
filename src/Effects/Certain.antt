-- ===== src/Effects/Certain.antt =====
-- What it means that a task has no unresolved effect (`_unresolved_effects` of
-- src/nyanya_agent/operation_store.py).
use nyanya_agent.Prelude.{
  ℕ, ◌≡◌, ◌≢◌, ◌⊎◌, inl, inr, Bool, true, false, Option, none, some, List, [], ◌∷◌, arith, not,
  ◌&&◌, ◌==◌, Bool-cases, find, any_row, any_row-find, find-key, All, All-map,
}
use nyanya_agent.Ledger.{
  Ledger, Execution, ExecutionStatus, ChangePlan, PlanStatus, Journal, execution_keyed, plan_keyed,
  operation_keyed, execution_status_coded, plan_status_coded, execution_status_code,
  plan_status_code, plan_status_code-injective, ◌is◌, ◌among◌,
}
use nyanya_agent.Effects.{
  unresolved_effects, task_in_doubt, resolution_owner, effect_tasks, unresolved_attempt,
  uncertain_statuses, plan_in_doubt, journal_in_doubt, plan_settled,
}

-- Not in flight.
abbrev pub IsStill : ExecutionStatus → Type 0
IsStill s =
    (s ≢ ExecutionStatus.starting)
    × (s ≢ ExecutionStatus.running)
    × (s ≢ ExecutionStatus.stale)
    × (s ≢ ExecutionStatus.cancelling)

abbrev pub IsNotBegun : PlanStatus → Type 0
IsNotBegun s = (s ≢ PlanStatus.applying) × (s ≢ PlanStatus.uncertain)

abbrev pub IsResolvedStatus : PlanStatus → Type 0
IsResolvedStatus s = (s ≡ PlanStatus.applied) ⊎ (s ≡ PlanStatus.reconciled)

-- No attempt of the task but the spared one is in flight, none of its plans is being applied or in
-- doubt, and a plan of it with journaled changes was applied or reconciled.
pub record IsCertain (spared : Option ℕ) (task : ℕ) (l : Ledger) : Type 0 where
  pub attempts :
      (i : ℕ) (e : Execution)
      → spared ≢ some i
      → find i l.executions ≡ some e
      → e.task ≡ task
      → IsStill e.status
  pub plans :
      (i : ℕ) (p : ChangePlan) → find i l.plans ≡ some p → p.task ≡ task → IsNotBegun p.status
  pub journal :
      All
        (λ j.
          (p : ChangePlan)
          → find j.plan l.plans ≡ some p
          → p.task ≡ task
          → IsResolvedStatus p.status)
        l.journal

unresolved-IsStill :
    (owner task : ℕ) (lost : Bool) (l : Ledger) (e : Execution)
    → unresolved_attempt owner task lost l e ≡ false
    → e.task ≡ task
    → IsStill e.status
unfolding unresolved_attempt uncertain_statuses ◌among◌ execution_status_code
unresolved-IsStill owner task true l e h same = (
  (λ s. ground (arith, h, same, s)),
  (λ s. ground (arith, h, same, s)),
  (λ s. ground (arith, h, same, s)),
  (λ s. ground (arith, h, same, s)),
)
unresolved-IsStill owner task false l e h same = (
  (λ s. ground (arith, h, same, s)),
  (λ s. ground (arith, h, same, s)),
  (λ s. ground (arith, h, same, s)),
  (λ s. ground (arith, h, same, s)),
)

plan-IsNotBegun :
    (task : ℕ) (p : ChangePlan) → plan_in_doubt task p ≡ false → p.task ≡ task → IsNotBegun p.status
unfolding plan_in_doubt ◌among◌ plan_status_code
plan-IsNotBegun task p h same =
    ((λ s. ground (arith, h, same, s)), (λ s. ground (arith, h, same, s)))

settled-resolved : (s : PlanStatus) → plan_settled s ≡ true → IsResolvedStatus s
unfolding plan_settled ◌among◌
settled-resolved s h = elim (Bool-cases (s is PlanStatus.applied)) [
  | inl applied ↦ inl (plan_status_code-injective _ _ (ground (arith, applied)))
  | inr other ↦ inr (plan_status_code-injective _ _ (ground (arith, h, other)))
]

no_row :
    {R : Type 0} (p : R → Bool) (rows : List R)
    → any_row p rows ≡ false
    → All (λ r. p r ≡ false) rows
unfolding any_row
no_row p [] h = tt
no_row p (r ∷ rows) h = (ground arith, no_row p rows (ground arith))

journal-resolved :
    (task : ℕ) (l : Ledger) (j : Journal)
    → journal_in_doubt task l j ≡ false
    → (p : ChangePlan) → find j.plan l.plans ≡ some p
    → p.task ≡ task
    → p.id ≡ j.plan
    → IsResolvedStatus p.status
unfolding journal_in_doubt
journal-resolved task l j h p there same key =
    let quiet =
      any_row-find (λ p. p.id == j.plan && p.task == task && not (plan_settled p.status)) j.plan
        l.plans h there in
    settled-resolved p.status (ground (arith, quiet, same, key))

task_in_doubt-IsCertain :
    (owner task : ℕ) (lost : Bool) (l : Ledger)
    → task_in_doubt owner lost l task ≡ false
    → IsCertain none task l
unfolding task_in_doubt
task_in_doubt-IsCertain owner task lost l h = record {
  attempts = λ i e spared there same.
      unresolved-IsStill owner task lost l e
        (any_row-find (unresolved_attempt owner task lost l) i l.executions (ground arith) there)
        same;
  plans = λ i p there same.
      plan-IsNotBegun task p (any_row-find (plan_in_doubt task) i l.plans (ground arith) there)
        same;
  journal =
      All-map (λ j. journal_in_doubt task l j ≡ false) _ l.journal
        (λ j quiet p there same.
          journal-resolved task l j quiet p there same (find-key j.plan l.plans there))
        (no_row (journal_in_doubt task l) l.journal (ground arith));
}

pub unresolved_effects-IsCertain :
    (task : ℕ) (lost : Bool) (l : Ledger)
    → unresolved_effects task lost l ≡ false
    → IsCertain none task l
unfolding unresolved_effects effect_tasks any_row
unresolved_effects-IsCertain task lost l h =
    task_in_doubt-IsCertain (resolution_owner task (find task l.operations)) task lost l
      (ground arith)
