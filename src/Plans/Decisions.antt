-- ===== src/Plans/Decisions.antt =====
-- What an approval of a plan needs, and the plan's row after it
-- (src/nyanya_agent/reviewed_changes.py).
use nyanya_agent.Prelude.{
  ℕ, ◌<◌, ◌≡◌, refl, true, some, inl, inr, arith, Option-cases, ok, find, find-update,
}
use nyanya_agent.Ledger.{Ledger, ChangePlan, PlanStatus, plan_keyed, task_keyed, plan_status_coded}
use nyanya_agent.Plans.{
  approve_plan, check_approve, require_plan_conn, decidable_row, decidable_plan, decide_plan,
  open_parent, plan_draft, latest_plan,
}

-- The conditions of an approval, and the plan's row after it.
pub record IsApproval (plan owner plan_hash now : ℕ) (l l' : Ledger) : Type 0 where
  pub row : ChangePlan
  pub found : find plan l.plans ≡ some row
  pub owned : row.owner ≡ owner
  pub waiting : decidable_plan row.status ≡ true
  pub unexpired : now < row.expires_at
  pub same_revision : row.plan_hash ≡ plan_hash
  pub parent : open_parent (find row.task l.tasks) ≡ true
  pub draft : latest_plan plan (plan_draft plan l) ≡ true
  pub after : find plan l'.plans ≡ some (decide_plan PlanStatus.approved owner row)

-- A plan is approved only by its owner, while it is pending or approved, before it expires, for the
-- exact hash that was shown, while its task is queued, running or awaiting approval and, where it
-- belongs to a draft, as the draft's latest plan; then it is stored as approved.
pub approve_plan-IsApproval :
    (plan owner plan_hash now : ℕ) (l : Ledger) {l' : Ledger}
    → approve_plan plan owner plan_hash now l ≡ ok l'
    → IsApproval plan owner plan_hash now l l'
approve_plan-IsApproval plan owner plan_hash now l {l'} h =
    elim (Option-cases (find plan l.plans)) [
      | inl missing ↦ absurd (
          unfold approve_plan check_approve require_plan_conn decidable_row in
          ground (arith, missing))
      | inr (p, there) ↦ record {
        row = p;
        found = there;
        owned =
            unfold approve_plan check_approve require_plan_conn decidable_row in
            ground (arith, there);
        waiting =
            unfold approve_plan check_approve require_plan_conn decidable_row in
            ground (arith, there);
        unexpired =
            unfold approve_plan check_approve require_plan_conn decidable_row in
            ground (arith, there);
        same_revision =
            unfold approve_plan check_approve require_plan_conn decidable_row in
            ground (arith, there);
        parent =
            unfold approve_plan check_approve require_plan_conn decidable_row in
            ground (arith, there);
        draft =
            unfold approve_plan check_approve require_plan_conn decidable_row in
            ground (arith, there);
        after =
            unfold approve_plan check_approve require_plan_conn decidable_row decide_plan in
            ground (
              arith,
              there,
              find-update plan plan
                  (λ r. record r { status = PlanStatus.approved; decided_by = some owner }) l.plans
                  (λ r. refl),
            );
      }
    ]
