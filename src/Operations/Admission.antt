-- ===== src/Operations/Admission.antt =====
-- When `_submit_conn` of src/nyanya_agent/operation_store.py admits an apply.
use nyanya_agent.Prelude.{
  ℕ, ◌≡◌, ◌⊎◌, Option, none, some, inl, inr, arith, Option-cases, Result-cases, >>=-eq-ok, ◌>>=◌,
  ok, find, insert, find-insert,
}
use nyanya_agent.Ledger.{
  Ledger, Task, OperationKind, ChangePlan, PlanStatus, operation_keyed, plan_keyed,
  plan_status_coded, plan_status_code-injective,
}
use nyanya_agent.Effects.{is_apply}
use nyanya_agent.Operations.{existing_apply}
use nyanya_agent.Operations.Intake.{
  Intake, submit_conn, admit_kind, admit, apply_parent, write_task, bind_intake, operation_row,
  prior_task,
}

-- The approved plan under which an apply is admitted as a new task.
pub record IsAdmitted (n : Intake) (task : ℕ) (l l' : Ledger) : Type 0 where
  pub plan : ChangePlan
  pub found : find n.spec.plan_id l.plans ≡ some plan
  pub owned : plan.owner ≡ n.owner
  pub workspace : plan.workspace ≡ n.root
  pub approved : plan.status ≡ PlanStatus.approved
  pub first : existing_apply n.spec.plan_id n.owner n.root l ≡ ok none
  pub operation : find task l'.operations ≡ some (operation_row n task (some plan.task))

admit-operation :
    (n : Intake) (task : ℕ) (parent : Option ℕ) (now : ℕ) (l : Ledger) {t : ℕ} {l' : Ledger}
    → n.spec.kind ≡ OperationKind.apply
    → admit n task parent now l ≡ ok (t, l')
    → (t ≡ task) × (find task l'.operations ≡ some (operation_row n task parent))
unfolding admit bind_intake is_apply operation_row
admit-operation n task parent now l {t} {l'} kind h =
    let (tasks, written, rest) = >>=-eq-ok (write_task n task now l) _ h in
    let (operations, added, last) =
      >>=-eq-ok (insert (operation_row n task parent) l.operations) _ rest in
    let row = find-insert task (operation_row n task parent) l.operations added in
    (ground (arith, last, kind), ground (arith, last, kind, row))

admit_new :
    (n : Intake) (task now : ℕ) (l : Ledger) {t : ℕ} {l' : Ledger}
    → n.spec.kind ≡ OperationKind.apply
    → existing_apply n.spec.plan_id n.owner n.root l ≡ ok none
    → (apply_parent n l >>= λ parent. admit n task (some parent) now l) ≡ ok (t, l')
    → IsAdmitted n t l l'
admit_new n task now l {t} {l'} kind none_yet h =
    let (parent, allowed, done) = >>=-eq-ok (apply_parent n l) _ h in
    let row = admit-operation n task (some parent) now l kind done in
    elim (Option-cases (find n.spec.plan_id l.plans)) [
      | inl missing ↦ absurd (unfold apply_parent in ground (arith, missing, allowed))
      | inr (p, there) ↦
          let same : parent ≡ p.task = unfold apply_parent in ground (arith, there, allowed) in
          record {
            plan = p;
            found = there;
            owned = unfold apply_parent in ground (arith, there, allowed);
            workspace = unfold apply_parent in ground (arith, there, allowed);
            approved =
                plan_status_code-injective _ _
                  (unfold apply_parent in ground (arith, there, allowed));
            first = none_yet;
            operation = ground (arith, row, same);
          }
    ]

-- An apply without an intake request either finds the plan's one apply task, which the plan's owner
-- has there, and writes nothing, or is admitted as that plan's first apply: under the owner's approved
-- plan of that workspace, as a child of the plan's task.
pub apply-IsAdmitted :
    (n : Intake) (now : ℕ) (l : Ledger) {t : ℕ} {l' : Ledger}
    → n.spec.kind ≡ OperationKind.apply
    → n.source_request ≡ none
    → submit_conn n now l ≡ ok (t, l')
    → ((known : Task) × (existing_apply n.spec.plan_id n.owner n.root l ≡ ok (some known))
        × (known.id ≡ t)
        × (l' ≡ l))
      ⊎ IsAdmitted n t l l'
apply-IsAdmitted n now l {t} {l'} kind direct h =
    let admitted : admit_kind n n.task now l ≡ ok (t, l') =
      unfold submit_conn prior_task in ground (arith, direct, h) in
    elim (Result-cases (existing_apply n.spec.plan_id n.owner n.root l)) [
      | inr (x, refused) ↦
          absurd (unfold admit_kind is_apply in ground (arith, kind, refused, admitted))
      | inl (known, looked) ↦ elim (Option-cases known) [
        | inr (k, some_known) ↦ inl (
          k,
          ground (arith, looked, some_known),
          unfold admit_kind is_apply in ground (arith, kind, looked, some_known, admitted),
          unfold admit_kind is_apply in ground (arith, kind, looked, some_known, admitted),
        )
        | inl none_known ↦ inr (
            admit_new n n.task now l kind (ground (arith, looked, none_known))
              (unfold admit_kind is_apply in ground (arith, kind, looked, none_known, admitted)))
      ]
    ]
