-- ===== src/Examples/Intake.antt =====
-- A run of the intake.
use nyanya_agent.Prelude.{
  ℕ, none, some, [], ◌∷◌, ◌≡◌, ◌⊎◌, refl, Result, ok, err, find, insert, any_row, select,
}
use nyanya_agent.Ledger.{
  Ledger, Task, TaskStatus, OperationKind, ChangePlan, PlanStatus, task_keyed, operation_keyed,
  worker_keyed, plan_keyed, plan_status_code,
}
use nyanya_agent.Effects.{is_apply}
use nyanya_agent.Tasks.{project_exists}
use nyanya_agent.Operations.{existing_apply, worker_ready, apply_tasks, is_apply_of}
use nyanya_agent.Operations.Intake.{
  Intake, submit_conn, prior_task, admit_kind, apply_parent, admit, write_task, intake_row,
  operation_row, bind_intake,
}
use nyanya_agent.Operations.Admission.{apply-IsAdmitted, IsAdmitted}
use nyanya_agent.Examples.{waiting, a_task}

abbrev agreed_plan : ChangePlan
agreed_plan = record {
  id = 41;
  task = 1;
  owner = 5;
  workspace = 3;
  plan_hash = 99;
  changes = [];
  status = PlanStatus.approved;
  expires_at = 1000;
  decided_by = some 5;
  created_at = 10;
}

abbrev agreed : Ledger
agreed = record waiting {
  tasks = a_task TaskStatus.awaiting_approval none ∷ [];
  plans = agreed_plan ∷ [];
}

abbrev an_apply : Intake
an_apply = record {
  task = 2;
  session = 60;
  spec = record { kind = OperationKind.apply; workspace = 3; plan_id = 41; draft_id = none };
  owner = 5;
  generation = 7;
  root = 3;
  source_request = none;
  project = none;
  parent = none;
  conversation = none;
}

abbrev submitted : Result (ℕ × Ledger) → Ledger
submitted (ok (t, l)) = l
submitted (err e) = agreed

abbrev admitted : Ledger
admitted = submitted (submit_conn an_apply 20 agreed)

submits : submit_conn an_apply 20 agreed ≡ ok (2, admitted)
unfolding submit_conn prior_task admit_kind apply_parent admit write_task insert find is_apply
    project_exists bind_intake existing_apply worker_ready apply_tasks is_apply_of any_row select
    plan_status_code intake_row operation_row
submits = refl

apply-IsAdmitted_example :
    ((known : Task) × (existing_apply 41 5 3 agreed ≡ ok (some known))
      × (known.id ≡ 2)
      × (admitted ≡ agreed))
    ⊎ IsAdmitted an_apply 2 agreed admitted
apply-IsAdmitted_example = apply-IsAdmitted an_apply 20 agreed refl refl submits
