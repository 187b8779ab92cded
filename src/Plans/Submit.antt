-- ===== src/Plans/Submit.antt =====
-- `approve_and_submit_apply` of src/nyanya_agent/operation_store.py: the approval of a plan and the
-- intake of its apply in one transaction.
use nyanya_agent.Prelude.{
  ℕ, Bool, true, false, not, ◌||◌, none, some, ◌==◌, Result, ok, ◌>>=◌, ◌>>◌, raise_if, require,
  safe_operation, find,
}
use nyanya_agent.Ledger.{Ledger, OperationSpec, OperationKind, plan_keyed}
use nyanya_agent.Operations.{Workspaces, check_workspace, existing_apply}
use nyanya_agent.Operations.Intake.{Intake, submit_conn}
use nyanya_agent.Plans.{approve_plan}

-- `OperationSpec(kind="apply", ...)`
unfoldable pub apply_spec : ℕ → ℕ → OperationSpec
apply_spec plan root = record {
  kind = OperationKind.apply;
  workspace = root;
  plan_id = plan;
  draft_id = none;
}

unfoldable pub apply_intake : (task session plan owner generation root : ℕ) → Intake
apply_intake task session plan owner generation root = record {
  task = task;
  session = session;
  spec = apply_spec plan root;
  owner = owner;
  generation = generation;
  root = root;
  source_request = none;
  project = none;
  parent = none;
  conversation = none;
}

-- The apply's task, whether it is new, and the ledger; `task` and `session` are new identifiers.
unfoldable pub approve_and_submit_apply :
    Workspaces
    → (task session plan owner plan_hash generation now : ℕ) → Ledger
    → Result ((ℕ × Bool) × Ledger)
approve_and_submit_apply w task session plan owner plan_hash generation now l = do
  p ← require (find plan l.plans) safe_operation
  raise_if (not (p.owner == owner) || not (p.plan_hash == plan_hash)) safe_operation
  root ← check_workspace w p.workspace owner
  existing ← existing_apply plan owner root l
  elim existing [
    | some t ↦ ok ((t.id, false), l)
    | none ↦ (do
      approved ← approve_plan plan owner plan_hash now l
      submitted ← submit_conn (apply_intake task session plan owner generation root) now approved
      ok ((submitted.0, true), submitted.1))
  ]
