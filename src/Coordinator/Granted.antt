-- ===== src/Coordinator/Granted.antt =====
-- What the tests of `check_approval` of src/nyanya_agent/approval_contract.py ask of an approval.
use nyanya_agent.Prelude.{ℕ, ◌≡◌, ◌<◌, refl, true, false, Option, none, some, arith, is_id, is_some}
use nyanya_agent.Ledger.{Approval, ApprovalStatus, Action, approval_status_code-injective}
use nyanya_agent.Approvals.{usable, is_workspace_write, expired_at, decided_as_authorized}

-- An approval that lets an execution of this task run a command of this scope at this time.
pub record IsGranted (task scope_hash now : ℕ) (a : Approval) : Type 0 where
  pub approved : a.status ≡ ApprovalStatus.approved
  pub task_of : a.task ≡ some task
  pub scope : a.scope_hash ≡ some scope_hash
  pub action : a.action ≡ Action.workspace_write
  pub unexpired : (end : ℕ) × (a.expires_at ≡ some end) × (now < end)
  pub decided : (actor : ℕ) × (a.authorized_actor ≡ some actor) × (a.decided_by ≡ some actor)

id-some : (x : Option ℕ) (n : ℕ) → is_id x n ≡ true → x ≡ some n
id-some none n h = cc h
id-some (some m) n h = ground (arith, h)

write-action :
    (action : Action) → is_workspace_write action ≡ true → action ≡ Action.workspace_write
unfolding is_workspace_write
write-action Action.workspace_write h = refl
write-action Action.discord_upload_pii h = cc h
write-action Action.feedback_review h = cc h
write-action Action.draft_read_scope h = cc h
write-action Action.other h = cc h

expiry :
    (e : Option ℕ) (now : ℕ)
    → is_some e ≡ true
    → expired_at e now ≡ false
    → (end : ℕ) × (e ≡ some end) × (now < end)
unfolding expired_at
expiry none now there h = cc there
expiry (some end) now there h = (end, refl, ground arith)

decision :
    (authorized decided_by : Option ℕ)
    → decided_as_authorized authorized decided_by ≡ true
    → (actor : ℕ) × (authorized ≡ some actor) × (decided_by ≡ some actor)
unfolding decided_as_authorized
decision none decided_by h = cc h
decision (some actor) decided_by h = (actor, refl, id-some decided_by actor h)

pub usable-IsGranted :
    (task scope_hash now : ℕ) (a : Approval)
    → usable task scope_hash now a ≡ true
    → IsGranted task scope_hash now a
unfolding usable
usable-IsGranted task scope_hash now a h = record {
  approved = approval_status_code-injective _ _ (ground arith);
  task_of = id-some a.task task (ground arith);
  scope = id-some a.scope_hash scope_hash (ground arith);
  action = write-action a.action (ground arith);
  unexpired = expiry a.expires_at now (ground arith) (ground arith);
  decided = decision a.authorized_actor a.decided_by (ground arith);
}
