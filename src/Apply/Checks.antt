-- ===== src/Apply/Checks.antt =====
-- What `apply` of src/nyanya_agent/reviewed_changes.py checks and writes in the ledger.
use nyanya_agent.Prelude.{
  ℕ, ◌+◌, Bool, true, false, not, ◌&&◌, Option, none, some, List, [], ◌∷◌, ◌++◌, if◌then◌else◌,
  ◌==◌, leb, is_id, is_some, Result, ok, safe_operation, runtime_error, integrity_error, raise_if,
  require, find, update, update_where, any_row, ◌>>=◌, ◌>>◌,
}
use nyanya_agent.Paths.{Text}
use nyanya_agent.Ledger.{
  Ledger, Task, TaskStatus, Change, ChangeAction, ChangePlan, PlanStatus, Journal, Draft,
  DraftStatus, task_keyed, plan_keyed, task_status_coded, plan_status_coded, ◌is◌, ◌among◌,
  append_event, event, plan_applied,
}
use nyanya_agent.WorkQueue.{ClaimRecord}
use nyanya_agent.Operations.{Workspaces, require_apply_ownership}
use nyanya_agent.Plans.{require_plan_conn, is_ready}

abbrev pub Disk : Type 0
Disk = ℕ → Option Text

-- `temporary` holds, for each change of the plan by its number, the file `.nyanya-<plan>-<number>` beside
-- the change's own; `tick` counts the transactions.
pub record World : Type 0 where
  pub ledger : Ledger
  pub disk : Disk
  pub temporary : Disk
  pub tick : ℕ

-- What is outside: SHA-256 of a content and of a plan's JSON text, the clock and the cancel event at
-- a transaction, what other processes commit before it, where the write of the n-th change's content
-- stops (none: it does not), the name "operation", and whether the workspace's lock is granted.
pub record Outside : Type 0 where
  pub sha256 : Text → ℕ
  pub plan_digest : List Change → ℕ
  pub clock : ℕ → ℕ
  pub cancelled : ℕ → Bool
  pub others : ℕ → Ledger → Ledger
  pub stops : ℕ → Option ℕ
  pub adapter : ℕ
  pub lock_granted : Bool
  pub workspaces : Workspaces

unfoldable pub hash_eq : Option ℕ → Option ℕ → Bool
hash_eq none none = true
hash_eq none (some b) = false
hash_eq (some a) none = false
hash_eq (some a) (some b) = a == b

unfoldable pub set_file : ℕ → Option Text → Disk → Disk
set_file path value disk p = if path == p then value else disk p

unfoldable pub appliable_parent : Task → ℕ → Bool
appliable_parent t owner =
    t.requested_by == owner
    && t.status among (TaskStatus.queued ∷ TaskStatus.running ∷ TaskStatus.awaiting_approval ∷ [])

-- A task that was never started and has no apply.
unfoldable pub never_started : Task → Ledger → Bool
never_started t l =
    t.status is TaskStatus.queued
    && not (is_some t.current_execution)
    && not (any_row (λ e. e.task == t.id) l.executions)
    && not (any_row (λ c. c.task == t.id) l.claims)
    && not (any_row (λ o. is_id o.parent t.id) l.operations)

unfoldable pub current_plan : PlanStatus → ℕ → ChangePlan → Bool
current_plan expected now p = p.status is expected && not (leb p.expires_at now)

-- An earlier apply in this workspace that has to be reconciled first.
unfoldable pub unreconciled : ChangePlan → ChangePlan → Bool
unreconciled plan other =
    other.workspace == plan.workspace
    && other.status among (PlanStatus.applying ∷ PlanStatus.uncertain ∷ [])
    && not (other.id == plan.id)

unfoldable pub journal_of : ℕ → ℕ → Journal → Bool
journal_of plan ordinal j = j.plan == plan && j.ordinal == ordinal

unfoldable pub set_plan_status : PlanStatus → ChangePlan → ChangePlan
set_plan_status status p = record p { status = status }

unfoldable pub ready_draft_of : ℕ → Draft → Bool
ready_draft_of plan d = is_id d.plan plan && is_ready d.status

unfoldable pub content_after : ChangeAction → Text → Option Text
content_after ChangeAction.create content = some content
content_after ChangeAction.modify content = some content
content_after ChangeAction.delete content = none

-- What a change makes of its file.
abbrev pub planned : Change → Option Text
planned c = content_after c.action c.content

module _ (o : Outside) where
  -- `digest`
  unfoldable pub digest : Option Text → Option ℕ
  digest none = none
  digest (some t) = some (o.sha256 t)

  unfoldable pub same_before : Change → Disk → Bool
  same_before c disk = hash_eq (digest (disk c.path)) c.before_hash

  module _ (plan : ChangePlan) (owner : ℕ) (claim : Option ClaimRecord) where
    unfoldable pub check_claim : Task → ℕ → Ledger → Result (Unit {0})
    check_claim t tick l = elim claim [
      | none ↦ raise_if (not (never_started t l)) safe_operation
      | some r ↦
          require_apply_ownership r.task r.execution r.worker plan owner o.adapter (o.clock tick) l
    ]

    unfoldable pub require_eligible : PlanStatus → ℕ → Ledger → Result (Unit {0})
    require_eligible expected tick l = do
      require_plan_conn plan.id l
      raise_if (o.cancelled tick) safe_operation
      parent ← require (find plan.task l.tasks) safe_operation
      raise_if (not (appliable_parent parent owner)) safe_operation
      check_claim parent tick l
      current ← require (find plan.id l.plans) runtime_error
      raise_if (not (current_plan expected (o.clock tick) current)) safe_operation

    unfoldable pub journal_row : ℕ → Change → Disk → Journal
    journal_row n c disk = record {
      plan = plan.id;
      ordinal = n;
      path = c.path;
      before_hash = c.before_hash;
      after_hash = c.after_hash;
      before_content = disk c.path;
      applied = false;
    }

    -- The journal of all preimages, before the first mutation.
    unfoldable pub write_journal : ℕ → List Change → Disk → List Journal → Result (List Journal)
    write_journal n [] disk journal = ok journal
    write_journal n (c ∷ cs) disk journal =
        let rest = write_journal (n + 1) cs disk (journal ++ journal_row n c disk ∷ []) in
        (do
          raise_if (not (same_before c disk)) safe_operation
          raise_if (any_row (journal_of plan.id n) journal) integrity_error
          rest)

    unfoldable pub prepare : Disk → ℕ → Ledger → Result Ledger
    prepare disk tick l = do
      require_eligible PlanStatus.approved tick l
      raise_if (not (o.plan_digest plan.changes == plan.plan_hash)) safe_operation
      raise_if (any_row (unreconciled plan) l.plans) safe_operation
      journal ← write_journal 0 plan.changes disk l.journal
      ok (record l {
        journal = journal;
        plans = update plan.id (set_plan_status PlanStatus.applying) l.plans;
      })

    unfoldable pub set_draft_applied : Draft → Draft
    set_draft_applied d = record d { status = DraftStatus.applied }

    unfoldable pub finish : ℕ → Ledger → Result Ledger
    finish tick l = do
      require_eligible PlanStatus.applying tick l
      append_event (record (event plan_applied (some plan.task) none) { plan = some plan.id })
          (record l {
            plans = update plan.id (set_plan_status PlanStatus.applied) l.plans;
            drafts = update_where (ready_draft_of plan.id) set_draft_applied l.drafts;
          })

    unfoldable pub mark_uncertain : ℕ → Ledger → Result Ledger
    mark_uncertain tick l =
        ok (record l { plans = update plan.id (set_plan_status PlanStatus.uncertain) l.plans })

    -- The transaction of `mutation_guard`
    unfoldable pub check_applying : ℕ → Ledger → Result Ledger
    check_applying tick l = do require_eligible PlanStatus.applying tick l; ok l
