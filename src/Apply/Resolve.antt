-- ===== src/Apply/Resolve.antt =====
-- What follows an interrupted application: `reconcile`, `plan_file` and `resolve` of
-- src/nyanya_agent/reviewed_changes.py, without the returned texts.
use nyanya_agent.Prelude.{
  ℕ, Option, none, some, List, ◌==◌, not, ok, safe_operation, permission_error, raise_if, first,
}
use nyanya_agent.Prelude.Steps.{Run, ◌>>=◌, ◌>>◌, return, read}
use nyanya_agent.Paths.{Text}
use nyanya_agent.Ledger.{Change, ChangePlan, append_event, event, plan_reconciled}
use nyanya_agent.Apply.{World, Outside, commit, get_plan, check_root, take_lock}
use nyanya_agent.Apply.Resolution.{Evidence, observe, all_after, resolve_conn}

unfoldable pub change_of : ℕ → ChangePlan → World → Option Change
change_of name plan w = first (λ c. c.path == name) plan.changes

-- `dumps` is `json.dumps` of the evidence.
module _ (o : Outside) (dumps : List Evidence → Text) where
  unfoldable pub evidence_hash : List Evidence → ℕ
  evidence_hash evidence = o.sha256 (dumps evidence)

  unfoldable pub observe_disk : ChangePlan → Run World (List Evidence)
  observe_disk plan w = (ok (observe o w.disk plan.changes), w)

  unfoldable pub check_seen : ℕ → List Evidence → Run World (Unit {0})
  check_seen observed_hash evidence w =
      (raise_if (not (evidence_hash evidence == observed_hash)) safe_operation, w)

  unfoldable pub reconcile_plan : ℕ → ChangePlan → Run World (List Evidence)
  reconcile_plan owner plan = check_root o plan owner >>= λ root.
      take_lock o
      >> (observe_disk plan >>= λ evidence.
          commit o plan owner none
            (λ tick l. append_event (event plan_reconciled (some plan.task) none) l)
          >> return evidence)

  unfoldable pub reconcile : ℕ → ℕ → Run World (List Evidence)
  reconcile id owner = do
    plan ← read (get_plan o id owner) permission_error
    reconcile_plan owner plan

  unfoldable pub plan_file : ℕ → ℕ → ℕ → Run World Change
  plan_file id owner name = do
    plan ← read (get_plan o id owner) permission_error
    check_root o plan owner >>= λ root. read (change_of name plan) safe_operation

  unfoldable pub resolve_plan : ℕ → ℕ → ChangePlan → Run World (Unit {0})
  resolve_plan owner observed_hash plan = check_root o plan owner >>= λ root.
      take_lock o
      >> (observe_disk plan >>= λ evidence.
          check_seen observed_hash evidence
          >> commit o plan owner none
              (λ tick l. resolve_conn plan (all_after evidence) (o.clock tick) l))

  unfoldable pub resolve : ℕ → ℕ → ℕ → Run World (Unit {0})
  resolve id owner observed_hash = do
    plan ← read (get_plan o id owner) permission_error
    resolve_plan owner observed_hash plan
