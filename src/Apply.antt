-- ===== src/Apply.antt =====
-- The application of a reviewed plan's file changes: `apply` of
-- src/nyanya_agent/reviewed_changes.py. A file is its content under its path's number; the temporary
-- files, whose names hold the plan's random number, are apart. Directories, links and modes are left
-- out.
mod Checks
pub mod Follows
pub mod Leftovers
pub mod Crash
pub mod Written
pub mod Applied
pub mod Resolution
pub mod Resolve
pub mod Observed
pub mod Resolved
unfoldable pub use Checks.*
use nyanya_agent.Prelude.{
  ℕ, zero, suc, ◌+◌, Bool, true, false, not, ◌&&◌, ◌||◌, Option, none, some, List, [], ◌∷◌, ◌++◌,
  if◌then◌else◌, ◌==◌, leb, is_id, is_some, Result, ok, err, Error, safe_operation,
  permission_error, runtime_error, integrity_error, raise_if, require, find, update, update_where,
  any_row,
}
use nyanya_agent.Prelude.Steps.{Run, ◌>>=◌, ◌>>◌, return, raise, read, try_except}
use nyanya_agent.Paths.{Text}
use nyanya_agent.Messages.{take}
use nyanya_agent.Ledger.{
  Ledger, Task, TaskStatus, Execution, Claim, Operation, Change, ChangeAction, ChangePlan,
  PlanStatus, Journal, Draft, DraftStatus, task_keyed, plan_keyed, task_status_coded,
  plan_status_coded, ◌is◌, ◌among◌, append_event, event, plan_applied,
}
use nyanya_agent.WorkQueue.{ClaimRecord}
use nyanya_agent.Operations.{Workspaces, check_workspace, require_apply_ownership}
use nyanya_agent.Plans.{require_plan_conn, is_ready}

module _ (o : Outside) where
  module _ (plan : ChangePlan) (owner : ℕ) (claim : Option ClaimRecord) where
    -- One transaction after those of others.
    unfoldable pub commit : (ℕ → Ledger → Result Ledger) → Run World (Unit {0})
    commit f w =
        let l = o.others w.tick w.ledger in
        let later = record w { ledger = l; tick = w.tick + 1 } in
        elim (f w.tick l) [ err e ↦ (err e, later) | ok l' ↦ (ok tt, record later { ledger = l' }) ]

    -- `mutation_guard`
    unfoldable pub guard : Run World (Unit {0})
    guard = commit (check_applying o plan owner claim)

    unfoldable pub check_before : Change → Run World (Unit {0})
    check_before c w = (raise_if (not (same_before o c w.disk)) safe_operation, w)

    -- A file's new content, or none for its removal.
    unfoldable pub put : ℕ → Option Text → Run World (Unit {0})
    put path value w = (ok tt, record w { disk = set_file path value w.disk })

    -- `write_content` into a created file, whose rounds are one here.
    unfoldable pub write_until : Option ℕ → Change → Run World (Unit {0})
    write_until none c = guard >> (put c.path (some c.content) >> guard)
    write_until (some k) c = guard >> (put c.path (some (take k c.content)) >> raise runtime_error)

    unfoldable pub put_temporary : ℕ → Option Text → Run World (Unit {0})
    put_temporary n value w = (ok tt, record w { temporary = set_file n value w.temporary })

    -- `O_EXCL`
    unfoldable pub create_temporary : ℕ → Run World (Unit {0})
    create_temporary n w =
        if is_some (w.temporary n)
        then (err runtime_error, w)
        else (ok tt, record w { temporary = set_file n (some []) w.temporary })

    -- `write_content` into a temporary file, in one round
    unfoldable pub write_temporary : Option ℕ → ℕ → Change → Run World (Unit {0})
    write_temporary none n c = guard >> (put_temporary n (some c.content) >> guard)
    write_temporary (some k) n c =
        guard >> (put_temporary n (some (take k c.content)) >> raise runtime_error)

    -- `except (FileNotFoundError, SafeOperationError): pass`
    unfoldable pub ignore_safe : Error → Run World (Unit {0})
    ignore_safe safe_operation = return tt
    ignore_safe e = raise e

    -- `finally:` the removal of the temporary file, which stays where the ownership is lost
    unfoldable pub cleanup : ℕ → Run World (Unit {0})
    cleanup n = try_except (guard >> put_temporary n none) ignore_safe

    -- `os.replace`
    unfoldable pub move_temporary : ℕ → Change → Run World (Unit {0})
    move_temporary n c = put c.path (some c.content) >> put_temporary n none

    unfoldable pub delete_file : Change → Run World (Unit {0})
    delete_file c = guard >> (check_before c >> put c.path none)

    -- `O_EXCL`: a file that is there raises.
    unfoldable pub create_exclusively : Change → Run World (Unit {0})
    create_exclusively c w =
        if is_some (w.disk c.path)
        then (err runtime_error, w)
        else (ok tt, record w { disk = set_file c.path (some []) w.disk })

    unfoldable pub create_file : ℕ → Change → Run World (Unit {0})
    create_file n c = guard >> (create_exclusively c >> write_until (o.stops n) c)

    unfoldable pub replace_file : ℕ → Change → Run World (Unit {0})
    replace_file n c =
        guard
        >> (write_temporary (o.stops n) n c >> (guard >> (check_before c >> move_temporary n c)))

    unfoldable pub modify_file : ℕ → Change → Run World (Unit {0})
    modify_file n c =
        guard
        >> (create_temporary n
            >> (try_except (replace_file n c) (λ e. cleanup n >> raise e) >> cleanup n))

    unfoldable pub change_as : ChangeAction → ℕ → Change → Run World (Unit {0})
    change_as ChangeAction.create n c = create_file n c
    change_as ChangeAction.modify n c = modify_file n c
    change_as ChangeAction.delete n c = delete_file c

    unfoldable pub change_file : ℕ → Change → Run World (Unit {0})
    change_file n c = change_as c.action n c

    unfoldable pub set_applied : Journal → Journal
    set_applied j = record j { applied = true }

    unfoldable pub check_cancelled : Run World (Unit {0})
    check_cancelled w = (raise_if (o.cancelled w.tick) safe_operation, w)

    -- One round of the loop over the changes.
    unfoldable pub apply_change : ℕ → Change → Run World (Unit {0})
    apply_change n c =
        check_cancelled
        >> (check_before c
            >> (change_file n c
                >> (guard
                    >> commit (λ tick l. ok (record l {
                      journal = update_where (journal_of plan.id n) set_applied l.journal;
                    })))))

    unfoldable pub apply_changes : ℕ → List Change → Run World (Unit {0})
    apply_changes n [] = return tt
    apply_changes n (c ∷ cs) = apply_change n c >> apply_changes (n + 1) cs

    -- Under the workspace's lock.
    unfoldable pub apply_locked : Run World (Unit {0})
    apply_locked w =
        (commit (prepare o plan owner claim w.disk)
            >> try_except (apply_changes 0 plan.changes >> commit (finish o plan owner claim))
                (λ e. commit (mark_uncertain o plan owner claim) >> raise e))
          w

  -- `get_plan`
  unfoldable pub get_plan : ℕ → ℕ → World → Option ChangePlan
  get_plan id owner w = elim (find id w.ledger.plans) [
    | none ↦ none
    | some p ↦ if p.owner == owner then some p else none
  ]

  unfoldable pub check_root : ChangePlan → ℕ → Run World ℕ
  check_root plan owner w = (check_workspace o.workspaces plan.workspace owner, w)

  -- `workspace_lock`
  unfoldable pub take_lock : Run World (Unit {0})
  take_lock w = (raise_if (not o.lock_granted) runtime_error, w)

  unfoldable pub apply_plan : ℕ → Option ClaimRecord → ChangePlan → Run World (Unit {0})
  apply_plan owner claim plan =
      check_root plan owner >>= λ root. take_lock >> apply_locked plan owner claim

  unfoldable pub apply : ℕ → ℕ → Option ClaimRecord → Run World (Unit {0})
  apply id owner claim = do
    plan ← read (get_plan id owner) permission_error
    apply_plan owner claim plan
