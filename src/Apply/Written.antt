-- ===== src/Apply/Written.antt =====
-- About the files after an application that returns (`apply` of
-- src/nyanya_agent/reviewed_changes.py).
use mathlib.Core.Path.{subst}
use nyanya_agent.Prelude.{
  ℕ, ◌+◌, ◌≡◌, ◌≢◌, sym, ap, ◌∙◌, Option, none, some, inl, inr, List, [], ◌∷◌, arith, Result, ok,
  Error, runtime_error, All,
}
use nyanya_agent.Prelude.Steps.{
  Run, ◌>>◌, return, raise, try_except, >>=-runs, >>-runs, try_except-runs,
}
use nyanya_agent.Paths.{Text}
use nyanya_agent.Messages.{take}
use nyanya_agent.Ledger.{Ledger, Change, ChangeAction, ChangePlan}
use nyanya_agent.WorkQueue.{ClaimRecord}
use nyanya_agent.Apply.{
  World, Outside, set_file, content_after, planned, commit, guard, check_before, put, write_until,
  put_temporary, create_temporary, move_temporary, write_temporary, cleanup, delete_file,
  create_exclusively, create_file, replace_file, modify_file, change_as, change_file,
  check_cancelled, apply_change, apply_changes, apply_locked, check_root, take_lock, apply_plan,
  apply, get_plan, prepare, finish, check_applying,
}
use nyanya_agent.Apply.Follows.{AllListed-self}
use nyanya_agent.Apply.Crash.{apply_change-Keeps, apply-plan, cleanup-Keeps}
use nyanya_agent.Apply.Applied.{commit-disk, give_up, give_up-raises, changes_then_finish}

module _ (o : Outside) (plan : ChangePlan) (owner : ℕ) (claim : Option ClaimRecord) where
  committed-disk :
      (f : ℕ → Ledger → Result Ledger) (w w' : World)
      → commit o plan owner claim f w ≡ (ok tt, w')
      → w'.disk ≡ w.disk
  committed-disk f w w' h = sym (ap (λ r. r.1.disk) h) ∙ commit-disk o owner claim plan f w

  guarded-disk : (w w' : World) → guard o plan owner claim w ≡ (ok tt, w') → w'.disk ≡ w.disk
  unfolding guard
  guarded-disk w w' h = committed-disk (check_applying o plan owner claim) w w' h

  checked-disk :
      (c : Change) (w w' : World)
      → check_before o plan owner claim c w ≡ (ok tt, w')
      → w'.disk ≡ w.disk
  unfolding check_before
  checked-disk c w w' h = ground (arith, h)

  put-disk :
      (path : ℕ) (file : Option Text) (w w' : World)
      → put o plan owner claim path file w ≡ (ok tt, w')
      → w'.disk path ≡ file
  unfolding put set_file
  put-disk path file w w' h =
      let same : w'.disk ≡ set_file path file w.disk = ground (arith, h) in
      ap (λ d. d path) same ∙ ground arith

  delete-writes :
      (c : Change) (w w' : World)
      → delete_file o plan owner claim c w ≡ (ok tt, w')
      → w'.disk c.path ≡ none
  unfolding delete_file
  delete-writes c w w' h =
      let (a, w1, guarded, h1) =
        >>-runs (guard o plan owner claim)
          (check_before o plan owner claim c >> put o plan owner claim c.path none) w h in
      let (b, w2, checked, h2) =
        >>-runs (check_before o plan owner claim c) (put o plan owner claim c.path none) w1 h1 in
      put-disk c.path none w2 w' h2

  write_until-writes :
      (stop : Option ℕ) (c : Change) (w w' : World)
      → write_until o plan owner claim stop c w ≡ (ok tt, w')
      → w'.disk c.path ≡ some c.content
  unfolding write_until raise
  write_until-writes none c w w' h =
      let run = guard o plan owner claim in
      let place = put o plan owner claim c.path (some c.content) in
      let (a, w1, guarded, h1) = >>-runs run (place >> run) w h in
      let (b, w2, placed, h2) = >>-runs place run w1 h1 in
      ap (λ d. d c.path) (guarded-disk w2 w' h2) ∙ put-disk c.path (some c.content) w1 w2 placed
  write_until-writes (some k) c w w' h =
      let place = put o plan owner claim c.path (some (take k c.content)) in
      let (a, w1, guarded, h1) =
        >>-runs (guard o plan owner claim) (place >> raise runtime_error) w h in
      let (b, w2, placed, h2) = >>-runs place (raise runtime_error) w1 h1 in cc h2

  create-writes :
      (n : ℕ) (c : Change) (w w' : World)
      → create_file o plan owner claim n c w ≡ (ok tt, w')
      → w'.disk c.path ≡ some c.content
  unfolding create_file
  create-writes n c w w' h =
      let write = write_until o plan owner claim (o.stops n) c in
      let (a, w1, guarded, h1) =
        >>-runs (guard o plan owner claim) (create_exclusively o plan owner claim c >> write) w h in
      let (b, w2, created, h2) = >>-runs (create_exclusively o plan owner claim c) write w1 h1 in
      write_until-writes (o.stops n) c w2 w' h2

  move-disk :
      (n : ℕ) (c : Change) (w w' : World)
      → move_temporary o plan owner claim n c w ≡ (ok tt, w')
      → w'.disk c.path ≡ some c.content
  unfolding move_temporary put_temporary
  move-disk n c w w' h =
      let (a, w1, placed, h1) =
        >>-runs (put o plan owner claim c.path (some c.content))
          (put_temporary o plan owner claim n none) w h in
      let same : w'.disk ≡ w1.disk = ground (arith, h1) in
      ap (λ d. d c.path) same ∙ put-disk c.path (some c.content) w w1 placed

  replace-writes :
      (n : ℕ) (c : Change) (w w' : World)
      → replace_file o plan owner claim n c w ≡ (ok tt, w')
      → w'.disk c.path ≡ some c.content
  unfolding replace_file
  replace-writes n c w w' h =
      let run = guard o plan owner claim in
      let check = check_before o plan owner claim c in
      let place = move_temporary o plan owner claim n c in
      let temporary = write_temporary o plan owner claim (o.stops n) n c in
      let (a, w1, g1, h1) = >>-runs run (temporary >> (run >> (check >> place))) w h in
      let (b, w2, t, h2) = >>-runs temporary (run >> (check >> place)) w1 h1 in
      let (d, w3, g2, h3) = >>-runs run (check >> place) w2 h2 in
      let (e, w4, checked, h4) = >>-runs check place w3 h3 in move-disk n c w4 w' h4

  cleaned-disk :
      (n path : ℕ) (w w' : World)
      → cleanup o plan owner claim n w ≡ (ok tt, w')
      → w'.disk path ≡ w.disk path
  cleaned-disk n path w w' h = elim (cleanup-Keeps [] o plan owner claim n w path) [
    | inl same ↦ sym (ap (λ r. r.1.disk path) h) ∙ same
    | inr none_listed ↦ elim none_listed [ ]
  ]

  abbrev clean_up : ℕ → Error → Run World (Unit {0})
  clean_up n e = cleanup o plan owner claim n >> raise e

  clean_up-raises : (n : ℕ) (e : Error) (w w' : World) → clean_up n e w ≡ (ok tt, w') → ⊥
  unfolding raise
  clean_up-raises n e w w' h =
      let (a, w1, cleaned, h1) = >>-runs (cleanup o plan owner claim n) (raise e) w h in cc h1

  modify-writes :
      (n : ℕ) (c : Change) (w w' : World)
      → modify_file o plan owner claim n c w ≡ (ok tt, w')
      → w'.disk c.path ≡ some c.content
  unfolding modify_file
  modify-writes n c w w' h =
      let replace = replace_file o plan owner claim n c in
      let clean = cleanup o plan owner claim n in
      let new = create_temporary o plan owner claim n in
      let attempt = try_except replace (clean_up n) in
      let (a, w1, guarded, h1) =
        >>-runs (guard o plan owner claim) (new >> (attempt >> clean)) w h in
      let (d, w2, created, h2) = >>-runs new (attempt >> clean) w1 h1 in
      let (b, w3, tried, h3) = >>-runs attempt clean w2 h2 in
      let replaced =
        try_except-runs replace (clean_up n) w2 (λ e l. clean_up-raises n e l w3) tried in
      cleaned-disk n c.path w3 w' h3 ∙ replace-writes n c w2 w3 replaced

  change_as-writes :
      (action : ChangeAction) (n : ℕ) (c : Change) (w w' : World)
      → change_as o plan owner claim action n c w ≡ (ok tt, w')
      → w'.disk c.path ≡ content_after action c.content
  unfolding change_as content_after
  change_as-writes ChangeAction.create n c w w' h = create-writes n c w w' h
  change_as-writes ChangeAction.modify n c w w' h = modify-writes n c w w' h
  change_as-writes ChangeAction.delete n c w w' h = delete-writes c w w' h

  apply_change-writes :
      (n : ℕ) (c : Change) (w w' : World)
      → apply_change o plan owner claim n c w ≡ (ok tt, w')
      → w'.disk c.path ≡ planned c
  unfolding apply_change change_file
  apply_change-writes n c w w' h =
      let (a, w1, uncancelled, h1) = >>-runs (check_cancelled o plan owner claim) _ w h in
      let (b, w2, checked, h2) = >>-runs (check_before o plan owner claim c) _ w1 h1 in
      let (d, w3, changed, h3) = >>-runs (change_as o plan owner claim c.action n c) _ w2 h2 in
      let (e, w4, guarded, h4) = >>-runs (guard o plan owner claim) _ w3 h3 in
      ap (λ d. d c.path) (committed-disk _ w4 w' h4 ∙ guarded-disk w3 w4 guarded)
      ∙ change_as-writes c.action n c w2 w3 changed

  -- A change leaves the files of the others alone.
  apply_change-frame :
      (n : ℕ) (c : Change) (path : ℕ) (w w' : World)
      → c.path ≢ path
      → apply_change o plan owner claim n c w ≡ (ok tt, w')
      → w'.disk path ≡ w.disk path
  apply_change-frame n c path w w' other h =
      elim (apply_change-Keeps (c ∷ []) o plan owner claim n c (AllListed-self (c ∷ [])).0 w path) [
        | inl same ↦ sym (ap (λ r. r.1.disk path) h) ∙ same
        | inr written ↦ elim written [
          | inl here ↦ absurd (other here.0)
          | inr none_listed ↦ elim none_listed [ ]
        ]
      ]

  apply_changes-frame :
      (n : ℕ) (cs : List Change) (path : ℕ) (w w' : World)
      → All (λ c. c.path ≢ path) cs
      → apply_changes o plan owner claim n cs w ≡ (ok tt, w')
      → w'.disk path ≡ w.disk path
  unfolding apply_changes return
  apply_changes-frame n [] path w w' others h = ground (arith, h)
  apply_changes-frame n (c ∷ cs) path w w' others h =
      let (a, w1, applied, h1) =
        >>-runs (apply_change o plan owner claim n c) (apply_changes o plan owner claim (n + 1) cs)
          w h in
      apply_changes-frame (n + 1) cs path w1 w' others.1 h1
      ∙ apply_change-frame n c path w w1 others.0 applied

-- No two changes of a plan name the same file: `propose` refuses a duplicate.
abbrev pub IsDistinct : List Change → Type 0
IsDistinct [] = Unit
IsDistinct (c ∷ cs) = All (λ d. d.path ≢ c.path) cs × IsDistinct cs

module _ (o : Outside) (plan : ChangePlan) (owner : ℕ) (claim : Option ClaimRecord) where
  apply_changes-writes :
      (n : ℕ) (cs : List Change) (w w' : World)
      → IsDistinct cs
      → apply_changes o plan owner claim n cs w ≡ (ok tt, w')
      → All (λ c. w'.disk c.path ≡ planned c) cs
  unfolding apply_changes
  apply_changes-writes n [] w w' distinct h = tt
  apply_changes-writes n (c ∷ cs) w w' distinct h =
      let (a, w1, applied, h1) =
        >>-runs (apply_change o plan owner claim n c) (apply_changes o plan owner claim (n + 1) cs)
          w h in
      (
        apply_changes-frame o plan owner claim (n + 1) cs c.path w1 w' distinct.0 h1
            ∙ apply_change-writes o plan owner claim n c w w1 applied,
        apply_changes-writes (n + 1) cs w1 w' distinct.1 h1,
      )

  apply_locked-writes :
      (w w' : World)
      → IsDistinct plan.changes
      → apply_locked o plan owner claim w ≡ (ok tt, w')
      → All (λ c. w'.disk c.path ≡ planned c) plan.changes
  unfolding apply_locked
  apply_locked-writes w w' distinct h =
      let body = changes_then_finish o owner claim plan in
      let handler = give_up o owner claim plan in
      let (a, w1, prepared, h1) =
        >>-runs (commit o plan owner claim (prepare o plan owner claim w.disk))
          (try_except body handler) w h in
      let done =
        try_except-runs body handler w1 (λ e l. give_up-raises o owner claim plan e l w') h1 in
      let (b, w2, changed, h2) =
        >>-runs (apply_changes o plan owner claim 0 plan.changes)
          (commit o plan owner claim (finish o plan owner claim)) w1 done in
      subst (λ d. All (λ c. d c.path ≡ planned c) plan.changes)
        (sym (committed-disk o plan owner claim (finish o plan owner claim) w2 w' h2))
        (apply_changes-writes 0 plan.changes w1 w2 distinct changed)

-- An application that returns has made every change of its plan: each file that the plan creates or
-- modifies has the planned content and each that it deletes is gone, where the plan's paths are
-- distinct.
pub apply_completes :
    (o : Outside) (id owner : ℕ) (claim : Option ClaimRecord) (plan : ChangePlan) (w w' : World)
    → get_plan o id owner w ≡ some plan
    → IsDistinct plan.changes
    → apply o id owner claim w ≡ (ok tt, w')
    → All (λ c. w'.disk c.path ≡ planned c) plan.changes
unfolding apply_plan
apply_completes o id owner claim plan w w' found distinct h =
    let (root, w1, rooted, h1) =
      >>=-runs (check_root o plan owner) (λ root. take_lock o >> apply_locked o plan owner claim) w
        (sym (apply-plan o owner claim id w plan found) ∙ h) in
    let (a, w2, locked, h2) = >>-runs (take_lock o) (apply_locked o plan owner claim) w1 h1 in
    apply_locked-writes o plan owner claim w2 w' distinct h2
