-- ===== src/Apply/Leftovers.antt =====
-- Which temporary files an application of a plan can have left, wherever it stops
-- (`apply` of src/nyanya_agent/reviewed_changes.py).
use mathlib.Core.Path.{subst}
use nyanya_agent.Prelude.{
  ℕ, ◌+◌, ◌≡◌, refl, Option, none, some, ◌⊎◌, inl, inr, List, [], ◌∷◌, arith, ◌==◌, is_some,
  Bool-cases, Result-cases, Result, runtime_error, IsRow, All-IsRow, All,
}
use nyanya_agent.Prelude.Steps.{Run, ◌>>◌, return, raise, try_except}
use nyanya_agent.Paths.{Text}
use nyanya_agent.Messages.{take}
use nyanya_agent.Ledger.{Ledger, Change, ChangeAction, ChangePlan}
use nyanya_agent.WorkQueue.{ClaimRecord}
use nyanya_agent.Apply.{
  World, Disk, Outside, set_file, commit, guard, check_before, put, write_until, put_temporary,
  create_temporary, write_temporary, move_temporary, cleanup, ignore_safe, delete_file,
  create_exclusively, create_file, replace_file, modify_file, change_as, change_file,
  check_cancelled, apply_change, apply_changes, apply_locked, check_root, take_lock, apply_plan,
  prepare, mark_uncertain,
}
use nyanya_agent.Apply.Follows.{
  Follows, Keeps, Follows-same, >>=-Keeps, >>-Keeps, try_except-Keeps, return-Keeps, raise-Keeps,
}

-- The content of a temporary file of a modification, or a beginning of it.
pub data IsBegun (c : Change) (file : Option Text) : Type 0 where
  all_of_it : c.action ≡ ChangeAction.modify → file ≡ some c.content → IsBegun c file
  part : c.action ≡ ChangeAction.modify → (k : ℕ) → file ≡ some (take k c.content) → IsBegun c file

-- Removed, or what a modification of the list has written of its new content.
abbrev pub LeftBy : List Change → ℕ → Option Text → Type 0
LeftBy cs n file = (file ≡ none) ⊎ ((c : Change) × IsRow cs c × IsBegun c file)

abbrev pub beside : World → Disk
beside w = w.temporary

module _ (cs : List Change) where
  -- A step that leaves the temporary files alone.
  alone {ℓ} :
      {A : Type ℓ} (m : Run World A)
      → ((w : World) → (m w).1.temporary ≡ w.temporary)
      → Keeps beside (LeftBy cs) m
  alone m same w = Follows-same beside (LeftBy cs) w.temporary _ (same w)

  module _ (o : Outside) (plan : ChangePlan) (owner : ℕ) (claim : Option ClaimRecord) where
    commit-Leaves :
        (f : ℕ → Ledger → Result Ledger) → Keeps beside (LeftBy cs) (commit o plan owner claim f)
    unfolding commit
    commit-Leaves f = alone (commit o plan owner claim f) (λ w.
        elim (Result-cases (f w.tick (o.others w.tick w.ledger))) [
          | inl (l, done) ↦ ground (arith, done)
          | inr (e, refused) ↦ ground (arith, refused)
        ])

    guard-Leaves : Keeps beside (LeftBy cs) (guard o plan owner claim)
    unfolding guard
    guard-Leaves = commit-Leaves _

    put-Leaves :
        (path : ℕ) (file : Option Text)
        → Keeps beside (LeftBy cs) (put o plan owner claim path file)
    unfolding put
    put-Leaves path file w n = inl refl

    check_before-Leaves :
        (c : Change) → Keeps beside (LeftBy cs) (check_before o plan owner claim c)
    unfolding check_before
    check_before-Leaves c w n = inl refl

    put_temporary-Leaves :
        (n : ℕ) (file : Option Text)
        → LeftBy cs n file
        → Keeps beside (LeftBy cs) (put_temporary o plan owner claim n file)
    unfolding put_temporary set_file
    put_temporary-Leaves n file left w k = elim (Bool-cases (n == k)) [
      | inl here ↦ inr (rw here left)
      | inr there ↦ inl (ground (arith, there))
    ]

    create_temporary-Leaves :
        (n : ℕ) (c : Change)
        → c.action ≡ ChangeAction.modify
        → IsRow cs c
        → Keeps beside (LeftBy cs) (create_temporary o plan owner claim n)
    create_temporary-Leaves n c modified listed w = elim (Bool-cases (is_some (w.temporary n))) [
      | inl there ↦
          Follows-same beside (LeftBy cs) w.temporary _
            (unfold create_temporary in ground (arith, there))
      | inr absent ↦
          let placed =
            put_temporary-Leaves n (some [])
              (inr (c, listed, part modified 0 (unfold take in refl))) w in
          let same : (put_temporary o plan owner claim n (some []) w).1.temporary
              ≡ (create_temporary o plan owner claim n w).1.temporary =
            unfold create_temporary in unfold put_temporary in ground (arith, absent) in
          subst (λ d. Follows (LeftBy cs) w.temporary d) same placed
    ]

    write_temporary-Leaves :
        (stop : Option ℕ) (n : ℕ) (c : Change)
        → c.action ≡ ChangeAction.modify
        → IsRow cs c
        → Keeps beside (LeftBy cs) (write_temporary o plan owner claim stop n c)
    unfolding write_temporary
    write_temporary-Leaves none n c modified listed =
        >>-Keeps beside (LeftBy cs) (guard o plan owner claim) _ guard-Leaves (
          >>-Keeps beside (LeftBy cs) (put_temporary o plan owner claim n (some c.content)) _
            (put_temporary-Leaves n (some c.content) (inr (c, listed, all_of_it modified refl)))
            guard-Leaves)
    write_temporary-Leaves (some k) n c modified listed =
        >>-Keeps beside (LeftBy cs) (guard o plan owner claim) _ guard-Leaves (
          >>-Keeps beside (LeftBy cs) (put_temporary o plan owner claim n (some (take k c.content)))
            _
            (put_temporary-Leaves n (some (take k c.content))
              (inr (c, listed, part modified k refl)))
            (raise-Keeps beside (LeftBy cs) runtime_error))

    cleanup-Leaves : (n : ℕ) → Keeps beside (LeftBy cs) (cleanup o plan owner claim n)
    unfolding cleanup
    cleanup-Leaves n =
        try_except-Keeps beside (LeftBy cs)
          (guard o plan owner claim >> put_temporary o plan owner claim n none)
          (ignore_safe o plan owner claim)
          (>>-Keeps beside (LeftBy cs) (guard o plan owner claim) _ guard-Leaves
            (put_temporary-Leaves n none (inl refl)))
          (λ e.
            alone (ignore_safe o plan owner claim e)
              (λ w. unfold ignore_safe in unfold return in unfold raise in ground arith))

    modify_file-Leaves :
        (n : ℕ) (c : Change)
        → c.action ≡ ChangeAction.modify
        → IsRow cs c
        → Keeps beside (LeftBy cs) (modify_file o plan owner claim n c)
    unfolding modify_file replace_file move_temporary
    modify_file-Leaves n c modified listed =
        let clean = cleanup o plan owner claim n in
        let replace = replace_file o plan owner claim n c in
        >>-Keeps beside (LeftBy cs) (guard o plan owner claim) _ guard-Leaves (
          >>-Keeps beside (LeftBy cs) (create_temporary o plan owner claim n) _
            (create_temporary-Leaves n c modified listed)
            (>>-Keeps beside (LeftBy cs) (try_except replace (λ e. clean >> raise e)) clean
              (try_except-Keeps beside (LeftBy cs) replace (λ e. clean >> raise e)
                (>>-Keeps beside (LeftBy cs) (guard o plan owner claim) _ guard-Leaves (
                  >>-Keeps beside (LeftBy cs) (write_temporary o plan owner claim (o.stops n) n c) _
                    (write_temporary-Leaves (o.stops n) n c modified listed)
                    (>>-Keeps beside (LeftBy cs) (guard o plan owner claim) _ guard-Leaves (
                      >>-Keeps beside (LeftBy cs) (check_before o plan owner claim c) _
                        (check_before-Leaves c)
                        (>>-Keeps beside (LeftBy cs)
                          (put o plan owner claim c.path (some c.content)) _
                          (put-Leaves c.path (some c.content))
                          (put_temporary-Leaves n none (inl refl)))))))
                (λ e.
                  >>-Keeps beside (LeftBy cs) clean (raise e) (cleanup-Leaves n)
                    (raise-Keeps beside (LeftBy cs) e)))
              (cleanup-Leaves n)))

    write_until-Leaves :
        (stop : Option ℕ) (c : Change)
        → Keeps beside (LeftBy cs) (write_until o plan owner claim stop c)
    unfolding write_until
    write_until-Leaves none c =
        >>-Keeps beside (LeftBy cs) (guard o plan owner claim) _ guard-Leaves (
          >>-Keeps beside (LeftBy cs) (put o plan owner claim c.path (some c.content)) _
            (put-Leaves c.path (some c.content)) guard-Leaves)
    write_until-Leaves (some k) c =
        >>-Keeps beside (LeftBy cs) (guard o plan owner claim) _ guard-Leaves (
          >>-Keeps beside (LeftBy cs) (put o plan owner claim c.path (some (take k c.content))) _
            (put-Leaves c.path (some (take k c.content)))
            (raise-Keeps beside (LeftBy cs) runtime_error))

    change_as-Leaves :
        (action : ChangeAction) (n : ℕ) (c : Change)
        → c.action ≡ action
        → IsRow cs c
        → Keeps beside (LeftBy cs) (change_as o plan owner claim action n c)
    unfolding change_as create_file delete_file
    change_as-Leaves ChangeAction.create n c h listed =
        >>-Keeps beside (LeftBy cs) (guard o plan owner claim) _ guard-Leaves (
          >>-Keeps beside (LeftBy cs) (create_exclusively o plan owner claim c) _
            (alone (create_exclusively o plan owner claim c) (λ w.
              elim (Bool-cases (is_some (w.disk c.path))) [
                | inl there ↦ (unfold create_exclusively in ground (arith, there))
                | inr absent ↦ (unfold create_exclusively in ground (arith, absent))
              ]))
            (write_until-Leaves (o.stops n) c))
    change_as-Leaves ChangeAction.modify n c h listed = modify_file-Leaves n c h listed
    change_as-Leaves ChangeAction.delete n c h listed =
        >>-Keeps beside (LeftBy cs) (guard o plan owner claim) _ guard-Leaves (
          >>-Keeps beside (LeftBy cs) (check_before o plan owner claim c) _ (check_before-Leaves c)
            (put-Leaves c.path none))

    apply_change-Leaves :
        (n : ℕ) (c : Change)
        → IsRow cs c
        → Keeps beside (LeftBy cs) (apply_change o plan owner claim n c)
    unfolding apply_change change_file check_cancelled
    apply_change-Leaves n c listed =
        >>-Keeps beside (LeftBy cs) (check_cancelled o plan owner claim) _ (λ w n. inl refl)
          (>>-Keeps beside (LeftBy cs) (check_before o plan owner claim c) _ (check_before-Leaves c)
            (>>-Keeps beside (LeftBy cs) (change_as o plan owner claim c.action n c) _
              (change_as-Leaves c.action n c refl listed)
              (>>-Keeps beside (LeftBy cs) (guard o plan owner claim) _ guard-Leaves
                (commit-Leaves _))))

    apply_changes-Leaves :
        (n : ℕ) (rest : List Change)
        → All (IsRow cs) rest
        → Keeps beside (LeftBy cs) (apply_changes o plan owner claim n rest)
    unfolding apply_changes
    apply_changes-Leaves n [] listed = return-Keeps beside (LeftBy cs) tt
    apply_changes-Leaves n (c ∷ rest) listed =
        >>-Keeps beside (LeftBy cs) (apply_change o plan owner claim n c) _
          (apply_change-Leaves n c listed.0) (apply_changes-Leaves (n + 1) rest listed.1)

module _ (o : Outside) (owner : ℕ) (claim : Option ClaimRecord) (plan : ChangePlan) where
  apply_locked-Leaves : Keeps beside (LeftBy plan.changes) (apply_locked o plan owner claim)
  unfolding apply_locked
  apply_locked-Leaves w =
      >>-Keeps beside (LeftBy plan.changes)
        (commit o plan owner claim (prepare o plan owner claim w.disk)) _
        (commit-Leaves plan.changes o plan owner claim _)
        (try_except-Keeps beside (LeftBy plan.changes) _ _
          (>>-Keeps beside (LeftBy plan.changes) (apply_changes o plan owner claim 0 plan.changes) _
            (apply_changes-Leaves plan.changes o plan owner claim 0 plan.changes
              (All-IsRow plan.changes))
            (commit-Leaves plan.changes o plan owner claim _))
          (λ e.
            >>-Keeps beside (LeftBy plan.changes)
              (commit o plan owner claim (mark_uncertain o plan owner claim)) _
              (commit-Leaves plan.changes o plan owner claim _)
              (raise-Keeps beside (LeftBy plan.changes) e)))
        w

  pub apply_plan-Leaves : Keeps beside (LeftBy plan.changes) (apply_plan o owner claim plan)
  unfolding apply_plan check_root take_lock
  apply_plan-Leaves =
      >>=-Keeps beside (LeftBy plan.changes) (check_root o plan owner) _ (λ w n. inl refl)
        (λ root.
          >>-Keeps beside (LeftBy plan.changes) (take_lock o) (apply_locked o plan owner claim)
            (λ w n. inl refl) apply_locked-Leaves)
