-- ===== src/Apply/Crash.antt =====
-- What an application of a plan can have done to the files, wherever it stops
-- (`apply` of src/nyanya_agent/reviewed_changes.py).
use mathlib.Core.Path.{subst}
use nyanya_agent.Prelude.{
  permission_error, err, ap, ℕ, ◌+◌, ◌≡◌, refl, Option, none, some, ◌⊎◌, inl, inr, List, [], ◌∷◌,
  arith, ◌==◌, Bool-cases, Option-cases, Result, Result-cases, Error, runtime_error, is_some,
}
use nyanya_agent.Prelude.Steps.{◌>>=◌, ◌>>◌, return, raise, read, try_except, proceed}
use nyanya_agent.Paths.{Text}
use nyanya_agent.Messages.{take}
use nyanya_agent.Ledger.{Ledger, Change, ChangeAction, ChangePlan}
use nyanya_agent.WorkQueue.{ClaimRecord}
use nyanya_agent.Apply.{
  World, Outside, set_file, content_after, commit, guard, check_before, put, write_until,
  write_temporary, cleanup, ignore_safe, delete_file, create_exclusively, create_file, replace_file,
  put_temporary, create_temporary, move_temporary, modify_file, change_as, change_file,
  check_cancelled, apply_change, apply_changes, apply_locked, check_root, take_lock, apply_plan,
  apply, get_plan, prepare, mark_uncertain,
}
use nyanya_agent.Apply.Leftovers.{LeftBy, apply_plan-Leaves}
use nyanya_agent.Apply.Follows.{
  IsWritten, whole, begun, WrittenBy, Follows, Keeps, on_disk, Listed, AllListed, AllListed-self,
  Follows-same, >>=-Keeps, >>-Keeps, try_except-Keeps, return-Keeps, raise-Keeps,
}

module _ (cs : List Change) where
  module _ (o : Outside) (plan : ChangePlan) (owner : ℕ) (claim : Option ClaimRecord) where
    commit-Keeps :
        (f : ℕ → Ledger → Result Ledger)
        → Keeps on_disk (WrittenBy cs) (commit o plan owner claim f)
    unfolding commit
    commit-Keeps f w =
        Follows-same on_disk (WrittenBy cs) w.disk _
          (elim (Result-cases (f w.tick (o.others w.tick w.ledger))) [
            | inl (l, done) ↦ ground (arith, done)
            | inr (e, refused) ↦ ground (arith, refused)
          ])

    pub guard-Keeps : Keeps on_disk (WrittenBy cs) (guard o plan owner claim)
    unfolding guard
    guard-Keeps = commit-Keeps _

    put-Keeps :
        (c : Change) (file : Option Text)
        → Listed cs c
        → IsWritten c file
        → Keeps on_disk (WrittenBy cs) (put o plan owner claim c.path file)
    unfolding put set_file
    put-Keeps c file listed written w path = elim (Bool-cases (c.path == path)) [
      | inl here ↦
          let same : c.path ≡ path = ground (arith, here) in
          inr (rw here (subst (λ p. WrittenBy cs p file) same (listed file written)))
      | inr there ↦ inl (ground (arith, there))
    ]

    check_before-Keeps :
        (c : Change) → Keeps on_disk (WrittenBy cs) (check_before o plan owner claim c)
    unfolding check_before
    check_before-Keeps c w path = inl refl

    write_until-Keeps :
        (stop : Option ℕ) (c : Change)
        → c.action ≡ ChangeAction.create
        → Listed cs c
        → Keeps on_disk (WrittenBy cs) (write_until o plan owner claim stop c)
    unfolding write_until content_after
    write_until-Keeps none c created listed =
        let run = guard o plan owner claim in
        let place = put o plan owner claim c.path (some c.content) in
        >>-Keeps on_disk (WrittenBy cs) run (place >> run) guard-Keeps (
          >>-Keeps on_disk (WrittenBy cs) place run
            (put-Keeps c (some c.content) listed (whole (ground (arith, created)))) guard-Keeps)
    write_until-Keeps (some k) c created listed =
        let place = put o plan owner claim c.path (some (take k c.content)) in
        >>-Keeps on_disk (WrittenBy cs) (guard o plan owner claim) (place >> raise runtime_error)
          guard-Keeps
          (>>-Keeps on_disk (WrittenBy cs) place (raise runtime_error)
            (put-Keeps c (some (take k c.content)) listed (begun created k refl))
            (raise-Keeps on_disk (WrittenBy cs) runtime_error))

    put_temporary-Keeps :
        (n : ℕ) (file : Option Text)
        → Keeps on_disk (WrittenBy cs) (put_temporary o plan owner claim n file)
    unfolding put_temporary
    put_temporary-Keeps n file w path = inl refl

    create_temporary-Keeps :
        (n : ℕ) → Keeps on_disk (WrittenBy cs) (create_temporary o plan owner claim n)
    unfolding create_temporary
    create_temporary-Keeps n w =
        Follows-same on_disk (WrittenBy cs) w.disk _ (elim (Bool-cases (is_some (w.temporary n))) [
          | inl there ↦ ground (arith, there)
          | inr absent ↦ ground (arith, absent)
        ])

    write_temporary-Keeps :
        (stop : Option ℕ) (n : ℕ) (c : Change)
        → Keeps on_disk (WrittenBy cs) (write_temporary o plan owner claim stop n c)
    unfolding write_temporary
    write_temporary-Keeps none n c =
        let run = guard o plan owner claim in
        let place = put_temporary o plan owner claim n (some c.content) in
        >>-Keeps on_disk (WrittenBy cs) run (place >> run) guard-Keeps (
          >>-Keeps on_disk (WrittenBy cs) place run (put_temporary-Keeps n (some c.content))
            guard-Keeps)
    write_temporary-Keeps (some k) n c =
        let place = put_temporary o plan owner claim n (some (take k c.content)) in
        >>-Keeps on_disk (WrittenBy cs) (guard o plan owner claim) (place >> raise runtime_error)
          guard-Keeps
          (>>-Keeps on_disk (WrittenBy cs) place (raise runtime_error)
            (put_temporary-Keeps n (some (take k c.content)))
            (raise-Keeps on_disk (WrittenBy cs) runtime_error))

    ignore_safe-Keeps :
        (e : Error) → Keeps on_disk (WrittenBy cs) (ignore_safe o plan owner claim e)
    unfolding ignore_safe return raise
    ignore_safe-Keeps e w = Follows-same on_disk (WrittenBy cs) w.disk _ (ground arith)

    pub cleanup-Keeps : (n : ℕ) → Keeps on_disk (WrittenBy cs) (cleanup o plan owner claim n)
    unfolding cleanup
    cleanup-Keeps n =
        let remove = put_temporary o plan owner claim n none in
        try_except-Keeps on_disk (WrittenBy cs) (guard o plan owner claim >> remove)
          (ignore_safe o plan owner claim)
          (>>-Keeps on_disk (WrittenBy cs) (guard o plan owner claim) remove guard-Keeps
            (put_temporary-Keeps n none))
          ignore_safe-Keeps

    move_temporary-Keeps :
        (n : ℕ) (c : Change)
        → c.action ≡ ChangeAction.modify
        → Listed cs c
        → Keeps on_disk (WrittenBy cs) (move_temporary o plan owner claim n c)
    unfolding move_temporary content_after
    move_temporary-Keeps n c modified listed =
        >>-Keeps on_disk (WrittenBy cs) (put o plan owner claim c.path (some c.content))
          (put_temporary o plan owner claim n none)
          (put-Keeps c (some c.content) listed (whole (ground (arith, modified))))
          (put_temporary-Keeps n none)

    delete_file-Keeps :
        (c : Change)
        → c.action ≡ ChangeAction.delete
        → Listed cs c
        → Keeps on_disk (WrittenBy cs) (delete_file o plan owner claim c)
    unfolding delete_file content_after
    delete_file-Keeps c deleted listed =
        >>-Keeps on_disk (WrittenBy cs) (guard o plan owner claim)
          (check_before o plan owner claim c >> put o plan owner claim c.path none) guard-Keeps
          (>>-Keeps on_disk (WrittenBy cs) (check_before o plan owner claim c)
            (put o plan owner claim c.path none) (check_before-Keeps c)
            (put-Keeps c none listed (whole (ground (arith, deleted)))))

    create_exclusively-Keeps :
        (c : Change)
        → c.action ≡ ChangeAction.create
        → Listed cs c
        → Keeps on_disk (WrittenBy cs) (create_exclusively o plan owner claim c)
    create_exclusively-Keeps c created listed w = elim (Bool-cases (is_some (w.disk c.path))) [
      | inl there ↦
          Follows-same on_disk (WrittenBy cs) w.disk _
            (unfold create_exclusively in ground (arith, there))
      | inr absent ↦
          let placed = put-Keeps c (some []) listed (begun created 0 (unfold take in refl)) w in
          let same : (put o plan owner claim c.path (some []) w).1.disk
              ≡ (create_exclusively o plan owner claim c w).1.disk =
            unfold create_exclusively in unfold put in ground (arith, absent) in
          subst (λ d. Follows (WrittenBy cs) w.disk d) same placed
    ]

    create_file-Keeps :
        (n : ℕ) (c : Change)
        → c.action ≡ ChangeAction.create
        → Listed cs c
        → Keeps on_disk (WrittenBy cs) (create_file o plan owner claim n c)
    unfolding create_file
    create_file-Keeps n c created listed =
        >>-Keeps on_disk (WrittenBy cs) (guard o plan owner claim)
          (create_exclusively o plan owner claim c >> write_until o plan owner claim (o.stops n) c)
          guard-Keeps
          (>>-Keeps on_disk (WrittenBy cs) (create_exclusively o plan owner claim c)
            (write_until o plan owner claim (o.stops n) c)
            (create_exclusively-Keeps c created listed)
            (write_until-Keeps (o.stops n) c created listed))

    replace_file-Keeps :
        (n : ℕ) (c : Change)
        → c.action ≡ ChangeAction.modify
        → Listed cs c
        → Keeps on_disk (WrittenBy cs) (replace_file o plan owner claim n c)
    unfolding replace_file
    replace_file-Keeps n c modified listed =
        let run = guard o plan owner claim in
        let place = move_temporary o plan owner claim n c in
        let check = check_before o plan owner claim c in
        let temporary = write_temporary o plan owner claim (o.stops n) n c in
        >>-Keeps on_disk (WrittenBy cs) run (temporary >> (run >> (check >> place))) guard-Keeps (
          >>-Keeps on_disk (WrittenBy cs) temporary (run >> (check >> place))
            (write_temporary-Keeps (o.stops n) n c)
            (>>-Keeps on_disk (WrittenBy cs) run (check >> place) guard-Keeps (
              >>-Keeps on_disk (WrittenBy cs) check place (check_before-Keeps c)
                (move_temporary-Keeps n c modified listed))))

    modify_file-Keeps :
        (n : ℕ) (c : Change)
        → c.action ≡ ChangeAction.modify
        → Listed cs c
        → Keeps on_disk (WrittenBy cs) (modify_file o plan owner claim n c)
    unfolding modify_file
    modify_file-Keeps n c modified listed =
        let replace = replace_file o plan owner claim n c in
        let clean = cleanup o plan owner claim n in
        let new = create_temporary o plan owner claim n in
        let tried = try_except replace (λ e. clean >> raise e) in
        >>-Keeps on_disk (WrittenBy cs) (guard o plan owner claim) (new >> (tried >> clean))
          guard-Keeps
          (>>-Keeps on_disk (WrittenBy cs) new (tried >> clean) (create_temporary-Keeps n) (
            >>-Keeps on_disk (WrittenBy cs) tried clean
              (try_except-Keeps on_disk (WrittenBy cs) replace (λ e. clean >> raise e)
                (replace_file-Keeps n c modified listed)
                (λ e.
                  >>-Keeps on_disk (WrittenBy cs) clean (raise e) (cleanup-Keeps n)
                    (raise-Keeps on_disk (WrittenBy cs) e)))
              (cleanup-Keeps n)))

    change_as-Keeps :
        (action : ChangeAction) (n : ℕ) (c : Change)
        → c.action ≡ action
        → Listed cs c
        → Keeps on_disk (WrittenBy cs) (change_as o plan owner claim action n c)
    unfolding change_as
    change_as-Keeps ChangeAction.create n c h listed = create_file-Keeps n c h listed
    change_as-Keeps ChangeAction.modify n c h listed = modify_file-Keeps n c h listed
    change_as-Keeps ChangeAction.delete n c h listed = delete_file-Keeps c h listed

    pub apply_change-Keeps :
        (n : ℕ) (c : Change)
        → Listed cs c
        → Keeps on_disk (WrittenBy cs) (apply_change o plan owner claim n c)
    unfolding apply_change change_file check_cancelled
    apply_change-Keeps n c listed =
        >>-Keeps on_disk (WrittenBy cs) (check_cancelled o plan owner claim) _ (λ w path. inl refl)
          (>>-Keeps on_disk (WrittenBy cs) (check_before o plan owner claim c) _
            (check_before-Keeps c)
            (>>-Keeps on_disk (WrittenBy cs) (change_as o plan owner claim c.action n c) _
              (change_as-Keeps c.action n c refl listed)
              (>>-Keeps on_disk (WrittenBy cs) (guard o plan owner claim) _ guard-Keeps
                (commit-Keeps _))))

    apply_changes-Keeps :
        (n : ℕ) (rest : List Change)
        → AllListed cs rest
        → Keeps on_disk (WrittenBy cs) (apply_changes o plan owner claim n rest)
    unfolding apply_changes
    apply_changes-Keeps n [] listed = return-Keeps on_disk (WrittenBy cs) tt
    apply_changes-Keeps n (c ∷ rest) listed =
        >>-Keeps on_disk (WrittenBy cs) (apply_change o plan owner claim n c)
          (apply_changes o plan owner claim (n + 1) rest) (apply_change-Keeps n c listed.0)
          (apply_changes-Keeps (n + 1) rest listed.1)

module _ (o : Outside) (owner : ℕ) (claim : Option ClaimRecord) where
  apply_locked-Keeps :
      (plan : ChangePlan) → Keeps on_disk (WrittenBy plan.changes) (apply_locked o plan owner claim)
  unfolding apply_locked
  apply_locked-Keeps plan w =
      >>-Keeps on_disk (WrittenBy plan.changes)
        (commit o plan owner claim (prepare o plan owner claim w.disk)) _
        (commit-Keeps plan.changes o plan owner claim _)
        (try_except-Keeps on_disk (WrittenBy plan.changes) _ _
          (>>-Keeps on_disk (WrittenBy plan.changes)
            (apply_changes o plan owner claim 0 plan.changes) _
            (apply_changes-Keeps plan.changes o plan owner claim 0 plan.changes
              (AllListed-self plan.changes))
            (commit-Keeps plan.changes o plan owner claim _))
          (λ e.
            >>-Keeps on_disk (WrittenBy plan.changes)
              (commit o plan owner claim (mark_uncertain o plan owner claim)) _
              (commit-Keeps plan.changes o plan owner claim _)
              (raise-Keeps on_disk (WrittenBy plan.changes) e)))
        w

  apply_plan-Keeps :
      (plan : ChangePlan) → Keeps on_disk (WrittenBy plan.changes) (apply_plan o owner claim plan)
  unfolding apply_plan check_root take_lock
  apply_plan-Keeps plan =
      >>=-Keeps on_disk (WrittenBy plan.changes) (check_root o plan owner) _ (λ w path. inl refl)
        (λ root.
          >>-Keeps on_disk (WrittenBy plan.changes) (take_lock o) (apply_locked o plan owner claim)
            (λ w path. inl refl) (apply_locked-Keeps plan))

  pub apply-plan :
      (id : ℕ) (w : World) (plan : ChangePlan)
      → get_plan o id owner w ≡ some plan
      → apply o id owner claim w ≡ apply_plan o owner claim plan w
  unfolding apply ◌>>=◌ proceed read
  apply-plan id w plan found = ground (arith, found)

  missing_plan :
      (id : ℕ) (w : World)
      → get_plan o id owner w ≡ none
      → apply o id owner claim w ≡ (err permission_error, w)
  unfolding apply ◌>>=◌ proceed read
  missing_plan id w missing = ground (arith, missing)

  -- Wherever an application stops, whatever it answers and whatever other processes commit in the
  -- meantime, every file is as before or as a change of the plan leaves it: as planned or, where the
  -- write of a created file stopped, a beginning of its content. But for the application's own
  -- temporary files, a file that no change names is never touched, and a modified or deleted one is
  -- never left half-written. A temporary file is as before, or gone, or holds the new content of a
  -- modification of the plan or a beginning of it.
  pub apply_crash_safe :
      (id path n : ℕ) (w : World)
      → (((apply o id owner claim w).1.disk path ≡ w.disk path)
          ⊎ ((plan : ChangePlan) × (get_plan o id owner w ≡ some plan)
              × WrittenBy plan.changes path ((apply o id owner claim w).1.disk path)))
        × (((apply o id owner claim w).1.temporary n ≡ w.temporary n)
            ⊎ ((plan : ChangePlan) × (get_plan o id owner w ≡ some plan)
                × LeftBy plan.changes n ((apply o id owner claim w).1.temporary n)))
  apply_crash_safe id path n w = elim (Option-cases (get_plan o id owner w)) [
    | inl missing ↦
        let same = missing_plan id w missing in
        (inl (ap (λ r. r.1.disk path) same), inl (ap (λ r. r.1.temporary n) same))
    | inr (plan, found) ↦
        let same = apply-plan id w plan found in
        (
          elim (apply_plan-Keeps plan w path) [
            | inl kept ↦ inl (cc (same, kept))
            | inr written ↦ inr (plan, found, rw same written)
          ],
          elim (apply_plan-Leaves o owner claim plan w n) [
            | inl kept ↦ inl (cc (same, kept))
            | inr left ↦ inr (plan, found, rw same left)
          ],
        )
  ]
