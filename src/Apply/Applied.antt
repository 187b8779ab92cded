-- ===== src/Apply/Applied.antt =====
-- How an application of a plan ends (`apply` of src/nyanya_agent/reviewed_changes.py).
use mathlib.Core.Path.{subst}
use nyanya_agent.Operations.{check_workspace}
use nyanya_agent.Prelude.{
  runtime_error, ℕ, ◌≡◌, refl, sym, true, false, Option, none, some, inl, inr, List, arith,
  Bool-cases, Option-cases, Result, Result-cases, ok, err, Error, permission_error, find, update,
  find-update, find-key,
}
use nyanya_agent.Prelude.Steps.{
  Run, ◌>>=◌, ◌>>◌, raise, try_except, proceed, read, >>-runs, >>-raises, try_except-runs,
  try_except-raises,
}
use nyanya_agent.Ledger.{Ledger, ChangePlan, PlanStatus, plan_keyed}
use nyanya_agent.WorkQueue.{ClaimRecord}
use nyanya_agent.Apply.{
  World, Outside, commit, apply_changes, apply_locked, check_root, take_lock, apply_plan, apply,
  get_plan, prepare, finish, mark_uncertain, set_plan_status,
}
use nyanya_agent.Apply.Crash.{apply-plan}

-- The plan's row, where it still is there, has this status.
abbrev pub Stands : ℕ → PlanStatus → Ledger → Type 0
Stands id status l = (p : ChangePlan) → find id l.plans ≡ some p → p.status ≡ status

-- How an application ends.
pub data IsEnd (id : ℕ) (w : World) (r : Result (Unit {0}) × World) : Type 0 where
  refused : (e : Error) → r.0 ≡ err e → r.1.disk ≡ w.disk → IsEnd id w r
  uncertain : (e : Error) → r.0 ≡ err e → Stands id PlanStatus.uncertain r.1.ledger → IsEnd id w r
  applied : r.0 ≡ ok tt → Stands id PlanStatus.applied r.1.ledger → IsEnd id w r

pub update-Stands :
    (id : ℕ) (status : PlanStatus) (plans : List ChangePlan) (p : ChangePlan)
    → find id (update id (set_plan_status status) plans) ≡ some p
    → p.status ≡ status
unfolding set_plan_status
update-Stands id status plans p h =
    ground (arith, h, find-update id id (set_plan_status status) plans (λ r. refl))

module _ (o : Outside) (owner : ℕ) (claim : Option ClaimRecord) where
  module _ (plan : ChangePlan) where
    pub commit-runs :
        (f : ℕ → Ledger → Result Ledger) (w w' : World)
        → commit o plan owner claim f w ≡ (ok tt, w')
        → (l : Ledger) × (f w.tick l ≡ ok w'.ledger)
    unfolding commit
    commit-runs f w w' h = elim (Result-cases (f w.tick (o.others w.tick w.ledger))) [
      | inl (l, done) ↦ (o.others w.tick w.ledger, ground (arith, h, done))
      | inr (e, failed) ↦ absurd (ground (arith, h, failed))
    ]

    pub commit-disk :
        (f : ℕ → Ledger → Result Ledger) (w : World)
        → (commit o plan owner claim f w).1.disk ≡ w.disk
    unfolding commit
    commit-disk f w = elim (Result-cases (f w.tick (o.others w.tick w.ledger))) [
      | inl (l, done) ↦ ground (arith, done)
      | inr (e, failed) ↦ ground (arith, failed)
    ]

    finish-Stands :
        (tick : ℕ) (l l' : Ledger)
        → finish o plan owner claim tick l ≡ ok l'
        → Stands plan.id PlanStatus.applied l'
    finish-Stands tick l l' h p there =
        update-Stands plan.id PlanStatus.applied l.plans p
          (unfold finish in ground (arith, h, there))

    abbrev pub give_up : Error → Run World (Unit {0})
    give_up e = commit o plan owner claim (mark_uncertain o plan owner claim) >> raise e

    uncertain-Stands :
        (e : Error) (w w' : World) (x : Error)
        → give_up e w ≡ (err x, w')
        → Stands plan.id PlanStatus.uncertain w'.ledger
    unfolding commit mark_uncertain raise ◌>>◌ ◌>>=◌ proceed
    uncertain-Stands e w w' x h p there =
        update-Stands plan.id PlanStatus.uncertain (o.others w.tick w.ledger).plans p
          (ground (arith, h, there))

    pub give_up-raises : (e : Error) (w w' : World) → give_up e w ≡ (ok tt, w') → ⊥
    unfolding raise
    give_up-raises e w w' h =
        let (u, w1, marked, h1) =
          >>-runs (commit o plan owner claim (mark_uncertain o plan owner claim)) (raise e) w h in
        cc h1

    abbrev pub changes_then_finish : Run World (Unit {0})
    changes_then_finish =
        apply_changes o plan owner claim 0 plan.changes
        >> commit o plan owner claim (finish o plan owner claim)

    apply_locked-IsEnd :
        (w : World) (r : Result (Unit {0}) × World)
        → apply_locked o plan owner claim w ≡ r
        → IsEnd plan.id w r
    unfolding apply_locked
    apply_locked-IsEnd w (ok u, w') h =
        let (u1, w1, prepared, h1) =
          >>-runs (commit o plan owner claim (prepare o plan owner claim w.disk))
            (try_except changes_then_finish give_up) w h in
        let done =
          try_except-runs changes_then_finish give_up w1 (λ e l. give_up-raises e l w') h1 in
        let (u2, w2, changed, h2) =
          >>-runs (apply_changes o plan owner claim 0 plan.changes)
            (commit o plan owner claim (finish o plan owner claim)) w1 done in
        let (l, finished) = commit-runs (finish o plan owner claim) w2 w' h2 in
        applied refl (finish-Stands w2.tick l w'.ledger finished)
    apply_locked-IsEnd w (err e, w') h =
        elim (>>-raises (commit o plan owner claim (prepare o plan owner claim w.disk))
          (try_except changes_then_finish give_up) w h) [
            | inl unprepared ↦
                refused e refl (cc (unprepared, commit-disk (prepare o plan owner claim w.disk) w))
            | inr (u, w1, prepared, h1) ↦
                let (x, w2, failed, h2) = try_except-raises changes_then_finish give_up w1 h1 in
                uncertain e refl (uncertain-Stands x w2 w' e h2)
          ]

    pub apply_plan-locked :
        (w : World) (root : ℕ)
        → check_workspace o.workspaces plan.workspace owner ≡ ok root
        → o.lock_granted ≡ true
        → apply_plan o owner claim plan w ≡ apply_locked o plan owner claim w
    unfolding apply_plan check_root take_lock ◌>>=◌ ◌>>◌ proceed
    apply_plan-locked w root fine granted = ground (arith, fine, granted)

    apply_plan-IsEnd : (w : World) → IsEnd plan.id w (apply_plan o owner claim plan w)
    apply_plan-IsEnd w = elim (Result-cases (check_workspace o.workspaces plan.workspace owner)) [
      | inr (e, outside) ↦ rejected e outside
      | inl (root, fine) ↦ elim (Bool-cases o.lock_granted) [
        | inl granted ↦
            subst (IsEnd plan.id w) (sym (apply_plan-locked w root fine granted))
              (apply_locked-IsEnd w (apply_locked o plan owner claim w) refl)
        | inr busy ↦ locked_out root fine busy
      ]
    ]
      where
        rejected :
            (e : Error)
            → check_workspace o.workspaces plan.workspace owner ≡ err e
            → IsEnd plan.id w (apply_plan o owner claim plan w)
        rejected e outside =
            refused e
              (unfold apply_plan in
                unfold check_root in unfold ◌>>=◌ in unfold proceed in ground (arith, outside))
              (unfold apply_plan in
                unfold check_root in unfold ◌>>=◌ in unfold proceed in ground (arith, outside))

        locked_out :
            (root : ℕ)
            → check_workspace o.workspaces plan.workspace owner ≡ ok root
            → o.lock_granted ≡ false
            → IsEnd plan.id w (apply_plan o owner claim plan w)
        locked_out root fine busy =
            refused runtime_error
              (unfold apply_plan in
                unfold check_root in
                unfold take_lock in
                unfold ◌>>◌ in unfold ◌>>=◌ in unfold proceed in ground (arith, fine, busy))
              (unfold apply_plan in
                unfold check_root in
                unfold take_lock in
                unfold ◌>>◌ in unfold ◌>>=◌ in unfold proceed in ground (arith, fine, busy))

  missing_plan :
      (id : ℕ) (w : World)
      → get_plan o id owner w ≡ none
      → apply o id owner claim w ≡ (err permission_error, w)
  unfolding apply ◌>>=◌ proceed read
  missing_plan id w missing = ground (arith, missing)

  get_plan-id :
      (id : ℕ) (w : World) (plan : ChangePlan) → get_plan o id owner w ≡ some plan → plan.id ≡ id
  unfolding get_plan
  get_plan-id id w plan found = elim (Option-cases (find id w.ledger.plans)) [
    | inl missing ↦ absurd (ground (arith, found, missing))
    | inr (p, there) ↦ cc (find-key id w.ledger.plans there, owned p there)
  ]
    where
      owned : (p : ChangePlan) → find id w.ledger.plans ≡ some p → p ≡ plan
      owned p there = ground (arith, found, there)

  -- An application ends in one of three ways, whatever others commit in the meantime: it raises and
  -- has touched no file; it raises and the plan, if its row still is there, stands as uncertain; or it
  -- returns and the plan stands as applied.
  pub apply-IsEnd : (id : ℕ) (w : World) → IsEnd id w (apply o id owner claim w)
  apply-IsEnd id w = elim (Option-cases (get_plan o id owner w)) [
    | inl missing ↦
        subst (IsEnd id w) (sym (missing_plan id w missing)) (refused permission_error refl refl)
    | inr (plan, found) ↦ subst (IsEnd id w) (sym (apply-plan o owner claim id w plan found)) (
        subst (λ i. IsEnd i w (apply_plan o owner claim plan w)) (get_plan-id id w plan found)
          (apply_plan-IsEnd plan w))
  ]
