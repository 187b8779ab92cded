-- ===== src/Apply/Resolved.antt =====
-- What the owner's resolution of an interrupted application establishes (`resolve` of
-- src/nyanya_agent/reviewed_changes.py).
use nyanya_agent.Operations.{check_workspace}
use nyanya_agent.Prelude.{
  permission_error, ℕ, ◌≡◌, ◌≢◌, refl, ◌⊎◌, Bool, true, false, none, some, inl, inr, List, [], ◌∷◌,
  arith, ◌==◌, Bool-cases, Option-cases, Result-cases, Result, ok, All, find, update, find-update,
}
use nyanya_agent.Prelude.Steps.{◌>>=◌, ◌>>◌, proceed, read-runs}
use nyanya_agent.Paths.{Text}
use nyanya_agent.Ledger.{Ledger, Task, TaskStatus, ChangePlan, PlanStatus, task_keyed, plan_keyed}
use nyanya_agent.Tasks.{set_task_status}
use nyanya_agent.Plans.{plan_event}
use nyanya_agent.Effects.{unresolved_effects}
use nyanya_agent.Apply.{
  World, Outside, Disk, set_plan_status, commit, get_plan, check_root, take_lock,
}
use nyanya_agent.Apply.Applied.{Stands, commit-runs, commit-disk, update-Stands}
use nyanya_agent.Apply.Observed.{Made, all_after-Made, Made-all_after}
use nyanya_agent.Apply.Resolution.{
  Evidence, observe, all_after, check_resolvable, resolution, child_end, settle_related,
  settle_parent, parent_end, related, resolve_conn, resolved_event,
}
use nyanya_agent.Apply.Resolve.{evidence_hash, observe_disk, check_seen, resolve_plan, resolve}

-- The task, where its row is there, is not completed.
abbrev pub Unfinished : ℕ → Ledger → Type 0
Unfinished task l = (t : Task) → find task l.tasks ≡ some t → t.status ≢ TaskStatus.completed

settle_related-plans :
    (plan : ℕ) (complete : Bool) (now : ℕ) (ts : List ℕ) (l l' : Ledger)
    → settle_related plan complete now ts l ≡ ok l'
    → l'.plans ≡ l.plans
unfolding settle_related plan_event
settle_related-plans plan complete now [] l l' h = cc
settle_related-plans plan complete now (t ∷ ts) l l' h =
    settle_related-plans plan complete now ts _ l' h

update-status :
    (i j now : ℕ) (status : TaskStatus) (tasks : List Task) (t : Task)
    → find j (update i (set_task_status status now) tasks) ≡ some t
    → (t.status ≡ status) ⊎ ((find j tasks ≡ some t) × (i ≢ j))
unfolding set_task_status
update-status i j now status tasks t there =
    let moved = find-update i j (set_task_status status now) tasks (λ r. refl) in
    elim (Bool-cases (i == j)) [
      | inr other ↦ inr (ground (arith, there, moved, other), ground (arith, other))
      | inl same ↦ elim (Option-cases (find j tasks)) [
        | inl missing ↦ absurd (ground (arith, there, moved, same, missing))
        | inr (r, found) ↦ inl (ground (arith, there, moved, same, found))
      ]
    ]

update-Unfinished :
    (task t now : ℕ) (status : TaskStatus) (l : Ledger)
    → status ≢ TaskStatus.completed
    → (x : Task) → find task (update t (set_task_status status now) l.tasks) ≡ some x
    → Unfinished task l
    → x.status ≢ TaskStatus.completed
update-Unfinished task t now status l unended x there before =
    elim (update-status t task now status l.tasks x there) [
      | inl moved ↦ λ done. unended (cc (moved, done))
      | inr (kept, other) ↦ before x kept
    ]

child-unfinished : (unresolved : Bool) → child_end false unresolved ≢ TaskStatus.completed
unfolding child_end
child-unfinished true h = cc h
child-unfinished false h = cc h

settle_related-Unfinished :
    (task plan now : ℕ) (ts : List ℕ) (l l' : Ledger)
    → Unfinished task l
    → settle_related plan false now ts l ≡ ok l'
    → Unfinished task l'
unfolding settle_related plan_event
settle_related-Unfinished task plan now [] l l' before h = λ x there. before x (cc (h, there))
settle_related-Unfinished task plan now (t ∷ ts) l l' before h =
    settle_related-Unfinished task plan now ts _ l'
      (λ x there.
        update-Unfinished task t now (child_end false (unresolved_effects t true l)) l
          (child-unfinished (unresolved_effects t true l)) x there before)
      h

abbrev logged : ChangePlan → Bool → Ledger → Ledger
logged plan complete l = record l {
  plans = update plan.id (set_plan_status (resolution complete)) l.plans;
  events = resolved_event plan l ∷ l.events;
}

-- The ledger that `resolve` leaves: the plan's, and the last loop's.
resolve_conn-runs :
    (plan : ChangePlan) (complete : Bool) (now : ℕ) (l l' : Ledger)
    → resolve_conn plan complete now l ≡ ok l'
    → settle_related plan.id complete now (related plan.id l) (
        settle_parent plan complete
          (unresolved_effects plan.task true (logged plan complete l))
          now
          (logged plan complete l))
      ≡ ok l'
unfolding resolve_conn resolved_event plan_event
resolve_conn-runs plan complete now l l' h = elim (Result-cases (check_resolvable plan now l)) [
  | inl (u, fine) ↦ ground (arith, h, fine)
  | inr (e, refused) ↦ absurd (ground (arith, h, refused))
]

resolve_conn-Stands :
    (plan : ChangePlan) (complete : Bool) (now : ℕ) (l l' : Ledger)
    → resolve_conn plan complete now l ≡ ok l'
    → Stands plan.id (resolution complete) l'
unfolding settle_parent
resolve_conn-Stands plan complete now l l' h p there =
    let later = logged plan complete l in
    let unresolved = unresolved_effects plan.task true later in
    update-Stands plan.id (resolution complete) l.plans p (
      cc (
        there,
        settle_related-plans plan.id complete now (related plan.id l)
            (settle_parent plan complete unresolved now later) l'
            (resolve_conn-runs plan complete now l l' h),
      ))

parent-unfinished : (unresolved : Bool) → parent_end false unresolved ≢ TaskStatus.completed
unfolding parent_end
parent-unfinished unresolved h = cc h

settle_parent-Unfinished :
    (plan : ChangePlan) (unresolved : Bool) (now : ℕ) (l : Ledger)
    → Unfinished plan.task (settle_parent plan false unresolved now l)
unfolding settle_parent
settle_parent-Unfinished plan unresolved now l x there =
    elim (update-status plan.task plan.task now (parent_end false unresolved) l.tasks x there) [
      | inl moved ↦ λ done. parent-unfinished unresolved (cc (moved, done))
      | inr (kept, other) ↦ absurd (other refl)
    ]

resolve_conn-Unfinished :
    (plan : ChangePlan) (now : ℕ) (l l' : Ledger)
    → resolve_conn plan false now l ≡ ok l'
    → Unfinished plan.task l'
resolve_conn-Unfinished plan now l l' h =
    let later = logged plan false l in
    let unresolved = unresolved_effects plan.task true later in
    settle_related-Unfinished plan.task plan.id now (related plan.id l)
      (settle_parent plan false unresolved now later) l'
      (settle_parent-Unfinished plan unresolved now later) (resolve_conn-runs plan false now l l' h)

-- How a resolution leaves the plan and its task.
pub data IsResolved (o : Outside) (plan : ChangePlan) (disk : Disk) (l : Ledger) : Type 0 where
  confirmed :
      All (Made o disk) plan.changes
      → Stands plan.id PlanStatus.applied l
      → IsResolved o plan disk l
  partial :
      (All (Made o disk) plan.changes → ⊥)
      → Stands plan.id PlanStatus.reconciled l
      → Unfinished plan.task l
      → IsResolved o plan disk l

resolve_conn-IsResolved :
    (o : Outside) (plan : ChangePlan) (disk : Disk) (complete : Bool) (now : ℕ) (l l' : Ledger)
    → all_after (observe o disk plan.changes) ≡ complete
    → resolve_conn plan complete now l ≡ ok l'
    → IsResolved o plan disk l'
unfolding resolution
resolve_conn-IsResolved o plan disk true now l l' seen h =
    confirmed (all_after-Made o disk plan.changes seen) (resolve_conn-Stands plan true now l l' h)
resolve_conn-IsResolved o plan disk false now l l' seen h =
    partial (λ made. cc (seen, Made-all_after o disk plan.changes made))
      (resolve_conn-Stands plan false now l l' h) (resolve_conn-Unfinished plan now l l' h)

module _ (o : Outside) (dumps : List Evidence → Text) (owner : ℕ) where
  resolve_plan-runs :
      (observed_hash : ℕ) (plan : ChangePlan) (w w' : World)
      → resolve_plan o dumps owner observed_hash plan w ≡ (ok tt, w')
      → (evidence_hash o dumps (observe o w.disk plan.changes) ≡ observed_hash)
        × (commit o plan owner none
              (λ tick l.
                resolve_conn plan (all_after (observe o w.disk plan.changes)) (o.clock tick) l)
              w
            ≡ (ok tt, w'))
  unfolding resolve_plan check_root take_lock observe_disk check_seen ◌>>=◌ ◌>>◌ proceed
  resolve_plan-runs observed_hash plan w w' h =
      elim (Result-cases (check_workspace o.workspaces plan.workspace owner)) [
        | inr (e, outside) ↦ absurd (ground (arith, h, outside))
        | inl (root, fine) ↦ elim (Bool-cases o.lock_granted) [
          | inr busy ↦ absurd (ground (arith, h, fine, busy))
          | inl granted ↦
              elim (Bool-cases
                (evidence_hash o dumps (observe o w.disk plan.changes) == observed_hash)) [
                  | inr changed ↦ absurd (ground (arith, h, fine, granted, changed))
                  | inl seen ↦ (ground (arith, seen), ground (arith, h, fine, granted, seen))
                ]
        ]
      ]

  -- A resolution that returns was of the files as the owner has seen them, by the hash of the
  -- evidence, and has written no file. Either every file is as the plan leaves it, and the plan, if
  -- its row is there, stands as applied; or some file is not, the plan stands as reconciled, and its
  -- task is not completed.
  pub resolve-IsResolved :
      (id observed_hash : ℕ) (plan : ChangePlan) (w w' : World)
      → get_plan o id owner w ≡ some plan
      → resolve o dumps id owner observed_hash w ≡ (ok tt, w')
      → (evidence_hash o dumps (observe o w.disk plan.changes) ≡ observed_hash)
        × (w'.disk ≡ w.disk)
        × IsResolved o plan w.disk w'.ledger
  unfolding resolve
  resolve-IsResolved id observed_hash plan w w' found h =
      let (p, there, h1) =
        read-runs (get_plan o id owner) permission_error (resolve_plan o dumps owner observed_hash)
          w h in
      let complete = all_after (observe o w.disk plan.changes) in
      let (seen, committed) = resolve_plan-runs observed_hash plan w w' (cc (h1, there, found)) in
      let f : ℕ → Ledger → Result Ledger = λ tick l. resolve_conn plan complete (o.clock tick) l in
      let (l, resolved) = commit-runs o owner none plan f w w' committed in
      (
        seen,
        cc (committed, commit-disk o owner none plan f w),
        resolve_conn-IsResolved o plan w.disk complete (o.clock w.tick) l w'.ledger refl resolved,
      )
