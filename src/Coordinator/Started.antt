-- ===== src/Coordinator/Started.antt =====
-- What a command that `start_command` of src/nyanya_agent/execution_runtime.py has started needed.
use nyanya_agent.Prelude.{
  ℕ, ◌+◌, max, none, runtime_error, ◌≡◌, ◌≢◌, ◌∙◌, true, false, Option, some, inl, inr, arith,
  value_error, Option-cases, ok, Error, find,
}
use nyanya_agent.Ledger.{
  Ledger, Execution, ExecutionStatus, ExecutionMetadata, SessionStatus, Approval, approval_keyed,
  WriterLease,
}
use nyanya_agent.Approvals.{check_approval, set_consumed, usable}
use nyanya_agent.Approvals.SingleUse.{IsFinal, check_approval-consumes}
use nyanya_agent.Leases.{acquire_writer_lease}
use nyanya_agent.Executions.{
  NewExecution, create_execution, transition_execution, write_transition, heartbeat_runtime_session,
}
use nyanya_agent.Coordinator.{
  no_metadata, system_actor, Adapter, StartRequest, transition, heartbeat, release_lease, asked,
}
use nyanya_agent.Prelude.Steps.{
  Run, ◌>>=◌, ◌>>◌, raise, return, transact, try_except, >>=-runs, >>-runs, read-runs,
  transact-runs, try_except-runs,
}
use nyanya_agent.Coordinator.Granted.{IsGranted, usable-IsGranted}
use nyanya_agent.Coordinator.Start.{
  write_guard, acquire, lease_note, leased, start_row, take_lease, consume_guard, abandon, launch,
  start_command,
}
use nyanya_agent.Coordinator.Ended.{transition-runs, transition-sets}

approvals-write_guard :
    (r : StartRequest) (clock : ℕ) (l l' : Ledger)
    → write_guard r clock l ≡ (ok tt, l')
    → l'.approvals ≡ l.approvals
unfolding write_guard raise return
approvals-write_guard r clock l l' h = elim (Option-cases r.write_resource_key) [
  | inl reads ↦ ground (arith, h, reads)
  | inr (key, writes) ↦ elim (Option-cases r.approval_id) [
    | inl missing ↦ absurd (ground (arith, h, writes, missing))
    | inr (approval, given) ↦
        let checked =
          transact-runs (check_approval approval r.task r.scope_hash none clock) l {l' = l'}
            (ground (arith, h, writes, given)) in
        (unfold check_approval in ground (arith, checked))
  ]
]

approvals-create :
    (n : NewExecution) (clock : ℕ) (l l' : Ledger)
    → transact (create_execution n clock) l ≡ (ok tt, l')
    → l'.approvals ≡ l.approvals
unfolding create_execution
approvals-create n clock l l' h =
    ground (arith, transact-runs (create_execution n clock) l {l' = l'} h)

abandon-raises :
    (clock : ℕ → ℕ) (id : ℕ) (e : Error) (l : Ledger) {handle : ℕ} {l' : Ledger}
    → abandon clock id e l ≢ (ok handle, l')
unfolding abandon
abandon-raises clock id e l h =
    let (failed, l1, moved, h1) =
      >>=-runs (transition id ExecutionStatus.failed no_metadata false system_actor (clock 5))
        (λ failed. release_lease failed >> raise e) l h in
    let (u, l2, freed, h2) = >>-runs (release_lease failed) (raise e) l1 h1 in unfold raise in cc h2

approvals-transition :
    (id : ℕ) (status : ExecutionStatus) (metadata : ExecutionMetadata) (actor clock : ℕ)
    (l : Ledger) {e : Execution} {l' : Ledger}
    → transition id status metadata false actor clock l ≡ (ok e, l')
    → l'.approvals ≡ l.approvals
unfolding transition_execution write_transition
approvals-transition id status metadata actor clock l h =
    ground (arith, (transition-runs id status metadata false actor clock l h).0)

approvals-heartbeat :
    (id adapter : ℕ) (status : SessionStatus) (e handle clock : ℕ) (l l' : Ledger)
    → heartbeat id adapter status (some e) (some handle) clock l ≡ (ok tt, l')
    → l'.approvals ≡ l.approvals
unfolding heartbeat heartbeat_runtime_session
approvals-heartbeat id adapter status e handle clock l l' h = ground (
  arith,
  transact-runs (heartbeat_runtime_session id adapter status (some e) (some handle) clock) l h,
)

consume_guard-consumes :
    (clock : ℕ → ℕ) (r : StartRequest) (l l' : Ledger) {key : ℕ}
    → r.write_resource_key ≡ some key
    → consume_guard clock r l ≡ (ok tt, l')
    → (approval : ℕ) × (r.approval_id ≡ some approval)
      × (check_approval approval r.task r.scope_hash (some r.execution) (clock 4) l ≡ ok l')
unfolding consume_guard raise
consume_guard-consumes clock r l l' writes h = elim (Option-cases r.approval_id) [
  | inl missing ↦ absurd (ground (arith, writes, missing))
  | inr (approval, given) ↦ (
    approval,
    given,
    transact-runs (check_approval approval r.task r.scope_hash (some r.execution) (clock 4)) l
        (ground (arith, h, writes, given)),
  )
]

approvals-leased :
    (clock : ℕ → ℕ) (r : StartRequest) (key : ℕ) (lease : Option WriterLease) (l l' : Ledger)
    → leased clock r key lease l ≡ (ok tt, l')
    → l'.approvals ≡ l.approvals
unfolding leased
approvals-leased clock r key none l l' h =
    let (failed, l1, moved, h1) =
      >>=-runs
        (transition r.execution ExecutionStatus.failed no_metadata false system_actor (clock 3))
        (λ failed. raise runtime_error) l h in
    absurd (unfold raise in cc h1)
approvals-leased clock r key (some lease) l l' h =
    let (moved, l1, h0, h1) =
      >>=-runs
        (transition r.execution ExecutionStatus.starting (lease_note key lease) false system_actor
          (clock 3))
        (λ moved. return tt) l h in
    let kept =
      approvals-transition r.execution ExecutionStatus.starting (lease_note key lease) system_actor
        (clock 3) l h0 in
    (unfold return in ground (arith, h1, kept))

approvals-acquire :
    (key owner ttl clock : ℕ) (l l' : Ledger) {lease : Option WriterLease}
    → acquire key owner ttl clock l ≡ (ok lease, l')
    → l'.approvals ≡ l.approvals
unfolding acquire acquire_writer_lease
approvals-acquire key owner ttl clock l l' h = ground (arith, h)

approvals-take_lease :
    (clock : ℕ → ℕ) (r : StartRequest) (l l' : Ledger)
    → take_lease clock r l ≡ (ok tt, l')
    → l'.approvals ≡ l.approvals
unfolding take_lease return
approvals-take_lease clock r l l' h = elim (Option-cases r.write_resource_key) [
  | inl reads ↦ ground (arith, h, reads)
  | inr (key, writes) ↦
      let (lease, l1, got, h1) =
        >>=-runs (acquire key r.execution (max 60 (r.timeout_seconds + 30)) (clock 2))
          (leased clock r key) l {l' = l'} (ground (arith, h, writes)) in
      approvals-leased clock r key lease l1 l' h1
      ∙ approvals-acquire key r.execution (max 60 (r.timeout_seconds + 30)) (clock 2) l l1 got
]

module _ (clock : ℕ → ℕ) (adapters : ℕ → Option Adapter) (meanwhile : Ledger → Ledger) where
  abbrev running_from : StartRequest → ℕ → Run Ledger Execution
  running_from r handle = do
    heartbeat r.execution r.adapter SessionStatus.running (some r.execution) (some handle) (clock 6)
    transition r.execution ExecutionStatus.running
        (record no_metadata { runtime_session = some r.execution }) false system_actor (clock 7)

  running_from-ends :
      (r : StartRequest) (handle : ℕ) (l : Ledger) {e : Execution} {l' : Ledger}
      → running_from r handle l ≡ (ok e, l')
      → (e.status ≡ ExecutionStatus.running) × (l'.approvals ≡ l.approvals)
  running_from-ends r handle l h =
      let metadata = record no_metadata { runtime_session = some r.execution } in
      let (u, l1, beaten, h1) =
        >>-runs
          (heartbeat r.execution r.adapter SessionStatus.running (some r.execution) (some handle)
            (clock 6))
          (transition r.execution ExecutionStatus.running metadata false system_actor (clock 7)) l
          h in
      (
        (transition-sets r.execution ExecutionStatus.running metadata false system_actor (clock 7)
            l1 h1).1,
        approvals-transition r.execution ExecutionStatus.running metadata system_actor (clock 7) l1
              h1
            ∙ approvals-heartbeat r.execution r.adapter SessionStatus.running r.execution handle
                (clock 6) l l1 beaten,
      )

  launch-consumes :
      (r : StartRequest) (adapter : Adapter) (l : Ledger) {key handle : ℕ} {l' : Ledger}
      → ((l : Ledger) (i : ℕ) (a : Approval)
          → IsFinal a.status
          → find i l.approvals ≡ some a
          → find i (meanwhile l).approvals ≡ some a)
      → r.write_resource_key ≡ some key
      → launch clock adapters meanwhile r adapter l ≡ (ok handle, l')
      → (approval : ℕ) × (a : Approval) × (r.approval_id ≡ some approval)
        × (find approval l.approvals ≡ some a)
        × (usable r.task r.scope_hash (clock 4) a ≡ true)
        × (find approval l'.approvals ≡ some (set_consumed r.execution a))
  unfolding launch asked set_consumed
  launch-consumes r adapter l {l' = l'} keeps writes h =
      let (u, l1, guarded, h1) =
        >>-runs (consume_guard clock r) (asked meanwhile (adapter.start r.execution)) l h in
      let (approval, given, checked) = consume_guard-consumes clock r l l1 writes guarded in
      let (a, stored, used, row) =
        check_approval-consumes approval r.task r.scope_hash r.execution (clock 4) l checked in
      let kept = keeps l1 approval (set_consumed r.execution a) ((λ p. cc), (λ p. cc)) row in
      let here : meanwhile l1 ≡ l' = ground (arith, h1) in
      (approval, a, given, stored, used, cc (kept, here))

  -- The last steps of `start_command`, after the lease.
  abbrev launched : StartRequest → Adapter → Run Ledger Execution
  launched r adapter =
      try_except (launch clock adapters meanwhile r adapter) (abandon clock r.execution)
      >>= running_from r

  start_command-launched :
      (r : StartRequest) (l : Ledger) {e : Execution} {l' : Ledger}
      → start_command clock adapters meanwhile r l ≡ (ok e, l')
      → (adapter : Adapter) × (l1 : Ledger) × (l1.approvals ≡ l.approvals)
        × (launched r adapter l1 ≡ (ok e, l'))
  unfolding start_command
  start_command-launched r l h =
      let (adapter, known, h1) =
        read-runs (λ l. adapters r.adapter) value_error
          (λ adapter.
            write_guard r (clock 0)
            >> (transact (create_execution (start_row r) (clock 1))
                >> (take_lease clock r >> launched r adapter)))
          l h in
      let (u1, l2, ok1, h2) =
        >>-runs (write_guard r (clock 0))
          (transact (create_execution (start_row r) (clock 1))
            >> (take_lease clock r >> launched r adapter))
          l h1 in
      let (u2, l3, ok2, h3) =
        >>-runs (transact (create_execution (start_row r) (clock 1)))
          (take_lease clock r >> launched r adapter) l2 h2 in
      let (u3, l4, ok3, h4) = >>-runs (take_lease clock r) (launched r adapter) l3 h3 in
      let same =
        approvals-take_lease clock r l3 l4 ok3
        ∙ approvals-create (start_row r) (clock 1) l2 l3 ok2
        ∙ approvals-write_guard r (clock 0) l l2 ok1 in
      (adapter, l4, same, h4)

  -- A write-capable command that `start_command` reports as started runs under the stored approval
  -- that it names: one that was approved by the actor authorized to, for exactly its task and command
  -- scope, and unexpired when it was consumed, and that is bound to this execution from then on, if
  -- other processes leave a consumed approval as it is.
  pub start_command_consumes :
      (r : StartRequest) (l : Ledger) {key : ℕ} {e : Execution} {l' : Ledger}
      → ((l : Ledger) (i : ℕ) (a : Approval)
          → IsFinal a.status
          → find i l.approvals ≡ some a
          → find i (meanwhile l).approvals ≡ some a)
      → r.write_resource_key ≡ some key
      → start_command clock adapters meanwhile r l ≡ (ok e, l')
      → (e.status ≡ ExecutionStatus.running)
        × ((approval : ℕ) × (a : Approval) × (r.approval_id ≡ some approval)
            × (find approval l.approvals ≡ some a)
            × IsGranted r.task r.scope_hash (clock 4) a
            × (find approval l'.approvals ≡ some (set_consumed r.execution a)))
  start_command_consumes r l keeps writes h =
      let (adapter, l1, unchanged, h1) = start_command-launched r l h in
      let (handle, l2, tried, h2) =
        >>=-runs
          (try_except (launch clock adapters meanwhile r adapter) (abandon clock r.execution))
          (running_from r) l1 h1 in
      let (runs, same) = running_from-ends r handle l2 h2 in
      let (approval, a, given, stored, used, row) = launch-consumes r adapter l1 keeps writes (
        try_except-runs (launch clock adapters meanwhile r adapter) (abandon clock r.execution) l1
          (λ x l3. abandon-raises clock r.execution x l3) tried) in
      (
        runs,
        (
          approval,
          a,
          given,
          cc (unchanged, stored),
          usable-IsGranted r.task r.scope_hash (clock 4) a used,
          cc (same, row),
        ),
      )
