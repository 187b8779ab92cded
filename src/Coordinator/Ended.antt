-- ===== src/Coordinator/Ended.antt =====
-- How the coordinator of src/nyanya_agent/execution_runtime.py ends an execution.
use mathlib.Core.Path.{subst}
use nyanya_agent.Prelude.{
  ℕ, ◌≡◌, ◌≢◌, refl, Bool, true, false, Option, none, some, runtime_error, value_error, key_error,
  inl, inr, arith, if◌then◌else◌, Bool-cases, Option-cases, Result-cases, ok, find, find-update,
  find-update_if, find-key,
}
use nyanya_agent.Ledger.{
  Ledger, Execution, ExecutionStatus, ExecutionMetadata, LeaseNote, SessionStatus, WriterLease,
  execution_keyed, lease_keyed, execution_status_code, execution_status_code-injective,
  execution_status_coded, ◌is◌, execution_terminal, whole_second, RuntimeSession,
}
use nyanya_agent.Leases.{release_writer_lease, releasable, released}
use nyanya_agent.Executions.{
  transition_execution, heartbeat_runtime_session, set_execution_status, beat, beat_execution,
}
use nyanya_agent.Executions.Lifecycle.{execution_status_of}
use nyanya_agent.Executions.Contract.{transition_execution-IsTransition}
use nyanya_agent.Coordinator.{
  no_metadata, Adapter, transition, heartbeat, release_lease, release_note, asked, session_for,
}
use nyanya_agent.Prelude.Steps.{
  Run, ◌>>=◌, ◌>>◌, return, transact, read, >>=-runs, >>-runs, read-runs, proceed,
}
use nyanya_agent.Coordinator.Observe.{
  confirm_cancel, stop_session, cancel_session, cancel_found, cancel,
}

-- The lease that an execution notes is not held any more.
abbrev pub IsReleased : Execution → Ledger → Type 0
IsReleased e l =
    (note : LeaseNote) (r : WriterLease)
    → e.metadata.writer_lease ≡ some note
    → find note.resource_key l.leases ≡ some r
    → r.owner_id ≡ e.id
    → r.fence_token ≡ note.fence_token
    → r.expires_at ≡ 0

pub record IsEnded (id : ℕ) (status : ExecutionStatus) (e : Execution) (l : Ledger) : Type 0 where
  pub same : e.id ≡ id
  pub returned : e.status ≡ status
  pub stored : execution_status_of id l ≡ some status
  pub lease_free : IsReleased e l

pub transition-runs :
    (id : ℕ) (status : ExecutionStatus) (metadata : ExecutionMetadata) (force : Bool)
    (actor clock : ℕ) (l : Ledger) {e : Execution} {l' : Ledger}
    → transition id status metadata force actor clock l ≡ (ok e, l')
    → (transition_execution id status metadata force actor clock l ≡ ok l')
      × (find id l'.executions ≡ some e)
unfolding transition transact ◌>>=◌ ◌>>◌ proceed read
transition-runs id status metadata force actor clock l {e} {l'} h =
    elim (Result-cases (transition_execution id status metadata force actor clock l)) [
      | inr (x, refused) ↦ absurd (ground (arith, refused))
      | inl (l1, done) ↦ elim (Option-cases (find id l1.executions)) [
        | inl missing ↦ absurd (ground (arith, done, missing))
        | inr (e1, there) ↦ (ground (arith, done, there), ground (arith, done, there))
      ]
    ]

pub transition-sets :
    (id : ℕ) (status : ExecutionStatus) (metadata : ExecutionMetadata) (force : Bool)
    (actor clock : ℕ) (l : Ledger) {e : Execution} {l' : Ledger}
    → transition id status metadata force actor clock l ≡ (ok e, l')
    → (e.id ≡ id) × (e.status ≡ status) × (find id l'.executions ≡ some e)
transition-sets id status metadata force actor clock l {e} {l'} h =
    let (done, there) = transition-runs id status metadata force actor clock l h in
    let t = transition_execution-IsTransition id status metadata force actor clock l done in
    (
      find-key id l'.executions there,
      (unfold set_execution_status in ground (arith, there, t.after)),
      there,
    )

heartbeat-status :
    (id adapter : ℕ) (status : SessionStatus) (e handle clock : ℕ) (l l' : Ledger)
    → heartbeat id adapter status (some e) (some handle) clock l ≡ (ok tt, l')
    → execution_status_of e l' ≡ execution_status_of e l
unfolding heartbeat transact heartbeat_runtime_session beat_execution beat
heartbeat-status id adapter status e handle clock l l' h =
    ground (arith, find-update e e (beat (whole_second clock)) l.executions (λ r. refl))

release-IsReleased :
    (e : Execution) (l l' : Ledger)
    → release_lease e l ≡ (ok tt, l')
    → IsReleased e l' × (l'.executions ≡ l.executions)
unfolding release_lease release_note release_writer_lease releasable released
release-IsReleased e l l' h = elim (Option-cases e.metadata.writer_lease) [
  | inl none_noted ↦ ((λ note r noted found owner fence. cc), ground (arith, none_noted))
  | inr (n, noted) ↦ (
    (λ note r noted' found owner fence. ground (
      arith,
      noted,
      find-update_if n.resource_key n.resource_key (releasable e.id n.fence_token) released l.leases
          (λ r. refl),
    )),
    ground (arith, noted),
  )
]

-- The end of every branch that ends an execution with a session.
module _ (id adapter session clock1 clock2 : ℕ) (session_status : SessionStatus) (handle : ℕ) where
  abbrev close_session : Execution → Run Ledger Execution
  close_session ended = do
    heartbeat session adapter session_status (some id) (some handle) clock2
    release_lease ended
    return ended

  close_session-IsEnded :
      (status : ExecutionStatus) (t : Execution) (l : Ledger) {e : Execution} {l' : Ledger}
      → t.id ≡ id
      → t.status ≡ status
      → find id l.executions ≡ some t
      → close_session t l ≡ (ok e, l')
      → IsEnded id status e l'
  unfolding return
  close_session-IsEnded status t l {e} {l'} same set there h =
      let (u, l2, beaten, h2) =
        >>-runs (heartbeat session adapter session_status (some id) (some handle) clock2)
          (release_lease t >> return t) l h in
      let (v, l3, freed, h3) = >>-runs (release_lease t) (return t) l2 h2 in
      let k = heartbeat-status session adapter session_status id handle clock2 l l2 beaten in
      let r = release-IsReleased t l2 l3 freed in
      let last : ◌≡◌ {A = Execution × Ledger} (t, l3) (e, l') = ground (arith, h3) in
      subst (λ x. IsEnded id status x.0 x.1) last
        (record {
          same = same;
          returned = set;
          stored = ground (arith, k, r.1, there);
          lease_free = r.0;
        })

  pub end_session-IsEnded :
      (status : ExecutionStatus) (metadata : ExecutionMetadata) (force : Bool) (actor : ℕ)
      (l : Ledger) {e : Execution} {l' : Ledger}
      → (transition id status metadata force actor clock1 >>= close_session) l ≡ (ok e, l')
      → IsEnded id status e l'
  end_session-IsEnded status metadata force actor l {e} {l'} h =
      let (t, l1, moved, h1) =
        >>=-runs (transition id status metadata force actor clock1) close_session l h in
      let (same, set, there) = transition-sets id status metadata force actor clock1 l moved in
      close_session-IsEnded status t l1 same set there h1

module _ (clock : ℕ → ℕ) (adapters : ℕ → Option Adapter) (meanwhile : Ledger → Ledger) where
  -- The adapter of an execution, and the handle of the session that it has.
  pub record Asked (e : Execution) (l : Ledger) (adapter : Adapter) (handle : ℕ) : Type 0 where
    pub session : RuntimeSession
    pub found : session_for e.id l ≡ some session
    pub handle_of : session.handle ≡ some handle
    pub known : adapters e.adapter ≡ some adapter

  -- What `cancel` can answer.
  pub data CancelAnswer (e : Execution) (l : Ledger) (answer : Execution) (l' : Ledger)
      : Type 0 where
    already : execution_terminal e.status ≡ true → answer ≡ e → l' ≡ l → CancelAnswer e l answer l'
    no_session :
        execution_terminal e.status ≡ false
        → session_for e.id l ≡ none
        → answer.status ≡ ExecutionStatus.lost
        → find e.id l'.executions ≡ some answer
        → CancelAnswer e l answer l'
    stopped :
        execution_terminal e.status ≡ false
        → (adapter : Adapter) (handle : ℕ) → Asked e l adapter handle
        → (adapter.cancel handle).status ≡ ExecutionStatus.cancelled
        → IsEnded e.id ExecutionStatus.cancelled answer l'
        → CancelAnswer e l answer l'
    unconfirmed :
        execution_terminal e.status ≡ false
        → (adapter : Adapter) (handle : ℕ) → Asked e l adapter handle
        → (adapter.cancel handle).status ≢ ExecutionStatus.cancelled
        → IsEnded e.id ExecutionStatus.lost answer l'
        → CancelAnswer e l answer l'

  confirm_cancel-CancelAnswer :
      (e : Execution) (s : RuntimeSession) (actor handle : ℕ) (adapter : Adapter) (l0 l : Ledger)
      {answer : Execution} {l' : Ledger}
      → execution_terminal e.status ≡ false
      → Asked e l0 adapter handle
      → confirm_cancel clock adapters meanwhile e s actor handle
          ((adapter.cancel handle).status is ExecutionStatus.cancelled)
          l
        ≡ (ok answer, l')
      → CancelAnswer e l0 answer l'
  unfolding confirm_cancel
  confirm_cancel-CancelAnswer e s actor handle adapter l0 l live known h =
      elim (Bool-cases ((adapter.cancel handle).status is ExecutionStatus.cancelled)) [
        | inl confirmed ↦
            stopped live adapter handle known
              (execution_status_code-injective _ _ (ground (arith, confirmed)))
              (end_session-IsEnded e.id e.adapter s.id (clock 3) (clock 4) SessionStatus.cancelled
                handle ExecutionStatus.cancelled no_metadata true actor l
                (ground (arith, h, confirmed)))
        | inr unsure ↦
            unconfirmed live adapter handle known
              (λ p. unfold execution_status_code in ground (arith, p, unsure))
              (end_session-IsEnded e.id e.adapter s.id (clock 3) (clock 4) SessionStatus.failed
                handle ExecutionStatus.lost no_metadata true actor l (ground (arith, h, unsure)))
      ]

  stop_session-CancelAnswer :
      (e : Execution) (s : RuntimeSession) (actor handle : ℕ) (adapter : Adapter) (l : Ledger)
      {answer : Execution} {l' : Ledger}
      → execution_terminal e.status ≡ false
      → Asked e l adapter handle
      → stop_session clock adapters meanwhile e s actor handle adapter l ≡ (ok answer, l')
      → CancelAnswer e l answer l'
  unfolding stop_session asked ◌>>=◌ proceed
  stop_session-CancelAnswer e s actor handle adapter l live known h =
      let (t, l1, moved, h1) =
        >>=-runs (transition e.id ExecutionStatus.cancelling no_metadata true actor (clock 2))
          (λ t. asked meanwhile (ok (adapter.cancel handle)) >>= λ observation.
            confirm_cancel clock adapters meanwhile e s actor handle
              (observation.status is ExecutionStatus.cancelled))
          l h in
      confirm_cancel-CancelAnswer e s actor handle adapter l (meanwhile l1) live known h1

  cancel_session-CancelAnswer :
      (e : Execution) (s : RuntimeSession) (actor : ℕ) (l : Ledger) {answer : Execution}
      {l' : Ledger}
      → execution_terminal e.status ≡ false
      → session_for e.id l ≡ some s
      → cancel_session clock adapters meanwhile e s actor l ≡ (ok answer, l')
      → CancelAnswer e l answer l'
  unfolding cancel_session
  cancel_session-CancelAnswer e s actor l live found h =
      let (handle, got, h1) =
        read-runs (λ l. s.handle) runtime_error
          (λ handle.
            read (λ l. adapters e.adapter) value_error
            >>= stop_session clock adapters meanwhile e s actor handle)
          l h in
      let (adapter, known, h2) =
        read-runs (λ l. adapters e.adapter) value_error
          (stop_session clock adapters meanwhile e s actor handle) l h1 in
      stop_session-CancelAnswer e s actor handle adapter l live
        (record { session = s; found = found; handle_of = got; known = known }) h2

  cancel_found-CancelAnswer :
      (e : Execution) (found : Option RuntimeSession) (actor : ℕ) (l : Ledger) {answer : Execution}
      {l' : Ledger}
      → execution_terminal e.status ≡ false
      → session_for e.id l ≡ found
      → cancel_found clock adapters meanwhile e found actor l ≡ (ok answer, l')
      → CancelAnswer e l answer l'
  unfolding cancel_found
  cancel_found-CancelAnswer e none actor l live missing h =
      let (same, set, there) =
        transition-sets e.id ExecutionStatus.lost no_metadata true actor (clock 2) l h in
      no_session live missing set there
  cancel_found-CancelAnswer e (some s) actor l live there h =
      cancel_session-CancelAnswer e s actor l live there h

  -- What a cancellation that returns has done: nothing to the ledger where the execution had ended;
  -- otherwise, without a session, the execution is stored as lost, and with one it is stored as
  -- cancelled exactly where its adapter, asked with the session's handle, confirms it and as lost
  -- otherwise, and its writer lease is released. Whatever other processes did meanwhile.
  pub cancel-CancelAnswer :
      (id actor : ℕ) (l : Ledger) {answer : Execution} {l' : Ledger}
      → cancel clock adapters meanwhile id actor l ≡ (ok answer, l')
      → (e : Execution) × (find id l.executions ≡ some e) × CancelAnswer e l answer l'
  unfolding cancel
  cancel-CancelAnswer id actor l {answer} {l'} h =
      let (e, there, h1) =
        read-runs (λ l. find id l.executions) key_error
          (λ e.
            if execution_terminal e.status
            then return e
            else read (λ l. some (session_for id l)) key_error >>= λ s.
                cancel_found clock adapters meanwhile e s actor)
          l h in
      (
        e,
        there,
        elim (Bool-cases (execution_terminal e.status)) [
          | inl over ↦
              already over (unfold return in ground (arith, h1, over))
                (unfold return in ground (arith, h1, over))
          | inr live ↦
              let rest : (read (λ l. some (session_for id l)) key_error >>= λ s.
              cancel_found clock adapters meanwhile e s actor)
                    l
                  ≡ (ok answer, l') =
                ground (arith, h1, live) in
              let (s, found, h2) =
                read-runs (λ l. some (session_for id l)) key_error
                  (λ s. cancel_found clock adapters meanwhile e s actor) l rest in
              cancel_found-CancelAnswer e s actor l live
                (cc (find-key id l.executions there, found)) h2
        ],
      )
