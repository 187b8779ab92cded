-- ===== src/Operations/Upgrade.antt =====
-- `hold_legacy_for_quiesced_upgrade` of src/nyanya_agent/operation_store.py. The hold's note in a
-- task's metadata, which nothing reads, and the reason's text are left out.
use nyanya_agent.Prelude.{
  ℕ, Bool, true, false, not, ◌&&◌, ◌||◌, some, List, [], ◌∷◌, if◌then◌else◌, ◌==◌, ltb, is_id,
  is_some, Result, ok, ◌>>=◌, ◌>>◌, raise_if, safe_operation, find, update, update_where, any_row,
  select,
}
use nyanya_agent.Ledger.{
  Ledger, Task, TaskStatus, Execution, ExecutionStatus, Claim, WriterLease, EventType, task_keyed,
  execution_keyed, operation_keyed, task_terminal, execution_terminal, append_event, event,
  operation_legacy_upgrade_held, execution_legacy_upgrade_held,
}

unfoldable pub is_legacy_held : EventType → Bool
is_legacy_held EventType.operation_legacy_upgrade_held = true
is_legacy_held e = false

unfoldable pub live_attempt : ℕ → Execution → Bool
live_attempt task e = e.task == task && not (execution_terminal e.status)

unfoldable pub unreleased_claim : ℕ → Claim → Bool
unreleased_claim task c = c.task == task && not c.released

-- A task without an operation that is open and was not held, or still has an attempt or a claim.
unfoldable pub held_task : Ledger → Task → Bool
held_task l t =
    not (is_some (find t.id l.operations))
    && ((not (task_terminal t.status)
          && not (any_row (λ v. is_id v.task t.id && is_legacy_held v.event_type) l.events))
        || any_row (live_attempt t.id) l.executions
        || any_row (unreleased_claim t.id) l.claims)

unfoldable pub hold_task : ℕ → Task → Task
hold_task now t = record t {
  status = if task_terminal t.status then t.status else TaskStatus.blocked;
  updated_at = now;
}

unfoldable pub lose_attempt : ℕ → Execution → Execution
lose_attempt now e = record e {
  status = ExecutionStatus.lost;
  ended_at = some now;
  updated_at = now;
}

unfoldable pub lose_attempts : ℕ → List Execution → Ledger → Result Ledger
lose_attempts now [] l = ok l
lose_attempts now (e ∷ rows) l = do
  next ←
      (append_event (event execution_legacy_upgrade_held (some e.task) (some e.id))
        (record l { executions = update e.id (lose_attempt now) l.executions }))
  lose_attempts now rows next

unfoldable pub release_legacy : ℕ → Claim → Claim
release_legacy now c = record c { released = true; expires_at = now }

unfoldable pub lease_of_task : ℕ → ℕ → Ledger → WriterLease → Bool
lease_of_task task now l w =
    any_row (λ e. e.task == task && e.id == w.owner_id) l.executions && ltb now w.expires_at

unfoldable pub expire_lease : ℕ → WriterLease → WriterLease
expire_lease now w = record w { expires_at = now }

unfoldable pub hold_legacy_task : ℕ → Task → Ledger → Result Ledger
hold_legacy_task now t l = do
  lost ←
      (lose_attempts now (select (live_attempt t.id) l.executions)
        (record l { tasks = update t.id (hold_task now) l.tasks }))
  append_event (event operation_legacy_upgrade_held (some t.id) t.current_execution) (record lost {
    claims = update_where (unreleased_claim t.id) (release_legacy now) lost.claims;
    leases = update_where (lease_of_task t.id now lost) (expire_lease now) lost.leases;
  })

unfoldable pub hold_legacy_tasks : ℕ → List Task → Ledger → Result Ledger
hold_legacy_tasks now [] l = ok l
hold_legacy_tasks now (t ∷ rows) l = do
  next ← hold_legacy_task now t l
  hold_legacy_tasks now rows next

-- `reason_given`: the reason is not blank.
unfoldable pub hold_legacy_for_quiesced_upgrade : Bool → Bool → ℕ → Ledger → Result Ledger
hold_legacy_for_quiesced_upgrade writers_stopped reason_given now l = do
  raise_if (not writers_stopped || not reason_given) safe_operation
  hold_legacy_tasks now (select (held_task l) l.tasks) l
