-- ===== src/Ledger/Events.antt =====
-- `append_event_conn` of src/nyanya_agent/execution_store.py and `log_audit` of database.py.
use nyanya_agent.Prelude.{
  ℕ, ◌||◌, Option, none, [], ◌∷◌, is_some, if◌then◌else◌, Result, ok, err, integrity_error,
}
use nyanya_agent.Ledger.Rows.{Ledger, Event, EventType}

-- The table's CHECK refuses an event of neither a task nor an execution.
abbrev pub append_event : Event → Ledger → Result Ledger
append_event e l =
    if is_some e.task || is_some e.execution
    then ok (record l { events = e ∷ l.events })
    else err integrity_error

abbrev pub event : EventType → Option ℕ → Option ℕ → Event
event event_type task execution = record {
  event_type = event_type;
  task = task;
  execution = execution;
  plan = none;
  resolved = [];
}

abbrev pub log_audit : ℕ → EventType → ℕ → Ledger → Ledger
log_audit actor event_type entity l = record l {
  audits = record { actor = actor; event_type = event_type; entity = entity } ∷ l.audits;
}
