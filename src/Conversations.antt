-- ===== src/Conversations.antt =====
-- Conversation turns: `_session_conn`, `bind_conn`, `has_earlier_work_conn` and `complete_conn` of
-- src/nyanya_agent/conversation_store.py.
pub mod Reset
use nyanya_agent.Prelude.{
  ℕ, ◌+◌, Bool, false, not, ◌&&◌, ◌||◌, Option, none, some, List, [], ◌∷◌, if◌then◌else◌, ◌==◌, ltb,
  is_id, Result, ok, err, ◌>>=◌, ◌>>◌, raise_if, require, permission_error, integrity_error,
  key_error, find, update, insert, any_row, first, latest,
}
use nyanya_agent.Ledger.{
  Ledger, Task, TaskStatus, Operation, OperationKind, Conversation, Turn, Outcome, task_keyed,
  operation_keyed, conversation_keyed, turn_keyed, result_keyed, task_status_coded, outcome_coded,
  ◌is◌, ◌among◌,
}
use nyanya_agent.Effects.{is_apply}

unfoldable pub same_scope : ℕ → ℕ → ℕ → Conversation → Bool
same_scope owner hash workspace s =
    s.owner == owner && s.conversation_hash == hash && s.workspace == workspace

-- The session of a scope, made if there is none; `fresh` is its new identifier.
unfoldable pub session_conn : ℕ → ℕ → ℕ → ℕ → Ledger → Result (Conversation × Ledger)
session_conn fresh owner hash workspace l =
    elim (first (same_scope owner hash workspace) l.conversations) [
      | some s ↦ ok (s, l)
      | none ↦ (do
        let s : Conversation = record {
          id = fresh;
          owner = owner;
          conversation_hash = hash;
          workspace = workspace;
          generation = 1;
          next_sequence = 1;
          pending_task = none;
          pending_execution = none;
        }
        rows ← insert s l.conversations
        ok (s, record l { conversations = rows }))
    ]

unfoldable pub in_generation : ℕ → ℕ → Turn → Bool
in_generation session generation r = r.session == session && r.generation == generation

unfoldable pub is_request : OperationKind → Bool
unfolding is_apply
is_request k = not (is_apply k)

unfoldable pub in_scope : ℕ → ℕ → ℕ → Option Conversation → Bool
in_scope owner hash workspace none = false
in_scope owner hash workspace (some s) = same_scope owner hash workspace s

-- UNIQUE(session_id, generation, sequence)
unfoldable pub sequence_taken : ℕ → ℕ → ℕ → List Turn → Bool
sequence_taken session generation sequence turns =
    any_row (λ r. in_generation session generation r && r.sequence == sequence) turns

unfoldable pub clear_pending : Conversation → Conversation
clear_pending s = record s {
  next_sequence = s.next_sequence + 1;
  pending_task = none;
  pending_execution = none;
}

-- The turn of a task that has none yet.
unfoldable pub new_turn : ℕ → Conversation → List Turn → Turn
new_turn task s turns = record {
  task = task;
  session = s.id;
  generation = s.generation;
  sequence = s.next_sequence;
  related_task = elim (latest (λ r. r.sequence) (in_generation s.id s.generation) turns) [
    | none ↦ none
    | some r ↦ some r.task
  ];
  is_question = false;
  completed_execution = none;
}

unfoldable pub append_turn : ℕ → Conversation → Ledger → Result Ledger
append_turn task s l = do
  raise_if (sequence_taken s.id s.generation s.next_sequence l.turns) integrity_error
  turns ← insert (new_turn task s l.turns) l.turns
  ok (record l { turns = turns; conversations = update s.id clear_pending l.conversations })

-- The guards of `bind_conn`.
unfoldable pub check_intake : ℕ → ℕ → ℕ → Ledger → Result (Unit {0})
check_intake task owner workspace l = do
  t ← require (find task l.tasks) permission_error
  o ← require (find task l.operations) permission_error
  raise_if (not (t.requested_by == owner)) permission_error
  raise_if (not (is_request o.spec.kind) || not (o.spec.workspace == workspace)) permission_error
  ok tt

unfoldable pub bind_conn : ℕ → ℕ → ℕ → ℕ → ℕ → Ledger → Result Ledger
bind_conn fresh task owner hash workspace l = do
  _ ← check_intake task owner workspace l
  elim (find task l.turns) [
    | some prior ↦ (do
      raise_if (not (in_scope owner hash workspace (find prior.session l.conversations)))
          permission_error
      ok l)
    | none ↦ (do (s, opened) ← session_conn fresh owner hash workspace l; append_turn task s opened)
  ]

unfoldable pub blocks_turn : Turn → Turn → Task → Operation → Bool
blocks_turn current earlier t o =
    t.status among (TaskStatus.running ∷ TaskStatus.cancelling ∷ [])
    || (ltb earlier.sequence current.sequence
        && t.status is TaskStatus.queued
        && o.eligible
        && ltb o.attempts o.max_attempts)

unfoldable pub earlier_work : Ledger → Turn → Turn → Bool
earlier_work l current earlier =
    in_generation current.session current.generation earlier
    && not (earlier.task == current.task)
    && any_row
        (λ t.
          t.id == earlier.task
          && any_row (λ o. o.task == t.id && blocks_turn current earlier t o) l.operations)
        l.tasks

unfoldable pub has_earlier_work_conn : ℕ → Ledger → Bool
has_earlier_work_conn task l =
    any_row (λ current. current.task == task && any_row (earlier_work l current) l.turns) l.turns

-- The live turn that `complete_conn` selects: the claim is the task's current attempt, its result
-- is stored, and the session has not been reset since.
unfoldable pub live_turn : ℕ → ℕ → Ledger → Result (Turn × Conversation)
live_turn task execution l = do
  turn ← require (find task l.turns) key_error
  s ← require (find turn.session l.conversations) key_error
  t ← require (find task l.tasks) key_error
  _ ← require (find execution l.results) key_error
  raise_if (not (is_id t.current_execution execution && turn.generation == s.generation)) key_error
  ok (turn, s)

unfoldable pub complete_turn : ℕ → Bool → Turn → Turn
complete_turn execution question r = record r {
  is_question = question;
  completed_execution = some execution;
}

unfoldable pub set_pending : Option ℕ → Option ℕ → Conversation → Conversation
set_pending task execution s = record s { pending_task = task; pending_execution = execution }

-- `question` is record["reply_kind"] = "question"; every other kind counts as an answer.
unfoldable pub complete_conn : ℕ → ℕ → Bool → Outcome → Ledger → Ledger
complete_conn task execution question outcome l = elim (live_turn task execution l) [
  | err e ↦ l
  | ok (turn, s) ↦
      let asked = outcome is Outcome.succeeded && question in
      let kept : Option ℕ → Option ℕ = λ x. if asked then x else none in
      record l {
        turns = update task (complete_turn execution question) l.turns;
        conversations =
            if turn.sequence + 1 == s.next_sequence
            then update s.id (set_pending (kept (some task)) (kept (some execution)))
                l.conversations
            else l.conversations;
      }
]

unfoldable pub next_generation : Conversation → Conversation
next_generation s = record s {
  generation = s.generation + 1;
  next_sequence = 1;
  pending_task = none;
  pending_execution = none;
}

-- `check_workspace` on the workspace comes first and is the caller's here.
unfoldable pub reset : ℕ → ℕ → ℕ → ℕ → Ledger → Result (ℕ × Ledger)
reset fresh owner hash workspace l = do
  (s, opened) ← session_conn fresh owner hash workspace l
  ok (
    s.generation + 1,
    record opened { conversations = update s.id next_generation opened.conversations },
  )
