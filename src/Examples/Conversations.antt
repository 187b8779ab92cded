-- ===== src/Examples/Conversations.antt =====
-- Runs of the conversations.
use nyanya_agent.Prelude.{
  ℕ, true, false, none, [], ◌∷◌, ◌≡◌, refl, Result, ok, err, find, first, arith,
}
use nyanya_agent.Ledger.{Ledger, Conversation, Turn, Outcome, conversation_keyed, turn_keyed}
use nyanya_agent.Conversations.{complete_conn, reset, same_scope, session_conn}
use nyanya_agent.Conversations.Reset.{late_answer_dropped}
use nyanya_agent.Examples.{empty}

abbrev a_conversation : Conversation
a_conversation = record {
  id = 51;
  owner = 5;
  conversation_hash = 6;
  workspace = 3;
  generation = 1;
  next_sequence = 2;
  pending_task = none;
  pending_execution = none;
}

abbrev a_turn : Turn
a_turn = record {
  task = 1;
  session = 51;
  generation = 1;
  sequence = 1;
  related_task = none;
  is_question = false;
  completed_execution = none;
}

abbrev talking : Ledger
talking = record empty { conversations = a_conversation ∷ []; turns = a_turn ∷ [] }

abbrev renewed : Result (ℕ × Ledger) → Ledger
renewed (ok (g, l)) = l
renewed (err e) = talking

abbrev reset_ledger : Ledger
reset_ledger = renewed (reset 52 5 6 3 talking)

resets : reset 52 5 6 3 talking ≡ ok (2, reset_ledger)
unfolding reset session_conn first same_scope
resets = refl

late_answer_dropped_example : complete_conn 1 11 true Outcome.succeeded reset_ledger ≡ reset_ledger
late_answer_dropped_example =
    late_answer_dropped 52 5 6 3 1 11 true Outcome.succeeded talking a_conversation a_turn
      (unfold first same_scope in refl) (unfold find in refl) (unfold find in refl) refl
      (omega arith) resets
