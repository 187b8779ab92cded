-- ===== src/Conversations/Reset.antt =====
-- About late answers after a reset of a conversation (src/nyanya_agent/conversation_store.py).
use nyanya_agent.Prelude.{
  ℕ, ◌≤◌, ◌≡◌, refl, Bool, false, some, inl, inr, arith, ◌==◌, Result-cases, ok, find, update,
  first, find-update,
}
use nyanya_agent.Ledger.{
  Ledger, Conversation, Turn, Outcome, conversation_keyed, turn_keyed, task_keyed, result_keyed,
}
use nyanya_agent.Conversations.{
  complete_conn, live_turn, reset, session_conn, same_scope, next_generation,
}

reset-writes :
    (fresh owner hash workspace : ℕ) (l : Ledger) (s : Conversation) {g : ℕ} {l' : Ledger}
    → first (same_scope owner hash workspace) l.conversations ≡ some s
    → reset fresh owner hash workspace l ≡ ok (g, l')
    → (l'.turns ≡ l.turns) × (l'.conversations ≡ update s.id next_generation l.conversations)
unfolding reset session_conn
reset-writes fresh owner hash workspace l s scoped h =
    (ground (arith, scoped), ground (arith, scoped))

old_turn-refused :
    (task execution : ℕ) (question : Bool) (outcome : Outcome) (l : Ledger) (r : Turn)
    (s : Conversation)
    → find task l.turns ≡ some r
    → find r.session l.conversations ≡ some s
    → (r.generation == s.generation) ≡ false
    → complete_conn task execution question outcome l ≡ l
old_turn-refused task execution question outcome l r s there session old =
    elim (Result-cases (live_turn task execution l)) [
      | inr (x, refused) ↦ unfold complete_conn in ground (arith, refused)
      | inl (pair, live) ↦ absurd (unfold live_turn in ground (arith, there, session, old, live))
    ]

-- A late answer is dropped: once a conversation was reset, completing a turn of an earlier
-- generation, with any outcome, changes nothing.
pub late_answer_dropped :
    (fresh owner hash workspace task execution : ℕ) (question : Bool) (outcome : Outcome)
    (l : Ledger) (s : Conversation) (r : Turn) {g : ℕ} {l' : Ledger}
    → first (same_scope owner hash workspace) l.conversations ≡ some s
    → find s.id l.conversations ≡ some s
    → find task l.turns ≡ some r
    → r.session ≡ s.id
    → r.generation ≤ s.generation
    → reset fresh owner hash workspace l ≡ ok (g, l')
    → complete_conn task execution question outcome l' ≡ l'
late_answer_dropped fresh owner hash workspace task execution question outcome l s r {l' = l'}
      scoped stored there same early h =
    let w = reset-writes fresh owner hash workspace l s scoped h in
    let turned : find task l'.turns ≡ some r = ground (arith, w, there) in
    let renewed : find r.session l'.conversations ≡ some (next_generation s) =
      unfold next_generation in
      ground (
        arith,
        w,
        same,
        stored,
        find-update s.id s.id next_generation l.conversations (λ c. refl),
      ) in
    old_turn-refused task execution question outcome l' r (next_generation s) turned renewed
      (unfold next_generation in ground (arith, early))
