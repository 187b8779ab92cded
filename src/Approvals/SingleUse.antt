-- ===== src/Approvals/SingleUse.antt =====
-- About one approval's use over sequences of operations (execution_store.py, approval_contract.py and
-- their users).
use nyanya_agent.Prelude.{
  ℕ, ◌≡◌, ◌≢◌, refl, Bool, true, false, ◌&&◌, ◌||◌, Option, some, ◌⊎◌, inl, inr, List, [], ◌∷◌,
  arith, ◌==◌, Bool-cases, Option-cases, ok, err, permission_error, find, find-update,
}
use nyanya_agent.Ledger.{
  Ledger, Approval, ApprovalStatus, approval_keyed, approval_status_coded,
  approval_status_code-injective, ◌is◌, whole_second,
}
use nyanya_agent.Approvals.{
  check_approval, set_decision, set_expired, set_consumed, usable, wrong_actor,
}
use nyanya_agent.Approvals.Trail.{
  ApprovalOp, request, decide, check, step, run, request-find, check-find, decide-find, Verdict,
  unchanged, expired, decided,
}

-- Statuses that no operation leaves.
abbrev pub IsFinal : ApprovalStatus → Type 0
IsFinal s = (s ≢ ApprovalStatus.pending) × (s ≢ ApprovalStatus.approved)

usable-approved :
    (task scope_hash clock : ℕ) (a : Approval)
    → usable task scope_hash clock a ≡ true
    → a.status ≡ ApprovalStatus.approved
unfolding usable
usable-approved task scope_hash clock a h = approval_status_code-injective _ _ (ground arith)

Verdict-final :
    {id i : ℕ} {decision : ApprovalStatus} {decided_by now : ℕ} {a : Approval}
    {after : Option Approval}
    → IsFinal a.status
    → Verdict id i decision decided_by now a after
    → after ≡ some a
Verdict-final f (unchanged e) = e
Verdict-final f (expired p e) = absurd (f.0 p)
Verdict-final f (decided same p actor verdict e) = absurd (f.0 p)

step-final :
    (op : ApprovalOp) (i : ℕ) (l : Ledger) {a : Approval}
    → IsFinal a.status
    → find i l.approvals ≡ some a
    → find i (step op l).approvals ≡ some a
unfolding step
step-final (request n clock) i l f h = request-find i l n clock h
step-final (decide id decision decided_by clock) i l f h =
    Verdict-final f (decide-find i l id decision decided_by clock h)
step-final (check id task scope_hash execution clock) i l {a} f h =
    elim (check-find i l id task scope_hash execution clock h) [
      | inl same ↦ same
      | inr (used, after) ↦ absurd (f.1 (usable-approved task scope_hash clock a used))
    ]

-- A rejected, expired or consumed approval is never changed again by requests, decisions or checks.
pub final-IsFinal :
    (ops : List ApprovalOp) (i : ℕ) (l : Ledger) {a : Approval}
    → IsFinal a.status
    → find i l.approvals ≡ some a
    → find i (run ops l).approvals ≡ some a
unfolding run
final-IsFinal [] i l f h = h
final-IsFinal (op ∷ ops) i l f h = final-IsFinal ops i (step op l) f (step-final op i l f h)

consumed_row :
    (id task scope_hash e clock : ℕ) (l : Ledger) (a : Approval) {l' : Ledger}
    → find id l.approvals ≡ some a
    → check_approval id task scope_hash (some e) clock l ≡ ok l'
    → (usable task scope_hash clock a ≡ true) × (find id l'.approvals ≡ some (set_consumed e a))
unfolding check_approval set_consumed
consumed_row id task scope_hash e clock l a there h =
    (ground arith, ground (arith, find-update id id (set_consumed e) l.approvals (λ r. refl)))

-- What a consuming check found, and what it left.
pub check_approval-consumes :
    (id task scope_hash e clock : ℕ) (l : Ledger) {l' : Ledger}
    → check_approval id task scope_hash (some e) clock l ≡ ok l'
    → (a : Approval) × (find id l.approvals ≡ some a)
      × (usable task scope_hash clock a ≡ true)
      × (find id l'.approvals ≡ some (set_consumed e a))
check_approval-consumes id task scope_hash e clock l {l'} h =
    elim (Option-cases (find id l.approvals)) [
      | inl missing ↦ absurd (unfold check_approval in ground (arith, missing))
      | inr (a, there) ↦
          let (used, row) = consumed_row id task scope_hash e clock l a there h in
          (a, there, used, row)
    ]

check_approval-refuses :
    (id task scope_hash clock : ℕ) (execution : Option ℕ) (l : Ledger) (a : Approval)
    → find id l.approvals ≡ some a
    → a.status ≢ ApprovalStatus.approved
    → check_approval id task scope_hash execution clock l ≡ err permission_error
unfolding check_approval
check_approval-refuses id task scope_hash clock execution l a h other =
    elim (Bool-cases (usable task scope_hash clock a)) [
      | inl used ↦ absurd (other (usable-approved task scope_hash clock a used))
      | inr unused ↦ ground (arith, unused)
    ]

-- An approval is good for one execution: once a check has consumed it, every later check of it,
-- for any task, scope and time and after any requests, decisions and checks, raises
-- PermissionError.
pub approval_single_use :
    (id task scope_hash e clock : ℕ) (l : Ledger) (ops : List ApprovalOp)
    (task' scope_hash' clock' : ℕ) (execution : Option ℕ) {l' : Ledger}
    → check_approval id task scope_hash (some e) clock l ≡ ok l'
    → check_approval id task' scope_hash' execution clock' (run ops l') ≡ err permission_error
approval_single_use id task scope_hash e clock l ops task' scope_hash' clock' execution {l'} h =
    let (a, there, used, row) = check_approval-consumes id task scope_hash e clock l h in
    check_approval-refuses id task' scope_hash' clock' execution (run ops l') (set_consumed e a)
      (final-IsFinal ops id l' (unfold set_consumed in ((λ p. cc), (λ p. cc))) row)
      (unfold set_consumed in λ p. cc)

-- Whether an operation is the approval of `id` by `actor`.
unfoldable pub approves : ℕ → ℕ → ApprovalOp → Bool
approves id actor (decide id' decision decided_by clock) =
    id' == id && decided_by == actor && decision is ApprovalStatus.approved
approves id actor op = false

unfoldable pub approved_within : ℕ → ℕ → List ApprovalOp → Bool
approved_within id actor [] = false
approved_within id actor (op ∷ ops) = approves id actor op || approved_within id actor ops

-- An approval that waits for this actor, or was turned down or spent.
record IsUnapproved (actor : ℕ) (a : Approval) : Type 0 where
  actor_set : a.authorized_actor ≡ some actor
  not_approved : a.status ≢ ApprovalStatus.approved

Verdict-IsUnapproved :
    (clock : ℕ) {id' id actor : ℕ} {decision : ApprovalStatus} {decided_by : ℕ} {a : Approval}
    {after : Option Approval}
    → IsUnapproved actor a
    → Verdict id' id decision decided_by (whole_second clock) a after
    → (approves id actor (decide id' decision decided_by clock) ≡ true)
      ⊎ ((b : Approval) × (after ≡ some b) × IsUnapproved actor b)
unfolding approves set_expired set_decision wrong_actor
Verdict-IsUnapproved clock {a = a} u (unchanged e) = inr (a, e, u)
Verdict-IsUnapproved clock {a = a} u (expired p e) = inr (
  set_expired (whole_second clock) a,
  e,
  record { actor_set = u.actor_set; not_approved = λ q. cc },
)
Verdict-IsUnapproved clock u (decided same p actor_right (inl yes_approved) e) =
    inl (ground (arith, u.actor_set))
Verdict-IsUnapproved clock {decision = decision} {decided_by = decided_by} {a = a} u
      (decided same p actor_right (inr rejected) e) =
    inr (
      set_decision decision decided_by (whole_second clock) a,
      e,
      record { actor_set = u.actor_set; not_approved = λ q. cc },
    )

step-IsUnapproved :
    (op : ApprovalOp) (id actor : ℕ) (l : Ledger) {a : Approval}
    → IsUnapproved actor a
    → find id l.approvals ≡ some a
    → (approves id actor op ≡ true)
      ⊎ ((b : Approval) × (find id (step op l).approvals ≡ some b) × IsUnapproved actor b)
unfolding step approves
step-IsUnapproved (request n clock) id actor l {a} u h = inr (a, request-find id l n clock h, u)
step-IsUnapproved (decide id' decision decided_by clock) id actor l u h =
    Verdict-IsUnapproved clock u (decide-find id l id' decision decided_by clock h)
step-IsUnapproved (check id' task scope_hash execution clock) id actor l {a} u h =
    elim (check-find id l id' task scope_hash execution clock h) [
      | inl same ↦ inr (a, same, u)
      | inr (used, after) ↦ absurd (u.not_approved (usable-approved task scope_hash clock a used))
    ]

run-IsUnapproved :
    (ops : List ApprovalOp) (id actor : ℕ) (l : Ledger) {a : Approval}
    → IsUnapproved actor a
    → find id l.approvals ≡ some a
    → (approved_within id actor ops ≡ true)
      ⊎ ((b : Approval) × (find id (run ops l).approvals ≡ some b) × IsUnapproved actor b)
unfolding run approved_within
run-IsUnapproved [] id actor l {a} u h = inr (a, h, u)
run-IsUnapproved (op ∷ ops) id actor l u h = elim (step-IsUnapproved op id actor l u h) [
  | inl now ↦ inl (ground (arith, now))
  | inr (b, hb, ub) ↦ elim (run-IsUnapproved ops id actor (step op l) ub hb) [
    | inl later ↦ inl (ground (arith, later))
    | inr still ↦ inr still
  ]
]

-- Who asks for an approval with an authorized actor can use it only after that actor approved it:
-- from a ledger in which it is pending, a check that passes after any requests, decisions and
-- checks has an approval by that actor among them.
pub use_needs_approval :
    (ops : List ApprovalOp) (id actor task scope_hash clock : ℕ) (execution : Option ℕ) (l : Ledger)
    (a : Approval) {l' : Ledger}
    → find id l.approvals ≡ some a
    → a.status ≡ ApprovalStatus.pending
    → a.authorized_actor ≡ some actor
    → check_approval id task scope_hash execution clock (run ops l) ≡ ok l'
    → approved_within id actor ops ≡ true
use_needs_approval ops id actor task scope_hash clock execution l a found waiting set passed =
    elim (run-IsUnapproved ops id actor l (record { actor_set = set; not_approved = λ q. cc })
      found) [
        | inl approved ↦ approved
        | inr (b, hb, ub) ↦ cc (
            check_approval-refuses id task scope_hash clock execution (run ops l) b hb
              ub.not_approved)
      ]
