-- ===== src/Approvals/Trail.antt =====
-- The life of one approval over every sequence of requests, decisions and checks
-- (execution_store.py and approval_contract.py).
use mathlib.Core.Option
use native.Mathlib.Decide.{ℕ_discrete}
use nyanya_agent.Prelude.{
  ℕ, ◌≡◌, refl, true, false, Option, none, some, ◌⊎◌, inl, inr, List, [], ◌∷◌, arith, if◌then◌else◌,
  ◌==◌, Bool-cases, Result, Result-cases, ok, err, find, find-update, find-append, insert,
}
use nyanya_agent.Ledger.{
  Ledger, Approval, ApprovalStatus, approval_keyed, approval_status_coded, approval_status_code,
  approval_status_code-injective, ◌is◌, ◌among◌, whole_second,
}
use nyanya_agent.Approvals.{
  NewApproval, request_approval, decide_approval, check_approval, approval_row, decide_pending,
  expire_pending, check_decision, set_decision, set_expired, set_consumed, usable, wrong_actor,
  expired_at,
}

pub data ApprovalOp : Type 0 where
  request : NewApproval → ℕ → ApprovalOp
  decide : (id : ℕ) (decision : ApprovalStatus) (decided_by clock : ℕ) → ApprovalOp
  check : (id task scope_hash : ℕ) (execution : Option ℕ) (clock : ℕ) → ApprovalOp

abbrev pub committed : Ledger → Result Ledger → Ledger
committed l (ok l') = l'
committed l (err e) = l

unfoldable pub step : ApprovalOp → Ledger → Ledger
step (request n clock) l = committed l (request_approval n clock l)
step (decide id decision decided_by clock) l = (decide_approval id decision decided_by clock l).1
step (check id task scope_hash execution clock) l =
    committed l (check_approval id task scope_hash execution clock l)

unfoldable pub run : List ApprovalOp → Ledger → Ledger
run [] l = l
run (op ∷ ops) l = run ops (step op l)

abbrev pub status_in : Option Approval → Option ApprovalStatus
status_in none = none
status_in (some a) = some a.status

abbrev pub approval_status_of : ℕ → Ledger → Option ApprovalStatus
approval_status_of id l = status_in (find id l.approvals)

-- What `decide_approval` has checked when it goes on.
pub record IsCheckedDecision (id : ℕ) (decision : ApprovalStatus) (decided_by : ℕ) (l : Ledger)
    (a : Approval) : Type 0 where
  pub found : find id l.approvals ≡ some a
  pub actor : wrong_actor a.authorized_actor decided_by ≡ false
  pub verdict : (decision ≡ ApprovalStatus.approved) ⊎ (decision ≡ ApprovalStatus.rejected)

check_decision-IsCheckedDecision :
    (id : ℕ) (decision : ApprovalStatus) (decided_by : ℕ) (l : Ledger) {a : Approval}
    → check_decision id decision decided_by l ≡ ok a
    → IsCheckedDecision id decision decided_by l a
unfolding check_decision ◌among◌ approval_status_code
check_decision-IsCheckedDecision id decision decided_by l h = record {
  found = ground arith;
  actor = ground arith;
  verdict = ground arith;
}

-- How one decision may change the approval that is found under its identifier.
pub data Verdict (id i : ℕ) (decision : ApprovalStatus) (decided_by now : ℕ) (a : Approval)
    (after : Option Approval) : Type 0 where
  unchanged : after ≡ some a → Verdict id i decision decided_by now a after
  expired :
      a.status ≡ ApprovalStatus.pending
      → after ≡ some (set_expired now a)
      → Verdict id i decision decided_by now a after
  decided :
      id ≡ i
      → a.status ≡ ApprovalStatus.pending
      → wrong_actor a.authorized_actor decided_by ≡ false
      → (decision ≡ ApprovalStatus.approved) ⊎ (decision ≡ ApprovalStatus.rejected)
      → after ≡ some (set_decision decision decided_by now a)
      → Verdict id i decision decided_by now a after

module _ (i : ℕ) (l : Ledger) where
  pub request-find :
      (n : NewApproval) (clock : ℕ) {a : Approval}
      → find i l.approvals ≡ some a
      → find i (committed l (request_approval n clock l)).approvals ≡ some a
  unfolding request_approval insert approval_row
  request-find n clock h =
      ground (arith, find-append i l.approvals (approval_row n (whole_second clock)))

  -- Only consumption changes what `check_approval` finds.
  pub check-find :
      (id task scope_hash : ℕ) (execution : Option ℕ) (clock : ℕ) {a : Approval}
      → find i l.approvals ≡ some a
      → (find i (committed l (check_approval id task scope_hash execution clock l)).approvals
          ≡ some a)
        ⊎ ((usable task scope_hash clock a ≡ true)
            × (approval_status_of i
                  (committed l (check_approval id task scope_hash execution clock l))
                ≡ some ApprovalStatus.consumed))
  unfolding check_approval set_consumed
  check-find id task scope_hash none clock h = ground arith
  check-find id task scope_hash (some e) clock h =
      ground (arith, find-update id i (set_consumed e) l.approvals (λ r. refl))

  decide_pending-find :
      (id : ℕ) (decision : ApprovalStatus) (decided_by now : ℕ) (a : Approval) {l' : Ledger}
      → decide_pending id decision decided_by now a l ≡ ok l'
      → find i l'.approvals ≡ (
          if id == i
          then Option.map (set_decision decision decided_by now) (find i l.approvals)
          else find i l.approvals)
  unfolding decide_pending set_decision
  decide_pending-find id decision decided_by now a h =
      ground
        (arith, find-update id i (set_decision decision decided_by now) l.approvals (λ r. refl))

  expire_pending-find :
      (id now : ℕ) (a : Approval) {l' : Ledger}
      → expire_pending id now a l ≡ ok l'
      → find i l'.approvals ≡ (
          if id == i then Option.map (set_expired now) (find i l.approvals) else find i l.approvals)
  unfolding expire_pending set_expired
  expire_pending-find id now a h =
      ground (arith, find-update id i (set_expired now) l.approvals (λ r. refl))

  decide_checked :
      (id : ℕ) (decision : ApprovalStatus) (decided_by clock : ℕ) {a c : Approval}
      → find i l.approvals ≡ some a
      → check_decision id decision decided_by l ≡ ok c
      → Verdict id i decision decided_by
          (whole_second clock)
          a
          (find i (decide_approval id decision decided_by clock l).1.approvals)
  unfolding decide_approval
  decide_checked id decision decided_by clock {a} {c} h checked =
      let k = check_decision-IsCheckedDecision id decision decided_by l checked in
      elim (Bool-cases (c.status is ApprovalStatus.pending)) [
        | inr done ↦ unchanged (ground (arith, checked, done))
        | inl waiting ↦ elim (Bool-cases (expired_at c.expires_at (whole_second clock))) [
          | inl late ↦ elim (Result-cases (expire_pending id (whole_second clock) c l)) [
            | inl (l', e) ↦ elim (ℕ_discrete id i) [
              | yes same ↦ expired (approval_status_code-injective _ _ (ground (arith, k.found))) (
                  ground (
                    arith,
                    checked,
                    waiting,
                    late,
                    e,
                    k.found,
                    expire_pending-find id (whole_second clock) c e,
                  ))
              | no other ↦ unchanged (
                  ground (
                    arith,
                    checked,
                    waiting,
                    late,
                    e,
                    expire_pending-find id (whole_second clock) c e,
                  ))
            ]
            | inr (x, e) ↦ unchanged (ground (arith, checked, waiting, late, e))
          ]
          | inr live ↦
              elim (Result-cases (decide_pending id decision decided_by (whole_second clock) c l)) [
                | inl (l', e) ↦ elim (ℕ_discrete id i) [
                  | yes same ↦
                      decided same (approval_status_code-injective _ _ (ground (arith, k.found)))
                        (ground (arith, k.found, k.actor)) k.verdict
                        (ground (
                          arith,
                          checked,
                          waiting,
                          live,
                          e,
                          k.found,
                          decide_pending-find id decision decided_by (whole_second clock) c e,
                        ))
                  | no other ↦ unchanged (
                      ground (
                        arith,
                        checked,
                        waiting,
                        live,
                        e,
                        decide_pending-find id decision decided_by (whole_second clock) c e,
                      ))
                ]
                | inr (x, e) ↦ unchanged (ground (arith, checked, waiting, live, e))
              ]
        ]
      ]

  pub decide-find :
      (id : ℕ) (decision : ApprovalStatus) (decided_by clock : ℕ) {a : Approval}
      → find i l.approvals ≡ some a
      → Verdict id i decision decided_by
          (whole_second clock)
          a
          (find i (decide_approval id decision decided_by clock l).1.approvals)
  unfolding decide_approval
  decide-find id decision decided_by clock {a} h =
      elim (Result-cases (check_decision id decision decided_by l)) [
        | inr (x, refused) ↦ unchanged (ground (arith, refused))
        | inl (c, checked) ↦ decide_checked id decision decided_by clock h checked
      ]
