-- ===== src/Uploads/Shut.antt =====
-- About a confirmation that is no longer pending, under the operations of
-- src/nyanya_agent/upload_approval.py and of the other approvals.
use nyanya_agent.Prelude.{
  ℕ, ◌≡◌, ◌≢◌, refl, true, false, some, inl, inr, List, [], ◌∷◌, arith, Bool-cases, Result-cases,
  find, find-update_if, find-append, insert, select,
}
use nyanya_agent.Ledger.{
  Ledger, Approval, ApprovalStatus, approval_keyed, approval_status_coded,
  approval_status_code-injective, UploadScope,
}
use nyanya_agent.Approvals.{is_upload, is_workspace_write, usable}
use nyanya_agent.Approvals.Trail.{
  ApprovalOp, request, decide, check, request-find, check-find, decide-find, Verdict, unchanged,
  expired, decided,
}
use nyanya_agent.Approvals.Trail
use nyanya_agent.Uploads.{
  request_upload, consume_upload, reject_upload, close_upload, close_expired, open_upload, owned,
  upload_row, set_closed, pending_of, check_scope,
}

module _ (i : ℕ) {a : Approval} (shut : open_upload a ≡ false) where
  close_upload-find :
      (row : Approval) (status : ApprovalStatus) (now : ℕ) (l : Ledger)
      → find i l.approvals ≡ some a
      → find i (close_upload row status now l).approvals ≡ some a
  unfolding close_upload set_closed
  close_upload-find row status now l h = ground (
    arith,
    shut,
    find-update_if row.id i open_upload (set_closed status status row.requested_by row.upload now)
        l.approvals (λ r. refl),
  )

  close_expired-find :
      (rows : List Approval) (now : ℕ) (l : Ledger)
      → find i l.approvals ≡ some a
      → find i (close_expired rows now l).approvals ≡ some a
  unfolding close_expired
  close_expired-find [] now l h = h
  close_expired-find (row ∷ rows) now l h =
      close_expired-find rows now _
        (ground (arith, h, close_upload-find row ApprovalStatus.expired now l h))

  pub reject_upload-find :
      (id owner conversation now : ℕ) (l : Ledger)
      → find i l.approvals ≡ some a
      → find i (reject_upload id owner conversation now l).1.approvals ≡ some a
  unfolding reject_upload
  reject_upload-find id owner conversation now l h = elim (Result-cases (owned id owner l)) [
    | inr (e, refused) ↦ ground (arith, refused)
    | inl (row, is_owned) ↦ ground (
      arith,
      is_owned,
      close_upload-find row ApprovalStatus.rejected now l h,
      close_upload-find row ApprovalStatus.expired now l h,
    )
  ]

  module _ (scope_hash : ℕ → UploadScope → ℕ) where
    pub request_upload-find :
        (id owner : ℕ) (given : UploadScope) (ttl now : ℕ) (l : Ledger)
        → find i l.approvals ≡ some a
        → find i (request_upload scope_hash id owner given ttl now l).1.approvals ≡ some a
    unfolding request_upload insert
    request_upload-find id owner given ttl now l h = elim (Result-cases (check_scope given)) [
      | inr (e, refused) ↦ ground (arith, refused)
      | inl (scope, checked) ↦
          let swept = close_expired (select (pending_of owner) l.approvals) now l in
          ground (
            arith,
            checked,
            close_expired-find (select (pending_of owner) l.approvals) now l h,
            find-append i swept.approvals (upload_row scope_hash id owner scope ttl now),
          )
    ]

    pub consume_upload-find :
        (id owner : ℕ) (given : UploadScope) (now : ℕ) (l : Ledger)
        → find i l.approvals ≡ some a
        → find i (consume_upload scope_hash id owner given now l).1.approvals ≡ some a
    unfolding consume_upload set_closed
    consume_upload-find id owner given now l h = elim (Result-cases (owned id owner l)) [
      | inr (e, refused) ↦ ground (arith, refused)
      | inl (row, is_owned) ↦ ground (
        arith,
        is_owned,
        shut,
        close_upload-find row ApprovalStatus.rejected now l h,
        close_upload-find row ApprovalStatus.expired now l h,
        find-update_if id i open_upload
            (set_closed ApprovalStatus.approved ApprovalStatus.consumed owner row.upload now)
            l.approvals (λ r. refl),
      )
    ]

-- A confirmation that is no longer pending.
pub record IsShut (a : Approval) : Type 0 where
  pub action : is_upload a.action ≡ true
  pub closed : a.status ≢ ApprovalStatus.pending

pub IsShut-open_upload : {a : Approval} → IsShut a → open_upload a ≡ false
IsShut-open_upload {a} s = elim (Bool-cases (open_upload a)) [
  | inr no_longer ↦ no_longer
  | inl opened ↦
      absurd (s.closed (approval_status_code-injective _ _ (unfold open_upload in ground arith)))
]

usable-not_upload :
    (task scope_hash clock : ℕ) (a : Approval)
    → usable task scope_hash clock a ≡ true
    → is_upload a.action ≡ false
unfolding usable is_workspace_write is_upload
usable-not_upload task scope_hash clock a h = ground arith

pub other-find :
    (op : ApprovalOp) (i : ℕ) (l : Ledger) {a : Approval}
    → IsShut a
    → find i l.approvals ≡ some a
    → find i (Trail.step op l).approvals ≡ some a
unfolding Trail.step
other-find (request n clock) i l s h = request-find i l n clock h
other-find (decide id decision decided_by clock) i l s h =
    elim (decide-find i l id decision decided_by clock h) [
      | unchanged e ↦ e
      | expired p e ↦ absurd (s.closed p)
      | decided same p actor verdict e ↦ absurd (s.closed p)
    ]
other-find (check id task scope_hash execution clock) i l {a} s h =
    elim (check-find i l id task scope_hash execution clock h) [
      | inl same ↦ same
      | inr (used, after) ↦ cc (usable-not_upload task scope_hash clock a used, s.action)
    ]
