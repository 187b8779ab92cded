-- ===== src/Uploads/Bounds.antt =====
-- The number of confirmations that wait for an owner (src/nyanya_agent/upload_approval.py).
use nyanya_agent.Prelude.{
  ℕ, ◌≡◌, ◌≤◌, refl, false, List, [], ◌∷◌, inl, inr, arith, ◌==◌, if◌then◌else◌, Bool-cases,
  Result-cases, insert, select, count, count-append, count-update_if,
}
use nyanya_agent.Ledger.{
  Ledger, Approval, ApprovalStatus, approval_keyed, approval_status_coded, approval_status_code,
  ◌is◌, UploadScope,
}
use nyanya_agent.Uploads.{
  request_upload, consume_upload, reject_upload, close_upload, close_expired, open_upload, owned,
  upload_row, set_closed, pending_of, max_pending_per_owner, check_scope, upload_expired_at,
}
use nyanya_agent.Uploads.SingleUse.{UploadOp, request, consume, reject, other, step, run}

abbrev pub waiting_for : ℕ → Ledger → ℕ
waiting_for owner l = count (pending_of owner) l.approvals

-- The operations of uploads, without those of other approvals.
abbrev pub IsUploadOp : UploadOp → Type 0
IsUploadOp (request id owner given ttl now) = Unit
IsUploadOp (consume id owner given now) = Unit
IsUploadOp (reject id owner conversation now) = Unit
IsUploadOp (other op) = ⊥

abbrev pub AllUploadOps : List UploadOp → Type 0
AllUploadOps [] = Unit
AllUploadOps (op ∷ ops) = IsUploadOp op × AllUploadOps ops

module _ (o : ℕ) where
  close_upload-count :
      (row : Approval) (status : ApprovalStatus) (now : ℕ) (l : Ledger)
      → (status is ApprovalStatus.pending) ≡ false
      → waiting_for o (close_upload row status now l) ≤ waiting_for o l
  unfolding close_upload set_closed pending_of
  close_upload-count row status now l h = ground (
    arith,
    count-update_if (pending_of o) open_upload row.id
        (set_closed status status row.requested_by row.upload now) l.approvals
        (λ r. ground (arith, h)),
  )

  close_expired-count :
      (rows : List Approval) (now : ℕ) (l : Ledger)
      → waiting_for o (close_expired rows now l) ≤ waiting_for o l
  unfolding close_expired approval_status_code
  close_expired-count [] now l = omega arith
  close_expired-count (row ∷ rows) now l =
      let next =
        if upload_expired_at row.expires_at now
        then close_upload row ApprovalStatus.expired now l
        else l in
      let fewer : waiting_for o next ≤ waiting_for o l =
        ground (arith, close_upload-count row ApprovalStatus.expired now l refl) in
      omega (arith, close_expired-count rows now next, fewer)

  reject_upload-count :
      (id owner conversation now : ℕ) (l : Ledger)
      → waiting_for o (reject_upload id owner conversation now l).1 ≤ waiting_for o l
  unfolding reject_upload approval_status_code
  reject_upload-count id owner conversation now l = elim (Result-cases (owned id owner l)) [
    | inr (e, refused) ↦ ground (arith, refused)
    | inl (row, is_owned) ↦ ground (
      arith,
      is_owned,
      close_upload-count row ApprovalStatus.rejected now l refl,
      close_upload-count row ApprovalStatus.expired now l refl,
    )
  ]

  module _ (scope_hash : ℕ → UploadScope → ℕ) where
    others_row :
        (owner : ℕ) (scope : UploadScope) (id ttl now : ℕ)
        → (owner == o) ≡ false
        → pending_of o (upload_row scope_hash id owner scope ttl now) ≡ false
    unfolding pending_of upload_row
    others_row owner scope id ttl now h = ground (arith, h)

    consume_upload-count :
        (id owner : ℕ) (given : UploadScope) (now : ℕ) (l : Ledger)
        → waiting_for o (consume_upload scope_hash id owner given now l).1 ≤ waiting_for o l
    unfolding consume_upload set_closed pending_of approval_status_code
    consume_upload-count id owner given now l = elim (Result-cases (owned id owner l)) [
      | inr (e, refused) ↦ ground (arith, refused)
      | inl (row, is_owned) ↦ ground (
        arith,
        is_owned,
        close_upload-count row ApprovalStatus.rejected now l refl,
        close_upload-count row ApprovalStatus.expired now l refl,
        count-update_if (pending_of o) open_upload id
            (set_closed ApprovalStatus.approved ApprovalStatus.consumed owner row.upload now)
            l.approvals (λ r. ground arith),
      )
    ]

    request_upload-count :
        (id owner : ℕ) (given : UploadScope) (ttl now : ℕ) (l : Ledger)
        → waiting_for o l ≤ max_pending_per_owner
        → waiting_for o (request_upload scope_hash id owner given ttl now l).1
          ≤ max_pending_per_owner
    unfolding request_upload insert
    request_upload-count id owner given ttl now l h = elim (Result-cases (check_scope given)) [
      | inr (e, refused) ↦ ground (arith, refused)
      | inl (scope, checked) ↦
          let swept = close_expired (select (pending_of owner) l.approvals) now l in
          elim (Bool-cases (owner == o)) [
            | inl mine ↦ ground (
              arith,
              checked,
              mine,
              close_expired-count (select (pending_of owner) l.approvals) now l,
              count-append (pending_of o) swept.approvals
                  (upload_row scope_hash id owner scope ttl now),
            )
            | inr others ↦ ground (
              arith,
              checked,
              others,
              close_expired-count (select (pending_of owner) l.approvals) now l,
              others_row owner scope id ttl now others,
              count-append (pending_of o) swept.approvals
                  (upload_row scope_hash id owner scope ttl now),
            )
          ]
    ]

    upload_op-count :
        (op : UploadOp) (l : Ledger)
        → IsUploadOp op
        → waiting_for o l ≤ max_pending_per_owner
        → waiting_for o (step scope_hash op l) ≤ max_pending_per_owner
    unfolding step
    upload_op-count (request id owner given ttl now) l u h =
        request_upload-count id owner given ttl now l h
    upload_op-count (consume id owner given now) l u h =
        omega (arith, consume_upload-count id owner given now l)
    upload_op-count (reject id owner conversation now) l u h =
        omega (arith, reject_upload-count id owner conversation now l)
    upload_op-count (other op) l u h = elim u [ ]

-- An owner never has more than 16 confirmations pending: requests, consumptions and rejections of
-- uploads in any order, by whomever, keep the bound.
pub pending_uploads-Bounded :
    (scope_hash : ℕ → UploadScope → ℕ) (ops : List UploadOp) (owner : ℕ) (l : Ledger)
    → AllUploadOps ops
    → waiting_for owner l ≤ max_pending_per_owner
    → waiting_for owner (run scope_hash ops l) ≤ max_pending_per_owner
unfolding run
pending_uploads-Bounded scope_hash [] owner l all h = h
pending_uploads-Bounded scope_hash (op ∷ ops) owner l all h =
    pending_uploads-Bounded scope_hash ops owner (step scope_hash op l) all.1
      (upload_op-count owner scope_hash op l all.0 h)
