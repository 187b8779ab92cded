-- ===== src/Uploads.antt =====
-- The confirmation of a document's upload: src/nyanya_agent/upload_approval.py.
-- Owners, conversations and channels are numbers here, so `_text` on them is left out; the texts of
-- paths and digests are checked as the code checks them.
mod Scope
pub mod Shut
pub mod SingleUse
pub mod Bounds
unfoldable pub use Scope.*
use mathlib.Core.Option
use nyanya_agent.Prelude.{
  ℕ, ◌+◌, Bool, true, false, not, ◌&&◌, ◌||◌, Option, none, some, List, [], ◌∷◌, if◌then◌else◌,
  ◌==◌, leb, ltb, is_id, is_some, Result, ok, err, ◌>>=◌, ◌>>◌, raise_if, require, safe_operation,
  find, insert, update_if, touches, select, count, any_row,
}
use nyanya_agent.Paths.{Text, text_eq, check_workspace, check_relative, check_digest}
use nyanya_agent.Ledger.{
  Ledger, Approval, ApprovalStatus, Action, Upload, UploadScope, FileIdentity, CountKind, EventType,
  approval_keyed, approval_status_coded, ◌is◌, seconds, log_audit, upload_requested, upload_expired,
  upload_rejected, upload_consumed,
}
use nyanya_agent.Approvals.{is_upload, settle}

abbrev pub max_pending_per_owner : ℕ
max_pending_per_owner = 16

abbrev pub max_ttl_seconds : ℕ
max_ttl_seconds = 300

-- The actor "upload-privacy" of the audit log.
abbrev pub upload_privacy : ℕ
upload_privacy = 0

-- `_owned`
unfoldable pub owned : ℕ → ℕ → Ledger → Result Approval
owned id owner l = do
  row ← require (find id l.approvals) safe_operation
  raise_if (not (is_upload row.action) || not (row.requested_by == owner)) safe_operation
  raise_if (not (is_id row.authorized_actor owner)) safe_operation
  ok row

unfoldable pub phase_pending : Option Upload → Bool
phase_pending none = false
phase_pending (some u) = u.phase is ApprovalStatus.pending

-- `expiry is None or expiry <= timestamp`
unfoldable pub upload_expired_at : Option ℕ → ℕ → Bool
upload_expired_at none now = true
upload_expired_at (some t) now = leb t now

-- WHERE action=? AND status='pending'
unfoldable pub open_upload : Approval → Bool
open_upload a = is_upload a.action && a.status is ApprovalStatus.pending

-- WHERE action=? AND requested_by=? AND status='pending'
unfoldable pub pending_of : ℕ → Approval → Bool
pending_of owner a =
    is_upload a.action && a.requested_by == owner && a.status is ApprovalStatus.pending

unfoldable pub set_phase : ApprovalStatus → Upload → Upload
set_phase phase u = record u { phase = phase }

unfoldable pub set_closed :
    ApprovalStatus → ApprovalStatus → ℕ → Option Upload → ℕ → Approval → Approval
set_closed status phase decided_by upload now a = record a {
  status = status;
  decided_by = some decided_by;
  decided_at = some now;
  upload = Option.map (set_phase phase) upload;
}

unfoldable pub closing_event : ApprovalStatus → EventType
closing_event ApprovalStatus.expired = upload_expired
closing_event status = upload_rejected

-- `_close`
unfoldable pub close_upload : Approval → ApprovalStatus → ℕ → Ledger → Ledger
close_upload row status now l =
    let closed = record l {
      approvals =
          update_if row.id open_upload (set_closed status status row.requested_by row.upload now)
            l.approvals;
    } in
    if touches row.id open_upload l.approvals
    then log_audit upload_privacy (closing_event status) row.id closed
    else closed

-- The loop of `request_upload` over the owner's pending confirmations.
unfoldable pub close_expired : List Approval → ℕ → Ledger → Ledger
close_expired [] now l = l
close_expired (row ∷ rows) now l = close_expired rows now (
    if upload_expired_at row.expires_at now
    then close_upload row ApprovalStatus.expired now l
    else l)

unfoldable pub get_upload : ℕ → ℕ → ℕ → Ledger → Result Approval
get_upload id owner conversation l = do
  row ← owned id owner l
  upload ← require row.upload safe_operation
  raise_if (not (upload.scope.conversation_key == conversation)) safe_operation
  ok row

-- A digest of the stored scope: `_scope_hash`, SHA-256 of a JSON text of the library's.
module _ (scope_hash : ℕ → UploadScope → ℕ) where
  unfoldable pub upload_row : ℕ → ℕ → UploadScope → ℕ → ℕ → Approval
  upload_row id owner scope ttl now = record {
    id = id;
    task = none;
    execution = none;
    action = Action.discord_upload_pii;
    status = ApprovalStatus.pending;
    requested_by = owner;
    decided_by = none;
    authorized_actor = some owner;
    scope_hash = some (scope_hash owner scope);
    upload = some (record { schema_version = 1; phase = ApprovalStatus.pending; scope = scope });
    requested_at = now;
    expires_at = some (now + seconds ttl);
    decided_at = none;
  }

  -- `approval_id` is the new identifier.
  unfoldable pub request_upload : ℕ → ℕ → UploadScope → ℕ → ℕ → Ledger → Result (Unit {0}) × Ledger
  request_upload approval_id owner given ttl now l = settle l (do
    raise_if (not (leb 1 ttl && leb ttl max_ttl_seconds)) safe_operation
    scope ← check_scope given
    let swept = close_expired (select (pending_of owner) l.approvals) now l
    let full = leb max_pending_per_owner (count (pending_of owner) swept.approvals)
    let row = upload_row approval_id owner scope ttl now
    if full then ok (err safe_operation, swept) else (do
      approvals ← insert row swept.approvals
      ok (
        ok tt,
        log_audit upload_privacy upload_requested approval_id
            (record swept { approvals = approvals }),
      )))

  -- `valid`
  unfoldable pub grants : Approval → UploadScope → Bool
  unfolding same_scope expected_scope
  grants row given = elim (expected_scope given) [
    | err e ↦ false
    | ok expected ↦ elim row.upload [
      | none ↦ false
      | some u ↦
          u.schema_version == 1
          && not (is_some row.task)
          && not (is_some row.execution)
          && same_scope u.scope expected
          && is_id row.scope_hash (elim row.authorized_actor [
            | none ↦ scope_hash 0 u.scope
            | some actor ↦ scope_hash actor u.scope
          ])
    ]
  ]

  unfoldable pub consume_upload : ℕ → ℕ → UploadScope → ℕ → Ledger → Result (Unit {0}) × Ledger
  consume_upload id owner given now l = settle l (do
    row ← owned id owner l
    raise_if (not (row.status is ApprovalStatus.pending) || not (phase_pending row.upload))
        safe_operation
    if upload_expired_at row.expires_at now
        then ok (err safe_operation, close_upload row ApprovalStatus.expired now l)
        else if not (grants row given)
        then ok (err safe_operation, close_upload row ApprovalStatus.rejected now l)
        else (do
          raise_if (not (touches id open_upload l.approvals)) safe_operation
          ok (
            ok tt,
            log_audit upload_privacy upload_consumed id (record l {
              approvals =
                  update_if id open_upload
                    (set_closed ApprovalStatus.approved ApprovalStatus.consumed owner row.upload
                      now)
                    l.approvals;
            }),
          )))

unfoldable pub in_conversation : Option Upload → ℕ → Bool
in_conversation none conversation = false
in_conversation (some u) conversation = u.scope.conversation_key == conversation

unfoldable pub reject_upload : ℕ → ℕ → ℕ → ℕ → Ledger → Result (Unit {0}) × Ledger
reject_upload id owner conversation now l = settle l (do
  row ← owned id owner l
  let pending = row.status is ApprovalStatus.pending
  let late = upload_expired_at row.expires_at now
  if not (in_conversation row.upload conversation)
      then ok (
        err safe_operation,
        (if pending then close_upload row ApprovalStatus.rejected now l else l),
      )
      else if row.status is ApprovalStatus.rejected
      then ok (ok tt, l)
      else if not pending || not (phase_pending row.upload)
      then err safe_operation
      else ok (
        ok tt,
        close_upload row (if late then ApprovalStatus.expired else ApprovalStatus.rejected) now l,
      ))
