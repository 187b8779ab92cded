-- ===== src/Examples/Uploads.antt =====
-- Runs of the upload confirmations and of the path checks.
use nyanya_agent.Prelude.{
  ℕ, ◌<◌, ℕ, zero, suc, ◌+◌, ◌≤◌, some, List, [], ◌∷◌, ◌≡◌, refl, arith, ok, err, safe_operation,
  find, any_row, select, count,
}
use nyanya_agent.Paths.{
  Text, parse_path, check_relative, check_text, length, is_absolute, root_of, split, kept,
  is_parent, no_parts, contains, print_path, print_relative, join, check_digest, is_hex,
  check_workspace, root_after_one, text_eq, with_head,
}
use nyanya_agent.Paths.RoundTrip.{check_relative-IsConfined, IsConfined}
use nyanya_agent.Ledger.{
  Ledger, Approval, ApprovalStatus, Upload, UploadScope, FileIdentity, CountKind, approval_keyed,
  approval_status_code,
}
use nyanya_agent.Uploads.{
  consume_upload, reject_upload, upload_row, expected_scope, same_scope, upload_expired_at,
  max_pending_per_owner, owned, phase_pending, grants, identity_eq, open_upload, pending_of,
}
use nyanya_agent.Uploads.SingleUse.{
  IsAskedFor, UploadOp, request, consume, reject, run, upload_single_use, upload_needs_scope,
}
use nyanya_agent.Uploads.Bounds.{waiting_for, pending_uploads-Bounded}
use nyanya_agent.Examples.{empty}
use nyanya_agent.Approvals.{is_upload}

abbrev letters : ℕ → Text
letters zero = []
letters (suc n) = 97 ∷ letters n

-- "a//b/./c"
abbrev untidy : Text
untidy = 97 ∷ 47 ∷ 47 ∷ 98 ∷ 47 ∷ 46 ∷ 47 ∷ 99 ∷ []

-- "a/b/c"
abbrev tidy : Text
tidy = 97 ∷ 47 ∷ 98 ∷ 47 ∷ 99 ∷ []

tidied : check_relative untidy ≡ ok tidy
unfolding check_relative check_text length any_row is_absolute parse_path root_of select split kept
    is_parent no_parts contains print_path print_relative join
tidied = refl

check_relative-IsConfined_example :
    (parse_path tidy ≡ parse_path untidy) × IsConfined (parse_path tidy)
check_relative-IsConfined_example = check_relative-IsConfined untidy tidied

abbrev an_identity : FileIdentity
an_identity = record { dev = 1; ino = 2; size = 3; mtime_ns = 4; ctime_ns = 5 }

abbrev a_scope : UploadScope
a_scope = record {
  conversation_key = 8;
  workspace = 47 ∷ 119 ∷ [];
  relative_path = tidy;
  destination_id = 9;
  request_channel_id = 9;
  sha256 = letters 64;
  file_identity = an_identity;
  counts = (CountKind.email, 2) ∷ [];
}

-- A digest of scopes for the runs.
abbrev a_digest : ℕ → UploadScope → ℕ
a_digest owner s = owner + s.destination_id + s.conversation_key

abbrev confirmable : Ledger
confirmable = record empty { approvals = upload_row a_digest 31 5 a_scope 60 10 ∷ [] }

granted : (consume_upload a_digest 31 5 a_scope 20 confirmable).0 ≡ ok tt
unfolding consume_upload owned find upload_row is_upload approval_status_code phase_pending
    upload_expired_at grants check_digest is_hex check_workspace check_relative check_text length
    any_row is_absolute parse_path root_of select split kept is_parent no_parts contains print_path
    print_relative join root_after_one text_eq with_head expected_scope identity_eq same_scope
    open_upload
granted = refl

upload_single_use_example :
    let end =
      run a_digest
        (reject 31 5 8 25 ∷ [])
        (consume_upload a_digest 31 5 a_scope 20 confirmable).1 in
    (consume_upload a_digest 31 5 a_scope 30 end ≡ (err safe_operation, end))
    × (reject_upload 31 5 8 30 end ≡ (err safe_operation, end))
upload_single_use_example =
    upload_single_use a_digest 31 5 a_scope 20 confirmable (reject 31 5 8 25 ∷ []) 5 a_scope 8 30
      granted

upload_needs_scope_example :
    (a : Approval) × (find 31 confirmable.approvals ≡ some a)
    × (a.status ≡ ApprovalStatus.pending)
    × (a.requested_by ≡ 5)
    × ((end : ℕ) × (a.expires_at ≡ some end) × (20 < end))
    × ((u : Upload) × (a.upload ≡ some u) × IsAskedFor u.scope a_scope)
upload_needs_scope_example = upload_needs_scope a_digest 31 5 a_scope 20 confirmable granted

abbrev some_uploads : List UploadOp
some_uploads = request 32 5 a_scope 60 15 ∷ consume 31 5 a_scope 20 ∷ []

pending_uploads-Bounded_example :
    waiting_for 5 (run a_digest some_uploads confirmable) ≤ max_pending_per_owner
unfolding count pending_of is_upload upload_row approval_status_code
pending_uploads-Bounded_example =
    pending_uploads-Bounded a_digest some_uploads 5 confirmable (tt, (tt, tt)) (omega arith)
