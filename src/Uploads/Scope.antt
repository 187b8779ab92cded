-- ===== src/Uploads/Scope.antt =====
-- The scope of an upload's confirmation: how it is checked and compared
-- (src/nyanya_agent/upload_approval.py).
use nyanya_agent.Prelude.{
  ℕ, Bool, not, ◌&&◌, ◌||◌, List, ◌==◌, ltb, Result, ok, ◌>>=◌, ◌>>◌, raise_if, safe_operation,
  select, any_row,
}
use nyanya_agent.Paths.{text_eq, check_workspace, check_relative, check_digest}
use nyanya_agent.Ledger.{UploadScope, FileIdentity, CountKind}

-- `{key: item for key, item in value.items() if item}`
unfoldable pub nonzero_counts : List (CountKind × ℕ) → List (CountKind × ℕ)
nonzero_counts counts = select (λ c. not (c.1 == 0)) counts

-- `_counts`
unfoldable pub check_counts : List (CountKind × ℕ) → Result (List (CountKind × ℕ))
check_counts counts = do
  raise_if (any_row (λ c. ltb 1000000 c.1) counts || not (any_row (λ c. not (c.1 == 0)) counts))
      safe_operation
  ok (nonzero_counts counts)

-- The validation of `request_upload`'s arguments: the scope that it stores.
unfoldable pub check_scope : UploadScope → Result UploadScope
check_scope s = do
  workspace ← check_workspace s.workspace
  relative_path ← check_relative s.relative_path
  sha256 ← check_digest s.sha256
  counts ← check_counts s.counts
  ok (record s {
    workspace = workspace;
    relative_path = relative_path;
    sha256 = sha256;
    counts = counts;
  })

unfoldable pub identity_eq : FileIdentity → FileIdentity → Bool
identity_eq a b =
    a.dev == b.dev
    && a.ino == b.ino
    && a.size == b.size
    && a.mtime_ns == b.mtime_ns
    && a.ctime_ns == b.ctime_ns

-- `all(metadata.get(key) == value for key, value in expected.items())`; the channel and the
-- counts are not among the keys.
unfoldable pub same_scope : UploadScope → UploadScope → Bool
unfolding identity_eq
same_scope stored expected =
    stored.conversation_key == expected.conversation_key
    && text_eq stored.sha256 expected.sha256
    && stored.destination_id == expected.destination_id
    && text_eq stored.workspace expected.workspace
    && text_eq stored.relative_path expected.relative_path
    && identity_eq stored.file_identity expected.file_identity

-- `expected`, whose checks may raise
unfoldable pub expected_scope : UploadScope → Result UploadScope
expected_scope s = do
  sha256 ← check_digest s.sha256
  workspace ← check_workspace s.workspace
  relative_path ← check_relative s.relative_path
  ok (record s { sha256 = sha256; workspace = workspace; relative_path = relative_path })
