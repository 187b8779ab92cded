-- ===== src/Uploads/SingleUse.antt =====
-- About the use of an upload's confirmation (src/nyanya_agent/upload_approval.py).
use nyanya_agent.Prelude.{
  ℕ, none, ◌<◌, ◌≡◌, ◌≢◌, refl, true, false, Option, some, inl, inr, List, [], ◌∷◌, arith,
  Bool-cases, Option-cases, Result-cases, ok, err, safe_operation, find, find-update_if,
}
use nyanya_agent.Ledger.{
  Ledger, Approval, ApprovalStatus, approval_keyed, approval_status_coded, approval_status_code,
  approval_status_code-injective, ◌is◌, UploadScope, Upload, FileIdentity,
}
use nyanya_agent.Paths.{Text, text_eq, check_workspace, check_relative, check_digest}
use nyanya_agent.Uploads.Scope.{identity_eq}
use nyanya_agent.Approvals.Trail.{ApprovalOp}
use nyanya_agent.Approvals.Trail
use nyanya_agent.Approvals.{is_upload}
use nyanya_agent.Uploads.{
  request_upload, consume_upload, reject_upload, open_upload, owned, set_closed, grants,
  upload_expired_at, same_scope, expected_scope,
}
use nyanya_agent.Uploads.Shut.{
  IsShut, IsShut-open_upload, other-find, request_upload-find, consume_upload-find,
  reject_upload-find,
}

pub data UploadOp : Type 0 where
  request : (id owner : ℕ) (given : UploadScope) (ttl now : ℕ) → UploadOp
  consume : (id owner : ℕ) (given : UploadScope) (now : ℕ) → UploadOp
  reject : (id owner conversation now : ℕ) → UploadOp
  other : ApprovalOp → UploadOp

owned-find :
    (id owner : ℕ) (l : Ledger) {row : Approval}
    → owned id owner l ≡ ok row
    → (find id l.approvals ≡ some row)
      × (is_upload row.action ≡ true)
      × (row.requested_by ≡ owner)
      × (row.authorized_actor ≡ some owner)
unfolding owned
owned-find id owner l h = (ground arith, ground arith, ground arith, ground arith)

text_eq-same : (s t : Text) → text_eq s t ≡ true → s ≡ t
unfolding text_eq
text_eq-same [] [] h = refl
text_eq-same [] (y ∷ ys) h = cc h
text_eq-same (x ∷ xs) [] h = cc h
text_eq-same (x ∷ xs) (y ∷ ys) h =
    let rest = text_eq-same xs ys (ground (arith, h)) in
    let head : x ≡ y = ground (arith, h) in cc (head, rest)

identity_eq-same : (a b : FileIdentity) → identity_eq a b ≡ true → a ≡ b
unfolding identity_eq
identity_eq-same a b h =
    let dev : a.dev ≡ b.dev = ground (arith, h) in
    let ino : a.ino ≡ b.ino = ground (arith, h) in
    let size : a.size ≡ b.size = ground (arith, h) in
    let mtime : a.mtime_ns ≡ b.mtime_ns = ground (arith, h) in
    let ctime : a.ctime_ns ≡ b.ctime_ns = ground (arith, h) in cc (dev, ino, size, mtime, ctime)

-- The document and the destination that a stored scope names are the given ones, whose path and
-- workspace are stored in their normal form.
pub record IsAskedFor (stored given : UploadScope) : Type 0 where
  pub conversation : stored.conversation_key ≡ given.conversation_key
  pub destination : stored.destination_id ≡ given.destination_id
  pub digest : check_digest given.sha256 ≡ ok stored.sha256
  pub workspace : check_workspace given.workspace ≡ ok stored.workspace
  pub path : check_relative given.relative_path ≡ ok stored.relative_path
  pub identity : stored.file_identity ≡ given.file_identity

expected-IsAskedFor :
    (stored given expected : UploadScope)
    → expected_scope given ≡ ok expected
    → same_scope stored expected ≡ true
    → IsAskedFor stored given
unfolding expected_scope same_scope
expected-IsAskedFor stored given expected checked same =
    elim (Result-cases (check_digest given.sha256)) [
      | inr (x, e) ↦ absurd (ground (arith, checked, e))
      | inl (sha, d) ↦ elim (Result-cases (check_workspace given.workspace)) [
        | inr (x, e) ↦ absurd (ground (arith, checked, d, e))
        | inl (root, w) ↦ elim (Result-cases (check_relative given.relative_path)) [
          | inr (x, e) ↦ absurd (ground (arith, checked, d, w, e))
          | inl (path, p) ↦
              let whole : record given { sha256 = sha; workspace = root; relative_path = path }
                  ≡ expected =
                ground (arith, checked, d, w, p) in
              let same_sha = text_eq-same stored.sha256 expected.sha256 (ground (arith, same)) in
              let same_root =
                text_eq-same stored.workspace expected.workspace (ground (arith, same)) in
              let same_path =
                text_eq-same stored.relative_path expected.relative_path (ground (arith, same)) in
              let same_file =
                identity_eq-same stored.file_identity expected.file_identity
                  (ground (arith, same)) in
              let conversation : stored.conversation_key ≡ expected.conversation_key =
                ground (arith, same) in
              let destination : stored.destination_id ≡ expected.destination_id =
                ground (arith, same) in
              record {
                conversation = cc (conversation, whole);
                destination = cc (destination, whole);
                digest = cc (d, whole, same_sha);
                workspace = cc (w, whole, same_root);
                path = cc (p, whole, same_path);
                identity = cc (same_file, whole);
              }
        ]
      ]
    ]

upload_unexpired :
    (expires_at : Option ℕ) (now : ℕ)
    → upload_expired_at expires_at now ≡ false
    → (end : ℕ) × (expires_at ≡ some end) × (now < end)
unfolding upload_expired_at
upload_unexpired none now h = cc h
upload_unexpired (some end) now h = (end, refl, ground arith)

consumed-IsShut :
    (owner now : ℕ) (upload : Option Upload) (a : Approval)
    → is_upload a.action ≡ true
    → IsShut (set_closed ApprovalStatus.approved ApprovalStatus.consumed owner upload now a)
unfolding set_closed
consumed-IsShut owner now upload a action = record { action = action; closed = λ p. cc }

module _ (scope_hash : ℕ → UploadScope → ℕ) where
  unfoldable pub step : UploadOp → Ledger → Ledger
  step (request id owner given ttl now) l = (request_upload scope_hash id owner given ttl now l).1
  step (consume id owner given now) l = (consume_upload scope_hash id owner given now l).1
  step (reject id owner conversation now) l = (reject_upload id owner conversation now l).1
  step (other op) l = Trail.step op l

  unfoldable pub run : List UploadOp → Ledger → Ledger
  run [] l = l
  run (op ∷ ops) l = run ops (step op l)

  step-IsShut :
      (op : UploadOp) (i : ℕ) (l : Ledger) {a : Approval}
      → IsShut a
      → find i l.approvals ≡ some a
      → find i (step op l).approvals ≡ some a
  unfolding step
  step-IsShut (request id owner given ttl now) i l s h =
      request_upload-find i (IsShut-open_upload s) scope_hash id owner given ttl now l h
  step-IsShut (consume id owner given now) i l s h =
      consume_upload-find i (IsShut-open_upload s) scope_hash id owner given now l h
  step-IsShut (reject id owner conversation now) i l s h =
      reject_upload-find i (IsShut-open_upload s) id owner conversation now l h
  step-IsShut (other op) i l s h = other-find op i l s h

  run-IsShut :
      (ops : List UploadOp) (i : ℕ) (l : Ledger) {a : Approval}
      → IsShut a
      → find i l.approvals ≡ some a
      → find i (run ops l).approvals ≡ some a
  unfolding run
  run-IsShut [] i l s h = h
  run-IsShut (op ∷ ops) i l s h = run-IsShut ops i (step op l) s (step-IsShut op i l s h)

  -- What has held when a send is granted.
  pub record IsGrant (id owner : ℕ) (given : UploadScope) (now : ℕ) (l : Ledger) (a : Approval)
      : Type 0 where
    pub found : find id l.approvals ≡ some a
    pub action : is_upload a.action ≡ true
    pub requester : a.requested_by ≡ owner
    pub actor : a.authorized_actor ≡ some owner
    pub waits : a.status ≡ ApprovalStatus.pending
    pub unexpired : upload_expired_at a.expires_at now ≡ false
    pub scope : grants scope_hash a given ≡ true

  consume_owned-IsGrant :
      (id owner : ℕ) (given : UploadScope) (now : ℕ) (l : Ledger) {row : Approval}
      → owned id owner l ≡ ok row
      → (consume_upload scope_hash id owner given now l).0 ≡ ok tt
      → IsGrant id owner given now l row
        × (find id (consume_upload scope_hash id owner given now l).1.approvals
            ≡ some (
                set_closed ApprovalStatus.approved ApprovalStatus.consumed owner row.upload now
                  row))
  unfolding consume_upload set_closed open_upload
  consume_owned-IsGrant id owner given now l {row} is_owned granted =
      let o = owned-find id owner l is_owned in
      (
        record {
          found = o.0;
          action = o.1;
          requester = o.2;
          actor = o.3;
          waits = approval_status_code-injective _ _ (ground (arith, is_owned));
          unexpired = ground (arith, is_owned);
          scope = ground (arith, is_owned);
        },
        ground (
          arith,
          is_owned,
          o.0,
          find-update_if id id open_upload
              (set_closed ApprovalStatus.approved ApprovalStatus.consumed owner row.upload now)
              l.approvals (λ r. refl),
        ),
      )

  consume_upload-IsGrant :
      (id owner : ℕ) (given : UploadScope) (now : ℕ) (l : Ledger)
      → (consume_upload scope_hash id owner given now l).0 ≡ ok tt
      → (a : Approval) × IsGrant id owner given now l a
        × (find id (consume_upload scope_hash id owner given now l).1.approvals
            ≡ some
                (set_closed ApprovalStatus.approved ApprovalStatus.consumed owner a.upload now a))
  consume_upload-IsGrant id owner given now l granted = elim (Result-cases (owned id owner l)) [
    | inl (row, is_owned) ↦
        let g = consume_owned-IsGrant id owner given now l is_owned granted in (row, g.0, g.1)
    | inr (e, refused) ↦ absurd (unfold consume_upload in ground (arith, refused))
  ]

  shut-consume :
      (id owner : ℕ) (given : UploadScope) (now : ℕ) (l : Ledger) {a : Approval}
      → find id l.approvals ≡ some a
      → a.status ≢ ApprovalStatus.pending
      → consume_upload scope_hash id owner given now l ≡ (err safe_operation, l)
  shut-consume id owner given now l h closed = elim (Result-cases (owned id owner l)) [
    | inl (row, is_owned) ↦
        let o = owned-find id owner l is_owned in
        elim (Bool-cases (row.status is ApprovalStatus.pending)) [
          | inl p ↦ absurd (closed (approval_status_code-injective _ _ (ground (arith, o.0))))
          | inr p ↦ (unfold consume_upload in ground (arith, is_owned, p))
        ]
    | inr (e, refused) ↦ (unfold consume_upload in unfold owned in ground (arith, refused))
  ]

  shut-reject :
      (id owner conversation now : ℕ) (l : Ledger) {a : Approval}
      → find id l.approvals ≡ some a
      → a.status ≡ ApprovalStatus.approved
      → reject_upload id owner conversation now l ≡ (err safe_operation, l)
  shut-reject id owner conversation now l {a} h spent = elim (Result-cases (owned id owner l)) [
    | inl (row, is_owned) ↦
        let o = owned-find id owner l is_owned in
        let status : row.status ≡ ApprovalStatus.approved = cc (o.0, h, spent) in
        (unfold reject_upload in unfold approval_status_code in ground (arith, is_owned, status))
    | inr (e, refused) ↦ (unfold reject_upload in unfold owned in ground (arith, refused))
  ]

  grants-scope :
      (a : Approval) (given : UploadScope)
      → grants scope_hash a given ≡ true
      → (u : Upload) × (expected : UploadScope) × (a.upload ≡ some u)
        × (expected_scope given ≡ ok expected)
        × (same_scope u.scope expected ≡ true)
  unfolding grants
  grants-scope a given h = elim (Result-cases (expected_scope given)) [
    | inr (x, e) ↦ absurd (ground (arith, e))
    | inl (expected, e) ↦ elim (Option-cases a.upload) [
      | inl missing ↦ absurd (ground (arith, e, missing))
      | inr (u, there) ↦ (u, expected, there, e, ground (arith, e, there))
    ]
  ]

  -- A confirmation grants one send: once it was consumed, and after any further operations on
  -- uploads and on other approvals, it is neither consumed nor rejected again, for whatever owner,
  -- scope and time: both raise SafeOperationError and write nothing.
  pub upload_single_use :
      (id owner : ℕ) (given : UploadScope) (now : ℕ) (l : Ledger) (ops : List UploadOp) (owner' : ℕ)
      (given' : UploadScope) (conversation now' : ℕ)
      → (consume_upload scope_hash id owner given now l).0 ≡ ok tt
      → let end = run ops (consume_upload scope_hash id owner given now l).1 in
        (consume_upload scope_hash id owner' given' now' end ≡ (err safe_operation, end))
        × (reject_upload id owner' conversation now' end ≡ (err safe_operation, end))
  upload_single_use id owner given now l ops owner' given' conversation now' granted =
      let (a, g, row) = consume_upload-IsGrant id owner given now l granted in
      let still = run-IsShut ops id _ (consumed-IsShut owner now a.upload a g.action) row in
      (
        shut-consume id owner' given' now' _ still
            (consumed-IsShut owner now a.upload a g.action).closed,
        shut-reject id owner' conversation now' _ still (unfold set_closed in refl),
      )

  -- A send is granted only to the requester of a stored confirmation that is pending and expires
  -- later, and only for the document that it was asked for: the given conversation, destination and
  -- file identity are the stored ones, and the given workspace, path and digest pass their checks with
  -- the stored ones as normal forms.
  pub upload_needs_scope :
      (id owner : ℕ) (given : UploadScope) (now : ℕ) (l : Ledger)
      → (consume_upload scope_hash id owner given now l).0 ≡ ok tt
      → (a : Approval) × (find id l.approvals ≡ some a)
        × (a.status ≡ ApprovalStatus.pending)
        × (a.requested_by ≡ owner)
        × ((end : ℕ) × (a.expires_at ≡ some end) × (now < end))
        × ((u : Upload) × (a.upload ≡ some u) × IsAskedFor u.scope given)
  upload_needs_scope id owner given now l granted =
      let (a, g, row) = consume_upload-IsGrant id owner given now l granted in
      let (u, expected, there, checked, same) = grants-scope a given g.scope in
      (
        a,
        g.found,
        g.waits,
        g.requester,
        upload_unexpired a.expires_at now g.unexpired,
        (u, there, expected-IsAskedFor u.scope given expected checked same),
      )
