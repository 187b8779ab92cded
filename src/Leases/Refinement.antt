-- ===== src/Leases/Refinement.antt =====
-- The lease table of src/nyanya_agent/execution_store.py as a map of fenced locks: what a client sees
-- of it, without rows, their order and their acquisition and heartbeat times.
use nyanya_agent.Prelude.{
  ℕ, ◌+◌, max, ◌≡◌, refl, Bool, true, false, not, ◌&&◌, Option, none, some, List, [], ◌∷◌, arith,
  if◌then◌else◌, ◌==◌, ltb, find, find-upsert, find-update_if,
}
use nyanya_agent.Ledger.{Ledger, WriterLease, lease_keyed, whole_second, seconds}
use nyanya_agent.Leases.{
  acquire_writer_lease, renew_writer_lease, release_writer_lease, renewable, renewed, releasable,
  released, granted,
}
use nyanya_agent.Leases.Fencing.{LeaseOp, acquire, renew, release, step}

-- A lock: who had it last, until when, and under which token.
pub record Lock : Type 0 where
  pub owner : ℕ
  pub token : ℕ
  pub until : ℕ

abbrev pub Locks : Type 0
Locks = ℕ → Option Lock

-- The grant of a lock, or whether a release met its lock.
pub data Answer : Type 0 where
  lock : Option Lock → Answer
  done : Bool → Answer

abbrev pub set_lock : ℕ → Lock → Locks → Locks
set_lock key k s j = if key == j then some k else s j

abbrev pub held : Option Lock → ℕ → ℕ → Bool
held none owner now = false
held (some k) owner now = not (k.owner == owner) && ltb now k.until

abbrev pub token_after : Option Lock → ℕ
token_after none = 1
token_after (some k) = k.token + 1

abbrev pub new_lock : Option Lock → ℕ → ℕ → ℕ → Lock
new_lock current owner ttl now = record {
  owner = owner;
  token = token_after current;
  until = now + seconds (max 10 ttl);
}

-- Whether this owner's token is the lock's.
abbrev pub holds : Option Lock → ℕ → ℕ → Bool
holds none owner token = false
holds (some k) owner token = k.owner == owner && k.token == token

abbrev pub live : Option Lock → ℕ → Bool
live none now = false
live (some k) now = ltb now k.until

abbrev pub kept_until : ℕ → ℕ → ℕ → Lock
kept_until owner token until = record { owner = owner; token = token; until = until }

-- The specification.
abbrev pub lock_step : LeaseOp → Locks → Answer × Locks
lock_step (acquire key owner ttl clock) s =
    let now = whole_second clock in
    let k = new_lock (s key) owner ttl now in
    if held (s key) owner now then (lock none, s) else (lock (some k), set_lock key k s)
lock_step (renew key owner token ttl clock) s =
    let now = whole_second clock in
    let k = kept_until owner token (now + seconds (max 10 ttl)) in
    if holds (s key) owner token && live (s key) now
    then (lock (some k), set_lock key k s)
    else (lock none, s)
lock_step (release key owner token) s =
    if holds (s key) owner token
    then (done true, set_lock key (kept_until owner token 0) s)
    else (done false, s)

-- What the table shows of a row.
abbrev pub lock_of : Option WriterLease → Option Lock
lock_of none = none
lock_of (some r) = some (record { owner = r.owner_id; token = r.fence_token; until = r.expires_at })

abbrev pub lease_answer : LeaseOp → Ledger → Answer
lease_answer (acquire key owner ttl clock) l =
    lock (lock_of (acquire_writer_lease key owner ttl clock l).0)
lease_answer (renew key owner token ttl clock) l =
    lock (lock_of (renew_writer_lease key owner token ttl clock l).0)
lease_answer (release key owner token) l = done (release_writer_lease key owner token l).0

unfoldable pub lease_answers : List LeaseOp → Ledger → List Answer
lease_answers [] l = []
lease_answers (op ∷ ops) l = lease_answer op l ∷ lease_answers ops (step op l)

unfoldable pub lock_answers : List LeaseOp → Locks → List Answer
lock_answers [] s = []
lock_answers (op ∷ ops) s = (lock_step op s).0 ∷ lock_answers ops (lock_step op s).1

-- The locks show what the table holds.
abbrev pub Refines : Ledger → Locks → Type 0
Refines l s = (key : ℕ) → s key ≡ lock_of (find key l.leases)

acquire-Refines :
    (key owner ttl clock : ℕ) (l : Ledger) (s : Locks)
    → Refines l s
    → ((lock_step (acquire key owner ttl clock) s).0 ≡ lease_answer (acquire key owner ttl clock) l)
      × Refines
          (acquire_writer_lease key owner ttl clock l).1
          (lock_step (acquire key owner ttl clock) s).1
unfolding acquire_writer_lease
acquire-Refines key owner ttl clock l s h = (
  ground (arith, h key),
  λ j. ground (
    arith,
    h key,
    h j,
    find-upsert j (granted (find key l.leases) key owner ttl (whole_second clock)) l.leases,
  ),
)

renew-Refines :
    (key owner token ttl clock : ℕ) (l : Ledger) (s : Locks)
    → Refines l s
    → ((lock_step (renew key owner token ttl clock) s).0
        ≡ lease_answer (renew key owner token ttl clock) l)
      × Refines
          (renew_writer_lease key owner token ttl clock l).1
          (lock_step (renew key owner token ttl clock) s).1
unfolding renew_writer_lease
renew-Refines key owner token ttl clock l s h =
    let row = λ (j : ℕ).
      find-update_if key j (renewable owner token (whole_second clock))
        (renewed ttl (whole_second clock)) l.leases (λ r. refl) in
    (ground (arith, h key, row key), λ j. ground (arith, h key, h j, row j))

release-Refines :
    (key owner token : ℕ) (l : Ledger) (s : Locks)
    → Refines l s
    → ((lock_step (release key owner token) s).0 ≡ lease_answer (release key owner token) l)
      × Refines (release_writer_lease key owner token l).1 (lock_step (release key owner token) s).1
unfolding release_writer_lease
release-Refines key owner token l s h =
    let row =
      λ (j : ℕ). find-update_if key j (releasable owner token) released l.leases (λ r. refl) in
    (ground (arith, h key), λ j. ground (arith, h key, h j, row j))

step-Refines :
    (op : LeaseOp) (l : Ledger) (s : Locks)
    → Refines l s
    → ((lock_step op s).0 ≡ lease_answer op l) × Refines (step op l) (lock_step op s).1
unfolding step
step-Refines (acquire key owner ttl clock) l s h = acquire-Refines key owner ttl clock l s h
step-Refines (renew key owner token ttl clock) l s h = renew-Refines key owner token ttl clock l s h
step-Refines (release key owner token) l s h = release-Refines key owner token l s h

-- The lease table implements a map of fenced locks: from a table and a map that shows it, every
-- sequence of acquisitions, renewals and releases gets the same answers from both.
pub leases_refine :
    (ops : List LeaseOp) (l : Ledger) (s : Locks)
    → Refines l s
    → lock_answers ops s ≡ lease_answers ops l
unfolding lock_answers lease_answers
leases_refine [] l s h = refl
leases_refine (op ∷ ops) l s h =
    let (answer, rest) = step-Refines op l s h in
    cc (answer, leases_refine ops (step op l) (lock_step op s).1 rest)
