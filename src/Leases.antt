-- ===== src/Leases.antt =====
-- Writer leases with fence tokens: `acquire_writer_lease`, `renew_writer_lease` and
-- `release_writer_lease` of src/nyanya_agent/execution_store.py.
pub mod Fencing
pub mod Refinement
use nyanya_agent.Prelude.{
  ℕ, ◌+◌, max, Bool, true, false, ◌&&◌, not, Option, none, some, ltb, ◌==◌, if◌then◌else◌, find,
  update_if, touches, upsert,
}
use nyanya_agent.Ledger.{Ledger, WriterLease, lease_keyed, seconds, whole_second}

-- The guard of `acquire_writer_lease`: another owner's lease that has not expired.
unfoldable pub held_by_other : Option WriterLease → ℕ → ℕ → Bool
held_by_other none owner now = false
held_by_other (some r) owner now = not (r.owner_id == owner) && ltb now r.expires_at

unfoldable pub next_fence : Option WriterLease → ℕ
next_fence none = 1
next_fence (some r) = r.fence_token + 1

unfoldable pub acquired_since : Option WriterLease → ℕ → ℕ → ℕ
acquired_since none owner now = now
acquired_since (some r) owner now = if r.owner_id == owner then r.acquired_at else now

-- The row that `acquire_writer_lease` writes over the current one.
unfoldable pub granted : Option WriterLease → ℕ → ℕ → ℕ → ℕ → WriterLease
unfolding next_fence acquired_since
granted current resource_key owner_id ttl_seconds now = record {
  resource_key = resource_key;
  owner_id = owner_id;
  fence_token = next_fence current;
  acquired_at = acquired_since current owner_id now;
  heartbeat_at = now;
  expires_at = now + seconds (max 10 ttl_seconds);
}

unfoldable pub acquire_writer_lease : ℕ → ℕ → ℕ → ℕ → Ledger → Option WriterLease × Ledger
unfolding held_by_other granted
acquire_writer_lease resource_key owner_id ttl_seconds clock l =
    let now = whole_second clock in
    let current = find resource_key l.leases in
    let lease = granted current resource_key owner_id ttl_seconds now in
    if held_by_other current owner_id now
    then (none, l)
    else (some lease, record l { leases = upsert lease l.leases })

unfoldable pub renewable : ℕ → ℕ → ℕ → WriterLease → Bool
renewable owner_id fence_token now r =
    r.owner_id == owner_id && r.fence_token == fence_token && ltb now r.expires_at

unfoldable pub renewed : ℕ → ℕ → WriterLease → WriterLease
renewed ttl_seconds now r = record r {
  heartbeat_at = now;
  expires_at = now + seconds (max 10 ttl_seconds);
}

unfoldable pub renew_writer_lease : ℕ → ℕ → ℕ → ℕ → ℕ → Ledger → Option WriterLease × Ledger
unfolding renewable renewed
renew_writer_lease resource_key owner_id fence_token ttl_seconds clock l =
    let now = whole_second clock in
    let extended =
      update_if resource_key (renewable owner_id fence_token now) (renewed ttl_seconds now)
        l.leases in
    if touches resource_key (renewable owner_id fence_token now) l.leases
    then (find resource_key extended, record l { leases = extended })
    else (none, l)

unfoldable pub releasable : ℕ → ℕ → WriterLease → Bool
releasable owner_id fence_token r = r.owner_id == owner_id && r.fence_token == fence_token

unfoldable pub released : WriterLease → WriterLease
released r = record r { expires_at = 0 }

-- A released lease stays as a row that expired in 1970: its fence token is kept.
unfoldable pub release_writer_lease : ℕ → ℕ → ℕ → Ledger → Bool × Ledger
unfolding releasable released
release_writer_lease resource_key owner_id fence_token l = (
  touches resource_key (releasable owner_id fence_token) l.leases,
  record l { leases = update_if resource_key (releasable owner_id fence_token) released l.leases },
)
