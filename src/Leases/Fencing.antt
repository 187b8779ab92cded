-- ===== src/Leases/Fencing.antt =====
-- What the fence tokens guarantee, over sequences of the lease operations of
-- src/nyanya_agent/execution_store.py.
use nyanya_agent.Prelude.{
  ℕ, ◌+◌, ◌≤◌, ◌<◌, ◌≡◌, ◌≢◌, ◌↔◌, refl, false, Option, none, some, List, [], ◌∷◌, arith, find,
  find-upsert, find-update_if,
}
use nyanya_agent.Ledger.{Ledger, WriterLease, lease_keyed, whole_second}
use nyanya_agent.Leases.{
  acquire_writer_lease, renew_writer_lease, release_writer_lease, renewable, renewed, releasable,
  released, granted,
}

pub data LeaseOp : Type 0 where
  acquire : (resource_key owner_id ttl_seconds clock : ℕ) → LeaseOp
  renew : (resource_key owner_id fence_token ttl_seconds clock : ℕ) → LeaseOp
  release : (resource_key owner_id fence_token : ℕ) → LeaseOp

unfoldable pub step : LeaseOp → Ledger → Ledger
step (acquire resource_key owner_id ttl_seconds clock) l =
    (acquire_writer_lease resource_key owner_id ttl_seconds clock l).1
step (renew resource_key owner_id fence_token ttl_seconds clock) l =
    (renew_writer_lease resource_key owner_id fence_token ttl_seconds clock l).1
step (release resource_key owner_id fence_token) l =
    (release_writer_lease resource_key owner_id fence_token l).1

unfoldable pub run : List LeaseOp → Ledger → Ledger
run [] l = l
run (op ∷ ops) l = run ops (step op l)

-- The highest fence token that was issued for a resource; 0 if none was.
abbrev pub fence_in : Option WriterLease → ℕ
fence_in none = 0
fence_in (some r) = r.fence_token

abbrev pub fence : ℕ → Ledger → ℕ
fence key l = fence_in (find key l.leases)

module _ (key : ℕ) where
  acquire-fence_mono :
      (resource owner ttl clock : ℕ) (l : Ledger)
      → fence key l ≤ fence key (acquire_writer_lease resource owner ttl clock l).1
  unfolding acquire_writer_lease
  acquire-fence_mono resource owner ttl clock l = ground (
    arith,
    find-upsert key (granted (find resource l.leases) resource owner ttl (whole_second clock))
        l.leases,
  )

  renew-fence_same :
      (resource owner token ttl clock : ℕ) (l : Ledger)
      → fence key (renew_writer_lease resource owner token ttl clock l).1 ≡ fence key l
  unfolding renew_writer_lease
  renew-fence_same resource owner token ttl clock l = ground (
    arith,
    find-update_if resource key (renewable owner token (whole_second clock))
        (renewed ttl (whole_second clock)) l.leases (λ r. refl),
  )

  release-fence_same :
      (resource owner token : ℕ) (l : Ledger)
      → fence key (release_writer_lease resource owner token l).1 ≡ fence key l
  unfolding release_writer_lease
  release-fence_same resource owner token l =
      ground
        (arith, find-update_if resource key (releasable owner token) released l.leases (λ r. refl))

  step-fence_mono : (op : LeaseOp) (l : Ledger) → fence key l ≤ fence key (step op l)
  unfolding step
  step-fence_mono (acquire resource owner ttl clock) l =
      acquire-fence_mono resource owner ttl clock l
  step-fence_mono (renew resource owner token ttl clock) l =
      omega (arith, renew-fence_same resource owner token ttl clock l)
  step-fence_mono (release resource owner token) l =
      omega (arith, release-fence_same resource owner token l)

  run-fence_mono : (ops : List LeaseOp) (l : Ledger) → fence key l ≤ fence key (run ops l)
  unfolding run
  run-fence_mono [] l = omega arith
  run-fence_mono (op ∷ ops) l = omega (arith, step-fence_mono op l, run-fence_mono ops (step op l))

-- A granted lease carries the resource's next fence token, which is then the highest.
pub acquire-fence :
    (resource owner ttl clock : ℕ) (l : Ledger) {a : WriterLease}
    → (acquire_writer_lease resource owner ttl clock l).0 ≡ some a
    → (a.fence_token ≡ fence resource l + 1)
      × (fence resource (acquire_writer_lease resource owner ttl clock l).1 ≡ a.fence_token)
unfolding acquire_writer_lease
acquire-fence resource owner ttl clock l h = ground (
  arith,
  find-upsert resource (granted (find resource l.leases) resource owner ttl (whole_second clock))
      l.leases,
)

old_fence-renew :
    (resource owner token ttl clock : ℕ) (l : Ledger)
    → token < fence resource l
    → (renew_writer_lease resource owner token ttl clock l) ≡ (none, l)
unfolding renew_writer_lease
old_fence-renew resource owner token ttl clock l h = ground arith

old_fence-release :
    (resource owner token : ℕ) (l : Ledger)
    → token < fence resource l
    → (release_writer_lease resource owner token l).0 ≡ false
unfolding release_writer_lease
old_fence-release resource owner token l h = ground arith

-- Once a resource was granted again, to anyone, the earlier lease's token is dead for good: after
-- any further lease operations its renewal returns None and writes nothing, and its release
-- returns False.
pub fencing :
    (resource o1 ttl1 t1 : ℕ) (l : Ledger) (between : List LeaseOp) (o2 ttl2 t2 : ℕ)
    (later : List LeaseOp) (ttl3 t3 : ℕ) {a b : WriterLease}
    → (acquire_writer_lease resource o1 ttl1 t1 l).0 ≡ some a
    → (acquire_writer_lease resource o2 ttl2 t2
        (run between (acquire_writer_lease resource o1 ttl1 t1 l).1)).0
      ≡ some b
    → let end =
        run later
          (acquire_writer_lease resource o2 ttl2 t2
            (run between (acquire_writer_lease resource o1 ttl1 t1 l).1)).1 in
      (renew_writer_lease resource o1 a.fence_token ttl3 t3 end ≡ (none, end))
      × ((release_writer_lease resource o1 a.fence_token end).0 ≡ false)
fencing resource o1 ttl1 t1 l between o2 ttl2 t2 later ttl3 t3 {a} {b} ha hb =
    let l1 = (acquire_writer_lease resource o1 ttl1 t1 l).1 in
    let l2 = run between l1 in
    let l3 = (acquire_writer_lease resource o2 ttl2 t2 l2).1 in
    let dead : a.fence_token < fence resource (run later l3) = omega (
      arith,
      acquire-fence resource o1 ttl1 t1 l ha,
      run-fence_mono resource between l1,
      acquire-fence resource o2 ttl2 t2 l2 hb,
      run-fence_mono resource later l3,
    ) in
    (
      old_fence-renew resource o1 a.fence_token ttl3 t3 (run later l3) dead,
      old_fence-release resource o1 a.fence_token (run later l3) dead,
    )

-- Exactly when a lease is refused: another owner's lease stands and has not expired.
pub acquire_refused_iff :
    (resource owner ttl clock : ℕ) (l : Ledger)
    → ((acquire_writer_lease resource owner ttl clock l).0 ≡ none) ↔ (
        (r : WriterLease) × (find resource l.leases ≡ some r)
        × (r.owner_id ≢ owner)
        × (whole_second clock < r.expires_at))
unfolding acquire_writer_lease
acquire_refused_iff resource owner ttl clock l = (ground arith, ground arith)

-- What another owner does before the expiry.
abbrev pub IsRival : WriterLease → LeaseOp → Type 0
IsRival a (acquire resource owner ttl clock) =
    (owner ≢ a.owner_id) × (whole_second clock < a.expires_at)
IsRival a (renew resource owner token ttl clock) = owner ≢ a.owner_id
IsRival a (release resource owner token) = owner ≢ a.owner_id

abbrev pub AllRivals : WriterLease → List LeaseOp → Type 0
AllRivals a [] = Unit
AllRivals a (op ∷ ops) = IsRival a op × AllRivals a ops

acquire-held :
    (a : WriterLease) (resource owner ttl clock : ℕ) (l : Ledger)
    → owner ≢ a.owner_id
    → whole_second clock < a.expires_at
    → find a.resource_key l.leases ≡ some a
    → find a.resource_key (acquire_writer_lease resource owner ttl clock l).1.leases ≡ some a
unfolding acquire_writer_lease
acquire-held a resource owner ttl clock l other soon h = ground (
  arith,
  find-upsert a.resource_key
      (granted (find resource l.leases) resource owner ttl (whole_second clock)) l.leases,
)

renew-held :
    (a : WriterLease) (resource owner token ttl clock : ℕ) (l : Ledger)
    → owner ≢ a.owner_id
    → find a.resource_key l.leases ≡ some a
    → find a.resource_key (renew_writer_lease resource owner token ttl clock l).1.leases ≡ some a
unfolding renew_writer_lease
renew-held a resource owner token ttl clock l other h = ground (
  arith,
  find-update_if resource a.resource_key (renewable owner token (whole_second clock))
      (renewed ttl (whole_second clock)) l.leases (λ r. refl),
)

release-held :
    (a : WriterLease) (resource owner token : ℕ) (l : Ledger)
    → owner ≢ a.owner_id
    → find a.resource_key l.leases ≡ some a
    → find a.resource_key (release_writer_lease resource owner token l).1.leases ≡ some a
unfolding release_writer_lease
release-held a resource owner token l other h = ground (
  arith,
  find-update_if resource a.resource_key (releasable owner token) released l.leases (λ r. refl),
)

step-held :
    (a : WriterLease) (op : LeaseOp) (l : Ledger)
    → IsRival a op
    → find a.resource_key l.leases ≡ some a
    → find a.resource_key (step op l).leases ≡ some a
unfolding step
step-held a (acquire resource owner ttl clock) l rival h =
    acquire-held a resource owner ttl clock l rival.0 rival.1 h
step-held a (renew resource owner token ttl clock) l rival h =
    renew-held a resource owner token ttl clock l rival h
step-held a (release resource owner token) l rival h = release-held a resource owner token l rival h

-- Until it expires, a granted lease stands whatever other owners do: no sequence of their
-- acquisitions before the expiry, renewals and releases changes its row.
pub lease_exclusive :
    (ops : List LeaseOp) (a : WriterLease) (l : Ledger)
    → AllRivals a ops
    → find a.resource_key l.leases ≡ some a
    → find a.resource_key (run ops l).leases ≡ some a
unfolding run
lease_exclusive [] a l rivals h = h
lease_exclusive (op ∷ ops) a l rivals h =
    lease_exclusive ops a (step op l) rivals.1 (step-held a op l rivals.0 h)
