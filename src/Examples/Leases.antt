-- ===== src/Examples/Leases.antt =====
-- Runs of the writer leases.
use nyanya_agent.Prelude.{
  List, false, none, some, [], ◌∷◌, ◌≡◌, ◌↔◌, ◌≢◌, ◌<◌, refl, find, arith, upsert,
}
use nyanya_agent.Ledger.{Ledger, WriterLease, lease_keyed, whole_second}
use nyanya_agent.Leases.Refinement.{lock_answers, lease_answers, leases_refine}
use nyanya_agent.Examples.{empty}
use nyanya_agent.Leases.{acquire_writer_lease, renew_writer_lease, release_writer_lease}
use nyanya_agent.Leases.Fencing.{
  LeaseOp, acquire, renew, release, run, fencing, lease_exclusive, acquire_refused_iff,
}

abbrev first_lease : WriterLease
first_lease = record {
  resource_key = 4;
  owner_id = 8;
  fence_token = 1;
  acquired_at = 0;
  heartbeat_at = 0;
  expires_at = 30000000;
}

abbrev leased : Ledger
leased = record empty { leases = first_lease ∷ [] }

acquired_first : (acquire_writer_lease 4 8 30 0 empty).0 ≡ some first_lease
unfolding acquire_writer_lease find
acquired_first = refl

abbrev after_first : Ledger
after_first = (acquire_writer_lease 4 8 30 0 empty).1

abbrev second_lease : WriterLease
second_lease = record {
  resource_key = 4;
  owner_id = 9;
  fence_token = 2;
  acquired_at = 31000000;
  heartbeat_at = 31000000;
  expires_at = 61000000;
}

acquired_second :
    (acquire_writer_lease 4 9 30 31000000 (run [] (acquire_writer_lease 4 8 30 0 empty).1)).0
    ≡ some second_lease
unfolding acquire_writer_lease find upsert run
acquired_second = refl

fencing_example :
    let end =
      run (release 4 9 2 ∷ []) (acquire_writer_lease 4 9 30 31000000 (run [] after_first)).1 in
    (renew_writer_lease 4 8 1 30 32000000 end ≡ (none, end))
    × ((release_writer_lease 4 8 1 end).0 ≡ false)
fencing_example =
    fencing 4 8 30 0 empty [] 9 30 31000000 (release 4 9 2 ∷ []) 30 32000000 acquired_first
      acquired_second

lease_exclusive_example :
    find 4
      (run (acquire 4 9 30 1000000 ∷ renew 4 9 1 30 1000000 ∷ release 4 9 1 ∷ []) leased).leases
    ≡ some first_lease
lease_exclusive_example =
    lease_exclusive (acquire 4 9 30 1000000 ∷ renew 4 9 1 30 1000000 ∷ release 4 9 1 ∷ [])
      first_lease leased
      (
        ((λ p. omega (arith, p)), omega arith),
        ((λ p. omega (arith, p)), ((λ p. omega (arith, p)), tt)),
      )
      (unfold find in refl)

acquire_refused_iff_example : ((acquire_writer_lease 4 9 30 1000000 leased).0 ≡ none) ↔ (
    (r : WriterLease) × (find 4 leased.leases ≡ some r)
    × (r.owner_id ≢ 9)
    × (whole_second 1000000 < r.expires_at))
acquire_refused_iff_example = acquire_refused_iff 4 9 30 1000000 leased

abbrev a_contest : List LeaseOp
a_contest = acquire 3 5 60 10 ∷ acquire 3 6 60 20 ∷ release 3 5 1 ∷ acquire 3 6 60 30 ∷ []

leases_refine_example : lock_answers a_contest (λ key. none) ≡ lease_answers a_contest empty
leases_refine_example = leases_refine a_contest empty (λ key. none) (λ key. unfold find in refl)
