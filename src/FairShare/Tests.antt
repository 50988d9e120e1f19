-- ===== src/FairShare/Tests.antt =====
-- Three owners: ann runs two leases, bob has one suspended, and eve is idle.
use spoond.Base.{ℕ, ◌+◌, ◌<◌, ◌≡◌, refl, true, false, none, some, List, [], ◌∷◌, map, arith}
use spoond.Base.Text.{Text, codes, text_eq, text_ltb}
use spoond.Base.Int.{ℤ, pos, ◌+ℤ◌, ◌-ℤ◌, ◌≤ℤ◌}
use spoond.Base.FixedPoint.{centi}
use spoond.BoxFull.{row_of}
use spoond.Admission.{NodeCache, u64_mod}
use spoond.FairShare.{Lease, active_owners, mem_used, running_memory_mib}
use spoond.FairShare.Slices.{
  Reads, FairShareOwner, Snapshot, no_usage, compute_fair_shares, total_hugepage_mib,
  usable_snapshot_bytes, active_slice, idle_slice, ratio_of,
}
use spoond.FairShare.Bounds.{total, memory_share, disk_share, slices_fit}
use spoond.FairShare.Views.{owner_row, take_back_owners_for, fair_shares_view}
use spoond.FairShare.Views.Shown.{in_flight, Shows, take_back_owners_for-Shows}
use spoond.FairShare.Cache.{Event, invalidated, looks, computed, look, share_ttl, share_run}
use spoond.FairShare.Cache.Current.{look_is_current}

abbrev lease : Text → Text → Text → ℕ → Lease
lease id owner state mib = record {
  id = id;
  owner = owner;
  name = [];
  state = state;
  released = false;
  memory_mb = pos mib;
  own_pin = false;
  exec_pins = pos 0;
  busy = false;
  has_job = false;
  drained = false;
  last_active = 5;
}

abbrev leases : List Lease
leases =
    lease (codes "a1") (codes "ann") (codes "running") 3000
    ∷ lease (codes "b1") (codes "bob") (codes "suspended") 2000
    ∷ lease (codes "a2") (codes "ann") (codes "recovered") 1000
    ∷ lease (codes "a3") (codes "ann") (codes "lost") 4000
    ∷ []

abbrev pending : List (Text × ℤ)
pending = (codes "bob", pos 3000) ∷ (codes "ann", pos 500) ∷ []

abbrev node : NodeCache
node = record {
  at = some 0;
  info = record {
    status = codes "healthy";
    hugepages_total = 5120;
    hugepages_used = 2000;
    hugepages_reserved = 0;
    hugepage_size_bytes = 2097152;
  };
  inflight_mib = pos 0;
}

abbrev reads : Reads
reads = record {
  users = codes "eve" ∷ codes "ann" ∷ codes "bob" ∷ [];
  tokens = codes "ann" ∷ [] ∷ [];
  leases = leases;
  pending = pending;
  node = node;
  usage = some (λ o. no_usage);
  accounted = some (pos 1000);
  free = some 9000;
  names = λ o. [];
  now = 7;
}

share_ops : Unit {0}
unfolding compute_fair_shares active_owners mem_used running_memory_mib total_hugepage_mib
    usable_snapshot_bytes active_slice idle_slice ratio_of take_back_owners_for fair_shares_view
    look share_run row_of text_eq text_ltb ◌+ℤ◌ ◌-ℤ◌
share_ops = tt

abbrev shares : Snapshot centi
shares = compute_fair_shares centi reads

-- 10240 MiB for two; eve would be the third.
slices_of_box :
    map (λ (o : FairShareOwner centi). o.slice_mib) shares.owners
    ≡ pos 5120 ∷ pos 5120 ∷ pos 3413 ∷ []
unfolding share_ops
slices_of_box = refl

two_active : shares.owners_n ≡ 2
unfolding share_ops
two_active = refl

all_running : running_memory_mib leases (pos 512 ∷ []) ≡ pos 4512
unfolding share_ops
all_running = refl

heaviest_first :
    map (λ (o : FairShareOwner centi). o.owner) (fair_shares_view centi shares).0
    ≡ codes "ann" ∷ codes "bob" ∷ codes "eve" ∷ []
unfolding share_ops
heaviest_first = refl

-- bob asks for 2000 of the 3000 that are reserved for it.
in_flight_of_bob : in_flight (codes "bob") (codes "bob") (pos 2000) pending ≡ pos 1000
unfolding share_ops
in_flight_of_bob = refl

slices_fit_example :
    (total (memory_share centi) shares.owners ≤ℤ shares.memory_total_mib)
    × (total (disk_share centi) shares.owners ≤ℤ shares.disk_total_bytes)
slices_fit_example = slices_fit centi reads (omega arith)

take_back_owners_for-Shows_example :
    Shows
      (codes "ann")
      (row_of (codes "ann") (map (owner_row centi) shares.owners))
      leases
      (in_flight (codes "ann") (codes "bob") (pos 2000) pending)
      (row_of
        (codes "ann")
        (take_back_owners_for centi shares leases pending (codes "bob") (pos 2000)))
take_back_owners_for-Shows_example =
    take_back_owners_for-Shows centi shares leases pending (codes "bob") (pos 2000) (codes "ann")

abbrev known_snapshot : Snapshot centi
known_snapshot = record {
  owners = [];
  owners_n = 0;
  memory_total_mib = pos 0;
  disk_total_bytes = pos 0;
  at = 7;
  capacity_known = true;
}

-- Reader 1 computes across the invalidation and is not cached; reader 2 is.
abbrev across : List (Event centi)
across =
    computed 2 known_snapshot ∷ looks 2 7 ∷ computed 1 known_snapshot ∷ invalidated ∷ looks 1 6 ∷ []

not_cached :
    look centi 8 (share_run centi (computed 1 known_snapshot ∷ invalidated ∷ looks 1 6 ∷ [])).cache
    ≡ none
unfolding share_ops
not_cached = refl

cached : look centi 8 (share_run centi across).cache ≡ some known_snapshot
unfolding share_ops
cached = refl

one_invalidation : (share_run centi across).count < u64_mod
unfolding share_ops
one_invalidation = omega arith

look_is_current_example :
    ((share_run centi across).since ≡ (share_run centi across).count)
    × (known_snapshot.capacity_known ≡ true)
    × (8 < known_snapshot.at + share_ttl)
look_is_current_example = look_is_current centi across 8 known_snapshot one_invalidation cached
