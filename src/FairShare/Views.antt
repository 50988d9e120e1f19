-- ===== src/FairShare/Views.antt =====
-- What take-back sees of the box: takeBackOwners and takeBackOwnersFor, api/take_back.go, and the
-- ordered view of api/fair_shares.go.
pub mod Listed
pub mod Shown
use spoond.Base.{
  ℕ, Bool, true, false, not, ◌&&◌, ◌||◌, Option, none, some, List, [], ◌∷◌, ◌++◌, map,
  if◌then◌else◌, sort_stable,
}
use spoond.Base.Text.{Text, text_eq, text_ltb}
use spoond.Base.Int.{ℤ, pos, ◌+ℤ◌, ◌-ℤ◌, ltb_ℤ}
use spoond.Base.Float.{Float64}
use spoond.TakeBack.{TakeBackLease, TakeBackOwner}
use spoond.FairShare.{Lease, live, is_ownerless}
use spoond.FairShare.Slices.{FairShareOwner, Snapshot}

abbrev pub lease_view : Lease → TakeBackLease
lease_view l = record {
  id = l.id;
  name = l.name;
  memory_mib = l.memory_mb;
  pinned = l.own_pin || ltb_ℤ (pos 0) l.exec_pins;
  own_pin = l.own_pin;
  exec_pinned = ltb_ℤ (pos 0) l.exec_pins;
  busy = l.busy || l.has_job;
  drained = l.drained;
  last_active = l.last_active;
}

abbrev pub is_listed : Lease → Bool
is_listed l = not (l.released || is_ownerless l || not (live l))

-- A lease goes to the row of its owner, or to a new row that the snapshot missed. An owner has one
-- row in a snapshot, which the map from owners to indices finds.
unfoldable pub place_lease : Lease → List TakeBackOwner → List TakeBackOwner
place_lease l [] =
    record { owner = l.owner; used_mib = pos 0; slice_mib = pos 0; leases = lease_view l ∷ [] } ∷ []
place_lease l (o ∷ os) =
    if text_eq o.owner l.owner
    then record o { leases = o.leases ++ lease_view l ∷ [] } ∷ os
    else o ∷ place_lease l os

unfoldable pub place_leases : List Lease → List TakeBackOwner → List TakeBackOwner
unfolding place_lease
place_leases [] os = os
place_leases (l ∷ ls) os = place_leases ls (if is_listed l then place_lease l os else os)

module _ (F : Float64) where
  open F use {Value, gtb}

  abbrev pub owner_row : FairShareOwner F → TakeBackOwner
  owner_row o = record {
    owner = o.owner;
    used_mib = o.used_mib;
    slice_mib = o.slice_mib;
    leases = [];
  }

  unfoldable pub take_back_owners : Snapshot F → List Lease → List TakeBackOwner
  unfolding place_leases
  take_back_owners s leases = place_leases leases (map owner_row s.owners)

  -- fairSharesView: the owner furthest over its slice first, then by owner.
  abbrev pub heavier : FairShareOwner F → FairShareOwner F → Bool
  heavier x y =
      if gtb x.ratio y.ratio || gtb y.ratio x.ratio
      then gtb x.ratio y.ratio
      else text_ltb x.owner y.owner

  unfoldable pub fair_shares_view : Snapshot F → List (FairShareOwner F) × Bool
  unfolding sort_stable text_ltb
  fair_shares_view s = (sort_stable heavier s.owners, s.capacity_known)

-- The requester's own reservation counts without the request that it holds.
abbrev pub without_request : Text → ℤ → Text → ℤ → ℤ
without_request requester request o n =
    if text_eq o requester && ltb_ℤ (pos 0) n
    then n -ℤ (if ltb_ℤ n request then n else request)
    else n

-- A reservation is added to the row of its owner, if there is one.
unfoldable pub add_used : Text → ℤ → List TakeBackOwner → List TakeBackOwner
add_used o n [] = []
add_used o n (x ∷ os) =
    if text_eq x.owner o then record x { used_mib = x.used_mib +ℤ n } ∷ os else x ∷ add_used o n os

unfoldable pub add_pending : Text → ℤ → List (Text × ℤ) → List TakeBackOwner → List TakeBackOwner
unfolding add_used
add_pending requester request [] os = os
add_pending requester request ((o, n) ∷ ps) os =
    let left = without_request requester request o n in
    add_pending requester request ps (if ltb_ℤ (pos 0) left then add_used o left os else os)

unfoldable pub take_back_owners_for :
    (F : Float64) → Snapshot F → List Lease → List (Text × ℤ) → Text → ℤ → List TakeBackOwner
unfolding take_back_owners add_pending
take_back_owners_for F s leases pending requester request =
    add_pending requester request pending (take_back_owners F s leases)
