-- ===== src/FairShare.antt =====
-- Fair shares, api/fair_shares.go: who is active, what each owner uses, and the equal slices.
pub mod Slices
pub mod Bounds
pub mod Cache
pub mod Views
mod Tests
use spoond.Base.{
  ℕ, ◌+◌, ◌*◌, ◌/◌, Bool, true, false, not, ◌&&◌, ◌||◌, List, [], ◌∷◌, if◌then◌else◌, sort_stable,
}
use spoond.Base.Text.{Text, codes, text_eq, text_ltb}
use spoond.Base.Int.{ℤ, pos, ◌+ℤ◌, ltb_ℤ}

-- A lease as the box-wide views read it.
pub record Lease : Type 0 where
  pub id : Text
  pub owner : Text
  pub name : Text
  pub state : Text
  pub released : Bool
  pub memory_mb : ℤ
  -- Pinned
  pub own_pin : Bool
  pub exec_pins : ℤ
  pub busy : Bool
  -- hasRunningJobLocked
  pub has_job : Bool
  pub drained : Bool
  pub last_active : ℕ

abbrev pub live : Lease → Bool
live l = text_eq l.state (codes "running") || text_eq l.state (codes "recovered")

abbrev pub lease_active : Lease → Bool
lease_active l = not l.released && (live l || text_eq l.state (codes "suspended"))

abbrev pub is_ownerless : Lease → Bool
is_ownerless l = text_eq l.owner []

-- A set of owners is a list in which each stands once.
unfoldable pub member : Text → List Text → Bool
member o [] = false
member o (x ∷ xs) = text_eq x o || member o xs

abbrev pub add_owner : Text → List Text → List Text
add_owner o set = if member o set then set else o ∷ set

-- The owners of active leases. The store's map of leases comes as a list in some order.
unfoldable pub lease_owners : List Lease → List Text → List Text
unfolding member
lease_owners [] set = set
lease_owners (l ∷ ls) set = lease_owners ls (
    if l.released || is_ownerless l
    then set
    else if lease_active l
    then add_owner l.owner set
    else set)

-- The owners with an admission in flight: pendingMiB.
unfoldable pub pending_owners : List (Text × ℤ) → List Text → List Text
unfolding member
pending_owners [] set = set
pending_owners ((o, n) ∷ ps) set =
    pending_owners ps (if text_eq o [] || not (ltb_ℤ (pos 0) n) then set else add_owner o set)

unfoldable pub active_owners : List Lease → List (Text × ℤ) → List Text
unfolding lease_owners pending_owners
active_owners leases pending = pending_owners pending (lease_owners leases [])

-- memUsed: the memory of an owner's live leases.
unfoldable pub mem_used : List Lease → Text → ℤ
mem_used [] o = pos 0
mem_used (l ∷ ls) o =
    (if not (l.released || is_ownerless l) && live l && text_eq l.owner o
      then l.memory_mb
      else pos 0)
    +ℤ mem_used ls o

-- runningMemoryMiB: every live lease, ownerless ones too, and the sandboxes of the warm pool.
unfoldable pub running_memory_mib : List Lease → List ℤ → ℤ
running_memory_mib [] [] = pos 0
running_memory_mib [] (m ∷ ms) = m +ℤ running_memory_mib [] ms
running_memory_mib (l ∷ ls) ms =
    (if not l.released && live l then l.memory_mb else pos 0) +ℤ running_memory_mib ls ms

-- The owners that exist: identity users, then the owners of consumer tokens.
unfoldable pub known_owners : List Text → List Text → List Text
unfolding member
known_owners [] set = set
known_owners (o ∷ os) set = known_owners os (if text_eq o [] then set else add_owner o set)

unfoldable pub owners_of_box : List Text → List Text → List Text
unfolding known_owners sort_stable text_ltb
owners_of_box users tokens = sort_stable text_ltb (known_owners tokens (known_owners users []))
