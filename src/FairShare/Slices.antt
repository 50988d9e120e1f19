-- ===== src/FairShare/Slices.antt =====
-- computeFairShares, ratioOf and idleSlice, api/fair_shares.go.
use spoond.Base.{
  ℕ, zero, suc, ◌+◌, ◌*◌, ◌/◌, Bool, true, false, not, ◌&&◌, Option, none, some, List, map, length,
  ◌==◌, if◌then◌else◌, sort_stable,
}
use spoond.Base.Text.{Text, text_ltb}
use spoond.Base.Int.{ℤ, pos, negsuc, ◌+ℤ◌, ltb_ℤ}
use spoond.Base.Float.{Float64}
use spoond.Admission.{NodeCache, u64, mib, known}
use spoond.FairShare.{Lease, member, active_owners, mem_used, owners_of_box}

-- store.OwnerUsage, in bytes.
pub record OwnerUsage : Type 0 where
  pub paused : ℤ
  pub kept : ℤ
  pub named : ℤ
  pub used : ℤ

abbrev pub no_usage : OwnerUsage
no_usage = record { paused = pos 0; kept = pos 0; named = pos 0; used = pos 0 }

-- What the computation reads: `none` is the error of a store query or of statfs.
pub record Reads : Type 0 where
  pub users : List Text
  pub tokens : List Text
  pub leases : List Lease
  pub pending : List (Text × ℤ)
  pub node : NodeCache
  pub usage : Option (Text → OwnerUsage)
  pub accounted : Option ℤ
  pub free : Option ℕ
  pub names : Text → Text
  pub now : ℕ

abbrev pub present {ℓ} : {A : Type ℓ} → Option A → Bool
present none = false
present (some x) = true

abbrev pub or_else {ℓ} : {A : Type ℓ} → A → Option A → A
or_else d none = d
or_else d (some x) = x

-- totalHugepageMiB, from the cache alone.
unfoldable pub total_hugepage_mib : NodeCache → Option ℤ
total_hugepage_mib c =
    if not (known c.at)
    then none
    else if c.info.hugepage_size_bytes == 0
    then some (pos 0)
    else some (pos (u64 (c.info.hugepages_total * c.info.hugepage_size_bytes) / mib))

unfoldable pub usable_snapshot_bytes : Option ℕ → ℤ → Option ℤ
usable_snapshot_bytes none accounted = none
usable_snapshot_bytes (some free) accounted = some (pos free +ℤ accounted)

-- Go's division of an int by a positive int: towards 0.
abbrev pub quotient : ℤ → ℕ → ℤ
quotient a zero = pos 0
quotient (pos a) (suc n) = pos (a / suc n)
quotient (negsuc a) (suc n) = elim (suc a / suc n) [ zero ↦ pos 0 | suc q ↦ negsuc q ]

module _ (F : Float64) where
  open F use {Value, quot, gtb}

  pub record FairShareOwner : Type 0 where
    pub owner : Text
    pub name : Text
    pub slice_pct : Value
    pub slice_mib : ℤ
    pub used_mib : ℤ
    pub slice_bytes : ℤ
    pub used_bytes : ℤ
    pub paused_bytes : ℤ
    pub kept_bytes : ℤ
    pub named_bytes : ℤ
    pub ratio : Value
    pub active : Bool
    pub capacity_known : Bool

  -- fairShareSnapshot; byID is the first row of an owner.
  pub record Snapshot : Type 0 where
    pub owners : List FairShareOwner
    pub owners_n : ℕ
    pub memory_total_mib : ℤ
    pub disk_total_bytes : ℤ
    pub at : ℕ
    pub capacity_known : Bool

  abbrev pub zero_ratio : Value
  zero_ratio = quot (pos 0) (pos 1)

  abbrev pub larger : Value → Value → Value
  larger r s = if gtb s r then s else r

  -- ratioOf
  unfoldable pub ratio_of : ℤ → ℤ → ℤ → ℤ → Value
  ratio_of used_mib used_bytes slice_mib slice_bytes =
      let ratio = if ltb_ℤ (pos 0) slice_mib then quot used_mib slice_mib else zero_ratio in
      if ltb_ℤ (pos 0) slice_bytes then larger ratio (quot used_bytes slice_bytes) else ratio

  abbrev pub Slice : Type 0
  Slice = Value × ℤ × ℤ

  unfoldable pub idle_slice : ℤ → ℤ → ℕ → Bool → Slice
  idle_slice memory disk n false = (zero_ratio, pos 0, pos 0)
  idle_slice memory disk n true =
      (quot (pos 100) (pos (n + 1)), quotient memory (n + 1), quotient disk (n + 1))

  -- The slice of an active owner among `n`.
  unfoldable pub active_slice : ℤ → ℤ → ℕ → Bool → Slice
  active_slice memory disk zero is_known = (zero_ratio, pos 0, pos 0)
  active_slice memory disk (suc n) is_known = (
    quot (pos 100) (pos (suc n)),
    if is_known then quotient memory (suc n) else pos 0,
    if is_known then quotient disk (suc n) else pos 0,
  )

  abbrev pub row : Reads → Bool → Slice → Bool → Text → FairShareOwner
  row r is_active slice is_known o =
      let u = or_else (λ o. no_usage) r.usage o in
      let used = mem_used r.leases o in
      record {
        owner = o;
        name = r.names o;
        slice_pct = slice.0;
        slice_mib = slice.1;
        used_mib = used;
        slice_bytes = slice.2;
        used_bytes = u.used;
        paused_bytes = u.paused;
        kept_bytes = u.kept;
        named_bytes = u.named;
        ratio = if is_active then ratio_of used u.used slice.1 slice.2 else zero_ratio;
        active = is_active;
        capacity_known = is_known;
      }

  abbrev pub by_owner_id : FairShareOwner → FairShareOwner → Bool
  by_owner_id x y = text_ltb x.owner y.owner

  abbrev pub row_for : Reads → List Text → ℤ → ℤ → Bool → Text → FairShareOwner
  row_for r active memory disk is_known o =
      let n = length active in
      let is_active = member o active in
      row r is_active
        (if is_active
          then active_slice memory disk n is_known
          else idle_slice memory disk n is_known)
        is_known o

  abbrev pub snapshot_of : Reads → List Text → Option ℤ → Option ℤ → Bool → Snapshot
  snapshot_of r active memory disk is_known =
      let m = or_else (pos 0) memory in
      let d = or_else (pos 0) disk in
      record {
        owners =
            sort_stable by_owner_id
              (map (row_for r active m d is_known) (owners_of_box r.users r.tokens));
        owners_n = length active;
        memory_total_mib = m;
        disk_total_bytes = d;
        at = r.now;
        capacity_known = is_known;
      }

  unfoldable pub compute_fair_shares : Reads → Snapshot
  unfolding owners_of_box
  compute_fair_shares r =
      let memory = total_hugepage_mib r.node in
      let disk = usable_snapshot_bytes r.free (or_else (pos 0) r.accounted) in
      snapshot_of r (active_owners r.leases r.pending) memory disk
        (present memory && present r.usage && present r.accounted && present disk)
