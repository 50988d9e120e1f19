-- ===== src/Admission.antt =====
-- Memory admission: the cached node reading with its debits and credits, and the capacity checks
-- (api/admission.go, api/preempt.go, api/admit_memory.go, substrate/substrate.go).
pub mod Cache
pub mod Refusal
mod Tests
use spoond.Base.{
  ℕ, zero, suc, ◌+◌, ◌-◌, ◌*◌, ◌/◌, ◌%◌, ◌^◌, ◌≡◌, Bool, true, false, not, ◌&&◌, ◌||◌, Option, none,
  some, List, [], ◌∷◌, ltb, leb, ◌==◌, if◌then◌else◌,
}
use spoond.Base.Text.{Text, codes, text_eq}
use spoond.Base.Int.{ℤ, pos, pos_part, neg_part, ◌+ℤ◌, ◌-ℤ◌, ltb_ℤ, leb_ℤ, max_ℤ}

-- uint64 arithmetic wraps.
abbrev pub u64_mod : ℕ
u64_mod = 2 ^ 64

abbrev pub u64 : ℕ → ℕ
u64 n = n % u64_mod

abbrev pub mib : ℕ
mib = 1048576

-- uint64(x) of an int: two's complement.
abbrev pub u64_of_int : ℤ → ℕ
u64_of_int x = (u64_mod + pos_part x - neg_part x) % u64_mod

pub record NodeInfo : Type 0 where
  pub status : Text
  pub hugepages_total : ℕ
  pub hugepages_used : ℕ
  pub hugepages_reserved : ℕ
  pub hugepage_size_bytes : ℕ

unfoldable pub free_hugepage_bytes : NodeInfo → ℕ
free_hugepage_bytes n =
    let taken = u64 (n.hugepages_used + n.hugepages_reserved) in
    if leb n.hugepages_total taken
    then 0
    else u64 ((n.hugepages_total - taken) * n.hugepage_size_bytes)

-- nodeInfoAt, nodeInfoCache and inflightAdmitMiB. `none` is the zero time; times are nanoseconds.
pub record NodeCache : Type 0 where
  pub at : Option ℕ
  pub info : NodeInfo
  pub inflight_mib : ℤ

abbrev pub node_info_cache_ttl : ℕ
node_info_cache_ttl = 15_000_000_000

abbrev pub near_floor_margin_mib : ℤ
near_floor_margin_mib = pos 2048

-- Sub(at) >= TTL, or nothing cached.
abbrev pub is_stale : ℕ → Option ℕ → Bool
is_stale now none = true
is_stale now (some at) = leb (at + node_info_cache_ttl) now

abbrev pub refreshed : ℕ → NodeInfo → NodeCache → NodeCache
refreshed now info c = record c { at = some now; info = info }

abbrev pub free_mib : NodeCache → ℕ
free_mib c = free_hugepage_bytes c.info / mib

abbrev pub known : Option ℕ → Bool
known none = false
known (some _) = true

-- The refresh of a stale cache by the substrate's answer; `none` there is its error.
abbrev pub refill : ℕ → Option NodeInfo → NodeCache → NodeCache × Option ℕ
refill now (some info) c = let c' = refreshed now info c in (c', some (free_mib c'))
refill now none c = (c, if known c.at then some (free_mib c) else none)

-- freeHugepageMiBLocked. `none` is the error: nothing was ever cached.
unfoldable pub free_hugepage_mib : ℕ → Option NodeInfo → NodeCache → NodeCache × Option ℕ
free_hugepage_mib now answer c =
    if is_stale now c.at then refill now answer c else (c, some (free_mib c))

abbrev pub near_floor : ℕ → Option NodeInfo → ℕ → NodeCache → ℕ → NodeCache × Option ℕ
near_floor now answer trigger c free = if leb trigger free then (c, some free) else elim answer [
  | none ↦ (c, some free)
  | some info ↦ (refreshed now info c, some (free_hugepage_bytes info / mib))
]

abbrev pub after_free : ℕ → Option NodeInfo → ℕ → NodeCache × Option ℕ → NodeCache × Option ℕ
after_free now answer trigger (c, none) = (c, none)
after_free now answer trigger (c, some free) = near_floor now answer trigger c free

-- freeHugepageMiBForRequestLocked: `first` and `second` are what the substrate answers to its reads.
unfoldable pub free_for_request :
    ℕ → Option NodeInfo → Option NodeInfo → ℤ → ℤ → NodeCache → NodeCache × Option ℕ
unfolding free_hugepage_mib free_hugepage_bytes ◌+ℤ◌
free_for_request now first second memory_mb floor c =
    after_free now second (u64_of_int (memory_mb +ℤ floor +ℤ near_floor_margin_mib))
      (free_hugepage_mib now first c)

-- No size, no reading or no memory: nothing is debited or credited.
abbrev pub is_idle : NodeCache → ℤ → Bool
is_idle c memory_mb = not (known c.at) || c.info.hugepage_size_bytes == 0 || leb_ℤ memory_mb (pos 0)

abbrev pub pages_for : NodeInfo → ℤ → ℕ
pages_for n memory_mb =
    let bytes = u64 (u64 (u64_of_int memory_mb * 1024) * 1024) in
    u64 (bytes + n.hugepage_size_bytes + u64_mod - 1) / n.hugepage_size_bytes

unfoldable pub debit : ℤ → NodeCache → NodeCache
debit memory_mb c =
    let info = c.info in
    if is_idle c memory_mb then c else record c {
      info = record info { hugepages_used = u64 (info.hugepages_used + pages_for info memory_mb) };
    }

unfoldable pub credit : ℤ → NodeCache → NodeCache
credit memory_mb c =
    let info = c.info in
    let pages = pages_for info memory_mb in
    if is_idle c memory_mb then c else record c {
      info = record info {
        hugepages_used = if ltb info.hugepages_used pages then 0 else info.hugepages_used - pages;
      };
    }

-- `cap_of` is int(MEMORY_OVERCOMMIT * float64(pool)), `none` when the cap is off.
abbrev cap_short : Option (ℕ → ℤ) → ℤ → ℤ → NodeCache → ℤ
cap_short none running memory_mb c = pos 0
cap_short (some cap_of) running memory_mb c =
    running
    +ℤ c.inflight_mib
    +ℤ memory_mb
    -ℤ cap_of (u64 (c.info.hugepages_total * c.info.hugepage_size_bytes) / mib)

unfoldable pub overcommit_shortfall : Option (ℕ → ℤ) → ℤ → ℤ → NodeCache → ℤ
overcommit_shortfall limit running memory_mb c =
    if not (known c.at) || c.info.hugepage_size_bytes == 0 || c.info.hugepages_total == 0
    then pos 0
    else cap_short limit running memory_mb c

-- The last step of admitMemory: the cap, then the debit. `none` is the refusal with ErrCapacity.
unfoldable pub reserve : Option (ℕ → ℤ) → ℤ → ℤ → NodeCache → Option NodeCache
unfolding debit overcommit_shortfall
reserve limit running memory_mb c =
    let d = debit memory_mb c in
    if ltb_ℤ (pos 0) (overcommit_shortfall limit running memory_mb c)
    then none
    else some (record d { inflight_mib = d.inflight_mib +ℤ memory_mb })

-- The undo of admitMemory: `done` is the sync.Once.
unfoldable pub undo : Bool → ℤ → Bool × NodeCache → Bool × NodeCache
unfolding credit
undo failed memory_mb (true, c) = (true, c)
undo failed memory_mb (false, c) =
    let d = if failed then credit memory_mb c else c in
    (true, record d { inflight_mib = max_ℤ (d.inflight_mib -ℤ memory_mb) (pos 0) })

pub data AdmitError : Type 0 where
  node_unreadable : AdmitError
  unhealthy : Text → AdmitError
  short : (free need : ℕ) → AdmitError

abbrev pub check_info : ℤ → ℤ → NodeInfo → Option AdmitError
check_info memory_mb floor info =
    let free = free_hugepage_bytes info in
    let need = u64 (u64 (u64_of_int (memory_mb +ℤ floor) * 1024) * 1024) in
    if not (text_eq info.status (codes "healthy"))
    then some (unhealthy info.status)
    else if ltb free need
    then some (short free need)
    else none

-- admitCapacity on a fresh answer of the substrate. `none` is success.
unfoldable pub admit_capacity : ℤ → ℤ → Option NodeInfo → Option AdmitError
unfolding free_hugepage_bytes ◌+ℤ◌
admit_capacity memory_mb floor none = some node_unreadable
admit_capacity memory_mb floor (some info) = check_info memory_mb floor info
