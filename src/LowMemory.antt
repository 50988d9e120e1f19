-- ===== src/LowMemory.antt =====
-- The low-memory loop, api/pressure.go: one tick of pressureCheck, its levels and its alerts.
pub mod Warm
pub mod Conditions
pub mod Justified
pub mod Sheds
pub mod Alerts
mod Tests
use spoond.Base.{
  ℕ, zero, suc, ◌+◌, ◌*◌, ◌/◌, Bool, true, false, not, ◌&&◌, ◌||◌, Option, none, some, List, [],
  ◌∷◌, ◌++◌, leb, ◌==◌, if◌then◌else◌,
}
use spoond.Base.Text.{Text, codes, text_eq}
use spoond.Base.Int.{ℤ, pos, negsuc, ◌+ℤ◌, ◌-ℤ◌, ltb_ℤ}
use spoond.Base.Float.{Float64}
use spoond.Admission.{NodeInfo, u64, mib, free_hugepage_bytes}
use spoond.TakeBack.{TakeBackOwner, TakeBackVictim}
use spoond.TakeBack.Pressure.{pressure_victim}
use spoond.FairShare.{Lease}
use spoond.FairShare.Slices.{Snapshot}
use spoond.FairShare.Views.{take_back_owners}
use spoond.LowMemory.Warm.{WarmPool, Dropped, drop_one_pool_sandbox}

-- floorMiB/2, rounded towards 0, and at most 2048.
unfoldable pub default_memory_critical : ℤ → ℤ
default_memory_critical (pos f) = if leb 2048 (f / 2) then pos 2048 else pos (f / 2)
default_memory_critical (negsuc f) = elim ((f + 1) / 2) [ zero ↦ pos 0 | suc q ↦ negsuc q ]

-- MEMORY_FLOOR_MIB and MEMORY_CRITICAL_MIB.
pub record Levels : Type 0 where
  pub floor : ℤ
  pub critical : ℤ

unfoldable pub pressure_critical : Levels → ℤ → Bool
pressure_critical c free =
    ltb_ℤ (pos 0) c.critical && ltb_ℤ c.critical c.floor && ltb_ℤ free c.critical

abbrev pub is_off : ℤ → Bool
is_off (pos n) = n == 0
is_off (negsuc n) = false

unfoldable pub pressure_skip : Levels → Bool → Bool
pressure_skip c draining = if is_off c.floor then true else draining

abbrev pub pressure_alert_every : ℕ
pressure_alert_every = 600_000_000_000

abbrev pub pressure_node_info_log_every : ℕ
pressure_node_info_log_every = 60_000_000_000

-- A limit on how often: `none` is the zero time.
abbrev pub is_due : ℕ → ℕ → Option ℕ → Bool
is_due every now none = true
is_due every now (some at) = leb (at + every) now

-- What only the loop keeps: pressureNear, pressureNodeInfoLogAt and the two alert timers.
pub record Loop : Type 0 where
  pub near : Bool
  pub node_info_log_at : Option ℕ
  pub alert_at : Option ℕ
  pub critical_alert_at : Option ℕ

abbrev pub timer : Bool → Loop → Option ℕ
timer true l = l.critical_alert_at
timer false l = l.alert_at

abbrev pub set_timer : Bool → ℕ → Loop → Loop
set_timer true now l = record l { critical_alert_at = some now }
set_timer false now l = record l { alert_at = some now }

-- A tick that reads no node: near is cleared, and the failure is logged once a minute.
abbrev pub unread : ℕ → Loop → Loop
unread now l =
    if is_due pressure_node_info_log_every now l.node_info_log_at
    then record l { near = false; node_info_log_at = some now }
    else record l { near = false }

abbrev pub is_usable : NodeInfo → Bool
is_usable n = text_eq n.status (codes "healthy") && not (n.hugepages_total == 0)

abbrev pub free_of : NodeInfo → ℤ
free_of n = pos (free_hugepage_bytes n / mib)

abbrev pub pool_mib_of : NodeInfo → ℤ
pool_mib_of n = pos (u64 (n.hugepages_total * n.hugepage_size_bytes) / mib)

-- The memory_floor events: nothing can be taken back, or a lease was taken below the critical level.
pub data Alert (R : Type 0) : Type 0 where
  nothing_left : ℕ → ℤ → Bool → Alert R
  took_critical : TakeBackVictim R → Text → ℤ → Alert R

module _ {R : Type 0} where
  abbrev pub slice_word : TakeBackVictim R → Text
  slice_word v =
      if v.no_slice
      then codes "no slice"
      else if v.inside_slice
      then codes "inside its slice"
      else codes "over its slice"

  -- pressureCriticalDesc
  abbrev pub pressure_critical_desc : TakeBackVictim R → Bool → Text
  pressure_critical_desc v pinned =
      slice_word v ++ codes ", " ++ (if pinned then codes "PINNED" else codes "unpinned")

-- What a tick uses of the service. Each operation returns the state that the other threads have
-- left by its end.
pub record Service (F : Float64) : Type 1 where
  pub State : Type 0
  pub is_draining : State → Bool
  pub now : State → ℕ
  -- NodeInfo: `none` is its error
  pub node_info : State → State × Option NodeInfo
  -- giveBackOne, of the free memory, the pool and the floor
  pub give_back_one : ℤ → ℤ → ℤ → State → State × Bool
  -- until preemptMu is held
  pub lock : State → State
  pub stock : State → WarmPool
  pub set_stock : WarmPool → State → State
  -- the substrate's Delete, and the row of the sandbox
  pub delete_sandbox : Text → State → State
  pub fair_shares : State → State × Snapshot F
  pub leases : State → List Lease
  pub knows : State → Text → Bool
  -- takeBackPauseWith: whether the lease was pinned, and `none` is its error
  pub pause : TakeBackVictim F.Value → State → State × Option Bool

module _ (F : Float64) (S : Service F) (c : Levels) where
  open F use {Value}
  open S use {
    State, is_draining, now, node_info, give_back_one, lock, stock, set_stock, delete_sandbox,
    fair_shares, leases, knows, pause,
  }

  pub data Deed : Type 0 where
    rested : Deed
    gave_back : Deed
    dropped : Text → ℤ → Deed
    took : TakeBackVictim Value → Bool → Deed

  pub record Ticked : Type 0 where
    pub answer : Bool
    pub deed : Deed
    pub alert : Option (Alert Value)
    pub loop : Loop
    pub state : State

  abbrev pub idle_tick : Loop → State → Ticked
  idle_tick l s = record { answer = false; deed = rested; alert = none; loop = l; state = s }

  -- giveBackOne's own answer is the tick's.
  abbrev pub room_again : Loop → State × Bool → Ticked
  room_again l (s, true) = record {
    answer = true;
    deed = gave_back;
    alert = none;
    loop = l;
    state = s;
  }
  room_again l (s, false) = idle_tick l s

  abbrev pub alert_if_due : Bool → ℕ → ℤ → Bool → Loop → State → Ticked
  alert_if_due false at short critical l s = idle_tick l s
  alert_if_due true at short critical l s = record {
    answer = false;
    deed = rested;
    alert = some (nothing_left at short critical);
    loop = set_timer critical at l;
    state = s;
  }

  abbrev pub after_pause : ℤ → Bool → TakeBackVictim Value → Loop → State × Option Bool → Ticked
  after_pause free critical v l (s, none) = idle_tick l s
  after_pause free critical v l (s, some pinned) = record {
    answer = true;
    deed = took v pinned;
    alert =
        if critical then some (took_critical v (pressure_critical_desc v pinned) free) else none;
    loop = l;
    state = s;
  }

  abbrev pub take_victim : ℤ → Bool → Option (TakeBackVictim Value) → Loop → State → Ticked
  take_victim free critical none l s =
      alert_if_due (is_due pressure_alert_every (now s) (timer critical l)) (now s)
        (c.floor -ℤ free) critical l s
  take_victim free critical (some v) l s =
      if knows s v.lease_id then after_pause free critical v l (pause v s) else idle_tick l s

  -- The snapshot's owners: takeBackOwners reads fairShares again.
  abbrev pub owners_at : State × Snapshot F → List TakeBackOwner
  owners_at (s, snap) = take_back_owners F snap (leases s)

  abbrev pub take_lease : ℤ → Loop → State × Snapshot F → Ticked
  take_lease free l read =
      take_victim free (pressure_critical c free)
        (pressure_victim F (owners_at read) (pressure_critical c free)) l read.0

  abbrev pub judge_shares : ℤ → Loop → State × Snapshot F → Ticked
  judge_shares free l (s, snap) =
      if snap.capacity_known then take_lease free l (fair_shares s) else idle_tick l s

  abbrev pub drop_or_take : ℤ → Loop → State → Option Dropped → Ticked
  drop_or_take free l s (some d) = record {
    answer = true;
    deed = dropped d.id d.freed_mib;
    alert = none;
    loop = l;
    state = delete_sandbox d.id (set_stock d.left s);
  }
  drop_or_take free l s none = judge_shares free l (fair_shares s)

  -- Below the floor, with preemptMu held.
  abbrev pub shed : ℤ → Loop → State → Ticked
  shed free l s =
      if is_draining s
      then idle_tick l s
      else drop_or_take free l s (drop_one_pool_sandbox (stock s))

  abbrev pub note_near : ℤ → Loop → Loop
  note_near free l = record l { near = ltb_ℤ free (c.floor +ℤ c.floor) }

  abbrev pub judge_memory : NodeInfo → Loop → State → Ticked
  judge_memory n l s =
      if ltb_ℤ (free_of n) c.floor
      then shed (free_of n) (note_near (free_of n) l) (lock s)
      else room_again (note_near (free_of n) l)
          (give_back_one (free_of n) (pool_mib_of n) c.floor s)

  abbrev pub judge_reading : Loop → State × Option NodeInfo → Ticked
  judge_reading l (s, none) = idle_tick (unread (now s) l) s
  judge_reading l (s, some n) =
      if is_usable n then judge_memory n l s else idle_tick (record l { near = false }) s

  unfoldable pub pressure_check : Loop → State → Ticked
  unfolding pressure_skip pressure_critical pressure_victim take_back_owners drop_one_pool_sandbox
  pressure_check l s =
      if pressure_skip c (is_draining s)
      then idle_tick (record l { near = false }) s
      else judge_reading l (node_info s)

  -- The ticks of pressureLoop, each after what the other threads do in the wait before it.
  unfoldable pub pressure_run : List (State → State) → Loop → State → List Ticked
  unfolding pressure_check
  pressure_run [] l s = []
  pressure_run (wait ∷ waits) l s =
      let t = pressure_check l (wait s) in t ∷ pressure_run waits t.loop t.state
