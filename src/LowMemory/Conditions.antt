-- ===== src/LowMemory/Conditions.antt =====
-- pressureCheck, api/pressure.go: the conditions of a tick that sheds something or raises an
-- alert.
use spoond.Base.{◌≡◌, Bool, true, false, Option, none, some, List, All, if◌then◌else◌}
use spoond.Base.Int.{◌-ℤ◌, ◌<ℤ◌, ◌≤ℤ◌}
use spoond.Base.Float.{Float64}
use spoond.Admission.{NodeInfo}
use spoond.TakeBack.{TakeBackOwner, TakeBackVictim}
use spoond.TakeBack.Pressure.Safety.{IsShut, IsPressureVictim, IsBare}
use spoond.FairShare.Slices.{Snapshot}
use spoond.LowMemory.Warm.{Dropped, drop_one_pool_sandbox}
use spoond.LowMemory.{
  Levels, pressure_critical, is_off, pressure_alert_every, is_due, Loop, timer, is_usable, free_of,
  pool_mib_of, Alert, nothing_left, took_critical, pressure_critical_desc, Service, Deed, rested,
  gave_back, dropped, took, Ticked, owners_at,
}

module _ (F : Float64) (S : Service F) (c : Levels) where
  open F use {Value}
  open S use {
    State, is_draining, node_info, now, give_back_one, lock, stock, fair_shares, knows, pause,
  }

  -- The state in which preemptMu is held, and the one whose leases are judged.
  abbrev pub held_at : State → State
  held_at s = lock (node_info s).0

  abbrev pub views_at : State → State × Snapshot F
  views_at s = fair_shares (fair_shares (held_at s)).0

  abbrev pub owners_seen : State → List TakeBackOwner
  owners_seen s = owners_at F S c (views_at s)

  -- The floor is on, nothing drains at the start, and the node answers with a usable reading.
  pub record IsRead (s : State) (n : NodeInfo) : Type 0 where
    pub floor_on : is_off c.floor ≡ false
    pub not_draining : is_draining s ≡ false
    pub answered : (node_info s).1 ≡ some n
    pub usable : is_usable n ≡ true

  -- And free memory sits under the floor, and nothing drains once preemptMu is held.
  pub record IsBelow (s : State) (n : NodeInfo) : Type 0 where
    pub reading : IsRead s n
    pub below : free_of n <ℤ c.floor
    pub still_not_draining : is_draining (held_at s) ≡ false

  -- A lease is looked for: the pool has nothing to drop, and the slices are known.
  pub record IsAtLeases (s : State) (n : NodeInfo) : Type 0 where
    pub short : IsBelow s n
    pub pool_empty : drop_one_pool_sandbox (stock (held_at s)) ≡ none
    pub known : (fair_shares (held_at s)).1.capacity_known ≡ true

  pub record IsTakenRightly (s : State) (n : NodeInfo) (x : Ticked F S c) (v : TakeBackVictim Value)
      (pinned : Bool) : Type 0 where
    pub at_leases : IsAtLeases s n
    pub is_victim : IsPressureVictim F (owners_seen s) (pressure_critical c (free_of n)) v
    pub pin_is_last :
        v.pinned ≡ true
        → (free_of n <ℤ c.critical) × (c.critical <ℤ c.floor) × All (IsShut F) (owners_seen s)
    pub paused : (pause v (views_at s).0).1 ≡ some pinned
    pub on_record : x.alert ≡ (
        if pressure_critical c (free_of n)
        then some (took_critical v (pressure_critical_desc v pinned) (free_of n))
        else none)

  -- By what the tick did.
  abbrev pub ByDeed : State → Ticked F S c → Deed F S c → Type 0
  ByDeed s x rested = x.answer ≡ false
  ByDeed s x gave_back =
      (x.answer ≡ true)
      × ((n : NodeInfo) × IsRead s n
          × (c.floor ≤ℤ free_of n)
          × ((give_back_one (free_of n) (pool_mib_of n) c.floor (node_info s).0).1 ≡ true))
  ByDeed s x (dropped id freed) =
      (x.answer ≡ true)
      × ((n : NodeInfo) × IsBelow s n
          × ((d : Dropped) × (drop_one_pool_sandbox (stock (held_at s)) ≡ some d)
              × (d.id ≡ id)
              × (d.freed_mib ≡ freed)))
  ByDeed s x (took v pinned) = (x.answer ≡ true) × ((n : NodeInfo) × IsTakenRightly s n x v pinned)

  -- By the alert that the tick raised. An alert that nothing can be taken is true, and due.
  abbrev pub ByAlert : Loop → State → Option (Alert Value) → Type 0
  ByAlert l s none = Unit {0}
  ByAlert l s (some (nothing_left at short critical)) =
      (is_due pressure_alert_every at (timer critical l) ≡ true)
      × ((n : NodeInfo) × IsAtLeases s n
          × (critical ≡ pressure_critical c (free_of n))
          × (short ≡ c.floor -ℤ free_of n)
          × IsBare F (owners_seen s) critical)
  ByAlert l s (some (took_critical v desc free)) = free <ℤ c.critical
