-- ===== src/LowMemory/Justified.antt =====
-- pressureCheck, api/pressure.go: what holds of the box when a tick sheds something or raises an alert.
use spoond.Base.{
  ◌≡◌, refl, inl, inr, ℕ, Bool, true, false, Option, none, some, All, ap, arith, Bool-cases, clash,
  sym, if◌then◌else◌,
}
use spoond.Base.Text.{Text}
use spoond.Base.Int.{ℤ, ◌-ℤ◌, ◌<ℤ◌, ◌≤ℤ◌, ltb_ℤ, ltb_ℤ→lt, ltb_ℤ→ge}
use spoond.Base.Float.{Float64}
use spoond.Admission.{NodeInfo}
use spoond.TakeBack.{TakeBackVictim}
use spoond.TakeBack.Pressure.{pressure_victim}
use spoond.TakeBack.Pressure.Safety.{
  IsShut, IsPressureVictim, IsBare, Judged, pressure_victim-Judged,
}
use spoond.LowMemory.Warm.{Dropped, drop_one_pool_sandbox}
use spoond.LowMemory.{
  Levels, pressure_critical, is_off, pressure_skip, pressure_alert_every, is_due, Loop, timer,
  is_usable, free_of, pool_mib_of, took_critical, pressure_critical_desc, Service, idle_tick,
  Ticked, room_again, alert_if_due, after_pause, take_victim, drop_or_take, note_near, judge_memory,
  judge_reading, pressure_check,
}
use spoond.LowMemory.Conditions.{
  held_at, views_at, owners_seen, IsRead, IsBelow, IsAtLeases, ByDeed, ByAlert,
}

module _ (F : Float64) (S : Service F) (c : Levels) where
  open F use {Value}
  open S use {
    State, is_draining, node_info, now, give_back_one, lock, stock, fair_shares, knows, pause,
  }

  abbrev pub IsJustified : Loop → State → Ticked F S c → Type 0
  IsJustified l s x = ByDeed F S c s x x.deed × ByAlert F S c l s x.alert

  critical_level :
      (free : ℤ) → pressure_critical c free ≡ true → (free <ℤ c.critical) × (c.critical <ℤ c.floor)
  unfolding pressure_critical
  critical_level free h = ground arith

  rested_lem :
      (l : Loop) (s : State) (l' : Loop) (t : State) → IsJustified l s (idle_tick F S c l' t)
  rested_lem l s l' t = (refl, tt)

  pinned_level :
      (s : State) (n : NodeInfo) (v : TakeBackVictim Value) (critical : Bool)
      → critical ≡ pressure_critical c (free_of n)
      → IsPressureVictim F (owners_seen F S c s) critical v
      → v.pinned ≡ true
      → (free_of n <ℤ c.critical) × (c.critical <ℤ c.floor) × All (IsShut F) (owners_seen F S c s)
  pinned_level s n v false e j p = absurd (clash p (j.floor_spares_pins refl))
  pinned_level s n v true e j p =
      let k = critical_level (free_of n) (sym e) in (k.0, k.1, j.pins_last p)

  taken_alert :
      (l : Loop) (s : State) (n : NodeInfo) (v : TakeBackVictim Value) (desc : Text) (b : Bool)
      → b ≡ pressure_critical c (free_of n)
      → ByAlert F S c l s (if b then some (took_critical v desc (free_of n)) else none)
  taken_alert l s n v desc true e = (critical_level (free_of n) (sym e)).0
  taken_alert l s n v desc false e = tt

  module _ (l : Loop) (s : State) (n : NodeInfo) where
    abbrev near : Loop
    near = note_near F S c (free_of n) l

    abbrev level : Bool
    level = pressure_critical c (free_of n)

    after_pause-IsJustified :
        (v : TakeBackVictim Value)
        → IsAtLeases F S c s n
        → IsPressureVictim F (owners_seen F S c s) level v
        → (o : Option Bool) → (pause v (views_at F S c s).0).1 ≡ o
        → IsJustified l s
            (after_pause F S c (free_of n) level v near ((pause v (views_at F S c s).0).0, o))
    after_pause-IsJustified v at j none e = (refl, tt)
    after_pause-IsJustified v at j (some pinned) e = (
      (
        refl,
        (
          n,
          record {
            at_leases = at;
            is_victim = j;
            pin_is_last = pinned_level s n v level refl j;
            paused = e;
            on_record = refl;
          },
        ),
      ),
      taken_alert l s n v (pressure_critical_desc v pinned) level refl,
    )

    alert_due-IsJustified :
        (b : Bool)
        → IsAtLeases F S c s n
        → b ≡ level
        → IsBare F (owners_seen F S c s) b
        → (at : ℕ) (due : Bool) → is_due pressure_alert_every at (timer b l) ≡ due
        → IsJustified l s
            (alert_if_due F S c due at (c.floor -ℤ free_of n) b near (views_at F S c s).0)
    alert_due-IsJustified b h e j at true d = (refl, (d, (n, h, e, refl, j)))
    alert_due-IsJustified b h e j at false d = (refl, tt)

    timer_near : (b : Bool) → timer b near ≡ timer b l
    timer_near true = refl
    timer_near false = refl

    alert-IsJustified :
        IsAtLeases F S c s n
        → (b : Bool) → b ≡ level
        → IsBare F (owners_seen F S c s) b
        → IsJustified l s (take_victim F S c (free_of n) b none near (views_at F S c s).0)
    alert-IsJustified h b e j =
        let at = now (views_at F S c s).0 in
        alert_due-IsJustified b h e j at (is_due pressure_alert_every at (timer b near))
          (ap (is_due pressure_alert_every at) (sym (timer_near b)))

    take_victim-IsJustified :
        (o : Option (TakeBackVictim Value))
        → IsAtLeases F S c s n
        → Judged F (owners_seen F S c s) level o
        → IsJustified l s (take_victim F S c (free_of n) level o near (views_at F S c s).0)
    take_victim-IsJustified none at j = alert-IsJustified at level refl j
    take_victim-IsJustified (some v) at j =
        elim (Bool-cases (knows (views_at F S c s).0 v.lease_id)) [
          | inl e ↦ rw e (after_pause-IsJustified v at j (pause v (views_at F S c s).0).1 refl)
          | inr e ↦ rw e (refl, tt)
        ]

    drop_or_take-IsJustified :
        (o : Option Dropped)
        → IsBelow F S c s n
        → drop_one_pool_sandbox (stock (held_at F S c s)) ≡ o
        → IsJustified l s (drop_or_take F S c (free_of n) near (held_at F S c s) o)
    drop_or_take-IsJustified (some d) b e = ((refl, (n, b, (d, e, refl, refl))), tt)
    drop_or_take-IsJustified none b e =
        elim (Bool-cases (fair_shares (held_at F S c s)).1.capacity_known) [
          | inl k ↦ rw k (
              take_victim-IsJustified (pressure_victim F (owners_seen F S c s) level)
                (record { short = b; pool_empty = e; known = k })
                (pressure_victim-Judged F (owners_seen F S c s) level))
          | inr k ↦ rw k (refl, tt)
        ]

    room_again-IsJustified :
        IsRead F S c s n
        → c.floor ≤ℤ free_of n
        → (b : Bool) → (give_back_one (free_of n) (pool_mib_of n) c.floor (node_info s).0).1 ≡ b
        → IsJustified l s (
            room_again F S c near
              ((give_back_one (free_of n) (pool_mib_of n) c.floor (node_info s).0).0, b))
    room_again-IsJustified r h true e = ((refl, (n, r, h, e)), tt)
    room_again-IsJustified r h false e = (refl, tt)

    judge_memory-IsJustified :
        IsRead F S c s n → IsJustified l s (judge_memory F S c n l (node_info s).0)
    judge_memory-IsJustified r = elim (Bool-cases (ltb_ℤ (free_of n) c.floor)) [
      | inl e ↦ elim (Bool-cases (is_draining (held_at F S c s))) [
        | inl d ↦ rw (e, d) (refl, tt)
        | inr d ↦
            rw (e, d)
              (drop_or_take-IsJustified (drop_one_pool_sandbox (stock (held_at F S c s)))
                (record {
                  reading = r;
                  below = ltb_ℤ→lt (free_of n) c.floor e;
                  still_not_draining = d;
                })
                refl)
      ]
      | inr e ↦ rw e (
          room_again-IsJustified r (ltb_ℤ→ge (free_of n) c.floor e)
            (give_back_one (free_of n) (pool_mib_of n) c.floor (node_info s).0).1 refl)
    ]

  -- A tick sheds only what it may, and its alerts are true: a lease is paused only while no drain runs,
  -- free memory is under the floor, the warm pool has nothing to drop and the slices are known, and it
  -- is the right one for the level; a pinned one only below the critical level, when no unpinned lease
  -- of any owner is left. A pool sandbox goes only under the floor, a lease returns only above it, and
  -- an alert that nothing can be taken back is true and due.
  pub pressure_check-IsJustified :
      (l : Loop) (s : State) → IsJustified l s (pressure_check F S c l s)
  unfolding pressure_check pressure_skip
  pressure_check-IsJustified l s = elim (Bool-cases (is_off c.floor)) [
    | inl z ↦ rw z (refl, tt)
    | inr z ↦ elim (Bool-cases (is_draining s)) [
      | inl d ↦ rw (z, d) (refl, tt)
      | inr d ↦ rw (z, d) (answered z d (node_info s).1 refl)
    ]
  ]
    where
      answered :
          is_off c.floor ≡ false
          → is_draining s ≡ false
          → (o : Option NodeInfo) → (node_info s).1 ≡ o
          → IsJustified l s (judge_reading F S c l ((node_info s).0, o))
      answered z d none e = (refl, tt)
      answered z d (some n) e = elim (Bool-cases (is_usable n)) [
        | inl u ↦ rw u (
            judge_memory-IsJustified l s n
              (record { floor_on = z; not_draining = d; answered = e; usable = u }))
        | inr u ↦ rw u (refl, tt)
      ]
