-- ===== src/LowMemory/Alerts.antt =====
-- The memory_floor alert that nothing can be taken back, api/pressure.go: its limit for each level.
use spoond.Base.{
  ℕ, ◌+◌, ◌≤◌, ◌≡◌, refl, inl, inr, Bool, true, false, Option, none, some, List, [], ◌∷◌,
  Bool-cases, leb→le, ◌∙◌, subst,
}
use spoond.Base.Int.{ℤ, ◌+ℤ◌, ◌-ℤ◌, ltb_ℤ}
use spoond.Base.Float.{Float64}
use spoond.Admission.{NodeInfo}
use spoond.TakeBack.{TakeBackVictim}
use spoond.TakeBack.Pressure.{pressure_victim}
use spoond.LowMemory.Warm.{Dropped, drop_one_pool_sandbox}
use spoond.LowMemory.{
  Levels, pressure_critical, pressure_skip, pressure_alert_every, is_due, Loop, timer, unread,
  pressure_node_info_log_every, is_usable, free_of, pool_mib_of, Alert, nothing_left, took_critical,
  Service, Ticked, room_again, alert_if_due, after_pause, take_victim, owners_at, drop_or_take,
  judge_memory, judge_reading, pressure_check, pressure_run,
}
use spoond.LowMemory.Conditions.{ByAlert}
use spoond.LowMemory.Justified.{pressure_check-IsJustified}

-- The times of the alerts of one level, of a run.
abbrev pub noted : {R : Type 0} → Bool → Option (Alert R) → List ℕ → List ℕ
noted critical none ts = ts
noted true (some (nothing_left at short true)) ts = at ∷ ts
noted true (some (nothing_left at short false)) ts = ts
noted false (some (nothing_left at short true)) ts = ts
noted false (some (nothing_left at short false)) ts = at ∷ ts
noted critical (some (took_critical v desc free)) ts = ts

-- Each time is at least ten minutes after the one before it.
abbrev pub IsSpacedFrom : Option ℕ → List ℕ → Type 0
IsSpacedFrom last [] = Unit {0}
IsSpacedFrom none (t ∷ ts) = IsSpacedFrom (some t) ts
IsSpacedFrom (some last) (t ∷ ts) = (last + pressure_alert_every ≤ t) × IsSpacedFrom (some t) ts

module _ (F : Float64) (S : Service F) (c : Levels) where
  open F use {Value}
  open S use {State}

  unfoldable pub alert_times : Bool → List (Ticked F S c) → List ℕ
  alert_times critical [] = []
  alert_times critical (x ∷ xs) = noted critical x.alert (alert_times critical xs)

  abbrev stamp : Bool → Option (Alert Value) → Option ℕ → Option ℕ
  stamp critical none t = t
  stamp true (some (nothing_left at short true)) t = some at
  stamp true (some (nothing_left at short false)) t = t
  stamp false (some (nothing_left at short true)) t = t
  stamp false (some (nothing_left at short false)) t = some at
  stamp critical (some (took_critical v desc free)) t = t

  -- An alert sets the timer of its level, and nothing else moves one.
  abbrev IsStamped : Loop → Ticked F S c → Type 0
  IsStamped l x =
      (critical : Bool) → timer critical x.loop ≡ stamp critical x.alert (timer critical l)

  near_timer :
      (l : Loop) (near : Bool) (critical : Bool)
      → timer critical (record l { near = near }) ≡ timer critical l
  near_timer l near true = refl
  near_timer l near false = refl

  timer-unread :
      (l : Loop) (at : ℕ) (critical : Bool) → timer critical (unread at l) ≡ timer critical l
  timer-unread l at critical =
      elim (Bool-cases (is_due pressure_node_info_log_every at l.node_info_log_at)) [
        | inl e ↦
            rw e
              (near_timer (record l { node_info_log_at = some at }) false critical ∙ same critical)
        | inr e ↦ rw e (near_timer l false critical)
      ]
    where
      same : (b : Bool) → timer b (record l { node_info_log_at = some at }) ≡ timer b l
      same true = refl
      same false = refl

  module _ (l : Loop) (near : Bool) where
    abbrev marked : Loop
    marked = record l { near = near }

    timer-marked : (critical : Bool) → timer critical marked ≡ timer critical l
    timer-marked critical = near_timer l near critical

    alert-IsStamped :
        (due : Bool) (at : ℕ) (short : ℤ) (level : Bool) (s : State)
        → IsStamped l (alert_if_due F S c due at short level marked s)
    alert-IsStamped false at short level s critical = timer-marked critical
    alert-IsStamped true at short true s true = refl
    alert-IsStamped true at short true s false = refl
    alert-IsStamped true at short false s true = refl
    alert-IsStamped true at short false s false = refl

    pause-IsStamped :
        (free : ℤ) (level : Bool) (v : TakeBackVictim Value) (s : State) (o : Option Bool)
        → IsStamped l (after_pause F S c free level v marked (s, o))
    pause-IsStamped free level v s none critical = timer-marked critical
    pause-IsStamped free true v s (some pinned) true = refl
    pause-IsStamped free true v s (some pinned) false = refl
    pause-IsStamped free false v s (some pinned) true = refl
    pause-IsStamped free false v s (some pinned) false = refl

    victim-IsStamped :
        (free : ℤ) (level : Bool) (o : Option (TakeBackVictim Value)) (s : State)
        → IsStamped l (take_victim F S c free level o marked s)
    victim-IsStamped free level none s critical =
        alert-IsStamped (is_due pressure_alert_every (S.now s) (timer level marked)) (S.now s)
          (c.floor -ℤ free) level s critical
    victim-IsStamped free level (some v) s critical = elim (Bool-cases (S.knows s v.lease_id)) [
      | inl e ↦ rw e (pause-IsStamped free level v (S.pause v s).0 (S.pause v s).1 critical)
      | inr e ↦ rw e (timer-marked critical)
    ]

    shed-IsStamped :
        (free : ℤ) (s : State) (o : Option Dropped)
        → IsStamped l (drop_or_take F S c free marked s o)
    shed-IsStamped free s (some d) critical = timer-marked critical
    shed-IsStamped free s none critical = elim (Bool-cases (S.fair_shares s).1.capacity_known) [
      | inl e ↦
          let read = S.fair_shares (S.fair_shares s).0 in
          rw e (
            victim-IsStamped free (pressure_critical c free)
              (pressure_victim F (owners_at F S c read) (pressure_critical c free)) read.0 critical)
      | inr e ↦ rw e (timer-marked critical)
    ]

    room-IsStamped : (s : State) (b : Bool) → IsStamped l (room_again F S c marked (s, b))
    room-IsStamped s true critical = timer-marked critical
    room-IsStamped s false critical = timer-marked critical

  free-IsStamped : (n : NodeInfo) (l : Loop) (s : State) → IsStamped l (judge_memory F S c n l s)
  free-IsStamped n l s critical =
      let near = ltb_ℤ (free_of n) (c.floor +ℤ c.floor) in
      elim (Bool-cases (ltb_ℤ (free_of n) c.floor)) [
        | inl e ↦ elim (Bool-cases (S.is_draining (S.lock s))) [
          | inl d ↦ rw (e, d) (near_timer l near critical)
          | inr d ↦
              rw (e, d)
                (shed-IsStamped l near (free_of n) (S.lock s)
                  (drop_one_pool_sandbox (S.stock (S.lock s))) critical)
        ]
        | inr e ↦
            let back = S.give_back_one (free_of n) (pool_mib_of n) c.floor s in
            rw e (room-IsStamped l near back.0 back.1 critical)
      ]

  reading-IsStamped :
      (l : Loop) (s : State) (o : Option NodeInfo) → IsStamped l (judge_reading F S c l (s, o))
  reading-IsStamped l s none critical = timer-unread l (S.now s) critical
  reading-IsStamped l s (some n) critical = elim (Bool-cases (is_usable n)) [
    | inl e ↦ rw e (free-IsStamped n l s critical)
    | inr e ↦ rw e (near_timer l false critical)
  ]

  check-IsStamped : (l : Loop) (s : State) → IsStamped l (pressure_check F S c l s)
  unfolding pressure_check
  check-IsStamped l s critical = elim (Bool-cases (pressure_skip c (S.is_draining s))) [
    | inl e ↦ rw e (near_timer l false critical)
    | inr e ↦ rw e (reading-IsStamped l (S.node_info s).0 (S.node_info s).1 critical)
  ]

  IsSpacedFrom-due :
      (t : Option ℕ) (at : ℕ) (ts : List ℕ)
      → is_due pressure_alert_every at t ≡ true
      → IsSpacedFrom (some at) ts
      → IsSpacedFrom t (at ∷ ts)
  IsSpacedFrom-due none at ts d h = h
  IsSpacedFrom-due (some last) at ts d h = (leb→le (last + pressure_alert_every) at d, h)

  noted-IsSpaced :
      (l : Loop) (s : State) (critical : Bool) (a : Option (Alert Value)) (ts : List ℕ)
      → ByAlert F S c l s a
      → IsSpacedFrom (stamp critical a (timer critical l)) ts
      → IsSpacedFrom (timer critical l) (noted critical a ts)
  noted-IsSpaced l s true none ts j h = h
  noted-IsSpaced l s false none ts j h = h
  noted-IsSpaced l s true (some (nothing_left at short true)) ts j h =
      IsSpacedFrom-due (timer true l) at ts j.0 h
  noted-IsSpaced l s true (some (nothing_left at short false)) ts j h = h
  noted-IsSpaced l s false (some (nothing_left at short true)) ts j h = h
  noted-IsSpaced l s false (some (nothing_left at short false)) ts j h =
      IsSpacedFrom-due (timer false l) at ts j.0 h
  noted-IsSpaced l s true (some (took_critical v desc free)) ts j h = h
  noted-IsSpaced l s false (some (took_critical v desc free)) ts j h = h

  -- In every run of ticks, whatever the other threads do between and during them, the alerts of one
  -- level that nothing can be taken back are at least ten minutes apart, and the first of them is as
  -- long after the alert that the level's timer remembers.
  pub pressure_run-IsSpaced :
      (critical : Bool) (waits : List (State → State)) (l : Loop) (s : State)
      → IsSpacedFrom (timer critical l) (alert_times critical (pressure_run F S c waits l s))
  unfolding pressure_run alert_times
  pressure_run-IsSpaced critical [] l s = tt
  pressure_run-IsSpaced critical (wait ∷ waits) l s =
      let x = pressure_check F S c l (wait s) in
      let later = alert_times critical (pressure_run F S c waits x.loop x.state) in
      noted-IsSpaced l (wait s) critical x.alert later
        (pressure_check-IsJustified F S c l (wait s)).1
        (subst (λ t. IsSpacedFrom t later) (check-IsStamped l (wait s) critical)
          (pressure_run-IsSpaced critical waits x.loop x.state))
