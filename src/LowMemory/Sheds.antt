-- ===== src/LowMemory/Sheds.antt =====
-- pressureCheck, api/pressure.go: under the floor a tick does shed, as long as there is something to
-- shed and the pause goes through.
use spoond.Base.{◌≡◌, ◌≢◌, refl, inl, inr, ◌⊎◌, Bool, true, Option, none, some, ap, ◌∙◌, arith}
use spoond.Base.Int.{ℤ, ◌<ℤ◌, ltb_ℤ}
use spoond.Base.Float.{Float64}
use spoond.Admission.{NodeInfo}
use spoond.TakeBack.{TakeBackVictim}
use spoond.TakeBack.Pressure.{pressure_victim}
use spoond.TakeBack.Pressure.Safety.{IsBare, Judged, pressure_victim-Judged}
use spoond.LowMemory.Warm.{Dropped, drop_one_pool_sandbox}
use spoond.LowMemory.{
  Levels, pressure_critical, Loop, free_of, Service, dropped, took, Ticked, after_pause,
  take_victim, drop_or_take, note_near, judge_reading, pressure_skip, pressure_check,
}
use spoond.LowMemory.Conditions.{held_at, views_at, owners_seen, IsBelow}

lt→ltb_ℤ : (a b : ℤ) → a <ℤ b → ltb_ℤ a b ≡ true
lt→ltb_ℤ a b h = ground arith

module _ (F : Float64) (S : Service F) (c : Levels) (l : Loop) (s : S.State) (n : NodeInfo)
    (b : IsBelow F S c s n) where
  open F use {Value}
  open S use {State, node_info, stock, set_stock, delete_sandbox, fair_shares, knows, pause}

  abbrev sheds : Option Dropped → Ticked F S c
  sheds o = drop_or_take F S c (free_of n) (note_near F S c (free_of n) l) (held_at F S c s) o

  read_step :
      judge_reading F S c l ((node_info s).0, some n)
      ≡ sheds (drop_one_pool_sandbox (stock (held_at F S c s)))
  read_step = rw (b.reading.usable, lt→ltb_ℤ (free_of n) c.floor b.below, b.still_not_draining) refl

  pressure_check_below :
      pressure_check F S c l s ≡ sheds (drop_one_pool_sandbox (stock (held_at F S c s)))
  unfolding pressure_check pressure_skip
  pressure_check_below =
      rw (b.reading.floor_on, b.reading.not_draining)
        (ap (λ o. judge_reading F S c l ((node_info s).0, o)) b.reading.answered ∙ read_step)

  abbrev pub IsSpent : Type 0
  IsSpent =
      (drop_one_pool_sandbox (stock (held_at F S c s)) ≡ none)
      × IsBare F (owners_seen F S c s) (pressure_critical c (free_of n))

  -- The sandbox that the pool gives is out of the stock and deleted.
  abbrev pub IsDrop : Ticked F S c → Type 0
  IsDrop x =
      (d : Dropped) × (drop_one_pool_sandbox (stock (held_at F S c s)) ≡ some d)
      × (x.deed ≡ dropped d.id d.freed_mib)
      × (x.state ≡ delete_sandbox d.id (set_stock d.left (held_at F S c s)))
      × (x.answer ≡ true)

  -- The victim of the level has been paused.
  abbrev pub IsTake : Ticked F S c → Type 0
  IsTake x =
      (v : TakeBackVictim Value) × (pinned : Bool) × (pressure_victim F (owners_seen F S c s)
          (pressure_critical c (free_of n))
        ≡ some v)
      × ((pause v (views_at F S c s).0).1 ≡ some pinned)
      × (x.deed ≡ took v pinned)
      × (x.state ≡ (pause v (views_at F S c s).0).0)
      × (x.answer ≡ true)

  module _ (known : (fair_shares (held_at F S c s)).1.capacity_known ≡ true)
      (found : (v : TakeBackVictim Value) → knows (views_at F S c s).0 v.lease_id ≡ true)
      (paused : (v : TakeBackVictim Value) → (pause v (views_at F S c s).0).1 ≢ none) where
    after_victim :
        (o : Option (TakeBackVictim Value))
        → pressure_victim F (owners_seen F S c s) (pressure_critical c (free_of n)) ≡ o
        → Judged F (owners_seen F S c s) (pressure_critical c (free_of n)) o
        → IsTake (
            take_victim F S c
              (free_of n)
              (pressure_critical c (free_of n))
              o
              (note_near F S c (free_of n) l)
              (views_at F S c s).0)
          ⊎ IsBare F (owners_seen F S c s) (pressure_critical c (free_of n))
    after_victim none q j = inr j
    after_victim (some v) q j = rw (found v) (inl (went (pause v (views_at F S c s).0).1 refl))
      where
        went :
            (o : Option Bool)
            → (pause v (views_at F S c s).0).1 ≡ o
            → IsTake (
                after_pause F S c
                  (free_of n)
                  (pressure_critical c (free_of n))
                  v
                  (note_near F S c (free_of n) l)
                  ((pause v (views_at F S c s).0).0, o))
        went none e = absurd (paused v e)
        went (some p) e = (v, p, q, e, refl, refl, refl)

    sheds_or_spent :
        (o : Option Dropped)
        → drop_one_pool_sandbox (stock (held_at F S c s)) ≡ o
        → IsDrop (sheds o) ⊎ IsTake (sheds o) ⊎ IsSpent
    sheds_or_spent (some d) e = inl (d, e, refl, refl, refl)
    sheds_or_spent none e =
        elim (after_victim
          (pressure_victim F (owners_seen F S c s) (pressure_critical c (free_of n))) refl
          (pressure_victim-Judged F (owners_seen F S c s) (pressure_critical c (free_of n)))) [
            | inl a ↦ inr (inl (rw known a))
            | inr a ↦ inr (inr (e, a))
          ]

    -- A tick under the floor, where the slices are known, every lease of a victim is still on record
    -- and every pause goes through, takes a sandbox out of the warm pool and deletes it, or pauses the
    -- victim of the level and records that, unless the pool has nothing to drop and no lease may be
    -- taken at this level.
    pub pressure_check_sheds :
        IsDrop (pressure_check F S c l s) ⊎ IsTake (pressure_check F S c l s) ⊎ IsSpent
    pressure_check_sheds =
        rw pressure_check_below
          (sheds_or_spent (drop_one_pool_sandbox (stock (held_at F S c s))) refl)
