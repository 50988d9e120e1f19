-- ===== src/TakeBack/Pressure.antt =====
-- pressureVictim, api/take_back.go: the one lease that the low-memory loop pauses.
pub mod Choice
pub mod Ranks
pub mod Safety
use spoond.Base.{
  ℕ, ◌≡◌, Bool, true, false, not, ◌&&◌, Option, none, some, List, [], ◌∷◌, ◌++◌, map, if◌then◌else◌,
  keep, sort_stable,
}
use spoond.Base.Int.{ℤ, pos, ltb_ℤ, leb_ℤ}
use spoond.Base.Float.{Float64}
use spoond.TakeBack.{TakeBackLease, TakeBackOwner, TakeBackVictim, tb_pick_lease, tb_ratio}

abbrev pub is_no_slice : TakeBackOwner → Bool
is_no_slice o = leb_ℤ o.slice_mib (pos 0)

abbrev pub is_over : TakeBackOwner → Bool
is_over o = not (is_no_slice o) && ltb_ℤ o.slice_mib o.used_mib

-- The `default` of the switch.
abbrev pub is_inside : TakeBackOwner → Bool
is_inside o = not (is_no_slice o) && not (ltb_ℤ o.slice_mib o.used_mib)

-- The pass's copy of a pinned lease is unpinned, for tbPickLease to take it.
abbrev pub unpin : TakeBackLease → TakeBackLease
unpin l = record l { pinned = false }

-- `idle`: busy leases are left out, and the last pass takes the pinned ones only.
unfoldable pub idle_leases : Bool → List TakeBackLease → List TakeBackLease
idle_leases false ls = keep (λ l. not l.busy) ls
idle_leases true ls = map unpin (keep (λ l. not l.busy && l.pinned) ls)

abbrev pub more_used : TakeBackOwner → TakeBackOwner → Bool
more_used x y = ltb_ℤ y.used_mib x.used_mib

module _ (F : Float64) where
  open F use {Value, gtb}

  abbrev pub higher : TakeBackOwner → TakeBackOwner → Bool
  higher x y = gtb (tb_ratio F x.used_mib x.slice_mib) (tb_ratio F y.used_mib y.slice_mib)

  unfoldable pub over_ranked : List TakeBackOwner → List TakeBackOwner
  over_ranked owners = sort_stable higher (keep is_over owners)

  unfoldable pub rest_ranked : List TakeBackOwner → List TakeBackOwner
  rest_ranked owners =
      sort_stable higher (keep is_inside owners) ++ sort_stable more_used (keep is_no_slice owners)

  abbrev pub victim_from :
      Bool → TakeBackOwner → Option (ℕ × TakeBackLease) → Option (TakeBackVictim Value)
  victim_from pinned o none = none
  victim_from pinned o (some (i, l)) = some (record {
    owner = o.owner;
    lease_id = l.id;
    ratio = tb_ratio F o.used_mib o.slice_mib;
    memory_mib = l.memory_mib;
    pinned = pinned;
    inside_slice = not (is_no_slice o) && leb_ℤ o.used_mib o.slice_mib;
    no_slice = is_no_slice o;
  })

  abbrev pub from_owner : Bool → TakeBackOwner → Option (TakeBackVictim Value)
  from_owner pinned o = victim_from pinned o (tb_pick_lease (idle_leases pinned o.leases))

  abbrev pub or_else {ℓ} : {A : Type ℓ} → Option A → Option A → Option A
  or_else none y = y
  or_else (some x) y = some x

  -- One pass over its ranked owners.
  unfoldable pub run_pass : Bool → List TakeBackOwner → Option (TakeBackVictim Value)
  run_pass pinned [] = none
  run_pass pinned (o ∷ os) = or_else (from_owner pinned o) (run_pass pinned os)

  unfoldable pub pressure_victim : List TakeBackOwner → Bool → Option (TakeBackVictim Value)
  unfolding run_pass over_ranked rest_ranked idle_leases
  pressure_victim owners false = run_pass false (over_ranked owners)
  pressure_victim owners true = or_else (run_pass false (over_ranked owners)) (
      or_else (run_pass false (rest_ranked owners))
        (run_pass true (over_ranked owners ++ rest_ranked owners)))
