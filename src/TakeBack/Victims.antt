-- ===== src/TakeBack/Victims.antt =====
-- memVictims, api/take_back.go: the leases to pause so that a requester can have its memory.
pub mod Rows
pub mod Giving
pub mod Plans
use spoond.Base.{
  ℕ, zero, suc, ◌+◌, ◌≡◌, Bool, true, false, ◌||◌, Option, none, some, List, [], ◌∷◌, ◌++◌,
  if◌then◌else◌, length, set, remove_at, sort_stable,
}
use spoond.Base.Text.{Text, text_eq, text_ltb}
use spoond.Base.Int.{ℤ, pos, ◌+ℤ◌, ◌-ℤ◌, ltb_ℤ, leb_ℤ}
use spoond.Base.Float.{Float64}
use spoond.TakeBack.{
  TakeBackLease, TakeBackOwner, TakeBackVictim, tb_pick_lease, tb_ratio, stays_above,
  tb_pick_lease_for,
}

-- bestOwner, bestLease and bestRatio, with the owner and the lease that the indices name.
pub record Choice (R : Type 0) : Type 0 where
  pub owner_index : ℕ
  pub owner : TakeBackOwner
  pub lease_index : ℕ
  pub lease : TakeBackLease
  pub ratio : R

-- The variables of the loop.
pub record Plan (R : Type 0) : Type 0 where
  pub work : List TakeBackOwner
  pub freed : ℤ
  pub out : List (TakeBackVictim R)

-- `unmet` is the return of nil in the loop. `out_of_fuel` belongs to the model only.
pub data Outcome (R : Type 0) : Type 0 where
  out_of_fuel unmet : Outcome R
  planned : Plan R → Outcome R

unfoldable pub lease_count : List TakeBackOwner → ℕ
lease_count [] = 0
lease_count (o ∷ os) = length o.leases + lease_count os

abbrev pub by_owner : TakeBackOwner → TakeBackOwner → Bool
by_owner x y = text_ltb x.owner y.owner

module _ (F : Float64) where
  open F use {Value, gtb}

  -- The least recently used lease may go, or else the first in that order whose loss is fair.
  abbrev pub fall_through :
      TakeBackOwner → Value → Option (ℕ × TakeBackLease) → Option (ℕ × TakeBackLease)
  fall_through o req_after none = none
  fall_through o req_after (some (i, l)) =
      if stays_above F o req_after l then some (i, l) else tb_pick_lease_for F o req_after

  unfoldable pub candidate : Text → Value → TakeBackOwner → Option (ℕ × TakeBackLease)
  candidate requester req_after o =
      if text_eq o.owner requester || leb_ℤ o.slice_mib (pos 0) || leb_ℤ o.used_mib o.slice_mib
      then none
      else fall_through o req_after (tb_pick_lease o.leases)

  abbrev pub better :
      ℕ → TakeBackOwner → Option (ℕ × TakeBackLease) → Option (Choice Value) → Option (Choice Value)
  better i o none best = best
  better i o (some (j, l)) none = some (record {
    owner_index = i;
    owner = o;
    lease_index = j;
    lease = l;
    ratio = tb_ratio F o.used_mib o.slice_mib;
  })
  better i o (some (j, l)) (some c) =
      if gtb (tb_ratio F o.used_mib o.slice_mib) c.ratio
      then some (record {
        owner_index = i;
        owner = o;
        lease_index = j;
        lease = l;
        ratio = tb_ratio F o.used_mib o.slice_mib;
      })
      else some c

  -- The `for i := range work` of one round.
  unfoldable pub best_from :
      Text → Value → ℕ → List TakeBackOwner → Option (Choice Value) → Option (Choice Value)
  best_from requester req_after i [] best = best
  best_from requester req_after i (o ∷ os) best =
      best_from requester req_after (suc i) os (better i o (candidate requester req_after o) best)

  abbrev pub victim : Choice Value → TakeBackVictim Value
  victim c = record {
    owner = c.owner.owner;
    lease_id = c.lease.id;
    ratio = c.ratio;
    memory_mib = c.lease.memory_mib;
    pinned = false;
    inside_slice = false;
    no_slice = false;
  }

  abbrev pub give_up : Choice Value → TakeBackOwner
  give_up c = record {
    owner = c.owner.owner;
    used_mib = c.owner.used_mib -ℤ c.lease.memory_mib;
    slice_mib = c.owner.slice_mib;
    leases = remove_at c.owner.leases c.lease_index;
  }

  abbrev pub take : Plan Value → Choice Value → Plan Value
  take p c = record {
    work = set p.work c.owner_index (give_up c);
    freed = p.freed +ℤ c.lease.memory_mib;
    out = p.out ++ victim c ∷ [];
  }

  abbrev pub round :
      (Plan Value → Outcome Value) → Plan Value → Option (Choice Value) → Outcome Value
  round onward p none = unmet
  round onward p (some c) = onward (take p c)

  -- `for freed < needMiB`, on fuel.
  unfoldable pub plan_loop : Text → Value → ℤ → ℕ → Plan Value → Outcome Value
  plan_loop requester req_after need zero p = out_of_fuel
  plan_loop requester req_after need (suc fuel) p = elim (ltb_ℤ p.freed need) [
    | true ↦
        round (plan_loop requester req_after need fuel) p
          (best_from requester req_after 0 p.work none)
    | false ↦ planned p
  ]

  -- reqAfter: the last row of the requester counts, and 0.0 stands where there is none.
  unfoldable pub req_after_of : Text → ℤ → List TakeBackOwner → Value → Value
  req_after_of requester request [] acc = acc
  req_after_of requester request (o ∷ os) acc =
      req_after_of requester request os
        (if text_eq o.owner requester then tb_ratio F (o.used_mib +ℤ request) o.slice_mib else acc)

  abbrev pub at_least : ℤ → ℤ → ℤ
  at_least need request = if ltb_ℤ request need then need else request

  abbrev pub start : List TakeBackOwner → Plan Value
  start owners = record { work = sort_stable by_owner owners; freed = pos 0; out = [] }

  abbrev pub outcome_of : List TakeBackOwner → Text → ℤ → ℤ → Outcome Value
  outcome_of owners requester need request =
      plan_loop requester
        (req_after_of requester (at_least need request) owners (tb_ratio F (pos 0) (pos 0))) need
        (suc (lease_count (sort_stable by_owner owners))) (start owners)

  abbrev pub victims_of : Outcome Value → Option (List (TakeBackVictim Value))
  victims_of out_of_fuel = none
  victims_of unmet = some []
  victims_of (planned p) = some p.out

  -- nil is the empty list; `none` would be the end of the fuel.
  unfoldable pub mem_victims :
      List TakeBackOwner → Text → ℤ → ℤ → Option (List (TakeBackVictim Value))
  unfolding plan_loop best_from candidate req_after_of lease_count
  mem_victims owners requester need request =
      if leb_ℤ need (pos 0) then some [] else victims_of (outcome_of owners requester need request)
