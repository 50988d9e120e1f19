-- ===== src/TakeBack.antt =====
-- Memory take-back, api/take_back.go: the selector's views and the choice of one owner's lease.
pub mod Pick
pub mod Victims
pub mod Pressure
mod Tests
use spoond.Base.{
  ℕ, zero, suc, ◌≡◌, Bool, true, false, not, ◌&&◌, ◌||◌, Option, none, some, List, [], ◌∷◌, map,
  ltb, ◌==◌, if◌then◌else◌, keep, sort_stable,
}
use spoond.Base.Text.{Text, text_ltb}
use spoond.Base.Int.{ℤ, pos, ◌-ℤ◌, leb_ℤ}
use spoond.Base.Float.{Float64}

-- One running lease as the selector sees it. Times are nanoseconds.
pub record TakeBackLease : Type 0 where
  pub id : Text
  pub name : Text
  pub memory_mib : ℤ
  pub pinned : Bool
  pub own_pin : Bool
  pub exec_pinned : Bool
  pub busy : Bool
  pub drained : Bool
  pub last_active : ℕ

pub record TakeBackOwner : Type 0 where
  pub owner : Text
  pub used_mib : ℤ
  pub slice_mib : ℤ
  pub leases : List TakeBackLease

pub record TakeBackVictim (R : Type 0) : Type 0 where
  pub owner : Text
  pub lease_id : Text
  pub ratio : R
  pub memory_mib : ℤ
  pub pinned : Bool
  pub inside_slice : Bool
  pub no_slice : Bool

abbrev differ : Bool → Bool → Bool
differ true b = not b
differ false b = b

-- `x` is taken before `y`: not busy first, then least recently used, then by id.
unfoldable pub before : TakeBackLease → TakeBackLease → Bool
before x y =
    if differ x.busy y.busy
    then not x.busy
    else if not (x.last_active == y.last_active)
    then ltb x.last_active y.last_active
    else text_ltb x.id y.id

abbrev pub skipped : TakeBackLease → Bool
skipped l = l.pinned || l.drained

-- The loop body: `none` is best = -1, and an index comes with the lease that stands there.
abbrev pub pick_step : ℕ → TakeBackLease → Option (ℕ × TakeBackLease) → Option (ℕ × TakeBackLease)
pick_step i l none = if skipped l then none else some (i, l)
pick_step i l (some (j, b)) =
    if skipped l then some (j, b) else if before l b then some (i, l) else some (j, b)

unfoldable pub pick_from :
    ℕ → List TakeBackLease → Option (ℕ × TakeBackLease) → Option (ℕ × TakeBackLease)
pick_from i [] best = best
pick_from i (l ∷ ls) best = pick_from (suc i) ls (pick_step i l best)

unfoldable pub tb_pick_lease : List TakeBackLease → Option (ℕ × TakeBackLease)
unfolding pick_from
tb_pick_lease ls = pick_from 0 ls none

-- `order` before its sort: the indices of the leases that may be taken, each with its lease.
unfoldable pub takeable_from : ℕ → List TakeBackLease → List (ℕ × TakeBackLease)
takeable_from i [] = []
takeable_from i (l ∷ ls) =
    let rest = takeable_from (suc i) ls in if skipped l then rest else (i, l) ∷ rest

abbrev pub before_index : ℕ × TakeBackLease → ℕ × TakeBackLease → Bool
before_index x y = before x.1 y.1

unfoldable pub first_that {ℓ} : {A : Type ℓ} → (A → Bool) → List A → Option A
first_that p [] = none
first_that p (x ∷ xs) = if p x then some x else first_that p xs

module _ (F : Float64) where
  open F use {Value, quot, gtb}

  -- A slice of zero or below has no ratio: 0 stands for it.
  unfoldable pub tb_ratio : ℤ → ℤ → Value
  tb_ratio used slice = if leb_ℤ slice (pos 0) then quot (pos 0) (pos 1) else quot used slice

  -- Giving the lease up keeps the owner's ratio above `req_after`.
  unfoldable pub stays_above : TakeBackOwner → Value → TakeBackLease → Bool
  stays_above o req_after l = gtb (tb_ratio (o.used_mib -ℤ l.memory_mib) o.slice_mib) req_after

  unfoldable pub tb_pick_lease_for : TakeBackOwner → Value → Option (ℕ × TakeBackLease)
  unfolding takeable_from first_that stays_above
  tb_pick_lease_for o req_after =
      first_that (λ c. stays_above o req_after c.1)
        (sort_stable before_index (takeable_from 0 o.leases))
