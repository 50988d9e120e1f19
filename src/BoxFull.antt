-- ===== src/BoxFull.antt =====
-- The box_full refusal, api/admit_memory.go: whom take-back can reach, and the requester that is
-- itself the biggest borrower.
pub mod Borrower
mod Tests
use spoond.Base.{
  ℕ, ◌+◌, Bool, true, false, not, ◌&&◌, ◌||◌, Option, none, some, List, [], ◌∷◌, map, ltb, ◌==◌,
  if◌then◌else◌, sort_stable,
}
use spoond.Base.Text.{Text, text_eq, text_ltb}
use spoond.Base.Int.{ℤ, pos, ◌+ℤ◌, ltb_ℤ, leb_ℤ}
use spoond.Base.Float.{Float64}
use spoond.TakeBack.{TakeBackLease, TakeBackOwner, tb_ratio}
use spoond.Admission.{u64, u64_of_int}

pub record BoxFullLease : Type 0 where
  pub id : Text
  pub name : Text
  pub memory_mb : ℤ
  pub last_active : ℕ
  pub pinned : Bool
  pub exec_pinned : Bool
  pub busy : Bool

pub record MemBoxFullError : Type 0 where
  pub owner : Text
  pub used_mib : ℤ
  pub slice_mib : ℤ
  pub request_mib : ℤ
  pub leases : List BoxFullLease

abbrev pub less_recent : TakeBackLease → TakeBackLease → Bool
less_recent x y =
    if not (x.last_active == y.last_active)
    then ltb x.last_active y.last_active
    else text_ltb x.id y.id

abbrev pub listed : TakeBackLease → BoxFullLease
listed l = record {
  id = l.id;
  name = l.name;
  memory_mb = l.memory_mib;
  last_active = l.last_active;
  pinned = l.own_pin;
  exec_pinned = l.exec_pinned;
  busy = l.busy;
}

unfoldable pub own_leases_lru : List TakeBackLease → List BoxFullLease
unfolding sort_stable text_ltb
own_leases_lru ls = map listed (sort_stable less_recent ls)

-- The first row of the requester.
unfoldable pub row_of : Text → List TakeBackOwner → Option TakeBackOwner
row_of requester [] = none
row_of requester (o ∷ os) = if text_eq o.owner requester then some o else row_of requester os

-- takeBackPool: what take-back could ever free for the requester, and what pins keep from it.
abbrev pub pool_lease : TakeBackLease → ℕ × ℕ → ℕ × ℕ
pool_lease l (takeable, pinned) =
    if l.pinned
    then (takeable, u64 (pinned + u64_of_int l.memory_mib))
    else (u64 (takeable + u64_of_int l.memory_mib), pinned)

unfoldable pub pool_leases : List TakeBackLease → ℕ × ℕ → ℕ × ℕ
pool_leases [] sums = sums
pool_leases (l ∷ ls) sums = pool_leases ls (pool_lease l sums)

unfoldable pub pool_from : Text → List TakeBackOwner → ℕ × ℕ → ℕ × ℕ
unfolding pool_leases
pool_from requester [] sums = sums
pool_from requester (o ∷ os) sums = pool_from requester os (
    if text_eq o.owner requester || leb_ℤ o.slice_mib (pos 0) || leb_ℤ o.used_mib o.slice_mib
    then sums
    else pool_leases o.leases sums)

unfoldable pub take_back_pool : List TakeBackOwner → Text → ℕ × ℕ
unfolding pool_from
take_back_pool owners requester = pool_from requester owners (0, 0)

module _ (F : Float64) where
  open F use {Value, quot, gtb}

  -- Some other owner is further over its slice than `after`.
  unfoldable pub any_above : Text → Value → List TakeBackOwner → Bool
  any_above requester after [] = false
  any_above requester after (o ∷ os) =
      not (text_eq o.owner requester) && gtb (tb_ratio F o.used_mib o.slice_mib) after
      || any_above requester after os

  abbrev pub after_request : TakeBackOwner → ℤ → Value
  after_request o request = tb_ratio F (o.used_mib +ℤ request) o.slice_mib

  abbrev pub refuse_row :
      List TakeBackOwner → Text → ℤ → Option TakeBackOwner → Option MemBoxFullError
  refuse_row owners requester request none = none
  refuse_row owners requester request (some o) =
      if leb_ℤ o.slice_mib (pos 0)
      then none
      else if ltb_ℤ o.used_mib o.slice_mib
      then none
      else if not (gtb (after_request o request) (quot (pos 1) (pos 1)))
      then none
      else if any_above requester (after_request o request) owners
      then none
      else some (record {
        owner = requester;
        used_mib = o.used_mib;
        slice_mib = o.slice_mib;
        request_mib = request;
        leases = own_leases_lru o.leases;
      })

  unfoldable pub biggest_borrower_refusal : List TakeBackOwner → Text → ℤ → Option MemBoxFullError
  unfolding row_of any_above own_leases_lru
  biggest_borrower_refusal owners requester request =
      refuse_row owners requester request (row_of requester owners)
