-- ===== src/Reclaim/Tests.antt =====
-- A node of 10 GiB that ann's leases fill, and a request of eve.
use spoond.Base.{
  ℕ, ◌+◌, ◌/◌, ◌≤◌, ◌<◌, ◌≡◌, refl, Bool, true, false, Option, none, some, List, [], ◌∷◌, map,
  length, if◌then◌else◌, arith, Bool-cases, inl, inr, sort_stable,
}
use spoond.Base.Text.{Text, codes, text_eq, text_ltb}
use spoond.Base.Int.{ℤ, pos, ◌+ℤ◌, ◌-ℤ◌}
use spoond.Base.FixedPoint.{centi}
use spoond.TakeBack.{
  TakeBackLease, TakeBackOwner, tb_ratio, tb_pick_lease, tb_pick_lease_for, stays_above, before,
}
use spoond.Admission.{NodeInfo, NodeCache, free_hugepage_bytes}
use spoond.Reclaim.{Box, clear, Reclaimed, take_back_for_admission}
use spoond.Reclaim.Returns.{IsCalm, Returns, take_back_for_admission-Returns}
use spoond.Reclaim.Fair.{IsFair, take_back_for_admission-IsFair}

abbrev lease : Text → ℕ → ℕ → TakeBackLease
lease id mib at = record {
  id = id;
  name = [];
  memory_mib = pos mib;
  pinned = false;
  own_pin = false;
  exec_pinned = false;
  busy = false;
  drained = false;
  last_active = at;
}

abbrev mib_of : ℤ → ℕ
mib_of (pos m) = m
mib_of _ = 0

abbrev used_by : List TakeBackLease → ℕ
used_by [] = 0
used_by (l ∷ ls) = mib_of l.memory_mib + used_by ls

abbrev node_of : List TakeBackLease → NodeInfo
node_of ls = record {
  status = codes "healthy";
  hugepages_total = 5120;
  hugepages_used = used_by ls / 2;
  hugepages_reserved = 0;
  hugepage_size_bytes = 2097152;
}

-- The cache, and ann's running leases.
abbrev Small : Type 0
Small = NodeCache × List TakeBackLease

abbrev rows : List TakeBackLease → List TakeBackOwner
rows ls =
    record { owner = codes "ann"; used_mib = pos (used_by ls); slice_mib = pos 3000; leases = ls }
    ∷ record { owner = codes "eve"; used_mib = pos 0; slice_mib = pos 4000; leases = [] }
    ∷ []

abbrev drop_lease : Text → List TakeBackLease → Option (List TakeBackLease)
drop_lease id [] = none
drop_lease id (l ∷ ls) = if text_eq l.id id then some ls else none

abbrev paused : Small → Option (List TakeBackLease) → Bool × Small
paused s none = (false, s)
paused (c, ls) (some rest) = (true, (c, rest))

abbrev small_box : Box centi
small_box = record {
  State = Small;
  cache = λ s. s.0;
  set_cache = λ c s. (c, s.1);
  observe = λ s. (s, record { now = 0; first = some (node_of s.1); second = some (node_of s.1) });
  running_mib = λ s. pos (used_by s.1);
  owners_for = λ s owner request. rows s.1;
  knows = λ s id. true;
  pause = λ id owner ratio s. paused s (drop_lease id s.1);
}

abbrev held : Small → ℕ
held s = length s.1

paused_lowers :
    (id : Text) (s : Small)
    → (held (paused s (drop_lease id s.1)).1 ≤ held s)
      × ((paused s (drop_lease id s.1)).0 ≡ true → held (paused s (drop_lease id s.1)).1 < held s)
paused_lowers id (c, []) = (omega arith, λ e. cc)
paused_lowers id (c, l ∷ ls) = elim (Bool-cases (text_eq l.id id)) [
  | inl e ↦ rw e (omega arith, λ e'. omega arith)
  | inr e ↦ rw e (omega arith, λ e'. cc)
]

small_box-IsCalm : IsCalm small_box held
small_box-IsCalm = record {
  observes = λ s. omega arith;
  caches = λ c s. omega arith;
  refuses = λ id owner ratio s. (paused_lowers id s).0;
  pauses = λ id owner ratio s. (paused_lowers id s).1;
}

abbrev full : Small
full = (
  record { at = none; info = node_of []; inflight_mib = pos 0 },
  lease (codes "a1") 3000 1 ∷ lease (codes "a2") 4000 2 ∷ lease (codes "a3") 3000 3 ∷ [],
)

reclaim_ops : Unit {0}
unfolding take_back_for_admission free_hugepage_bytes text_eq text_ltb tb_ratio tb_pick_lease
    tb_pick_lease_for stays_above before sort_stable ◌+ℤ◌ ◌-ℤ◌
reclaim_ops = tt

abbrev made : Option (Reclaimed centi small_box none (pos 500) (codes "eve") (pos 3000))
made = take_back_for_admission centi small_box none (pos 500) (codes "eve") (pos 3000) 7 false full

abbrev taken_ids :
    Option (Reclaimed centi small_box none (pos 500) (codes "eve") (pos 3000)) → List Text
taken_ids none = []
taken_ids (some r) = map (λ t. t.victim.lease_id) r.taken

-- a1 goes, the floor is still short by 260 MiB, a2 goes, and the request fits.
two_pauses : taken_ids made ≡ codes "a2" ∷ codes "a1" ∷ []
unfolding reclaim_ops
two_pauses = refl

abbrev result :
    Option (Reclaimed centi small_box none (pos 500) (codes "eve") (pos 3000))
    → Reclaimed centi small_box none (pos 500) (codes "eve") (pos 3000)
result none = record { reply = clear; taken = []; state = full }
result (some r) = r

made_returns : made ≡ some (result made)
unfolding reclaim_ops
made_returns = refl

take_back_for_admission-IsFair_example :
    IsFair centi small_box none (pos 500) (codes "eve") (pos 3000) (result made)
take_back_for_admission-IsFair_example =
    take_back_for_admission-IsFair centi small_box none (pos 500) (codes "eve") (pos 3000) 7 false
      full (result made) made_returns

take_back_for_admission-Returns_example :
    Returns centi small_box none (pos 500) (codes "eve") (pos 3000) held small_box-IsCalm (
      take_back_for_admission centi small_box none
        (pos 500)
        (codes "eve")
        (pos 3000)
        (held full + 4)
        false
        full)
take_back_for_admission-Returns_example =
    take_back_for_admission-Returns centi small_box none (pos 500) (codes "eve") (pos 3000) held
      small_box-IsCalm false full
