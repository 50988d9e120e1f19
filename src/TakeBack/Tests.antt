-- ===== src/TakeBack/Tests.antt =====
-- A box with one owner over its slice, one inside it, and a requester.
use spoond.Base.{ℕ, ◌≡◌, refl, Bool, true, false, Option, none, some, List, [], ◌∷◌, ◌⊎◌, arith}
use spoond.Base.Text.{Text, codes, text_eq, text_ltb}
use spoond.Base.Int.{ℤ, pos, ◌+ℤ◌, ◌-ℤ◌}
use spoond.Base.FixedPoint.{centi}
use mathlib.Core.Option
use spoond.Base.{sort_stable, keep}
use spoond.TakeBack.{
  TakeBackLease, TakeBackOwner, TakeBackVictim, tb_pick_lease, tb_pick_lease_for, tb_ratio,
  stays_above, before,
}
use spoond.TakeBack.Victims.{mem_victims}
use spoond.TakeBack.Victims.Plans.{IsRatioAfter, IsMet, IsUnmet, mem_victims_plan}
use spoond.TakeBack.Pressure.{pressure_victim}
use spoond.TakeBack.Pressure.Safety.{Judged, pressure_victim-Judged}

abbrev lease : Text → ℕ → Bool → Bool → ℕ → TakeBackLease
lease id mib pinned busy at = record {
  id = id;
  name = [];
  memory_mib = pos mib;
  pinned = pinned;
  own_pin = pinned;
  exec_pinned = false;
  busy = busy;
  drained = false;
  last_active = at;
}

abbrev heavy : TakeBackOwner
heavy = record {
  owner = codes "ann";
  used_mib = pos 9000;
  slice_mib = pos 4000;
  leases =
      lease (codes "a1") 2000 false false 50
      ∷ lease (codes "a2") 3000 true false 10
      ∷ lease (codes "a3") 1000 false false 20
      ∷ lease (codes "a4") 3000 false true 5
      ∷ [];
}

abbrev light : TakeBackOwner
light = record {
  owner = codes "bob";
  used_mib = pos 2000;
  slice_mib = pos 4000;
  leases = lease (codes "b1") 2000 false false 1 ∷ [];
}

abbrev asking : TakeBackOwner
asking = record { owner = codes "eve"; used_mib = pos 0; slice_mib = pos 4000; leases = [] }

abbrev box : List TakeBackOwner
box = light ∷ asking ∷ heavy ∷ []

open_ops : Unit {0}
unfolding mem_victims tb_pick_lease tb_pick_lease_for tb_ratio stays_above before text_eq text_ltb
    ◌+ℤ◌ ◌-ℤ◌ pressure_victim sort_stable keep
open_ops = tt

abbrev picked : Option (List (TakeBackVictim ℤ)) → List Text
picked none = []
picked (some []) = []
picked (some (v ∷ vs)) = v.lease_id ∷ picked (some vs)

-- The busy lease a4 and the pinned a2 stay; the least recently used a3 goes, then a1.
picked_3000 :
    picked (mem_victims centi box (codes "eve") (pos 3000) (pos 3000))
    ≡ codes "a3" ∷ codes "a1" ∷ []
unfolding open_ops
picked_3000 = refl

picked_too_much : mem_victims centi box (codes "eve") (pos 9000) (pos 9000) ≡ some []
unfolding open_ops
picked_too_much = refl

mem_victims_plan_example :
    (v : ℤ) × IsRatioAfter centi box (codes "eve") (pos 3000) (pos 3000) v
    × (vs : List (TakeBackVictim ℤ)) × (mem_victims centi box (codes "eve") (pos 3000) (pos 3000)
        ≡ some vs)
    × (IsMet centi box (codes "eve") (pos 3000) (pos 3000) v vs
        ⊎ ((vs ≡ []) × IsUnmet centi box (codes "eve") (pos 3000) (pos 3000) v))
mem_victims_plan_example =
    mem_victims_plan centi box (codes "eve") (pos 3000) (pos 3000) (omega arith)

pressure_victim-Judged_example : Judged centi box true (pressure_victim centi box true)
pressure_victim-Judged_example = pressure_victim-Judged centi box true

abbrev floor_pick : TakeBackVictim ℤ
floor_pick = record {
  owner = codes "ann";
  lease_id = codes "a3";
  ratio = pos 225;
  memory_mib = pos 1000;
  pinned = false;
  inside_slice = false;
  no_slice = false;
}

floor_picks : pressure_victim centi box false ≡ some floor_pick
unfolding open_ops
floor_picks = refl

-- With everything else busy below the critical level, the pinned lease goes.
abbrev worn : List TakeBackOwner
worn =
    record heavy {
      leases = lease (codes "a2") 3000 true false 10 ∷ lease (codes "a4") 3000 false true 5 ∷ [];
    }
    ∷ []

pinned_last :
    Option.map (λ (v : TakeBackVictim ℤ). v.pinned) (pressure_victim centi worn true) ≡ some true
unfolding open_ops
pinned_last = refl
