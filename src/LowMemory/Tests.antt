-- ===== src/LowMemory/Tests.antt =====
-- A box with two leases of ann, over her slice, and a warm pool of three sandboxes.
use spoond.Base.{
  ℕ, ◌+◌, ◌-◌, ◌≡◌, ◌⊎◌, refl, Bool, true, false, Option, none, some, List, [], ◌∷◌, map, arith,
  if◌then◌else◌, some≢none, sort_stable, keep,
}
use spoond.Base.Text.{Text, codes, text_eq, text_ltb}
use spoond.Base.Int.{pos, ◌+ℤ◌, ◌-ℤ◌}
use spoond.Base.FixedPoint.{centi}
use spoond.Admission.{NodeInfo, free_hugepage_bytes}
use spoond.TakeBack.{tb_ratio, tb_pick_lease, before}
use spoond.TakeBack.Pressure.{pressure_victim}
use spoond.FairShare.{Lease}
use spoond.FairShare.Slices.{FairShareOwner, Snapshot}
use spoond.FairShare.Views.{take_back_owners}
use spoond.LowMemory.Warm.{WarmPool, drop_one_pool_sandbox}
use spoond.LowMemory.Warm.Keys.{IsStocked}
use spoond.LowMemory.Warm.Drop.{DropVerdict, drop_one_pool_sandbox_lem}
use spoond.LowMemory.{
  Levels, default_memory_critical, Loop, Service, Deed, dropped, took, pressure_check, pressure_run,
}
use spoond.LowMemory.Conditions.{IsBelow, ByDeed, ByAlert}
use spoond.LowMemory.Justified.{pressure_check-IsJustified}
use spoond.LowMemory.Sheds.{IsSpent, IsDrop, IsTake, pressure_check_sheds}
use spoond.LowMemory.Alerts.{IsSpacedFrom, alert_times, pressure_run-IsSpaced}

abbrev stocked : WarmPool
stocked = record {
  pool = (codes "go", codes "g1" ∷ codes "g2" ∷ []) ∷ (codes "py", codes "p1" ∷ []) ∷ [];
  pool_mib = (codes "g1", pos 512) ∷ (codes "p1", pos 1024) ∷ (codes "g2", pos 2048) ∷ [];
}

stocked-IsStocked : IsStocked stocked
unfolding text_eq
stocked-IsStocked = record {
  images = ((refl, tt), (tt, tt));
  named = ((refl, (refl, tt)), ((refl, tt), tt));
}

drop_one_pool_sandbox_example : DropVerdict stocked (drop_one_pool_sandbox stocked)
drop_one_pool_sandbox_example = drop_one_pool_sandbox_lem stocked stocked-IsStocked

abbrev lease : Text → Bool → ℕ → Lease
lease id pin at = record {
  id = id;
  owner = codes "ann";
  name = [];
  state = codes "running";
  released = false;
  memory_mb = pos 3000;
  own_pin = pin;
  exec_pins = pos 0;
  busy = false;
  has_job = false;
  drained = false;
  last_active = at;
}

abbrev ann : FairShareOwner centi
ann = record {
  owner = codes "ann";
  name = [];
  slice_pct = pos 50;
  slice_mib = pos 4000;
  used_mib = pos 6000;
  slice_bytes = pos 0;
  used_bytes = pos 0;
  paused_bytes = pos 0;
  kept_bytes = pos 0;
  named_bytes = pos 0;
  ratio = pos 150;
  active = true;
  capacity_known = true;
}

abbrev shares : Snapshot centi
shares = record {
  owners = ann ∷ [];
  owners_n = 2;
  memory_total_mib = pos 8000;
  disk_total_bytes = pos 0;
  at = 0;
  capacity_known = true;
}

-- The time, the pages in use, the pool and the leases.
record Sim : Type 0 where
  time : ℕ
  used : ℕ
  warm : WarmPool
  running : List Lease

abbrev node_of : ℕ → NodeInfo
node_of used = record {
  status = codes "healthy";
  hugepages_total = 4096;
  hugepages_used = used;
  hugepages_reserved = 0;
  hugepage_size_bytes = 2097152;
}

abbrev without : Text → List Lease → List Lease
without id [] = []
without id (l ∷ ls) = let rest = without id ls in if text_eq l.id id then rest else l ∷ rest

abbrev sim : Service centi
sim = record {
  State = Sim;
  is_draining = λ s. false;
  now = λ s. s.time;
  node_info = λ s. (s, some (node_of s.used));
  give_back_one = λ free pool floor s. (s, false);
  lock = λ s. s;
  stock = λ s. s.warm;
  set_stock = λ w s. record s { warm = w };
  delete_sandbox = λ id s. record s { used = s.used - 1024 };
  fair_shares = λ s. (s, shares);
  leases = λ s. s.running;
  knows = λ s id. true;
  pause = λ v s. (record s { running = without v.lease_id s.running }, some v.pinned);
}

abbrev levels : Levels
levels = record { floor = pos 2048; critical = pos 1024 }

abbrev calm : Loop
calm = record { near = false; node_info_log_at = none; alert_at = none; critical_alert_at = none }

abbrev tight : Sim
tight = record {
  time = 0;
  used = 4000;
  warm = stocked;
  running = lease (codes "a1") true 1 ∷ lease (codes "a2") false 2 ∷ [];
}

abbrev tighter : Sim
tighter = record tight { warm = record { pool = []; pool_mib = [] } }

low_memory_ops : Unit {0}
unfolding pressure_check pressure_run alert_times free_hugepage_bytes text_eq text_ltb tb_ratio
    tb_pick_lease before sort_stable ◌+ℤ◌ ◌-ℤ◌ default_memory_critical pressure_victim
    take_back_owners keep
low_memory_ops = tt

abbrev deed_of : Loop → Sim → Deed centi sim levels
deed_of l s = (pressure_check centi sim levels l s).deed

largest_goes : deed_of calm tight ≡ dropped (codes "g2") (pos 2048)
unfolding low_memory_ops
largest_goes = refl

abbrev taken_id : Deed centi sim levels → Option Text
taken_id (took v pinned) = some v.lease_id
taken_id d = none

unpinned_goes : taken_id (deed_of calm tighter) ≡ some (codes "a2")
unfolding low_memory_ops
unpinned_goes = refl

defaults :
    map default_memory_critical (pos 10240 ∷ pos 2048 ∷ pos 1 ∷ [])
    ≡ pos 2048 ∷ pos 1024 ∷ pos 0 ∷ []
unfolding low_memory_ops
defaults = refl

pressure_check-IsJustified_example :
    let x = pressure_check centi sim levels calm tighter in
    ByDeed centi sim levels tighter x x.deed × ByAlert centi sim levels calm tighter x.alert
pressure_check-IsJustified_example = pressure_check-IsJustified centi sim levels calm tighter

tighter-IsBelow : IsBelow centi sim levels tighter (node_of 4000)
unfolding low_memory_ops
tighter-IsBelow = record {
  reading = record { floor_on = refl; not_draining = refl; answered = refl; usable = refl };
  below = omega arith;
  still_not_draining = refl;
}

pressure_check_sheds_example :
    IsDrop centi sim levels calm tighter
      (node_of 4000)
      tighter-IsBelow
      (pressure_check centi sim levels calm tighter)
    ⊎ IsTake centi sim levels calm tighter
        (node_of 4000)
        tighter-IsBelow
        (pressure_check centi sim levels calm tighter)
    ⊎ IsSpent centi sim levels calm tighter (node_of 4000) tighter-IsBelow
pressure_check_sheds_example =
    pressure_check_sheds centi sim levels calm tighter (node_of 4000) tighter-IsBelow refl
      (λ v. refl) (λ v e. some≢none refl e)

-- Nothing runs: each wait is four minutes.
abbrev waits : List (Sim → Sim)
waits = let w = λ (s : Sim). record s { time = s.time + 240_000_000_000 } in w ∷ w ∷ w ∷ w ∷ w ∷ []

abbrev spent : Sim
spent = record tighter { running = [] }

two_alerts :
    alert_times centi sim levels true (pressure_run centi sim levels waits calm spent)
    ≡ 240_000_000_000 ∷ 960_000_000_000 ∷ []
unfolding low_memory_ops
two_alerts = refl

pressure_run-IsSpaced_example :
    IsSpacedFrom none
      (alert_times centi sim levels true (pressure_run centi sim levels waits calm spent))
pressure_run-IsSpaced_example = pressure_run-IsSpaced centi sim levels true waits calm spent
