-- ===== src/BoxFull/Tests.antt =====
-- A requester over its slice, and one that another owner is further over.
use spoond.Base.{ℕ, ◌≡◌, refl, Bool, true, false, none, [], ◌∷◌, map}
use spoond.Base.Text.{Text, codes, text_eq, text_ltb}
use spoond.Base.Int.{pos, ◌+ℤ◌}
use spoond.Base.FixedPoint.{centi}
use spoond.TakeBack.{TakeBackLease, TakeBackOwner, tb_ratio}
use spoond.BoxFull.{BoxFullLease, own_leases_lru, take_back_pool, biggest_borrower_refusal}

abbrev lease : Text → ℕ → Bool → ℕ → TakeBackLease
lease id mib pinned at = record {
  id = id;
  name = [];
  memory_mib = pos mib;
  pinned = pinned;
  own_pin = pinned;
  exec_pinned = false;
  busy = false;
  drained = false;
  last_active = at;
}

abbrev ann : TakeBackOwner
ann = record {
  owner = codes "ann";
  used_mib = pos 9000;
  slice_mib = pos 4000;
  leases = lease (codes "a1") 5000 true 50 ∷ lease (codes "a2") 4000 false 10 ∷ [];
}

abbrev bob : TakeBackOwner
bob = record {
  owner = codes "bob";
  used_mib = pos 5000;
  slice_mib = pos 4000;
  leases = lease (codes "b1") 5000 false 1 ∷ [];
}

box_full_ops : Unit {0}
unfolding biggest_borrower_refusal take_back_pool tb_ratio text_eq text_ltb own_leases_lru ◌+ℤ◌
box_full_ops = tt

pool_of_bob : take_back_pool (ann ∷ bob ∷ []) (codes "bob") ≡ (4000, 5000)
unfolding box_full_ops
pool_of_bob = refl

least_recent_first :
    map (λ (l : BoxFullLease). l.id) (own_leases_lru ann.leases) ≡ codes "a2" ∷ codes "a1" ∷ []
unfolding box_full_ops
least_recent_first = refl

-- ann borrows more than bob would.
bob_waits : biggest_borrower_refusal centi (ann ∷ bob ∷ []) (codes "bob") (pos 1000) ≡ none
unfolding box_full_ops
bob_waits = refl
