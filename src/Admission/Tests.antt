-- ===== src/Admission/Tests.antt =====
-- A node of 10 GiB in pages of 2 MiB, 2 GiB of it used.
use spoond.Base.{ℕ, ◌*◌, ◌/◌, ◌≡◌, refl, true, false, none, some, [], ◌∷◌, arith}
use spoond.Base.Text.{codes, text_eq}
use spoond.Base.Int.{ℤ, pos, ◌+ℤ◌, ◌-ℤ◌, ◌≤ℤ◌}
use spoond.Admission.{
  NodeInfo, NodeCache, free_hugepage_bytes, free_mib, free_hugepage_mib, free_for_request, debit,
  credit, reserve, overcommit_shortfall, undo, admit_capacity,
}
use spoond.Admission.Cache.{IsSound, undo-reserve}
use spoond.Admission.Refusal.{reserve_all, reserve_all-le-cap, sum}

abbrev node : NodeInfo
node = record {
  status = codes "healthy";
  hugepages_total = 5120;
  hugepages_used = 1024;
  hugepages_reserved = 0;
  hugepage_size_bytes = 2097152;
}

abbrev cache : NodeCache
cache = record { at = some 0; info = node; inflight_mib = pos 0 }

-- 1.25 x the pool.
abbrev quarter_over : ℕ → ℤ
quarter_over pool = pos (pool * 5 / 4)

open_ops : Unit {0}
unfolding free_hugepage_bytes free_hugepage_mib free_for_request debit credit reserve
    overcommit_shortfall undo admit_capacity text_eq ◌+ℤ◌ ◌-ℤ◌
open_ops = tt

node-IsSound : IsSound node
node-IsSound = record { sized = omega arith; total_fits = omega arith; taken_fits = omega arith }

free_8_gib : free_mib cache ≡ 8192
unfolding open_ops
free_8_gib = refl

debited : free_mib (debit (pos 4095) cache) ≡ 4096
unfolding open_ops
debited = refl

abbrev granted : NodeCache
granted = record {
  at = some 0;
  info = record {
    status = codes "healthy";
    hugepages_total = 5120;
    hugepages_used = 3072;
    hugepages_reserved = 0;
    hugepage_size_bytes = 2097152;
  };
  inflight_mib = pos 4096;
}

grants : reserve (some quarter_over) (pos 2048) (pos 4096) cache ≡ some granted
unfolding open_ops
grants = refl

undo-reserve_example :
    (undo true (pos 4096) (false, granted) ≡ (true, cache))
    × (undo false (pos 4096) (undo true (pos 4096) (false, granted)) ≡ (true, cache))
undo-reserve_example =
    undo-reserve (some quarter_over) (pos 2048) 4096 cache granted false (omega arith) (omega arith)
      grants

over_the_cap : reserve (some quarter_over) (pos 9000) (pos 4096) cache ≡ none
unfolding open_ops
over_the_cap = refl

abbrev two : NodeCache
two = record {
  at = some 0;
  info = record {
    status = codes "healthy";
    hugepages_total = 5120;
    hugepages_used = 4096;
    hugepages_reserved = 0;
    hugepage_size_bytes = 2097152;
  };
  inflight_mib = pos 6144;
}

both_granted :
    reserve_all (some quarter_over) (pos 2048) (pos 4096 ∷ pos 2048 ∷ []) cache ≡ some two
unfolding open_ops
both_granted = refl

reserve_all-le-cap_example : pos 2048 +ℤ (pos 0 +ℤ sum (pos 4096 ∷ pos 2048 ∷ [])) ≤ℤ pos 12800
reserve_all-le-cap_example =
    reserve_all-le-cap quarter_over (pos 2048) (pos 4096) (pos 2048 ∷ []) cache two 10240
      (record { read_at = 0; is_read = refl; sized = refl; paged = refl; pool_of = refl })
      both_granted

near : (free_for_request 1 none (some node) (pos 7000) (pos 2048) cache).1 ≡ some 8192
unfolding open_ops
near = refl
