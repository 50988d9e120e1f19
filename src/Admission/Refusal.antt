-- ===== src/Admission/Refusal.antt =====
-- The overcommit cap over a series of admissions, near-floor freshness and the final check.
use spoond.Base.{
  ℕ, ◌+◌, ◌*◌, ◌/◌, ◌^◌, ◌≤◌, ◌<◌, ◌≡◌, refl, ap, true, false, Option, none, some, List, [], ◌∷◌,
  arith, ltb, leb, ◌==◌, ◌⊎◌, inl, inr, Bool-cases, some≢none, clash, subst, ◌↔◌,
}
use spoond.Base.Text.{codes, text_eq, text_eq→eq, text_eq_of_eq}
use spoond.Base.Int.{ℤ, pos, ◌+ℤ◌, ◌-ℤ◌, ◌≤ℤ◌, int_laws}
use spoond.Admission.{
  u64, mib, u64_of_int, NodeInfo, free_hugepage_bytes, NodeCache, free_mib, free_hugepage_mib,
  near_floor_margin_mib, free_for_request, debit, overcommit_shortfall, reserve, admit_capacity,
  is_idle, after_free, check_info, unhealthy, short,
}
use spoond.Admission.Cache.{reserve-eq-some}

abbrev pub bind_cache : Option NodeCache → (NodeCache → Option NodeCache) → Option NodeCache
bind_cache none f = none
bind_cache (some c) f = f c

-- Admissions one after the other on one reading, none of them undone.
abbrev pub reserve_all : Option (ℕ → ℤ) → ℤ → List ℤ → NodeCache → Option NodeCache
reserve_all limit running [] c = some c
reserve_all limit running (m ∷ ms) c =
    bind_cache (reserve limit running m c) (reserve_all limit running ms)

abbrev pub sum : List ℤ → ℤ
sum [] = pos 0
sum (m ∷ ms) = m +ℤ sum ms

-- The pool of the reading, in MiB.
abbrev pub pool_mib : NodeInfo → ℕ
pool_mib n = u64 (n.hugepages_total * n.hugepage_size_bytes) / mib

pub record HasPool (c : NodeCache) (pool : ℕ) : Type 0 where
  pub read_at : ℕ
  pub is_read : c.at ≡ some read_at
  pub sized : (c.info.hugepage_size_bytes == 0) ≡ false
  pub paged : (c.info.hugepages_total == 0) ≡ false
  pub pool_of : pool_mib c.info ≡ pool

debit-HasPool :
    (c : NodeCache) (m x : ℤ) (pool : ℕ)
    → HasPool c pool
    → HasPool (record (debit m c) { inflight_mib = x }) pool
unfolding debit
debit-HasPool c m x pool h = elim (Bool-cases (is_idle c m)) [
  | inl e ↦ rw e (record {
    read_at = h.read_at;
    is_read = h.is_read;
    sized = h.sized;
    paged = h.paged;
    pool_of = h.pool_of;
  })
  | inr e ↦ rw e (record {
    read_at = h.read_at;
    is_read = h.is_read;
    sized = h.sized;
    paged = h.paged;
    pool_of = h.pool_of;
  })
]

shortfall_lem :
    (cap_of : ℕ → ℤ) (running m : ℤ) (c : NodeCache) (pool : ℕ)
    → HasPool c pool
    → overcommit_shortfall (some cap_of) running m c ≡ running +ℤ c.inflight_mib +ℤ m -ℤ cap_of pool
unfolding overcommit_shortfall
shortfall_lem cap_of running m c pool h =
    rw (h.is_read, h.sized, h.paged)
      (ap (λ (p : ℕ). running +ℤ c.inflight_mib +ℤ m -ℤ cap_of p) h.pool_of)

within_one : (r i m k : ℤ) → r +ℤ i +ℤ m -ℤ k ≤ℤ pos 0 → r +ℤ (i +ℤ (m +ℤ pos 0)) ≤ℤ k
within_one r i m k h = omega int_laws

regroup : (r i m t : ℤ) → r +ℤ (i +ℤ m +ℤ t) ≡ r +ℤ (i +ℤ (m +ℤ t))
regroup r i m t = omega int_laws

bind_cache-eq-some :
    (r : Option NodeCache) (f : NodeCache → Option NodeCache) (d : NodeCache)
    → bind_cache r f ≡ some d
    → (c : NodeCache) × (r ≡ some c) × (f c ≡ some d)
bind_cache-eq-some none f d e = absurd (some≢none e refl)
bind_cache-eq-some (some c) f d e = (c, refl, e)

-- Admissions that all pass against one reading together keep the running memory, the admissions
-- already in flight and their own requests within the overcommit cap of the pool.
pub reserve_all-le-cap :
    (cap_of : ℕ → ℤ) (running m : ℤ) (ms : List ℤ) (c d : NodeCache) (pool : ℕ)
    → HasPool c pool
    → reserve_all (some cap_of) running (m ∷ ms) c ≡ some d
    → running +ℤ (c.inflight_mib +ℤ sum (m ∷ ms)) ≤ℤ cap_of pool
reserve_all-le-cap cap_of running m [] c d pool h e =
    let (c', first, _) =
      bind_cache-eq-some (reserve (some cap_of) running m c) (reserve_all (some cap_of) running [])
        d e in
    within_one running c.inflight_mib m (cap_of pool) (
      rw (shortfall_lem cap_of running m c pool h) at
        ((reserve-eq-some (some cap_of) running m c c' first).1))
reserve_all-le-cap cap_of running m (n ∷ ms) c d pool h e =
    let (c', first, later) =
      bind_cache-eq-some (reserve (some cap_of) running m c)
        (reserve_all (some cap_of) running (n ∷ ms)) d e in
    let same = (reserve-eq-some (some cap_of) running m c c' first).0 in
    let rest : reserve_all (some cap_of) running (n ∷ ms)
          (record (debit m c) { inflight_mib = c.inflight_mib +ℤ m })
        ≡ some d =
      subst (λ x. reserve_all (some cap_of) running (n ∷ ms) x ≡ some d) same later in
    subst (λ x. x ≤ℤ cap_of pool) (regroup running c.inflight_mib m (sum (n ∷ ms)))
      (reserve_all-le-cap cap_of running n ms
        (record (debit m c) { inflight_mib = c.inflight_mib +ℤ m }) d pool
        (debit-HasPool c m (c.inflight_mib +ℤ m) pool h) rest)

after_free_fresh :
    (now trigger : ℕ) (second : Option NodeInfo) (r : NodeCache × Option ℕ) (f : ℕ)
    → (after_free now second trigger r).1 ≡ some f
    → f < trigger
    → let d = (after_free now second trigger r).0 in
      (second ≡ none) ⊎ ((d.at ≡ some now) × (f ≡ free_mib d))
after_free_fresh now trigger second (c, none) f e h = absurd (some≢none e refl)
after_free_fresh now trigger none (c, some free) f e h = inl refl
after_free_fresh now trigger (some info) (c, some free) f e h =
    elim (Bool-cases (leb trigger free)) [
      | inl t ↦ let k : some free ≡ some f = rw t at e in absurd (too_big t k h)
      | inr t ↦
          let k : some (free_hugepage_bytes info / mib) ≡ some f = rw t at e in
          rw t (inr (refl, same k))
    ]
  where
    too_big : leb trigger free ≡ true → some free ≡ some f → f < trigger → ⊥
    too_big t k h = ground arith

    same : some (free_hugepage_bytes info / mib) ≡ some f → f ≡ free_hugepage_bytes info / mib
    same k = cc

-- A reading below what the request, the floor and the margin need is one of this moment, unless the
-- substrate failed to answer the second read.
pub free_for_request_fresh :
    (now : ℕ) (first second : Option NodeInfo) (memory_mb floor : ℤ) (c : NodeCache) (f : ℕ)
    → (free_for_request now first second memory_mb floor c).1 ≡ some f
    → f < u64_of_int (memory_mb +ℤ floor +ℤ near_floor_margin_mib)
    → let d = (free_for_request now first second memory_mb floor c).0 in
      (second ≡ none) ⊎ ((d.at ≡ some now) × (f ≡ free_mib d))
unfolding free_for_request
free_for_request_fresh now first second memory_mb floor c f e h =
    after_free_fresh now (u64_of_int (memory_mb +ℤ floor +ℤ near_floor_margin_mib)) second
      (free_hugepage_mib now first c) f e h

abbrev need_bytes : ℕ → ℕ → ℕ
need_bytes memory floor = u64 (u64 (u64_of_int (pos memory +ℤ pos floor) * 1024) * 1024)

-- The final check passes exactly when the node answers, is healthy and has the request and the floor
-- free, for a request and a floor that a host can have.
pub admit_capacity_iff :
    (memory floor : ℕ) (n : NodeInfo)
    → (memory + floor) * mib < 2 ^ 64
    → (admit_capacity (pos memory) (pos floor) (some n) ≡ none)
      ↔ ((n.status ≡ codes "healthy") × ((memory + floor) * mib ≤ free_hugepage_bytes n))
unfolding admit_capacity
admit_capacity_iff memory floor n h =
    let need_of : need_bytes memory floor ≡ (memory + floor) * mib = ground arith in
    elim (Bool-cases (text_eq n.status (codes "healthy"))) [
      | inr p ↦ (
        λ k. absurd (ill p k),
        λ (s, _). absurd (clash (text_eq_of_eq n.status (codes "healthy") s) p),
      )
      | inl p ↦ elim (Bool-cases (ltb (free_hugepage_bytes n) (need_bytes memory floor))) [
        | inl q ↦ (λ k. absurd (lacking p q k), λ (_, t). absurd (ground (arith, need_of)))
        | inr q ↦ (
          λ _. (text_eq→eq n.status (codes "healthy") p, ground (arith, need_of)),
          λ _. rw (p, q) refl,
        )
      ]
    ]
  where
    ill :
        text_eq n.status (codes "healthy") ≡ false
        → check_info (pos memory) (pos floor) n ≡ none
        → ⊥
    ill p k = let e : some (unhealthy n.status) ≡ none = rw p at k in some≢none refl e

    lacking :
        text_eq n.status (codes "healthy") ≡ true
        → ltb (free_hugepage_bytes n) (need_bytes memory floor) ≡ true
        → check_info (pos memory) (pos floor) n ≡ none
        → ⊥
    lacking p q k =
        let e : some (short (free_hugepage_bytes n) (need_bytes memory floor)) ≡ none =
          rw (p, q) at k in
        some≢none refl e
