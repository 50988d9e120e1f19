-- ===== src/Admission/Cache.antt =====
-- The cached reading: how old it may be, what a debit takes from it, and what an undo gives back.
use native.Mathlib.Nat.{div-mul-le_self, lt-div-mul-add}
use spoond.Base.{
  ℕ, ◌+◌, ◌-◌, ◌*◌, ◌/◌, ◌≤◌, ◌<◌, ◌≡◌, refl, ap, sym, some≢none, ◌∙◌, Bool, true, false, Option,
  none, some, arith, ltb, if◌then◌else◌, ◌⊎◌, inl, inr, Bool-cases,
}
use spoond.Base.Int.{ℤ, pos, ◌+ℤ◌, ◌-ℤ◌, ◌≤ℤ◌, ltb_ℤ, max_ℤ, int_laws, ltb_ℤ→ge}
use spoond.Admission.{
  u64_mod, u64, mib, NodeInfo, free_hugepage_bytes, NodeCache, is_idle, is_stale, free_mib,
  free_hugepage_mib, pages_for, debit, credit, overcommit_shortfall, reserve, undo,
}

-- A quotient rounded up covers the bytes, and fits where they fit.
ceil_div :
    (bytes size rem : ℕ)
    → 0 < size
    → bytes ≤ rem * size
    → let p = (bytes + size - 1) / size in (p ≤ rem) × (bytes ≤ p * size)
ceil_div bytes size rem h k =
    let p = (bytes + size - 1) / size in
    let low = div-mul-le_self (bytes + size - 1) size in
    let high = lt-div-mul-add {a = bytes + size - 1} {b = size} h in
    (fits p low, omega (arith, high))
  where
    fits : (p : ℕ) → p * size ≤ bytes + size - 1 → p ≤ rem
    fits p low = grind arith

take_pages : (rem p size : ℕ) → p ≤ rem → (rem - p) * size + p * size ≡ rem * size
take_pages rem p size h = grind arith

-- Pages and sizes that a host can have: no product of them wraps in 64 bits.
pub record IsSound (n : NodeInfo) : Type 0 where
  pub sized : 0 < n.hugepage_size_bytes
  pub total_fits : n.hugepages_total * n.hugepage_size_bytes + n.hugepage_size_bytes < u64_mod
  pub taken_fits : n.hugepages_used + n.hugepages_reserved ≤ n.hugepages_total

le-mul : (a b : ℕ) → 0 < b → a ≤ a * b
le-mul a b h = grind arith

sub-mul-le : (a b c : ℕ) → (a - b) * c ≤ a * c
sub-mul-le a b c = grind arith

free_bytes_lem :
    (n : NodeInfo)
    → IsSound n
    → free_hugepage_bytes n
      ≡ (n.hugepages_total - (n.hugepages_used + n.hugepages_reserved)) * n.hugepage_size_bytes
unfolding free_hugepage_bytes
free_bytes_lem n s =
    let total : n.hugepages_total ≤ n.hugepages_total * n.hugepage_size_bytes =
      le-mul n.hugepages_total n.hugepage_size_bytes s.sized in
    let part =
      sub-mul-le n.hugepages_total (n.hugepages_used + n.hugepages_reserved)
        n.hugepage_size_bytes in
    let h = s.total_fits in let k = s.taken_fits in ground (arith, total, part)

pages_for_lem :
    (n : NodeInfo) (m : ℕ)
    → 0 < n.hugepage_size_bytes
    → m * mib + n.hugepage_size_bytes < u64_mod
    → pages_for n (pos m) ≡ (m * mib + n.hugepage_size_bytes - 1) / n.hugepage_size_bytes
pages_for_lem n m h k = ap (λ (b : ℕ). b / n.hugepage_size_bytes) (omega arith)

debit_lem :
    (c : NodeCache) (m now : ℕ)
    → c.at ≡ some now
    → 0 < c.info.hugepage_size_bytes
    → 0 < m
    → c.info.hugepages_used + pages_for c.info (pos m) < u64_mod
    → (debit (pos m) c).info
      ≡ record c.info { hugepages_used = c.info.hugepages_used + pages_for c.info (pos m) }
unfolding debit
debit_lem c m now at s h k = ground arith

free_after :
    (n : NodeInfo) (p : ℕ)
    → IsSound n
    → p ≤ n.hugepages_total - (n.hugepages_used + n.hugepages_reserved)
    → free_hugepage_bytes (record n { hugepages_used = n.hugepages_used + p })
      ≡ (n.hugepages_total - (n.hugepages_used + n.hugepages_reserved) - p) * n.hugepage_size_bytes
free_after n p s fits =
    let h = s.taken_fits in
    let sound : IsSound (record n { hugepages_used = n.hugepages_used + p }) = record {
      sized = s.sized;
      total_fits = s.total_fits;
      taken_fits = omega arith;
    } in
    free_bytes_lem (record n { hugepages_used = n.hugepages_used + p }) sound
    ∙ ap (λ (x : ℕ). x * n.hugepage_size_bytes) (omega arith)

at_pages :
    (n : NodeInfo) (q p : ℕ)
    → q ≡ p
    → free_hugepage_bytes (record n { hugepages_used = n.hugepages_used + q })
      ≡ free_hugepage_bytes (record n { hugepages_used = n.hugepages_used + p })
at_pages n q p e =
    ap (λ (x : ℕ). free_hugepage_bytes (record n { hugepages_used = n.hugepages_used + x })) e

-- After a debit of `m` MiB that the reading covers, the next admission reads at least `m` MiB less.
pub debit_frees :
    (c : NodeCache) (m now : ℕ)
    → c.at ≡ some now
    → IsSound c.info
    → 0 < m
    → m ≤ free_mib c
    → free_mib (debit (pos m) c) + m ≤ free_mib c
debit_frees c m now at s h k =
    let n = c.info in
    let size = n.hugepage_size_bytes in
    let rem = n.hugepages_total - (n.hugepages_used + n.hugepages_reserved) in
    let free : free_hugepage_bytes n ≡ rem * size = free_bytes_lem n s in
    let covered : m * mib ≤ rem * size = omega (arith, free) in
    let part = sub-mul-le n.hugepages_total (n.hugepages_used + n.hugepages_reserved) size in
    let total = le-mul n.hugepages_total size s.sized in
    let room = s.total_fits in
    let taken = s.taken_fits in
    let p = (m * mib + size - 1) / size in
    let (fits, covers) = ceil_div (m * mib) size rem s.sized covered in
    let pages : pages_for n (pos m) ≡ p = pages_for_lem n m s.sized (omega arith) in
    let after = debit_lem c m now at s.sized h (omega (arith, pages)) in
    let left : free_hugepage_bytes (record n { hugepages_used = n.hugepages_used + p })
        ≡ (rem - p) * size =
      free_after n p s fits in
    let back = take_pages rem p size fits in
    omega
      (arith, free, ap free_hugepage_bytes after, at_pages n (pages_for n (pos m)) p pages, left)

max_undo : (a m : ℤ) → pos 0 ≤ℤ a → max_ℤ (a +ℤ m -ℤ m) (pos 0) ≡ a
max_undo a m h = let e : a +ℤ m -ℤ m ≡ a = omega int_laws in rw e (ground arith)

give_back_pages :
    (used p : ℕ)
    → used + p < u64_mod
    → (if ltb (u64 (used + p)) p then 0 else u64 (used + p) - p) ≡ used
give_back_pages used p h = ground arith

credit-debit :
    (c : NodeCache) (m : ℕ)
    → c.info.hugepages_used + pages_for c.info (pos m) < u64_mod
    → credit (pos m) (debit (pos m) c) ≡ c
unfolding credit debit
credit-debit c m h = elim (Bool-cases (is_idle c (pos m))) [
  | inl e ↦ rw (e, e)
  | inr e ↦ rw (e, e, give_back_pages c.info.hugepages_used (pages_for c.info (pos m)) h)
]

debit-inflight : (c : NodeCache) (m : ℤ) → (debit m c).inflight_mib ≡ c.inflight_mib
unfolding debit
debit-inflight c m = ground arith

credit-inflight :
    (c : NodeCache) (m x : ℤ)
    → credit m (record c { inflight_mib = x }) ≡ record (credit m c) { inflight_mib = x }
unfolding credit
credit-inflight c m x = ground arith

-- A reservation that is granted: it is within the limit, and the debit and the count are taken.
pub reserve-eq-some :
    (limit : Option (ℕ → ℤ)) (running m : ℤ) (c d : NodeCache)
    → reserve limit running m c ≡ some d
    → (d ≡ record (debit m c) { inflight_mib = c.inflight_mib +ℤ m })
      × (overcommit_shortfall limit running m c ≤ℤ pos 0)
unfolding reserve
reserve-eq-some limit running m c d e =
    elim (Bool-cases (ltb_ℤ (pos 0) (overcommit_shortfall limit running m c))) [
      | inl t ↦ absurd (some≢none e (rw t))
      | inr f ↦ (
        let k : some (record (debit m c) { inflight_mib = (debit m c).inflight_mib +ℤ m })
                ≡ some d =
              rw f at e in
            some_inj (sym k)
            ∙ ap (λ (x : ℤ). record (debit m c) { inflight_mib = x +ℤ m }) (debit-inflight c m),
        ltb_ℤ→ge (pos 0) (overcommit_shortfall limit running m c) f,
      )
    ]
  where
    some_inj : {a b : NodeCache} → some a ≡ some b → a ≡ b
    some_inj p = cc

undo_lem :
    (c : NodeCache) (m : ℕ)
    → pos 0 ≤ℤ c.inflight_mib
    → c.info.hugepages_used + pages_for c.info (pos m) < u64_mod
    → undo true (pos m) (false, record (debit (pos m) c) { inflight_mib = c.inflight_mib +ℤ pos m })
      ≡ (true, c)
unfolding undo
undo_lem c m h k =
    rw
      (
        credit-inflight (debit (pos m) c) (pos m) (c.inflight_mib +ℤ pos m),
        credit-debit c m k,
        max_undo c.inflight_mib (pos m) h,
      )
      refl

-- Undoing a reservation that never took hold gives the cache back as it was, and a second undo of
-- the same reservation changes nothing. The pages of the request do not wrap the used count.
pub undo-reserve :
    (limit : Option (ℕ → ℤ)) (running : ℤ) (m : ℕ) (c d : NodeCache) (again : Bool)
    → pos 0 ≤ℤ c.inflight_mib
    → c.info.hugepages_used + pages_for c.info (pos m) < u64_mod
    → reserve limit running (pos m) c ≡ some d
    → (undo true (pos m) (false, d) ≡ (true, c))
      × (undo again (pos m) (undo true (pos m) (false, d)) ≡ (true, c))
undo-reserve limit running m c d again h k e =
    let first : undo true (pos m) (false, d) ≡ (true, c) =
      rw ((reserve-eq-some limit running (pos m) c d e).0) (undo_lem c m h k) in
    (first, rw first (undo_again again (pos m) c))
  where
    undo_again : (f : Bool) (x : ℤ) (c : NodeCache) → undo f x (true, c) ≡ (true, c)
    undo_again f x c = unfold undo in refl

-- A reading that is returned is the one that is then cached, and it is younger than the TTL unless
-- the substrate failed to answer. The error needs an empty cache and a substrate that failed.
pub free_hugepage_mib_fresh :
    (now : ℕ) (answer : Option NodeInfo) (c : NodeCache)
    → let (c', r) = free_hugepage_mib now answer c in
      ((r ≡ none) × (c.at ≡ none) × (answer ≡ none))
      ⊎ ((r ≡ some (free_mib c')) × ((is_stale now c'.at ≡ false) ⊎ (answer ≡ none)))
unfolding free_hugepage_mib
free_hugepage_mib_fresh now answer c = ground arith
