-- ===== src/FairShare/Bounds.antt =====
-- The slices of the active owners fit into the box, api/fair_shares.go.
pub mod Sets
use spoond.Base.{
  ℕ, zero, suc, ◌+◌, ◌*◌, ◌/◌, ◌≤◌, ◌≡◌, refl, sym, ◌∙◌, ap, Bool, true, false, ◌&&◌, Option, none,
  some, List, [], ◌∷◌, map, length, if◌then◌else◌, sort_stable, insert_stable, not, ◌==◌, arith,
  Bool-cases, inl, inr, clash,
}
use native.Mathlib.Nat.{div-mul-le_self, mul-le-mul_right, mul_comm}
use spoond.Base.Text.{Text, text_ltb}
use spoond.Base.Int.{ℤ, pos, negsuc, ◌+ℤ◌, ◌≤ℤ◌, int_laws}
use spoond.Base.Float.{Float64}
use spoond.Admission.{NodeCache, known}
use spoond.FairShare.{member, active_owners, known_owners}
use spoond.FairShare.Slices.{
  Reads, FairShareOwner, Snapshot, present, or_else, quotient, total_hugepage_mib,
  usable_snapshot_bytes, idle_slice, active_slice, row_for, snapshot_of, by_owner_id,
  compute_fair_shares,
}
use spoond.FairShare.Bounds.Sets.{count_in, Distinct, count_in-le-length, known_owners-Distinct}

module _ {A : Type 0} (f : A → ℤ) where
  abbrev pub total : List A → ℤ
  total [] = pos 0
  total (x ∷ xs) = f x +ℤ total xs

  total-insert_stable :
      (less : A → A → Bool) (x : A) (ys : List A)
      → total (insert_stable less x ys) ≡ f x +ℤ total ys
  unfolding insert_stable
  total-insert_stable less x [] = refl
  total-insert_stable less x (y ∷ ys) = elim (Bool-cases (less y x)) [
    | inr e ↦ rw e refl
    | inl e ↦ rw (e, total-insert_stable less x ys) (omega int_laws)
  ]

  total-sort_stable : (less : A → A → Bool) (xs : List A) → total (sort_stable less xs) ≡ total xs
  unfolding sort_stable
  total-sort_stable less [] = refl
  total-sort_stable less (x ∷ xs) =
      total-insert_stable less x (sort_stable less xs)
      ∙ ap (λ t. f x +ℤ t) (total-sort_stable less xs)

total-map :
    {A B : Type 0} (f : B → ℤ) (g : A → B) (xs : List A)
    → total f (map g xs) ≡ total (λ x. f (g x)) xs
total-map f g [] = refl
total-map f g (x ∷ xs) = rw (total-map f g xs) refl

suc_mul : (c w : ℕ) → suc c * w ≡ w + c * w
suc_mul c w = grind arith

-- `w` for each owner of the set.
total_in :
    (active : List Text) (f : Text → ℤ) (w : ℕ)
    → ((o : Text) → f o ≡ (if member o active then pos w else pos 0))
    → (os : List Text) → total f os ≡ pos (count_in active os * w)
unfolding count_in
total_in active f w h [] = grind arith
total_in active f w h (o ∷ os) = elim (Bool-cases (member o active)) [
  | inl e ↦ rw (h o, e, total_in active f w h os) (omega (int_laws, suc_mul (count_in active os) w))
  | inr e ↦ rw (h o, e, total_in active f w h os) (omega int_laws)
]

-- An active owner's part of `m` among `n`.
part : ℕ → ℕ → Bool → ℕ
part m zero is_known = 0
part m (suc n) true = m / suc n
part m (suc n) false = 0

parts_fit : (m n : ℕ) (is_known : Bool) (c : ℕ) → c ≤ n → c * part m n is_known ≤ m
unfolding part
parts_fit m zero is_known c h = grind arith
parts_fit m (suc n) false c h = grind arith
parts_fit m (suc n) true c h =
    let q = m / suc n in
    let k = mul-le-mul_right q h in
    let l = div-mul-le_self m (suc n) in let swap = mul_comm (suc n) q in omega arith

abbrev pub memory_share : (F : Float64) → FairShareOwner F → ℤ
memory_share F o = if o.active then o.slice_mib else pos 0

abbrev pub disk_share : (F : Float64) → FairShareOwner F → ℤ
disk_share F o = if o.active then o.slice_bytes else pos 0

module _ (F : Float64) (r : Reads) (m d : ℕ) (is_known : Bool) (active : List Text) where
  slice_parts :
      (n : ℕ)
      → ((active_slice F (pos m) (pos d) n is_known).1 ≡ pos (part m n is_known))
        × ((active_slice F (pos m) (pos d) n is_known).2 ≡ pos (part d n is_known))
  unfolding active_slice part
  slice_parts zero = (refl, refl)
  slice_parts (suc n) = elim (Bool-cases is_known) [
    | inl e ↦ rw e (refl, refl)
    | inr e ↦ rw e (refl, refl)
  ]

  abbrev n : ℕ
  n = length active

  abbrev row_at : Text → FairShareOwner F
  row_at = row_for F r active (pos m) (pos d) is_known

  memory_share-row :
      (o : Text)
      → memory_share F (row_at o) ≡ (if member o active then pos (part m n is_known) else pos 0)
  memory_share-row o = elim (Bool-cases (member o active)) [
    | inl e ↦ rw (e, (slice_parts n).0) refl
    | inr e ↦ rw e refl
  ]

  disk_share-row :
      (o : Text)
      → disk_share F (row_at o) ≡ (if member o active then pos (part d n is_known) else pos 0)
  disk_share-row o = elim (Bool-cases (member o active)) [
    | inl e ↦ rw (e, (slice_parts n).1) refl
    | inr e ↦ rw e refl
  ]

  -- Shares of `w` for the active owners of the box.
  total_rows :
      (f : FairShareOwner F → ℤ) (w : ℕ)
      → ((o : Text) → f (row_at o) ≡ (if member o active then pos w else pos 0))
      → (os : List Text)
      → total f (sort_stable (by_owner_id F) (map row_at (sort_stable text_ltb os)))
        ≡ pos (count_in active os * w)
  total_rows f w h os =
      total-sort_stable f (by_owner_id F) (map row_at (sort_stable text_ltb os))
      ∙ total-map f row_at (sort_stable text_ltb os)
      ∙ total-sort_stable (λ o. f (row_at o)) text_ltb os
      ∙ total_in active (λ o. f (row_at o)) w h os

  rows_fit :
      (os : List Text)
      → Distinct os
      → (total (memory_share F) (sort_stable (by_owner_id F) (map row_at (sort_stable text_ltb os)))
          ≤ℤ pos m)
        × (total (disk_share F) (sort_stable (by_owner_id F) (map row_at (sort_stable text_ltb os)))
            ≤ℤ pos d)
  rows_fit os h =
      let c = count_in-le-length active os h in
      let a = parts_fit m n is_known (count_in active os) c in
      let b = parts_fit d n is_known (count_in active os) c in
      rw
        (
          total_rows (memory_share F) (part m n is_known) memory_share-row os,
          total_rows (disk_share F) (part d n is_known) disk_share-row os,
        )
        (omega arith, omega arith)

abbrev IsNatural : ℤ → Type 0
IsNatural a = (k : ℕ) × (a ≡ pos k)

total_hugepage_mib-IsNatural : (c : NodeCache) → IsNatural (or_else (pos 0) (total_hugepage_mib c))
unfolding total_hugepage_mib
total_hugepage_mib-IsNatural c = elim (Bool-cases (not (known c.at))) [
  | inl e ↦ rw e (0, refl)
  | inr e ↦ elim (Bool-cases (c.info.hugepage_size_bytes == 0)) [
    | inl z ↦ rw (e, z) (0, refl)
    | inr z ↦ rw (e, z) (_, refl)
  ]
]

usable_snapshot_bytes-IsNatural :
    (free : Option ℕ) (accounted : ℤ)
    → pos 0 ≤ℤ accounted
    → IsNatural (or_else (pos 0) (usable_snapshot_bytes free accounted))
unfolding usable_snapshot_bytes
usable_snapshot_bytes-IsNatural none a h = (0, refl)
usable_snapshot_bytes-IsNatural (some free) (pos a) h = (free + a, omega int_laws)
usable_snapshot_bytes-IsNatural (some free) (negsuc a) h = absurd (omega arith)

-- The slices of the active owners that the view lists add up to no more than the memory pool, and
-- their disk slices to no more than the usable bytes of the snapshot volume, whatever could be read,
-- if the bytes accounted for are not negative.
pub slices_fit :
    (F : Float64) (r : Reads)
    → pos 0 ≤ℤ or_else (pos 0) r.accounted
    → (total (memory_share F) (compute_fair_shares F r).owners
        ≤ℤ (compute_fair_shares F r).memory_total_mib)
      × (total (disk_share F) (compute_fair_shares F r).owners
          ≤ℤ (compute_fair_shares F r).disk_total_bytes)
unfolding compute_fair_shares
slices_fit F r h =
    let (m, em) = total_hugepage_mib-IsNatural r.node in
    let (d, ed) = usable_snapshot_bytes-IsNatural r.free (or_else (pos 0) r.accounted) h in
    rw (em, ed)
      (rows_fit F r m d _ (active_owners r.leases r.pending)
        (known_owners r.tokens (known_owners r.users []))
        (known_owners-Distinct r.tokens _ (known_owners-Distinct r.users [] tt)))
