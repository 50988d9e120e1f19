-- ===== src/FairShare/Views/Listed.antt =====
-- Every lease that holds memory is in the view of its owner, api/take_back.go.
use spoond.Base.{
  ◌≡◌, refl, sym, ◌∙◌, ap, Bool, true, false, ◌&&◌, Option, none, some, List, [], ◌∷◌, ◌++◌, map,
  keep, if◌then◌else◌, Bool-cases, inl, inr,
}
use mathlib.Core.List.{append_assoc, append-nil}
use spoond.Base.Text.{Text, text_eq, text_eq→eq, text_eq_comm}
use spoond.Base.Int.{ℤ, pos}
use spoond.TakeBack.{TakeBackLease, TakeBackOwner}
use spoond.BoxFull.{row_of}
use spoond.FairShare.{Lease}
use spoond.FairShare.Views.{lease_view, is_listed, place_lease, place_leases}

-- The leases, the use and the slice in the row of an owner: none and 0 without a row.
abbrev pub leases_in : Option TakeBackOwner → List TakeBackLease
leases_in none = []
leases_in (some o) = o.leases

abbrev pub used_in : Option TakeBackOwner → ℤ
used_in none = pos 0
used_in (some o) = o.used_mib

abbrev pub slice_in : Option TakeBackOwner → ℤ
slice_in none = pos 0
slice_in (some o) = o.slice_mib

abbrev pub SameNumbers : Option TakeBackOwner → Option TakeBackOwner → Type 0
SameNumbers x y = (used_in x ≡ used_in y) × (slice_in x ≡ slice_in y)

module _ (owner : Text) where
  abbrev pub is_of : Lease → Bool
  is_of l = is_listed l && text_eq l.owner owner

  abbrev pub leases_of : List TakeBackOwner → List TakeBackLease
  leases_of os = leases_in (row_of owner os)

  abbrev added : Lease → List TakeBackLease
  added l = if text_eq l.owner owner then lease_view l ∷ [] else []

  place_lease-leases :
      (l : Lease) (os : List TakeBackOwner) → leases_of (place_lease l os) ≡ leases_of os ++ added l
  unfolding place_lease row_of
  place_lease-leases l [] = elim (Bool-cases (text_eq l.owner owner)) [
    | inl e ↦ rw e refl
    | inr e ↦ rw e refl
  ]
  place_lease-leases l (o ∷ os) = elim (Bool-cases (text_eq o.owner l.owner)) [
    | inl a ↦
        let same = text_eq→eq o.owner l.owner a in
        let c : text_eq l.owner owner ≡ text_eq o.owner owner =
          ap (λ t. text_eq t owner) (sym same) in
        elim (Bool-cases (text_eq o.owner owner)) [
          | inl b ↦ rw (a, c, b) refl
          | inr b ↦ rw (a, c, b) (sym (append-nil (leases_of os)))
        ]
    | inr a ↦ elim (Bool-cases (text_eq o.owner owner)) [
      | inl b ↦
          let same = text_eq→eq o.owner owner b in
          let c : text_eq l.owner owner ≡ false = text_eq_comm l.owner owner ∙ (rw (← same) a) in
          rw (a, b, c) (sym (append-nil o.leases))
      | inr b ↦ rw (a, b) (place_lease-leases l os)
    ]
  ]

  placed_own :
      (l : Lease) (os : List TakeBackOwner)
      → text_eq l.owner owner ≡ true
      → leases_of (place_lease l os) ≡ leases_of os ++ lease_view l ∷ []
  placed_own l os b = place_lease-leases l os ∙ rw b refl

  placed_other :
      (l : Lease) (os : List TakeBackOwner)
      → text_eq l.owner owner ≡ false
      → leases_of (place_lease l os) ≡ leases_of os
  placed_other l os b = place_lease-leases l os ∙ rw b (append-nil (leases_of os))

  pub place_leases-leases :
      (ls : List Lease) (os : List TakeBackOwner)
      → leases_of (place_leases ls os) ≡ leases_of os ++ map lease_view (keep is_of ls)
  unfolding place_leases keep
  place_leases-leases [] os = sym (append-nil (leases_of os))
  place_leases-leases (l ∷ ls) os = elim (Bool-cases (is_listed l)) [
    | inr a ↦ rw a (place_leases-leases ls os)
    | inl a ↦
        let more = λ (t : List TakeBackLease). t ++ map lease_view (keep is_of ls) in
        elim (Bool-cases (text_eq l.owner owner)) [
          | inr b ↦
              rw (a, b) (place_leases-leases ls (place_lease l os) ∙ ap more (placed_other l os b))
          | inl b ↦
              rw (a, b)
                (place_leases-leases ls (place_lease l os)
                  ∙ ap more (placed_own l os b)
                  ∙ append_assoc (leases_of os) (lease_view l ∷ [])
                      (map lease_view (keep is_of ls)))
        ]
  ]

  place_lease-SameNumbers :
      (l : Lease) (os : List TakeBackOwner)
      → SameNumbers (row_of owner (place_lease l os)) (row_of owner os)
  unfolding place_lease row_of
  place_lease-SameNumbers l [] = elim (Bool-cases (text_eq l.owner owner)) [
    | inl e ↦ rw e (refl, refl)
    | inr e ↦ rw e (refl, refl)
  ]
  place_lease-SameNumbers l (o ∷ os) = elim (Bool-cases (text_eq o.owner l.owner)) [
    | inl a ↦ elim (Bool-cases (text_eq o.owner owner)) [
      | inl b ↦ rw (a, b) (refl, refl)
      | inr b ↦ rw (a, b) (refl, refl)
    ]
    | inr a ↦ elim (Bool-cases (text_eq o.owner owner)) [
      | inl b ↦ rw (a, b) (refl, refl)
      | inr b ↦ rw (a, b) (place_lease-SameNumbers l os)
    ]
  ]

  pub place_leases-SameNumbers :
      (ls : List Lease) (os : List TakeBackOwner)
      → SameNumbers (row_of owner (place_leases ls os)) (row_of owner os)
  unfolding place_leases
  place_leases-SameNumbers [] os = (refl, refl)
  place_leases-SameNumbers (l ∷ ls) os = elim (Bool-cases (is_listed l)) [
    | inr a ↦ rw a (place_leases-SameNumbers ls os)
    | inl a ↦
        let x = place_leases-SameNumbers ls (place_lease l os) in
        let y = place_lease-SameNumbers l os in rw a (x.0 ∙ y.0, x.1 ∙ y.1)
  ]
