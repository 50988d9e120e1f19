-- ===== src/Base/Sort.antt =====
-- Go's sort.SliceStable: for a strict weak order the stable sort is unique, and this is it.
use mathlib.Core.Path.{◌≡◌}
use mathlib.Core.List.{List, [], ◌∷◌, Perm}
use mathlib.Core.List.Perm
use mathlib.Core.Bool.{Bool, true, false}
use mathlib.Core.Logic.{◌⊎◌, inl, inr}
use spoond.Base.Tests.{if◌then◌else◌, Bool-cases}
use spoond.Base.Lists.{All, All-mono}
use spoond.Base.Select.{Any}

module _ {ℓ} {A : Type ℓ} (less : A → A → Bool) where
  -- `x` stood before all of the list, so it goes before the elements that are not less.
  unfoldable pub insert_stable : A → List A → List A
  insert_stable x [] = x ∷ []
  insert_stable x (y ∷ ys) = if less y x then y ∷ insert_stable x ys else x ∷ y ∷ ys

  unfoldable pub sort_stable : List A → List A
  unfolding insert_stable
  sort_stable [] = []
  sort_stable (x ∷ xs) = insert_stable x (sort_stable xs)

  -- No element is less than one that stands before it.
  abbrev pub IsSorted : List A → Type 0
  IsSorted [] = Unit
  IsSorted (x ∷ xs) = All (λ y. less y x ≡ false) xs × IsSorted xs

  insert_stable-perm : (x : A) (ys : List A) → Perm (insert_stable x ys) (x ∷ ys)
  unfolding insert_stable
  insert_stable-perm x [] = Perm.refl (x ∷ [])
  insert_stable-perm x (y ∷ ys) = elim (Bool-cases (less y x)) [
    | inl e ↦ rw e (Perm.trans (Perm.cons y (insert_stable-perm x ys)) (Perm.swap x y ys))
    | inr e ↦ rw e (Perm.refl (x ∷ y ∷ ys))
  ]

  pub sort_stable-perm : (xs : List A) → Perm (sort_stable xs) xs
  unfolding sort_stable
  sort_stable-perm [] = Perm.refl []
  sort_stable-perm (x ∷ xs) =
      Perm.trans (insert_stable-perm x (sort_stable xs)) (Perm.cons x (sort_stable-perm xs))

  insert_stable-All {κ} :
      (P : A → Type κ) (x : A) (ys : List A) → P x → All P ys → All P (insert_stable x ys)
  unfolding insert_stable
  insert_stable-All P x [] p h = (p, tt)
  insert_stable-All P x (y ∷ ys) p h = elim (Bool-cases (less y x)) [
    | inl e ↦ rw e (h.0, insert_stable-All P x ys p h.1)
    | inr e ↦ rw e (p, h)
  ]

  pub sort_stable-All {κ} : (P : A → Type κ) (xs : List A) → All P xs → All P (sort_stable xs)
  unfolding sort_stable
  sort_stable-All P [] h = tt
  sort_stable-All P (x ∷ xs) h =
      insert_stable-All P x (sort_stable xs) h.0 (sort_stable-All P xs h.1)

  All-insert_stable {κ} :
      (P : A → Type κ) (x : A) (ys : List A) → All P (insert_stable x ys) → P x × All P ys
  unfolding insert_stable
  All-insert_stable P x [] h = h
  All-insert_stable P x (y ∷ ys) h = elim (Bool-cases (less y x)) [
    | inl e ↦
        let k : All P (y ∷ insert_stable x ys) = rw e at h in
        let r = All-insert_stable P x ys k.1 in (r.0, (k.0, r.1))
    | inr e ↦ let k : All P (x ∷ y ∷ ys) = rw e at h in (k.0, k.1)
  ]

  pub All-sort_stable {κ} : (P : A → Type κ) (xs : List A) → All P (sort_stable xs) → All P xs
  unfolding sort_stable
  All-sort_stable P [] h = tt
  All-sort_stable P (x ∷ xs) h =
      let r = All-insert_stable P x (sort_stable xs) h in (r.0, All-sort_stable P xs r.1)

  Any-insert_stable :
      (P : A → Type 0) (x : A) (ys : List A) → Any P (insert_stable x ys) → P x ⊎ Any P ys
  unfolding insert_stable
  Any-insert_stable P x [] h = h
  Any-insert_stable P x (y ∷ ys) h = elim (Bool-cases (less y x)) [
    | inl e ↦
        let k : Any P (y ∷ insert_stable x ys) = rw e at h in
        elim k [
          | inl p ↦ inr (inl p)
          | inr q ↦ elim (Any-insert_stable P x ys q) [ inl p ↦ inl p | inr r ↦ inr (inr r) ]
        ]
    | inr e ↦ rw e at h
  ]

  pub Any-sort_stable : (P : A → Type 0) (xs : List A) → Any P (sort_stable xs) → Any P xs
  unfolding sort_stable
  Any-sort_stable P [] h = h
  Any-sort_stable P (x ∷ xs) h = elim (Any-insert_stable P x (sort_stable xs) h) [
    | inl p ↦ inl p
    | inr q ↦ inr (Any-sort_stable P xs q)
  ]

  module _ (asym : (a b : A) → less a b ≡ true → less b a ≡ false)
      (cotrans : (a b c : A) → less a b ≡ false → less b c ≡ false → less a c ≡ false) where
    insert_stable-IsSorted : (x : A) (ys : List A) → IsSorted ys → IsSorted (insert_stable x ys)
    unfolding insert_stable
    insert_stable-IsSorted x [] s = (tt, tt)
    insert_stable-IsSorted x (y ∷ ys) s = elim (Bool-cases (less y x)) [
      | inl e ↦ rw e (
        insert_stable-All (λ z. less z y ≡ false) x ys (asym y x e) s.0,
        insert_stable-IsSorted x ys s.1,
      )
      | inr e ↦ rw e (
        (
          e,
          All-mono (λ z. less z y ≡ false) (λ z. less z x ≡ false) ys (λ z k. cotrans z y x k e)
              s.0,
        ),
        s,
      )
    ]

    pub sort_stable-IsSorted : (xs : List A) → IsSorted (sort_stable xs)
    unfolding sort_stable
    sort_stable-IsSorted [] = tt
    sort_stable-IsSorted (x ∷ xs) =
        insert_stable-IsSorted x (sort_stable xs) (sort_stable-IsSorted xs)
