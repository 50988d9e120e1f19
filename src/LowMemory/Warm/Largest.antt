-- ===== src/LowMemory/Warm/Largest.antt =====
-- The loop of dropOnePoolSandbox, api/pressure.go: where the sandbox stands that it picks.
use spoond.Base.{
  ◌≡◌, refl, ◌⊎◌, inl, inr, true, false, ◌||◌, Option, none, some, List, [], ◌∷◌, ◌++◌, ap, sym,
  subst, ◌∙◌, arith, All, Any, Bool-cases, some≢none,
}
use spoond.Base.Text.{Text, text_eq}
use spoond.Base.Int.{ℤ, ltb_ℤ, ◌≤ℤ◌}
use spoond.LowMemory.Warm.{mib_entry, newest, but_newest, larger_of, pick_largest}

pub newest-none : (ids : List Text) → newest ids ≡ none → ids ≡ []
unfolding newest
newest-none [] h = refl
newest-none (x ∷ []) h = absurd (some≢none refl h)
newest-none (x ∷ y ∷ xs) h = let k : (y ∷ xs) ≡ [] = newest-none (y ∷ xs) h in cc

pub newest-but :
    (ids : List Text) (id : Text) → newest ids ≡ some id → ids ≡ but_newest ids ++ id ∷ []
unfolding newest but_newest
newest-but [] id h = cc
newest-but (x ∷ []) id h = cc
newest-but (x ∷ y ∷ xs) id h = ap (◌∷◌ x) (newest-but (y ∷ xs) id h)

some_inj : {A : Type 0} {a b : A} → some a ≡ some b → a ≡ b
some_inj h = cc

pub newest-All {κ} :
    (P : Text → Type κ) (ids : List Text) (id : Text) → All P ids → newest ids ≡ some id → P id
unfolding newest
newest-All P [] id a h = absurd (some≢none h refl)
newest-All P (x ∷ []) id a h = subst P (some_inj h) a.0
newest-All P (x ∷ y ∷ xs) id a h = newest-All P (y ∷ xs) id a.1 h

-- No stocked sandbox has the empty id.
abbrev pub IsNamed : List (Text × List Text) → Type 0
IsNamed rows = All (λ r. All (λ id. text_eq id [] ≡ false) r.1) rows

abbrev pub Under : List (Text × ℤ) → Text → Option Text → Type 0
Under mibs id none = Unit {0}
Under mibs id (some x) = mib_entry x mibs ≤ℤ mib_entry id mibs

abbrev pub StandsAt : Text × Text → Text × List Text → Type 0
StandsAt p r = (r.0 ≡ p.0) × (newest r.1 ≡ some p.1)

abbrev IsNamedId : Option Text → Type 0
IsNamedId none = Unit {0}
IsNamedId (some id) = text_eq id [] ≡ false

named_newest :
    (ids : List Text) (o : Option Text)
    → All (λ id. text_eq id [] ≡ false) ids
    → newest ids ≡ o
    → IsNamedId o
named_newest ids none n e = tt
named_newest ids (some id) n e = newest-All (λ x. text_eq x [] ≡ false) ids id n e

module _ (mibs : List (Text × ℤ)) where
  larger_of-cases :
      (name : Text) (o : Option Text) (best : Text × Text)
      → (larger_of mibs name o best ≡ best)
        ⊎ ((id : Text) × (o ≡ some id) × (larger_of mibs name o best ≡ (name, id)))
  larger_of-cases name none best = inl refl
  larger_of-cases name (some id) best =
      elim (Bool-cases (text_eq best.1 [] || ltb_ℤ (mib_entry best.1 mibs) (mib_entry id mibs))) [
        | inl e ↦ inr (id, refl, rw e refl)
        | inr e ↦ inl (rw e refl)
      ]

  larger_of-none :
      (name : Text) (o : Option Text) (best : Text × Text)
      → IsNamedId o
      → text_eq (larger_of mibs name o best).1 [] ≡ true
      → (text_eq best.1 [] ≡ true) × (o ≡ none)
  larger_of-none name none best n h = (h, refl)
  larger_of-none name (some id) best n h = ground arith

  larger_of-Under :
      (name : Text) (o : Option Text) (best : Text × Text)
      → Under mibs (larger_of mibs name o best).1 o
        × ((text_eq best.1 [] ≡ true)
            ⊎ (mib_entry best.1 mibs ≤ℤ mib_entry (larger_of mibs name o best).1 mibs))
  larger_of-Under name none best = (tt, inr (omega arith))
  larger_of-Under name (some id) best = ground arith

  -- The pick is the one so far, or the newest of its image.
  pub pick_largest-StandsAt :
      (rows : List (Text × List Text)) (best : Text × Text)
      → let p = pick_largest mibs rows best in (p ≡ best) ⊎ Any (StandsAt p) rows
  unfolding pick_largest
  pick_largest-StandsAt [] best = inl refl
  pick_largest-StandsAt ((name, ids) ∷ rows) best =
      elim (pick_largest-StandsAt rows (larger_of mibs name (newest ids) best)) [
        | inl e ↦ elim (larger_of-cases name (newest ids) best) [
          | inl k ↦ inl (e ∙ k)
          | inr (id, o, k) ↦
              let q = e ∙ k in inr (inl (ap (λ x. x.0) (sym q), o ∙ ap (λ x. some x.1) (sym q)))
        ]
        | inr a ↦ inr (inr a)
      ]

  -- Nothing is picked only if there is nothing.
  pub pick_largest-none :
      (rows : List (Text × List Text)) (best : Text × Text)
      → IsNamed rows
      → text_eq (pick_largest mibs rows best).1 [] ≡ true
      → (text_eq best.1 [] ≡ true) × All (λ r. newest r.1 ≡ none) rows
  unfolding pick_largest
  pick_largest-none [] best n h = (h, tt)
  pick_largest-none ((name, ids) ∷ rows) best n h =
      let k = pick_largest-none rows (larger_of mibs name (newest ids) best) n.1 h in
      let b = larger_of-none name (newest ids) best (named_newest ids _ n.0 refl) k.0 in
      (b.0, (b.1, k.1))

  Under-step :
      (x p best : Text) (o : Option Text)
      → IsNamedId o
      → (text_eq x [] ≡ true → (text_eq best [] ≡ true) × (o ≡ none))
      → Under mibs x o
      → (text_eq best [] ≡ true) ⊎ (mib_entry best mibs ≤ℤ mib_entry x mibs)
      → (text_eq x [] ≡ true) ⊎ (mib_entry x mibs ≤ℤ mib_entry p mibs)
      → Under mibs p o × ((text_eq best [] ≡ true) ⊎ (mib_entry best mibs ≤ℤ mib_entry p mibs))
  Under-step x p best none n f u (inl b) k = (tt, inl b)
  Under-step x p best none n f u (inr b) (inl e) = (tt, inl (f e).0)
  Under-step x p best none n f u (inr b) (inr k) = (tt, inr (omega arith))
  Under-step x p best (some y) n f u b (inl e) = absurd (some≢none refl (f e).1)
  Under-step x p best (some y) n f u (inl b) (inr k) = (omega arith, inl b)
  Under-step x p best (some y) n f u (inr b) (inr k) = (omega arith, inr (omega arith))

  -- No image's newest is larger than the pick.
  pub pick_largest-Under :
      (rows : List (Text × List Text)) (best : Text × Text)
      → IsNamed rows
      → let p = pick_largest mibs rows best in
        All (λ r. Under mibs p.1 (newest r.1)) rows
        × ((text_eq best.1 [] ≡ true) ⊎ (mib_entry best.1 mibs ≤ℤ mib_entry p.1 mibs))
  unfolding pick_largest
  pick_largest-Under [] best n = (tt, inr (omega arith))
  pick_largest-Under ((name, ids) ∷ rows) best n =
      let x = larger_of mibs name (newest ids) best in
      let k = pick_largest-Under rows x n.1 in
      let u = larger_of-Under name (newest ids) best in
      let o = named_newest ids (newest ids) n.0 refl in
      let s =
        Under-step x.1 (pick_largest mibs rows x).1 best.1 (newest ids) o
          (larger_of-none name (newest ids) best o) u.0 u.1 k.1 in
      ((s.0, k.0), s.1)
