-- ===== src/LowMemory/Warm/Keys.antt =====
-- The maps of the warm pool, api/pressure.go: what a deletion and an assignment leave.
use spoond.Base.{
  ◌≡◌, refl, ◌⊎◌, inl, inr, true, false, some, List, [], ◌∷◌, sym, ◌∙◌, subst, ap, arith, All, Any,
  Bool-cases, clash, if◌then◌else◌, ◌+◌, ℕ, length,
}
use spoond.Base.Text.{Text, text_eq, text_eq→eq, text_eq_refl}
use spoond.Base.Int.{ℤ, pos}
use spoond.LowMemory.Warm.{WarmPool, ids_of, mib_entry, delete_key, set_ids, newest}
use spoond.LowMemory.Warm.Largest.{IsNamed, StandsAt}

-- The keys of a map are distinct.
abbrev pub IsMap {ℓ} : {A : Type ℓ} → List (Text × A) → Type ℓ
IsMap [] = Unit
IsMap (e ∷ es) = All (λ x. text_eq x.0 e.0 ≡ false) es × IsMap es

pub record IsStocked (s : WarmPool) : Type 0 where
  pub images : IsMap s.pool
  pub named : IsNamed s.pool

-- How many sandboxes the pool stocks.
abbrev pub count : List (Text × List Text) → ℕ
count [] = 0
count (r ∷ rows) = length r.1 + count rows

eq_left : (a b c : Text) → text_eq a b ≡ true → text_eq a c ≡ text_eq b c
eq_left a b c h = ap (λ x. text_eq x c) (text_eq→eq a b h)

eq_right : (a b c : Text) → text_eq b c ≡ true → text_eq a b ≡ text_eq a c
eq_right a b c h = ap (text_eq a) (text_eq→eq b c h)

-- Elsewhere, or here with the test of the name.
further :
    (img : Text) (r : Text × List Text) (rows : List (Text × List Text))
    → Any (λ x. x.0 ≡ img) (r ∷ rows)
    → (text_eq r.0 img ≡ true) ⊎ (text_eq r.0 img ≡ false) × Any (λ x. x.0 ≡ img) rows
further img r rows (inl h) = inl (rw h (text_eq_refl img))
further img r rows (inr h) = elim (Bool-cases (text_eq r.0 img)) [
  | inl e ↦ inl e
  | inr e ↦ inr (e, h)
]

not_in :
    (img : Text) (rows : List (Text × List Text))
    → All (λ x. text_eq x.0 img ≡ false) rows
    → (ids_of img rows ≡ []) × (delete_key img rows ≡ rows)
unfolding ids_of delete_key
not_in img [] a = (refl, refl)
not_in img (r ∷ rows) a = let k = not_in img rows a.1 in ground (arith, k)

clashes :
    (P : Text × List Text → Type 0) (img : Text) (rows : List (Text × List Text))
    → ((r : Text × List Text) → P r → r.0 ≡ img)
    → All (λ x. text_eq x.0 img ≡ false) rows
    → Any P rows
    → ⊥
clashes P img [] f a h = h
clashes P img (r ∷ rows) f a (inl h) = clash (rw (f r h) (text_eq_refl img)) a.0
clashes P img (r ∷ rows) f a (inr h) = clashes P img rows f a.1 h

pub ids_of_at :
    (rows : List (Text × List Text)) (p : Text × Text)
    → IsMap rows
    → Any (StandsAt p) rows
    → newest (ids_of p.0 rows) ≡ some p.1
unfolding ids_of
ids_of_at [] p m h = absurd h
ids_of_at ((name, ids) ∷ rows) p m (inl h) =
    let e : text_eq name p.0 ≡ true = rw h.0 (text_eq_refl p.0) in rw e h.1
ids_of_at ((name, ids) ∷ rows) p m (inr h) = elim (Bool-cases (text_eq name p.0)) [
  | inl e ↦ absurd (clashes (StandsAt p) name rows (λ r k. k.0 ∙ sym (text_eq→eq name p.0 e)) m.0 h)
  | inr e ↦ rw e (ids_of_at rows p m.1 h)
]

pub delete_key-ids_of :
    (img other : Text) (rows : List (Text × List Text))
    → ids_of other (delete_key img rows) ≡ (if text_eq img other then [] else ids_of other rows)
unfolding ids_of delete_key
delete_key-ids_of img other [] = ground arith
delete_key-ids_of img other ((name, ids) ∷ rows) =
    ground
      (arith, eq_left name img other, eq_right name img other, delete_key-ids_of img other rows)

pub set_ids-ids_of :
    (img other : Text) (kept : List Text) (rows : List (Text × List Text))
    → Any (λ r. r.0 ≡ img) rows
    → ids_of other (set_ids img kept rows) ≡ (if text_eq img other then kept else ids_of other rows)
unfolding ids_of set_ids
set_ids-ids_of img other kept [] h = absurd h
set_ids-ids_of img other kept ((name, ids) ∷ rows) h = elim (further img (name, ids) rows h) [
  | inl e ↦ let q = eq_left name img other e in rw e (ground (arith, q))
  | inr (e, k) ↦
      let q = eq_right name img other in
      rw e (ground (arith, q, set_ids-ids_of img other kept rows k))
]

pub delete_key-mib_entry :
    (id other : Text) (es : List (Text × ℤ))
    → mib_entry other (delete_key id es) ≡ (if text_eq id other then pos 0 else mib_entry other es)
unfolding mib_entry delete_key
delete_key-mib_entry id other [] = ground arith
delete_key-mib_entry id other ((k, n) ∷ es) =
    ground (arith, eq_left k id other, eq_right k id other, delete_key-mib_entry id other es)

pub delete_key-All :
    (P : Text × List Text → Type 0) (img : Text) (rows : List (Text × List Text))
    → All P rows
    → All P (delete_key img rows)
unfolding delete_key
delete_key-All P img [] a = tt
delete_key-All P img (r ∷ rows) a =
    let k = delete_key-All P img rows a.1 in
    elim (Bool-cases (text_eq r.0 img)) [ inl e ↦ rw e k | inr e ↦ rw e (a.0, k) ]

pub set_ids-All :
    (P : Text × List Text → Type 0) (img : Text) (kept : List Text) (rows : List (Text × List Text))
    → ((r : Text × List Text) → P r → P (r.0, kept))
    → All P rows
    → All P (set_ids img kept rows)
unfolding set_ids
set_ids-All P img kept [] f a = tt
set_ids-All P img kept (r ∷ rows) f a =
    let k = set_ids-All P img kept rows f a.1 in
    elim (Bool-cases (text_eq r.0 img)) [ inl e ↦ rw e (f r a.0, a.1) | inr e ↦ rw e (a.0, k) ]

pub delete_key-IsMap :
    (img : Text) (rows : List (Text × List Text)) → IsMap rows → IsMap (delete_key img rows)
unfolding delete_key
delete_key-IsMap img [] m = tt
delete_key-IsMap img (r ∷ rows) m =
    let k = delete_key-IsMap img rows m.1 in
    elim (Bool-cases (text_eq r.0 img)) [
      | inl e ↦ rw e k
      | inr e ↦ rw e (delete_key-All (λ x. text_eq x.0 r.0 ≡ false) img rows m.0, k)
    ]

pub set_ids-IsMap :
    (img : Text) (kept : List Text) (rows : List (Text × List Text))
    → IsMap rows
    → IsMap (set_ids img kept rows)
unfolding set_ids
set_ids-IsMap img kept [] m = tt
set_ids-IsMap img kept (r ∷ rows) m =
    let k = set_ids-IsMap img kept rows m.1 in
    elim (Bool-cases (text_eq r.0 img)) [
      | inl e ↦ rw e m
      | inr e ↦ rw e (set_ids-All (λ x. text_eq x.0 r.0 ≡ false) img kept rows (λ x q. q) m.0, k)
    ]

pub delete_key-count :
    (img : Text) (rows : List (Text × List Text))
    → IsMap rows
    → count (delete_key img rows) + length (ids_of img rows) ≡ count rows
unfolding delete_key ids_of
delete_key-count img [] m = refl
delete_key-count img (r ∷ rows) m =
    let k = delete_key-count img rows m.1 in
    elim (Bool-cases (text_eq r.0 img)) [
      | inl e ↦
          let n =
            not_in img rows
              (subst (λ n. All (λ x. text_eq x.0 n ≡ false) rows) (text_eq→eq r.0 img e) m.0) in
          rw e (omega (arith, ap count n.1))
      | inr e ↦ rw e (omega (arith, k))
    ]

pub set_ids-count :
    (img : Text) (kept : List Text) (rows : List (Text × List Text))
    → Any (λ r. r.0 ≡ img) rows
    → count (set_ids img kept rows) + length (ids_of img rows) ≡ count rows + length kept
unfolding set_ids ids_of
set_ids-count img kept [] h = absurd h
set_ids-count img kept (r ∷ rows) h = elim (further img r rows h) [
  | inl e ↦ rw e (omega arith)
  | inr (e, k) ↦ rw e (omega (arith, set_ids-count img kept rows k))
]
