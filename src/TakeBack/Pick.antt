-- ===== src/TakeBack/Pick.antt =====
-- tbPickLease and tbPickLeaseFor pick the best takeable lease in take-back order.
use spoond.Base.{
  get_elem?-append_left, get_elem?-append_length, ℕ, suc, ◌≡◌, refl, Bool, true, false, Option,
  none, some, List, [], ◌∷◌, ◌++◌, arith, Bool-cases, length, length-append, get_elem?, All,
  All-append, All-mono, sort_stable, IsSorted, sort_stable-All, All-sort_stable,
  sort_stable-IsSorted, inl, inr, subst, clash, some≢none,
}
use mathlib.Core.List.{append-nil, append_assoc}
use spoond.Base.Text.{text_ltb, text_ltb_trans, text_ltb_irrefl, text_ltb_tri}
use spoond.Base.Float.{Float64}
use spoond.TakeBack.{
  TakeBackLease, TakeBackOwner, before, skipped, pick_step, pick_from, tb_pick_lease, takeable_from,
  before_index, first_that, stays_above, tb_pick_lease_for,
}

pub before_irrefl : (x : TakeBackLease) → before x x ≡ false
unfolding before
before_irrefl x = ground (arith, text_ltb_irrefl x.id)

pub before_trans :
    (x y z : TakeBackLease) → before x y ≡ true → before y z ≡ true → before x z ≡ true
unfolding before
before_trans x y z h k = ground (arith, text_ltb_trans x.id y.id z.id)

pub before_asym : (x y : TakeBackLease) → before x y ≡ true → before y x ≡ false
before_asym x y h = elim (Bool-cases (before y x)) [
  | inl e ↦ cc (before_irrefl x, before_trans x y x h e)
  | inr e ↦ e
]

text_ltb_cotrans :
    (s t u : List ℕ) → text_ltb s t ≡ false → text_ltb t u ≡ false → text_ltb s u ≡ false
text_ltb_cotrans s t u h k = elim (Bool-cases (text_ltb s u)) [
  | inr e ↦ e
  | inl e ↦ elim (Bool-cases (text_ltb t s)) [
    | inl d ↦ cc (text_ltb_trans t s u d e)
    | inr d ↦ cc (text_ltb_tri s t h d)
  ]
]

pub before_cotrans :
    (x y z : TakeBackLease) → before x y ≡ false → before y z ≡ false → before x z ≡ false
unfolding before
before_cotrans x y z h k = ground (arith, text_ltb_cotrans x.id y.id z.id)

-- `r` is the best of the leases that may be taken, at its place in the list.
abbrev pub IsBest : List TakeBackLease → Option (ℕ × TakeBackLease) → Type 0
IsBest ls none = All (λ l. skipped l ≡ true) ls
IsBest ls (some (i, b)) =
    (get_elem? ls i ≡ some b)
    × (skipped b ≡ false)
    × All (λ l. skipped l ≡ false → before l b ≡ false) ls

pick_step-IsBest :
    (xs : List TakeBackLease) (l : TakeBackLease) (best : Option (ℕ × TakeBackLease))
    → IsBest xs best
    → IsBest (xs ++ l ∷ []) (pick_step (length xs) l best)
pick_step-IsBest xs l none h = elim (Bool-cases (skipped l)) [
  | inl e ↦ rw e (All-append (λ x. skipped x ≡ true) xs (l ∷ []) h (e, tt))
  | inr e ↦ rw e (
    get_elem?-append_length xs [] l,
    e,
    All-append (λ x. skipped x ≡ false → before x l ≡ false) xs (l ∷ [])
        (All-mono (λ x. skipped x ≡ true) (λ x. skipped x ≡ false → before x l ≡ false) xs
          (λ x s t. absurd (clash s t)) h)
        (λ _. before_irrefl l, tt),
  )
]
pick_step-IsBest xs l (some (j, b)) (at, ok, least) = elim (Bool-cases (skipped l)) [
  | inl e ↦ rw e (
    get_elem?-append_left xs (l ∷ []) j b at,
    ok,
    All-append (λ x. skipped x ≡ false → before x b ≡ false) xs (l ∷ []) least
        (λ t. absurd (clash e t), tt),
  )
  | inr e ↦ elim (Bool-cases (before l b)) [
    | inl d ↦
        rw (e, d)
          (
            get_elem?-append_length xs [] l,
            e,
            All-append (λ x. skipped x ≡ false → before x l ≡ false) xs (l ∷ [])
                (All-mono (λ x. skipped x ≡ false → before x b ≡ false)
                  (λ x. skipped x ≡ false → before x l ≡ false) xs
                  (λ x s t. before_cotrans x b l (s t) (before_asym l b d)) least)
                (λ _. before_irrefl l, tt),
          )
    | inr d ↦
        rw (e, d)
          (
            get_elem?-append_left xs (l ∷ []) j b at,
            ok,
            All-append (λ x. skipped x ≡ false → before x b ≡ false) xs (l ∷ []) least (λ _. d, tt),
          )
  ]
]

pick_from-IsBest :
    (n : ℕ) (xs ls : List TakeBackLease) (best : Option (ℕ × TakeBackLease))
    → n ≡ length xs
    → IsBest xs best
    → IsBest (xs ++ ls) (pick_from n ls best)
unfolding pick_from
pick_from-IsBest n xs [] best e h = rw (append-nil xs) h
pick_from-IsBest n xs (l ∷ ls) best e h = rw (← append_assoc xs (l ∷ []) ls) (
    pick_from-IsBest (suc n) (xs ++ l ∷ []) ls (pick_step n l best)
      (omega (arith, length-append xs (l ∷ []))) (rw e (pick_step-IsBest xs l best h)))

-- The pick is a lease of the list, neither pinned nor drained, and no other such lease comes before
-- it in take-back order. There is no pick only when every lease is pinned or drained.
pub tb_pick_lease-IsBest : (ls : List TakeBackLease) → IsBest ls (tb_pick_lease ls)
unfolding tb_pick_lease
tb_pick_lease-IsBest ls = pick_from-IsBest 0 [] ls none refl tt

abbrev IsAt : List TakeBackLease → ℕ × TakeBackLease → Type 0
IsAt ls c = (get_elem? ls c.0 ≡ some c.1) × (skipped c.1 ≡ false)

takeable_from-IsAt :
    (n : ℕ) (xs ls : List TakeBackLease)
    → n ≡ length xs
    → All (IsAt (xs ++ ls)) (takeable_from n ls)
unfolding takeable_from
takeable_from-IsAt n xs [] e = tt
takeable_from-IsAt n xs (l ∷ ls) e =
    let later : All (IsAt (xs ++ l ∷ ls)) (takeable_from (suc n) ls) =
      rw (← append_assoc xs (l ∷ []) ls)
        (takeable_from-IsAt (suc n) (xs ++ l ∷ []) ls (omega (arith, length-append xs (l ∷ [])))) in
    elim (Bool-cases (skipped l)) [
      | inl s ↦ rw s later
      | inr s ↦ rw s ((rw e (get_elem?-append_length xs ls l), s), later)
    ]

-- What holds of all candidates holds of all leases that may be taken.
All-takeable_from :
    (P : TakeBackLease → Type 0) (n : ℕ) (ls : List TakeBackLease)
    → All (λ (c : ℕ × TakeBackLease). P c.1) (takeable_from n ls)
    → All (λ l. skipped l ≡ false → P l) ls
unfolding takeable_from
All-takeable_from P n [] h = tt
All-takeable_from P n (l ∷ ls) h = elim (Bool-cases (skipped l)) [
  | inl s ↦ (λ t. absurd (clash s t), All-takeable_from P (suc n) ls (rw s at h))
  | inr s ↦
      let k : All (λ (c : ℕ × TakeBackLease). P c.1) ((n, l) ∷ takeable_from (suc n) ls) =
        rw s at h in
      (λ _. k.0, All-takeable_from P (suc n) ls k.1)
]

-- The first element of a sorted list that passes is the least of those that pass.
abbrev IsFirst {ℓ} : {A : Type ℓ} → (A → A → Bool) → (A → Bool) → List A → Option A → Type 0
IsFirst less p cs none = All (λ d. p d ≡ false) cs
IsFirst less p cs (some c) = (p c ≡ true) × All (λ d. p d ≡ true → less d c ≡ false) cs

first_that-IsFirst {ℓ} :
    {A : Type ℓ} (less : A → A → Bool) (p : A → Bool) (cs : List A)
    → ((a : A) → less a a ≡ false)
    → IsSorted less cs
    → IsFirst less p cs (first_that p cs)
unfolding first_that
first_that-IsFirst less p [] irr s = tt
first_that-IsFirst {A} less p (c ∷ cs) irr s = elim (Bool-cases (p c)) [
  | inl e ↦ rw e (
    e,
    (
      λ _. irr c,
      All-mono (λ d. less d c ≡ false) (λ d. p d ≡ true → less d c ≡ false) cs (λ d k _. k) s.0,
    ),
  )
  | inr e ↦ rw e (later (first_that p cs) (first_that-IsFirst less p cs irr s.1) e)
]
  where
    later : (r : Option A) → IsFirst less p cs r → p c ≡ false → IsFirst less p (c ∷ cs) r
    later none h e = (e, h)
    later (some d) h e = (h.0, (λ t. absurd (clash t e), h.1))

some_inj {ℓ} : {A : Type ℓ} {a b : A} → some a ≡ some b → a ≡ b
some_inj e = cc

first_that-All {ℓ κ} :
    {A : Type ℓ} (Q : A → Type κ) (p : A → Bool) (cs : List A) (c : A)
    → All Q cs
    → first_that p cs ≡ some c
    → Q c
unfolding first_that
first_that-All Q p [] c h e = absurd (some≢none e refl)
first_that-All Q p (x ∷ xs) c h e = elim (Bool-cases (p x)) [
  | inl t ↦ let k : some x ≡ some c = rw t at e in subst Q (some_inj k) h.0
  | inr t ↦ first_that-All Q p xs c h.1 (rw t at e)
]

module _ (F : Float64) (o : TakeBackOwner) (req_after : F.Value) where
  -- `r` is the best of the leases whose loss keeps the owner above `req_after`.
  abbrev pub IsBestAbove : Option (ℕ × TakeBackLease) → Type 0
  IsBestAbove none = All (λ l. skipped l ≡ false → stays_above F o req_after l ≡ false) o.leases
  IsBestAbove (some (i, b)) =
      (get_elem? o.leases i ≡ some b)
      × (skipped b ≡ false)
      × (stays_above F o req_after b ≡ true)
      × All (λ l. skipped l ≡ false → stays_above F o req_after l ≡ true → before l b ≡ false)
          o.leases

  abbrev passes : ℕ × TakeBackLease → Bool
  passes c = stays_above F o req_after c.1

  abbrev candidates : List (ℕ × TakeBackLease)
  candidates = sort_stable before_index (takeable_from 0 o.leases)

  candidates-IsFirst : IsFirst before_index passes candidates (first_that passes candidates)
  candidates-IsFirst =
      first_that-IsFirst before_index passes candidates (λ c. before_irrefl c.1)
        (sort_stable-IsSorted before_index (λ a b. before_asym a.1 b.1)
          (λ a b c. before_cotrans a.1 b.1 c.1) (takeable_from 0 o.leases))

  candidates-IsAt : All (IsAt o.leases) candidates
  candidates-IsAt =
      sort_stable-All before_index (IsAt o.leases) (takeable_from 0 o.leases)
        (takeable_from-IsAt 0 [] o.leases refl)

  back :
      (P : TakeBackLease → Type 0)
      → All (λ (c : ℕ × TakeBackLease). P c.1) candidates
      → All (λ l. skipped l ≡ false → P l) o.leases
  back P h =
      All-takeable_from P 0 o.leases (
        All-sort_stable before_index (λ (c : ℕ × TakeBackLease). P c.1) (takeable_from 0 o.leases)
          h)

  first-IsBestAbove :
      (r : Option (ℕ × TakeBackLease))
      → first_that passes candidates ≡ r
      → IsFirst before_index passes candidates r
      → IsBestAbove r
  first-IsBestAbove none e h = back (λ l. stays_above F o req_after l ≡ false) h
  first-IsBestAbove (some (i, b)) e h =
      let at = first_that-All (IsAt o.leases) passes candidates (i, b) candidates-IsAt e in
      (at.0, at.1, h.0, back (λ l. stays_above F o req_after l ≡ true → before l b ≡ false) h.1)

  -- The pick is a lease of the owner, neither pinned nor drained, whose loss keeps the owner's ratio
  -- above `req_after`, and none of the leases with these properties comes before it in take-back
  -- order. There is no pick only when no lease has them.
  pub tb_pick_lease_for-IsBestAbove : IsBestAbove (tb_pick_lease_for F o req_after)
  unfolding tb_pick_lease_for
  tb_pick_lease_for-IsBestAbove =
      first-IsBestAbove (first_that passes candidates) refl candidates-IsFirst
