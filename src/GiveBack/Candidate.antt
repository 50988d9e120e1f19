-- ===== src/GiveBack/Candidate.antt =====
-- Which lease a give-back resumes, api/give_back.go.
use spoond.Base.{
  ℕ, ◌≡◌, ◌≤◌, ◌<◌, refl, true, false, Option, none, some, List, [], ◌∷◌, arith, All, Any,
  Bool-cases, inl, inr, ◌⊎◌, clash, All-mono, Any-mono, some≢none, ltb,
}
use spoond.Base.Text.{Text, text_ltb, text_ltb_irrefl, text_ltb_trans, text_ltb_tri}
use spoond.GiveBack.{
  GiveBackLease, is_skipped, may_return, waits_longer, candidate_from, give_back_candidate,
}

waits_longer_irrefl : (l : GiveBackLease) → waits_longer l l ≡ false
waits_longer_irrefl l = let r = text_ltb_irrefl l.id in ground arith

waits_longer_asym : (l p : GiveBackLease) → waits_longer l p ≡ true → waits_longer p l ≡ false
waits_longer_asym l p h =
    let r = text_ltb_irrefl l.id in let t = text_ltb_trans l.id p.id l.id in ground arith

text_ltb_cotrans :
    (s t u : Text) → text_ltb s t ≡ false → text_ltb t u ≡ false → text_ltb s u ≡ false
text_ltb_cotrans s t u h k = elim (Bool-cases (text_ltb s u)) [
  | inr e ↦ e
  | inl e ↦ elim (Bool-cases (text_ltb t s)) [
    | inl d ↦ cc (text_ltb_trans t s u d e)
    | inr d ↦ cc (text_ltb_tri s t h d)
  ]
]

waits_longer_cotrans :
    (x y z : GiveBackLease)
    → waits_longer x y ≡ false
    → waits_longer y z ≡ false
    → waits_longer x z ≡ false
waits_longer_cotrans x y z h k = let r = text_ltb_cotrans x.id y.id z.id in ground arith

-- A lease that may come back: it was taken back and still is, nothing holds it, and neither the
-- back-off after a failed resume nor its hold lasts on.
pub record MayReturn (now : ℕ) (skip : Text → Option ℕ) (l : GiveBackLease) : Type 0 where
  pub not_released : l.released ≡ false
  pub suspended : l.suspended ≡ true
  pub taken_back : l.taken_back ≡ true
  pub not_busy : l.busy ≡ false
  pub not_drained : l.drained ≡ false
  pub retry_over : (until : ℕ) → skip l.id ≡ some until → until ≤ now
  pub hold_over : l.give_back_hold_until ≤ now

-- `r` was suspended before `l`, or at the same time and `l` has no smaller id.
abbrev pub Waited : GiveBackLease → GiveBackLease → Type 0
Waited r l =
    (r.suspended_at < l.suspended_at)
    ⊎ ((r.suspended_at ≡ l.suspended_at) × (text_ltb l.id r.id ≡ false))

not_skipped :
    (now : ℕ) (o : Option ℕ) → is_skipped now o ≡ false → (until : ℕ) → o ≡ some until → until ≤ now
not_skipped now none h until e = absurd (some≢none e refl)
not_skipped now (some u) h until e =
    let k : u ≡ until = cc in let j : u ≤ now = ground arith in ground arith

skip_over :
    (now : ℕ) (o : Option ℕ)
    → ((until : ℕ) → o ≡ some until → until ≤ now)
    → is_skipped now o ≡ false
skip_over now none h = refl
skip_over now (some u) h = let k = h u refl in ground arith

waits_longer-Waited : (l r : GiveBackLease) → waits_longer l r ≡ false → Waited r l
waits_longer-Waited l r h = elim (Bool-cases (ltb r.suspended_at l.suspended_at)) [
  | inl e ↦ inl (ground arith)
  | inr e ↦ inr (ground arith, ground arith)
]

module _ (now : ℕ) (skip : Text → Option ℕ) where
  may_return-MayReturn : (l : GiveBackLease) → may_return now skip l ≡ true → MayReturn now skip l
  unfolding may_return
  may_return-MayReturn l h = record {
    not_released = ground arith;
    suspended = ground arith;
    taken_back = ground arith;
    not_busy = ground arith;
    not_drained = ground arith;
    retry_over = not_skipped now (skip l.id) (ground arith);
    hold_over = ground arith;
  }

  MayReturn-may_return : (l : GiveBackLease) → MayReturn now skip l → may_return now skip l ≡ true
  unfolding may_return
  MayReturn-may_return l m =
      let k = skip_over now (skip l.id) m.retry_over in
      ground
        (arith, m.not_released, m.suspended, m.taken_back, m.not_busy, m.not_drained, m.hold_over)

  -- `r` comes from `ls`, and nothing that may return of `ls` waits longer.
  abbrev pub IsLongest : List GiveBackLease → Option GiveBackLease → Type 0
  IsLongest ls none = All (λ l. MayReturn now skip l → ⊥) ls
  IsLongest ls (some r) =
      Any (λ l. (l ≡ r) × MayReturn now skip l) ls × All (λ l. MayReturn now skip l → Waited r l) ls

  -- The same in the tests of the loop.
  abbrev Tested : List GiveBackLease → Option GiveBackLease → Type 0
  Tested ls none = All (λ l. may_return now skip l ≡ false) ls
  Tested ls (some r) =
      Any (λ l. (l ≡ r) × (may_return now skip l ≡ true)) ls
      × All (λ l. may_return now skip l ≡ true → waits_longer l r ≡ false) ls

  Tested-IsLongest :
      (ls : List GiveBackLease) (o : Option GiveBackLease) → Tested ls o → IsLongest ls o
  Tested-IsLongest ls none h = All-mono _ _ ls (λ l f m. clash (MayReturn-may_return l m) f) h
  Tested-IsLongest ls (some r) (a, b) = (
    Any-mono _ _ ls (λ l x. (x.0, may_return-MayReturn l x.1)) a,
    All-mono _ _ ls (λ l f m. waits_longer-Waited l r (f (MayReturn-may_return l m))) b,
  )

module _ (now : ℕ) (skip : Text → Option ℕ) where
  -- The loop with `p` as the pick so far.
  abbrev Kept : GiveBackLease → List GiveBackLease → Option GiveBackLease → Type 0
  Kept p ls none = ⊥
  Kept p ls (some r) =
      ((p ≡ r) ⊎ Any (λ l. (l ≡ r) × (may_return now skip l ≡ true)) ls)
      × (waits_longer p r ≡ false)
      × All (λ l. may_return now skip l ≡ true → waits_longer l r ≡ false) ls

  candidate_from-Kept :
      (ls : List GiveBackLease) (p : GiveBackLease)
      → Kept p ls (candidate_from now skip ls (some p))
  unfolding candidate_from
  candidate_from-Kept [] p = (inl refl, waits_longer_irrefl p, tt)
  candidate_from-Kept (l ∷ ls) p = elim (Bool-cases (may_return now skip l)) [
    | inr e ↦ rw e (skips (candidate_from now skip ls (some p)) e (candidate_from-Kept ls p))
    | inl e ↦ elim (Bool-cases (waits_longer l p)) [
      | inl w ↦
          rw (e, w) (takes (candidate_from now skip ls (some l)) e w (candidate_from-Kept ls l))
      | inr w ↦
          rw (e, w) (stays (candidate_from now skip ls (some p)) e w (candidate_from-Kept ls p))
    ]
  ]
    where
      skips :
          (r : Option GiveBackLease)
          → may_return now skip l ≡ false
          → Kept p ls r
          → Kept p (l ∷ ls) r
      skips none e h = h
      skips (some r) e (f, w, all) =
          (elim f [ inl x ↦ inl x | inr x ↦ inr (inr x) ], w, (λ t. absurd (clash t e), all))

      takes :
          (r : Option GiveBackLease)
          → may_return now skip l ≡ true
          → waits_longer l p ≡ true
          → Kept l ls r
          → Kept p (l ∷ ls) r
      takes none e v h = h
      takes (some r) e v (f, w, all) = (
        elim f [ inl x ↦ inr (inl (x, e)) | inr x ↦ inr (inr x) ],
        waits_longer_cotrans p l r (waits_longer_asym l p v) w,
        (λ t. w, all),
      )

      stays :
          (r : Option GiveBackLease)
          → may_return now skip l ≡ true
          → waits_longer l p ≡ false
          → Kept p ls r
          → Kept p (l ∷ ls) r
      stays none e v h = h
      stays (some r) e v (f, w, all) = (
        elim f [ inl x ↦ inl x | inr x ↦ inr (inr x) ],
        w,
        (λ t. waits_longer_cotrans l p r v w, all),
      )

  give_back_candidate-Tested :
      (ls : List GiveBackLease) → Tested now skip ls (give_back_candidate now skip ls)
  unfolding give_back_candidate
  give_back_candidate-Tested [] = tt
  give_back_candidate-Tested (l ∷ ls) = elim (Bool-cases (may_return now skip l)) [
    | inr e ↦ rw e (skips (candidate_from now skip ls none) e (give_back_candidate-Tested ls))
    | inl e ↦ rw e (first (candidate_from now skip ls (some l)) e (candidate_from-Kept ls l))
  ]
    where
      skips :
          (r : Option GiveBackLease)
          → may_return now skip l ≡ false
          → Tested now skip ls r
          → Tested now skip (l ∷ ls) r
      skips none e h = (e, h)
      skips (some r) e (f, all) = (inr f, (λ t. absurd (clash t e), all))

      first :
          (r : Option GiveBackLease)
          → may_return now skip l ≡ true
          → Kept l ls r
          → Tested now skip (l ∷ ls) r
      first none e h = absurd h
      first (some r) e (f, w, all) = (elim f [ inl x ↦ inl (x, e) | inr x ↦ inr x ], (λ t. w, all))

  -- The candidate is a lease of the store that may return: taken back, not released, busy or drained,
  -- and past its hold and its back-off; and every other that may return was suspended later, or at the
  -- same time and without a smaller id, whatever the order of the store's map. There is no candidate
  -- only when no lease may return.
  pub give_back_candidate-IsLongest :
      (ls : List GiveBackLease) → IsLongest now skip ls (give_back_candidate now skip ls)
  give_back_candidate-IsLongest ls =
      Tested-IsLongest now skip ls (give_back_candidate now skip ls) (give_back_candidate-Tested ls)
