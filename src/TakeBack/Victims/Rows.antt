-- ===== src/TakeBack/Victims/Rows.antt =====
-- One round of memVictims: what the chosen lease is, and what giving it up does to its owner's row.
use mathlib.Core.List.{append-nil, append_assoc}
use spoond.Base.{
  get_elem?-append_left, get_elem?-append_length, ℕ, suc, ◌≡◌, refl, true, false, Option, none,
  some, List, [], ◌∷◌, ◌++◌, arith, Bool-cases, clash, some≢none, length, length-append, get_elem?,
  All, All-append, All-mono, ◌⊎◌, inl, inr, subst,
}
use spoond.Base.Text.{Text, text_eq, text_eq→eq}
use spoond.Base.Int.{ℤ, pos, ◌+ℤ◌, ◌-ℤ◌, ◌≤ℤ◌, leb_ℤ, leb_ℤ→le}
use spoond.Base.Float.{Float64}
use spoond.TakeBack.{
  TakeBackLease, TakeBackOwner, skipped, tb_pick_lease, tb_ratio, stays_above, tb_pick_lease_for,
}
use spoond.TakeBack.Pick.{IsBest, tb_pick_lease-IsBest, IsBestAbove, tb_pick_lease_for-IsBestAbove}
use spoond.TakeBack.Victims.{Choice, fall_through, candidate, better, best_from}

abbrev pub total : List TakeBackLease → ℤ
total [] = pos 0
total (l ∷ ls) = l.memory_mib +ℤ total ls

module _ (F : Float64) (requester : Text) (req_after : F.Value) where
  open F use {Value, gtb, gtb_irrefl, gtb_trans, gtb_cotrans}

  -- No lease of the owner may go: it is the requester, has no slice or does not exceed it, or each of
  -- its leases is pinned, drained, or would leave it at or below the requester's ratio.
  abbrev pub KeepsAll : TakeBackOwner → Type 0
  KeepsAll o =
      (o.owner ≡ requester)
      ⊎ (o.slice_mib ≤ℤ pos 0)
      ⊎ (o.used_mib ≤ℤ o.slice_mib)
      ⊎ All
          (λ l.
            (l.pinned ≡ true)
            ⊎ (l.drained ≡ true)
            ⊎ (gtb (tb_ratio F (o.used_mib -ℤ l.memory_mib) o.slice_mib) req_after ≡ false))
          o.leases

  -- What makes a lease of `o` at place `j` a legal victim.
  pub record IsFair (o : TakeBackOwner) (j : ℕ) (l : TakeBackLease) : Type 0 where
    pub at : get_elem? o.leases j ≡ some l
    pub free : skipped l ≡ false
    pub other : text_eq o.owner requester ≡ false
    pub sliced : leb_ℤ o.slice_mib (pos 0) ≡ false
    pub over : leb_ℤ o.used_mib o.slice_mib ≡ false
    pub stays : stays_above F o req_after l ≡ true

  abbrev IsFairPick : TakeBackOwner → Option (ℕ × TakeBackLease) → Type 0
  IsFairPick o none = Unit
  IsFairPick o (some (j, l)) = IsFair o j l

  fall_through-IsFairPick :
      (o : TakeBackOwner) (r : Option (ℕ × TakeBackLease))
      → text_eq o.owner requester ≡ false
      → leb_ℤ o.slice_mib (pos 0) ≡ false
      → leb_ℤ o.used_mib o.slice_mib ≡ false
      → IsBest o.leases r
      → IsFairPick o (fall_through F o req_after r)
  fall_through-IsFairPick o none a b c h = tt
  fall_through-IsFairPick o (some (j, l)) a b c h =
      elim (Bool-cases (stays_above F o req_after l)) [
        | inl e ↦ rw e (record { at = h.0; free = h.1; other = a; sliced = b; over = c; stays = e })
        | inr e ↦
            rw e (
              again (tb_pick_lease_for F o req_after) (tb_pick_lease_for-IsBestAbove F o req_after))
      ]
    where
      again : (r : Option (ℕ × TakeBackLease)) → IsBestAbove F o req_after r → IsFairPick o r
      again none k = tt
      again (some (i, m)) k = record {
        at = k.0;
        free = k.1;
        other = a;
        sliced = b;
        over = c;
        stays = k.2;
      }

  pub candidate-IsFairPick : (o : TakeBackOwner) → IsFairPick o (candidate F requester req_after o)
  unfolding candidate
  candidate-IsFairPick o = elim (Bool-cases (text_eq o.owner requester)) [
    | inl a ↦ rw a tt
    | inr a ↦ elim (Bool-cases (leb_ℤ o.slice_mib (pos 0))) [
      | inl b ↦ rw (a, b) tt
      | inr b ↦ elim (Bool-cases (leb_ℤ o.used_mib o.slice_mib)) [
        | inl c ↦ rw (a, b, c) tt
        | inr c ↦
            rw (a, b, c)
              (fall_through-IsFairPick o (tb_pick_lease o.leases) a b c
                (tb_pick_lease-IsBest o.leases))
      ]
    ]
  ]

  skipped_or :
      (o : TakeBackOwner) (l : TakeBackLease)
      → (skipped l ≡ false → stays_above F o req_after l ≡ false)
      → (l.pinned ≡ true)
        ⊎ (l.drained ≡ true)
        ⊎ (gtb (tb_ratio F (o.used_mib -ℤ l.memory_mib) o.slice_mib) req_after ≡ false)
  unfolding stays_above
  skipped_or o l h = elim (Bool-cases l.pinned) [
    | inl e ↦ inl e
    | inr e ↦ elim (Bool-cases l.drained) [
      | inl f ↦ inr (inl f)
      | inr f ↦ inr (inr (h (rw (e, f) refl)))
    ]
  ]

  unfair-KeepsAll :
      (o : TakeBackOwner) (r : Option (ℕ × TakeBackLease))
      → IsBest o.leases r
      → fall_through F o req_after r ≡ none
      → KeepsAll o
  unfair-KeepsAll o none b h = inr (
      inr (
        inr (
          All-mono (λ l. skipped l ≡ true) _ o.leases
            (λ l e. skipped_or o l (λ n. absurd (clash e n))) b)))
  unfair-KeepsAll o (some (j, l)) b h = elim (Bool-cases (stays_above F o req_after l)) [
    | inl e ↦
        let k : ◌≡◌ {A = Option (ℕ × TakeBackLease)} (some (j, l)) none = rw e at h in
        absurd (some≢none refl k)
    | inr e ↦
        let k : tb_pick_lease_for F o req_after ≡ none = rw e at h in
        let all =
          subst (IsBestAbove F o req_after) k (tb_pick_lease_for-IsBestAbove F o req_after) in
        inr (inr (inr (All-mono _ _ o.leases (λ l m. skipped_or o l m) all)))
  ]

  pub candidate-KeepsAll :
      (o : TakeBackOwner) → candidate F requester req_after o ≡ none → KeepsAll o
  unfolding candidate
  candidate-KeepsAll o h = elim (Bool-cases (text_eq o.owner requester)) [
    | inl a ↦ inl (text_eq→eq o.owner requester a)
    | inr a ↦ elim (Bool-cases (leb_ℤ o.slice_mib (pos 0))) [
      | inl b ↦ inr (inl (leb_ℤ→le o.slice_mib (pos 0) b))
      | inr b ↦ elim (Bool-cases (leb_ℤ o.used_mib o.slice_mib)) [
        | inl c ↦ inr (inr (inl (leb_ℤ→le o.used_mib o.slice_mib c)))
        | inr c ↦
            let k : fall_through F o req_after (tb_pick_lease o.leases) ≡ none =
              rw (a, b, c) at h in
            unfair-KeepsAll o (tb_pick_lease o.leases) (tb_pick_lease-IsBest o.leases) k
      ]
    ]
  ]

  -- The ratio of every owner with a candidate is at most `r`.
  abbrev pub Highest : Value → List TakeBackOwner → Type 0
  Highest r = All (λ o.
      (j : ℕ) (l : TakeBackLease)
      → candidate F requester req_after o ≡ some (j, l)
      → gtb (tb_ratio F o.used_mib o.slice_mib) r ≡ false)

  pub record IsChoice (os : List TakeBackOwner) (c : Choice Value) : Type 0 where
    pub owner_at : get_elem? os c.owner_index ≡ some c.owner
    pub fair : IsFair c.owner c.lease_index c.lease
    pub ratio_of : c.ratio ≡ tb_ratio F c.owner.used_mib c.owner.slice_mib
    pub highest : Highest c.ratio os

  -- What a round has found: the choice, or that no owner has a candidate.
  abbrev pub Found : List TakeBackOwner → Option (Choice Value) → Type 0
  Found os none = All (λ o. candidate F requester req_after o ≡ none) os
  Found os (some c) = IsChoice os c

  Highest-none :
      (r : Value) (o : TakeBackOwner)
      → candidate F requester req_after o ≡ none
      → Highest r (o ∷ [])
  Highest-none r o e = ((λ j l k. absurd (some≢none k e)), tt)

  abbrev choice_at : ℕ → TakeBackOwner → ℕ → TakeBackLease → Choice Value
  choice_at n o j l = record {
    owner_index = n;
    owner = o;
    lease_index = j;
    lease = l;
    ratio = tb_ratio F o.used_mib o.slice_mib;
  }

  better-Found :
      (xs : List TakeBackOwner) (o : TakeBackOwner) (r : Option (ℕ × TakeBackLease))
      (best : Option (Choice Value))
      → candidate F requester req_after o ≡ r
      → IsFairPick o r
      → Found xs best
      → Found (xs ++ o ∷ []) (better F (length xs) o r best)
  better-Found xs o none none e f h =
      All-append (λ o. candidate F requester req_after o ≡ none) xs (o ∷ []) h (e, tt)
  better-Found xs o none (some c) e f h = record {
    owner_at = get_elem?-append_left xs (o ∷ []) c.owner_index c.owner h.owner_at;
    fair = h.fair;
    ratio_of = h.ratio_of;
    highest = All-append _ xs (o ∷ []) h.highest (Highest-none c.ratio o e);
  }
  better-Found xs o (some (j, l)) none e f h = record {
    owner_at = get_elem?-append_length xs [] o;
    fair = f;
    ratio_of = refl;
    highest =
        All-append _ xs (o ∷ [])
          (All-mono (λ o. candidate F requester req_after o ≡ none) _ xs
            (λ x n i m k. absurd (some≢none k n)) h)
          ((λ _ _ _. gtb_irrefl (tb_ratio F o.used_mib o.slice_mib)), tt);
  }
  better-Found xs o (some (j, l)) (some c) e f h =
      let r = tb_ratio F o.used_mib o.slice_mib in
      elim (Bool-cases (gtb r c.ratio)) [
        | inl g ↦
            rw g
              let k : IsChoice (xs ++ o ∷ []) (choice_at (length xs) o j l) = record {
                owner_at = get_elem?-append_length xs [] o;
                fair = f;
                ratio_of = refl;
                highest =
                    All-append _ xs (o ∷ [])
                      (All-mono _ _ xs (λ x n i m k. gtb_cotrans _ c.ratio r (n i m k) (gtb_asym g))
                        h.highest)
                      ((λ _ _ _. gtb_irrefl r), tt);
              } in
                k
        | inr g ↦
            rw g
              let k : IsChoice (xs ++ o ∷ []) c = record {
                owner_at = get_elem?-append_left xs (o ∷ []) c.owner_index c.owner h.owner_at;
                fair = h.fair;
                ratio_of = h.ratio_of;
                highest = All-append _ xs (o ∷ []) h.highest ((λ _ _ _. g), tt);
              } in
                k
      ]
    where
      gtb_asym : {a b : Value} → gtb a b ≡ true → gtb b a ≡ false
      gtb_asym {a} {b} g = elim (Bool-cases (gtb b a)) [
        | inl k ↦ absurd (clash (gtb_trans a b a g k) (gtb_irrefl a))
        | inr k ↦ k
      ]

  best_from-Found :
      (n : ℕ) (xs os : List TakeBackOwner) (best : Option (Choice Value))
      → n ≡ length xs
      → Found xs best
      → Found (xs ++ os) (best_from F requester req_after n os best)
  unfolding best_from
  best_from-Found n xs [] best e h = rw (append-nil xs) h
  best_from-Found n xs (o ∷ os) best e h = rw (← append_assoc xs (o ∷ []) os) (
      best_from-Found (suc n) (xs ++ o ∷ []) os
        (better F n o (candidate F requester req_after o) best)
        (omega (arith, length-append xs (o ∷ [])))
        (rw e (
          better-Found xs o (candidate F requester req_after o) best refl (candidate-IsFairPick o)
            h)))

  -- One round finds a legal victim of the owner with the highest ratio among those that have one,
  -- and finds none only if no owner has one.
  pub round-Found : (os : List TakeBackOwner) → Found os (best_from F requester req_after 0 os none)
  round-Found os = best_from-Found 0 [] os none refl tt
