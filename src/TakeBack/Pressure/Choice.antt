-- ===== src/TakeBack/Pressure/Choice.antt =====
-- One owner and one pass of pressureVictim.
use spoond.Base.{
  ℕ, ◌≡◌, refl, Bool, true, false, not, ◌&&◌, Option, none, some, List, [], ◌∷◌, map, arith,
  if◌then◌else◌, keep, keep-All_test, All-keep, get_elem?, All, All-mono, Any, Any-mono, Any-keep,
  Any-and, Any-get, inl, inr,
}
use spoond.Base.Int.{leb_ℤ}
use spoond.Base.Float.{Float64}
use spoond.TakeBack.{TakeBackLease, TakeBackOwner, TakeBackVictim, skipped, tb_pick_lease, tb_ratio}
use spoond.TakeBack.Pick.{IsBest, tb_pick_lease-IsBest}
use spoond.TakeBack.Pressure.{
  is_no_slice, unpin, idle_leases, victim_from, from_owner, or_else, run_pass,
}

-- A lease that the pass with this flag may take.
abbrev pub is_open : Bool → TakeBackLease → Bool
is_open pinned l = not l.busy && not l.drained && (if pinned then l.pinned else not l.pinned)

abbrev pub Names : {R : Type 0} → TakeBackVictim R → TakeBackLease → Type 0
Names v l = (v.lease_id ≡ l.id) × (v.memory_mib ≡ l.memory_mib)

Any-map {ℓ} :
    {A : Type ℓ} (P : A → Type 0) (f : A → A) (xs : List A)
    → Any P (map f xs)
    → Any (λ x. P (f x)) xs
Any-map P f [] h = h
Any-map P f (x ∷ xs) (inl a) = inl a
Any-map P f (x ∷ xs) (inr b) = inr (Any-map P f xs b)

All-map {ℓ} :
    {A : Type ℓ} (P : A → Type 0) (f : A → A) (xs : List A)
    → All P (map f xs)
    → All (λ x. P (f x)) xs
All-map P f [] h = tt
All-map P f (x ∷ xs) h = (h.0, All-map P f xs h.1)

-- A lease that the pass may pick is one of the owner's that the pass may take.
idle_leases-Any :
    (pinned : Bool) (ls : List TakeBackLease) (i : ℕ) (b : TakeBackLease)
    → get_elem? (idle_leases pinned ls) i ≡ some b
    → skipped b ≡ false
    → Any (λ l. (b.id ≡ l.id) × (b.memory_mib ≡ l.memory_mib) × (is_open pinned l ≡ true)) ls
unfolding idle_leases
idle_leases-Any false ls i b e s =
    Any-keep _ (λ l. not l.busy) ls
      (Any-mono _ _ (keep (λ l. not l.busy) ls) (λ l h. (h.1.0, h.1.1, open_of l h.0 h.1.2))
        (Any-and _ _ (keep (λ l. not l.busy) ls) (keep-All_test (λ l. not l.busy) ls) (
          Any-get (λ l. (b.id ≡ l.id) × (b.memory_mib ≡ l.memory_mib) × (skipped l ≡ false))
            (keep (λ l. not l.busy) ls) i b (refl, refl, s) e)))
  where
    open_of : (l : TakeBackLease) → not l.busy ≡ true → skipped l ≡ false → is_open false l ≡ true
    open_of l p q = ground arith
idle_leases-Any true ls i b e s =
    let idle = keep (λ (l : TakeBackLease). not l.busy && l.pinned) ls in
    Any-keep _ (λ l. not l.busy && l.pinned) ls
      (Any-mono _ _ idle (λ l h. (h.1.0, h.1.1, open_of l h.0 h.1.2))
        (Any-and _ _ idle (keep-All_test (λ l. not l.busy && l.pinned) ls) (
          Any-map _ unpin idle (
            Any-get (λ l. (b.id ≡ l.id) × (b.memory_mib ≡ l.memory_mib) × (skipped l ≡ false))
              (map unpin idle) i b (refl, refl, s) e))))
  where
    open_of :
        (l : TakeBackLease)
        → not l.busy && l.pinned ≡ true
        → skipped (unpin l) ≡ false
        → is_open true l ≡ true
    open_of l p q = ground arith

idle_leases-All :
    (pinned : Bool) (ls : List TakeBackLease)
    → All (λ l. skipped l ≡ true) (idle_leases pinned ls)
    → All (λ l. is_open pinned l ≡ false) ls
unfolding idle_leases
idle_leases-All false ls h =
    All-mono _ _ ls shut_of (All-keep (λ l. skipped l ≡ true) (λ l. not l.busy) ls h)
  where
    shut_of : (l : TakeBackLease) → (not l.busy ≡ true → skipped l ≡ true) → is_open false l ≡ false
    shut_of l f = ground arith
idle_leases-All true ls h = All-mono _ _ ls shut_of (
    All-keep (λ l. skipped (unpin l) ≡ true) (λ l. not l.busy && l.pinned) ls
      (All-map (λ l. skipped l ≡ true) unpin (keep (λ l. not l.busy && l.pinned) ls) h))
  where
    shut_of :
        (l : TakeBackLease)
        → (not l.busy && l.pinned ≡ true → skipped (unpin l) ≡ true)
        → is_open true l ≡ false
    shut_of l f = ground arith

module _ (F : Float64) where
  open F use {Value, gtb}

  -- The victim of one owner in a pass: one of its open leases, with the owner's flags and ratio.
  pub record IsTakenFrom (pinned : Bool) (o : TakeBackOwner) (v : TakeBackVictim Value)
      : Type 0 where
    pub owner_of : v.owner ≡ o.owner
    pub flag : v.pinned ≡ pinned
    pub ratio_of : v.ratio ≡ tb_ratio F o.used_mib o.slice_mib
    pub no_slice_of : v.no_slice ≡ is_no_slice o
    pub inside_of : v.inside_slice ≡ (not (is_no_slice o) && leb_ℤ o.used_mib o.slice_mib)
    pub lease_of :
        Any
          (λ l. (v.lease_id ≡ l.id) × (v.memory_mib ≡ l.memory_mib) × (is_open pinned l ≡ true))
          o.leases

  abbrev pub Taken : Bool → TakeBackOwner → Option (TakeBackVictim Value) → Type 0
  Taken pinned o none = All (λ l. is_open pinned l ≡ false) o.leases
  Taken pinned o (some v) = IsTakenFrom pinned o v

  victim_from-Taken :
      (pinned : Bool) (o : TakeBackOwner) (r : Option (ℕ × TakeBackLease))
      → IsBest (idle_leases pinned o.leases) r
      → Taken pinned o (victim_from F pinned o r)
  victim_from-Taken pinned o none h = idle_leases-All pinned o.leases h
  victim_from-Taken pinned o (some (i, b)) h = record {
    owner_of = refl;
    flag = refl;
    ratio_of = refl;
    no_slice_of = refl;
    inside_of = refl;
    lease_of = idle_leases-Any pinned o.leases i b h.0 h.1;
  }

  pub from_owner-Taken :
      (pinned : Bool) (o : TakeBackOwner) → Taken pinned o (from_owner F pinned o)
  from_owner-Taken pinned o =
      victim_from-Taken pinned o (tb_pick_lease (idle_leases pinned o.leases))
        (tb_pick_lease-IsBest (idle_leases pinned o.leases))

  -- What a pass over `os` finds: a lease of an owner, or that no owner has an open one.
  abbrev pub Passed : Bool → List TakeBackOwner → Option (TakeBackVictim Value) → Type 0
  Passed pinned os none = All (λ o. All (λ l. is_open pinned l ≡ false) o.leases) os
  Passed pinned os (some v) = Any (λ o. IsTakenFrom pinned o v) os

  pub run_pass-Passed :
      (pinned : Bool) (os : List TakeBackOwner) → Passed pinned os (run_pass F pinned os)
  unfolding run_pass
  run_pass-Passed pinned [] = tt
  run_pass-Passed pinned (o ∷ os) =
      first (from_owner F pinned o) (run_pass F pinned os) (from_owner-Taken pinned o)
        (run_pass-Passed pinned os)
    where
      first :
          (r s : Option (TakeBackVictim Value))
          → Taken pinned o r
          → Passed pinned os s
          → Passed pinned (o ∷ os) (or_else F r s)
      first none none h k = (h, k)
      first none (some v) h k = inr k
      first (some v) s h k = inl h
