-- ===== src/Reclaim/Returns.antt =====
-- The take-back loop ends, api/admit_memory.go.
use spoond.Base.{
  ℕ, zero, suc, ◌+◌, ◌≤◌, ◌<◌, ◌≡◌, refl, Bool, true, false, Option, none, some, List, [], ◌∷◌, ltb,
  arith, Bool-cases, inl, inr,
}
use spoond.Base.Text.{Text}
use spoond.Base.Int.{ℤ, pos, leb_ℤ, leb_ℤ→gt}
use spoond.Base.Float.{Float64}
use spoond.TakeBack.{TakeBackVictim}
use spoond.TakeBack.Victims.Plans.{mem_victims_chosen}
use spoond.Admission.{NodeCache}
use spoond.Reclaim.{
  Box, Taken, Sweep, left, took, all_refused, Reclaimed, Rounds, fresh_free, shortfall_at, fits,
  fits_with, attempt, try_one, try_victims, after_sweep, with_victims, with_free, take_back_loop,
  judge_by, judge_free, judge_fit, take_back_for_admission,
}

-- `held` counts the leases that run or whose admission has passed. A pause that succeeds stops one,
-- and while an admission holds its lock none is added.
pub record IsCalm {F : Float64} (B : Box F) (held : B.State → ℕ) : Type 0 where
  pub observes : (s : B.State) → held (B.observe s).0 ≤ held s
  pub caches : (c : NodeCache) (s : B.State) → held (B.set_cache c s) ≤ held s
  pub refuses :
      (id owner : Text) (ratio : F.Value) (s : B.State) → held (B.pause id owner ratio s).1 ≤ held s
  pub pauses :
      (id owner : Text) (ratio : F.Value) (s : B.State)
      → (B.pause id owner ratio s).0 ≡ true
      → held (B.pause id owner ratio s).1 < held s

module _ (F : Float64) (B : Box F) (limit : Option (ℕ → ℤ)) (floor : ℤ) (owner : Text) (memory : ℤ)
    (held : B.State → ℕ) (calm : IsCalm B held) where
  open F use {Value}
  open B use {State, cache, set_cache, observe, running_mib, owners_for, knows, pause}

  fresh_free-held : (s : State) → held (fresh_free F B limit floor owner memory s).0 ≤ held s
  fresh_free-held s = omega (arith, calm.observes s, calm.caches _ (observe s).0)

  fits_with-state :
      (running : ℤ) (q : State × Option ℕ)
      → (fits_with F B limit floor owner memory running q).0 ≡ q.0
  fits_with-state running (s, none) = refl
  fits_with-state running (s, some free) = refl

  fits-held : (s : State) → held (fits F B limit floor owner memory s).0 ≤ held s
  unfolding fits
  fits-held s =
      rw (fits_with-state (running_mib s) (fresh_free F B limit floor owner memory s))
        (fresh_free-held s)

  -- After a pass that took a lease fewer are held than `h`, and after any other not more.
  abbrev Lowers : ℕ → Sweep F B limit floor owner memory → Type 0
  Lowers h (left s) = Unit
  Lowers h (took t s) = held s < h
  Lowers h (all_refused s) = held s ≤ h

  attempt-Lowers :
      (h : ℕ) (t : Taken F B limit floor owner memory)
      (rest : State → Sweep F B limit floor owner memory) (s : State)
      → held s ≤ h
      → ((s' : State) → held s' ≤ h → Lowers h (rest s'))
      → (r : Bool × State) → held r.1 ≤ held s
      → (r.0 ≡ true → held r.1 < held s)
      → Lowers h (attempt F B limit floor owner memory t rest r)
  attempt-Lowers h t rest s l ih (true, s') k y = let y' = y refl in omega arith
  attempt-Lowers h t rest s l ih (false, s') k y = ih s' (omega arith)

  try_one-Lowers :
      (h : ℕ) (t : Taken F B limit floor owner memory)
      (rest : State → Sweep F B limit floor owner memory)
      → ((s : State) → held s ≤ h → Lowers h (rest s))
      → (q : State × Option Bool) → held q.0 ≤ h
      → Lowers h (try_one F B limit floor owner memory t rest q)
  try_one-Lowers h t rest ih (s, none) l = tt
  try_one-Lowers h t rest ih (s, some true) l = tt
  try_one-Lowers h t rest ih (s, some false) l =
      let v = t.victim in
      elim (Bool-cases (knows s v.lease_id)) [
        | inr e ↦ rw e (ih s l)
        | inl e ↦ rw e (
            attempt-Lowers h t rest s l ih (pause v.lease_id owner v.ratio s)
              (calm.refuses v.lease_id owner v.ratio s) (calm.pauses v.lease_id owner v.ratio s))
      ]

  try_victims-Lowers :
      (plan : State) (short : ℤ) (vs : List (TakeBackVictim Value)) (h : ℕ) (s : State)
      → held s ≤ h
      → Lowers h (try_victims F B limit floor owner memory plan short vs s)
  unfolding try_victims
  try_victims-Lowers plan short [] h s l = l
  try_victims-Lowers plan short (v ∷ vs) h s l =
      try_one-Lowers h (record { plan = plan; shortfall = short; check = s; victim = v })
        (try_victims F B limit floor owner memory plan short vs)
        (try_victims-Lowers plan short vs h) (fits F B limit floor owner memory s)
        (let k = fits-held s in omega arith)

  -- A result, not the end of the fuel.
  abbrev pub Returns : Option (Reclaimed F B limit floor owner memory) → Type 0
  Returns o = (r : Reclaimed F B limit floor owner memory) × (o ≡ some r)

  -- What the rounds need, if `m` fuel is left to them.
  abbrev Suffices : ℕ → Rounds F B limit floor owner memory → Type 0
  Suffices m next =
      (refused : ℕ) (any : Bool) (taken : List (Taken F B limit floor owner memory)) (s : State)
      → held s + 3 < m + refused
      → 0 < m
      → Returns (next refused any taken s)

  module _ (m : ℕ) (next : Rounds F B limit floor owner memory) (ih : Suffices m next) (refused : ℕ)
      (any : Bool) (taken : List (Taken F B limit floor owner memory)) (few : refused < 3) (h : ℕ)
      (enough : h + 3 < suc m + refused) where
    after_sweep-Returns :
        (w : Sweep F B limit floor owner memory)
        → Lowers h w
        → Returns (after_sweep F B limit floor owner memory next refused any taken w)
    after_sweep-Returns (left s) l = (_, refl)
    after_sweep-Returns (took t s) l = ih refused true (t ∷ taken) s (omega arith) (omega arith)
    after_sweep-Returns (all_refused s) l = ih (suc refused) any taken s (omega arith) (omega arith)

    with_victims-Returns :
        (short : ℤ) (s : State) (vs : List (TakeBackVictim Value))
        → held s ≤ h
        → Returns
            (with_victims F B limit floor owner memory next refused any taken short s (some vs))
    with_victims-Returns short s [] l = elim (Bool-cases any) [
      | inl e ↦ rw e (_, refl)
      | inr e ↦ rw e (_, refl)
    ]
    with_victims-Returns short s (v ∷ vs) l =
        after_sweep-Returns _ (try_victims-Lowers s short (v ∷ vs) h s l)

    with_free-Returns :
        (q : State × Option ℕ)
        → held q.0 ≤ h
        → Returns (with_free F B limit floor owner memory next refused any taken q)
    with_free-Returns (s, none) l = (_, refl)
    with_free-Returns (s, some free) l =
        let short = shortfall_at F B limit floor owner memory s free in
        elim (Bool-cases (leb_ℤ short (pos 0))) [
          | inl e ↦ rw e (_, refl)
          | inr e ↦
              let (vs, chosen, why) =
                mem_victims_chosen F (owners_for s owner memory) owner short memory
                  (leb_ℤ→gt short (pos 0) e) in
              rw (e, chosen) (with_victims-Returns short s vs l)
        ]

  take_back_loop-Suffices : (m : ℕ) → Suffices m (take_back_loop F B limit floor owner memory m)
  unfolding take_back_loop
  take_back_loop-Suffices zero refused any taken s e p = elim p [ ]
  take_back_loop-Suffices (suc m) refused any taken s e p = elim (Bool-cases (ltb refused 3)) [
    | inr f ↦ rw f (_, refl)
    | inl f ↦ rw f (
        with_free-Returns m (take_back_loop F B limit floor owner memory m)
          (take_back_loop-Suffices m) refused any taken (ground arith) (held s) e
          (fresh_free F B limit floor owner memory s) (fresh_free-held s))
  ]

  module _ (fuel : ℕ) where
    judge_by-Returns :
        (a b : Bool) (s : State)
        → held s + 3 < fuel
        → Returns (judge_by F B limit floor owner memory fuel a b s)
    judge_by-Returns true b s e =
        take_back_loop-Suffices fuel 0 false [] s (omega arith) (omega arith)
    judge_by-Returns false true s e = (_, refl)
    judge_by-Returns false false s e = (_, refl)

    judge_free-Returns :
        (q : State × Option ℕ)
        → held q.0 + 3 < fuel
        → Returns (judge_free F B limit floor owner memory fuel q)
    judge_free-Returns (s, none) e = (_, refl)
    judge_free-Returns (s, some free) e = judge_by-Returns _ _ s e

    judge_fit-Returns :
        (q : State × Option Bool)
        → held q.0 + 3 < fuel
        → Returns (judge_fit F B limit floor owner memory fuel q)
    judge_fit-Returns (s, none) e = (_, refl)
    judge_fit-Returns (s, some true) e = (_, refl)
    judge_fit-Returns (s, some false) e =
        judge_free-Returns _ (let k = fresh_free-held s in omega arith)

  -- takeBackForAdmission ends with a reply: four rounds more than there are leases held are enough,
  -- if a pause that succeeds leaves fewer leases held and nothing that the loop calls leaves more.
  pub take_back_for_admission-Returns :
      (is_give_back : Bool) (s : State)
      → Returns (take_back_for_admission F B limit floor owner memory (held s + 4) is_give_back s)
  unfolding take_back_for_admission
  take_back_for_admission-Returns true s = (_, refl)
  take_back_for_admission-Returns false s =
      judge_fit-Returns (held s + 4) _ (let k = fits-held s in omega arith)
