-- ===== src/Reclaim/Fair.antt =====
-- Whom the take-back loop pauses, and when, api/admit_memory.go.
use spoond.Base.{
  ℕ, zero, suc, ◌≡◌, refl, sym, subst, ap, Bool, true, false, Option, none, some, List, [], ◌∷◌,
  ltb, Bool-cases, inl, inr, ◌⊎◌, All, Any, clash, sort_stable,
}
use spoond.Base.Text.{Text}
use spoond.Base.Int.{ℤ, pos, ◌<ℤ◌, leb_ℤ, leb_ℤ→gt}
use spoond.Base.Float.{Float64}
use spoond.TakeBack.{TakeBackVictim}
use spoond.TakeBack.Victims.{by_owner}
use spoond.TakeBack.Victims.Plans.{IsVictimOf, IsMet, IsUnmet, req_after, mem_victims_chosen}
use spoond.BoxFull.{MemBoxFullError, biggest_borrower_refusal}
use spoond.Reclaim.{
  Box, Reply, clear, box_full, biggest, Taken, Sweep, left, took, all_refused, Reclaimed, Rounds,
  fresh_free, shortfall_at, fits, attempt, try_one, try_victims, after_sweep, with_victims,
  with_free, take_back_loop, judge_by, judge_free, judge_fit, take_back_for_admission, go_on,
  refuse, refusal,
}

module _ (F : Float64) (B : Box F) (limit : Option (ℕ → ℤ)) (floor : ℤ) (owner : Text)
    (memory : ℤ) where
  open F use {Value}
  open B use {State, owners_for, knows, pause}

  -- The victim is a lease of another owner in the view of the state `plan`, neither pinned nor drained.
  abbrev pub IsLegal : State → ℤ → TakeBackVictim Value → Type 0
  IsLegal plan short v =
      let owners = owners_for plan owner memory in
      Any (λ o. IsVictimOf F owner (req_after F owners owner short memory) o v)
        (sort_stable by_owner owners)

  -- A pause is made while memory is short and the request does not fit, of a lease that may go.
  pub record IsFairTake (t : Taken F B limit floor owner memory) : Type 0 where
    pub short : pos 0 <ℤ t.shortfall
    pub legal : IsLegal t.plan t.shortfall t.victim
    pub does_not_fit : (fits F B limit floor owner memory t.check).1 ≡ some false

  -- A refused request has paused nobody; the biggest borrower is judged by the last view.
  abbrev pub Spares : State → List (Taken F B limit floor owner memory) → Reply → Type 0
  Spares s taken clear = Unit
  Spares s taken box_full = taken ≡ []
  Spares s taken (biggest e) =
      (taken ≡ []) × (biggest_borrower_refusal F (owners_for s owner memory) owner memory ≡ some e)

  pub record IsFair (r : Reclaimed F B limit floor owner memory) : Type 0 where
    pub takes : All IsFairTake r.taken
    pub spares : Spares r.state r.taken r.reply

module _ (F : Float64) (B : Box F) (limit : Option (ℕ → ℤ)) (floor : ℤ) (owner : Text)
    (memory : ℤ) where
  open F use {Value}
  open B use {State, owners_for, knows, pause}

  abbrev SweepFair : Sweep F B limit floor owner memory → Type 0
  SweepFair (left s) = Unit
  SweepFair (took t s) = IsFairTake F B limit floor owner memory t
  SweepFair (all_refused s) = Unit

  attempt-SweepFair :
      (t : Taken F B limit floor owner memory) (rest : State → Sweep F B limit floor owner memory)
      → IsFairTake F B limit floor owner memory t
      → ((s : State) → SweepFair (rest s))
      → (r : Bool × State) → SweepFair (attempt F B limit floor owner memory t rest r)
  attempt-SweepFair t rest f ih (true, s) = f
  attempt-SweepFair t rest f ih (false, s) = ih s

  try_one-SweepFair :
      (t : Taken F B limit floor owner memory) (rest : State → Sweep F B limit floor owner memory)
      → pos 0 <ℤ t.shortfall
      → IsLegal F B limit floor owner memory t.plan t.shortfall t.victim
      → ((s : State) → SweepFair (rest s))
      → (q : State × Option Bool) → fits F B limit floor owner memory t.check ≡ q
      → SweepFair (try_one F B limit floor owner memory t rest q)
  try_one-SweepFair t rest short legal ih (s, none) e = tt
  try_one-SweepFair t rest short legal ih (s, some true) e = tt
  try_one-SweepFair t rest short legal ih (s, some false) e =
      let v = t.victim in
      let f : IsFairTake F B limit floor owner memory t = record {
        short = short;
        legal = legal;
        does_not_fit = ap (λ q. q.1) e;
      } in
      elim (Bool-cases (knows s v.lease_id)) [
        | inl k ↦ rw k (attempt-SweepFair t rest f ih (pause v.lease_id owner v.ratio s))
        | inr k ↦ rw k (ih s)
      ]

  try_victims-SweepFair :
      (plan : State) (short : ℤ)
      → pos 0 <ℤ short
      → (vs : List (TakeBackVictim Value))
      → All (IsLegal F B limit floor owner memory plan short) vs
      → (s : State) → SweepFair (try_victims F B limit floor owner memory plan short vs s)
  unfolding try_victims
  try_victims-SweepFair plan short p [] l s = tt
  try_victims-SweepFair plan short p (v ∷ vs) (l, ls) s =
      try_one-SweepFair (record { plan = plan; shortfall = short; check = s; victim = v })
        (try_victims F B limit floor owner memory plan short vs) p l
        (try_victims-SweepFair plan short p vs ls) (fits F B limit floor owner memory s) refl

  abbrev Fine : Option (Reclaimed F B limit floor owner memory) → Type 0
  Fine none = Unit
  Fine (some r) = IsFair F B limit floor owner memory r

  Fair-Fine :
      (o : Option (Reclaimed F B limit floor owner memory))
      {r : Reclaimed F B limit floor owner memory}
      → Fine o
      → o ≡ some r
      → IsFair F B limit floor owner memory r
  Fair-Fine o f e = let g : Fine (some _) = subst Fine e f in g

  abbrev AllFair : List (Taken F B limit floor owner memory) → Type 0
  AllFair = All (IsFairTake F B limit floor owner memory)

  go_on-Fine :
      (taken : List (Taken F B limit floor owner memory)) (s : State)
      → AllFair taken
      → Fine (go_on F B limit floor owner memory taken s)
  go_on-Fine taken s f = record { takes = f; spares = tt }

  refusal-Spares :
      (s : State) (taken : List (Taken F B limit floor owner memory))
      → taken ≡ []
      → (e : Option MemBoxFullError)
      → biggest_borrower_refusal F (owners_for s owner memory) owner memory ≡ e
      → Spares F B limit floor owner memory s taken (refusal F B limit floor owner memory e)
  refusal-Spares s taken n none k = tt
  refusal-Spares s taken n (some e) k = (n, k)

  refuse-Fine :
      (s : State) (taken : List (Taken F B limit floor owner memory))
      → AllFair taken
      → taken ≡ []
      → Fine (refuse F B limit floor owner memory (owners_for s owner memory) taken s)
  refuse-Fine s taken f n = record { takes = f; spares = refusal-Spares s taken n _ refl }

  abbrev Keeps : Rounds F B limit floor owner memory → Type 0
  Keeps next =
      (refused : ℕ) (any : Bool) (taken : List (Taken F B limit floor owner memory)) (s : State)
      → AllFair taken
      → (any ≡ false → taken ≡ [])
      → Fine (next refused any taken s)

  module _ (next : Rounds F B limit floor owner memory) (ih : Keeps next) (refused : ℕ) (any : Bool)
      (taken : List (Taken F B limit floor owner memory)) (f : AllFair taken)
      (n : any ≡ false → taken ≡ []) where
    after_sweep-Fine :
        (w : Sweep F B limit floor owner memory)
        → SweepFair w
        → Fine (after_sweep F B limit floor owner memory next refused any taken w)
    after_sweep-Fine (left s) g = go_on-Fine taken s f
    after_sweep-Fine (took t s) g =
        ih refused true (t ∷ taken) s (g, f) (λ e. absurd (clash refl e))
    after_sweep-Fine (all_refused s) g = ih (suc refused) any taken s f n

    with_victims-Fine :
        (short : ℤ) (s : State)
        → pos 0 <ℤ short
        → (vs : List (TakeBackVictim Value)) → All (IsLegal F B limit floor owner memory s short) vs
        → Fine (with_victims F B limit floor owner memory next refused any taken short s (some vs))
    with_victims-Fine short s p [] l = elim (Bool-cases any) [
      | inl e ↦ rw e (go_on-Fine taken s f)
      | inr e ↦ rw e (refuse-Fine s taken f (n e))
    ]
    with_victims-Fine short s p (v ∷ vs) l =
        after_sweep-Fine _ (try_victims-SweepFair s short p (v ∷ vs) l s)

    chosen-IsLegal :
        (short : ℤ) (s : State) (vs : List (TakeBackVictim Value))
        → IsMet F
            (owners_for s owner memory)
            owner
            short
            memory
            (req_after F (owners_for s owner memory) owner short memory)
            vs
          ⊎ ((vs ≡ [])
              × IsUnmet F
                  (owners_for s owner memory)
                  owner
                  short
                  memory
                  (req_after F (owners_for s owner memory) owner short memory))
        → All (IsLegal F B limit floor owner memory s short) vs
    chosen-IsLegal short s vs (inl (p, plan, out, met)) =
        subst (All (IsLegal F B limit floor owner memory s short)) out plan.victims
    chosen-IsLegal short s vs (inr (e, u)) =
        subst (All (IsLegal F B limit floor owner memory s short)) (sym e) tt

    with_free-Fine :
        (q : State × Option ℕ)
        → Fine (with_free F B limit floor owner memory next refused any taken q)
    with_free-Fine (s, none) = go_on-Fine taken s f
    with_free-Fine (s, some free) =
        let short = shortfall_at F B limit floor owner memory s free in
        elim (Bool-cases (leb_ℤ short (pos 0))) [
          | inl e ↦ rw e (go_on-Fine taken s f)
          | inr e ↦
              let p = leb_ℤ→gt short (pos 0) e in
              let (vs, chosen, why) =
                mem_victims_chosen F (owners_for s owner memory) owner short memory p in
              rw (e, chosen) (with_victims-Fine short s p vs (chosen-IsLegal short s vs why))
        ]

  take_back_loop-Keeps : (fuel : ℕ) → Keeps (take_back_loop F B limit floor owner memory fuel)
  unfolding take_back_loop
  take_back_loop-Keeps zero refused any taken s f n = tt
  take_back_loop-Keeps (suc fuel) refused any taken s f n = elim (Bool-cases (ltb refused 3)) [
    | inr e ↦ rw e (go_on-Fine taken s f)
    | inl e ↦ rw e (
        with_free-Fine (take_back_loop F B limit floor owner memory fuel)
          (take_back_loop-Keeps fuel) refused any taken f n
          (fresh_free F B limit floor owner memory s))
  ]

  module _ (fuel : ℕ) where
    judge_by-Fine :
        (a b : Bool) (s : State) → Fine (judge_by F B limit floor owner memory fuel a b s)
    judge_by-Fine true b s = take_back_loop-Keeps fuel 0 false [] s tt (λ e. refl)
    judge_by-Fine false true s = record { takes = tt; spares = refl }
    judge_by-Fine false false s = refuse-Fine s [] tt refl

    judge_free-Fine : (q : State × Option ℕ) → Fine (judge_free F B limit floor owner memory fuel q)
    judge_free-Fine (s, none) = go_on-Fine [] s tt
    judge_free-Fine (s, some free) = judge_by-Fine _ _ s

    judge_fit-Fine :
        (q : State × Option Bool) → Fine (judge_fit F B limit floor owner memory fuel q)
    judge_fit-Fine (s, none) = go_on-Fine [] s tt
    judge_fit-Fine (s, some true) = go_on-Fine [] s tt
    judge_fit-Fine (s, some false) = judge_free-Fine (fresh_free F B limit floor owner memory s)

  -- Every lease that takeBackForAdmission pauses was chosen for a shortfall above 0, is one of
  -- another owner that the view lists, neither pinned nor drained there, and is paused only after the
  -- node was read again and the request still did not fit. A request that it refuses, as box_full or
  -- as the biggest borrower, has paused nobody, and the refusal of a biggest borrower is the one that
  -- biggestBorrowerRefusal gives on the view of the last state.
  pub take_back_for_admission-IsFair :
      (fuel : ℕ) (is_give_back : Bool) (s : State) (r : Reclaimed F B limit floor owner memory)
      → take_back_for_admission F B limit floor owner memory fuel is_give_back s ≡ some r
      → IsFair F B limit floor owner memory r
  take_back_for_admission-IsFair fuel is_give_back s r e = Fair-Fine _ (done is_give_back) e
    where
      done : (g : Bool) → Fine (take_back_for_admission F B limit floor owner memory fuel g s)
      done true = unfold take_back_for_admission in go_on-Fine [] s tt
      done false =
          unfold take_back_for_admission in
          judge_fit-Fine fuel (fits F B limit floor owner memory s)
