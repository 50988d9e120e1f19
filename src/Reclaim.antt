-- ===== src/Reclaim.antt =====
-- takeBackForAdmission, api/admit_memory.go: the loop that takes leases back until a request fits.
pub mod Returns
pub mod Fair
mod Tests
use spoond.Base.{
  ℕ, zero, suc, ◌+◌, Bool, true, false, not, ◌&&◌, ◌||◌, Option, none, some, List, [], ◌∷◌, ltb,
  leb, if◌then◌else◌,
}
use spoond.Base.Text.{Text, codes, text_eq}
use spoond.Base.Int.{ℤ, pos, ◌+ℤ◌, ◌-ℤ◌, leb_ℤ, max_ℤ}
use spoond.Base.Float.{Float64}
use spoond.TakeBack.{TakeBackOwner, TakeBackVictim}
use spoond.TakeBack.Victims.{mem_victims}
use spoond.Admission.{NodeInfo, NodeCache, u64, u64_of_int, free_for_request, overcommit_shortfall}
use spoond.BoxFull.{MemBoxFullError, take_back_pool, biggest_borrower_refusal}

-- The time, and what the substrate answers if the cache is refreshed, and refreshed again.
pub record Reading : Type 0 where
  pub now : ℕ
  pub first : Option NodeInfo
  pub second : Option NodeInfo

-- What the loop uses of the service. `observe` reads the node, `pause` is takeBackPause with its
-- error as `false`, and what others do in the meantime shows in the states that they return.
pub record Box (F : Float64) : Type 1 where
  pub State : Type 0
  pub cache : State → NodeCache
  pub set_cache : NodeCache → State → State
  pub observe : State → State × Reading
  pub running_mib : State → ℤ
  pub owners_for : State → Text → ℤ → List TakeBackOwner
  pub knows : State → Text → Bool
  pub pause : Text → Text → F.Value → State → Bool × State

pub data Reply : Type 0 where
  -- nil: the caller goes on
  clear : Reply
  box_full : Reply
  biggest : MemBoxFullError → Reply

module _ (F : Float64) (B : Box F) (limit : Option (ℕ → ℤ)) (floor : ℤ) (owner : Text)
    (memory : ℤ) where
  open F use {Value}
  open B use {State, cache, set_cache, observe, running_mib, owners_for, knows, pause}

  abbrev pub head : ℤ
  head = memory +ℤ floor

  abbrev pub read_at : State × Reading → State × Option ℕ
  read_at (s, r) =
      let q = free_for_request r.now r.first r.second memory floor (cache s) in
      (set_cache q.0 s, q.1)

  -- freshFreeHugepageMiB: `none` is its error.
  abbrev pub fresh_free : State → State × Option ℕ
  fresh_free s = read_at (observe s)

  abbrev pub short_of_cap : State → ℤ
  short_of_cap s = overcommit_shortfall limit (running_mib s) memory (cache s)

  abbrev pub shortfall_at : State → ℕ → ℤ
  shortfall_at s free = max_ℤ (head -ℤ pos free) (short_of_cap s)

  -- `running` is read before the node.
  abbrev pub fits_with : ℤ → State × Option ℕ → State × Option Bool
  fits_with running (s, none) = (s, none)
  fits_with running (s, some free) = (
    s,
    some (
        not (text_eq (cache s).info.status (codes "healthy"))
        || (leb (u64_of_int head) free
            && leb_ℤ (overcommit_shortfall limit running memory (cache s)) (pos 0))),
  )

  unfoldable pub fits : State → State × Option Bool
  unfolding free_for_request overcommit_shortfall text_eq
  fits s = fits_with (running_mib s) (fresh_free s)

  -- A pause: the state and the shortfall that the victims were chosen by, the state in which the
  -- request was tested again, and the victim. The code does not keep it.
  pub record Taken : Type 0 where
    pub plan : State
    pub shortfall : ℤ
    pub check : State
    pub victim : TakeBackVictim Value

  -- A pass over the victims.
  pub data Sweep : Type 0 where
    -- the request fits, or the node cannot be read
    left : State → Sweep
    took : Taken → State → Sweep
    all_refused : State → Sweep

  abbrev pub attempt : Taken → (State → Sweep) → Bool × State → Sweep
  attempt t rest (true, s) = took t s
  attempt t rest (false, s) = rest s

  abbrev pub try_one : Taken → (State → Sweep) → State × Option Bool → Sweep
  try_one t rest (s, none) = left s
  try_one t rest (s, some true) = left s
  try_one t rest (s, some false) =
      if knows s t.victim.lease_id
      then attempt t rest (pause t.victim.lease_id owner t.victim.ratio s)
      else rest s

  unfoldable pub try_victims : State → ℤ → List (TakeBackVictim Value) → State → Sweep
  unfolding fits
  try_victims plan short [] s = all_refused s
  try_victims plan short (v ∷ vs) s =
      try_one (record { plan = plan; shortfall = short; check = s; victim = v })
        (try_victims plan short vs) (fits s)

  pub record Reclaimed : Type 0 where
    pub reply : Reply
    pub taken : List Taken
    pub state : State

  -- The refused rounds, pausedAny, the pauses so far, and the state. `none`: out of fuel.
  abbrev pub Rounds : Type 0
  Rounds = ℕ → Bool → List Taken → State → Option Reclaimed

  abbrev pub go_on : List Taken → State → Option Reclaimed
  go_on taken s = some (record { reply = clear; taken = taken; state = s })

  abbrev pub refusal : Option MemBoxFullError → Reply
  refusal none = clear
  refusal (some e) = biggest e

  abbrev pub refuse : List TakeBackOwner → List Taken → State → Option Reclaimed
  refuse owners taken s = some (record {
    reply = refusal (biggest_borrower_refusal F owners owner memory);
    taken = taken;
    state = s;
  })

  abbrev pub after_sweep : Rounds → ℕ → Bool → List Taken → Sweep → Option Reclaimed
  after_sweep next refused any taken (left s) = go_on taken s
  after_sweep next refused any taken (took t s) = next refused true (t ∷ taken) s
  after_sweep next refused any taken (all_refused s) = next (suc refused) any taken s

  abbrev pub with_victims :
      Rounds
      → ℕ
      → Bool
      → List Taken
      → ℤ
      → State
      → Option (List (TakeBackVictim Value))
      → Option Reclaimed
  with_victims next refused any taken short s none = none
  with_victims next refused any taken short s (some []) =
      if any then go_on taken s else refuse (owners_for s owner memory) taken s
  with_victims next refused any taken short s (some (v ∷ vs)) =
      after_sweep next refused any taken (try_victims s short (v ∷ vs) s)

  abbrev pub with_free : Rounds → ℕ → Bool → List Taken → State × Option ℕ → Option Reclaimed
  with_free next refused any taken (s, none) = go_on taken s
  with_free next refused any taken (s, some free) =
      let short = shortfall_at s free in
      if leb_ℤ short (pos 0)
      then go_on taken s
      else with_victims next refused any taken short s
          (mem_victims F (owners_for s owner memory) owner short memory)

  abbrev pub max_refused_rounds : ℕ
  max_refused_rounds = 3

  unfoldable pub take_back_loop : ℕ → Rounds
  unfolding try_victims mem_victims biggest_borrower_refusal
  take_back_loop zero refused any taken s = none
  take_back_loop (suc fuel) refused any taken s =
      if ltb refused max_refused_rounds
      then with_free (take_back_loop fuel) refused any taken (fresh_free s)
      else go_on taken s

  -- What would be free against the need, and what would be freed against the cap.
  abbrev pub reachable : ℕ → ℕ → ℕ → Bool
  reachable free freed over = leb (u64_of_int head) free && leb over freed

  -- Whether take-back can reach enough, and whether it could with the pinned leases.
  abbrev pub judge_by : ℕ → Bool → Bool → State → Option Reclaimed
  judge_by fuel true with_pinned s = take_back_loop fuel 0 false [] s
  judge_by fuel false true s = some (record { reply = box_full; taken = []; state = s })
  judge_by fuel false false s = refuse (owners_for s owner memory) [] s

  abbrev pub judge : ℕ → ℕ → ℕ → ℕ × ℕ → State → Option Reclaimed
  judge fuel free over (takeable, pinned) s =
      judge_by fuel (reachable (u64 (free + takeable)) takeable over)
        (reachable (u64 (free + takeable + pinned)) (u64 (takeable + pinned)) over) s

  abbrev pub judge_free : ℕ → State × Option ℕ → Option Reclaimed
  judge_free fuel (s, none) = go_on [] s
  judge_free fuel (s, some free) =
      judge fuel free (u64_of_int (max_ℤ (short_of_cap s) (pos 0)))
        (take_back_pool (owners_for s owner memory) owner) s

  abbrev pub judge_fit : ℕ → State × Option Bool → Option Reclaimed
  judge_fit fuel (s, none) = go_on [] s
  judge_fit fuel (s, some true) = go_on [] s
  judge_fit fuel (s, some false) = judge_free fuel (fresh_free s)

  unfoldable pub take_back_for_admission : ℕ → Bool → State → Option Reclaimed
  unfolding take_back_loop fits take_back_pool biggest_borrower_refusal
  take_back_for_admission fuel is_give_back s =
      if is_give_back then go_on [] s else judge_fit fuel (fits s)
