-- ===== src/GiveBack.antt =====
-- Give-back, api/give_back.go: which taken-back lease returns, and when.
pub mod Hold
pub mod Candidate
pub mod Room
mod Tests
use spoond.Base.{
  ℕ, zero, suc, ◌+◌, ◌-◌, ◌*◌, min, Bool, true, false, not, ◌&&◌, ◌||◌, Option, none, some, List,
  [], ◌∷◌, ltb, leb, ◌==◌, if◌then◌else◌,
}
use spoond.Base.Text.{Text, text_eq, text_ltb}
use spoond.Base.Int.{ℤ, pos, negsuc, ltb_ℤ, max_ℤ, ◌+ℤ◌, ◌-ℤ◌}

-- The fields of a lease that give-back reads and writes. `taken_back` is the suspend reason.
pub record GiveBackLease : Type 0 where
  pub id : Text
  pub released : Bool
  pub suspended : Bool
  pub taken_back : Bool
  pub busy : Bool
  pub drained : Bool
  pub suspended_at : ℕ
  pub take_back_at : ℕ
  -- `none` is the zero time.
  pub given_back_at : Option ℕ
  pub give_back_retakes : ℕ
  pub give_back_hold_until : ℕ
  pub memory_mb : ℤ

abbrev pub minute : ℕ
minute = 60_000_000_000

abbrev pub give_back_quiet : ℕ
give_back_quiet = 2 * minute

abbrev pub give_back_floor_quiet : ℕ
give_back_floor_quiet = 15 * minute

abbrev pub give_back_hold_base : ℕ
give_back_hold_base = 15 * minute

abbrev pub give_back_hold_max : ℕ
give_back_hold_max = 240 * minute

abbrev pub give_back_stable : ℕ
give_back_stable = 60 * minute

-- The loop from i on: `turns` more turns are left of i < giveBackRetakes.
unfoldable pub doubled : ℕ → ℕ → ℕ
doubled zero hold = hold
doubled (suc turns) hold =
    let rest = doubled turns (hold * 2) in if ltb hold give_back_hold_max then rest else hold

-- holdGiveBackLocked after a give-back at `given`.
abbrev pub held : ℕ → GiveBackLease → GiveBackLease
held given l =
    let before = if leb give_back_stable (l.take_back_at - given) then 0 else l.give_back_retakes in
    record l {
      give_back_retakes = suc before;
      give_back_hold_until =
          l.take_back_at + min (doubled before give_back_hold_base) give_back_hold_max;
    }

unfoldable pub hold_give_back : GiveBackLease → GiveBackLease
unfolding doubled
hold_give_back l = elim l.given_back_at [ none ↦ l | some given ↦ held given l ]

-- `none`: no take-back of the kind has been noted.
abbrev pub is_recent : ℕ → ℕ → Option ℕ → Bool
is_recent now quiet none = false
is_recent now quiet (some last) = ltb (now - last) quiet

unfoldable pub give_back_quiet_for : ℕ → Option ℕ → Option ℕ → Bool
give_back_quiet_for now last last_floor =
    is_recent now give_back_quiet last || is_recent now give_back_floor_quiet last_floor

abbrev pub is_skipped : ℕ → Option ℕ → Bool
is_skipped now none = false
is_skipped now (some until) = ltb now until

unfoldable pub may_return : ℕ → (Text → Option ℕ) → GiveBackLease → Bool
may_return now skip l =
    not (l.released || not l.suspended || not l.taken_back || l.busy || l.drained)
    && not (is_skipped now (skip l.id))
    && not (ltb now l.give_back_hold_until)

abbrev pub waits_longer : GiveBackLease → GiveBackLease → Bool
waits_longer l p =
    ltb l.suspended_at p.suspended_at || (l.suspended_at == p.suspended_at && text_ltb l.id p.id)

abbrev pub older : GiveBackLease → Option GiveBackLease → Option GiveBackLease
older l none = some l
older l (some p) = if waits_longer l p then some l else some p

-- giveBackCandidate, over the leases in the order in which the store's map is iterated.
unfoldable pub candidate_from :
    ℕ → (Text → Option ℕ) → List GiveBackLease → Option GiveBackLease → Option GiveBackLease
unfolding may_return
candidate_from now skip [] pick = pick
candidate_from now skip (l ∷ ls) pick =
    candidate_from now skip ls (if may_return now skip l then older l pick else pick)

unfoldable pub give_back_candidate :
    ℕ → (Text → Option ℕ) → List GiveBackLease → Option GiveBackLease
unfolding candidate_from
give_back_candidate now skip ls = candidate_from now skip ls none

abbrev pub default_give_back_margin_mib : ℤ
default_give_back_margin_mib = pos 1024

-- giveBackMarginMiB, of the setting.
unfoldable pub give_back_margin_mib : ℤ → ℤ
give_back_margin_mib (pos zero) = default_give_back_margin_mib
give_back_margin_mib (pos (suc m)) = pos (suc m)
give_back_margin_mib (negsuc m) = pos 0

abbrev pub give_back_retry_after : ℕ
give_back_retry_after = 10 * minute

-- What a tick of the low-memory loop hands to giveBackOne or reads there: the settings, the last
-- take-backs, the queue, the node and the running memory.
pub record Tick : Type 0 where
  pub off : Bool
  pub is_draining : Bool
  pub now : ℕ
  pub last_take_back : Option ℕ
  pub last_floor_take_back : Option ℕ
  pub queue_depth : ℕ
  pub free : ℤ
  pub pool : ℤ
  pub floor : ℤ
  pub running : ℤ
  pub margin_setting : ℤ

-- The running leases' memory that they have not faulted in yet.
abbrev pub unfaulted : Tick → ℤ
unfaulted t = max_ℤ (pos 0) (t.running -ℤ (t.pool -ℤ t.free))

unfoldable pub fits_again : Tick → ℤ → GiveBackLease → Bool
unfolding give_back_margin_mib
fits_again t shortfall l = not (
    ltb_ℤ (t.free -ℤ unfaulted t) (l.memory_mb +ℤ t.floor +ℤ give_back_margin_mib t.margin_setting)
    || ltb_ℤ (pos 0) shortfall)

-- The lease that came back, and the retry back-offs: a failed resume puts the lease into them.
abbrev pub resumed :
    Bool → Tick → (Text → Option ℕ) → GiveBackLease → (Text → Option ℕ) × Option GiveBackLease
resumed true t skip l = (
  λ id. if text_eq id l.id then none else skip id,
  some (record l { given_back_at = some t.now }),
)
resumed false t skip l =
    (λ id. if text_eq id l.id then some (t.now + give_back_retry_after) else skip id, none)

-- The overcommit shortfall of a lease, and whether its resume succeeds, are given.
abbrev pub try_candidate :
    (GiveBackLease → ℤ)
    → (GiveBackLease → Bool)
    → Tick
    → (Text → Option ℕ)
    → Option GiveBackLease
    → (Text → Option ℕ) × Option GiveBackLease
try_candidate shortfall resumes t skip none = (skip, none)
try_candidate shortfall resumes t skip (some l) =
    if fits_again t (shortfall l) l then resumed (resumes l) t skip l else (skip, none)

unfoldable pub give_back_one :
    (GiveBackLease → ℤ)
    → (GiveBackLease → Bool)
    → Tick
    → (Text → Option ℕ)
    → List GiveBackLease
    → (Text → Option ℕ) × Option GiveBackLease
unfolding give_back_quiet_for give_back_candidate fits_again
give_back_one shortfall resumes t skip ls =
    if t.off
      || t.is_draining
      || give_back_quiet_for t.now t.last_take_back t.last_floor_take_back
      || ltb 0 t.queue_depth
    then (skip, none)
    else try_candidate shortfall resumes t skip (give_back_candidate t.now skip ls)
