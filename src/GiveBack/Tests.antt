-- ===== src/GiveBack/Tests.antt =====
-- Two leases that were taken back; the one that has waited longer returns.
use spoond.Base.{
  ℕ, ◌≡◌, ◌≤◌, ◌+◌, ◌-◌, ◌*◌, ◌^◌, min, leb, refl, Bool, true, false, Option, none, some, [], ◌∷◌,
  if◌then◌else◌,
}
use spoond.Base.Text.{Text, codes, text_eq, text_ltb}
use spoond.Base.Int.{ℤ, pos, ◌+ℤ◌, ◌-ℤ◌, ◌≤ℤ◌}
use spoond.GiveBack.{
  GiveBackLease, Tick, minute, hold_give_back, give_back_hold_base, give_back_hold_max,
  give_back_stable, give_back_candidate, give_back_one,
}
use spoond.GiveBack.Hold.{hold_give_back_lem}
use spoond.GiveBack.Candidate.{IsLongest, give_back_candidate-IsLongest}
use spoond.GiveBack.Room.{IsQuiet, HasRoom, give_back_one_leaves_room}

abbrev paused : Text → ℕ → ℕ → GiveBackLease
paused id at retakes = record {
  id = id;
  released = false;
  suspended = true;
  taken_back = true;
  busy = false;
  drained = false;
  suspended_at = at;
  take_back_at = at;
  given_back_at = some 0;
  give_back_retakes = retakes;
  give_back_hold_until = 0;
  memory_mb = pos 2048;
}

abbrev old : GiveBackLease
old = paused (codes "a") (20 * minute) 2

abbrev young : GiveBackLease
young = paused (codes "b") (30 * minute) 0

abbrev no_skip : Text → Option ℕ
no_skip id = none

give_back_ops : Unit {0}
unfolding hold_give_back give_back_one text_eq text_ltb ◌+ℤ◌ ◌-ℤ◌
give_back_ops = tt

-- The third re-take: 15 minutes doubled twice.
third_hold : (hold_give_back old).give_back_hold_until ≡ 80 * minute
unfolding give_back_ops
third_hold = refl

hold_give_back_lem_example :
    let k = if leb give_back_stable (old.take_back_at - 0) then 0 else old.give_back_retakes in
    let until = (hold_give_back old).give_back_hold_until in
    ((hold_give_back old).give_back_retakes ≡ k + 1)
    × (until ≡ old.take_back_at + min (give_back_hold_base * 2 ^ k) give_back_hold_max)
    × (old.take_back_at + give_back_hold_base ≤ until)
    × (until ≤ old.take_back_at + give_back_hold_max)
hold_give_back_lem_example = hold_give_back_lem old 0 refl

give_back_candidate-IsLongest_example :
    IsLongest
      (40 * minute)
      no_skip
      (young ∷ old ∷ [])
      (give_back_candidate (40 * minute) no_skip (young ∷ old ∷ []))
give_back_candidate-IsLongest_example =
    give_back_candidate-IsLongest (40 * minute) no_skip (young ∷ old ∷ [])

abbrev tick : Tick
tick = record {
  off = false;
  is_draining = false;
  now = 60 * minute;
  last_take_back = some (30 * minute);
  last_floor_take_back = none;
  queue_depth = 0;
  free = pos 8000;
  pool = pos 20000;
  floor = pos 2000;
  running = pos 13000;
  margin_setting = pos 0;
}

abbrev later : Text → Option ℕ
later id = if text_eq id old.id then none else no_skip id

abbrev none_short : GiveBackLease → ℤ
none_short l = pos 0

abbrev all_resume : GiveBackLease → Bool
all_resume l = true

give_back_one_leaves_room_example :
    (tick.off ≡ false)
    × (tick.is_draining ≡ false)
    × (tick.queue_depth ≡ 0)
    × IsQuiet tick.now (2 * minute) tick.last_take_back
    × IsQuiet tick.now (15 * minute) tick.last_floor_take_back
    × (l : GiveBackLease) × IsLongest tick.now no_skip (young ∷ old ∷ []) (some l)
    × (record old { given_back_at = some tick.now } ≡ record l { given_back_at = some tick.now })
    × HasRoom tick l
    × (none_short l ≤ℤ pos 0)
unfolding give_back_ops
give_back_one_leaves_room_example =
    give_back_one_leaves_room none_short all_resume tick no_skip later (young ∷ old ∷ [])
      (record old { given_back_at = some tick.now }) refl
