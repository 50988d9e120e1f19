-- ===== src/Wake/Tests.antt =====
-- A wake during a pass: thread 0 runs a pass, and thread 1 wakes the queue meanwhile.
use spoond.Base.{ℕ, ◌≡◌, refl, Bool, true, false, List, [], ◌∷◌}
use spoond.Wake.{idle, released, again, play}
use spoond.Wake.Owner.{Owned, play-IsOwned}
use spoond.Wake.Kept.{Begins, wake_is_answered}

-- The last operation comes first: thread 1's swap fails, and thread 0 gives the flag up.
abbrev meanwhile : List (ℕ × Bool)
meanwhile =
    (0, true)
    ∷ (0, true)
    ∷ (1, true)
    ∷ (1, true)
    ∷ (0, true)
    ∷ (0, true)
    ∷ (0, true)
    ∷ (0, true)
    ∷ []

flag_given_up : (play meanwhile).pc 0 ≡ released
unfolding play
flag_given_up = refl

waker_is_through : (play meanwhile).pc 1 ≡ idle
unfolding play
waker_is_through = refl

loops_again : (play ((0, true) ∷ meanwhile)).pc 0 ≡ again
unfolding play
loops_again = refl

-- A call on an empty queue does nothing.
empty_queue : (play ((2, false) ∷ [])).owed ≡ false
unfolding play
empty_queue = refl

owes : (play meanwhile).owed ≡ true
unfolding play
owes = refl

wake_is_answered_example : (k : ℕ) × Begins 6 k (play meanwhile)
wake_is_answered_example = wake_is_answered meanwhile owes

play-IsOwned_example : Owned (play meanwhile)
play-IsOwned_example = play-IsOwned meanwhile
