-- ===== src/Wake.antt =====
-- wakeAdmissionQueue and scheduledWake, api/admitqueue.go: wakes of the queue on any number of threads,
-- one atomic operation at a time.
pub mod Owner
pub mod Kept
mod Tests
use spoond.Base.{ℕ, Bool, true, false, List, [], ◌∷◌, ◌==◌, if◌then◌else◌}

-- Where a thread stands. A call whose swap wins goes on as the goroutine that it starts.
pub data Pc : Type 0 where
  idle : Pc
  -- wakePending is set, before the swap
  woke : Pc
  -- the loop's head
  top : Pc
  -- wakePending is cleared, before the pass
  cleared : Pc
  -- in tryAdmitQueued
  passing : Pc
  -- after it, before the swap that gives the flag up
  finishing : Pc
  -- the flag is given up, before wakePending is read
  released : Pc
  -- wakePending was set, before the swap that takes the flag again
  again : Pc

-- `owed`: a wake came and no pass has begun since. The code does not keep it.
pub record State : Type 0 where
  pub pending : Bool
  pub scheduled : Bool
  pub owed : Bool
  pub pc : ℕ → Pc

abbrev pub go : ℕ → Pc → (ℕ → Pc) → ℕ → Pc
go k v pc j = if j == k then v else pc j

-- CompareAndSwap(false, true): the thread goes to the loop's head, or is through.
abbrev pub take_flag : ℕ → State → State
take_flag k s =
    if s.scheduled
    then record s { pc = go k idle s.pc }
    else record s { scheduled = true; pc = go k top s.pc }

-- wakeAdmissionQueue on a queue that is not empty, or that is.
abbrev pub wake : Bool → ℕ → State → State
wake false k s = s
wake true k s = record s { pending = true; owed = true; pc = go k woke s.pc }

abbrev pub give_flag : ℕ → State → State
give_flag k s =
    if s.scheduled
    then record s { scheduled = false; pc = go k released s.pc }
    else record s { pc = go k idle s.pc }

-- The next operation of a thread by where it stands.
unfoldable pub act : Pc → Bool → ℕ → State → State
act idle queued k s = wake queued k s
act woke queued k s = take_flag k s
act top queued k s = record s { pending = false; pc = go k cleared s.pc }
act cleared queued k s = record s { owed = false; pc = go k passing s.pc }
act passing queued k s = record s { pc = go k finishing s.pc }
act finishing queued k s = give_flag k s
act released queued k s = record s { pc = go k (if s.pending then again else idle) s.pc }
act again queued k s = take_flag k s

abbrev pub at_rest : State
at_rest = record { pending = false; scheduled = false; owed = false; pc = λ k. idle }

-- An interleaving, the last operation first: which thread goes on, and whether a ticket is queued.
unfoldable pub play : List (ℕ × Bool) → State
unfolding act
play [] = at_rest
play ((k, queued) ∷ ms) = let s = play ms in act (s.pc k) queued k s
