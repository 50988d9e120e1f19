-- ===== src/Wake/Owner.antt =====
-- Who holds wakeScheduled, api/admitqueue.go.
use spoond.Base.{ℕ, ◌≡◌, refl, ap, Bool, true, false, List, [], ◌∷◌, Bool-cases, inl, inr}
use spoond.Base.Owner.{IsOwned, put_keeps, put_takes, put_gives}
use spoond.Wake.{
  Pc, idle, woke, top, cleared, passing, finishing, released, again, State, take_flag, wake, act,
  play,
}

abbrev pub owns : Pc → Bool
owns top = true
owns cleared = true
owns passing = true
owns finishing = true
owns _ = false

abbrev pub Owned : State → Type 0
Owned s = IsOwned owns s.scheduled s.pc

take_flag-IsOwned : (k : ℕ) (s : State) → Owned s → owns (s.pc k) ≡ false → Owned (take_flag k s)
take_flag-IsOwned k s o n = elim (Bool-cases s.scheduled) [
  | inl e ↦ rw e (let o' : IsOwned owns true s.pc = rw (← e) o in put_keeps owns k idle o' n)
  | inr e ↦ rw e (put_takes owns k top o e refl)
]

module _ (queued : Bool) (k : ℕ) (s : State) (o : Owned s) where
  wake-IsOwned : (q : Bool) → s.pc k ≡ idle → Owned (wake q k s)
  wake-IsOwned false e = o
  wake-IsOwned true e = put_keeps owns k woke o (ap owns e)

  act-IsOwned : (v : Pc) → s.pc k ≡ v → Owned (act v queued k s)
  unfolding act
  act-IsOwned idle e = wake-IsOwned queued e
  act-IsOwned woke e = take_flag-IsOwned k s o (ap owns e)
  act-IsOwned top e = put_keeps owns k cleared o (ap owns e)
  act-IsOwned cleared e = put_keeps owns k passing o (ap owns e)
  act-IsOwned passing e = put_keeps owns k finishing o (ap owns e)
  act-IsOwned finishing e =
      let f = o.set k (ap owns e) in rw f (put_gives owns k released o (ap owns e) refl)
  act-IsOwned released e = elim (Bool-cases s.pending) [
    | inl p ↦ rw p (put_keeps owns k again o (ap owns e))
    | inr p ↦ rw p (put_keeps owns k idle o (ap owns e))
  ]
  act-IsOwned again e = take_flag-IsOwned k s o (ap owns e)

-- In every interleaving the flag wakeScheduled is set exactly while some thread stands between the
-- swap that won it and the swap that gives it up (about to clear the wake, about to pass, in the
-- pass, or after it), and at most one thread stands there.
pub play-IsOwned : (ms : List (ℕ × Bool)) → Owned (play ms)
unfolding play
play-IsOwned [] = record { set = λ k h. h; single = λ j k h h'. cc; owner = λ h. cc }
play-IsOwned ((k, queued) ∷ ms) =
    act-IsOwned queued k (play ms) (play-IsOwned ms) ((play ms).pc k) refl
