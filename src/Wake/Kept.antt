-- ===== src/Wake/Kept.antt =====
-- No wake is lost, api/admitqueue.go.
use spoond.Base.{
  ℕ, zero, suc, ◌≤◌, ◌≡◌, refl, sym, ap, ◌∙◌, Bool, true, false, List, [], ◌∷◌, ◌⊎◌, if◌then◌else◌,
  arith, Bool-cases, inl, inr, clash,
}
use spoond.Wake.{
  Pc, idle, woke, top, cleared, passing, finishing, released, again, State, go, take_flag, wake,
  act, play,
}
use spoond.Wake.Owner.{owns, Owned, play-IsOwned}

abbrev busy : Pc → Bool
busy idle = false
busy _ = true

abbrev is_cleared : Pc → Bool
is_cleared cleared = true
is_cleared _ = false

-- A pass is about to begin, or wakePending tells a thread in the protocol to make one.
abbrev Comes : Bool → (ℕ → Pc) → Type 0
Comes pending pc =
    ((j : ℕ) × (is_cleared (pc j) ≡ true)) ⊎ ((pending ≡ true) × ((j : ℕ) × (busy (pc j) ≡ true)))

abbrev Kept : State → Type 0
Kept s = s.owed ≡ true → Comes s.pending s.pc

go_cleared :
    (k : ℕ) (v : Pc) (pc : ℕ → Pc)
    → is_cleared (pc k) ≡ false
    → (j : ℕ) → is_cleared (pc j) ≡ true
    → is_cleared (go k v pc j) ≡ true
go_cleared k v pc n j h = ground arith

go_busy :
    (k : ℕ) (v : Pc) (pc : ℕ → Pc)
    → busy v ≡ true
    → (j : ℕ) → busy (pc j) ≡ true
    → busy (go k v pc j) ≡ true
go_busy k v pc b j h = ground arith

go-Comes :
    (k : ℕ) (v : Pc) (pc : ℕ → Pc) {pending : Bool}
    → is_cleared (pc k) ≡ false
    → busy v ≡ true
    → Comes pending pc
    → Comes pending (go k v pc)
go-Comes k v pc n b (inl (j, h)) = inl (j, go_cleared k v pc n j h)
go-Comes k v pc n b (inr (p, (j, h))) = inr (p, (j, go_busy k v pc b j h))

owns-busy : (v : Pc) → owns v ≡ true → busy v ≡ true
owns-busy v h = ground arith

-- A thread leaves while another owns the flag.
leave-Comes :
    (k : ℕ) (pc : ℕ → Pc) {pending : Bool}
    → is_cleared (pc k) ≡ false
    → owns (pc k) ≡ false
    → (j : ℕ) × (owns (pc j) ≡ true)
    → Comes pending pc
    → Comes pending (go k idle pc)
leave-Comes k pc n f (i, h) (inl (j, c)) = inl (j, go_cleared k idle pc n j c)
leave-Comes k pc n f (i, h) (inr (p, c)) = inr (p, (i, ground (arith, owns-busy (pc i))))

take_flag-Kept :
    (k : ℕ) (s : State)
    → Owned s
    → is_cleared (s.pc k) ≡ false
    → owns (s.pc k) ≡ false
    → Kept s
    → Kept (take_flag k s)
take_flag-Kept k s o n f w = elim (Bool-cases s.scheduled) [
  | inl e ↦ rw e (λ h. leave-Comes k s.pc n f (o.owner e) (w h))
  | inr e ↦ rw e (λ h. go-Comes k top s.pc n refl (w h))
]

module _ (queued : Bool) (k : ℕ) (s : State) (o : Owned s) (w : Kept s) where
  wake-Kept : (q : Bool) → Kept (wake q k s)
  wake-Kept false = w
  wake-Kept true = λ h. inr (refl, (k, ground arith))

  released-Comes :
      (p : Bool)
      → is_cleared (s.pc k) ≡ false
      → Comes p s.pc
      → Comes p (go k (if p then again else idle) s.pc)
  released-Comes true n c = go-Comes k again s.pc n refl c
  released-Comes false n (inl (j, h)) = inl (j, go_cleared k idle s.pc n j h)
  released-Comes false n (inr (p, b)) = cc

  act-Kept : (v : Pc) → s.pc k ≡ v → Kept (act v queued k s)
  unfolding act
  act-Kept idle e = wake-Kept queued
  act-Kept woke e = take_flag-Kept k s o (ap is_cleared e) (ap owns e) w
  act-Kept top e = λ h. inl (k, ground arith)
  act-Kept cleared e = λ h. absurd (clash h refl)
  act-Kept passing e = λ h. go-Comes k finishing s.pc (ap is_cleared e) refl (w h)
  act-Kept finishing e =
      let f = o.set k (ap owns e) in
      rw f (λ h. go-Comes k released s.pc (ap is_cleared e) refl (w h))
  act-Kept released e = λ h. released-Comes s.pending (ap is_cleared e) (w h)
  act-Kept again e = take_flag-Kept k s o (ap is_cleared e) (ap owns e) w

play-Kept : (ms : List (ℕ × Bool)) → Kept (play ms)
unfolding play
play-Kept [] = λ h. absurd (clash h refl)
play-Kept ((k, queued) ∷ ms) =
    act-Kept queued k (play ms) (play-IsOwned ms) (play-Kept ms) ((play ms).pc k) refl

-- One thread goes on alone for `n` operations, and begins no call.
unfoldable pub alone : ℕ → ℕ → State → State
unfolding act
alone zero k s = s
alone (suc n) k s = alone n k (act (s.pc k) false k s)

-- Within `m` operations of the thread a pass begins.
abbrev pub Begins : ℕ → ℕ → State → Type 0
Begins m k s = (n : ℕ) × (n ≤ m) × ((alone n k s).owed ≡ false)

is_cleared-eq : (v : Pc) → is_cleared v ≡ true → v ≡ cleared
is_cleared-eq v h = ground arith

module _ (k : ℕ) where
  go_here : (v : Pc) (pc : ℕ → Pc) → go k v pc k ≡ v
  go_here v pc = ground arith

  next :
      (m : ℕ) (s : State) (v : Pc) → s.pc k ≡ v → Begins m k (act v false k s) → Begins (suc m) k s
  unfolding alone
  next m s v e (n, l, h) =
      (suc n, omega arith, ap (λ (u : Pc). (alone n k (act u false k s)).owed) e ∙ h)

  from_cleared : (s : State) → s.pc k ≡ cleared → Begins 1 k s
  unfolding alone
  from_cleared s e = next 0 s cleared e (0, omega arith, refl)

  from_top : (s : State) → s.pc k ≡ top → Begins 2 k s
  unfolding act
  from_top s e = next 1 s top e (from_cleared _ (go_here cleared s.pc))

  taken : (s : State) → s.scheduled ≡ false → Begins 2 k (take_flag k s)
  taken s f = rw f (from_top _ (go_here top s.pc))

  from_woke : (s : State) → s.pc k ≡ woke → s.scheduled ≡ false → Begins 3 k s
  unfolding act
  from_woke s e f = next 2 s woke e (taken s f)

  from_again : (s : State) → s.pc k ≡ again → s.scheduled ≡ false → Begins 3 k s
  unfolding act
  from_again s e f = next 2 s again e (taken s f)

  from_released :
      (s : State) → s.pc k ≡ released → s.pending ≡ true → s.scheduled ≡ false → Begins 4 k s
  unfolding act
  from_released s e p f = next 3 s released e (rw p (from_again _ (go_here again s.pc) f))

  from_finishing :
      (s : State) → s.pc k ≡ finishing → s.pending ≡ true → s.scheduled ≡ true → Begins 5 k s
  unfolding act
  from_finishing s e p f =
      next 4 s finishing e (rw f (from_released _ (go_here released s.pc) p refl))

  from_passing :
      (s : State) → s.pc k ≡ passing → s.pending ≡ true → s.scheduled ≡ true → Begins 6 k s
  unfolding act
  from_passing s e p f = next 5 s passing e (from_finishing _ (go_here finishing s.pc) p f)

  longer : (m n : ℕ) (s : State) → m ≤ n → Begins m k s → Begins n k s
  longer m n s l (i, h, e) = (i, omega arith, e)

  from_busy :
      (s : State) (v : Pc)
      → s.pc k ≡ v
      → s.pending ≡ true
      → owns v ≡ s.scheduled
      → busy v ≡ true
      → Begins 6 k s
  from_busy s idle e p o b = cc
  from_busy s woke e p o b = longer 3 6 s (omega arith) (from_woke s e (sym o))
  from_busy s top e p o b = longer 2 6 s (omega arith) (from_top s e)
  from_busy s cleared e p o b = longer 1 6 s (omega arith) (from_cleared s e)
  from_busy s passing e p o b = from_passing s e p (sym o)
  from_busy s finishing e p o b = longer 5 6 s (omega arith) (from_finishing s e p (sym o))
  from_busy s released e p o b = longer 4 6 s (omega arith) (from_released s e p (sym o))
  from_busy s again e p o b = longer 3 6 s (omega arith) (from_again s e (sym o))

some_begins : (s : State) → Owned s → Comes s.pending s.pc → (k : ℕ) × Begins 6 k s
some_begins s o (inl (j, h)) =
    (j, longer j 1 6 s (omega arith) (from_cleared j s (is_cleared-eq (s.pc j) h)))
some_begins s o (inr (p, (j, b))) = elim (Bool-cases s.scheduled) [
  | inl e ↦
      let (i, h) = o.owner e in
      (i, from_busy i s (s.pc i) refl p (h ∙ sym e) (owns-busy (s.pc i) h))
  | inr e ↦ (j, from_busy j s (s.pc j) refl p (unowned (Bool-cases (owns (s.pc j))) e) b)
]
  where
    unowned :
        (owns (s.pc j) ≡ true) ⊎ (owns (s.pc j) ≡ false)
        → s.scheduled ≡ false
        → owns (s.pc j) ≡ s.scheduled
    unowned (inl y) e = absurd (clash (o.set j y) e)
    unowned (inr n) e = n ∙ sym e

-- No wake is lost: in every interleaving, as long as no pass has begun since the last call of
-- wakeAdmissionQueue on a queue with tickets, there is a thread in the protocol that begins one
-- within six operations of its own.
pub wake_is_answered :
    (ms : List (ℕ × Bool)) → (play ms).owed ≡ true → (k : ℕ) × Begins 6 k (play ms)
wake_is_answered ms h = some_begins (play ms) (play-IsOwned ms) (play-Kept ms h)
