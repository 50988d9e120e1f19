-- ===== src/Window/Pins.antt =====
-- A pin or a job that comes during a take-back pause, takeBackPauseWith and unTakeBackResume of
-- api/take_back.go: the pause is undone.
use spoond.Base.{ℕ, ◌≡◌, Bool, true, false, not, ◌||◌, List, [], ◌∷◌, ◌==◌}
use spoond.Base.Text.{Text}
use spoond.Window.{
  Held, is_live, is_pinned, runs_job, take_back, failed, refused, Place, pausing, settling, undoing,
  unresuming, ending, Scene, Moment, advances, happen,
}

-- The lease is pinned, by its owner or by an exec in flight, or runs a job.
abbrev pub is_protected : Held → Bool
is_protected l = is_pinned l || runs_job l

abbrev pub Runs : Held → Type 0
Runs l = (l.is_suspended ≡ false) × (is_live l.status ≡ true)

-- Where a take-back that may not take a pinned lease can stand while the lease is protected: it never
-- succeeds, and at its end the lease runs.
abbrev pub Undone : Place → Held → Type 0
Undone (pausing (take_back r false)) l = Runs l
Undone (settling r false) l = l.is_suspended ≡ true
Undone undoing l = l.is_suspended ≡ true
Undone unresuming l = l.is_suspended ≡ true
Undone (ending refused) l = Runs l
Undone (ending failed) l = Runs l
Undone _ l = ⊥

-- The resume that undoes the pause goes through, and the thread stops before endBusy.
abbrev pub is_allowed : ℕ → Moment → Place → Bool
is_allowed k (advances j ok) unresuming = not (j == k) || ok
is_allowed k (advances j ok) (ending r) = not (j == k)
is_allowed k _ _ = true

-- Throughout, the lease stays protected and is not released.
abbrev pub Spared : ℕ → List Moment → Scene → Type 0
Spared k [] s = Unit {0}
Spared k (e ∷ es) s =
    (is_allowed k e (s.pc k) ≡ true)
    × (is_protected (happen e s).lease ≡ true)
    × ((happen e s).lease.released ≡ false)
    × Spared k es (happen e s)

abbrev IsUndone : ℕ → Scene → Type 0
IsUndone k s = Undone (s.pc k) s.lease
