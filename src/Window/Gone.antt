-- ===== src/Window/Gone.antt =====
-- A lease that is released while an operation is in its window, api/service.go: nothing writes it back.
use spoond.Base.{
  ℕ, ◌≡◌, refl, Bool, true, false, not, ◌||◌, List, [], ◌∷◌, Option, suc, arith, if_cases, clash,
}
use spoond.Base.Text.{Text}
use spoond.Window.Cases.{body_ends_cases, resumed_cases, settle_cases}
use spoond.Window.{
  Held, Status, is_lost, done, failed, refused, Place, idle, pausing, settling, undoing, unresuming,
  resuming, ending, Scene, enter, may_pause, may_resume, may_hold, settle_take_back, next_section,
  Start, pauses, resumes, holds, start_at, Change, sets_pin, gains_exec, ends_exec, gains_job,
  ends_job, releases, change, Moment, starts, advances, changes, happen, history,
}

-- The state of a lease, its pin, and the stamps of its suspension.
abbrev pub face_of : Held → Status × Bool × Bool × Bool × Option Text × Bool
face_of l = (l.status, l.is_suspended, l.drained, l.pinned, l.taken_for, l.taken_back)

abbrev pub IsFrozenAs : Held → Held → Type 0
IsFrozenAs l m = (m.released ≡ true) × (face_of m ≡ face_of l)

module _ (l : Held) (k : ℕ) (s : Scene) (f : IsFrozenAs l s.lease) where
  abbrev Frozen : Scene → Type 0
  Frozen t = IsFrozenAs l t.lease

  -- Where the code tests for a release first.
  not_here : {A : Type 0} → s.lease.released ≡ false → A
  not_here t = absurd (clash f.0 t)

  settle-Frozen : (r : Text) (t : Bool) → Frozen (settle_take_back r t k s)
  settle-Frozen r t =
      settle_cases Frozen k s r t (λ a. f) (λ b. f) (λ a b. absurd (clash (passed f.0) a))
    where
      passed : s.lease.released ≡ true → (not s.lease.is_suspended || s.lease.released) ≡ true
      passed h = ground arith

  next_section-Frozen : (v : Place) (ok : Bool) → Frozen (next_section v ok k s)
  unfolding next_section
  next_section-Frozen idle ok = f
  next_section-Frozen (pausing kind) true = body_ends_cases Frozen k s kind (λ t. f) not_here
  next_section-Frozen (pausing kind) false = f
  next_section-Frozen (settling r t) ok = settle-Frozen r t
  next_section-Frozen undoing ok = f
  next_section-Frozen unresuming true = resumed_cases Frozen k s refused refused (λ t. f) not_here
  next_section-Frozen unresuming false = f
  next_section-Frozen resuming true = resumed_cases Frozen k s failed done (λ t. f) not_here
  next_section-Frozen resuming false = f
  next_section-Frozen (ending r) ok = f

  enter-Frozen : (b : Bool) (v : Place) → Frozen (enter b k v s)
  enter-Frozen true v = f
  enter-Frozen false v = f

  start-Frozen : (v : Place) (start : Start) → Frozen (start_at v start k s)
  start-Frozen idle (pauses kind) = enter-Frozen (may_pause kind s.lease) (pausing kind)
  start-Frozen idle resumes = enter-Frozen (may_resume s.lease) resuming
  start-Frozen idle holds = enter-Frozen (may_hold s.lease) (ending done)
  start-Frozen (pausing kind) start = f
  start-Frozen (settling r t) start = f
  start-Frozen undoing start = f
  start-Frozen unresuming start = f
  start-Frozen resuming start = f
  start-Frozen (ending e) start = f

change-IsFrozenAs : (c : Change) (l m : Held) → IsFrozenAs l m → IsFrozenAs l (change c m)
unfolding change
change-IsFrozenAs (sets_pin b) l m f =
    if_cases (IsFrozenAs l) (m.released || is_lost m.status) m (record m { pinned = b }) (λ t. f)
      (λ t. absurd (clash (either f.0) t))
  where
    either : m.released ≡ true → (m.released || is_lost m.status) ≡ true
    either h = ground arith
change-IsFrozenAs gains_exec l m f =
    if_cases (IsFrozenAs l) m.released m (record m { exec_pins = suc m.exec_pins }) (λ t. f)
      (λ t. f)
change-IsFrozenAs ends_exec l m f = f
change-IsFrozenAs gains_job l m f = f
change-IsFrozenAs ends_job l m f = f
change-IsFrozenAs releases l m f = (refl, f.1)

happen-IsFrozenAs :
    (l : Held) (e : Moment) (s : Scene) → IsFrozenAs l s.lease → IsFrozenAs l (happen e s).lease
unfolding happen
happen-IsFrozenAs l (starts k start) s f = start-Frozen l k s f (s.pc k) start
happen-IsFrozenAs l (advances k ok) s f = next_section-Frozen l k s f (s.pc k) ok
happen-IsFrozenAs l (changes c) s f = change-IsFrozenAs c l s.lease f

-- Once a lease is released it stays so, and nothing that comes after, the operations in flight
-- included, changes its state, its suspension, its pin or its stamps.
pub release_is_final :
    (es : List Moment) (s : Scene)
    → s.lease.released ≡ true
    → IsFrozenAs s.lease (history es s).lease
unfolding history
release_is_final es s h = kept es s (h, refl)
  where
    kept :
        (rest : List Moment) (t : Scene)
        → IsFrozenAs s.lease t.lease
        → IsFrozenAs s.lease (history rest t).lease
    kept [] t f = f
    kept (e ∷ rest) t f = kept rest (happen e t) (happen-IsFrozenAs s.lease e t f)
