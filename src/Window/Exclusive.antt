-- ===== src/Window/Exclusive.antt =====
-- Who is in the busy window of a lease, api/service.go: at most one operation at a time.
use spoond.Base.{
  ℕ, ◌≡◌, refl, sym, ap, Bool, true, false, List, [], ◌∷◌, arith, Bool-cases, inl, inr, subst, some,
}
use spoond.Base.Text.{Text}
use spoond.Base.Owner.{IsOwned, put_keeps, put_takes, put_gives}
use spoond.Window.Cases.{body_ends_cases, resumed_cases, settle_cases}
use spoond.Window.{
  Held, PauseKind, by_policy, take_back, Ended, done, failed, refused, Place, idle, pausing,
  settling, undoing, unresuming, resuming, ending, Scene, move, enter, after_body, suspend, wake_up,
  may_pause, may_resume, may_hold, body_ends, settle_take_back, resumed_to, next_section, Start,
  pauses, resumes, holds, start_at, Change, sets_pin, gains_exec, ends_exec, gains_job, ends_job,
  releases, change, Moment, starts, advances, changes, happen, history,
}

abbrev pub is_in : Place → Bool
is_in idle = false
is_in _ = true

abbrev pub IsExclusive : Scene → Type 0
IsExclusive s = IsOwned is_in s.lease.busy s.pc

-- A section that leaves busy alone, of a thread that stays where it is in the window.
keeps :
    (k : ℕ) (v : Place) (l : Held) (s : Scene)
    → is_in (s.pc k) ≡ is_in v
    → l.busy ≡ s.lease.busy
    → IsExclusive s
    → IsExclusive (move k v l s)
keeps k v l s e b o = rw b (put_keeps is_in k v o e)

enter-IsExclusive :
    (k : ℕ) (v : Place) (s : Scene) (b : Bool)
    → (b ≡ true → s.lease.busy ≡ false)
    → is_in v ≡ true
    → IsExclusive s
    → IsExclusive (enter b k v s)
enter-IsExclusive k v s true f e o = put_takes is_in k v o (f refl) e
enter-IsExclusive k v s false f e o = o

may_pause_free : (kind : PauseKind) (l : Held) → may_pause kind l ≡ true → l.busy ≡ false
may_pause_free (by_policy d r) l h = ground arith
may_pause_free (take_back q t) l h = ground arith

may_resume_free : (l : Held) → may_resume l ≡ true → l.busy ≡ false
may_resume_free l h = ground arith

may_hold_free : (l : Held) → may_hold l ≡ true → l.busy ≡ false
may_hold_free l h = ground arith

start_at-IsExclusive :
    (v : Place) (start : Start) (k : ℕ) (s : Scene)
    → IsExclusive s
    → IsExclusive (start_at v start k s)
start_at-IsExclusive idle (pauses kind) k s o =
    enter-IsExclusive k (pausing kind) s (may_pause kind s.lease) (may_pause_free kind s.lease) refl
      o
start_at-IsExclusive idle resumes k s o =
    enter-IsExclusive k resuming s (may_resume s.lease) (may_resume_free s.lease) refl o
start_at-IsExclusive idle holds k s o =
    enter-IsExclusive k (ending done) s (may_hold s.lease) (may_hold_free s.lease) refl o
start_at-IsExclusive (pausing kind) start k s o = o
start_at-IsExclusive (settling r t) start k s o = o
start_at-IsExclusive undoing start k s o = o
start_at-IsExclusive unresuming start k s o = o
start_at-IsExclusive resuming start k s o = o
start_at-IsExclusive (ending e) start k s o = o

module _ (k : ℕ) (s : Scene) (o : IsExclusive s) where
  stays :
      (v : Place) (l : Held)
      → is_in (s.pc k) ≡ is_in v
      → l.busy ≡ s.lease.busy
      → IsExclusive (move k v l s)
  stays v l e b = keeps k v l s e b o

  body_ends-IsExclusive :
      (kind : PauseKind) → is_in (s.pc k) ≡ true → IsExclusive (body_ends kind k s)
  body_ends-IsExclusive kind e =
      body_ends_cases IsExclusive k s kind (λ r. stays (ending failed) s.lease e refl)
        (λ r. goes kind)
    where
      goes : (q : PauseKind) → IsExclusive (move k (after_body q) (suspend q s.lease) s)
      goes (by_policy d r) = stays (ending done) (suspend (by_policy d r) s.lease) e refl
      goes (take_back r t) = stays (settling r t) (suspend (take_back r t) s.lease) e refl

  resumed_to-IsExclusive :
      (gone result : Ended) → is_in (s.pc k) ≡ true → IsExclusive (resumed_to gone result k s)
  resumed_to-IsExclusive gone result e =
      resumed_cases IsExclusive k s gone result (λ r. stays (ending gone) s.lease e refl)
        (λ r. stays (ending result) (wake_up s.lease) e refl)

  settle-IsExclusive :
      (r : Text) (t : Bool) → is_in (s.pc k) ≡ true → IsExclusive (settle_take_back r t k s)
  settle-IsExclusive r t e =
      settle_cases IsExclusive k s r t (λ a. stays (ending refused) s.lease e refl)
        (λ b. stays undoing s.lease e refl)
        (λ a b. stays (ending done) (record s.lease { taken_for = some r }) e refl)

  next_section-IsExclusive :
      (v : Place) (ok : Bool) → s.pc k ≡ v → IsExclusive (next_section v ok k s)
  unfolding next_section
  next_section-IsExclusive idle ok e = o
  next_section-IsExclusive (pausing kind) true e = body_ends-IsExclusive kind (ap is_in e)
  next_section-IsExclusive (pausing kind) false e = stays (ending failed) s.lease (ap is_in e) refl
  next_section-IsExclusive (settling r t) ok e = settle-IsExclusive r t (ap is_in e)
  next_section-IsExclusive undoing ok e = elim (Bool-cases s.lease.released) [
    | inl r ↦ rw r (stays (ending refused) s.lease (ap is_in e) refl)
    | inr r ↦ rw r (stays unresuming s.lease (ap is_in e) refl)
  ]
  next_section-IsExclusive unresuming true e = resumed_to-IsExclusive refused refused (ap is_in e)
  next_section-IsExclusive unresuming false e = stays (ending refused) s.lease (ap is_in e) refl
  next_section-IsExclusive resuming true e = resumed_to-IsExclusive failed done (ap is_in e)
  next_section-IsExclusive resuming false e = stays (ending failed) s.lease (ap is_in e) refl
  next_section-IsExclusive (ending result) ok e = put_gives is_in k idle o (ap is_in e) refl

change_busy : (c : Change) (l : Held) → (change c l).busy ≡ l.busy
unfolding change
change_busy (sets_pin b) l = ground arith
change_busy gains_exec l = ground arith
change_busy ends_exec l = refl
change_busy gains_job l = refl
change_busy ends_job l = refl
change_busy releases l = refl

pub happen-IsExclusive : (e : Moment) (s : Scene) → IsExclusive s → IsExclusive (happen e s)
unfolding happen
happen-IsExclusive (starts k start) s o = start_at-IsExclusive (s.pc k) start k s o
happen-IsExclusive (advances k ok) s o = next_section-IsExclusive k s o (s.pc k) ok refl
happen-IsExclusive (changes c) s o =
    subst (λ b. IsOwned is_in b s.pc) (sym (change_busy c s.lease)) o

-- In every interleaving the busy flag of a lease is set exactly while one operation is between its
-- guard and its endBusy, and only one is: lifecycle operations on a lease never run side by side, and
-- none clears the flag of another.
pub history-IsExclusive :
    (es : List Moment) (s : Scene) → IsExclusive s → IsExclusive (history es s)
unfolding history
history-IsExclusive [] s o = o
history-IsExclusive (e ∷ es) s o = history-IsExclusive es (happen e s) (happen-IsExclusive e s o)
