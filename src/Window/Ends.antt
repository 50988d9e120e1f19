-- ===== src/Window/Ends.antt =====
-- The busy window ends, api/service.go and api/take_back.go: each operation reaches its endBusy.
use spoond.Base.{
  ℕ, ◌+◌, ◌-◌, ◌≤◌, ◌≡◌, refl, sym, ap, ==_iff, Bool, true, false, ◌||◌, List, [], ◌∷◌, some, arith,
  Bool-cases, if_cases, if◌then◌else◌, inl, inr, subst, ◌==◌,
}
use spoond.Base.Text.{Text}
use spoond.Base.Owner.{put_at}
use spoond.Window.Cases.{body_ends_cases, resumed_cases, settle_cases}
use spoond.Window.{
  Held, PauseKind, by_policy, take_back, Ended, done, failed, refused, Place, idle, pausing,
  settling, undoing, unresuming, resuming, ending, Scene, move, enter, may_pause, may_resume,
  may_hold, after_body, suspend, wake_up, body_ends, settle_take_back, resumed_to, next_section,
  Start, pauses, resumes, holds, start_at, change, Moment, starts, advances, changes, happen,
  history,
}

-- The sections that are left, at most.
abbrev pub left_of : Place → ℕ
left_of idle = 0
left_of (pausing kind) = 5
left_of (settling r t) = 4
left_of undoing = 3
left_of unresuming = 2
left_of resuming = 2
left_of (ending r) = 1

-- The sections of thread k in a run.
abbrev pub own_steps : ℕ → List Moment → ℕ
own_steps k [] = 0
own_steps k (advances j ok ∷ es) = (if j == k then 1 else 0) + own_steps k es
own_steps k (e ∷ es) = own_steps k es

abbrev pub starts_on : ℕ → List Moment → Bool
starts_on k [] = false
starts_on k (starts j start ∷ es) = j == k || starts_on k es
starts_on k (e ∷ es) = starts_on k es

module _ (k : ℕ) (s : Scene) where
  abbrev Within : ℕ → Scene → Type 0
  Within n t = left_of (t.pc k) ≤ n

  moved : (v : Place) (l : Held) (n : ℕ) → left_of v ≤ n → Within n (move k v l s)
  moved v l n h = subst (λ x. left_of x ≤ n) (sym put_self) h
    where
      put_self : put_at k v s.pc k ≡ v
      put_self = ground arith

  body_ends_left : (kind : PauseKind) → Within 4 (body_ends kind k s)
  body_ends_left kind =
      body_ends_cases (Within 4) k s kind (λ t. moved (ending failed) s.lease 4 (omega arith))
        (λ t. moved (after_body kind) (suspend kind s.lease) 4 (after kind))
    where
      after : (q : PauseKind) → left_of (after_body q) ≤ 4
      after (by_policy d r) = omega arith
      after (take_back r t) = omega arith

  settled_left : (r : Text) (t : Bool) → Within 3 (settle_take_back r t k s)
  settled_left r t =
      settle_cases (Within 3) k s r t (λ a. moved (ending refused) s.lease 3 (omega arith))
        (λ b. moved undoing s.lease 3 (omega arith))
        (λ a b. moved (ending done) (record s.lease { taken_for = some r }) 3 (omega arith))

  resumed_left : (gone result : Ended) → Within 1 (resumed_to gone result k s)
  resumed_left gone result =
      resumed_cases (Within 1) k s gone result (λ t. moved (ending gone) s.lease 1 (omega arith))
        (λ t. moved (ending result) (wake_up s.lease) 1 (omega arith))

  next_section_left :
      (v : Place) (ok : Bool) → s.pc k ≡ v → Within (left_of v - 1) (next_section v ok k s)
  unfolding next_section
  next_section_left idle ok e = rw e (omega arith)
  next_section_left (pausing kind) true e = body_ends_left kind
  next_section_left (pausing kind) false e = moved (ending failed) s.lease 4 (omega arith)
  next_section_left (settling r t) ok e = settled_left r t
  next_section_left undoing ok e =
      moved (if s.lease.released then ending refused else unresuming) s.lease 2 (
        if_cases (λ v. left_of v ≤ 2) s.lease.released (ending refused) unresuming
          (λ t. omega arith) (λ t. omega arith))
  next_section_left unresuming true e = resumed_left refused refused
  next_section_left unresuming false e = moved (ending refused) s.lease 1 (omega arith)
  next_section_left resuming true e = resumed_left failed done
  next_section_left resuming false e = moved (ending failed) s.lease 1 (omega arith)
  next_section_left (ending r) ok e = moved idle (record s.lease { busy = false }) 0 (omega arith)

module _ (k : ℕ) where
  enter_other :
      (b : Bool) (j : ℕ) (v : Place) (s : Scene) → (j == k) ≡ false → (enter b j v s).pc k ≡ s.pc k
  enter_other true j v s h = ground arith
  enter_other false j v s h = refl

  start_other :
      (v : Place) (start : Start) (j : ℕ) (s : Scene)
      → (j == k) ≡ false
      → (start_at v start j s).pc k ≡ s.pc k
  start_other idle (pauses kind) j s h = enter_other (may_pause kind s.lease) j (pausing kind) s h
  start_other idle resumes j s h = enter_other (may_resume s.lease) j resuming s h
  start_other idle holds j s h = enter_other (may_hold s.lease) j (ending done) s h
  start_other (pausing kind) start j s h = refl
  start_other (settling r t) start j s h = refl
  start_other undoing start j s h = refl
  start_other unresuming start j s h = refl
  start_other resuming start j s h = refl
  start_other (ending e) start j s h = refl

  module _ (j : ℕ) (s : Scene) (h : (j == k) ≡ false) where
    abbrev Same : Scene → Type 0
    Same t = t.pc k ≡ s.pc k

    away : (v : Place) (l : Held) → Same (move j v l s)
    away v l = ground arith

    next_section_other : (v : Place) (ok : Bool) → Same (next_section v ok j s)
    unfolding next_section
    next_section_other idle ok = refl
    next_section_other (pausing kind) true =
        body_ends_cases Same j s kind (λ t. away (ending failed) s.lease)
          (λ t. away (after_body kind) (suspend kind s.lease))
    next_section_other (pausing kind) false = away (ending failed) s.lease
    next_section_other (settling r t) ok =
        settle_cases Same j s r t (λ a. away (ending refused) s.lease) (λ b. away undoing s.lease)
          (λ a b. away (ending done) (record s.lease { taken_for = some r }))
    next_section_other undoing ok =
        away (if s.lease.released then ending refused else unresuming) s.lease
    next_section_other unresuming true =
        resumed_cases Same j s refused refused (λ t. away (ending refused) s.lease)
          (λ t. away (ending refused) (wake_up s.lease))
    next_section_other unresuming false = away (ending refused) s.lease
    next_section_other resuming true =
        resumed_cases Same j s failed done (λ t. away (ending failed) s.lease)
          (λ t. away (ending done) (wake_up s.lease))
    next_section_other resuming false = away (ending failed) s.lease
    next_section_other (ending r) ok = away idle (record s.lease { busy = false })

  own_nearer :
      (j : ℕ) (ok : Bool) (s : Scene)
      → j ≡ k
      → left_of ((next_section (s.pc j) ok j s).pc k) ≤ left_of (s.pc k) - 1
  own_nearer j ok s e =
      subst (λ i. left_of ((next_section (s.pc i) ok i s).pc k) ≤ left_of (s.pc k) - 1) (sym e)
        (next_section_left k s (s.pc k) ok refl)

  -- Each section of its own brings a thread one nearer to the end of its operation, and no section of
  -- another thread takes it back: after the sections that are left, at most five, it has given the
  -- busy flag up, whatever the substrate answers.
  pub window_ends :
      (es : List Moment) (s : Scene)
      → starts_on k es ≡ false
      → left_of ((history es s).pc k) ≤ left_of (s.pc k) - own_steps k es
  unfolding history happen
  window_ends [] s n = omega arith
  window_ends (starts j start ∷ es) s n =
      let same = start_other (s.pc j) start j s (ground arith) in
      let ih = window_ends es (start_at (s.pc j) start j s) (ground arith) in rw same at ih
  window_ends (changes c ∷ es) s n = window_ends es (record s { lease = change c s.lease }) n
  window_ends (advances j ok ∷ es) s n =
      let t = next_section (s.pc j) ok j s in
      let ih = window_ends es t n in
      elim (Bool-cases (j == k)) [
        | inl e ↦ let step = own_nearer j ok s ((==_iff j k).0 e) in rw e (omega (arith, ih, step))
        | inr e ↦
            let same = ap left_of (next_section_other j s e (s.pc j) ok) in
            rw e (omega (arith, ih, same))
      ]
