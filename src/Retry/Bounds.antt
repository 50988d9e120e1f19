-- ===== src/Retry/Bounds.antt =====
-- How long a recovery may go on, api/retry.go.
use spoond.Base.{
  ℕ, suc, ◌+◌, ◌-◌, ◌≡◌, ◌<◌, ◌≤◌, refl, Bool, true, false, Option, none, some, List, [], ◌∷◌, Any,
  Any-and, ◌⊎◌, Option-cases, arith, All, some≢none, inl, inr,
}
use spoond.Base.Text.{Text, text_eq_refl}
use spoond.Retry.{RetryBudget, Retries, put, budget_of, begun, note_retry_failure, note_retry_wait}

-- A recovery pass that failed, or that waits for capacity, with its time.
pub data Note : Type 0 where
  failed waited : (now : ℕ) → Note

abbrev pub time_of : Note → ℕ
time_of (failed now) = now
time_of (waited now) = now

abbrev pub failures : List Note → ℕ
failures [] = 0
failures (failed now ∷ ns) = suc (failures ns)
failures (waited now ∷ ns) = failures ns

abbrev pub unless_spent : Retries × ℕ × Bool → (Retries → Option Retries) → Option Retries
unless_spent (m, n, true) go = none
unless_spent (m, n, false) go = go m

module _ (key lease : Text) (limit window : ℕ) where
  abbrev pub note : Note → Retries → Retries × ℕ × Bool
  note (failed now) m = note_retry_failure now key lease limit window m
  note (waited now) m = note_retry_wait now key lease window m

  -- The passes over one recovery in a row. `none`: a pass reported the budget spent.
  unfoldable pub run_notes : List Note → Retries → Option Retries
  unfolding note_retry_failure note_retry_wait
  run_notes [] m = some m
  run_notes (n ∷ ns) m = unless_spent (note n m) (run_notes ns)

unless_spent-eq-some :
    (r : Retries × ℕ × Bool) (go : Retries → Option Retries) (m : Retries)
    → unless_spent r go ≡ some m
    → (r.2 ≡ false) × (go r.0 ≡ some m)
unless_spent-eq-some (k, n, true) go m e = absurd (some≢none e refl)
unless_spent-eq-some (k, n, false) go m e = (refl, e)

abbrev counted : Note → ℕ → ℕ
counted (failed now) n = suc n
counted (waited now) n = n

put_same : (key : Text) (b : Option RetryBudget) (m : Retries) → put key b m key ≡ b
put_same key b m = rw (text_eq_refl key) refl

module _ (key lease : Text) (limit window : ℕ) where
  -- A pass that does not spend the budget.
  note_lem :
      (n : Note) (m : Retries)
      → 0 < limit
      → 0 < window
      → (note key lease limit window n m).2 ≡ false
      → let b = budget_of lease (m key) in
        (time_of n - begun (time_of n) b.since < window)
        × ((note key lease limit window n m).0 key
            ≡ some (record b {
              attempts = counted n b.attempts;
              since = some (begun (time_of n) b.since);
            }))
        × (b.attempts < limit → counted n b.attempts < limit)
  unfolding note_retry_failure note_retry_wait
  note_lem (failed now) m hl hw e =
      let r = text_eq_refl key in (ground arith, ground arith, ground arith)
  note_lem (waited now) m hl hw e =
      let r = text_eq_refl key in (ground arith, ground arith, ground arith)

abbrev pub open_after : ℕ → ℕ → Text → RetryBudget
open_after n t lease = record { attempts = n; since = some t; lease_id = lease }

failures_cons :
    (n : Note) (ns : List Note) (a : ℕ) → counted n a + failures ns ≡ a + failures (n ∷ ns)
failures_cons (failed now) ns a = omega arith
failures_cons (waited now) ns a = refl

module _ (key lease : Text) (limit window : ℕ) where
  run_begun :
      (ns : List Note) (m r : Retries) (a t : ℕ)
      → 0 < limit
      → 0 < window
      → a < limit
      → m key ≡ some (open_after a t lease)
      → run_notes key lease limit window ns m ≡ some r
      → (r key ≡ some (open_after (a + failures ns) t lease))
        × (a + failures ns < limit)
        × All (λ n. time_of n - t < window) ns
  unfolding run_notes
  run_begun [] m r a t hl hw ha e h = (ground arith, omega arith, tt)
  run_begun (n ∷ ns) m r a t hl hw ha e h =
      let (go, rest) =
        unless_spent-eq-some (note key lease limit window n m) (run_notes key lease limit window ns)
          r h in
      let (young, next, few) = rw e at (note_lem key lease limit window n m hl hw go) in
      let (last, fewer, all) =
        run_begun ns (note key lease limit window n m).0 r (counted n a) t hl hw (few ha) next
          rest in
      let f = failures_cons n ns a in (rw (← f) last, omega arith, (young, all))

  -- While the passes over one recovery, begun with no budget on the books, do not report it spent,
  -- with a limit and a window above 0, the budget counts the failed passes and starts at the first
  -- pass, fewer passes than the limit have failed, and each came within the window.
  pub run_notes_lem :
      (n : Note) (ns : List Note) (m r : Retries)
      → 0 < limit
      → 0 < window
      → m key ≡ none
      → run_notes key lease limit window (n ∷ ns) m ≡ some r
      → (r key ≡ some (open_after (failures (n ∷ ns)) (time_of n) lease))
        × (failures (n ∷ ns) < limit)
        × All (λ k. time_of k - time_of n < window) (n ∷ ns)
  unfolding run_notes
  run_notes_lem n ns m r hl hw e h =
      let (go, rest) =
        unless_spent-eq-some (note key lease limit window n m) (run_notes key lease limit window ns)
          r h in
      let (young, next, few) = rw e at (note_lem key lease limit window n m hl hw go) in
      let (last, fewer, all) =
        run_begun ns (note key lease limit window n m).0 r (counted n 0) (time_of n) hl hw (few hl)
          next rest in
      let f = failures_cons n ns 0 in
      let z : 0 + failures (n ∷ ns) ≡ failures (n ∷ ns) = omega arith in
      (rw (← z, ← f) last, omega arith, (young, all))

  -- Passes over one recovery, begun with no budget on the books and with a limit and a window above
  -- 0, report it spent by the time that as many have failed as the limit says, or that one comes a
  -- window or more after the first.
  pub run_notes_ends :
      (n : Note) (ns : List Note) (m : Retries)
      → 0 < limit
      → 0 < window
      → m key ≡ none
      → (limit ≤ failures (n ∷ ns)) ⊎ Any (λ k. window ≤ time_of k - time_of n) (n ∷ ns)
      → run_notes key lease limit window (n ∷ ns) m ≡ none
  run_notes_ends n ns m hl hw e h =
      elim (Option-cases (run_notes key lease limit window (n ∷ ns) m)) [
        | inl r ↦ r
        | inr r ↦
            let (last, few, young) = run_notes_lem n ns m r.0 hl hw e r.1 in
            absurd (elim h [
              | inl l ↦ omega arith
              | inr late ↦ never (n ∷ ns) (Any-and _ _ (n ∷ ns) young late)
            ])
      ]
    where
      never :
          (ks : List Note)
          → Any (λ k. (time_of k - time_of n < window) × (window ≤ time_of k - time_of n)) ks
          → ⊥
      never [] h = h
      never (k ∷ ks) (inl (a, b)) = omega arith
      never (k ∷ ks) (inr h) = never ks h
