-- ===== src/AdmitQueue/Pass/Ends.antt =====
-- A pass ends, api/admitqueue.go.
use spoond.Base.{ℕ, zero, suc, ◌+◌, ◌*◌, ◌-◌, ◌≤◌, ◌<◌, ◌≡◌, Option, some, List, if◌then◌else◌}
use spoond.Base.Float.{Float64}
use spoond.AdmitQueue.{Queue, run}
use spoond.AdmitQueue.Waiting.{has}
use spoond.AdmitQueue.Pass.{Host, Attempt}
use spoond.AdmitQueue.Pass.Refines.{Good}

-- The numbers below `n` that are not in the list.
unfoldable pub free : List ℕ → ℕ → ℕ
free tried zero = 0
free tried (suc n) = if has n tried then free tried n else suc (free tried n)

-- `parks` bounds how many tickets may still park: what others do lowers it by the tickets that park.
pub record IsFinite {F : Float64} (H : Host F) (parks : H.State → ℕ) : Type 0 where
  pub before :
      (s : H.State) (q : Queue)
      → (run q (H.meanwhile s).1).seq + parks (H.meanwhile s).0 ≤ q.seq + parks s
  pub during :
      (k : ℕ) (s : H.State) (q : Queue)
      → (run q (H.grant_lease k s).2).seq + parks (H.grant_lease k s).1 ≤ q.seq + parks s

module _ (F : Float64) (H : Host F) (parks : H.State → ℕ) (finite : IsFinite H parks) (n : ℕ) where
  open H use {State, view, meanwhile, grant_lease, capacity_gen}

  -- Every number that is given out stays below `n`.
  abbrev Within : Attempt F H → Type 0
  Within p = p.queue.seq + parks p.state < n

  abbrev left : Attempt F H → ℕ
  left p = (3 - p.restarts) * (n + 1) + free p.tried n

  abbrev Returns : Option (Attempt F H) → Type 0
  Returns o = (r : Attempt F H) × (o ≡ some r)

  module _ (q₀ : Queue) where
    abbrev Suffices : ℕ → (Attempt F H → Option (Attempt F H)) → Type 0
    Suffices fuel onward =
        (p : Attempt F H) → Good F H q₀ p → Within p → left p < fuel → Returns (onward p)

abbrev numbers : {F : Float64} (H : Host F) (parks : H.State → ℕ) → H.State → Queue → ℕ
numbers H parks s q = q.seq + parks s + 1

abbrev pub pass_fuel : {F : Float64} (H : Host F) (parks : H.State → ℕ) → H.State → Queue → ℕ
pass_fuel H parks s q = 4 * (numbers H parks s q + 1)
