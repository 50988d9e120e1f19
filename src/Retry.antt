-- ===== src/Retry.antt =====
-- Bounded retries of crash recovery, api/retry.go: the budgets under retryMu.
pub mod Bounds
pub mod Status
mod Tests
use spoond.Base.{
  ℕ, suc, ◌+◌, ◌-◌, Bool, true, false, not, ◌&&◌, ◌||◌, Option, none, some, List, [], ◌∷◌, ltb, leb,
  if◌then◌else◌,
}
use spoond.Base.Text.{Text, text_eq}
use spoond.Base.Int.{ℤ, pos, leb_ℤ}

pub record RetryBudget : Type 0 where
  pub attempts : ℕ
  -- The window's origin; `none` is the zero time.
  pub since : Option ℕ
  pub lease_id : Text

abbrev pub Retries : Type 0
Retries = Text → Option RetryBudget

abbrev pub put : Text → Option RetryBudget → Retries → Retries
put key b m j = if text_eq j key then b else m j

-- A setting that is not positive reads as the default: recoveryRetryLimit, recoveryRetryWindow.
unfoldable pub or_default : ℤ → ℤ → ℤ
or_default fallback n = if leb_ℤ n (pos 0) then fallback else n

-- The budget of the key, made when it is missing.
abbrev pub budget_of : Text → Option RetryBudget → RetryBudget
budget_of lease none = record { attempts = 0; since = none; lease_id = lease }
budget_of lease (some b) = b

abbrev pub begun : ℕ → Option ℕ → ℕ
begun now none = now
begun now (some t) = t

abbrev pub is_over_window : ℕ → ℕ → ℕ → Bool
is_over_window window now since = ltb 0 window && leb window (now - since)

-- The attempts on the books, and whether the budget is spent.
unfoldable pub note_retry_failure : ℕ → Text → Text → ℕ → ℕ → Retries → Retries × ℕ × Bool
note_retry_failure now key lease limit window m =
    let b = budget_of lease (m key) in
    let n = suc b.attempts in
    let t = begun now b.since in
    if (ltb 0 limit && leb limit n) || is_over_window window now t
    then (put key none m, n, true)
    else (put key (some (record b { attempts = n; since = some t })) m, n, false)

unfoldable pub note_retry_wait : ℕ → Text → Text → ℕ → Retries → Retries × ℕ × Bool
note_retry_wait now key lease window m =
    let b = budget_of lease (m key) in
    let t = begun now b.since in
    if is_over_window window now t
    then (put key none m, b.attempts, true)
    else (put key (some (record b { since = some t })) m, b.attempts, false)

unfoldable pub clear_retry : Text → Retries → Retries
unfolding text_eq
clear_retry key m = if text_eq key [] then m else put key none m

unfoldable pub retry_pending : Retries → Text → Bool
retry_pending m key = elim (m key) [ none ↦ false | some b ↦ true ]

abbrev pub is_of : Text → Option RetryBudget → Bool
is_of lease none = false
is_of lease (some b) = text_eq b.lease_id lease

-- clearRecoveryRetries, on the lease's id and its sandbox's.
unfoldable pub clear_recovery_retries : Text → Text → Retries → Retries
clear_recovery_retries lease sandbox m j =
    if text_eq j sandbox || is_of lease (m j) then none else m j

-- recoveryStatus, over the keys in the order in which the map is iterated: a budget of another lease
-- is passed over, and one of a sandbox that the lease has left is dropped.
unfoldable pub recovery_status : Text → Text → List Text → Retries → Retries × Option RetryBudget
recovery_status lease sandbox [] m = (m, none)
recovery_status lease sandbox (key ∷ keys) m =
    let kept = recovery_status lease sandbox keys m in
    let dropped = recovery_status lease sandbox keys (put key none m) in
    if is_of lease (m key) then (if text_eq key sandbox then (m, m key) else dropped) else kept
