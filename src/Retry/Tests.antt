-- ===== src/Retry/Tests.antt =====
-- A lease whose sandbox s2 fails three times, with a budget left over from its sandbox s1.
use spoond.Base.{◌≡◌, ◌<◌, refl, none, some, List, [], ◌∷◌, arith, All, ◌-◌}
use spoond.Base.Text.{Text, codes, text_eq}
use spoond.Base.Int.{pos}
use spoond.Retry.{
  Retries, put, or_default, recovery_status, clear_recovery_retries, retry_pending,
  note_retry_failure,
}
use spoond.Retry.Bounds.{
  Note, failed, waited, failures, time_of, run_notes, open_after, run_notes_lem,
}

abbrev empty : Retries
empty key = none

abbrev lease : Text
lease = codes "lease"

abbrev s1 : Text
s1 = codes "s1"

abbrev s2 : Text
s2 = codes "s2"

abbrev passes : List Note
passes = waited 120 ∷ failed 200 ∷ []

retry_ops : Unit {0}
unfolding run_notes text_eq or_default recovery_status clear_recovery_retries retry_pending
    note_retry_failure
retry_ops = tt

abbrev after_passes : Retries
after_passes = put s2 (some (open_after 2 100 lease)) empty

run_notes_lem_example :
    (put s2
        (some (open_after 2 100 lease))
        (put s2 (some (open_after 1 100 lease)) (put s2 (some (open_after 1 100 lease)) empty))
        s2
      ≡ some (open_after (failures (failed 100 ∷ passes)) 100 lease))
    × (failures (failed 100 ∷ passes) < 3)
    × All (λ k. time_of k - 100 < 1800) (failed 100 ∷ passes)
unfolding retry_ops
run_notes_lem_example =
    run_notes_lem s2 lease 3 1800 (failed 100) passes empty
      (put s2 (some (open_after 2 100 lease))
        (put s2 (some (open_after 1 100 lease)) (put s2 (some (open_after 1 100 lease)) empty)))
      (omega arith) (omega arith) refl refl

abbrev books : Retries
books = put s1 (some (open_after 1 50 lease)) (
    put s2 (some (open_after 2 100 lease))
      (put (codes "x") (some (open_after 1 70 (codes "other"))) empty))

shown :
    (recovery_status lease s2 (codes "x" ∷ s1 ∷ s2 ∷ []) books).1 ≡ some (open_after 2 100 lease)
unfolding retry_ops
shown = refl

default_attempts : or_default (pos 3) (pos 0) ≡ pos 3
unfolding retry_ops
default_attempts = refl
