-- ===== src/AdmitQueue/Pass/Issued.antt =====
-- Only sequence numbers that were given out stand for open tickets, api/admitqueue.go.
use spoond.Base.{
  ℕ, suc, ◌≤◌, ◌<◌, ◌≡◌, refl, true, false, List, [], ◌∷◌, ◌++◌, ◌==◌, ltb, arith, Bool-cases, inl,
  inr, clash,
}
use spoond.Base.Text.{Text}
use spoond.AdmitQueue.{
  Refusal, Queue, Event, new_ticket, mark_owner_deleted, settle_grant, finish_ticket, send, step,
  run, initial,
}
use spoond.AdmitQueue.Sweeps.{
  Moves, settle_grant-Moves, settle_owner_gone-Moves, time_out-Moves, client_leaves-Moves,
}
use spoond.AdmitQueue.Frame.{
  Frame, settle_owner_gone-Frame, time_out-Frame, client_leaves-Frame,
  cancel_queued_for_owner-Frame, drain_queue-Frame, settle_draining-Frame,
}
use spoond.AdmitQueue.Invariant.{IsQueue, drain_queue-Moves, settle_draining-Moves}
use spoond.AdmitQueue.Cancel.{cancel_queued_for_owner-Moves}
use spoond.AdmitQueue.Final.{step-IsQueue}

abbrev pub IsIssued : Queue → Type 0
IsIssued q = (j : ℕ) → q.seq < j → (q.heap j).done ≡ true

Moves-IsIssued : (q r : Queue) → IsQueue q → Moves q r → r.seq ≡ q.seq → IsIssued q → IsIssued r
Moves-IsIssued q r i m s h j l = (m j (i.tickets_ok j)).still_done (h j (omega arith))

Frame-IsIssued : (q r : Queue) → IsQueue q → Moves q r → Frame q r → IsIssued q → IsIssued r
Frame-IsIssued q r i m f h = Moves-IsIssued q r i m f.same_seq h

pub settle_grant-seq : (k l : ℕ) (q : Queue) → (settle_grant k l q).seq ≡ q.seq
unfolding settle_grant finish_ticket send
settle_grant-seq k l q = ground arith

new_ticket-IsIssued :
    (id owner : Text) (e : Refusal) (now wait : ℕ) (q : Queue)
    → IsIssued q
    → IsIssued (new_ticket id owner e now wait q).1
unfolding new_ticket
new_ticket-IsIssued id owner e now wait q h = elim (Bool-cases (q.deleted owner)) [
  | inl d ↦ rw d h
  | inr d ↦
      rw d (λ j l. let c : (j == suc q.seq) ≡ false = ground arith in rw c (h j (omega arith)))
]

pub step-IsIssued : (e : Event) (q : Queue) → IsQueue q → IsIssued q → IsIssued (step e q)
unfolding step
step-IsIssued (Event.parks id owner e now wait) q i h = new_ticket-IsIssued id owner e now wait q h
step-IsIssued (Event.grants k l) q i h =
    Moves-IsIssued q (settle_grant k l q) i (settle_grant-Moves k l q) (settle_grant-seq k l q) h
step-IsIssued (Event.finds_owner_gone k e) q i h =
    Frame-IsIssued q _ i (settle_owner_gone-Moves k e q) (settle_owner_gone-Frame k e q) h
step-IsIssued (Event.finds_drain k) q i h =
    Frame-IsIssued q _ i (settle_draining-Moves k q) (settle_draining-Frame k q) h
step-IsIssued (Event.times_out k) q i h =
    Frame-IsIssued q _ i (time_out-Moves k q) (time_out-Frame k q) h
step-IsIssued (Event.leaves k) q i h =
    Frame-IsIssued q _ i (client_leaves-Moves k q) (client_leaves-Frame k q) h
step-IsIssued (Event.deletes o) q i h = unfold mark_owner_deleted in h
step-IsIssued (Event.cancels o) q i h =
    Frame-IsIssued q _ i (cancel_queued_for_owner-Moves o q) (cancel_queued_for_owner-Frame o q) h
step-IsIssued Event.drains q i h =
    Frame-IsIssued q _ i (drain_queue-Moves q) (drain_queue-Frame q) h

pub run-IsIssued : (q : Queue) (es : List Event) → IsQueue q → IsIssued q → IsIssued (run q es)
unfolding run
run-IsIssued q [] i h = h
run-IsIssued q (e ∷ es) i h =
    run-IsIssued (step e q) es (step-IsQueue e q i) (step-IsIssued e q i h)

pub initial-IsIssued : IsIssued initial
initial-IsIssued = λ j l. refl

-- An open ticket has a number that was given out.
pub open-le-seq : (q : Queue) (k : ℕ) → IsIssued q → (q.heap k).done ≡ false → k ≤ q.seq
open-le-seq q k h d = elim (Bool-cases (ltb q.seq k)) [
  | inl l ↦ absurd (clash (h k (ground arith)) d)
  | inr n ↦ ground arith
]

pub run-append : (q : Queue) (es fs : List Event) → run q (es ++ fs) ≡ run (run q es) fs
unfolding run
run-append q [] fs = refl
run-append q (e ∷ es) fs = run-append (step e q) es fs
