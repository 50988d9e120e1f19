-- ===== src/AdmitQueue/Final.antt =====
-- What no sequence of undisturbed operations of api/admitqueue.go takes back.
use spoond.Base.{
  ℕ, suc, ◌≤◌, ◌≡◌, refl, true, false, List, [], ◌∷◌, arith, ◌==◌, Bool-cases, inl, inr,
}
use spoond.Base.Text.{Text}
use spoond.AdmitQueue.{
  Refusal, Queue, finish_ticket, send, settle_grant, new_ticket, mark_owner_deleted, Event, step,
  run, initial,
}
use spoond.AdmitQueue.Answers.{Kept, Kept-refl, Kept-trans}
use spoond.AdmitQueue.Sweeps.{
  Moves, settle_grant-Moves, settle_owner_gone-Moves, time_out-Moves, client_leaves-Moves,
}
use spoond.AdmitQueue.Waiting.{has, has-append}
use spoond.AdmitQueue.Frame.{
  Frame, settle_owner_gone-Frame, time_out-Frame, client_leaves-Frame,
  cancel_queued_for_owner-Frame, drain_queue-Frame, settle_draining-Frame,
}
use spoond.AdmitQueue.Invariant.{
  IsQueue, settle_grant-IsQueue, settle_owner_gone-IsQueue, time_out-IsQueue, client_leaves-IsQueue,
  drain_queue-Moves, drain_queue-IsQueue, settle_draining-Moves, settle_draining-IsQueue,
}
use spoond.AdmitQueue.Cancel.{cancel_queued_for_owner-Moves, cancel_queued_for_owner-IsQueue}

-- `r` comes after `q`: it has every ticket, deletion and release of `q`.
pub record Later (q r : Queue) : Type 0 where
  pub seq_grows : q.seq ≤ r.seq
  pub stays : (j : ℕ) → j ≤ q.seq → Kept (q.heap j) (r.heap j)
  pub still_deleted : (o : Text) → q.deleted o ≡ true → r.deleted o ≡ true
  pub still_released : (l : ℕ) → has l q.released ≡ true → has l r.released ≡ true

pub Later-refl : (q : Queue) → Later q q
Later-refl q = record {
  seq_grows = ground arith;
  stays = λ j h. Kept-refl (q.heap j);
  still_deleted = λ o h. h;
  still_released = λ l h. h;
}

pub Later-trans : (q r s : Queue) → Later q r → Later r s → Later q s
Later-trans q r s a b = record {
  seq_grows = let x = a.seq_grows in let y = b.seq_grows in omega arith;
  stays = λ j h. Kept-trans (a.stays j h) (b.stays j (let x = a.seq_grows in omega arith));
  still_deleted = λ o h. b.still_deleted o (a.still_deleted o h);
  still_released = λ l h. b.still_released l (a.still_released l h);
}

Later-Frame : (q r : Queue) → Moves q r → Frame q r → Later q r
Later-Frame q r m f = record {
  seq_grows = let x = f.same_seq in omega arith;
  stays = λ j h. m j;
  still_deleted = λ o h. rw f.same_deleted h;
  still_released = λ l h. rw f.same_released h;
}

pub settle_grant-Later : (k l : ℕ) (q : Queue) → Later q (settle_grant k l q)
settle_grant-Later k l q = record {
  seq_grows = unfold settle_grant finish_ticket send in ground arith;
  stays = λ j h. settle_grant-Moves k l q j;
  still_deleted = λ o h. unfold settle_grant finish_ticket send in ground arith;
  still_released = λ m h. unfold settle_grant finish_ticket send in ground arith;
}

new_ticket-IsQueue :
    (id owner : Text) (e : Refusal) (now wait : ℕ) (q : Queue)
    → IsQueue q
    → IsQueue (new_ticket id owner e now wait q).1
unfolding new_ticket
new_ticket-IsQueue id owner e now wait q i = elim (Bool-cases (q.deleted owner)) [
  | inl d ↦ rw d i
  | inr d ↦ rw d record {
    tickets_ok = λ j. elim (Bool-cases (j == suc q.seq)) [
      | inl c ↦ rw c record { done_iff_answered = refl; lease_is_awaited = λ l h. refl }
      | inr c ↦ rw c (i.tickets_ok j)
    ];
    queued_iff_open = λ j.
        let w = has-append j (suc q.seq) q.tickets in
        let o = i.queued_iff_open j in rw (w, o) ground arith;
  }
]

new_ticket-Later :
    (id owner : Text) (e : Refusal) (now wait : ℕ) (q : Queue)
    → Later q (new_ticket id owner e now wait q).1
unfolding new_ticket
new_ticket-Later id owner e now wait q = elim (Bool-cases (q.deleted owner)) [
  | inl d ↦ rw d (Later-refl q)
  | inr d ↦ rw d record {
    seq_grows = omega arith;
    stays = λ j h. let c : (j == suc q.seq) ≡ false = ground arith in rw c (Kept-refl (q.heap j));
    still_deleted = λ o h. h;
    still_released = λ l h. h;
  }
]

mark_owner_deleted-Later : (owner : Text) (q : Queue) → Later q (mark_owner_deleted owner q)
unfolding mark_owner_deleted
mark_owner_deleted-Later owner q = record {
  seq_grows = omega arith;
  stays = λ j h. Kept-refl (q.heap j);
  still_deleted = λ o h. ground arith;
  still_released = λ l h. h;
}

mark_owner_deleted-IsQueue :
    (owner : Text) (q : Queue) → IsQueue q → IsQueue (mark_owner_deleted owner q)
unfolding mark_owner_deleted
mark_owner_deleted-IsQueue owner q i = record {
  tickets_ok = i.tickets_ok;
  queued_iff_open = i.queued_iff_open;
}

pub step-Later : (e : Event) (q : Queue) → Later q (step e q)
unfolding step
step-Later (Event.parks id owner e now wait) q = new_ticket-Later id owner e now wait q
step-Later (Event.grants k l) q = settle_grant-Later k l q
step-Later (Event.finds_owner_gone k e) q =
    Later-Frame q _ (settle_owner_gone-Moves k e q) (settle_owner_gone-Frame k e q)
step-Later (Event.finds_drain k) q =
    Later-Frame q _ (settle_draining-Moves k q) (settle_draining-Frame k q)
step-Later (Event.times_out k) q = Later-Frame q _ (time_out-Moves k q) (time_out-Frame k q)
step-Later (Event.leaves k) q = Later-Frame q _ (client_leaves-Moves k q) (client_leaves-Frame k q)
step-Later (Event.deletes o) q = mark_owner_deleted-Later o q
step-Later (Event.cancels o) q =
    Later-Frame q _ (cancel_queued_for_owner-Moves o q) (cancel_queued_for_owner-Frame o q)
step-Later Event.drains q = Later-Frame q _ (drain_queue-Moves q) (drain_queue-Frame q)

pub step-IsQueue : (e : Event) (q : Queue) → IsQueue q → IsQueue (step e q)
unfolding step
step-IsQueue (Event.parks id owner e now wait) q i = new_ticket-IsQueue id owner e now wait q i
step-IsQueue (Event.grants k l) q i = settle_grant-IsQueue k l q i
step-IsQueue (Event.finds_owner_gone k e) q i = settle_owner_gone-IsQueue k e q i
step-IsQueue (Event.finds_drain k) q i = settle_draining-IsQueue k q i
step-IsQueue (Event.times_out k) q i = time_out-IsQueue k q i
step-IsQueue (Event.leaves k) q i = client_leaves-IsQueue k q i
step-IsQueue (Event.deletes o) q i = mark_owner_deleted-IsQueue o q i
step-IsQueue (Event.cancels o) q i = cancel_queued_for_owner-IsQueue o q i
step-IsQueue Event.drains q i = drain_queue-IsQueue q i

-- Every sequence of undisturbed operations keeps a queue well formed: a ticket waits in it exactly while
-- it has no answer, and a lease in its channel has a handler that still waits.
pub run-IsQueue : (q : Queue) (es : List Event) → IsQueue q → IsQueue (run q es)
unfolding run
run-IsQueue q [] i = i
run-IsQueue q (e ∷ es) i = run-IsQueue (step e q) es (step-IsQueue e q i)

-- From any queue on, whatever operations follow, every ticket, deletion and release of it remains.
pub run-Later : (q : Queue) (es : List Event) → Later q (run q es)
unfolding run
run-Later q [] = Later-refl q
run-Later q (e ∷ es) =
    Later-trans q (step e q) (run (step e q) es) (step-Later e q) (run-Later (step e q) es)

pub initial-IsQueue : IsQueue initial
initial-IsQueue = record {
  tickets_ok = λ j. record { done_iff_answered = refl; lease_is_awaited = λ l h. ground arith };
  queued_iff_open = λ j. refl;
}
