-- ===== src/AdmitQueue/Deleted.antt =====
-- The delete of an owner against the creates that race it, api/admitqueue.go.
use spoond.Base.{
  ℕ, suc, ◌≡◌, sym, ap, true, false, List, [], ◌∷◌, arith, ◌==◌, Bool-cases, inl, inr, ◌∙◌, clash,
}
use spoond.Base.Text.{Text, text_eq, text_eq→eq}
use spoond.AdmitQueue.{Refusal, Queue, cancel_queued_for_owner, new_ticket, Event, step, run}
use spoond.AdmitQueue.Answers.{Kept-refl}
use spoond.AdmitQueue.Sweeps.{
  Moves, settle_grant-Moves, settle_owner_gone-Moves, time_out-Moves, client_leaves-Moves,
}
use spoond.AdmitQueue.Waiting.{has}
use spoond.AdmitQueue.Invariant.{IsQueue, drain_queue-Moves, settle_draining-Moves}
use spoond.AdmitQueue.Cancel.{
  owned, cancel_queued_for_owner-Moves, cancel_queued_for_owner-IsQueue,
  cancel_queued_for_owner-done,
}
use spoond.AdmitQueue.Frame.{cancel_queued_for_owner-Frame}
use spoond.AdmitQueue.Final.{Later, step-IsQueue, step-Later, run-IsQueue}

-- No ticket of a deleted owner is open.
record Shut (o : Text) (q : Queue) : Type 0 where
  is_deleted : q.deleted o ≡ true
  all_done : (j : ℕ) → owned o q j ≡ true → (q.heap j).done ≡ true

Shut-Moves : (o : Text) (q r : Queue) → IsQueue q → Moves q r → Later q r → Shut o q → Shut o r
Shut-Moves o q r i m l s = record {
  is_deleted = l.still_deleted o s.is_deleted;
  all_done = λ j x.
      let u = m j (i.tickets_ok j) in
      let e = u.same_owner in
      let w : owned o q j ≡ true = ap (λ t. text_eq t o) (sym e) ∙ x in
      u.still_done (s.all_done j w);
}

new_ticket-Shut :
    (o id owner : Text) (e : Refusal) (now wait : ℕ) (q : Queue)
    → Shut o q
    → Shut o (new_ticket id owner e now wait q).1
unfolding new_ticket
new_ticket-Shut o id owner e now wait q s = elim (Bool-cases (q.deleted owner)) [
  | inl d ↦ rw d s
  | inr d ↦ rw d record {
    is_deleted = s.is_deleted;
    all_done = λ j. elim (Bool-cases (j == suc q.seq)) [
      | inl c ↦ rw c (λ x.
          let n = text_eq→eq owner o x in
          let y : q.deleted owner ≡ true = rw n s.is_deleted in absurd (clash y d))
      | inr c ↦ rw c (s.all_done j)
    ];
  }
]

step-Shut : (o : Text) (e : Event) (q : Queue) → IsQueue q → Shut o q → Shut o (step e q)
unfolding step
step-Shut o (Event.parks id owner e now wait) q i s = new_ticket-Shut o id owner e now wait q s
step-Shut o (Event.grants k l) q i s =
    Shut-Moves o q _ i (settle_grant-Moves k l q) (step-Later (Event.grants k l) q) s
step-Shut o (Event.finds_owner_gone k e) q i s =
    Shut-Moves o q _ i (settle_owner_gone-Moves k e q) (step-Later (Event.finds_owner_gone k e) q) s
step-Shut o (Event.finds_drain k) q i s =
    Shut-Moves o q _ i (settle_draining-Moves k q) (step-Later (Event.finds_drain k) q) s
step-Shut o (Event.times_out k) q i s =
    Shut-Moves o q _ i (time_out-Moves k q) (step-Later (Event.times_out k) q) s
step-Shut o (Event.leaves k) q i s =
    Shut-Moves o q _ i (client_leaves-Moves k q) (step-Later (Event.leaves k) q) s
step-Shut o (Event.deletes p) q i s =
    Shut-Moves o q _ i (λ j. Kept-refl (q.heap j)) (step-Later (Event.deletes p) q) s
step-Shut o (Event.cancels p) q i s =
    Shut-Moves o q _ i (cancel_queued_for_owner-Moves p q) (step-Later (Event.cancels p) q) s
step-Shut o Event.drains q i s =
    Shut-Moves o q _ i (drain_queue-Moves q) (step-Later Event.drains q) s

run-Shut : (o : Text) (q : Queue) (es : List Event) → IsQueue q → Shut o q → Shut o (run q es)
unfolding run
run-Shut o q [] i s = s
run-Shut o q (e ∷ es) i s = run-Shut o (step e q) es (step-IsQueue e q i) (step-Shut o e q i s)

cancel-Shut :
    (o : Text) (q : Queue) → IsQueue q → q.deleted o ≡ true → Shut o (cancel_queued_for_owner o q)
cancel-Shut o q i d =
    let f = cancel_queued_for_owner-Frame o q in
    record {
      is_deleted = rw f.same_deleted d;
      all_done = λ j x.
          let u = cancel_queued_for_owner-Moves o q j (i.tickets_ok j) in
          let e = u.same_owner in
          let y : owned o q j ≡ true = ap (λ t. text_eq t o) (sym e) ∙ x in
          let w = i.queued_iff_open j in rw (cancel_queued_for_owner-done o q j, w, y) ground arith;
    }

-- Once the delete of an owner has marked it and has cancelled its tickets in a well-formed queue,
-- whatever operations follow, each undisturbed, new creates included, no ticket of that owner waits in the queue.
pub deleted_owner_stays_out :
    (o : Text) (q : Queue) (es : List Event) (k : ℕ)
    → IsQueue q
    → q.deleted o ≡ true
    → has k (run (cancel_queued_for_owner o q) es).tickets ≡ true
    → text_eq ((run (cancel_queued_for_owner o q) es).heap k).owner o ≡ false
deleted_owner_stays_out o q es k i d m =
    let r = cancel_queued_for_owner o q in
    let j = cancel_queued_for_owner-IsQueue o q i in
    let s = run-Shut o r es j (cancel-Shut o q i d) in
    let w = (run-IsQueue r es j).queued_iff_open k in
    elim (Bool-cases (text_eq ((run r es).heap k).owner o)) [
      | inl x ↦ let y = s.all_done k x in absurd (clash m (ground arith))
      | inr x ↦ x
    ]
