-- ===== src/AdmitQueue/Promises.antt =====
-- What api/admitqueue.go promises to the creates that wait.
use spoond.Base.{
  ℕ, ◌≤◌, ◌≡◌, refl, ap, true, false, not, none, some, List, [], ◌∷◌, arith, ◌==◌, Bool-cases, ◌⊎◌,
  inl, inr, keep, ◌∙◌,
}
use spoond.Base.Text.{Text, text_eq}
use spoond.AdmitQueue.{
  draining, owner_gone, both, Outcome, refused, granted, Ticket, Queue, finish_ticket, send,
  settle_grant, cancel_each, cancel_queued_for_owner, drain_each, drain_queue, Event, run,
}
use spoond.AdmitQueue.Answers.{IsTicket, Stays, closed}
use spoond.AdmitQueue.Sweeps.{
  drain_one, drain_one-cell, drain_one-Moves, drain_each-Moves, cancel_one, cancel_one-Moves,
  cancel_each-Moves, settle_owner_gone-cell,
}
use spoond.AdmitQueue.Waiting.{has}
use spoond.AdmitQueue.Invariant.{
  settle_grant-IsQueue, IsQueue, drain_queue-tickets, drain_queue-done,
}
use spoond.AdmitQueue.Cancel.{owned, cancel_queued_for_owner-tickets}
use spoond.AdmitQueue.Final.{run-Later, settle_grant-Later}

-- Whatever operations follow, each undisturbed, a ticket of a well-formed queue stays answered once it is answered, its
-- channel and its handler's return keep what they hold, and its owner stays the same.
pub answer_is_final :
    (q : Queue) (j : ℕ) (es : List Event)
    → IsQueue q
    → j ≤ q.seq
    → Stays (q.heap j) ((run q es).heap j)
answer_is_final q j es i h = (run-Later q es).stays j h (i.tickets_ok j)

-- A grant reaches the channel of a ticket whose handler still waits, or it is released.
grant_lands :
    (k l : ℕ) (q : Queue)
    → IsQueue q
    → (((settle_grant k l q).heap k).ch ≡ some (granted l))
      ⊎ (has l (settle_grant k l q).released ≡ true)
unfolding settle_grant finish_ticket send
grant_lands k l q i =
    let a = (i.tickets_ok k).done_iff_answered in
    elim (Bool-cases (q.heap k).done) [ inl d ↦ inr (ground arith) | inr d ↦ inl (ground arith) ]

-- In a well-formed queue, once a create of a ticket has got a lease, whatever operations follow, the
-- lease lies in the channel of that ticket, whose handler has not returned otherwise, or it has
-- been released.
pub no_leak :
    (k l : ℕ) (q : Queue) (es : List Event)
    → IsQueue q
    → k ≤ q.seq
    → ((((run (settle_grant k l q) es).heap k).ch ≡ some (granted l))
        × (((run (settle_grant k l q) es).heap k).returned ≡ none))
      ⊎ (has l (run (settle_grant k l q) es).released ≡ true)
no_leak k l q es i h =
    let r = settle_grant k l q in
    let j = settle_grant-IsQueue k l q i in
    let f = run-Later r es in
    elim (grant_lands k l q i) [
      | inl c ↦
          let s =
            f.stays k (let x = (settle_grant-Later k l q).seq_grows in omega arith)
              (j.tickets_ok k) in
          let e = s.same_ch (granted l) c in inl (e, s.still_ticket.lease_is_awaited l e)
      | inr c ↦ inr (f.still_released l c)
    ]

-- The winner's answer to an open ticket.
closed_answers : (o : Outcome) (t : Ticket) → IsTicket t → t.done ≡ false → (closed o t).ch ≡ some o
closed_answers o t i d = let a = i.done_iff_answered in ground arith

drain_each_refuses :
    (ks : List ℕ) (q : Queue) (j : ℕ)
    → ((j : ℕ) → IsTicket (q.heap j))
    → has j ks ≡ true
    → (q.heap j).done ≡ false
    → ((drain_each ks q).heap j).ch ≡ some (refused draining)
unfolding drain_each
drain_each_refuses [] q j i m d = cc
drain_each_refuses (k ∷ ks) q j i m d =
    let one = drain_one k q in
    let c = drain_one-cell k q j in
    let t : (x : ℕ) → IsTicket (one.heap x) = λ x. (drain_one-Moves k q x (i x)).still_ticket in
    elim (Bool-cases (j == k)) [
      | inl e ↦
          let n : j ≡ k = ground arith in
          let a = closed_answers (refused draining) (q.heap k) (i k) (ground arith) in
          (drain_each-Moves ks one j (t j)).same_ch (refused draining) (rw (c, e) a)
      | inr e ↦ drain_each_refuses ks one j t (ground arith) (rw (c, e) d)
    ]

-- A drain of a well-formed queue empties it, and each ticket that waited in it is done and has the
-- drain's refusal in its channel.
pub drain_queue_refuses :
    (q : Queue) (j : ℕ)
    → IsQueue q
    → has j q.tickets ≡ true
    → ((drain_queue q).tickets ≡ [])
      × (((drain_queue q).heap j).done ≡ true)
      × (((drain_queue q).heap j).ch ≡ some (refused draining))
unfolding drain_queue
drain_queue_refuses q j i m =
    let d : (q.heap j).done ≡ false = let w = i.queued_iff_open j in ground arith in
    (
      drain_queue-tickets q,
      drain_queue-done q i j,
      drain_each_refuses q.tickets (record q { tickets = [] }) j i.tickets_ok m d,
    )

cancel_one_other :
    (owner : Text) (k : ℕ) (q : Queue) (j : ℕ)
    → (j == k) ≡ false
    → (cancel_one owner k q).heap j ≡ q.heap j
cancel_one_other owner k q j e =
    let c = settle_owner_gone-cell k (both owner_gone (q.heap k).refusal) q j in
    elim (Bool-cases (owned owner q k)) [ inl x ↦ rw (x, c, e) refl | inr x ↦ rw x refl ]

cancel_one_self :
    (owner : Text) (k : ℕ) (q : Queue)
    → IsTicket (q.heap k)
    → owned owner q k ≡ true
    → (q.heap k).done ≡ false
    → ((cancel_one owner k q).heap k).ch ≡ some (refused (both owner_gone (q.heap k).refusal))
cancel_one_self owner k q i x d =
    let e = refused (both owner_gone (q.heap k).refusal) in
    let c = settle_owner_gone-cell k (both owner_gone (q.heap k).refusal) q k in
    let s : (k == k) ≡ true = ground arith in rw (x, c, s) (closed_answers e (q.heap k) i d)

cancel_each_refuses :
    (owner : Text) (ks : List ℕ) (q : Queue) (j : ℕ)
    → ((j : ℕ) → IsTicket (q.heap j))
    → has j ks ≡ true
    → owned owner q j ≡ true
    → (q.heap j).done ≡ false
    → ((cancel_each owner ks q).heap j).ch ≡ some (refused (both owner_gone (q.heap j).refusal))
unfolding cancel_each
cancel_each_refuses owner [] q j i m x d = cc
cancel_each_refuses owner (k ∷ ks) q j i m x d =
    let one = cancel_one owner k q in
    let t : (x : ℕ) → IsTicket (one.heap x) =
      λ x. (cancel_one-Moves owner k q x (i x)).still_ticket in
    elim (Bool-cases (j == k)) [
      | inl e ↦
          let n : k ≡ j = ground arith in
          let o = refused (both owner_gone (q.heap j).refusal) in
          let a : (one.heap j).ch ≡ some o = rw n (cancel_one_self owner j q (i j) x d) in
          (cancel_each-Moves owner ks one j (t j)).same_ch o a
      | inr e ↦
          let c = cancel_one_other owner k q j e in
          let r = cancel_each_refuses owner ks one j t (ground arith) (rw c x) (rw c d) in
          r ∙ ap (λ (u : Ticket). some (refused (both owner_gone u.refusal))) c
    ]

-- A user's delete takes exactly the user's tickets out of a well-formed queue, the rest in their
-- order, and each of them that waited has the error of a removed owner in its channel.
pub cancel_queued_for_owner_refuses :
    (owner : Text) (q : Queue) (j : ℕ)
    → IsQueue q
    → has j q.tickets ≡ true
    → text_eq (q.heap j).owner owner ≡ true
    → ((cancel_queued_for_owner owner q).tickets
        ≡ keep (λ k. not (text_eq (q.heap k).owner owner)) q.tickets)
      × (((cancel_queued_for_owner owner q).heap j).ch
          ≡ some (refused (both owner_gone (q.heap j).refusal)))
unfolding cancel_queued_for_owner
cancel_queued_for_owner_refuses owner q j i m x =
    let d : (q.heap j).done ≡ false = let w = i.queued_iff_open j in ground arith in
    let others = keep (λ k. not (owned owner q k)) q.tickets in
    (
      cancel_queued_for_owner-tickets owner q,
      cancel_each_refuses owner q.tickets (record q { tickets = others }) j i.tickets_ok m x d,
    )
