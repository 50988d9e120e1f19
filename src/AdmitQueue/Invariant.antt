-- ===== src/AdmitQueue/Invariant.antt =====
-- What every sequence of undisturbed operations of api/admitqueue.go keeps.
use spoond.Base.{
  ℕ, ◌≡◌, refl, ap, Bool, true, false, not, ◌&&◌, ◌||◌, List, [], ◌∷◌, arith, ◌==◌, if◌then◌else◌,
  ◌∙◌,
}
use spoond.AdmitQueue.{
  Refusal, draining, client_gone, granted, refused, Ticket, Queue, send, finish_ticket,
  settle_grant, settle_owner_gone, time_out, client_leaves, drain_each, drain_queue,
  settle_draining, drained, without,
}
use spoond.AdmitQueue.Answers.{closed, forced, left, IsTicket}
use spoond.AdmitQueue.Sweeps.{
  Moves, Moves-trans, settle_grant-Moves, settle_owner_gone-Moves, time_out-Moves,
  client_leaves-Moves, drain_one, drain_each-Moves, force, force-Moves, drain_one-cell,
  settle_owner_gone-cell, at_cell, settle_grant-cell, time_out-cell, client_leaves-cell,
  forced-cell,
}
use spoond.AdmitQueue.Waiting.{has, has-without}

-- A ticket waits in the queue exactly while it has no answer.
pub record IsQueue (q : Queue) : Type 0 where
  pub tickets_ok : (j : ℕ) → IsTicket (q.heap j)
  pub queued_iff_open : (j : ℕ) → has j q.tickets ≡ not (q.heap j).done

pub IsQueue-Moves :
    (q r : Queue)
    → IsQueue q
    → Moves q r
    → ((j : ℕ) → has j q.tickets ≡ not (q.heap j).done → has j r.tickets ≡ not (r.heap j).done)
    → IsQueue r
IsQueue-Moves q r i m h = record {
  tickets_ok = λ j. (m j (i.tickets_ok j)).still_ticket;
  queued_iff_open = λ j. h j (i.queued_iff_open j);
}

has-if :
    (b : Bool) (j : ℕ) (xs ys : List ℕ)
    → has j (if b then xs else ys) ≡ (if b then has j xs else has j ys)
has-if true j xs ys = refl
has-if false j xs ys = refl

same_done : (q : Queue) (j k : ℕ) → (j == k) ≡ true → (q.heap j).done ≡ (q.heap k).done
same_done q j k c = let m : j ≡ k = ground arith in ap (λ x. (q.heap x).done) m

-- A ticket that leaves if it was open, seen from any ticket.
leaves_if_open :
    (dj dk c a : Bool)
    → a ≡ not dj
    → (c ≡ true → dj ≡ dk)
    → (if dk then a else (a && not c)) ≡ not (dj || c)
leaves_if_open dj dk true a h m = let e = m refl in ground arith
leaves_if_open dj dk false a h m = ground arith

pub at_cell-done :
    (k : ℕ) (f : Ticket → Ticket) (q : Queue) (j : ℕ)
    → (f (q.heap k)).done ≡ true
    → (at_cell k f q.heap j).done ≡ ((q.heap j).done || (j == k))
at_cell-done k f q j h = ground arith

-- A section that ends ticket `k` alone: it leaves the queue if it was open, and it is done.
pub ends_one :
    (q r : Queue) (k : ℕ) (f : Ticket → Ticket)
    → (r.tickets ≡ (if (q.heap k).done then q.tickets else without k q.tickets))
    → ((j : ℕ) → r.heap j ≡ at_cell k f q.heap j)
    → (f (q.heap k)).done ≡ true
    → Moves q r
    → IsQueue q
    → IsQueue r
ends_one q r k f t c d m i = IsQueue-Moves q r i m go
  where
    go : (j : ℕ) → has j q.tickets ≡ not (q.heap j).done → has j r.tickets ≡ not (r.heap j).done
    go j h =
        let w = has-without j k q.tickets in
        let e = has-if (q.heap k).done j q.tickets (without k q.tickets) in
        let x = at_cell-done k f q j d in
        rw (t, c j, x, e, w)
          (leaves_if_open (q.heap j).done (q.heap k).done (j == k) (has j q.tickets) h
            (same_done q j k))

pub settle_grant-IsQueue : (k l : ℕ) (q : Queue) → IsQueue q → IsQueue (settle_grant k l q)
settle_grant-IsQueue k l q =
    ends_one q (settle_grant k l q) k (closed (granted l))
      (unfold settle_grant finish_ticket send in ground arith) (settle_grant-cell k l q)
      (ground arith) (settle_grant-Moves k l q)

pub settle_owner_gone-IsQueue :
    (k : ℕ) (e : Refusal) (q : Queue) → IsQueue q → IsQueue (settle_owner_gone k e q)
settle_owner_gone-IsQueue k e q =
    ends_one q (settle_owner_gone k e q) k (closed (refused e))
      (unfold settle_owner_gone finish_ticket send in ground arith) (settle_owner_gone-cell k e q)
      (ground arith) (settle_owner_gone-Moves k e q)

pub time_out-IsQueue : (k : ℕ) (q : Queue) → IsQueue q → IsQueue (time_out k q)
time_out-IsQueue k q =
    ends_one q (time_out k q) k (left (q.heap k).refusal)
      (unfold time_out finish_ticket in ground arith) (time_out-cell k q) (ground arith)
      (time_out-Moves k q)

pub client_leaves-IsQueue : (k : ℕ) (q : Queue) → IsQueue q → IsQueue (client_leaves k q)
client_leaves-IsQueue k q =
    ends_one q (client_leaves k q) k (left client_gone)
      (unfold client_leaves finish_ticket in ground arith) (client_leaves-cell k q) (ground arith)
      (client_leaves-Moves k q)

pub drain_each-tickets : (ks : List ℕ) (q : Queue) → (drain_each ks q).tickets ≡ q.tickets
unfolding drain_each
drain_each-tickets [] q = refl
drain_each-tickets (k ∷ ks) q = drain_each-tickets ks (drain_one k q) ∙ drain_one-tickets k q
  where
    drain_one-tickets : (k : ℕ) (q : Queue) → (drain_one k q).tickets ≡ q.tickets
    drain_one-tickets k q = unfold send in ground arith

pub drain_each-done :
    (ks : List ℕ) (q : Queue) (j : ℕ)
    → ((drain_each ks q).heap j).done ≡ ((q.heap j).done || has j ks)
unfolding drain_each
drain_each-done [] q j = ground arith
drain_each-done (k ∷ ks) q j =
    let r = drain_each-done ks (drain_one k q) j in
    let c = drain_one-cell k q j in
    let d = at_cell-done k (closed (refused draining)) q j (ground arith) in
    rw (r, c, d) ground arith

pub drain_queue-Moves : (q : Queue) → Moves q (drain_queue q)
unfolding drain_queue
drain_queue-Moves q = drain_each-Moves q.tickets (record q { tickets = [] })

pub drain_queue-tickets : (q : Queue) → (drain_queue q).tickets ≡ []
unfolding drain_queue
drain_queue-tickets q = drain_each-tickets q.tickets (record q { tickets = [] })

pub drain_queue-done : (q : Queue) → IsQueue q → (j : ℕ) → ((drain_queue q).heap j).done ≡ true
unfolding drain_queue
drain_queue-done q i j =
    let d = drain_each-done q.tickets (record q { tickets = [] }) j in
    let w = i.queued_iff_open j in rw (d, w) ground arith

pub drain_queue-IsQueue : (q : Queue) → IsQueue q → IsQueue (drain_queue q)
drain_queue-IsQueue q i =
    IsQueue-Moves q (drain_queue q) i (drain_queue-Moves q)
      (λ j h. rw (drain_queue-tickets q, drain_queue-done q i j) refl)

pub settle_draining-IsQueue : (k : ℕ) (q : Queue) → IsQueue q → IsQueue (settle_draining k q)
unfolding settle_draining
settle_draining-IsQueue k q i = drain_queue-IsQueue (force k q) (
    ends_one q (force k q) k forced (unfold finish_ticket send in ground arith)
      (forced-cell k drained q) (ground arith) (force-Moves k q) i)

pub settle_draining-Moves : (k : ℕ) (q : Queue) → Moves q (settle_draining k q)
unfolding settle_draining
settle_draining-Moves k q =
    Moves-trans q (force k q) (drain_queue (force k q)) (force-Moves k q)
      (drain_queue-Moves (force k q))
