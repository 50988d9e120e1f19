-- ===== src/AdmitQueue/Sweeps.antt =====
-- Every critical section of api/admitqueue.go, seen from one ticket.
use spoond.Base.{ℕ, ◌≡◌, true, List, [], ◌∷◌, arith, ◌==◌, if◌then◌else◌, Bool-cases, inl, inr}
use spoond.Base.Text.{Text, text_eq}
use spoond.AdmitQueue.{
  Refusal, draining, owner_gone, client_gone, granted, refused, Ticket, Detail, Queue, write, send,
  finish_ticket, settle_grant, settle_owner_gone, time_out, client_leaves, cancel_each, drain_each,
  both, announce, drained,
}
use spoond.AdmitQueue.Answers.{
  Kept, Kept-refl, Kept-trans, closed, forced, left, closed-Kept, forced-Kept, left-Kept,
}

-- The heap `h` with its cell `k` replaced by `f` of it.
abbrev pub at_cell : ℕ → (Ticket → Ticket) → (ℕ → Ticket) → ℕ → Ticket
at_cell k f h j = if j == k then f (h k) else h j

pub at_cell-Kept :
    (k : ℕ) (f : Ticket → Ticket) (h : ℕ → Ticket)
    → Kept (h k) (f (h k))
    → (j : ℕ) → Kept (h j) (at_cell k f h j)
at_cell-Kept k f h p j = elim (Bool-cases (j == k)) [
  | inl e ↦ let m : j ≡ k = ground arith in rw (e, m) p
  | inr e ↦ rw e (Kept-refl (h j))
]

pub settle_grant-cell :
    (k l : ℕ) (q : Queue) (j : ℕ)
    → (settle_grant k l q).heap j ≡ at_cell k (closed (granted l)) q.heap j
unfolding settle_grant finish_ticket send
settle_grant-cell k l q j = ground arith

pub settle_owner_gone-cell :
    (k : ℕ) (e : Refusal) (q : Queue) (j : ℕ)
    → (settle_owner_gone k e q).heap j ≡ at_cell k (closed (refused e)) q.heap j
unfolding settle_owner_gone finish_ticket send
settle_owner_gone-cell k e q j = ground arith

pub time_out-cell :
    (k : ℕ) (q : Queue) (j : ℕ)
    → (time_out k q).heap j ≡ at_cell k (left (q.heap k).refusal) q.heap j
unfolding time_out finish_ticket
time_out-cell k q j = ground arith

pub client_leaves-cell :
    (k : ℕ) (q : Queue) (j : ℕ) → (client_leaves k q).heap j ≡ at_cell k (left client_gone) q.heap j
unfolding client_leaves finish_ticket
client_leaves-cell k q j = ground arith

-- One ticket of a drain, or of a pass that finds it, before the queue is drained.
pub forced-cell :
    (k : ℕ) (d : Detail) (q : Queue) (j : ℕ)
    → (send k (refused draining) (announce k d (finish_ticket k q).1)).heap j
      ≡ at_cell k forced q.heap j
unfolding finish_ticket send
forced-cell k d q j = ground arith

abbrev pub Moves : Queue → Queue → Type 0
Moves q r = (j : ℕ) → Kept (q.heap j) (r.heap j)

pub Moves-refl : (q : Queue) → Moves q q
Moves-refl q j = Kept-refl (q.heap j)

pub Moves-trans : (q r s : Queue) → Moves q r → Moves r s → Moves q s
Moves-trans q r s f g j = Kept-trans (f j) (g j)

-- A section that replaces one cell moves the queue when the replacement keeps that ticket.
pub Moves-cell :
    (q r : Queue) (k : ℕ) (f : Ticket → Ticket)
    → ((j : ℕ) → r.heap j ≡ at_cell k f q.heap j)
    → Kept (q.heap k) (f (q.heap k))
    → Moves q r
Moves-cell q r k f c p j = rw (c j) (at_cell-Kept k f q.heap p j)

pub settle_grant-Moves : (k l : ℕ) (q : Queue) → Moves q (settle_grant k l q)
settle_grant-Moves k l q =
    Moves-cell q (settle_grant k l q) k (closed (granted l)) (settle_grant-cell k l q)
      (closed-Kept (granted l) (q.heap k))

pub settle_owner_gone-Moves : (k : ℕ) (e : Refusal) (q : Queue) → Moves q (settle_owner_gone k e q)
settle_owner_gone-Moves k e q =
    Moves-cell q (settle_owner_gone k e q) k (closed (refused e)) (settle_owner_gone-cell k e q)
      (closed-Kept (refused e) (q.heap k))

pub time_out-Moves : (k : ℕ) (q : Queue) → Moves q (time_out k q)
time_out-Moves k q =
    Moves-cell q (time_out k q) k (left (q.heap k).refusal) (time_out-cell k q)
      (left-Kept (q.heap k).refusal (q.heap k))

pub client_leaves-Moves : (k : ℕ) (q : Queue) → Moves q (client_leaves k q)
client_leaves-Moves k q =
    Moves-cell q (client_leaves k q) k (left client_gone) (client_leaves-cell k q)
      (left-Kept client_gone (q.heap k))

-- One turn of a drain's loop.
abbrev pub drain_one : ℕ → Queue → Queue
drain_one k q =
    if (q.heap k).done
    then q
    else send k (refused draining) (
        announce k drained (record q { heap = write k (record (q.heap k) { done = true }) q.heap }))

pub drain_one-cell :
    (k : ℕ) (q : Queue) (j : ℕ)
    → (drain_one k q).heap j ≡ at_cell k (closed (refused draining)) q.heap j
unfolding send
drain_one-cell k q j = ground arith

pub drain_one-Moves : (k : ℕ) (q : Queue) → Moves q (drain_one k q)
drain_one-Moves k q =
    Moves-cell q (drain_one k q) k (closed (refused draining)) (drain_one-cell k q)
      (closed-Kept (refused draining) (q.heap k))

pub drain_each-Moves : (ks : List ℕ) (q : Queue) → Moves q (drain_each ks q)
unfolding drain_each
drain_each-Moves [] q = Moves-refl q
drain_each-Moves (k ∷ ks) q =
    Moves-trans q (drain_one k q) (drain_each ks (drain_one k q)) (drain_one-Moves k q)
      (drain_each-Moves ks (drain_one k q))

-- One turn of a cancellation's loop.
abbrev pub cancel_one : Text → ℕ → Queue → Queue
cancel_one owner k q =
    if text_eq (q.heap k).owner owner
    then settle_owner_gone k (both owner_gone (q.heap k).refusal) q
    else q

pub cancel_one-Moves : (owner : Text) (k : ℕ) (q : Queue) → Moves q (cancel_one owner k q)
cancel_one-Moves owner k q = elim (Bool-cases (text_eq (q.heap k).owner owner)) [
  | inl e ↦ rw e (settle_owner_gone-Moves k (both owner_gone (q.heap k).refusal) q)
  | inr e ↦ rw e (Moves-refl q)
]

pub cancel_each-Moves : (owner : Text) (ks : List ℕ) (q : Queue) → Moves q (cancel_each owner ks q)
unfolding cancel_each
cancel_each-Moves owner [] q = Moves-refl q
cancel_each-Moves owner (k ∷ ks) q =
    Moves-trans q (cancel_one owner k q) (cancel_each owner ks (cancel_one owner k q))
      (cancel_one-Moves owner k q) (cancel_each-Moves owner ks (cancel_one owner k q))

-- A pass that finds the drain, before it drains the queue.
abbrev pub force : ℕ → Queue → Queue
force k q = send k (refused draining) (announce k drained (finish_ticket k q).1)

pub force-Moves : (k : ℕ) (q : Queue) → Moves q (force k q)
force-Moves k q =
    Moves-cell q (force k q) k forced (forced-cell k drained q) (forced-Kept (q.heap k))
