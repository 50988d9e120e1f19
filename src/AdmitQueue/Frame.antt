-- ===== src/AdmitQueue/Frame.antt =====
-- What the critical sections of api/admitqueue.go leave alone: the counter, the deleted owners and
-- the released leases.
use spoond.Base.{ℕ, ◌≡◌, refl, List, [], ◌∷◌, ◌∙◌, arith, Bool-cases, inl, inr}
use spoond.Base.Text.{Text, text_eq}
use spoond.AdmitQueue.{
  Refusal, Queue, send, finish_ticket, settle_owner_gone, time_out, client_leaves, cancel_each,
  cancel_queued_for_owner, drain_each, drain_queue, settle_draining, both, owner_gone,
}
use spoond.AdmitQueue.Sweeps.{cancel_one, drain_one, force}

pub record Frame (q r : Queue) : Type 0 where
  pub same_seq : r.seq ≡ q.seq
  pub same_deleted : r.deleted ≡ q.deleted
  pub same_released : r.released ≡ q.released

pub Frame-refl : (q : Queue) → Frame q q
Frame-refl q = record { same_seq = refl; same_deleted = refl; same_released = refl }

pub Frame-trans : (q r s : Queue) → Frame q r → Frame r s → Frame q s
Frame-trans q r s a b = record {
  same_seq = b.same_seq ∙ a.same_seq;
  same_deleted = b.same_deleted ∙ a.same_deleted;
  same_released = b.same_released ∙ a.same_released;
}

pub settle_owner_gone-Frame : (k : ℕ) (e : Refusal) (q : Queue) → Frame q (settle_owner_gone k e q)
unfolding settle_owner_gone finish_ticket send
settle_owner_gone-Frame k e q = record {
  same_seq = ground arith;
  same_deleted = ground arith;
  same_released = ground arith;
}

pub time_out-Frame : (k : ℕ) (q : Queue) → Frame q (time_out k q)
unfolding time_out finish_ticket
time_out-Frame k q = record {
  same_seq = ground arith;
  same_deleted = ground arith;
  same_released = ground arith;
}

pub client_leaves-Frame : (k : ℕ) (q : Queue) → Frame q (client_leaves k q)
unfolding client_leaves finish_ticket
client_leaves-Frame k q = record {
  same_seq = ground arith;
  same_deleted = ground arith;
  same_released = ground arith;
}

pub cancel_each-Frame : (owner : Text) (ks : List ℕ) (q : Queue) → Frame q (cancel_each owner ks q)
unfolding cancel_each
cancel_each-Frame owner [] q = Frame-refl q
cancel_each-Frame owner (k ∷ ks) q =
    Frame-trans q (cancel_one owner k q) (cancel_each owner ks (cancel_one owner k q))
      (one owner k q) (cancel_each-Frame owner ks (cancel_one owner k q))
  where
    one : (owner : Text) (k : ℕ) (q : Queue) → Frame q (cancel_one owner k q)
    one owner k q = elim (Bool-cases (text_eq (q.heap k).owner owner)) [
      | inl e ↦ rw e (settle_owner_gone-Frame k (both owner_gone (q.heap k).refusal) q)
      | inr e ↦ rw e (Frame-refl q)
    ]

pub drain_each-Frame : (ks : List ℕ) (q : Queue) → Frame q (drain_each ks q)
unfolding drain_each
drain_each-Frame [] q = Frame-refl q
drain_each-Frame (k ∷ ks) q =
    Frame-trans q (drain_one k q) (drain_each ks (drain_one k q)) (one k q)
      (drain_each-Frame ks (drain_one k q))
  where
    one : (k : ℕ) (q : Queue) → Frame q (drain_one k q)
    one k q = record {
      same_seq = unfold send in ground arith;
      same_deleted = unfold send in ground arith;
      same_released = unfold send in ground arith;
    }

-- A section that first rewrites the list of tickets.
Frame-tickets : (q r : Queue) (ks : List ℕ) → Frame (record q { tickets = ks }) r → Frame q r
Frame-tickets q r ks f = record {
  same_seq = f.same_seq;
  same_deleted = f.same_deleted;
  same_released = f.same_released;
}

pub cancel_queued_for_owner-Frame :
    (owner : Text) (q : Queue) → Frame q (cancel_queued_for_owner owner q)
unfolding cancel_queued_for_owner
cancel_queued_for_owner-Frame owner q = Frame-tickets q _ _ (cancel_each-Frame owner q.tickets _)

pub drain_queue-Frame : (q : Queue) → Frame q (drain_queue q)
unfolding drain_queue
drain_queue-Frame q = Frame-tickets q _ _ (drain_each-Frame q.tickets _)

pub settle_draining-Frame : (k : ℕ) (q : Queue) → Frame q (settle_draining k q)
unfolding settle_draining
settle_draining-Frame k q =
    Frame-trans q (force k q) (drain_queue (force k q)) (one k q) (drain_queue-Frame (force k q))
  where
    one : (k : ℕ) (q : Queue) → Frame q (force k q)
    one k q = record {
      same_seq = unfold finish_ticket send in ground arith;
      same_deleted = unfold finish_ticket send in ground arith;
      same_released = unfold finish_ticket send in ground arith;
    }
