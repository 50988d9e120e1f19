-- ===== src/AdmitQueue/Cancel.antt =====
-- cancelQueuedForOwner of api/admitqueue.go: what a user's delete leaves in the queue.
use spoond.Base.{
  ℕ, ◌≡◌, refl, sym, ap, Bool, true, false, not, ◌&&◌, ◌||◌, List, [], ◌∷◌, arith, ◌==◌,
  if◌then◌else◌, Bool-cases, inl, inr, keep, ◌∙◌,
}
use spoond.Base.Text.{Text, text_eq}
use spoond.AdmitQueue.{
  owner_gone, Outcome, refused, Queue, settle_owner_gone, finish_ticket, send, both, cancel_each,
  cancel_queued_for_owner,
}
use spoond.AdmitQueue.Answers.{closed}
use spoond.AdmitQueue.Sweeps.{Moves, cancel_one, cancel_each-Moves, at_cell, settle_owner_gone-cell}
use spoond.AdmitQueue.Waiting.{has, has-keep, without_absent}
use spoond.AdmitQueue.Invariant.{at_cell-done, IsQueue, IsQueue-Moves}

abbrev pub owned : Text → Queue → ℕ → Bool
owned owner q j = text_eq (q.heap j).owner owner

closed_owner :
    (k : ℕ) (o : Outcome) (q : Queue) (j : ℕ)
    → (at_cell k (closed o) q.heap j).owner ≡ (q.heap j).owner
closed_owner k o q j = elim (Bool-cases (j == k)) [
  | inl e ↦ let m : j ≡ k = ground arith in rw (e, m) (ground arith)
  | inr e ↦ rw e refl
]

cancel_one-owned :
    (owner : Text) (k : ℕ) (q : Queue) (j : ℕ)
    → owned owner (cancel_one owner k q) j ≡ owned owner q j
cancel_one-owned owner k q j =
    let c = settle_owner_gone-cell k (both owner_gone (q.heap k).refusal) q j in
    elim (Bool-cases (owned owner q k)) [
      | inl e ↦ rw (e, c, closed_owner k (refused (both owner_gone (q.heap k).refusal)) q j) refl
      | inr e ↦ rw e refl
    ]

index_eq : (j k : ℕ) → (j == k) ≡ true → j ≡ k
index_eq j k h = ground arith

done_if_owned : (b c o p : Bool) → (c ≡ true → o ≡ p) → (if p then b || c else b) ≡ (b || (c && o))
done_if_owned b true o p h = let e = h refl in ground arith
done_if_owned b false o p h = ground arith

cancel_one-done :
    (owner : Text) (k : ℕ) (q : Queue) (j : ℕ)
    → ((cancel_one owner k q).heap j).done ≡ ((q.heap j).done || ((j == k) && owned owner q j))
cancel_one-done owner k q j =
    let e = both owner_gone (q.heap k).refusal in
    let c = settle_owner_gone-cell k e q j in
    let d = at_cell-done k (closed (refused e)) q j (ground arith) in
    let r =
      done_if_owned (q.heap j).done (j == k) (owned owner q j) (owned owner q k)
        (λ m. ap (owned owner q) (index_eq j k m)) in
    elim (Bool-cases (owned owner q k)) [
      | inl x ↦
          let y : ((q.heap j).done || (j == k))
              ≡ ((q.heap j).done || ((j == k) && owned owner q j)) =
            rw x at r in
          rw (x, c, d) y
      | inr x ↦
          let y : (q.heap j).done ≡ ((q.heap j).done || ((j == k) && owned owner q j)) =
            rw x at r in
          rw x y
    ]

-- The tickets of the owner are not in the queue any more when their turn comes.
cancel_one-tickets :
    (owner : Text) (k : ℕ) (q : Queue)
    → (owned owner q k ≡ true → has k q.tickets ≡ false)
    → (cancel_one owner k q).tickets ≡ q.tickets
cancel_one-tickets owner k q h = elim (Bool-cases (owned owner q k)) [
  | inl e ↦
      let w = without_absent k q.tickets (h e) in
      rw e (unfold settle_owner_gone finish_ticket send in ground arith)
  | inr e ↦ rw e refl
]

pub cancel_each-done :
    (owner : Text) (ks : List ℕ) (q : Queue) (j : ℕ)
    → ((cancel_each owner ks q).heap j).done ≡ ((q.heap j).done || (has j ks && owned owner q j))
unfolding cancel_each
cancel_each-done owner [] q j = ground arith
cancel_each-done owner (k ∷ ks) q j =
    let r = cancel_each-done owner ks (cancel_one owner k q) j in
    let d = cancel_one-done owner k q j in
    let o = cancel_one-owned owner k q j in rw (r, d, o) ground arith

pub cancel_each-tickets :
    (owner : Text) (ks : List ℕ) (q : Queue)
    → ((k : ℕ) → owned owner q k ≡ true → has k q.tickets ≡ false)
    → (cancel_each owner ks q).tickets ≡ q.tickets
unfolding cancel_each
cancel_each-tickets owner [] q h = refl
cancel_each-tickets owner (k ∷ ks) q h =
    let t = cancel_one-tickets owner k q (h k) in
    cancel_each-tickets owner ks (cancel_one owner k q)
      (λ j m. rw t (h j (sym (cancel_one-owned owner k q j) ∙ m)))
    ∙ t

pub cancel_queued_for_owner-Moves :
    (owner : Text) (q : Queue) → Moves q (cancel_queued_for_owner owner q)
unfolding cancel_queued_for_owner
cancel_queued_for_owner-Moves owner q =
    cancel_each-Moves owner q.tickets
      (record q { tickets = keep (λ k. not (text_eq (q.heap k).owner owner)) q.tickets })

-- Exactly the owner's tickets leave the queue, and the rest keep their order.
pub cancel_queued_for_owner-tickets :
    (owner : Text) (q : Queue)
    → (cancel_queued_for_owner owner q).tickets
      ≡ keep (λ k. not (text_eq (q.heap k).owner owner)) q.tickets
unfolding cancel_queued_for_owner
cancel_queued_for_owner-tickets owner q =
    let others = keep (λ k. not (owned owner q k)) q.tickets in
    cancel_each-tickets owner q.tickets (record q { tickets = others })
      (λ k m. let w = has-keep (λ x. not (owned owner q x)) k q.tickets in rw (w, m) ground arith)

pub cancel_queued_for_owner-done :
    (owner : Text) (q : Queue) (j : ℕ)
    → ((cancel_queued_for_owner owner q).heap j).done
      ≡ ((q.heap j).done || (has j q.tickets && owned owner q j))
unfolding cancel_queued_for_owner
cancel_queued_for_owner-done owner q j =
    cancel_each-done owner q.tickets
      (record q { tickets = keep (λ k. not (owned owner q k)) q.tickets }) j

pub cancel_queued_for_owner-IsQueue :
    (owner : Text) (q : Queue) → IsQueue q → IsQueue (cancel_queued_for_owner owner q)
cancel_queued_for_owner-IsQueue owner q i =
    IsQueue-Moves q (cancel_queued_for_owner owner q) i (cancel_queued_for_owner-Moves owner q)
      (λ j h.
        let w = has-keep (λ x. not (owned owner q x)) j q.tickets in
        rw (cancel_queued_for_owner-tickets owner q, cancel_queued_for_owner-done owner q j, w, h)
          ground arith)
