-- ===== src/AdmitQueue/Sections.antt =====
-- api/admitqueue.go section by section: what a thread does between two sections of the queue's lock,
-- and what the others do meanwhile.
pub mod Kept
pub mod Placed
mod Tests
use spoond.Base.{
  ℕ, zero, suc, ◌≡◌, Bool, true, false, ◌||◌, Option, none, some, List, [], ◌∷◌, leb, ◌==◌,
  if◌then◌else◌, keep, not,
}
use spoond.Base.Text.{Text, text_eq}
use spoond.AdmitQueue.{
  Refusal, draining, owner_gone, both, Outcome, granted, refused, Ticket, Detail, drained,
  owner_deleted, Queue, write, new_ticket, mark_owner_deleted, send, finish_ticket, announce,
  time_out, client_leaves,
}

-- Where the pass stands that holds admitMu: between its tickets, after a finishTicket that it has won
-- for a lease, before the release of a lease, or before the answer of a refusal.
pub data PassAt : Type 0 where
  between : PassAt
  granting : (k lease : ℕ) → PassAt
  giving_back : (lease : ℕ) → PassAt
  refusing : (k : ℕ) (e : Refusal) → PassAt

-- `owed`: the refusals of tickets that sweeps have finished and not yet sent.
pub record Threads : Type 0 where
  pub queue : Queue
  pub pass : PassAt
  pub owed : List (ℕ × Refusal)

-- tryAdmitQueued with a lease: finishTicket.
abbrev pub take_grant : ℕ → ℕ → Threads → Bool × Queue → Threads
take_grant k l s (true, q) = record s { queue = q; pass = granting k l }
take_grant k l s (false, q) = record s { queue = q; pass = giving_back l }

abbrev pub take_gone : ℕ → Refusal → Threads → Bool × Queue → Threads
take_gone k e s (true, q) = record s { queue = announce k owner_deleted q; pass = refusing k e }
take_gone k e s (false, q) = record s { queue = q }

-- The pass answers a drain whoever finished the ticket.
abbrev pub take_drain : ℕ → Threads → Bool × Queue → Threads
take_drain k s (won, q) = record s { queue = announce k drained q; pass = refusing k draining }

-- The rest of what the pass does for its ticket: t.send, or the release of the lease.
unfoldable pub pass_goes_on : PassAt → Threads → Threads
unfolding send
pass_goes_on between s = s
pass_goes_on (granting k l) s = record s { queue = send k (granted l) s.queue; pass = between }
pass_goes_on (giving_back l) s = record s {
  queue = record s.queue { released = l ∷ s.queue.released };
  pass = between;
}
pass_goes_on (refusing k e) s = record s { queue = send k (refused e) s.queue; pass = between }

-- drainQueue at one ticket of the list that it took: the section, before the send.
unfoldable pub drain_reaches : ℕ → Threads → Threads
drain_reaches k s = if (s.queue.heap k).done then s else record s {
  queue =
      announce k drained
        (record s.queue { heap = write k (record (s.queue.heap k) { done = true }) s.queue.heap });
  owed = (k, draining) ∷ s.owed;
}

-- cancelQueuedForOwner at one ticket of the list that it took: finishTicket, before the send.
abbrev pub take_cancel : ℕ → Threads → Bool × Queue → Threads
take_cancel k s (true, q) = record s {
  queue = announce k owner_deleted q;
  owed = (k, both owner_gone (s.queue.heap k).refusal) ∷ s.owed;
}
take_cancel k s (false, q) = record s { queue = q }

-- One of the sends that sweeps owe.
unfoldable pub send_owed : ℕ → List (ℕ × Refusal) → Queue → Queue × List (ℕ × Refusal)
unfolding send
send_owed n [] q = (q, [])
send_owed zero ((k, e) ∷ ws) q = (send k (refused e) q, ws)
send_owed (suc n) (w ∷ ws) q = let (q', rest) = send_owed n ws q in (q', w ∷ rest)

-- A pass starts on a ticket only between two, and the ticket is one that was queued.
abbrev pub if_between : PassAt → Threads → Threads → Threads
if_between between s s' = s'
if_between (granting k l) s s' = s
if_between (giving_back l) s s' = s
if_between (refusing k e) s s' = s

pub data Section : Type 0 where
  parked : (id owner : Text) (refusal : Refusal) (now wait : ℕ) → Section
  marked : (owner : Text) → Section
  pass_granted : (k lease : ℕ) → Section
  pass_owner_gone : (k : ℕ) (e : Refusal) → Section
  pass_draining : (k : ℕ) → Section
  pass_went_on : Section
  -- the first section of drainQueue, and the one for a ticket
  drain_took : Section
  drain_reached : (k : ℕ) → Section
  -- the same of cancelQueuedForOwner
  cancel_took : (owner : Text) → Section
  cancel_reached : (k : ℕ) → Section
  owed_sent : (n : ℕ) → Section
  timer_fired : (k : ℕ) → Section
  client_gone_at : (k : ℕ) → Section

unfoldable pub perform : Section → Threads → Threads
unfolding new_ticket mark_owner_deleted finish_ticket pass_goes_on drain_reaches send_owed time_out
    client_leaves
perform (parked id owner refusal now wait) s = record s {
  queue = (new_ticket id owner refusal now wait s.queue).1;
}
perform (marked owner) s = record s { queue = mark_owner_deleted owner s.queue }
perform (pass_granted k l) s = if_between s.pass s (take_grant k l s (finish_ticket k s.queue))
perform (pass_owner_gone k e) s = if_between s.pass s (take_gone k e s (finish_ticket k s.queue))
perform (pass_draining k) s =
    if leb k s.queue.seq then if_between s.pass s (take_drain k s (finish_ticket k s.queue)) else s
perform pass_went_on s = pass_goes_on s.pass s
perform drain_took s = record s { queue = record s.queue { tickets = [] } }
perform (drain_reached k) s = drain_reaches k s
perform (cancel_took owner) s =
    let others = keep (λ k. not (text_eq (s.queue.heap k).owner owner)) s.queue.tickets in
    record s { queue = record s.queue { tickets = others } }
perform (cancel_reached k) s = take_cancel k s (finish_ticket k s.queue)
perform (owed_sent n) s =
    let (q, ws) = send_owed n s.owed s.queue in record s { queue = q; owed = ws }
perform (timer_fired k) s = record s { queue = time_out k s.queue }
perform (client_gone_at k) s = record s { queue = client_leaves k s.queue }

-- Sections of any threads in any order.
unfoldable pub perform_all : Threads → List Section → Threads
unfolding perform
perform_all s [] = s
perform_all s (x ∷ xs) = perform_all (perform x s) xs
