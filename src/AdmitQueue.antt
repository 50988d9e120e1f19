-- ===== src/AdmitQueue.antt =====
-- Queued admission, api/admitqueue.go: tickets, their answers, and the operations on them, each run to
-- its end without others in between. A ticket is known by its sequence number, which stands for its pointer.
pub mod Answers
pub mod Sweeps
pub mod Waiting
pub mod Invariant
pub mod Cancel
pub mod Frame
pub mod Final
pub mod Promises
pub mod Deleted
pub mod Order
pub mod Pass
pub mod Sections
mod Tests
use spoond.Base.{
  ℕ, zero, suc, ◌+◌, ◌*◌, ◌≡◌, Bool, true, false, not, ◌&&◌, ◌||◌, Option, none, some, List, [],
  ◌∷◌, ◌++◌, leb, ltb, ◌==◌, if◌then◌else◌, keep, sort_stable, map,
}
use spoond.Base.Text.{Text, text_eq}
use spoond.Base.Int.{ℤ, pos, ltb_ℤ, leb_ℤ}
use spoond.Base.Float.{Float64}

-- What a create is refused with. `both` wraps two errors.
pub data Refusal : Type 0 where
  capacity draining owner_gone client_gone : Refusal
  other : Text → Refusal
  both : Refusal → Refusal → Refusal

pub data Outcome : Type 0 where
  granted : (lease : ℕ) → Outcome
  refused : Refusal → Outcome

pub record Ticket : Type 0 where
  pub id : Text
  pub owner : Text
  pub refusal : Refusal
  pub queued_at : ℕ
  pub deadline : ℕ
  pub done : Bool
  -- The one-place channel.
  pub ch : Option Outcome
  -- The refusal that its handler has returned with, without reading the channel.
  pub returned : Option Refusal

-- The detail of a timed_out event.
pub data Detail : Type 0 where
  waited gone drained owner_deleted : Detail

pub record Queue : Type 0 where
  pub heap : ℕ → Ticket
  pub tickets : List ℕ
  pub seq : ℕ
  pub deleted : Text → Bool
  pub released : List ℕ
  pub timed_out : List (ℕ × Detail)

abbrev pub write : ℕ → Ticket → (ℕ → Ticket) → ℕ → Ticket
write k t heap j = if j == k then t else heap j

abbrev pub without : ℕ → List ℕ → List ℕ
without k = keep (λ j. not (j == k))

-- The wait that a request gets: none, or its seconds up to the cap.
unfoldable pub admission_wait : ℤ → ℤ → Option ℤ
admission_wait max_secs wait_secs =
    let limit = if ltb_ℤ max_secs (pos 0) then pos 0 else max_secs in
    if leb_ℤ wait_secs (pos 0)
    then none
    else if leb_ℤ limit (pos 0)
    then none
    else some (if ltb_ℤ limit wait_secs then limit else wait_secs)

unfoldable pub mark_owner_deleted : Text → Queue → Queue
mark_owner_deleted owner q = record q { deleted = λ o. text_eq o owner || q.deleted o }

-- newAdmissionTicket. `none` is the nil that refuses a deleted owner.
unfoldable pub new_ticket : Text → Text → Refusal → ℕ → ℕ → Queue → Option ℕ × Queue
new_ticket id owner refusal now wait q =
    let k = suc q.seq in
    if q.deleted owner then (none, q) else (
      some k,
      record q {
        seq = k;
        heap =
            write k
              (record {
                id = id;
                owner = owner;
                refusal = refusal;
                queued_at = now;
                deadline = now + wait;
                done = false;
                ch = none;
                returned = none;
              })
              q.heap;
        tickets = q.tickets ++ k ∷ [];
      },
    )

-- `send` delivers at most once: a full channel keeps what it holds.
abbrev pub sent : Outcome → Ticket → Ticket
sent o t = record t { ch = elim t.ch [ none ↦ some o | some p ↦ some p ] }

unfoldable pub send : ℕ → Outcome → Queue → Queue
send k o q = record q { heap = write k (sent o (q.heap k)) q.heap }

-- finishTicket: whether the caller won, and the queue without the ticket.
unfoldable pub finish_ticket : ℕ → Queue → Bool × Queue
finish_ticket k q = if (q.heap k).done then (false, q) else (
  true,
  record q {
    heap = write k (record (q.heap k) { done = true }) q.heap;
    tickets = without k q.tickets;
  },
)

abbrev pub announce : ℕ → Detail → Queue → Queue
announce k d q = record q { timed_out = (k, d) ∷ q.timed_out }

-- tryAdmitQueued after a grant, undisturbed between finishTicket and the send: the winner answers with the lease, or the lease is released.
abbrev pub answer_grant : ℕ → ℕ → Bool × Queue → Queue
answer_grant k lease (true, q) = send k (granted lease) q
answer_grant k lease (false, q) = record q { released = lease ∷ q.released }

unfoldable pub settle_grant : ℕ → ℕ → Queue → Queue
unfolding finish_ticket send
settle_grant k lease q = answer_grant k lease (finish_ticket k q)

-- tryAdmitQueued and cancelQueuedForOwner on a deleted owner: only the winner answers.
abbrev pub answer_gone : ℕ → Refusal → Bool × Queue → Queue
answer_gone k e (true, q) = send k (refused e) (announce k owner_deleted q)
answer_gone k e (false, q) = q

unfoldable pub settle_owner_gone : ℕ → Refusal → Queue → Queue
unfolding finish_ticket send
settle_owner_gone k e q = answer_gone k e (finish_ticket k q)

-- cancelQueuedForOwner, undisturbed: the owner's tickets leave the queue in one section, then each is settled.
unfoldable pub cancel_each : Text → List ℕ → Queue → Queue
unfolding settle_owner_gone
cancel_each owner [] q = q
cancel_each owner (k ∷ ks) q = cancel_each owner ks (
    if text_eq (q.heap k).owner owner
    then settle_owner_gone k (both owner_gone (q.heap k).refusal) q
    else q)

unfoldable pub cancel_queued_for_owner : Text → Queue → Queue
unfolding cancel_each
cancel_queued_for_owner owner q =
    cancel_each owner q.tickets
      (record q { tickets = keep (λ k. not (text_eq (q.heap k).owner owner)) q.tickets })

-- drainQueue, undisturbed: the queue is emptied in one section, then each ticket that is not done is answered.
unfoldable pub drain_each : List ℕ → Queue → Queue
unfolding send
drain_each [] q = q
drain_each (k ∷ ks) q = drain_each ks (
    if (q.heap k).done
    then q
    else send k (refused draining) (
        announce k drained
          (record q { heap = write k (record (q.heap k) { done = true }) q.heap })))

unfoldable pub drain_queue : Queue → Queue
unfolding drain_each
drain_queue q = drain_each q.tickets (record q { tickets = [] })

-- tryAdmitQueued when the drain has started: the ticket is answered whoever finished it.
unfoldable pub settle_draining : ℕ → Queue → Queue
unfolding finish_ticket send drain_queue
settle_draining k q =
    drain_queue (send k (refused draining) (announce k drained (finish_ticket k q).1))

-- waitForAdmission on its timer or a gone client: the winner returns, the loser reads the channel.
abbrev pub leave : ℕ → Detail → Refusal → Bool × Queue → Queue
leave k d e (true, q) =
    announce k d (record q { heap = write k (record (q.heap k) { returned = some e }) q.heap })
leave k d e (false, q) = q

unfoldable pub time_out : ℕ → Queue → Queue
unfolding finish_ticket
time_out k q = leave k waited (q.heap k).refusal (finish_ticket k q)

unfoldable pub client_leaves : ℕ → Queue → Queue
unfolding finish_ticket
client_leaves k q = leave k gone client_gone (finish_ticket k q)

-- The operations in the order in which they happen, each undisturbed.
pub data Event : Type 0 where
  parks : (id owner : Text) (refusal : Refusal) (now wait : ℕ) → Event
  grants : (k lease : ℕ) → Event
  finds_owner_gone : (k : ℕ) (e : Refusal) → Event
  finds_drain times_out leaves : (k : ℕ) → Event
  deletes cancels : Text → Event
  drains : Event

unfoldable pub step : Event → Queue → Queue
unfolding new_ticket settle_grant settle_owner_gone settle_draining time_out client_leaves
    mark_owner_deleted cancel_queued_for_owner drain_queue
step (parks id owner refusal now wait) q = (new_ticket id owner refusal now wait q).1
step (grants k lease) q = settle_grant k lease q
step (finds_owner_gone k e) q = settle_owner_gone k e q
step (finds_drain k) q = settle_draining k q
step (times_out k) q = time_out k q
step (leaves k) q = client_leaves k q
step (deletes owner) q = mark_owner_deleted owner q
step (cancels owner) q = cancel_queued_for_owner owner q
step drains q = drain_queue q

unfoldable pub run : Queue → List Event → Queue
unfolding step
run q [] = q
run q (e ∷ es) = run (step e q) es

abbrev pub no_ticket : Ticket
no_ticket = record {
  id = [];
  owner = [];
  refusal = capacity;
  queued_at = 0;
  deadline = 0;
  done = true;
  ch = none;
  returned = some capacity;
}

-- The queue at the start of the process. Nothing is allocated: each cell is a ticket long over.
abbrev pub initial : Queue
initial = record {
  heap = λ _. no_ticket;
  tickets = [];
  seq = 0;
  deleted = λ _. false;
  released = [];
  timed_out = [];
}
