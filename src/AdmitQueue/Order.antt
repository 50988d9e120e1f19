-- ===== src/AdmitQueue/Order.antt =====
-- orderedTickets and ticketPosition of api/admitqueue.go: the fair-share order of the queue.
pub mod Fair
pub mod Position
use spoond.Base.{
  ℕ, zero, suc, ◌+◌, Bool, true, false, ◌||◌, Option, none, some, List, [], ◌∷◌, ltb, ◌==◌,
  if◌then◌else◌, sort_stable, length,
}
use spoond.Base.Text.{Text}
use spoond.Base.Float.{Float64}
use spoond.AdmitQueue.{Queue}

-- The fair-share view when the pass starts: an owner's ratio, or none for an owner it does not know.
-- The two tickets' standings come first, then the tickets.
unfoldable pub ticket_less : (F : Float64) → Option F.Value → Option F.Value → ℕ → ℕ → Bool
ticket_less F (some r) (some s) a b = if F.gtb r s || F.gtb s r then F.gtb s r else ltb a b
ticket_less F (some r) none a b = true
ticket_less F none (some s) a b = false
ticket_less F none none a b = ltb a b

abbrev pub queue_less : (F : Float64) → (Text → Option F.Value) → Queue → ℕ → ℕ → Bool
queue_less F view q a b = ticket_less F (view (q.heap a).owner) (view (q.heap b).owner) a b

unfoldable pub ordered_tickets : (F : Float64) → (Text → Option F.Value) → Queue → List ℕ
unfolding ticket_less sort_stable
ordered_tickets F view q =
    if ltb (length q.tickets) 2 then q.tickets else sort_stable (queue_less F view q) q.tickets

-- The 1-based place in a list, from `i` on; 0 when it is not there.
unfoldable pub place_from : ℕ → ℕ → List ℕ → ℕ
place_from k i [] = 0
place_from k i (x ∷ xs) = if x == k then i + 1 else place_from k (i + 1) xs

unfoldable pub ticket_position : (F : Float64) → (Text → Option F.Value) → Queue → ℕ → ℕ × ℕ
unfolding ordered_tickets place_from
ticket_position F view q k =
    let list = ordered_tickets F view q in (place_from k 0 list, length list)
