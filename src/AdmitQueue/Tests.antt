-- ===== src/AdmitQueue/Tests.antt =====
-- Three creates of two owners wait; one of them is granted, one owner is deleted.
use spoond.Base.{
  if◌then◌else◌, ◌==◌, ◌≡◌, refl, true, false, not, Option, none, some, List, [], ◌∷◌, arith, keep,
}
use mathlib.Core.List.{Perm}
use spoond.Base.Text.{Text, codes, text_eq}
use spoond.Base.Int.{ℤ, pos}
use spoond.Base.FixedPoint.{centi}
use spoond.AdmitQueue.{
  capacity, draining, owner_gone, both, refused, Queue, cancel_queued_for_owner, drain_queue, Event,
  run, initial, admission_wait,
}
use spoond.AdmitQueue.Answers.{Stays}
use spoond.AdmitQueue.Invariant.{IsQueue}
use spoond.AdmitQueue.Final.{run-IsQueue, initial-IsQueue}
use spoond.AdmitQueue.Promises.{
  answer_is_final, drain_queue_refuses, cancel_queued_for_owner_refuses,
}
use spoond.AdmitQueue.Deleted.{deleted_owner_stays_out}
use spoond.AdmitQueue.Order.{ordered_tickets, ticket_position}
use spoond.AdmitQueue.Order.Fair.{IsFair, ordered_tickets-IsFair}

abbrev ann : Text
ann = codes "ann"

abbrev bob : Text
bob = codes "bob"

abbrev arrivals : List Event
arrivals =
    Event.parks (codes "l1") ann capacity 0 60
    ∷ Event.parks (codes "l2") bob capacity 5 60
    ∷ Event.parks (codes "l3") ann capacity 7 60
    ∷ []

abbrev waiting : Queue
waiting = run initial arrivals

-- A grant of 2, its timeout, the end of ann, and a create of hers that comes too late.
abbrev later : List Event
later =
    Event.times_out 2
    ∷ Event.deletes ann
    ∷ Event.cancels ann
    ∷ Event.parks (codes "l4") ann capacity 9 60
    ∷ Event.drains
    ∷ []

queue_ops : Unit {0}
unfolding run text_eq keep ordered_tickets ticket_position admission_wait
queue_ops = tt

waits_at_most : admission_wait (pos 900) (pos 1000) ≡ some (pos 900)
unfolding queue_ops
waits_at_most = refl

waiting_now : waiting.tickets ≡ 1 ∷ 2 ∷ 3 ∷ []
unfolding queue_ops
waiting_now = refl

-- The loser of the race releases its lease.
granted_late : (run waiting (Event.times_out 2 ∷ Event.grants 2 77 ∷ [])).released ≡ 77 ∷ []
unfolding queue_ops
granted_late = refl

waiting-IsQueue : IsQueue waiting
waiting-IsQueue = run-IsQueue initial arrivals initial-IsQueue

answer_is_final_example : Stays (waiting.heap 2) ((run waiting later).heap 2)
unfolding queue_ops
answer_is_final_example = answer_is_final waiting 2 later waiting-IsQueue (omega arith)

drain_queue_refuses_example :
    ((drain_queue waiting).tickets ≡ [])
    × (((drain_queue waiting).heap 3).done ≡ true)
    × (((drain_queue waiting).heap 3).ch ≡ some (refused draining))
unfolding queue_ops
drain_queue_refuses_example = drain_queue_refuses waiting 3 waiting-IsQueue refl

cancel_queued_for_owner_refuses_example :
    ((cancel_queued_for_owner ann waiting).tickets
      ≡ keep (λ k. not (text_eq (waiting.heap k).owner ann)) waiting.tickets)
    × (((cancel_queued_for_owner ann waiting).heap 3).ch
        ≡ some (refused (both owner_gone (waiting.heap 3).refusal)))
unfolding queue_ops
cancel_queued_for_owner_refuses_example =
    cancel_queued_for_owner_refuses ann waiting 3 waiting-IsQueue refl refl

abbrev ann_deleted : Queue
ann_deleted = run waiting (Event.deletes ann ∷ [])

abbrev too_late : List Event
too_late =
    Event.parks (codes "l4") ann capacity 9 60 ∷ Event.parks (codes "l5") bob capacity 9 60 ∷ []

ann_deleted-IsQueue : IsQueue ann_deleted
ann_deleted-IsQueue = run-IsQueue waiting (Event.deletes ann ∷ []) waiting-IsQueue

deleted_owner_stays_out_example :
    text_eq ((run (cancel_queued_for_owner ann ann_deleted) too_late).heap 4).owner ann ≡ false
unfolding queue_ops
deleted_owner_stays_out_example =
    deleted_owner_stays_out ann ann_deleted too_late 4 ann_deleted-IsQueue refl refl

-- bob uses less of his slice than ann; nobody else is known.
abbrev view : Text → Option ℤ
view [] = none
view (c ∷ t) = if c == 98 then some (pos 40) else some (pos 90)

bob_first : ordered_tickets centi view waiting ≡ 2 ∷ 1 ∷ 3 ∷ []
unfolding queue_ops
bob_first = refl

ordered_tickets-IsFair_example :
    Perm (ordered_tickets centi view waiting) waiting.tickets
    × IsFair centi view waiting (ordered_tickets centi view waiting)
ordered_tickets-IsFair_example = ordered_tickets-IsFair centi view waiting
