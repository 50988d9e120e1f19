-- ===== src/AdmitQueue/Pass/Tests.antt =====
-- A pass over three tickets: 1 finds no room, 2 times out while its lease is made, 3 gets its lease.
use spoond.Base.{
  ℕ, ◌+◌, ◌≡◌, refl, false, Option, none, some, List, [], ◌∷◌, keep, sort_stable, if◌then◌else◌,
  ◌==◌,
}
use spoond.Base.Text.{codes, text_eq}
use spoond.Base.FixedPoint.{centi}
use spoond.AdmitQueue.{capacity, Queue, Event, run, initial}
use spoond.AdmitQueue.Pass.{Host, leased, failed, Attempt, try_admit_queued}

abbrev arrivals : List Event
arrivals =
    Event.parks (codes "l1") (codes "ann") capacity 0 60
    ∷ Event.parks (codes "l2") (codes "bob") capacity 5 60
    ∷ Event.parks (codes "l3") (codes "ann") capacity 7 60
    ∷ []

abbrev waiting : Queue
waiting = run initial arrivals

abbrev times : ℕ → List Event
times k = if k == 2 then Event.times_out 2 ∷ [] else []

abbrev host : Host centi
host = record {
  State = ℕ;
  view = λ s owner. none;
  capacity_gen = λ s. s;
  is_drained = λ s. false;
  meanwhile = λ s. (s, []);
  grant_lease = λ k s. (if k == 1 then failed capacity else leased (70 + k), s, times k);
}

abbrev no_parks : ℕ → ℕ
no_parks s = 0

pass_ops : Unit {0}
unfolding try_admit_queued run text_eq keep sort_stable
pass_ops = tt

abbrev released_by : Option (Attempt centi host) → List ℕ
released_by none = []
released_by (some p) = p.queue.released

abbrev left_by : Option (Attempt centi host) → List ℕ
left_by none = []
left_by (some p) = p.queue.tickets

late_lease : released_by (try_admit_queued centi host 20 5 waiting) ≡ 72 ∷ []
unfolding pass_ops
late_lease = refl

first_still_waits : left_by (try_admit_queued centi host 20 5 waiting) ≡ 1 ∷ []
unfolding pass_ops
first_still_waits = refl
