-- ===== src/AdmitQueue/Sections/Tests.antt =====
-- A ticket whose lease and whose drain meet.
use spoond.Base.{refl, List, [], ◌∷◌, arith}
use spoond.Base.Text.{codes}
use spoond.AdmitQueue.{capacity, initial}
use spoond.AdmitQueue.Sections.{between, Threads, Section, perform, perform_all}
use spoond.AdmitQueue.Sections.Kept.{AllSound, perform_all-AllSound}
use spoond.AdmitQueue.Sections.Placed.{Placed, no_lease_lost}

abbrev at_start : Threads
at_start = record { queue = initial; pass = between; owed = [] }

at_start-AllSound : AllSound at_start
at_start-AllSound j = ground arith

abbrev parks_one : List Section
parks_one = Section.parked (codes "t1") (codes "ann") capacity 0 60 ∷ []

abbrev one_waits : Threads
one_waits = perform_all at_start parks_one

abbrev meets : List Section
meets =
    Section.drain_took
    ∷ Section.drain_reached 1
    ∷ Section.timer_fired 1
    ∷ Section.owed_sent 0
    ∷ Section.pass_went_on
    ∷ []

no_lease_lost_example :
    Placed 1 77 (perform_all (perform (Section.pass_granted 1 77) one_waits) meets)
no_lease_lost_example =
    no_lease_lost 1 77 one_waits meets (perform_all-AllSound at_start parks_one at_start-AllSound)
      (unfold perform_all perform in omega arith) (unfold perform_all perform in refl)
