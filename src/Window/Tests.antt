-- ===== src/Window/Tests.antt =====
-- A take-back of ann's lease by the memory floor, a pin that comes meanwhile, and another operation.
use spoond.Base.{◌-◌, ◌≤◌, ◌≡◌, refl, true, false, none, List, [], ◌∷◌}
use spoond.Base.Text.{codes, text_eq}
use spoond.Window.{
  Held, running, PauseKind, by_policy, take_back, failed, refused, idle, ending, Scene,
  next_section, pauses, resumes, sets_pin, releases, change, Moment, starts, advances, changes,
  happen, history,
}
use spoond.Window.Exclusive.{IsExclusive, history-IsExclusive}
use spoond.Window.Ends.{left_of, own_steps, window_ends}
use spoond.Window.Gone.{IsFrozenAs, release_is_final}

abbrev fresh : Held
fresh = record {
  owner = codes "ann";
  status = running;
  is_suspended = false;
  released = false;
  busy = false;
  drained = false;
  pinned = false;
  exec_pins = 0;
  jobs = 0;
  taken_for = none;
  taken_back = false;
}

abbrev quiet : Scene
quiet = record { lease = fresh; pc = λ k. idle }

quiet-IsExclusive : IsExclusive quiet
quiet-IsExclusive = record { set = λ k h. h; single = λ j k h h'. cc; owner = λ h. cc }

abbrev floor_take : PauseKind
floor_take = take_back (codes "memory_pressure") false

-- Thread 0 takes the lease back, thread 1 tries to suspend it by hand and is refused.
abbrev opening : List Moment
opening = starts 0 (pauses floor_take) ∷ starts 1 (pauses (by_policy false false)) ∷ []

abbrev pin_lands : List Moment
pin_lands =
    changes (sets_pin true)
    ∷ advances 0 true
    ∷ advances 0 true
    ∷ starts 1 resumes
    ∷ advances 0 true
    ∷ advances 0 true
    ∷ []

window_ops : Unit {0}
unfolding history happen next_section change text_eq
window_ops = tt

abbrev opened : Scene
opened = history (changes (sets_pin true) ∷ []) (history opening quiet)

pin_wins_here : (history pin_lands (history opening quiet)).pc 0 ≡ ending refused
unfolding window_ops
pin_wins_here = refl

runs_again : (history pin_lands (history opening quiet)).lease.status ≡ running
unfolding window_ops
runs_again = refl

history-IsExclusive_example : IsExclusive (history pin_lands quiet)
history-IsExclusive_example = history-IsExclusive pin_lands quiet quiet-IsExclusive

abbrev rest_of_it : List Moment
rest_of_it =
    advances 0 true ∷ advances 0 true ∷ starts 1 resumes ∷ advances 0 true ∷ advances 0 true ∷ []

abbrev to_the_end : List Moment
to_the_end =
    advances 0 true
    ∷ advances 0 true
    ∷ starts 1 resumes
    ∷ advances 0 true
    ∷ advances 0 true
    ∷ advances 0 true
    ∷ []

window_ends_example :
    left_of ((history to_the_end opened).pc 0) ≤ left_of (opened.pc 0) - own_steps 0 to_the_end
window_ends_example = window_ends 0 to_the_end opened refl

-- Released while the substrate takes the snapshot.
abbrev released_meanwhile : Scene
released_meanwhile = history (changes releases ∷ []) (history opening quiet)

release_is_final_example :
    IsFrozenAs released_meanwhile.lease (history rest_of_it released_meanwhile).lease
release_is_final_example =
    release_is_final rest_of_it released_meanwhile (unfold window_ops in refl)

fails_after_release : (history (advances 0 true ∷ []) released_meanwhile).pc 0 ≡ ending failed
unfolding window_ops
fails_after_release = refl
