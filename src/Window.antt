-- ===== src/Window.antt =====
-- The busy window of one lease: pauses, take-back pauses, resumes and other lifecycle operations on any
-- number of threads, one section under the store's lock at a time (api/service.go, api/take_back.go,
-- api/held.go).
mod Cases
pub mod Exclusive
pub mod Pins
pub mod Ends
pub mod Gone
mod Tests
use spoond.Base.{
  ℕ, zero, suc, ◌-◌, Bool, true, false, not, ◌&&◌, ◌||◌, Option, none, some, List, [], ◌∷◌, ltb,
  leb, ◌==◌, if◌then◌else◌,
}
use spoond.Base.Owner.{put_at}
use spoond.Base.Text.{Text, text_eq}

-- Lease.State
pub data Status : Type 0 where
  running recovered suspended lost : Status

-- The fields that these sections read and write. `taken_for` is the take-back stamp (TakeBackFor,
-- TakeBackAt), `taken_back` says that SuspendReason is take_back, `jobs` is runningJobs of the lease.
pub record Held : Type 0 where
  pub owner : Text
  pub status : Status
  pub is_suspended : Bool
  pub released : Bool
  pub busy : Bool
  pub drained : Bool
  pub pinned : Bool
  pub exec_pins : ℕ
  pub jobs : ℕ
  pub taken_for : Option Text
  pub taken_back : Bool

abbrev pub is_live : Status → Bool
is_live running = true
is_live recovered = true
is_live suspended = false
is_live lost = false

abbrev pub is_lost : Status → Bool
is_lost lost = true
is_lost _ = false

abbrev pub is_running : Status → Bool
is_running running = true
is_running _ = false

-- pinnedLocked and hasRunningJobLocked
abbrev pub is_pinned : Held → Bool
is_pinned l = l.pinned || ltb 0 l.exec_pins

abbrev pub runs_job : Held → Bool
runs_job l = ltb 0 l.jobs

-- pauseLeaseWith with drained and refusePinned, and takeBackPauseWith with the requester and takePinned.
pub data PauseKind : Type 0 where
  by_policy : Bool → Bool → PauseKind
  take_back : Text → Bool → PauseKind

-- The result of an operation: it went through, its substrate call failed or the lease was released, or
-- the lease was busy or a pin or job won.
pub data Ended : Type 0 where
  done failed refused : Ended

-- Where a thread stands, between two sections.
pub data Place : Type 0 where
  idle : Place
  -- in the substrate's Pause
  pausing : PauseKind → Place
  -- after pauseLeaseBody, before the stamp of a take-back
  settling : Text → Bool → Place
  -- a pin won: before leaseReleased of unTakeBackResume
  undoing : Place
  -- in its resumeLeaseBody
  unresuming : Place
  -- in resumeLeaseBody of resumeLease
  resuming : Place
  -- before endBusy
  ending : Ended → Place

pub record Scene : Type 0 where
  pub lease : Held
  pub pc : ℕ → Place

abbrev pub move : ℕ → Place → Held → Scene → Scene
move k v l s = record { lease = l; pc = put_at k v s.pc }

-- The guard of an operation and `l.busy = true`, in one section.
abbrev pub enter : Bool → ℕ → Place → Scene → Scene
enter true k v s = move k v (record s.lease { busy = true }) s
enter false k v s = s

abbrev pub may_pause : PauseKind → Held → Bool
may_pause (by_policy drained refuse_pinned) l = not (l.busy || (refuse_pinned && is_pinned l))
may_pause (take_back requester take_pinned) l = not (
    l.released
    || l.busy
    || l.is_suspended
    || not (is_live l.status)
    || (is_pinned l && not take_pinned)
    || runs_job l
    || text_eq l.owner requester)

-- resumeLease; a running lease has nothing to resume.
abbrev pub may_resume : Held → Bool
may_resume l = not (l.busy || is_lost l.status || (not l.is_suspended && is_running l.status))

-- trySetBusy
abbrev pub may_hold : Held → Bool
may_hold l = not (l.busy || l.released || not (is_live l.status))

-- pauseLeaseBody, its last section on a lease that is not released.
abbrev pub suspend : PauseKind → Held → Held
suspend (by_policy drained refuse_pinned) l = record l {
  status = suspended;
  is_suspended = true;
  drained = drained || l.drained;
  taken_back = false;
}
suspend (take_back requester take_pinned) l = record l {
  status = suspended;
  is_suspended = true;
  taken_back = true;
}

-- resumeLeaseBody, its last section on a lease that is not released, with setState.
abbrev pub wake_up : Held → Held
wake_up l = record l {
  status = running;
  is_suspended = false;
  drained = false;
  taken_for = none;
  taken_back = false;
}

abbrev pub after_body : PauseKind → Place
after_body (by_policy drained refuse_pinned) = ending done
after_body (take_back requester take_pinned) = settling requester take_pinned

abbrev pub body_ends : PauseKind → ℕ → Scene → Scene
body_ends kind k s =
    if s.lease.released
    then move k (ending failed) s.lease s
    else move k (after_body kind) (suspend kind s.lease) s

-- takeBackPauseWith after the pause: released or resumed meanwhile, undone by a pin or a job, or stamped.
abbrev pub settle_take_back : Text → Bool → ℕ → Scene → Scene
settle_take_back requester take_pinned k s =
    if not s.lease.is_suspended || s.lease.released
    then move k (ending refused) s.lease s
    else if (is_pinned s.lease && not take_pinned) || runs_job s.lease
    then move k undoing s.lease s
    else move k (ending done) (record s.lease { taken_for = some requester }) s

-- The result on a released lease, and on one that comes back.
abbrev pub resumed_to : Ended → Ended → ℕ → Scene → Scene
resumed_to gone result k s =
    if s.lease.released
    then move k (ending gone) s.lease s
    else move k (ending result) (wake_up s.lease) s

-- The next section of a thread. The Bool is what the substrate and the store have answered.
unfoldable pub next_section : Place → Bool → ℕ → Scene → Scene
next_section idle ok k s = s
next_section (pausing kind) true k s = body_ends kind k s
next_section (pausing kind) false k s = move k (ending failed) s.lease s
next_section (settling requester take_pinned) ok k s = settle_take_back requester take_pinned k s
next_section undoing ok k s =
    move k (if s.lease.released then ending refused else unresuming) s.lease s
next_section unresuming true k s = resumed_to refused refused k s
next_section unresuming false k s = move k (ending refused) s.lease s
next_section resuming true k s = resumed_to failed done k s
next_section resuming false k s = move k (ending failed) s.lease s
next_section (ending result) ok k s = move k idle (record s.lease { busy = false }) s

-- A thread that is idle begins an operation.
pub data Start : Type 0 where
  pauses : PauseKind → Start
  resumes : Start
  -- an operation that sets busy by trySetBusy, and clears it at its end
  holds : Start

abbrev pub start_at : Place → Start → ℕ → Scene → Scene
start_at idle (pauses kind) k s = enter (may_pause kind s.lease) k (pausing kind) s
start_at idle resumes k s = enter (may_resume s.lease) k resuming s
start_at idle holds k s = enter (may_hold s.lease) k (ending done) s
start_at _ start k s = s

-- The sections that need no busy window.
pub data Change : Type 0 where
  sets_pin : Bool → Change
  gains_exec ends_exec gains_job ends_job releases : Change

unfoldable pub change : Change → Held → Held
change (sets_pin b) l = if l.released || is_lost l.status then l else record l { pinned = b }
change gains_exec l = if l.released then l else record l { exec_pins = suc l.exec_pins }
change ends_exec l = record l { exec_pins = l.exec_pins - 1 }
change gains_job l = record l { jobs = suc l.jobs }
change ends_job l = record l { jobs = l.jobs - 1 }
change releases l = record l { released = true }

pub data Moment : Type 0 where
  starts : ℕ → Start → Moment
  advances : ℕ → Bool → Moment
  changes : Change → Moment

unfoldable pub happen : Moment → Scene → Scene
unfolding next_section change
happen (starts k start) s = start_at (s.pc k) start k s
happen (advances k ok) s = next_section (s.pc k) ok k s
happen (changes c) s = record s { lease = change c s.lease }

-- The events in their order.
unfoldable pub history : List Moment → Scene → Scene
unfolding happen
history [] s = s
history (e ∷ es) s = history es (happen e s)
