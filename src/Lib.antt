-- ===== src/Lib.antt =====
-- spoond lends sandboxes of one box to several owners. This library models the part of its backend
-- that decides who gets the memory: the take-back selectors and the loop around them, the bookkeeping
-- of an admission, the queue of the creates that wait and its wakes, the refusal of the biggest
-- borrower, the give-back of leases, the retries of a recovery, and the size that a lease may ask
-- for, the low-memory loop and the saturation gate. Beside it stand the busy window of a lease, the
-- ceiling on its network access, and the matcher of ignore files that the directory walk uses.
--
-- The parts and how they interact. Every owner has an equal slice of the box (api/fair_shares.go),
-- and a ratio of what it uses to it. A create asks api/admit_memory.go for memory. It reads the
-- node's free hugepages through the cache of api/admission.go, and when they are short it takes
-- leases back from the owners that borrow most, which api/take_back.go selects. What still passes
-- the overcommit cap (api/preempt.go) is debited from the cache until the create has ended. A
-- create that is refused for capacity parks as a ticket of api/admitqueue.go, and passes over the
-- queue in fair-share order try it again. Beside this, the low-memory loop takes one lease at a
-- time, which api/take_back.go selects too, and when memory is free again it gives one back
-- (api/give_back.go). Every pause and resume holds the busy flag of its lease (api/service.go). A
-- lease whose sandbox has crashed is recovered within the budget that api/retry.go keeps. New work is
-- held back while the host's pressure files show it saturated (api/saturation.go), and the network
-- policy of a lease stays within the ceiling of its owner (api/egress_ceiling.go).
--
-- Files:
--   Base            shared names, lists, the stable sort, int as ℤ, strings as lists of bytes, and
--                   float64 as an interface (Base/Float) with the laws of IEEE 754 that the code
--                   relies on; Base/FixedPoint is an instance of it to compute with
--   TakeBack        api/take_back.go: takeBackLease, takeBackOwner, takeBackVictim, tbRatio,
--                   tbPickLease and tbPickLeaseFor; TakeBack/Pick is their theorems
--   TakeBack/Victims    memVictims, its loop on fuel; Rows, Giving, Plans: its theorems
--   TakeBack/Pressure   pressureVictim; Choice, Ranks, Safety: its theorems
--   Admission       NodeInfo.FreeHugepageBytes (substrate/substrate.go), freeHugepageMiBLocked,
--                   freeHugepageMiBForRequestLocked, debitNodeInfoLocked and admitCapacity
--                   (api/admission.go), creditNodeInfoLocked and overcommitShortfallLocked
--                   (api/preempt.go), the tail and the undo of admitMemory (api/admit_memory.go);
--                   Cache, Refusal: the theorems
--   AdmitQueue      api/admitqueue.go: tickets, and each operation run to its end without others
--                   in between; Answers, Sweeps, Waiting, Frame,
--                   Invariant, Cancel, Final, Promises and Deleted are about every order of these
--                   operations
--   AdmitQueue/Sections    the same section by section, with what is left to do after the lock is free;
--                   Kept, Placed: the theorems
--   AdmitQueue/Order    orderedTickets and ticketPosition; Fair, Position: the theorems
--   AdmitQueue/Pass     tryAdmitQueued and grantQueued; Issued, Refines, Ends: the theorems
--   BoxFull         api/admit_memory.go: takeBackPool, ownLeasesLRU and biggestBorrowerRefusal;
--                   Borrower: the theorem
--   Egress          api/egress_ceiling.go: entryWithinCeiling, isOwnPeerReferenceLocked, hasWord and
--                   outsideCeilingLocked; Granted, Outside, Domain: the theorems
--   FairShare       api/fair_shares.go: who is active, the usage and the slices (Slices; Bounds: the
--                   theorem), the cache (Cache; Current), takeBackOwners and takeBackOwnersFor of
--                   api/take_back.go and fairSharesView (Views; Listed, Shown), runningMemoryMiB
--   LowMemory       api/pressure.go: a tick of pressureCheck, its levels and alerts, and the run of
--                   ticks; Warm is dropOnePoolSandbox (Largest, Keys, Drop: its theorem); Conditions,
--                   Justified, Sheds and Alerts are about ticks
--   Reclaim         api/admit_memory.go: takeBackForAdmission with its loop, fits (api/preempt.go) and
--                   freshFreeHugepageMiB; Returns, Fair: the theorems
--   Wake            api/admitqueue.go: wakeAdmissionQueue and scheduledWake on any number of
--                   threads; Owner, Kept: the theorems
--   Window          api/service.go, api/take_back.go, api/held.go: the busy window of a lease, with
--                   pauses, take-back pauses (takeBackPauseWith, unTakeBackResume), resumes and what
--                   changes pins, jobs and the release meanwhile; Exclusive, Pins, Ends and Gone: the
--                   theorems
--   Gitignore       internal/gitignore: Segment is segGlob, Path is matchPattern, Line is a line of a
--                   rule file and the decision of a list of them; Glob, Loop, Ends, Spans, Reaches,
--                   Rendered and Last: the theorems
--   Retry           api/retry.go: the retry budgets of crash recovery; Bounds, Status: the theorems
--   Saturation      api/saturation.go: readPSIAvg10, hostPressure with its cache, checkSaturation;
--                   Backed: the theorem
--   Sizes           sizes/sizes.go (Lookup, ValidVCPU, ValidMemoryMB, EffectiveMinMemoryMB) and
--                   sizeLimitsOrDefault and requestedSize of api/sizes.go; Allowed: the theorems
--   GiveBack        api/give_back.go: the hold, the candidate and giveBackOne; Hold, Candidate and
--                   Room: the theorems
--
-- Numbers. A Go int is an unbounded ℤ, where the code counts MiB or milliseconds far below 2^63; a
-- uint64 is a natural number with its wrap-around written out (`u64`). Times are nanoseconds as
-- natural numbers. `int(ratio * float64(pool))` of the overcommit cap is a function that is given.
--
-- Fuel. The loop of memVictims runs on one step more than there are leases; each round takes one, so
-- the fuel cannot run out, which is part of the theorem about memVictims.
-- The loop that doubles a hold recurses on the turns it has left. The loop of segGlob runs on the
-- product of the lengths of the name and the pattern, each with 1 added, and the take-back loop on
-- four rounds more than there are leases held; that both are enough are theorems.
--
-- Text of ignore files. A string is a list of bytes, and a position in it the text from there. `-1`,
-- `0` and `1` of matchPattern are `none`, `some false` and `some true`.
--
-- The take-back loop. What it calls in the service is a record of operations on a state (Box): the
-- readings of the node, the owner views and the pause of a lease, each of which may change the
-- state, also by what others do in the meantime.
--
-- The low-memory loop. What only the loop keeps is a record (Loop); what a tick calls in the service is
-- a record of operations on a state (Service), each of which returns the state that the other threads
-- have left. The store's map of the warm pool is a list of its images in the order of the iteration.
--
-- Fair shares. The computation of a snapshot reads the store, the cache of the node and statfs in one
-- record (Reads). The cache is a state with events in any order; its epoch wraps at 2^64.
--
-- A pass over the queue. What it calls is a record of operations (Host). What others do to the queue
-- comes with these calls, as critical sections: before each round and while grantLease runs. The fuel
-- is four times the sequence numbers that can be given out, with two added, and a theorem says that it
-- is enough.
--
-- Wakes. Each atomic operation of wakeAdmissionQueue and scheduledWake is a step, a pass of
-- tryAdmitQueued is two (it begins, it ends), and the steps of the threads mix in every way.
--
-- The busy window. Each section under the store's lock is a step of some thread, and the steps mix in
-- every way. What the substrate answers between two sections is a Bool that is given.
--
-- The egress ceiling. net.ParseIP and net.ParseCIDR are given (Parser); an address is a number with its
-- family, and a mask drops the last bits of it. Texts are in ASCII where their case is lowered or blanks
-- are trimmed.
--
-- Maps. A Go map is a function from keys; where the code iterates over it, the order is a list that
-- is given, and the theorems hold for every order.
--
-- The queue. A step of AdmitQueue is a whole operation: finishTicket with the send that its winner makes
-- after the lock is free, and drainQueue and cancelQueuedForOwner with all of their sections. What
-- comes between such sections is the part of AdmitQueue/Sections: there a send, a release and each
-- ticket of a drain or of a cancel are steps of their own, any thread may take the next one, and the pass
-- is the one that holds admitMu.
--
-- A ticket's pointer is its sequence number, and the heap of a queue gives each number
-- its ticket. A section that only reads, the logging and the metrics are left out; the events that
-- announce a timeout are kept. The timer, the client and the passes appear as events in any order,
-- also in orders that the locks exclude. What grantLease, the fair-share view and the substrate
-- answer is given as arguments.
--
-- Not modelled: the substrate's pause and resume of a sandbox, the store, the HTTP handlers, jobs,
-- snapshots, the CI runner, the dashboard and the commands, which are I/O around these decisions.
pub mod Base
pub mod Admission
pub mod AdmitQueue
pub mod BoxFull
pub mod Egress
pub mod FairShare
pub mod Gitignore
pub mod GiveBack
pub mod LowMemory
pub mod Reclaim
pub mod Retry
pub mod Saturation
pub mod Sizes
pub mod TakeBack
pub mod Wake
pub mod Window
