-- ===== src/AdmitQueue/Pass.antt =====
-- tryAdmitQueued of api/admitqueue.go: one pass over the queue, with what others do meanwhile.
pub mod Issued
pub mod Refines
pub mod Ends
mod Tests
use spoond.Base.{
  ℕ, zero, suc, ◌+◌, Bool, true, false, not, ◌&&◌, ◌||◌, Option, none, some, List, [], ◌∷◌, ◌++◌,
  ltb, ◌==◌, if◌then◌else◌,
}
use spoond.Base.Text.{Text}
use spoond.Base.Float.{Float64}
use spoond.AdmitQueue.{
  Refusal, capacity, draining, owner_gone, client_gone, other, both, Queue, Event, settle_grant,
  settle_owner_gone, settle_draining, run,
}
use spoond.AdmitQueue.Order.{ordered_tickets}
use spoond.AdmitQueue.Waiting.{has}

-- errors.Is for the two refusals that end a ticket.
unfoldable pub is_draining : Refusal → Bool
is_draining draining = true
is_draining (both a b) = is_draining a || is_draining b
is_draining _ = false

unfoldable pub is_owner_gone : Refusal → Bool
is_owner_gone owner_gone = true
is_owner_gone (both a b) = is_owner_gone a || is_owner_gone b
is_owner_gone _ = false

-- What a create of a ticket answers.
pub data Grant : Type 0 where
  leased : (lease : ℕ) → Grant
  failed : Refusal → Grant

-- What a pass uses of the service. The critical sections that others run come with each call:
-- before a round, and while grantLease runs.
pub record Host (F : Float64) : Type 1 where
  pub State : Type 0
  pub view : State → Text → Option F.Value
  pub capacity_gen : State → ℕ
  pub is_drained : State → Bool
  pub meanwhile : State → State × List Event
  pub grant_lease : ℕ → State → Grant × State × List Event

module _ (F : Float64) (H : Host F) where
  open H use {State, view, capacity_gen, is_drained, meanwhile, grant_lease}

  -- The variables of a pass. `trace` is every critical section so far and `got` the leases that the
  -- pass was given; the code does not keep them.
  pub record Attempt : Type 0 where
    pub state : State
    pub queue : Queue
    pub tried : List ℕ
    pub gen : ℕ
    pub refused : Bool
    pub restarts : ℕ
    pub trace : List Event
    pub got : List (ℕ × ℕ)

  -- grantQueued: the drain first.
  abbrev pub grant_queued : ℕ → State → Grant × State × List Event
  grant_queued k s = if is_drained s then (failed draining, s, []) else grant_lease k s

  abbrev pub others : State × List Event → Attempt → Attempt
  others (s, es) p = record p { state = s; queue = run p.queue es; trace = p.trace ++ es }

  -- Room was freed after a ticket was turned away: the pass starts over, three times at most.
  abbrev pub restart : Attempt → Attempt
  restart p =
      if p.refused && ltb p.restarts 3 && not (capacity_gen p.state == p.gen)
      then record p {
        gen = capacity_gen p.state;
        refused = false;
        restarts = p.restarts + 1;
        tried = [];
      }
      else p

  unfoldable pub first_untried : List ℕ → Queue → List ℕ → Option ℕ
  first_untried tried q [] = none
  first_untried tried q (k ∷ ks) =
      if not (has k tried) && not (q.heap k).done then some k else first_untried tried q ks

  abbrev pub settle : (Attempt → Option Attempt) → ℕ → Attempt → Grant → Option Attempt
  settle onward k p (leased l) = onward (record p {
    queue = settle_grant k l p.queue;
    trace = p.trace ++ Event.grants k l ∷ [];
    got = (k, l) ∷ p.got;
  })
  settle onward k p (failed e) =
      if is_draining e
      then some (record p {
        queue = settle_draining k p.queue;
        trace = p.trace ++ Event.finds_drain k ∷ [];
      })
      else if is_owner_gone e
      then onward (record p {
        queue = settle_owner_gone k e p.queue;
        trace = p.trace ++ Event.finds_owner_gone k e ∷ [];
      })
      else onward (record p { refused = true })

  abbrev pub granted_at :
      (Attempt → Option Attempt) → ℕ → Attempt → Grant × State × List Event → Option Attempt
  granted_at onward k p (g, s, es) = settle onward k (others (s, es) p) g

  abbrev pub try_ticket : (Attempt → Option Attempt) → Attempt → Option ℕ → Option Attempt
  try_ticket onward p none = some p
  try_ticket onward p (some k) =
      granted_at onward k (record p { tried = k ∷ p.tried }) (grant_queued k p.state)

  abbrev pub next_ticket : Attempt → Option ℕ
  next_ticket p = first_untried p.tried p.queue (ordered_tickets F (view p.state) p.queue)

  abbrev pub begin_round : Attempt → Attempt
  begin_round p = restart (others (meanwhile p.state) p)

  -- `none`: out of fuel.
  unfoldable pub pass_loop : ℕ → Attempt → Option Attempt
  unfolding run settle_grant settle_owner_gone settle_draining ordered_tickets first_untried
      is_draining is_owner_gone
  pass_loop zero p = none
  pass_loop (suc fuel) p = let b = begin_round p in try_ticket (pass_loop fuel) b (next_ticket b)

  abbrev pub begin_pass : State → Queue → Attempt
  begin_pass s q = record {
    state = s;
    queue = q;
    tried = [];
    gen = capacity_gen s;
    refused = false;
    restarts = 0;
    trace = [];
    got = [];
  }

  unfoldable pub try_admit_queued : ℕ → State → Queue → Option Attempt
  unfolding pass_loop
  try_admit_queued fuel s q = pass_loop fuel (begin_pass s q)
