-- ===== src/AdmitQueue/Pass/Refines.antt =====
-- A pass is a sequence of critical sections that leaks no lease, api/admitqueue.go.
use spoond.Base.{
  ℕ, zero, suc, ◌≤◌, ◌≡◌, refl, sym, ◌∙◌, ap, subst, true, false, not, ◌&&◌, Option, none, some,
  List, [], ◌∷◌, ◌++◌, ◌⊎◌, ◌==◌, ltb, All, All-mono, arith, Bool-cases, inl, inr, some≢none,
}
use spoond.Base.Float.{Float64}
use spoond.AdmitQueue.{Refusal, granted, Queue, Event, settle_grant, settle_owner_gone, step, run}
use spoond.AdmitQueue.Waiting.{has}
use spoond.AdmitQueue.Invariant.{IsQueue}
use spoond.AdmitQueue.Final.{run-IsQueue, run-Later}
use spoond.AdmitQueue.Promises.{no_leak}
use spoond.AdmitQueue.Order.{ordered_tickets}
use spoond.AdmitQueue.Pass.{
  Host, Grant, leased, failed, Attempt, is_draining, is_owner_gone, others, restart, first_untried,
  settle, granted_at, grant_queued, try_ticket, next_ticket, begin_round, pass_loop, begin_pass,
}
use spoond.AdmitQueue.Pass.Issued.{
  IsIssued, run-IsIssued, settle_grant-seq, open-le-seq, run-append,
}

-- The lease lies in the channel of its ticket, whose handler waits for it, or it is released.
abbrev pub Lands : Queue → ℕ × ℕ → Type 0
Lands q (k, l) =
    (((q.heap k).ch ≡ some (granted l)) × ((q.heap k).returned ≡ none)) ⊎ (has l q.released ≡ true)

abbrev pub Landed : Queue → ℕ × ℕ → Type 0
Landed q g = (g.0 ≤ q.seq) × Lands q g

Landed-run :
    (q : Queue) (es : List Event) → IsQueue q → (g : ℕ × ℕ) → Landed q g → Landed (run q es) g
Landed-run q es i (k, l) (b, inr r) =
    let f = run-Later q es in let s = f.seq_grows in (omega arith, inr (f.still_released l r))
Landed-run q es i (k, l) (b, inl (c, r)) =
    let f = run-Later q es in
    let grows = f.seq_grows in
    let s = f.stays k b (i.tickets_ok k) in
    let e = s.same_ch (granted l) c in (omega arith, inl (e, s.still_ticket.lease_is_awaited l e))

module _ (F : Float64) (H : Host F) (q₀ : Queue) where
  open H use {State, view}

  -- The queue comes from the first one by the sections of the trace.
  pub record IsTraced (p : Attempt F H) : Type 0 where
    pub traced : p.queue ≡ run q₀ p.trace
    pub landed : All (Landed p.queue) p.got

  pub record Good (p : Attempt F H) : Type 0 where
    pub is_traced : IsTraced p
    pub well_formed : IsQueue p.queue
    pub issued : IsIssued p.queue

  -- Some sections more.
  further :
      (p r : Attempt F H) (es : List Event)
      → r.queue ≡ run p.queue es
      → r.trace ≡ p.trace ++ es
      → r.got ≡ p.got
      → Good p
      → Good r
  further p r es e t g h = record {
    is_traced = record {
      traced =
          e
          ∙ ap (λ q. run q es) h.is_traced.traced
          ∙ sym (run-append q₀ p.trace es)
          ∙ ap (run q₀) (sym t);
      landed =
          rw (e, g)
            (All-mono (Landed p.queue) (Landed (run p.queue es)) p.got
              (Landed-run p.queue es h.well_formed) h.is_traced.landed);
    };
    well_formed = rw e (run-IsQueue p.queue es h.well_formed);
    issued = rw e (run-IsIssued p.queue es h.well_formed h.issued);
  }

  -- Nothing that the queue shows is changed.
  pub same :
      (p r : Attempt F H) → r.queue ≡ p.queue → r.trace ≡ p.trace → r.got ≡ p.got → Good p → Good r
  same p r e t g h = record {
    is_traced = record {
      traced = rw (e, t) h.is_traced.traced;
      landed = rw (e, g) h.is_traced.landed;
    };
    well_formed = rw e h.well_formed;
    issued = rw e h.issued;
  }

  pub restart-Good : (p : Attempt F H) → Good p → Good (restart F H p)
  restart-Good p h =
      elim (Bool-cases (p.refused && ltb p.restarts 3 && not (H.capacity_gen p.state == p.gen))) [
        | inl e ↦ rw e (same p _ refl refl refl h)
        | inr e ↦ rw e h
      ]

  pub others-Good : (p : Attempt F H) (x : State × List Event) → Good p → Good (others F H x p)
  others-Good p (s, es) h = further p (others F H (s, es) p) es refl refl refl h

  pub others-seq :
      (p : Attempt F H) (x : State × List Event) (k : ℕ)
      → k ≤ p.queue.seq
      → k ≤ (others F H x p).queue.seq
  others-seq p (s, es) k b = let g = (run-Later p.queue es).seq_grows in omega arith

  pub first_untried-open :
      (tried : List ℕ) (q : Queue) (ks : List ℕ) (k : ℕ)
      → first_untried F H tried q ks ≡ some k
      → (q.heap k).done ≡ false
  unfolding first_untried
  first_untried-open tried q [] k h = absurd (some≢none h refl)
  first_untried-open tried q (x ∷ ks) k h =
      elim (Bool-cases (not (has x tried) && not (q.heap x).done)) [
        | inr e ↦ first_untried-open tried q ks k (rw e at h)
        | inl e ↦
            let m : some x ≡ some k = rw e at h in
            let w : x ≡ k = cc in subst (λ j. (q.heap j).done ≡ false) w (ground arith)
      ]

  abbrev Fine : Option (Attempt F H) → Type 0
  Fine none = Unit
  Fine (some p) = Good p

  abbrev Keeps : (Attempt F H → Option (Attempt F H)) → Type 0
  Keeps onward = (p : Attempt F H) → Good p → Fine (onward p)

  abbrev pub after_grant : ℕ → ℕ → Attempt F H → Attempt F H
  after_grant k l p = record p {
    queue = settle_grant k l p.queue;
    trace = p.trace ++ Event.grants k l ∷ [];
    got = (k, l) ∷ p.got;
  }

  abbrev pub after_gone : ℕ → Refusal → Attempt F H → Attempt F H
  after_gone k e p = record p {
    queue = settle_owner_gone k e p.queue;
    trace = p.trace ++ Event.finds_owner_gone k e ∷ [];
  }

  pub after_grant-Good :
      (k l : ℕ) (p : Attempt F H) → k ≤ p.queue.seq → Good p → Good (after_grant k l p)
  unfolding run step
  after_grant-Good k l p b h =
      let g =
        further p
          (record p { queue = settle_grant k l p.queue; trace = p.trace ++ Event.grants k l ∷ [] })
          (Event.grants k l ∷ []) refl refl refl h in
      record {
        is_traced = record {
          traced = g.is_traced.traced;
          landed = (
            (
              let e = settle_grant-seq k l p.queue in omega arith,
              no_leak k l p.queue [] h.well_formed b,
            ),
            g.is_traced.landed,
          );
        };
        well_formed = g.well_formed;
        issued = g.issued;
      }

  pub after_gone-Good : (k : ℕ) (e : Refusal) (p : Attempt F H) → Good p → Good (after_gone k e p)
  unfolding run step
  after_gone-Good k e p h =
      further p (after_gone k e p) (Event.finds_owner_gone k e ∷ []) refl refl refl h

  module _ (onward : Attempt F H → Option (Attempt F H)) (ih : Keeps onward) where
    settle-Fine :
        (k : ℕ) (p : Attempt F H) (g : Grant)
        → k ≤ p.queue.seq
        → Good p
        → Fine (settle F H onward k p g)
    unfolding run step
    settle-Fine k p (leased l) b h = ih (after_grant k l p) (after_grant-Good k l p b h)
    settle-Fine k p (failed e) b h = elim (Bool-cases (is_draining e)) [
      | inl d ↦ rw d (further p _ (Event.finds_drain k ∷ []) refl refl refl h)
      | inr d ↦ elim (Bool-cases (is_owner_gone e)) [
        | inl o ↦ rw (d, o) (ih (after_gone k e p) (after_gone-Good k e p h))
        | inr o ↦ rw (d, o) (ih _ (same p _ refl refl refl h))
      ]
    ]

    granted_at-Fine :
        (k : ℕ) (p : Attempt F H) (x : Grant × State × List Event)
        → k ≤ p.queue.seq
        → Good p
        → Fine (granted_at F H onward k p x)
    granted_at-Fine k p (g, s, es) b h =
        settle-Fine k (others F H (s, es) p) g (others-seq p (s, es) k b) (others-Good p (s, es) h)

    try_ticket-Fine :
        (p : Attempt F H) (o : Option ℕ)
        → next_ticket F H p ≡ o
        → Good p
        → Fine (try_ticket F H onward p o)
    try_ticket-Fine p none e h = h
    try_ticket-Fine p (some k) e h =
        let o = first_untried-open p.tried p.queue (ordered_tickets F (view p.state) p.queue) k e in
        granted_at-Fine k (record p { tried = k ∷ p.tried }) (grant_queued F H k p.state)
          (open-le-seq p.queue k h.issued o) (same p _ refl refl refl h)

  pass_loop-Keeps : (fuel : ℕ) → Keeps (pass_loop F H fuel)
  unfolding pass_loop
  pass_loop-Keeps zero p h = tt
  pass_loop-Keeps (suc fuel) p h =
      let b = begin_round F H p in
      try_ticket-Fine (pass_loop F H fuel) (pass_loop-Keeps fuel) b (next_ticket F H b) refl
        (restart-Good (others F H (H.meanwhile p.state) p) (others-Good p (H.meanwhile p.state) h))

module _ (F : Float64) (H : Host F) (q : Queue) where
  pub begin_pass-Good : (s : H.State) → IsQueue q → IsIssued q → Good F H q (begin_pass F H s q)
  begin_pass-Good s i h = record {
    is_traced = record { traced = unfold run in refl; landed = tt };
    well_formed = i;
    issued = h;
  }

  pub pass_loop-IsTraced :
      (fuel : ℕ) (p r : Attempt F H)
      → Good F H q p
      → pass_loop F H fuel p ≡ some r
      → IsTraced F H q r
  pass_loop-IsTraced fuel p r g e =
      let f : Fine F H q (some r) = subst (Fine F H q) e (pass_loop-Keeps F H q fuel p g) in
      f.is_traced
