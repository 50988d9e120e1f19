-- ===== src/AdmitQueue/Sections/Placed.antt =====
-- A lease of a grant is never lost, whatever sections of api/admitqueue.go come between its own.
use spoond.Base.{
  ℕ, zero, suc, ◌+◌, ◌≡◌, ◌≤◌, refl, sym, subst, Bool, true, false, Option, none, some, List, [],
  ◌∷◌, ◌++◌, leb, ◌==◌, arith, Bool-cases, ◌∙◌, ◌⊎◌, inl, inr, if_cases, clash,
}
use spoond.Base.Text.{Text}
use spoond.AdmitQueue.{
  Refusal, draining, client_gone, Outcome, granted, refused, Ticket, Detail, waited, gone, drained,
  Queue, write, without, sent, new_ticket, send, finish_ticket, announce, leave, time_out,
  client_leaves, mark_owner_deleted,
}
use spoond.AdmitQueue.Waiting.{has}
use spoond.AdmitQueue.Sections.{
  PassAt, between, granting, giving_back, refusing, Threads, take_grant, take_gone, take_drain,
  pass_goes_on, drain_reaches, take_cancel, send_owed, if_between, Section, perform, perform_all,
}
use spoond.AdmitQueue.Sections.Kept.{AllSound, sound_at, filled, perform-AllSound}

-- A ticket that is done keeps its handler's return and what its channel holds.
abbrev Cell : Ticket → Ticket → Type 0
Cell t u =
    (u.done ≡ true) × (u.returned ≡ t.returned) × ((o : Outcome) → t.ch ≡ some o → u.ch ≡ some o)

record Keeps (k : ℕ) (q r : Queue) : Type 0 where
  cell : (q.heap k).done ≡ true → Cell (q.heap k) (r.heap k)
  grows : q.seq ≤ r.seq
  stays : (l : ℕ) → has l q.released ≡ true → has l r.released ≡ true

Keeps-same : (k : ℕ) (q : Queue) → Keeps k q q
Keeps-same k q = record { cell = λ d. (d, refl, λ o h. h); grows = omega arith; stays = λ l h. h }

-- One cell is written, and kept if it was done.
wrote-Keeps :
    (k j : ℕ) (q r : Queue) (c : Ticket)
    → r.heap k ≡ write j c q.heap k
    → q.seq ≤ r.seq
    → r.released ≡ q.released
    → (k ≡ j → (q.heap k).done ≡ true → Cell (q.heap k) c)
    → Keeps k q r
wrote-Keeps k j q r c e g w f = record {
  cell = λ d. subst (Cell (q.heap k)) (sym e) (written d);
  grows = g;
  stays = λ l h. subst (λ x. has l x ≡ true) (sym w) h;
}
  where
    written : (q.heap k).done ≡ true → Cell (q.heap k) (write j c q.heap k)
    written d = elim (Bool-cases (k == j)) [
      | inl h ↦ rw h (f (ground arith) d)
      | inr h ↦ rw h (d, refl, λ o x. x)
    ]

not_open :
    {A : Type 0} (k j : ℕ) (q : Queue)
    → (q.heap j).done ≡ false
    → k ≡ j
    → (q.heap k).done ≡ true
    → A
not_open k j q d x e = absurd (clash (subst (λ y. (q.heap y).done ≡ true) x e) d)

abbrev done_at : ℕ → Queue → Ticket
done_at j q = record (q.heap j) { done = true }

sent_keeps : (o p : Outcome) (t : Ticket) → t.ch ≡ some p → (sent o t).ch ≡ some p
sent_keeps o p t h = rw h refl

module _ (k : ℕ) where
  finish_ticket-Keeps : (j : ℕ) (q : Queue) → Keeps k q (finish_ticket j q).1
  unfolding finish_ticket
  finish_ticket-Keeps j q =
      let r = record q { heap = write j (done_at j q) q.heap; tickets = without j q.tickets } in
      if_cases (λ (x : Bool × Queue). Keeps k q x.1) (q.heap j).done (false, q) (true, r)
        (λ d. Keeps-same k q)
        (λ d. wrote-Keeps k j q r (done_at j q) refl (omega arith) refl (not_open k j q d))

  send-Keeps : (j : ℕ) (o : Outcome) (q : Queue) → Keeps k q (send j o q)
  unfolding send
  send-Keeps j o q =
      wrote-Keeps k j q (record q { heap = write j (sent o (q.heap j)) q.heap }) (sent o (q.heap j))
        refl (omega arith) refl
        (λ x d.
          subst (λ y. Cell (q.heap k) (sent o (q.heap y))) x
            (d, refl, λ p h. sent_keeps o p (q.heap k) h))

  drain_reaches-Keeps : (j : ℕ) (s : Threads) → Keeps k s.queue (drain_reaches j s).queue
  unfolding drain_reaches
  drain_reaches-Keeps j s =
      let q = s.queue in
      let r = announce j drained (record q { heap = write j (done_at j q) q.heap }) in
      if_cases (λ (x : Threads). Keeps k s.queue x.queue) (q.heap j).done s
        (record s { queue = r; owed = (j, draining) ∷ s.owed }) (λ d. Keeps-same k s.queue)
        (λ d. wrote-Keeps k j q r (done_at j q) refl (omega arith) refl (not_open k j q d))

  new_ticket-Keeps :
      (id owner : Text) (e : Refusal) (now wait : ℕ) (q : Queue)
      → k ≤ q.seq
      → Keeps k q (new_ticket id owner e now wait q).1
  unfolding new_ticket
  new_ticket-Keeps id owner e now wait q m =
      let t : Ticket = record {
        id = id;
        owner = owner;
        refusal = e;
        queued_at = now;
        deadline = now + wait;
        done = false;
        ch = none;
        returned = none;
      } in
      let r = record q {
        seq = suc q.seq;
        heap = write (suc q.seq) t q.heap;
        tickets = q.tickets ++ suc q.seq ∷ [];
      } in
      if_cases (λ (x : Option ℕ × Queue). Keeps k q x.1) (q.deleted owner) (none, q)
        (some (suc q.seq), r) (λ d. Keeps-same k q)
        (λ d. wrote-Keeps k (suc q.seq) q r t refl (omega arith) refl (λ x e. absurd (omega arith)))

  leave-Keeps :
      (j : ℕ) (d : Detail) (e : Refusal) (q : Queue) → Keeps k q (leave j d e (finish_ticket j q))
  unfolding finish_ticket
  leave-Keeps j d e q =
      let r = record q { heap = write j (done_at j q) q.heap; tickets = without j q.tickets } in
      let c = record (r.heap j) { returned = some e } in
      let z = leave j d e (true, r) in
      if_cases (λ (x : Bool × Queue). Keeps k q (leave j d e x)) (q.heap j).done (false, q)
        (true, r) (λ f. Keeps-same k q)
        (λ f.
          wrote-Keeps k j q z c (twice j c (done_at j q) q.heap) (omega arith) refl
            (not_open k j q f))
    where
      twice : (j : ℕ) (c t : Ticket) (h : ℕ → Ticket) → write j c (write j t h) k ≡ write j c h k
      twice j c t h = elim (Bool-cases (k == j)) [ inl e ↦ rw e refl | inr e ↦ rw e refl ]

  -- What the pass or a sweep does after a finishTicket leaves its queue alone, up to the events.
  take_grant-Keeps :
      (j l : ℕ) (s : Threads) (r : Bool × Queue)
      → Keeps k s.queue r.1
      → Keeps k s.queue (take_grant j l s r).queue
  take_grant-Keeps j l s (true, q) h = h
  take_grant-Keeps j l s (false, q) h = h

  take_gone-Keeps :
      (j : ℕ) (e : Refusal) (s : Threads) (r : Bool × Queue)
      → Keeps k s.queue r.1
      → Keeps k s.queue (take_gone j e s r).queue
  take_gone-Keeps j e s (true, q) h = record { cell = h.cell; grows = h.grows; stays = h.stays }
  take_gone-Keeps j e s (false, q) h = h

  take_cancel-Keeps :
      (j : ℕ) (s : Threads) (r : Bool × Queue)
      → Keeps k s.queue r.1
      → Keeps k s.queue (take_cancel j s r).queue
  take_cancel-Keeps j s (true, q) h = record { cell = h.cell; grows = h.grows; stays = h.stays }
  take_cancel-Keeps j s (false, q) h = h

  if_between-Keeps :
      (p : PassAt) (s t : Threads)
      → Keeps k s.queue t.queue
      → Keeps k s.queue (if_between p s t).queue
  if_between-Keeps between s t h = h
  if_between-Keeps (granting j l) s t h = Keeps-same k s.queue
  if_between-Keeps (giving_back l) s t h = Keeps-same k s.queue
  if_between-Keeps (refusing j e) s t h = Keeps-same k s.queue

  send_owed-Keeps : (n : ℕ) (ws : List (ℕ × Refusal)) (q : Queue) → Keeps k q (send_owed n ws q).0
  unfolding send_owed
  send_owed-Keeps n [] q = Keeps-same k q
  send_owed-Keeps zero ((j, e) ∷ ws) q = send-Keeps j (refused e) q
  send_owed-Keeps (suc n) (w ∷ ws) q = send_owed-Keeps n ws q

  pass_goes_on-Keeps : (p : PassAt) (s : Threads) → Keeps k s.queue (pass_goes_on p s).queue
  unfolding pass_goes_on
  pass_goes_on-Keeps between s = Keeps-same k s.queue
  pass_goes_on-Keeps (granting j l) s = send-Keeps j (granted l) s.queue
  pass_goes_on-Keeps (refusing j e) s = send-Keeps j (refused e) s.queue
  pass_goes_on-Keeps (giving_back l) s = record {
    cell = λ d. (d, refl, λ o h. h);
    grows = omega arith;
    stays = λ m h. ground arith;
  }

  perform-Keeps :
      (x : Section) (s : Threads) → k ≤ s.queue.seq → Keeps k s.queue (perform x s).queue
  unfolding perform time_out client_leaves mark_owner_deleted
  perform-Keeps (Section.parked id owner e now wait) s m =
      new_ticket-Keeps id owner e now wait s.queue m
  perform-Keeps (Section.marked owner) s m = record {
    cell = λ d. (d, refl, λ o h. h);
    grows = omega arith;
    stays = λ l h. h;
  }
  perform-Keeps (Section.pass_granted j l) s m =
      if_between-Keeps s.pass s (take_grant j l s (finish_ticket j s.queue))
        (take_grant-Keeps j l s (finish_ticket j s.queue) (finish_ticket-Keeps j s.queue))
  perform-Keeps (Section.pass_owner_gone j e) s m =
      if_between-Keeps s.pass s (take_gone j e s (finish_ticket j s.queue))
        (take_gone-Keeps j e s (finish_ticket j s.queue) (finish_ticket-Keeps j s.queue))
  perform-Keeps (Section.pass_draining j) s m =
      let h = finish_ticket-Keeps j s.queue in
      let next = take_drain j s (finish_ticket j s.queue) in
      if_cases (λ (x : Threads). Keeps k s.queue x.queue) (leb j s.queue.seq)
        (if_between s.pass s next) s
        (λ e.
          if_between-Keeps s.pass s next
            (record { cell = h.cell; grows = h.grows; stays = h.stays }))
        (λ e. Keeps-same k s.queue)
  perform-Keeps Section.pass_went_on s m = pass_goes_on-Keeps s.pass s
  perform-Keeps Section.drain_took s m = record {
    cell = λ d. (d, refl, λ o h. h);
    grows = omega arith;
    stays = λ l h. h;
  }
  perform-Keeps (Section.drain_reached j) s m = drain_reaches-Keeps j s
  perform-Keeps (Section.cancel_took owner) s m = record {
    cell = λ d. (d, refl, λ o h. h);
    grows = omega arith;
    stays = λ l h. h;
  }
  perform-Keeps (Section.cancel_reached j) s m =
      take_cancel-Keeps j s (finish_ticket j s.queue) (finish_ticket-Keeps j s.queue)
  perform-Keeps (Section.owed_sent n) s m = send_owed-Keeps n s.owed s.queue
  perform-Keeps (Section.timer_fired j) s m = leave-Keeps j waited (s.queue.heap j).refusal s.queue
  perform-Keeps (Section.client_gone_at j) s m = leave-Keeps j gone client_gone s.queue

if_between-pass :
    (p : PassAt) (s t : Threads) → s.pass ≡ p → (p ≡ between → ⊥) → (if_between p s t).pass ≡ p
if_between-pass between s t e n = absurd (n refl)
if_between-pass (granting j l) s t e n = e
if_between-pass (giving_back l) s t e n = e
if_between-pass (refusing j r) s t e n = e

take_cancel-pass : (j : ℕ) (s : Threads) (r : Bool × Queue) → (take_cancel j s r).pass ≡ s.pass
take_cancel-pass j s (true, q) = refl
take_cancel-pass j s (false, q) = refl

-- A pass that has a ticket or a lease in hand moves by its own next section alone.
perform-pass :
    (x : Section) (s : Threads)
    → (s.pass ≡ between → ⊥)
    → ((perform x s).pass ≡ s.pass) ⊎ (perform x s ≡ pass_goes_on s.pass s)
unfolding perform drain_reaches
perform-pass (Section.parked id owner e now wait) s n = inl refl
perform-pass (Section.marked owner) s n = inl refl
perform-pass (Section.pass_granted j l) s n = inl (if_between-pass s.pass s _ refl n)
perform-pass (Section.pass_owner_gone j e) s n = inl (if_between-pass s.pass s _ refl n)
perform-pass (Section.pass_draining j) s n =
    let next = take_drain j s (finish_ticket j s.queue) in
    inl (
      if_cases (λ (x : Threads). x.pass ≡ s.pass) (leb j s.queue.seq) (if_between s.pass s next) s
        (λ e. if_between-pass s.pass s next refl n) (λ e. refl))
perform-pass Section.pass_went_on s n = inr refl
perform-pass Section.drain_took s n = inl refl
perform-pass (Section.drain_reached j) s n =
    let q = s.queue in
    let r = announce j drained (record q { heap = write j (done_at j q) q.heap }) in
    inl (
      if_cases (λ (x : Threads). x.pass ≡ s.pass) (q.heap j).done s
        (record s { queue = r; owed = (j, draining) ∷ s.owed }) (λ e. refl) (λ e. refl))
perform-pass (Section.cancel_took owner) s n = inl refl
perform-pass (Section.cancel_reached j) s n = inl (take_cancel-pass j s (finish_ticket j s.queue))
perform-pass (Section.owed_sent m) s n = inl refl
perform-pass (Section.timer_fired j) s n = inl refl
perform-pass (Section.client_gone_at j) s n = inl refl

-- Where the lease of a grant for `k` is: the pass is about to send it, or to release it; it lies in
-- the channel of the ticket, whose handler has not returned otherwise; or it has been released.
abbrev pub Placed : ℕ → ℕ → Threads → Type 0
Placed k l s =
    (s.pass ≡ granting k l)
    ⊎ (s.pass ≡ giving_back l)
    ⊎ (((s.queue.heap k).ch ≡ some (granted l))
        × ((s.queue.heap k).returned ≡ none)
        × ((s.queue.heap k).done ≡ true))
    ⊎ (has l s.queue.released ≡ true)

module _ (k l : ℕ) where
  empty : {A : Type 0} (o : Option A) → filled o ≡ false → o ≡ none
  empty none h = refl
  empty (some a) h = cc

  lands :
      (s : Threads)
      → AllSound s
      → s.pass ≡ granting k l
      → Placed k l (pass_goes_on (granting k l) s)
  unfolding pass_goes_on send
  lands s a p =
      let i = a k in
      let q : sound_at k s.queue.seq (s.queue.heap k) (granting k l) s.owed ≡ true = rw p at i in
      let same : (k == k) ≡ true = ground arith in
      let c = empty (s.queue.heap k).ch (ground arith) in
      let r = empty (s.queue.heap k).returned (ground arith) in
      let d : (s.queue.heap k).done ≡ true = ground arith in
      inr (inr (inl (rw (same, c) refl, rw (same, r) refl, rw (same, d) refl)))

  gives_back : (s : Threads) → Placed k l (pass_goes_on (giving_back l) s)
  unfolding pass_goes_on
  gives_back s = inr (inr (inr (ground arith)))

  perform-Placed :
      (x : Section) (s : Threads)
      → AllSound s
      → k ≤ s.queue.seq
      → Placed k l s
      → Placed k l (perform x s)
  perform-Placed x s a m (inl p) = elim (perform-pass x s (λ b. cc)) [
    | inl e ↦ inl (e ∙ p)
    | inr e ↦
        let g = subst (λ q. Placed k l (pass_goes_on q s)) (sym p) (lands s a p) in
        subst (Placed k l) (sym e) g
  ]
  perform-Placed x s a m (inr (inl p)) = elim (perform-pass x s (λ b. cc)) [
    | inl e ↦ inr (inl (e ∙ p))
    | inr e ↦
        let g = subst (λ q. Placed k l (pass_goes_on q s)) (sym p) (gives_back s) in
        subst (Placed k l) (sym e) g
  ]
  perform-Placed x s a m (inr (inr (inl (c, r, d)))) =
      let (d', r', c') = (perform-Keeps k x s m).cell d in
      inr (inr (inl (c' (granted l) c, r' ∙ r, d')))
  perform-Placed x s a m (inr (inr (inr h))) = inr (inr (inr ((perform-Keeps k x s m).stays l h)))

  perform_all-Placed :
      (s : Threads) (xs : List Section)
      → AllSound s
      → k ≤ s.queue.seq
      → Placed k l s
      → Placed k l (perform_all s xs)
  unfolding perform_all
  perform_all-Placed s [] a m p = p
  perform_all-Placed s (x ∷ xs) a m p =
      let g = (perform-Keeps k x s m).grows in
      perform_all-Placed (perform x s) xs (perform-AllSound x s a) (omega (arith, g, m))
        (perform-Placed x s a m p)

  take_grant-Placed : (s : Threads) (r : Bool × Queue) → Placed k l (take_grant k l s r)
  take_grant-Placed s (true, q) = inl refl
  take_grant-Placed s (false, q) = inr (inl refl)

  starts : (s : Threads) → s.pass ≡ between → Placed k l (perform (Section.pass_granted k l) s)
  unfolding perform
  starts s b = rw b (take_grant-Placed s (finish_ticket k s.queue))

  -- Once the pass has got a lease for a ticket, whatever sections of whatever threads come after its
  -- finishTicket, in any order, the pass still has the lease to send or to release; or the lease lies in
  -- the channel of the ticket, where no other answer has displaced it and whose handler has not
  -- returned otherwise; or it has been released. The state before is one that sections lead to.
  pub no_lease_lost :
      (s : Threads) (xs : List Section)
      → AllSound s
      → k ≤ s.queue.seq
      → s.pass ≡ between
      → Placed k l (perform_all (perform (Section.pass_granted k l) s) xs)
  no_lease_lost s xs a m b =
      let x = Section.pass_granted k l in
      let g = (perform-Keeps k x s m).grows in
      perform_all-Placed (perform x s) xs (perform-AllSound x s a) (omega (arith, g, m))
        (starts s b)
