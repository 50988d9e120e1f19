-- ===== src/AdmitQueue/Sections/Kept.antt =====
-- What holds for each ticket between any two sections of api/admitqueue.go.
use spoond.Base.{
  ℕ, zero, suc, ◌≡◌, refl, ap, Bool, true, false, not, ◌&&◌, ◌||◌, Option, none, some, List, [],
  ◌∷◌, leb, ltb, ◌==◌, arith, Bool-cases, inl, inr, if_cases,
}
use spoond.Base.Text.{Text}
use spoond.AdmitQueue.{
  Refusal, Outcome, granted, refused, Ticket, Queue, sent, new_ticket, send, mark_owner_deleted,
  finish_ticket, time_out, client_leaves,
}
use spoond.AdmitQueue.Sections.{
  PassAt, between, granting, giving_back, refusing, Threads, take_grant, take_gone, take_drain,
  pass_goes_on, drain_reaches, take_cancel, send_owed, if_between, Section, perform, perform_all,
}

abbrev pub owes : ℕ → List (ℕ × Refusal) → Bool
owes j [] = false
owes j ((k, e) ∷ ws) = k == j || owes j ws

-- The pass has the ticket in hand: for a lease, or for any answer.
abbrev pub is_granting : ℕ → PassAt → Bool
is_granting j (granting k l) = k == j
is_granting j between = false
is_granting j (giving_back l) = false
is_granting j (refusing k e) = false

abbrev pub is_answering : ℕ → PassAt → Bool
is_answering j (granting k l) = k == j
is_answering j (refusing k e) = k == j
is_answering j between = false
is_answering j (giving_back l) = false

abbrev pub filled {ℓ} : {A : Type ℓ} → Option A → Bool
filled none = false
filled (some a) = true

-- An open ticket has no answer and none on its way; one in hand for a lease is done and has no other
-- answer; a ticket that is not there yet is done, and no answer is on its way to it.
abbrev pub sound : (d c r w g p n : Bool) → Bool
sound d c r w g p n =
    (d || not (c || r || w || p))
    && (not g || (p && d && not (c || r || w)))
    && (not n || (d && not (w || p)))

abbrev pub sound_at : ℕ → ℕ → Ticket → PassAt → List (ℕ × Refusal) → Bool
sound_at j seq t pass ws =
    sound t.done (filled t.ch) (filled t.returned) (owes j ws) (is_granting j pass)
      (is_answering j pass) (ltb seq j)

abbrev pub AllSound : Threads → Type 0
AllSound s = (j : ℕ) → sound_at j s.queue.seq (s.queue.heap j) s.pass s.owed ≡ true

filled-sent : (o : Outcome) (t : Ticket) → filled (sent o t).ch ≡ true
filled-sent o t = by_channel t.ch
  where
    by_channel : (c : Option Outcome) → filled (elim c [ none ↦ some o | some p ↦ some p ]) ≡ true
    by_channel none = refl
    by_channel (some p) = refl

if_between-AllSound :
    (p : PassAt) (s s' : Threads)
    → AllSound s
    → (p ≡ between → AllSound s')
    → AllSound (if_between p s s')
if_between-AllSound between s s' a f = f refl
if_between-AllSound (granting k l) s s' a f = a
if_between-AllSound (giving_back l) s s' a f = a
if_between-AllSound (refusing k e) s s' a f = a

module _ (s : Threads) (a : AllSound s) where
  take_grant-AllSound :
      (k l : ℕ) → s.pass ≡ between → AllSound (take_grant k l s (finish_ticket k s.queue))
  unfolding finish_ticket
  take_grant-AllSound k l b j =
      let i = a j in
      let q : sound_at j s.queue.seq (s.queue.heap j) between s.owed ≡ true = rw b at i in
      elim (Bool-cases (s.queue.heap k).done) [
        | inl d ↦ rw d (ground arith)
        | inr d ↦ elim (Bool-cases (j == k)) [
          | inl e ↦ let x : j ≡ k = ground arith in rw (d, e) (ground arith)
          | inr e ↦ rw (d, e) (ground arith)
        ]
      ]

  take_gone-AllSound :
      (k : ℕ) (r : Refusal)
      → s.pass ≡ between
      → AllSound (take_gone k r s (finish_ticket k s.queue))
  unfolding finish_ticket
  take_gone-AllSound k r b j =
      let i = a j in
      let q : sound_at j s.queue.seq (s.queue.heap j) between s.owed ≡ true = rw b at i in
      elim (Bool-cases (s.queue.heap k).done) [
        | inl d ↦ rw d i
        | inr d ↦ elim (Bool-cases (j == k)) [
          | inl e ↦ let x : j ≡ k = ground arith in rw (d, e) (ground arith)
          | inr e ↦ rw (d, e) (ground arith)
        ]
      ]

  take_drain-AllSound :
      (k : ℕ)
      → s.pass ≡ between
      → leb k s.queue.seq ≡ true
      → AllSound (take_drain k s (finish_ticket k s.queue))
  unfolding finish_ticket
  take_drain-AllSound k b m j =
      let i = a j in
      let q : sound_at j s.queue.seq (s.queue.heap j) between s.owed ≡ true = rw b at i in
      elim (Bool-cases (s.queue.heap k).done) [
        | inl d ↦ rw d (ground arith)
        | inr d ↦ elim (Bool-cases (j == k)) [
          | inl e ↦ let x : j ≡ k = ground arith in rw (d, e) (ground arith)
          | inr e ↦ rw (d, e) (ground arith)
        ]
      ]

  take_cancel-AllSound : (k : ℕ) → AllSound (take_cancel k s (finish_ticket k s.queue))
  unfolding finish_ticket
  take_cancel-AllSound k j =
      let i = a j in
      elim (Bool-cases (s.queue.heap k).done) [
        | inl d ↦ rw d i
        | inr d ↦ elim (Bool-cases (j == k)) [
          | inl e ↦ let x : j ≡ k = ground arith in let y = a k in rw (d, e) (ground arith)
          | inr e ↦ rw (d, e) (ground arith)
        ]
      ]

  drain_reaches-AllSound : (k : ℕ) → AllSound (drain_reaches k s)
  unfolding drain_reaches
  drain_reaches-AllSound k j =
      let i = a j in
      elim (Bool-cases (s.queue.heap k).done) [
        | inl d ↦ rw d i
        | inr d ↦ elim (Bool-cases (j == k)) [
          | inl e ↦ let x : j ≡ k = ground arith in let y = a k in rw (d, e) (ground arith)
          | inr e ↦ rw (d, e) (ground arith)
        ]
      ]

  new_ticket-AllSound :
      (id owner : Text) (r : Refusal) (now wait : ℕ)
      → AllSound (record s { queue = (new_ticket id owner r now wait s.queue).1 })
  unfolding new_ticket
  new_ticket-AllSound id owner r now wait j =
      let i = a j in
      elim (Bool-cases (s.queue.deleted owner)) [
        | inl d ↦ rw d i
        | inr d ↦ elim (Bool-cases (j == suc s.queue.seq)) [
          | inl e ↦ rw (d, e) (ground arith)
          | inr e ↦ rw (d, e) (ground arith)
        ]
      ]

  time_out-AllSound : (k : ℕ) → AllSound (record s { queue = time_out k s.queue })
  unfolding time_out finish_ticket
  time_out-AllSound k j =
      let i = a j in
      elim (Bool-cases (s.queue.heap k).done) [
        | inl d ↦ rw d i
        | inr d ↦ elim (Bool-cases (j == k)) [
          | inl e ↦ let x : j ≡ k = ground arith in let y = a k in rw (d, e) (ground arith)
          | inr e ↦ rw (d, e) (ground arith)
        ]
      ]

  client_leaves-AllSound : (k : ℕ) → AllSound (record s { queue = client_leaves k s.queue })
  unfolding client_leaves finish_ticket
  client_leaves-AllSound k j =
      let i = a j in
      elim (Bool-cases (s.queue.heap k).done) [
        | inl d ↦ rw d i
        | inr d ↦ elim (Bool-cases (j == k)) [
          | inl e ↦ let x : j ≡ k = ground arith in let y = a k in rw (d, e) (ground arith)
          | inr e ↦ rw (d, e) (ground arith)
        ]
      ]

  pass_goes_on-AllSound : (p : PassAt) → s.pass ≡ p → AllSound (pass_goes_on p s)
  unfolding pass_goes_on send
  pass_goes_on-AllSound between b j = a j
  pass_goes_on-AllSound (giving_back l) b j =
      let i = a j in
      let q : sound_at j s.queue.seq (s.queue.heap j) (giving_back l) s.owed ≡ true = rw b at i in
      ground arith
  pass_goes_on-AllSound (granting k l) b j =
      let i = a j in
      let q : sound_at j s.queue.seq (s.queue.heap j) (granting k l) s.owed ≡ true = rw b at i in
      let f = filled-sent (granted l) (s.queue.heap k) in
      elim (Bool-cases (j == k)) [
        | inl e ↦ let x : j ≡ k = ground arith in rw (e, f) (ground arith)
        | inr e ↦ rw e (ground arith)
      ]
  pass_goes_on-AllSound (refusing k r) b j =
      let i = a j in
      let q : sound_at j s.queue.seq (s.queue.heap j) (refusing k r) s.owed ≡ true = rw b at i in
      let f = filled-sent (refused r) (s.queue.heap k) in
      elim (Bool-cases (j == k)) [
        | inl e ↦ let x : j ≡ k = ground arith in rw (e, f) (ground arith)
        | inr e ↦ rw e (ground arith)
      ]

send_owed-done :
    (n j : ℕ) (ws : List (ℕ × Refusal)) (q : Queue)
    → ((send_owed n ws q).0.heap j).done ≡ (q.heap j).done
unfolding send_owed send
send_owed-done n j [] q = refl
send_owed-done zero j ((k, e) ∷ ws) q = elim (Bool-cases (j == k)) [
  | inl h ↦ let x : k ≡ j = ground arith in rw h (ap (λ y. (q.heap y).done) x)
  | inr h ↦ rw h refl
]
send_owed-done (suc n) j (w ∷ ws) q = send_owed-done n j ws q

less :
    (j seq : ℕ) (t : Ticket) (pass : PassAt) (k : ℕ) (e : Refusal) (ws : List (ℕ × Refusal))
    → sound_at j seq t pass ((k, e) ∷ ws) ≡ true
    → sound_at j seq t pass ws ≡ true
less j seq t pass k e ws h = ground arith

-- A sweep's answer lands in the channel of a ticket that is done and in nobody's hand.
send_owed_sound :
    (n j seq : ℕ) (pass : PassAt) (ws : List (ℕ × Refusal)) (q : Queue)
    → ((j : ℕ) → sound_at j seq (q.heap j) pass ws ≡ true)
    → sound_at j seq ((send_owed n ws q).0.heap j) pass (send_owed n ws q).1 ≡ true
unfolding send_owed send
send_owed_sound n j seq pass [] q a = a j
send_owed_sound zero j seq pass ((k, e) ∷ ws) q a =
    let i = a j in
    let f = filled-sent (refused e) (q.heap k) in
    elim (Bool-cases (j == k)) [
      | inl h ↦ let x : j ≡ k = ground arith in let y = a k in rw (h, f) (ground arith)
      | inr h ↦ rw h (ground arith)
    ]
send_owed_sound (suc n) j seq pass ((k, e) ∷ ws) q a =
    let i = a j in
    let fewer : (x : ℕ) → sound_at x seq (q.heap x) pass ws ≡ true =
      λ x. less x seq (q.heap x) pass k e ws (a x) in
    let h = send_owed_sound n j seq pass ws q fewer in
    let d = send_owed-done n j ws q in ground arith

send_owed-seq : (n : ℕ) (ws : List (ℕ × Refusal)) (q : Queue) → (send_owed n ws q).0.seq ≡ q.seq
unfolding send_owed send
send_owed-seq n [] q = refl
send_owed-seq zero (w ∷ ws) q = refl
send_owed-seq (suc n) (w ∷ ws) q = send_owed-seq n ws q

owed_sent_sound :
    (n j : ℕ) (s : Threads)
    → AllSound s
    → sound_at j
        (send_owed n s.owed s.queue).0.seq
        ((send_owed n s.owed s.queue).0.heap j)
        s.pass
        (send_owed n s.owed s.queue).1
      ≡ true
owed_sent_sound n j s a =
    rw (send_owed-seq n s.owed s.queue) (send_owed_sound n j s.queue.seq s.pass s.owed s.queue a)

pub perform-AllSound : (x : Section) (s : Threads) → AllSound s → AllSound (perform x s)
unfolding perform
perform-AllSound (Section.parked id owner r now wait) s a =
    new_ticket-AllSound s a id owner r now wait
perform-AllSound (Section.marked owner) s a = unfold mark_owner_deleted in a
perform-AllSound (Section.pass_granted k l) s a =
    if_between-AllSound s.pass s (take_grant k l s (finish_ticket k s.queue)) a
      (take_grant-AllSound s a k l)
perform-AllSound (Section.pass_owner_gone k e) s a =
    if_between-AllSound s.pass s (take_gone k e s (finish_ticket k s.queue)) a
      (take_gone-AllSound s a k e)
perform-AllSound (Section.pass_draining k) s a =
    let next = take_drain k s (finish_ticket k s.queue) in
    if_cases AllSound (leb k s.queue.seq) (if_between s.pass s next) s
      (λ m. if_between-AllSound s.pass s next a (λ b. take_drain-AllSound s a k b m)) (λ m. a)
perform-AllSound Section.pass_went_on s a = pass_goes_on-AllSound s a s.pass refl
perform-AllSound Section.drain_took s a = a
perform-AllSound (Section.drain_reached k) s a = drain_reaches-AllSound s a k
perform-AllSound (Section.cancel_took owner) s a = a
perform-AllSound (Section.cancel_reached k) s a = take_cancel-AllSound s a k
perform-AllSound (Section.owed_sent n) s a = λ j. owed_sent_sound n j s a
perform-AllSound (Section.timer_fired k) s a = time_out-AllSound s a k
perform-AllSound (Section.client_gone_at k) s a = client_leaves-AllSound s a k

-- Whatever sections of whatever threads follow, an open ticket has an empty channel, its handler has not
-- returned, no sweep owes it an answer and the pass does not have it in hand; and a ticket that the
-- pass has in hand for a lease is done, has an empty channel and gets no other answer.
pub perform_all-AllSound :
    (s : Threads) (xs : List Section) → AllSound s → AllSound (perform_all s xs)
unfolding perform_all
perform_all-AllSound s [] a = a
perform_all-AllSound s (x ∷ xs) a = perform_all-AllSound (perform x s) xs (perform-AllSound x s a)
