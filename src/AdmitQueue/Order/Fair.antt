-- ===== src/AdmitQueue/Order/Fair.antt =====
-- The order in which a pass over the queue tries the tickets, api/admitqueue.go.
use spoond.Base.{
  ℕ, ◌≤◌, ◌≡◌, refl, true, false, Option, none, some, List, [], ◌∷◌, ltb, sort_stable, length,
  arith, Bool-cases, ◌⊎◌, inl, inr, All, All-mono, sort_stable-perm, IsSorted, sort_stable-IsSorted,
  clash,
}
use mathlib.Core.List.{Perm}
use mathlib.Core.List.Perm
use spoond.Base.Text.{Text}
use spoond.Base.Float.{Float64}
use spoond.AdmitQueue.{Queue}
use spoond.AdmitQueue.Order.{ticket_less, queue_less, ordered_tickets}

module _ (F : Float64) where
  gtb_asym : (r s : F.Value) → F.gtb r s ≡ true → F.gtb s r ≡ false
  gtb_asym r s h =
      let t = F.gtb_trans r s r h in
      let i = F.gtb_irrefl r in
      elim (Bool-cases (F.gtb s r)) [ inl e ↦ absurd (clash (t e) i) | inr e ↦ e ]

  ticket_less-asym :
      (r s : Option F.Value) (a b : ℕ)
      → ticket_less F r s a b ≡ true
      → ticket_less F s r b a ≡ false
  unfolding ticket_less
  ticket_less-asym (some r) (some s) a b h =
      let x = gtb_asym r s in let y = gtb_asym s r in ground arith
  ticket_less-asym (some r) none a b h = refl
  ticket_less-asym none (some s) a b h = cc
  ticket_less-asym none none a b h = ground arith

  ticket_less-cotrans :
      (r s t : Option F.Value) (a b c : ℕ)
      → ticket_less F r s a b ≡ false
      → ticket_less F s t b c ≡ false
      → ticket_less F r t a c ≡ false
  unfolding ticket_less
  ticket_less-cotrans (some r) (some s) (some t) a b c h k =
      let x = F.gtb_cotrans t s r in
      let y = F.gtb_cotrans r s t in
      let u = gtb_asym r s in
      let v = gtb_asym s t in
      let w = gtb_asym r t in
      let y1 = F.gtb_cotrans r t s in let y2 = F.gtb_cotrans s r t in ground arith
  ticket_less-cotrans (some r) (some s) none a b c h k = cc
  ticket_less-cotrans (some r) none t a b c h k = cc
  ticket_less-cotrans none (some s) (some t) a b c h k = refl
  ticket_less-cotrans none (some s) none a b c h k = cc
  ticket_less-cotrans none none (some t) a b c h k = refl
  ticket_less-cotrans none none none a b c h k = ground arith

  -- `a` may stand before `b`: a known owner before an unknown one, the lower ratio first, and the
  -- older ticket first when the standings tie.
  abbrev pub Ahead : Option F.Value → Option F.Value → ℕ → ℕ → Type 0
  Ahead (some r) (some s) a b =
      (F.gtb s r ≡ true) ⊎ ((F.gtb r s ≡ false) × (F.gtb s r ≡ false) × a ≤ b)
  Ahead (some r) none a b = Unit
  Ahead none (some s) a b = ⊥
  Ahead none none a b = a ≤ b

  not_less-Ahead : (r s : Option F.Value) (a b : ℕ) → ticket_less F s r b a ≡ false → Ahead r s a b
  unfolding ticket_less
  not_less-Ahead (some r) (some s) a b h = elim (Bool-cases (F.gtb s r)) [
    | inl e ↦ inl e
    | inr e ↦ inr (ground arith, e, ground arith)
  ]
  not_less-Ahead (some r) none a b h = tt
  not_less-Ahead none (some s) a b h = absurd (clash refl h)
  not_less-Ahead none none a b h = ground arith

module _ (F : Float64) (view : Text → Option F.Value) (q : Queue) where
  -- Every ticket of the list may stand before all that follow it.
  abbrev pub IsFair : List ℕ → Type 0
  IsFair [] = Unit
  IsFair (a ∷ ks) =
      All (λ b. Ahead F (view (q.heap a).owner) (view (q.heap b).owner) a b) ks × IsFair ks

module _ (F : Float64) (view : Text → Option F.Value) (q : Queue) where
  sorted-IsFair : (ks : List ℕ) → IsSorted (queue_less F view q) ks → IsFair F view q ks
  sorted-IsFair [] s = tt
  sorted-IsFair (a ∷ ks) s = (
    All-mono (λ b. queue_less F view q b a ≡ false)
        (λ b. Ahead F (view (q.heap a).owner) (view (q.heap b).owner) a b) ks
        (λ b h. not_less-Ahead F (view (q.heap a).owner) (view (q.heap b).owner) a b h) s.0,
    sorted-IsFair ks s.1,
  )

  short-IsFair : (ks : List ℕ) → ltb (length ks) 2 ≡ true → IsFair F view q ks
  short-IsFair [] h = tt
  short-IsFair (a ∷ []) h = (tt, tt)
  short-IsFair (a ∷ b ∷ ks) h = absurd (ground arith)

  -- orderedTickets lists exactly the queued tickets, each as often as the queue holds it, and in a fair
  -- order: a known owner before an unknown one, then the lower ratio, then the older ticket.
  pub ordered_tickets-IsFair :
      Perm (ordered_tickets F view q) q.tickets × IsFair F view q (ordered_tickets F view q)
  unfolding ordered_tickets
  ordered_tickets-IsFair = elim (Bool-cases (ltb (length q.tickets) 2)) [
    | inl e ↦ rw e (Perm.refl q.tickets, short-IsFair q.tickets e)
    | inr e ↦ rw e (
      sort_stable-perm (queue_less F view q) q.tickets,
      sorted-IsFair (sort_stable (queue_less F view q) q.tickets) (
          sort_stable-IsSorted (queue_less F view q)
            (λ a b. ticket_less-asym F (view (q.heap a).owner) (view (q.heap b).owner) a b)
            (λ a b c.
              ticket_less-cotrans F (view (q.heap a).owner) (view (q.heap b).owner)
                (view (q.heap c).owner) a b c)
            q.tickets),
    )
  ]
