-- ===== src/AdmitQueue/Answers.antt =====
-- What one critical section does to one ticket, and what no sequence of them can undo.
use spoond.Base.{
  ℕ, ◌≡◌, refl, Bool, true, false, ◌||◌, Option, none, some, arith, if◌then◌else◌, ◌∙◌,
}
use spoond.AdmitQueue.{Refusal, draining, Outcome, granted, refused, Ticket, sent}

abbrev pub is_some {ℓ} : {A : Type ℓ} → Option A → Bool
is_some none = false
is_some (some _) = true

-- A ticket is done exactly when it is answered, by its channel or by its own handler's return, and a
-- lease in the channel has a handler that still waits for it.
pub record IsTicket (t : Ticket) : Type 0 where
  pub done_iff_answered : t.done ≡ (is_some t.ch || is_some t.returned)
  pub lease_is_awaited : (l : ℕ) → t.ch ≡ some (granted l) → t.returned ≡ none

-- From `t` to `u` nothing that a handler or a channel has been given is taken back.
pub record Stays (t u : Ticket) : Type 0 where
  pub same_owner : u.owner ≡ t.owner
  pub still_done : t.done ≡ true → u.done ≡ true
  pub same_ch : (o : Outcome) → t.ch ≡ some o → u.ch ≡ some o
  pub same_return : (e : Refusal) → t.returned ≡ some e → u.returned ≡ some e
  pub still_ticket : IsTicket u

abbrev pub Kept : Ticket → Ticket → Type 0
Kept t u = IsTicket t → Stays t u

pub Kept-refl : (t : Ticket) → Kept t t
Kept-refl t h = record {
  same_owner = refl;
  still_done = λ h. h;
  same_ch = λ o h. h;
  same_return = λ e h. h;
  still_ticket = h;
}

pub Kept-trans : {t u v : Ticket} → Kept t u → Kept u v → Kept t v
Kept-trans f g h =
    let a = f h in
    let b = g a.still_ticket in
    record {
      same_owner = b.same_owner ∙ a.same_owner;
      still_done = λ h. b.still_done (a.still_done h);
      same_ch = λ o h. b.same_ch o (a.same_ch o h);
      same_return = λ e h. b.same_return e (a.same_return e h);
      still_ticket = b.still_ticket;
    }

-- The winner's answer, and the unconditional one of a pass that finds the drain.
abbrev pub closed : Outcome → Ticket → Ticket
closed o t = if t.done then t else sent o (record t { done = true })

abbrev pub forced : Ticket → Ticket
forced t = sent (refused draining) (record t { done = true })

abbrev pub left : Refusal → Ticket → Ticket
left e t = if t.done then t else record t { done = true; returned = some e }

pub closed-Kept : (o : Outcome) (t : Ticket) → Kept t (closed o t)
closed-Kept o t h =
    let k = h.done_iff_answered in
    record {
      same_owner = ground arith;
      still_done = ground arith;
      same_ch = λ p m. ground arith;
      same_return = λ f m. ground arith;
      still_ticket = record {
        done_iff_answered = ground arith;
        lease_is_awaited = λ l m. let r = h.lease_is_awaited l in ground arith;
      };
    }

pub forced-Kept : (t : Ticket) → Kept t (forced t)
forced-Kept t h =
    let k = h.done_iff_answered in
    record {
      same_owner = ground arith;
      still_done = ground arith;
      same_ch = λ p m. ground arith;
      same_return = λ f m. ground arith;
      still_ticket = record {
        done_iff_answered = ground arith;
        lease_is_awaited = λ l m. let r = h.lease_is_awaited l in ground arith;
      };
    }

pub left-Kept : (e : Refusal) (t : Ticket) → Kept t (left e t)
left-Kept e t h =
    let k = h.done_iff_answered in
    record {
      same_owner = ground arith;
      still_done = ground arith;
      same_ch = λ p m. ground arith;
      same_return = λ f m. ground arith;
      still_ticket = record {
        done_iff_answered = ground arith;
        lease_is_awaited = λ l m. let r = h.lease_is_awaited l in ground arith;
      };
    }
