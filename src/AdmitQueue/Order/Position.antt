-- ===== src/AdmitQueue/Order/Position.antt =====
-- ticketPosition of api/admitqueue.go: the place that a waiting create is shown.
use spoond.Base.{
  ℕ, suc, ◌+◌, ◌≡◌, refl, sym, Bool, false, Option, some, List, [], ◌∷◌, ◌==◌, length, sort_stable,
  insert_stable, get_elem?, arith, Bool-cases, ◌⊎◌, inl, inr, ap, ◌∙◌,
}
use spoond.Base.Text.{Text}
use spoond.Base.Float.{Float64}
use spoond.AdmitQueue.{Queue}
use spoond.AdmitQueue.Waiting.{has}
use spoond.AdmitQueue.Order.{queue_less, ordered_tickets, ticket_position, place_from}

has-insert_stable :
    (less : ℕ → ℕ → Bool) (k x : ℕ) (xs : List ℕ)
    → has k (insert_stable less x xs) ≡ (has k (x ∷ xs))
unfolding insert_stable
has-insert_stable less k x [] = refl
has-insert_stable less k x (y ∷ ys) = let r = has-insert_stable less k x ys in ground arith

has-sort_stable :
    (less : ℕ → ℕ → Bool) (k : ℕ) (xs : List ℕ) → has k (sort_stable less xs) ≡ has k xs
unfolding sort_stable
has-sort_stable less k [] = refl
has-sort_stable less k (x ∷ xs) =
    let h = has-insert_stable less k x (sort_stable less xs) in
    rw (h, has-sort_stable less k xs) refl

length-insert_stable :
    (less : ℕ → ℕ → Bool) (x : ℕ) (xs : List ℕ) → length (insert_stable less x xs) ≡ suc (length xs)
unfolding insert_stable
length-insert_stable less x [] = refl
length-insert_stable less x (y ∷ ys) = let r = length-insert_stable less x ys in ground arith

length-sort_stable : (less : ℕ → ℕ → Bool) (xs : List ℕ) → length (sort_stable less xs) ≡ length xs
unfolding sort_stable
length-sort_stable less [] = refl
length-sort_stable less (x ∷ xs) =
    length-insert_stable less x (sort_stable less xs) ∙ ap suc (length-sort_stable less xs)

module _ (F : Float64) (view : Text → Option F.Value) (q : Queue) where
  has-ordered_tickets : (k : ℕ) → has k (ordered_tickets F view q) ≡ has k q.tickets
  unfolding ordered_tickets
  has-ordered_tickets k = let r = has-sort_stable (queue_less F view q) k q.tickets in ground arith

  length-ordered_tickets : length (ordered_tickets F view q) ≡ length q.tickets
  unfolding ordered_tickets
  length-ordered_tickets =
      let r = length-sort_stable (queue_less F view q) q.tickets in ground arith

place_from_lem :
    (k i : ℕ) (xs : List ℕ)
    → ((has k xs ≡ false) × (place_from k i xs ≡ 0))
      ⊎ ((n : ℕ) × (place_from k i xs ≡ i + suc n) × (get_elem? xs n ≡ some k))
unfolding place_from
place_from_lem k i [] = inl (refl, refl)
place_from_lem k i (x ∷ xs) = elim (Bool-cases (x == k)) [
  | inl e ↦ inr (0, rw e refl, ground arith)
  | inr e ↦ elim (place_from_lem k (i + 1) xs) [
    | inl r ↦ inl (let a = r.0 in ground arith, rw e r.1)
    | inr r ↦ inr (suc r.0, rw e (let a = r.1 in omega arith), r.2)
  ]
]

-- The position of a ticket is 0 when it does not wait in the queue, and else one more than its
-- index in the fair order; the length beside it is the number of tickets that wait.
pub ticket_position_lem :
    (F : Float64) (view : Text → Option F.Value) (q : Queue) (k : ℕ)
    → ((ticket_position F view q k).1 ≡ length q.tickets)
      × (((has k q.tickets ≡ false) × ((ticket_position F view q k).0 ≡ 0))
          ⊎ ((n : ℕ) × ((ticket_position F view q k).0 ≡ suc n)
              × (get_elem? (ordered_tickets F view q) n ≡ some k)))
unfolding ticket_position
ticket_position_lem F view q k = (
  length-ordered_tickets F view q,
  elim (place_from_lem k 0 (ordered_tickets F view q)) [
    | inl r ↦ inl (sym (has-ordered_tickets F view q k) ∙ r.0, r.1)
    | inr r ↦ inr (r.0, let e = r.1 in omega arith, r.2)
  ],
)
