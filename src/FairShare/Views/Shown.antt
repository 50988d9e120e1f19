-- ===== src/FairShare/Views/Shown.antt =====
-- The whole view of an owner: its leases, its use with what is in flight, and its slice,
-- api/take_back.go.
use spoond.Base.{
  ◌≡◌, refl, sym, subst, ◌∙◌, ap, Bool, true, false, ◌&&◌, ◌||◌, ◌⊎◌, arith, clash, Option, none,
  some, List, [], ◌∷◌, ◌++◌, map, keep, if◌then◌else◌, Bool-cases, inl, inr,
}
use spoond.Base.Text.{Text, codes, text_eq, text_eq→eq, text_eq_comm, text_eq_refl}
use spoond.Base.Int.{ℤ, pos, ◌+ℤ◌, ◌-ℤ◌, ◌≤ℤ◌, ◌<ℤ◌, max_ℤ, ltb_ℤ, int_laws, +ℤ_zero, +ℤ_assoc}
use spoond.Base.Float.{Float64}
use spoond.TakeBack.{TakeBackLease, TakeBackOwner}
use spoond.BoxFull.{row_of}
use spoond.FairShare.{Lease}
use spoond.FairShare.Slices.{FairShareOwner, Snapshot}
use spoond.FairShare.Views.{
  lease_view, place_leases, owner_row, take_back_owners, without_request, add_used, add_pending,
  take_back_owners_for,
}
use spoond.FairShare.Views.Listed.{
  leases_in, is_of, used_in, slice_in, SameNumbers, place_leases-leases, place_leases-SameNumbers,
}

module _ (owner : Text) where
  -- A reservation on the row of the owner.
  abbrev raise : ℤ → Option TakeBackOwner → Option TakeBackOwner
  raise n none = none
  raise n (some o) = some (record o { used_mib = o.used_mib +ℤ n })

  raise_zero : (r : Option TakeBackOwner) → raise (pos 0) r ≡ r
  raise_zero none = refl
  raise_zero (some o) = rw (+ℤ_zero o.used_mib) refl

  raise-raise : (a b : ℤ) (r : Option TakeBackOwner) → raise b (raise a r) ≡ raise (a +ℤ b) r
  raise-raise a b none = refl
  raise-raise a b (some o) = rw (+ℤ_assoc o.used_mib a b) refl

  abbrev if_own : Text → ℤ → ℤ
  if_own o n = if text_eq o owner then n else pos 0

  add_used-row :
      (o : Text) (n : ℤ) (os : List TakeBackOwner)
      → row_of owner (add_used o n os) ≡ raise (if_own o n) (row_of owner os)
  unfolding add_used row_of
  add_used-row o n [] = refl
  add_used-row o n (x ∷ os) = elim (Bool-cases (text_eq x.owner o)) [
    | inl a ↦
        let same = text_eq→eq x.owner o a in
        let c : text_eq o owner ≡ text_eq x.owner owner = ap (λ t. text_eq t owner) (sym same) in
        elim (Bool-cases (text_eq x.owner owner)) [
          | inl b ↦ rw (a, c, b) refl
          | inr b ↦ rw (a, c, b) (sym (raise_zero (row_of owner os)))
        ]
    | inr a ↦ elim (Bool-cases (text_eq x.owner owner)) [
      | inl b ↦
          let same = text_eq→eq x.owner owner b in
          let c : text_eq o owner ≡ false = text_eq_comm o owner ∙ (rw (← same) a) in
          rw (a, b, c) (sym (raise_zero (some x)))
      | inr b ↦ rw (a, b) (add_used-row o n os)
    ]
  ]

  -- What the reservations of the owner add in the loop.
  abbrev left_in_flight : Text → ℤ → List (Text × ℤ) → ℤ
  left_in_flight requester request [] = pos 0
  left_in_flight requester request ((o, n) ∷ ps) =
      let left = without_request requester request o n in
      (if ltb_ℤ (pos 0) left then if_own o left else pos 0) +ℤ left_in_flight requester request ps

  add_pending-row :
      (requester : Text) (request : ℤ) (ps : List (Text × ℤ)) (os : List TakeBackOwner)
      → row_of owner (add_pending requester request ps os)
        ≡ raise (left_in_flight requester request ps) (row_of owner os)
  unfolding add_pending
  add_pending-row requester request [] os = sym (raise_zero (row_of owner os))
  add_pending-row requester request ((o, n) ∷ ps) os =
      let left = without_request requester request o n in
      let flight = left_in_flight requester request ps in
      elim (Bool-cases (ltb_ℤ (pos 0) left)) [
        | inl e ↦ rw e (
            add_pending-row requester request ps (add_used o left os)
            ∙ ap (raise flight) (add_used-row o left os)
            ∙ raise-raise (if_own o left) flight (row_of owner os))
        | inr e ↦ rw e (
            add_pending-row requester request ps os
            ∙ ap (raise flight) (sym (raise_zero (row_of owner os)))
            ∙ raise-raise (pos 0) flight (row_of owner os))
      ]

-- A reservation of n counts as n if it is positive, and the requester's own only with what goes beyond
-- the request that it stands for.
abbrev pub counted : Bool → ℤ → ℤ → ℤ
counted false request n = max_ℤ (pos 0) n
counted true request n = if ltb_ℤ (pos 0) n then max_ℤ (pos 0) (n -ℤ request) else pos 0

-- The sum of what the reservations of the owner count.
abbrev pub in_flight : Text → Text → ℤ → List (Text × ℤ) → ℤ
in_flight owner requester request [] = pos 0
in_flight owner requester request ((o, n) ∷ ps) =
    (if text_eq o owner then counted (text_eq o requester) request n else pos 0)
    +ℤ in_flight owner requester request ps

minus_self : (n : ℤ) → n -ℤ n ≡ pos 0
minus_self n = grind int_laws

cut :
    (n request : ℤ)
    → ltb_ℤ (pos 0) n ≡ true
    → ltb_ℤ n request ≡ true
    → ltb_ℤ (pos 0) (n -ℤ request) ≡ false
cut n request p h = grind int_laws

left_counted :
    (own : Bool) (request n : ℤ)
    → let left =
        if own && ltb_ℤ (pos 0) n then n -ℤ (if ltb_ℤ n request then n else request) else n in
      (if ltb_ℤ (pos 0) left then left else pos 0) ≡ counted own request n
left_counted false request n = refl
left_counted true request n = elim (Bool-cases (ltb_ℤ (pos 0) n)) [
  | inr e ↦ let k : (if ltb_ℤ (pos 0) n then n else pos 0) ≡ pos 0 = rw e refl in rw e k
  | inl e ↦ elim (Bool-cases (ltb_ℤ n request)) [
    | inl f ↦ let k = minus_self n in let c = cut n request e f in rw (e, f, k, c) refl
    | inr f ↦ rw (e, f) refl
  ]
]

own_counted :
    (own : Bool) (left x : ℤ)
    → (if ltb_ℤ (pos 0) left then left else pos 0) ≡ x
    → (if ltb_ℤ (pos 0) left then (if own then left else pos 0) else pos 0)
      ≡ (if own then x else pos 0)
own_counted true left x e = e
own_counted false left x e = elim (Bool-cases (ltb_ℤ (pos 0) left)) [
  | inl f ↦ rw f refl
  | inr f ↦ rw f refl
]

left_in_flight_lem :
    (owner requester : Text) (request : ℤ) (ps : List (Text × ℤ))
    → left_in_flight owner requester request ps ≡ in_flight owner requester request ps
left_in_flight_lem owner requester request [] = refl
left_in_flight_lem owner requester request ((o, n) ∷ ps) =
    let left = without_request requester request o n in
    let k =
      own_counted (text_eq o owner) left (counted (text_eq o requester) request n)
        (left_counted (text_eq o requester) request n) in
    rw (k, left_in_flight_lem owner requester request ps) refl

-- A lease that a row of its owner lists.
abbrev pub IsListed : Text → Lease → Type 0
IsListed owner l =
    (l.released ≡ false)
    × (l.owner ≡ owner)
    × (owner ≡ [] → ⊥)
    × ((l.state ≡ codes "running") ⊎ (l.state ≡ codes "recovered"))

-- What a row shows of a lease: an exec pins it as its owner does, and a running job keeps it busy.
pub record IsView (l : Lease) (v : TakeBackLease) : Type 0 where
  pub same_id : v.id ≡ l.id
  pub same_name : v.name ≡ l.name
  pub same_memory : v.memory_mib ≡ l.memory_mb
  pub same_own_pin : v.own_pin ≡ l.own_pin
  pub same_drained : v.drained ≡ l.drained
  pub same_last_active : v.last_active ≡ l.last_active
  pub no_exec : l.exec_pins ≤ℤ pos 0 → (v.exec_pinned ≡ false) × (v.pinned ≡ l.own_pin)
  pub in_exec : pos 0 <ℤ l.exec_pins → (v.exec_pinned ≡ true) × (v.pinned ≡ true)
  pub no_job : l.has_job ≡ false → v.busy ≡ l.busy
  pub in_job : l.has_job ≡ true → v.busy ≡ true

-- The views are exactly those of the leases that are listed, each once and in their order.
abbrev pub Lists : Text → List Lease → List TakeBackLease → Type 0
Lists owner [] vs = vs ≡ []
Lists owner (l ∷ ls) vs =
    ((v : TakeBackLease) × (rest : List TakeBackLease) × (vs ≡ v ∷ rest)
      × IsListed owner l
      × IsView l v
      × Lists owner ls rest)
    ⊎ ((IsListed owner l → ⊥) × Lists owner ls vs)

lease_view-IsView : (l : Lease) → IsView l (lease_view l)
lease_view-IsView l = record {
  same_id = refl;
  same_name = refl;
  same_memory = refl;
  same_own_pin = refl;
  same_drained = refl;
  same_last_active = refl;
  no_exec = λ h. let k = not_over l.exec_pins h in rw k (refl, or_false l.own_pin);
  in_exec = λ h. let k = over l.exec_pins h in rw k (refl, or_true l.own_pin);
  no_job = λ h. rw h (or_false l.busy);
  in_job = λ h. rw h (or_true l.busy);
}
  where
    not_over : (x : ℤ) → x ≤ℤ pos 0 → ltb_ℤ (pos 0) x ≡ false
    not_over x h = ground arith

    over : (x : ℤ) → pos 0 <ℤ x → ltb_ℤ (pos 0) x ≡ true
    over x h = ground arith

    or_false : (b : Bool) → (b || false) ≡ b
    or_false b = ground arith

    or_true : (b : Bool) → (b || true) ≡ true
    or_true b = ground arith

is_of-IsListed : (owner : Text) (l : Lease) → is_of owner l ≡ true → IsListed owner l
is_of-IsListed owner l h =
    let e = text_eq→eq l.owner owner (ground arith) in
    let n : text_eq l.owner [] ≡ false = ground arith in
    (ground arith, e, λ z. clash (rw (e, z) (text_eq_refl [])) n, live_state (ground arith))
  where
    live_state :
        (text_eq l.state (codes "running") || text_eq l.state (codes "recovered")) ≡ true
        → (l.state ≡ codes "running") ⊎ (l.state ≡ codes "recovered")
    live_state h = elim (Bool-cases (text_eq l.state (codes "running"))) [
      | inl e ↦ inl (text_eq→eq l.state (codes "running") e)
      | inr e ↦ inr (text_eq→eq l.state (codes "recovered") (ground arith))
    ]

not_empty : (t : Text) → (t ≡ [] → ⊥) → text_eq t [] ≡ false
not_empty t h = elim (Bool-cases (text_eq t [])) [
  | inl e ↦ absurd (h (text_eq→eq t [] e))
  | inr e ↦ e
]

IsListed-is_of : (owner : Text) (l : Lease) → IsListed owner l → is_of owner l ≡ true
IsListed-is_of owner l (r, e, n, s) =
    let a : text_eq l.owner owner ≡ true = rw e (text_eq_refl owner) in
    let b : text_eq l.owner [] ≡ false = rw e (not_empty owner n) in
    let c : (text_eq l.state (codes "running") || text_eq l.state (codes "recovered")) ≡ true =
      elim s [
        | inl x ↦ let k = text_eq_refl (codes "running") in rw (x, k) refl
        | inr x ↦ let k = text_eq_refl (codes "recovered") in rw (x, k) (ground arith)
      ] in
    rw (r, a, b, c) refl

views-Lists :
    (owner : Text) (ls : List Lease) → Lists owner ls (map lease_view (keep (is_of owner) ls))
unfolding keep
views-Lists owner [] = refl
views-Lists owner (l ∷ ls) = elim (Bool-cases (is_of owner l)) [
  | inl e ↦
      let rest = map lease_view (keep (is_of owner) ls) in
      inl (
        lease_view l,
        rest,
        (rw e refl),
        is_of-IsListed owner l e,
        lease_view-IsView l,
        views-Lists owner ls,
      )
  | inr e ↦ rw e (inr (λ h. clash (IsListed-is_of owner l h) e, views-Lists owner ls))
]

-- The row of the owner by its row in the snapshot: exactly its live leases, each once, its use there
-- with what is in flight for it, and its slice; and no row only if it has no live lease.
abbrev pub Shows : Text → Option TakeBackOwner → List Lease → ℤ → Option TakeBackOwner → Type 0
Shows owner base leases flight none = Lists owner leases []
Shows owner base leases flight (some r) =
    Lists owner leases r.leases
    × (r.used_mib ≡ used_in base +ℤ flight)
    × (r.slice_mib ≡ slice_in base)

raise-Shows :
    (owner : Text) (base : Option TakeBackOwner) (leases : List Lease) (flight : ℤ)
    (r : Option TakeBackOwner)
    → leases_in r ≡ map lease_view (keep (is_of owner) leases)
    → SameNumbers r base
    → Shows owner base leases flight (raise owner flight r)
raise-Shows owner base leases flight none e s =
    subst (Lists owner leases) (sym e) (views-Lists owner leases)
raise-Shows owner base leases flight (some r) e (u, v) =
    (subst (Lists owner leases) (sym e) (views-Lists owner leases), ap (λ t. t +ℤ flight) u, v)

module _ (F : Float64) where
  owner_row-leases :
      (owner : Text) (os : List (FairShareOwner F))
      → leases_in (row_of owner (map (owner_row F) os)) ≡ []
  unfolding row_of
  owner_row-leases owner [] = refl
  owner_row-leases owner (o ∷ os) = elim (Bool-cases (text_eq o.owner owner)) [
    | inl e ↦ rw e refl
    | inr e ↦ rw e (owner_row-leases owner os)
  ]

  -- takeBackOwnersFor shows every owner with exactly its leases that are unreleased and running or
  -- recovered, each once and in their order, with its use in the snapshot and its positive
  -- reservations, of the requester's own only what goes beyond the request; an owner without a row, or
  -- with an empty name, has no such lease. The slice is that of the snapshot, 0 for an owner that the
  -- snapshot missed, and so is the use.
  pub take_back_owners_for-Shows :
      (s : Snapshot F) (leases : List Lease) (pending : List (Text × ℤ)) (requester : Text)
      (request : ℤ) (owner : Text)
      → Shows owner
          (row_of owner (map (owner_row F) s.owners))
          leases
          (in_flight owner requester request pending)
          (row_of owner (take_back_owners_for F s leases pending requester request))
  unfolding take_back_owners_for take_back_owners
  take_back_owners_for-Shows s leases pending requester request owner =
      let rows = map (owner_row F) s.owners in
      let listed =
        place_leases-leases owner leases rows
        ∙ ap (λ t. t ++ map lease_view (keep (is_of owner) leases))
            (owner_row-leases owner s.owners) in
      let shown =
        raise-Shows owner (row_of owner rows) leases (in_flight owner requester request pending) _
          listed (place_leases-SameNumbers owner leases rows) in
      let row =
        add_pending-row owner requester request pending (place_leases leases rows)
        ∙ ap (λ x. raise owner x (row_of owner (place_leases leases rows)))
            (left_in_flight_lem owner requester request pending) in
      rw row shown
