-- ===== src/Egress/Outside.antt =====
-- outsideCeilingLocked, api/egress_ceiling.go: a policy that passes reaches nothing outside the ceiling.
use spoond.Base.{
  ◌≡◌, refl, subst, ◌⊎◌, inl, inr, Bool, true, false, not, ◌&&◌, ◌||◌, ◌==◌, Option, none, some,
  List, [], ◌∷◌, ◌++◌, All, Any, Any-mono, Bool-cases, if◌then◌else◌, clash, some≢none, arith,
}
use spoond.Base.Text.{Text, codes, text_eq, text_eq→eq, text_eq_refl}
use spoond.Egress.{
  Ip, Parser, entry_within_ceiling, has_word, Peer, is_peer, some_peer, starts_with, or_itself,
  is_own_peer_reference, trim_space, domain_of, outside_entries, or_restricted, outside_ceiling,
}
use spoond.Egress.Granted.{Names, Covers, entry_within_ceiling-Covers}
use spoond.Egress.Domain.{CoversDomain, entry_within_ceiling_domain}

has_word-Any : (ws : List Text) (w : Text) → has_word ws w ≡ true → Any (λ c. c ≡ w) ws
unfolding has_word
has_word-Any [] w h = cc
has_word-Any (c ∷ ws) w h = elim (Bool-cases (text_eq c w)) [
  | inl e ↦ inl (text_eq→eq c w e)
  | inr e ↦ let k : has_word ws w ≡ true = rw e at h in inr (has_word-Any ws w k)
]

empty_if :
    {A : Type 0} (b : Bool) (x : A) (xs : List A)
    → (if b then xs else x ∷ xs) ≡ []
    → (b ≡ true) × (xs ≡ [])
empty_if true x xs h = (refl, h)
empty_if false x xs h = cc

-- The texts after `lease:`, and the whole text, that a reference may mean.
abbrev pub MeansName : Text → Text → Type 0
MeansName t name = (t ≡ codes "lease:" ++ name) ⊎ (t ≡ name)

-- A lease of the owner that is not released has the name, or the id.
abbrev pub IsNamed : Text → Text → Peer → Type 0
IsNamed owner name p =
    (p.owner ≡ owner)
    × (p.released ≡ false)
    × ((p.id ≡ name) ⊎ ((p.name ≡ [] → ⊥) × (p.name ≡ name)))

abbrev pub NamesOwn : List Peer → Text → Text → Type 0
NamesOwn peers owner t =
    (name : Text) × MeansName t name × (name ≡ [] → ⊥) × Any (IsNamed owner name) peers

not_eq : (s t : Text) → text_eq s t ≡ false → s ≡ t → ⊥
not_eq s t h e = clash (subst (λ x. text_eq s x ≡ true) e (text_eq_refl s)) h

apart : (s t : Text) → (s ≡ t → ⊥) → text_eq s t ≡ false
apart s t h = elim (Bool-cases (text_eq s t)) [ inl e ↦ absurd (h (text_eq→eq s t e)) | inr e ↦ e ]

starts_with_append : (p s t : Text) → starts_with p s ≡ some t → s ≡ p ++ t
starts_with_append [] s t h = cc
starts_with_append (c ∷ p) [] t h = absurd (some≢none h refl)
starts_with_append (c ∷ p) (d ∷ s) t h = elim (Bool-cases (c == d)) [
  | inl e ↦
      let k : starts_with p s ≡ some t = rw e at h in
      let same : d ≡ c = ground arith in rw (starts_with_append p s t k, same) refl
  | inr e ↦ let k : ◌≡◌ {A = Option Text} none (some t) = rw e at h in absurd (some≢none k refl)
]

or_itself-MeansName :
    (t : Text) (o : Option Text) → starts_with (codes "lease:") t ≡ o → MeansName t (or_itself t o)
or_itself-MeansName t none e = inr refl
or_itself-MeansName t (some name) e = inl (starts_with_append (codes "lease:") t name e)

is_peer-IsNamed :
    (owner name : Text) (p : Peer) → is_peer owner name p ≡ true → IsNamed owner name p
is_peer-IsNamed owner name p h =
    (text_eq→eq p.owner owner (ground arith), ground arith, by_name (ground arith))
  where
    by_name :
        (text_eq p.id name || (not (text_eq p.name []) && text_eq p.name name)) ≡ true
        → (p.id ≡ name) ⊎ ((p.name ≡ [] → ⊥) × (p.name ≡ name))
    by_name k = elim (Bool-cases (text_eq p.id name)) [
      | inl e ↦ inl (text_eq→eq p.id name e)
      | inr e ↦ inr (not_eq p.name [] (ground arith), text_eq→eq p.name name (ground arith))
    ]

some_peer-Any :
    (owner name : Text) (ps : List Peer)
    → some_peer (is_peer owner name) ps ≡ true
    → Any (IsNamed owner name) ps
unfolding some_peer
some_peer-Any owner name [] h = absurd (clash h refl)
some_peer-Any owner name (p ∷ ps) h = elim (Bool-cases (is_peer owner name p)) [
  | inl e ↦ inl (is_peer-IsNamed owner name p e)
  | inr e ↦
      let k : some_peer (is_peer owner name) ps ≡ true = rw e at h in
      inr (some_peer-Any owner name ps k)
]

is_own_peer_reference-NamesOwn :
    (peers : List Peer) (owner e : Text)
    → is_own_peer_reference peers owner e ≡ true
    → NamesOwn peers owner (trim_space e)
unfolding is_own_peer_reference
is_own_peer_reference-NamesOwn peers owner e h =
    let o = starts_with (codes "lease:") (trim_space e) in
    let name = or_itself (trim_space e) o in
    (
      name,
      or_itself-MeansName (trim_space e) o refl,
      not_eq name [] (ground arith),
      some_peer-Any owner name peers (ground arith),
    )

module _ (N : Parser) (peers : List Peer) (owner : Text) (ceiling : List Text) where
  -- Some entry of the ceiling covers each address that the entry names; an entry that is no IP and no
  -- CIDR is a domain, which the ceiling has, or `*.` and a parent of it.
  abbrev pub IsWithin : Text → Type 0
  IsWithin t =
      ((a : Ip) → Names N t a → Any (λ c. Covers N c a) ceiling)
      × (N.parse_ip t ≡ none → N.parse_cidr t ≡ none → Any (CoversDomain (domain_of t)) ceiling)

  -- An entry is blank, names a lease of the owner, or is within the ceiling.
  abbrev pub Fits : Text → Type 0
  Fits e =
      (trim_space e ≡ [])
      ⊎ NamesOwn peers owner (trim_space (trim_space e))
      ⊎ IsWithin (trim_space e)

  -- What a policy may reach. The empty policy is `restricted`.
  abbrev pub FitsPolicy : Text → List Text → Type 0
  FitsPolicy policy allow =
      (policy ≡ codes "internet" → Any (λ c. c ≡ codes "internet") ceiling)
      × (policy ≡ codes "lan" → Any (λ c. (c ≡ codes "lan") ⊎ (c ≡ codes "internet")) ceiling)
      × ((policy ≡ codes "none" → ⊥)
          → (policy ≡ codes "internet" → ⊥)
          → (policy ≡ codes "lan" → ⊥)
          → All Fits allow)

  entry_within_ceiling-IsWithin : (t : Text) → entry_within_ceiling N t ceiling ≡ true → IsWithin t
  entry_within_ceiling-IsWithin t k = (
    λ x n. entry_within_ceiling-Covers N t ceiling x k n,
    λ i c. (entry_within_ceiling_domain N t ceiling i c).0 k,
  )

  entry-Fits :
      (e : Text)
      → (text_eq (trim_space e) []
          || is_own_peer_reference peers owner (trim_space e)
          || entry_within_ceiling N (trim_space e) ceiling)
        ≡ true
      → Fits e
  entry-Fits e h = elim (Bool-cases (text_eq (trim_space e) [])) [
    | inl a ↦ inl (text_eq→eq (trim_space e) [] a)
    | inr a ↦ elim (Bool-cases (is_own_peer_reference peers owner (trim_space e))) [
      | inl b ↦ inr (inl (is_own_peer_reference-NamesOwn peers owner (trim_space e) b))
      | inr b ↦
          let k : entry_within_ceiling N (trim_space e) ceiling ≡ true = rw (a, b) at h in
          inr (inr (entry_within_ceiling-IsWithin (trim_space e) k))
    ]
  ]

  entries-Fits :
      (allow : List Text) → outside_entries N peers owner ceiling allow ≡ [] → All Fits allow
  unfolding outside_entries
  entries-Fits [] h = tt
  entries-Fits (e ∷ es) h =
      let k = empty_if _ (trim_space e) (outside_entries N peers owner ceiling es) h in
      (entry-Fits e k.0, entries-Fits es k.1)

  lan_word :
      (has_word ceiling (codes "lan") || has_word ceiling (codes "internet")) ≡ true
      → Any (λ c. (c ≡ codes "lan") ⊎ (c ≡ codes "internet")) ceiling
  lan_word h = elim (Bool-cases (has_word ceiling (codes "lan"))) [
    | inl e ↦ Any-mono _ _ ceiling (λ c q. inl q) (has_word-Any ceiling (codes "lan") e)
    | inr e ↦
        let k : has_word ceiling (codes "internet") ≡ true = rw e at h in
        Any-mono _ _ ceiling (λ c q. inr q) (has_word-Any ceiling (codes "internet") k)
  ]

  abbrev outside_of : Text → List Text → List Text
  outside_of p allow =
      if text_eq p (codes "none")
      then []
      else if text_eq p (codes "internet")
      then (if has_word ceiling (codes "internet")
          then []
          else codes "network_policy internet" ∷ [])
      else if text_eq p (codes "lan")
      then (if has_word ceiling (codes "lan") || has_word ceiling (codes "internet")
          then []
          else codes "network_policy lan" ∷ [])
      else outside_entries N peers owner ceiling allow

  internet_word :
      (allow : List Text)
      → outside_of (codes "internet") allow ≡ []
      → has_word ceiling (codes "internet") ≡ true
  unfolding text_eq
  internet_word allow h = (empty_if _ (codes "network_policy internet") [] h).0

  lan_words :
      (allow : List Text)
      → outside_of (codes "lan") allow ≡ []
      → (has_word ceiling (codes "lan") || has_word ceiling (codes "internet")) ≡ true
  unfolding text_eq
  lan_words allow h = (empty_if _ (codes "network_policy lan") [] h).0

  outside_of-FitsPolicy :
      (p : Text) (allow : List Text) → outside_of p allow ≡ [] → FitsPolicy p allow
  outside_of-FitsPolicy p allow h = (
    λ e.
        has_word-Any ceiling (codes "internet")
          (internet_word allow (subst (λ x. outside_of x allow ≡ []) e h)),
    λ e. lan_word (lan_words allow (subst (λ x. outside_of x allow ≡ []) e h)),
    λ a b c.
        let k : outside_entries N peers owner ceiling allow ≡ [] =
          rw (apart p (codes "none") a, apart p (codes "internet") b, apart p (codes "lan") c) at
            h in
        entries-Fits allow k,
  )

  -- A policy that the check lets pass reaches nothing outside the ceiling. The policy `internet` passes
  -- only if the ceiling has `internet`, and `lan` only if it has `lan` or `internet`. Under any other
  -- policy but `none`, the empty one included, each entry of the allowlist is blank; or names, with or
  -- without `lease:`, an unreleased lease of the owner by its id or its name; or names only addresses
  -- that entries of the ceiling cover, and if it is neither an IP nor a CIDR, its domain in lower case
  -- is one of the ceiling's or lies under a `*.` entry of it.
  pub outside_ceiling-FitsPolicy :
      (policy : Text) (allow : List Text)
      → outside_ceiling N peers owner ceiling policy allow ≡ []
      → FitsPolicy (or_restricted policy) allow
  unfolding outside_ceiling
  outside_ceiling-FitsPolicy policy allow h = outside_of-FitsPolicy (or_restricted policy) allow h
