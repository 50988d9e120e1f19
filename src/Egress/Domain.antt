-- ===== src/Egress/Domain.antt =====
-- The domains of a ceiling, entryWithinCeiling of api/egress_ceiling.go: a domain is covered by itself, or
-- by `*.` and a parent of it.
use spoond.Base.{
  ◌≡◌, refl, sym, ap, ◌∙◌, ◌⊎◌, inl, inr, true, ◌&&◌, Option, none, some, List, [], ◌∷◌, ◌++◌,
  arith, Bool-cases, some≢none, ◌==◌, Any, Any-mono, ◌↔◌,
}
use spoond.Base.Text.{Text, text_eq, text_eq→eq, text_eq_refl}
use spoond.Egress.{
  Ip, IpNet, Parser, ends_in, cut_star, is_parent, grants_domain, any_of, domain_of, within_by,
  entry_within_ceiling,
}
use spoond.Egress.Granted.{any_of-Any}

-- `d` is a subdomain of `parent`: a dot and `parent` follow its first part.
abbrev pub IsUnder : Text → Text → Type 0
IsUnder d parent = (x : Text) × (d ≡ x ++ 46 ∷ parent)

abbrev pub CoversDomain : Text → Text → Type 0
CoversDomain d c = (c ≡ d) ⊎ ((parent : Text) × (c ≡ 42 ∷ 46 ∷ parent) × IsUnder d parent)

ends_in-append : (s suffix : Text) → ends_in s suffix ≡ true → (x : Text) × (s ≡ x ++ suffix)
unfolding ends_in
ends_in-append [] suffix h = ([], text_eq→eq [] suffix h)
ends_in-append (c ∷ s) suffix h = elim (Bool-cases (text_eq (c ∷ s) suffix)) [
  | inl e ↦ ([], text_eq→eq (c ∷ s) suffix e)
  | inr e ↦
      let k : ends_in s suffix ≡ true = rw e at h in
      let (x, p) = ends_in-append s suffix k in (c ∷ x, ap (◌∷◌ c) p)
]

append-ends_in : (x suffix : Text) → ends_in (x ++ suffix) suffix ≡ true
unfolding ends_in
append-ends_in [] [] = text_eq_refl []
append-ends_in [] (c ∷ s) = let e = text_eq_refl (c ∷ s) in rw e refl
append-ends_in (c ∷ x) suffix = let k = append-ends_in x suffix in rw k (ground arith)

some_inj : {A : Type 0} {a b : A} → some a ≡ some b → a ≡ b
some_inj h = cc

cut_star_lem : (c parent : Text) → cut_star c ≡ some parent → c ≡ 42 ∷ 46 ∷ parent
unfolding cut_star
cut_star_lem [] parent h = cc
cut_star_lem (x ∷ []) parent h = cc
cut_star_lem (x ∷ y ∷ s) parent h = elim (Bool-cases ((x == 42) && (y == 46))) [
  | inl e ↦
      let k : some s ≡ some parent = rw e at h in
      let a : x ≡ 42 = ground arith in
      let b : y ≡ 46 = ground arith in rw (a, b) (ap (λ (t : Text). 42 ∷ 46 ∷ t) (some_inj k))
  | inr e ↦ let k : none ≡ some parent = rw e at h in absurd (some≢none refl (sym k))
]

is_parent-IsUnder :
    (d c : Text) (o : Option Text) → cut_star c ≡ o → is_parent d o ≡ true → CoversDomain d c
is_parent-IsUnder d c none e h = cc
is_parent-IsUnder d c (some parent) e h =
    inr (parent, cut_star_lem c parent e, ends_in-append d (46 ∷ parent) h)

pub grants_domain-CoversDomain : (d c : Text) → grants_domain d c ≡ true → CoversDomain d c
unfolding grants_domain
grants_domain-CoversDomain d c h = elim (Bool-cases (text_eq c d)) [
  | inl e ↦ inl (text_eq→eq c d e)
  | inr e ↦
      let k : is_parent d (cut_star c) ≡ true = rw e at h in
      is_parent-IsUnder d c (cut_star c) refl k
]

covers_by :
    (d c parent x : Text) → c ≡ 42 ∷ 46 ∷ parent → d ≡ x ++ 46 ∷ parent → grants_domain d c ≡ true
unfolding grants_domain cut_star
covers_by d c parent x e f = let k = append-ends_in x (46 ∷ parent) in rw (e, f, k) (ground arith)

CoversDomain-grants_domain : (d c : Text) → CoversDomain d c → grants_domain d c ≡ true
unfolding grants_domain
CoversDomain-grants_domain d c (inl e) = let k = text_eq_refl d in rw (e, k) refl
CoversDomain-grants_domain d c (inr (parent, e, (x, f))) = covers_by d c parent x e f

any_of_some :
    (d : Text) (cs : List Text) → Any (CoversDomain d) cs → any_of (grants_domain d) cs ≡ true
unfolding any_of
any_of_some d [] h = absurd h
any_of_some d (c ∷ cs) (inl h) = let k = CoversDomain-grants_domain d c h in rw k refl
any_of_some d (c ∷ cs) (inr h) = let k = any_of_some d cs h in rw k (ground arith)

within_by_domain :
    (N : Parser) (entry : Text) (ceiling : List Text) (ip : Option Ip) (net : Option IpNet)
    → ip ≡ none
    → net ≡ none
    → within_by N entry ceiling ip net ≡ any_of (grants_domain (domain_of entry)) ceiling
within_by_domain N entry ceiling none none e f = refl
within_by_domain N entry ceiling (some ip) net e f = absurd (some≢none refl e)
within_by_domain N entry ceiling none (some n) e f = absurd (some≢none refl f)

-- An entry that is neither an IP nor a CIDR is within a ceiling exactly when, in lower case and without
-- a dot at its end, the ceiling lists it, or lists `*.` and a parent of it: a subdomain is covered by
-- the wildcard alone, and the parent itself is not.
pub entry_within_ceiling_domain :
    (N : Parser) (entry : Text) (ceiling : List Text)
    → N.parse_ip entry ≡ none
    → N.parse_cidr entry ≡ none
    → (entry_within_ceiling N entry ceiling ≡ true) ↔ Any (CoversDomain (domain_of entry)) ceiling
unfolding entry_within_ceiling
entry_within_ceiling_domain N entry ceiling e f =
    let same = within_by_domain N entry ceiling (N.parse_ip entry) (N.parse_cidr entry) e f in
    (
      λ h.
          Any-mono (λ c. grants_domain (domain_of entry) c ≡ true) (CoversDomain (domain_of entry))
            ceiling (λ c g. grants_domain-CoversDomain (domain_of entry) c g)
            (any_of-Any (grants_domain (domain_of entry)) ceiling (sym same ∙ h)),
      λ h. same ∙ any_of_some (domain_of entry) ceiling h,
    )
