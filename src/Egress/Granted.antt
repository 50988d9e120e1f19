-- ===== src/Egress/Granted.antt =====
-- entryWithinCeiling, api/egress_ceiling.go: every address that an accepted
-- entry names is one that the ceiling covers.
use spoond.Base.{
  ℕ, zero, suc, ◌/◌, ◌≤◌, ◌≡◌, refl, ap, ◌∙◌, ◌⊎◌, inl, inr, Bool, true, false, ◌&&◌, Option, none,
  some, List, [], ◌∷◌, arith, Any, Any-mono, Bool-cases, clash, ◌==◌,
}
use spoond.Base.Text.{Text}
use spoond.Egress.{
  Ip, IpNet, same_family, ip_equal, without_bits, host_bits, net_contains, Parser, any_of, is_ip,
  is_in_net, grants_ip, grants_by, grants_net, within_by, entry_within_ceiling,
}

pub any_of-Any : (p : Text → Bool) (cs : List Text) → any_of p cs ≡ true → Any (λ c. p c ≡ true) cs
unfolding any_of
any_of-Any p [] h = cc
any_of-Any p (c ∷ cs) h = elim (Bool-cases (p c)) [
  | inl e ↦ inl e
  | inr e ↦ let k : any_of p cs ≡ true = rw e at h in inr (any_of-Any p cs k)
]

-- Equal in family, and in the number without some bits.
abbrev Match : ℕ → Ip → Ip → Type 0
Match n a b =
    (same_family a.is_v6 b.is_v6 ≡ true) × (without_bits n a.number ≡ without_bits n b.number)

net_contains→Match : (n : IpNet) (a : Ip) → net_contains n a ≡ true → Match (host_bits n) n.ip a
unfolding net_contains
net_contains→Match n a h = ground arith

Match→net_contains : (n : IpNet) (a : Ip) → Match (host_bits n) n.ip a → net_contains n a ≡ true
unfolding net_contains
Match→net_contains n a m = ground (arith, m.0, m.1)

ip_equal→Match : (a b : Ip) → ip_equal a b ≡ true → Match 0 a b
unfolding ip_equal without_bits
ip_equal→Match a b h = ground arith

Match→ip_equal : (a b : Ip) → Match 0 a b → ip_equal a b ≡ true
unfolding ip_equal without_bits
Match→ip_equal a b m = ground (arith, m.0, m.1)

-- Equal without few bits is equal without more.
without_bits_more :
    (m n a b : ℕ)
    → m ≤ n
    → without_bits m a ≡ without_bits m b
    → without_bits n a ≡ without_bits n b
unfolding without_bits
without_bits_more zero n a b h e = ap (without_bits n) e
without_bits_more (suc m) zero a b h e = absurd (omega arith)
without_bits_more (suc m) (suc n) a b h e = without_bits_more m n (a / 2) (b / 2) (omega arith) e

family_trans :
    (a b c : Bool) → same_family a b ≡ true → same_family b c ≡ true → same_family a c ≡ true
family_trans true b c h k = ground arith
family_trans false b c h k = ground arith

Match-more : (m n : ℕ) (a b : Ip) → m ≤ n → Match m a b → Match n a b
Match-more m n a b h e = (e.0, without_bits_more m n a.number b.number h e.1)

Match-trans : (n : ℕ) (a b c : Ip) → Match n a b → Match n b c → Match n a c
Match-trans n a b c h k = (family_trans a.is_v6 b.is_v6 c.is_v6 h.0 k.0, h.1 ∙ k.1)

-- A net that contains the IP of a narrower one contains all of it.
wider_contains :
    (m n : IpNet) (a : Ip)
    → m.bits ≡ n.bits
    → m.ones ≤ n.ones
    → net_contains m n.ip ≡ true
    → net_contains n a ≡ true
    → net_contains m a ≡ true
wider_contains m n a b o h k =
    let narrow = net_contains→Match n a k in
    let more = Match-more (host_bits n) (host_bits m) n.ip a (omega arith) narrow in
    Match→net_contains m a
      (Match-trans (host_bits m) m.ip n.ip a (net_contains→Match m n.ip h) more)

one_address :
    (n : IpNet) (ip a : Ip)
    → n.ones ≡ n.bits
    → ip_equal ip n.ip ≡ true
    → net_contains n a ≡ true
    → ip_equal ip a ≡ true
one_address n ip a e h k =
    let z : host_bits n ≤ 0 = omega arith in
    let all = Match-more (host_bits n) 0 n.ip a z (net_contains→Match n a k) in
    Match→ip_equal ip a (Match-trans 0 ip n.ip a (ip_equal→Match ip n.ip h) all)

net_contains_same :
    (n : IpNet) (a b : Ip) → net_contains n a ≡ true → ip_equal a b ≡ true → net_contains n b ≡ true
net_contains_same n a b h k =
    let exact = Match-more 0 (host_bits n) a b (omega arith) (ip_equal→Match a b k) in
    Match→net_contains n b (Match-trans (host_bits n) n.ip a b (net_contains→Match n a h) exact)

ip_equal_trans : (a b c : Ip) → ip_equal a b ≡ true → ip_equal b c ≡ true → ip_equal a c ≡ true
ip_equal_trans a b c h k =
    Match→ip_equal a c (Match-trans 0 a b c (ip_equal→Match a b h) (ip_equal→Match b c k))

module _ (N : Parser) where
  open N use {parse_ip, parse_cidr}

  -- The addresses that an allowlist entry names: one IP, those of a CIDR, or none of its own.
  abbrev pub NamedBy : Option Ip → Option IpNet → Ip → Type 0
  NamedBy (some ip) net a = ip_equal ip a ≡ true
  NamedBy none (some n) a = net_contains n a ≡ true
  NamedBy none none a = ⊥

  abbrev pub Names : Text → Ip → Type 0
  Names entry a = NamedBy (parse_ip entry) (parse_cidr entry) a

  -- The addresses that an entry of a ceiling covers.
  abbrev pub Covers : Text → Ip → Type 0
  Covers c a =
      ((ip : Ip) × (parse_ip c ≡ some ip) × (ip_equal ip a ≡ true))
      ⊎ ((n : IpNet) × (parse_cidr c ≡ some n) × (net_contains n a ≡ true))

  is_ip-Covers :
      (ip a : Ip) (c : Text) (o : Option Ip)
      → parse_ip c ≡ o
      → is_ip ip o ≡ true
      → ip_equal ip a ≡ true
      → Covers c a
  is_ip-Covers ip a c none e h k = cc
  is_ip-Covers ip a c (some b) e h k = inl (b, e, ip_equal_trans b ip a h k)

  is_in_net-Covers :
      (ip a : Ip) (c : Text) (o : Option IpNet)
      → parse_cidr c ≡ o
      → is_in_net ip o ≡ true
      → ip_equal ip a ≡ true
      → Covers c a
  is_in_net-Covers ip a c none e h k = cc
  is_in_net-Covers ip a c (some n) e h k = inr (n, e, net_contains_same n ip a h k)

  grants_ip-Covers :
      (ip a : Ip) (c : Text) → grants_ip N ip c ≡ true → ip_equal ip a ≡ true → Covers c a
  unfolding grants_ip
  grants_ip-Covers ip a c h k = elim (Bool-cases (is_ip ip (parse_ip c))) [
    | inl e ↦ is_ip-Covers ip a c (parse_ip c) refl e k
    | inr e ↦
        let q : is_in_net ip (parse_cidr c) ≡ true = rw e at h in
        is_in_net-Covers ip a c (parse_cidr c) refl q k
  ]

  one_ip-Covers :
      (n : IpNet) (a : Ip) (c : Text) (o : Option Ip)
      → parse_ip c ≡ o
      → ((n.ones == n.bits) && is_ip n.ip o) ≡ true
      → net_contains n a ≡ true
      → Covers c a
  one_ip-Covers n a c none e h k = absurd (clash h (ground arith))
  one_ip-Covers n a c (some b) e h k = inl (b, e, one_address n b a (ground arith) (ground arith) k)

  grants_by-Covers :
      (n : IpNet) (a : Ip) (c : Text) (o : Option IpNet)
      → parse_cidr c ≡ o
      → grants_by n (parse_ip c) o ≡ true
      → net_contains n a ≡ true
      → Covers c a
  grants_by-Covers n a c none e h k = one_ip-Covers n a c (parse_ip c) refl h k
  grants_by-Covers n a c (some m) e h k =
      inr (m, e, wider_contains m n a (ground arith) (ground arith) (ground arith) k)

  grants_net-Covers :
      (n : IpNet) (a : Ip) (c : Text)
      → grants_net N n c ≡ true
      → net_contains n a ≡ true
      → Covers c a
  unfolding grants_net
  grants_net-Covers n a c h k = grants_by-Covers n a c (parse_cidr c) refl h k

  within_by-Covers :
      (entry : Text) (ceiling : List Text) (ip : Option Ip) (net : Option IpNet) (a : Ip)
      → within_by N entry ceiling ip net ≡ true
      → NamedBy ip net a
      → Any (λ c. Covers c a) ceiling
  within_by-Covers entry ceiling (some ip) net a h k =
      Any-mono _ _ ceiling (λ c g. grants_ip-Covers ip a c g k)
        (any_of-Any (grants_ip N ip) ceiling h)
  within_by-Covers entry ceiling none (some n) a h k =
      Any-mono _ _ ceiling (λ c g. grants_net-Covers n a c g k)
        (any_of-Any (grants_net N n) ceiling h)
  within_by-Covers entry ceiling none none a h k = absurd k

  pub entry_within_ceiling-Covers :
      (entry : Text) (ceiling : List Text) (a : Ip)
      → entry_within_ceiling N entry ceiling ≡ true
      → Names entry a
      → Any (λ c. Covers c a) ceiling
  unfolding entry_within_ceiling
  entry_within_ceiling-Covers entry ceiling a h k =
      within_by-Covers entry ceiling (parse_ip entry) (parse_cidr entry) a h k
