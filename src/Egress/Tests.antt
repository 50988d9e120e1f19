-- ===== src/Egress/Tests.antt =====
-- A ceiling of one IPv4 net, one address and two domain entries, and a reader of the texts in use.
use spoond.Base.{
  ℕ, ◌+◌, ◌≡◌, refl, Bool, true, false, Option, none, some, List, [], ◌∷◌, map, if◌then◌else◌, ◌↔◌,
  Any,
}
use spoond.Base.Text.{Text, codes, text_eq}
use spoond.Egress.{
  Ip, Parser, Peer, domain_of, entry_within_ceiling, or_restricted, outside_ceiling,
}
use spoond.Egress.Outside.{FitsPolicy, outside_ceiling-FitsPolicy}
use spoond.Egress.Domain.{CoversDomain, entry_within_ceiling_domain}

abbrev v4 : ℕ → Ip
v4 n = record { is_v6 = false; number = n }

-- 192.0.2.0
abbrev net_base : ℕ
net_base = 3221225984

abbrev lookup_text {ℓ} : {A : Type ℓ} → List (Text × A) → Text → Option A
lookup_text [] t = none
lookup_text ((k, a) ∷ es) t = let rest = lookup_text es t in if text_eq k t then some a else rest

abbrev reader : Parser
reader = record {
  parse_ip = lookup_text (
      (codes "192.0.2.203", v4 (net_base + 203))
      ∷ (codes "192.0.3.1", v4 (net_base + 257))
      ∷ (codes "198.51.100.5", v4 3325256709)
      ∷ []);
  parse_cidr = lookup_text (
      (codes "192.0.2.0/24", record { ip = v4 net_base; ones = 24; bits = 32 })
      ∷ (codes "192.0.2.0/25", record { ip = v4 net_base; ones = 25; bits = 32 })
      ∷ (codes "192.0.2.0/23", record { ip = v4 net_base; ones = 23; bits = 32 })
      ∷ (codes "198.51.100.5/32", record { ip = v4 3325256709; ones = 32; bits = 32 })
      ∷ []);
}

abbrev ceiling : List Text
ceiling =
    codes "192.0.2.0/24" ∷ codes "198.51.100.5" ∷ codes "example.com" ∷ codes "*.example.net" ∷ []

egress_ops : Unit {0}
unfolding entry_within_ceiling outside_ceiling text_eq
egress_ops = tt

abbrev within : Text → Bool
within e = entry_within_ceiling reader e ceiling

addresses :
    map within (
      codes "192.0.2.203"
      ∷ codes "192.0.3.1"
      ∷ codes "192.0.2.0/25"
      ∷ codes "192.0.2.0/23"
      ∷ codes "198.51.100.5/32"
      ∷ [])
    ≡ true ∷ false ∷ true ∷ false ∷ true ∷ []
unfolding egress_ops
addresses = refl

domains :
    map within (
      codes "EXAMPLE.com."
      ∷ codes "api.example.com"
      ∷ codes "mail.example.net"
      ∷ codes "example.net"
      ∷ codes "evil-example.net"
      ∷ [])
    ≡ true ∷ false ∷ true ∷ false ∷ false ∷ []
unfolding egress_ops
domains = refl

abbrev peers : List Peer
peers =
    record { id = codes "lease-7"; owner = codes "ann"; name = codes "db"; released = false } ∷ []

abbrev allow : List Text
allow = codes " 192.0.2.203" ∷ codes "lease:db" ∷ codes "mail.example.net" ∷ []

outside_ceiling-FitsPolicy_example :
    FitsPolicy reader peers (codes "ann") ceiling (or_restricted []) allow
outside_ceiling-FitsPolicy_example =
    outside_ceiling-FitsPolicy reader peers (codes "ann") ceiling [] allow
      (unfold egress_ops in refl)

outside_are_named :
    outside_ceiling reader peers (codes "eve") ceiling [] allow ≡ codes "lease:db" ∷ []
unfolding egress_ops
outside_are_named = refl

entry_within_ceiling_domain_example :
    (entry_within_ceiling reader (codes "mail.example.net") ceiling ≡ true)
    ↔ Any (CoversDomain (domain_of (codes "mail.example.net"))) ceiling
entry_within_ceiling_domain_example =
    entry_within_ceiling_domain reader (codes "mail.example.net") ceiling
      (unfold egress_ops in refl) (unfold egress_ops in refl)
