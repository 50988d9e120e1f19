-- ===== src/Egress.antt =====
-- The egress ceiling, api/egress_ceiling.go: which network access of an owner's leases is outside it.
pub mod Granted
pub mod Outside
pub mod Domain
mod Tests
use spoond.Base.{
  ℕ, zero, suc, ◌+◌, ◌-◌, ◌/◌, Bool, true, false, not, ◌&&◌, ◌||◌, Option, none, some, List, [],
  ◌∷◌, ltb, leb, ◌==◌, if◌then◌else◌,
}
use spoond.Base.Text.{Text, codes, text_eq}

-- net.IP. An IPv4 address is the same value in its four-byte and its mapped sixteen-byte form.
pub record Ip : Type 0 where
  pub is_v6 : Bool
  pub number : ℕ

-- net.IPNet: its masked IP, and the two results of Mask.Size.
pub record IpNet : Type 0 where
  pub ip : Ip
  pub ones : ℕ
  pub bits : ℕ

abbrev pub same_family : Bool → Bool → Bool
same_family true b = b
same_family false b = not b

-- IP.Equal
unfoldable pub ip_equal : Ip → Ip → Bool
ip_equal a b = same_family a.is_v6 b.is_v6 && (a.number == b.number)

-- The number without its last n bits.
unfoldable pub without_bits : ℕ → ℕ → ℕ
without_bits zero a = a
without_bits (suc n) a = without_bits n (a / 2)

abbrev pub host_bits : IpNet → ℕ
host_bits n = n.bits - n.ones

-- IPNet.Contains: the same family, and equal under the mask.
unfoldable pub net_contains : IpNet → Ip → Bool
unfolding without_bits
net_contains n a =
    same_family n.ip.is_v6 a.is_v6
    && (without_bits (host_bits n) n.ip.number == without_bits (host_bits n) a.number)

-- net.ParseIP and net.ParseCIDR; `none` is a text that is neither.
pub record Parser : Type 0 where
  pub parse_ip : Text → Option Ip
  pub parse_cidr : Text → Option IpNet

-- strings.ToLower on ASCII.
abbrev pub lower_byte : ℕ → ℕ
lower_byte c = if leb 65 c && leb c 90 then c + 32 else c

unfoldable pub to_lower : Text → Text
to_lower [] = []
to_lower (c ∷ s) = lower_byte c ∷ to_lower s

-- strings.TrimSpace on ASCII.
abbrev pub is_space : ℕ → Bool
is_space c = (leb 9 c && leb c 13) || c == 32

unfoldable pub trim_left : Text → Text
trim_left [] = []
trim_left (c ∷ s) = let rest = trim_left s in if is_space c then rest else c ∷ s

unfoldable pub trim_right : Text → Text
trim_right [] = []
trim_right (c ∷ s) = elim (trim_right s) [
  | [] ↦ if is_space c then [] else c ∷ []
  | d ∷ t ↦ c ∷ d ∷ t
]

abbrev pub trim_space : Text → Text
trim_space s = trim_right (trim_left s)

-- strings.TrimSuffix(s, ".")
unfoldable pub trim_dot : Text → Text
trim_dot [] = []
trim_dot (c ∷ []) = if c == 46 then [] else c ∷ []
trim_dot (c ∷ d ∷ s) = c ∷ trim_dot (d ∷ s)

-- strings.HasSuffix
unfoldable pub ends_in : Text → Text → Bool
ends_in [] suffix = text_eq [] suffix
ends_in (c ∷ s) suffix = text_eq (c ∷ s) suffix || ends_in s suffix

-- strings.CutPrefix(c, "*.")
unfoldable pub cut_star : Text → Option Text
cut_star [] = none
cut_star (c ∷ []) = none
cut_star (c ∷ d ∷ s) = if c == 42 && d == 46 then some s else none

unfoldable pub has_word : List Text → Text → Bool
has_word [] w = false
has_word (e ∷ es) w = text_eq e w || has_word es w

-- One of the ceiling's entries passes the test.
unfoldable pub any_of : (Text → Bool) → List Text → Bool
any_of p [] = false
any_of p (c ∷ cs) = p c || any_of p cs

abbrev pub is_ip : Ip → Option Ip → Bool
is_ip ip none = false
is_ip ip (some a) = ip_equal a ip

abbrev pub is_in_net : Ip → Option IpNet → Bool
is_in_net ip none = false
is_in_net ip (some n) = net_contains n ip

-- Against a CIDR: an equal IP if it is of one address, or a CIDR that contains all of it.
abbrev pub grants_by : IpNet → Option Ip → Option IpNet → Bool
grants_by n ip none = (n.ones == n.bits) && is_ip n.ip ip
grants_by n ip (some m) = (m.bits == n.bits) && leb m.ones n.ones && net_contains m n.ip

-- Against a domain: the same, or `*.` and one of its parents.
abbrev pub is_parent : Text → Option Text → Bool
is_parent d none = false
is_parent d (some parent) = ends_in d (46 ∷ parent)

unfoldable pub grants_domain : Text → Text → Bool
unfolding text_eq ends_in cut_star
grants_domain d c = text_eq c d || is_parent d (cut_star c)

abbrev pub domain_of : Text → Text
domain_of entry = trim_dot (to_lower entry)

module _ (N : Parser) where
  open N use {parse_ip, parse_cidr}

  -- One entry of the ceiling against an IP.
  unfoldable pub grants_ip : Ip → Text → Bool
  unfolding ip_equal net_contains
  grants_ip ip c = is_ip ip (parse_ip c) || is_in_net ip (parse_cidr c)

  unfoldable pub grants_net : IpNet → Text → Bool
  unfolding ip_equal net_contains
  grants_net n c = grants_by n (parse_ip c) (parse_cidr c)

  abbrev pub within_by : Text → List Text → Option Ip → Option IpNet → Bool
  within_by entry ceiling (some ip) net = any_of (grants_ip ip) ceiling
  within_by entry ceiling none (some n) = any_of (grants_net n) ceiling
  within_by entry ceiling none none = any_of (grants_domain (domain_of entry)) ceiling

  unfoldable pub entry_within_ceiling : Text → List Text → Bool
  unfolding any_of grants_ip grants_net grants_domain trim_dot to_lower
  entry_within_ceiling entry ceiling = within_by entry ceiling (parse_ip entry) (parse_cidr entry)

-- A lease as the peer references see it.
pub record Peer : Type 0 where
  pub id : Text
  pub owner : Text
  pub name : Text
  pub released : Bool

-- strings.TrimPrefix(s, "lease:")
abbrev pub starts_with : Text → Text → Option Text
starts_with [] s = some s
starts_with (c ∷ p) [] = none
starts_with (c ∷ p) (d ∷ s) = let rest = starts_with p s in if c == d then rest else none

abbrev pub or_itself : Text → Option Text → Text
or_itself s none = s
or_itself s (some t) = t

abbrev pub is_peer : Text → Text → Peer → Bool
is_peer owner name p =
    text_eq p.owner owner
    && not p.released
    && (text_eq p.id name || (not (text_eq p.name []) && text_eq p.name name))

unfoldable pub some_peer : (Peer → Bool) → List Peer → Bool
some_peer q [] = false
some_peer q (p ∷ ps) = q p || some_peer q ps

unfoldable pub is_own_peer_reference : List Peer → Text → Text → Bool
unfolding some_peer trim_left trim_right text_eq
is_own_peer_reference peers owner entry =
    let name = or_itself (trim_space entry) (starts_with (codes "lease:") (trim_space entry)) in
    not (text_eq name []) && some_peer (is_peer owner name) peers

-- The policy of a lease without one.
abbrev pub or_restricted : Text → Text
or_restricted policy = if text_eq policy [] then codes "restricted" else policy

module _ (N : Parser) (peers : List Peer) (owner : Text) (ceiling : List Text) where
  -- The entries of a restricted policy that the ceiling does not cover.
  unfoldable pub outside_entries : List Text → List Text
  outside_entries [] = []
  outside_entries (e ∷ es) =
      let rest = outside_entries es in
      if text_eq (trim_space e) []
        || is_own_peer_reference peers owner (trim_space e)
        || entry_within_ceiling N (trim_space e) ceiling
      then rest
      else trim_space e ∷ rest

  unfoldable pub outside_ceiling : Text → List Text → List Text
  unfolding outside_entries has_word is_own_peer_reference entry_within_ceiling
  outside_ceiling policy allow =
      if text_eq (or_restricted policy) (codes "none")
      then []
      else if text_eq (or_restricted policy) (codes "internet")
      then (if has_word ceiling (codes "internet")
          then []
          else codes "network_policy internet" ∷ [])
      else if text_eq (or_restricted policy) (codes "lan")
      then (if has_word ceiling (codes "lan") || has_word ceiling (codes "internet")
          then []
          else codes "network_policy lan" ∷ [])
      else outside_entries allow
