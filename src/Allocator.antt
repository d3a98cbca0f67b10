-- ===== src/Allocator.antt =====
-- pymesh/controller/allocator.py: the pool of addresses of a network.
pub mod Laws
mod Tests
use pymesh.Base.{
  ℕ, zero, suc, ◌+◌, ◌-◌, ◌^◌, ◌<◌, ◌≡◌, Bool, true, false, ◌&&◌, ◌||◌, Option, none, some, List,
  [], ◌∷◌, ◌==◌, text_eq, contains, is_empty, ltb, if◌then◌else◌,
}
use pymesh.Base.Text.{Text, codes, ends_with}
use pymesh.Base.Result.{Result, ok, raise, exhausted, bad_address, ◌>>=◌}
use pymesh.Ipv4.{Ipv4Network, show_ipv4, parse_ipv4, parse_network, first_host, host_count}

-- What the program uses of `ipaddress` for IPv6: the network address of
-- `IPv6Network(text, strict=False)`, and the text of an address, which determines it.
pub record Ipv6 : Type 0 where
  pub parse_network : Text → Option ℕ
  pub show : ℕ → Text
  pub show_injective : (m n : ℕ) → m < 2 ^ 128 → n < 2 ^ 128 → show m ≡ show n → m ≡ n

pub record IpAllocator : Type 0 where
  pub ipv4_net : Ipv4Network
  -- the network address of `ipv6_net`
  pub ipv6_net : ℕ

-- `host_str == str(self.ipv4_net.network_address) or host_str.endswith(".1")`
abbrev pub reserved : Ipv4Network → ℕ → Bool
reserved net host =
    show_ipv4 host == show_ipv4 net.network_address || ends_with (show_ipv4 host) (codes ".1")

-- the loop over `hosts()`, with the next host and the number of hosts left
unfoldable pub next_free : Ipv4Network → List Text → ℕ → ℕ → Option Text
next_free net allocated host zero = none
next_free net allocated host (suc left) =
    let rest = next_free net allocated (host + 1) left in
    if reserved net host
    then rest
    else if contains (show_ipv4 host) allocated
    then rest
    else some (show_ipv4 host)

module _ (v6 : Ipv6) where
  -- `IPAllocator(ipv4_cidr, ipv6_cidr)`
  unfoldable pub allocator : Text → Text → Result IpAllocator
  allocator ipv4_cidr ipv6_cidr = elim (parse_network ipv4_cidr) [
    | none ↦ raise bad_address
    | some net ↦ elim (v6.parse_network ipv6_cidr) [
      | none ↦ raise bad_address
      | some address ↦ ok (record { ipv4_net = net; ipv6_net = address })
    ]
  ]

  -- `str(network_address + offset)`; an address past the last one is refused
  abbrev pub show_ipv6 : ℕ → Result Text
  show_ipv6 address = if ltb address (2 ^ 128) then ok (v6.show address) else raise bad_address

  -- the IPv6 address of an IPv4 one, at the same offset in its network
  unfoldable pub derive_v6 : IpAllocator → Text → Result (Text × Text)
  derive_v6 a next_v4 = elim (parse_ipv4 next_v4) [
    | none ↦ raise bad_address
    | some host ↦ show_ipv6 (a.ipv6_net + (host - a.ipv4_net.network_address)) >>= λ next_v6.
        ok (next_v4, next_v6)
  ]

  -- The IPv6 addresses that are taken are not read.
  unfoldable pub allocate : IpAllocator → List Text → List Text → Result (Text × Text)
  allocate a allocated_v4 allocated_v6 =
      elim (next_free a.ipv4_net allocated_v4 (first_host a.ipv4_net) (host_count a.ipv4_net)) [
        | none ↦ raise exhausted
        | some next_v4 ↦ derive_v6 a next_v4
      ]

  -- `if ipv6_cidr:`, false for None and for an empty text
  abbrev v6_valid : Option Text → Bool
  v6_valid none = true
  v6_valid (some []) = true
  v6_valid (some (c ∷ s)) = elim (v6.parse_network (c ∷ s)) [ none ↦ false | some _ ↦ true ]

  unfoldable pub validate_cidr : Text → Option Text → Bool
  validate_cidr ipv4_cidr ipv6_cidr = elim (parse_network ipv4_cidr) [
    | none ↦ false
    | some _ ↦ v6_valid ipv6_cidr
  ]
