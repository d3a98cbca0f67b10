-- ===== src/Allocator/Tests.antt =====
-- Runs of the allocator over the default prefixes, and the laws at them.
use pymesh.Base.{ℕ, ◌+◌, ◌<◌, ◌≤◌, ◌≡◌, ◌↔◌, refl, some, [], ◌∷◌, contains, list_beq, arith}
use pymesh.Base.Text.{codes, split, starts_with, ends_with}
use pymesh.Base.Decimal
use pymesh.Base.Decimal.{all_digits, read}
use pymesh.Base.Result.{ok, raise, exhausted}
use pymesh.Ipv4.{
  Ipv4Network, show_ipv4, parse_ipv4, parse_octet, parse_network, first_host, host_count,
}
use pymesh.Ipv4.Networks.{IsNetwork}
use pymesh.Allocator.{Ipv6, IpAllocator, allocator, next_free, derive_v6, allocate}
use pymesh.Allocator.Laws.{IsFree, IsFirstFree, IsPair, allocate-ok, allocate-exhausted}

-- Addresses written as decimal numbers, and every text read as the network at 0.
abbrev decimal_v6 : Ipv6
decimal_v6 = record {
  parse_network = λ s. some 0;
  show = Decimal.show;
  show_injective = λ m n _ _ e. Decimal.show-injective m n e;
}

abbrev default_net : Ipv4Network
default_net = record { network_address = 1681915904; prefix = 10 }

abbrev default_pool : IpAllocator
default_pool = record { ipv4_net = default_net; ipv6_net = 0 }

default_net_parsed : parse_network (codes "100.64.0.0/10") ≡ some default_net
unfolding parse_network parse_ipv4 parse_octet split all_digits read
default_net_parsed = refl

-- a netmask, and host bits that are cleared
netmask_parsed : parse_network (codes "100.65.3.4/255.192.0.0") ≡ some default_net
unfolding parse_network parse_ipv4 parse_octet split all_digits read
netmask_parsed = refl

first_address : allocate decimal_v6 default_pool [] [] ≡ ok (codes "100.64.0.2", codes "2")
unfolding allocate next_free derive_v6 contains list_beq ends_with starts_with show_ipv4
    Decimal.show first_host host_count parse_ipv4 parse_octet split all_digits read
first_address = refl

second_address :
    allocate decimal_v6 default_pool (codes "100.64.0.2" ∷ []) []
    ≡ ok (codes "100.64.0.3", codes "3")
unfolding allocate next_free derive_v6 contains list_beq ends_with starts_with show_ipv4
    Decimal.show first_host host_count parse_ipv4 parse_octet split all_digits read
second_address = refl

default_net-IsNetwork : IsNetwork default_net
default_net-IsNetwork = record { prefix_le = omega arith; inside = omega arith }

allocate-ok_example :
    (f : IsFirstFree default_net []
      (first_host default_net)
      (host_count default_net)
      (codes "100.64.0.2"))
    × IsPair decimal_v6 default_pool f.host (codes "100.64.0.2") (codes "2")
allocate-ok_example =
    allocate-ok decimal_v6 default_pool default_net-IsNetwork [] [] (codes "100.64.0.2") (codes "2")
      first_address

abbrev tiny_net : Ipv4Network
tiny_net = record { network_address = 1681915904; prefix = 30 }

abbrev tiny_pool : IpAllocator
tiny_pool = record { ipv4_net = tiny_net; ipv6_net = 0 }

tiny_net-IsNetwork : IsNetwork tiny_net
tiny_net-IsNetwork = record { prefix_le = omega arith; inside = omega arith }

-- a /30 has the hosts .1, which is reserved, and .2
allocate-exhausted_example :
    (allocate decimal_v6 tiny_pool (codes "100.64.0.2" ∷ []) [] ≡ raise exhausted) ↔ (
      (j : ℕ)
      → first_host tiny_net ≤ j
      → j < first_host tiny_net + host_count tiny_net
      → ¬ IsFree tiny_net (codes "100.64.0.2" ∷ []) j)
allocate-exhausted_example =
    allocate-exhausted decimal_v6 tiny_pool tiny_net-IsNetwork (codes "100.64.0.2" ∷ []) []

tiny_exhausted : allocate decimal_v6 tiny_pool (codes "100.64.0.2" ∷ []) [] ≡ raise exhausted
unfolding allocate next_free derive_v6 contains list_beq ends_with starts_with show_ipv4
    Decimal.show first_host host_count parse_ipv4 parse_octet split all_digits read
tiny_exhausted = refl

default_pool_built :
    allocator decimal_v6 (codes "100.64.0.0/10") (codes "fd00::/48") ≡ ok default_pool
unfolding allocator parse_network parse_ipv4 parse_octet split all_digits read
default_pool_built = refl
