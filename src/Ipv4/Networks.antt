-- ===== src/Ipv4/Networks.antt =====
-- A network that was parsed lies inside the IPv4 address space, and so do its hosts.
use native.Mathlib.Nat.{pow-suc, mul-le-mul_right, div-lt_iff_lt-mul}
use pymesh.Base.{
  ℕ, zero, suc, ◌+◌, ◌-◌, ◌*◌, ◌/◌, ◌^◌, ◌<◌, ◌≤◌, ◌≡◌, refl, true, not, ◌&&◌, Option, some, List,
  [], ◌∷◌, leb, ◌==◌, nat_eq, nat_beq_iff, arith, inl, inr, Bool-cases, Option-cases, is_empty,
}
use pymesh.Base.Decimal.{all_digits, read}
use mathlib.Core.Path.{subst}
use mathlib.Core.Option.{some-injective}
use pymesh.Base.Text.{Text, split}
use pymesh.Ipv4.{
  parse_octet, parse_ipv4, parse_parts, join_octets, Ipv4Network, netmask_length, hostmask_length,
  parse_mask, mask_of_number, make_network, network_of, network_parts, parse_network, first_host,
  host_count,
}
use pymesh.Ipv4.Octets.{all_below, all_below_lem}

pub record IsNetwork (net : Ipv4Network) : Type 0 where
  pub prefix_le : net.prefix ≤ 32
  pub inside : net.network_address + 2 ^ (32 - net.prefix) ≤ 2 ^ 32

pow-pos : (n : ℕ) → 0 < 2 ^ n
pow-pos zero = omega arith
pow-pos (suc n) = rw pow-suc (omega (arith, pow-pos n))

powers_table : all_below 33 (λ p. 2 ^ p * 2 ^ (32 - p) == 2 ^ 32) ≡ true
unfolding all_below
powers_table = refl

powers : (p : ℕ) → p ≤ 32 → 2 ^ p * 2 ^ (32 - p) ≡ 2 ^ 32
powers p h = (nat_beq_iff _ _).0 (all_below_lem 33 _ p powers_table (omega arith))

round_down : (a s k : ℕ) → 0 < s → a < k * s → a / s * s + s ≤ k * s
round_down a s k pos h = omega (arith, mul-le-mul_right s ((div-lt_iff_lt-mul pos).1 h))

parse_octet-lt : (s : Text) (n : ℕ) → parse_octet s ≡ some n → n < 256
unfolding parse_octet
parse_octet-lt s n h = ground arith

join_octets-lt :
    (a b c d : Option ℕ) (n : ℕ)
    → ((m : ℕ) → a ≡ some m → m < 256)
    → ((m : ℕ) → b ≡ some m → m < 256)
    → ((m : ℕ) → c ≡ some m → m < 256)
    → ((m : ℕ) → d ≡ some m → m < 256)
    → join_octets a b c d ≡ some n
    → n < 2 ^ 32
join_octets-lt (some a) (some b) (some c) (some d) n ha hb hc hd h =
    ground (arith, ha a refl, hb b refl, hc c refl, hd d refl)
join_octets-lt _ _ _ _ n ha hb hc hd h = cc

parse_parts-lt : (parts : List Text) (n : ℕ) → parse_parts parts ≡ some n → n < 2 ^ 32
parse_parts-lt (a ∷ b ∷ c ∷ d ∷ []) n h =
    join_octets-lt _ _ _ _ n (parse_octet-lt a) (parse_octet-lt b) (parse_octet-lt c)
      (parse_octet-lt d) h
parse_parts-lt _ n h = cc

pub parse_ipv4-lt : (s : Text) (n : ℕ) → parse_ipv4 s ≡ some n → n < 2 ^ 32
unfolding parse_ipv4
parse_ipv4-lt s n h = parse_parts-lt (split b'.' s) n h

netmask_length-le : (p m n : ℕ) → netmask_length p m ≡ some n → n ≤ p
unfolding netmask_length
netmask_length-le zero m n h = ground arith
netmask_length-le (suc p) m n h = ground (arith, netmask_length-le p m n)

hostmask_length-le : (p m n : ℕ) → hostmask_length p m ≡ some n → n ≤ p
unfolding hostmask_length
hostmask_length-le zero m n h = ground arith
hostmask_length-le (suc p) m n h = ground (arith, hostmask_length-le p m n)

mask_of_number-le : (m n : ℕ) → mask_of_number m ≡ some n → n ≤ 32
mask_of_number-le m n h = ground (arith, netmask_length-le 32 m n, hostmask_length-le 32 m n)

parse_mask-le : (s : Text) (n : ℕ) → parse_mask s ≡ some n → n ≤ 32
unfolding parse_mask
parse_mask-le s n h = elim (Bool-cases (not (is_empty s) && (all_digits s && leb (read s) 32))) [
  | inl e ↦ ground arith
  | inr e ↦ elim (Option-cases (parse_ipv4 s)) [
    | inl e' ↦ ground arith
    | inr (m, e') ↦ mask_of_number-le m n (rw (e, e', parse_mask) at h)
  ]
]

make_network-IsNetwork :
    (address prefix : ℕ) → address < 2 ^ 32 → prefix ≤ 32 → IsNetwork (make_network address prefix)
make_network-IsNetwork address prefix a p = record {
  prefix_le = p;
  inside = rw (← powers prefix p) (
      round_down address (2 ^ (32 - prefix)) (2 ^ prefix) (pow-pos (32 - prefix))
        (rw (← powers prefix p) at a));
}

network_of-IsNetwork :
    (address prefix : Option ℕ) (net : Ipv4Network)
    → ((n : ℕ) → address ≡ some n → n < 2 ^ 32)
    → ((n : ℕ) → prefix ≡ some n → n ≤ 32)
    → network_of address prefix ≡ some net
    → IsNetwork net
network_of-IsNetwork (some a) (some p) net ha hp h =
    subst IsNetwork (some-injective _ _ h) (make_network-IsNetwork a p (ha a refl) (hp p refl))
network_of-IsNetwork _ _ net ha hp h = cc

network_parts-IsNetwork :
    (parts : List Text) (net : Ipv4Network) → network_parts parts ≡ some net → IsNetwork net
network_parts-IsNetwork (a ∷ []) net h =
    network_of-IsNetwork _ (some 32) net (parse_ipv4-lt a) (λ n e. ground arith) h
network_parts-IsNetwork (a ∷ m ∷ []) net h =
    network_of-IsNetwork _ _ net (parse_ipv4-lt a) (parse_mask-le m) h
network_parts-IsNetwork _ net h = cc

-- Whatever text is accepted as a network, its addresses are below 2 ^ 32.
pub parse_network-IsNetwork :
    (s : Text) (net : Ipv4Network) → parse_network s ≡ some net → IsNetwork net
unfolding parse_network
parse_network-IsNetwork s net h = network_parts-IsNetwork (split b'/' s) net h

-- A host of a network: an address of it and, if the prefix has fewer than 31 bits, neither the first
-- nor the last one.
pub record IsHost (net : Ipv4Network) (host : ℕ) : Type 0 where
  pub low : net.network_address ≤ host
  pub high : host < net.network_address + 2 ^ (32 - net.prefix)
  pub proper :
      net.prefix < 31
      → (net.network_address < host) × (host + 1 < net.network_address + 2 ^ (32 - net.prefix))

-- What lies between the first host and the count of hosts is a host.
pub hosts-IsHost :
    (net : Ipv4Network) (host : ℕ)
    → first_host net ≤ host
    → host < first_host net + host_count net
    → IsHost net host
unfolding first_host host_count
hosts-IsHost net host low high = record {
  low = ground (arith, pow-pos (32 - net.prefix));
  high = ground (arith, pow-pos (32 - net.prefix));
  proper = λ p. ground (arith, pow-pos (32 - net.prefix));
}

-- The hosts lie inside the network.
pub hosts_inside :
    (net : Ipv4Network)
    → IsNetwork net
    → (net.network_address ≤ first_host net) × (first_host net + host_count net ≤ 2 ^ 32)
unfolding first_host host_count
hosts_inside net w = ground (arith, pow-pos (32 - net.prefix))
