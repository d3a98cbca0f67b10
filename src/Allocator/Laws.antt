-- ===== src/Allocator/Laws.antt =====
-- What `allocate` returns (pymesh/controller/allocator.py).
use pymesh.Base.{
  ℕ, zero, suc, ◌+◌, ◌-◌, ◌^◌, ◌<◌, ◌≤◌, ◌≡◌, ◌≢◌, ◌↔◌, ◌⊎◌, inl, inr, refl, true, false, none,
  some, List, [], ◌∷◌, text_eq, contains, arith, Option-cases, Bool-cases,
}
use pymesh.Base.Text.{Text}
use pymesh.Base.Result.{ok, raise, exhausted}
use pymesh.Ipv4.{Ipv4Network, show_ipv4, parse_network, first_host, host_count}
use pymesh.Ipv4.Dotted.{parse_ipv4-show_ipv4}
use pymesh.Ipv4.Networks.{IsNetwork, hosts_inside, parse_network-IsNetwork}
use pymesh.Allocator.{
  Ipv6, IpAllocator, reserved, next_free, derive_v6, allocate, validate_cidr, v6_valid, allocator,
}

-- The address may be given out.
pub record IsFree (net : Ipv4Network) (allocated : List Text) (host : ℕ) : Type 0 where
  pub not_reserved : reserved net host ≡ false
  pub not_allocated : contains (show_ipv4 host) allocated ≡ false

-- The first free address of a range, given as the answer of the loop over it.
pub record IsFirstFree (net : Ipv4Network) (allocated : List Text) (first left : ℕ) (answer : Text)
    : Type 0 where
  pub host : ℕ
  pub low : first ≤ host
  pub high : host < first + left
  pub shown : answer ≡ show_ipv4 host
  pub free : IsFree net allocated host
  pub smallest : (j : ℕ) → first ≤ j → j < host → ¬ IsFree net allocated j

module _ (net : Ipv4Network) (allocated : List Text) where
  extend :
      (first left : ℕ) {answer : Text}
      → ¬ IsFree net allocated first
      → IsFirstFree net allocated (first + 1) left answer
      → IsFirstFree net allocated first (suc left) answer
  extend first left taken r = record {
    host = r.host;
    low = omega arith;
    high = omega arith;
    shown = r.shown;
    free = r.free;
    smallest = λ j low high. elim (step j low) [
      | inl e ↦ rw e taken
      | inr above ↦ r.smallest j above high
    ];
  }
    where
      step : (j : ℕ) → first ≤ j → (j ≡ first) ⊎ (first + 1 ≤ j)
      step j low = grind arith

  next_free-some :
      (first left : ℕ) (answer : Text)
      → next_free net allocated first left ≡ some answer
      → IsFirstFree net allocated first left answer
  unfolding next_free
  next_free-some first zero answer h = cc
  next_free-some first (suc left) answer h = elim (Bool-cases (reserved net first)) [
    | inl e ↦
        extend first left (λ f. ground (arith, f.not_reserved))
          (next_free-some (first + 1) left answer (rw e at h))
    | inr e ↦ elim (Bool-cases (contains (show_ipv4 first) allocated)) [
      | inl c ↦
          extend first left (λ f. ground (arith, f.not_allocated))
            (next_free-some (first + 1) left answer (rw (e, c) at h))
      | inr c ↦ record {
        host = first;
        low = omega arith;
        high = omega arith;
        shown = ground arith;
        free = record { not_reserved = e; not_allocated = c };
        smallest = λ j low high. absurd (omega arith);
      }
    ]
  ]

  next_free-none :
      (first left : ℕ)
      → next_free net allocated first left ≡ none
      → (j : ℕ) → first ≤ j
      → j < first + left
      → ¬ IsFree net allocated j
  unfolding next_free
  next_free-none first zero h j low high f = absurd (omega arith)
  next_free-none first (suc left) h j low high f = elim (step j low) [
    | inl e ↦ ground (arith, f.not_reserved, f.not_allocated)
    | inr above ↦ next_free-none (first + 1) left (ground (arith)) j above (omega arith) f
  ]
    where
      step : (j : ℕ) → first ≤ j → (j ≡ first) ⊎ (first + 1 ≤ j)
      step j low = grind arith

-- The two addresses of a host: the IPv6 one is at the same offset in its network.
pub record IsPair (v6 : Ipv6) (a : IpAllocator) (host : ℕ) (x y : Text) : Type 0 where
  pub v4 : x ≡ show_ipv4 host
  pub v6_inside : a.ipv6_net + (host - a.ipv4_net.network_address) < 2 ^ 128
  pub v6_shown : y ≡ v6.show (a.ipv6_net + (host - a.ipv4_net.network_address))

module _ (v6 : Ipv6) (a : IpAllocator) where
  abbrev first : ℕ
  first = first_host a.ipv4_net

  abbrev count : ℕ
  count = host_count a.ipv4_net

  derive_v6-IsPair :
      (host : ℕ) (x y : Text)
      → host < 2 ^ 32
      → derive_v6 v6 a (show_ipv4 host) ≡ ok (x, y)
      → IsPair v6 a host x y
  unfolding derive_v6
  derive_v6-IsPair host x y small h =
      let e = parse_ipv4-show_ipv4 host small in
      record { v4 = ground (arith, e); v6_inside = ground (arith, e); v6_shown = ground (arith, e) }

  derive_v6-ne-exhausted : (x : Text) → derive_v6 v6 a x ≢ raise exhausted
  unfolding derive_v6
  derive_v6-ne-exhausted x h = ground arith

  host-lt : (host : ℕ) → IsNetwork a.ipv4_net → host < first + count → host < 2 ^ 32
  host-lt host w h = omega (arith, hosts_inside a.ipv4_net w)

  first-IsPair :
      {allocated : List Text} {z : Text} (x y : Text)
      → IsNetwork a.ipv4_net
      → (f : IsFirstFree a.ipv4_net allocated first count z) → derive_v6 v6 a z ≡ ok (x, y)
      → (g : IsFirstFree a.ipv4_net allocated first count x) × IsPair v6 a g.host x y
  first-IsPair x y w f h =
      let p = derive_v6-IsPair f.host x y (host-lt f.host w f.high) (rw (← f.shown) h) in
      (
        record {
          host = f.host;
          low = f.low;
          high = f.high;
          shown = p.v4;
          free = f.free;
          smallest = f.smallest;
        },
        p,
      )

  module _ (w : IsNetwork a.ipv4_net) (allocated_v4 allocated_v6 : List Text) where
    -- The addresses that `allocate` returns are those of one host: the first host of the network
    -- that is neither reserved (the network address, or a text that ends in ".1") nor allocated.
    -- The IPv6 address has the offset of the IPv4 address and lies below 2 ^ 128.
    pub allocate-ok :
        (x y : Text)
        → allocate v6 a allocated_v4 allocated_v6 ≡ ok (x, y)
        → (f : IsFirstFree a.ipv4_net allocated_v4 first count x) × IsPair v6 a f.host x y
    unfolding allocate
    allocate-ok x y h = elim (Option-cases (next_free a.ipv4_net allocated_v4 first count)) [
      | inl e ↦ ground arith
      | inr (z, e) ↦
          first-IsPair x y w (next_free-some a.ipv4_net allocated_v4 first count z e)
            (rw (e, allocate) at h)
    ]

    pub allocate-unused :
        (x y : Text)
        → allocate v6 a allocated_v4 allocated_v6 ≡ ok (x, y)
        → contains x allocated_v4 ≡ false
    allocate-unused x y h = let (f, p) = allocate-ok x y h in rw f.shown f.free.not_allocated

    -- `allocate` reports that the pool is exhausted exactly when no host of the network is free.
    pub allocate-exhausted :
        (allocate v6 a allocated_v4 allocated_v6 ≡ raise exhausted)
        ↔ ((j : ℕ) → first ≤ j → j < first + count → ¬ IsFree a.ipv4_net allocated_v4 j)
    unfolding allocate
    allocate-exhausted = elim (Option-cases (next_free a.ipv4_net allocated_v4 first count)) [
      | inl e ↦ (λ h. next_free-none a.ipv4_net allocated_v4 first count e, λ h. rw (e, allocate))
      | inr (z, e) ↦
          let f = next_free-some a.ipv4_net allocated_v4 first count z e in
          (
            λ h. absurd (derive_v6-ne-exhausted z (rw (e, allocate) at h)),
            λ h. absurd (h f.host f.low f.high f.free),
          )
    ]

-- A pair of prefixes whose IPv6 part is not empty is accepted exactly when the pool for it can be
-- built.
pub validate_cidr_iff :
    (v6 : Ipv6) (v4_cidr v6_cidr : Text)
    → v6_cidr ≢ []
    → (validate_cidr v6 v4_cidr (some v6_cidr) ≡ true)
      ↔ ((a : IpAllocator) × (allocator v6 v4_cidr v6_cidr ≡ ok a))
unfolding validate_cidr allocator
validate_cidr_iff v6 c [] h = absurd (h refl)
validate_cidr_iff v6 c (d ∷ s) h = elim (Option-cases (parse_network c)) [
  | inl e ↦ (λ valid. ground arith, λ built. ground arith)
  | inr (net, e) ↦ elim (Option-cases (v6.parse_network (d ∷ s))) [
    | inl e' ↦ (λ valid. ground arith, λ built. ground arith)
    | inr (address, e') ↦ (
      λ valid. (record { ipv4_net = net; ipv6_net = address }, rw (e, e', allocator)),
      λ built. rw (e, validate_cidr) (rw (e', v6_valid)),
    )
  ]
]

-- The IPv4 network of every pool that is built has a prefix of at most 32 bits and lies inside the
-- IPv4 address space.
pub allocator-IsNetwork :
    (v6 : Ipv6) (v4_cidr v6_cidr : Text) (a : IpAllocator)
    → allocator v6 v4_cidr v6_cidr ≡ ok a
    → IsNetwork a.ipv4_net
unfolding allocator
allocator-IsNetwork v6 c d a h = elim (Option-cases (parse_network c)) [
  | inl e ↦ absurd (ground arith)
  | inr (net, e) ↦ elim (Option-cases (v6.parse_network d)) [
    | inl e' ↦ absurd (ground arith)
    | inr (address, e') ↦
        let same : ok (record { ipv4_net = net; ipv6_net = address }) ≡ ok a =
          rw (e, e', allocator) at h in
        let nets : net ≡ a.ipv4_net = cc in rw (← nets) (parse_network-IsNetwork c net e)
  ]
]
