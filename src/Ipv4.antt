-- ===== src/Ipv4.antt =====
-- What the program uses of Python's `ipaddress` for IPv4: addresses as numbers, their text, and
-- `IPv4Network(text, strict=False)`. An address is a number below 2 ^ 32.
pub mod Dotted
pub mod Octets
pub mod Networks
use pymesh.Base.{
  ℕ, zero, suc, ◌+◌, ◌-◌, ◌*◌, ◌/◌, ◌%◌, ◌^◌, Bool, true, false, not, ◌&&◌, ◌||◌, Option, none,
  some, List, [], ◌∷◌, ◌++◌, if◌then◌else◌, length, is_empty, ltb, leb, ◌==◌, nat_eq,
}
use pymesh.Base.Text.{Text, split}
use pymesh.Base.Decimal.{show, read, all_digits}

-- the octet `i` places from the right
abbrev pub octet : ℕ → ℕ → ℕ
octet n i = n / 256 ^ i % 256

-- `str(IPv4Address(n))`
unfoldable pub show_ipv4 : ℕ → Text
show_ipv4 n =
    show (octet n 3)
    ++ b'.' ∷ (show (octet n 2) ++ b'.' ∷ (show (octet n 1) ++ b'.' ∷ show (octet n 0)))

abbrev leading_zero : Text → Bool
leading_zero (c ∷ d ∷ s) = c == b'0'
leading_zero _ = false

-- `_parse_octet`: one to three digits, no leading zero, at most 255
unfoldable pub parse_octet : Text → Option ℕ
parse_octet s =
    if is_empty s
      || (not (all_digits s) || (ltb 3 (length s) || (leading_zero s || ltb 255 (read s))))
    then none
    else some (read s)

abbrev pub from_octets : ℕ → ℕ → ℕ → ℕ → ℕ
from_octets a b c d = a * 256 ^ 3 + b * 256 ^ 2 + c * 256 + d

abbrev join_octets : Option ℕ → Option ℕ → Option ℕ → Option ℕ → Option ℕ
join_octets (some a) (some b) (some c) (some d) = some (from_octets a b c d)
join_octets _ _ _ _ = none

-- `_ip_int_from_string`: four octets between dots
abbrev parse_parts : List Text → Option ℕ
parse_parts (a ∷ b ∷ c ∷ d ∷ []) =
    join_octets (parse_octet a) (parse_octet b) (parse_octet c) (parse_octet d)
parse_parts _ = none

-- `int(IPv4Address(s))`
unfoldable pub parse_ipv4 : Text → Option ℕ
parse_ipv4 s = parse_parts (split b'.' s)

pub record Ipv4Network : Type 0 where
  pub network_address : ℕ
  pub prefix : ℕ

abbrev size : ℕ → ℕ
size prefix = 2 ^ (32 - prefix)

-- the length of a prefix, at most `p`, whose netmask or hostmask is the given number
netmask_length : ℕ → ℕ → Option ℕ
netmask_length zero m = if m == 2 ^ 32 - size 0 then some 0 else none
netmask_length (suc p) m =
    let rest = netmask_length p m in if m == 2 ^ 32 - size (suc p) then some (suc p) else rest

hostmask_length : ℕ → ℕ → Option ℕ
hostmask_length zero m = if m == size 0 - 1 then some 0 else none
hostmask_length (suc p) m =
    let rest = hostmask_length p m in if m == size (suc p) - 1 then some (suc p) else rest

abbrev mask_of_number : ℕ → Option ℕ
mask_of_number m = elim (netmask_length 32 m) [ none ↦ hostmask_length 32 m | some p ↦ some p ]

-- `_make_netmask`: a number of bits, or else a netmask or a hostmask in dotted form
parse_mask : Text → Option ℕ
unfolding netmask_length hostmask_length parse_ipv4
parse_mask s =
    if not (is_empty s) && (all_digits s && leb (read s) 32)
    then some (read s)
    else elim (parse_ipv4 s) [ none ↦ none | some m ↦ mask_of_number m ]

-- the host bits of the address are cleared
abbrev pub make_network : ℕ → ℕ → Ipv4Network
make_network address prefix = record {
  network_address = address / size prefix * size prefix;
  prefix = prefix;
}

abbrev network_of : Option ℕ → Option ℕ → Option Ipv4Network
network_of (some address) (some prefix) = some (make_network address prefix)
network_of _ _ = none

abbrev network_parts : List Text → Option Ipv4Network
network_parts (address ∷ []) = network_of (parse_ipv4 address) (some 32)
network_parts (address ∷ mask ∷ []) = network_of (parse_ipv4 address) (parse_mask mask)
network_parts _ = none

-- `IPv4Network(s, strict=False)`
unfoldable pub parse_network : Text → Option Ipv4Network
unfolding parse_mask
parse_network s = network_parts (split b'/' s)

-- `net.hosts()` gives `host_count net` addresses from `first_host net` on: all of a /31 or /32, and
-- else all but the first and the last.
unfoldable pub first_host : Ipv4Network → ℕ
first_host net = if ltb 30 net.prefix then net.network_address else net.network_address + 1

unfoldable pub host_count : Ipv4Network → ℕ
host_count net = if ltb 30 net.prefix then size net.prefix else size net.prefix - 2
