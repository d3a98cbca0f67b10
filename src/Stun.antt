-- ===== src/Stun.antt =====
-- pymesh/discovery/stun.py, the reading of a response, and pymesh/discovery/nat.py.
pub mod Request
pub mod Punch
mod Loop
mod Attributes
mod Detection
mod Tests
use Prim.Native.Nat.{bit_xor}
use pymesh.Base.{
  ℕ, zero, suc, ◌+◌, ◌-◌, ◌*◌, ◌/◌, ◌%◌, ◌^◌, Bool, true, false, ◌&&◌, ◌||◌, not, Option, none,
  some, List, [], ◌∷◌, if◌then◌else◌, ltb, leb, ◌==◌, nat_eq, text_eq, length, slice,
}
use pymesh.Base.Text.{Text}
use pymesh.Base.Bytes.{Bytes, unpack_u16}
use pymesh.Ipv4.{show_ipv4}

abbrev pub magic_cookie : ℕ
magic_cookie = 0x2112A442

-- `struct.unpack(">I", data)[0]` of four bytes
abbrev pub unpack_u32 : Bytes → ℕ
unpack_u32 (a ∷ b ∷ c ∷ d ∷ rest) = a * 256 ^ 3 + b * 256 ^ 2 + c * 256 + d
unpack_u32 _ = 0

-- an address and a port
abbrev pub Mapped : Type 0
Mapped = Text × ℕ

-- the value of an XOR-MAPPED-ADDRESS; `socket.inet_ntoa` writes an address in dotted form
abbrev pub xor_mapped : Bytes → Mapped
xor_mapped attr = (
  show_ipv4 (bit_xor (unpack_u32 (slice attr 4 8)) magic_cookie),
  bit_xor (unpack_u16 (slice attr 2 4)) (magic_cookie / 2 ^ 16),
)

-- the value of a MAPPED-ADDRESS
abbrev pub plain_mapped : Bytes → Mapped
plain_mapped attr = (show_ipv4 (unpack_u32 (slice attr 4 8)), unpack_u16 (slice attr 2 4))

-- `attr_data[1] == 0x01` of a value of eight bytes or more
abbrev pub is_ipv4 : Bytes → Bool
is_ipv4 attr = leb 8 (length attr) && slice attr 1 2 == (1 ∷ [])

-- what an attribute tells, if anything
unfoldable pub read_attribute : ℕ → Bytes → Option Mapped
read_attribute kind attr =
    if kind == 0x0020
    then (if is_ipv4 attr then some (xor_mapped attr) else none)
    else if kind == 0x0001
    then (if is_ipv4 attr then some (plain_mapped attr) else none)
    else none

-- `(n + 3) & ~3`
abbrev pub aligned : ℕ → ℕ
aligned n = (n + 3) / 4 * 4

-- The loop over the attributes; the outer `none` means that the fuel ran out.
unfoldable pub read_attributes : ℕ → Bytes → ℕ → Option (Option Mapped)
read_attributes zero bytes offset = none
read_attributes (suc fuel) bytes offset =
    let kind = unpack_u16 (slice bytes offset (offset + 2)) in
    let size = unpack_u16 (slice bytes (offset + 2) (offset + 4)) in
    let rest = read_attributes fuel bytes (offset + 4 + aligned size) in
    let attr = slice bytes (offset + 4) (offset + 4 + size) in
    if not (ltb offset (length bytes))
    then some none
    else if ltb (length bytes) (offset + 4)
    then some none
    else if ltb (length bytes) (offset + 4 + size)
    then some none
    else elim (read_attribute kind attr) [ some m ↦ some (some m) | none ↦ rest ]

abbrev found : Option (Option Mapped) → Option Mapped
found none = none
found (some r) = r

-- Every round moves forward, so one round more than there are bytes is enough.
unfoldable pub parse_stun_response : Bytes → Option Mapped
parse_stun_response bytes =
    if ltb (length bytes) 20 then none else found (read_attributes (length bytes + 1) bytes 20)

-- `NATType`, the values that `detect_nat_type` returns
pub data NatType : Type 0 where
  full_cone restricted symmetric blocked : NatType

abbrev same_mapping : Mapped → Mapped → Bool
same_mapping (ip, port) (ip', port') = ip == ip' && port == port'

abbrev second : Mapped → Option Mapped → NatType
second first none = restricted
second first (some m) = if not (same_mapping first m) then symmetric else full_cone

-- `NATDetector.detect_nat_type`, given what the two servers answer
unfoldable pub detect_nat_type : Option Mapped → Option Mapped → NatType
detect_nat_type none res2 = blocked
detect_nat_type (some m) res2 = second m res2
