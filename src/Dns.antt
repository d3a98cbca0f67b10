-- ===== src/Dns.antt =====
-- DNS packets: `DNSQueryParser` of pymesh/dns/server.py. The server and the daemon's resolver are
-- child modules.
pub mod Names
pub mod Answers
pub mod Server
pub mod Magic
mod Tests
use Prim.Native.Nat.{bit_and}
use pymesh.Base.{
  ℕ, zero, suc, ◌+◌, ◌-◌, ◌*◌, ◌/◌, ◌%◌, ◌^◌, Bool, true, false, Option, none, some, List, [], ◌∷◌,
  ◌++◌, if◌then◌else◌, ltb, ◌==◌, nat_eq, length, take, slice, get_elem?,
}
use pymesh.Base.Text.{Text, codes, join, lower}
use pymesh.Base.Bytes.{Bytes, decode_ascii}
use pymesh.Base.Result.{Result, ok, raise, bad_address}
use pymesh.Ipv4.{octet, parse_ipv4}

-- The loop of `parse_domain_name`; `none` means that the fuel ran out.
unfoldable pub labels_from : ℕ → Bytes → ℕ → List Text → Option (List Text × ℕ)
labels_from zero bytes curr labels = none
labels_from (suc fuel) bytes curr labels = elim (get_elem? bytes curr) [
  | none ↦ some (labels, curr)
  | some size ↦
      let rest =
        labels_from fuel bytes (curr + 1 + size)
          (labels ++ decode_ascii (slice bytes (curr + 1) (curr + 1 + size)) ∷ []) in
      if size == 0
      then some (labels, curr + 1)
      else if bit_and size 0xC0 == 0xC0
      then some (labels, curr + 2)
      else rest
]

-- a domain name of labels
abbrev pub domain_of : List Text → Text
domain_of labels = lower (join (codes ".") labels)

abbrev named : Option (List Text × ℕ) → Text × ℕ
named none = ([], 0)
named (some (labels, curr)) = (domain_of labels, curr)

-- Every round moves forward, so one round more than there are bytes is enough.
unfoldable pub parse_domain_name : Bytes → ℕ → Text × ℕ
unfolding labels_from
parse_domain_name bytes offset = named (labels_from (length bytes + 1) bytes offset [])

-- `IPv4Address(n).packed`
abbrev pub packed : ℕ → Bytes
packed n = octet n 3 ∷ octet n 2 ∷ octet n 1 ∷ octet n 0 ∷ []

-- the first twelve bytes of an answer with the given flags and number of answers
abbrev pub header_of : Bytes → ℕ → ℕ → Bytes
header_of query flags ancount =
    slice query 0 2 ++ (0x81 ∷ flags ∷ slice query 4 6) ++ (0 ∷ ancount ∷ 0 ∷ 0 ∷ 0 ∷ 0 ∷ [])

-- name pointer, type A, class IN, a time to live below 256 and the length of an address
abbrev pub answer_of : ℕ → ℕ → Bytes
answer_of ttl address = 0xc0 ∷ 0x0c ∷ 0 ∷ 1 ∷ 0 ∷ 1 ∷ 0 ∷ 0 ∷ 0 ∷ ttl ∷ 0 ∷ 4 ∷ packed address

unfoldable pub build_a_response : Bytes → Text → Text → Result Bytes
build_a_response query domain_name target_ip =
    if ltb (length query) 12
    then ok []
    else let q_end = (parse_domain_name query 12).1 in
      elim (parse_ipv4 target_ip) [
        | none ↦ raise bad_address
        | some address ↦
            ok (header_of query 0x80 1 ++ (slice query 12 (q_end + 4) ++ answer_of 30 address))
      ]
