-- ===== src/Stun/Tests.antt =====
-- A response with an attribute that is passed over, and one that tells the address.
use pymesh.Base.{◌≡◌, ◌≢◌, ◌↔◌, refl, none, some, List, [], ◌∷◌, ◌++◌, arith, list_beq}
use pymesh.Base.Text.{codes}
use pymesh.Base.Bytes.{Bytes}
use pymesh.Base.Decimal.{show}
use pymesh.Ipv4.{show_ipv4}
use pymesh.Stun.{
  Mapped, read_attribute, parse_stun_response, detect_nat_type, full_cone, restricted, symmetric,
  blocked,
}
use pymesh.Stun.Attributes.{
  Attribute, AreAttributes, encode, first_mapped, parse_stun_response-encode,
}
use pymesh.Stun.Detection.{detect_nat_type_iff}

abbrev header : Bytes
header = 1 ∷ 1 ∷ 0 ∷ 20 ∷ 33 ∷ 18 ∷ 164 ∷ 66 ∷ 1 ∷ 2 ∷ 3 ∷ 4 ∷ 5 ∷ 6 ∷ 7 ∷ 8 ∷ 9 ∷ 10 ∷ 11 ∷ 12 ∷ []

-- SOFTWARE, of five bytes, then XOR-MAPPED-ADDRESS of 192.0.2.1 and port 32853
abbrev attributes : List Attribute
attributes =
    record { kind = 0x8022; value = codes "hello"; padding = 0 ∷ 0 ∷ 0 ∷ [] }
    ∷ record { kind = 0x0020; value = 0 ∷ 1 ∷ 161 ∷ 71 ∷ 225 ∷ 18 ∷ 166 ∷ 67 ∷ []; padding = [] }
    ∷ []

attributes-AreAttributes : AreAttributes attributes
attributes-AreAttributes =
    ((omega arith, omega arith, refl), ((omega arith, omega arith, refl), tt))

parse_stun_response-encode_example :
    parse_stun_response (header ++ encode attributes) ≡ first_mapped attributes
parse_stun_response-encode_example =
    parse_stun_response-encode header attributes refl attributes-AreAttributes

response_read : parse_stun_response (header ++ encode attributes) ≡ some (codes "192.0.2.1", 32853)
unfolding first_mapped read_attribute show_ipv4 show list_beq
response_read = parse_stun_response-encode header attributes refl attributes-AreAttributes

abbrev first_answer : Mapped
first_answer = (codes "192.0.2.1", 32853)

abbrev second_answer : Mapped
second_answer = (codes "192.0.2.1", 40000)

detect_nat_type_iff_example :
    ((detect_nat_type (some first_answer) (some second_answer) ≡ blocked)
      ↔ (some first_answer ≡ none))
    × ((detect_nat_type (some first_answer) (some second_answer) ≡ restricted)
        ↔ ((some first_answer ≢ none) × (some second_answer ≡ none)))
    × ((detect_nat_type (some first_answer) (some second_answer) ≡ full_cone)
        ↔ ((some first_answer ≢ none) × (some first_answer ≡ some second_answer)))
    × ((detect_nat_type (some first_answer) (some second_answer) ≡ symmetric) ↔ (
        (some first_answer ≢ none)
        × (some second_answer ≢ none)
        × (some first_answer ≢ some second_answer)))
detect_nat_type_iff_example = detect_nat_type_iff (some first_answer) (some second_answer)
