-- ===== src/Stun/Attributes.antt =====
-- What is read of a well-formed response (pymesh/discovery/stun.py).
use pymesh.Base.{
  ℕ, zero, suc, ◌+◌, ◌/◌, ◌%◌, ◌^◌, ◌<◌, ◌≤◌, ◌≡◌, refl, ◌∙◌, ap, Option, none, some, List, [], ◌∷◌,
  ◌++◌, length, arith, slice, drop, slice_at, length-of_drop, length-append, length-drop,
  drop-append, inl, inr, Option-cases,
}
use pymesh.Base.Bytes.{Bytes, unpack_u16}
use pymesh.Stun.{Mapped, aligned, read_attribute, read_attributes, parse_stun_response}

-- An attribute: its type, its value, and the bytes that align what follows.
pub record Attribute : Type 0 where
  pub kind : ℕ
  pub value : Bytes
  pub padding : Bytes

abbrev pub IsAttribute : Attribute → Type 0
IsAttribute a =
    (a.kind < 2 ^ 16)
    × (length a.value < 2 ^ 16)
    × (length a.value + length a.padding ≡ aligned (length a.value))

abbrev pub AreAttributes : List Attribute → Type 0
AreAttributes [] = Unit
AreAttributes (a ∷ attributes) = IsAttribute a × AreAttributes attributes

abbrev u16 : ℕ → Bytes
u16 n = n / 256 ∷ n % 256 ∷ []

pub encode : List Attribute → Bytes
encode [] = []
encode (a ∷ attributes) =
    u16 a.kind ++ (u16 (length a.value) ++ (a.value ++ (a.padding ++ encode attributes)))

-- what the first attribute that tells an address tells
unfoldable pub first_mapped : List Attribute → Option Mapped
first_mapped [] = none
first_mapped (a ∷ attributes) = elim (read_attribute a.kind a.value) [
  | some m ↦ some m
  | none ↦ first_mapped attributes
]

unpack-u16 : (n : ℕ) → n < 2 ^ 16 → unpack_u16 (u16 n) ≡ n
unpack-u16 n h = omega arith

read_attributes-end :
    (fuel : ℕ) (bytes : Bytes) (offset : ℕ)
    → length bytes ≤ offset
    → read_attributes (suc fuel) bytes offset ≡ some none
unfolding read_attributes
read_attributes-end fuel bytes offset h = ground arith

abbrev next : ℕ → Bytes → ℕ → ℕ → ℕ → Bytes → Option (Option Mapped)
next fuel bytes offset kind size attr = elim (read_attribute kind attr) [
  | some m ↦ some (some m)
  | none ↦ read_attributes fuel bytes (offset + 4 + aligned size)
]

abbrev kind_at : Bytes → ℕ → ℕ
kind_at bytes offset = unpack_u16 (slice bytes offset (offset + 2))

abbrev size_at : Bytes → ℕ → ℕ
size_at bytes offset = unpack_u16 (slice bytes (offset + 2) (offset + 4))

abbrev value_at : Bytes → ℕ → Bytes
value_at bytes offset = slice bytes (offset + 4) (offset + 4 + size_at bytes offset)

read_attributes-round :
    (fuel : ℕ) (bytes : Bytes) (offset : ℕ)
    → offset + 4 + size_at bytes offset ≤ length bytes
    → read_attributes (suc fuel) bytes offset
      ≡ next fuel bytes offset (kind_at bytes offset) (size_at bytes offset) (value_at bytes offset)
unfolding read_attributes
read_attributes-round fuel bytes offset room =
    elim (Option-cases (read_attribute (kind_at bytes offset) (value_at bytes offset))) [
      | inl e ↦ ground (arith, e)
      | inr (m, e) ↦ ground (arith, e)
    ]

read_attributes-step :
    (fuel : ℕ) (bytes : Bytes) (offset kind size : ℕ) (attr : Bytes)
    → kind_at bytes offset ≡ kind
    → size_at bytes offset ≡ size
    → slice bytes (offset + 4) (offset + 4 + size) ≡ attr
    → offset + 4 + size ≤ length bytes
    → read_attributes (suc fuel) bytes offset ≡ next fuel bytes offset kind size attr
read_attributes-step fuel bytes offset kind size attr ek es ea room =
    read_attributes-round fuel bytes offset (rw es room) ∙ rw (ek, es, ea) refl

next-some :
    (fuel : ℕ) (bytes : Bytes) (offset kind size : ℕ) (attr : Bytes) (r : Option Mapped)
    → read_attributes fuel bytes (offset + 4 + aligned size) ≡ some r
    → next fuel bytes offset kind size attr
      ≡ some (elim (read_attribute kind attr) [ some m ↦ some m | none ↦ r ])
next-some fuel bytes offset kind size attr r h = elim (Option-cases (read_attribute kind attr)) [
  | inl e ↦ rw (e, next) h
  | inr (m, e) ↦ rw (e, next) refl
]

read_attributes-encode :
    (attributes : List Attribute) (fuel : ℕ) (bytes : Bytes) (offset : ℕ)
    → drop offset bytes ≡ encode attributes
    → length attributes < fuel
    → AreAttributes attributes
    → read_attributes fuel bytes offset ≡ some (first_mapped attributes)
unfolding encode first_mapped
read_attributes-encode attributes zero bytes offset h enough w = absurd (omega (arith, enough))
read_attributes-encode [] (suc fuel) bytes offset h enough w =
    let n : length (drop offset bytes) ≡ 0 = ap length h in
    read_attributes-end fuel bytes offset (omega (arith, n, length-drop offset bytes))
read_attributes-encode (a ∷ attributes) (suc fuel) bytes offset h enough
      ((small_kind, small_size, padded), w) =
    let room : offset + 4 + length a.value ≤ length bytes = omega (
      arith,
      length-of_drop bytes offset _ _ h,
      length-append a.value (a.padding ++ encode attributes),
    ) in
    let (k, after_k) = slice_at bytes offset (offset + 2) (u16 a.kind) _ h refl in
    let (s, after_s) =
      slice_at bytes (offset + 2) (offset + 4) (u16 (length a.value)) _ after_k (omega arith) in
    let (v, after_v) =
      slice_at bytes (offset + 4) (offset + 4 + length a.value) a.value _ after_s refl in
    let (p, after) =
      slice_at bytes (offset + 4 + length a.value) (offset + 4 + aligned (length a.value)) a.padding
        _ after_v (omega (arith, padded)) in
    read_attributes-step fuel bytes offset a.kind (length a.value) a.value
      (rw k (unpack-u16 a.kind small_kind)) (rw s (unpack-u16 (length a.value) small_size)) v room
    ∙ next-some fuel bytes offset a.kind (length a.value) a.value (first_mapped attributes) (
        read_attributes-encode attributes fuel bytes (offset + 4 + aligned (length a.value)) after
          (omega (arith, enough)) w)

length-encode : (attributes : List Attribute) → length attributes ≤ length (encode attributes)
unfolding encode
length-encode [] = omega arith
length-encode (a ∷ attributes) = omega (
  arith,
  length-append a.value (a.padding ++ encode attributes),
  length-append a.padding (encode attributes),
  length-encode attributes,
)

-- A response is read for the first attribute that tells an IPv4 address, if there is one: behind a
-- header of 20 bytes, whatever it holds, stands a list of attributes with a kind and a size of 16
-- bits each, every value padded to a multiple of four bytes.
pub parse_stun_response-encode :
    (header : Bytes) (attributes : List Attribute)
    → length header ≡ 20
    → AreAttributes attributes
    → parse_stun_response (header ++ encode attributes) ≡ first_mapped attributes
unfolding parse_stun_response
parse_stun_response-encode header attributes h w =
    let bytes : Bytes = header ++ encode attributes in
    let size : length bytes ≡ 20 + length (encode attributes) =
      omega (arith, h, length-append header (encode attributes)) in
    let read =
      read_attributes-encode attributes (length bytes + 1) bytes 20
        (rw (← h) (drop-append header (encode attributes)))
        (omega (arith, size, length-encode attributes)) w in
    ground (arith, size, read)
