-- ===== src/Dns/Magic/Answers.antt =====
-- What the resolver of the daemon answers to a query (pymesh/networking/dns.py).
use mathlib.Core.Path.{ap₂}
use mathlib.Core.List.{append-nil, append_assoc}
use pymesh.Base.{
  Option, ℕ, zero, suc, ◌+◌, ◌<◌, ◌≡◌, refl, ◌∙◌, ap, sym, false, none, some, List, [], ◌∷◌, ◌++◌,
  nat_eq, ltb, length, drop, slice, get_elem?, arith, length-append, drop-exact,
}
use pymesh.Base.Text.{Text}
use pymesh.Base.Dict.{Dict}
use pymesh.Base.Bytes.{Bytes, decode_ascii, decode_ascii_lem}
use pymesh.Base.Result.{Result, ok, raise, bad_address}
use pymesh.Ipv4.{parse_ipv4}
use pymesh.Dns.{answer_of}
use pymesh.Dns.Names.{encode_name, IsName, drop-cons, label_at, length-encode_name}
use pymesh.Dns.Answers.{query_of, question, long}
use pymesh.Dns.Magic.Known.{IsKnown, find_address-known, find_address-unknown}
use pymesh.Dns.Magic.{labels_from, find_address, nx_domain, build_dns_response, or_empty, answered}

module _ (fuel : ℕ) (bytes : Bytes) (offset : ℕ) (read : List Text) where
  query_labels-end :
      get_elem? bytes offset ≡ some 0
      → labels_from (suc fuel) bytes offset read ≡ some (read, offset + 1)
  unfolding labels_from
  query_labels-end e = rw (e, labels_from)

  query_labels-step :
      (n : ℕ)
      → get_elem? bytes offset ≡ some n
      → 0 < n
      → labels_from (suc fuel) bytes offset read
        ≡ labels_from fuel bytes
            (offset + 1 + n)
            (read ++ decode_ascii (slice bytes (offset + 1) (offset + 1 + n)) ∷ [])
  unfolding labels_from
  query_labels-step n e pos = rw (e, labels_from) (ground arith)

query_labels-encode_name :
    (labels : List Text) (fuel : ℕ) (bytes : Bytes) (offset : ℕ) (read : List Text) (rest : Bytes)
    → drop offset bytes ≡ encode_name labels ++ rest
    → length labels < fuel
    → IsName labels
    → labels_from fuel bytes offset read
      ≡ some (read ++ labels, offset + length (encode_name labels))
unfolding encode_name
query_labels-encode_name labels zero bytes offset read rest h enough w = absurd (omega arith)
query_labels-encode_name [] (suc fuel) bytes offset read rest h enough w =
    query_labels-end fuel bytes offset read (drop-cons bytes offset 0 rest h).0 ∙ rw append-nil
query_labels-encode_name (l ∷ labels) (suc fuel) bytes offset read rest h enough
      (pos, small, ascii, w) =
    let (head, label, after) =
      label_at bytes offset l (encode_name labels ++ rest)
        (h ∙ ap (λ t. length l ∷ t) (append_assoc l _ _)) in
    query_labels-step fuel bytes offset read (length l) head pos
    ∙ rw (label, decode_ascii_lem l ascii)
        (query_labels-encode_name labels fuel bytes (offset + 1 + length l) (read ++ l ∷ []) rest
            after (omega arith) w
          ∙ ap₂ (λ a b. some (a, b)) (append_assoc read (l ∷ []) labels)
              (omega (arith, length-append l (encode_name labels))))

-- the answer for a question
abbrev answer_for : Dict Text → Bytes → List Text → Bytes → Result Bytes
answer_for records d labels question = elim (find_address records labels) [
  | none ↦ ok (nx_domain d question)
  | some ip ↦ answered d question (parse_ipv4 ip)
]

build_parts :
    (records : Dict Text) (d : Bytes) (labels : List Text) (offset : ℕ) (question : Bytes)
    → ltb (length d) 12 ≡ false
    → labels_from (length d + 1) d 12 [] ≡ some (labels, offset)
    → slice d 12 (offset + 4) ≡ question
    → build_dns_response records d ≡ answer_for records d labels question
unfolding build_dns_response
build_parts records d labels offset question long got shown =
    rw (long, build_dns_response)
      (ap (λ o. answer_for records d (or_empty o).0 (slice d 12 ((or_empty o).1 + 4))) got
        ∙ ap (answer_for records d labels) shown)

module _ (i j f g q r : ℕ) (counts : Bytes) (labels : List Text) (kind rest : Bytes)
    (lc : length counts ≡ 6) (lk : length kind ≡ 4) (w : IsName labels) where
  abbrev bytes : Bytes
  bytes = query_of i j f g q r counts labels kind rest

  read_labels :
      labels_from (length bytes + 1) bytes 12 [] ≡ some (labels, 12 + length (encode_name labels))
  read_labels =
      query_labels-encode_name labels (length bytes + 1) bytes 12 [] (kind ++ rest)
        (drop-exact 6 counts _ (sym lc))
        (omega (
          arith,
          length-append counts (encode_name labels ++ (kind ++ rest)),
          length-append (encode_name labels) (kind ++ rest),
          length-encode_name labels,
        ))
        w

  answered-packet :
      (o : Option ℕ)
      → answered bytes (encode_name labels ++ kind) o ≡ elim o [
        | none ↦ raise bad_address
        | some address ↦ ok (
            (i ∷ j ∷ 0x81 ∷ 0x80 ∷ q ∷ r ∷ 0 ∷ 1 ∷ 0 ∷ 0 ∷ 0 ∷ 0 ∷ [])
            ++ ((encode_name labels ++ kind) ++ answer_of 60 address))
      ]
  answered-packet none = refl
  answered-packet (some address) = refl

  -- The answer of the daemon's resolver to a query for a name of ASCII labels. If the name has an
  -- address, by the whole name or else by its first label, it is the packet with this address, which
  -- lives for 60 seconds, behind the id, the count of questions and the question of the query, or
  -- an exception if the text of the address is no IPv4 address. If it has none, it is the same
  -- without an answer, and flags that say that the name does not exist.
  pub build_dns_response-query :
      (records : Dict Text)
      → ((ip : Text)
          → IsKnown records labels ip
          → build_dns_response records bytes ≡ elim (parse_ipv4 ip) [
            | none ↦ raise bad_address
            | some address ↦ ok (
                (i ∷ j ∷ 0x81 ∷ 0x80 ∷ q ∷ r ∷ 0 ∷ 1 ∷ 0 ∷ 0 ∷ 0 ∷ 0 ∷ [])
                ++ ((encode_name labels ++ kind) ++ answer_of 60 address))
          ])
        × (((ip : Text) → ¬ IsKnown records labels ip)
            → build_dns_response records bytes
              ≡ ok (
                  (i ∷ j ∷ 0x81 ∷ 0x83 ∷ q ∷ r ∷ 0 ∷ 0 ∷ 0 ∷ 0 ∷ 0 ∷ 0 ∷ [])
                  ++ (encode_name labels ++ kind)))
  build_dns_response-query records = (
    λ ip known.
        parts
        ∙ ap packet (find_address-known records labels ip known)
        ∙ answered-packet (parse_ipv4 ip),
    λ unknown. parts ∙ ap packet (find_address-unknown records labels unknown),
  )
    where
      packet : Option Text → Result Bytes
      packet o = elim o [
        | none ↦ ok (nx_domain bytes (encode_name labels ++ kind))
        | some ip ↦ answered bytes (encode_name labels ++ kind) (parse_ipv4 ip)
      ]

      parts : build_dns_response records bytes ≡ packet (find_address records labels)
      parts =
          build_parts records bytes labels _ _ (long i j f g q r counts labels kind rest lc lk w)
            read_labels (question i j f g q r counts labels kind rest lc lk w)
