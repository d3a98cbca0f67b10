-- ===== src/Dns/Names.antt =====
-- Domain names in packets (pymesh/dns/server.py): the loop ends, and it reads what was encoded.
use Prim.Native.Nat.{bit_and}
use mathlib.Core.Path.{ap₂}
use mathlib.Core.List.{append-nil, append_assoc}
use pymesh.Base.{
  ℕ, zero, suc, ◌+◌, ◌-◌, ◌<◌, ◌≡◌, ◌≢◌, refl, ◌∙◌, ap, true, false, not, none, some, List, [], ◌∷◌,
  ◌++◌, ◌==◌, nat_eq, nat_beq, length, take, drop, slice, get_elem?, arith, Option-cases, inl, inr,
  length-append, take-append, drop-append, drop-add,
}
use pymesh.Base.Text.{Text}
use pymesh.Base.Bytes.{Bytes, decode_ascii, decode_ascii_lem, is_ascii}
use pymesh.Ipv4.Octets.{all_below, all_below_lem}
use pymesh.Dns.{labels_from, domain_of, parse_domain_name}

pub get_elem?-lt : (bytes : Bytes) (i x : ℕ) → get_elem? bytes i ≡ some x → i < length bytes
get_elem?-lt [] i x h = absurd (ground arith)
get_elem?-lt (b ∷ bytes) zero x h = omega arith
get_elem?-lt (b ∷ bytes) (suc i) x h = omega (arith, get_elem?-lt bytes i x h)

-- Whatever the bytes, the loop over the labels ends within one round more than there are bytes
-- from its start on.
pub labels_from_total :
    (fuel : ℕ) (bytes : Bytes) (curr : ℕ) (labels : List Text)
    → length bytes < fuel + curr
    → (fuel ≢ 0)
    → labels_from fuel bytes curr labels ≢ none
unfolding labels_from
labels_from_total zero bytes curr labels enough positive = absurd (positive refl)
labels_from_total (suc fuel) bytes curr labels enough positive =
    elim (Option-cases (get_elem? bytes curr)) [
      | inl e ↦ ground arith
      | inr (size, e) ↦ ground (
        arith,
        e,
        get_elem?-lt bytes curr size e,
        labels_from_total fuel bytes (curr + 1 + size)
            (labels ++ decode_ascii (slice bytes (curr + 1) (curr + 1 + size)) ∷ []),
      )
    ]

-- The encoding of a name in a packet: each label behind its length, and a zero.
unfoldable pub encode_name : List Text → Bytes
encode_name [] = 0 ∷ []
encode_name (l ∷ labels) = length l ∷ (l ++ encode_name labels)

-- labels that a packet can hold
abbrev pub IsName : List Text → Type 0
IsName [] = Unit
IsName (l ∷ labels) = (0 < length l) × (length l < 64) × (is_ascii l ≡ true) × IsName labels

pub drop-cons :
    (bytes : Bytes) (i x : ℕ) (r : Bytes)
    → drop i bytes ≡ x ∷ r
    → (get_elem? bytes i ≡ some x) × (drop (i + 1) bytes ≡ r)
drop-cons [] zero x r h = absurd (ground arith)
drop-cons [] (suc i) x r h = absurd (ground arith)
drop-cons (b ∷ bytes) zero x r h = ground arith
drop-cons (b ∷ bytes) (suc i) x r h =
    let e : suc i + 1 ≡ suc (i + 1) = omega arith in rw e (drop-cons bytes i x r h)

plain_table : all_below 64 (λ n. not (bit_and n 0xC0 == 0xC0)) ≡ true
unfolding all_below
plain_table = refl

plain_size : (n : ℕ) → n < 64 → nat_beq (bit_and n 0xC0) 0xC0 ≡ false
plain_size n h =
    ground (arith, all_below_lem 64 (λ k. not (bit_and k 0xC0 == 0xC0)) n plain_table h)

-- one label at `curr`: what the loop reads there, and what follows
pub label_at :
    (bytes : Bytes) (curr : ℕ) (l r : Bytes)
    → drop curr bytes ≡ length l ∷ (l ++ r)
    → (get_elem? bytes curr ≡ some (length l))
      × (slice bytes (curr + 1) (curr + 1 + length l) ≡ l)
      × (drop (curr + 1 + length l) bytes ≡ r)
label_at bytes curr l r h =
    let (head, after) = drop-cons bytes curr (length l) (l ++ r) h in
    let n : curr + 1 + length l - (curr + 1) ≡ length l = omega arith in
    (
      head,
      rw n (ap (take (length l)) after ∙ take-append l r),
      drop-add bytes (curr + 1) (length l) ∙ ap (drop (length l)) after ∙ drop-append l r,
    )

module _ (fuel : ℕ) (bytes : Bytes) (curr : ℕ) (read : List Text) where
  labels_from-end :
      get_elem? bytes curr ≡ some 0 → labels_from (suc fuel) bytes curr read ≡ some (read, curr + 1)
  unfolding labels_from
  labels_from-end e = rw (e, labels_from)

  labels_from-step :
      (n : ℕ)
      → get_elem? bytes curr ≡ some n
      → 0 < n
      → n < 64
      → labels_from (suc fuel) bytes curr read
        ≡ labels_from fuel bytes
            (curr + 1 + n)
            (read ++ decode_ascii (slice bytes (curr + 1) (curr + 1 + n)) ∷ [])
  unfolding labels_from
  labels_from-step n e pos small = rw (e, labels_from, plain_size n small) (ground arith)

-- Where the bytes at the offset encode labels, the loop adds those to the ones read before and
-- ends behind them.
pub labels_from-encode_name :
    (labels : List Text) (fuel : ℕ) (bytes : Bytes) (curr : ℕ) (read : List Text) (rest : Bytes)
    → drop curr bytes ≡ encode_name labels ++ rest
    → length labels < fuel
    → IsName labels
    → labels_from fuel bytes curr read ≡ some (read ++ labels, curr + length (encode_name labels))
unfolding encode_name
labels_from-encode_name labels zero bytes curr read rest h enough w = absurd (omega arith)
labels_from-encode_name [] (suc fuel) bytes curr read rest h enough w =
    let (head, after) = drop-cons bytes curr 0 rest h in
    labels_from-end fuel bytes curr read head ∙ rw append-nil
labels_from-encode_name (l ∷ labels) (suc fuel) bytes curr read rest h enough
      (pos, small, ascii, w) =
    let (head, label, after) =
      label_at bytes curr l (encode_name labels ++ rest)
        (h ∙ ap (λ t. length l ∷ t) (append_assoc l _ _)) in
    labels_from-step fuel bytes curr read (length l) head pos small
    ∙ rw label (
        rw (decode_ascii_lem l ascii) (
          labels_from-encode_name labels fuel bytes (curr + 1 + length l) (read ++ l ∷ []) rest
            after (omega arith) w
          ∙ ap₂ (λ a b. some (a, b)) (append_assoc read (l ∷ []) labels)
              (omega (arith, length-append l (encode_name labels)))))

pub length-encode_name : (labels : List Text) → length labels < length (encode_name labels)
unfolding encode_name
length-encode_name [] = omega arith
length-encode_name (l ∷ labels) = omega (arith, length-append {0}, length-encode_name labels)

-- A name that stands encoded behind any twelve or more bytes, whatever follows it, is read back in
-- lower case, with the offset behind it. A name has labels of 1 to 63 ASCII characters.
pub parse_domain_name-encode_name :
    (front rest : Bytes) (labels : List Text)
    → IsName labels
    → parse_domain_name (front ++ (encode_name labels ++ rest)) (length front)
      ≡ (domain_of labels, length front + length (encode_name labels))
unfolding parse_domain_name
parse_domain_name-encode_name front rest labels w =
    let whole : Bytes = front ++ (encode_name labels ++ rest) in
    rw (
      labels_from-encode_name labels (length whole + 1) whole (length front) [] rest
        (drop-append front _) (enough whole refl) w)
  where
    enough :
        (whole : Bytes)
        → whole ≡ front ++ (encode_name labels ++ rest)
        → length labels < length whole + 1
    enough whole e = rw e (
        omega (
          arith,
          length-append front (encode_name labels ++ rest),
          length-append (encode_name labels) rest,
          length-encode_name labels,
        ))
