-- ===== src/Dns/Answers.antt =====
-- The answer to a query for a known name (pymesh/dns/server.py).
use mathlib.Core.List.{append_assoc}
use pymesh.Base.{
  ℕ, ◌+◌, ◌-◌, ◌≡◌, ◌∙◌, ap, sym, false, some, List, [], ◌∷◌, ◌++◌, ltb, length, take, slice, arith,
  length-append, take-exact, drop-exact,
}
use pymesh.Base.Text.{Text}
use pymesh.Base.Bytes.{Bytes}
use pymesh.Base.Result.{ok}
use pymesh.Ipv4.{parse_ipv4}
use pymesh.Dns.{domain_of, parse_domain_name, header_of, answer_of, build_a_response}
use pymesh.Dns.Names.{encode_name, IsName, parse_domain_name-encode_name}

build_parts :
    (d : Bytes) (domain_name target_ip : Text) (q_end address : ℕ) (question : Bytes)
    → ltb (length d) 12 ≡ false
    → (parse_domain_name d 12).1 ≡ q_end
    → slice d 12 (q_end + 4) ≡ question
    → parse_ipv4 target_ip ≡ some address
    → build_a_response d domain_name target_ip
      ≡ ok (header_of d 0x80 1 ++ (question ++ answer_of 30 address))
unfolding build_a_response
build_parts d domain_name target_ip q_end address question long ends shown h =
    rw (long, build_a_response, h, ends) (rw shown)

-- A query: two bytes of id, two of flags, two of the count of questions and six more; the name;
-- the type and the class of the question in four bytes; and whatever follows.
abbrev pub query_of : ℕ → ℕ → ℕ → ℕ → ℕ → ℕ → Bytes → List Text → Bytes → Bytes → Bytes
query_of i j f g q r counts labels kind rest =
    i ∷ j ∷ f ∷ g ∷ q ∷ r ∷ (counts ++ (encode_name labels ++ (kind ++ rest)))

module _ (i j f g q r : ℕ) (counts : Bytes) (labels : List Text) (kind rest : Bytes)
    (lc : length counts ≡ 6) (lk : length kind ≡ 4) (w : IsName labels) where
  abbrev pub query : Bytes
  query = query_of i j f g q r counts labels kind rest

  abbrev front : Bytes
  front = i ∷ j ∷ f ∷ g ∷ q ∷ r ∷ counts

  parsed : parse_domain_name query 12 ≡ (domain_of labels, 12 + length (encode_name labels))
  parsed =
      let e : length front ≡ 12 = omega arith in
      rw e at (parse_domain_name-encode_name front (kind ++ rest) labels w)

  pub question : slice query 12 (12 + length (encode_name labels) + 4) ≡ encode_name labels ++ kind
  question =
      ap (take (12 + length (encode_name labels) + 4 - 12)) (drop-exact 6 counts _ (sym lc))
      ∙ ap (take (12 + length (encode_name labels) + 4 - 12))
          (sym (append_assoc (encode_name labels) kind rest))
      ∙ take-exact _ (encode_name labels ++ kind) rest
          (omega (arith, length-append (encode_name labels) kind))

  pub long : ltb (length query) 12 ≡ false
  long = ground (arith, length-append counts (encode_name labels ++ (kind ++ rest)))

  -- The packet that answers a query for a name with an address: the id and the count of questions
  -- of the query, one answer and no error; the question, without what followed it; and behind a
  -- pointer to the name the four bytes of the address, which live for 30 seconds.
  pub build_a_response-query :
      (domain_name target_ip : Text) (address : ℕ)
      → parse_ipv4 target_ip ≡ some address
      → build_a_response query domain_name target_ip
        ≡ ok (
            (i ∷ j ∷ 0x81 ∷ 0x80 ∷ q ∷ r ∷ 0 ∷ 1 ∷ 0 ∷ 0 ∷ 0 ∷ 0 ∷ [])
            ++ ((encode_name labels ++ kind) ++ answer_of 30 address))
  unfolding build_a_response
  build_a_response-query domain_name target_ip address h =
      build_parts query domain_name target_ip _ address _ long (ap (λ p. p.1) parsed) question h
