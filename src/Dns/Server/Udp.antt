-- ===== src/Dns/Server/Udp.antt =====
-- The datagrams of the DNS server (pymesh/dns/server.py), beside its answers over HTTPS.
use pymesh.Base.{
  slice, ℕ, ◌≡◌, refl, ap, false, Option, none, some, List, [], ◌∷◌, ◌++◌, ◌+◌, if◌then◌else◌, ltb,
  length, is_empty, Bool-cases, Option-cases, inl, inr,
}
use pymesh.Base.Text.{Text}
use pymesh.Base.Bytes.{Bytes}
use pymesh.Base.Result.{Result, ok, raise}
use pymesh.Ipv4.{parse_ipv4}
use pymesh.Dns.{parse_domain_name, build_a_response, header_of, answer_of}
use pymesh.Dns.Server.{
  Reply, DnsServer, resolve_custom_tld, process_query_data, respond, or_nothing,
}

-- nothing is sent of an empty answer
abbrev pub unless_empty : Bytes → Option Bytes
unless_empty response = if is_empty response then none else some response

abbrev pub recursive : Option Bytes → Option Bytes
recursive none = none
recursive (some upstream_resp) = unless_empty upstream_resp

-- an exception is caught, and nothing is sent
abbrev pub sent : Result Bytes → Option Bytes
sent (raise e) = none
sent (ok response) = unless_empty response

abbrev pub send_for : Bytes → Text → Option Text → Option Bytes → Option Bytes
send_for query domain none upstream = recursive upstream
send_for query domain (some target_ip) upstream =
    if is_empty target_ip
    then recursive upstream
    else sent (build_a_response query domain target_ip)

-- `PyMeshDNSServerProtocol._process_query`: the server after it, and the datagram that is sent
unfoldable pub process_query :
    DnsServer → Bytes → Reply (Text × Text) → Reply Text → Option Bytes → DnsServer × Option Bytes
process_query s query nodes tlds upstream =
    if ltb (length query) 12
    then (s, none)
    else let domain = (parse_domain_name query 12).0 in
      if is_empty domain
      then (s, none)
      else let (s', target_ip) = resolve_custom_tld s domain nodes tlds in
        (s', send_for query domain target_ip upstream)

is_empty-append_cons {ℓ} : {A : Type ℓ} (xs ys : List A) (a : A) → is_empty (xs ++ a ∷ ys) ≡ false
is_empty-append_cons [] ys a = refl
is_empty-append_cons (x ∷ xs) ys a = refl

is_empty-append {ℓ} :
    {A : Type ℓ} (xs ys : List A) → is_empty xs ≡ false → is_empty (xs ++ ys) ≡ false
is_empty-append [] ys h = cc
is_empty-append (x ∷ xs) ys h = refl

is_empty-header_of :
    (query rest : Bytes) (flags count : ℕ) → is_empty (header_of query flags count ++ rest) ≡ false
is_empty-header_of query rest flags count = is_empty-append (header_of query flags count) rest (
    is_empty-append (slice query 0 2 ++ (0x81 ∷ flags ∷ slice query 4 6))
      (0 ∷ count ∷ 0 ∷ 0 ∷ 0 ∷ 0 ∷ [])
      (is_empty-append_cons (slice query 0 2) (flags ∷ slice query 4 6) 0x81))

recursive-or_nothing :
    (upstream : Option Bytes) → recursive upstream ≡ unless_empty (or_nothing upstream)
recursive-or_nothing none = refl
recursive-or_nothing (some bytes) = refl

kept :
    (upstream : Option Bytes) (response : Bytes)
    → is_empty response ≡ false
    → unless_empty response
      ≡ unless_empty (if is_empty response then or_nothing upstream else response)
kept upstream [] h = cc
kept upstream (b ∷ response) h = refl

respond-sent :
    (query : Bytes) (domain : Text) (target : Option Text) (upstream : Option Bytes)
    → ltb (length query) 12 ≡ false
    → send_for query domain target upstream ≡ sent (respond query domain target upstream)
unfolding build_a_response
respond-sent query domain none none h = refl
respond-sent query domain none (some bytes) h = refl
respond-sent query domain (some ip) upstream h = elim (Bool-cases (is_empty ip)) [
  | inl e ↦ rw e (recursive-or_nothing upstream)
  | inr e ↦ elim (Option-cases (parse_ipv4 ip)) [
    | inl e' ↦ rw e (rw h (rw e' refl))
    | inr (address, e') ↦ rw e (
        rw h (
          rw e' (
            kept upstream _ (
              is_empty-header_of query
                (slice query 12 ((parse_domain_name query 12).1 + 4) ++ answer_of 30 address) 0x80
                1))))
  ]
]

-- What the server sends for a datagram is what it answers over HTTPS to the same query: the cache is
-- left the same, an answer that is not empty is sent, and nothing is sent where the answer is empty or
-- raises.
pub process_query-data :
    (s : DnsServer) (query : Bytes) (nodes : Reply (Text × Text)) (tlds : Reply Text)
    (upstream : Option Bytes)
    → process_query s query nodes tlds upstream ≡ (
      (process_query_data s query nodes tlds upstream).0,
      sent (process_query_data s query nodes tlds upstream).1,
    )
unfolding process_query process_query_data
process_query-data s query nodes tlds upstream = elim (Bool-cases (ltb (length query) 12)) [
  | inl e ↦ rw e refl
  | inr e ↦ elim (Bool-cases (is_empty (parse_domain_name query 12).0)) [
    | inl e' ↦ rw e (rw e' refl)
    | inr e' ↦ rw e (
        rw e' (
          ap (λ o. ((resolve_custom_tld s (parse_domain_name query 12).0 nodes tlds).0, o))
            (respond-sent query (parse_domain_name query 12).0
              (resolve_custom_tld s (parse_domain_name query 12).0 nodes tlds).1 upstream e)))
  ]
]
