-- ===== src/Dns/Tests.antt =====
-- A query for app.mesh, and the records of a small network.
use pymesh.Base.{◌+◌, ◌≡◌, ◌≢◌, refl, none, some, List, [], ◌∷◌, ◌++◌, length, arith}
use pymesh.Base.Text.{Text, codes, split}
use pymesh.Base.Decimal.{all_digits, read}
use pymesh.Base.Dict.{Dict}
use pymesh.Base.Bytes.{Bytes, is_ascii}
use pymesh.Base.Result.{ok}
use pymesh.Ipv4.{parse_ipv4, parse_octet}
use pymesh.Dns.{labels_from, domain_of, parse_domain_name, answer_of, build_a_response}
use pymesh.Dns.Names.{encode_name, IsName, labels_from_total, parse_domain_name-encode_name}
use pymesh.Dns.Answers.{query_of, build_a_response-query}
use pymesh.Dns.Server.{refused, body, DnsServer}
use pymesh.Dns.Server.{process_query_data}
use pymesh.Dns.Server.Udp.{sent, process_query, process_query-data}
use pymesh.Dns.Magic.{build_dns_response}
use pymesh.Dns.Magic.Known.{IsKnown}
use pymesh.Dns.Magic.Answers.{build_dns_response-query}
use pymesh.Base.Result.{raise, bad_address}

abbrev labels : List Text
labels = codes "App" ∷ codes "mesh" ∷ []

labels-IsName : IsName labels
unfolding is_ascii
labels-IsName = (omega arith, omega arith, refl, (omega arith, omega arith, refl, tt))

abbrev front : Bytes
front = 7 ∷ 7 ∷ 1 ∷ 0 ∷ 0 ∷ 1 ∷ 0 ∷ 0 ∷ 0 ∷ 0 ∷ 0 ∷ 0 ∷ []

abbrev type_and_class : Bytes
type_and_class = 0 ∷ 1 ∷ 0 ∷ 1 ∷ []

labels_from_total_example : labels_from 13 front 0 [] ≢ none
labels_from_total_example = labels_from_total 13 front 0 [] (omega arith) (omega arith)

parse_domain_name-encode_name_example :
    parse_domain_name (front ++ (encode_name labels ++ type_and_class)) 12
    ≡ (domain_of labels, 12 + length (encode_name labels))
parse_domain_name-encode_name_example =
    parse_domain_name-encode_name front type_and_class labels labels-IsName

address_parsed : parse_ipv4 (codes "100.64.0.2") ≡ some 1681915906
unfolding parse_ipv4 parse_octet split all_digits read
address_parsed = refl

build_a_response-query_example :
    build_a_response
      (query_of 7 7 1 0 0 1 (0 ∷ 0 ∷ 0 ∷ 0 ∷ 0 ∷ 0 ∷ []) labels type_and_class [])
      (codes "app.mesh")
      (codes "100.64.0.2")
    ≡ ok (
        (7 ∷ 7 ∷ 0x81 ∷ 0x80 ∷ 0 ∷ 1 ∷ 0 ∷ 1 ∷ 0 ∷ 0 ∷ 0 ∷ 0 ∷ [])
        ++ ((encode_name labels ++ type_and_class) ++ answer_of 30 1681915906))
build_a_response-query_example =
    build_a_response-query 7 7 1 0 0 1 (0 ∷ 0 ∷ 0 ∷ 0 ∷ 0 ∷ 0 ∷ []) labels type_and_class [] refl
      refl labels-IsName (codes "app.mesh") (codes "100.64.0.2") 1681915906 address_parsed

abbrev server : DnsServer
server = record {
  ctrl_host = some (codes "localhost");
  records_cache = (codes "app.mesh", codes "100.64.0.2") ∷ [];
}

abbrev nodes : List (Text × Text)
nodes = (codes "Db", codes "100.64.0.3") ∷ (codes "db", codes "100.64.0.4") ∷ []

abbrev hosts : Dict Text
hosts = (codes "Db", codes "100.64.0.3") ∷ (codes "controller", codes "100.64.0.1") ∷ []

-- a query for app.mesh
abbrev query : Bytes
query = front ++ (encode_name labels ++ type_and_class)

process_query-data_example : process_query server query (body nodes) refused none ≡ (
  (process_query_data server query (body nodes) refused none).0,
  sent (process_query_data server query (body nodes) refused none).1,
)
process_query-data_example = process_query-data server query (body nodes) refused none

-- the records of a daemon
abbrev known : Dict Text
known = (codes "app.mesh", codes "100.64.0.2") ∷ []

build_dns_response-query_example :
    ((ip : Text)
      → IsKnown known labels ip
      → build_dns_response known
          (query_of 7 7 1 0 0 1 (0 ∷ 0 ∷ 0 ∷ 0 ∷ 0 ∷ 0 ∷ []) labels type_and_class [])
        ≡ elim (parse_ipv4 ip) [
          | none ↦ raise bad_address
          | some address ↦ ok (
              (7 ∷ 7 ∷ 0x81 ∷ 0x80 ∷ 0 ∷ 1 ∷ 0 ∷ 1 ∷ 0 ∷ 0 ∷ 0 ∷ 0 ∷ [])
              ++ ((encode_name labels ++ type_and_class) ++ answer_of 60 address))
        ])
    × (((ip : Text) → ¬ IsKnown known labels ip)
        → build_dns_response known
            (query_of 7 7 1 0 0 1 (0 ∷ 0 ∷ 0 ∷ 0 ∷ 0 ∷ 0 ∷ []) labels type_and_class [])
          ≡ ok (
              (7 ∷ 7 ∷ 0x81 ∷ 0x83 ∷ 0 ∷ 1 ∷ 0 ∷ 0 ∷ 0 ∷ 0 ∷ 0 ∷ 0 ∷ [])
              ++ (encode_name labels ++ type_and_class)))
build_dns_response-query_example =
    build_dns_response-query 7 7 1 0 0 1 (0 ∷ 0 ∷ 0 ∷ 0 ∷ 0 ∷ 0 ∷ []) labels type_and_class [] refl
      refl labels-IsName known
