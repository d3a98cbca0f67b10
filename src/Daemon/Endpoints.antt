-- ===== src/Daemon/Endpoints.antt =====
-- pymesh/discovery/endpoints.py: the endpoints that a node offers.
use pymesh.Base.{
  ℕ, Bool, not, ◌&&◌, Option, none, some, List, [], ◌∷◌, ◌++◌, if◌then◌else◌, contains, nat_eq,
  text_eq,
}
use pymesh.Base.Text.{Text, codes, starts_with}
use pymesh.Base.Decimal.{show}
use pymesh.Stun.{Mapped}

-- `if ep not in candidates: candidates.append(ep)`
abbrev pub add_new : Text → List Text → List Text
add_new ep candidates = if contains ep candidates then candidates else candidates ++ ep ∷ []

-- neither of the machine itself, nor of the mesh, nor an IPv6 address
abbrev pub is_candidate : Text → Bool
is_candidate ip =
    not (starts_with ip (codes "127."))
    && (not (starts_with ip (codes "100.64.")) && not (contains b':' ip))

abbrev pub endpoint_of : Text → ℕ → Text
endpoint_of ip port = ip ++ b':' ∷ show port

unfoldable pub add_local : ℕ → List Text → List Text → List Text
add_local listen_port [] candidates = candidates
add_local listen_port (ip ∷ ips) candidates =
    add_local listen_port ips
      (if is_candidate ip then add_new (endpoint_of ip listen_port) candidates else candidates)

abbrev add_mapped : Option Mapped → List Text → List Text
add_mapped none candidates = candidates
add_mapped (some (pub_ip, pub_port)) candidates = add_new (endpoint_of pub_ip pub_port) candidates

-- the addresses of the machine, none where looking them up raises, and the answer of STUN
unfoldable pub get_candidate_endpoints : List Text → Option Mapped → ℕ → List Text
unfolding add_local
get_candidate_endpoints ips stun_res listen_port =
    add_mapped stun_res (add_local listen_port ips [])
