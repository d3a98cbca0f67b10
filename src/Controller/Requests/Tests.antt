-- ===== src/Controller/Requests/Tests.antt =====
-- A controller that serves some requests.
use pymesh.Base.{
  ℕ, ◌≡◌, ◌≢◌, refl, none, some, List, [], ◌∷◌, All, find?, any, list_beq, filter, contains,
}
use pymesh.Base.Text.{Text, codes, split, starts_with, ends_with}
use pymesh.Ipv4.{parse_network, parse_octet, parse_ipv4, show_ipv4, host_count, first_host}
use pymesh.Controller.Action.{update_rows}
use pymesh.Base.Decimal
use pymesh.Base.Decimal.{show, all_digits, read}
use pymesh.Base.Result.{ok, raise, integrity}
use pymesh.Allocator.{validate_cidr, allocator, allocate, next_free, derive_v6}
use pymesh.Controller.Models.{empty_database, NodeModel}
use pymesh.Controller.Nodes.{
  Env, NodeRegistrationRequest, register_node, has_id, new_node, register, get_or_create_network,
  derive_node_id, save_node, add_node,
}
use pymesh.Controller.Subnet.{reallocate, has_clash, update_clash, by_id, update_network_subnet}
use pymesh.Controller.Peers.{config_of, get_network_config}
use pymesh.Controller.Requests.Meshing.{IsMesh, get_network_config-IsMesh}
use pymesh.Controller.Requests.{
  Request, post_auth_join, post_nodes_register, delete_nodes, put_subnet, post_tld_publish, serve,
  serve_all,
}
use pymesh.Controller.Requests.Sound.{IsSound}
use pymesh.Controller.Requests.Reached.{NamesPrefix, serve_all-IsSound, register_node-ne-integrity}

-- addresses written as decimal numbers, and every text read as the network at 0
abbrev env : Env
env = record {
  v6 = record {
    parse_network = λ s. some 0;
    show = Decimal.show;
    show_injective = λ m n _ _ e. Decimal.show-injective m n e;
  };
  b64decode = λ s. some s;
  sha256_hexdigest = λ s. s;
}

abbrev named : Text → NodeRegistrationRequest
named s = record {
  hostname = s;
  public_key = s;
  listen_port = 51820;
  os = codes "linux";
  version = codes "1.0";
  endpoints = [];
  tags = [];
}

abbrev requests : List (ℕ × Request)
requests =
    (1, post_auth_join (codes "t") (codes "office"))
    ∷ (2, post_nodes_register (named (codes "app")) none)
    ∷ (3, post_nodes_register (named (codes "db")) none)
    ∷ (4, post_tld_publish (codes "lab") [] [])
    ∷ (5, put_subnet (codes "10.8.0.0/24") (some (codes "fd01::/48")))
    ∷ (6, delete_nodes (codes "app"))
    ∷ []

prefixes_named : All (λ r. NamesPrefix r.1) requests
prefixes_named = (tt, (tt, (tt, (tt, (refl, (tt, tt))))))

serve_all-IsSound_example : IsSound env (serve_all env requests empty_database)
serve_all-IsSound_example = serve_all-IsSound env requests prefixes_named

register_node-ne-integrity_example :
    (register_node env
      (named (codes "web"))
      (codes "pymesh")
      7
      (serve_all env requests empty_database)).0
    ≢ raise integrity
register_node-ne-integrity_example =
    register_node-ne-integrity env requests prefixes_named (named (codes "web")) 7

-- a small subnet and one node in it
abbrev small : List (ℕ × Request)
small =
    (1, put_subnet (codes "10.8.0.0/29") (some (codes "fd01::/48")))
    ∷ (2, post_nodes_register (named (codes "app")) none)
    ∷ []

small_named : All (λ r. NamesPrefix r.1) small
small_named = (refl, (tt, tt))

abbrev app : NodeModel
app =
    new_node (named (codes "app")) 2 (codes "app") (codes "net-pymesh") (codes "10.8.0.2")
      (codes "2")

app_found : find? (has_id (codes "app")) (serve_all env small empty_database).nodes ≡ some app
unfolding serve_all serve register register_node get_or_create_network update_network_subnet find?
    validate_cidr parse_network split parse_octet all_digits read any allocator reallocate has_clash
    update_clash by_id update_rows list_beq derive_node_id save_node allocate next_free host_count
    first_host derive_v6 show show_ipv4 parse_ipv4 filter contains ends_with starts_with add_node
app_found = refl

get_network_config-IsMesh_example :
    (get_network_config (codes "app") (serve_all env small empty_database) ≡ (
      ok (config_of app (serve_all env small empty_database)),
      serve_all env small empty_database,
    ))
    × IsMesh
        (codes "app")
        (serve_all env small empty_database).nodes
        (config_of app (serve_all env small empty_database))
get_network_config-IsMesh_example =
    get_network_config-IsMesh env small (codes "app") app small_named app_found
