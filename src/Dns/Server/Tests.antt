-- ===== src/Dns/Server/Tests.antt =====
-- A node that registers, and a query of its name.
use pymesh.Base.{◌≡◌, refl, ap, none, some, List, [], ◌∷◌, map, find?, list_beq, inr}
use pymesh.Base.Text.{codes, split, lower, lstrip, rstrip, lstrip_by, rstrip_by}
use pymesh.Base.Decimal
use pymesh.Base.Decimal.{all_digits, read}
use pymesh.Base.Dict.{lookup}
use pymesh.Base.Result.{ok}
use pymesh.Ipv4.{parse_ipv4, parse_octet, parse_network}
use pymesh.Allocator.{allocator}
use pymesh.Controller.Models.{Database, empty_database}
use pymesh.Controller.Action.{◌>>=◌, update_rows}
use pymesh.Controller.Nodes.{
  Env, NodeRegistrationRequest, NodeRegistrationResponse, new_network, new_node, derive_node_id,
  save_node, get_or_create_network, register_node, register, list_nodes,
}
use pymesh.Controller.Views.{NodeView, node_view, show_nodes, all_nodes}
use pymesh.Dns.Server.{body, DnsServer, resolve_custom_tld}
use pymesh.Dns.Server.Registered.{pair_of, register-resolves}

-- addresses written as decimal numbers, and every text read as the network at 0
abbrev env : Env
env = record {
  v6 = record {
    parse_network = λ s. some 0;
    show = Decimal.show;
    show_injective = λ m n _ _ e. Decimal.show-injective m n e;
  };
  b64decode = λ s. some s;
  sha256_hexdigest = λ s. s;
}

abbrev request : NodeRegistrationRequest
request = record {
  hostname = codes "App";
  public_key = codes "key";
  listen_port = 51820;
  os = codes "linux";
  version = codes "1.0";
  endpoints = [];
  tags = [];
}

-- the node is known, with this address
abbrev tables : Database
tables = record empty_database {
  networks = new_network (codes "pymesh") 1 ∷ [];
  nodes =
      new_node request 5 (codes "key") (codes "net-pymesh") (codes "100.64.0.2") (codes "2") ∷ [];
}

abbrev answer : NodeRegistrationResponse
answer = record {
  node_id = codes "key";
  hostname = codes "App";
  mesh_ipv4 = codes "100.64.0.2";
  mesh_ipv6 = codes "2";
  wireguard_public_key = codes "key";
  controller_public_key = none;
  network_name = codes "pymesh";
}

registered :
    register env request none 9 tables ≡ (ok answer, (register env request none 9 tables).1)
unfolding register register_node get_or_create_network ◌>>=◌ derive_node_id save_node find? list_beq
    allocator parse_network parse_ipv4 parse_octet split all_digits read
registered = refl

abbrev views : List NodeView
views = map node_view (register env request none 9 tables).1.nodes

abbrev server : DnsServer
server = record { ctrl_host = none; records_cache = [] }

listed : (show_nodes (register env request none 9 tables).1).0 ≡ ok views
unfolding show_nodes list_nodes
listed = ap (λ l. ok (map node_view l)) (all_nodes (register env request none 9 tables).1.nodes)

register-resolves_example :
    (resolve_custom_tld server
      (codes "app.mesh.")
      (body (map pair_of views))
      (body (codes "cr" ∷ []))).1
    ≡ some (codes "100.64.0.2")
unfolding lookup lower lstrip rstrip lstrip_by rstrip_by node_view register register_node
    get_or_create_network ◌>>=◌ derive_node_id save_node find? list_beq allocator parse_network
    parse_ipv4 parse_octet split all_digits read update_rows
register-resolves_example =
    register-resolves env request none 9 tables (register env request none 9 tables).1 answer views
      server (codes "app.mesh.") (body (codes "cr" ∷ [])) registered listed (inr refl, tt) refl refl
      (refl, tt)
