-- ===== src/Cli/Tests.antt =====
-- A node that joins again.
use pymesh.Base.{ℕ, ◌≡◌, refl, Bool, none, some, [], ◌∷◌, ◌==◌, nat_eq, find?, list_beq}
use pymesh.Base.Text.{codes, split, split_once}
use pymesh.Base.Decimal
use pymesh.Base.Decimal.{all_digits, read}
use pymesh.Base.Result.{ok}
use pymesh.Ipv4.{parse_ipv4, parse_octet, parse_network}
use pymesh.Allocator.{allocator}
use pymesh.Identity.{NodeIdentity, missing, Saving}
use pymesh.Controller.Models.{Database, empty_database, Network}
use pymesh.Controller.Action.{◌>>=◌}
use pymesh.Controller.Nodes.{
  Env, NodeRegistrationRequest, NodeRegistrationResponse, new_network, new_node, derive_node_id,
  save_node, get_or_create_network, register_node, register,
}
use pymesh.Cli.{answered, failed}
use pymesh.Cli.Main.{join, Around, dispatch}
use pymesh.Cli.Main.Laws.{Leaves, dispatch-file}
use pymesh.Cli.Join.{broken, asking, request_of, token_header, handle_join}
use pymesh.Cli.Join.Mesh.{IsMember, handle_join-IsMember}

-- the ports up to 8001 are taken
abbrev binds : ℕ → Bool
binds port = port == 8002

-- Addresses written as decimal numbers, and every text read as the network at 0.
abbrev env : Env
env = record {
  v6 = record {
    parse_network = λ s. some 0;
    show = Decimal.show;
    show_injective = λ m n _ _ e. Decimal.show-injective m n e;
  };
  b64decode = λ s. some s;
  sha256_hexdigest = λ s. s;
}

abbrev new : NodeIdentity
new = record {
  node_id = codes "q";
  hostname = codes "app";
  identity_private_key = codes "p";
  identity_public_key = codes "q";
  wg_private_key = codes "r";
  wg_public_key = codes "key";
  mesh_ipv4 = none;
  mesh_ipv6 = none;
  controller_url = none;
  auth_token = none;
  listen_port = 51820;
  os = codes "linux";
  version = codes "1.0";
  endpoints = [];
}

abbrev asked : NodeRegistrationRequest
asked = request_of (asking (codes "http://c") none new)

abbrev net : Network
net = new_network (codes "pymesh") 1

-- the node is known
abbrev tables : Database
tables = record empty_database {
  networks = net ∷ [];
  nodes = new_node asked 5 (codes "key") net.id (codes "100.64.0.2") (codes "2") ∷ [];
}

abbrev answer : NodeRegistrationResponse
answer = record {
  node_id = codes "key";
  hostname = codes "app";
  mesh_ipv4 = codes "100.64.0.2";
  mesh_ipv6 = codes "2";
  wireguard_public_key = codes "key";
  controller_public_key = none;
  network_name = codes "pymesh";
}

registered :
    register env asked (token_header none) 9 tables
    ≡ (ok answer, (register env asked (token_header none) 9 tables).1)
unfolding register register_node get_or_create_network ◌>>=◌ derive_node_id save_node find? list_beq
    allocator parse_network parse_ipv4 parse_octet split split_once all_digits read
registered = refl

handle_join-IsMember_example :
    IsMember
      (codes "http://c")
      (handle_join (codes "http://c") none (ok new) (answered answer) Saving.done missing)
      (register env asked (token_header none) 9 tables).1
handle_join-IsMember_example =
    handle_join-IsMember env (codes "http://c") none new missing 9 tables
      (register env asked (token_header none) 9 tables).1 answer registered

-- a machine on which the node joins
abbrev around : Around
around = record {
  create_new = λ hostname. ok new;
  registered = answered answer;
  saving = Saving.done;
  listed = failed [];
  served = failed [];
  posted = failed [];
  got = failed [];
  published = broken [];
  nat_type = none;
  binds = binds;
}

dispatch-file_example :
    Leaves around missing
      (join (codes "http://c") none none)
      (dispatch (join (codes "http://c") none none) around missing).file
dispatch-file_example = dispatch-file (join (codes "http://c") none none) around missing
