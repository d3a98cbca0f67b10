-- ===== src/Controller/Tests.antt =====
-- A small network on the default prefixes, and the laws of the handlers at it.
use Prim.Native.Nat.{min}
use pymesh.Base.{
  Bool, false, List, ◌-◌, ◌≡◌, refl, true, none, some, [], ◌∷◌, ◌++◌, text_eq, find?, any, contains,
  list_beq, All, arith,
}
use pymesh.Base.Text.{Text, codes, split, starts_with, ends_with}
use pymesh.Base.Decimal
use pymesh.Base.Decimal.{all_digits, read}
use pymesh.Base.Result.{Exception, ok, raise}
use pymesh.Ipv4.{show_ipv4, parse_ipv4, parse_octet, parse_network, first_host, host_count}
use pymesh.Ipv4.Networks.{IsNetwork}
use pymesh.Allocator.{Ipv6, IpAllocator, allocator, allocate, next_free, derive_v6}
use pymesh.Controller.Models.{Database, empty_database, Network, NodeModel, SubnetRoute, AuthToken}
use pymesh.Controller.Auth.Uses.{accepted, attempts, accepted-eq-min}
use pymesh.Controller.Nodes.{
  Env, NodeRegistrationRequest, HeartbeatRequest, allocated, new_network, new_node, derive_node_id,
  register_node,
}
use pymesh.Controller.Nodes.Registration.{
  IsPooled, IsRenewed, Renewed, register_node-new, register_node-again,
}
use pymesh.Controller.Routes.{add_route}
use pymesh.Base.{map}
use pymesh.Controller.Peers.{config_of}
use pymesh.Controller.Peers.Routing.{traffic, more_traffic, add_route-allowed_ips}
use pymesh.Controller.Routes.{SubnetRouteModel, new_route}
use pymesh.Controller.Action.{update_rows}
use pymesh.Controller.Subnet.{
  reallocate, flush_clash, has_clash, update_clash, by_id, insert_by_id, text_lt,
}
use pymesh.Controller.Subnet.Laws.{Readdressed, reallocate-ok}
use pymesh.Controller.Registry.{Payload, add_controller, register_controller, new_controller}
use pymesh.Controller.Registry.Federation.{register_controller-again}

-- Addresses written as decimal numbers, and every text read as the network at 0.
abbrev numbers_v6 : Ipv6
numbers_v6 = record {
  parse_network = λ s. some 0;
  show = Decimal.show;
  show_injective = λ m n _ _ e. Decimal.show-injective m n e;
}

abbrev env : Env
env = record { v6 = numbers_v6; b64decode = λ s. some s; sha256_hexdigest = λ s. s }

abbrev pool : IpAllocator
pool = record { ipv4_net = record { network_address = 1681915904; prefix = 10 }; ipv6_net = 0 }

pool-IsNetwork : IsNetwork pool.ipv4_net
pool-IsNetwork = record { prefix_le = omega arith; inside = omega arith }

abbrev net : Network
net = new_network (codes "pymesh") 1

abbrev request : NodeRegistrationRequest
request = record {
  hostname = codes "app";
  public_key = codes "key";
  listen_port = 51820;
  os = codes "linux";
  version = codes "1.0";
  endpoints = [];
  tags = codes "web" ∷ [];
}

abbrev app : NodeModel
app = new_node request 5 (codes "key") net.id (codes "100.64.0.2") (codes "2")

abbrev with_network : Database
with_network = record empty_database { networks = net ∷ [] }

abbrev with_app : Database
with_app = record with_network { nodes = app ∷ [] }

-- tokens
abbrev token : AuthToken
token = record {
  token = codes "t";
  network_id = net.id;
  description = [];
  used_count = 1;
  max_uses = some 3;
  expires_at = none;
  created_at = 1;
}

abbrev with_token : Database
with_token = record with_network { tokens = token ∷ [] }

accepted-eq-min_example :
    accepted (codes "t") (codes "t" ∷ codes "u" ∷ codes "t" ∷ codes "t" ∷ []) with_token
    ≡ min (attempts (codes "t") (codes "t" ∷ codes "u" ∷ codes "t" ∷ codes "t" ∷ [])) (3 - 1)
unfolding find? list_beq
accepted-eq-min_example =
    accepted-eq-min (codes "t") 3 (codes "t" ∷ codes "u" ∷ codes "t" ∷ codes "t" ∷ []) with_token
      token refl refl

-- registration
pool_parsed : allocator env.v6 net.ipv4_prefix net.ipv6_prefix ≡ ok pool
unfolding allocator parse_network parse_ipv4 parse_octet split all_digits read
pool_parsed = refl

key_derived : derive_node_id env request.public_key ≡ ok (codes "key")
unfolding derive_node_id
key_derived = refl

register_node-new_example :
    ((x y : Text)
      → allocate env.v6 pool
          (allocated (λ n. n.mesh_ipv4) net.id [])
          (allocated (λ n. n.mesh_ipv6) net.id [])
        ≡ ok (x, y)
      → (register_node env request (codes "pymesh") 5 with_network ≡ (
        ok (new_node request 5 (codes "key") net.id x y),
        record with_network { nodes = [] ++ new_node request 5 (codes "key") net.id x y ∷ [] },
      ))
        × All
            (IsPooled env.v6 pool net.id)
            ([] ++ new_node request 5 (codes "key") net.id x y ∷ []))
    × ((e : Exception)
        → allocate env.v6 pool
            (allocated (λ n. n.mesh_ipv4) net.id [])
            (allocated (λ n. n.mesh_ipv6) net.id [])
          ≡ raise e
        → register_node env request (codes "pymesh") 5 with_network ≡ (raise e, with_network))
unfolding find? list_beq
register_node-new_example =
    register_node-new env request 5 net pool pool-IsNetwork (codes "pymesh") (codes "key")
      with_network refl pool_parsed key_derived tt refl

app-IsPooled : IsPooled env.v6 pool net.id app
unfolding show_ipv4 Decimal.show
app-IsPooled = record {
  host = 1681915906;
  inside = record {
    low = omega arith;
    high = omega arith;
    proper = λ p. (omega arith, omega arith);
  };
  pair = record { v4 = refl; v6_inside = omega arith; v6_shown = refl };
  member = refl;
}

register_node-again_example :
    (n' : NodeModel) × (rows : List NodeModel) × (register_node env request
        (codes "pymesh")
        9
        with_app
      ≡ (ok n', record with_app { nodes = rows }))
    × IsRenewed request 9 app n'
    × Renewed request 9 (codes "key") with_app.nodes rows
    × All (IsPooled env.v6 pool net.id) rows
unfolding find? list_beq
register_node-again_example =
    register_node-again env request 9 net pool pool-IsNetwork (codes "pymesh") (codes "key")
      with_app app refl pool_parsed key_derived (app-IsPooled, tt) refl

-- lookups, configuration and routes
abbrev sign_of_life : HeartbeatRequest
sign_of_life = record {
  node_id = codes "key";
  endpoints = codes "192.0.2.1:51820" ∷ [];
  nat_type = codes "full_cone";
  rx_bytes = 0;
  tx_bytes = 0;
}

abbrev lan : SubnetRouteModel
lan = record {
  id = none;
  prefix = codes "10.1.0.0/16";
  via_node_id = codes "key";
  advertised_by = codes "key";
  enabled = true;
}

abbrev lan_row : SubnetRoute
lan_row = new_route lan (codes "1") 7

add_route-allowed_ips_example :
    map traffic (config_of app (add_route lan (codes "1") 7 with_app).1).peers
    ≡ map (more_traffic lan) (config_of app with_app).peers
unfolding any
add_route-allowed_ips_example = add_route-allowed_ips lan (codes "1") 7 with_app app refl refl

-- a change of the subnet
first_again : reallocate numbers_v6 pool net.id [] [] (app ∷ []) ≡ ok (app ∷ [])
unfolding reallocate allocate next_free derive_v6 contains list_beq ends_with starts_with show_ipv4
    Decimal.show first_host host_count parse_ipv4 parse_octet split all_digits read
first_again = refl

reallocate-ok_example : Readdressed numbers_v6 pool net.id [] (app ∷ []) (app ∷ [])
reallocate-ok_example =
    reallocate-ok numbers_v6 pool net.id pool-IsNetwork [] [] (app ∷ []) (app ∷ []) first_again

-- Two nodes that move up by one address: the change is refused if the second of them is written first.
abbrev at_host : Text → Text → NodeModel
at_host id host = record app { id = id; mesh_ipv4 = host; mesh_ipv6 = host }

abbrev moving_up : Text → Text → Bool
moving_up first second =
    flush_clash (at_host first (codes "2") ∷ at_host second (codes "3") ∷ [])
      (at_host first (codes "3") ∷ at_host second (codes "4") ∷ [])

moved_in_order : moving_up (codes "a") (codes "b") ≡ false
unfolding has_clash any update_clash by_id insert_by_id text_lt list_beq update_rows
moved_in_order = refl

moved_against_order : moving_up (codes "b") (codes "a") ≡ true
unfolding has_clash any update_clash by_id insert_by_id text_lt list_beq update_rows
moved_against_order = refl

-- the registry
abbrev payload : Payload
payload = record { url = some (codes "http://b"); hostname = none; public_key = none }

abbrev federated : Database
federated = record with_app {
  controllers = new_controller (codes "http://b") payload (codes "1") 7 ∷ [];
}

registered_once :
    register_controller (codes "http://b") payload (codes "1") 7 with_app ≡ (ok tt, federated)
unfolding register_controller add_controller any find?
registered_once = refl

register_controller-again_example :
    register_controller (codes "http://b") payload (codes "2") 9 federated ≡ (ok tt, federated)
register_controller-again_example =
    register_controller-again (codes "http://b") payload (codes "1") 7 with_app federated
      registered_once payload (codes "2") 9
