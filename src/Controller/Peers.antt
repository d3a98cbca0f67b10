-- ===== src/Controller/Peers.antt =====
-- pymesh/controller/peers.py: the network configuration of a node.
pub mod Laws
pub mod Routing
use pymesh.Base.{
  ℕ, Bool, not, ◌&&◌, Option, none, some, List, [], ◌∷◌, ◌++◌, map, if◌then◌else◌, ◌==◌, text_eq,
  find?, filter,
}
use pymesh.Base.Text.{Text, codes}
use pymesh.Base.Dict.{Dict, lookup, insert, get_list}
use pymesh.Base.Result.{Result, ok, raise, node_not_found, http}
use pymesh.Controller.Models.{Database, NodeModel, SubnetRoute}
use pymesh.Controller.Action.{Action, pure, fail, select, ◌>>=◌}
use pymesh.Controller.Nodes.{has_id, in_network}

-- `PeerConfig` (pymesh/protocol/messages.py)
pub record PeerConfig : Type 0 where
  pub node_id : Text
  pub hostname : Text
  pub public_key : Text
  pub mesh_ipv4 : Text
  pub mesh_ipv6 : Text
  pub allowed_ips : List Text
  pub endpoints : List Text
  pub persistent_keepalive : ℕ
  pub relay_endpoint : Option Text

-- the dict that a route is sent as
pub record RouteInfo : Type 0 where
  pub id : Text
  pub prefix : Text
  pub via_node_id : Text
  pub advertised_by : Text

-- `NetworkConfigResponse`
pub record NetworkConfigResponse : Type 0 where
  pub node_id : Text
  pub mesh_ipv4 : Text
  pub mesh_ipv6 : Text
  pub peers : List PeerConfig
  pub routes : List RouteInfo
  pub dns_domain : Text

-- `route_map.setdefault(r.via_node_id, []).append(r.prefix)` for each route
unfoldable pub route_map_from : Dict (List Text) → List SubnetRoute → Dict (List Text)
route_map_from d [] = d
route_map_from d (r ∷ routes) =
    route_map_from (insert r.via_node_id (get_list r.via_node_id d ++ r.prefix ∷ []) d) routes

-- the prefixes behind the addresses of a peer, if it is in the map
unfoldable pub allowed_ips : Dict (List Text) → NodeModel → List Text
allowed_ips route_map p =
    let own = (p.mesh_ipv4 ++ codes "/32") ∷ (p.mesh_ipv6 ++ codes "/128") ∷ [] in
    elim (lookup p.id route_map) [ none ↦ own | some prefixes ↦ own ++ prefixes ]

unfoldable pub peer_config : Dict (List Text) → NodeModel → PeerConfig
peer_config route_map p = record {
  node_id = p.id;
  hostname = p.hostname;
  public_key = p.wireguard_public_key;
  mesh_ipv4 = p.mesh_ipv4;
  mesh_ipv6 = p.mesh_ipv6;
  allowed_ips = allowed_ips route_map p;
  endpoints = p.endpoints;
  persistent_keepalive = 25;
  relay_endpoint = none;
}

abbrev pub route_info : SubnetRoute → RouteInfo
route_info r = record {
  id = r.id;
  prefix = r.prefix;
  via_node_id = r.via_node_id;
  advertised_by = r.advertised_by;
}

abbrev pub is_peer : NodeModel → NodeModel → Bool
is_peer target n = in_network target.network_id n && not (has_id target.id n)

abbrev pub is_active : Text → SubnetRoute → Bool
is_active network_id r = r.network_id == network_id && r.enabled

unfoldable pub config_of : NodeModel → Database → NetworkConfigResponse
config_of target db =
    let routes = filter (is_active target.network_id) db.routes in
    let route_map = route_map_from [] routes in
    record {
      node_id = target.id;
      mesh_ipv4 = target.mesh_ipv4;
      mesh_ipv6 = target.mesh_ipv6;
      peers = map (peer_config route_map) (filter (is_peer target) db.nodes);
      routes = map route_info routes;
      dns_domain = codes "mesh";
    }

abbrev for_target : Option NodeModel → Action NetworkConfigResponse
for_target none = fail node_not_found
for_target (some target) = select (config_of target)

unfoldable pub build_network_config : Text → Action NetworkConfigResponse
unfolding ◌>>=◌
build_network_config node_id = do
  target_node ← select (λ db. find? (has_id node_id) db.nodes)
  for_target target_node

-- `except ValueError`
abbrev as_404 {ℓ} : {A : Type ℓ} → Result A → Result A
as_404 (raise node_not_found) = raise (http 404)
as_404 r = r

-- GET /network/config
unfoldable pub get_network_config : Text → Action NetworkConfigResponse
get_network_config node_id db = let (r, db') = build_network_config node_id db in (as_404 r, db')
