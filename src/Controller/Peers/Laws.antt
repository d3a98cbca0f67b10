-- ===== src/Controller/Peers/Laws.antt =====
-- What a node is told of its network (pymesh/controller/peers.py).
use mathlib.Core.List.{append-nil, append_assoc}
use pymesh.Base.{
  ◌≡◌, ◌≢◌, ◌↔◌, ◌∙◌, Bool, true, not, ◌&&◌, none, some, List, [], ◌∷◌, ◌++◌, map, if◌then◌else◌,
  ◌==◌, text_eq, find?, filter, arith, eq_iff, list_beq, contains, any, Bool-cases, inl, inr,
}
use pymesh.Base.Text.{Text, codes}
use pymesh.Base.Dict.{get_list, Dict, lookup, insert, lookup-insert}
use pymesh.Base.Result.{ok, raise, http}
use pymesh.Controller.Models.{Database, NodeModel, SubnetRoute}
use pymesh.Controller.Nodes.{has_id, in_network}
use pymesh.Controller.Peers.{
  route_map_from, allowed_ips, peer_config, is_peer, is_active, config_of, build_network_config,
  get_network_config,
}

-- the prefixes of the routes through a node, in order
unfoldable pub prefixes_via : Text → List SubnetRoute → List Text
prefixes_via node_id [] = []
prefixes_via node_id (r ∷ routes) =
    let rest = prefixes_via node_id routes in
    if r.via_node_id == node_id then r.prefix ∷ rest else rest

get_list-insert :
    (j k : Text) (l : List Text) (d : Dict (List Text))
    → get_list k (insert j l d) ≡ (if list_beq j k then l else get_list k d)
get_list-insert j k l d = ground (arith, lookup-insert j k l d)

get_list-route_map :
    (k : Text) (routes : List SubnetRoute) (d : Dict (List Text))
    → get_list k (route_map_from d routes) ≡ get_list k d ++ prefixes_via k routes
unfolding route_map_from prefixes_via
get_list-route_map k [] d = rw append-nil
get_list-route_map k (r ∷ routes) d =
    get_list-route_map k routes _ ∙ elim (Bool-cases (list_beq r.via_node_id k)) [
      | inl same ↦ rw same (
          rw (get_list-insert r.via_node_id k (get_list r.via_node_id d ++ r.prefix ∷ []) d)
            (rw same (rw ((eq_iff r.via_node_id k).0 same) (append_assoc (get_list k d) _ _))))
      | inr other ↦ rw other (
          rw (get_list-insert r.via_node_id k (get_list r.via_node_id d ++ r.prefix ∷ []) d)
            (rw other))
    ]

allowed_ips-get_list :
    (d : Dict (List Text)) (p : NodeModel)
    → allowed_ips d p
      ≡ (p.mesh_ipv4 ++ codes "/32") ∷ (p.mesh_ipv6 ++ codes "/128") ∷ get_list p.id d
unfolding allowed_ips
allowed_ips-get_list d p = ground arith

-- The traffic that is sent to a peer: its own two addresses as single hosts, and behind them the
-- prefixes of the given routes through it, in their order, as many times as they occur.
pub allowed_ips-routes :
    (routes : List SubnetRoute) (p : NodeModel)
    → allowed_ips (route_map_from [] routes) p
      ≡ (p.mesh_ipv4 ++ codes "/32") ∷ (p.mesh_ipv6 ++ codes "/128") ∷ prefixes_via p.id routes
unfolding lookup
allowed_ips-routes routes p = allowed_ips-get_list _ p ∙ rw (get_list-route_map p.id routes [])

-- A node without a row has no configuration: the request ends in a 404. A node with a row is told
-- its own addresses, a configuration for each other node of its network, in the order of the
-- table, and the enabled routes of the network. Nothing is changed in either case.
pub get_network_config_lem :
    (node_id : Text) (db : Database)
    → (find? (has_id node_id) db.nodes ≡ none
        → get_network_config node_id db ≡ (raise (http 404), db))
      × ((n : NodeModel)
          → find? (has_id node_id) db.nodes ≡ some n
          → get_network_config node_id db ≡ (ok (config_of n db), db))
unfolding get_network_config build_network_config
get_network_config_lem node_id db = (
  λ e. rw (e, get_network_config, build_network_config),
  λ n e. rw (e, get_network_config, build_network_config),
)

abbrev pub member_with : Text → Text → NodeModel → Bool
member_with network_id k n = has_id k n && in_network network_id n

peer_ids :
    (target : NodeModel) (k : Text) (d : Dict (List Text)) (rows : List NodeModel)
    → contains k (map (λ p. p.node_id) (map (peer_config d) (filter (is_peer target) rows)))
      ≡ (not (k == target.id) && any (member_with target.network_id k) rows)
unfolding contains filter any peer_config
peer_ids target k d [] = ground arith
peer_ids target k d (q ∷ rows) = ground (
  arith,
  peer_ids target k d rows,
  eq_iff k q.id,
  eq_iff q.id k,
  eq_iff q.id target.id,
  eq_iff k target.id,
)

-- The peers of a node are exactly the nodes of its network but itself: an id is among the peers'
-- exactly when it is not the node's own and some row of the network has it.
pub peers_iff :
    (target : NodeModel) (k : Text) (db : Database)
    → (contains k (map (λ p. p.node_id) (config_of target db).peers) ≡ true)
      ↔ ((k ≢ target.id) × (any (member_with target.network_id k) db.nodes ≡ true))
unfolding config_of
peers_iff target k db = ground (
  arith,
  peer_ids target k (route_map_from [] (filter (is_active target.network_id) db.routes)) db.nodes,
  eq_iff k target.id,
)
