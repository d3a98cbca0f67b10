-- ===== src/Controller/Views.antt =====
-- The handlers of pymesh/controller/api.py that show nodes and controllers, and those that pass a
-- request on.
use pymesh.Base.{
  ℕ, ◌≡◌, refl, Bool, true, Option, none, some, List, [], ◌∷◌, ◌++◌, map, if◌then◌else◌, ◌==◌,
  text_eq, find?, filter, Bool-cases, inl, inr, list_beq, ap, sym, ◌∙◌,
}
use pymesh.Base.Text.{Text, codes}
use pymesh.Base.Result.{Result, ok, raise, http}
use pymesh.Controller.Models.{Database, NodeModel, FederatedController}
use pymesh.Controller.Action.{Action, pure, fail, select, ◌>>=◌}
use pymesh.Controller.Auth.{create_token}
use pymesh.Controller.Nodes.{has_id, get_node, list_nodes}
use pymesh.Controller.Registry.{Payload, Response, peer_controller}

-- the dict that a node is shown as; a time is shown as it is kept
pub record NodeView : Type 0 where
  pub id : Text
  pub hostname : Text
  pub mesh_ipv4 : Text
  pub mesh_ipv6 : Text
  pub wireguard_public_key : Text
  pub listen_port : ℕ
  pub os : Text
  pub version : Text
  pub online : Bool
  pub nat_type : Text
  pub last_seen : ℕ
  pub endpoints : List Text
  pub tags : List Text

unfoldable pub node_view : NodeModel → NodeView
node_view n = record {
  id = n.id;
  hostname = n.hostname;
  mesh_ipv4 = n.mesh_ipv4;
  mesh_ipv6 = n.mesh_ipv6;
  wireguard_public_key = n.wireguard_public_key;
  listen_port = n.listen_port;
  os = n.os;
  version = n.version;
  online = n.online;
  nat_type = n.nat_type;
  last_seen = n.last_seen;
  endpoints = n.endpoints;
  tags = n.tags;
}

-- GET /nodes
unfoldable pub show_nodes : Action (List NodeView)
unfolding ◌>>=◌ list_nodes
show_nodes = do nodes ← list_nodes none; pure (map node_view nodes)

abbrev show_found : Option NodeModel → Action NodeView
show_found none = fail (http 404)
show_found (some n) = pure (node_view n)

-- GET /nodes/{node_id}
unfoldable pub show_node : Text → Action NodeView
unfolding ◌>>=◌ get_node
show_node node_id = do node ← get_node node_id; show_found node

pub record ControllerView : Type 0 where
  pub id : Text
  pub url : Text
  pub hostname : Text
  pub status : Text
  pub last_synced : ℕ

unfoldable pub controller_view : FederatedController → ControllerView
controller_view p = record {
  id = p.id;
  url = p.url;
  hostname = p.hostname;
  status = p.status;
  last_synced = p.last_synced;
}

-- GET /cr/peers
unfoldable pub list_cr_peers : Action (List ControllerView)
list_cr_peers = select (λ db. map controller_view db.controllers)

-- POST /cr/peer: the address and what the remote controller answered
unfoldable pub peer_cr_controller : Text → Response → Text → ℕ → Action (Text × Payload)
unfolding ◌>>=◌
peer_cr_controller url resp uuid now = do
  result ← peer_controller url resp uuid now
  pure (url, result)

-- POST /auth/join: the token and the path that uses it
unfoldable pub create_join_token : Text → Text → ℕ → Action (Text × Text)
unfolding ◌>>=◌
create_join_token token_str description now = do
  token ← create_token token_str (codes "default") description none now
  pure (token, codes "/join?token=" ++ token)

-- the first dict of an id in a list
pub view_of : Text → List NodeView → Result NodeView
view_of node_id [] = raise (http 404)
view_of node_id (v ∷ views) = if v.id == node_id then ok v else view_of node_id views

pub all_nodes : (rows : List NodeModel) → filter (λ n. true) rows ≡ rows
unfolding filter
all_nodes [] = refl
all_nodes (n ∷ rows) = rw (all_nodes rows) refl

found-view :
    (node_id : Text) (rows : List NodeModel) (db : Database)
    → show_found (find? (has_id node_id) rows) db ≡ (view_of node_id (map node_view rows), db)
unfolding find? view_of node_view
found-view node_id [] db = refl
found-view node_id (n ∷ rows) db = elim (Bool-cases (list_beq n.id node_id)) [
  | inl e ↦ rw e refl
  | inr e ↦ rw e (found-view node_id rows db)
]

-- The list of nodes and the page of one node agree: a node is shown as the first entry of the list
-- that has its id, and where there is none the answer is a 404. Neither changes anything.
pub show_node_lem :
    (node_id : Text) (db : Database)
    → ((show_nodes db).1 ≡ db)
      × ((views : List NodeView)
          → (show_nodes db).0 ≡ ok views
          → show_node node_id db ≡ (view_of node_id views, db))
unfolding show_nodes show_node list_nodes get_node
show_node_lem node_id db = (
  refl,
  λ views h.
      let shown : ok (map node_view db.nodes) ≡ ok views =
        sym (ap (λ l. ok (map node_view l)) (all_nodes db.nodes)) ∙ h in
      let same : map node_view db.nodes ≡ views = cc in
      found-view node_id db.nodes db ∙ ap (λ l. (view_of node_id l, db)) same,
)
