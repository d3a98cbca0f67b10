-- ===== src/Controller/Requests.antt =====
-- The requests of pymesh/controller/api.py that change tables, served one after another. A request
-- that only reads is left out: it leaves the tables as they are.
mod Keys
pub mod Sound
mod Kept
mod Placing
mod Registering
mod Unrefused
mod Moving
pub mod Reached
pub mod Meshing
mod Tests
use pymesh.Base.{ℕ, Option, List, [], ◌∷◌}
use pymesh.Base.Text.{Text}
use pymesh.Controller.Models.{Database}
use pymesh.Controller.Nodes.{
  Env, NodeRegistrationRequest, HeartbeatRequest, register, delete_node, heartbeat,
}
use pymesh.Controller.Rules.{AclRuleModel, create_acl_rule}
use pymesh.Controller.Routes.{SubnetRouteModel, add_route, delete_route}
use pymesh.Controller.Subnet.{update_network_subnet}
use pymesh.Controller.Registry.{Payload, Response, publish_tld, cr_handshake}
use pymesh.Controller.Views.{create_join_token, peer_cr_controller}

-- The route of the request with its arguments. Behind them stand the random text that the handler
-- makes (`token`, `uuid`) and the answer of another controller.
pub data Request : Type 0 where
  post_auth_join : Text → Text → Request
  post_nodes_register : NodeRegistrationRequest → Option Text → Request
  delete_nodes : Text → Request
  post_heartbeat : Text → HeartbeatRequest → Request
  put_acl : AclRuleModel → Text → Request
  post_routes : SubnetRouteModel → Text → Request
  delete_routes : Text → Request
  put_subnet : Text → Option Text → Request
  post_tld_publish : Text → Text → Text → Request
  post_cr_handshake : Payload → Text → Request
  post_cr_peer : Text → Response → Text → Request

-- the tables that the handler leaves, whether it answers or raises
unfoldable pub serve : Env → ℕ → Request → Database → Database
serve env now (post_auth_join token description) db = (create_join_token token description now db).1
serve env now (post_nodes_register req authorization) db = (register env req authorization now db).1
serve env now (delete_nodes node_id) db = (delete_node node_id db).1
serve env now (post_heartbeat node_id req) db = (heartbeat node_id req now db).1
serve env now (put_acl rule uuid) db = (create_acl_rule rule uuid now db).1
serve env now (post_routes route uuid) db = (add_route route uuid now db).1
serve env now (delete_routes route_id) db = (delete_route route_id db).1
serve env now (put_subnet ipv4_prefix ipv6_prefix) db =
    (update_network_subnet env.v6 ipv4_prefix ipv6_prefix now db).1
serve env now (post_tld_publish name description publisher_info) db =
    (publish_tld name description publisher_info now db).1
serve env now (post_cr_handshake payload uuid) db = (cr_handshake payload uuid now db).1
serve env now (post_cr_peer url resp uuid) db = (peer_cr_controller url resp uuid now db).1

-- requests in their order, each with its time
unfoldable pub serve_all : Env → List (ℕ × Request) → Database → Database
serve_all env [] db = db
serve_all env ((now, r) ∷ rest) db = serve_all env rest (serve env now r db)
