-- ===== src/Controller/Requests/Reached.antt =====
-- What the tables of the controller are after any requests (pymesh/controller/api.py).
use pymesh.Base.{ℕ, ◌≡◌, ◌≢◌, refl, false, none, some, List, [], ◌∷◌, is_empty, All}
use pymesh.Base.Text.{codes}
use pymesh.Base.Result.{raise, integrity}
use pymesh.Controller.Models.{Database, empty_database}
use pymesh.Controller.Nodes.{Env, NodeRegistrationRequest, register_node}
use pymesh.Controller.Registry.{peer_url, cr_handshake}
use pymesh.Controller.Requests.{
  Request, post_auth_join, post_nodes_register, delete_nodes, post_heartbeat, put_acl, post_routes,
  delete_routes, put_subnet, post_tld_publish, post_cr_handshake, post_cr_peer, serve, serve_all,
}
use pymesh.Controller.Requests.Sound.{IsSound}
use pymesh.Controller.Requests.Kept.{
  create_join_token-Keeps, create_acl_rule-Keeps, add_route-Keeps, delete_route-Keeps,
  publish_tld-Keeps, register_controller-Keeps, peer_cr_controller-Keeps,
}
use pymesh.Controller.Requests.Placing.{delete_node-Keeps, heartbeat-Keeps}
use pymesh.Controller.Requests.Registering.{register-Keeps}
use pymesh.Controller.Requests.Unrefused.{unrefused}
use pymesh.Controller.Requests.Moving.{update_network_subnet-Keeps}

-- A change of the subnet names an IPv6 prefix, as it does where the query leaves it out.
abbrev pub NamesPrefix : Request → Type 0
NamesPrefix (put_subnet v4 none) = ⊥
NamesPrefix (put_subnet v4 (some s)) = is_empty s ≡ false
NamesPrefix _ = Unit

module _ (env : Env) where
  serve-IsSound :
      (now : ℕ) (r : Request) (db : Database)
      → NamesPrefix r
      → IsSound env db
      → IsSound env (serve env now r db)
  unfolding serve cr_handshake
  serve-IsSound now (post_auth_join token d) db w s = create_join_token-Keeps env token d now db s
  serve-IsSound now (post_nodes_register req a) db w s = register-Keeps env req a now db s
  serve-IsSound now (delete_nodes id) db w s = delete_node-Keeps env id db s
  serve-IsSound now (post_heartbeat id req) db w s = heartbeat-Keeps env id req now db s
  serve-IsSound now (put_acl rule uuid) db w s = create_acl_rule-Keeps env rule uuid now db s
  serve-IsSound now (post_routes route uuid) db w s = add_route-Keeps env route uuid now db s
  serve-IsSound now (delete_routes id) db w s = delete_route-Keeps env id db s
  serve-IsSound now (put_subnet v4 none) db w s = absurd w
  serve-IsSound now (put_subnet v4 (some x)) db w s =
      update_network_subnet-Keeps env v4 x now w db s
  serve-IsSound now (post_tld_publish name d p) db w s = publish_tld-Keeps env name d p now db s
  serve-IsSound now (post_cr_handshake payload uuid) db w s =
      register_controller-Keeps env (peer_url payload) payload uuid now db s
  serve-IsSound now (post_cr_peer url resp uuid) db w s =
      peer_cr_controller-Keeps env url resp uuid now db s

  serve_all-from :
      (rs : List (ℕ × Request)) (db : Database)
      → All (λ r. NamesPrefix r.1) rs
      → IsSound env db
      → IsSound env (serve_all env rs db)
  unfolding serve_all
  serve_all-from [] db ws s = s
  serve_all-from ((now, r) ∷ rest) db (w, ws) s =
      serve_all-from rest (serve env now r db) ws (serve-IsSound now r db w s)

  empty-IsSound : IsSound env empty_database
  empty-IsSound = record {
    placed = refl;
    nodes = tt;
    routes = tt;
    route_networks = tt;
    rules = tt;
    rule_networks = tt;
    tokens = tt;
    tlds = tt;
    names = tt;
    controllers = tt;
  }

  -- Whatever requests a controller with empty tables serves, and whether each is answered or
  -- raises: there is one network at most, the one named "pymesh"; every node is of it, with the
  -- IPv4 and the IPv6 address of one host of the pool that its row names; no two rows of a table
  -- clash in a key or a unique column; routes and rules are of this network; and the published
  -- names are labels of 2 to 24 characters that are not reserved. The condition is that a change of
  -- the subnet names an IPv6 prefix that is not empty.
  pub serve_all-IsSound :
      (rs : List (ℕ × Request))
      → All (λ r. NamesPrefix r.1) rs
      → IsSound env (serve_all env rs empty_database)
  serve_all-IsSound rs ws = serve_all-from rs empty_database ws empty-IsSound

  -- After any such requests, a registration is never refused for a key or an address that is taken:
  -- the addresses it is given are free in all the table.
  pub register_node-ne-integrity :
      (rs : List (ℕ × Request))
      → All (λ r. NamesPrefix r.1) rs
      → (req : NodeRegistrationRequest) (now : ℕ)
      → (register_node env req (codes "pymesh") now (serve_all env rs empty_database)).0
        ≢ raise integrity
  register_node-ne-integrity rs ws req now =
      unrefused env req now (serve_all env rs empty_database) (serve_all-IsSound rs ws)
