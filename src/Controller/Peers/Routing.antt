-- ===== src/Controller/Peers/Routing.antt =====
-- What the nodes are told when a subnet route is added (pymesh/controller/api.py and
-- pymesh/controller/peers.py).
use pymesh.Base.{
  ℕ, ◌≡◌, refl, ◌∙◌, ap, sym, Bool, true, false, ◌&&◌, List, [], ◌∷◌, ◌++◌, map, if◌then◌else◌,
  ◌==◌, text_eq, filter, any, list_beq, Bool-cases, inl, inr,
}
use pymesh.Base.Text.{Text, codes}
use pymesh.Controller.Models.{Database, NodeModel, SubnetRoute, route_clash}
use pymesh.Controller.Routes.{SubnetRouteModel, new_route, add_route}
use pymesh.Controller.Routes.Laws.{filter-snoc, add_route-free}
use pymesh.Controller.Peers.{
  PeerConfig, route_map_from, allowed_ips, peer_config, is_peer, is_active, config_of,
}
use pymesh.Controller.Peers.Laws.{prefixes_via, allowed_ips-routes}

prefixes_via-append :
    (id : Text) (xs ys : List SubnetRoute)
    → prefixes_via id (xs ++ ys) ≡ prefixes_via id xs ++ prefixes_via id ys
unfolding prefixes_via
prefixes_via-append id [] ys = refl
prefixes_via-append id (r ∷ xs) ys = elim (Bool-cases (list_beq r.via_node_id id)) [
  | inl e ↦ rw e (ap (λ l. r.prefix ∷ l) (prefixes_via-append id xs ys))
  | inr e ↦ rw e (prefixes_via-append id xs ys)
]

-- the prefix of a route that is enabled, for the node that it goes through
abbrev pub gained : SubnetRouteModel → Text → List Text
gained route node_id =
    if route.enabled && route.via_node_id == node_id then route.prefix ∷ [] else []

prefixes_via-new :
    (route : SubnetRouteModel) (uuid : Text) (now : ℕ) (id network_id : Text)
    → network_id ≡ codes "net-pymesh"
    → prefixes_via id (
        if is_active network_id (new_route route uuid now)
        then new_route route uuid now ∷ []
        else [])
      ≡ gained route id
unfolding prefixes_via list_beq
prefixes_via-new route uuid now id network_id e = rw e (at route.enabled refl)
  where
    at :
        (b : Bool)
        → route.enabled ≡ b
        → prefixes_via id (
            if is_active (codes "net-pymesh") (new_route route uuid now)
            then new_route route uuid now ∷ []
            else [])
          ≡ gained route id
    at true e = rw e refl
    at false e = rw e refl

-- a peer and its traffic, as it is told, and with what it gains
abbrev pub traffic : PeerConfig → Text × List Text
traffic p = (p.node_id, p.allowed_ips)

abbrev pub more_traffic : SubnetRouteModel → PeerConfig → Text × List Text
more_traffic route p = (p.node_id, p.allowed_ips ++ gained route p.node_id)

module _ (route : SubnetRouteModel) (uuid : Text) (now : ℕ) (db : Database)
    (target : NodeModel) where
  abbrev active : List SubnetRoute → List SubnetRoute
  active = filter (is_active target.network_id)

  allowed_ips-added :
      (p : NodeModel)
      → target.network_id ≡ codes "net-pymesh"
      → allowed_ips (route_map_from [] (active (db.routes ++ new_route route uuid now ∷ []))) p
        ≡ allowed_ips (route_map_from [] (active db.routes)) p ++ gained route p.id
  allowed_ips-added p e =
      allowed_ips-routes (active (db.routes ++ new_route route uuid now ∷ [])) p
      ∙ ap (λ l. (p.mesh_ipv4 ++ codes "/32") ∷ (p.mesh_ipv6 ++ codes "/128") ∷ l)
          (ap (prefixes_via p.id)
              (filter-snoc (is_active target.network_id) db.routes (new_route route uuid now))
            ∙ prefixes_via-append p.id (active db.routes) _
            ∙ ap (λ l. prefixes_via p.id (active db.routes) ++ l)
                (prefixes_via-new route uuid now p.id target.network_id e))
      ∙ ap (λ l. l ++ gained route p.id) (sym (allowed_ips-routes (active db.routes) p))

  traffic-added :
      (rows : List NodeModel)
      → target.network_id ≡ codes "net-pymesh"
      → map traffic (
          map
            (peer_config (route_map_from [] (active (db.routes ++ new_route route uuid now ∷ []))))
            rows)
        ≡ map (more_traffic route) (map (peer_config (route_map_from [] (active db.routes))) rows)
  unfolding peer_config
  traffic-added [] e = refl
  traffic-added (p ∷ rows) e =
      ap
        (λ l.
          (p.id, l)
          ∷ map traffic (
              map
                (peer_config
                  (route_map_from [] (active (db.routes ++ new_route route uuid now ∷ []))))
                rows))
        (allowed_ips-added p e)
      ∙ ap
          (λ l.
            (p.id, allowed_ips (route_map_from [] (active db.routes)) p ++ gained route p.id) ∷ l)
          (traffic-added rows e)

  -- A route whose id is not taken is added: then every node of the network is told the same peers
  -- as before, in the same order, and the same of the traffic for each of them; but if the route is
  -- enabled, its prefix stands behind the traffic for the node that it goes through.
  pub add_route-allowed_ips :
      any (route_clash (new_route route uuid now)) db.routes ≡ false
      → target.network_id ≡ codes "net-pymesh"
      → map traffic (config_of target (add_route route uuid now db).1).peers
        ≡ map (more_traffic route) (config_of target db).peers
  unfolding config_of
  add_route-allowed_ips free e =
      ap (λ d. map traffic (config_of target d).peers)
        (ap (λ r. r.1) (add_route-free route uuid now db free))
      ∙ traffic-added (filter (is_peer target) db.nodes) e
