-- ===== src/Controller/Routes.antt =====
-- The handlers of pymesh/controller/api.py for subnet routes.
pub mod Laws
use pymesh.Base.{
  ℕ, Bool, not, Option, none, some, List, [], ◌∷◌, ◌++◌, map, if◌then◌else◌, is_empty, filter, ◌==◌,
  text_eq,
}
use pymesh.Base.Text.{Text, codes}
use pymesh.Base.Result.{Result, ok, raise}
use pymesh.Controller.Models.{Database, SubnetRoute, route_clash}
use pymesh.Controller.Action.{Action, pure, select, modify, ◌>>=◌, ◌>>◌, insert_row}
use pymesh.Controller.Rules.{or_generated}

-- `SubnetRouteModel` (pymesh/protocol/messages.py)
pub record SubnetRouteModel : Type 0 where
  pub id : Option Text
  pub prefix : Text
  pub via_node_id : Text
  pub advertised_by : Text
  pub enabled : Bool

unfoldable pub route_model : SubnetRoute → SubnetRouteModel
route_model r = record {
  id = some r.id;
  prefix = r.prefix;
  via_node_id = r.via_node_id;
  advertised_by = r.advertised_by;
  enabled = r.enabled;
}

-- GET /routes
unfoldable pub list_routes : Action (List SubnetRouteModel)
list_routes = select (λ db. map route_model db.routes)

unfoldable pub add_row : SubnetRoute → Action (Unit {0})
add_row r db = elim (insert_row route_clash r db.routes) [
  | ok rows ↦ (ok tt, record db { routes = rows })
  | raise e ↦ (raise e, db)
]

abbrev pub new_route : SubnetRouteModel → Text → ℕ → SubnetRoute
new_route route uuid now = record {
  id = or_generated route.id (codes "route-" ++ uuid);
  network_id = codes "net-pymesh";
  prefix = route.prefix;
  via_node_id = route.via_node_id;
  advertised_by = route.advertised_by;
  enabled = route.enabled;
  created_at = now;
}

-- POST /routes
unfoldable pub add_route : SubnetRouteModel → Text → ℕ → Action SubnetRouteModel
unfolding ◌>>=◌
add_route route uuid now = do
  add_row (new_route route uuid now)
  pure (route_model (new_route route uuid now))

abbrev pub has_route_id : Text → SubnetRoute → Bool
has_route_id route_id r = r.id == route_id

-- DELETE /routes/{route_id}, which answers alike whether the route is there or not
unfoldable pub delete_route : Text → Action Text
unfolding ◌>>=◌
delete_route route_id = do
  modify (λ db. record db { routes = filter (λ r. not (has_route_id route_id r)) db.routes })
  pure route_id
