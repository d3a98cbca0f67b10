-- ===== src/Console/Dashboard.antt =====
-- The script of the dashboard (pymesh/controller/web.py): what the page holds, and what its buttons
-- do with it and, by the handlers of pymesh/controller/api.py, with the controller. A request that
-- does not reach the controller changes nothing there.
mod Unmoved
pub mod Fresh
mod Tests
use pymesh.Base.{
  ℕ, Bool, true, false, Option, none, some, List, [], ◌∷◌, ◌++◌, if◌then◌else◌, ◌==◌, nat_eq,
  get_elem?, is_empty,
}
use pymesh.Base.Text.{Text, codes}
use pymesh.Base.Decimal.{show}
use pymesh.Base.Result.{Result, ok, raise, Exception, http}
use pymesh.Allocator.{Ipv6}
use pymesh.Controller.Models.{Database}
use pymesh.Controller.Nodes.{delete_node}
use pymesh.Controller.Subnet.{SubnetUpdate, update_network_subnet}
use pymesh.Controller.Views.{NodeView, show_nodes}
use pymesh.Console.Carousel.{Category, routers, render_carousel}
use pymesh.Console.Canvas.{Shape, render_canvas, node_details, pdu_row, first_row}

pub data Tool : Type 0 where
  select : Tool
  inspect : Tool
  delete : Tool

-- the variables of the script, and the parts of the document that it changes
pub record Dashboard : Type 0 where
  pub nodes_data : List NodeView
  pub active_tool : Tool
  pub selected_node : Option NodeView
  pub packet_canvas : List Shape
  pub node_details : Option Text
  pub carousel_content : Text
  pub sub_v4 : Text
  pub sub_v6 : Text
  pub input_v4 : Text
  pub input_v6 : Text
  pub sub_error : Option Text
  pub subnet_modal : Bool
  pub pdu_list : List Text
  pub alerts : List Text

-- the page as it is sent
unfoldable pub new_dashboard : Dashboard
unfolding first_row
new_dashboard = record {
  nodes_data = [];
  active_tool = select;
  selected_node = none;
  packet_canvas = [];
  node_details = none;
  carousel_content = [];
  sub_v4 = codes "100.64.0.0/10";
  sub_v6 = codes "fd00:7079:6d65::/48";
  input_v4 = codes "100.64.0.0/10";
  input_v6 = codes "fd00:7079:6d65::/48";
  sub_error = none;
  subnet_modal = false;
  pdu_list = first_row ∷ [];
  alerts = [];
}

abbrev pub alert : Text → Dashboard → Dashboard
alert text p = record p { alerts = text ∷ p.alerts }

-- the canvas for the nodes that the page has
abbrev pub redraw : Dashboard → Dashboard
redraw p = record p { packet_canvas = render_canvas p.nodes_data }

abbrev pub take_nodes : Result (List NodeView) → Dashboard → Dashboard
take_nodes (ok nodes) p = redraw (record p { nodes_data = nodes })
take_nodes (raise e) p = p

unfoldable pub fetch_network_data : Bool → Database → Dashboard → Dashboard
unfolding show_nodes
fetch_network_data reached db p = if reached then take_nodes (show_nodes db).0 p else p

-- what comes of `res` of the request that deletes, and the tables behind it
abbrev pub take_deletion :
    Bool → NodeView → Result Text × Database → Dashboard → Dashboard × Database
take_deletion refreshed node (ok _, db) p = (
  fetch_network_data refreshed db (alert (codes "Node " ++ (node.hostname ++ codes " deleted.")) p),
  db,
)
take_deletion refreshed node (raise e, db) p = (p, db)

-- A request that changes something is lost before the controller serves it, or the controller serves
-- it and its answer is lost, or the page hears the answer.
pub data Delivery : Type 0 where
  lost : Delivery
  unheard : Delivery
  heard : Delivery

-- Whether the question is answered with yes, what becomes of the request that changes something, and
-- whether the nodes can be fetched after it. The page does not wait for that last request; here it
-- ends before the next event.
pub record Answers : Type 0 where
  pub confirmed : Bool
  pub request : Delivery
  pub refreshed : Bool

unfoldable pub handle_node_click : Answers → NodeView → Dashboard → Database → Dashboard × Database
unfolding delete_node
handle_node_click a node p db = elim p.active_tool [
  | delete ↦
      if a.confirmed
      then elim a.request [
        | lost ↦ (alert (codes "Error deleting node") p, db)
        | unheard ↦ (alert (codes "Error deleting node") p, (delete_node node.id db).1)
        | heard ↦ take_deletion a.refreshed node (delete_node node.id db) p
      ]
      else (p, db)
  | _ ↦ (record p { selected_node = some node; node_details = some (node_details node) }, db)
]

abbrev pub show_error : Text → Dashboard → Dashboard
show_error text p = record p { sub_error = some text }

-- `errData.detail || "Invalid CIDR notation"`. The answer to another exception than HTTPException is
-- no JSON, so that `res.json()` throws.
abbrev pub error_text : Exception → Text
error_text (http code) = codes "Invalid IPv4 or IPv6 CIDR prefix syntax."
error_text e = codes "Connection error"

abbrev pub take_subnet :
    Bool → Text → Text → Result SubnetUpdate × Database → Dashboard → Dashboard × Database
take_subnet refreshed v4 v6 (ok data_, db) p = (
  fetch_network_data refreshed db (
      alert
        (codes "Subnet updated to "
          ++ (v4
              ++ (codes "! "
                  ++ (show data_.nodes_reallocated ++ codes " nodes automatically re-addressed."))))
        (record p { sub_v4 = v4; sub_v6 = v6; subnet_modal = false })),
  db,
)
take_subnet refreshed v4 v6 (raise e, db) p = (show_error (error_text e) p, db)

unfoldable pub submit_subnet_change :
    Ipv6 → ℕ → Answers → Dashboard → Database → Dashboard × Database
unfolding update_network_subnet
submit_subnet_change v6 now a p db =
    let p₁ = record p { sub_error = none } in
    let served = update_network_subnet v6 p.input_v4 (some p.input_v6) now db in
    elim a.request [
      | lost ↦ (show_error (codes "Connection error") p₁, db)
      | unheard ↦ (show_error (codes "Connection error") p₁, served.1)
      | heard ↦ take_subnet a.refreshed p.input_v4 p.input_v6 served p₁
    ]

-- `chosen` is the random index
unfoldable pub fire_packet_simulation : ℕ → Dashboard → Dashboard
unfolding pdu_row
fire_packet_simulation chosen p =
    if is_empty p.nodes_data
    then alert (codes "No connected nodes available for simulation.") p
    else elim (get_elem? p.nodes_data chosen) [
      | none ↦ p
      | some target_node ↦ record p { pdu_list = pdu_row target_node ∷ p.pdu_list }
    ]

-- What the user does. A click on a device of the canvas hands over the node it is drawn for.
pub data Event : Type 0 where
  load : Bool → Event
  resize : Event
  refresh : Bool → Event
  set_tool : Tool → Event
  switch_category : Category → Event
  click : Answers → NodeView → Event
  open_subnet_modal : Event
  close_subnet_modal : Event
  type_prefixes : Text → Text → Event
  apply_subnet : ℕ → Answers → Event
  fire : ℕ → Event

unfoldable pub react : Ipv6 → Event → Dashboard → Database → Dashboard × Database
unfolding fetch_network_data render_carousel handle_node_click submit_subnet_change
react v6 (load reached) p db =
    (record (fetch_network_data reached db p) { carousel_content = render_carousel routers }, db)
react v6 resize p db = (redraw p, db)
react v6 (refresh reached) p db = (fetch_network_data reached db p, db)
react v6 (set_tool tool) p db = (record p { active_tool = tool }, db)
react v6 (switch_category cat) p db = (record p { carousel_content = render_carousel cat }, db)
react v6 (click a node) p db = handle_node_click a node p db
react v6 open_subnet_modal p db = (record p { subnet_modal = true }, db)
react v6 close_subnet_modal p db = (record p { subnet_modal = false }, db)
react v6 (type_prefixes v4 v6_prefix) p db = (record p { input_v4 = v4; input_v6 = v6_prefix }, db)
react v6 (apply_subnet now a) p db = submit_subnet_change v6 now a p db
react v6 (fire chosen) p db = (fire_packet_simulation chosen p, db)

-- the page and the controller after events
unfoldable pub react_all : Ipv6 → List Event → Dashboard → Database → Dashboard × Database
unfolding react
react_all v6 [] p db = (p, db)
react_all v6 (e ∷ events) p db = let (p₁, db₁) = react v6 e p db in react_all v6 events p₁ db₁
