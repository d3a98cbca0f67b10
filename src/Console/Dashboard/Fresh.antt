-- ===== src/Console/Dashboard/Fresh.antt =====
-- The dashboard (pymesh/controller/web.py) shows the nodes that the controller has.
use pymesh.Base.{
  ℕ, ◌≡◌, ◌≢◌, refl, ap, ◌∙◌, sym, Bool, true, false, not, none, some, List, [], ◌∷◌, map, ◌==◌,
  text_eq, Option-cases, is_empty, get_elem?, ◌++◌, filter, any, All, Bool-cases, inl, inr,
}
use pymesh.Base.Text.{Text, codes}
use pymesh.Base.Result.{Result, ok, raise}
use pymesh.Allocator.{Ipv6}
use pymesh.Controller.Models.{Database, NodeModel}
use pymesh.Controller.Nodes.{has_id, list_nodes, delete_node}
use pymesh.Controller.Nodes.Lookups.{delete_node_lem}
use pymesh.Controller.Subnet.{SubnetUpdate, update_network_subnet}
use pymesh.Controller.Views.{NodeView, node_view, show_nodes, all_nodes}
use pymesh.Console.Canvas.{render_canvas}
use pymesh.Console.Dashboard.{
  Dashboard, Answers, Event, load, resize, refresh, set_tool, switch_category, click,
  open_subnet_modal, close_subnet_modal, type_prefixes, apply_subnet, fire, new_dashboard,
  fetch_network_data, take_deletion, take_subnet, Delivery, lost, unheard, heard, handle_node_click,
  Tool, delete, inspect, submit_subnet_change, fire_packet_simulation, react, react_all,
}
use pymesh.Console.Dashboard.Unmoved.{Unmoved, update_network_subnet-Unmoved}

-- The page has the nodes of the controller's table, in their order, and they are what is drawn.
pub record IsFresh (p : Dashboard) (db : Database) : Type 0 where
  pub nodes : p.nodes_data ≡ map node_view db.nodes
  pub canvas : p.packet_canvas ≡ render_canvas p.nodes_data

-- no answer to a request that changes something is lost, and after it the nodes can be fetched
abbrev pub Refreshed : Event → Type 0
Refreshed (click a node) = (a.refreshed ≡ true) × (a.request ≢ unheard)
Refreshed (apply_subnet now a) = (a.refreshed ≡ true) × (a.request ≢ unheard)
Refreshed _ = Unit

fetched-IsFresh : (db : Database) (p : Dashboard) → IsFresh (fetch_network_data true db p) db
unfolding fetch_network_data show_nodes list_nodes
fetched-IsFresh db p = record { nodes = ap (map node_view) (all_nodes db.nodes); canvas = refl }

fetch-IsFresh :
    (b : Bool) (db : Database) (p : Dashboard)
    → IsFresh p db
    → IsFresh (fetch_network_data b db p) db
unfolding fetch_network_data
fetch-IsFresh true db p f = fetched-IsFresh db p
fetch-IsFresh false db p f = f

deleted :
    (id : Text) (db : Database)
    → any (has_id id) db.nodes ≡ true
    → delete_node id db ≡ (ok id, record db { nodes = filter (λ n. not (has_id id n)) db.nodes })
unfolding delete_node
deleted id db e = rw e refl

deletion-IsFresh :
    (b : Bool) (node : NodeView) (p : Dashboard) (db : Database)
    → b ≡ true
    → IsFresh p db
    → IsFresh
        (take_deletion b node (delete_node node.id db) p).0
        (take_deletion b node (delete_node node.id db) p).1
deletion-IsFresh b node p db refreshed f = elim (Bool-cases (any (has_id node.id) db.nodes)) [
  | inl e ↦ rw (deleted node.id db e, refreshed) (fetched-IsFresh _ _)
  | inr e ↦ rw ((delete_node_lem node.id db).1 e) f
]

subnet-IsFresh :
    (b : Bool) (v4 v6 : Text) (r : Result SubnetUpdate × Database) (p : Dashboard) (db : Database)
    → b ≡ true
    → Unmoved db.nodes r
    → IsFresh p db
    → IsFresh (take_subnet b v4 v6 r p).0 (take_subnet b v4 v6 r p).1
subnet-IsFresh b v4 v6 (ok u, db₁) p db refreshed same f = rw refreshed (fetched-IsFresh db₁ _)
subnet-IsFresh b v4 v6 (raise e, db₁) p db refreshed same f = record {
  nodes = f.nodes ∙ ap (map node_view) (sym same);
  canvas = f.canvas;
}

click-IsFresh :
    (a : Answers) (node : NodeView) (p : Dashboard) (db : Database)
    → a.refreshed ≡ true
    → a.request ≢ unheard
    → IsFresh p db
    → IsFresh (handle_node_click a node p db).0 (handle_node_click a node p db).1
unfolding handle_node_click
click-IsFresh a node p db refreshed answered f = at p.active_tool refl
  where
    chosen :
        (b : Bool) (c : Delivery)
        → a.confirmed ≡ b
        → a.request ≡ c
        → p.active_tool ≡ delete
        → IsFresh (handle_node_click a node p db).0 (handle_node_click a node p db).1
    chosen false c e e' t = rw (t, e, handle_node_click) f
    chosen true lost e e' t =
        rw (t, e, e', handle_node_click) (record { nodes = f.nodes; canvas = f.canvas })
    chosen true unheard e e' t = absurd (answered e')
    chosen true heard e e' t =
        rw (t, e, e', handle_node_click) (deletion-IsFresh a.refreshed node p db refreshed f)

    at :
        (t : Tool)
        → p.active_tool ≡ t
        → IsFresh (handle_node_click a node p db).0 (handle_node_click a node p db).1
    at delete t = chosen a.confirmed a.request refl refl t
    at inspect t = rw (t, handle_node_click) (record { nodes = f.nodes; canvas = f.canvas })
    at Tool.select t = rw (t, handle_node_click) (record { nodes = f.nodes; canvas = f.canvas })

change-IsFresh :
    (v6 : Ipv6) (now : ℕ) (a : Answers) (p : Dashboard) (db : Database)
    → a.refreshed ≡ true
    → a.request ≢ unheard
    → IsFresh p db
    → IsFresh (submit_subnet_change v6 now a p db).0 (submit_subnet_change v6 now a p db).1
unfolding submit_subnet_change
change-IsFresh v6 now a p db refreshed answered f = at a.request refl
  where
    at :
        (c : Delivery)
        → a.request ≡ c
        → IsFresh (submit_subnet_change v6 now a p db).0 (submit_subnet_change v6 now a p db).1
    at lost e = rw (e, submit_subnet_change) (record { nodes = f.nodes; canvas = f.canvas })
    at unheard e = absurd (answered e)
    at heard e =
        rw (e, submit_subnet_change)
          (subnet-IsFresh a.refreshed p.input_v4 p.input_v6
            (update_network_subnet v6 p.input_v4 (some p.input_v6) now db)
            (record p { sub_error = none }) db refreshed
            (update_network_subnet-Unmoved v6 p.input_v4 (some p.input_v6) now db)
            (record { nodes = f.nodes; canvas = f.canvas }))

react-IsFresh :
    (v6 : Ipv6) (e : Event) (p : Dashboard) (db : Database)
    → Refreshed e
    → IsFresh p db
    → IsFresh (react v6 e p db).0 (react v6 e p db).1
unfolding react submit_subnet_change fire_packet_simulation
react-IsFresh v6 (load b) p db w f =
    let g = fetch-IsFresh b db p f in record { nodes = g.nodes; canvas = g.canvas }
react-IsFresh v6 resize p db w f = record { nodes = f.nodes; canvas = refl }
react-IsFresh v6 (refresh b) p db w f = fetch-IsFresh b db p f
react-IsFresh v6 (set_tool t) p db w f = record { nodes = f.nodes; canvas = f.canvas }
react-IsFresh v6 (switch_category c) p db w f = record { nodes = f.nodes; canvas = f.canvas }
react-IsFresh v6 (click a node) p db w f = click-IsFresh a node p db w.0 w.1 f
react-IsFresh v6 open_subnet_modal p db w f = record { nodes = f.nodes; canvas = f.canvas }
react-IsFresh v6 close_subnet_modal p db w f = record { nodes = f.nodes; canvas = f.canvas }
react-IsFresh v6 (type_prefixes x y) p db w f = record { nodes = f.nodes; canvas = f.canvas }
react-IsFresh v6 (apply_subnet now a) p db w f = change-IsFresh v6 now a p db w.0 w.1 f
react-IsFresh v6 (fire k) p db w f = elim (Bool-cases (is_empty p.nodes_data)) [
  | inl e ↦ rw (e, fire_packet_simulation) (record { nodes = f.nodes; canvas = f.canvas })
  | inr e ↦ elim (Option-cases (get_elem? p.nodes_data k)) [
    | inl g ↦ rw (e, g, fire_packet_simulation) f
    | inr (n, g) ↦ rw (e, g, fire_packet_simulation) (record { nodes = f.nodes; canvas = f.canvas })
  ]
]

react_all-IsFresh :
    (v6 : Ipv6) (events : List Event) (p : Dashboard) (db : Database)
    → All Refreshed events
    → IsFresh p db
    → IsFresh (react_all v6 events p db).0 (react_all v6 events p db).1
unfolding react_all
react_all-IsFresh v6 [] p db ws f = f
react_all-IsFresh v6 (e ∷ events) p db (w, ws) f =
    react_all-IsFresh v6 events (react v6 e p db).0 (react v6 e p db).1 ws
      (react-IsFresh v6 e p db w f)

-- Once the page was loaded and its first request was answered, whatever its user does, it has the
-- nodes of the controller's table in their order, and the canvas is drawn of them: whichever
-- requests do not reach the controller, are refused or are not confirmed. The conditions are that
-- no other client changes the nodes, that the answer to a deletion or a change of the subnet which
-- the controller served is not lost, that the nodes can be fetched after it, and that each request
-- of the page ends before the next event.
pub dashboard-IsFresh :
    (v6 : Ipv6) (events : List Event) (db : Database)
    → All Refreshed events
    → IsFresh
        (react_all v6 (load true ∷ events) new_dashboard db).0
        (react_all v6 (load true ∷ events) new_dashboard db).1
unfolding react_all react
dashboard-IsFresh v6 events db ws =
    let f = fetched-IsFresh db new_dashboard in
    react_all-IsFresh v6 events _ db ws (record { nodes = f.nodes; canvas = f.canvas })

map-filter_id :
    (id : Text) (rows : List NodeModel)
    → map node_view (filter (λ n. not (has_id id n)) rows)
      ≡ filter (λ v. not (v.id == id)) (map node_view rows)
unfolding filter node_view
map-filter_id id [] = refl
map-filter_id id (n ∷ rows) = elim (Bool-cases (has_id id n)) [
  | inl e ↦ rw e (map-filter_id id rows)
  | inr e ↦ rw e (ap (λ l. node_view n ∷ l) (map-filter_id id rows))
]

any-view :
    (id : Text) (rows : List NodeModel)
    → any (λ v. v.id == id) (map node_view rows) ≡ any (has_id id) rows
unfolding any node_view
any-view id [] = refl
any-view id (n ∷ rows) = rw (any-view id rows) refl

-- Let the page have exactly the nodes of the controller's table, in their order, and draw them. A
-- click with the delete tool on one of them, confirmed and with both requests answered, deletes the node at the controller and says so; the page then has the others, in their
-- order, and the node not any more.
pub handle_node_click-delete :
    (a : Answers) (node : NodeView) (p : Dashboard) (db : Database)
    → IsFresh p db
    → p.active_tool ≡ delete
    → a.confirmed ≡ true
    → a.request ≡ heard
    → a.refreshed ≡ true
    → any (λ v. v.id == node.id) p.nodes_data ≡ true
    → ((handle_node_click a node p db).1
        ≡ record db { nodes = filter (λ n. not (has_id node.id n)) db.nodes })
      × ((handle_node_click a node p db).0.nodes_data
          ≡ filter (λ v. not (v.id == node.id)) p.nodes_data)
      × ((handle_node_click a node p db).0.alerts
          ≡ (codes "Node " ++ (node.hostname ++ codes " deleted.")) ∷ p.alerts)
unfolding handle_node_click fetch_network_data show_nodes list_nodes
handle_node_click-delete a node p db f tool confirmed reached refreshed there =
    let e : any (has_id node.id) db.nodes ≡ true =
      sym (any-view node.id db.nodes) ∙ ap (any (λ v. v.id == node.id)) (sym f.nodes) ∙ there in
    rw (tool, confirmed, reached, handle_node_click, deleted node.id db e, refreshed)
      (
        refl,
        ap (map node_view) (all_nodes _)
            ∙ map-filter_id node.id db.nodes
            ∙ ap (filter (λ v. not (v.id == node.id))) (sym f.nodes),
        refl,
      )
