-- ===== src/Console/Dashboard/Tests.antt =====
-- A dashboard over a controller with two nodes, and the laws at it.
use pymesh.Base.{
  ◌≡◌, refl, true, not, some, List, [], ◌∷◌, ◌++◌, map, ◌==◌, text_eq, filter, All, list_beq, any,
}
use pymesh.Base.Text.{Text, codes}
use pymesh.Base.Decimal
use pymesh.Allocator.{Ipv6}
use pymesh.Controller.Models.{Database, empty_database, NodeModel}
use pymesh.Controller.Nodes.{has_id, new_node}
use pymesh.Controller.Views.{node_view}
use pymesh.Console.Canvas.{render_canvas}
use pymesh.Console.Dashboard.{
  Dashboard, Answers, heard, Event, load, set_tool, click, apply_subnet, delete, new_dashboard,
  handle_node_click, react_all,
}
use pymesh.Console.Dashboard.Fresh.{IsFresh, Refreshed, dashboard-IsFresh, handle_node_click-delete}

abbrev numbers_v6 : Ipv6
numbers_v6 = record {
  parse_network = λ s. some 0;
  show = Decimal.show;
  show_injective = λ m n _ _ e. Decimal.show-injective m n e;
}

abbrev named : Text → Text → NodeModel
named s v4 =
    new_node
      (record {
        hostname = s;
        public_key = s;
        listen_port = 51820;
        os = codes "linux";
        version = codes "1.0";
        endpoints = [];
        tags = [];
      })
      1 s (codes "net-pymesh") v4 v4

abbrev app : NodeModel
app = named (codes "app") (codes "100.64.0.2")

abbrev two_nodes : Database
two_nodes = record empty_database { nodes = app ∷ named (codes "db") (codes "100.64.0.3") ∷ [] }

abbrev yes : Answers
yes = record { confirmed = true; request = heard; refreshed = true }

abbrev events : List Event
events = set_tool delete ∷ click yes (node_view app) ∷ apply_subnet 3 yes ∷ []

all-Refreshed : All Refreshed events
all-Refreshed = (tt, ((refl, λ e. cc), ((refl, λ e. cc), tt)))

dashboard-IsFresh_example :
    IsFresh
      (react_all numbers_v6 (load true ∷ events) new_dashboard two_nodes).0
      (react_all numbers_v6 (load true ∷ events) new_dashboard two_nodes).1
dashboard-IsFresh_example = dashboard-IsFresh numbers_v6 events two_nodes all-Refreshed

abbrev deleting : Dashboard
deleting = record new_dashboard {
  nodes_data = map node_view two_nodes.nodes;
  packet_canvas = render_canvas (map node_view two_nodes.nodes);
  active_tool = delete;
}

handle_node_click-delete_example :
    ((handle_node_click yes (node_view app) deleting two_nodes).1
      ≡ record two_nodes { nodes = filter (λ n. not (has_id (codes "app") n)) two_nodes.nodes })
    × ((handle_node_click yes (node_view app) deleting two_nodes).0.nodes_data
        ≡ filter (λ v. not (v.id == codes "app")) deleting.nodes_data)
    × ((handle_node_click yes (node_view app) deleting two_nodes).0.alerts
        ≡ (codes "Node " ++ (codes "app" ++ codes " deleted.")) ∷ deleting.alerts)
unfolding node_view any list_beq
handle_node_click-delete_example =
    handle_node_click-delete yes (node_view app) deleting two_nodes
      (record { nodes = refl; canvas = refl }) refl refl refl refl refl
