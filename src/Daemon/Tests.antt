-- ===== src/Daemon/Tests.antt =====
-- A daemon of the node `app`, a controller that knows one other node, and the laws at them.
use pymesh.Base.{
  inr, ◌==◌, nat_eq, list_beq, ◌≡◌, refl, true, false, none, some, List, [], ◌∷◌, ◌++◌, filter,
}
use pymesh.Base.Text.{Text, codes}
use pymesh.Base.Result.{ok}
use pymesh.Identity.{NodeIdentity, IdentityFile, missing, unreadable, stored, load, load_identity}
use pymesh.Controller.Models.{Database, empty_database, Network, NodeModel}
use pymesh.Controller.Nodes.{new_network, NodeRegistrationRequest, new_node}
use pymesh.Controller.Peers.{config_of}
use pymesh.Controller.Peers.Laws.{prefixes_via}
use pymesh.Networking.{Command, finished}
use pymesh.Networking.WireGuard.{create_interface, configure_interface}
use pymesh.Daemon.{
  World, Daemon, Heard, config, unreachable, start, stop, new_daemon, sync_with_controller,
}
use pymesh.Daemon.Rounds.{IsInStep, Answered, IsTold, peer_words, end, told, passed, round-mesh}
use pymesh.Daemon.Life.{
  waiting, syncing, begin, finish, halt, here, after, Reach, IsConsistent, life-IsConsistent,
}
use pymesh.Daemon.Stopping.{Stays, stop-Stays}
use pymesh.Daemon.Recovery.{IsAsking, rounds, start-recovers}

abbrev identity : NodeIdentity
identity = record {
  node_id = codes "key";
  hostname = codes "app";
  identity_private_key = codes "p";
  identity_public_key = codes "q";
  wg_private_key = codes "r";
  wg_public_key = codes "key";
  mesh_ipv4 = some (codes "100.64.9.9");
  mesh_ipv6 = none;
  controller_url = some (codes "http://c");
  auth_token = none;
  listen_port = 51820;
  os = codes "linux";
  version = codes "1.0";
  endpoints = [];
}

abbrev net : Network
net = new_network (codes "pymesh") 1

abbrev request : Text → NodeRegistrationRequest
request hostname = record {
  hostname = hostname;
  public_key = codes "key";
  listen_port = 51820;
  os = codes "linux";
  version = codes "1.0";
  endpoints = codes "1.2.3.4:51820" ∷ [];
  tags = [];
}

abbrev app : NodeModel
app = new_node (request (codes "app")) 5 (codes "key") net.id (codes "100.64.0.2") (codes "fd00::2")

abbrev db_node : NodeModel
db_node =
    new_node (request (codes "db")) 6 (codes "other") net.id (codes "100.64.0.3") (codes "fd00::3")

abbrev tables : Database
tables = record empty_database { networks = net ∷ []; nodes = app ∷ db_node ∷ [] }

abbrev world : World
world = record {
  net = record {
    link_lookup = λ name. none;
    link_add = λ name. false;
    link_set = λ idx state. false;
    route = λ op dst idx. false;
    wg_set = λ name key port. false;
  };
  run = λ cmd. finished 0 [];
  wg_tool = true;
  by_pyroute2 = λ peers. false;
  dns_binds = λ port. port == 5353;
  resolvectl = true;
  key_file = some (codes "/tmp/key");
  expand = some;
  hosts_writable = true;
  host_of = λ url. some (codes "c");
}

abbrev files : List IdentityFile
files = missing ∷ stored identity ∷ unreadable ∷ []

files-load : load_identity files ≡ ok (some identity)
unfolding load_identity load
files-load = refl

-- a round in which nothing is heard, and one in which the controller answers
abbrev silence : Heard
silence = record { endpoints = []; posted = false; fetched = unreachable; now = 8 }

abbrev answer : Heard
answer = record { endpoints = []; posted = true; fetched = config (config_of app tables); now = 9 }

abbrev fresh : Daemon
fresh = (start world files (codes "NAT") (new_daemon none)).0

abbrev asked : Daemon
asked = (sync_with_controller world answer fresh).0

fresh-runs :
    (fresh.running ≡ true) × (fresh.looping ≡ true) × (fresh.state.identity ≡ some identity)
unfolding start new_daemon load_identity load
fresh-runs = (refl, refl, refl)

fresh-Answered : Answered fresh answer (config_of app tables)
fresh-Answered = record {
  identity = identity;
  known = fresh-runs.2;
  url_head = b'h';
  url_tail = codes "ttp://c";
  joined = refl;
  posted = refl;
  fetched = refl;
}

-- a round that is answered, and another in the middle of which the daemon is stopped
interrupted : Reach world fresh waiting (stop world asked) waiting
unfolding sync_with_controller start
interrupted =
    after _ _ _ _ _ _
      (after _ _ _ _ _ _
        (after _ _ _ _ _ _
          (after _ _ _ _ _ _ (here fresh waiting) (begin fresh fresh-runs.0 fresh-runs.1))
          (finish fresh answer))
        (begin asked refl refl))
      (halt asked syncing)

life-IsConsistent_example : IsConsistent (stop world asked)
life-IsConsistent_example =
    life-IsConsistent world files (codes "NAT") none (stop world asked) waiting interrupted

stop-Stays_example : Stays asked (stop world (stop world asked)) waiting
stop-Stays_example =
    stop-Stays world asked (stop world (stop world asked)) waiting
      (after _ _ _ _ _ _ (here (stop world asked) waiting) (halt (stop world asked) waiting))

start-recovers_example :
    IsInStep (config_of app tables) (rounds world ((silence ∷ silence ∷ []) ++ answer ∷ []) fresh)
    × IsAsking (codes "http://c") (rounds world ((silence ∷ silence ∷ []) ++ answer ∷ []) fresh)
start-recovers_example =
    start-recovers world files (codes "NAT") (new_daemon none) identity b'h' (codes "ttp://c")
      files-load refl (silence ∷ silence ∷ []) answer (config_of app tables) refl refl

fresh-live : fresh.wg_manager.dry_run ≡ false
unfolding start new_daemon load_identity load create_interface configure_interface
fresh-live = refl

abbrev commands : List Command
commands = peer_words (codes "pymesh0") db_node [] ∷ []

told_all : IsTold fresh.wg_manager.interface_name app tables.routes tables.nodes commands
unfolding list_beq start prefixes_via configure_interface filter create_interface new_daemon
told_all = passed (inr refl) (told refl (λ e. cc) end)

round-mesh_example :
    (sync_with_controller world answer fresh).1.peers
    ≡ some (record { commands = commands; handed = none; answer = true })
round-mesh_example =
    round-mesh world answer fresh app tables commands fresh-Answered refl fresh-live told_all
      (refl, tt)
