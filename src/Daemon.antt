-- ===== src/Daemon.antt =====
-- pymesh/daemon/lifecycle.py and pymesh/daemon/state.py: the daemon of a node. What the controller
-- answers, the addresses that are found, and the time are arguments.
pub mod Endpoints
pub mod Rounds
pub mod Life
pub mod Stopping
pub mod Recovery
mod Tests
use pymesh.Base.{
  ℕ, Bool, true, false, not, ◌||◌, Option, none, some, List, [], ◌∷◌, ◌++◌, map, if◌then◌else◌,
  ◌==◌, text_eq, filter, is_empty,
}
use pymesh.Base.Text.{Text, codes}
use pymesh.Base.Dict.{Dict, insert}
use pymesh.Base.Result.{Result, ok, raise}
use pymesh.Identity.{NodeIdentity, IdentityFile, load_identity}
use pymesh.Controller.Nodes.{HeartbeatRequest}
use pymesh.Controller.Peers.{PeerConfig, RouteInfo, NetworkConfigResponse}
use pymesh.Dns.Magic.{update_records}
use pymesh.Dns.Server.Sockets
use pymesh.Dns.Server.Sockets.{Socket, start_magic}
use pymesh.Networking.{Command, Outcome, Netlink}
use pymesh.Networking.WireGuard.{
  WgPeer, through_pyroute2, Manager, Peer, Effect, create_interface, configure_interface,
  sync_peers,
}
use pymesh.Networking.Links.{assign_addresses}
use pymesh.Networking.Hosts.{sync_hosts_file, remove_hosts_file}

-- the machine that the daemon runs on
pub record World : Type 0 where
  pub net : Netlink
  pub run : Command → Outcome
  -- is `wg` installed, and what pyroute2 makes of a list of peers
  pub wg_tool : Bool
  pub by_pyroute2 : List WgPeer → Bool
  -- which ports the resolver can bind, and is `resolvectl` installed
  pub dns_binds : ℕ → Bool
  pub resolvectl : Bool
  -- the temporary file for the private key
  pub key_file : Option Text
  -- what `re.sub` makes of a replacement, and whether /etc/hosts can be written
  pub expand : Text → Option Text
  pub hosts_writable : Bool
  -- the host of a URL
  pub host_of : Text → Option Text

-- `DaemonState`
pub record DaemonState : Type 0 where
  pub is_running : Bool
  pub identity : Option NodeIdentity
  pub config : Option NetworkConfigResponse
  pub peers : List PeerConfig
  pub nat_type : Text
  pub last_sync : Option ℕ
  pub rx_bytes : ℕ
  pub tx_bytes : ℕ

-- `DaemonLifecycle`, with the records of its resolver and the file /etc/hosts. `looping` tells
-- whether the task of the loop was made.
pub record Daemon : Type 0 where
  pub running : Bool
  pub looping : Bool
  pub state : DaemonState
  pub wg_manager : Manager
  pub dns_server : Socket
  pub dns_records : Dict Text
  pub hosts_file : Option Text

abbrev pub interface_name : Text
interface_name = codes "pymesh0"

unfoldable pub new_daemon : Option Text → Daemon
new_daemon hosts_file = record {
  running = false;
  looping = false;
  state = record {
    is_running = false;
    identity = none;
    config = none;
    peers = [];
    nat_type = codes "Unknown";
    last_sync = none;
    rx_bytes = 0;
    tx_bytes = 0;
  };
  wg_manager = record { interface_name = interface_name; dry_run = false };
  dns_server = record { bind_host = codes "127.0.0.1"; bind_port = 5353; is_open = false };
  dns_records = [];
  hosts_file = hosts_file;
}

abbrev pub mark_running : Bool → Daemon → Daemon
mark_running b d = record d { running = b; state = record d.state { is_running = b } }

abbrev with_identity : World → NodeIdentity → Text → Daemon → Daemon
with_identity w identity nat_type d =
    let made = (create_interface w.net w.run d.wg_manager).0 in
    record d {
      looping = true;
      state = record d.state { identity = some identity; nat_type = nat_type };
      wg_manager =
          (configure_interface w.net w.run w.wg_tool w.key_file made identity.wg_private_key
            identity.listen_port).0;
      dns_server = (start_magic w.dns_binds w.run w.resolvectl d.dns_server).0;
    }

abbrev pub started :
    World → Text → Daemon → Result (Option NodeIdentity) → Daemon × Result (Unit {0})
started w nat_type d (raise e) = (d, raise e)
started w nat_type d (ok none) = (d, ok tt)
started w nat_type d (ok (some identity)) = (with_identity w identity nat_type d, ok tt)

-- `start`, with the files of the three paths and the type of the NAT that is detected
unfoldable pub start : World → List IdentityFile → Text → Daemon → Daemon × Result (Unit {0})
unfolding load_identity
start w files nat_type d = started w nat_type (mark_running true d) (load_identity files)

-- `stop`; the link is brought down as well, and nothing depends on whether that succeeds.
unfoldable pub stop : World → Daemon → Daemon
stop w d = record (mark_running false d) {
  dns_server = Sockets.stop d.dns_server;
  hosts_file = (remove_hosts_file w.hosts_writable d.hosts_file).0;
}

-- the answer to the request for the configuration
pub data Fetched : Type 0 where
  -- the request, or the reading of its answer, raises
  unreachable : Fetched
  -- a status other than 200
  refused : Fetched
  config : NetworkConfigResponse → Fetched

-- What a round does to the outside, in the order of the fields: the heartbeat, the identity that is
-- saved, the commands for the addresses, what is done for the peers, the subnets that are routed.
pub record Report : Type 0 where
  pub heartbeat : Option HeartbeatRequest
  pub saved : Option NodeIdentity
  pub link_commands : List Command
  pub peers : Option Effect
  pub routed : List Text

abbrev nothing : Report
nothing = record { heartbeat = none; saved = none; link_commands = []; peers = none; routed = [] }

abbrev pub is_at : Text → Option Text → Bool
is_at s none = false
is_at s (some t) = t == s

abbrev pub is_readdressed : NodeIdentity → NetworkConfigResponse → Bool
is_readdressed identity c =
    not (is_at c.mesh_ipv4 identity.mesh_ipv4) || not (is_at c.mesh_ipv6 identity.mesh_ipv6)

abbrev pub readdress : NodeIdentity → NetworkConfigResponse → NodeIdentity
readdress identity c = record identity {
  mesh_ipv4 = some c.mesh_ipv4;
  mesh_ipv6 = some c.mesh_ipv6;
}

abbrev pub first : List Text → Option Text
first [] = none
first (ep ∷ endpoints) = some ep

-- the dict that WireGuard is told of a peer
unfoldable pub peer_dict : PeerConfig → Peer
peer_dict p = record {
  public_key = p.public_key;
  allowed_ips = some p.allowed_ips;
  endpoint = first p.endpoints;
  persistent_keepalive = some p.persistent_keepalive;
}

-- `dns_records[p.hostname] = p.mesh_ipv4` for each peer
unfoldable pub records_from : Dict Text → List PeerConfig → Dict Text
records_from d [] = d
records_from d (p ∷ peers) = records_from (insert p.hostname p.mesh_ipv4 d) peers

-- the routes that are not through the node itself
abbrev pub routed_prefixes : Text → List RouteInfo → List Text
routed_prefixes node_id routes =
    map (λ r. r.prefix) (filter (λ r. not (r.via_node_id == node_id)) routes)

abbrev apply_state : Text → NodeIdentity → NetworkConfigResponse → ℕ → World → Daemon → Daemon
apply_state url identity c now w d =
    let dns_records = records_from [] c.peers in
    record d {
      state = record d.state {
        identity = some (if is_readdressed identity c then readdress identity c else identity);
        config = some c;
        peers = c.peers;
        last_sync = some now;
      };
      dns_records = update_records dns_records none;
      hosts_file =
          (sync_hosts_file w.expand w.hosts_writable dns_records none (w.host_of url)
            d.hosts_file).0;
    }

abbrev apply_report :
    NodeIdentity → NetworkConfigResponse → HeartbeatRequest → World → Daemon → Report
apply_report identity c hb_req w d = record {
  heartbeat = some hb_req;
  saved = if is_readdressed identity c then some (readdress identity c) else none;
  link_commands = (assign_addresses w.net w.run interface_name c.mesh_ipv4 (some c.mesh_ipv6)).0;
  peers = some (sync_peers w.run w.wg_tool w.by_pyroute2 d.wg_manager (map peer_dict c.peers));
  routed = routed_prefixes identity.node_id c.routes;
}

abbrev after_reply :
    World → Text → NodeIdentity → HeartbeatRequest → ℕ → Daemon → Fetched → Daemon × Report
after_reply w url identity hb_req now d unreachable =
    (d, record nothing { heartbeat = some hb_req })
after_reply w url identity hb_req now d refused = (d, record nothing { heartbeat = some hb_req })
after_reply w url identity hb_req now d (config c) =
    (apply_state url identity c now w d, apply_report identity c hb_req w d)

-- What the daemon finds before a round and hears in it: its endpoints, whether the heartbeat could
-- be posted, and the answer to the second request.
pub record Heard : Type 0 where
  pub endpoints : List Text
  pub posted : Bool
  pub fetched : Fetched
  pub now : ℕ

abbrev heartbeat_of : NodeIdentity → List Text → Text → HeartbeatRequest
heartbeat_of identity endpoints nat_type = record {
  node_id = identity.node_id;
  endpoints = endpoints;
  nat_type = nat_type;
  rx_bytes = 0;
  tx_bytes = 0;
}

abbrev with_url : World → Heard → NodeIdentity → Daemon → Option Text → Daemon × Report
with_url w h identity d none = (d, nothing)
with_url w h identity d (some []) = (d, nothing)
with_url w h identity d (some (c ∷ url)) =
    let hb_req = heartbeat_of identity h.endpoints d.state.nat_type in
    if h.posted
    then after_reply w (c ∷ url) identity hb_req h.now d h.fetched
    else (d, record nothing { heartbeat = some hb_req })

abbrev sync_as : World → Heard → Daemon → Option NodeIdentity → Daemon × Report
sync_as w h d none = (d, nothing)
sync_as w h d (some identity) = with_url w h identity d identity.controller_url

-- One round of the loop; an exception in it ends it, and the loop goes on.
unfoldable pub sync_with_controller : World → Heard → Daemon → Daemon × Report
sync_with_controller w h d = sync_as w h d d.state.identity
