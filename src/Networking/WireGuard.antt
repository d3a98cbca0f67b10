-- ===== src/Networking/WireGuard.antt =====
-- pymesh/networking/wireguard.py: `WireGuardManager`.
use pymesh.Base.{
  ℕ, Bool, true, false, ◌||◌, Option, none, some, List, [], ◌∷◌, ◌++◌, map, if◌then◌else◌, ◌==◌,
  nat_eq, is_empty,
}
use pymesh.Base.Text.{Text, codes, join, has_part, rsplit_once}
use pymesh.Base.Number.{int_of}
use pymesh.Base.Result.{Result, ok, raise, ◌>>=◌}
use pymesh.Base.Decimal.{show}
use pymesh.Networking.{Command, Outcome, raised, finished, succeeded, run_all, Netlink}

pub record Manager : Type 0 where
  pub interface_name : Text
  pub dry_run : Bool

-- the keys of the dict of a peer; `none` is a missing key, or None
pub record Peer : Type 0 where
  pub public_key : Text
  pub allowed_ips : Option (List Text)
  pub endpoint : Option Text
  pub persistent_keepalive : Option ℕ

abbrev go_dry : Manager → Manager
go_dry m = record m { dry_run = true }

abbrev pub created : Manager → Outcome → Manager × Bool
created m raised = (go_dry m, false)
created m (finished code err) =
    if code == 0 || has_part (codes "File exists") err then (m, true) else (go_dry m, false)

abbrev pub add_link : Text → Command
add_link name =
    codes "ip"
    ∷ codes "link"
    ∷ codes "add"
    ∷ codes "dev"
    ∷ name
    ∷ codes "type"
    ∷ codes "wireguard"
    ∷ []

-- the link is there or can be added, by pyroute2
abbrev pub has_link : Netlink → Text → Bool
has_link net name = elim (net.link_lookup name) [
  | none ↦ false
  | some idx ↦ if is_empty idx then net.link_add name else true
]

unfoldable pub create_interface : Netlink → (Command → Outcome) → Manager → Manager × Bool
create_interface net run m =
    if has_link net m.interface_name then (m, true) else created m (run (add_link m.interface_name))

abbrev set_key : Text → ℕ → Text → Command
set_key name listen_port key_file =
    codes "wg"
    ∷ codes "set"
    ∷ name
    ∷ codes "listen-port"
    ∷ show listen_port
    ∷ codes "private-key"
    ∷ key_file
    ∷ []

-- `key_file` is the name of the temporary file; `none` means that it cannot be written
abbrev by_tool : (Command → Outcome) → Manager → ℕ → Option Text → Manager × Bool
by_tool run m listen_port none = (go_dry m, true)
by_tool run m listen_port (some key_file) =
    if succeeded (run (set_key m.interface_name listen_port key_file))
    then (m, true)
    else (go_dry m, true)

-- `wg` tells whether the tool is installed.
unfoldable pub configure_interface :
    Netlink → (Command → Outcome) → Bool → Option Text → Manager → Text → ℕ → Manager × Bool
configure_interface net run wg key_file m private_key listen_port =
    if m.dry_run
    then (m, true)
    else if net.wg_set m.interface_name private_key listen_port
    then (m, true)
    else if wg
    then by_tool run m listen_port key_file
    else (go_dry m, true)

abbrev or_all : Text → Text
or_all s = if is_empty s then codes "0.0.0.0/0" else s

abbrev joined : Option (List Text) → Text
joined none = []
joined (some ips) = join (codes ",") ips

abbrev pub endpoint_part : Option Text → Command
endpoint_part none = []
endpoint_part (some ep) = if is_empty ep then [] else codes "endpoint" ∷ ep ∷ []

-- `p.get("persistent_keepalive", 25)`
abbrev keepalive : Option ℕ → Text
keepalive none = codes "25"
keepalive (some seconds) = show seconds

unfoldable pub set_peer : Text → Peer → Command
set_peer name p =
    (codes "wg"
      ∷ codes "set"
      ∷ name
      ∷ codes "peer"
      ∷ p.public_key
      ∷ codes "allowed-ips"
      ∷ or_all (joined p.allowed_ips)
      ∷ [])
    ++ (endpoint_part p.endpoint
        ++ (codes "persistent-keepalive" ∷ keepalive p.persistent_keepalive ∷ []))

-- a peer as it is handed to pyroute2
pub record WgPeer : Type 0 where
  pub public_key : Text
  pub allowed_ips : List Text
  pub persistent_keepalive : ℕ
  pub endpoint : Option (Text × ℕ)

-- `p.get(key, default)`
abbrev or_given {ℓ} : {A : Type ℓ} → A → Option A → A
or_given default_ none = default_
or_given default_ (some a) = a

-- `host, port = ep.rsplit(":", 1)` of an endpoint with a colon; a port that is no number raises
unfoldable pub endpoint_of : Option Text → Result (Option (Text × ℕ))
unfolding rsplit_once int_of
endpoint_of none = ok none
endpoint_of (some ep) = if is_empty ep then ok none else elim (rsplit_once b':' ep) [
  | none ↦ ok none
  | some (host, port) ↦ int_of port >>= λ n. ok (some (host, n))
]

unfoldable pub wg_peer : Peer → Result WgPeer
unfolding endpoint_of
wg_peer p = endpoint_of p.endpoint >>= λ endpoint. ok (record {
  public_key = p.public_key;
  allowed_ips = or_given [] p.allowed_ips;
  persistent_keepalive = or_given 25 p.persistent_keepalive;
  endpoint = endpoint;
})

unfoldable pub wg_peers : List Peer → Result (List WgPeer)
unfolding wg_peer
wg_peers [] = ok []
wg_peers (p ∷ peers) = wg_peer p >>= λ q. wg_peers peers >>= λ rest. ok (q ∷ rest)

-- whether the peers are set by pyroute2; an exception is a `False`
unfoldable pub through_pyroute2 : (List WgPeer → Bool) → List Peer → Bool
unfolding wg_peers
through_pyroute2 by_pyroute2 peers = elim (wg_peers peers) [
  | raise e ↦ false
  | ok handed ↦ by_pyroute2 handed
]

-- what a call does: the commands that it runs, the peers that it hands to pyroute2, and its answer
pub record Effect : Type 0 where
  pub commands : List Command
  pub handed : Option (List Peer)
  pub answer : Bool

abbrev after_tool : (List WgPeer → Bool) → List Peer → List Command × Bool → Effect
after_tool by_pyroute2 peers (ran, true) = record { commands = ran; handed = none; answer = true }
after_tool by_pyroute2 peers (ran, false) = record {
  commands = ran;
  handed = some peers;
  answer = through_pyroute2 by_pyroute2 peers;
}

-- `by_pyroute2` tells whether pyroute2 takes the peers.
unfoldable pub sync_peers :
    (Command → Outcome) → Bool → (List WgPeer → Bool) → Manager → List Peer → Effect
unfolding through_pyroute2
sync_peers run wg by_pyroute2 m peers =
    if m.dry_run
    then record { commands = []; handed = none; answer = true }
    else if wg
    then after_tool by_pyroute2 peers (run_all run (map (set_peer m.interface_name) peers))
    else record { commands = []; handed = some peers; answer = through_pyroute2 by_pyroute2 peers }

unfoldable pub add_peer :
    (Command → Outcome)
    → Bool
    → (List WgPeer → Bool)
    → Manager
    → Text
    → List Text
    → Option Text
    → ℕ
    → Effect
add_peer run wg by_pyroute2 m public_key allowed_ips endpoint persistent_keepalive =
    sync_peers run wg by_pyroute2 m (
      record {
        public_key = public_key;
        allowed_ips = some allowed_ips;
        endpoint = endpoint;
        persistent_keepalive = some persistent_keepalive;
      }
      ∷ [])

abbrev unset_peer : Text → Text → Command
unset_peer name public_key =
    codes "wg" ∷ codes "set" ∷ name ∷ codes "peer" ∷ public_key ∷ codes "remove" ∷ []

-- `by_pyroute2` tells whether pyroute2 removes the peer.
unfoldable pub remove_peer : (Command → Outcome) → Bool → (Text → Bool) → Manager → Text → Bool
remove_peer run wg by_pyroute2 m public_key =
    if m.dry_run
    then true
    else if wg
    then (if succeeded (run (unset_peer m.interface_name public_key))
        then true
        else by_pyroute2 public_key)
    else by_pyroute2 public_key
