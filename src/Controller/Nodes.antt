-- ===== src/Controller/Nodes.antt =====
-- pymesh/controller/nodes.py, and the node handlers of pymesh/controller/api.py.
pub mod Registration
pub mod Lookups
pub mod Joining
use pymesh.Base.{
  ℕ, ◌+◌, Bool, true, false, not, Option, none, some, List, [], ◌∷◌, ◌++◌, map, if◌then◌else◌, ◌==◌,
  text_eq, find?, filter, any, is_empty,
}
use pymesh.Base.Text.{Text, codes, starts_with, split_once}
use pymesh.Base.Result.{Result, ok, raise, bad_key, http}
use pymesh.Allocator.{Ipv6, IpAllocator, allocator, allocate}
use pymesh.Controller.Models.{Database, Network, NodeModel, network_clash, node_clash}
use pymesh.Controller.Action.{
  Action, pure, fail, lift, select, modify, ◌>>=◌, ◌>>◌, insert_row, update_rows,
}
use pymesh.Controller.Auth.{validate_token}

-- What the program takes from libraries: IPv6 texts, base64 and SHA-256.
pub record Env : Type 0 where
  pub v6 : Ipv6
  pub b64decode : Text → Option (List ℕ)
  pub sha256_hexdigest : List ℕ → Text

-- `NodeRegistrationRequest` (pymesh/protocol/messages.py)
pub record NodeRegistrationRequest : Type 0 where
  pub hostname : Text
  pub public_key : Text
  pub listen_port : ℕ
  pub os : Text
  pub version : Text
  pub endpoints : List Text
  pub tags : List Text

-- `HeartbeatRequest`
pub record HeartbeatRequest : Type 0 where
  pub node_id : Text
  pub endpoints : List Text
  pub nat_type : Text
  pub rx_bytes : ℕ
  pub tx_bytes : ℕ

-- `NodeRegistrationResponse`
pub record NodeRegistrationResponse : Type 0 where
  pub node_id : Text
  pub hostname : Text
  pub mesh_ipv4 : Text
  pub mesh_ipv6 : Text
  pub wireguard_public_key : Text
  pub controller_public_key : Option Text
  pub network_name : Text

abbrev pub is_named : Text → Network → Bool
is_named name net = net.name == name

abbrev pub has_id : Text → NodeModel → Bool
has_id node_id n = n.id == node_id

abbrev pub in_network : Text → NodeModel → Bool
in_network network_id n = n.network_id == network_id

-- the network that is made on first use
abbrev pub new_network : Text → ℕ → Network
new_network name now = record {
  id = codes "net-" ++ name;
  name = name;
  ipv4_prefix = codes "100.64.0.0/10";
  ipv6_prefix = codes "fd00:7079:6d65::/48";
  dns_domain = codes "mesh";
  created_at = now;
}

abbrev pub add_network : Network → Action (Unit {0})
add_network net db = elim (insert_row network_clash net db.networks) [
  | ok rows ↦ (ok tt, record db { networks = rows })
  | raise e ↦ (raise e, db)
]

abbrev pub or_create : Text → ℕ → Option Network → Action Network
or_create name now (some net) = pure net
or_create name now none = do add_network (new_network name now); pure (new_network name now)

unfoldable pub get_or_create_network : Text → ℕ → Action Network
unfolding ◌>>=◌
get_or_create_network name now = do
  net ← select (λ db. find? (is_named name) db.networks)
  or_create name now net

-- `{r[0] for r in existing if r[0]}`, as a list
abbrev pub allocated : (NodeModel → Text) → Text → List NodeModel → List Text
allocated column network_id rows =
    filter (λ s. not (is_empty s)) (map column (filter (in_network network_id) rows))

-- the columns that a repeated registration sets
abbrev pub reregister : NodeRegistrationRequest → ℕ → NodeModel → NodeModel
reregister req now n = record n {
  hostname = req.hostname;
  wireguard_public_key = req.public_key;
  listen_port = req.listen_port;
  os = req.os;
  version = req.version;
  endpoints = req.endpoints;
  tags = req.tags;
  online = true;
  last_seen = now;
}

abbrev pub new_node : NodeRegistrationRequest → ℕ → Text → Text → Text → Text → NodeModel
new_node req now node_id network_id v4 v6 = record {
  id = node_id;
  network_id = network_id;
  hostname = req.hostname;
  mesh_ipv4 = v4;
  mesh_ipv6 = v6;
  wireguard_public_key = req.public_key;
  identity_public_key = req.public_key;
  listen_port = req.listen_port;
  os = req.os;
  version = req.version;
  endpoints = req.endpoints;
  tags = req.tags;
  online = true;
  nat_type = codes "unknown";
  last_seen = now;
  created_at = now;
}

unfoldable pub add_node : NodeModel → Action (Unit {0})
add_node n db = elim (insert_row node_clash n db.nodes) [
  | ok rows ↦ (ok tt, record db { nodes = rows })
  | raise e ↦ (raise e, db)
]

module _ (env : Env) where
  -- `KeyManager.derive_node_id` (pymesh/identity/keys.py)
  unfoldable pub derive_node_id : Text → Result Text
  derive_node_id key = elim (env.b64decode key) [
    | none ↦ raise bad_key
    | some pub_bytes ↦ ok (env.sha256_hexdigest pub_bytes)
  ]

  -- the two ends of `register_node`
  unfoldable pub save_node :
      NodeRegistrationRequest
      → ℕ
      → Network
      → IpAllocator
      → Text
      → Option NodeModel
      → Action NodeModel
  unfolding ◌>>=◌
  save_node req now network pool node_id (some existing) = do
    modify (λ db. record db { nodes = update_rows (has_id node_id) (reregister req now) db.nodes })
    pure (reregister req now existing)
  save_node req now network pool node_id none = do
    taken_v4 ← select (λ db. allocated (λ n. n.mesh_ipv4) network.id db.nodes)
    taken_v6 ← select (λ db. allocated (λ n. n.mesh_ipv6) network.id db.nodes)
    pair ← lift (allocate env.v6 pool taken_v4 taken_v6)
    add_node (new_node req now node_id network.id pair.0 pair.1)
    pure (new_node req now node_id network.id pair.0 pair.1)

  unfoldable pub register_node : NodeRegistrationRequest → Text → ℕ → Action NodeModel
  unfolding ◌>>=◌
  register_node req network_name now = do
    network ← get_or_create_network network_name now
    pool ← lift (allocator env.v6 network.ipv4_prefix network.ipv6_prefix)
    node_id ← lift (derive_node_id req.public_key)
    existing ← select (λ db. find? (has_id node_id) db.nodes)
    save_node req now network pool node_id existing

  -- `authorization.split(" ", 1)[1]` of a header that begins with "Bearer "
  abbrev pub bearer : Text → Option Text
  bearer header =
      if starts_with header (codes "Bearer ")
      then elim (split_once b' ' header) [ none ↦ none | some (x, y) ↦ some y ]
      else none

  -- a token is checked only if the header brings one
  abbrev pub check_header : Option Text → Action Bool
  check_header none = pure true
  check_header (some header) = elim (bearer header) [
    | none ↦ pure true
    | some token_str ↦ validate_token token_str
  ]

  abbrev pub respond : NodeModel → NodeRegistrationResponse
  respond node = record {
    node_id = node.id;
    hostname = node.hostname;
    mesh_ipv4 = node.mesh_ipv4;
    mesh_ipv6 = node.mesh_ipv6;
    wireguard_public_key = node.wireguard_public_key;
    controller_public_key = none;
    network_name = codes "pymesh";
  }

  -- POST /nodes/register
  unfoldable pub register :
      NodeRegistrationRequest → Option Text → ℕ → Action NodeRegistrationResponse
  unfolding ◌>>=◌
  register req authorization now = do
    valid ← check_header authorization
    if valid
        then (do node ← register_node req (codes "pymesh") now; pure (respond node))
        else fail (http 401)

unfoldable pub get_node : Text → Action (Option NodeModel)
get_node node_id = select (λ db. find? (has_id node_id) db.nodes)

abbrev in_wanted : Option Text → NodeModel → Bool
in_wanted none n = true
in_wanted (some network_id) n = if is_empty network_id then true else in_network network_id n

unfoldable pub list_nodes : Option Text → Action (List NodeModel)
list_nodes network_id = select (λ db. filter (in_wanted network_id) db.nodes)

-- DELETE /nodes/{node_id}: the delete is committed, then the count of rows is looked at
unfoldable pub delete_node : Text → Action Text
delete_node node_id db =
    let rest = record db { nodes = filter (λ n. not (has_id node_id n)) db.nodes } in
    if any (has_id node_id) db.nodes then (ok node_id, rest) else (raise (http 404), rest)

abbrev pub beat : HeartbeatRequest → ℕ → NodeModel → NodeModel
beat req now n = record n {
  online = true;
  last_seen = now;
  nat_type = req.nat_type;
  endpoints = if is_empty req.endpoints then n.endpoints else req.endpoints;
}

abbrev pub beat_found : Text → HeartbeatRequest → ℕ → Option NodeModel → Action (Unit {0})
beat_found node_id req now none = fail (http 404)
beat_found node_id req now (some n) =
    modify (λ db. record db { nodes = update_rows (has_id node_id) (beat req now) db.nodes })

-- POST /nodes/{node_id}/heartbeat; the reply is always the same
unfoldable pub heartbeat : Text → HeartbeatRequest → ℕ → Action (Unit {0})
unfolding ◌>>=◌ get_node
heartbeat node_id req now = do node ← get_node node_id; beat_found node_id req now node
