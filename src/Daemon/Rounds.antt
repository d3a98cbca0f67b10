-- ===== src/Daemon/Rounds.antt =====
-- What one round of the daemon's loop does (pymesh/daemon/lifecycle.py).
use mathlib.Core.List.{map-map}
use mathlib.Core.Path.{subst, ap₂}
use pymesh.Base.{
  ℕ, ◌≡◌, ◌≢◌, ◌⊎◌, ◌++◌, ◌==◌, ◌&&◌, is_empty, false, refl, ◌∙◌, ap, sym, arith, true, Option,
  none, some, List, [], ◌∷◌, map, if◌then◌else◌, text_eq, eq_iff, filter, Bool-cases, inl, inr,
}
use pymesh.Base.Text.{Text, codes, join}
use pymesh.Base.Decimal
use pymesh.Base.Dict.{Dict}
use pymesh.Identity.{NodeIdentity}
use pymesh.Controller.Models.{Database, NodeModel, SubnetRoute}
use pymesh.Controller.Peers.{
  NetworkConfigResponse, route_map_from, allowed_ips, peer_config, is_peer, is_active, config_of,
}
use pymesh.Controller.Peers.Laws.{prefixes_via, allowed_ips-routes}
use pymesh.Dns.Magic.{update_records}
use pymesh.Networking.{Command}
use pymesh.Networking.WireGuard.{Manager, endpoint_part, set_peer}
use pymesh.Networking.Laws.{Succeed, commands_of, sync_peers_lem}
use pymesh.Daemon.{
  World, Daemon, Heard, config, first, is_at, is_readdressed, readdress, peer_dict, records_from,
  sync_with_controller, apply_state, apply_report, heartbeat_of,
}

-- The daemon is in step with a configuration.
pub record IsInStep (c : NetworkConfigResponse) (d : Daemon) : Type 0 where
  pub configured : d.state.config ≡ some c
  pub peered : d.state.peers ≡ c.peers
  pub resolving : d.dns_records ≡ update_records (records_from [] c.peers) none
  pub addressed :
      (i : NodeIdentity) × (d.state.identity ≡ some i)
      × (i.mesh_ipv4 ≡ some c.mesh_ipv4)
      × (i.mesh_ipv6 ≡ some c.mesh_ipv6)

is_at-some : (s : Text) (o : Option Text) → is_at s o ≡ true → o ≡ some s
is_at-some s none h = cc
is_at-some s (some t) h = ap some ((eq_iff t s).0 h)

-- the identity after an answer, saved or not
abbrev pub settled : NodeIdentity → NetworkConfigResponse → NodeIdentity
settled i c = if is_readdressed i c then readdress i c else i

settled_addresses :
    (i : NodeIdentity) (c : NetworkConfigResponse)
    → ((settled i c).mesh_ipv4 ≡ some c.mesh_ipv4) × ((settled i c).mesh_ipv6 ≡ some c.mesh_ipv6)
settled_addresses i c = elim (Bool-cases (is_at c.mesh_ipv4 i.mesh_ipv4)) [
  | inr e ↦ rw e (refl, refl)
  | inl e ↦ elim (Bool-cases (is_at c.mesh_ipv6 i.mesh_ipv6)) [
    | inr e' ↦ rw (e, e') (refl, refl)
    | inl e' ↦
        rw (e, e') (is_at-some c.mesh_ipv4 i.mesh_ipv4 e, is_at-some c.mesh_ipv6 i.mesh_ipv6 e')
  ]
]

-- A daemon with an identity and a controller, and a round in which the controller answers.
pub record Answered (d : Daemon) (h : Heard) (c : NetworkConfigResponse) : Type 0 where
  pub identity : NodeIdentity
  pub known : d.state.identity ≡ some identity
  pub url_head : ℕ
  pub url_tail : Text
  pub joined : identity.controller_url ≡ some (url_head ∷ url_tail)
  pub posted : h.posted ≡ true
  pub fetched : h.fetched ≡ config c

pub round-state :
    (w : World) (h : Heard) (d : Daemon) (c : NetworkConfigResponse) (a : Answered d h c)
    → (sync_with_controller w h d).0 ≡ apply_state (a.url_head ∷ a.url_tail) a.identity c h.now w d
unfolding sync_with_controller
round-state w h d c a = rw (a.known) (rw (a.joined) (rw (a.posted) (rw (a.fetched) refl)))

-- After a round in which the controller answers, the daemon is in step with the answer.
pub round-IsInStep :
    (w : World) (h : Heard) (d : Daemon) (c : NetworkConfigResponse)
    → Answered d h c
    → IsInStep c (sync_with_controller w h d).0
round-IsInStep w h d c a = rw (round-state w h d c a) (record {
  configured = refl;
  peered = refl;
  resolving = refl;
  addressed = (
    settled a.identity c,
    refl,
    (settled_addresses a.identity c).0,
    (settled_addresses a.identity c).1,
  );
})

round-report :
    (w : World) (h : Heard) (d : Daemon) (c : NetworkConfigResponse) (a : Answered d h c)
    → (sync_with_controller w h d).1
      ≡ apply_report a.identity c (heartbeat_of a.identity h.endpoints d.state.nat_type) w d
unfolding sync_with_controller
round-report w h d c a = rw (a.known) (rw (a.joined) (rw (a.posted) (rw (a.fetched) refl)))

-- the command by which a manager makes a node a peer
abbrev pub peer_command : Manager → Dict (List Text) → NodeModel → Command
peer_command m route_map n = set_peer m.interface_name (peer_dict (peer_config route_map n))

-- the subnets that each node of the network of `target` may route
abbrev pub routed_through : NodeModel → Database → Dict (List Text)
routed_through target db = route_map_from [] (filter (is_active target.network_id) db.routes)

pub peers-commands :
    (m : Manager) (target : NodeModel) (db : Database)
    → commands_of m (map peer_dict (config_of target db).peers)
      ≡ map (peer_command m (routed_through target db)) (filter (is_peer target) db.nodes)
unfolding config_of
peers-commands m target db = map-map _ _ _ ∙ map-map _ _ _

-- the words that tell an endpoint
abbrev pub endpoint_words : List Text → Command
endpoint_words [] = []
endpoint_words (ep ∷ endpoints) = if is_empty ep then [] else codes "endpoint" ∷ ep ∷ []

-- the command that makes a node a peer, with the subnets behind it
abbrev pub peer_words : Text → NodeModel → List Text → Command
peer_words name n subnets =
    codes "wg"
    ∷ codes "set"
    ∷ name
    ∷ codes "peer"
    ∷ n.wireguard_public_key
    ∷ codes "allowed-ips"
    ∷ join (codes ",") ((n.mesh_ipv4 ++ codes "/32") ∷ (n.mesh_ipv6 ++ codes "/128") ∷ subnets)
    ∷ (endpoint_words n.endpoints ++ (codes "persistent-keepalive" ∷ codes "25" ∷ []))

-- The commands for the rows of a table: one for each other node of the network of `target`, with
-- its addresses, the subnets of the enabled routes through it, and its first endpoint.
pub data IsTold (name : Text) (target : NodeModel) (routes : List SubnetRoute)
    : List NodeModel → List Command → Type 0 where
  end : IsTold name target routes [] []
  told :
      {n : NodeModel} {rows : List NodeModel} {commands : List Command}
      → n.network_id ≡ target.network_id
      → n.id ≢ target.id
      → IsTold name target routes rows commands
      → IsTold name target routes (n ∷ rows) (
          peer_words name n (
            prefixes_via n.id (filter (λ r. r.network_id == target.network_id && r.enabled) routes))
          ∷ commands)
  passed :
      {n : NodeModel} {rows : List NodeModel} {commands : List Command}
      → (n.network_id ≢ target.network_id) ⊎ (n.id ≡ target.id)
      → IsTold name target routes rows commands
      → IsTold name target routes (n ∷ rows) commands

is_empty-append_cons : (s t : Text) (c : ℕ) → is_empty (s ++ c ∷ t) ≡ false
is_empty-append_cons [] t c = refl
is_empty-append_cons (a ∷ s) t c = refl

is_empty-append : (s t : Text) → is_empty s ≡ false → is_empty (s ++ t) ≡ false
is_empty-append [] t h = cc
is_empty-append (a ∷ s) t h = refl

is_empty-join :
    (a b : Text) (subnets : List Text)
    → is_empty (join (codes ",") ((a ++ codes "/32") ∷ b ∷ subnets)) ≡ false
unfolding join
is_empty-join a b subnets =
    is_empty-append ((a ++ codes "/32") ++ codes ",") (join (codes ",") (b ∷ subnets))
      (is_empty-append (a ++ codes "/32") (codes ",") (is_empty-append_cons a (codes "32") b'/'))

endpoint_part-first :
    (endpoints : List Text) → endpoint_part (first endpoints) ≡ endpoint_words endpoints
endpoint_part-first [] = refl
endpoint_part-first (ep ∷ endpoints) = refl

words_lem :
    (name : Text) (d : Dict (List Text)) (n : NodeModel) (subnets : List Text)
    → allowed_ips d n ≡ (n.mesh_ipv4 ++ codes "/32") ∷ (n.mesh_ipv6 ++ codes "/128") ∷ subnets
    → set_peer name (peer_dict (peer_config d n)) ≡ peer_words name n subnets
unfolding set_peer peer_dict peer_config Decimal.show
words_lem name d n subnets h =
    rw (h, endpoint_part-first n.endpoints)
      (rw (is_empty-join n.mesh_ipv4 (n.mesh_ipv6 ++ codes "/128") subnets) refl)

told-commands :
    (m : Manager) (target : NodeModel) (db : Database) (rows : List NodeModel)
    (commands : List Command)
    → IsTold m.interface_name target db.routes rows commands
    → map (peer_command m (routed_through target db)) (filter (is_peer target) rows) ≡ commands
unfolding filter
told-commands m target db [] _ end = refl
told-commands m target db (n ∷ rows) _ (told {commands = commands} same apart before) =
    let e : is_peer target n ≡ true =
      ground (arith, eq_iff n.network_id target.network_id, eq_iff n.id target.id, same, apart) in
    rw e (
      ap₂ (λ c cs. c ∷ cs)
        (words_lem m.interface_name (routed_through target db) n _
          (allowed_ips-routes (filter (is_active target.network_id) db.routes) n))
        (told-commands m target db rows commands before))
told-commands m target db (n ∷ rows) commands (passed (inl o) before) =
    let e : is_peer target n ≡ false = ground (arith, eq_iff n.network_id target.network_id, o) in
    rw e (told-commands m target db rows commands before)
told-commands m target db (n ∷ rows) commands (passed (inr o) before) =
    let e : is_peer target n ≡ false = ground (arith, eq_iff n.id target.id, o) in
    rw e (told-commands m target db rows commands before)

-- Let the controller answer a round with the configuration that it makes of its tables for a node,
-- the tool `wg` be installed, the manager not be in a dry run, and each command succeed that makes
-- a node a peer. Then the round runs exactly these commands, one for each other node of the network
-- of the node, in the order of the table. The command has the key of that node, its two addresses as
-- single hosts, the prefixes of the enabled routes through it, its first endpoint if it has one that
-- is not empty, and a keepalive of 25 seconds. Nothing is handed to pyroute2.
pub round-mesh :
    (w : World) (h : Heard) (d : Daemon) (target : NodeModel) (db : Database)
    (commands : List Command)
    → Answered d h (config_of target db)
    → w.wg_tool ≡ true
    → d.wg_manager.dry_run ≡ false
    → IsTold d.wg_manager.interface_name target db.routes db.nodes commands
    → Succeed w.run commands
    → (sync_with_controller w h d).1.peers
      ≡ some (record { commands = commands; handed = none; answer = true })
round-mesh w h d target db commands a tool live told_all good =
    let same : commands_of d.wg_manager (map peer_dict (config_of target db).peers) ≡ commands =
      peers-commands d.wg_manager target db
      ∙ told-commands d.wg_manager target db db.nodes commands told_all in
    rw (round-report w h d _ a) (
      rw tool (
        ap some (
          (sync_peers_lem w.run w.by_pyroute2 d.wg_manager live).0
            (map peer_dict (config_of target db).peers) (subst (Succeed w.run) (sym same) good)
          ∙ ap (λ cs. record { commands = cs; handed = none; answer = true }) same)))
