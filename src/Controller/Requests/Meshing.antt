-- ===== src/Controller/Requests/Meshing.antt =====
-- What any node is told of its network after any requests (pymesh/controller/peers.py).
use mathlib.Core.Path.{subst}
use pymesh.Base.{
  ℕ, ◌≡◌, ◌≢◌, refl, ap, ◌∙◌, sym, Bool, true, false, not, ◌||◌, some, List, [], ◌∷◌, map, ◌==◌,
  text_eq, find?, find?-holds, filter, any, All, arith, eq_iff, eq_refl, Bool-cases, inl, inr, ◌⊎◌,
}
use pymesh.Base.Text.{Text}
use pymesh.Base.Result.{ok}
use pymesh.Controller.Models.{Database, empty_database, NodeModel, Network, node_clash}
use pymesh.Controller.Nodes.{Env, has_id, in_network}
use pymesh.Base.Dict.{Dict}
use pymesh.Controller.Peers.{
  PeerConfig, NetworkConfigResponse, is_peer, is_active, peer_config, route_map_from, config_of,
  get_network_config,
}
use pymesh.Controller.Peers.Laws.{get_network_config_lem}
use pymesh.Controller.Requests.{Request, serve_all}
use pymesh.Controller.Requests.Keys.{Keyed, Keyed-filter}
use pymesh.Controller.Requests.Sound.{network_id, OneNetwork, IsSound, node_clash-symmetric}
use pymesh.Controller.Requests.Moving.{members}
use pymesh.Controller.Requests.Reached.{NamesPrefix, serve_all-IsSound}

-- two peers that share an id or an address
abbrev pub peer_clash : PeerConfig → PeerConfig → Bool
peer_clash a b =
    a.node_id == b.node_id || (a.mesh_ipv4 == b.mesh_ipv4 || a.mesh_ipv6 == b.mesh_ipv6)

-- A configuration for a node of a table: its peers are all the other nodes, no two of them share an
-- id or an address, and none has an address of the node.
pub record IsMesh (node_id : Text) (rows : List NodeModel) (c : NetworkConfigResponse)
    : Type 0 where
  pub everyone :
      map (λ p. p.node_id) c.peers ≡ filter (λ k. not (k == node_id)) (map (λ n. n.id) rows)
  pub distinct : Keyed peer_clash c.peers
  pub apart : All (λ p. (p.mesh_ipv4 ≢ c.mesh_ipv4) × (p.mesh_ipv6 ≢ c.mesh_ipv6)) c.peers

any-peers :
    (d : Dict (List Text)) (a : NodeModel) (rows : List NodeModel)
    → any (peer_clash (peer_config d a)) (map (peer_config d) rows) ≡ any (node_clash a) rows
unfolding any peer_config
any-peers d a [] = refl
any-peers d a (q ∷ rows) = rw (any-peers d a rows) refl

Keyed-peers :
    (d : Dict (List Text)) (rows : List NodeModel)
    → Keyed node_clash rows
    → Keyed peer_clash (map (peer_config d) rows)
Keyed-peers d [] ks = tt
Keyed-peers d (q ∷ rows) (k, ks) = (any-peers d q rows ∙ k, Keyed-peers d rows ks)

peers-ids :
    (target : NodeModel) (d : Dict (List Text)) (rows : List NodeModel)
    → All (λ n. in_network target.network_id n ≡ true) rows
    → map (λ p. p.node_id) (map (peer_config d) (filter (is_peer target) rows))
      ≡ filter (λ k. not (k == target.id)) (map (λ n. n.id) rows)
unfolding filter peer_config
peers-ids target d [] ms = refl
peers-ids target d (q ∷ rows) (m, ms) = elim (Bool-cases (has_id target.id q)) [
  | inl e ↦ rw (m, e) (peers-ids target d rows ms)
  | inr e ↦ rw (m, e) (ap (λ l. q.id ∷ l) (peers-ids target d rows ms))
]

-- the rows that do not clash with a row of the table, which are all but those of its id
unclashing :
    (a : NodeModel) (rows : List NodeModel)
    → any (node_clash a) rows ≡ false
    → All (λ n. node_clash a n ≡ false) rows
unfolding any
unclashing a [] h = tt
unclashing a (q ∷ rows) h = (ground arith, unclashing a rows (ground arith))

found_in :
    (p : NodeModel → Bool) (P : NodeModel → Type 0) (rows : List NodeModel) (t : NodeModel)
    → find? p rows ≡ some t
    → All P rows
    → P t
unfolding find?
found_in p P [] t h ps = cc
found_in p P (q ∷ rows) t h (pq, ps) = elim (Bool-cases (p q)) [
  | inl e ↦ let same : q ≡ t = ground arith in subst P same pq
  | inr e ↦ found_in p P rows t (ground arith) ps
]

weaken :
    (P Q : NodeModel → Type 0) (rows : List NodeModel)
    → ((n : NodeModel) → P n → Q n)
    → All P rows
    → All Q rows
weaken P Q [] f ps = tt
weaken P Q (n ∷ rows) f (p, ps) = (f n p, weaken P Q rows f ps)

-- a node and its row
abbrev Apart : NodeModel → NodeModel → Type 0
Apart t n = (has_id t.id n ≡ true) ⊎ (node_clash n t ≡ false)

Apart-from :
    (node_id : Text) (rows : List NodeModel) (t : NodeModel)
    → Keyed node_clash rows
    → find? (has_id node_id) rows ≡ some t
    → All (Apart t) rows
unfolding find?
Apart-from node_id [] t ks h = tt
Apart-from node_id (q ∷ rows) t (k, ks) h = elim (Bool-cases (has_id node_id q)) [
  | inl e ↦
      let same : q ≡ t = ground arith in
      subst (λ u. Apart u q × All (Apart u) rows) same
        (
          inl (eq_refl q.id),
          weaken _ (Apart q) rows (λ n h. inr (node_clash-symmetric n q ∙ h)) (unclashing q rows k),
        )
  | inr e ↦
      let there : find? (has_id node_id) rows ≡ some t = ground arith in
      (
        inr (
            found_in (has_id node_id) (λ n. node_clash q n ≡ false) rows t there
              (unclashing q rows k)),
        Apart-from node_id rows t ks there,
      )
]

not_peer : (target n : NodeModel) → has_id target.id n ≡ true → is_peer target n ≡ false
not_peer target n e = ground arith

apart_addresses :
    (a b : NodeModel)
    → node_clash a b ≡ false
    → (a.mesh_ipv4 ≢ b.mesh_ipv4) × (a.mesh_ipv6 ≢ b.mesh_ipv6)
apart_addresses a b e = (
  λ h. ground (arith, eq_iff a.mesh_ipv4 b.mesh_ipv4),
  λ h. ground (arith, eq_iff a.mesh_ipv6 b.mesh_ipv6),
)

-- the peers have other addresses than the node
other_addresses :
    (target : NodeModel) (d : Dict (List Text)) (rows : List NodeModel)
    → All (Apart target) rows
    → All
        (λ p. (p.mesh_ipv4 ≢ target.mesh_ipv4) × (p.mesh_ipv6 ≢ target.mesh_ipv6))
        (map (peer_config d) (filter (is_peer target) rows))
unfolding filter peer_config
other_addresses target d [] as_ = tt
other_addresses target d (q ∷ rows) (inl e, as_) =
    rw (not_peer target q e) (other_addresses target d rows as_)
other_addresses target d (q ∷ rows) (inr e, as_) = elim (Bool-cases (is_peer target q)) [
  | inl p ↦ rw p (apart_addresses q target e, other_addresses target d rows as_)
  | inr p ↦ rw p (other_addresses target d rows as_)
]

one_id :
    (env : Env) (networks : List Network) (rows : List NodeModel)
    → OneNetwork env networks rows
    → All (λ n. n.network_id ≡ network_id) rows
one_id env [] rows p = subst (λ l. All (λ n. n.network_id ≡ network_id) l) (sym p) tt
one_id env (net ∷ []) rows (name, id, placed) =
    weaken (λ n. n.network_id ≡ net.id) (λ n. n.network_id ≡ network_id) rows (λ n e. e ∙ id)
      (members env net rows placed)
one_id env (net ∷ other ∷ rest) rows p = absurd p

IsSound-IsMesh :
    (env : Env) (db : Database) (target : NodeModel) (node_id : Text)
    → IsSound env db
    → find? (has_id node_id) db.nodes ≡ some target
    → IsMesh node_id db.nodes (config_of target db)
unfolding config_of
IsSound-IsMesh env db target node_id s there =
    let ids = one_id env db.networks db.nodes s.placed in
    let own : target.network_id ≡ network_id =
      found_in (has_id node_id) (λ n. n.network_id ≡ network_id) db.nodes target there ids in
    let same : target.id ≡ node_id =
      (eq_iff target.id node_id).0 (find?-holds (has_id node_id) db.nodes target there) in
    record {
      everyone =
          peers-ids target (route_map_from [] (filter (is_active target.network_id) db.routes))
            db.nodes
            (weaken _ (λ n. in_network target.network_id n ≡ true) db.nodes
              (λ n e. (eq_iff n.network_id target.network_id).1 (e ∙ sym own)) ids)
          ∙ ap (λ i. filter (λ k. not (k == i)) (map (λ n. n.id) db.nodes)) same;
      distinct =
          Keyed-peers (route_map_from [] (filter (is_active target.network_id) db.routes))
            (filter (is_peer target) db.nodes)
            (Keyed-filter node_clash (is_peer target) db.nodes s.nodes);
      apart = other_addresses target _ db.nodes (Apart-from node_id db.nodes target s.nodes there);
    }

-- After any requests, a registered node that asks for its configuration gets one, and nothing
-- changes: its peers are all the other registered nodes, in the order of the table; no two of them
-- share an id, an IPv4 or an IPv6 address; and none has an address of the node itself. The condition
-- is that a change of the subnet names an IPv6 prefix that is not empty.
pub get_network_config-IsMesh :
    (env : Env) (rs : List (ℕ × Request)) (node_id : Text) (target : NodeModel)
    → All (λ r. NamesPrefix r.1) rs
    → find? (has_id node_id) (serve_all env rs empty_database).nodes ≡ some target
    → (get_network_config node_id (serve_all env rs empty_database) ≡ (
      ok (config_of target (serve_all env rs empty_database)),
      serve_all env rs empty_database,
    ))
      × IsMesh node_id
          (serve_all env rs empty_database).nodes
          (config_of target (serve_all env rs empty_database))
get_network_config-IsMesh env rs node_id target ws there = (
  (get_network_config_lem node_id (serve_all env rs empty_database)).1 target there,
  IsSound-IsMesh env (serve_all env rs empty_database) target node_id (serve_all-IsSound env rs ws)
      there,
)
