-- ===== src/Controller/Nodes/Registration.antt =====
-- A registration gives a new node fresh addresses (pymesh/controller/nodes.py).
use pymesh.Base.{
  ℕ, ◌≡◌, ◌≢◌, refl, ◌∙◌, ap, sym, true, false, Bool-cases, inl, inr, ◌==◌, none, some, List, [],
  ◌∷◌, ◌++◌, text_eq, find?, filter, any, contains, is_empty, All, All-snoc, arith, eq_iff,
}
use pymesh.Base.Text.{Text}
use pymesh.Base.Decimal.{show}
use pymesh.Base.Result.{ok, raise, Exception}
use pymesh.Ipv4.{show_ipv4, octet}
use pymesh.Ipv4.Networks.{IsNetwork, IsHost, hosts-IsHost}
use pymesh.Allocator.{Ipv6, IpAllocator, allocator, allocate}
use pymesh.Allocator.Laws.{IsPair, allocate-ok, allocate-unused}
use pymesh.Controller.Models.{Database, Network, NodeModel, node_clash}
use pymesh.Controller.Action.{update_rows, All-update_rows}
use pymesh.Controller.Nodes.{
  Env, NodeRegistrationRequest, has_id, is_named, allocated, reregister, new_node, add_node,
  derive_node_id, save_node, get_or_create_network, register_node,
}

is_empty-append_cons : (s t : Text) (c : ℕ) → is_empty (s ++ c ∷ t) ≡ false
is_empty-append_cons [] t c = refl
is_empty-append_cons (a ∷ s) t c = refl

is_empty-show_ipv4 : (n : ℕ) → is_empty (show_ipv4 n) ≡ false
unfolding show_ipv4
is_empty-show_ipv4 n = is_empty-append_cons (show (octet n 3)) _ b'.'

-- The node is of the network, and its addresses are those of one host of the pool.
pub record IsPooled (v6 : Ipv6) (pool : IpAllocator) (network_id : Text) (n : NodeModel)
    : Type 0 where
  pub host : ℕ
  pub inside : IsHost pool.ipv4_net host
  pub pair : IsPair v6 pool host n.mesh_ipv4 n.mesh_ipv6
  pub member : n.network_id ≡ network_id

module _ (v6 : Ipv6) (pool : IpAllocator) (network_id : Text) where
  abbrev Pooled : List NodeModel → Type 0
  Pooled = All (IsPooled v6 pool network_id)

  abbrev taken_v4 : List NodeModel → List Text
  taken_v4 = allocated (λ n. n.mesh_ipv4) network_id

  -- two nodes of one IPv6 address have one IPv4 address
  same_v6 :
      {a b : NodeModel}
      → IsPooled v6 pool network_id a
      → IsPooled v6 pool network_id b
      → a.mesh_ipv6 ≡ b.mesh_ipv6
      → a.mesh_ipv4 ≡ b.mesh_ipv4
  same_v6 p q e =
      let offsets =
        v6.show_injective _ _ p.pair.v6_inside q.pair.v6_inside
          (sym p.pair.v6_shown ∙ e ∙ q.pair.v6_shown) in
      let hosts : p.host ≡ q.host = omega (arith, offsets, p.inside.low, q.inside.low) in
      p.pair.v4 ∙ ap show_ipv4 hosts ∙ sym q.pair.v4

  taken_v4-cons :
      (q : NodeModel) (rows : List NodeModel)
      → IsPooled v6 pool network_id q
      → taken_v4 (q ∷ rows) ≡ q.mesh_ipv4 ∷ taken_v4 rows
  unfolding filter
  taken_v4-cons q rows p =
      rw ((eq_iff q.network_id network_id).1 p.member) (rw (p.pair.v4, is_empty-show_ipv4 p.host))

  pub no_clash :
      (n : NodeModel) (rows : List NodeModel)
      → IsPooled v6 pool network_id n
      → Pooled rows
      → find? (has_id n.id) rows ≡ none
      → contains n.mesh_ipv4 (taken_v4 rows) ≡ false
      → any (node_clash n) rows ≡ false
  unfolding any find? contains
  no_clash n [] p ps fresh_id fresh_v4 = refl
  no_clash n (q ∷ rows) p (pq, ps) fresh_id fresh_v4 =
      let fresh : contains n.mesh_ipv4 (q.mesh_ipv4 ∷ taken_v4 rows) ≡ false =
        sym (ap (contains n.mesh_ipv4) (taken_v4-cons q rows pq)) ∙ fresh_v4 in
      let other_v4 : n.mesh_ipv4 ≢ q.mesh_ipv4 =
        λ e. ground (arith, fresh, eq_iff n.mesh_ipv4 q.mesh_ipv4, e) in
      let other_v6 : n.mesh_ipv6 ≢ q.mesh_ipv6 = λ e. other_v4 (same_v6 p pq e) in
      let rest : any (node_clash n) rows ≡ false =
        no_clash n rows p ps (ground arith) (ground (arith, fresh)) in
      ground (
        arith,
        rest,
        other_v4,
        other_v6,
        eq_iff n.id q.id,
        eq_iff q.id n.id,
        eq_iff n.mesh_ipv4 q.mesh_ipv4,
        eq_iff n.mesh_ipv6 q.mesh_ipv6,
      )

  pub reregister-IsPooled :
      (req : NodeRegistrationRequest) (now : ℕ) (n : NodeModel)
      → IsPooled v6 pool network_id n
      → IsPooled v6 pool network_id (reregister req now n)
  reregister-IsPooled req now n p = record {
    host = p.host;
    inside = p.inside;
    pair = p.pair;
    member = p.member;
  }

-- what a repeated registration makes of the row of a node
pub record IsRenewed (req : NodeRegistrationRequest) (now : ℕ) (n n' : NodeModel) : Type 0 where
  pub id : n'.id ≡ n.id
  pub network_id : n'.network_id ≡ n.network_id
  pub mesh_ipv4 : n'.mesh_ipv4 ≡ n.mesh_ipv4
  pub mesh_ipv6 : n'.mesh_ipv6 ≡ n.mesh_ipv6
  pub identity_public_key : n'.identity_public_key ≡ n.identity_public_key
  pub nat_type : n'.nat_type ≡ n.nat_type
  pub created_at : n'.created_at ≡ n.created_at
  pub hostname : n'.hostname ≡ req.hostname
  pub wireguard_public_key : n'.wireguard_public_key ≡ req.public_key
  pub listen_port : n'.listen_port ≡ req.listen_port
  pub os : n'.os ≡ req.os
  pub version : n'.version ≡ req.version
  pub endpoints : n'.endpoints ≡ req.endpoints
  pub tags : n'.tags ≡ req.tags
  pub online : n'.online ≡ true
  pub last_seen : n'.last_seen ≡ now

reregister-IsRenewed :
    (req : NodeRegistrationRequest) (now : ℕ) (n : NodeModel)
    → IsRenewed req now n (reregister req now n)
reregister-IsRenewed req now n = record {
  id = refl;
  network_id = refl;
  mesh_ipv4 = refl;
  mesh_ipv6 = refl;
  identity_public_key = refl;
  nat_type = refl;
  created_at = refl;
  hostname = refl;
  wireguard_public_key = refl;
  listen_port = refl;
  os = refl;
  version = refl;
  endpoints = refl;
  tags = refl;
  online = refl;
  last_seen = refl;
}

-- a table before and after: the row with the id is renewed, and each other row is as before
pub data Renewed (req : NodeRegistrationRequest) (now : ℕ) (id : Text)
    : List NodeModel → List NodeModel → Type 0 where
  end : Renewed req now id [] []
  renewed :
      {n n' : NodeModel} {rows rows' : List NodeModel}
      → n.id ≡ id
      → IsRenewed req now n n'
      → Renewed req now id rows rows'
      → Renewed req now id (n ∷ rows) (n' ∷ rows')
  other :
      {n : NodeModel} {rows rows' : List NodeModel}
      → n.id ≢ id
      → Renewed req now id rows rows'
      → Renewed req now id (n ∷ rows) (n ∷ rows')

update_rows-Renewed :
    (req : NodeRegistrationRequest) (now : ℕ) (id : Text) (rows : List NodeModel)
    → Renewed req now id rows (update_rows (has_id id) (reregister req now) rows)
unfolding update_rows
update_rows-Renewed req now id [] = end
update_rows-Renewed req now id (n ∷ rows) = elim (Bool-cases (n.id == id)) [
  | inl e ↦ rw e (
      renewed ((eq_iff n.id id).0 e) (reregister-IsRenewed req now n)
        (update_rows-Renewed req now id rows))
  | inr e ↦
      rw e
        (other (λ same. ground (arith, eq_iff n.id id, same)) (update_rows-Renewed req now id rows))
]

module _ (env : Env) (req : NodeRegistrationRequest) (now : ℕ) (net : Network) (pool : IpAllocator)
    (w : IsNetwork pool.ipv4_net) where
  pub new_node-IsPooled :
      (id x y : Text) (taken_v4 taken_v6 : List Text)
      → allocate env.v6 pool taken_v4 taken_v6 ≡ ok (x, y)
      → IsPooled env.v6 pool net.id (new_node req now id net.id x y)
  new_node-IsPooled id x y taken_v4 taken_v6 h =
      let (f, p) = allocate-ok env.v6 pool w taken_v4 taken_v6 x y h in
      record {
        host = f.host;
        inside = hosts-IsHost pool.ipv4_net f.host f.low f.high;
        pair = p;
        member = refl;
      }

  register_node-save :
      (name : Text) (id : Text) (db : Database)
      → find? (is_named name) db.networks ≡ some net
      → allocator env.v6 net.ipv4_prefix net.ipv6_prefix ≡ ok pool
      → derive_node_id env req.public_key ≡ ok id
      → register_node env req name now db
        ≡ save_node env req now net pool id (find? (has_id id) db.nodes) db
  unfolding register_node get_or_create_network
  register_node-save name id db found pooled derived = rw (found, pooled, derived)

  add_node-fresh :
      (n : NodeModel) (db : Database)
      → any (node_clash n) db.nodes ≡ false
      → add_node n db ≡ (ok tt, record db { nodes = db.nodes ++ n ∷ [] })
  unfolding add_node
  add_node-fresh n db h = rw (h, add_node)

  pub save_node-new :
      (id : Text) (db : Database)
      → All (IsPooled env.v6 pool net.id) db.nodes
      → find? (has_id id) db.nodes ≡ none
      → (x y : Text)
      → allocate env.v6 pool
          (allocated (λ n. n.mesh_ipv4) net.id db.nodes)
          (allocated (λ n. n.mesh_ipv6) net.id db.nodes)
        ≡ ok (x, y)
      → save_node env req now net pool id none db ≡ (
        ok (new_node req now id net.id x y),
        record db { nodes = db.nodes ++ new_node req now id net.id x y ∷ [] },
      )
  unfolding save_node
  save_node-new id db ps fresh x y h = rw h (
      rw (
        add_node-fresh (new_node req now id net.id x y) db (
          no_clash env.v6 pool net.id (new_node req now id net.id x y) db.nodes
            (new_node-IsPooled id x y _ _ h) ps fresh (allocate-unused env.v6 pool w _ _ x y h))))

  -- What the registration of a new node does, where its network has a row and every node is of
  -- that network and has the two addresses of one host of its pool. If addresses are allocated,
  -- the node is stored with them after the others, which do not change, and no constraint of the
  -- table is violated; every node has again the addresses of one host. If the allocation fails,
  -- its error is returned and the tables do not change.
  pub register_node-new :
      (name : Text) (id : Text) (db : Database)
      → find? (is_named name) db.networks ≡ some net
      → allocator env.v6 net.ipv4_prefix net.ipv6_prefix ≡ ok pool
      → derive_node_id env req.public_key ≡ ok id
      → All (IsPooled env.v6 pool net.id) db.nodes
      → find? (has_id id) db.nodes ≡ none
      → ((x y : Text)
          → allocate env.v6 pool
              (allocated (λ n. n.mesh_ipv4) net.id db.nodes)
              (allocated (λ n. n.mesh_ipv6) net.id db.nodes)
            ≡ ok (x, y)
          → (register_node env req name now db ≡ (
            ok (new_node req now id net.id x y),
            record db { nodes = db.nodes ++ new_node req now id net.id x y ∷ [] },
          ))
            × All (IsPooled env.v6 pool net.id) (db.nodes ++ new_node req now id net.id x y ∷ []))
        × ((e : Exception)
            → allocate env.v6 pool
                (allocated (λ n. n.mesh_ipv4) net.id db.nodes)
                (allocated (λ n. n.mesh_ipv6) net.id db.nodes)
              ≡ raise e
            → register_node env req name now db ≡ (raise e, db))
  register_node-new name id db found pooled derived ps fresh = (
    λ x y h. (
      register_node-save name id db found pooled derived
          ∙ rw fresh (save_node-new id db ps fresh x y h),
      All-snoc _ db.nodes _ ps (new_node-IsPooled id x y _ _ h),
    ),
    λ e h. register_node-save name id db found pooled derived ∙ rw fresh (unfold save_node in rw h),
  )

  -- A node that is registered again, under its public key, is answered with its row renewed: it
  -- keeps its id, its network, its addresses, its NAT type and its creation time, is online and seen
  -- now, and takes the rest from the request. The row with its id is renewed so in the table, no
  -- address is allocated, no other row changes, and nodes with the addresses of one host of a pool keep
  -- them.
  pub register_node-again :
      (name : Text) (id : Text) (db : Database) (n : NodeModel)
      → find? (is_named name) db.networks ≡ some net
      → allocator env.v6 net.ipv4_prefix net.ipv6_prefix ≡ ok pool
      → derive_node_id env req.public_key ≡ ok id
      → All (IsPooled env.v6 pool net.id) db.nodes
      → find? (has_id id) db.nodes ≡ some n
      → (n' : NodeModel) × (rows : List NodeModel) × (register_node env req name now db
          ≡ (ok n', record db { nodes = rows }))
        × IsRenewed req now n n'
        × Renewed req now id db.nodes rows
        × All (IsPooled env.v6 pool net.id) rows
  register_node-again name id db n found pooled derived ps there = (
    reregister req now n,
    update_rows (has_id id) (reregister req now) db.nodes,
    register_node-save name id db found pooled derived ∙ rw there (unfold save_node in refl),
    reregister-IsRenewed req now n,
    update_rows-Renewed req now id db.nodes,
    All-update_rows _ _ db.nodes (reregister-IsPooled env.v6 pool net.id req now) ps,
  )
