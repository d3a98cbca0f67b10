-- ===== src/Controller/Requests/Placing.antt =====
-- The handlers of pymesh/controller/api.py that change nodes keep the tables sound.
use pymesh.Base.{
  ℕ, ◌≡◌, refl, Bool, not, Option, none, some, List, [], ◌∷◌, text_eq, filter, any, All, All-filter,
  Bool-cases, inl, inr,
}
use pymesh.Base.Text.{Text}
use pymesh.Allocator.{Ipv6, IpAllocator}
use pymesh.Controller.Models.{Database, Network, NodeModel, node_clash}
use pymesh.Controller.Action.{update_rows, All-update_rows}
use pymesh.Controller.Nodes.{
  Env, HeartbeatRequest, has_id, beat, beat_found, delete_node, heartbeat, get_node,
}
use pymesh.Controller.Nodes.Registration.{IsPooled}
use pymesh.Controller.Requests.Keys.{Keyed-filter, Keyed-update_rows}
use pymesh.Controller.Requests.Sound.{OneNetwork, IsSound, IsSound-nodes, Keeps}

module _ (env : Env) where
  OneNetwork-rows :
      (networks : List Network) (rows rows' : List NodeModel)
      → (rows ≡ [] → rows' ≡ [])
      → ((v6 : Ipv6) (pool : IpAllocator) (id : Text)
          → All (IsPooled v6 pool id) rows
          → All (IsPooled v6 pool id) rows')
      → OneNetwork env networks rows
      → OneNetwork env networks rows'
  OneNetwork-rows [] rows rows' vacant kept p = vacant p
  OneNetwork-rows (net ∷ []) rows rows' vacant kept (name, id, inl p) = (name, id, inl (vacant p))
  OneNetwork-rows (net ∷ []) rows rows' vacant kept (name, id, inr (pool, built, ps)) =
      (name, id, inr (pool, built, kept env.v6 pool net.id ps))
  OneNetwork-rows (net ∷ other ∷ rest) rows rows' vacant kept p = p

  filter-vacant :
      (test : NodeModel → Bool) (rows : List NodeModel) → rows ≡ [] → filter test rows ≡ []
  unfolding filter
  filter-vacant test [] h = refl
  filter-vacant test (n ∷ rows) h = cc

  pub delete_node-Keeps : (id : Text) → Keeps env (delete_node id)
  unfolding delete_node
  delete_node-Keeps id db s = elim (Bool-cases (any (has_id id) db.nodes)) [
    | inl e ↦ rw e rest
    | inr e ↦ rw e rest
  ]
    where
      left : List NodeModel
      left = filter (λ n. not (has_id id n)) db.nodes

      rest : IsSound env (record db { nodes = left })
      rest =
          IsSound-nodes s
            (OneNetwork-rows db.networks db.nodes left (filter-vacant _ db.nodes)
              (λ v6 pool id. All-filter _ _ db.nodes) s.placed)
            (Keyed-filter node_clash _ db.nodes s.nodes)

  update-vacant :
      (test : NodeModel → Bool) (f : NodeModel → NodeModel) (rows : List NodeModel)
      → rows ≡ []
      → update_rows test f rows ≡ []
  unfolding update_rows
  update-vacant test f [] h = refl
  update-vacant test f (n ∷ rows) h = cc

  -- a change of nodes that leaves their ids, networks and addresses
  module _ (f : NodeModel → NodeModel)
      (left : (a b : NodeModel) → node_clash (f a) b ≡ node_clash a b)
      (right : (a b : NodeModel) → node_clash a (f b) ≡ node_clash a b)
      (kept : (v6 : Ipv6) (pool : IpAllocator) (id : Text) (n : NodeModel)
        → IsPooled v6 pool id n
        → IsPooled v6 pool id (f n)) where
    pub update-IsSound :
        (test : NodeModel → Bool) (db : Database)
        → IsSound env db
        → IsSound env (record db { nodes = update_rows test f db.nodes })
    update-IsSound test db s =
        IsSound-nodes s
          (OneNetwork-rows db.networks db.nodes (update_rows test f db.nodes)
            (update-vacant test f db.nodes)
            (λ v6 pool id. All-update_rows test f db.nodes (kept v6 pool id)) s.placed)
          (Keyed-update_rows node_clash f left right test db.nodes s.nodes)

  beat-IsPooled :
      (req : HeartbeatRequest) (now : ℕ) (v6 : Ipv6) (pool : IpAllocator) (id : Text)
      (n : NodeModel)
      → IsPooled v6 pool id n
      → IsPooled v6 pool id (beat req now n)
  beat-IsPooled req now v6 pool id n p = record {
    host = p.host;
    inside = p.inside;
    pair = p.pair;
    member = p.member;
  }

  beat_found-Keeps :
      (id : Text) (req : HeartbeatRequest) (now : ℕ) (o : Option NodeModel)
      → Keeps env (beat_found id req now o)
  beat_found-Keeps id req now none db s = s
  beat_found-Keeps id req now (some n) db s =
      update-IsSound (beat req now) (λ a b. refl) (λ a b. refl) (beat-IsPooled req now) (has_id id)
        db s

  pub heartbeat-Keeps :
      (id : Text) (req : HeartbeatRequest) (now : ℕ) → Keeps env (heartbeat id req now)
  unfolding heartbeat get_node
  heartbeat-Keeps id req now db s = beat_found-Keeps id req now _ db s
