-- ===== src/Controller/Requests/Registering.antt =====
-- The registration of a node (pymesh/controller/nodes.py) keeps the tables sound.
use mathlib.Core.Path.{subst}
use pymesh.Base.{
  ℕ, ◌≡◌, refl, ◌∙◌, sym, Bool, true, false, Option, none, some, List, [], ◌∷◌, ◌++◌, if◌then◌else◌,
  text_eq, list_beq, find?, any, All, All-snoc, eq_iff, Option-cases, inl, inr,
}
use pymesh.Base.Text.{Text, codes, starts_with}
use pymesh.Base.Result.{ok, http}
use pymesh.Ipv4.Networks.{IsNetwork}
use pymesh.Allocator.{IpAllocator, allocator, allocate}
use pymesh.Allocator.Laws.{allocator-IsNetwork, allocate-unused}
use pymesh.Controller.Models.{Database, Network, NodeModel, node_clash}
use pymesh.Controller.Action.{pure, fail, ◌>>=◌}
use pymesh.Controller.Nodes.{
  Env, NodeRegistrationRequest, has_id, new_network, get_or_create_network, allocated, reregister,
  new_node, derive_node_id, save_node, register_node, register, respond, check_header, bearer,
}
use pymesh.Controller.Nodes.Registration.{
  IsPooled, no_clash, new_node-IsPooled, save_node-new, reregister-IsPooled,
}
use pymesh.Controller.Subnet.Laws.{Result-cases}
use pymesh.Controller.Requests.Keys.{Keyed-snoc}
use pymesh.Controller.Requests.Sound.{
  Placed, OneNetwork, IsSound, IsSound-nodes, node_clash-symmetric, Keeps, bind-Keeps,
}
use pymesh.Controller.Requests.Kept.{validate_token-Keeps}
use pymesh.Controller.Requests.Placing.{update-IsSound}
use pymesh.Controller.Subnet.Laws.{ok-injective}

module _ (env : Env) where
  -- the tables are sound and have just this network
  abbrev pub Has : Network → Database → Type 0
  Has net db = IsSound env db × (db.networks ≡ net ∷ [])

  first_network :
      (now : ℕ) (db : Database)
      → IsSound env db
      → db.networks ≡ []
      → Has
          (new_network (codes "pymesh") now)
          (record db { networks = new_network (codes "pymesh") now ∷ [] })
  first_network now db s e =
      let vacant : db.nodes ≡ [] = subst (λ l. OneNetwork env l db.nodes) e s.placed in
      (IsSound-nodes s (refl, refl, inl vacant) s.nodes, refl)

  -- the network that is found or made
  pub get_or_create_network-Has :
      (now : ℕ) (db : Database)
      → IsSound env db
      → (net : Network) × (db₁ : Database) × (get_or_create_network (codes "pymesh") now db
          ≡ (ok net, db₁))
        × Has net db₁
  unfolding get_or_create_network find? any
  get_or_create_network-Has now db s = at db.networks refl
    where
      at :
          (networks : List Network)
          → db.networks ≡ networks
          → (net : Network) × (db₁ : Database) × (get_or_create_network (codes "pymesh") now db
              ≡ (ok net, db₁))
            × Has net db₁
      at [] e = (
        new_network (codes "pymesh") now,
        record db { networks = new_network (codes "pymesh") now ∷ [] },
        rw (e, get_or_create_network) refl,
        first_network now db s e,
      )
      at (net ∷ []) e =
          let placed : OneNetwork env (net ∷ []) db.nodes =
            subst (λ l. OneNetwork env l db.nodes) e s.placed in
          let named : list_beq net.name (codes "pymesh") ≡ true = (eq_iff _ _).1 placed.0 in
          (net, db, rw (e, get_or_create_network) (rw named refl), (s, e))
      at (net ∷ other ∷ rest) e = absurd (subst (λ l. OneNetwork env l db.nodes) e s.placed)

  -- the nodes of these tables, whichever pool is built from the network
  pub pooled :
      (net : Network) (db : Database) (pool : IpAllocator)
      → Has net db
      → allocator env.v6 net.ipv4_prefix net.ipv6_prefix ≡ ok pool
      → All (IsPooled env.v6 pool net.id) db.nodes
  pooled net db pool (s, e) built = at (subst (λ l. OneNetwork env l db.nodes) e s.placed).2
    where
      at : Placed env net db.nodes → All (IsPooled env.v6 pool net.id) db.nodes
      at (inl vacant) = subst (λ l. All (IsPooled env.v6 pool net.id) l) (sym vacant) tt
      at (inr (p, e', ps)) =
          let same : p ≡ pool = ok-injective p pool (sym e' ∙ built) in
          subst (λ q. All (IsPooled env.v6 q net.id) db.nodes) same ps

  module _ (req : NodeRegistrationRequest) (now : ℕ) (net : Network) (pool : IpAllocator)
      (built : allocator env.v6 net.ipv4_prefix net.ipv6_prefix ≡ ok pool) where
    pub built-IsNetwork : IsNetwork pool.ipv4_net
    built-IsNetwork = allocator-IsNetwork env.v6 net.ipv4_prefix net.ipv6_prefix pool built

    added-IsSound :
        (id x y : Text) (db : Database)
        → Has net db
        → find? (has_id id) db.nodes ≡ none
        → allocate env.v6 pool
            (allocated (λ n. n.mesh_ipv4) net.id db.nodes)
            (allocated (λ n. n.mesh_ipv6) net.id db.nodes)
          ≡ ok (x, y)
        → IsSound env (record db { nodes = db.nodes ++ new_node req now id net.id x y ∷ [] })
    added-IsSound id x y db (s, e) fresh h =
        let ps = pooled net db pool (s, e) built in
        let n = new_node req now id net.id x y in
        let p = new_node-IsPooled env req now net pool built-IsNetwork id x y _ _ h in
        let free =
          no_clash env.v6 pool net.id n db.nodes p ps fresh
            (allocate-unused env.v6 pool built-IsNetwork _ _ x y h) in
        let known : OneNetwork env (net ∷ []) db.nodes =
          subst (λ l. OneNetwork env l db.nodes) e s.placed in
        let rows : OneNetwork env (net ∷ []) (db.nodes ++ n ∷ []) =
          (known.0, known.1, inr (pool, built, All-snoc _ db.nodes n ps p)) in
        IsSound-nodes s (subst (λ l. OneNetwork env l (db.nodes ++ n ∷ [])) (sym e) rows)
          (Keyed-snoc node_clash db.nodes n node_clash-symmetric free s.nodes)

    save_node-IsSound :
        (id : Text) (o : Option NodeModel) (db : Database)
        → Has net db
        → find? (has_id id) db.nodes ≡ o
        → IsSound env (save_node env req now net pool id o db).1
    save_node-IsSound id (some n) db (s, e) found =
        unfold save_node in
        update-IsSound env (reregister req now) (λ a b. refl) (λ a b. refl)
          (λ v6 pool id n. reregister-IsPooled v6 pool id req now n) (has_id id) db s
    save_node-IsSound id none db (s, e) fresh =
        elim (Result-cases (
          allocate env.v6 pool (allocated (λ n. n.mesh_ipv4) net.id db.nodes)
            (allocated (λ n. n.mesh_ipv6) net.id db.nodes))) [
              | inr (x, h) ↦ unfold save_node in rw h s
              | inl ((x, y), h) ↦
                  rw
                    (save_node-new env req now net pool built-IsNetwork id db
                      (pooled net db pool (s, e) built) fresh x y h)
                    (added-IsSound id x y db (s, e) fresh h)
            ]

  pub register_node-Keeps :
      (req : NodeRegistrationRequest) (now : ℕ)
      → Keeps env (register_node env req (codes "pymesh") now)
  unfolding register_node
  register_node-Keeps req now db s =
      let (net, db₁, found, (s₁, e)) = get_or_create_network-Has now db s in
      elim (Result-cases (allocator env.v6 net.ipv4_prefix net.ipv6_prefix)) [
        | inr (x, h) ↦ rw (found, h) s₁
        | inl (pool, h) ↦ elim (Result-cases (derive_node_id env req.public_key)) [
          | inr (x, d) ↦ rw (found, h, d) s₁
          | inl (id, d) ↦
              rw (found, h, d) (save_node-IsSound req now net pool h id _ db₁ (s₁, e) refl)
        ]
      ]

  check_header-Keeps : (authorization : Option Text) → Keeps env (check_header env authorization)
  unfolding starts_with
  check_header-Keeps none db s = s
  check_header-Keeps (some header) db s = elim (Option-cases (bearer env header)) [
    | inl e ↦ rw e s
    | inr (token, e) ↦ rw e (validate_token-Keeps env token db s)
  ]

  pub register-Keeps :
      (req : NodeRegistrationRequest) (authorization : Option Text) (now : ℕ)
      → Keeps env (register env req authorization now)
  unfolding register
  register-Keeps req authorization now =
      bind-Keeps env (check_header env authorization) _ (check_header-Keeps authorization) checked
    where
      checked :
          (valid : Bool)
          → Keeps env (
              if valid
              then (register_node env req (codes "pymesh") now >>= λ node. pure (respond env node))
              else fail (http 401))
      checked true db s =
          bind-Keeps env (register_node env req (codes "pymesh") now)
            (λ node. pure (respond env node)) (register_node-Keeps req now) (λ _ db s. s) db s
      checked false db s = s
