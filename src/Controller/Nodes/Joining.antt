-- ===== src/Controller/Nodes/Joining.antt =====
-- What a node that registers is told is what the table has of it (pymesh/controller/nodes.py).
use mathlib.Core.Path.{subst}
use pymesh.Base.{
  find?-holds, ℕ, ◌≡◌, refl, ◌∙◌, ap, sym, Bool, true, false, Option, none, some, List, [], ◌∷◌,
  ◌++◌, if◌then◌else◌, text_eq, find?, any, arith, eq_iff, eq_refl, Bool-cases, inl, inr,
}
use pymesh.Base.Text.{Text, codes}
use pymesh.Base.Result.{Result, ok, raise, integrity, http}
use pymesh.Allocator.{IpAllocator, allocator, allocate}
use pymesh.Controller.Models.{Database, Network, NodeModel, node_clash}
use pymesh.Controller.Action.{Action, pure, lift, ◌>>=◌, update_rows, continue, bind_ok, fail}
use pymesh.Controller.Nodes.{
  Env, NodeRegistrationRequest, NodeRegistrationResponse, has_id, allocated, reregister, new_node,
  add_node, derive_node_id, save_node, get_or_create_network, register_node, register, check_header,
  respond,
}
use pymesh.Controller.Nodes.Lookups.{find-updated}

-- the table has the node under its id
abbrev pub Listed : NodeModel → Database → Type 0
Listed n db = find? (has_id n.id) db.nodes ≡ some n

find-snoc :
    (id : Text) (n : NodeModel) (rows : List NodeModel)
    → find? (has_id id) rows ≡ none
    → n.id ≡ id
    → find? (has_id id) (rows ++ n ∷ []) ≡ some n
unfolding find?
find-snoc id n [] h e = ground (arith, eq_iff n.id id)
find-snoc id n (r ∷ rows) h e = ground (arith, find-snoc id n rows)

-- the same of what a handler returns, with nothing to say of an exception
abbrev IsListed : Result NodeModel × Database → Type 0
IsListed (ok n, db) = Listed n db
IsListed (raise e, db) = Unit {0}

bind-IsListed {ℓ} :
    {A : Type ℓ} (m : Action A) (k : A → Action NodeModel) (db : Database)
    → ((a : A) (db₁ : Database) → m db ≡ (ok a, db₁) → IsListed (k a db₁))
    → IsListed ((m >>= k) db)
unfolding ◌>>=◌
bind-IsListed {A = A} m k db listed = at (m db) refl
  where
    at : (r : Result A × Database) → m db ≡ r → IsListed (continue r.0 k r.1)
    at (ok a, db₁) e = listed a db₁ e
    at (raise x, db₁) e = tt

lift-IsListed {ℓ} :
    {A : Type ℓ} (r : Result A) (k : A → Action NodeModel) (db : Database)
    → ((a : A) → IsListed (k a db))
    → IsListed ((lift r >>= k) db)
unfolding ◌>>=◌
lift-IsListed (ok a) k db listed = listed a
lift-IsListed (raise x) k db listed = tt

add_node-clash :
    (n : NodeModel) (db : Database)
    → any (node_clash n) db.nodes ≡ true
    → add_node n db ≡ (raise integrity, db)
unfolding add_node
add_node-clash n db e = rw (e, add_node) refl

add_node-free :
    (n : NodeModel) (db : Database)
    → any (node_clash n) db.nodes ≡ false
    → add_node n db ≡ (ok tt, record db { nodes = db.nodes ++ n ∷ [] })
unfolding add_node
add_node-free n db e = rw (e, add_node) refl

add_node-IsListed :
    (n : NodeModel) (db : Database)
    → find? (has_id n.id) db.nodes ≡ none
    → IsListed ((add_node n >>= λ _. pure n) db)
unfolding ◌>>=◌ add_node
add_node-IsListed n db absent = elim (Bool-cases (any (node_clash n) db.nodes)) [
  | inl e ↦ subst after (sym (add_node-clash n db e)) tt
  | inr e ↦ subst after (sym (add_node-free n db e)) (find-snoc n.id n db.nodes absent refl)
]
  where
    after : Result (Unit {0}) × Database → Type 0
    after r = IsListed (continue r.0 (λ _. pure n) r.1)

reregister-Listed :
    (req : NodeRegistrationRequest) (now : ℕ) (id : Text) (n : NodeModel) (db : Database)
    → find? (has_id id) db.nodes ≡ some n
    → find?
        (has_id (reregister req now n).id)
        (update_rows (has_id id) (reregister req now) db.nodes)
      ≡ some (reregister req now n)
reregister-Listed req now id n db e =
    let same : n.id ≡ id = (eq_iff n.id id).0 (find?-holds (has_id id) db.nodes n e) in
    ap (λ k. find? (has_id k) (update_rows (has_id id) (reregister req now) db.nodes)) same
    ∙ find-updated id id (reregister req now) db.nodes (λ n. refl)
    ∙ rw (eq_refl id) (rw e refl)

save_node-IsListed :
    (env : Env) (req : NodeRegistrationRequest) (now : ℕ) (net : Network) (pool : IpAllocator)
    (id : Text) (o : Option NodeModel) (db : Database)
    → find? (has_id id) db.nodes ≡ o
    → IsListed (save_node env req now net pool id o db)
unfolding save_node ◌>>=◌
save_node-IsListed env req now net pool id (some existing) db e =
    reregister-Listed req now id existing db e
save_node-IsListed env req now net pool id none db e =
    lift-IsListed
      (allocate env.v6 pool (allocated (λ n. n.mesh_ipv4) net.id db.nodes)
        (allocated (λ n. n.mesh_ipv6) net.id db.nodes))
      _ db (λ pair. add_node-IsListed (new_node req now id net.id pair.0 pair.1) db e)

register_node-IsListed :
    (env : Env) (req : NodeRegistrationRequest) (name : Text) (now : ℕ) (db : Database)
    → IsListed (register_node env req name now db)
unfolding register_node ◌>>=◌
register_node-IsListed env req name now db =
    bind-IsListed (get_or_create_network name now) _ db (λ net db₁ e.
      lift-IsListed (allocator env.v6 net.ipv4_prefix net.ipv6_prefix) _ db₁ (λ pool.
        lift-IsListed (derive_node_id env req.public_key) _ db₁
          (λ id. save_node-IsListed env req now net pool id _ db₁ refl)))

-- the answer names a node of the table, with its name and its addresses
pub record IsTold (r : NodeRegistrationResponse) (db : Database) : Type 0 where
  pub node : NodeModel
  pub listed : find? (has_id r.node_id) db.nodes ≡ some node
  pub hostname : r.hostname ≡ node.hostname
  pub v4 : r.mesh_ipv4 ≡ node.mesh_ipv4
  pub v6 : r.mesh_ipv6 ≡ node.mesh_ipv6

abbrev Told : Result NodeRegistrationResponse × Database → Type 0
Told (ok r, db) = IsTold r db
Told (raise e, db) = Unit {0}

accepted :
    (env : Env) (req : NodeRegistrationRequest) (now : ℕ) (db db' : Database)
    (r : NodeRegistrationResponse) (valid : Bool)
    → (if valid
          then (register_node env req (codes "pymesh") now >>= λ node. pure (respond env node))
          else fail (http 401))
        db
      ≡ (ok r, db')
    → IsTold r db'
accepted env req now db db' r false h = cc
accepted env req now db db' r true h =
    let (node, db₁, stored, e) =
      bind_ok (register_node env req (codes "pymesh") now) _ db db' r h in
    subst Told e (record {
      node = node;
      listed = subst IsListed stored (register_node-IsListed env req (codes "pymesh") now db);
      hostname = refl;
      v4 = refl;
      v6 = refl;
    })

-- A node whose registration is answered, by whatever token and whether it is new or known, is in
-- the table under the id of the answer, with the name and the addresses of the answer.
pub register-IsTold :
    (env : Env) (req : NodeRegistrationRequest) (authorization : Option Text) (now : ℕ)
    (db db' : Database) (r : NodeRegistrationResponse)
    → register env req authorization now db ≡ (ok r, db')
    → IsTold r db'
unfolding register
register-IsTold env req authorization now db db' r h =
    let (valid, db₁, checked, e) = bind_ok (check_header env authorization) _ db db' r h in
    accepted env req now db₁ db' r valid e
