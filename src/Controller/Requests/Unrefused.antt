-- ===== src/Controller/Requests/Unrefused.antt =====
-- Why a registration (pymesh/controller/nodes.py) is not refused by the constraints of the table.
use pymesh.Base.{
  ℕ, ◌≡◌, ◌≢◌, refl, ap, ◌∙◌, Option, none, some, List, text_eq, find?, arith, inl, inr,
}
use pymesh.Base.Text.{Text, codes}
use pymesh.Base.Result.{Result, ok, raise, Exception, integrity}
use pymesh.Allocator.{Ipv6, IpAllocator, allocator, allocate, derive_v6}
use pymesh.Controller.Models.{Database, Network, NodeModel}
use pymesh.Controller.Nodes.{
  Env, NodeRegistrationRequest, has_id, allocated, derive_node_id, save_node, register_node,
}
use pymesh.Controller.Nodes.Registration.{save_node-new}
use pymesh.Controller.Subnet.Laws.{Result-cases}
use pymesh.Controller.Requests.Sound.{IsSound}
use pymesh.Controller.Requests.Registering.{Has, get_or_create_network-Has, pooled, built-IsNetwork}

allocator-ne-integrity : (v6 : Ipv6) (c d : Text) → allocator v6 c d ≢ raise integrity
unfolding allocator
allocator-ne-integrity v6 c d h = ground arith

allocate-ne-integrity :
    (v6 : Ipv6) (pool : IpAllocator) (s t : List Text) → allocate v6 pool s t ≢ raise integrity
unfolding allocate derive_v6
allocate-ne-integrity v6 pool s t h = ground arith

error-ne-integrity {ℓ κ} :
    {A : Type ℓ} {B : Type κ} (r : Result A) (x : Exception)
    → r ≡ raise x
    → r ≢ raise integrity
    → ◌≢◌ {A = Result B} (raise x) (raise integrity)
error-ne-integrity r x e other h =
    let same : x ≡ integrity = cc in other (e ∙ ap (λ y. raise y) same)

module _ (env : Env) where
  derive-ne-integrity : (key : Text) → derive_node_id env key ≢ raise integrity
  unfolding derive_node_id
  derive-ne-integrity key h = ground arith

  save_node-ne-integrity :
      (req : NodeRegistrationRequest) (now : ℕ) (net : Network) (pool : IpAllocator)
      → allocator env.v6 net.ipv4_prefix net.ipv6_prefix ≡ ok pool
      → (id : Text) (o : Option NodeModel) (db : Database) → Has env net db
      → find? (has_id id) db.nodes ≡ o
      → (save_node env req now net pool id o db).0 ≢ raise integrity
  save_node-ne-integrity req now net pool built id (some n) db (s, e) found =
      unfold save_node in λ h. absurd (ground arith)
  save_node-ne-integrity req now net pool built id none db (s, e) fresh =
      elim (Result-cases (
        allocate env.v6 pool (allocated (λ n. n.mesh_ipv4) net.id db.nodes)
          (allocated (λ n. n.mesh_ipv6) net.id db.nodes))) [
            | inr (x, h) ↦
                unfold save_node in
                rw h (error-ne-integrity _ x h (allocate-ne-integrity env.v6 pool _ _))
            | inl ((x, y), h) ↦
                rw
                  (save_node-new env req now net pool (built-IsNetwork env req now net pool built)
                    id db (pooled env net db pool (s, e) built) fresh x y h)
                  (λ r. absurd (ground arith))
          ]

  pub unrefused :
      (req : NodeRegistrationRequest) (now : ℕ) (db : Database)
      → IsSound env db
      → (register_node env req (codes "pymesh") now db).0 ≢ raise integrity
  unfolding register_node
  unrefused req now db s =
      let (net, db₁, found, (s₁, e)) = get_or_create_network-Has env now db s in
      elim (Result-cases (allocator env.v6 net.ipv4_prefix net.ipv6_prefix)) [
        | inr (x, h) ↦
            rw (found, h)
              (error-ne-integrity _ x h
                (allocator-ne-integrity env.v6 net.ipv4_prefix net.ipv6_prefix))
        | inl (pool, h) ↦ elim (Result-cases (derive_node_id env req.public_key)) [
          | inr (x, d) ↦
              rw (found, h, d) (error-ne-integrity _ x d (derive-ne-integrity req.public_key))
          | inl (id, d) ↦
              rw (found, h, d) (save_node-ne-integrity req now net pool h id _ db₁ (s₁, e) refl)
        ]
      ]
