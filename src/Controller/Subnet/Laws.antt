-- ===== src/Controller/Subnet/Laws.antt =====
-- What a change of the subnet does to the nodes (pymesh/controller/api.py).
use pymesh.Base.{
  ◌≡◌, ◌≢◌, refl, sym, true, false, List, [], ◌∷◌, text_eq, contains, arith, eq_iff, Bool-cases,
  inl, inr, ◌⊎◌,
}
use pymesh.Base.Text.{Text}
use pymesh.Base.Result.{Result, ok, raise, Exception}
use pymesh.Ipv4.Networks.{IsNetwork, hosts-IsHost}
use pymesh.Allocator.{Ipv6, IpAllocator, allocate}
use pymesh.Allocator.Laws.{allocate-ok, allocate-unused}
use pymesh.Controller.Models.{NodeModel}
use pymesh.Controller.Nodes.{in_network}
use pymesh.Controller.Nodes.Registration.{IsPooled}
use pymesh.Controller.Subnet.{readdress, prepend, reallocate}

pub Result-cases {ℓ} :
    {A : Type ℓ} (r : Result A) → ((a : A) × (r ≡ ok a)) ⊎ ((e : Exception) × (r ≡ raise e))
Result-cases (ok a) = inl (a, refl)
Result-cases (raise e) = inr (e, refl)

pub ok-injective {ℓ} : {A : Type ℓ} (a b : A) → ok a ≡ ok b → a ≡ b
ok-injective a b h = cc

prepend-ok :
    (n : NodeModel) (r : Result (List NodeModel)) (out : List NodeModel)
    → prepend n r ≡ ok out
    → (rest : List NodeModel) × (r ≡ ok rest) × (out ≡ n ∷ rest)
prepend-ok n (ok rest) out h = (rest, refl, sym (ok-injective _ _ h))
prepend-ok n (raise e) out h = absurd (ground arith)

-- what the loop leaves of a list of nodes
pub data Readdressed (v6 : Ipv6) (pool : IpAllocator) (network_id : Text)
    : List Text → List NodeModel → List NodeModel → Type 0 where
  end : {used : List Text} → Readdressed v6 pool network_id used [] []
  -- a node of the network has the addresses of one host of the pool, which no node before it has
  moved :
      {used : List Text} {n : NodeModel} {x y : Text} {rows rows' : List NodeModel}
      → IsPooled v6 pool network_id (readdress (x, y) n)
      → contains x used ≡ false
      → Readdressed v6 pool network_id (x ∷ used) rows rows'
      → Readdressed v6 pool network_id used (n ∷ rows) (readdress (x, y) n ∷ rows')
  -- a node of another network is left as it is
  kept :
      {used : List Text} {n : NodeModel} {rows rows' : List NodeModel}
      → n.network_id ≢ network_id
      → Readdressed v6 pool network_id used rows rows'
      → Readdressed v6 pool network_id used (n ∷ rows) (n ∷ rows')

module _ (v6 : Ipv6) (pool : IpAllocator) (network_id : Text) (w : IsNetwork pool.ipv4_net) where
  allocate-IsPooled :
      (n : NodeModel) (x y : Text) (used_v4 used_v6 : List Text)
      → in_network network_id n ≡ true
      → allocate v6 pool used_v4 used_v6 ≡ ok (x, y)
      → IsPooled v6 pool network_id (readdress (x, y) n)
  allocate-IsPooled n x y used_v4 used_v6 e h =
      let (f, p) = allocate-ok v6 pool w used_v4 used_v6 x y h in
      record {
        host = f.host;
        inside = hosts-IsHost pool.ipv4_net f.host f.low f.high;
        pair = p;
        member = (eq_iff n.network_id network_id).0 e;
      }

  -- If the loop over the nodes ends without an error, each node of the network has the IPv4 and
  -- IPv6 address of one host of the new pool and nothing else of it is changed, no two of them
  -- have the same IPv4 address, and the nodes of other networks are as before, all in their order.
  pub reallocate-ok :
      (used_v4 used_v6 : List Text) (rows rows' : List NodeModel)
      → reallocate v6 pool network_id used_v4 used_v6 rows ≡ ok rows'
      → Readdressed v6 pool network_id used_v4 rows rows'
  unfolding reallocate
  reallocate-ok used_v4 used_v6 [] rows' h = rw (← ok-injective [] rows' h) end
  reallocate-ok used_v4 used_v6 (n ∷ rows) rows' h = elim (Bool-cases (in_network network_id n)) [
    | inl e ↦ elim (Result-cases (allocate v6 pool used_v4 used_v6)) [
      | inr (error, a) ↦ absurd (ground arith)
      | inl ((x, y), a) ↦
          let (rest, r, shown) =
            prepend-ok (readdress (x, y) n) _ rows' (rw (e, reallocate, a) at h) in
          rw shown (
            moved (allocate-IsPooled n x y used_v4 used_v6 e a)
              (allocate-unused v6 pool w used_v4 used_v6 x y a)
              (reallocate-ok (x ∷ used_v4) (y ∷ used_v6) rows rest r))
    ]
    | inr e ↦
        let (rest, r, shown) = prepend-ok n _ rows' (rw (e, reallocate) at h) in
        rw shown (
          kept (λ p. ground (arith, eq_iff n.network_id network_id, p))
            (reallocate-ok used_v4 used_v6 rows rest r))
  ]
