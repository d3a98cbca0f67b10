-- ===== src/Console/Dashboard/Unmoved.antt =====
-- A change of the subnet that is refused (pymesh/controller/api.py) leaves the nodes as they were.
use pymesh.Base.{
  ℕ, ◌≡◌, refl, ap, ◌∙◌, Option, none, some, List, [], text_eq, length, find?, filter, any,
  Bool-cases, inl, inr,
}
use pymesh.Base.Text.{Text, codes}
use pymesh.Base.Result.{Result, ok, raise}
use pymesh.Allocator.{Ipv6, allocator, validate_cidr}
use pymesh.Controller.Models.{Database, Network, NodeModel, network_clash}
use pymesh.Controller.Action.{Action, pure, ◌>>=◌, continue}
use pymesh.Controller.Nodes.{
  is_named, in_network, new_network, add_network, get_or_create_network, or_create,
}
use pymesh.Controller.Subnet.{
  SubnetUpdate, flush_clash, or_default, reallocate, save_prefixes, update_network_subnet,
}
use pymesh.Controller.Subnet.Laws.{Result-cases}

-- a refused request has left the nodes as they were
abbrev pub Unmoved : List NodeModel → Result SubnetUpdate × Database → Type 0
Unmoved nodes (ok _, db) = Unit
Unmoved nodes (raise e, db) = db.nodes ≡ nodes

bind-Unmoved {ℓ} :
    {A : Type ℓ} (m : Action A) (k : A → Action SubnetUpdate) (nodes : List NodeModel)
    (db : Database)
    → (m db).1.nodes ≡ nodes
    → ((a : A) (db₁ : Database) → db₁.nodes ≡ nodes → Unmoved nodes (k a db₁))
    → Unmoved nodes ((m >>= k) db)
unfolding ◌>>=◌
bind-Unmoved {A = A} m k nodes db same rest = at (m db) same
  where
    at : (r : Result A × Database) → r.1.nodes ≡ nodes → Unmoved nodes (continue r.0 k r.1)
    at (ok a, db₁) e = rest a db₁ e
    at (raise x, db₁) e = e

add_network-nodes : (net : Network) (db : Database) → (add_network net db).1.nodes ≡ db.nodes
add_network-nodes net db = elim (Bool-cases (any (network_clash net) db.networks)) [
  | inl e ↦ rw (e, add_network) refl
  | inr e ↦ rw (e, add_network) refl
]

-- a chain that may only answer or pass on an error
kept_by {ℓ κ} :
    {A : Type ℓ} {B : Type κ} (m : Action A) (k : A → Action B) (nodes : List NodeModel)
    (db : Database)
    → (m db).1.nodes ≡ nodes
    → ((a : A) (db₁ : Database) → (k a db₁).1 ≡ db₁)
    → ((m >>= k) db).1.nodes ≡ nodes
unfolding ◌>>=◌
kept_by {A = A} m k nodes db same rest = at (m db) same
  where
    at : (r : Result A × Database) → r.1.nodes ≡ nodes → (continue r.0 k r.1).1.nodes ≡ nodes
    at (ok a, db₁) e = ap (λ d. d.nodes) (rest a db₁) ∙ e
    at (raise x, db₁) e = e

get_or_create_network-nodes :
    (name : Text) (now : ℕ) (db : Database) → (get_or_create_network name now db).1.nodes ≡ db.nodes
unfolding get_or_create_network
get_or_create_network-nodes name now db = at (find? (is_named name) db.networks)
  where
    at : (o : Option Network) → (or_create name now o db).1.nodes ≡ db.nodes
    at (some net) = refl
    at none =
        kept_by (add_network (new_network name now)) (λ _. pure (new_network name now)) db.nodes db
          (add_network-nodes (new_network name now) db) (λ a d. refl)

save_prefixes-Unmoved :
    (v4 : Text) (o : Option Text) (id : Text) (rows nodes : List NodeModel) (u : SubnetUpdate)
    (db : Database)
    → db.nodes ≡ nodes
    → Unmoved nodes ((save_prefixes v4 o id rows >>= λ _. pure u) db)
unfolding ◌>>=◌
save_prefixes-Unmoved v4 o id rows nodes u db same = elim (Bool-cases (flush_clash rows db.nodes)) [
  | inl e ↦ rw e same
  | inr e ↦ rw e tt
]

pub update_network_subnet-Unmoved :
    (v6 : Ipv6) (v4 : Text) (o : Option Text) (now : ℕ) (db : Database)
    → Unmoved db.nodes (update_network_subnet v6 v4 o now db)
unfolding update_network_subnet
update_network_subnet-Unmoved v6 v4 o now db = elim (Bool-cases (validate_cidr v6 v4 o)) [
  | inr e ↦ rw e refl
  | inl e ↦ rw e (
      bind-Unmoved (get_or_create_network (codes "pymesh") now) _ db.nodes db
        (get_or_create_network-nodes (codes "pymesh") now db)
        (λ net db₁ same. elim (Result-cases (allocator v6 v4 (or_default o))) [
          | inr (x, h) ↦ rw h same
          | inl (pool, h) ↦ elim (Result-cases (reallocate v6 pool net.id [] [] db₁.nodes)) [
            | inr (x, r) ↦ rw (h, r) same
            | inl (rows, r) ↦
                rw (h, r)
                  (save_prefixes-Unmoved v4 o net.id rows db.nodes
                    (record {
                      ipv4_prefix = v4;
                      ipv6_prefix = o;
                      nodes_reallocated = length (filter (in_network net.id) db₁.nodes);
                    })
                    db₁ same)
          ]
        ]))
]
