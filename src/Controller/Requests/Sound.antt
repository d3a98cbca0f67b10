-- ===== src/Controller/Requests/Sound.antt =====
-- What the tables of the controller (pymesh/storage/models.py) always are: the constraints of each
-- table, and what its rows have in common.
use pymesh.Base.{
  ◌≡◌, refl, Bool, false, ◌||◌, List, [], ◌∷◌, ◌++◌, nat_eq, text_eq, list_beq, any, contains, All,
  All-snoc, arith, eq_iff, Bool-cases, inl, inr, ◌⊎◌,
}
use pymesh.Base.Text.{Text, codes}
use pymesh.Base.Result.{Result, ok, raise}
use pymesh.Tld.{reserved}
use pymesh.Tld.Laws.{IsLabel}
use pymesh.Allocator.{IpAllocator, allocator}
use pymesh.Controller.Models.{
  Database, Network, NodeModel, SubnetRoute, AclRule, AuthToken, TldRegistry, FederatedController,
  node_clash, route_clash, rule_clash, token_clash, tld_clash, controller_clash,
}
use pymesh.Controller.Action.{Action, ◌>>=◌, continue, insert_row}
use pymesh.Controller.Nodes.{Env}
use pymesh.Controller.Nodes.Registration.{IsPooled}
use pymesh.Controller.Requests.Keys.{Keyed}

abbrev pub network_id : Text
network_id = codes "net-pymesh"

-- Every node is of the network, with the two addresses of one host of its pool.
abbrev pub Placed : Env → Network → List NodeModel → Type 0
Placed env net rows =
    (rows ≡ [])
    ⊎ ((pool : IpAllocator) × (allocator env.v6 net.ipv4_prefix net.ipv6_prefix ≡ ok pool)
        × All (IsPooled env.v6 pool net.id) rows)

-- There is one network at most, and no node without it.
abbrev pub OneNetwork : Env → List Network → List NodeModel → Type 0
OneNetwork env [] rows = rows ≡ []
OneNetwork env (net ∷ []) rows =
    (net.name ≡ codes "pymesh") × (net.id ≡ network_id) × Placed env net rows
OneNetwork env (net ∷ other ∷ rest) rows = ⊥

-- a name that may be published
abbrev pub IsTldName : Text → Type 0
IsTldName name = IsLabel name × (contains name reserved ≡ false)

pub record IsSound (env : Env) (db : Database) : Type 0 where
  pub placed : OneNetwork env db.networks db.nodes
  pub nodes : Keyed node_clash db.nodes
  pub routes : Keyed route_clash db.routes
  pub route_networks : All (λ r. r.network_id ≡ network_id) db.routes
  pub rules : Keyed rule_clash db.acl_rules
  pub rule_networks : All (λ r. r.network_id ≡ network_id) db.acl_rules
  pub tokens : Keyed token_clash db.tokens
  pub tlds : Keyed tld_clash db.tlds
  pub names : All (λ t. IsTldName t.name) db.tlds
  pub controllers : Keyed controller_clash db.controllers

module _ {env : Env} {db : Database} (s : IsSound env db) where
  pub IsSound-tokens :
      {rows : List AuthToken} → Keyed token_clash rows → IsSound env (record db { tokens = rows })
  IsSound-tokens k = record {
    placed = s.placed;
    nodes = s.nodes;
    routes = s.routes;
    route_networks = s.route_networks;
    rules = s.rules;
    rule_networks = s.rule_networks;
    tokens = k;
    tlds = s.tlds;
    names = s.names;
    controllers = s.controllers;
  }

  pub IsSound-routes :
      {rows : List SubnetRoute}
      → Keyed route_clash rows
      → All (λ r. r.network_id ≡ network_id) rows
      → IsSound env (record db { routes = rows })
  IsSound-routes k ps = record {
    placed = s.placed;
    nodes = s.nodes;
    routes = k;
    route_networks = ps;
    rules = s.rules;
    rule_networks = s.rule_networks;
    tokens = s.tokens;
    tlds = s.tlds;
    names = s.names;
    controllers = s.controllers;
  }

  pub IsSound-acl_rules :
      {rows : List AclRule}
      → Keyed rule_clash rows
      → All (λ r. r.network_id ≡ network_id) rows
      → IsSound env (record db { acl_rules = rows })
  IsSound-acl_rules k ps = record {
    placed = s.placed;
    nodes = s.nodes;
    routes = s.routes;
    route_networks = s.route_networks;
    rules = k;
    rule_networks = ps;
    tokens = s.tokens;
    tlds = s.tlds;
    names = s.names;
    controllers = s.controllers;
  }

  pub IsSound-tlds :
      {rows : List TldRegistry}
      → Keyed tld_clash rows
      → All (λ t. IsTldName t.name) rows
      → IsSound env (record db { tlds = rows })
  IsSound-tlds k ps = record {
    placed = s.placed;
    nodes = s.nodes;
    routes = s.routes;
    route_networks = s.route_networks;
    rules = s.rules;
    rule_networks = s.rule_networks;
    tokens = s.tokens;
    tlds = k;
    names = ps;
    controllers = s.controllers;
  }

  pub IsSound-controllers :
      {rows : List FederatedController}
      → Keyed controller_clash rows
      → IsSound env (record db { controllers = rows })
  IsSound-controllers k = record {
    placed = s.placed;
    nodes = s.nodes;
    routes = s.routes;
    route_networks = s.route_networks;
    rules = s.rules;
    rule_networks = s.rule_networks;
    tokens = s.tokens;
    tlds = s.tlds;
    names = s.names;
    controllers = k;
  }

  pub IsSound-nodes :
      {networks : List Network} {rows : List NodeModel}
      → OneNetwork env networks rows
      → Keyed node_clash rows
      → IsSound env (record db { networks = networks; nodes = rows })
  IsSound-nodes p k = record {
    placed = p;
    nodes = k;
    routes = s.routes;
    route_networks = s.route_networks;
    rules = s.rules;
    rule_networks = s.rule_networks;
    tokens = s.tokens;
    tlds = s.tlds;
    names = s.names;
    controllers = s.controllers;
  }

pub same_text : (s t : Text) → list_beq s t ≡ list_beq t s
same_text s t = ground (arith, eq_iff s t, eq_iff t s)

pub or-congruent : {a b c d : Bool} → a ≡ b → c ≡ d → a || c ≡ b || d
or-congruent h k = rw (h, k) refl

pub controller_clash-symmetric :
    (a b : FederatedController) → controller_clash a b ≡ controller_clash b a
controller_clash-symmetric a b = or-congruent (same_text a.id b.id) (same_text a.url b.url)

pub node_clash-symmetric : (a b : NodeModel) → node_clash a b ≡ node_clash b a
node_clash-symmetric a b =
    or-congruent (same_text a.id b.id)
      (or-congruent (same_text a.mesh_ipv4 b.mesh_ipv4) (same_text a.mesh_ipv6 b.mesh_ipv6))

module _ (env : Env) where
  abbrev pub Keeps {ℓ} : {A : Type ℓ} → Action A → Type 0
  Keeps m = (db : Database) → IsSound env db → IsSound env (m db).1

  pub bind-IsSound {ℓ κ} :
      {A : Type ℓ} {B : Type κ} (m : Action A) (k : A → Action B) (db : Database)
      → IsSound env (m db).1
      → ((a : A) → Keeps (k a))
      → IsSound env ((m >>= k) db).1
  unfolding ◌>>=◌
  bind-IsSound {A = A} m k db s then_kept = at (m db) s
    where
      at : (r : Result A × Database) → IsSound env r.1 → IsSound env (continue r.0 k r.1).1
      at (ok a, db₁) s₁ = then_kept a db₁ s₁
      at (raise e, db₁) s₁ = s₁

  pub bind-Keeps {ℓ κ} :
      {A : Type ℓ} {B : Type κ} (m : Action A) (k : A → Action B)
      → Keeps m
      → ((a : A) → Keeps (k a))
      → Keeps (m >>= k)
  bind-Keeps m k kept then_kept db s = bind-IsSound m k db (kept db s) then_kept

  -- what an insertion leaves
  abbrev pub stored {ℓ} :
      {R : Type ℓ} → Result (List R) → (List R → Database) → Database → Result (Unit {0}) × Database
  stored r put db = elim r [ ok rows ↦ (ok tt, put rows) | raise e ↦ (raise e, db) ]

  pub stored-IsSound {ℓ} :
      {R : Type ℓ} (r : Result (List R)) (put : List R → Database) (db : Database)
      → IsSound env db
      → ((rows : List R) → r ≡ ok rows → IsSound env (put rows))
      → IsSound env (stored r put db).1
  stored-IsSound (ok rows) put db s kept = kept rows refl
  stored-IsSound (raise e) put db s kept = s

  pub snoc-All {ℓ} :
      {R : Type ℓ} (P : R → Type 0) (clash : R → R → Bool) (rows rows' : List R) (r : R)
      → insert_row clash r rows ≡ ok rows'
      → All P rows
      → P r
      → All P rows'
  snoc-All P clash rows rows' r h ps p = elim (Bool-cases (any (clash r) rows)) [
    | inl e ↦ absurd (ground arith)
    | inr e ↦
        let same : rows ++ r ∷ [] ≡ rows' = ground arith in rw (← same) (All-snoc P rows r ps p)
  ]
