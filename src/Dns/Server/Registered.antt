-- ===== src/Dns/Server/Registered.antt =====
-- The name of a node that registered (pymesh/controller/nodes.py), as the DNS server answers it
-- (pymesh/dns/server.py).
use mathlib.Core.Path.{subst}
use pymesh.Base.{
  ℕ, ◌≡◌, refl, ◌∙◌, ap, sym, Bool, true, false, Option, none, some, List, [], ◌∷◌, ◌++◌, map,
  if◌then◌else◌, text_eq, find?, ◌||◌, ◌==◌, All, arith, eq_refl, ◌⊎◌, Bool-cases, inl, inr,
}
use pymesh.Base.Text.{Text, codes, lower, lstrip}
use pymesh.Base.Dict.{Dict, lookup, insert, lookup-insert}
use pymesh.Base.Result.{ok}
use pymesh.Controller.Models.{Database, NodeModel}
use pymesh.Controller.Nodes.{
  Env, list_nodes, NodeRegistrationRequest, NodeRegistrationResponse, has_id, register,
}
use pymesh.Controller.Nodes.Joining.{register-IsTold}
use pymesh.Controller.Subnet.Laws.{ok-injective}
use pymesh.Controller.Views.{NodeView, node_view, show_nodes, all_nodes}
use pymesh.Dns.Server.{
  Reply, unreachable, controller_ip, add_tlds, fetch_tlds, body, refused, DnsServer, add_nodes,
  fetch, clean_domain, resolve_custom_tld,
}
use pymesh.Dns.Server.Cache.{names_node, last_node, lookup-add_nodes, resolve_lem}

-- what the server takes of a dict of a node
abbrev pub pair_of : NodeView → Text × Text
pair_of v = (v.hostname, v.mesh_ipv4)

-- each node has another name or the address
abbrev pub NamedOnly : Text → Text → List NodeView → Type 0
NamedOnly k ip = All (λ v. (names_node k v.hostname ≡ false) ⊎ (v.mesh_ipv4 ≡ ip))

passed :
    (b : Bool) (ip ip' : Text)
    → (b ≡ false) ⊎ (ip' ≡ ip)
    → (if b then some ip' else some ip) ≡ some ip
passed true ip ip' (inl h) = cc
passed true ip ip' (inr h) = ap some h
passed false ip ip' o = refl

last_node-only :
    (k ip : Text) (rows : List NodeModel)
    → NamedOnly k ip (map node_view rows)
    → last_node k (some ip) (map pair_of (map node_view rows)) ≡ some ip
unfolding node_view last_node
last_node-only k ip [] only = refl
last_node-only k ip (n ∷ rows) (o, only) =
    ap (λ b. last_node k b (map pair_of (map node_view rows)))
      (passed (names_node k n.hostname) ip n.mesh_ipv4 o)
    ∙ last_node-only k ip rows only

other_name :
    (k : Text) (q n : NodeModel)
    → q ≡ n
    → names_node k n.hostname ≡ true
    → names_node k q.hostname ≡ false
    → ⊥
other_name k q n same named e =
    let both : true ≡ false = sym named ∙ ap (λ m. names_node k m.hostname) (sym same) ∙ e in cc

own_address :
    (k ip : Text) (q : NodeModel)
    → (names_node k q.hostname ≡ false) ⊎ (q.mesh_ipv4 ≡ ip)
    → names_node k q.hostname ≡ true
    → q.mesh_ipv4 ≡ ip
own_address k ip q (inl f) e = let both : true ≡ false = sym e ∙ f in cc
own_address k ip q (inr o) e = o

last_node-found :
    (k ip id : Text) (before : Option Text) (rows : List NodeModel) (n : NodeModel)
    → NamedOnly k ip (map node_view rows)
    → find? (has_id id) rows ≡ some n
    → names_node k n.hostname ≡ true
    → last_node k before (map pair_of (map node_view rows)) ≡ some ip
unfolding node_view last_node find?
last_node-found k ip id before [] n only h named = cc
last_node-found k ip id before (q ∷ rows) n (o, only) h named =
    elim (Bool-cases (names_node k q.hostname)) [
      | inl e ↦
          let known : q.mesh_ipv4 ≡ ip = own_address k ip q o e in
          taken e
          ∙ ap (λ i. last_node k (some i) (map pair_of (map node_view rows))) known
          ∙ last_node-only k ip rows only
      | inr e ↦ elim (Bool-cases (has_id id q)) [
        | inl f ↦ let same : q ≡ n = ground arith in absurd (other_name k q n same named e)
        | inr f ↦ taken e ∙ last_node-found k ip id before rows n only (ground arith) named
      ]
    ]
  where
    taken :
        {b : Bool}
        → names_node k q.hostname ≡ b
        → last_node k before (map pair_of (map node_view (q ∷ rows)))
          ≡ last_node k (if b then some q.mesh_ipv4 else before) (map pair_of (map node_view rows))
    taken e =
        ap
          (λ b.
            last_node k (if b then some q.mesh_ipv4 else before) (map pair_of (map node_view rows)))
          e

names_node-mesh : (s : Text) → names_node (lower s ++ codes ".mesh") s ≡ true
names_node-mesh s = ground (arith, eq_refl (lower s ++ codes ".mesh"))

-- the names under which the registry of a published domain is reached
abbrev pub names_registry : Text → Text → Bool
names_registry k tld = codes "registry" == k || (codes "registry." ++ lower (lstrip b'.' tld)) == k

-- no domain that is told has its registry under the name
abbrev pub NoRegistry : Text → Reply Text → Type 0
NoRegistry k (body tlds) = All (λ t. names_registry k t ≡ false) tlds
NoRegistry k _ = Unit

lookup-add_tlds :
    (k ip : Text) (tlds : List Text) (cache : Dict Text)
    → All (λ t. names_registry k t ≡ false) tlds
    → lookup k (add_tlds ip tlds cache) ≡ lookup k cache
unfolding add_tlds
lookup-add_tlds k ip [] cache apart = refl
lookup-add_tlds k ip (t ∷ tlds) cache (e, apart) =
    let named = codes "registry." ++ lower (lstrip b'.' t) in
    lookup-add_tlds k ip tlds (insert (codes "registry") ip (insert named ip cache)) apart
    ∙ ground (
      arith,
      e,
      lookup-insert (codes "registry") k ip (insert named ip cache),
      lookup-insert named k ip cache,
    )

lookup-fetch_tlds :
    (k : Text) (host : Option Text) (tlds : Reply Text) (cache : Dict Text)
    → NoRegistry k tlds
    → lookup k (fetch_tlds host tlds cache) ≡ lookup k cache
lookup-fetch_tlds k host unreachable cache apart = refl
lookup-fetch_tlds k host refused cache apart = refl
lookup-fetch_tlds k host (body tlds) cache apart =
    lookup-add_tlds k (controller_ip host) tlds cache apart

-- Let a node register, by whatever token and whether it is new or known, and the DNS server, which
-- has not the name in its cache, then hear the nodes of the controller for a query of the name of
-- the node under "mesh", and no other node have this name. Let the second request of the server fail,
-- or the registry of no domain that it tells have this name. Then the server answers the address
-- that the node was told.
pub register-resolves :
    (env : Env) (req : NodeRegistrationRequest) (authorization : Option Text) (now : ℕ)
    (db db' : Database) (r : NodeRegistrationResponse) (views : List NodeView) (s : DnsServer)
    (domain : Text) (tlds : Reply Text)
    → register env req authorization now db ≡ (ok r, db')
    → (show_nodes db').0 ≡ ok views
    → NamedOnly (lower r.hostname ++ codes ".mesh") r.mesh_ipv4 views
    → clean_domain domain ≡ lower r.hostname ++ codes ".mesh"
    → lookup (lower r.hostname ++ codes ".mesh") s.records_cache ≡ none
    → NoRegistry (lower r.hostname ++ codes ".mesh") tlds
    → (resolve_custom_tld s domain (body (map pair_of views)) tlds).1 ≡ some r.mesh_ipv4
unfolding fetch show_nodes list_nodes
register-resolves env req authorization now db db' r views s domain tlds h listed only named fresh
      apart =
    let t = register-IsTold env req authorization now db db' r h in
    let k = lower r.hostname ++ codes ".mesh" in
    let same : map node_view db'.nodes ≡ views =
      ok-injective _ _ (sym (ap (λ l. ok (map node_view l)) (all_nodes db'.nodes)) ∙ listed) in
    let own : names_node k t.node.hostname ≡ true =
      ap (names_node k) (sym t.hostname) ∙ names_node-mesh r.hostname in
    ((resolve_lem s domain (body (map pair_of views)) tlds).1
      (ap (λ d. lookup d s.records_cache) named ∙ fresh)).0
    ∙ ap
        (λ d.
          lookup d (fetch_tlds s.ctrl_host tlds (add_nodes (map pair_of views) s.records_cache)))
        named
    ∙ lookup-fetch_tlds k s.ctrl_host tlds (add_nodes (map pair_of views) s.records_cache) apart
    ∙ lookup-add_nodes k (map pair_of views) s.records_cache
    ∙ subst
        (λ l.
          NamedOnly k r.mesh_ipv4 l
          → last_node k (lookup k s.records_cache) (map pair_of l) ≡ some r.mesh_ipv4)
        same (λ o. last_node-found k r.mesh_ipv4 r.node_id _ db'.nodes t.node o t.listed own) only
