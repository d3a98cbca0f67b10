-- ===== src/Controller/Requests/Moving.antt =====
-- The change of the subnet (pymesh/controller/api.py) keeps the tables sound.
use mathlib.Core.Path.{subst}
use pymesh.Base.{
  Bool, true, ◌||◌, ℕ, ◌≡◌, refl, sym, false, some, List, [], ◌∷◌, text_eq, filter, is_empty,
  length, All, arith, eq_refl, Bool-cases, inl, inr,
}
use pymesh.Base.Text.{Text}
use pymesh.Base.Result.{ok}
use pymesh.Allocator.{Ipv6, IpAllocator, allocator, validate_cidr}
use pymesh.Allocator.Laws.{allocator-IsNetwork}
use pymesh.Controller.Models.{Database, Network, NodeModel, node_clash}
use pymesh.Controller.Action.{pure, update_rows}
use pymesh.Controller.Nodes.{Env, in_network}
use pymesh.Controller.Nodes.Registration.{IsPooled}
use pymesh.Controller.Subnet.{
  reallocate, has_clash, flush_clash, save_prefixes, has_network_id, set_prefixes,
  update_network_subnet,
}
use pymesh.Controller.Subnet.Laws.{Readdressed, moved, kept, end, reallocate-ok, Result-cases}
use pymesh.Controller.Requests.Keys.{Keyed}
use pymesh.Controller.Requests.Sound.{
  Placed, OneNetwork, IsSound, IsSound-nodes, Keeps, bind-IsSound,
}
use pymesh.Controller.Requests.Registering.{Has, get_or_create_network-Has}

Keyed-of_clash : (rows : List NodeModel) → has_clash rows ≡ false → Keyed node_clash rows
unfolding has_clash
Keyed-of_clash [] h = tt
Keyed-of_clash (n ∷ rows) h = (ground arith, Keyed-of_clash rows (ground arith))

-- where all nodes are of the network, each of them is moved
moved_all :
    {v6 : Ipv6} {pool : IpAllocator} {id : Text} {used : List Text} {rows rows' : List NodeModel}
    → Readdressed v6 pool id used rows rows'
    → All (λ n. n.network_id ≡ id) rows
    → All (IsPooled v6 pool id) rows'
moved_all end ps = tt
moved_all (moved q free rest) (p, ps) = (q, moved_all rest ps)
moved_all (kept other rest) (p, ps) = absurd (other p)

or_false : (a b : Bool) → (a || b) ≡ false → a ≡ false
or_false true b h = h
or_false false b h = refl

module _ (env : Env) where
  pub members :
      (net : Network) (rows : List NodeModel)
      → Placed env net rows
      → All (λ n. n.network_id ≡ net.id) rows
  members net rows (inl vacant) = subst (λ l. All (λ n. n.network_id ≡ net.id) l) (sym vacant) tt
  members net rows (inr (pool, built, ps)) = at rows ps
    where
      at :
          (rows : List NodeModel)
          → All (IsPooled env.v6 pool net.id) rows
          → All (λ n. n.network_id ≡ net.id) rows
      at [] ps = tt
      at (n ∷ rows) (p, ps) = (p.member, at rows ps)

  Placed-nodes : (net : Network) (db : Database) → Has env net db → Placed env net db.nodes
  Placed-nodes net db (sound, e) = (subst (λ l. OneNetwork env l db.nodes) e sound.placed).2

  -- the row of the network after the change, for which the same pool is built
  save_prefixes-IsSound :
      (v4 s : Text) (net : Network) (pool : IpAllocator) (rows : List NodeModel) (db : Database)
      → is_empty s ≡ false
      → Has env net db
      → allocator env.v6 v4 s ≡ ok pool
      → All (IsPooled env.v6 pool net.id) rows
      → IsSound env (save_prefixes v4 (some s) net.id rows db).1
  save_prefixes-IsSound v4 s net pool rows db named (sound, e) built ps =
      elim (Bool-cases (flush_clash rows db.nodes)) [
        | inl h ↦ rw h sound
        | inr h ↦
            rw h (IsSound-nodes sound placed (Keyed-of_clash rows (or_false (has_clash rows) _ h)))
      ]
    where
      known : OneNetwork env (net ∷ []) db.nodes
      known = subst (λ l. OneNetwork env l db.nodes) e sound.placed

      set : List Network → List Network
      set = update_rows (has_network_id net.id) (set_prefixes v4 (some s))

      one : OneNetwork env (record net { ipv4_prefix = v4; ipv6_prefix = s } ∷ []) rows
      one = (known.0, known.1, inr (pool, built, ps))

      changed : record net { ipv4_prefix = v4; ipv6_prefix = s } ∷ [] ≡ set (net ∷ [])
      changed = unfold update_rows in rw (eq_refl net.id) (rw named refl)

      placed : OneNetwork env (set db.networks) rows
      placed =
          subst (λ l. OneNetwork env (set l) rows) (sym e)
            (subst (λ l. OneNetwork env l rows) changed one)

  pub update_network_subnet-Keeps :
      (v4 s : Text) (now : ℕ)
      → is_empty s ≡ false
      → Keeps env (update_network_subnet env.v6 v4 (some s) now)
  unfolding update_network_subnet
  update_network_subnet-Keeps v4 s now named db sound =
      let (net, db₁, found, (s₁, e)) = get_or_create_network-Has env now db sound in
      elim (Bool-cases (validate_cidr env.v6 v4 (some s))) [
        | inr bad ↦ rw bad sound
        | inl valid ↦ elim (Result-cases (allocator env.v6 v4 s)) [
          | inr (x, h) ↦ rw (valid, found, named, h) s₁
          | inl (pool, h) ↦ elim (Result-cases (reallocate env.v6 pool net.id [] [] db₁.nodes)) [
            | inr (x, r) ↦ rw (valid, found, named, h, r) s₁
            | inl (rows, r) ↦
                rw (valid, found, named, h, r)
                  (bind-IsSound env (save_prefixes v4 (some s) net.id rows)
                    (λ _. pure (record {
                      ipv4_prefix = v4;
                      ipv6_prefix = some s;
                      nodes_reallocated = length (filter (in_network net.id) db₁.nodes);
                    }))
                    db₁
                    (save_prefixes-IsSound v4 s net pool rows db₁ named (s₁, e) h
                      (moved_all
                        (reallocate-ok env.v6 pool net.id (allocator-IsNetwork env.v6 v4 s pool h)
                          [] [] db₁.nodes rows r)
                        (members net db₁.nodes (Placed-nodes net db₁ (s₁, e)))))
                    (λ _ db s. s))
          ]
        ]
      ]
