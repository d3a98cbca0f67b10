-- ===== src/Controller/Subnet.antt =====
-- PUT /network/subnet of pymesh/controller/api.py: every node gets new addresses.
pub mod Laws
use pymesh.Base.{
  ℕ, ◌+◌, Bool, true, false, not, ◌||◌, Option, none, some, List, [], ◌∷◌, ◌++◌, map, if◌then◌else◌,
  ◌==◌, nat_eq, ltb, ◌&&◌, text_eq, filter, any, is_empty, length,
}
use pymesh.Base.Text.{Text, codes}
use pymesh.Base.Result.{Result, ok, raise, integrity, http}
use pymesh.Allocator.{Ipv6, IpAllocator, allocator, allocate, validate_cidr}
use pymesh.Controller.Models.{Database, Network, NodeModel, node_clash}
use pymesh.Controller.Action.{Action, pure, fail, lift, select, ◌>>=◌, ◌>>◌, update_rows}
use pymesh.Controller.Nodes.{has_id, in_network, get_or_create_network}

-- what the reply tells
pub record SubnetUpdate : Type 0 where
  pub ipv4_prefix : Text
  pub ipv6_prefix : Option Text
  pub nodes_reallocated : ℕ

abbrev pub default_ipv6 : Text
default_ipv6 = codes "fd00:7079:6d65::/48"

-- `ipv6_prefix or "fd00:7079:6d65::/48"`
abbrev pub or_default : Option Text → Text
or_default none = default_ipv6
or_default (some s) = if is_empty s then default_ipv6 else s

abbrev pub readdress : Text × Text → NodeModel → NodeModel
readdress pair n = record n { mesh_ipv4 = pair.0; mesh_ipv6 = pair.1 }

abbrev prepend : NodeModel → Result (List NodeModel) → Result (List NodeModel)
prepend n (ok rest) = ok (n ∷ rest)
prepend n (raise e) = raise e

-- The loop over the nodes of the network, with the sets of addresses given out so far. The rows of
-- other networks are passed over.
unfoldable pub reallocate :
    Ipv6 → IpAllocator → Text → List Text → List Text → List NodeModel → Result (List NodeModel)
reallocate v6 pool network_id used_v4 used_v6 [] = ok []
reallocate v6 pool network_id used_v4 used_v6 (n ∷ rows) = elim (in_network network_id n) [
  | true ↦ elim (allocate v6 pool used_v4 used_v6) [
    | raise e ↦ raise e
    | ok pair ↦
        prepend (readdress pair n)
          (reallocate v6 pool network_id (pair.0 ∷ used_v4) (pair.1 ∷ used_v6) rows)
  ]
  | false ↦ prepend n (reallocate v6 pool network_id used_v4 used_v6 rows)
]

-- the constraints of the table, over all its rows
unfoldable pub has_clash : List NodeModel → Bool
has_clash [] = false
has_clash (n ∷ rows) = any (node_clash n) rows || has_clash rows

-- the order of texts, by their code points
unfoldable pub text_lt : Text → Text → Bool
text_lt [] [] = false
text_lt [] (b ∷ t) = true
text_lt (a ∷ s) [] = false
text_lt (a ∷ s) (b ∷ t) = ltb a b || (a == b && text_lt s t)

unfoldable pub insert_by_id : NodeModel → List NodeModel → List NodeModel
unfolding text_lt
insert_by_id n [] = n ∷ []
insert_by_id n (q ∷ rows) =
    let rest = insert_by_id n rows in if text_lt q.id n.id then q ∷ rest else n ∷ q ∷ rows

-- the order in which SQLAlchemy writes changed rows: by their primary key
unfoldable pub by_id : List NodeModel → List NodeModel
unfolding insert_by_id
by_id [] = []
by_id (n ∷ rows) = insert_by_id n (by_id rows)

-- The UPDATEs of the rows, one after the other: the database checks each at the table as it is then,
-- where the rows behind it still have their old addresses.
unfoldable pub update_clash : List NodeModel → List NodeModel → Bool
update_clash [] table = false
update_clash (n ∷ rows) table =
    any (λ q. not (has_id n.id q) && node_clash n q) table
    || update_clash rows (update_rows (has_id n.id) (λ _. n) table)

-- the constraints, at each UPDATE and for the table that they leave
abbrev pub flush_clash : List NodeModel → List NodeModel → Bool
flush_clash rows table = has_clash rows || update_clash (by_id rows) table

abbrev pub has_network_id : Text → Network → Bool
has_network_id id net = net.id == id

abbrev pub set_prefixes : Text → Option Text → Network → Network
set_prefixes ipv4_prefix none net = record net { ipv4_prefix = ipv4_prefix }
set_prefixes ipv4_prefix (some s) net = record net {
  ipv4_prefix = ipv4_prefix;
  ipv6_prefix = if is_empty s then net.ipv6_prefix else s;
}

-- the new prefixes and addresses, in one commit
abbrev pub save_prefixes : Text → Option Text → Text → List NodeModel → Action (Unit {0})
save_prefixes ipv4_prefix ipv6_prefix network_id rows db =
    if flush_clash rows db.nodes then (raise integrity, db) else (
      ok tt,
      record db {
        networks =
            update_rows (has_network_id network_id) (set_prefixes ipv4_prefix ipv6_prefix)
              db.networks;
        nodes = rows;
      },
    )

-- `ipv6_prefix` is None where the query says so; the default of the query is `default_ipv6`.
unfoldable pub update_network_subnet : Ipv6 → Text → Option Text → ℕ → Action SubnetUpdate
unfolding ◌>>=◌
update_network_subnet v6 ipv4_prefix ipv6_prefix now =
    if not (validate_cidr v6 ipv4_prefix ipv6_prefix) then fail (http 400) else do
      network ← get_or_create_network (codes "pymesh") now
      pool ← lift (allocator v6 ipv4_prefix (or_default ipv6_prefix))
      nodes ← select (λ db. db.nodes)
      rows ← lift (reallocate v6 pool network.id [] [] nodes)
      save_prefixes ipv4_prefix ipv6_prefix network.id rows
      pure (record {
        ipv4_prefix = ipv4_prefix;
        ipv6_prefix = ipv6_prefix;
        nodes_reallocated = length (filter (in_network network.id) nodes);
      })
