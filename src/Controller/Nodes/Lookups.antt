-- ===== src/Controller/Nodes/Lookups.antt =====
-- Deleting a node and its heartbeat, as a later lookup sees them (pymesh/controller/api.py).
use pymesh.Base.{
  ℕ, ◌≡◌, refl, ap, true, false, not, Option, none, some, List, [], ◌∷◌, if◌then◌else◌, ◌==◌,
  text_eq, find?, filter, any, arith, eq_iff,
}
use pymesh.Base.Text.{Text}
use pymesh.Base.Result.{ok, raise, http}
use pymesh.Controller.Models.{Database, NodeModel}
use pymesh.Controller.Action.{update_rows}
use pymesh.Controller.Nodes.{HeartbeatRequest, has_id, get_node, delete_node, beat, heartbeat}

abbrev find_node : Text → Database → Option NodeModel
find_node k db = find? (has_id k) db.nodes

find-deleted :
    (k id : Text) (rows : List NodeModel)
    → find? (has_id k) (filter (λ n. not (has_id id n)) rows)
      ≡ (if id == k then none else find? (has_id k) rows)
unfolding find? filter
find-deleted k id [] = ground arith
find-deleted k id (n ∷ rows) =
    ground (arith, find-deleted k id rows, eq_iff n.id k, eq_iff n.id id, eq_iff id k)

filter-absent :
    (id : Text) (rows : List NodeModel)
    → any (has_id id) rows ≡ false
    → filter (λ n. not (has_id id n)) rows ≡ rows
unfolding filter any
filter-absent id [] h = refl
filter-absent id (n ∷ rows) h = ground (arith, filter-absent id rows)

-- Deleting a node that is there answers with its id, and afterwards a lookup finds every other
-- node as before and that one no more. Deleting a node that is not there is a 404 and changes
-- nothing.
pub delete_node_lem :
    (id : Text) (db : Database)
    → (any (has_id id) db.nodes ≡ true
        → ((delete_node id db).0 ≡ ok id)
          × ((k : Text)
              → (get_node k (delete_node id db).1).0
                ≡ (if id == k then ok none else (get_node k db).0)))
      × (any (has_id id) db.nodes ≡ false → delete_node id db ≡ (raise (http 404), db))
unfolding delete_node get_node
delete_node_lem id db = (
  λ there. (rw there, λ k. rw there (ground (arith, find-deleted k id db.nodes))),
  λ absent.
      rw absent
        (ap (λ l. (raise (http 404), record db { nodes = l })) (filter-absent id db.nodes absent)),
)

pub find-updated :
    (k id : Text) (f : NodeModel → NodeModel) (rows : List NodeModel)
    → ((n : NodeModel) → (f n).id ≡ n.id)
    → find? (has_id k) (update_rows (has_id id) f rows) ≡ (
        if id == k
        then (elim (find? (has_id k) rows) [ none ↦ none | some n ↦ some (f n) ])
        else find? (has_id k) rows)
unfolding find? update_rows
find-updated k id f [] same = ground arith
find-updated k id f (n ∷ rows) same =
    ground
      (arith, find-updated k id f rows same, same n, eq_iff n.id k, eq_iff n.id id, eq_iff id k)

-- A heartbeat of a node without a row is a 404 and changes nothing. Any other is answered, and
-- afterwards a lookup finds the node online, with the time and the NAT type of the heartbeat and,
-- if it brought endpoints, those; every other node is found as before.
pub heartbeat_lem :
    (id : Text) (req : HeartbeatRequest) (now : ℕ) (db : Database)
    → ((get_node id db).0 ≡ ok none → heartbeat id req now db ≡ (raise (http 404), db))
      × ((n : NodeModel)
          → (get_node id db).0 ≡ ok (some n)
          → ((heartbeat id req now db).0 ≡ ok tt)
            × ((k : Text)
                → (get_node k (heartbeat id req now db).1).0
                  ≡ (if id == k then ok (some (beat req now n)) else (get_node k db).0)))
unfolding get_node heartbeat
heartbeat_lem id req now db = (
  λ absent. ground arith,
  λ n there.
      let e : find? (has_id id) db.nodes ≡ some n = ground arith in
      (
        ground arith,
        λ k. ground (arith, e, find-updated k id (beat req now) db.nodes (λ m. refl), eq_iff id k),
      ),
)
