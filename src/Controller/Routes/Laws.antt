-- ===== src/Controller/Routes/Laws.antt =====
-- Adding and deleting subnet routes, as a client of pymesh/controller/api.py sees it.
use mathlib.Core.List.{append-nil, map-append}
use pymesh.Base.{
  ℕ, ◌≡◌, refl, ◌∙◌, ap, Bool, true, false, not, some, List, [], ◌∷◌, ◌++◌, map, if◌then◌else◌,
  ◌==◌, text_eq, filter, any, arith, eq_iff, eq_refl,
}
use pymesh.Base.Text.{Text}
use pymesh.Base.Result.{ok, raise, integrity}
use pymesh.Controller.Models.{Database, SubnetRoute, route_clash}
use pymesh.Controller.Routes.{
  SubnetRouteModel, route_model, list_routes, add_route, add_row, new_route, has_route_id,
  delete_route,
}

filter-absent :
    (id : Text) (rows : List SubnetRoute)
    → any (λ r. id == r.id) rows ≡ false
    → filter (λ r. not (has_route_id id r)) rows ≡ rows
unfolding filter any
filter-absent id [] h = refl
filter-absent id (r ∷ rows) h =
    ground (arith, filter-absent id rows, eq_iff id r.id, eq_iff r.id id)

pub filter-snoc :
    (p : SubnetRoute → Bool) (rows : List SubnetRoute) (r : SubnetRoute)
    → filter p (rows ++ r ∷ []) ≡ filter p rows ++ (if p r then r ∷ [] else [])
unfolding filter
filter-snoc p [] r = refl
filter-snoc p (q ∷ rows) r = ground (arith, filter-snoc p rows r)

module _ (route : SubnetRouteModel) (uuid : Text) (now : ℕ) (db : Database) where
  abbrev row : SubnetRoute
  row = new_route route uuid now

  -- the insertion, which succeeds or fails by the primary key alone
  add_row-taken : any (route_clash row) db.routes ≡ true → add_row row db ≡ (raise integrity, db)
  unfolding add_row
  add_row-taken h = rw (h, add_row)

  abbrev added : Database
  added = record db { routes = db.routes ++ row ∷ [] }

  add_row-free : any (route_clash row) db.routes ≡ false → add_row row db ≡ (ok tt, added)
  unfolding add_row
  add_row-free h = rw (h, add_row)

  pub add_route-free :
      any (route_clash row) db.routes ≡ false
      → add_route route uuid now db ≡ (ok (route_model row), added)
  unfolding add_route
  add_route-free h = rw (add_row-free h)

  -- A route whose id, given or generated, is taken is refused, and nothing is changed. Any other is
  -- listed last, as it was sent and with its id, behind the routes that were listed before; and
  -- deleting it brings the tables back to what they were.
  pub add_route_lem :
      (any (route_clash row) db.routes ≡ true → add_route route uuid now db ≡ (raise integrity, db))
      × (any (route_clash row) db.routes ≡ false
          → ((list_routes (add_route route uuid now db).1).0
              ≡ ok (map route_model db.routes ++ record route { id = some row.id } ∷ []))
            × ((delete_route row.id (add_route route uuid now db).1).1 ≡ db))
  unfolding add_route list_routes delete_route route_model
  add_route_lem = (
    λ taken. rw (add_row-taken taken),
    λ free. (
      rw (add_row-free free) (ap ok (map-append route_model db.routes _)),
      rw (add_row-free free) (
          ap (λ l. record db { routes = l })
            (filter-snoc _ db.routes row
              ∙ rw (filter-absent row.id db.routes free)
                  (rw (eq_refl row.id) (append-nil db.routes)))),
    ),
  )
