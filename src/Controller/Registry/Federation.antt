-- ===== src/Controller/Registry/Federation.antt =====
-- A controller that is already known is not registered again (pymesh/controller/api.py and
-- pymesh/controller/federation.py).
use pymesh.Base.{
  ℕ, ◌≡◌, refl, ap, sym, Bool, true, false, none, some, List, [], ◌∷◌, ◌++◌, if◌then◌else◌, text_eq,
  find?, any, arith, eq_iff, Bool-cases, Option-cases, inl, inr,
}
use pymesh.Base.Text.{Text, codes}
use pymesh.Base.Result.{ok, raise, integrity}
use pymesh.Controller.Models.{Database, FederatedController, controller_clash}
use pymesh.Controller.Action.{update_rows}
use pymesh.Controller.Registry.{
  Payload, has_url, set_peered, new_controller, add_controller, register_controller,
}

abbrev Peered : Text → List FederatedController → Type 0
Peered url [] = Unit
Peered url (c ∷ rows) = (has_url url c ≡ true → c.status ≡ codes "PEERED") × Peered url rows

set_peered-id : (c : FederatedController) → c.status ≡ codes "PEERED" → set_peered c ≡ c
set_peered-id c e = ap (λ s. record c { status = s }) (sym e)

update-Peered :
    (url : Text) (rows : List FederatedController)
    → Peered url rows
    → update_rows (has_url url) set_peered rows ≡ rows
unfolding update_rows
update-Peered url [] p = refl
update-Peered url (c ∷ rows) (p, ps) = elim (Bool-cases (has_url url c)) [
  | inl e ↦ rw e (rw (set_peered-id c (p e)) (ap (λ l. c ∷ l) (update-Peered url rows ps)))
  | inr e ↦ rw e (ap (λ l. c ∷ l) (update-Peered url rows ps))
]

Peered-update :
    (url : Text) (rows : List FederatedController)
    → Peered url (update_rows (has_url url) set_peered rows)
unfolding update_rows
Peered-update url [] = tt
Peered-update url (c ∷ rows) = (marked (has_url url c) refl, Peered-update url rows)
  where
    marked :
        (b : Bool)
        → has_url url c ≡ b
        → has_url url (if b then set_peered c else c) ≡ true
        → (if b then set_peered c else c).status ≡ codes "PEERED"
    marked true e h = refl
    marked false e h = ground arith

Peered-snoc :
    (url : Text) (rows : List FederatedController) (c : FederatedController)
    → find? (has_url url) rows ≡ none
    → c.status ≡ codes "PEERED"
    → Peered url (rows ++ c ∷ [])
unfolding find?
Peered-snoc url [] c h e = (λ _. e, tt)
Peered-snoc url (d ∷ rows) c h e = (λ p. ground arith, Peered-snoc url rows c (ground arith) e)

found-update :
    (url : Text) (rows : List FederatedController) (c : FederatedController)
    → find? (has_url url) rows ≡ some c
    → find? (has_url url) (update_rows (has_url url) set_peered rows) ≡ some (set_peered c)
unfolding find? update_rows
found-update url [] c h = cc
found-update url (d ∷ rows) c h = ground (arith, found-update url rows c, eq_iff d.url url)

found-snoc :
    (url : Text) (rows : List FederatedController) (c : FederatedController)
    → find? (has_url url) rows ≡ none
    → c.url ≡ url
    → find? (has_url url) (rows ++ c ∷ []) ≡ some c
unfolding find?
found-snoc url [] c h e = ground (arith, eq_iff c.url url)
found-snoc url (d ∷ rows) c h e = ground (arith, found-snoc url rows c)

module _ (url : Text) (payload : Payload) (uuid : Text) (now : ℕ) (db : Database) where
  abbrev row : FederatedController
  row = new_controller url payload uuid now

  abbrev added : Database
  added = record db { controllers = db.controllers ++ row ∷ [] }

  add_controller-free :
      any (controller_clash row) db.controllers ≡ false → add_controller row db ≡ (ok tt, added)
  unfolding add_controller
  add_controller-free h = rw (h, add_controller)

  add_controller-taken :
      any (controller_clash row) db.controllers ≡ true
      → add_controller row db ≡ (raise integrity, db)
  unfolding add_controller
  add_controller-taken h = rw (h, add_controller)

  abbrev IsKnown : Database → Type 0
  IsKnown d =
      Peered url d.controllers
      × ((c : FederatedController) × (find? (has_url url) d.controllers ≡ some c))

  register-IsKnown :
      (db' : Database) → register_controller url payload uuid now db ≡ (ok tt, db') → IsKnown db'
  unfolding register_controller
  register-IsKnown db' h = elim (Option-cases (find? (has_url url) db.controllers)) [
    | inr (c, e) ↦
        let after = record db {
          controllers = update_rows (has_url url) set_peered db.controllers;
        } in
        let same : after ≡ db' = ap (λ r. r.1) (rw (e, register_controller) at h) in
        rw (← same)
          (Peered-update url db.controllers, (set_peered c, found-update url db.controllers c e))
    | inl e ↦ elim (Bool-cases (any (controller_clash row) db.controllers)) [
      | inl taken ↦
          absurd (ground (arith, rw (e, register_controller, add_controller-taken taken) at h))
      | inr free ↦
          let same : added ≡ db' =
            ap (λ r. r.1) (rw (e, register_controller, add_controller-free free) at h) in
          rw (← same) (
            Peered-snoc url db.controllers row e refl,
            (row, found-snoc url db.controllers row e refl),
          )
    ]
  ]

  -- Once a handshake from an address is done, any further handshake from it, with whatever names,
  -- keys, ids and time, succeeds and changes nothing: the controller stays registered once.
  pub register_controller-again :
      (db' : Database)
      → register_controller url payload uuid now db ≡ (ok tt, db')
      → (payload' : Payload) (uuid' : Text) (now' : ℕ)
      → register_controller url payload' uuid' now' db' ≡ (ok tt, db')
  unfolding register_controller
  register_controller-again db' h payload' uuid' now' =
      let (p, (c, e)) = register-IsKnown db' h in
      rw (e, register_controller)
        (ap (λ l. (ok tt, record db' { controllers = l })) (update-Peered url db'.controllers p))
