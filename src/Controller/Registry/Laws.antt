-- ===== src/Controller/Registry/Laws.antt =====
-- Publishing a name, and federating with a controller, leave one row for it.
use pymesh.Base.{
  ℕ, ◌≡◌, refl, true, false, none, some, List, [], ◌∷◌, ◌++◌, if◌then◌else◌, ◌==◌, text_eq, find?,
  any, arith, eq_iff, Option-cases, inl, inr,
}
use pymesh.Base.Text.{Text}
use pymesh.Base.Result.{ok, raise, http}
use pymesh.Tld.{clean_tld, validate_tld_name}
use pymesh.Controller.Models.{Database, TldRegistry, tld_clash}
use pymesh.Controller.Action.{update_rows}
use pymesh.Controller.Registry.{is_tld, describe, new_tld, add_tld, publish_tld}

find-absent :
    (name : Text) (rows : List TldRegistry)
    → find? (is_tld name) rows ≡ none
    → any (λ t. name == t.name) rows ≡ false
unfolding find? any
find-absent name [] h = refl
find-absent name (t ∷ rows) h =
    ground (arith, find-absent name rows, eq_iff name t.name, eq_iff t.name name)

find-snoc :
    (k : Text) (rows : List TldRegistry) (t : TldRegistry)
    → find? (is_tld k) (rows ++ t ∷ []) ≡ (elim (find? (is_tld k) rows) [
      | some r ↦ some r
      | none ↦ if is_tld k t then some t else none
    ])
unfolding find?
find-snoc k [] t = ground arith
find-snoc k (r ∷ rows) t = ground (arith, find-snoc k rows t)

find-described :
    (k name d p : Text) (rows : List TldRegistry)
    → find? (is_tld k) (update_rows (is_tld name) (describe d p) rows)
      ≡ (elim (find? (is_tld k) rows) [
        | none ↦ none
        | some r ↦ some (if name == k then describe d p r else r)
      ])
unfolding find? update_rows
find-described k name d p [] = ground arith
find-described k name d p (r ∷ rows) =
    ground
      (arith, find-described k name d p rows, eq_iff r.name k, eq_iff r.name name, eq_iff name k)

module _ (name d p : Text) (now : ℕ) (db : Database) where
  add_tld-free :
      (t : TldRegistry)
      → any (tld_clash t) db.tlds ≡ false
      → add_tld t db ≡ (ok tt, record db { tlds = db.tlds ++ t ∷ [] })
  unfolding add_tld
  add_tld-free t h = rw (h, add_tld)

  -- A name that is not valid is refused with a 400 and nothing changes. A valid one is published:
  -- afterwards its clean form has a row with the description and the publisher that were given, of
  -- the time and by the node of its first publication, and the rows of other names are as before.
  pub publish_tld_lem :
      (validate_tld_name name ≡ false → publish_tld name d p now db ≡ (raise (http 400), db))
      × (validate_tld_name name ≡ true
          → (k : Text)
          → find? (is_tld k) (publish_tld name d p now db).1.tlds ≡ (
              if clean_tld name == k
              then (elim (find? (is_tld k) db.tlds) [
                | none ↦ some (new_tld (clean_tld name) d p now)
                | some t ↦ some (describe d p t)
              ])
              else find? (is_tld k) db.tlds))
  unfolding publish_tld
  publish_tld_lem = (
    λ bad. rw bad,
    λ good k. elim (Option-cases (find? (is_tld (clean_tld name)) db.tlds)) [
      | inl e ↦
          rw (good, e)
            (rw
              (add_tld-free (new_tld (clean_tld name) d p now)
                (find-absent (clean_tld name) db.tlds e))
              (ground (
                arith,
                e,
                find-snoc k db.tlds (new_tld (clean_tld name) d p now),
                eq_iff (clean_tld name) k,
              )))
      | inr (t, e) ↦
          rw (good, e)
            (ground
              (arith, e, find-described k (clean_tld name) d p db.tlds, eq_iff (clean_tld name) k))
    ],
  )
