-- ===== src/Controller/Requests/Keys.antt =====
-- Tables whose rows do not clash, and what is kept by the changes of pymesh/controller/api.py.
use pymesh.Base.{
  ◌≡◌, refl, ◌∙◌, Bool, false, List, [], ◌∷◌, ◌++◌, filter, any, arith, Bool-cases, inl, inr,
}
use pymesh.Base.Result.{ok}
use pymesh.Controller.Action.{insert_row, update_rows}

module _ {ℓ} {R : Type ℓ} (clash : R → R → Bool) where
  -- no row clashes with one behind it
  abbrev pub Keyed : List R → Type 0
  Keyed [] = Unit
  Keyed (r ∷ rows) = (any (clash r) rows ≡ false) × Keyed rows

  any-snoc :
      (p : R → Bool) (rows : List R) (r : R)
      → any p rows ≡ false
      → p r ≡ false
      → any p (rows ++ r ∷ []) ≡ false
  unfolding any
  any-snoc p [] r h e = ground arith
  any-snoc p (q ∷ rows) r h e = ground (arith, any-snoc p rows r)

  pub Keyed-snoc :
      (rows : List R) (r : R)
      → ((a b : R) → clash a b ≡ clash b a)
      → any (clash r) rows ≡ false
      → Keyed rows
      → Keyed (rows ++ r ∷ [])
  unfolding any
  Keyed-snoc [] r symmetric h ks = (refl, tt)
  Keyed-snoc (q ∷ rows) r symmetric h (k, ks) = (
    any-snoc (clash q) rows r k (symmetric q r ∙ ground arith),
    Keyed-snoc rows r symmetric (ground arith) ks,
  )

  -- an insertion that is not refused
  pub insert_row-Keyed :
      (rows rows' : List R) (r : R)
      → ((a b : R) → clash a b ≡ clash b a)
      → insert_row clash r rows ≡ ok rows'
      → Keyed rows
      → Keyed rows'
  insert_row-Keyed rows rows' r symmetric h ks = elim (Bool-cases (any (clash r) rows)) [
    | inl e ↦ absurd (ground arith)
    | inr e ↦
        let same : rows ++ r ∷ [] ≡ rows' = ground arith in
        rw (← same) (Keyed-snoc rows r symmetric e ks)
  ]

  any-filter :
      (p test : R → Bool) (rows : List R) → any p rows ≡ false → any p (filter test rows) ≡ false
  unfolding any filter
  any-filter p test [] h = refl
  any-filter p test (r ∷ rows) h = ground (arith, any-filter p test rows)

  pub Keyed-filter : (test : R → Bool) (rows : List R) → Keyed rows → Keyed (filter test rows)
  unfolding filter
  Keyed-filter test [] ks = tt
  Keyed-filter test (r ∷ rows) (k, ks) = elim (Bool-cases (test r)) [
    | inl e ↦ rw e (any-filter (clash r) test rows k, Keyed-filter test rows ks)
    | inr e ↦ rw e (Keyed-filter test rows ks)
  ]

  module _ (f : R → R) (left : (a b : R) → clash (f a) b ≡ clash a b)
      (right : (a b : R) → clash a (f b) ≡ clash a b) where
    any-update_rows :
        (r : R) (test : R → Bool) (rows : List R)
        → any (clash r) (update_rows test f rows) ≡ any (clash r) rows
    unfolding any update_rows
    any-update_rows r test [] = refl
    any-update_rows r test (q ∷ rows) = elim (Bool-cases (test q)) [
      | inl e ↦ rw e (rw (right r q) (rw (any-update_rows r test rows) refl))
      | inr e ↦ rw e (rw (any-update_rows r test rows) refl)
    ]

    any-left : (a : R) (rows : List R) → any (clash (f a)) rows ≡ any (clash a) rows
    unfolding any
    any-left a [] = refl
    any-left a (q ∷ rows) = rw (left a q) (rw (any-left a rows) refl)

    -- a change that touches no key
    pub Keyed-update_rows :
        (test : R → Bool) (rows : List R) → Keyed rows → Keyed (update_rows test f rows)
    unfolding update_rows
    Keyed-update_rows test [] ks = tt
    Keyed-update_rows test (q ∷ rows) (k, ks) = elim (Bool-cases (test q)) [
      | inl e ↦ rw e (
        any-left q (update_rows test f rows) ∙ any-update_rows q test rows ∙ k,
        Keyed-update_rows test rows ks,
      )
      | inr e ↦ rw e (any-update_rows q test rows ∙ k, Keyed-update_rows test rows ks)
    ]
