-- ===== src/Controller/Action.antt =====
-- A handler of the controller: it runs over a session and may raise. What was committed before an
-- exception stays, and what was not is rolled back, so the tables come back beside the error.
use mathlib.Core.Bool.{Bool, true, false}
use pymesh.Base.{◌≡◌, refl, List, [], ◌∷◌, ◌++◌, if◌then◌else◌, any, All}
use pymesh.Base.Result.{Result, ok, raise, Exception, integrity}
use pymesh.Controller.Models.{Database}

abbrev pub Action {ℓ} : Type ℓ → Type ℓ
Action A = Database → Result A × Database

module _ {ℓ} {A : Type ℓ} where
  abbrev pub pure : A → Action A
  pure a db = (ok a, db)

  abbrev pub fail : Exception → Action A
  fail e db = (raise e, db)

  abbrev pub lift : Result A → Action A
  lift r db = (r, db)

  -- a SELECT
  abbrev pub select : (Database → A) → Action A
  select f db = (ok (f db), db)

-- changes to loaded rows, with the commit
abbrev pub modify : (Database → Database) → Action (Unit {0})
modify f db = (ok tt, f db)

module _ {ℓ κ} {A : Type ℓ} {B : Type κ} where
  abbrev pub continue :
      Result A → (A → Database → Result B × Database) → Database → Result B × Database
  continue (ok a) f db = f a db
  continue (raise e) f db = (raise e, db)

  infixl 5 ◌>>=◌
  unfoldable pub ◌>>=◌ : Action A → (A → Action B) → Action B
  ◌>>=◌ m f db = let (r, db') = m db in continue r f db'

  -- a chain that answers has a first part that answers
  pub bind_ok :
      (m : Action A) (k : A → Action B) (db db' : Database) (b : B)
      → (m >>= k) db ≡ (ok b, db')
      → (a : A) × (db₁ : Database) × (m db ≡ (ok a, db₁)) × (k a db₁ ≡ (ok b, db'))
  unfolding ◌>>=◌
  bind_ok m k db db' b h = at (m db) refl h
    where
      at :
          (r : Result A × Database)
          → m db ≡ r
          → continue r.0 k r.1 ≡ (ok b, db')
          → (a : A) × (db₁ : Database) × (m db ≡ (ok a, db₁)) × (k a db₁ ≡ (ok b, db'))
      at (ok a, db₁) e h = (a, db₁, e, h)
      at (raise x, db₁) e h = cc

infixl 5 ◌>>◌
abbrev pub ◌>>◌ {ℓ} : {B : Type ℓ} → Action (Unit {0}) → Action B → Action B
m >> k = m >>= λ _. k

-- `session.add(row)` and the commit: refused if the row clashes with one that is there
abbrev pub insert_row {ℓ} : {R : Type ℓ} → (R → R → Bool) → R → List R → Result (List R)
insert_row clash r rows = if any (clash r) rows then raise integrity else ok (rows ++ r ∷ [])

-- the rows that meet a test, changed
unfoldable pub update_rows {ℓ} : {R : Type ℓ} → (R → Bool) → (R → R) → List R → List R
update_rows p f [] = []
update_rows p f (r ∷ rows) = (if p r then f r else r) ∷ update_rows p f rows

pub All-update_rows {ℓ κ} :
    {R : Type ℓ} {P : R → Type κ} (test : R → Bool) (f : R → R) (rows : List R)
    → ((r : R) → P r → P (f r))
    → All P rows
    → All P (update_rows test f rows)
unfolding update_rows
All-update_rows test f [] keep ps = tt
All-update_rows {P = P} test f (q ∷ rows) keep (pq, ps) =
    (at (test q), All-update_rows test f rows keep ps)
  where
    at : (b : Bool) → P (if b then f q else q)
    at true = keep q pq
    at false = pq
