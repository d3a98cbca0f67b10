-- ===== src/Controller/Auth/Uses.antt =====
-- How often a join token is accepted (pymesh/controller/auth.py).
use Prim.Native.Nat.{min}
use pymesh.Base.{
  ℕ, ◌+◌, ◌-◌, ◌≡◌, refl, ◌∙◌, Bool, true, false, not, ◌&&◌, Option, none, some, List, [], ◌∷◌,
  if◌then◌else◌, ◌==◌, text_eq, find?, leb, arith, eq_iff, Bool-cases, inl, inr, list_beq,
}
use pymesh.Base.Text.{Text}
use pymesh.Base.Result.{Result, ok, raise}
use pymesh.Controller.Models.{Database, AuthToken}
use pymesh.Controller.Action.{update_rows}
use pymesh.Controller.Auth.{has_token, count_use, used_up, validate_token}

abbrev find_token : Text → Database → Option AuthToken
find_token t db = find? (has_token t) db.tokens

abbrev when {ℓ} : {A : Type ℓ} → Bool → (A → A) → Option A → Option A
when b f none = none
when b f (some a) = some (if b then f a else a)

find-count_use :
    (t s : Text) (rows : List AuthToken)
    → find? (has_token t) (update_rows (has_token s) count_use rows)
      ≡ when (s == t) count_use (find? (has_token t) rows)
unfolding find? update_rows
find-count_use t s [] = refl
find-count_use t s (r ∷ rows) =
    ground (arith, find-count_use t s rows, eq_iff r.token t, eq_iff r.token s, eq_iff s t)

-- what one attempt answers
abbrev answer : Option AuthToken → Bool
answer none = false
answer (some r) = not (used_up r)

validate_token-answer :
    (s : Text) (db : Database) → (validate_token s db).0 ≡ ok (answer (find_token s db))
unfolding validate_token
validate_token-answer s db = ground arith

find-validate_token :
    (t s : Text) (db : Database)
    → find_token t (validate_token s db).1
      ≡ when (s == t && answer (find_token s db)) count_use (find_token t db)
unfolding validate_token
find-validate_token t s db = ground (arith, find-count_use t s db.tokens)

abbrev one_if : Bool → ℕ
one_if true = 1
one_if false = 0

-- whether a call returned True
abbrev pub says_true : Result Bool → Bool
says_true (ok b) = b
says_true (raise e) = false

-- In a run of calls of `validate_token` with any tokens, those with the token `t` that return True.
pub accepted : Text → List Text → Database → ℕ
accepted t [] db = 0
accepted t (s ∷ rest) db =
    one_if (s == t && says_true (validate_token s db).0) + accepted t rest (validate_token s db).1

pub attempts : Text → List Text → ℕ
attempts t [] = 0
attempts t (s ∷ rest) = one_if (s == t) + attempts t rest

used_up-limit : (r : AuthToken) (m : ℕ) → r.max_uses ≡ some m → used_up r ≡ leb m r.used_count
unfolding used_up
used_up-limit r m h = ground arith

accepted_from :
    (t : Text) (m : ℕ) (ss : List Text) (db : Database) (r : AuthToken)
    → find_token t db ≡ some r
    → r.max_uses ≡ some m
    → accepted t ss db ≡ min (attempts t ss) (m - r.used_count)
unfolding accepted attempts
accepted_from t m [] db r found limit = omega arith
accepted_from t m (s ∷ ss) db r found limit = elim (Bool-cases (list_beq s t)) [
  | inl same ↦
      let found_s : find_token s db ≡ some r = rw ((eq_iff s t).0 same) found in
      elim (Bool-cases (used_up r)) [
        | inl full ↦ ground (
          arith,
          found_s,
          find-validate_token t s db,
          validate_token-answer s db,
          used_up-limit r m limit,
          accepted_from t m ss (validate_token s db).1 r,
        )
        | inr open_ ↦ ground (
          arith,
          found_s,
          find-validate_token t s db,
          validate_token-answer s db,
          used_up-limit r m limit,
          accepted_from t m ss (validate_token s db).1 (count_use r),
        )
      ]
  | inr other ↦ ground (
    arith,
    find-validate_token t s db,
    validate_token-answer s db,
    accepted_from t m ss (validate_token s db).1 r,
  )
]

-- In any run of attempts with any tokens, a token with a limit of `m` uses, of which some are
-- used, is accepted at every attempt until the limit is reached, and never again: the number of
-- accepted attempts is the smaller of the attempts with it and the uses left.
pub accepted-eq-min :
    (t : Text) (m : ℕ) (ss : List Text) (db : Database) (r : AuthToken)
    → find? (has_token t) db.tokens ≡ some r
    → r.max_uses ≡ some m
    → accepted t ss db ≡ min (attempts t ss) (m - r.used_count)
accepted-eq-min t m ss db r found limit = accepted_from t m ss db r found limit

-- An attempt is accepted exactly when the token has a row with uses left; it raises nothing.
pub validate_token_lem :
    (s : Text) (db : Database)
    → ((r : AuthToken)
        → find? (has_token s) db.tokens ≡ some r
        → (validate_token s db).0 ≡ ok (not (used_up r)))
      × (find? (has_token s) db.tokens ≡ none → validate_token s db ≡ (ok false, db))
unfolding validate_token
validate_token_lem s db = (λ r e. validate_token-answer s db ∙ rw e, λ e. rw (e, validate_token))
