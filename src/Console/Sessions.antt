-- ===== src/Console/Sessions.antt =====
-- Who sees the dashboard of the console (pymesh/controller/web.py).
use mathlib.Core.Path.{subst}
use pymesh.Base.{
  ◌≡◌, refl, ◌∙◌, ap, sym, Bool, true, false, not, ◌&&◌, ◌||◌, none, some, List, [], ◌∷◌,
  if◌then◌else◌, ◌==◌, text_eq, contains, any, is_empty, ◌↔◌, eq_iff, Bool-cases, inl, inr, arith,
}
use pymesh.Base.Text.{Text, codes}
use pymesh.Console.{
  Console, new_console, dashboard_html, redirect, add_session, is_authenticated, process_login,
  dashboard, Request, login, show_login, show_dashboard, handle, after,
}

-- the request opens the session of the token
abbrev pub opens : Text → Text → Request → Bool
opens passkey token (login p t) = p == passkey && t == token
opens passkey token (show_login cookie) = false
opens passkey token (show_dashboard cookie) = false

contains-cons :
    (token t : Text) (sessions : List Text)
    → contains token (t ∷ sessions) ≡ (t == token || contains token sessions)
unfolding contains
contains-cons token t sessions = ground (arith, eq_iff t token, eq_iff token t)

contains-add_session :
    (token t : Text) (sessions : List Text)
    → contains token (add_session t sessions) ≡ (t == token || contains token sessions)
contains-add_session token t sessions = elim (Bool-cases (contains t sessions)) [
  | inl e ↦ rw e (elim (Bool-cases (t == token)) [
    | inl f ↦ let same = (eq_iff t token).0 f in rw f (rw same at e)
    | inr f ↦ rw f refl
  ])
  | inr e ↦ rw e (contains-cons token t sessions)
]

login-opened :
    (p t : Text) (c : Console)
    → (p == c.passkey) ≡ true
    → (handle (login p t) c).1 ≡ record c { active_sessions = add_session t c.active_sessions }
unfolding handle process_login
login-opened p t c e = rw e refl

login-refused : (p t : Text) (c : Console) → (p == c.passkey) ≡ false → (handle (login p t) c).1 ≡ c
unfolding handle process_login
login-refused p t c e = rw e refl

after-active :
    (token : Text) (requests : List Request) (c : Console)
    → contains token (after requests c).active_sessions
      ≡ (any (opens c.passkey token) requests || contains token c.active_sessions)
unfolding after any handle
after-active token [] c = refl
after-active token (login p t ∷ requests) c = elim (Bool-cases (p == c.passkey)) [
  | inl e ↦
      ap (λ d. contains token (after requests d).active_sessions) (login-opened p t c e)
      ∙ after-active token requests (record c { active_sessions = add_session t c.active_sessions })
      ∙ rw (contains-add_session token t c.active_sessions, e) (ground arith)
  | inr e ↦
      ap (λ d. contains token (after requests d).active_sessions) (login-refused p t c e)
      ∙ after-active token requests c
      ∙ rw e refl
]
after-active token (show_login cookie ∷ requests) c = after-active token requests c
after-active token (show_dashboard cookie ∷ requests) c = after-active token requests c

or_false : (b : Bool) → (b || false) ≡ b
or_false true = refl
or_false false = refl

is_authenticated-after :
    (passkey token : Text) (requests : List Request)
    → is_authenticated (some token) (after requests (new_console passkey))
      ≡ (not (is_empty token) && any (opens passkey token) requests)
unfolding is_authenticated new_console contains
is_authenticated-after passkey token requests = elim (Bool-cases (is_empty token)) [
  | inl e ↦ rw e refl
  | inr e ↦ rw e (
      after-active token requests (new_console passkey)
      ∙ or_false (any (opens passkey token) requests))
]

shown_if :
    (b : Bool)
    → ((if b then dashboard_html else redirect (codes "/net/login")) ≡ dashboard_html) ↔ (b ≡ true)
shown_if true = (λ e. refl, λ e. refl)
shown_if false = (λ e. cc, λ e. cc)

sent :
    (b : Bool)
    → b ≡ false
    → (if b then dashboard_html else redirect (codes "/net/login")) ≡ redirect (codes "/net/login")
sent b e = rw e refl

-- However the console was used since its start, the dashboard is shown for a cookie exactly if
-- the cookie is a token that is not empty and that a login with the passkey of the console was
-- given. With any other cookie, and without one, the request is sent to the login.
pub dashboard_iff :
    (passkey token : Text) (requests : List Request)
    → (((dashboard (some token) (after requests (new_console passkey))).page ≡ dashboard_html)
        ↔ ((not (is_empty token) && any (opens passkey token) requests) ≡ true))
      × ((not (is_empty token) && any (opens passkey token) requests) ≡ false
          → (dashboard (some token) (after requests (new_console passkey))).page
            ≡ redirect (codes "/net/login"))
      × ((dashboard none (after requests (new_console passkey))).page
          ≡ redirect (codes "/net/login"))
unfolding dashboard new_console is_authenticated
dashboard_iff passkey token requests = (
  subst
      (λ b.
        ((if b then dashboard_html else redirect (codes "/net/login")) ≡ dashboard_html)
        ↔ ((not (is_empty token) && any (opens passkey token) requests) ≡ true))
      (sym (is_authenticated-after passkey token requests))
      (shown_if (not (is_empty token) && any (opens passkey token) requests)),
  λ e. sent _ (is_authenticated-after passkey token requests ∙ e),
  refl,
)
