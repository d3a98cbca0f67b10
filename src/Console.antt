-- ===== src/Console.antt =====
-- The sessions of the console (pymesh/controller/web.py). The text of a page is a constructor.
pub mod Sessions
pub mod Carousel
pub mod Canvas
pub mod Dashboard
mod Tests
use pymesh.Base.{
  ℕ, ◌≡◌, refl, ◌∙◌, ap, sym, Bool, true, false, not, ◌&&◌, ◌||◌, Option, none, some, List, [], ◌∷◌,
  ◌++◌, if◌then◌else◌, ◌==◌, text_eq, contains, any, is_empty, ◌↔◌, eq_iff, Bool-cases, inl, inr,
  arith,
}
use pymesh.Base.Text.{Text, codes}

-- ADMIN_PASSKEY and ACTIVE_SESSIONS
pub record Console : Type 0 where
  pub passkey : Text
  pub active_sessions : List Text

unfoldable pub new_console : Text → Console
new_console passkey = record { passkey = passkey; active_sessions = [] }

pub data Page : Type 0 where
  login_html : Page
  dashboard_html : Page
  -- the script that says that the passkey is not valid, with the status 401
  invalid_passkey : Page
  redirect : Text → Page

-- the page, and the cookie that is set
pub record Answer : Type 0 where
  pub page : Page
  pub cookie : Option Text

abbrev pub add_session : Text → List Text → List Text
add_session token sessions = if contains token sessions then sessions else token ∷ sessions

unfoldable pub is_authenticated : Option Text → Console → Bool
is_authenticated none c = false
is_authenticated (some token) c = if is_empty token then false else contains token c.active_sessions

-- GET /net/login
unfoldable pub login_page : Option Text → Console → Answer
unfolding is_authenticated
login_page cookie c = record {
  page = if is_authenticated cookie c then redirect (codes "/net/dashboard") else login_html;
  cookie = none;
}

-- POST /net/login; `session_token` is the random token of a session that is opened
unfoldable pub process_login : Text → Text → Console → Answer × Console
process_login passkey session_token c =
    if passkey == c.passkey
    then (
      record { page = redirect (codes "/net/dashboard"); cookie = some session_token },
      record c { active_sessions = add_session session_token c.active_sessions },
    )
    else (record { page = invalid_passkey; cookie = none }, c)

-- GET /net/dashboard
unfoldable pub dashboard : Option Text → Console → Answer
unfolding is_authenticated
dashboard cookie c = record {
  page = if is_authenticated cookie c then dashboard_html else redirect (codes "/net/login");
  cookie = none;
}

pub data Request : Type 0 where
  login : Text → Text → Request
  show_login : Option Text → Request
  show_dashboard : Option Text → Request

unfoldable pub handle : Request → Console → Answer × Console
unfolding process_login login_page dashboard
handle (login passkey session_token) c = process_login passkey session_token c
handle (show_login cookie) c = (login_page cookie c, c)
handle (show_dashboard cookie) c = (dashboard cookie c, c)

-- the console after requests, the first of the list first
unfoldable pub after : List Request → Console → Console
unfolding handle
after [] c = c
after (r ∷ requests) c = after requests (handle r c).1
