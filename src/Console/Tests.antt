-- ===== src/Console/Tests.antt =====
-- A console with two logins, one with a wrong passkey, and the law at it.
use pymesh.Base.{◌≡◌, ◌↔◌, not, ◌&&◌, true, false, some, none, List, [], ◌∷◌, any, is_empty}
use pymesh.Base.Text.{codes}
use pymesh.Console.{
  new_console, dashboard, dashboard_html, redirect, Request, login, show_login, show_dashboard,
  after,
}
use pymesh.Console.Sessions.{opens, dashboard_iff}

abbrev requests : List Request
requests =
    show_login none
    ∷ login (codes "wrong") (codes "s1")
    ∷ login (codes "key") (codes "s2")
    ∷ show_dashboard (some (codes "s1"))
    ∷ []

dashboard_iff_example :
    (((dashboard (some (codes "s2")) (after requests (new_console (codes "key")))).page
        ≡ dashboard_html)
      ↔ ((not (is_empty (codes "s2")) && any (opens (codes "key") (codes "s2")) requests) ≡ true))
    × ((not (is_empty (codes "s2")) && any (opens (codes "key") (codes "s2")) requests) ≡ false
        → (dashboard (some (codes "s2")) (after requests (new_console (codes "key")))).page
          ≡ redirect (codes "/net/login"))
    × ((dashboard none (after requests (new_console (codes "key")))).page
        ≡ redirect (codes "/net/login"))
dashboard_iff_example = dashboard_iff (codes "key") (codes "s2") requests
