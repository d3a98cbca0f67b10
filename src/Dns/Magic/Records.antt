-- ===== src/Dns/Magic/Records.antt =====
-- What the resolver of the daemon knows after its records were replaced
-- (pymesh/networking/dns.py).
use pymesh.Base.{Option, some, List, [], ◌∷◌, ◌++◌, if◌then◌else◌, ◌==◌, text_eq, ◌||◌, ◌&&◌}
use pymesh.Base.Text.{Text, codes, lower}
use pymesh.Base.Dict.{Dict}
use pymesh.Dns.Magic.{clean, at_controller}

-- the answer for `k` after a host was recorded under some domains
pub under_tlds : Text → Text → Text → Option Text → List Text → Option Text
under_tlds k h ip before [] = before
under_tlds k h ip before (tld ∷ tlds) =
    under_tlds k h ip
      (if (h ++ b'.' ∷ clean tld) == k
          || (at_controller h ip && (codes "registry." ++ clean tld) == k)
        then some ip
        else before)
      tlds

-- the answer for `k` after all hosts
pub under_hosts : List Text → Text → Option Text → Dict Text → Option Text
under_hosts tlds k before [] = before
under_hosts tlds k before ((name, ip) ∷ hosts) =
    under_hosts tlds k
      (under_tlds k (lower name) ip (if lower name == k then some ip else before) tlds) hosts
