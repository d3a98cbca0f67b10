-- ===== src/Dns/Server.antt =====
-- pymesh/dns/server.py: the DNS server, its cache and the records that it takes from the
-- controller. What the network answers is an argument.
pub mod Cache
pub mod Udp
pub mod Sockets
pub mod Upstream
mod Registered
mod Tests
use pymesh.Base.{
  ℕ, Bool, Option, none, some, List, [], ◌∷◌, ◌++◌, if◌then◌else◌, ltb, length, is_empty, contains,
  ◌||◌, text_eq,
}
use pymesh.Base.Text.{Text, codes, lower, lstrip, rstrip}
use pymesh.Base.Dict.{Dict, lookup, insert}
use pymesh.Base.Bytes.{Bytes}
use pymesh.Base.Result.{Result, ok, raise}
use pymesh.Dns.{parse_domain_name, build_a_response}

-- the answer to a GET: an exception, a status other than 200, or the list of the body
pub data Reply (A : Type 0) : Type 0 where
  unreachable : Reply A
  refused : Reply A
  body : List A → Reply A

pub record DnsServer : Type 0 where
  -- `urlparse(self.controller_url).hostname`
  pub ctrl_host : Option Text
  pub records_cache : Dict Text

-- the hostname and the IPv4 address of each node
unfoldable pub add_nodes : List (Text × Text) → Dict Text → Dict Text
add_nodes [] cache = cache
add_nodes ((hostname, ip) ∷ nodes) cache =
    let h = lower hostname in
    add_nodes nodes
      (insert (h ++ codes ".mesh") ip (insert (h ++ codes ".cr") ip (insert h ip cache)))

unfoldable pub add_tlds : Text → List Text → Dict Text → Dict Text
add_tlds ctrl_ip [] cache = cache
add_tlds ctrl_ip (name ∷ tlds) cache =
    let clean_t = lower (lstrip b'.' name) in
    add_tlds ctrl_ip tlds
      (insert (codes "registry") ctrl_ip (insert (codes "registry." ++ clean_t) ctrl_ip cache))

unfoldable pub controller_ip : Option Text → Text
controller_ip none = codes "100.64.0.1"
controller_ip (some host) =
    if is_empty host || contains host (codes "localhost" ∷ codes "127.0.0.1" ∷ codes "0.0.0.0" ∷ [])
    then codes "100.64.0.1"
    else host

abbrev fetch_tlds : Option Text → Reply Text → Dict Text → Dict Text
fetch_tlds ctrl_host (body tlds) cache = add_tlds (controller_ip ctrl_host) tlds cache
fetch_tlds ctrl_host _ cache = cache

-- The second request is not made if the first one raises.
unfoldable pub fetch : Option Text → Reply (Text × Text) → Reply Text → Dict Text → Dict Text
fetch ctrl_host unreachable tlds cache = cache
fetch ctrl_host refused tlds cache = fetch_tlds ctrl_host tlds cache
fetch ctrl_host (body nodes) tlds cache = fetch_tlds ctrl_host tlds (add_nodes nodes cache)

-- `domain.lower().strip(".")`
abbrev pub clean_domain : Text → Text
clean_domain domain = rstrip b'.' (lstrip b'.' (lower domain))

unfoldable pub resolve_custom_tld :
    DnsServer → Text → Reply (Text × Text) → Reply Text → DnsServer × Option Text
resolve_custom_tld s domain nodes tlds =
    let d_clean = clean_domain domain in
    elim (lookup d_clean s.records_cache) [
      | some ip ↦ (s, some ip)
      | none ↦
          let cache = fetch s.ctrl_host nodes tlds s.records_cache in
          (record s { records_cache = cache }, lookup d_clean cache)
    ]

abbrev or_nothing : Option Bytes → Bytes
or_nothing none = []
or_nothing (some bytes) = bytes

-- the packet for an address, or what the upstream server answers
abbrev pub respond : Bytes → Text → Option Text → Option Bytes → Result Bytes
respond query domain none upstream = ok (or_nothing upstream)
respond query domain (some target_ip) upstream =
    if is_empty target_ip
    then ok (or_nothing upstream)
    else elim (build_a_response query domain target_ip) [
      | raise e ↦ raise e
      | ok response ↦ ok (if is_empty response then or_nothing upstream else response)
    ]

unfoldable pub process_query_data :
    DnsServer → Bytes → Reply (Text × Text) → Reply Text → Option Bytes → DnsServer × Result Bytes
process_query_data s query nodes tlds upstream =
    if ltb (length query) 12
    then (s, ok [])
    else let domain = (parse_domain_name query 12).0 in
      if is_empty domain
      then (s, ok [])
      else let (s', target_ip) = resolve_custom_tld s domain nodes tlds in
        (s', respond query domain target_ip upstream)
