-- ===== src/App.antt =====
-- controller/app.py: the pages of the application, over the tables and the DNS server.
use pymesh.Base.{
  ℕ, zero, suc, ◌%◌, ◌-◌, ◌≡◌, refl, ◌∙◌, ap, true, Option, none, some, [], ◌∷◌, ◌++◌, map,
  if◌then◌else◌, text_eq, find?, length, is_empty, eq_refl,
}
use pymesh.Base.Text.{Text, codes}
use pymesh.Base.Bytes.{Bytes}
use pymesh.Base.Result.{Result, raise, http}
use pymesh.Tld.{clean_tld, validate_tld_name}
use pymesh.Tld.Page.{Domain, render_registry_html}
use pymesh.Controller.Models.{Database, NodeModel, TldRegistry}
use pymesh.Controller.Registry.{is_tld, describe, new_tld, publish_tld}
use pymesh.Controller.Registry.Laws.{publish_tld_lem}
use pymesh.Dns.Server.{Reply, DnsServer, process_query_data}

abbrev pub domain_of : NodeModel → Domain
domain_of n = record { hostname = n.hostname; mesh_ipv4 = n.mesh_ipv4; mesh_ipv6 = n.mesh_ipv6 }

abbrev pub publisher_info : Text → Option TldRegistry → Text
publisher_info clean none = codes "Official ." ++ (clean ++ codes " TLD Registry")
publisher_info clean (some tld_entry) = tld_entry.publisher_info

-- GET /registry/{tld_name}
unfoldable pub registry_tld_page : Text → Database → Text
registry_tld_page tld_name db =
    let clean = clean_tld tld_name in
    render_registry_html clean (publisher_info clean (find? (is_tld clean) db.tlds))
      (map domain_of db.nodes)

-- the body of a POST, or the parameter of a GET
pub data DohRequest : Type 0 where
  post : Bytes → DohRequest
  get : Option Text → DohRequest

unfoldable pub equals_signs : ℕ → Text
equals_signs zero = []
equals_signs (suc n) = b'=' ∷ equals_signs n

-- the padding to a multiple of four: -len % 4
abbrev pub padded : Text → Text
padded dns_param = dns_param ++ equals_signs ((4 - length dns_param % 4) % 4)

-- `urlsafe_b64decode` is a parameter; `none` is an exception.
abbrev pub decoded : (Text → Option Bytes) → Option Text → Bytes
decoded urlsafe_b64decode none = []
decoded urlsafe_b64decode (some dns_param) =
    if is_empty dns_param
    then []
    else elim (urlsafe_b64decode (padded dns_param)) [ none ↦ [] | some query_bytes ↦ query_bytes ]

abbrev pub query_of : (Text → Option Bytes) → DohRequest → Bytes
query_of urlsafe_b64decode (post body) = body
query_of urlsafe_b64decode (get dns_param) = decoded urlsafe_b64decode dns_param

-- GET and POST /dns-query
unfoldable pub doh_dns_query :
    (Text → Option Bytes)
    → DnsServer
    → DohRequest
    → Reply (Text × Text)
    → Reply Text
    → Option Bytes
    → DnsServer × Result Bytes
doh_dns_query urlsafe_b64decode dns_srv request nodes tlds upstream =
    let query_bytes = query_of urlsafe_b64decode request in
    if is_empty query_bytes
    then (dns_srv, raise (http 400))
    else process_query_data dns_srv query_bytes nodes tlds upstream

described :
    (k d p : Text) (now : ℕ) (o : Option TldRegistry)
    → publisher_info k (elim o [ none ↦ some (new_tld k d p now) | some t ↦ some (describe d p t) ])
      ≡ p
described k d p now none = refl
described k d p now (some t) = refl

-- Once a name was published, its registry page, however the name is spelled in the path, shows the text
-- of the publisher that was given, and every node.
pub registry_tld_page-publish_tld :
    (name d p : Text) (now : ℕ) (db : Database) (path : Text)
    → validate_tld_name name ≡ true
    → clean_tld path ≡ clean_tld name
    → registry_tld_page path (publish_tld name d p now db).1
      ≡ render_registry_html
          (clean_tld name)
          p
          (map domain_of (publish_tld name d p now db).1.nodes)
unfolding registry_tld_page
registry_tld_page-publish_tld name d p now db path good same =
    let listed = (publish_tld_lem name d p now db).1 good (clean_tld name) in
    rw same (
      ap
        (λ o.
          render_registry_html (clean_tld name) (publisher_info (clean_tld name) o)
            (map domain_of (publish_tld name d p now db).1.nodes))
        listed
      ∙ rw (eq_refl (clean_tld name)) (
          ap
            (λ i.
              render_registry_html (clean_tld name) i
                (map domain_of (publish_tld name d p now db).1.nodes))
            (described (clean_tld name) d p now (find? (is_tld (clean_tld name)) db.tlds))))
