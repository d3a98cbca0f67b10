-- ===== src/Dns/Server/Cache.antt =====
-- What the DNS server resolves (pymesh/dns/server.py).
use pymesh.Base.{
  ◌≡◌, refl, ◌∙◌, ap, Bool, Option, none, some, List, [], ◌∷◌, ◌++◌, if◌then◌else◌, ◌==◌, text_eq,
  arith, ◌||◌,
}
use pymesh.Base.Text.{Text, codes, lower}
use pymesh.Base.Dict.{Dict, lookup, insert, lookup-insert}
use pymesh.Dns.Server.{
  Reply, unreachable, DnsServer, add_nodes, fetch, clean_domain, resolve_custom_tld,
}

-- A name in the cache is answered from it, whatever the controller would say now, and the cache
-- does not change. A name that is not there is answered with what the cache holds for it after the
-- records of the controller were added; if the controller cannot be reached the answer is no.
pub resolve_lem :
    (s : DnsServer) (domain : Text) (nodes : Reply (Text × Text)) (tlds : Reply Text)
    → ((ip : Text)
        → lookup (clean_domain domain) s.records_cache ≡ some ip
        → resolve_custom_tld s domain nodes tlds ≡ (s, some ip))
      × (lookup (clean_domain domain) s.records_cache ≡ none
          → ((resolve_custom_tld s domain nodes tlds).1
              ≡ lookup (clean_domain domain) (fetch s.ctrl_host nodes tlds s.records_cache))
            × (resolve_custom_tld s domain unreachable tlds ≡ (s, none)))
unfolding resolve_custom_tld fetch
resolve_lem s domain nodes tlds = (
  λ ip e. rw (e, resolve_custom_tld),
  λ e. (rw (e, resolve_custom_tld), rw (e, resolve_custom_tld) (ap (λ o. (s, o)) e)),
)

-- the address of the last node of a list that has one of the three names, or else a default
abbrev pub names_node : Text → Text → Bool
names_node k hostname =
    let h = lower hostname in h == k || ((h ++ codes ".cr") == k || (h ++ codes ".mesh") == k)

unfoldable pub last_node : Text → Option Text → List (Text × Text) → Option Text
last_node k before [] = before
last_node k before ((hostname, ip) ∷ nodes) =
    last_node k (if names_node k hostname then some ip else before) nodes

-- After the nodes of the controller were added to the cache, a name has the address of the last
-- node whose hostname, in lower case and alone or under "cr" or "mesh", it is; a name of no node
-- is as before.
pub lookup-add_nodes :
    (k : Text) (nodes : List (Text × Text)) (cache : Dict Text)
    → lookup k (add_nodes nodes cache) ≡ last_node k (lookup k cache) nodes
unfolding add_nodes last_node
lookup-add_nodes k [] cache = refl
lookup-add_nodes k ((hostname, ip) ∷ nodes) cache =
    lookup-add_nodes k nodes _ ∙ ap (λ o. last_node k o nodes) (step (lower hostname))
  where
    step :
        (h : Text)
        → lookup k
            (insert (h ++ codes ".mesh") ip (insert (h ++ codes ".cr") ip (insert h ip cache)))
          ≡ (if h == k || ((h ++ codes ".cr") == k || (h ++ codes ".mesh") == k)
              then some ip
              else lookup k cache)
    step h = ground (
      arith,
      lookup-insert (h ++ codes ".mesh") k ip (insert (h ++ codes ".cr") ip (insert h ip cache)),
      lookup-insert (h ++ codes ".cr") k ip (insert h ip cache),
      lookup-insert h k ip cache,
    )
