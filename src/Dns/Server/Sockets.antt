-- ===== src/Dns/Server/Sockets.antt =====
-- The ports of the two DNS servers: `start` and `stop` of pymesh/dns/server.py and
-- pymesh/networking/dns.py. Which ports can be bound, and how commands end, are arguments.
use pymesh.Base.{
  ℕ, Bool, true, false, Option, none, some, List, [], ◌∷◌, ◌++◌, if◌then◌else◌, ◌==◌, nat_eq,
}
use pymesh.Base.Text.{Text, codes}
use pymesh.Base.Decimal.{show}
use pymesh.Networking.{Command, Outcome, raised, finished}

-- where a server listens, and whether it has a transport
pub record Socket : Type 0 where
  pub bind_host : Text
  pub bind_port : ℕ
  pub is_open : Bool

-- the first port that can be bound
unfoldable pub first_bound : (ℕ → Bool) → List ℕ → Option ℕ
first_bound binds [] = none
first_bound binds (port ∷ ports) =
    let rest = first_bound binds ports in if binds port then some port else rest

abbrev pub ports_to_try : ℕ → List ℕ
ports_to_try bind_port = if bind_port == 53 then 53 ∷ 5353 ∷ 5300 ∷ [] else bind_port ∷ []

abbrev pub bound : Socket → Option ℕ → Socket
bound s none = s
bound s (some port) = record s { bind_port = port; is_open = true }

-- `PyMeshDNSServer.start`
unfoldable pub start : (ℕ → Bool) → Socket → Socket
unfolding first_bound
start binds s = bound s (first_bound binds (ports_to_try s.bind_port))

-- `stop` of both servers: the transport is closed if there is one
unfoldable pub stop : Socket → Socket
stop s = if s.is_open then record s { is_open = false } else s

abbrev dns_command : Socket → Command
dns_command s =
    codes "resolvectl"
    ∷ codes "dns"
    ∷ codes "pymesh0"
    ∷ (s.bind_host ++ b':' ∷ show s.bind_port)
    ∷ []

abbrev domain_command : Command
domain_command =
    codes "resolvectl" ∷ codes "domain" ∷ codes "pymesh0" ∷ codes "~mesh" ∷ codes "~cr" ∷ []

-- the commands that are run; one that raises is the last
abbrev until_raised : Command → Command → Outcome → List Command
until_raised first second raised = first ∷ []
until_raised first second (finished code err) = first ∷ second ∷ []

-- `MagicDNSServer._configure_system_resolver`
unfoldable pub configure_system_resolver : (Command → Outcome) → Bool → Socket → List Command
configure_system_resolver run resolvectl s =
    if resolvectl then until_raised (dns_command s) domain_command (run (dns_command s)) else []

-- `MagicDNSServer.start`
unfoldable pub start_magic :
    (ℕ → Bool) → (Command → Outcome) → Bool → Socket → Socket × List Command
unfolding first_bound configure_system_resolver
start_magic binds run resolvectl s =
    let s' = bound s (first_bound binds (53 ∷ s.bind_port ∷ [])) in
    (s', configure_system_resolver run resolvectl s')
