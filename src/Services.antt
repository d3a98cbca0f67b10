-- ===== src/Services.antt =====
-- The processes: controller/app.py around its requests, relay/app.py and pymesh/relay/server.py,
-- pymesh/daemon/main.py, and the DNS server on its own (pymesh/dns/server.py). What is asked of the
-- machine is an argument: the arguments of the process, which ports are free, and whether the tables
-- can be made.
mod Laws
use pymesh.Base.{
  ℕ, ◌≡◌, refl, Bool, true, false, Option, none, some, List, [], ◌∷◌, ◌++◌, if◌then◌else◌, ap,
  get_elem?,
}
use pymesh.Base.Text.{Text, codes}
use pymesh.Base.Number.{int_of}
use pymesh.Base.Decimal.{show}
use pymesh.Base.Result.{Result, ok, raise, ◌>>=◌}
use pymesh.Dns.Server.Sockets.{Socket, start, stop}

-- what a process prints, and the sockets that it has while it serves and when it is stopped
pub record Service : Type 0 where
  pub lines : List Text
  pub serving : Socket
  pub stopped : Socket

abbrev socket_at : Text → ℕ → Socket
socket_at host port = record { bind_host = host; bind_port = port; is_open = false }

abbrev rule : Text
rule = codes "========================================================"

-- the lines of the controller when its DNS server was started
abbrev pub controller_lines : ℕ → List Text
controller_lines bind_port =
    rule
    ∷ codes " PyMesh Controller API running on http://0.0.0.0:8000"
    ∷ (codes " PyMesh DNS Server active on UDP 0.0.0.0:" ++ show bind_port)
    ∷ codes " Custom TLDs (*.cr, *.mesh, registry.cr) Ready"
    ∷ rule
    ∷ []

-- `lifespan` of the controller, around its requests
unfoldable pub lifespan : (ℕ → Bool) → Service
unfolding start stop
lifespan binds =
    let dns_srv : Socket = start binds (socket_at (codes "0.0.0.0") 53) in
    record { lines = controller_lines dns_srv.bind_port; serving = dns_srv; stopped = stop dns_srv }

-- GET /
pub record Root : Type 0 where
  pub service : Text
  pub status : Text
  pub version : Text

unfoldable pub root : Root
root = record {
  service = codes "PyMesh Controller";
  status = codes "running";
  version = codes "0.2.0";
}

abbrev pub dns_lines : Text → ℕ → List Text
dns_lines host port =
    (codes "\n" ++ rule)
    ∷ (codes " PyMesh DNS Server Active on UDP " ++ (host ++ (b':' ∷ show port)))
    ∷ codes " Custom TLDs: .cr, .mesh, registry.cr, registry.mesh"
    ∷ codes " Upstream DNS: 1.1.1.1 (Cloudflare)"
    ∷ (rule ++ codes "\n")
    ∷ []

-- `run_dns_server`, until it is interrupted
unfoldable pub run_dns_server : (ℕ → Bool) → Text → ℕ → Service
unfolding start stop
run_dns_server binds host port =
    let srv : Socket = start binds (socket_at host port) in
    record {
      lines = dns_lines host port ++ codes "\nPyMesh DNS Server stopped." ∷ [];
      serving = srv;
      stopped = stop srv;
    }

abbrev or_text : Text → Option Text → Text
or_text default_ none = default_
or_text default_ (some s) = s

abbrev or_port : Option Text → Result ℕ
or_port none = ok 53
or_port (some s) = int_of s

-- the module of the DNS server as a program: the URL of the controller that it is given, and the
-- service; `argv` has the name of the program first
unfoldable pub dns_main : (ℕ → Bool) → List Text → Result (Text × Service)
unfolding run_dns_server
dns_main binds argv = or_port (get_elem? argv 2) >>= λ p. ok (
  or_text (codes "http://localhost:8000") (get_elem? argv 1),
  run_dns_server binds (codes "0.0.0.0") p,
)

-- the port of relay/app.py: that of an argument that is a number
abbrev pub port_or : Result ℕ → ℕ
port_or (ok port) = port
port_or (raise e) = 51830

unfoldable pub relay_port : List Text → ℕ
unfolding int_of
relay_port argv = elim (get_elem? argv 1) [ none ↦ 51830 | some s ↦ port_or (int_of s) ]

-- `RelayServer.start`: an endpoint that cannot be opened raises, here `false`
unfoldable pub start_relay : (ℕ → Bool) → Socket → Bool × Socket
start_relay binds s = if binds s.bind_port then (true, record s { is_open = true }) else (false, s)

-- `main` of relay/app.py: the server while it serves and when it is stopped, if it starts
unfoldable pub relay_main : (ℕ → Bool) → List Text → Option (Socket × Socket)
unfolding relay_port start_relay stop
relay_main binds argv =
    let (started, s) = start_relay binds (socket_at (codes "0.0.0.0") (relay_port argv)) in
    if started then some (s, stop s) else none

-- the directory of the configuration in pymesh/daemon/main.py
unfoldable pub config_dir : List Text → Text
config_dir argv = or_text (codes "/etc/pymesh") (get_elem? argv 1)
