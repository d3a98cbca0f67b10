-- ===== src/Cli/Forward.antt =====
-- handle_forward and handle_dns_server (pymesh/cli/commands.py), and the ports that they try.
pub mod Ports
pub mod Streams
use pymesh.Base.{
  ℕ, zero, suc, ◌+◌, Bool, true, false, not, Option, none, some, List, [], ◌∷◌, ◌++◌, if◌then◌else◌,
  ◌==◌, nat_eq, ltb, is_empty,
}
use pymesh.Base.Number.{int_of}
use pymesh.Base.Text.{Text, codes, split_once, strip}
use pymesh.Base.Decimal.{show, all_digits, read}
use pymesh.Base.Result.{Result, ok, raise, ◌>>=◌, bad_number, bad_port, no_attribute}
use pymesh.Identity.{NodeIdentity, IdentityFile, missing, unreadable, stored}
use pymesh.Controller.Views.{NodeView}
use pymesh.Cli.{
  Reply, Effect, printed, Ended, Run, returned, raised, given, with_identity, with_url, asks_nodes,
  address_of, resolve,
}

-- the local and the remote port
unfoldable pub parse_ports : Text → Result (ℕ × ℕ)
unfolding int_of
parse_ports ports = elim (split_once b':' ports) [
  | none ↦ int_of ports >>= λ port. ok (port, port)
  | some (local, remote) ↦ int_of local >>= λ l. int_of remote >>= λ r. ok (l, r)
]

-- The first of `n` ports that can be bound. A port that is taken raises OSError, and the loop goes on;
-- a number that is no port raises OverflowError, which ends it.
unfoldable pub bind_from : (ℕ → Bool) → ℕ → ℕ → Result (Option ℕ)
bind_from binds zero port = ok none
bind_from binds (suc n) port =
    let rest = bind_from binds n (port + 1) in
    if ltb 65535 port then raise bad_port else if binds port then ok (some port) else rest

abbrev pub goal_of : Text → Text → ℕ → Text
goal_of target target_ip remote_port =
    target ++ (codes " (" ++ (target_ip ++ (codes "):" ++ show remote_port)))

-- what is printed of the port that is bound
abbrev pub announce : Text → Text → ℕ → ℕ → Option ℕ → List Effect
announce target target_ip req_local_port remote_port none =
    printed (
      codes "[bold red]Port forwarding error:[/bold red] Could not bind to any port near "
      ++ (show req_local_port ++ codes "."))
    ∷ []
announce target target_ip req_local_port remote_port (some bound_port) =
    (if not (bound_port == req_local_port)
      then (printed (
            codes "[bold yellow]Notice:[/bold yellow] Requested local port "
            ++ (show req_local_port ++ codes " was occupied."))
          ∷ printed (
              codes "[bold green]Automatically proxied to http://localhost:"
              ++ (show bound_port
                  ++ (codes " -> "
                      ++ (goal_of target target_ip remote_port ++ codes "![/bold green]\n"))))
          ∷ [])
      else (printed (
            codes "[bold green]Forwarding local http://localhost:"
            ++ (show bound_port
                ++ (codes " -> "
                    ++ (goal_of target target_ip remote_port ++ codes "...[/bold green]\n"))))
          ∷ []))
    ++ printed (codes "[dim]Press Ctrl+C to stop port forwarding.[/dim]\n") ∷ []

abbrev pub proxied : IdentityFile → List Effect → (Option ℕ → List Effect) → Result (Option ℕ) → Run
proxied file asked says (raise e) = record { effects = asked; ended = raised e; file = file }
proxied file asked says (ok bound) = record {
  effects = asked ++ says bound;
  ended = returned;
  file = file;
}

abbrev pub forward_to :
    (ℕ → Bool) → Text → Reply (List NodeView) → IdentityFile → Result (ℕ × ℕ) → Run
forward_to binds target nodes file (raise e) = record {
  effects = [];
  ended = raised e;
  file = file;
}
forward_to binds target nodes file (ok (req_local_port, remote_port)) = with_url file [] (λ url.
    proxied file (asks_nodes url)
      (announce target (address_of url target nodes) req_local_port remote_port)
      (bind_from binds 100 req_local_port))

-- `handle_forward` up to the service itself; `binds` tells which ports are free.
unfoldable pub handle_forward :
    (ℕ → Bool) → Text → Text → Reply (List NodeView) → IdentityFile → Run
unfolding parse_ports bind_from with_url resolve
handle_forward binds target ports nodes file =
    forward_to binds target nodes file (parse_ports ports)

-- what the server of names is started with, or how the handler ends
abbrev pub started : IdentityFile → Text → ℕ → Option Text → Run × Option Text
started file host port url = (
  record {
    effects =
        printed (
          codes "[bold green]Starting PyMesh Standalone DNS Server on "
          ++ (host ++ (b':' ∷ (show port ++ codes "...[/bold green]"))))
        ∷ [];
    ended = elim url [ none ↦ raised no_attribute | some u ↦ returned ];
    file = file;
  },
  url,
)

-- `handle_dns_server`, with the URL that the server is given
unfoldable pub handle_dns_server : Text → ℕ → Option Text → IdentityFile → Run × Option Text
unfolding with_identity
handle_dns_server host port controller_url file = elim (given controller_url) [
  | some url ↦ started file host port (some url)
  | none ↦ elim file [
    | missing ↦ (
      with_identity missing (λ i. record { effects = []; ended = returned; file = missing }),
      none,
    )
    | unreadable ↦ started unreadable host port (some (codes "http://localhost:8000"))
    | stored identity ↦ started (stored identity) host port identity.controller_url
  ]
]
