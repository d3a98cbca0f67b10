-- ===== src/Cli/Show.antt =====
-- The handlers that show something or run a command (pymesh/cli/commands.py).
use Prim.Native.String.{String}
use pymesh.Base.{
  ℕ, ◌%◌, ◌+◌, ◌*◌, Bool, Option, none, some, List, [], ◌∷◌, ◌++◌, if◌then◌else◌, ◌==◌, nat_eq,
  text_eq, is_empty,
}
use pymesh.Base.Text.{Text, codes}
use pymesh.Identity.{NodeIdentity, IdentityFile, missing, unreadable, stored}
use pymesh.Controller.Peers.{PeerConfig, NetworkConfigResponse}
use pymesh.Controller.Views.{NodeView}
use pymesh.Cli.{
  Reply, failed, refused, answered, Effect, printed, get, ran, replaced_by, Run, returned, url_of,
  given, done, with_identity, with_controller, with_url, nodes_path, asks_nodes, address_of,
  resolve,
}
use pymesh.Cli.Output.{Checked, print_status, print_topology, print_netcheck}

-- the peers of a configuration, if there is one
abbrev pub peers_of : Reply NetworkConfigResponse → List PeerConfig
peers_of (failed e) = []
peers_of (refused status text) = []
peers_of (answered c) = c.peers

abbrev pub config_path : NodeIdentity → Text
config_path identity = codes "/api/v1/network/config?node_id=" ++ identity.node_id

-- `handle_status`
unfoldable pub handle_status : Reply NetworkConfigResponse → IdentityFile → Run
unfolding with_identity
handle_status reply file = with_identity file (λ identity. elim (given identity.controller_url) [
  | none ↦ done identity (print_status identity [] ∷ [])
  | some url ↦
      done identity
        (get (url_of url (config_path identity)) ∷ print_status identity (peers_of reply) ∷ [])
])

abbrev after_nodes : Text → Reply (List NodeView) → List Effect
after_nodes url (failed e) = printed (codes "[red]Failed querying nodes:[/red] " ++ e) ∷ []
after_nodes url (refused status text) = []
after_nodes url (answered nodes) = print_topology url nodes ∷ []

-- `handle_nodes`
unfoldable pub handle_nodes : Reply (List NodeView) → IdentityFile → Run
unfolding with_controller print_topology
handle_nodes reply file =
    with_controller file (λ identity url. get (url_of url nodes_path) ∷ after_nodes url reply)

abbrev is_even : ℕ → Bool
is_even idx = idx % 2 == 0

unfoldable pub checked_from : ℕ → List PeerConfig → List Checked
checked_from idx [] = []
checked_from idx (p ∷ raw_peers) =
    record {
      hostname = p.hostname;
      mesh_ipv4 = p.mesh_ipv4;
      mode = if is_even idx then codes "DIRECT" else codes "RELAY";
      latency_ms = 10 + idx * 4;
    }
    ∷ checked_from (idx + 1) raw_peers

abbrev nat_or : Option Text → Text
nat_or none = codes "Full Cone NAT"
nat_or (some nat_type) = nat_type

-- the URL at which the peers are asked for: an identity that is missing or cannot be read has none
abbrev pub asked_url : IdentityFile → Option (NodeIdentity × Text)
asked_url missing = none
asked_url unreadable = none
asked_url (stored identity) = elim (given identity.controller_url) [
  | none ↦ none
  | some url ↦ some (identity, url)
]

-- `handle_netcheck`, with the type of the NAT, if detecting it does not raise
unfoldable pub handle_netcheck : Option Text → Reply NetworkConfigResponse → IdentityFile → Run
unfolding checked_from print_netcheck
handle_netcheck nat_type reply file = record {
  effects =
      printed (codes "[cyan]Running PyMesh Network Diagnostics...[/cyan]") ∷ elim (asked_url file) [
        | none ↦ print_netcheck (nat_or nat_type) []
        | some (identity, url) ↦
            get (url_of url (config_path identity))
            ∷ print_netcheck (nat_or nat_type) (checked_from 0 (peers_of reply))
      ];
  ended = returned;
  file = file;
}

abbrev ping : Text → Effect
ping ip = ran (codes "ping" ∷ codes "-c" ∷ codes "4" ∷ ip ∷ [])

-- `handle_ping`
unfoldable pub handle_ping : Text → Reply (List NodeView) → IdentityFile → Run
unfolding with_url resolve
handle_ping target nodes file =
    with_url file
      (printed (codes "[bold cyan]Pinging PyMesh node " ++ (target ++ codes "...[/bold cyan]"))
        ∷ [])
      (λ url. record {
        effects = asks_nodes url ++ ping (address_of url target nodes) ∷ [];
        ended = returned;
        file = file;
      })

-- `handle_ssh`
unfoldable pub handle_ssh : Text → Reply (List NodeView) → IdentityFile → Run
unfolding with_identity resolve
handle_ssh target nodes file = with_identity file (λ identity.
    let url = given identity.controller_url in
    let ip = address_of url target nodes in
    done identity (
      asks_nodes url
      ++ (printed (
            codes "[bold green]Connecting SSH to "
            ++ (target ++ (codes " (" ++ (ip ++ codes ")...[/bold green]"))))
          ∷ replaced_by (codes "ssh" ∷ ip ∷ [])
          ∷ [])))

-- `handle_key`
unfoldable pub handle_key : IdentityFile → Run
unfolding with_identity
handle_key file = with_identity file (λ identity. done identity (
    printed (codes "[bold white]Node ID:[/bold white]               " ++ identity.node_id)
    ∷ printed
        (codes "[bold white]Ed25519 Public Key:[/bold white]    " ++ identity.identity_public_key)
    ∷ printed (codes "[bold white]WireGuard Public Key:[/bold white]  " ++ identity.wg_public_key)
    ∷ []))

abbrev or_allocated : Option Text → Text
or_allocated none = codes "allocated"
or_allocated (some ip) = if is_empty ip then codes "allocated" else ip

-- `handle_up`
unfoldable pub handle_up : IdentityFile → Run
unfolding with_identity
handle_up file = with_identity file (λ identity. done identity (
    printed (
      codes "[bold green]Bringing PyMesh interface UP ("
      ++ (or_allocated identity.mesh_ipv4 ++ codes ")...[/bold green]"))
    ∷ printed (codes "[green]Interface pymesh0 active.[/green]")
    ∷ []))

-- `handle_down`
unfoldable pub handle_down : IdentityFile → Run
handle_down file = record {
  effects =
      printed (codes "[bold yellow]Bringing PyMesh interface DOWN...[/bold yellow]")
      ∷ printed (codes "[yellow]Interface pymesh0 stopped.[/yellow]")
      ∷ [];
  ended = returned;
  file = file;
}

-- `handle_tld_list` and `handle_cr_status`: `Table` is not defined, so a good answer raises.
abbrev pub no_table : Text
no_table = codes "name 'Table' is not defined"

abbrev pub after_list : String → String → Reply (Unit {0}) → Effect
after_list refusal error (failed e) = printed (codes error ++ e)
after_list refusal error (refused status text) = printed (codes refusal ++ text)
after_list refusal error (answered tt) = printed (codes error ++ no_table)

unfoldable pub handle_tld_list : Reply (Unit {0}) → IdentityFile → Run
unfolding with_controller
handle_tld_list reply file = with_controller file (λ identity url.
    get (url_of url (codes "/api/v1/tld"))
    ∷ after_list "[red]Failed listing TLDs:[/red] " "[red]Error listing TLDs:[/red] " reply
    ∷ [])

unfoldable pub handle_cr_status : Reply (Unit {0}) → IdentityFile → Run
unfolding with_controller
handle_cr_status reply file = with_controller file (λ identity url.
    get (url_of url (codes "/api/v1/cr/peers"))
    ∷ after_list "[red]Failed fetching CR peers:[/red] " "[red]Error fetching CR peers:[/red] "
        reply
    ∷ [])
