-- ===== src/Cli/Output.antt =====
-- The tables and the tree that are shown (pymesh/cli/output.py).
use Prim.Native.String.{String}
use pymesh.Base.{
  ℕ, Bool, false, not, Option, none, some, List, [], ◌∷◌, ◌++◌, map, if◌then◌else◌, ◌==◌, nat_eq,
  text_eq, is_empty, length,
}
use pymesh.Base.Text.{Text, codes, join}
use pymesh.Base.Decimal.{show}
use pymesh.Identity.{NodeIdentity}
use pymesh.Controller.Peers.{PeerConfig}
use pymesh.Controller.Views.{NodeView}
use pymesh.Cli.{Effect, printed, shown}

-- `print_status`
abbrev pub is_online : NodeIdentity → Bool
is_online node_info = elim node_info.mesh_ipv4 [ none ↦ false | some ip ↦ not (is_empty ip) ]

-- a row of two cells
abbrev pub row : String → Option Text → List (Option Text)
row name value = some (codes name) ∷ value ∷ []

unfoldable pub print_status : NodeIdentity → List PeerConfig → Effect
print_status node_info peers = shown (codes "PyMesh Local Status") (
    row "Node ID" (some node_info.node_id)
    ∷ row "Hostname" (some node_info.hostname)
    ∷ row "Mesh IPv4" node_info.mesh_ipv4
    ∷ row "Mesh IPv6" node_info.mesh_ipv6
    ∷ row "WireGuard Public Key"
        (some (if is_empty node_info.wg_public_key then codes "N/A" else node_info.wg_public_key))
    ∷ row "Status" (
        some (
          if is_online node_info
          then codes "[bold green]ONLINE[/bold green]"
          else codes "[red]OFFLINE[/red]"))
    ∷ row "Active Peers" (some (show (length peers)))
    ∷ [])

abbrev endpoint_lines : List Text → List (Option Text)
endpoint_lines [] = []
endpoint_lines (ep ∷ endpoints) = some (codes "Endpoint: " ++ ep) ∷ []

abbrev group_lines : List Text → List (Option Text)
group_lines [] = []
group_lines (tag ∷ tags) = some (codes "Groups: " ++ join (codes ", ") (tag ∷ tags)) ∷ []

-- a branch of the tree: the line of the node, then the lines below it
unfoldable pub node_branch : NodeView → List (Option Text)
node_branch node =
    some (
      0x1F5A5 ∷ 0xFE0F ∷ codes "  [bold white]"
      ++ (node.hostname
          ++ (codes "[/bold white] ("
              ++ (node.mesh_ipv4
                  ++ (codes ") - "
                      ++ (if node.online
                          then codes "[bold green]ONLINE[/bold green]"
                          else codes "[red]OFFLINE[/red]"))))))
    ∷ (endpoint_lines node.endpoints ++ group_lines node.tags)

-- `print_topology`: the two branches above those of the nodes
unfoldable pub print_topology : Text → List NodeView → Effect
unfolding node_branch
print_topology controller_url nodes = shown (codes "Network Topology Map") (
    (some
        (codes "[bold magenta]PyMesh Controller (" ++ (controller_url ++ codes ")[/bold magenta]"))
      ∷ [])
    ∷ (some (codes "[bold cyan]Encrypted Private Mesh Network (100.64.0.0/10)[/bold cyan]") ∷ [])
    ∷ map node_branch nodes)

-- a peer as it is shown
pub record Checked : Type 0 where
  pub hostname : Text
  pub mesh_ipv4 : Text
  pub mode : Text
  pub latency_ms : ℕ

abbrev pub mode_str : Text → Text
mode_str mode =
    if mode == codes "DIRECT"
    then codes "[bold green]" ++ (mode ++ codes "[/bold green]")
    else codes "[yellow]" ++ (mode ++ codes "[/yellow]")

abbrev pub peer_row : Checked → List (Option Text)
peer_row p =
    some p.hostname
    ∷ some p.mesh_ipv4
    ∷ some (mode_str p.mode)
    ∷ some (show p.latency_ms ++ codes " ms")
    ∷ []

-- a row of the report whose status is always the same
abbrev pub good : String → String → List (Option Text)
good name value = row name (some (codes "[bold green]" ++ (codes value ++ codes "[/bold green]")))

-- `print_netcheck`, with the report of `handle_netcheck`
unfoldable pub print_netcheck : Text → List Checked → List Effect
print_netcheck nat_type peers =
    printed (codes "\n[bold yellow]PyMesh Network Diagnostics[/bold yellow]\n")
    ∷ shown [] (
        good "IPv4" "OK"
        ∷ good "IPv6" "OK"
        ∷ good "UDP" "OK"
        ∷ row "NAT" (some (codes "[cyan]" ++ (nat_type ++ codes "[/cyan]")))
        ∷ good "Direct P2P" "Possible"
        ∷ good "STUN" "OK"
        ∷ good "Relay" "Available"
        ∷ [])
    ∷ printed (codes "\n[bold cyan]Peers[/bold cyan]")
    ∷ shown [] (map peer_row peers)
    ∷ printed []
    ∷ []
