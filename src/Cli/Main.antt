-- ===== src/Cli/Main.antt =====
-- pymesh/cli/main.py: the commands, with the options that may be left out. The arguments are read by
-- a library.
pub mod Laws
use pymesh.Base.{ℕ, Bool, Option, none, some, List}
use pymesh.Base.Text.{Text, codes}
use pymesh.Base.Result.{Result}
use pymesh.Identity.{NodeIdentity, IdentityFile, Saving}
use pymesh.Controller.Nodes.{NodeRegistrationResponse}
use pymesh.Controller.Peers.{NetworkConfigResponse}
use pymesh.Controller.Views.{NodeView}
use pymesh.Cli.{Reply, Run}
use pymesh.Cli.Join.{Published, handle_join, handle_route_add, handle_tld_publish, handle_cr_peer}
use pymesh.Cli.Show.{
  handle_status, handle_nodes, handle_netcheck, handle_ping, handle_ssh, handle_key, handle_up,
  handle_down, handle_tld_list, handle_cr_status,
}
use pymesh.Cli.Forward.{handle_forward, handle_dns_server}

pub data Subcommand : Type 0 where
  join : Text → Option Text → Option Text → Subcommand
  up : Subcommand
  down : Subcommand
  status : Subcommand
  nodes : Subcommand
  peers : Subcommand
  ping : Text → Subcommand
  ssh : Text → Subcommand
  netcheck : Subcommand
  topology : Subcommand
  key : Subcommand
  identity : Subcommand
  forward : Text → Text → Subcommand
  route_add : Text → Text → Subcommand
  -- the name, `--info` and `--desc`
  tld_publish : Text → Option Text → Option Text → Subcommand
  tld_list : Subcommand
  cr_peer : Text → Subcommand
  cr_status : Subcommand
  dns_server : Option Text → Option ℕ → Option Text → Subcommand

-- what is answered to the requests of a command, and what the machine tells
pub record Around : Type 0 where
  -- `NodeIdentity.create_new` for a hostname
  pub create_new : Option Text → Result NodeIdentity
  pub registered : Reply NodeRegistrationResponse
  -- how `save` ends
  pub saving : Saving
  pub listed : Reply (List NodeView)
  pub served : Reply NetworkConfigResponse
  pub posted : Reply (Unit {0})
  pub got : Reply (Unit {0})
  pub published : Published
  pub nat_type : Option Text
  pub binds : ℕ → Bool

abbrev pub or {ℓ} : {A : Type ℓ} → A → Option A → A
or default none = default
or default (some a) = a

unfoldable pub dispatch : Subcommand → Around → IdentityFile → Run
unfolding handle_join handle_up handle_down handle_status handle_nodes handle_ping handle_ssh
    handle_netcheck handle_key handle_forward handle_route_add handle_tld_publish handle_tld_list
    handle_cr_peer handle_cr_status handle_dns_server
dispatch (join controller_url token hostname) w file =
    handle_join controller_url token (w.create_new hostname) w.registered w.saving file
dispatch up w file = handle_up file
dispatch down w file = handle_down file
dispatch status w file = handle_status w.served file
dispatch nodes w file = handle_nodes w.listed file
dispatch peers w file = handle_status w.served file
dispatch (ping target) w file = handle_ping target w.listed file
dispatch (ssh target) w file = handle_ssh target w.listed file
dispatch netcheck w file = handle_netcheck w.nat_type w.served file
dispatch topology w file = handle_nodes w.listed file
dispatch key w file = handle_key file
dispatch identity w file = handle_key file
dispatch (forward target ports) w file = handle_forward w.binds target ports w.listed file
dispatch (route_add subnet via) w file = handle_route_add subnet via w.listed w.posted file
dispatch (tld_publish name info desc) w file =
    handle_tld_publish name (or (codes "Official TLD") desc) (or (codes "Primary CR Server") info)
      w.published file
dispatch tld_list w file = handle_tld_list w.got file
dispatch (cr_peer target_url) w file = handle_cr_peer target_url w.posted file
dispatch cr_status w file = handle_cr_status w.got file
dispatch (dns_server host port controller_url) w file =
    (handle_dns_server (or (codes "0.0.0.0") host) (or 53 port) controller_url file).0
