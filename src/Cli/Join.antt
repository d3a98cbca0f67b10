-- ===== src/Cli/Join.antt =====
-- handle_join and the handlers that send something to the controller (pymesh/cli/commands.py).
pub mod Mesh
use pymesh.Base.{
  ℕ, Bool, true, false, Option, none, some, List, [], ◌∷◌, ◌++◌, if◌then◌else◌, ◌==◌, text_eq,
  is_empty,
}
use pymesh.Base.Text.{Text, codes, lstrip, rstrip}
use pymesh.Base.Decimal.{show}
use pymesh.Base.Result.{Result, ok, raise}
use pymesh.Identity.{NodeIdentity, IdentityFile, Saving, save}
use pymesh.Controller.Nodes.{NodeRegistrationRequest, NodeRegistrationResponse}
use pymesh.Controller.Routes.{SubnetRouteModel}
use pymesh.Controller.Views.{NodeView}
use pymesh.Cli.{
  Reply, failed, refused, answered, Effect, printed, get, post, post_node, post_route, Run,
  returned, raised, url_of, with_controller, nodes_path, resolve,
}

-- the identity before the request
abbrev pub asking : Text → Option Text → NodeIdentity → NodeIdentity
asking controller_url token identity = record identity {
  controller_url = some controller_url;
  auth_token = token;
}

abbrev pub request_of : NodeIdentity → NodeRegistrationRequest
request_of identity = record {
  hostname = identity.hostname;
  public_key = identity.wg_public_key;
  listen_port = identity.listen_port;
  os = identity.os;
  version = identity.version;
  endpoints = [];
  tags = [];
}

-- the identity with what the controller answers
abbrev pub joined : NodeRegistrationResponse → NodeIdentity → NodeIdentity
joined res_data identity = record identity {
  node_id = res_data.node_id;
  mesh_ipv4 = some res_data.mesh_ipv4;
  mesh_ipv6 = some res_data.mesh_ipv6;
}

-- the header, if the token is not empty
abbrev pub token_header : Option Text → Option Text
token_header none = none
token_header (some token) = if is_empty token then none else some (codes "Bearer " ++ token)

abbrev unable : Text → Effect
unable e = printed (codes "[bold red]Unable to connect to controller:[/bold red] " ++ e)

abbrev welcome : NodeRegistrationResponse → List Effect
welcome res_data =
    printed (codes "[bold green]Successfully joined PyMesh network![/bold green]")
    ∷ printed (codes "Node ID:   [white]" ++ (res_data.node_id ++ codes "[/white]"))
    ∷ printed (codes "Mesh IPv4: [bold yellow]" ++ (res_data.mesh_ipv4 ++ codes "[/bold yellow]"))
    ∷ printed (codes "Mesh IPv6: [bold yellow]" ++ (res_data.mesh_ipv6 ++ codes "[/bold yellow]"))
    ∷ []

-- what is printed after `save`
abbrev told : NodeRegistrationResponse → Option Text → List Effect
told res_data none = welcome res_data
told res_data (some e) = unable e ∷ []

-- what is printed after the request, and the file
abbrev after_request :
    NodeIdentity
    → Saving
    → IdentityFile
    → Reply NodeRegistrationResponse
    → List Effect × IdentityFile
after_request identity saving file (failed e) = (unable e ∷ [], file)
after_request identity saving file (refused status text) = (
  printed (
        codes "[bold red]Registration failed ("
        ++ (show status ++ (codes "):[/bold red] " ++ text)))
      ∷ [],
  file,
)
after_request identity saving file (answered res_data) =
    let written = save (joined res_data identity) saving file in
    (told res_data written.0, written.1)

-- what the identity that is made comes to
abbrev join_as :
    Text
    → Option Text
    → Saving
    → IdentityFile
    → Reply NodeRegistrationResponse
    → Effect
    → Result NodeIdentity
    → Run
join_as controller_url token saving file reply hello (raise e) = record {
  effects = hello ∷ [];
  ended = raised e;
  file = file;
}
join_as controller_url token saving file reply hello (ok new) =
    let identity = asking controller_url token new in
    let after = after_request identity saving file reply in
    record {
      effects =
          hello
          ∷ post_node (url_of controller_url (codes "/api/v1/nodes/register")) (request_of identity)
              (token_header token)
          ∷ after.0;
      ended = returned;
      file = after.1;
    }

-- `handle_join`, with the identity of `NodeIdentity.create_new`
unfoldable pub handle_join :
    Text
    → Option Text
    → Result NodeIdentity
    → Reply NodeRegistrationResponse
    → Saving
    → IdentityFile
    → Run
handle_join controller_url token new reply saving file =
    join_as controller_url token saving file reply
      (printed (
        codes "[bold cyan]Joining PyMesh controller at "
        ++ (controller_url ++ codes "...[/bold cyan]")))
      new

abbrev route_of : NodeIdentity → Text → Text → SubnetRouteModel
route_of identity subnet via_id = record {
  id = none;
  prefix = subnet;
  via_node_id = via_id;
  advertised_by = identity.hostname;
  enabled = true;
}

abbrev route_error : Text → List Effect
route_error e = printed (codes "[red]Error adding route:[/red] " ++ e) ∷ []

abbrev after_route : Text → Text → Reply (Unit {0}) → List Effect
after_route subnet via_node (failed e) = route_error e
after_route subnet via_node (refused status text) =
    printed (codes "[red]Failed adding route:[/red] " ++ text) ∷ []
after_route subnet via_node (answered tt) =
    printed (
      codes "[bold green]Subnet route "
      ++ (subnet ++ (codes " via " ++ (via_node ++ codes " successfully added![/bold green]"))))
    ∷ []

-- An exception in the first request ends the handler without the second.
abbrev route_via :
    NodeIdentity → Text → Text → Text → Reply (List NodeView) → Reply (Unit {0}) → List Effect
route_via identity url subnet via_node (failed e) added = route_error e
route_via identity url subnet via_node nodes added =
    post_route (url_of url (codes "/api/v1/routes"))
      (route_of identity subnet (resolve (λ n. n.id) via_node nodes))
    ∷ after_route subnet via_node added

-- `handle_route_add`
unfoldable pub handle_route_add :
    Text → Text → Reply (List NodeView) → Reply (Unit {0}) → IdentityFile → Run
unfolding with_controller resolve
handle_route_add subnet via_node nodes added file = with_controller file (λ identity url.
    get (url_of url nodes_path) ∷ route_via identity url subnet via_node nodes added)

abbrev publish_path : Text → Text → Text → Text
publish_path name description info =
    codes "/api/v1/tld/publish?name="
    ++ (name ++ (codes "&description=" ++ (description ++ (codes "&publisher_info=" ++ info))))

-- the answer of a refused publication: its detail, or its text; or reading it raises
pub data Published : Type 0 where
  published : Published
  rejected : Text → Published
  broken : Text → Published

abbrev after_publish : Text → Text → Published → List Effect
after_publish url name published =
    let clean_tld = lstrip b'.' name in
    printed
      (codes "[bold green]Successfully published TLD ." ++ (clean_tld ++ codes "![/bold green]"))
    ∷ printed (
        codes "[bold cyan]TLD Domain URL:[/bold cyan]   http://registry."
        ++ (clean_tld ++ codes ":8000"))
    ∷ printed (
        codes "[bold cyan]Direct Web URL:[/bold cyan]   "
        ++ url_of url (codes "/registry/" ++ clean_tld))
    ∷ printed (
        codes
          "[yellow]Note: Open in Chrome using http:// (unencrypted HTTP, not https://)![/yellow]")
    ∷ []
after_publish url name (rejected detail) =
    printed (codes "[bold red]TLD Publish Error:[/bold red] " ++ detail) ∷ []
after_publish url name (broken e) = printed (codes "[red]Error publishing TLD:[/red] " ++ e) ∷ []

-- `handle_tld_publish`
unfoldable pub handle_tld_publish : Text → Text → Text → Published → IdentityFile → Run
unfolding with_controller
handle_tld_publish name description info reply file = with_controller file (λ identity url.
    post (url_of url (publish_path name description info)) ∷ after_publish url name reply)

abbrev after_peer : Text → Reply (Unit {0}) → Effect
after_peer target_url (failed e) = printed (codes "[red]Error peering CR server:[/red] " ++ e)
after_peer target_url (refused status text) =
    printed (codes "[red]CR Peering Error:[/red] " ++ text)
after_peer target_url (answered tt) = printed (
    codes "[bold green]Successfully peered CR server with "
    ++ (target_url ++ codes "![/bold green]"))

-- `handle_cr_peer`
unfoldable pub handle_cr_peer : Text → Reply (Unit {0}) → IdentityFile → Run
unfolding with_controller
handle_cr_peer target_url reply file = with_controller file (λ identity url.
    post (url_of url (codes "/api/v1/cr/peer?url=" ++ target_url))
    ∷ after_peer target_url reply
    ∷ [])
