-- ===== src/Cli.antt =====
-- pymesh/cli: the handlers of the command line (pymesh/cli/commands.py). A handler is a function of
-- the file of the identity and of what the controller answers; it returns what it does in order,
-- how it ends, and the file that it leaves.
pub mod Join
pub mod Output
pub mod Show
pub mod Forward
pub mod Main
mod Tests
use pymesh.Base.{
  ℕ, Bool, true, false, Option, none, some, List, [], ◌∷◌, ◌++◌, if◌then◌else◌, ◌==◌, text_eq,
}
use pymesh.Base.Text.{Text, codes, rstrip}
use pymesh.Base.Result.{Exception, bad_file}
use pymesh.Identity.{NodeIdentity, IdentityFile, missing, unreadable, stored}
use pymesh.Controller.Nodes.{NodeRegistrationRequest}
use pymesh.Controller.Routes.{SubnetRouteModel}
use pymesh.Controller.Views.{NodeView}
use pymesh.Networking.{Command}

-- what comes of a request
pub data Reply {ℓ} (A : Type ℓ) : Type ℓ where
  -- an exception, with its text, in the request or in the reading of a good answer
  failed : Text → Reply A
  -- a status other than 200, with the text of the answer
  refused : ℕ → Text → Reply A
  -- the status 200
  answered : A → Reply A

-- what a handler does
pub data Effect : Type 0 where
  printed : Text → Effect
  -- a table or a tree, with its title
  shown : Text → List (List (Option Text)) → Effect
  get : Text → Effect
  post : Text → Effect
  -- a registration, with the token of its header
  post_node : Text → NodeRegistrationRequest → Option Text → Effect
  post_route : Text → SubnetRouteModel → Effect
  -- a command that is run, and one that takes the place of the process
  ran : Command → Effect
  replaced_by : Command → Effect

pub data Ended : Type 0 where
  returned : Ended
  -- `sys.exit`
  exited : ℕ → Ended
  -- an exception that nothing catches
  raised : Exception → Ended

pub record Run : Type 0 where
  pub effects : List Effect
  pub ended : Ended
  pub file : IdentityFile

-- the URL of a path at the controller
abbrev pub url_of : Text → Text → Text
url_of controller_url path = rstrip b'/' controller_url ++ path

-- the URL, if it is neither missing nor empty
abbrev pub given : Option Text → Option Text
given none = none
given (some []) = none
given (some (c ∷ url)) = some (c ∷ url)

abbrev pub no_identity : Effect
no_identity = printed (
    codes
      "[bold red]Error:[/bold red] Node identity not found. Run 'pymesh join <controller_url>' first.")

-- `get_identity_or_exit`, and the rest of a handler that calls it
unfoldable pub with_identity : IdentityFile → (NodeIdentity → Run) → Run
with_identity missing k = record { effects = no_identity ∷ []; ended = exited 1; file = missing }
with_identity unreadable k = record { effects = []; ended = raised bad_file; file = unreadable }
with_identity (stored identity) k = k identity

-- a handler that ends and leaves the identity
abbrev pub done : NodeIdentity → List Effect → Run
done identity effects = record { effects = effects; ended = returned; file = stored identity }

abbrev pub no_controller : Effect
no_controller = printed (codes "[red]No controller URL configured.[/red]")

-- a handler that needs the URL of the controller
unfoldable pub with_controller : IdentityFile → (NodeIdentity → Text → List Effect) → Run
unfolding with_identity
with_controller file k = with_identity file (λ identity. elim (given identity.controller_url) [
  | none ↦ done identity (no_controller ∷ [])
  | some url ↦ done identity (k identity url)
])

-- the first node with a hostname
unfoldable pub find_node : Text → List NodeView → Option NodeView
find_node target [] = none
find_node target (n ∷ nodes) =
    let rest = find_node target nodes in if n.hostname == target then some n else rest

-- what stands for the target: a column of the node of that name in the answer, or the target itself
unfoldable pub resolve : (NodeView → Text) → Text → Reply (List NodeView) → Text
unfolding find_node
resolve column target (failed e) = target
resolve column target (refused status text) = target
resolve column target (answered nodes) = elim (find_node target nodes) [
  | none ↦ target
  | some n ↦ column n
]

abbrev pub nodes_path : Text
nodes_path = codes "/api/v1/nodes"

-- a request for the nodes, if there is a URL, then the command for the address of the target
abbrev pub asks_nodes : Option Text → List Effect
asks_nodes none = []
asks_nodes (some url) = get (url_of url nodes_path) ∷ []

abbrev pub address_of : Option Text → Text → Reply (List NodeView) → Text
address_of none target nodes = target
address_of (some url) target nodes = resolve (λ n. n.mesh_ipv4) target nodes

-- A handler that takes the URL if it can: an identity that cannot be read is passed over, but a missing
-- one ends the handler, since `sys.exit` is not caught by `except Exception`.
unfoldable pub with_url : IdentityFile → List Effect → (Option Text → Run) → Run
with_url missing before k = record {
  effects = before ++ no_identity ∷ [];
  ended = exited 1;
  file = missing;
}
with_url unreadable before k = record (k none) { effects = before ++ (k none).effects }
with_url (stored identity) before k =
    let run = k (given identity.controller_url) in record run { effects = before ++ run.effects }
