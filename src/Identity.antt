-- ===== src/Identity.antt =====
-- pymesh/identity/node.py: the identity of a node and where the daemon finds it. The keys, and the
-- texts of JSON, are arguments.
pub mod Keys
mod Tests
use pymesh.Base.{ℕ, Option, none, some, List, [], ◌∷◌, if◌then◌else◌, is_empty}
use pymesh.Base.Text.{Text}
use pymesh.Base.Result.{Result, ok, raise, ◌>>=◌, bad_file}
use pymesh.Controller.Nodes.{Env, derive_node_id}

pub record NodeIdentity : Type 0 where
  pub node_id : Text
  pub hostname : Text
  pub identity_private_key : Text
  pub identity_public_key : Text
  pub wg_private_key : Text
  pub wg_public_key : Text
  pub mesh_ipv4 : Option Text
  pub mesh_ipv6 : Option Text
  pub controller_url : Option Text
  pub auth_token : Option Text
  pub listen_port : ℕ
  pub os : Text
  pub version : Text
  pub endpoints : List Text

-- a private key and the public key of it
pub record KeyPair : Type 0 where
  pub private_key : Text
  pub public_key : Text

-- what the machine tells: `socket.gethostname()` and `sys.platform`
pub record Machine : Type 0 where
  pub hostname : Text
  pub platform : Text

abbrev or_machine : Option Text → Text → Text
or_machine none name = name
or_machine (some hostname) name = if is_empty hostname then name else hostname

abbrev pub new_identity : Machine → Text → KeyPair → KeyPair → Text → Option Text → ℕ → NodeIdentity
new_identity machine node_id id wg version hostname listen_port = record {
  node_id = node_id;
  hostname = or_machine hostname machine.hostname;
  identity_private_key = id.private_key;
  identity_public_key = id.public_key;
  wg_private_key = wg.private_key;
  wg_public_key = wg.public_key;
  mesh_ipv4 = none;
  mesh_ipv6 = none;
  controller_url = none;
  auth_token = none;
  listen_port = listen_port;
  os = machine.platform;
  version = version;
  endpoints = [];
}

-- `NodeIdentity.create_new`, with the two pairs of keys that are generated
unfoldable pub create_new :
    Env → Machine → KeyPair → KeyPair → Text → Option Text → ℕ → Result NodeIdentity
create_new env machine id wg version hostname listen_port =
    derive_node_id env id.public_key >>= λ node_id.
    ok (new_identity machine node_id id wg version hostname listen_port)

-- a file: not there, not an identity, or an identity
pub data IdentityFile : Type 0 where
  missing : IdentityFile
  unreadable : IdentityFile
  stored : NodeIdentity → IdentityFile

-- How `NodeIdentity.save` ends: it may raise before the file is opened, after the file was opened and
-- emptied but before all is written, or at the change of its mode, when all is written.
pub data Saving : Type 0 where
  done : Saving
  not_opened : Text → Saving
  cut_short : Text → Saving
  not_protected : Text → Saving

-- `NodeIdentity.save`: the text of the exception, if there is one, and the file
abbrev pub save : NodeIdentity → Saving → IdentityFile → Option Text × IdentityFile
save identity done file = (none, stored identity)
save identity (not_opened e) file = (some e, file)
save identity (cut_short e) file = (some e, unreadable)
save identity (not_protected e) file = (some e, stored identity)

-- `NodeIdentity.load` of a file that is there
unfoldable pub load : IdentityFile → Result (Option NodeIdentity)
load missing = ok none
load unreadable = raise bad_file
load (stored identity) = ok (some identity)

-- `DaemonLifecycle.load_identity`: the first of the paths with a file decides
unfoldable pub load_identity : List IdentityFile → Result (Option NodeIdentity)
unfolding load
load_identity [] = ok none
load_identity (missing ∷ files) = load_identity files
load_identity (file ∷ files) = load file
