-- ===== src/Cli/Join/Mesh.antt =====
-- From `pymesh join` to the first round of the daemon: pymesh/cli/commands.py,
-- pymesh/controller/api.py and pymesh/daemon/lifecycle.py.
use pymesh.Base.{ℕ, ◌≡◌, refl, false, Option, some, text_eq, eq_refl}
use pymesh.Base.Text.{Text}
use pymesh.Base.Result.{ok}
use pymesh.Identity.{NodeIdentity, IdentityFile, stored, Saving}
use pymesh.Controller.Models.{Database}
use pymesh.Controller.Nodes.{Env, NodeRegistrationResponse, register}
use pymesh.Controller.Nodes.Joining.{IsTold, register-IsTold}
use pymesh.Controller.Peers.{NetworkConfigResponse, config_of, get_network_config}
use pymesh.Controller.Peers.Laws.{get_network_config_lem}
use pymesh.Daemon.{is_readdressed}
use pymesh.Cli.{answered, Run}
use pymesh.Cli.Join.{asking, request_of, token_header, joined, handle_join}

-- The handler has saved an identity that asks this controller, and the controller serves it
-- a configuration with the addresses that it has.
pub record IsMember (controller_url : Text) (run : Run) (db : Database) : Type 0 where
  pub identity : NodeIdentity
  pub saved : run.file ≡ stored identity
  pub asks : identity.controller_url ≡ some controller_url
  pub config : NetworkConfigResponse
  pub served : get_network_config identity.node_id db ≡ (ok config, db)
  pub settled : is_readdressed identity config ≡ false

told-settled :
    (r : NodeRegistrationResponse) (new : NodeIdentity) (db : Database) (t : IsTold r db)
    → is_readdressed (joined r new) (config_of t.node db) ≡ false
unfolding config_of
told-settled r new db t =
    rw (t.v4, t.v6) (rw (eq_refl t.node.mesh_ipv4, eq_refl t.node.mesh_ipv6) refl)

-- Let the controller answer the registration that `pymesh join` sends, with or without a token, and
-- let the identity be written. Then the identity that is saved asks this controller, and in the
-- tables that the registration leaves the controller has a configuration for it, with the addresses
-- that the identity was given: a round of the daemon that hears it does not change them.
pub handle_join-IsMember :
    (env : Env) (controller_url : Text) (token : Option Text) (new : NodeIdentity)
    (file : IdentityFile) (now : ℕ) (db db' : Database) (r : NodeRegistrationResponse)
    → register env (request_of (asking controller_url token new)) (token_header token) now db
      ≡ (ok r, db')
    → IsMember controller_url
        (handle_join controller_url token (ok new) (answered r) Saving.done file)
        db'
unfolding handle_join
handle_join-IsMember env controller_url token new file now db db' r h =
    let t = register-IsTold env _ _ now db db' r h in
    record {
      identity = joined r (asking controller_url token new);
      saved = refl;
      asks = refl;
      config = config_of t.node db';
      served = (get_network_config_lem r.node_id db').1 t.node t.listed;
      settled = told-settled r (asking controller_url token new) db' t;
    }
