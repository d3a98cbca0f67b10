-- ===== src/Controller/Registry.antt =====
-- Published top-level domains and federated controllers: the handlers of pymesh/controller/api.py
-- and pymesh/controller/federation.py. `uuid` is the random part of an id.
pub mod Laws
pub mod Federation
use pymesh.Base.{
  ℕ, Bool, true, false, not, Option, none, some, List, [], ◌∷◌, ◌++◌, map, if◌then◌else◌, is_empty,
  ◌==◌, text_eq, nat_eq, find?,
}
use pymesh.Base.Text.{Text, codes, rstrip}
use pymesh.Base.Result.{Result, ok, raise, http, handshake_failed}
use pymesh.Tld.{clean_tld, validate_tld_name}
use pymesh.Controller.Models.{
  Database, TldRegistry, FederatedController, tld_clash, controller_clash,
}
use pymesh.Controller.Action.{
  Action, pure, fail, select, modify, ◌>>=◌, ◌>>◌, insert_row, update_rows,
}

unfoldable pub add_tld : TldRegistry → Action (Unit {0})
add_tld r db = elim (insert_row tld_clash r db.tlds) [
  | ok rows ↦ (ok tt, record db { tlds = rows })
  | raise e ↦ (raise e, db)
]

-- what is answered, and what is listed for a name
pub record Published : Type 0 where
  pub tld : Text
  pub registry_url : Text
  pub description : Text

pub record TldInfo : Type 0 where
  pub name : Text
  pub description : Text
  pub publisher_info : Text
  pub publisher_node_id : Text
  pub registry_url : Text

abbrev pub is_tld : Text → TldRegistry → Bool
is_tld name t = t.name == name

abbrev pub describe : Text → Text → TldRegistry → TldRegistry
describe description publisher_info t = record t {
  description = description;
  publisher_info = publisher_info;
}

abbrev pub new_tld : Text → Text → Text → ℕ → TldRegistry
new_tld name description publisher_info now = record {
  name = name;
  description = description;
  publisher_info = publisher_info;
  publisher_node_id = codes "cr-primary";
  created_at = now;
}

abbrev pub save_tld : Text → Text → Text → ℕ → Option TldRegistry → Action (Unit {0})
save_tld name description publisher_info now none =
    add_tld (new_tld name description publisher_info now)
save_tld name description publisher_info now (some t) = modify (λ db. record db {
  tlds = update_rows (is_tld name) (describe description publisher_info) db.tlds;
})

abbrev pub published : Text → Text → Published
published name description = record {
  tld = b'.' ∷ name;
  registry_url = codes "http://registry." ++ name;
  description = description;
}

-- POST /tld/publish
unfoldable pub publish_tld : Text → Text → Text → ℕ → Action Published
unfolding ◌>>=◌
publish_tld name description publisher_info now =
    if not (validate_tld_name name) then fail (http 400) else do
      existing ← select (λ db. find? (is_tld (clean_tld name)) db.tlds)
      save_tld (clean_tld name) description publisher_info now existing
      pure (published (clean_tld name) description)

unfoldable pub tld_info : TldRegistry → TldInfo
tld_info t = record {
  name = b'.' ∷ t.name;
  description = t.description;
  publisher_info = t.publisher_info;
  publisher_node_id = t.publisher_node_id;
  registry_url = codes "http://registry." ++ t.name;
}

-- GET /tld
unfoldable pub list_tlds : Action (List TldInfo)
list_tlds = select (λ db. map tld_info db.tlds)

unfoldable pub add_controller : FederatedController → Action (Unit {0})
add_controller r db = elim (insert_row controller_clash r db.controllers) [
  | ok rows ↦ (ok tt, record db { controllers = rows })
  | raise e ↦ (raise e, db)
]

-- the keys of the dicts that controllers exchange; `none` is a missing key
pub record Payload : Type 0 where
  pub url : Option Text
  pub hostname : Option Text
  pub public_key : Option Text

abbrev or_default : Text → Option Text → Text
or_default d none = d
or_default d (some x) = x

abbrev pub has_url : Text → FederatedController → Bool
has_url url c = c.url == url

abbrev pub set_peered : FederatedController → FederatedController
set_peered c = record c { status = codes "PEERED" }

abbrev pub new_controller : Text → Payload → Text → ℕ → FederatedController
new_controller url payload uuid now = record {
  id = codes "cr-" ++ uuid;
  url = url;
  hostname = or_default (codes "Remote-CR") payload.hostname;
  public_key = or_default (codes "pubkey") payload.public_key;
  status = codes "PEERED";
  last_synced = now;
  created_at = now;
}

abbrev pub save_controller :
    Text → Payload → Text → ℕ → Option FederatedController → Action (Unit {0})
save_controller url payload uuid now none = add_controller (new_controller url payload uuid now)
save_controller url payload uuid now (some c) =
    modify (λ db. record db { controllers = update_rows (has_url url) set_peered db.controllers })

unfoldable pub peer_url : Payload → Text
peer_url payload =
    let url = rstrip b'/' (or_default [] payload.url) in
    if is_empty url then or_default (codes "remote-cr") payload.hostname else url

-- The row for a peer at an address, made or marked. The handshake and the call of it both end so.
unfoldable pub register_controller : Text → Payload → Text → ℕ → Action (Unit {0})
unfolding ◌>>=◌
register_controller url payload uuid now = do
  existing ← select (λ db. find? (has_url url) db.controllers)
  save_controller url payload uuid now existing

-- POST /cr/handshake; the reply is fixed up to a random id
unfoldable pub cr_handshake : Payload → Text → ℕ → Action (Unit {0})
cr_handshake payload uuid now = register_controller (peer_url payload) payload uuid now

-- the answer of a remote controller: its status code and the dict of its body
pub record Response : Type 0 where
  pub status_code : ℕ
  pub body : Payload

-- `FederationManager.peer_controller`, given what the remote controller answers
unfoldable pub peer_controller : Text → Response → Text → ℕ → Action Payload
unfolding ◌>>=◌
peer_controller target_url resp uuid now =
    if not (resp.status_code == 200)
    then fail handshake_failed
    else do register_controller (rstrip b'/' target_url) resp.body uuid now; pure resp.body
