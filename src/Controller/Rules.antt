-- ===== src/Controller/Rules.antt =====
-- The handlers of pymesh/controller/api.py for access rules. `uuid` is the random part of an id.
use pymesh.Base.{ℕ, Option, none, some, List, ◌++◌, map, if◌then◌else◌, is_empty}
use pymesh.Base.Text.{Text, codes}
use pymesh.Base.Result.{ok, raise}
use pymesh.Controller.Models.{AclRule, rule_clash}
use pymesh.Controller.Action.{Action, pure, select, ◌>>=◌, ◌>>◌, insert_row}

-- `ACLRuleModel` (pymesh/protocol/messages.py)
pub record AclRuleModel : Type 0 where
  pub id : Option Text
  pub source : Text
  pub destination : Text
  pub action : Text
  pub ports : List ℕ
  pub protocols : List Text

unfoldable pub rule_model : AclRule → AclRuleModel
rule_model r = record {
  id = some r.id;
  source = r.source;
  destination = r.destination;
  action = r.action;
  ports = r.ports;
  protocols = r.protocols;
}

-- GET /acl
unfoldable pub list_acls : Action (List AclRuleModel)
list_acls = select (λ db. map rule_model db.acl_rules)

-- `given or generated`, where an empty id counts as none
abbrev pub or_generated : Option Text → Text → Text
or_generated none generated = generated
or_generated (some id) generated = if is_empty id then generated else id

abbrev pub add_rule : AclRule → Action (Unit {0})
add_rule r db = elim (insert_row rule_clash r db.acl_rules) [
  | ok rows ↦ (ok tt, record db { acl_rules = rows })
  | raise e ↦ (raise e, db)
]

abbrev pub new_rule : AclRuleModel → Text → ℕ → AclRule
new_rule rule uuid now = record {
  id = or_generated rule.id (codes "acl-" ++ uuid);
  network_id = codes "net-pymesh";
  source = rule.source;
  destination = rule.destination;
  action = rule.action;
  ports = rule.ports;
  protocols = rule.protocols;
  created_at = now;
}

-- PUT /acl
unfoldable pub create_acl_rule : AclRuleModel → Text → ℕ → Action AclRuleModel
unfolding ◌>>=◌
create_acl_rule rule uuid now = do
  add_rule (new_rule rule uuid now)
  pure (rule_model (new_rule rule uuid now))
