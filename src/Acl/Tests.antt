-- ===== src/Acl/Tests.antt =====
-- The rules of tests/test_acl.py, and the laws at them.
use pymesh.Base.{
  ◌≡◌, ◌≢◌, refl, ◌↔◌, true, false, none, some, List, [], ◌∷◌, contains, list_beq, nat_eq, text_eq,
  arith,
}
use pymesh.Base.Text.{codes, starts_with}
use pymesh.Acl.{Node, Rule, or_default, match_node_selector, match_rule, allows, is_allowed}
use pymesh.Acl.Laws.{FirstMatch, is_allowed_iff}

abbrev dev : Node
dev = record {
  hostname = some (codes "laptop");
  node_id = some (codes "n1");
  mesh_ipv4 = some (codes "100.64.0.2");
  tags = some (codes "developers" ∷ []);
}

abbrev guest : Node
guest = record {
  hostname = some (codes "tablet");
  node_id = some (codes "n2");
  mesh_ipv4 = none;
  tags = none;
}

abbrev ssh_rule : Rule
ssh_rule = record {
  source = some (codes "group:developers");
  destination = some (codes "*");
  action = none;
  ports = some (22 ∷ []);
  protocols = none;
}

abbrev rules : List Rule
rules = ssh_rule ∷ []

developer_allowed : is_allowed rules dev guest (some 22) (codes "tcp") ≡ true
unfolding is_allowed match_rule match_node_selector contains list_beq pymesh.Acl.first_verdict
    starts_with pymesh.Acl.after_colon
developer_allowed = refl

guest_denied : is_allowed rules guest dev (some 22) (codes "tcp") ≡ false
unfolding is_allowed match_rule match_node_selector contains list_beq pymesh.Acl.first_verdict
    starts_with pymesh.Acl.after_colon
guest_denied = refl

rules_there : rules ≢ []
rules_there e = ground arith

is_allowed_iff_example : (is_allowed rules dev guest (some 22) (codes "tcp") ≡ true) ↔ (
    (r : Rule) × FirstMatch (λ q. match_rule q dev guest (some 22) (codes "tcp")) r rules
    × (allows r ≡ true))
is_allowed_iff_example = is_allowed_iff dev guest (some 22) (codes "tcp") rules rules_there
