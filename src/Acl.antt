-- ===== src/Acl.antt =====
-- pymesh/controller/acl.py: the rules between nodes and their evaluation.
pub mod Laws
mod Tests
use pymesh.Base.{
  ℕ, ◌≡◌, Bool, true, false, ◌||◌, Option, none, some, List, [], ◌∷◌, ◌==◌, text_eq, nat_eq,
  contains, is_empty, not, ◌&&◌, if◌then◌else◌,
}
use pymesh.Base.Text.{Text, codes, starts_with, split_once}

-- The keys that the engine reads of a node's dict; `none` is a missing key.
pub record Node : Type 0 where
  pub hostname : Option Text
  pub node_id : Option Text
  pub mesh_ipv4 : Option Text
  pub tags : Option (List Text)

-- The keys of a rule's dict.
pub record Rule : Type 0 where
  pub source : Option Text
  pub destination : Option Text
  pub action : Option Text
  pub ports : Option (List ℕ)
  pub protocols : Option (List Text)

-- `d.get(key, default)` at a key that is there or not
abbrev pub or_default {ℓ} : {A : Type ℓ} → A → Option A → A
or_default d none = d
or_default d (some x) = x

-- `value in (x, ...)` at one entry of the tuple, which may be None
abbrev is_value : Text → Option Text → Bool
is_value s none = false
is_value s (some x) = s == x

-- `selector in (node.get("hostname"), node.get("node_id"), node.get("mesh_ipv4"))`
unfoldable pub names : Text → Node → Bool
names s n = is_value s n.hostname || (is_value s n.node_id || is_value s n.mesh_ipv4)

-- `selector.split(":", 1)[1]`, which is read only behind a prefix that has a colon
unfoldable pub after_colon : Text → Text
unfolding split_once
after_colon s = elim (split_once b':' s) [ none ↦ [] | some (x, y) ↦ y ]

unfoldable pub match_node_selector : Text → Node → Bool
match_node_selector selector n =
    if selector == codes "*"
    then true
    else if starts_with selector (codes "group:")
    then contains (after_colon selector) (or_default [] n.tags)
    else if starts_with selector (codes "node:")
    then names (after_colon selector) n
    else names selector n

-- `if rule_ports and port is not None and port not in rule_ports: return False`
abbrev pub port_passes : List ℕ → Option ℕ → Bool
port_passes ports none = true
port_passes ports (some p) = is_empty ports || contains p ports

abbrev pub protocol_passes : List Text → Text → Bool
protocol_passes protocols p = is_empty protocols || contains p protocols

unfoldable pub match_rule : Rule → Node → Node → Option ℕ → Text → Bool
match_rule rule src dst port protocol =
    if not (match_node_selector (or_default (codes "*") rule.source) src)
    then false
    else if not (match_node_selector (or_default (codes "*") rule.destination) dst)
    then false
    else if not (port_passes (or_default [] rule.ports) port)
    then false
    else protocol_passes (or_default [] rule.protocols) protocol

-- `rule.get("action", "allow") == "allow"`
abbrev pub allows : Rule → Bool
allows rule = or_default (codes "allow") rule.action == codes "allow"

-- the loop over the rules; the end is the default deny
unfoldable pub first_verdict : List Rule → Node → Node → Option ℕ → Text → Bool
first_verdict [] src dst port protocol = false
first_verdict (rule ∷ rules) src dst port protocol =
    let rest = first_verdict rules src dst port protocol in
    if match_rule rule src dst port protocol then allows rule else rest

unfoldable pub is_allowed : List Rule → Node → Node → Option ℕ → Text → Bool
is_allowed [] src dst port protocol = true
is_allowed (rule ∷ rules) src dst port protocol = first_verdict (rule ∷ rules) src dst port protocol
