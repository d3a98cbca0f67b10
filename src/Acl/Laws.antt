-- ===== src/Acl/Laws.antt =====
-- What the rules decide (pymesh/controller/acl.py).
use pymesh.Base.{
  ℕ, ◌≡◌, ◌≢◌, refl, ◌↔◌, ◌⊎◌, inl, inr, ◌∙◌, Bool, true, false, Option, none, some, List, [], ◌∷◌,
  ◌++◌, text_eq, nat_eq, contains, eq_iff, arith, Bool-cases, list_beq,
}
use pymesh.Base.Text.{Text, codes, starts_with}
use pymesh.Acl.{
  Node, Rule, or_default, is_value, names, after_colon, match_node_selector, match_rule, allows,
  first_verdict, is_allowed,
}

-- `r` is the first rule of the list that meets the test `m`.
pub data FirstMatch (m : Rule → Bool) (r : Rule) : List Rule → Type 0 where
  here : {rules : List Rule} → m r ≡ true → FirstMatch m r (r ∷ rules)
  there :
      {q : Rule} {rules : List Rule}
      → m q ≡ false
      → FirstMatch m r rules
      → FirstMatch m r (q ∷ rules)

module _ (src dst : Node) (port : Option ℕ) (protocol : Text) where
  abbrev matches : Rule → Bool
  matches rule = match_rule rule src dst port protocol

  first_verdict-first :
      (rules : List Rule)
      → first_verdict rules src dst port protocol ≡ true
      → (r : Rule) × FirstMatch matches r rules × (allows r ≡ true)
  unfolding first_verdict
  first_verdict-first [] h = cc
  first_verdict-first (q ∷ rules) h = elim (Bool-cases (matches q)) [
    | inl e ↦ (q, here e, ground arith)
    | inr e ↦ let (r, f, a) = first_verdict-first rules (ground arith) in (r, there e f, a)
  ]

  first_verdict-of_first :
      (r : Rule) {rules : List Rule}
      → FirstMatch matches r rules
      → first_verdict rules src dst port protocol ≡ allows r
  unfolding first_verdict
  first_verdict-of_first r (here e) = rw e
  first_verdict-of_first r (there e f) = rw e (first_verdict-of_first r f)

  -- With at least one rule configured, a connection is allowed exactly when some rule matches it,
  -- and the first rule that does has the action "allow". The rules behind it do not count, and
  -- where no rule matches the answer is no.
  pub is_allowed_iff :
      (rules : List Rule)
      → rules ≢ []
      → (is_allowed rules src dst port protocol ≡ true)
        ↔ ((r : Rule) × FirstMatch matches r rules × (allows r ≡ true))
  unfolding is_allowed
  is_allowed_iff [] h = absurd (h refl)
  is_allowed_iff (q ∷ rules) h =
      (first_verdict-first (q ∷ rules), λ (r, f, a). first_verdict-of_first r f ∙ a)

value_iff : (s : Text) (o : Option Text) → (is_value s o ≡ true) ↔ (o ≡ some s)
value_iff s none = ground arith
value_iff s (some x) = ground (arith, eq_iff s x)

names_iff :
    (s : Text) (n : Node)
    → (names s n ≡ true) ↔ ((n.hostname ≡ some s) ⊎ (n.node_id ≡ some s) ⊎ (n.mesh_ipv4 ≡ some s))
unfolding names
names_iff s n =
    ground (arith, value_iff s n.hostname, value_iff s n.node_id, value_iff s n.mesh_ipv4)

-- A rule matches exactly when its source selects the source node, its destination selects the
-- destination node, its ports are not given or the query has no port or one of them, and its
-- protocols are not given or have the query's. A missing selector stands for "*".
pub match_rule_iff :
    (rule : Rule) (src dst : Node) (port : Option ℕ) (protocol : Text)
    → (match_rule rule src dst port protocol ≡ true) ↔ (
        (match_node_selector (or_default (codes "*") rule.source) src ≡ true)
        × (match_node_selector (or_default (codes "*") rule.destination) dst ≡ true)
        × ((or_default [] rule.ports ≡ [])
            ⊎ (port ≡ none)
            ⊎ ((p : ℕ) × (port ≡ some p) × (contains p (or_default [] rule.ports) ≡ true)))
        × ((or_default [] rule.protocols ≡ [])
            ⊎ (contains protocol (or_default [] rule.protocols) ≡ true)))
unfolding match_rule
match_rule_iff rule src dst none protocol = ground arith
match_rule_iff rule src dst (some p) protocol = ground arith

-- What each form of selector selects: "*" selects every node; "group:" with a name selects the
-- nodes that have the name among their tags; "node:" with a name selects the nodes that have it as
-- hostname, id or IPv4 address. Whatever follows the first colon is the name, colons included.
pub selector_forms :
    (name : Text) (n : Node)
    → (match_node_selector (codes "*") n ≡ true)
      × (match_node_selector (codes "group:" ++ name) n ≡ contains name (or_default [] n.tags))
      × ((match_node_selector (codes "node:" ++ name) n ≡ true)
          ↔ ((n.hostname ≡ some name) ⊎ (n.node_id ≡ some name) ⊎ (n.mesh_ipv4 ≡ some name)))
unfolding match_node_selector after_colon starts_with list_beq
selector_forms name n = (refl, refl, names_iff name n)
