-- ===== src/Networking/Firewall.antt =====
-- pymesh/networking/firewall.py: `FirewallManager`.
use pymesh.Base.{
  ℕ, ◌-◌, Bool, true, false, ◌&&◌, Option, none, some, List, [], ◌∷◌, ◌++◌, map, if◌then◌else◌,
  ◌==◌, text_eq, leb,
}
use pymesh.Base.Text.{Text, codes}
use pymesh.Base.Decimal.{show}
use pymesh.Networking.{Command, Outcome, raised, finished, run_all}

-- the keys of a rule that are read; `none` is a missing key
pub record FirewallRule : Type 0 where
  pub action : Option Text
  pub ports : Option (List ℕ)

-- `s.upper()`
abbrev upper_code : ℕ → ℕ
upper_code c = if leb b'a' c && leb c b'z' then c - 32 else c

abbrev action_of : Option Text → Text
action_of none = codes "allow"
action_of (some action) = action

unfoldable pub target : FirewallRule → Text
target rule =
    if map upper_code (action_of rule.action) == codes "ALLOW" then codes "ACCEPT" else codes "DROP"

abbrev pub append_to_chain : Text → Command
append_to_chain interface_name =
    codes "iptables" ∷ codes "-A" ∷ codes "PYMESH_ACL" ∷ codes "-i" ∷ interface_name ∷ []

abbrev jump : Text → Command
jump to = codes "-j" ∷ to ∷ []

abbrev pub port_command : Text → Text → ℕ → Command
port_command interface_name to port =
    append_to_chain interface_name
    ++ ((codes "-p" ∷ codes "tcp" ∷ codes "--dport" ∷ show port ∷ []) ++ jump to)

unfoldable pub rule_commands : Text → FirewallRule → List Command
rule_commands interface_name rule =
    let whole = (append_to_chain interface_name ++ jump (target rule)) ∷ [] in
    elim rule.ports [
      | none ↦ whole
      | some [] ↦ whole
      | some (port ∷ ports) ↦ map (port_command interface_name (target rule)) (port ∷ ports)
    ]

unfoldable pub rules_commands : Text → List FirewallRule → List Command
rules_commands interface_name [] = []
rules_commands interface_name (rule ∷ rules) =
    rule_commands interface_name rule ++ rules_commands interface_name rules

abbrev pub new_chain : Command
new_chain = codes "iptables" ∷ codes "-N" ∷ codes "PYMESH_ACL" ∷ []

abbrev pub flush_chain : Command
flush_chain = codes "iptables" ∷ codes "-F" ∷ codes "PYMESH_ACL" ∷ []

-- The chain may be there, so the first command may fail, but not raise.
abbrev pub after_new : (Command → Outcome) → List Command → Outcome → List Command × Bool
after_new run cmds raised = (new_chain ∷ [], false)
after_new run cmds (finished code err) =
    let (ran, done) = run_all run cmds in (new_chain ∷ ran, done)

-- `iptables` tells whether the tool is installed; the commands that are run, and the answer.
unfoldable pub apply_rules :
    (Command → Outcome) → Bool → Text → List FirewallRule → List Command × Bool
apply_rules run iptables interface_name rules =
    if iptables
    then after_new run (flush_chain ∷ rules_commands interface_name rules) (run new_chain)
    else ([], true)
