-- ===== src/Networking.antt =====
-- The managers of pymesh/networking that configure the system. What the system answers to a command,
-- and what pyroute2 does, are arguments.
pub mod WireGuard
pub mod Firewall
pub mod Links
pub mod Hosts
pub mod Laws
mod Tests
use pymesh.Base.{ℕ, zero, Bool, true, false, Option, ◌||◌, List, [], ◌∷◌, if◌then◌else◌}
use pymesh.Base.Text.{Text, starts_with}

abbrev pub Command : Type 0
Command = List Text

-- what `subprocess.run` does: it raises, or the command ends with a code and an error text
pub data Outcome : Type 0 where
  raised : Outcome
  finished : ℕ → Text → Outcome

-- `check=True` raises on every code but 0
abbrev pub succeeded : Outcome → Bool
succeeded raised = false
succeeded (finished zero err) = true
succeeded (finished _ err) = false

-- Commands in a loop, each run with `check=True`: those that were run, and whether all succeeded.
unfoldable pub run_all : (Command → Outcome) → List Command → List Command × Bool
run_all run [] = ([], true)
run_all run (cmd ∷ cmds) =
    let rest = run_all run cmds in
    if succeeded (run cmd) then (cmd ∷ rest.0, rest.1) else (cmd ∷ [], false)

-- pyroute2: the indices of the links of a name, and what is done with one; `none` and `false` are
-- exceptions, a missing library included
pub record Netlink : Type 0 where
  pub link_lookup : Text → Option (List ℕ)
  pub link_add : Text → Bool
  pub link_set : ℕ → Text → Bool
  pub route : Text → Text → ℕ → Bool
  pub wg_set : Text → Text → ℕ → Bool
