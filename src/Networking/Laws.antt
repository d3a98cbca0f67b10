-- ===== src/Networking/Laws.antt =====
-- Which commands the managers run, and what they answer.
use mathlib.Core.List.{map-append}
use pymesh.Base.{
  ℕ, ◌≡◌, ◌≢◌, refl, ◌∙◌, ap, Bool, true, false, not, ◌||◌, ◌==◌, nat_eq, Option, none, some, List,
  [], ◌∷◌, ◌++◌, map, if◌then◌else◌, All, arith, Bool-cases, inl, inr,
}
use pymesh.Base.Text.{Text, codes, has_part}
use pymesh.Networking.{Command, Outcome, raised, finished, succeeded, run_all, Netlink}
use pymesh.Networking.WireGuard.{
  WgPeer, through_pyroute2, Manager, Peer, created, add_link, create_interface, configure_interface,
  set_peer, sync_peers, remove_peer, has_link,
}
use pymesh.Networking.Firewall.{
  FirewallRule, rules_commands, new_chain, flush_chain, after_new, apply_rules,
}

abbrev pub Succeed : (Command → Outcome) → List Command → Type 0
Succeed run = All (λ cmd. succeeded (run cmd) ≡ true)

run_all-Succeed :
    (run : Command → Outcome) (cmds : List Command)
    → Succeed run cmds
    → run_all run cmds ≡ (cmds, true)
unfolding run_all
run_all-Succeed run [] h = refl
run_all-Succeed run (cmd ∷ cmds) (e, h) =
    rw e (ap (λ r. (cmd ∷ r.0, r.1)) (run_all-Succeed run cmds h))

run_all-failure :
    (run : Command → Outcome) (before after : List Command) (cmd : Command)
    → Succeed run before
    → succeeded (run cmd) ≡ false
    → run_all run (before ++ cmd ∷ after) ≡ (before ++ cmd ∷ [], false)
unfolding run_all
run_all-failure run [] after cmd h bad = rw bad refl
run_all-failure run (c ∷ before) after cmd (e, h) bad =
    rw e (ap (λ r. (c ∷ r.0, r.1)) (run_all-failure run before after cmd h bad))

-- a command for each peer
abbrev pub commands_of : Manager → List Peer → List Command
commands_of m peers = map (set_peer m.interface_name) peers

module _ (run : Command → Outcome) (by_pyroute2 : List WgPeer → Bool) (m : Manager)
    (live : m.dry_run ≡ false) where
  sync_peers-ran :
      (peers : List Peer) (ran : List Command)
      → run_all run (commands_of m peers) ≡ (ran, false)
      → sync_peers run true by_pyroute2 m peers ≡ record {
        commands = ran;
        handed = some peers;
        answer = through_pyroute2 by_pyroute2 peers;
      }
  unfolding sync_peers
  sync_peers-ran peers ran h = rw (live, sync_peers) (rw h refl)

  -- With the tool installed and outside a dry run, the peers are set one after another. If every
  -- command succeeds, one was run for each peer, in order, nothing is handed to pyroute2, and the
  -- answer is yes. At the first command that fails the loop ends, and all the peers, those already
  -- set included, are handed to pyroute2, which gives the answer.
  pub sync_peers_lem :
      ((peers : List Peer)
        → Succeed run (commands_of m peers)
        → sync_peers run true by_pyroute2 m peers
          ≡ record { commands = commands_of m peers; handed = none; answer = true })
      × ((before after : List Peer) (p : Peer)
          → Succeed run (commands_of m before)
          → succeeded (run (set_peer m.interface_name p)) ≡ false
          → sync_peers run true by_pyroute2 m (before ++ p ∷ after) ≡ record {
            commands = commands_of m before ++ set_peer m.interface_name p ∷ [];
            handed = some (before ++ p ∷ after);
            answer = through_pyroute2 by_pyroute2 (before ++ p ∷ after);
          })
  unfolding sync_peers
  sync_peers_lem = (
    λ peers h. rw (live, sync_peers) (rw (run_all-Succeed run (commands_of m peers) h) refl),
    λ before after p h bad. sync_peers-ran (before ++ p ∷ after) _ (
        ap (run_all run) (map-append (set_peer m.interface_name) before (p ∷ after))
        ∙ run_all-failure run (commands_of m before) (commands_of m after)
            (set_peer m.interface_name p) h bad),
  )

created-dry_run :
    (m : Manager) (o : Outcome) → m.dry_run ≡ false → (created m o).1 ≡ not (created m o).0.dry_run
created-dry_run m raised live = refl
created-dry_run m (finished code err) live = at (code == 0 || has_part (codes "File exists") err)
  where
    choice : Bool → Manager × Bool
    choice b = if b then (m, true) else (record m { dry_run = true }, false)

    at : (b : Bool) → (choice b).1 ≡ not (choice b).0.dry_run
    at true = rw live refl
    at false = refl

create_interface-dry_run :
    (net : Netlink) (run : Command → Outcome) (m : Manager)
    → m.dry_run ≡ false
    → (create_interface net run m).1 ≡ not (create_interface net run m).0.dry_run
unfolding create_interface
create_interface-dry_run net run m live = elim (Bool-cases (has_link net m.interface_name)) [
  | inl e ↦ rw (e, create_interface) (rw live refl)
  | inr e ↦ rw (e, create_interface) (created-dry_run m (run (add_link m.interface_name)) live)
]

in_dry_run :
    (net : Netlink) (run : Command → Outcome) (m : Manager)
    → m.dry_run ≡ true
    → (wg : Bool) (by_pyroute2 : List WgPeer → Bool) (removes : Text → Bool) (peers : List Peer)
      (key_file : Option Text) (key : Text) (port : ℕ)
    → (configure_interface net run wg key_file m key port ≡ (m, true))
      × (sync_peers run wg by_pyroute2 m peers
          ≡ record { commands = []; handed = none; answer = true })
      × (remove_peer run wg removes m key ≡ true)
unfolding configure_interface sync_peers remove_peer
in_dry_run net run m dry wg by_pyroute2 removes peers key_file key port =
    (rw (dry, configure_interface) refl, rw (dry, sync_peers) refl, rw (dry, remove_peer) refl)

-- Making the interface fails exactly when the manager goes into a dry run, from outside of one. In
-- a dry run every later call answers yes, runs no command and hands on no peer.
pub create_interface_lem :
    (net : Netlink) (run : Command → Outcome) (m : Manager)
    → m.dry_run ≡ false
    → ((create_interface net run m).1 ≡ not (create_interface net run m).0.dry_run)
      × ((create_interface net run m).1 ≡ false
          → (wg : Bool) (by_pyroute2 : List WgPeer → Bool) (removes : Text → Bool)
            (peers : List Peer) (key_file : Option Text) (key : Text) (port : ℕ)
          → (configure_interface net run wg key_file (create_interface net run m).0 key port
              ≡ ((create_interface net run m).0, true))
            × (sync_peers run wg by_pyroute2 (create_interface net run m).0 peers
                ≡ record { commands = []; handed = none; answer = true })
            × (remove_peer run wg removes (create_interface net run m).0 key ≡ true))
create_interface_lem net run m live =
    let dry = create_interface-dry_run net run m live in
    (dry, λ no. in_dry_run net run (create_interface net run m).0 (ground (arith, dry, no)))

after_new-run_all :
    (run : Command → Outcome) (cmds ran : List Command) (done : Bool) (o : Outcome)
    → o ≢ raised
    → run_all run cmds ≡ (ran, done)
    → after_new run cmds o ≡ (new_chain ∷ ran, done)
after_new-run_all run cmds ran done raised fine h = absurd (fine refl)
after_new-run_all run cmds ran done (finished code err) fine h = ap (λ r. (new_chain ∷ r.0, r.1)) h

-- With the tool installed and a first command that does not raise, the chain is flushed and the
-- rules are appended in order. The answer is yes if all these commands succeed; at the first one
-- that fails the loop ends, those before it stay in force, and the answer is no.
pub apply_rules_lem :
    (run : Command → Outcome) (interface_name : Text) (rules : List FirewallRule)
    → run new_chain ≢ raised
    → (Succeed run (flush_chain ∷ rules_commands interface_name rules)
        → apply_rules run true interface_name rules
          ≡ (new_chain ∷ flush_chain ∷ rules_commands interface_name rules, true))
      × ((before after : List Command) (cmd : Command)
          → flush_chain ∷ rules_commands interface_name rules ≡ before ++ cmd ∷ after
          → Succeed run before
          → succeeded (run cmd) ≡ false
          → apply_rules run true interface_name rules ≡ (new_chain ∷ (before ++ cmd ∷ []), false))
unfolding apply_rules
apply_rules_lem run interface_name rules fine = (
  λ h. after_new-run_all run _ _ _ (run new_chain) fine (run_all-Succeed run _ h),
  λ before after cmd split h bad.
      after_new-run_all run _ _ _ (run new_chain) fine
        (ap (run_all run) split ∙ run_all-failure run before after cmd h bad),
)
