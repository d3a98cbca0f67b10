-- ===== src/Networking/Links.antt =====
-- pymesh/networking/routes.py and pymesh/networking/interfaces.py.
use pymesh.Base.{
  ℕ, Bool, true, false, Option, none, some, List, [], ◌∷◌, ◌++◌, if◌then◌else◌, is_empty,
}
use pymesh.Base.Text.{Text, codes}
use pymesh.Networking.{Command, Outcome, raised, finished, Netlink}

-- what is done with the first link of a name, `false` where there is none or a lookup raises
abbrev with_link : Netlink → Text → (ℕ → Bool) → Bool
with_link net name f = elim (net.link_lookup name) [
  | none ↦ false
  | some [] ↦ false
  | some (idx ∷ rest) ↦ f idx
]

unfoldable pub add_subnet_route : Netlink → Text → Text → Bool
add_subnet_route net name destination_subnet =
    with_link net name (λ idx. net.route (codes "add") destination_subnet idx)

unfoldable pub remove_subnet_route : Netlink → Text → Text → Bool
remove_subnet_route net name destination_subnet =
    with_link net name (λ idx. net.route (codes "del") destination_subnet idx)

unfoldable pub bring_down : Netlink → Text → Bool
bring_down net name = with_link net name (λ idx. net.link_set idx (codes "down"))

abbrev add_address : Text → Text → Text → Command
add_address name address mask =
    codes "ip" ∷ codes "addr" ∷ codes "add" ∷ (address ++ mask) ∷ codes "dev" ∷ name ∷ []

abbrev pub set_up : Text → Command
set_up name = codes "ip" ∷ codes "link" ∷ codes "set" ∷ codes "dev" ∷ name ∷ codes "up" ∷ []

-- the command for the IPv6 address, if one is given and not empty
abbrev pub add_v6 : Text → Option Text → List Command
add_v6 name none = []
add_v6 name (some address) =
    if is_empty address then [] else add_address name address (codes "/48") ∷ []

abbrev pub link_commands : Text → Text → Option Text → List Command
link_commands name ipv4_address ipv6_address =
    add_address name ipv4_address (codes "/10") ∷ (add_v6 name ipv6_address ++ set_up name ∷ [])

-- commands whose codes are not looked at: only an exception stops them
unfoldable pub run_unchecked : (Command → Outcome) → List Command → List Command × Bool
run_unchecked run [] = ([], true)
run_unchecked run (cmd ∷ cmds) =
    let rest = run_unchecked run cmds in
    elim (run cmd) [ raised ↦ (cmd ∷ [], false) | finished code err ↦ (cmd ∷ rest.0, rest.1) ]

-- The addresses that pyroute2 adds may fail without a consequence; the link must come up.
unfoldable pub assign_addresses :
    Netlink → (Command → Outcome) → Text → Text → Option Text → List Command × Bool
assign_addresses net run name ipv4_address ipv6_address =
    if with_link net name (λ idx. net.link_set idx (codes "up"))
    then ([], true)
    else run_unchecked run (link_commands name ipv4_address ipv6_address)
