-- ===== src/Networking/Tests.antt =====
-- A machine where no command fails but one, and the laws at it.
use pymesh.Base.{
  ◌≡◌, refl, true, false, none, some, [], ◌∷◌, ◌++◌, if◌then◌else◌, ◌==◌, text_eq, list_beq,
  contains,
}
use pymesh.Base.Text.{codes, has_part, starts_with, lower, lstrip, join}
use pymesh.Base.Dict.{lookup, insert}
use pymesh.Networking.{Command, Outcome, raised, finished, Netlink}
use pymesh.Networking.WireGuard.{Manager}
use pymesh.Networking.Firewall.{FirewallRule}
use pymesh.Networking.Hosts.{
  newline, stripped, remove_hosts_file, host_lines, address_map, sorted_set, insert_sorted,
  add_registries, before, group_by_ip, section_of, tld_cleans,
}
use pymesh.Networking.Hosts.Section.{body_of}
use pymesh.Networking.Hosts.Update.{Known, IsClosed, sync, sync_all, appended, sync_hosts_file-last}

-- a second chain of the same name is refused
abbrev run : Command → Outcome
run cmd = elim cmd [
  | [] ↦ raised
  | name ∷ [] ↦ raised
  | name ∷ option ∷ rest ↦
      if option == codes "-N" then finished 1 (codes "Chain already exists.") else finished 0 []
]

abbrev manager : Manager
manager = record { interface_name = codes "pymesh0"; dry_run = false }

abbrev no_netlink : Netlink
no_netlink = record {
  link_lookup = λ name. none;
  link_add = λ name. false;
  link_set = λ idx state. false;
  route = λ op dst idx. false;
  wg_set = λ name key port. false;
}

abbrev ssh : FirewallRule
ssh = record { action = none; ports = some (22 ∷ 2222 ∷ []) }

-- two updates of a small file
abbrev first_known : Known
first_known = record {
  records = (codes "app", codes "100.64.0.2") ∷ [];
  active_tlds = none;
  ctrl_host = none;
}

abbrev next_known : Known
next_known = record {
  records = (codes "db", codes "100.64.0.3") ∷ [];
  active_tlds = some (codes ".lan" ∷ []);
  ctrl_host = some (codes "10.0.0.1");
}

first_known-IsClosed : IsClosed first_known
unfolding has_part starts_with body_of host_lines address_map section_of group_by_ip add_registries
    sorted_set insert_sorted before tld_cleans lower lookup insert list_beq contains lstrip join
first_known-IsClosed = record { no_end = refl; no_escape = refl }

next_known-IsClosed : IsClosed next_known
unfolding has_part starts_with body_of host_lines address_map section_of group_by_ip add_registries
    sorted_set insert_sorted before tld_cleans lower lookup insert list_beq contains lstrip join
next_known-IsClosed = record { no_end = refl; no_escape = refl }

sync_hosts_file-last_example :
    (sync some next_known (sync_all some (first_known ∷ []) (some (codes "127.0.0.1 localhost")))
      ≡ (some (appended (codes "127.0.0.1 localhost") next_known), true))
    × (remove_hosts_file true
          (sync some next_known
            (sync_all some (first_known ∷ []) (some (codes "127.0.0.1 localhost")))).0
        ≡ (some (stripped (codes "127.0.0.1 localhost") ++ newline ∷ newline ∷ []), true))
unfolding has_part starts_with
sync_hosts_file-last_example =
    sync_hosts_file-last some (λ s h. refl) (codes "127.0.0.1 localhost") refl (first_known ∷ [])
      next_known (first_known-IsClosed, tt) next_known-IsClosed
