-- ===== src/Networking/Hosts.antt =====
-- pymesh/networking/hosts.py: the section of /etc/hosts that maps the names of the mesh.
pub mod Section
pub mod Update
use pymesh.Base.{
  ℕ, zero, suc, ◌+◌, Bool, true, false, not, ◌&&◌, Option, none, some, List, [], ◌∷◌, ◌++◌, map,
  if◌then◌else◌, ◌==◌, nat_eq, text_eq, contains, is_empty, length, drop, ltb,
}
use pymesh.Base.Text.{Text, codes, starts_with, has_part, join, lower, lstrip, rstrip_by, is_space}
use pymesh.Base.Dict.{Dict, lookup, insert, get_list}

abbrev pub section_start : Text
section_start = codes "# BEGIN PYMESH DNS"

abbrev pub section_end : Text
section_end = codes "# END PYMESH DNS"

abbrev pub newline : ℕ
newline = 10

-- the order of texts
unfoldable pub before : Text → Text → Bool
before s [] = false
before [] (b ∷ t) = true
before (a ∷ s) (b ∷ t) = if ltb a b then true else a == b && before s t

unfoldable pub insert_sorted : Text → List Text → List Text
insert_sorted s [] = s ∷ []
insert_sorted s (t ∷ ts) =
    let rest = insert_sorted s ts in
    if s == t then t ∷ ts else if before s t then s ∷ t ∷ ts else t ∷ rest

-- `sorted(list(set(domains)))`
unfoldable pub sorted_set : List Text → List Text
unfolding insert_sorted
sorted_set [] = []
sorted_set (s ∷ ss) = insert_sorted s (sorted_set ss)

-- `active_tlds or ["cr", "mesh"]`, each without its dots and in lower case
abbrev or_default : Option (List Text) → List Text
or_default none = codes "cr" ∷ codes "mesh" ∷ []
or_default (some []) = codes "cr" ∷ codes "mesh" ∷ []
or_default (some (tld ∷ tlds)) = tld ∷ tlds

unfoldable pub tld_cleans : Option (List Text) → List Text
tld_cleans active_tlds = map (λ t. lower (lstrip b'.' t)) (or_default active_tlds)

abbrev pub names_of : Text → List Text → List Text
names_of h_clean tlds = h_clean ∷ map (λ tld. h_clean ++ b'.' ∷ tld) tlds

-- the names of each address
unfoldable pub group_by_ip : List Text → Dict Text → Dict (List Text) → Dict (List Text)
group_by_ip tlds [] ip_map = ip_map
group_by_ip tlds ((hostname, ip) ∷ records) ip_map =
    group_by_ip tlds records
      (insert ip (get_list ip ip_map ++ names_of (lower hostname) tlds) ip_map)

unfoldable pub add_registries : Text → List Text → Dict (List Text) → Dict (List Text)
add_registries controller_ip [] ip_map = ip_map
add_registries controller_ip (tld ∷ tlds) ip_map =
    let reg_domain = codes "registry." ++ tld in
    let known = get_list controller_ip ip_map in
    add_registries controller_ip tlds (
      if contains reg_domain known
      then ip_map
      else insert controller_ip (known ++ reg_domain ∷ []) ip_map)

-- `if controller_ip not in ip_map: ip_map[controller_ip] = []`
abbrev ensure : Text → Dict (List Text) → Dict (List Text)
ensure ip ip_map = elim (lookup ip ip_map) [ none ↦ insert ip [] ip_map | some _ ↦ ip_map ]

-- the host of the controller's URL as `urlparse` gives it, if there is one
abbrev pub controller_ip : Option Text → Text
controller_ip none = codes "100.64.0.1"
controller_ip (some host) = if is_empty host then codes "100.64.0.1" else host

unfoldable pub address_map : Dict Text → Option (List Text) → Option Text → Dict (List Text)
unfolding group_by_ip add_registries
address_map records active_tlds ctrl_host =
    let tlds = tld_cleans active_tlds in
    add_registries (controller_ip ctrl_host) tlds
      (ensure (controller_ip ctrl_host) (group_by_ip tlds records []))

-- one line for each address with a name
unfoldable pub host_lines : Dict (List Text) → List Text
host_lines [] = []
host_lines ((ip, domains) ∷ ip_map) =
    let unique_domains = sorted_set domains in
    let rest = host_lines ip_map in
    if is_empty unique_domains then rest else (ip ++ 9 ∷ join (codes " ") unique_domains) ∷ rest

unfoldable pub section_of : List Text → Text
section_of lines = join (newline ∷ []) (section_start ∷ (lines ++ section_end ∷ [])) ++ newline ∷ []

-- what follows the first occurrence of a mark
unfoldable pub after_mark : Text → Text → Option Text
after_mark mark [] = none
after_mark mark (c ∷ s) =
    let rest = after_mark mark s in
    if starts_with (c ∷ s) mark then some (drop (length mark) (c ∷ s)) else rest

abbrev pub skip_newline : Text → Text
skip_newline [] = []
skip_newline (c ∷ s) = if c == newline then s else c ∷ s

-- `re.sub(START.*?END\n?, block, text)` for two marks; what a match takes is at least one character
unfoldable pub replace_sections : Text → Text → ℕ → Text → Text → Text
replace_sections start stop zero block s = s
replace_sections start stop (suc fuel) block [] = []
replace_sections start stop (suc fuel) block (c ∷ s) =
    let skipped = c ∷ replace_sections start stop fuel block s in
    elim (starts_with (c ∷ s) start) [
      | false ↦ skipped
      | true ↦ elim (after_mark stop (drop (length start) (c ∷ s))) [
        | none ↦ skipped
        | some rest ↦ block ++ replace_sections start stop fuel block (skip_newline rest)
      ]
    ]

-- a round for every character is enough
unfoldable pub substitute : Text → Text → Text
substitute block content = replace_sections section_start section_end (length content) block content

abbrev pub has_section : Text → Bool
has_section content = has_part section_start content && has_part section_end content

abbrev pub stripped : Text → Text
stripped content = rstrip_by is_space content

-- `expand` is what `re.sub` makes of a replacement; `none` is an exception.
unfoldable pub updated_content : (Text → Option Text) → Text → Text → Option Text
updated_content expand new_block content =
    if has_section content
    then (elim (expand new_block) [ none ↦ none | some block ↦ some (substitute block content) ])
    else some (stripped content ++ newline ∷ newline ∷ new_block)

-- The file, `none` where there is none; it can be read, and written where `writable` says so.
abbrev pub write : Bool → Text → Option Text → Option Text × Bool
write writable content none = (some content, false)
write writable content (some new) = if writable then (some new, true) else (some content, false)

unfoldable pub sync_hosts_file :
    (Text → Option Text)
    → Bool
    → Dict Text
    → Option (List Text)
    → Option Text
    → Option Text
    → Option Text × Bool
unfolding updated_content
sync_hosts_file expand writable records active_tlds ctrl_host none = (none, false)
sync_hosts_file expand writable records active_tlds ctrl_host (some content) =
    let new_block = section_of (host_lines (address_map records active_tlds ctrl_host)) in
    write writable content (updated_content expand new_block content)

unfoldable pub remove_hosts_file : Bool → Option Text → Option Text × Bool
remove_hosts_file writable none = (none, false)
remove_hosts_file writable (some content) =
    if has_section content
    then (if writable then (some (substitute [] content), true) else (some content, false))
    else (some content, true)
