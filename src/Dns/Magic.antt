-- ===== src/Dns/Magic.antt =====
-- pymesh/networking/dns.py: the resolver of the daemon.
pub mod Records
pub mod Loop
pub mod Known
pub mod Answers
use pymesh.Base.{
  ℕ, zero, suc, ◌+◌, Bool, true, false, ◌||◌, Option, none, some, List, [], ◌∷◌, ◌++◌,
  if◌then◌else◌, ltb, ◌==◌, nat_eq, text_eq, length, take, slice, get_elem?, is_empty,
}
use pymesh.Base.Text.{Text, codes, join, lower, lstrip, ends_with}
use pymesh.Base.Dict.{Dict, lookup, insert}
use pymesh.Base.Bytes.{Bytes, decode_ascii}
use pymesh.Base.Result.{Result, ok, raise, bad_address}
use pymesh.Ipv4.{parse_ipv4}
use pymesh.Dns.{domain_of, header_of, answer_of}

-- The loop over the labels, which does not know pointers; `none` means that the fuel ran out.
unfoldable pub labels_from : ℕ → Bytes → ℕ → List Text → Option (List Text × ℕ)
labels_from zero bytes offset labels = none
labels_from (suc fuel) bytes offset labels = elim (get_elem? bytes offset) [
  | none ↦ some (labels, offset)
  | some size ↦
      let rest =
        labels_from fuel bytes (offset + 1 + size)
          (labels ++ decode_ascii (slice bytes (offset + 1) (offset + 1 + size)) ∷ []) in
      if size == 0 then some (labels, offset + 1) else rest
]

abbrev or_empty : Option (List Text × ℕ) → List Text × ℕ
or_empty none = ([], 0)
or_empty (some r) = r

abbrev first_label : List Text → Text
first_label [] = []
first_label (l ∷ labels) = l

-- `records.get(k)`, where an empty text counts as none
abbrev pub get_address : Text → Dict Text → Option Text
get_address k records = elim (lookup k records) [
  | none ↦ none
  | some ip ↦ if is_empty ip then none else some ip
]

-- by the whole name, and then by its first label
unfoldable pub find_address : Dict Text → List Text → Option Text
find_address records labels = elim (get_address (domain_of labels) records) [
  | none ↦ get_address (first_label labels) records
  | some ip ↦ some ip
]

-- the name is not known: no answer, and the flags say so
abbrev pub nx_domain : Bytes → Bytes → Bytes
nx_domain query question = header_of query 0x83 0 ++ question

abbrev answered : Bytes → Bytes → Option ℕ → Result Bytes
answered query question none = raise bad_address
answered query question (some address) =
    ok (header_of query 0x80 1 ++ (question ++ answer_of 60 address))

unfoldable pub build_dns_response : Dict Text → Bytes → Result Bytes
unfolding labels_from
build_dns_response records query =
    if ltb (length query) 12
    then ok []
    else let (labels, offset) = or_empty (labels_from (length query + 1) query 12 []) in
      let question = slice query 12 (offset + 4) in
      elim (find_address records labels) [
        | none ↦ ok (nx_domain query question)
        | some ip ↦ answered query question (parse_ipv4 ip)
      ]

-- one name under each top-level domain, and the registry of the domain at the controller
abbrev pub clean : Text → Text
clean tld = lower (lstrip b'.' tld)

abbrev pub at_controller : Text → Text → Bool
at_controller k_clean ip = k_clean == codes "controller" || ends_with ip (codes ".1")

unfoldable pub add_tlds : Text → Text → List Text → Dict Text → Dict Text
add_tlds k_clean ip [] records = records
add_tlds k_clean ip (tld ∷ tlds) records =
    let named = insert (k_clean ++ b'.' ∷ clean tld) ip records in
    add_tlds k_clean ip tlds
      (if at_controller k_clean ip then insert (codes "registry." ++ clean tld) ip named else named)

unfoldable pub add_records : List Text → Dict Text → Dict Text → Dict Text
add_records tlds [] records = records
add_records tlds ((k, ip) ∷ new_records) records =
    add_records tlds new_records (add_tlds (lower k) ip tlds (insert (lower k) ip records))

-- `active_tlds or ["mesh", "cr"]`
abbrev pub tld_list : Option (List Text) → List Text
tld_list none = codes "mesh" ∷ codes "cr" ∷ []
tld_list (some []) = codes "mesh" ∷ codes "cr" ∷ []
tld_list (some (t ∷ tlds)) = t ∷ tlds

-- the records of the resolver after `update_records`; what it had before is cleared
unfoldable pub update_records : Dict Text → Option (List Text) → Dict Text
unfolding add_records add_tlds
update_records new_records active_tlds = add_records (tld_list active_tlds) new_records []
