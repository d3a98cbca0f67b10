-- ===== src/Dns/Magic/Loop.antt =====
-- The loop over the labels of a query ends (pymesh/networking/dns.py).
use pymesh.Base.{
  ℕ, zero, suc, ◌+◌, ◌<◌, ◌≢◌, refl, none, List, [], ◌∷◌, ◌++◌, length, slice, get_elem?, arith,
  inl, inr, Option-cases,
}
use pymesh.Base.Text.{Text}
use pymesh.Base.Bytes.{Bytes, decode_ascii}
use pymesh.Dns.Names.{get_elem?-lt}
use pymesh.Dns.Magic.{labels_from}

-- Whatever the bytes of a query to the daemon's resolver, the loop over its labels ends within one
-- round more than there are bytes from its start on.
pub query_labels_total :
    (fuel : ℕ) (bytes : Bytes) (offset : ℕ) (labels : List Text)
    → length bytes < fuel + offset
    → fuel ≢ 0
    → labels_from fuel bytes offset labels ≢ none
unfolding labels_from
query_labels_total zero bytes offset labels enough positive = absurd (positive refl)
query_labels_total (suc fuel) bytes offset labels enough positive =
    elim (Option-cases (get_elem? bytes offset)) [
      | inl e ↦ ground arith
      | inr (size, e) ↦ ground (
        arith,
        e,
        get_elem?-lt bytes offset size e,
        query_labels_total fuel bytes (offset + 1 + size)
            (labels ++ decode_ascii (slice bytes (offset + 1) (offset + 1 + size)) ∷ []),
      )
    ]
