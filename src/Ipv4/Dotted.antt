-- ===== src/Ipv4/Dotted.antt =====
-- The dotted text of an address reads back as the address.
use mathlib.Core.List.{append_assoc, reverse, reverse-append, reverse-cons}
use pymesh.Base.{ℕ, ◌^◌, ◌<◌, ◌≡◌, refl, ap, true, some, [], ◌∷◌, ◌++◌, ◌==◌, nat_eq, arith}
use pymesh.Base.Text.{Text, split, ends_with, codes}
use pymesh.Base.Decimal.{show, all_digits}
use pymesh.Ipv4.{octet, show_ipv4, parse_ipv4, from_octets}
use pymesh.Ipv4.Octets.{one_after_dot_iff, all_digits-show_octet, parse_octet-show}

split-digits_sep :
    (s t : Text) → all_digits s ≡ true → split b'.' (s ++ b'.' ∷ t) ≡ s ∷ split b'.' t
unfolding split all_digits
split-digits_sep [] t h = refl
split-digits_sep (c ∷ s) t h = ground (arith, split-digits_sep s t)

split-digits : (s : Text) → all_digits s ≡ true → split b'.' s ≡ s ∷ []
unfolding split all_digits
split-digits [] h = refl
split-digits (c ∷ s) h = ground (arith, split-digits s)

octets_eq : (n : ℕ) → n < 2 ^ 32 → from_octets (octet n 3) (octet n 2) (octet n 1) (octet n 0) ≡ n
octets_eq n h = omega arith

-- The text of an address reads back as the address.
pub parse_ipv4-show_ipv4 : (n : ℕ) → n < 2 ^ 32 → parse_ipv4 (show_ipv4 n) ≡ some n
unfolding show_ipv4 parse_ipv4
parse_ipv4-show_ipv4 n h =
    rw
      (
        split-digits_sep (show (octet n 3)) _ (all_digits-show_octet (octet n 3) (omega arith)),
        split-digits_sep (show (octet n 2)) _ (all_digits-show_octet (octet n 2) (omega arith)),
        split-digits_sep (show (octet n 1)) _ (all_digits-show_octet (octet n 1) (omega arith)),
        split-digits (show (octet n 0)) (all_digits-show_octet (octet n 0) (omega arith)),
        parse_octet-show (octet n 3) (omega arith),
        parse_octet-show (octet n 2) (omega arith),
        parse_octet-show (octet n 1) (omega arith),
        parse_octet-show (octet n 0) (omega arith),
      )
      (ap some (octets_eq n h))

-- Two addresses of the same text are one.
pub show_ipv4-injective : (m n : ℕ) → m < 2 ^ 32 → n < 2 ^ 32 → show_ipv4 m ≡ show_ipv4 n → m ≡ n
show_ipv4-injective m n hm hn e =
    ground (arith, parse_ipv4-show_ipv4 m hm, parse_ipv4-show_ipv4 n hn, ap parse_ipv4 e)

reverse-append_cons : (p q : Text) (c : ℕ) → reverse (p ++ c ∷ q) ≡ reverse q ++ c ∷ reverse p
reverse-append_cons p q c = simp (reverse-append, reverse-cons, append_assoc)

-- The text of an address ends in ".1" exactly when its last octet is 1.
pub ends_with-one : (n : ℕ) → ends_with (show_ipv4 n) (codes ".1") ≡ (octet n 0 == 1)
unfolding show_ipv4 ends_with
ends_with-one n =
    simp (reverse-append_cons, append_assoc) (one_after_dot_iff (octet n 0) _ (omega arith))
