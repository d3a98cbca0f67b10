-- ===== src/Ipv4/Octets.antt =====
-- Facts about the texts of the 256 octets, checked one by one.
use pymesh.Base.{
  not, list_beq, ◌∙◌, ℕ, zero, suc, ◌<◌, ◌≡◌, refl, Bool, true, false, ◌&&◌, Option, none, some,
  ◌==◌, nat_eq, arith, [], ◌∷◌, ◌++◌,
}
use mathlib.Core.List.{reverse}
use pymesh.Base.Text.{Text, starts_with, codes}
use pymesh.Base.Decimal.{show, read, all_digits}
use pymesh.Ipv4.{parse_octet}

-- a test of all numbers below a bound
unfoldable pub all_below : (bound : ℕ) → (ℕ → Bool) → Bool
all_below zero test = true
all_below (suc bound) test = test bound && all_below bound test

pub all_below_lem :
    (bound : ℕ) (test : ℕ → Bool) (n : ℕ) → all_below bound test ≡ true → n < bound → test n ≡ true
unfolding all_below
all_below_lem zero test n passed below = absurd (omega (arith, below))
all_below_lem (suc bound) test n passed below = ground (arith, all_below_lem bound test n)

digits_table : all_below 256 (λ n. all_digits (show n)) ≡ true
unfolding all_below all_digits show
digits_table = refl

pub all_digits-show_octet : (n : ℕ) → n < 256 → all_digits (show n) ≡ true
all_digits-show_octet n h = all_below_lem 256 _ n digits_table h

reads_as : ℕ → Option ℕ → Bool
reads_as n none = false
reads_as n (some m) = m == n

reads_as-eq : (n : ℕ) (o : Option ℕ) → reads_as n o ≡ true → o ≡ some n
unfolding reads_as
reads_as-eq n none h = cc
reads_as-eq n (some m) h = ground arith

parse_table : all_below 256 (λ n. reads_as n (parse_octet (show n))) ≡ true
unfolding all_below reads_as parse_octet show all_digits read
parse_table = refl

pub parse_octet-show : (n : ℕ) → n < 256 → parse_octet (show n) ≡ some n
parse_octet-show n h = reads_as-eq n _ (all_below_lem 256 _ n parse_table h)

abbrev same : Bool → Bool → Bool
same true b = b
same false b = not b

same-eq : (a b : Bool) → same a b ≡ true → a ≡ b
same-eq true true h = refl
same-eq false false h = refl
same-eq _ _ h = cc

ones_table : all_below 256 (λ n. same (list_beq (reverse (show n)) (b'1' ∷ [])) (n == 1)) ≡ true
unfolding all_below list_beq show
ones_table = refl

reverse_table : all_below 256 (λ n. all_digits (reverse (show n))) ≡ true
unfolding all_below show all_digits
reverse_table = refl

one_after_dot :
    (s rest : Text)
    → all_digits s ≡ true
    → starts_with (s ++ b'.' ∷ rest) (codes "1.") ≡ list_beq s (b'1' ∷ [])
unfolding starts_with list_beq all_digits
one_after_dot [] rest h = refl
one_after_dot (a ∷ []) rest h = ground arith
one_after_dot (a ∷ b ∷ s) rest h = ground arith

-- Read from the right, an octet behind a dot shows ".1" only if it is 1.
pub one_after_dot_iff :
    (n : ℕ) (rest : Text)
    → n < 256
    → starts_with (reverse (show n) ++ b'.' ∷ rest) (codes "1.") ≡ (n == 1)
one_after_dot_iff n rest h =
    one_after_dot (reverse (show n)) rest (all_below_lem 256 _ n reverse_table h)
    ∙ same-eq _ _ (all_below_lem 256 _ n ones_table h)
