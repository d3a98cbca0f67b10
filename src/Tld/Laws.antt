-- ===== src/Tld/Laws.antt =====
-- Which names are accepted (pymesh/dns/tld.py).
use pymesh.Base.{
  ℕ, zero, suc, ◌≤◌, ◌≡◌, ◌≢◌, ◌↔◌, true, false, [], ◌∷◌, nat_eq, text_eq, contains, length, arith,
  All,
}
use pymesh.Base.Text.{Text}
use pymesh.Tld.{clean_tld, is_label, matches_tail, matches_pattern, reserved, validate_tld_name}

abbrev last : ℕ → Text → ℕ
last c [] = c
last c (d ∷ s) = last d s

abbrev FirstNotHyphen : Text → Type 0
FirstNotHyphen [] = Unit
FirstNotHyphen (c ∷ s) = c ≢ b'-'

abbrev LastNotHyphen : Text → Type 0
LastNotHyphen [] = Unit
LastNotHyphen (c ∷ s) = last c s ≢ b'-'

-- a name as the method's comment describes it
pub record IsLabel (s : Text) : Type 0 where
  pub long : 2 ≤ length s
  pub short : length s ≤ 24
  pub characters : All (λ c. is_label c ≡ true) s
  pub first : FirstNotHyphen s
  pub final : LastNotHyphen s

tail_iff :
    (n c : ℕ) (s : Text)
    → (matches_tail n (c ∷ s) ≡ true)
      ↔ ((length s ≤ n) × All (λ d. is_label d ≡ true) (c ∷ s) × (last c s ≢ b'-'))
unfolding matches_tail
tail_iff zero c [] = ground arith
tail_iff (suc n) c [] = ground arith
tail_iff zero c (d ∷ s) = ground arith
tail_iff (suc n) c (d ∷ s) = ground (arith, tail_iff n d s)

IsLabel-of_matches :
    (s : Text) → 2 ≤ length s → length s ≤ 24 → matches_pattern s ≡ true → IsLabel s
unfolding matches_pattern
IsLabel-of_matches [] long short m = absurd (omega arith)
IsLabel-of_matches (c ∷ []) long short m = absurd (omega arith)
IsLabel-of_matches (c ∷ d ∷ s) long short m =
    let (n, characters, final) = (tail_iff 22 d s).0 (ground arith) in
    record {
      long = long;
      short = short;
      characters = (ground arith, characters);
      first = ground arith;
      final = final;
    }

matches_of_label : (s : Text) → IsLabel s → matches_pattern s ≡ true
unfolding matches_pattern
matches_of_label [] l = absurd (omega arith)
matches_of_label (c ∷ []) l = absurd (omega arith)
matches_of_label (c ∷ d ∷ s) l =
    let tail : matches_tail 22 (d ∷ s) ≡ true =
      (tail_iff 22 d s).1 (omega (arith, l.short), l.characters.1, l.final) in
    ground (arith, tail, l.characters.0, l.first)

-- A name is accepted exactly when, without its leading dots and the spaces around it and in lower
-- case, it has 2 to 24 characters, each a letter, a digit or a hyphen, neither the first nor the
-- last of them a hyphen, and it is none of the reserved names.
pub validate_tld_name_iff :
    (s : Text)
    → (validate_tld_name s ≡ true)
      ↔ (IsLabel (clean_tld s) × (contains (clean_tld s) reserved ≡ false))
unfolding validate_tld_name
validate_tld_name_iff s = (
  λ h.
      (IsLabel-of_matches (clean_tld s) (ground arith) (ground arith) (ground arith), ground arith),
  λ (l, free). ground (arith, l.long, l.short, matches_of_label (clean_tld s) l, free),
)
