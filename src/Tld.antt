-- ===== src/Tld.antt =====
-- pymesh/dns/tld.py: names of top-level domains.
pub mod Page
pub mod Laws
mod Tests
use pymesh.Base.{
  ℕ, suc, ◌+◌, Bool, true, false, not, ◌&&◌, ◌||◌, List, [], ◌∷◌, if◌then◌else◌, ltb, leb, ◌==◌,
  nat_eq, text_eq, contains, length,
}
use pymesh.Base.Text.{Text, codes, lstrip, strip, lower}

-- `tld_input.lstrip(".").strip().lower()`
unfoldable pub clean_tld : Text → Text
clean_tld tld_input = lower (strip (lstrip b'.' tld_input))

-- `[a-z0-9]`
abbrev pub is_alnum : ℕ → Bool
is_alnum c = (leb b'a' c && leb c b'z') || (leb b'0' c && leb c b'9')

-- `[a-z0-9-]`
abbrev pub is_label : ℕ → Bool
is_label c = is_alnum c || c == b'-'

-- `[a-z0-9-]{0,n}[a-z0-9]` to the end of the text
unfoldable pub matches_tail : ℕ → Text → Bool
matches_tail n [] = false
matches_tail n (c ∷ []) = is_alnum c
matches_tail ℕ.zero (c ∷ d ∷ s) = false
matches_tail (suc n) (c ∷ d ∷ s) = is_label c && matches_tail n (d ∷ s)

-- `re.match(r"^[a-z0-9]([a-z0-9-]{0,22}[a-z0-9])?$", clean)`, of a text with no line break
unfoldable pub matches_pattern : Text → Bool
unfolding matches_tail
matches_pattern [] = false
matches_pattern (c ∷ []) = is_alnum c
matches_pattern (c ∷ d ∷ s) = is_alnum c && matches_tail 22 (d ∷ s)

abbrev pub reserved : List Text
reserved =
    codes "localhost"
    ∷ codes "invalid"
    ∷ codes "local"
    ∷ codes "arpa"
    ∷ codes "test"
    ∷ codes "example"
    ∷ codes "com"
    ∷ codes "net"
    ∷ codes "org"
    ∷ []

unfoldable pub validate_tld_name : Text → Bool
validate_tld_name tld_input =
    let clean = clean_tld tld_input in
    if ltb (length clean) 2 || ltb 24 (length clean)
    then false
    else if not (matches_pattern clean)
    then false
    else not (contains clean reserved)
