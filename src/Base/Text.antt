-- ===== src/Base/Text.antt =====
-- Python's `str` as a list of code points, with the methods that the program calls. `lower` and
-- `strip` are those of ASCII text.
use Prim.Native.Char.{code}
use Prim.Native.Nat.{ℕ, ◌+◌}
use Prim.Native.String.{String}
use mathlib.Core.Path.{◌≡◌, refl, ap}
use mathlib.Core.Bool.{Bool, true, false, ◌&&◌, ◌||◌}
use mathlib.Core.List.{List, [], ◌∷◌, ◌++◌, reverse}
use mathlib.Core.Option.{Option, none, some}
use native.Mathlib.Omega.{arith}
use pymesh.Base.Tests.{if◌then◌else◌, nat_beq, leb}

abbrev pub Text : Type 0
Text = List ℕ

-- a literal of the source
abbrev pub codes : String → Text
codes String.[] = []
codes (String.◌∷◌ c s) = code c ∷ codes s

-- `s.startswith(p)`
unfoldable pub starts_with : Text → Text → Bool
starts_with s [] = true
starts_with [] (b ∷ p) = false
starts_with (a ∷ s) (b ∷ p) = nat_beq a b && starts_with s p

-- `s.endswith(p)`
unfoldable pub ends_with : Text → Text → Bool
unfolding starts_with
ends_with s p = starts_with (reverse s) (reverse p)

-- `part in s`
unfoldable pub has_part : Text → Text → Bool
has_part part [] = starts_with [] part
has_part part (c ∷ s) = starts_with (c ∷ s) part || has_part part s

-- `s.split(sep, 1)` at a separator of one character: the parts before and after the first one
unfoldable pub split_once : ℕ → Text → Option (Text × Text)
split_once c [] = none
split_once c (a ∷ s) =
    let rest = split_once c s in
    if nat_beq a c then some ([], s) else elim rest [ none ↦ none | some (x, y) ↦ some (a ∷ x, y) ]

-- `s.split(sep)`
unfoldable pub split : ℕ → Text → List Text
split c [] = [] ∷ []
split c (a ∷ s) =
    let rest = split c s in
    if nat_beq a c then [] ∷ rest else elim rest [ [] ↦ (a ∷ []) ∷ [] | x ∷ xs ↦ (a ∷ x) ∷ xs ]

-- `s.rsplit(sep, 1)`
unfoldable pub rsplit_once : ℕ → Text → Option (Text × Text)
unfolding split_once
rsplit_once c s = elim (split_once c (reverse s)) [
  | none ↦ none
  | some (x, y) ↦ some (reverse y, reverse x)
]

-- characters dropped at the left while they meet `p`
unfoldable pub lstrip_by : (ℕ → Bool) → Text → Text
lstrip_by p [] = []
lstrip_by p (a ∷ s) = let rest = lstrip_by p s in if p a then rest else a ∷ s

unfoldable pub rstrip_by : (ℕ → Bool) → Text → Text
unfolding lstrip_by
rstrip_by p s = reverse (lstrip_by p (reverse s))

-- `s.lstrip(c)` and `s.rstrip(c)`
unfoldable pub lstrip : ℕ → Text → Text
unfolding lstrip_by
lstrip c = lstrip_by (λ a. nat_beq a c)

unfoldable pub rstrip : ℕ → Text → Text
unfolding rstrip_by
rstrip c = rstrip_by (λ a. nat_beq a c)

abbrev pub is_space : ℕ → Bool
is_space a = (leb 9 a && leb a 13) || (leb 28 a && leb a 32)

-- `s.strip()`
unfoldable pub strip : Text → Text
unfolding lstrip_by rstrip_by
strip s = rstrip_by is_space (lstrip_by is_space s)

abbrev pub lower_code : ℕ → ℕ
lower_code a = if leb b'A' a && leb a b'Z' then a + 32 else a

-- `s.lower()`
unfoldable pub lower : Text → Text
lower [] = []
lower (a ∷ s) = lower_code a ∷ lower s

-- `sep.join(parts)`
unfoldable pub join : Text → List Text → Text
join sep [] = []
join sep (x ∷ []) = x
join sep (x ∷ y ∷ xs) = x ++ sep ++ join sep (y ∷ xs)

pub lower-lower : (s : Text) → lower (lower s) ≡ lower s
unfolding lower
lower-lower [] = refl
lower-lower (a ∷ s) = ground (arith, lower-lower s)

pub lower-append : (s t : Text) → lower (s ++ t) ≡ lower s ++ lower t
unfolding lower
lower-append [] t = refl
lower-append (a ∷ s) t = ap (λ l. lower_code a ∷ l) (lower-append s t)

-- A text starts with a prefix exactly when it is the prefix and some rest.
pub starts_with-append : (p s : Text) → starts_with (p ++ s) p ≡ true
unfolding starts_with
starts_with-append [] s = refl
starts_with-append (b ∷ p) s = ground (arith, starts_with-append p s)
