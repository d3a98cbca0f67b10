-- ===== src/Base/Bytes.antt =====
-- Bytes as a list of numbers, and Python's conversions of them to text and to numbers.
use Prim.Native.Nat.{ℕ, ◌+◌, ◌*◌, ◌/◌, ◌%◌, ◌^◌}
use mathlib.Core.Path.{◌≡◌, refl}
use mathlib.Core.Bool.{Bool, true, ◌&&◌}
use mathlib.Core.List.{List, [], ◌∷◌}
use mathlib.Core.Option.{Option, none, some}
use native.Mathlib.Omega.{arith}
use pymesh.Base.Tests.{if◌then◌else◌, ltb}
use pymesh.Base.Lists.{filter}
use pymesh.Base.Text.{Text}

abbrev pub Bytes : Type 0
Bytes = List ℕ

unfoldable pub is_ascii : Text → Bool
is_ascii [] = true
is_ascii (c ∷ s) = ltb c 128 && is_ascii s

-- `.encode("ascii")`, which raises UnicodeEncodeError elsewhere
abbrev pub encode_ascii : Text → Option Bytes
encode_ascii s = if is_ascii s then some s else none

-- `.decode("ascii", errors="ignore")`
unfoldable pub decode_ascii : Bytes → Text
unfolding filter
decode_ascii = filter (λ b. ltb b 128)

-- `struct.pack(">H", n)`, which raises struct.error from 2 ^ 16 on
abbrev pub pack_u16 : ℕ → Option Bytes
pack_u16 n = if ltb n (2 ^ 16) then some (n / 256 ∷ n % 256 ∷ []) else none

-- `struct.unpack(">H", data)[0]` of two bytes
abbrev pub unpack_u16 : Bytes → ℕ
unpack_u16 (hi ∷ lo ∷ rest) = hi * 256 + lo
unpack_u16 _ = 0

pub decode_ascii_lem : (s : Text) → is_ascii s ≡ true → decode_ascii s ≡ s
unfolding is_ascii decode_ascii
decode_ascii_lem [] h = refl
decode_ascii_lem (c ∷ s) h = ground (arith, decode_ascii_lem s)
