-- ===== src/Base/Number.antt =====
-- Python's `int` of a text.
use Prim.Native.Nat.{ℕ}
use pymesh.Base.Tests.{if◌then◌else◌}
use pymesh.Base.Lists.{is_empty}
use pymesh.Base.Text.{Text, strip}
use pymesh.Base.Decimal.{all_digits, read}
use pymesh.Base.Result.{Result, ok, raise, bad_number}

-- `int` of a text, where it has no sign and no underscores
unfoldable pub int_of : Text → Result ℕ
int_of s =
    if is_empty (strip s)
    then raise bad_number
    else if all_digits (strip s)
    then ok (read (strip s))
    else raise bad_number
