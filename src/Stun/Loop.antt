-- ===== src/Stun/Loop.antt =====
-- The loop over the attributes ends (pymesh/discovery/stun.py).
use pymesh.Base.{
  ℕ, zero, suc, ◌+◌, ◌<◌, ◌≢◌, refl, none, length, arith, slice, inl, inr, Option-cases,
}
use pymesh.Base.Bytes.{Bytes, unpack_u16}
use pymesh.Stun.{aligned, read_attribute, read_attributes}

-- Whatever the bytes, the loop over the attributes ends within one round more than there are
-- bytes from its start on.
pub read_attributes_total :
    (fuel : ℕ) (bytes : Bytes) (offset : ℕ)
    → length bytes < fuel + offset
    → fuel ≢ 0
    → read_attributes fuel bytes offset ≢ none
unfolding read_attributes
read_attributes_total zero bytes offset enough positive = absurd (positive refl)
read_attributes_total (suc fuel) bytes offset enough positive =
    elim (Option-cases (
      read_attribute (unpack_u16 (slice bytes offset (offset + 2))) (
        slice bytes (offset + 4)
          (offset + 4 + unpack_u16 (slice bytes (offset + 2) (offset + 4)))))) [
            | inl e ↦ ground (
              arith,
              e,
              read_attributes_total fuel bytes
                  (offset + 4 + aligned (unpack_u16 (slice bytes (offset + 2) (offset + 4)))),
            )
            | inr (m, e) ↦ ground (arith, e)
          ]
