-- ===== src/Stun/Detection.antt =====
-- The classification of the NAT (pymesh/discovery/nat.py).
use pymesh.Base.{◌≡◌, ◌≢◌, ◌↔◌, Option, none, some, eq_iff, arith}
use pymesh.Stun.{Mapped, full_cone, restricted, symmetric, blocked, detect_nat_type}

-- UDP is taken for blocked exactly when the first server gave no address; the NAT for restricted
-- exactly when only the second gave none; for a cone exactly when both gave the same host and
-- port; and for symmetric exactly when both gave one and the two differ.
pub detect_nat_type_iff :
    (res1 res2 : Option Mapped)
    → ((detect_nat_type res1 res2 ≡ blocked) ↔ (res1 ≡ none))
      × ((detect_nat_type res1 res2 ≡ restricted) ↔ ((res1 ≢ none) × (res2 ≡ none)))
      × ((detect_nat_type res1 res2 ≡ full_cone) ↔ ((res1 ≢ none) × (res1 ≡ res2)))
      × ((detect_nat_type res1 res2 ≡ symmetric) ↔ ((res1 ≢ none) × (res2 ≢ none) × (res1 ≢ res2)))
unfolding detect_nat_type
detect_nat_type_iff none res2 = ground arith
detect_nat_type_iff (some (ip, port)) none = ground arith
detect_nat_type_iff (some (ip, port)) (some (ip', port')) = ground (arith, eq_iff ip ip')
