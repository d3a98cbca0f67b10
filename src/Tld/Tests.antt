-- ===== src/Tld/Tests.antt =====
-- Names of tests/test_tld.py.
use pymesh.Base.{◌≡◌, ◌↔◌, true, false, contains, text_eq}
use pymesh.Base.Text.{codes}
use pymesh.Tld.{clean_tld, reserved, validate_tld_name}
use pymesh.Tld.Laws.{IsLabel, validate_tld_name_iff}

validate_tld_name_iff_example : (validate_tld_name (codes ".My-Corp") ≡ true) ↔ (
    IsLabel (clean_tld (codes ".My-Corp"))
    × (contains (clean_tld (codes ".My-Corp")) reserved ≡ false))
validate_tld_name_iff_example = validate_tld_name_iff (codes ".My-Corp")
