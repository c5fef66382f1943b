-- ===== src/Align/Tests.antt =====
-- An address aligned to a page.
use mambo.Base.{◌≡◌, refl}
use mambo.Align.{align_lower, align_higher}

align_lower_test : align_lower 0x12345 0x1000 ≡ 0x12000
unfolding align_lower
align_lower_test = refl

align_higher_test : align_higher 0x12345 0x1000 ≡ 0x13000
unfolding align_higher align_lower
align_higher_test = refl
