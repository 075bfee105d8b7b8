-- ===== src/BootCfg/Tests.antt =====
-- Numbers of boot.cfg.
use bongos.Common.{ℕ, ◌≡◌, refl, some, List, [], ◌∷◌}
use bongos.BootCfg.{
  is_digit, streq_bounded, parse_digits, parse_uint, split_x, dimensions, parse_resolution,
}

-- "0042"
abbrev forty_two : List ℕ
forty_two = 48 ∷ 48 ∷ 52 ∷ 50 ∷ []

reads_forty_two : parse_uint forty_two ≡ some 42
unfolding parse_uint parse_digits is_digit
reads_forty_two = refl

-- "80x25"
abbrev text_mode : List ℕ
text_mode = 56 ∷ 48 ∷ 120 ∷ 50 ∷ 53 ∷ []

reads_text_mode : parse_resolution text_mode ≡ some (80, 25)
unfolding parse_resolution dimensions split_x streq_bounded parse_uint parse_digits is_digit
reads_text_mode = refl

abbrev width : ℕ
width = 80

abbrev height : ℕ
height = 25
