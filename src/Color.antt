-- ===== src/Color.antt =====
-- `util::color` of utility.h: the colours of embeds.
use tintemp_plus_plus.Base.{ℕ}

abbrev pub aqua : ℕ
aqua = 0x00FFFF

abbrev pub black : ℕ
black = 0x000000

abbrev pub white : ℕ
white = 0xFFFFFF

abbrev pub yellow : ℕ
yellow = 0xFFFF00

abbrev pub red : ℕ
red = 0xFF0000

abbrev pub green : ℕ
green = 0x00FF00

abbrev pub blue : ℕ
blue = 0x0000FF
