-- ===== src/Base/TextTests.antt =====
-- The number formats at inputs.
use mathlib.Core.Path.{◌≡◌, refl}
use anolis_provider_bread.Base.Text.{to_dec, to_hex}

to_dec_runs : to_dec 1600 ≡ "1600"
unfolding to_dec
to_dec_runs = refl

to_hex_runs : to_hex 2 10 ≡ "0A"
unfolding to_hex
to_hex_runs = refl

to_hex_wide : to_hex 8 0x1F3 ≡ "000001F3"
unfolding to_hex
to_hex_wide = refl
