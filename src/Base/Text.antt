-- ===== src/Base/Text.antt =====
-- Numbers as text: std::to_string, and the hexadecimal formats of the source.
use Prim.Native.Nat.{ℕ, zero, suc, ◌+◌, ◌-◌, ◌/◌, ◌%◌}
use Prim.Native.String.{String, ◌++◌ as ◌<>◌}
use mathlib.Core.List.{List, [], ◌∷◌}
use anolis_provider_bread.Base.Tests.{ltb, if◌then◌else◌}

abbrev digit_texts : List String
digit_texts =
    "0" ∷ "1" ∷ "2" ∷ "3" ∷ "4" ∷ "5" ∷ "6" ∷ "7" ∷ "8" ∷ "9" ∷ "A" ∷ "B" ∷ "C" ∷ "D" ∷ "E" ∷ "F"
    ∷ []

pick : List String → ℕ → String
pick [] n = ""
pick (x ∷ xs) zero = x
pick (x ∷ xs) (suc n) = pick xs n

-- The digits of `n` in a base above 1, with at least `width` of them; the fuel is above the number
-- of digits.
digits : ℕ → ℕ → ℕ → ℕ → String
digits zero base width n = ""
digits (suc fuel) base width n =
    let rest = digits fuel base (width - 1) (n / base) in
    let more = rest <> pick digit_texts (n % base) in
    if ltb width 2 then (if ltb n base then pick digit_texts n else more) else more

-- std::to_string of an unsigned value.
unfoldable pub to_dec : ℕ → String
unfolding digits pick
to_dec n = digits (suc n) 10 1 n

-- std::uppercase << std::hex << std::setw(width) << std::setfill('0').
unfoldable pub to_hex : ℕ → ℕ → String
unfolding digits pick
to_hex width n = digits (n + suc width) 16 width n
