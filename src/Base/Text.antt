-- ===== src/Base/Text.antt =====
-- Text as the program handles it: equality, concatenation, `toLowerCase` and the number that a
-- hexadecimal address stands for.
use Prim.Native.Char.{Char, code}
use Prim.Native.Nat.{ℕ, zero, suc, ◌+◌, ◌-◌, ◌*◌, ◌/◌, ◌%◌}
use Prim.Native.String.{String, [], ◌∷◌}
use mathlib.Core.Bool.{true, false, ◌&&◌}
use mathlib.Core.Path.{◌≡◌}
use mathlib.Core.Logic.{◌≢◌, inl, inr}
use etf.Base.Tests.{leb, ltb, Bool-cases, if◌then◌else◌}
pub use Prim.Native.String.{◌++◌ as ◌<>◌}
pub use text.Mathlib.Text.{◌==◌ as str_eq}
pub use text.Mathlib.TextEquality.{eq_iff}
pub use text.Mathlib.TextPositions.{eq_refl}

nth_char : String → ℕ → Char → Char
nth_char [] i d = d
nth_char (c ∷ s) zero d = c
nth_char (c ∷ s) (suc i) d = nth_char s i d

-- `toLowerCase` of one character, over ASCII (the program lowers addresses only).
lower_char : Char → Char
unfolding nth_char
lower_char c =
    if leb b'A' (code c) && leb (code c) b'Z'
    then nth_char "abcdefghijklmnopqrstuvwxyz" (code c - b'A') c
    else c

unfoldable pub to_lower : String → String
unfolding lower_char
to_lower [] = []
to_lower (c ∷ s) = lower_char c ∷ to_lower s

-- The value of a hexadecimal digit, either case; any other character counts for nothing here,
-- since the request schemas admit hexadecimal addresses only.
hex_digit : ℕ → ℕ
hex_digit c =
    if leb b'0' c && leb c b'9'
    then c - b'0'
    else if leb b'a' c && leb c b'f'
    then c - 87
    else if leb b'A' c && leb c b'F'
    then c - 55
    else 0

hex_from : ℕ → String → ℕ
hex_from acc [] = acc
hex_from acc (c ∷ s) = hex_from (acc * 16 + hex_digit (code c)) s

-- `BigInt(address)` for an address "0x…".
unfoldable pub address_value : String → ℕ
unfolding hex_from hex_digit
address_value [] = 0
address_value (_ ∷ []) = 0
address_value (_ ∷ (_ ∷ digits)) = hex_from 0 digits

-- `slice(0, n)`.
unfoldable pub prefix : ℕ → String → String
prefix n [] = []
prefix zero (c ∷ s) = []
prefix (suc n) (c ∷ s) = c ∷ prefix n s

-- The decimal digits of a number below ten to the power of the fuel, its last digit first read off.
show_from : ℕ → ℕ → String → String
unfolding nth_char
show_from zero n acc = acc
show_from (suc fuel) n acc =
    let digit = nth_char "0123456789" (n % 10) "0" ∷ acc in
    elim (ltb n 10) [ true ↦ digit | false ↦ show_from fuel (n / 10) digit ]

-- `toString` of a number: the fuel is above the number of its digits, so the digits are all there.
unfoldable pub show_nat : ℕ → String
unfolding show_from
show_nat n = show_from (suc n) n []

-- Texts that differ are found to.
pub differs : (a b : String) → a ≢ b → str_eq a b ≡ false
differs a b h = elim (Bool-cases (str_eq a b)) [ inl e ↦ absurd (h ((eq_iff a b).0 e)) | inr e ↦ e ]
