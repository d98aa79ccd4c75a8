-- ===== src/Utilities/Runs.antt =====
-- Strings of digits.
use morse_cli.Base.{ℕ, ◌≡◌, ◌≤◌, ◌%◌, ◌^◌, refl, arith, false, [], ◌∷◌, Bytes, pos, length}
use morse_cli.Utilities.{hexstr2bin, str_to_uint8_range, str_to_uint32_range}
use morse_cli.Utilities.Hex.{hexstr2bin-print_hex}
use morse_cli.Base.{drop}
use morse_cli.Base.Strings.{c_str}
use morse_cli.Base.Trim.{trimmed}
use morse_cli.Utilities.Text.{strip}
use morse_cli.Utilities.Strip.{front_trimmed, strip_lem}
use morse_cli.Utilities.Range.{str_to_uint8_range-kept}

-- "1aB" with the last character behind the octet
hexstr2bin-print_hex_example : hexstr2bin (49 ∷ 97 ∷ 66 ∷ []) 1 ≡ (pos 0, 0x1a ∷ [])
hexstr2bin-print_hex_example = hexstr2bin-print_hex false (0x1a ∷ []) (66 ∷ []) (omega arith, tt)

abbrev always_70 : Bytes → ℕ × ℕ
always_70 str = (70, length str)

converted : (str_to_uint8_range always_70 (55 ∷ 48 ∷ []) 64 77).0 ≡ pos 0
unfolding str_to_uint8_range str_to_uint32_range
converted = refl

str_to_uint8_range-kept_example :
    ((always_70 (55 ∷ 48 ∷ [])).1 ≡ length {A = ℕ} (55 ∷ 48 ∷ []))
    × ((str_to_uint8_range always_70 (55 ∷ 48 ∷ []) 64 77).1 ≡ 70 % 2 ^ 32)
    × (64 ≤ (str_to_uint8_range always_70 (55 ∷ 48 ∷ []) 64 77).1)
    × ((str_to_uint8_range always_70 (55 ∷ 48 ∷ []) 64 77).1 ≤ 77)
str_to_uint8_range-kept_example =
    str_to_uint8_range-kept always_70 (55 ∷ 48 ∷ []) 64 77 (omega arith) converted

-- "  a b " with its final zero.
abbrev spaced : Bytes
spaced = 32 ∷ 32 ∷ 97 ∷ 32 ∷ 98 ∷ 32 ∷ 0 ∷ []

strip_lem_example :
    c_str (drop (strip spaced).0 (strip spaced).1) ≡ trimmed (front_trimmed (c_str spaced))
strip_lem_example = strip_lem spaced
