-- ===== src/Utilities/Hex.antt =====
-- hexstr2bin of utilities.c against a printer of two hexadecimal digits for each octet.
use morse_cli.Base.{
  ℕ, ◌+◌, ◌%◌, ◌/◌, ◌^◌, ◌<◌, ◌≡◌, refl, ap, ◌∙◌, arith, ltb, Bool, true, false, if◌then◌else◌,
  Bytes, [], ◌∷◌, ◌++◌, All, IsByte, length, pos,
}
use morse_cli.Base.Masks.{bit_or-fields}
use morse_cli.Utilities.{hex2num, hex2byte, hexstr2bin}

-- The digit of a number below 16, in capitals or not.
abbrev pub hex_digit : Bool → ℕ → ℕ
hex_digit upper n = if ltb n 10 then 48 + n else if upper then 55 + n else 87 + n

abbrev pub print_hex : Bool → Bytes → Bytes
print_hex upper [] = []
print_hex upper (b ∷ bs) = hex_digit upper (b / 16) ∷ hex_digit upper (b % 16) ∷ print_hex upper bs

hex2num-hex_digit : (upper : Bool) (n : ℕ) → n < 16 → hex2num (hex_digit upper n) ≡ pos n
unfolding hex2num
hex2num-hex_digit true n h = ground arith
hex2num-hex_digit false n h = ground arith

pub hex2byte-print :
    (upper : Bool) (b : ℕ) (rest : Bytes)
    → b < 256
    → hex2byte (hex_digit upper (b / 16) ∷ hex_digit upper (b % 16) ∷ rest) ≡ pos b
unfolding hex2byte
hex2byte-print upper b rest h =
    rw
      (
        hex2num-hex_digit upper (b / 16) (omega arith),
        hex2num-hex_digit upper (b % 16) (omega arith),
      )
      (ap pos (bit_or-fields 4 (b / 16) (b % 16) (omega arith) ∙ omega arith))

-- hexstr2bin stores again the octets that were printed, in capitals or not, with whatever behind
-- them, and returns 0.
pub hexstr2bin-print_hex :
    (upper : Bool) (octets rest : Bytes)
    → All IsByte octets
    → hexstr2bin (print_hex upper octets ++ rest) (length octets) ≡ (pos 0, octets)
unfolding hexstr2bin
hexstr2bin-print_hex upper [] rest h = refl
hexstr2bin-print_hex upper (b ∷ bs) rest (h, hs) =
    let small : b % 2 ^ 8 ≡ b = omega arith in
    rw
      (
        hex2byte-print upper b (print_hex upper bs ++ rest) h,
        hexstr2bin-print_hex upper bs rest hs,
        small,
      )
      refl
