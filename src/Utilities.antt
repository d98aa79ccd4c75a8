-- ===== src/Utilities.antt =====
-- utilities.c and utilities.h: numbers and octets from strings. A string is its characters, without
-- the final 0. strtol and strtoul are parameters: the value and how many characters they read.
pub mod Hex
pub mod Range
pub mod Text
pub mod Strip
mod Runs
use morse_cli.Base.{
  ℕ, zero, suc, ◌+◌, ◌-◌, ◌*◌, ◌%◌, ◌/◌, ◌^◌, ◌==◌, ltb, leb, bit_or, Bool, true, false, not, ◌&&◌,
  ◌||◌, if◌then◌else◌, Bytes, List, [], ◌∷◌, ◌++◌, length, drop, get_or, ℤ, pos, negsuc,
  is_negative,
}
use morse_cli.Command.{int_of_u32}

unfoldable pub hex2num : ℕ → ℤ
hex2num c =
    if leb 48 c && leb c 57
    then pos (c - 48)
    else if leb 97 c && leb c 102
    then pos (c - 97 + 10)
    else if leb 65 c && leb c 70
    then pos (c - 65 + 10)
    else negsuc 0

-- (a << 4) | b
abbrev pub join_digits : ℤ → ℤ → ℤ
join_digits (pos a) (pos b) = pos (bit_or (a * 2 ^ 4) b)
join_digits (pos a) (negsuc b) = negsuc 0
join_digits (negsuc a) b = negsuc 0

-- The second character is read only behind a first that is a digit.
unfoldable pub hex2byte : Bytes → ℤ
hex2byte hex = join_digits (hex2num (get_or hex 0 0)) (hex2num (get_or hex 1 0))

abbrev pub store_octet : ℤ → ℤ × Bytes → ℤ × Bytes
store_octet (pos a) (ret, octets) = (ret, a % 2 ^ 8 ∷ octets)
store_octet (negsuc a) rest = (negsuc 0, [])

-- The code and the octets that were stored in `buf`.
unfoldable pub hexstr2bin : Bytes → ℕ → ℤ × Bytes
hexstr2bin hex zero = (pos 0, [])
hexstr2bin hex (suc len) = store_octet (hex2byte hex) (hexstr2bin (drop 2 hex) len)

abbrev pub is_digit : ℕ → Bool
is_digit c = leb 48 c && leb c 57

unfoldable pub all_digits : Bytes → Bool
all_digits [] = true
all_digits (c ∷ str) = is_digit c && all_digits str

-- A minus sign is passed over where something follows it.
unfoldable pub check_string_is_int : Bytes → Bool
check_string_is_int [] = true
check_string_is_int (c ∷ []) = all_digits (c ∷ [])
check_string_is_int (c ∷ d ∷ str) =
    if c == 45 then all_digits (d ∷ str) else all_digits (c ∷ d ∷ str)

-- The unsigned conversions: the code and what is stored in `val`.
module _ (strtoul : Bytes → ℕ × ℕ) where
  unfoldable pub str_to_uint32 : Bytes → ℤ × ℕ
  str_to_uint32 str =
      let (value, read) = strtoul str in
      (if read == length str then pos 0 else negsuc 0, value % 2 ^ 32)

  unfoldable pub str_to_uint16 : Bytes → ℤ × ℕ
  str_to_uint16 str = let (ret, local) = str_to_uint32 str in (ret, local % 2 ^ 16)

  unfoldable pub str_to_uint8 : Bytes → ℤ × ℕ
  str_to_uint8 str = let (ret, local) = str_to_uint32 str in (ret, local % 2 ^ 8)

  unfoldable pub str_to_uint32_range : Bytes → ℕ → ℕ → ℤ × ℕ
  str_to_uint32_range str min max =
      let (value, read) = strtoul str in
      let val = value % 2 ^ 32 in
      (if not (read == length str) || ltb val min || ltb max val then negsuc 0 else pos 0, val)

  unfoldable pub str_to_uint16_range : Bytes → ℕ → ℕ → ℤ × ℕ
  str_to_uint16_range str min max =
      let (ret, local) = str_to_uint32_range str min max in (ret, local % 2 ^ 16)

  unfoldable pub str_to_uint8_range : Bytes → ℕ → ℕ → ℤ × ℕ
  str_to_uint8_range str min max =
      let (ret, local) = str_to_uint32_range str min max in (ret, local % 2 ^ 8)

-- A long stored in an int32_t.
unfoldable pub int32_of_long : ℤ → ℤ
int32_of_long (pos n) = int_of_u32 (n % 2 ^ 32)
int32_of_long (negsuc n) = int_of_u32 (2 ^ 32 - 1 - n % 2 ^ 32)

-- a < b
unfoldable pub less : ℤ → ℤ → Bool
less (pos a) (pos b) = ltb a b
less (pos a) (negsuc b) = false
less (negsuc a) (pos b) = true
less (negsuc a) (negsuc b) = ltb b a

module _ (strtol : Bytes → ℤ × ℕ) where
  unfoldable pub str_to_int32 : Bytes → ℤ × ℤ
  str_to_int32 str =
      let (value, read) = strtol str in
      (if read == length str then pos 0 else negsuc 0, int32_of_long value)

  unfoldable pub str_to_int32_range : Bytes → ℤ → ℤ → ℤ × ℤ
  str_to_int32_range str min max =
      let (value, read) = strtol str in
      let val = int32_of_long value in
      (if not (read == length str) || less val min || less max val then negsuc 0 else pos 0, val)

module _ (strtoull : Bytes → ℕ × ℕ) where
  unfoldable pub str_to_uint64 : Bytes → ℤ × ℕ
  str_to_uint64 str =
      let (value, read) = strtoull str in
      (if read == length str then pos 0 else negsuc 0, value % 2 ^ 64)
