-- ===== src/Utilities/Range.antt =====
-- The conversions with a range, of utilities.c.
use morse_cli.Base.{ℕ, ◌%◌, ◌^◌, ◌≤◌, ◌<◌, ◌≡◌, arith, Bytes, length, pos}
use morse_cli.Utilities.{str_to_uint32_range, str_to_uint8_range}

module _ (strtoul : Bytes → ℕ × ℕ) (str : Bytes) (min max : ℕ) where
  range_kept :
      (str_to_uint32_range strtoul str min max).0 ≡ pos 0
      → ((strtoul str).1 ≡ length str)
        × (min ≤ (str_to_uint32_range strtoul str min max).1)
        × ((str_to_uint32_range strtoul str min max).1 ≤ max)
  unfolding str_to_uint32_range
  range_kept = ground arith

  -- Where the range is one of octets and str_to_uint8_range returns 0, the whole string was read,
  -- and the octet that is stored is the number's value as a uint32_t, uncut, and in the range.
  pub str_to_uint8_range-kept :
      max < 2 ^ 8
      → (str_to_uint8_range strtoul str min max).0 ≡ pos 0
      → ((strtoul str).1 ≡ length str)
        × ((str_to_uint8_range strtoul str min max).1 ≡ (strtoul str).0 % 2 ^ 32)
        × (min ≤ (str_to_uint8_range strtoul str min max).1)
        × ((str_to_uint8_range strtoul str min max).1 ≤ max)
  unfolding str_to_uint8_range str_to_uint32_range
  str_to_uint8_range-kept h = ground arith
