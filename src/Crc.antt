-- ===== src/Crc.antt =====
-- The checksums: crc7_gen, crc16_gen and crc16_check of utilities.c, which work bit by bit, and the
-- table-driven morse_crc16 of transport/uart_slip.c. The registers are numbers; a 32-bit register
-- wraps at 2 ^ 32 where the code shifts it to the left.
pub mod Table
pub mod Shift
pub mod Gen
pub mod Octet
pub mod Equivalence
mod Runs
use morse_cli.Base.{
  ℕ, zero, suc, ◌+◌, ◌-◌, ◌*◌, ◌/◌, ◌%◌, ◌^◌, bit_and, bit_or, bit_xor, Bool, true, false, ◌==◌,
  ltb, if◌then◌else◌, Option, none, some, List, [], ◌∷◌, Bytes, length, get_or,
}
use morse_cli.Crc.Table.{crc16_lookup_table}

-- One round of the inner loop of crc16_gen, for the octet's bit `jj`.
unfoldable pub crc16_bit : ℕ → ℕ → ℕ → ℕ
crc16_bit octet jj crc =
    let val = bit_and (bit_xor (octet / 2 ^ jj) (crc / 2 ^ 15)) 1 in
    let crc' = bit_xor crc (bit_or (val * 2 ^ 4) (val * 2 ^ 11)) in bit_or (crc' * 2 % 2 ^ 32) val

-- The inner loop: `rounds` bits of the octet are left, the topmost first. The result has the
-- register and `bit_count`, a size_t; the loop is left early when `bit_count` reaches 0.
unfoldable pub crc16_octet : ℕ → ℕ → ℕ → ℕ → ℕ × ℕ
crc16_octet octet zero crc bit_count = (crc, bit_count)
crc16_octet octet (suc jj) crc bit_count =
    let crc' = crc16_bit octet jj crc in
    let bit_count' = (bit_count + 2 ^ 64 - 1) % 2 ^ 64 in
    let rest = crc16_octet octet jj crc' bit_count' in
    if bit_count' == 0 then (crc', bit_count') else rest

-- The outer loop, over the octets that are left.
unfoldable pub crc16_loop : Bytes → ℕ → ℕ → ℕ
crc16_loop [] crc bit_count = crc
crc16_loop (octet ∷ buff) crc bit_count =
    let (crc', bit_count') = crc16_octet octet 8 crc bit_count in
    let rest = crc16_loop buff crc' bit_count' in if bit_count' == 0 then crc' else rest

-- `buff` holds the `len` octets.
unfoldable pub crc16_gen : Bytes → ℕ
crc16_gen buff = bit_and (crc16_loop buff 0 (length buff * 8 % 2 ^ 64)) 0xffff

-- A null `buff` is `none`.
unfoldable pub crc16_check : Option Bytes → ℕ → Bool
crc16_check none crc16 = false
crc16_check (some buff) crc16 = crc16 == crc16_gen buff

-- The table-driven checksum; what is stored in the uint16_t register is cut to 16 bits.
unfoldable pub morse_crc16 : ℕ → Bytes → ℕ
morse_crc16 crc [] = crc
morse_crc16 crc (d ∷ rest) =
    morse_crc16
      (bit_xor (get_or crc16_lookup_table (bit_xor (crc / 2 ^ 8) d) 0) (crc * 2 ^ 8) % 2 ^ 16) rest

-- One round of the inner loop of crc7_gen: the octet and the register after it.
unfoldable pub crc7_bit : ℕ × ℕ → ℕ × ℕ
crc7_bit (octet_val, reg_val) =
    let shifted = reg_val * 2 % 2 ^ 32 in
    let reg_val' =
      if ltb 0 (bit_and (bit_xor octet_val shifted) 0x80) then bit_xor shifted 9 else shifted in
    (bit_and (octet_val * 2) 0xff, reg_val')

unfoldable pub crc7_bits : ℕ → ℕ × ℕ → ℕ × ℕ
crc7_bits zero s = s
crc7_bits (suc n) s = crc7_bits n (crc7_bit s)

-- The outer loop with `ii` bits to go; `rounds` is how often `ii -= 8` leaves `ii` above 0, this
-- round included. The shift is a uint8_t.
unfoldable pub crc7_loop : ℕ → ℕ → ℕ → ℕ → ℕ
crc7_loop number zero ii reg_val = reg_val
crc7_loop number (suc rounds) ii reg_val =
    let shift_val = (ii + 2 ^ 8 - 8) % 2 ^ 8 in
    let octet_val = bit_and (number / 2 ^ shift_val) 0xff in
    crc7_loop number rounds (ii - 8) (bit_and (crc7_bits 8 (octet_val, reg_val)).1 0x7f)

unfoldable pub crc7_gen : ℕ → ℕ → ℕ
crc7_gen number bit_count = crc7_loop number ((bit_count + 7) / 8) bit_count 0 % 2 ^ 8
