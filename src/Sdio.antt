-- ===== src/Sdio.antt =====
-- transport/sdio_over_spi.c: SDIO commands over a full-duplex SPI transfer. What the SPI driver
-- does is a record of operations over a state `S`; memory that a driver hands out holds anything.
pub mod Command
pub mod Cmd53
pub mod Memblock
pub mod Reset
pub mod Sections
pub mod Enough
pub mod Cover
pub mod Written
pub mod Masked
pub mod Response
pub mod Header
pub mod Layout
pub mod Fields
pub mod Blocks
mod Runs
use morse_cli.Base.{
  ℕ, zero, suc, ◌+◌, ◌-◌, ◌*◌, ◌%◌, ◌/◌, ◌^◌, bit_and, bit_or, Bool, true, false, not, ◌&&◌, ◌||◌,
  ◌==◌, ltb, if◌then◌else◌, Option, none, some, ℤ, Bytes, [], ◌∷◌, get_or, set, drop, replicate,
}
use morse_cli.Crc.{crc7_gen}
use morse_cli.Transport.{store_bytes}

-- The operations of the transport under this one: write_alloc and read_alloc, for a size, and
-- raw_read_write, for the buffer of the response and the octets to send.
pub record Driver (S : Type 0) : Type 0 where
  pub write_alloc : ℕ → S → Option Bytes × S
  pub read_alloc : ℕ → S → Option Bytes × S
  pub raw_read_write : Bytes → Bytes → S → (ℤ × Bytes) × S

abbrev pub sdio_cmd_hdr_extra_len : ℕ
sdio_cmd_hdr_extra_len = 13

abbrev pub sdio_cmd_hdr_len : ℕ
sdio_cmd_hdr_len = 7

abbrev pub sdio_junk_token : ℕ
sdio_junk_token = 0xff

abbrev pub sdio_cmd53_resp_size : ℕ
sdio_cmd53_resp_size = 4

abbrev pub sdio_post_cmd53_delay_octets : ℕ
sdio_post_cmd53_delay_octets = 4

-- fn_max_block_size
unfoldable pub fn_max_block_size : ℕ → ℕ
fn_max_block_size func = get_or (4 ∷ 8 ∷ 512 ∷ []) func 0

unfoldable pub prep_cmd : ℕ → Bytes → Bytes
prep_cmd cmd hdr =
    let hdr' = set (set hdr 0 sdio_junk_token) 1 ((2 ^ 6 + bit_and cmd 0x3f) % 2 ^ 8) in
    store_bytes (set hdr' 6 1) sdio_cmd_hdr_len (replicate sdio_cmd_hdr_extra_len sdio_junk_token)

-- `data` begins at the octet with the start bit.
unfoldable pub calc_cmd_crc_octet : Bytes → ℕ
calc_cmd_crc_octet buf =
    let number =
      bit_or
        (bit_or
          (bit_or (bit_or (get_or buf 0 0 * 2 ^ 32) (get_or buf 1 0 * 2 ^ 24))
            (get_or buf 2 0 * 2 ^ 16))
          (get_or buf 3 0 * 2 ^ 8))
        (get_or buf 4 0) in
    bit_or (crc7_gen number 40 * 2) 1 % 2 ^ 8

abbrev pub is_success : ℕ → Bool
is_success octet = bit_and octet 0xfe == 0

-- The search of cmd_find_resp from index `ii` on, with `rounds` rounds to go. A pointer into the
-- data is its index.
unfoldable pub find_resp_from : Bytes → ℕ → ℕ → ℕ → Option ℕ
find_resp_from buf size ii zero = none
find_resp_from buf size ii (suc rounds) =
    let octet = get_or buf ii 0 in
    let next = find_resp_from buf size (ii + 1) rounds in
    if octet == sdio_junk_token || octet == 0xfe
    then next
    else if is_success octet
    then (if ltb ii (size - 2) && is_success (get_or buf (ii + 1) 0)
        then some (ii + 2)
        else some (ii + 1))
    else none

-- The sizes it is called with are 13 and 4.
unfoldable pub cmd_find_resp : Bytes → ℕ → Option ℕ
cmd_find_resp buf size = find_resp_from buf size 0 (size - 1)
