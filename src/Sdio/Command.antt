-- ===== src/Sdio/Command.antt =====
-- The commands without a data phase: CMD0, CMD63 and CMD52 of transport/sdio_over_spi.c.
use morse_cli.Base.{
  ℕ, ◌+◌, ◌*◌, ◌%◌, ◌/◌, ◌^◌, ◌==◌, bit_or, Bool, not, ◌||◌, if◌then◌else◌, Option, none, some, ℤ,
  is_zero, Bytes, set, drop, replicate, length,
}
use morse_cli.Transport.{store_bytes, minus_etranserr}
use morse_cli.Sdio.{
  Driver, sdio_cmd_hdr_len, sdio_cmd_hdr_extra_len, sdio_junk_token, prep_cmd, calc_cmd_crc_octet,
  cmd_find_resp,
}

-- The end of each command: the CRC octet over the header, and 0xff behind it.
unfoldable pub finish_header : Bytes → Bytes
finish_header hdr =
    store_bytes (set hdr 6 (calc_cmd_crc_octet (drop 1 hdr))) sdio_cmd_hdr_len
      (replicate sdio_cmd_hdr_extra_len sdio_junk_token)

-- The octets of CMD0 and of CMD63, in the memory that was allocated.
unfoldable pub plain_frame : ℕ → Bytes → Bytes
plain_frame cmd mem = finish_header (store_bytes (prep_cmd cmd mem) 2 (replicate 4 0))

unfoldable pub cmd52_frame : Bool → ℕ → ℕ → ℕ → Bytes → Bytes
cmd52_frame write func addr octet mem =
    let control = bit_or (func * 2 ^ 4 % 2 ^ 8) (addr / 2 ^ 15) % 2 ^ 8 in
    let hdr = set (prep_cmd 52 mem) 2 control in
    let hdr' = set (set (set hdr 3 (addr / 2 ^ 7 % 2 ^ 8)) 4 (addr * 2 % 2 ^ 8)) 5 octet in
    let hdr'' = if write then set hdr' 2 (bit_or control (2 ^ 7)) else hdr' in finish_header hdr''

module _ {S : Type 0} (drv : Driver S) where
  -- alloc_cmd: what a command without a data phase needs; no other command is allocated here.
  unfoldable pub alloc_cmd : ℕ → S → Option Bytes × S
  alloc_cmd cmd s =
      if cmd == 0 || cmd == 63 || cmd == 52
      then Driver.write_alloc drv (sdio_cmd_hdr_len + sdio_cmd_hdr_extra_len) s
      else (none, s)

  -- The response of a transfer that went well is searched behind the header.
  unfoldable pub check_response : ℤ → Bytes → ℤ
  check_response ret resp =
      if not (is_zero ret)
      then ret
      else elim (cmd_find_resp (drop sdio_cmd_hdr_len resp) sdio_cmd_hdr_extra_len) [
        | none ↦ minus_etranserr
        | some i ↦ ret
      ]

  -- The body that the three commands share, for the way each fills its buffer.
  unfoldable pub transact : ℕ → (Bytes → Bytes) → S → ℤ × S
  transact cmd fill s =
      let (cmd_buff, s1) = alloc_cmd cmd s in
      elim cmd_buff [
        | none ↦ (minus_etranserr, s1)
        | some mem ↦
            let (resp_buff, s2) = Driver.read_alloc drv (length mem) s1 in
            elim resp_buff [
              | none ↦ (minus_etranserr, s2)
              | some resp ↦
                  let ((ret, resp'), s3) = Driver.raw_read_write drv resp (fill mem) s2 in
                  (check_response ret resp', s3)
            ]
      ]

  unfoldable pub cmd0 : S → ℤ × S
  cmd0 s = transact 0 (plain_frame 0) s

  unfoldable pub cmd63 : S → ℤ × S
  cmd63 s = transact 63 (plain_frame 63) s

  -- The octet that a read finds is not stored: `data` is only read.
  unfoldable pub cmd52 : Bool → ℕ → ℕ → ℕ → S → ℤ × S
  cmd52 write func addr octet s = transact 52 (cmd52_frame write func addr octet) s
