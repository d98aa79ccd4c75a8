-- ===== src/Sdio/Cmd53.antt =====
-- CMD53 of transport/sdio_over_spi.c: a block of memory read or written in one transfer, with a
-- start token before and a CRC behind each block of data.
use morse_cli.Base.{
  ℕ, zero, suc, ◌+◌, ◌-◌, ◌*◌, ◌%◌, ◌/◌, ◌^◌, ◌==◌, bit_and, bit_or, Bool, true, false, not, ◌&&◌,
  ◌||◌, if◌then◌else◌, Option, none, some, ℤ, is_zero, Bytes, get_or, set, drop, take, replicate,
  length,
}
use morse_cli.Crc.{crc16_gen, crc16_check}
use morse_cli.Transport.{store_bytes, etranssucc, minus_etranserr}
use morse_cli.Sdio.{
  Driver, sdio_cmd_hdr_len, sdio_junk_token, sdio_cmd53_resp_size, sdio_post_cmd53_delay_octets,
  fn_max_block_size, prep_cmd, calc_cmd_crc_octet, cmd_find_resp,
}

abbrev pub sdio_multi_block_start_token : ℕ
sdio_multi_block_start_token = 0xfc

abbrev pub sdio_single_start_token : ℕ
sdio_single_start_token = 0xfe

abbrev pub sdio_crc_octets : ℕ
sdio_crc_octets = 2

abbrev pub sdio_crc_read_octets : ℕ
sdio_crc_read_octets = 4

abbrev pub sdio_interblock_delay_octets : ℕ
sdio_interblock_delay_octets = 250

abbrev pub sdio_post_byte_delay_octets : ℕ
sdio_post_byte_delay_octets = 30

-- The search for a start token: an index into the data, or nothing.
unfoldable pub find_token_from : Bytes → ℕ → ℕ → Option ℕ
find_token_from buf ii zero = none
find_token_from buf ii (suc rounds) =
    let octet = get_or buf ii 0 in
    let next = find_token_from buf (ii + 1) rounds in
    if octet == sdio_junk_token
    then next
    else if octet == sdio_multi_block_start_token || octet == sdio_single_start_token
    then some (ii + 1)
    else none

unfoldable pub cmd53_find_token : Bytes → ℕ → Option ℕ
cmd53_find_token buf size = find_token_from buf 0 (size - 1)

unfoldable pub find_ack_from : Bytes → ℕ → ℕ → Option ℕ
find_ack_from buf ii zero = none
find_ack_from buf ii (suc rounds) =
    let octet = get_or buf ii 0 in
    let next = find_ack_from buf (ii + 1) rounds in
    if octet == sdio_junk_token
    then next
    else if bit_and octet 0x11 == 0x01 && bit_and octet 0x1f == 0x05
    then some (ii + 1)
    else none

unfoldable pub cmd53_find_ack : Bytes → ℕ → Option ℕ
cmd53_find_ack buf size = find_ack_from buf 0 (size - 1)

-- The local variables that are computed first.
pub record Sizes : Type 0 where
  pub block_size : ℕ
  pub loop_count : ℕ
  pub post_block_delay_bytes : ℕ
  pub total_block_size : ℕ
  pub full_trans_size : ℕ

unfoldable pub cmd53_sizes : Bool → ℕ → Bool → ℕ → Sizes
cmd53_sizes write func block_mode count =
    let block_size = if block_mode then fn_max_block_size func else count in
    let loop_count = if block_mode then count else 1 in
    let write_delay =
      if block_mode then sdio_interblock_delay_octets else sdio_post_byte_delay_octets in
    let read_delay =
      if block_mode then sdio_post_byte_delay_octets else sdio_interblock_delay_octets in
    let delay = if write then write_delay else read_delay in
    let write_block = 1 + block_size + sdio_crc_octets + delay in
    let read_block =
      if block_mode
      then 2 + block_size + delay
      else 4 + block_size + sdio_crc_read_octets + delay in
    let total_block_size = if write then write_block else read_block in
    let head = sdio_cmd_hdr_len + sdio_cmd53_resp_size + sdio_post_cmd53_delay_octets in
    let full_trans_size =
      if block_mode
      then head + count * total_block_size
      else if write
      then head + total_block_size
      else sdio_cmd_hdr_len + sdio_post_cmd53_delay_octets + total_block_size in
    record {
      block_size = block_size;
      loop_count = loop_count;
      post_block_delay_bytes = delay;
      total_block_size = total_block_size;
      full_trans_size = full_trans_size;
    }

-- The octets of the header from index 2 on.
unfoldable pub cmd53_control : Bool → ℕ → Bool → ℕ → ℕ
cmd53_control write func block_mode addr =
    let c = bit_or (func * 2 ^ 4 % 2 ^ 8) (if write then 2 ^ 7 else 0) in
    let c' = bit_or (bit_or c (if block_mode then 2 ^ 3 else 0)) (2 ^ 2) in
    bit_or c' (bit_and addr 0xffff / 2 ^ 15)

unfoldable pub cmd53_header : Bool → ℕ → Bool → ℕ → ℕ → Bytes → Bytes
cmd53_header write func block_mode addr count mem =
    let low = bit_and addr 0xffff in
    let hdr = set (prep_cmd 53 mem) 2 (cmd53_control write func block_mode addr) in
    let hdr' = set hdr 3 (low / 2 ^ 7 % 2 ^ 8) in
    let hdr'' = set hdr' 4 (bit_or (low * 2 % 2 ^ 8) (bit_and (count / 2 ^ 8) 1)) in
    let hdr''' = set hdr'' 5 (count % 2 ^ 8) in set hdr''' 6 (calc_cmd_crc_octet (drop 1 hdr'''))

-- One round of the loop that lays out the blocks; `block` is the data of the round.
unfoldable pub write_block : Bool → Sizes → Bytes → ℕ → Bytes → Bytes
write_block block_mode sizes mem token_offset block =
    let token = if block_mode then sdio_multi_block_start_token else sdio_single_start_token in
    let block_offset = token_offset + 1 in
    let crc_offset = block_offset + sizes.block_size in
    let crc16 = crc16_gen block in
    let mem' = store_bytes (set mem token_offset token) block_offset block in
    let mem'' = set (set mem' crc_offset (crc16 / 2 ^ 8)) (crc_offset + 1) (bit_and crc16 0xff) in
    store_bytes mem'' (crc_offset + sdio_crc_octets)
      (replicate sizes.post_block_delay_bytes sdio_junk_token)

-- The loop, with `rounds` rounds to go; `buf` is the rest of the data to send.
unfoldable pub write_blocks : Bool → Sizes → Bytes → ℕ → Bytes → ℕ → Bytes
write_blocks block_mode sizes mem token_offset buf zero = mem
write_blocks block_mode sizes mem token_offset buf (suc rounds) =
    let mem' = write_block block_mode sizes mem token_offset (take sizes.block_size buf) in
    write_blocks block_mode sizes mem' (token_offset + sizes.total_block_size)
      (drop sizes.block_size buf) rounds

-- The offset of the blocks in a write, and of the search for the first token in a read.
abbrev pub data_start : Bool → ℕ
data_start true = sdio_cmd_hdr_len + sdio_cmd53_resp_size + sdio_post_cmd53_delay_octets
data_start false = sdio_cmd_hdr_len + sdio_cmd53_resp_size

-- Everything that is sent, in memory of `full_trans_size` octets.
unfoldable pub cmd53_frame : Bool → ℕ → Bool → ℕ → ℕ → Bytes → Bytes → Bytes
cmd53_frame write func block_mode addr count buf mem =
    let sizes = cmd53_sizes write func block_mode count in
    let hdr = cmd53_header write func block_mode addr count mem in
    let junk : ℕ → Bytes = λ n. store_bytes hdr sdio_cmd_hdr_len (replicate n sdio_junk_token) in
    if write
    then write_blocks block_mode sizes (junk (data_start true - sdio_cmd_hdr_len)) (data_start true)
        buf sizes.loop_count
    else junk (length mem - sdio_cmd_hdr_len)

-- The acknowledgements of a write, block by block; `resp` begins at the current block.
unfoldable pub check_acks : Sizes → Bytes → ℕ → ℤ
check_acks sizes resp zero = etranssucc
check_acks sizes resp (suc rounds) =
    let rest = check_acks sizes (drop sizes.total_block_size resp) rounds in
    elim (cmd53_find_ack resp sizes.total_block_size) [ none ↦ minus_etranserr | some i ↦ rest ]

-- The blocks of a read are copied to the memory of `data`, from offset `dest` on; `resp` begins at
-- `ptr`.
unfoldable pub read_blocks : Sizes → Bytes → Bytes → ℕ → ℕ → ℤ × Bytes
read_blocks sizes resp mem dest zero = (etranssucc, mem)
read_blocks sizes resp mem dest (suc rounds) =
    elim (cmd53_find_token resp sizes.post_block_delay_bytes) [
      | none ↦ (minus_etranserr, mem)
      | some i ↦
          let ptr = drop i resp in
          let block = take sizes.block_size ptr in
          let crc16 =
            (get_or ptr sizes.block_size 0 * 2 ^ 8 + get_or ptr (sizes.block_size + 1) 0)
            % 2 ^ 16 in
          let rest =
            read_blocks sizes (drop (sizes.block_size + sdio_crc_read_octets) ptr)
              (store_bytes mem dest block) (dest + sizes.block_size) rounds in
          if not (crc16_check (some block) crc16) then (minus_etranserr, mem) else rest
    ]

-- What follows a transfer that went well. `mem` is the memory block of `data`, `at` its pointer.
unfoldable pub cmd53_finish : Bool → Sizes → Bytes → Bytes → ℕ → ℤ × Bytes
cmd53_finish write sizes resp mem at =
    elim (cmd_find_resp (drop sdio_cmd_hdr_len resp) sdio_cmd53_resp_size) [
      | none ↦ (minus_etranserr, mem)
      | some i ↦
          if write
          then (check_acks sizes (drop (data_start true) resp) sizes.loop_count, mem)
          else read_blocks sizes (drop (data_start false) resp) mem at sizes.loop_count
    ]

module _ {S : Type 0} (drv : Driver S) where
  -- The code, and the memory block of `data` after the command. Both buffers are asked for before
  -- either is tested.
  unfoldable pub cmd53 : Bytes → ℕ → Bool → ℕ → Bool → ℕ → ℕ → S → (ℤ × Bytes) × S
  cmd53 mem at write func block_mode addr count s =
      let sizes = cmd53_sizes write func block_mode count in
      let (full_trans, s1) = Driver.write_alloc drv sizes.full_trans_size s in
      let (resp, s2) = Driver.read_alloc drv sizes.full_trans_size s1 in
      elim full_trans [
        | none ↦ ((minus_etranserr, mem), s2)
        | some trans ↦ elim resp [
          | none ↦ ((minus_etranserr, mem), s2)
          | some buf ↦
              let frame = cmd53_frame write func block_mode addr count (drop at mem) trans in
              let ((ret, buf'), s3) = Driver.raw_read_write drv buf frame s2 in
              if not (is_zero ret)
              then ((ret, mem), s3)
              else (cmd53_finish write sizes buf' mem at, s3)
        ]
      ]
