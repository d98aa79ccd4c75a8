-- ===== src/Sdio/Memblock.antt =====
-- Registers and blocks of chip memory: the keyhole registers hold the upper half of the address,
-- so a transfer is split at every 64 KiB boundary (transport/sdio_over_spi.c).
use morse_cli.Base.{
  ℕ, zero, suc, ◌+◌, ◌-◌, ◌*◌, ◌%◌, ◌/◌, ◌^◌, ◌==◌, bit_and, Bool, true, false, not, ltb,
  if◌then◌else◌, Option, none, some, ℤ, is_zero, Bytes, [], ◌∷◌, get_or,
}
use morse_cli.Transport.{TransportBuff, slice, store_bytes, etranssucc, minus_etranserr}
use morse_cli.Sdio.{fn_max_block_size}

-- align_size of utilities.h
unfoldable pub align_size : ℕ → ℕ → ℕ
align_size unaligned_size alignment_octets =
    let remainder = unaligned_size % alignment_octets in
    if ltb 0 alignment_octets
    then (if ltb 0 remainder then unaligned_size + alignment_octets - remainder else unaligned_size)
    else unaligned_size

abbrev pub sdio_func_reg : ℕ
sdio_func_reg = 2

abbrev pub sdio_func_mem_block : ℕ
sdio_func_mem_block = 2

-- The octets of the section that begins at `addr`: up to the next boundary, or all that remain.
-- The sum of the boundary is computed in 32 bits, the difference in 64.
unfoldable pub current_size : ℕ → ℕ → ℕ
current_size addr remaining =
    let section_end = (bit_and addr 0xffff0000 + 0x10000) % 2 ^ 32 in
    let room = (section_end + 2 ^ 64 - addr) % 2 ^ 64 in
    if ltb room remaining then room else remaining

-- The variables of the loop: the code, the memory block of `buff` with the offset of its data
-- pointer, the address, and the octets to go.
pub record Transfer : Type 0 where
  pub ret : ℤ
  pub mem : Bytes
  pub at : ℕ
  pub chip_mem_addr : ℕ
  pub remaining : ℕ

-- A round goes on, or the function has returned.
pub data Round : Type 0 where
  next : Transfer → Round
  failed : Transfer → Round

-- What the function leaves in the buffer.
abbrev pub left_buffer : TransportBuff → Transfer → TransportBuff
left_buffer buff t = record buff {
  memblock = t.mem;
  data_offset = if t.remaining == 0 then buff.data_offset else t.at;
}

abbrev pub first_round : TransportBuff → ℕ → Transfer
first_round buff addr = record {
  ret = etranssucc;
  mem = buff.memblock;
  at = buff.data_offset;
  chip_mem_addr = addr;
  remaining = buff.data_len;
}

-- The commands as the loop uses them: cmd52 for write, func, addr and the octet, and cmd53 for
-- data, write, func, block_mode, addr and count.
module _ {S : Type 0} (cmd52 : Bool → ℕ → ℕ → ℕ → S → ℤ × S)
    (cmd53 : Bytes → ℕ → Bool → ℕ → Bool → ℕ → ℕ → S → (ℤ × Bytes) × S) where
  unfoldable pub setup_keyhole : ℕ → ℕ → S → ℤ × S
  setup_keyhole addr size s =
      let (ret0, s0) = cmd52 true sdio_func_reg 0x10000 (bit_and (addr / 2 ^ 16) 0xff) s in
      let (ret1, s1) = cmd52 true sdio_func_reg 0x10001 (bit_and (addr / 2 ^ 24) 0xff) s0 in
      let (ret2, s2) = cmd52 true sdio_func_reg 0x10002 (bit_and size 0x3) s1 in
      if not (is_zero ret0)
      then (ret0, s0)
      else if not (is_zero ret1)
      then (ret1, s1)
      else (ret2, s2)

  -- The two commands of a section; one that moves nothing is left out.
  unfoldable pub block_part : Bool → ℕ → Transfer → S → Transfer × S
  block_part write size t s =
      let ((ret, mem), s') =
        cmd53 t.mem t.at write sdio_func_mem_block true t.chip_mem_addr
          (size / fn_max_block_size sdio_func_mem_block % 2 ^ 16) s in
      if size / fn_max_block_size sdio_func_mem_block == 0
      then (t, s)
      else (record t { ret = ret; mem = mem }, s')

  unfoldable pub byte_part : Bool → ℕ → Transfer → S → Transfer × S
  byte_part write size t s =
      let byte_mode_count = size % fn_max_block_size sdio_func_mem_block in
      let ((ret, mem), s') =
        cmd53 t.mem t.at write sdio_func_mem_block false
          ((t.chip_mem_addr + size - byte_mode_count) % 2 ^ 32)
          (align_size byte_mode_count 4 % 2 ^ 16) s in
      if byte_mode_count == 0 then (t, s) else (record t { ret = ret; mem = mem }, s')

  -- The round behind the keyhole registers: the commands, and the variables moved on.
  unfoldable pub section_body : Bool → ℕ → Transfer → S → Transfer × S
  section_body write size t s =
      let byte_mode_count = size % fn_max_block_size sdio_func_mem_block in
      let (t1, s1) = block_part write size t s in
      let (t2, s2) =
        byte_part write size (record t1 { at = t1.at + (size - byte_mode_count) }) s1 in
      (
        record t2 {
          at = t2.at + byte_mode_count;
          chip_mem_addr = (t2.chip_mem_addr + size) % 2 ^ 32;
          remaining = t2.remaining - size;
        },
        s2,
      )

  -- One round of the loop.
  unfoldable pub section_step : Bool → Transfer → S → Round × S
  section_step write t s =
      let (ret, s0) = setup_keyhole t.chip_mem_addr 2 s in
      let t0 = record t { ret = ret } in
      let (t1, s1) = section_body write (current_size t.chip_mem_addr t.remaining) t0 s0 in
      if not (is_zero ret) then (failed t0, s0) else (next t1, s1)

  -- The loop, with fuel; `none` where the fuel is out.
  unfoldable pub sections : ℕ → Bool → Transfer → S → Option (Transfer × S)
  sections zero write t s = if t.remaining == 0 then some (t, s) else none
  sections (suc fuel) write t s =
      if t.remaining == 0
      then some (t, s)
      else (let (round, s') = section_step write t s in
          elim round [ failed t' ↦ some (t', s') | next t' ↦ sections fuel write t' s' ])

  -- memblock_common, for a buffer: the code, the memory block and the data pointer after it. The
  -- pointer goes back to where it was only at the loop's own end. Each round moves an octet or more.
  unfoldable pub memblock_common : TransportBuff → Bool → ℕ → S → Option ((ℤ × TransportBuff) × S)
  memblock_common buff write addr s =
      elim (sections buff.data_len write (first_round buff addr) s) [
        | none ↦ none
        | some (t, s') ↦ some ((t.ret, left_buffer buff t), s')
      ]

-- The four octets of a register, the lowest first (htole32 and le32toh).
unfoldable pub le32_octets : ℕ → Bytes
le32_octets v = v % 2 ^ 8 ∷ v / 2 ^ 8 % 2 ^ 8 ∷ v / 2 ^ 16 % 2 ^ 8 ∷ v / 2 ^ 24 % 2 ^ 8 ∷ []

unfoldable pub le32_value : Bytes → ℕ
le32_value b = get_or b 0 0 + get_or b 1 0 * 2 ^ 8 + get_or b 2 0 * 2 ^ 16 + get_or b 3 0 * 2 ^ 24

-- The transport of the SPI driver: read_alloc and write_alloc with the buffers that they make.
module _ {S : Type 0} (cmd52 : Bool → ℕ → ℕ → ℕ → S → ℤ × S)
    (cmd53 : Bytes → ℕ → Bool → ℕ → Bool → ℕ → ℕ → S → (ℤ × Bytes) × S)
    (alloc : ℕ → S → Option TransportBuff × S) where
  -- `usable` is the test of the transport and its operations.
  unfoldable pub read_reg_32bit : Bool → ℕ → S → Option ((ℤ × Option ℕ) × S)
  read_reg_32bit usable addr s =
      let (read, s1) = alloc 4 s in
      if not usable then some ((minus_etranserr, none), s) else elim read [
        | none ↦ some ((minus_etranserr, none), s1)
        | some buff ↦ elim (memblock_common cmd52 cmd53 buff false addr s1) [
          | none ↦ none
          | some ((ret, buff'), s2) ↦
              if not (is_zero ret)
              then some ((ret, none), s2)
              else some
                  ((etranssucc, some (le32_value (slice buff'.memblock buff'.data_offset 4))), s2)
        ]
      ]

  unfoldable pub write_reg_32bit : Bool → ℕ → ℕ → S → Option (ℤ × S)
  write_reg_32bit usable addr value s =
      let (write, s1) = alloc 4 s in
      if not usable then some (minus_etranserr, s) else elim write [
        | none ↦ some (minus_etranserr, s1)
        | some buff ↦
            let mem = store_bytes buff.memblock buff.data_offset (le32_octets value) in
            elim (memblock_common cmd52 cmd53 (record buff { memblock = mem }) true addr s1) [
              | none ↦ none
              | some ((ret, buff'), s2) ↦ some (ret, s2)
            ]
      ]
