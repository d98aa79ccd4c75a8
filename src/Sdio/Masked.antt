-- ===== src/Sdio/Masked.antt =====
-- The codes of the commands inside memblock_common (transport/sdio_over_spi.c).
use morse_cli.Base.{
  ℕ, zero, suc, ◌+◌, ◌%◌, ◌/◌, ◌^◌, ◌≤◌, ◌<◌, ◌≡◌, ◌≢◌, refl, ap, arith, ◌==◌, bit_and, Bool, true,
  false, ℤ, pos, Bytes, some, is_zero,
}
use morse_cli.Transport.{TransportBuff}
use morse_cli.Sdio.{fn_max_block_size}
use morse_cli.Sdio.Memblock.{
  current_size, Transfer, setup_keyhole, byte_part, section_step, section_body, sections,
  sdio_func_reg, memblock_common, first_round, left_buffer,
}
use morse_cli.Sdio.Sections.{section_base}
use morse_cli.Sdio.Enough.{section_body-progress}

one_section :
    (addr remaining : ℕ)
    → addr < 2 ^ 32
    → addr % 2 ^ 16 + remaining ≤ 2 ^ 16
    → current_size addr remaining ≡ remaining
unfolding current_size
one_section addr remaining h k = rw (section_base addr h) (ground arith)

module _ {S : Type 0} (cmd52 : Bool → ℕ → ℕ → ℕ → S → ℤ × S)
    (cmd53 : Bytes → ℕ → Bool → ℕ → Bool → ℕ → ℕ → S → (ℤ × Bytes) × S)
    (cmd52_works : (write : Bool) (func addr octet : ℕ) (s : S)
      → (cmd52 write func addr octet s).0 ≡ pos 0)
    (octets_work : (mem : Bytes) (at : ℕ) (write : Bool) (func addr count : ℕ) (s : S)
      → (cmd53 mem at write func false addr count s).0.0 ≡ pos 0) where
  setup_keyhole-works : (addr size : ℕ) (s : S) → (setup_keyhole cmd52 cmd53 addr size s).0 ≡ pos 0
  unfolding setup_keyhole
  setup_keyhole-works addr size s =
      let (ret0, s0) = cmd52 true sdio_func_reg 0x10000 (bit_and (addr / 2 ^ 16) 0xff) s in
      let (ret1, s1) = cmd52 true sdio_func_reg 0x10001 (bit_and (addr / 2 ^ 24) 0xff) s0 in
      let first = cmd52_works true sdio_func_reg 0x10000 (bit_and (addr / 2 ^ 16) 0xff) s in
      let second = cmd52_works true sdio_func_reg 0x10001 (bit_and (addr / 2 ^ 24) 0xff) s0 in
      rw (first, second) (cmd52_works true sdio_func_reg 0x10002 (bit_and size 0x3) s1)

  byte_part-works :
      (write : Bool) (size : ℕ) (t : Transfer) (s : S)
      → size % 512 ≢ 0
      → (byte_part cmd52 cmd53 write size t s).0.ret ≡ pos 0
  unfolding byte_part fn_max_block_size
  byte_part-works write size t s h =
      let e : (size % 512 == 0) ≡ false = ground arith in rw e (octets_work _ _ _ _ _ _ _)

  section_body-works :
      (write : Bool) (size : ℕ) (t : Transfer) (s : S)
      → size % 512 ≢ 0
      → (section_body cmd52 cmd53 write size t s).0.ret ≡ pos 0
  unfolding section_body
  section_body-works write size t s h = byte_part-works write size _ _ h

  sections-done :
      (fuel : ℕ) (write : Bool) (t : Transfer) (s : S)
      → (t.remaining == 0) ≡ true
      → sections cmd52 cmd53 fuel write t s ≡ some (t, s)
  unfolding sections
  sections-done zero write t s e = rw e refl
  sections-done (suc fuel) write t s e = rw e refl

  sections-one :
      (fuel : ℕ) (write : Bool) (t : Transfer) (s : S)
      → 0 < fuel
      → t.chip_mem_addr < 2 ^ 32
      → t.chip_mem_addr % 2 ^ 16 + t.remaining ≤ 2 ^ 16
      → t.remaining % 512 ≢ 0
      → (t' : Transfer) × (s' : S) × (sections cmd52 cmd53 fuel write t s ≡ some (t', s'))
        × (t'.ret ≡ pos 0)
  unfolding sections section_step
  sections-one zero write t s f h k l = absurd (omega arith)
  sections-one (suc fuel) write t s f h k l =
      let size = current_size t.chip_mem_addr t.remaining in
      let whole : size ≡ t.remaining = one_section t.chip_mem_addr t.remaining h k in
      let (ret, s0) = setup_keyhole cmd52 cmd53 t.chip_mem_addr 2 s in
      let (t1, s1) = section_body cmd52 cmd53 write size (record t { ret = ret }) s0 in
      let some_left : (t.remaining == 0) ≡ false = ground arith in
      let works : is_zero ret ≡ true = ap is_zero (setup_keyhole-works t.chip_mem_addr 2 s) in
      let (rest, low) = section_body-progress cmd52 cmd53 write size (record t { ret = ret }) s0 in
      let none_left : t1.remaining ≡ 0 = omega arith in
      let ended : (t1.remaining == 0) ≡ true = ground arith in
      let tail : size % 512 ≢ 0 = λ e. l (omega arith) in
      (
        t1,
        s1,
        rw (some_left, works, section_step, works) (sections-done fuel write t1 s1 ended),
        section_body-works write size (record t { ret = ret }) s0 tail,
      )

  -- Where the keyhole registers and the octet-mode commands work, memblock_common returns 0 for a
  -- buffer that lies in one 64 KiB section and is no whole number of blocks, whatever the block-mode
  -- commands return.
  pub memblock_common-masked :
      (buff : TransportBuff) (write : Bool) (addr : ℕ) (s : S)
      → addr < 2 ^ 32
      → addr % 2 ^ 16 + buff.data_len ≤ 2 ^ 16
      → buff.data_len % 512 ≢ 0
      → (buff' : TransportBuff) × (s' : S) × (memblock_common cmd52 cmd53 buff write addr s
          ≡ some ((pos 0, buff'), s'))
  unfolding memblock_common
  memblock_common-masked buff write addr s h k l =
      let some_left : 0 < buff.data_len = ground arith in
      let (t, s', run, ret) =
        sections-one buff.data_len write (first_round buff addr) s some_left h k l in
      (left_buffer buff t, s', rw (memblock_common, run, ret) refl)
