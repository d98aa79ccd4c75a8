-- ===== src/Sdio/Enough.antt =====
-- The fuel of memblock_common (transport/sdio_over_spi.c) against the octets that remain.
use morse_cli.Base.{
  ℕ, zero, suc, ◌+◌, ◌-◌, ◌%◌, ◌^◌, ◌≤◌, ◌<◌, ◌≡◌, refl, arith, ◌==◌, Bool, true, Bool-cases, inl,
  inr, ℤ, Bytes, some, is_zero,
}
use morse_cli.Transport.{TransportBuff}
use morse_cli.Sdio.Memblock.{
  current_size, Transfer, Round, next, failed, setup_keyhole, block_part, byte_part, section_step,
  section_body, sdio_func_mem_block, sections, memblock_common, first_round, left_buffer,
}
use morse_cli.Sdio.{fn_max_block_size}
use morse_cli.Sdio.Sections.{current_size-bounds}

module _ {S : Type 0} (cmd52 : Bool → ℕ → ℕ → ℕ → S → ℤ × S)
    (cmd53 : Bytes → ℕ → Bool → ℕ → Bool → ℕ → ℕ → S → (ℤ × Bytes) × S) where
  -- What a round that goes on leaves to do.
  abbrev Progress : Transfer → Round → Type 0
  Progress t (failed t') = Unit
  Progress t (next t') =
      (t'.remaining ≡ t.remaining - current_size t.chip_mem_addr t.remaining)
      × (t'.chip_mem_addr < 2 ^ 32)

  block_part-keeps :
      (write : Bool) (size : ℕ) (t : Transfer) (s : S)
      → ((block_part cmd52 cmd53 write size t s).0.remaining ≡ t.remaining)
        × ((block_part cmd52 cmd53 write size t s).0.chip_mem_addr ≡ t.chip_mem_addr)
  unfolding block_part
  block_part-keeps write size t s = ground arith

  byte_part-keeps :
      (write : Bool) (size : ℕ) (t : Transfer) (s : S)
      → ((byte_part cmd52 cmd53 write size t s).0.remaining ≡ t.remaining)
        × ((byte_part cmd52 cmd53 write size t s).0.chip_mem_addr ≡ t.chip_mem_addr)
  unfolding byte_part
  byte_part-keeps write size t s = ground arith

  pub section_body-progress :
      (write : Bool) (size : ℕ) (t : Transfer) (s : S)
      → ((section_body cmd52 cmd53 write size t s).0.remaining ≡ t.remaining - size)
        × ((section_body cmd52 cmd53 write size t s).0.chip_mem_addr < 2 ^ 32)
  unfolding section_body
  section_body-progress write size t s =
      let (t1, s1) = block_part cmd52 cmd53 write size t s in
      let n = size % fn_max_block_size sdio_func_mem_block in
      let (rem1, addr1) = block_part-keeps write size t s in
      let (rem2, addr2) = byte_part-keeps write size (record t1 { at = t1.at + (size - n) }) s1 in
      (omega arith, omega arith)

  section_step-Progress :
      (write : Bool) (t : Transfer) (s : S) → Progress t (section_step cmd52 cmd53 write t s).0
  unfolding section_step
  section_step-Progress write t s =
      let (ret, s0) = setup_keyhole cmd52 cmd53 t.chip_mem_addr 2 s in
      elim (Bool-cases (is_zero ret)) [
        | inl e ↦ rw e (
            section_body-progress write (current_size t.chip_mem_addr t.remaining)
              (record t { ret = ret }) s0)
        | inr e ↦ rw e tt
      ]

  -- A round that goes on has less to do, so the rest of the fuel is enough.
  continues :
      (fuel : ℕ) (write : Bool) (t : Transfer)
      → ((t' : Transfer) (s' : S)
          → t'.remaining ≤ fuel
          → t'.chip_mem_addr < 2 ^ 32
          → t'.remaining ≤ 2 ^ 32
          → (r : Transfer × S) × (sections cmd52 cmd53 fuel write t' s' ≡ some r))
      → t.remaining ≤ suc fuel
      → t.chip_mem_addr < 2 ^ 32
      → t.remaining ≤ 2 ^ 32
      → 0 < t.remaining
      → (round : Round) (s : S) → Progress t round
      → (r : Transfer × S) × (elim round [
        | failed t' ↦ some (t', s)
        | next t' ↦ sections cmd52 cmd53 fuel write t' s
      ]
          ≡ some r)
  continues fuel write t ih h k l m (failed t') s p = ((t', s), refl)
  continues fuel write t ih h k l m (next t') s (p, q) =
      let (low, high) = current_size-bounds t.chip_mem_addr t.remaining k m l in
      ih t' s (omega arith) q (omega arith)

  -- With as much fuel as there are octets the loop comes to its end.
  sections-ends :
      (fuel : ℕ) (write : Bool) (t : Transfer) (s : S)
      → t.remaining ≤ fuel
      → t.chip_mem_addr < 2 ^ 32
      → t.remaining ≤ 2 ^ 32
      → (r : Transfer × S) × (sections cmd52 cmd53 fuel write t s ≡ some r)
  unfolding sections
  sections-ends zero write t s h k l =
      let e : (t.remaining == 0) ≡ true = ground arith in rw e ((t, s), refl)
  sections-ends (suc fuel) write t s h k l = elim (Bool-cases (t.remaining == 0)) [
    | inl e ↦ rw e ((t, s), refl)
    | inr e ↦ rw e (
        continues fuel write t (λ t' s'. sections-ends fuel write t' s') h k l (ground arith)
          (section_step cmd52 cmd53 write t s).0 (section_step cmd52 cmd53 write t s).1
          (section_step-Progress write t s))
  ]

  -- memblock_common returns, with a code and the buffer, whatever the commands do, for an address
  -- below 2 ^ 32 and a length of at most 2 ^ 32.
  pub memblock_common-returns :
      (buff : TransportBuff) (write : Bool) (addr : ℕ) (s : S)
      → addr < 2 ^ 32
      → buff.data_len ≤ 2 ^ 32
      → (r : (ℤ × TransportBuff) × S) × (memblock_common cmd52 cmd53 buff write addr s ≡ some r)
  unfolding memblock_common
  memblock_common-returns buff write addr s h k =
      let ((t, s'), e) =
        sections-ends buff.data_len write (first_round buff addr) s (omega arith) h k in
      rw (memblock_common, e) (((t.ret, left_buffer buff t), s'), refl)
