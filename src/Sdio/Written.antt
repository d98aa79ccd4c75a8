-- ===== src/Sdio/Written.antt =====
-- memblock_common (transport/sdio_over_spi.c) on the bus of Sdio.Cover, section by section.
use morse_cli.Base.{
  ℕ, zero, suc, ◌+◌, ◌-◌, ◌*◌, ◌%◌, ◌/◌, ◌^◌, ◌≤◌, ◌<◌, ◌≡◌, refl, ap, ◌∙◌, sym, arith, ltb, ◌==◌,
  Bool, true, false, Bool-cases, inl, inr, pos, Option, some, List, [], ◌∷◌, ◌++◌, append_assoc,
  append-nil, bit_and,
}
use morse_cli.Base.Bits.{bit_and-mask}
use morse_cli.Transport.{TransportBuff}
use morse_cli.Sdio.Memblock.{
  current_size, Transfer, Round, next, failed, setup_keyhole, section_step, sections,
  memblock_common, first_round,
}
use morse_cli.Sdio.Sections.{
  current_size-bounds, current_size-section, current_size-aligned, current_size-max,
}
use morse_cli.Sdio.Cover.{
  Chunk, Bus, bus_cmd52, bus_cmd53, Covers, Covers-append, Covers-moved, moved, window,
  section_body-bus, block_chunk, byte_chunk, served, block_chunk-Covers, byte_chunk-Covers,
}

keyhole_window :
    (addr : ℕ)
    → addr < 2 ^ 32
    → bit_and (addr / 2 ^ 24) 0xff * 2 ^ 8 + bit_and (addr / 2 ^ 16) 0xff ≡ addr / 2 ^ 16
keyhole_window addr h =
    rw (bit_and-mask 8 0xff (addr / 2 ^ 24) refl, bit_and-mask 8 0xff (addr / 2 ^ 16) refl)
      (omega arith)

-- What a round does, and that the rest of the loop follows.
section-Covers :
    (win addr at size : ℕ)
    → win ≡ addr / 2 ^ 16
    → size % 4 ≡ 0
    → size ≤ 2 ^ 16
    → addr + size ≤ 2 ^ 32
    → (addr + size - 1) / 2 ^ 16 ≡ addr / 2 ^ 16
    → Covers addr at size (block_chunk win addr at size ++ byte_chunk win addr at size)
section-Covers win addr at size w j k m l =
    Covers-moved (block_chunk win addr at size ++ byte_chunk win addr at size) refl refl
      (omega arith)
      (Covers-append (block_chunk win addr at size) (byte_chunk win addr at size) addr at
        (size - size % 512) (size % 512) (block_chunk-Covers win addr at size w k l)
        (byte_chunk-Covers win addr at size w j k m l))

nothing_left :
    (cs : List Chunk) (addr addr' at at' n : ℕ)
    → n ≡ 0
    → Covers addr at n cs
    → Covers addr' at' n cs
nothing_left [] addr addr' at at' n e h = h
nothing_left (c ∷ cs) addr addr' at at' n e (p, q, some_octet, low, f, g, h) = absurd (omega arith)

-- The address wraps to 0 behind the last octet of the address space, where nothing is left.
next_address :
    (cs : List Chunk) (addr at n : ℕ)
    → addr + n ≤ 2 ^ 32
    → Covers (addr % 2 ^ 32) at n cs
    → Covers addr at n cs
next_address cs addr at n h c = elim (Bool-cases (ltb addr (2 ^ 32))) [
  | inl e ↦ let low : addr % 2 ^ 32 ≡ addr = ground arith in Covers-moved cs low refl refl c
  | inr e ↦ let end : n ≡ 0 = ground arith in nothing_left cs (addr % 2 ^ 32) addr at at n end c
]

-- The loop on the bus: what it leaves of the variables, and what the bus has noted.
abbrev Done : ℕ → Bool → Transfer → Bus → Type 0
Done fuel write t bus =
    (t' : Transfer) × (bus' : Bus) × (cs : List Chunk) × (sections bus_cmd52 bus_cmd53 fuel write t
        bus
      ≡ some (t', bus'))
    × (bus'.log ≡ bus.log ++ cs)
    × Covers t.chip_mem_addr t.at t.remaining cs
    × (t'.ret ≡ pos 0)
    × (t'.mem ≡ t.mem)
    × (t'.remaining ≡ 0)

abbrev Ready : ℕ → Transfer → Type 0
Ready fuel t =
    (t.remaining ≤ fuel)
    × (t.chip_mem_addr % 4 ≡ 0)
    × (t.remaining % 4 ≡ 0)
    × (t.chip_mem_addr + t.remaining ≤ 2 ^ 32)

abbrev opened : Bus → ℕ → Bus
opened bus addr = record bus {
  win0 = bit_and (addr / 2 ^ 16) 0xff;
  win1 = bit_and (addr / 2 ^ 24) 0xff;
}

section_step-bus :
    (write : Bool) (t : Transfer) (bus : Bus)
    → section_step bus_cmd52 bus_cmd53 write (record t { ret = pos 0 }) bus ≡ (
      next (moved (current_size t.chip_mem_addr t.remaining) t),
      served (opened bus t.chip_mem_addr) (current_size t.chip_mem_addr t.remaining) t,
    )
unfolding section_step setup_keyhole
section_step-bus write t bus =
    let size = current_size t.chip_mem_addr t.remaining in
    ap (λ ((t', bus') : Transfer × Bus). (next t', bus'))
      (section_body-bus write size t (opened bus t.chip_mem_addr))

sections-round :
    (fuel : ℕ) (write : Bool) (t : Transfer) (bus : Bus)
    → (t.remaining == 0) ≡ false
    → sections bus_cmd52 bus_cmd53 (suc fuel) write (record t { ret = pos 0 }) bus
      ≡ sections bus_cmd52 bus_cmd53 fuel write
          (moved (current_size t.chip_mem_addr t.remaining) t)
          (served (opened bus t.chip_mem_addr) (current_size t.chip_mem_addr t.remaining) t)
unfolding sections
sections-round fuel write t bus e = rw e (
    ap
      (λ (x : Round × Bus). elim x.0 as (λ _. Option (Transfer × Bus)) [
        | failed t' ↦ some (t', x.1)
        | next t' ↦ sections bus_cmd52 bus_cmd53 fuel write t' x.1
      ])
      (section_step-bus write t bus))

regroup : (xs ys zs ws : List Chunk) → ((xs ++ ys) ++ zs) ++ ws ≡ xs ++ ((ys ++ zs) ++ ws)
regroup xs ys zs ws = rw (append_assoc xs ys zs, append_assoc xs (ys ++ zs) ws) refl

sections-Done :
    (fuel : ℕ) (write : Bool) (t : Transfer) (bus : Bus)
    → Ready fuel t
    → Done fuel write (record t { ret = pos 0 }) bus
unfolding sections
sections-Done zero write t bus (h, k, l, m) =
    let e : (t.remaining == 0) ≡ true = ground arith in
    rw e (
      record t { ret = pos 0 },
      bus,
      [],
      refl,
      sym (append-nil bus.log),
      omega arith,
      refl,
      refl,
      omega arith,
    )
sections-Done (suc fuel) write t bus (h, k, l, m) = elim (Bool-cases (t.remaining == 0)) [
  | inl e ↦
      let nothing : t.remaining ≡ 0 = ground arith in
      rw e (
        record t { ret = pos 0 },
        bus,
        [],
        refl,
        sym (append-nil bus.log),
        nothing,
        refl,
        refl,
        nothing,
      )
  | inr e ↦
      let size = current_size t.chip_mem_addr t.remaining in
      let win = window (opened bus t.chip_mem_addr) in
      let bus1 = served (opened bus t.chip_mem_addr) size t in
      let blocks = block_chunk win t.chip_mem_addr t.at size in
      let octets = byte_chunk win t.chip_mem_addr t.at size in
      let some_left : 0 < t.remaining = ground arith in
      let (low, high) =
        current_size-bounds t.chip_mem_addr t.remaining (omega arith) some_left (omega arith) in
      let words = current_size-aligned t.chip_mem_addr t.remaining k l m some_left in
      let inside = current_size-section t.chip_mem_addr t.remaining some_left m in
      let short = current_size-max t.chip_mem_addr t.remaining some_left m in
      let covered =
        section-Covers win t.chip_mem_addr t.at size (keyhole_window t.chip_mem_addr (omega arith))
          words short (omega arith) inside in
      let (t', bus', cs, run, log, covers, ret, mem, none_left) =
        sections-Done fuel write (moved size t) bus1
          (omega arith, omega arith, omega arith, omega arith) in
      let rest =
        next_address cs (t.chip_mem_addr + size) (t.at + size) (t.remaining - size) (omega arith)
          covers in
      (
        t',
        bus',
        (blocks ++ octets) ++ cs,
        sections-round fuel write t bus e ∙ run,
        log ∙ regroup bus.log blocks octets cs,
        Covers-moved ((blocks ++ octets) ++ cs) refl refl (omega arith) (
            Covers-append (blocks ++ octets) cs t.chip_mem_addr t.at size (t.remaining - size)
              covered rest),
        ret,
        mem,
        none_left,
      )
]

-- On a bus that answers every command with 0, memblock_common of a word-aligned buffer at a
-- word-aligned address returns 0 and the buffer as it was, and its data commands, under the
-- keyhole registers of the moment, cover exactly the octets of the buffer and of the chip's memory
-- behind the address: one behind the other, each inside one 64 KiB section of the chip's memory and
-- with a count that fits the nine bits of CMD53.
pub memblock_common-Covers :
    (buff : TransportBuff) (write : Bool) (addr : ℕ) (bus : Bus)
    → addr % 4 ≡ 0
    → buff.data_len % 4 ≡ 0
    → addr + buff.data_len ≤ 2 ^ 32
    → (bus' : Bus) × (cs : List Chunk) × (memblock_common bus_cmd52 bus_cmd53 buff write addr bus
        ≡ some ((pos 0, buff), bus'))
      × (bus'.log ≡ bus.log ++ cs)
      × Covers addr buff.data_offset buff.data_len cs
unfolding memblock_common
memblock_common-Covers buff write addr bus h k l =
    let (t, bus', cs, run, log, covers, ret, mem, none_left) =
      sections-Done buff.data_len write (first_round buff addr) bus (omega arith, h, k, l) in
    let e : (t.remaining == 0) ≡ true = ground arith in
    (bus', cs, rw (memblock_common, run, e, ret, mem) refl, log, covers)
