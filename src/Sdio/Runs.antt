-- ===== src/Sdio/Runs.antt =====
-- The SDIO commands on concrete buffers.
use morse_cli.Base.{
  ◌++◌, Bool, Bytes, suc, if◌then◌else◌, ℕ, ◌+◌, ◌*◌, ◌^◌, ◌≤◌, ◌≡◌, refl, true, false, arith, [],
  ◌∷◌, List, replicate, length, ℤ, pos, some,
}
use morse_cli.Transport.{TransportBuff, minus_etranserr}
use morse_cli.Sdio.Command.{cmd52_frame}
use morse_cli.Sdio.Cmd53.{Sizes, cmd53_sizes, cmd53_header, cmd53_frame}
use morse_cli.Sdio.Memblock.{memblock_common}
use morse_cli.Sdio.Enough.{memblock_common-returns}
use morse_cli.Sdio.Cover.{Bus, Chunk, Covers, bus_cmd52, bus_cmd53}
use morse_cli.Sdio.Written.{memblock_common-Covers}
use morse_cli.Sdio.Layout.{cmd53_frame-octets, cmd53_write_octets}
use morse_cli.Sdio.Fields.{argument, cmd53_header-argument, cmd52_frame-argument}
use morse_cli.Sdio.Masked.{memblock_common-masked}
use morse_cli.Sdio.Response.{cmd_find_resp-answer}
use morse_cli.Sdio.{Driver, cmd_find_resp}
use morse_cli.Sdio.Blocks.{Arrival, arrivals}

-- Eight octets at the end of a section and at the start of the next.
abbrev words : TransportBuff
words = record {
  memblock = 1 ∷ 2 ∷ 3 ∷ 4 ∷ 5 ∷ 6 ∷ 7 ∷ 8 ∷ [];
  capacity = 8;
  data_offset = 0;
  data_len = 8;
}

abbrev quiet : Bus
quiet = record { win0 = 0; win1 = 0; log = [] }

memblock_common-Covers_example :
    (bus' : Bus) × (cs : List Chunk) × (memblock_common bus_cmd52 bus_cmd53 words true 0x1fffc quiet
      ≡ some ((pos 0, words), bus'))
    × (bus'.log ≡ cs)
    × Covers 0x1fffc 0 8 cs
memblock_common-Covers_example =
    memblock_common-Covers words true 0x1fffc quiet refl refl (omega arith)

memblock_common-returns_example :
    (r : (ℤ × TransportBuff) × Bus) × (memblock_common bus_cmd52 bus_cmd53 words true 0x1fffc quiet
      ≡ some r)
memblock_common-returns_example =
    memblock_common-returns bus_cmd52 bus_cmd53 words true 0x1fffc quiet (omega arith) (omega arith)

sized : length {A = ℕ} (replicate 52 7) ≡ (cmd53_sizes true 2 false 4).full_trans_size
unfolding cmd53_sizes
sized = refl

fits : (cmd53_sizes true 2 false 4).loop_count * (cmd53_sizes true 2 false 4).block_size ≤ 4
unfolding cmd53_sizes
fits = omega arith

cmd53_frame-octets_example :
    cmd53_frame true 2 false 0xfffc 4 (1 ∷ 2 ∷ 3 ∷ 4 ∷ []) (replicate 52 7)
    ≡ cmd53_write_octets 2 false 0xfffc 4 (1 ∷ 2 ∷ 3 ∷ 4 ∷ [])
cmd53_frame-octets_example =
    cmd53_frame-octets 2 false 0xfffc 4 (1 ∷ 2 ∷ 3 ∷ 4 ∷ []) (replicate 52 7) sized fits

cmd53_header-argument_example :
    argument (cmd53_header true 2 true 0x2fffc 3 (replicate 20 0))
    ≡ 2 ^ 31 + 2 * 2 ^ 28 + 2 ^ 27 + 2 ^ 26 + 0xfffc * 2 ^ 9 + 3
cmd53_header-argument_example =
    cmd53_header-argument true 2 true 0x2fffc 3 (replicate 20 0) (omega arith) (omega arith)
      (omega arith)

cmd52_frame-argument_example :
    argument (cmd52_frame true 2 0x10001 0x54 (replicate 20 0))
    ≡ 2 ^ 31 + 2 * 2 ^ 28 + 0x10001 * 2 ^ 9 + 0x54
cmd52_frame-argument_example =
    cmd52_frame-argument true 2 0x10001 0x54 (replicate 20 0) (omega arith) (omega arith)
      (omega arith) (omega arith)

-- Two blocks of function 1, the second behind three junk octets.
abbrev sizes : Sizes
sizes = cmd53_sizes false 1 true 2

abbrev two_blocks : List Arrival
two_blocks =
    (0, 1 ∷ 2 ∷ 3 ∷ 4 ∷ 5 ∷ 6 ∷ 7 ∷ 8 ∷ []) ∷ (3, 9 ∷ 10 ∷ 11 ∷ 12 ∷ 13 ∷ 14 ∷ 15 ∷ 16 ∷ []) ∷ []

-- The command itself comes back as junk, and then a success.
abbrev head : Bytes
head = replicate 9 0xff ++ (0 ∷ 0xff ∷ [])

abbrev junk : Bytes
junk = replicate 55 0xff

abbrev card : Driver ℕ
card = record {
  write_alloc = λ n s. (some (replicate n 0), s);
  read_alloc = λ n s. (some (replicate n 0), s);
  raw_read_write = λ buf frame s. ((pos 0, head ++ arrivals two_blocks junk), suc s);
}

-- A driver on which block mode fails, and everything else works.
abbrev fine_cmd52 : Bool → ℕ → ℕ → ℕ → ℕ → ℤ × ℕ
fine_cmd52 write func addr octet s = (pos 0, s)

abbrev no_blocks : Bytes → ℕ → Bool → ℕ → Bool → ℕ → ℕ → ℕ → (ℤ × Bytes) × ℕ
no_blocks mem at write func block_mode addr count s =
    ((if block_mode then minus_etranserr else pos 0, mem), suc s)

-- One block and a word.
abbrev block_and_word : TransportBuff
block_and_word = record {
  memblock = replicate 516 0;
  capacity = 516;
  data_offset = 0;
  data_len = 516;
}

memblock_common-masked_example :
    (buff' : TransportBuff) × (s' : ℕ) × (memblock_common fine_cmd52 no_blocks block_and_word true
        0x10000 0
      ≡ some ((pos 0, buff'), s'))
memblock_common-masked_example =
    memblock_common-masked fine_cmd52 no_blocks (λ write func addr octet s. refl)
      (λ mem at write func addr count s. refl) block_and_word true 0x10000 0 (omega arith)
      (omega arith) (λ e. omega arith)

cmd_find_resp-answer_example : cmd_find_resp (0xff ∷ 0xfe ∷ 0 ∷ 0 ∷ 0xff ∷ []) 13 ≡ some 4
cmd_find_resp-answer_example =
    cmd_find_resp-answer (0xff ∷ 0xfe ∷ []) (0 ∷ 0xff ∷ []) 0 13 (refl, (refl, tt)) refl
      (omega arith)
