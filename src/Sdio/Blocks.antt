-- ===== src/Sdio/Blocks.antt =====
-- The data phase of a CMD53 read (transport/sdio_over_spi.c): blocks that come in behind any number
-- of junk octets that the pause allows.
use morse_cli.Base.{
  Bool, false, not, if◌then◌else◌, is_zero, Option, none, ℤ, ℕ, ◌+◌, ◌/◌, ◌^◌, ◌<◌, ◌≡◌, Bytes,
  List, [], ◌∷◌, ◌++◌, replicate, bit_and, length, drop, some,
}
use morse_cli.Crc.{crc16_gen}
use morse_cli.Transport.{store_bytes, minus_etranserr}
use morse_cli.Sdio.{Driver}
use morse_cli.Sdio.Cmd53.{cmd53_sizes, cmd53_frame, cmd53_finish, Sizes}

-- A block as it comes in: the number of junk octets before its token, and its data. Behind the blocks
-- comes the rest of what was read.
abbrev pub Arrival : Type 0
Arrival = ℕ × Bytes

abbrev pub arrivals : List Arrival → Bytes → Bytes
arrivals [] rest = rest
arrivals ((k, block) ∷ bs) rest =
    let crc = crc16_gen block in
    replicate k 0xff
    ++ (0xfc ∷ (block ++ (crc / 2 ^ 8 ∷ bit_and crc 0xff ∷ 0xff ∷ 0xff ∷ arrivals bs rest)))

-- The memory after the blocks have been copied one behind the other.
abbrev pub stored : ℕ → Bytes → ℕ → List Arrival → Bytes
stored size mem dest [] = mem
stored size mem dest ((k, block) ∷ bs) = stored size (store_bytes mem dest block) (dest + size) bs

-- A block of the right size whose token comes within the pause.
abbrev pub InTime : Sizes → Arrival → Type 0
InTime sizes (k, block) = (k + 1 < sizes.post_block_delay_bytes) × (length block ≡ sizes.block_size)

-- The block, its CRC field, and what follows, from behind the token on.
module _ (block : Bytes) (size a b c d : ℕ) (rest : Bytes) (e : length block ≡ size) where
  abbrev behind_token : Bytes
  behind_token = block ++ (a ∷ b ∷ c ∷ d ∷ rest)

module _ {S : Type 0} (drv : Driver S) (mem : Bytes) (at func : ℕ) (block_mode : Bool)
    (addr count : ℕ) where
  abbrev pub read_sizes : Sizes
  read_sizes = cmd53_sizes false func block_mode count

  abbrev pub read_frame : Bytes → Bytes
  read_frame trans = cmd53_frame false func block_mode addr count (drop at mem) trans

  -- What follows the calls of the driver, for what each gives.
  abbrev given_run : (ℤ × Bytes) × S → (ℤ × Bytes) × S
  given_run r =
      if not (is_zero r.0.0)
      then ((r.0.0, mem), r.1)
      else (cmd53_finish false read_sizes r.0.1 mem at, r.1)

  abbrev given_read : Bytes → Option Bytes × S → (ℤ × Bytes) × S
  given_read trans r = elim r.0 [
    | none ↦ ((minus_etranserr, mem), r.1)
    | some buf ↦ given_run (drv.raw_read_write buf (read_frame trans) r.1)
  ]

  abbrev given_write : S → Option Bytes × S → (ℤ × Bytes) × S
  given_write s w =
      let (resp, s2) = drv.read_alloc read_sizes.full_trans_size w.1 in
      elim w.0 [ none ↦ ((minus_etranserr, mem), s2) | some trans ↦ given_read trans (resp, s2) ]
