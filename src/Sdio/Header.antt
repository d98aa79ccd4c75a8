-- ===== src/Sdio/Header.antt =====
-- The header of CMD53 (transport/sdio_over_spi.c), whatever the memory held that it is built in.
use morse_cli.Base.{
  ℕ, zero, suc, ◌+◌, ◌*◌, ◌%◌, ◌/◌, ◌^◌, ◌≤◌, ◌<◌, ◌≡◌, refl, ap, ◌∙◌, arith, Bool, Bytes, [], ◌∷◌,
  ◌++◌, bit_and, bit_or, length, take, drop, set, get_or, length-take, length-set, get_or-take,
}
use morse_cli.Transport.{store_bytes}
use morse_cli.Sdio.{prep_cmd, calc_cmd_crc_octet}
use morse_cli.Sdio.Cmd53.{cmd53_control, cmd53_header}

pub take-set : (n : ℕ) (xs : Bytes) (i v : ℕ) → take n (set xs i v) ≡ set (take n xs) i v
take-set zero xs i v = refl
take-set (suc n) [] i v = refl
take-set (suc n) (x ∷ xs) zero v = refl
take-set (suc n) (x ∷ xs) (suc i) v = ap (◌∷◌ x) (take-set n xs i v)

pub set_beyond : (xs : Bytes) (i v : ℕ) → length xs ≤ i → set xs i v ≡ xs
set_beyond [] i v h = refl
set_beyond (x ∷ xs) zero v h = absurd (omega arith)
set_beyond (x ∷ xs) (suc i) v h = ap (◌∷◌ x) (set_beyond xs i v (omega arith))

-- What stands before the place of a write stays.
pub take-store_before :
    (bs mem : Bytes) (n at : ℕ) → n ≤ at → take n (store_bytes mem at bs) ≡ take n mem
take-store_before [] mem n at h = refl
take-store_before (b ∷ bs) mem n at h =
    take-store_before bs (set mem at b) n (at + 1) (omega arith)
    ∙ take-set n mem at b
    ∙ set_beyond (take n mem) at b (omega (arith, length-take n mem))

get_or-drop_one : (xs : Bytes) (i : ℕ) → get_or (drop 1 xs) i 0 ≡ get_or xs (suc i) 0
get_or-drop_one [] i = refl
get_or-drop_one (x ∷ xs) i = refl

-- The CRC octet reads the five octets from the start bit on.
calc_cmd_crc_octet-take :
    (hdr : Bytes) → calc_cmd_crc_octet (drop 1 hdr) ≡ calc_cmd_crc_octet (drop 1 (take 7 hdr))
unfolding calc_cmd_crc_octet
calc_cmd_crc_octet-take hdr =
    let kept = λ (i : ℕ) (h : i < 7). get_or-take 7 i hdr 0 h in
    simp get_or-drop_one (
      rw
        (
          kept 1 (omega arith),
          kept 2 (omega arith),
          kept 3 (omega arith),
          kept 4 (omega arith),
          kept 5 (omega arith),
        )
        refl)

abbrev cmd53_octets : Bool → ℕ → Bool → ℕ → ℕ → Bytes
cmd53_octets write func block_mode addr count =
    let low = bit_and addr 0xffff in
    (2 ^ 6 + 53)
    ∷ cmd53_control write func block_mode addr
    ∷ low / 2 ^ 7 % 2 ^ 8
    ∷ bit_or (low * 2 % 2 ^ 8) (bit_and (count / 2 ^ 8) 1)
    ∷ count % 2 ^ 8
    ∷ []

abbrev pub cmd53_header_octets : Bool → ℕ → Bool → ℕ → ℕ → Bytes
cmd53_header_octets write func block_mode addr count =
    let octets = cmd53_octets write func block_mode addr count in
    0xff ∷ (octets ++ (calc_cmd_crc_octet octets ∷ []))

-- The writes up to the CRC on seven octets: what is written behind them is not seen.
abbrev header_writes : Bytes → ℕ → ℕ → ℕ → ℕ → Bytes
header_writes pre c d e f = set (set (set (set (prep_cmd 53 pre) 2 c) 3 d) 4 e) 5 f

pub header_sets :
    (pre : Bytes) (c d e f : ℕ)
    → length pre ≡ 7
    → header_writes pre c d e f ≡ 0xff ∷ 0x75 ∷ c ∷ d ∷ e ∷ f ∷ 1 ∷ []
unfolding prep_cmd
header_sets (p ∷ q ∷ r ∷ s ∷ t ∷ u ∷ v ∷ []) c d e f h = refl
header_sets (p ∷ q ∷ r ∷ s ∷ t ∷ u ∷ v ∷ w ∷ pre) c d e f h = absurd (omega arith)
header_sets (p ∷ q ∷ r ∷ s ∷ t ∷ u ∷ []) c d e f h = absurd (omega arith)
header_sets (p ∷ q ∷ r ∷ s ∷ t ∷ []) c d e f h = absurd (omega arith)
header_sets (p ∷ q ∷ r ∷ s ∷ []) c d e f h = absurd (omega arith)
header_sets (p ∷ q ∷ r ∷ []) c d e f h = absurd (omega arith)
header_sets (p ∷ q ∷ []) c d e f h = absurd (omega arith)
header_sets (p ∷ []) c d e f h = absurd (omega arith)
header_sets [] c d e f h = absurd (omega arith)

header_writes-take :
    (mem : Bytes) (c d e f : ℕ)
    → 7 ≤ length mem
    → take 7 (header_writes mem c d e f) ≡ 0xff ∷ 0x75 ∷ c ∷ d ∷ e ∷ f ∷ 1 ∷ []
unfolding prep_cmd
header_writes-take mem c d e f h =
    simp take-set (header_sets (take 7 mem) c d e f (omega (arith, length-take 7 mem)))

-- The header, whatever the memory held.
pub cmd53_header-take :
    (write : Bool) (func : ℕ) (block_mode : Bool) (addr count : ℕ) (mem : Bytes)
    → 7 ≤ length mem
    → take 7 (cmd53_header write func block_mode addr count mem)
      ≡ cmd53_header_octets write func block_mode addr count
unfolding cmd53_header calc_cmd_crc_octet
cmd53_header-take write func block_mode addr count mem h =
    let c = cmd53_control write func block_mode addr in
    let d = bit_and addr 0xffff / 2 ^ 7 % 2 ^ 8 in
    let e = bit_or (bit_and addr 0xffff * 2 % 2 ^ 8) (bit_and (count / 2 ^ 8) 1) in
    let f = count % 2 ^ 8 in
    let before = header_writes-take mem c d e f h in
    take-set 7 (header_writes mem c d e f) 6
      (calc_cmd_crc_octet (drop 1 (header_writes mem c d e f)))
    ∙ rw (calc_cmd_crc_octet-take (header_writes mem c d e f), before) refl

pub length-cmd53_header :
    (write : Bool) (func : ℕ) (block_mode : Bool) (addr count : ℕ) (mem : Bytes)
    → length (cmd53_header write func block_mode addr count mem) ≡ length mem
unfolding cmd53_header prep_cmd
length-cmd53_header write func block_mode addr count mem = simp length-set refl
