-- ===== src/Sdio/Fields.antt =====
-- The fields of the 32 bits that follow the command octet, as the SDIO commands are described in
-- transport/sdio_over_spi.c: R/W, function, address, and the octet or the count.
use morse_cli.Base.{
  ℕ, ◌+◌, ◌*◌, ◌%◌, ◌/◌, ◌^◌, ◌≤◌, ◌<◌, ◌≡◌, refl, ap, ◌∙◌, sym, arith, Bool, true, false,
  if◌then◌else◌, Bytes, [], ◌∷◌, replicate, bit_and, bit_or, length, take, drop, set, get_or,
  length-take, get_or-take,
}
use morse_cli.Base.Bits.{bit_and-mask, bit_and-one, bit_or-bit}
use morse_cli.Base.Masks.{bit_or-fields, bit_or-fields'}
use morse_cli.Sdio.{prep_cmd, calc_cmd_crc_octet}
use morse_cli.Sdio.Command.{cmd52_frame, finish_header}
use morse_cli.Sdio.Cmd53.{cmd53_control, cmd53_header}
use morse_cli.Sdio.Header.{cmd53_header-take, take-set, set_beyond, take-store_before}

abbrev pub argument : Bytes → ℕ
argument frame =
    get_or frame 2 0 * 2 ^ 24
    + get_or frame 3 0 * 2 ^ 16
    + get_or frame 4 0 * 2 ^ 8
    + get_or frame 5 0

abbrev pub bit : Bool → ℕ
bit b = if b then 1 else 0

argument-take : (frame : Bytes) → argument (take 7 frame) ≡ argument frame
argument-take frame =
    let kept = λ (i : ℕ) (h : i < 7). get_or-take 7 i frame 0 h in
    rw (kept 2 (omega arith), kept 3 (omega arith), kept 4 (omega arith), kept 5 (omega arith)) refl

-- The octet of R/W and function, under the bits that stand below them.
control_top :
    (write : Bool) (func : ℕ)
    → func < 8
    → bit_or (func * 2 ^ 4 % 2 ^ 8) (if write then 2 ^ 7 else 0) ≡ (bit write * 8 + func) * 2 ^ 4
control_top true func h =
    let whole : func * 2 ^ 4 % 2 ^ 8 ≡ func * 2 ^ 4 = omega arith in
    rw whole (bit_or-fields' 7 1 (func * 2 ^ 4) (omega arith) ∙ omega arith)
control_top false func h =
    let whole : func * 2 ^ 4 % 2 ^ 8 ≡ func * 2 ^ 4 = omega arith in
    rw whole (bit_or-fields' 7 0 (func * 2 ^ 4) (omega arith) ∙ omega arith)

control_block :
    (q : ℕ) (block_mode : Bool)
    → bit_or (bit_or (q * 2 ^ 4) (if block_mode then 2 ^ 3 else 0)) (2 ^ 2)
      ≡ (q * 4 + bit block_mode * 2 + 1) * 2 ^ 2
control_block q true =
    let block : bit_or (q * 2 ^ 4) (2 ^ 3) ≡ (q * 2 + 1) * 2 ^ 3 =
      bit_or-fields 4 q 8 (omega arith) ∙ omega arith in
    rw block (bit_or-fields 3 (q * 2 + 1) 4 (omega arith) ∙ omega arith)
control_block q false =
    let block : bit_or (q * 2 ^ 4) 0 ≡ q * 2 * 2 ^ 3 =
      bit_or-fields 4 q 0 (omega arith) ∙ omega arith in
    rw block (bit_or-fields 3 (q * 2) 4 (omega arith) ∙ omega arith)

cmd53_control-value :
    (write : Bool) (func : ℕ) (block_mode : Bool) (addr : ℕ)
    → func < 8
    → cmd53_control write func block_mode addr
      ≡ bit write * 2 ^ 7 + func * 2 ^ 4 + bit block_mode * 2 ^ 3 + 2 ^ 2 + addr % 2 ^ 16 / 2 ^ 15
unfolding cmd53_control
cmd53_control-value write func block_mode addr h =
    let q = bit write * 8 + func in
    rw (control_top write func h, control_block q block_mode, bit_and-mask 16 0xffff addr refl)
      (bit_or-fields 2 (q * 4 + bit block_mode * 2 + 1) (addr % 2 ^ 16 / 2 ^ 15) (omega arith)
        ∙ omega arith)

-- The argument of CMD53 has R/W in bit 31, the function from bit 28, the block mode in bit 27, the
-- operation code in bit 26, the low sixteen bits of the address from bit 9, and the count, for a
-- function below 8, a count below 2 ^ 9 and a buffer of seven octets or more.
pub cmd53_header-argument :
    (write : Bool) (func : ℕ) (block_mode : Bool) (addr count : ℕ) (mem : Bytes)
    → func < 8
    → count < 2 ^ 9
    → 7 ≤ length mem
    → argument (cmd53_header write func block_mode addr count mem)
      ≡ bit write * 2 ^ 31
        + func * 2 ^ 28
        + bit block_mode * 2 ^ 27
        + 2 ^ 26
        + addr % 2 ^ 16 * 2 ^ 9
        + count
cmd53_header-argument write func block_mode addr count mem h k l =
    let low = addr % 2 ^ 16 in
    let top : bit_or (low * 2 % 2 ^ 8) (bit_and (count / 2 ^ 8) 1)
        ≡ low * 2 % 2 ^ 8 + count / 2 ^ 8 =
      let even : low * 2 % 2 ^ 8 ≡ low % 2 ^ 7 * 2 = omega arith in
      rw (even, bit_and-one (count / 2 ^ 8))
        (bit_or-bit (low % 2 ^ 7) (count / 2 ^ 8 % 2) (omega arith) ∙ omega arith) in
    sym (argument-take (cmd53_header write func block_mode addr count mem))
    ∙ ap argument (cmd53_header-take write func block_mode addr count mem l)
    ∙ rw (cmd53_control-value write func block_mode addr h, bit_and-mask 16 0xffff addr refl)
        (rw top (omega arith))

control52 :
    (write : Bool) (func addr : ℕ)
    → func < 8
    → addr < 2 ^ 17
    → (if write
        then bit_or (bit_or (func * 2 ^ 4 % 2 ^ 8) (addr / 2 ^ 15) % 2 ^ 8) (2 ^ 7)
        else bit_or (func * 2 ^ 4 % 2 ^ 8) (addr / 2 ^ 15) % 2 ^ 8)
      ≡ bit write * 2 ^ 7 + func * 2 ^ 4 + addr / 2 ^ 15
control52 write func addr h k =
    let whole : func * 2 ^ 4 % 2 ^ 8 ≡ func * 2 ^ 4 = omega arith in
    let low : bit_or (func * 2 ^ 4 % 2 ^ 8) (addr / 2 ^ 15) % 2 ^ 8 ≡ func * 2 ^ 4 + addr / 2 ^ 15 =
      rw (whole, bit_or-fields 4 func (addr / 2 ^ 15) (omega arith)) (omega arith) in
    rw low (pick write)
  where
    pick :
        (write : Bool)
        → (if write
            then bit_or (func * 2 ^ 4 + addr / 2 ^ 15) (2 ^ 7)
            else func * 2 ^ 4 + addr / 2 ^ 15)
          ≡ bit write * 2 ^ 7 + func * 2 ^ 4 + addr / 2 ^ 15
    pick true = bit_or-fields' 7 1 (func * 2 ^ 4 + addr / 2 ^ 15) (omega arith) ∙ omega arith
    pick false = omega arith

argument-six : (frame : Bytes) → argument (take 6 frame) ≡ argument frame
argument-six frame =
    let kept = λ (i : ℕ) (h : i < 6). get_or-take 6 i frame 0 h in
    rw (kept 2 (omega arith), kept 3 (omega arith), kept 4 (omega arith), kept 5 (omega arith)) refl

six_and_on : (xs : Bytes) (v : ℕ) → set (take 6 xs) 6 v ≡ take 6 xs
six_and_on xs v = set_beyond (take 6 xs) 6 v (omega (arith, length-take 6 xs))

-- The end of a header is behind the argument.
argument-finish_header : (hdr : Bytes) → argument (finish_header hdr) ≡ argument hdr
unfolding finish_header
argument-finish_header hdr =
    let crc = calc_cmd_crc_octet (drop 1 hdr) in
    sym (argument-six (finish_header hdr))
    ∙ ap argument (
        take-store_before (replicate 13 0xff) (set hdr 6 crc) 6 7 (omega arith)
        ∙ take-set 6 hdr 6 crc
        ∙ six_and_on hdr crc)
    ∙ argument-six hdr

prep_cmd-six :
    (cmd : ℕ) (mem : Bytes)
    → take 6 (prep_cmd cmd mem)
      ≡ set (set (take 6 mem) 0 0xff) 1 ((2 ^ 6 + bit_and cmd 0x3f) % 2 ^ 8)
unfolding prep_cmd
prep_cmd-six cmd mem =
    let m = set (set mem 0 0xff) 1 ((2 ^ 6 + bit_and cmd 0x3f) % 2 ^ 8) in
    take-store_before (replicate 13 0xff) (set m 6 1) 6 7 (omega arith)
    ∙ take-set 6 m 6 1
    ∙ six_and_on m 1
    ∙ simp take-set refl

-- The writes of the argument on six octets.
argument_sets :
    (pre : Bytes) (write : Bool) (a b c c' d e f : ℕ)
    → length pre ≡ 6
    → let hdr = set (set (set (set (set (set pre 0 a) 1 b) 2 c) 3 d) 4 e) 5 f in
      argument (if write then set hdr 2 c' else hdr)
      ≡ (if write then c' else c) * 2 ^ 24 + d * 2 ^ 16 + e * 2 ^ 8 + f
argument_sets (p ∷ q ∷ r ∷ s ∷ t ∷ u ∷ []) true a b c c' d e f h = refl
argument_sets (p ∷ q ∷ r ∷ s ∷ t ∷ u ∷ []) false a b c c' d e f h = refl
argument_sets (p ∷ q ∷ r ∷ s ∷ t ∷ u ∷ v ∷ pre) write a b c c' d e f h = absurd (omega arith)
argument_sets (p ∷ q ∷ r ∷ s ∷ t ∷ []) write a b c c' d e f h = absurd (omega arith)
argument_sets (p ∷ q ∷ r ∷ s ∷ []) write a b c c' d e f h = absurd (omega arith)
argument_sets (p ∷ q ∷ r ∷ []) write a b c c' d e f h = absurd (omega arith)
argument_sets (p ∷ q ∷ []) write a b c c' d e f h = absurd (omega arith)
argument_sets (p ∷ []) write a b c c' d e f h = absurd (omega arith)
argument_sets [] write a b c c' d e f h = absurd (omega arith)

-- The octets of the argument before the end of the header.
header52 : Bool → ℕ → ℕ → ℕ → ℕ → ℕ → Bytes → Bytes
header52 write c c' d e f mem =
    let hdr = set (set (set (set (prep_cmd 52 mem) 2 c) 3 d) 4 e) 5 f in
    if write then set hdr 2 c' else hdr

argument-header52 :
    (write : Bool) (c c' d e f : ℕ) (mem : Bytes)
    → 7 ≤ length mem
    → argument (header52 write c c' d e f mem)
      ≡ (if write then c' else c) * 2 ^ 24 + d * 2 ^ 16 + e * 2 ^ 8 + f
unfolding header52
argument-header52 write c c' d e f mem m =
    sym (argument-six (header52 write c c' d e f mem))
    ∙ ap argument (six write)
    ∙ argument_sets (take 6 mem) write 0xff ((2 ^ 6 + bit_and 52 0x3f) % 2 ^ 8) c c' d e f
        (omega (arith, length-take 6 mem))
  where
    six :
        (write : Bool)
        → take 6 (header52 write c c' d e f mem) ≡ (
            let hdr =
              set
                (set
                  (set
                    (set (set (set (take 6 mem) 0 0xff) 1 ((2 ^ 6 + bit_and 52 0x3f) % 2 ^ 8)) 2 c)
                    3
                    d)
                  4
                  e)
                5
                f in
            if write then set hdr 2 c' else hdr)
    six true = simp (take-set, prep_cmd-six) refl
    six false = simp (take-set, prep_cmd-six) refl

-- The argument of CMD52 has R/W in bit 31, the function from bit 28, the 17 bits of the address
-- from bit 9, and the octet, for a function below 8, an address below 2 ^ 17, an octet below 2 ^ 8
-- and a buffer of seven octets or more.
pub cmd52_frame-argument :
    (write : Bool) (func addr octet : ℕ) (mem : Bytes)
    → func < 8
    → addr < 2 ^ 17
    → octet < 2 ^ 8
    → 7 ≤ length mem
    → argument (cmd52_frame write func addr octet mem)
      ≡ bit write * 2 ^ 31 + func * 2 ^ 28 + addr * 2 ^ 9 + octet
unfolding cmd52_frame header52
cmd52_frame-argument write func addr octet mem h k l m =
    let c = bit_or (func * 2 ^ 4 % 2 ^ 8) (addr / 2 ^ 15) % 2 ^ 8 in
    let d = addr / 2 ^ 7 % 2 ^ 8 in
    let e = addr * 2 % 2 ^ 8 in
    argument-finish_header (header52 write c (bit_or c (2 ^ 7)) d e octet mem)
    ∙ argument-header52 write c (bit_or c (2 ^ 7)) d e octet mem m
    ∙ rw (control52 write func addr h k) (omega arith)
