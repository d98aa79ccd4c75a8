-- ===== src/Sdio/Layout.antt =====
-- The octets that a CMD53 write puts on the bus, by themselves (transport/sdio_over_spi.c).
use morse_cli.Base.{
  ℕ, zero, suc, ◌+◌, ◌*◌, ◌/◌, ◌^◌, ◌≤◌, ◌≡◌, refl, ap, ◌∙◌, sym, arith, Bool, true, false,
  if◌then◌else◌, Bytes, [], ◌∷◌, ◌++◌, append_assoc, append-nil, bit_and, length, take, drop, set,
  replicate, length-take, length-drop, length-replicate, length-set, take-set_end, take-length,
}
use morse_cli.Transport.{store_bytes}
use morse_cli.Transport.Store.{take-store_bytes, length-store_bytes}
use morse_cli.Crc.{crc16_gen}
use morse_cli.Sdio.{sdio_junk_token}
use morse_cli.Sdio.Cmd53.{
  Sizes, cmd53_sizes, cmd53_header, write_block, write_blocks, cmd53_frame,
  sdio_multi_block_start_token, sdio_single_start_token,
}
use morse_cli.Sdio.Header.{cmd53_header_octets, cmd53_header-take, length-cmd53_header}

-- One block on the bus: the token, the data, its CRC, and the pause.
abbrev pub block_octets : Bool → ℕ → ℕ → Bytes → Bytes
block_octets block_mode size delay block =
    let token = if block_mode then sdio_multi_block_start_token else sdio_single_start_token in
    let crc = crc16_gen block in
    token ∷ (block ++ (crc / 2 ^ 8 ∷ bit_and crc 0xff ∷ replicate delay sdio_junk_token))

abbrev pub blocks_octets : Bool → ℕ → ℕ → Bytes → ℕ → Bytes
blocks_octets block_mode size delay buf zero = []
blocks_octets block_mode size delay buf (suc rounds) =
    block_octets block_mode size delay (take size buf)
    ++ blocks_octets block_mode size delay (drop size buf) rounds

joined :
    (pre : Bytes) (token : ℕ) (block : Bytes) (a b : ℕ) (pause : Bytes)
    → ((((pre ++ (token ∷ [])) ++ block) ++ (a ∷ [])) ++ (b ∷ [])) ++ pause
      ≡ pre ++ (token ∷ (block ++ (a ∷ b ∷ pause)))
joined pre token block a b pause = simp append_assoc refl

module _ (block_mode : Bool) (sizes : Sizes) where
  length-write_block :
      (mem : Bytes) (n : ℕ) (block : Bytes)
      → length (write_block block_mode sizes mem n block) ≡ length mem
  unfolding write_block
  length-write_block mem n block = simp (length-set, length-store_bytes) refl

  take-write_block :
      (mem : Bytes) (n : ℕ) (block : Bytes)
      → length block ≡ sizes.block_size
      → n + (3 + sizes.block_size + sizes.post_block_delay_bytes) ≤ length mem
      → take
          (n + (3 + sizes.block_size + sizes.post_block_delay_bytes))
          (write_block block_mode sizes mem n block)
        ≡ take n mem ++ block_octets block_mode sizes.block_size sizes.post_block_delay_bytes block
  unfolding write_block
  take-write_block mem n block e h =
      let token = if block_mode then sdio_multi_block_start_token else sdio_single_start_token in
      let size = sizes.block_size in
      let crc = crc16_gen block in
      let pause = replicate sizes.post_block_delay_bytes sdio_junk_token in
      let m1 = set mem n token in
      let m2 = store_bytes m1 (n + 1) block in
      let m3 = set m2 (n + 1 + size) (crc / 2 ^ 8) in
      let m4 = set m3 (n + 1 + size + 1) (bit_and crc 0xff) in
      let l1 = length-set mem n token in
      let l2 = length-store_bytes block m1 (n + 1) in
      let l3 = length-set m2 (n + 1 + size) (crc / 2 ^ 8) in
      let l4 = length-set m3 (n + 1 + size + 1) (bit_and crc 0xff) in
      let lp = length-replicate sizes.post_block_delay_bytes sdio_junk_token in
      let t1 : take (n + 1) m1 ≡ take n mem ++ (token ∷ []) =
        take-set_end mem n token (omega arith) in
      let t2 : take (n + 1 + size) m2 ≡ take (n + 1) m1 ++ block =
        ap (λ k. take k m2) (omega arith) ∙ take-store_bytes block m1 (n + 1) (omega arith) in
      let t3 = take-set_end m2 (n + 1 + size) (crc / 2 ^ 8) (omega arith) in
      let t4 = take-set_end m3 (n + 1 + size + 1) (bit_and crc 0xff) (omega arith) in
      let t5 = take-store_bytes pause m4 (n + 1 + size + 2) (omega arith) in
      ap (λ k. take k (store_bytes m4 (n + 1 + size + 2) pause))
        {y = n + 1 + size + 2 + length pause} (omega arith)
      ∙ t5
      ∙ ap (λ k. take k m4 ++ pause) {y = n + 1 + size + 1 + 1} (omega arith)
      ∙ rw (t4, t3, t2, t1) (joined (take n mem) token block (crc / 2 ^ 8) (bit_and crc 0xff) pause)

  length-write_blocks :
      (rounds : ℕ) (mem : Bytes) (n : ℕ) (buf : Bytes)
      → length (write_blocks block_mode sizes mem n buf rounds) ≡ length mem
  unfolding write_blocks
  length-write_blocks zero mem n buf = refl
  length-write_blocks (suc rounds) mem n buf =
      let m = write_block block_mode sizes mem n (take sizes.block_size buf) in
      length-write_blocks rounds m (n + sizes.total_block_size) (drop sizes.block_size buf)
      ∙ length-write_block mem n (take sizes.block_size buf)

  take-write_blocks :
      (rounds : ℕ) (mem : Bytes) (n : ℕ) (buf : Bytes)
      → sizes.total_block_size ≡ 3 + sizes.block_size + sizes.post_block_delay_bytes
      → rounds * sizes.block_size ≤ length buf
      → n + rounds * sizes.total_block_size ≤ length mem
      → take (n + rounds * sizes.total_block_size) (write_blocks block_mode sizes mem n buf rounds)
        ≡ take n mem
          ++ blocks_octets block_mode sizes.block_size sizes.post_block_delay_bytes buf rounds
  unfolding write_blocks
  take-write_blocks zero mem n buf t h k =
      ap (λ j. take j mem) (omega arith) ∙ sym (append-nil (take n mem))
  take-write_blocks (suc rounds) mem n buf t h k =
      let size = sizes.block_size in
      let total = sizes.total_block_size in
      let pause = sizes.post_block_delay_bytes in
      let block = take size buf in
      let m = write_block block_mode sizes mem n block in
      let here = take-write_block mem n block (omega (arith, length-take size buf)) (omega arith) in
      let rest =
        take-write_blocks rounds m (n + total) (drop size buf) t
          (omega (arith, length-drop size buf)) (omega (arith, length-write_block mem n block)) in
      ap (λ j. take j (write_blocks block_mode sizes m (n + total) (drop size buf) rounds))
        (omega arith)
      ∙ rest
      ∙ ap (λ j. take j m ++ blocks_octets block_mode size pause (drop size buf) rounds)
          (omega arith)
      ∙ ap (λ l. l ++ blocks_octets block_mode size pause (drop size buf) rounds) here
      ∙ append_assoc (take n mem) (block_octets block_mode size pause block)
          (blocks_octets block_mode size pause (drop size buf) rounds)

-- What the sizes of a write amount to.
write_sizes :
    (func : ℕ) (block_mode : Bool) (count : ℕ)
    → let sizes = cmd53_sizes true func block_mode count in
      (sizes.total_block_size ≡ 3 + sizes.block_size + sizes.post_block_delay_bytes)
      × (sizes.full_trans_size ≡ 15 + sizes.loop_count * sizes.total_block_size)
unfolding cmd53_sizes
write_sizes func true count = (omega arith, omega arith)
write_sizes func false count = (omega arith, omega arith)

abbrev pub cmd53_write_octets : ℕ → Bool → ℕ → ℕ → Bytes → Bytes
cmd53_write_octets func block_mode addr count buf =
    let sizes = cmd53_sizes true func block_mode count in
    cmd53_header_octets true func block_mode addr count
    ++ (replicate 8 0xff
        ++ blocks_octets block_mode sizes.block_size sizes.post_block_delay_bytes buf
            sizes.loop_count)

-- A CMD53 write puts on the bus its header with the CRC, eight octets for the response and the
-- pause, and then each block of the data with its start token, its CRC16 and its pause, in order,
-- whatever the buffer held that the frame is built in. The buffer has the size that the code asks
-- for, and the data has all the blocks.
pub cmd53_frame-octets :
    (func : ℕ) (block_mode : Bool) (addr count : ℕ) (buf mem : Bytes)
    → length mem ≡ (cmd53_sizes true func block_mode count).full_trans_size
    → (cmd53_sizes true func block_mode count).loop_count
        * (cmd53_sizes true func block_mode count).block_size
      ≤ length buf
    → cmd53_frame true func block_mode addr count buf mem
      ≡ cmd53_write_octets func block_mode addr count buf
unfolding cmd53_frame
cmd53_frame-octets func block_mode addr count buf mem e h =
    let sizes = cmd53_sizes true func block_mode count in
    let (total, full) = write_sizes func block_mode count in
    let hdr = cmd53_header true func block_mode addr count mem in
    let lh = length-cmd53_header true func block_mode addr count mem in
    let m = store_bytes hdr 7 (replicate 8 0xff) in
    let lm : length m ≡ length hdr = length-store_bytes (replicate 8 0xff) hdr 7 in
    let blocks =
      blocks_octets block_mode sizes.block_size sizes.post_block_delay_bytes buf sizes.loop_count in
    let all = write_blocks block_mode sizes m 15 buf sizes.loop_count in
    let whole : length all ≡ 15 + sizes.loop_count * sizes.total_block_size =
      omega (arith, length-write_blocks block_mode sizes sizes.loop_count m 15 buf) in
    let front : take 15 m
        ≡ cmd53_header_octets true func block_mode addr count ++ replicate 8 0xff =
      take-store_bytes (replicate 8 0xff) hdr 7 (omega arith)
      ∙ ap (λ l. l ++ replicate 8 0xff)
          (cmd53_header-take true func block_mode addr count mem (omega arith)) in
    sym (take-length all)
    ∙ ap (λ j. take j all) whole
    ∙ take-write_blocks block_mode sizes sizes.loop_count m 15 buf total h (omega arith)
    ∙ ap (λ l. l ++ blocks) front
