-- ===== src/Crc/Octet.antt =====
-- One octet through the register: eight rounds of crc16_gen's inner loop are one look-up in the
-- table of morse_crc16.
use morse_cli.Base.{
  ℕ, zero, suc, ◌+◌, ◌*◌, ◌/◌, ◌%◌, ◌^◌, ◌<◌, ◌≡◌, refl, sym, ap, ◌∙◌, true, Bool, arith, bit_xor,
  ◌==◌, ==_iff, get_or, if◌then◌else◌, false,
}
use morse_cli.Base.Xor.{xor_assoc, xor-zero, xor-mod16, xor_fields, xor_blocks, xor_bound}
use morse_cli.Crc.{crc16_bit}
use morse_cli.Crc.Gen.{crc16_bits, crc16_bit-shift, top_bit}
use morse_cli.Crc.Shift.{shift, shift-xor, shift_low, shifts, shifts-mod, shifts-xor}
use morse_cli.Crc.Table.{crc16_lookup_table}
use mathlib.Core.Path.{ap₂}
use native.Mathlib.Nat.{pow-suc}

-- The `k` low bits of an octet.
abbrev low : ℕ → ℕ → ℕ
low octet zero = 0
low octet (suc k) = octet / 2 ^ k % 2 * 2 ^ k + low octet k

low-lt : (octet k : ℕ) → low octet k < 2 ^ k
low-lt octet zero = omega arith
low-lt octet (suc k) = grind (arith, pow-suc 2 k, low-lt octet k)

low_octet : (octet : ℕ) → octet < 2 ^ 8 → low octet 8 ≡ octet
low_octet octet h = omega arith

scaled-lt : (x w m : ℕ) → x < m → w * m ≡ 2 ^ 15 → x * w < 2 ^ 15
scaled-lt x zero m h e = absurd (omega arith)
scaled-lt x (suc w) m h e = grind arith

half_weight : (k w : ℕ) → w * 2 ^ suc k ≡ 2 ^ 16 → w * 2 ^ k ≡ 2 ^ 15
half_weight k w e = omega (arith, ap (λ (t : ℕ). w * t) (pow-suc 2 k))

-- The bits below the top one, at their place in the register, before and after a shift.
low_fits : (octet k w : ℕ) → w * 2 ^ suc k ≡ 2 ^ 16 → low octet k * w < 2 ^ 15
low_fits octet k w e = scaled-lt (low octet k) w (2 ^ k) (low-lt octet k) (half_weight k w e)

low_place :
    (octet k w : ℕ)
    → w * 2 ^ suc k ≡ 2 ^ 16
    → bit_xor (top_bit octet k) (low octet k * w) ≡ low octet (suc k) * w
low_place octet k w e =
    xor_fields 15 (octet / 2 ^ k % 2) (low octet k * w) (low_fits octet k w e)
    ∙ omega (arith, ap (λ (t : ℕ). octet / 2 ^ k % 2 * t) (half_weight k w e))

-- `k` rounds of the inner loop are `k` shifts of the register with the bits added in at once; `w` is
-- the weight of the lowest of them.
bits-shifts :
    (k w octet crc : ℕ)
    → w * 2 ^ k ≡ 2 ^ 16
    → crc16_bits octet k crc % 2 ^ 16 ≡ shifts k (bit_xor crc (low octet k * w)) % 2 ^ 16
unfolding crc16_bits
bits-shifts zero w octet crc e =
    let nothing : 0 * w ≡ 0 = omega arith in
    ap (λ t. t % 2 ^ 16) (sym (ap (bit_xor crc) nothing ∙ xor-zero crc))
bits-shifts (suc k) w octet crc e =
    let r = low octet k * w in
    let crc' = crc16_bit octet k crc in
    let twice : low octet k * (w * 2) ≡ r * 2 = omega arith in
    let doubled : r * 2 % 2 ^ 16 ≡ shift r =
      (let fits = low_fits octet k w e in omega (arith, shift_low r fits)) in
    let joined : bit_xor crc' (low octet k * (w * 2)) % 2 ^ 16
        ≡ shift (bit_xor crc (low octet (suc k) * w)) =
      xor-mod16 crc' _
      ∙ ap₂ bit_xor (crc16_bit-shift octet k crc) (ap (λ t. t % 2 ^ 16) twice ∙ doubled)
      ∙ sym (shift-xor (bit_xor crc (top_bit octet k)) r)
      ∙ ap shift (xor_assoc crc _ r ∙ ap (bit_xor crc) (low_place octet k w e)) in
    bits-shifts k (w * 2) octet crc' (omega (arith, half_weight k w e))
    ∙ sym (shifts-mod k _)
    ∙ ap (λ t. shifts k t % 2 ^ 16) joined

-- A test over the entries of a table, and what it says of one entry.
module _ (entry_ok : ℕ → Bool) where
  table_ok : ℕ → Bool
  table_ok zero = true
  table_ok (suc size) = if entry_ok size then table_ok size else false

  entry_of_table : (size i : ℕ) → i < size → table_ok size ≡ true → entry_ok i ≡ true
  unfolding table_ok
  entry_of_table zero i inside ok = elim inside [ ]
  entry_of_table (suc size) i inside ok = ground (arith, entry_of_table size i)

-- Eight shifts, by table: of the high byte of the register, and of the low one.
high_table : table_ok (λ i. shifts 8 (i * 2 ^ 8) == get_or crc16_lookup_table i 0) 256 ≡ true
unfolding table_ok shift
high_table = refl

low_table : table_ok (λ i. shifts 8 i == i * 2 ^ 8) 256 ≡ true
unfolding table_ok shift
low_table = refl

shifts_high : (i : ℕ) → i < 2 ^ 8 → shifts 8 (i * 2 ^ 8) ≡ get_or crc16_lookup_table i 0
shifts_high i h = (==_iff _ _).0 (entry_of_table _ 256 i h high_table)

shifts_low : (i : ℕ) → i < 2 ^ 8 → shifts 8 i ≡ i * 2 ^ 8
shifts_low i h = (==_iff _ _).0 (entry_of_table _ 256 i h low_table)

-- The octet goes into the high byte of the register, and the low byte stays apart.
split_register :
    (c octet : ℕ)
    → bit_xor c (octet * 2 ^ 8) ≡ bit_xor (bit_xor (c / 2 ^ 8) octet * 2 ^ 8) (c % 2 ^ 8)
split_register c octet =
    let hi = c / 2 ^ 8 in
    let lo = c % 2 ^ 8 in
    let left : c ≡ hi * 2 ^ 8 + lo = omega arith in
    let right : octet * 2 ^ 8 ≡ octet * 2 ^ 8 + 0 = omega arith in
    ap₂ bit_xor left right
    ∙ xor_blocks 8 hi lo octet 0 (omega arith) (omega arith)
    ∙ ap (λ t. bit_xor hi octet * 2 ^ 8 + t) (xor-zero lo)
    ∙ sym (xor_fields 8 (bit_xor hi octet) lo (omega arith))

-- What morse_crc16 makes of the register for one octet.
abbrev pub look_up : ℕ → ℕ → ℕ
look_up c octet =
    bit_xor (get_or crc16_lookup_table (bit_xor (c / 2 ^ 8) octet) 0) (c * 2 ^ 8) % 2 ^ 16

shifts-look_up :
    (c octet : ℕ)
    → c < 2 ^ 16
    → octet < 2 ^ 8
    → shifts 8 (bit_xor c (octet * 2 ^ 8)) % 2 ^ 16 ≡ look_up c octet
shifts-look_up c octet hc ho =
    let i = bit_xor (c / 2 ^ 8) octet in
    let lo = c % 2 ^ 8 in
    let shifted : lo * 2 ^ 8 % 2 ^ 16 ≡ c * 2 ^ 8 % 2 ^ 16 = omega arith in
    ap (λ t. t % 2 ^ 16)
      (ap (shifts 8) (split_register c octet)
        ∙ shifts-xor 8 (i * 2 ^ 8) lo
        ∙ ap₂ bit_xor (shifts_high i (xor_bound 8 (c / 2 ^ 8) octet (omega arith) ho))
            (shifts_low lo (omega arith)))
    ∙ xor-mod16 _ _
    ∙ ap (bit_xor (get_or crc16_lookup_table i 0 % 2 ^ 16)) shifted
    ∙ sym (xor-mod16 _ _)

pub bits-look_up :
    (c octet : ℕ) → octet < 2 ^ 8 → crc16_bits octet 8 c % 2 ^ 16 ≡ look_up (c % 2 ^ 16) octet
bits-look_up c octet ho =
    let whole : low octet 8 * 2 ^ 8 ≡ octet * 2 ^ 8 = omega (arith, low_octet octet ho) in
    let same : c % 2 ^ 16 ≡ c % 2 ^ 16 % 2 ^ 16 = omega arith in
    let cut : bit_xor c (low octet 8 * 2 ^ 8) % 2 ^ 16
        ≡ bit_xor (c % 2 ^ 16) (octet * 2 ^ 8) % 2 ^ 16 =
      ap (λ t. bit_xor c t % 2 ^ 16) whole
      ∙ xor-mod16 c _
      ∙ ap (λ t. bit_xor t (octet * 2 ^ 8 % 2 ^ 16)) same
      ∙ sym (xor-mod16 (c % 2 ^ 16) (octet * 2 ^ 8)) in
    bits-shifts 8 (2 ^ 8) octet c refl
    ∙ sym (shifts-mod 8 _)
    ∙ ap (λ t. shifts 8 t % 2 ^ 16) cut
    ∙ shifts-mod 8 _
    ∙ shifts-look_up (c % 2 ^ 16) octet (omega arith) ho
