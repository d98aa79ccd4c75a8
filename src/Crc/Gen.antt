-- ===== src/Crc/Gen.antt =====
-- crc16_gen as the shift register: its early exits never cut a buffer short, and a round of its
-- inner loop is one shift with the octet's bit added at the top.
use morse_cli.Base.{
  ℕ, zero, suc, ◌+◌, ◌-◌, ◌*◌, ◌/◌, ◌%◌, ◌^◌, ◌≤◌, ◌<◌, ◌≡◌, refl, sym, ap, ◌∙◌, arith, bit_and,
  bit_or, bit_xor, false, ◌==◌, [], ◌∷◌, Bytes, length,
}
use morse_cli.Base.Bits.{bit_and-one, bit_or-bit}
use morse_cli.Base.Xor.{xor_assoc, xor_comm, xor-mod16, xor_double, xor_fields, xor_halves}
use morse_cli.Crc.{crc16_bit, crc16_octet, crc16_loop}
use morse_cli.Crc.Shift.{feed, feed-xor, shift, shift-xor}

-- The loops without their exits.
unfoldable pub crc16_bits : ℕ → ℕ → ℕ → ℕ
crc16_bits octet zero crc = crc
crc16_bits octet (suc jj) crc = crc16_bits octet jj (crc16_bit octet jj crc)

abbrev pub crc16_octets : Bytes → ℕ → ℕ
crc16_octets [] crc = crc
crc16_octets (octet ∷ buff) crc = crc16_octets buff (crc16_bits octet 8 crc)

crc16_octet_step :
    (octet jj crc bit_count : ℕ)
    → 1 < bit_count
    → bit_count < 2 ^ 64
    → crc16_octet octet (suc jj) crc bit_count
      ≡ crc16_octet octet jj (crc16_bit octet jj crc) (bit_count - 1)
unfolding crc16_octet
crc16_octet_step octet jj crc bit_count h b =
    let next : (bit_count + 2 ^ 64 - 1) % 2 ^ 64 ≡ bit_count - 1 = omega arith in
    let going : ((bit_count - 1) == 0) ≡ false = ground arith in rw next (rw going)

crc16_octet-bits :
    (octet rounds crc bit_count : ℕ)
    → rounds ≤ bit_count
    → bit_count < 2 ^ 64
    → crc16_octet octet rounds crc bit_count ≡ (crc16_bits octet rounds crc, bit_count - rounds)
unfolding crc16_bits
crc16_octet-bits octet zero crc bit_count h b =
    unfold crc16_octet in ap (λ k. (crc, k)) (omega arith)
crc16_octet-bits octet (suc zero) crc bit_count h b = unfold crc16_octet in ground arith
crc16_octet-bits octet (suc (suc jj)) crc bit_count h b =
    crc16_octet_step octet (suc jj) crc bit_count (omega arith) b
    ∙ crc16_octet-bits octet (suc jj) _ (bit_count - 1) (omega arith) (omega arith)
    ∙ ap (λ k. (crc16_bits octet (suc (suc jj)) crc, k)) (omega arith)

pub crc16_loop-octets :
    (buff : Bytes) (crc bit_count : ℕ)
    → bit_count ≡ length buff * 8
    → bit_count < 2 ^ 64
    → crc16_loop buff crc bit_count ≡ crc16_octets buff crc
unfolding crc16_loop
crc16_loop-octets [] crc bit_count e b = refl
crc16_loop-octets (octet ∷ []) crc bit_count e b =
    rw (crc16_octet-bits octet 8 crc bit_count (omega arith) b) (ground arith)
crc16_loop-octets (octet ∷ x ∷ buff) crc bit_count e b =
    let going : ((bit_count - 8) == 0) ≡ false = ground arith in
    rw (crc16_octet-bits octet 8 crc bit_count (omega arith) b) (
      rw going (
        crc16_loop-octets (x ∷ buff) (crc16_bits octet 8 crc) (bit_count - 8) (omega arith)
          (omega arith)))

-- The two taps of the feedback beside its lowest bit, for a bit `v`.
taps :
    (v : ℕ)
    → v < 2
    → (bit_or (v * 2 ^ 4) (v * 2 ^ 11) ≡ v * 2064) × (bit_xor (v * 2064 * 2) v ≡ feed v)
taps zero h = (refl, refl)
taps (suc zero) h = (refl, refl)
taps (suc (suc v)) h = absurd (omega arith)

-- The bit of the octet, at the top of the register.
abbrev pub top_bit : ℕ → ℕ → ℕ
top_bit octet jj = octet / 2 ^ jj % 2 * 2 ^ 15

shift_top : (v : ℕ) → v < 2 → shift (v * 2 ^ 15) ≡ feed v
unfolding shift
shift_top zero h = refl
shift_top (suc zero) h = refl
shift_top (suc (suc v)) h = absurd (omega arith)

-- What falls out of the register and the octet together is the `val` of the code.
crc16_bit-feed :
    (octet jj crc : ℕ)
    → crc16_bit octet jj crc % 2 ^ 16
      ≡ bit_xor (crc * 2) (feed ((octet / 2 ^ jj + crc / 2 ^ 15) % 2)) % 2 ^ 16
unfolding crc16_bit
crc16_bit-feed octet jj crc =
    let d = octet / 2 ^ jj in
    let v = (d + crc / 2 ^ 15) % 2 in
    let val : bit_and (bit_xor d (crc / 2 ^ 15)) 1 ≡ v =
      omega (arith, bit_and-one (bit_xor d (crc / 2 ^ 15)), xor_halves d (crc / 2 ^ 15)) in
    let (tap, feedback) = taps v (omega arith) in
    let wide = bit_xor crc (v * 2064) in
    let wrap : wide * 2 % 2 ^ 32 ≡ wide % 2 ^ 31 * 2 = omega arith in
    let out : bit_xor (wide * 2) v ≡ wide * 2 + v = xor_fields 1 wide v (omega arith) in
    let regroup : bit_xor (wide * 2) v ≡ bit_xor (crc * 2) (feed v) =
      ap (λ t. bit_xor t v) (sym (xor_double crc (v * 2064)))
      ∙ xor_assoc (crc * 2) (v * 2064 * 2) v
      ∙ ap (bit_xor (crc * 2)) feedback in
    rw val (
      rw tap
        (rw wrap (rw (bit_or-bit (wide % 2 ^ 31) v (omega arith)) (omega (arith, out, regroup)))))

pub crc16_bit-shift :
    (octet jj crc : ℕ) → crc16_bit octet jj crc % 2 ^ 16 ≡ shift (bit_xor crc (top_bit octet jj))
unfolding shift
crc16_bit-shift octet jj crc =
    let d = octet / 2 ^ jj in
    let c = crc / 2 ^ 15 in
    let order : bit_xor (crc * 2) (feed ((d + c) % 2))
        ≡ bit_xor (bit_xor (crc * 2) (feed (c % 2))) (feed (d % 2)) =
      ap (bit_xor (crc * 2)) (feed-xor d c ∙ xor_comm _ _) ∙ sym (xor_assoc _ _ _) in
    let small : feed (d % 2) % 2 ^ 16 ≡ feed (d % 2) = omega arith in
    crc16_bit-feed octet jj crc
    ∙ ap (λ t. t % 2 ^ 16) order
    ∙ xor-mod16 _ _
    ∙ ap (bit_xor (shift crc)) (small ∙ sym (shift_top (d % 2) (omega arith)))
    ∙ sym (shift-xor crc (top_bit octet jj))
