-- ===== src/Crc/Equivalence.antt =====
-- crc16_gen of utilities.c and morse_crc16 of transport/uart_slip.c on one buffer.
use morse_cli.Base.{
  ℕ, ◌*◌, ◌%◌, ◌^◌, ◌<◌, ◌≡◌, ◌↔◌, refl, ap, ◌∙◌, true, arith, ==_iff, [], ◌∷◌, Bytes, length, All,
  IsByte, some,
}
use morse_cli.Base.Bits.{bit_and-mask}
use morse_cli.Crc.{crc16_gen, crc16_check, morse_crc16}
use morse_cli.Crc.Gen.{crc16_bits, crc16_octets, crc16_loop-octets}
use morse_cli.Crc.Octet.{bits-look_up}

octets-morse_crc16 :
    (buff : Bytes) (c : ℕ)
    → All IsByte buff
    → crc16_octets buff c % 2 ^ 16 ≡ morse_crc16 (c % 2 ^ 16) buff
unfolding morse_crc16
octets-morse_crc16 [] c h = refl
octets-morse_crc16 (octet ∷ buff) c (ho, h) =
    octets-morse_crc16 buff (crc16_bits octet 8 c) h
    ∙ ap (λ t. morse_crc16 t buff) (bits-look_up c octet ho)

-- The bitwise checksum and the table-driven one agree on every buffer whose bits a size_t counts.
pub crc16_gen-morse_crc16 :
    (buff : Bytes)
    → All IsByte buff
    → length buff * 8 < 2 ^ 64
    → crc16_gen buff ≡ morse_crc16 0 buff
unfolding crc16_gen
crc16_gen-morse_crc16 buff h fits =
    let count : length buff * 8 % 2 ^ 64 ≡ length buff * 8 = omega arith in
    bit_and-mask 16 0xffff _ refl
    ∙ ap (λ t. t % 2 ^ 16) (crc16_loop-octets buff 0 _ count (omega arith))
    ∙ octets-morse_crc16 buff 0 h

-- crc16_check accepts a buffer with exactly one checksum, that of morse_crc16.
pub crc16_check_iff :
    (buff : Bytes) (crc16 : ℕ)
    → All IsByte buff
    → length buff * 8 < 2 ^ 64
    → (crc16_check (some buff) crc16 ≡ true) ↔ (crc16 ≡ morse_crc16 0 buff)
unfolding crc16_check
crc16_check_iff buff crc16 h fits =
    rw (crc16_gen-morse_crc16 buff h fits) (==_iff crc16 (morse_crc16 0 buff))
