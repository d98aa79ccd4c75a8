-- ===== src/Crc/Runs.antt =====
-- The checksums of concrete buffers. 0x31c3 is the check value that the XMODEM model publishes for
-- the digits 1 to 9, and 0x4a the CRC7 of the SD card specification's CMD0.
use morse_cli.Base.{◌≡◌, refl, arith, [], ◌∷◌, Bytes}
use morse_cli.Crc.{
  crc16_bit, crc16_octet, crc16_loop, crc16_gen, morse_crc16, crc7_bit, crc7_bits, crc7_loop,
  crc7_gen,
}
use morse_cli.Crc.Equivalence.{crc16_gen-morse_crc16}

abbrev digits : Bytes
digits = 0x31 ∷ 0x32 ∷ 0x33 ∷ 0x34 ∷ 0x35 ∷ 0x36 ∷ 0x37 ∷ 0x38 ∷ 0x39 ∷ []

morse_crc16-digits : morse_crc16 0 digits ≡ 0x31c3
unfolding morse_crc16
morse_crc16-digits = refl

crc16_gen-digits : crc16_gen digits ≡ 0x31c3
unfolding crc16_gen crc16_loop crc16_octet crc16_bit
crc16_gen-digits = refl

crc7_gen_cmd0 : crc7_gen 0x4000000000 40 ≡ 0x4a
unfolding crc7_gen crc7_loop crc7_bits crc7_bit
crc7_gen_cmd0 = refl

crc16_gen-morse_crc16_example : crc16_gen digits ≡ morse_crc16 0 digits
crc16_gen-morse_crc16_example = crc16_gen-morse_crc16 digits (omega arith) (omega arith)
