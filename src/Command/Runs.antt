-- ===== src/Command/Runs.antt =====
-- A command of three octets on its way out.
use morse_cli.Base.{◌≡◌, refl, arith, [], ◌∷◌}
use morse_cli.Transport.{TransportBuff, slice}
use morse_cli.Command.{fill_header}
use morse_cli.Command.Channel.{fill_header-octets}

abbrev three_octets : TransportBuff
three_octets = record {
  memblock = 9 ∷ 9 ∷ 9 ∷ 9 ∷ 9 ∷ 9 ∷ 9 ∷ 9 ∷ 9 ∷ 9 ∷ 9 ∷ 9 ∷ 1 ∷ 2 ∷ 3 ∷ [];
  capacity = 15;
  data_offset = 0;
  data_len = 15;
}

fill_header-octets_example :
    slice (fill_header 0x1a three_octets).memblock 0 15
    ≡ 1 ∷ 0 ∷ 0x1a ∷ 0 ∷ 3 ∷ 0 ∷ 0 ∷ 0 ∷ 0 ∷ 0 ∷ 0 ∷ 0 ∷ 1 ∷ 2 ∷ 3 ∷ []
fill_header-octets_example =
    fill_header-octets 0x1a three_octets 3 (omega arith) (omega arith) refl (omega arith)
