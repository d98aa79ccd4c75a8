-- ===== src/VendorIe/Runs.antt =====
-- An element for beacons and probes, and runs that send nothing.
use morse_cli.Base.{ℕ, true, Bytes, List, [], ◌∷◌, ℤ, pos, negsuc, ◌≡◌, refl}
use morse_cli.Base.Strings.{write_at}
use morse_cli.Utilities.{hex2num, hex2byte, hexstr2bin}
use morse_cli.Utilities.Text.{codes}
use morse_cli.VendorIe.{
  opcode_number, vendor_ie, unless_set, store_element, element_option, ie_option, ie_options,
  vendor_ie_octets, send_opcode, send_parsed,
}
use morse_cli.VendorIe.Outcome.{Sends, vendor_ie-Sends}

abbrev sent : ℕ → Bytes → List Bytes → ℤ × List Bytes
sent id b log = (pos 0, b ∷ log)

abbrev element : List (ℕ × Bytes)
element = (b'b', []) ∷ (b'a', codes "dd03") ∷ (b'p', []) ∷ []

vendor_ie-Sends_example : Sends sent element [] (vendor_ie sent 5 true element [])
vendor_ie-Sends_example = vendor_ie-Sends sent element 5 true []

element_run : vendor_ie sent 5 true element [] ≡ (pos 0, (0 ∷ 0 ∷ 7 ∷ 0 ∷ 0xdd ∷ 3 ∷ []) ∷ [])
unfolding vendor_ie ie_options ie_option unless_set element_option store_element hexstr2bin hex2byte
    hex2num send_parsed send_opcode vendor_ie_octets opcode_number write_at
element_run = refl

-- Two opcodes are refused, and without a frame nothing is sent, with the code 0.
two_run : vendor_ie sent 3 true ((b'c', []) ∷ (b'r', []) ∷ []) [] ≡ (negsuc 0, [])
unfolding vendor_ie ie_options ie_option unless_set send_parsed
two_run = refl

no_frame_run : vendor_ie sent 2 true ((b'c', []) ∷ []) [] ≡ (pos 0, [])
unfolding vendor_ie ie_options ie_option unless_set send_parsed send_opcode
no_frame_run = refl
