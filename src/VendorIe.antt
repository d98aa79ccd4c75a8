-- ===== src/VendorIe.antt =====
-- vendor_ie.c: the command for vendor information elements, from what getopt returns, a list of
-- option characters with their arguments, to the request.
pub mod Outcome
mod Runs
use morse_cli.Base.{
  ℕ, ◌+◌, ◌-◌, ◌*◌, ◌%◌, ◌/◌, ◌^◌, ◌==◌, ltb, Bool, true, false, not, if◌then◌else◌, Option, none,
  some, Bytes, List, [], ◌∷◌, ◌++◌, bit_or, length, take, replicate, ℤ, pos, negsuc, is_zero,
}
use morse_cli.Base.Strings.{write_at}
use morse_cli.Command.{le16_octets}
use morse_cli.Utilities.{hexstr2bin}

abbrev pub max_vendor_ie_length : ℕ
max_vendor_ie_length = 255

abbrev pub num_oui_bytes : ℕ
num_oui_bytes = 3

-- command_vendor_ie_opcode; MORSE_VENDOR_IE_OP_INVALID is none.
pub data VendorIeOpcode : Type 0 where
  add_element : VendorIeOpcode
  clear_elements : VendorIeOpcode
  add_filter : VendorIeOpcode
  clear_filters : VendorIeOpcode

unfoldable pub opcode_number : VendorIeOpcode → ℕ
opcode_number add_element = 0
opcode_number clear_elements = 1
opcode_number add_filter = 2
opcode_number clear_filters = 3

-- struct command_vendor_ie_req, with the local variable of the length.
pub record VendorIeReq : Type 0 where
  pub opcode : Option VendorIeOpcode
  pub mgmt_type_mask : ℕ
  pub data_octets : Bytes
  pub data_length : ℕ

abbrev pub empty_req : VendorIeReq
empty_req = record {
  opcode = none;
  mgmt_type_mask = 0;
  data_octets = replicate max_vendor_ie_length 0;
  data_length = 0;
}

-- The exit with a code, or the request that goes on.
pub data Parsing : Type 0 where
  stop : ℤ → Parsing
  going : VendorIeReq → Parsing

-- check_cmd_opcode_not_set and what follows it.
unfoldable pub unless_set : Option VendorIeOpcode → Parsing → Parsing
unless_set none next = next
unless_set (some op) next = stop (negsuc 0)

unfoldable pub store_element : VendorIeReq → ℕ → ℤ × Bytes → Parsing
store_element r len (ret, octets) =
    if is_zero ret
    then going (record r {
      opcode = some add_element;
      data_octets = write_at 0 octets r.data_octets;
      data_length = len;
    })
    else stop (negsuc 0)

unfoldable pub element_option : Bytes → VendorIeReq → Parsing
element_option arg r =
    if not (length arg % 2 == 0)
    then stop (negsuc 0)
    else if ltb max_vendor_ie_length (length arg / 2)
    then stop (negsuc 0)
    else store_element r (length arg / 2) (hexstr2bin arg (length arg / 2))

-- The code of hexstr2bin is not looked at.
unfoldable pub filter_option : Bytes → VendorIeReq → Parsing
filter_option arg r =
    if not (length arg / 2 == num_oui_bytes)
    then stop (negsuc 0)
    else going (record r {
      opcode = some add_filter;
      data_octets = write_at 0 (hexstr2bin arg num_oui_bytes).1 r.data_octets;
      data_length = num_oui_bytes;
    })

abbrev pub or_mask : ℕ → VendorIeReq → Parsing
or_mask bits r = going (record r { mgmt_type_mask = bit_or r.mgmt_type_mask bits })

abbrev pub set_opcode : VendorIeOpcode → VendorIeReq → Parsing
set_opcode op r = unless_set r.opcode (going (record r { opcode = some op }))

-- One round of the switch.
unfoldable pub ie_option : ℕ → Bytes → VendorIeReq → Parsing
ie_option option arg r =
    if option == b'a'
    then unless_set r.opcode (element_option arg r)
    else if option == b'p'
    then or_mask 6 r
    else if option == b's'
    then or_mask 24 r
    else if option == b'b'
    then or_mask 1 r
    else if option == b'c'
    then set_opcode clear_elements r
    else if option == b'o'
    then unless_set r.opcode (filter_option arg r)
    else if option == b'r'
    then set_opcode clear_filters r
    else if option == b'h'
    then stop (pos 0)
    else stop (negsuc 0)

unfoldable pub ie_options : List (ℕ × Bytes) → Parsing → Parsing
ie_options opts (stop ret) = stop ret
ie_options [] (going r) = going r
ie_options ((option, arg) ∷ opts) (going r) = ie_options opts (ie_option option arg r)

-- The command's data, of the length that is set.
unfoldable pub vendor_ie_octets : VendorIeOpcode → VendorIeReq → Bytes
vendor_ie_octets op r =
    le16_octets (opcode_number op)
    ++ le16_octets r.mgmt_type_mask
    ++ take r.data_length r.data_octets

-- `send` is morsectrl_send_command.
module _ {S : Type 0} (send : ℕ → Bytes → S → ℤ × S) where
  -- MORSE_COMMAND_VENDOR_IE_CONFIG; without an opcode or a mask nothing is sent and the code is 0.
  unfoldable pub send_opcode : Option VendorIeOpcode → VendorIeReq → S → ℤ × S
  send_opcode none r s = (pos 0, s)
  send_opcode (some op) r s =
      if r.mgmt_type_mask == 0 then (pos 0, s) else send 0xa009 (vendor_ie_octets op r) s

  unfoldable pub send_parsed : Parsing → S → ℤ × S
  send_parsed (stop ret) s = (ret, s)
  send_parsed (going r) s = send_opcode r.opcode r s

  -- vendor_ie, for the number of arguments and the two allocations.
  unfoldable pub vendor_ie : ℕ → Bool → List (ℕ × Bytes) → S → ℤ × S
  vendor_ie argc allocated opts s =
      if argc == 0
      then (pos 0, s)
      else if ltb argc 2
      then (negsuc 0, s)
      else if allocated
      then send_parsed (ie_options opts (going empty_req)) s
      else (negsuc 0, s)
