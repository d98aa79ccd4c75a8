-- ===== src/Command.antt =====
-- command.c and command.h: a command on its way to the chip, and the status that comes back.
pub mod Channel
mod Runs
use morse_cli.Base.{
  ℕ, ◌+◌, ◌-◌, ◌%◌, ◌/◌, ◌^◌, ◌*◌, ltb, Bool, true, false, not, if◌then◌else◌, Option, none, some,
  Bytes, [], ◌∷◌, ◌++◌, get_or, drop, ℤ, pos, negsuc, is_zero, is_negative,
}
use morse_cli.Transport.{TransportBuff, store_bytes, slice}

abbrev pub le16_octets : ℕ → Bytes
le16_octets v = v % 2 ^ 8 ∷ v / 2 ^ 8 % 2 ^ 8 ∷ []

-- An int that was a uint32_t.
unfoldable pub int_of_u32 : ℕ → ℤ
int_of_u32 v = if ltb v (2 ^ 31) then pos v else negsuc (2 ^ 32 - 1 - v)

-- struct command_hdr: flags, message_id, len, host_id, vif_id and pad. The length is that of the
-- data behind the header, cut to 16 bits.
unfoldable pub command_hdr : ℕ → ℕ → Bytes
command_hdr message_id data_len =
    le16_octets 1
    ++ (le16_octets (message_id % 2 ^ 16)
        ++ (le16_octets ((data_len + 2 ^ 64 - 12) % 2 ^ 16) ++ (0 ∷ 0 ∷ 0 ∷ 0 ∷ 0 ∷ 0 ∷ [])))

-- response->status
unfoldable pub response_status : TransportBuff → ℤ
response_status resp =
    let b = slice resp.memblock (resp.data_offset + 12) 4 in
    int_of_u32 (get_or b 0 0 + get_or b 1 0 * 2 ^ 8 + get_or b 2 0 * 2 ^ 16 + get_or b 3 0 * 2 ^ 24)

-- The buffer with its header.
unfoldable pub fill_header : ℕ → TransportBuff → TransportBuff
fill_header message_id cmd = record cmd {
  memblock = store_bytes cmd.memblock cmd.data_offset (command_hdr message_id cmd.data_len);
}

-- `send` is morsectrl_transport_send: the code and the response buffer.
module _ {S : Type 0} (send : TransportBuff → TransportBuff → S → (ℤ × TransportBuff) × S) where
  -- morsectrl_send_command; null buffers are `none`. 12 is ENOMEM.
  unfoldable pub send_command :
      ℕ → Option TransportBuff → Option TransportBuff → S → (ℤ × Option TransportBuff) × S
  send_command message_id none resp s = ((negsuc 11, resp), s)
  send_command message_id (some cmd) none s = ((negsuc 11, none), s)
  send_command message_id (some cmd) (some resp) s =
      let ((ret, resp'), s') = send (fill_header message_id cmd) resp s in
      if is_negative ret then ((ret, some resp'), s') else ((response_status resp', some resp'), s')
