-- ===== src/Command/Channel.antt =====
-- What morsectrl_send_command hands to the transport (command.c).
use morse_cli.Base.{
  ℕ, ◌+◌, ◌-◌, ◌%◌, ◌/◌, ◌^◌, ◌≤◌, ◌<◌, ◌≡◌, refl, ap, ◌∙◌, arith, Bytes, [], ◌∷◌, ◌++◌, length,
}
use morse_cli.Transport.{TransportBuff, slice, store_bytes}
use morse_cli.Transport.Store.{slice-store_front}
use morse_cli.Command.{command_hdr, fill_header}

-- The header of a request, in order: the flag, the message id, the length of the data behind the
-- header, and three fields that are 0.
abbrev pub request_header : ℕ → ℕ → Bytes
request_header message_id len =
    1 ∷ 0 ∷ message_id % 256 ∷ message_id / 256 ∷ len % 256 ∷ len / 256 ∷ 0 ∷ 0 ∷ 0 ∷ 0 ∷ 0 ∷ 0 ∷ []

-- For a message id of 16 bits and a command buffer with a header and less than 2 ^ 16 octets behind
-- it, the data that morsectrl_send_command hands to the transport are the header of the request and
-- then the octets that the caller has put behind it, as they were.
pub fill_header-octets :
    (message_id : ℕ) (cmd : TransportBuff) (len : ℕ)
    → message_id < 2 ^ 16
    → len < 2 ^ 16
    → cmd.data_len ≡ 12 + len
    → cmd.data_offset + cmd.data_len ≤ length cmd.memblock
    → slice (fill_header message_id cmd).memblock cmd.data_offset cmd.data_len
      ≡ request_header message_id len ++ slice cmd.memblock (cmd.data_offset + 12) len
unfolding fill_header command_hdr
fill_header-octets message_id cmd len h k e l =
    let hdr = command_hdr message_id cmd.data_len in
    let octets : hdr ≡ request_header message_id len =
      let low_id : message_id % 2 ^ 16 % 2 ^ 8 ≡ message_id % 256 = omega arith in
      let high_id : message_id % 2 ^ 16 / 2 ^ 8 % 2 ^ 8 ≡ message_id / 256 = omega arith in
      let low_len : (cmd.data_len + 2 ^ 64 - 12) % 2 ^ 16 % 2 ^ 8 ≡ len % 256 = omega arith in
      let high_len : (cmd.data_len + 2 ^ 64 - 12) % 2 ^ 16 / 2 ^ 8 % 2 ^ 8 ≡ len / 256 =
        omega arith in
      rw (low_id, high_id, low_len, high_len) refl in
    ap (slice (store_bytes cmd.memblock cmd.data_offset hdr) cmd.data_offset) e
    ∙ slice-store_front hdr cmd.memblock cmd.data_offset len (omega arith)
    ∙ ap (λ t. t ++ slice cmd.memblock (cmd.data_offset + 12) len) octets
