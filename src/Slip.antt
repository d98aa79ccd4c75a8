-- ===== src/Slip.antt =====
-- transport/slip.h and transport/slip.c: the SLIP receiver's state machine and the transmitter.
-- `uint8_t *buffer` is the list of bytes behind the pointer, of `buffer_length` bytes; the
-- transmit function is a parameter that takes the octet and the state of the transport under it.
pub mod Escape
pub mod Bounds
pub mod RoundTrip
pub mod Transmit
mod Runs
use morse_cli.Base.{
  ℕ, ◌+◌, Bool, true, false, ◌==◌, ltb, if◌then◌else◌, List, [], ◌∷◌, Bytes, set, ℤ, pos, is_zero,
}

abbrev pub slip_frame_end : ℕ
slip_frame_end = 0xc0

abbrev pub slip_frame_esc : ℕ
slip_frame_esc = 0xdb

abbrev pub slip_frame_esc_end : ℕ
slip_frame_esc_end = 0xdc

abbrev pub slip_frame_esc_esc : ℕ
slip_frame_esc_esc = 0xdd

pub data SlipRxStatus : Type 0 where
  complete in_progress buffer_limit error : SlipRxStatus

pub record SlipRxState : Type 0 where
  pub buffer : Bytes
  pub buffer_length : ℕ
  pub length : ℕ
  pub escape : Bool

-- SLIP_RX_STATE_INIT
abbrev pub slip_rx_state_init : Bytes → ℕ → SlipRxState
slip_rx_state_init buffer buffer_length = record {
  buffer = buffer;
  buffer_length = buffer_length;
  length = 0;
  escape = false;
}

abbrev pub slip_rx_state_reset : SlipRxState → SlipRxState
slip_rx_state_reset s = record s { escape = false; length = 0 }

unfoldable pub slip_rx_append : SlipRxState → ℕ → SlipRxStatus × SlipRxState
slip_rx_append s c =
    if s.length == s.buffer_length
    then (buffer_limit, s)
    else (in_progress, record s { buffer = set s.buffer s.length c; length = s.length + 1 })

unfoldable pub slip_rx : SlipRxState → ℕ → SlipRxStatus × SlipRxState
slip_rx s c =
    if c == slip_frame_end
    then (if s.escape
        then (error, record s { escape = false; length = 0 })
        else if ltb 0 s.length
        then (complete, s)
        else (in_progress, s))
    else if s.escape
    then (let s' = record s { escape = false } in
        if c == slip_frame_esc_end
        then slip_rx_append s' slip_frame_end
        else if c == slip_frame_esc_esc
        then slip_rx_append s' slip_frame_esc
        else (error, record s { escape = false; length = 0 }))
    else if c == slip_frame_esc
    then (in_progress, record s { escape = true })
    else slip_rx_append s c

-- slip_tx, over the transport's state `S`.
module _ {S : Type 0} (transport_tx_fn : ℕ → S → ℤ × S) where
  -- An escape sequence: the second octet is sent if the first was accepted.
  abbrev tx_pair : ℕ → ℕ → S → ℤ × S
  tx_pair a b s =
      let (ret, s') = transport_tx_fn a s in if is_zero ret then transport_tx_fn b s' else (ret, s')

  -- The body of the loop: the `switch` on one octet of the packet.
  unfoldable pub tx_octet : ℕ → S → ℤ × S
  tx_octet c s =
      if c == slip_frame_esc
      then tx_pair slip_frame_esc slip_frame_esc_esc s
      else if c == slip_frame_end
      then tx_pair slip_frame_esc slip_frame_esc_end s
      else transport_tx_fn c s

  unfoldable pub tx_loop : Bytes → ℤ → S → ℤ × S
  tx_loop [] ret s = (ret, s)
  tx_loop (c ∷ packet) ret s = let (ret', s') = tx_octet c s in tx_loop packet ret' s'

  unfoldable pub slip_tx : Bytes → S → ℤ × S
  slip_tx packet s =
      let opened = transport_tx_fn slip_frame_end s in
      let (ret, s') = tx_loop packet (pos 0) opened.1 in
      let closed = transport_tx_fn slip_frame_end s' in (ret, closed.1)
