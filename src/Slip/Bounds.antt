-- ===== src/Slip/Bounds.antt =====
-- One octet received: the bounds of the buffer, and when each status is returned.
use morse_cli.Base.{ℕ, ◌≤◌, ◌<◌, ◌≡◌, ◌≢◌, ◌↔◌, true, false, arith, length, length-set}
use morse_cli.Slip.{
  SlipRxStatus, SlipRxState, slip_rx, slip_rx_append, slip_frame_end, slip_frame_esc,
  slip_frame_esc_end, slip_frame_esc_esc,
}

-- `buffer` has the `buffer_length` bytes that the state speaks of, and `length` stays within.
pub record IsValid (s : SlipRxState) : Type 0 where
  pub sized : length s.buffer ≡ s.buffer_length
  pub within : s.length ≤ s.buffer_length

-- On every octet slip_rx keeps `length` within `buffer_length`, the buffer at its size, and
-- `buffer_length` as it is.
pub slip_rx-IsValid :
    (s : SlipRxState) (c : ℕ)
    → IsValid s
    → IsValid (slip_rx s c).1 × ((slip_rx s c).1.buffer_length ≡ s.buffer_length)
unfolding slip_rx slip_rx_append
slip_rx-IsValid s c v = ground (
  arith,
  length-set s.buffer s.length c,
  length-set s.buffer s.length slip_frame_end,
  length-set s.buffer s.length slip_frame_esc,
)

-- The octets that may follow an escape.
abbrev pub IsEscapable : ℕ → Type 0
IsEscapable c = (c ≢ slip_frame_esc_end) × (c ≢ slip_frame_esc_esc)

-- slip_rx answers SLIP_RX_ERROR exactly when an escape is followed by an octet that is neither
-- SLIP_FRAME_ESC_END nor SLIP_FRAME_ESC_ESC.
pub slip_rx-error_iff :
    (s : SlipRxState) (c : ℕ)
    → ((slip_rx s c).0 ≡ SlipRxStatus.error) ↔ ((s.escape ≡ true) × IsEscapable c)
unfolding slip_rx slip_rx_append
slip_rx-error_iff s c = ground arith

-- slip_rx answers SLIP_RX_COMPLETE exactly at a frame end that follows no escape, with at least one
-- octet received.
pub slip_rx-complete_iff :
    (s : SlipRxState) (c : ℕ)
    → ((slip_rx s c).0 ≡ SlipRxStatus.complete)
      ↔ ((s.escape ≡ false) × (c ≡ slip_frame_end) × (0 < s.length))
unfolding slip_rx slip_rx_append
slip_rx-complete_iff s c = ground arith

pub slip_rx-limit :
    (s : SlipRxState) (c : ℕ)
    → (slip_rx s c).0 ≡ SlipRxStatus.buffer_limit
    → (s.length ≡ s.buffer_length) × ((slip_rx s c).1.buffer ≡ s.buffer)
unfolding slip_rx slip_rx_append
slip_rx-limit s c = ground arith
