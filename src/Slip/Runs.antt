-- ===== src/Slip/Runs.antt =====
-- Runs of the SLIP receiver and transmitter on concrete octets.
use morse_cli.Base.{
  ℕ, ◌≡◌, ◌↔◌, refl, true, false, arith, [], ◌∷◌, ◌++◌, Bytes, length, take, replicate, ℤ, pos,
  negsuc, ◌==◌, if◌then◌else◌,
}
use morse_cli.Slip.{
  SlipRxStatus, SlipRxState, complete, buffer_limit, slip_rx, slip_rx_append, slip_rx_state_init,
  slip_tx, tx_octet, tx_loop,
}
use morse_cli.Slip.Escape.{escape_octet, frame}
use morse_cli.Slip.Bounds.{IsValid, IsEscapable, slip_rx-IsValid, slip_rx-error_iff}
use morse_cli.Slip.RoundTrip.{rx_run, rx_run-frame, rx_run-frame_overlong}
use morse_cli.Slip.Transmit.{send_all, slip_tx-frame, slip_tx-last}

abbrev packet : Bytes
packet = 1 ∷ 0xc0 ∷ 0xdb ∷ 2 ∷ []

abbrev idle : ℕ → SlipRxState
idle n = slip_rx_state_init (replicate n 0) n

frame-packet : frame packet ≡ 0xc0 ∷ 1 ∷ 0xdb ∷ 0xdc ∷ 0xdb ∷ 0xdd ∷ 2 ∷ 0xc0 ∷ []
unfolding escape_octet
frame-packet = refl

received : rx_run (idle 5) (frame packet ++ (9 ∷ [])) ≡ (
  complete,
  record { buffer = packet ++ (0 ∷ []); buffer_length = 5; length = 4; escape = false },
  9 ∷ [],
)
unfolding escape_octet rx_run slip_rx slip_rx_append
received = refl

-- A transport that records the octets, and one that refuses those below 2.
abbrev recorder : ℕ → Bytes → ℤ × Bytes
recorder c s = (pos 0, s ++ (c ∷ []))

abbrev fussy : ℕ → Bytes → ℤ × Bytes
fussy c s = if c == 1 then (negsuc 0, s) else (pos 0, s ++ (c ∷ []))

-- The refused octet is missing from the frame, and slip_tx answers 0.
lost_octet : slip_tx fussy packet [] ≡ (pos 0, 0xc0 ∷ 0xdb ∷ 0xdc ∷ 0xdb ∷ 0xdd ∷ 2 ∷ 0xc0 ∷ [])
unfolding slip_tx tx_loop tx_octet
lost_octet = refl

slip_rx-IsValid_example :
    IsValid (slip_rx (idle 5) 7).1 × ((slip_rx (idle 5) 7).1.buffer_length ≡ 5)
slip_rx-IsValid_example = slip_rx-IsValid (idle 5) 7 (omega arith)

slip_rx-error_iff_example :
    ((slip_rx (idle 5) 7).0 ≡ SlipRxStatus.error) ↔ ((false ≡ true) × IsEscapable 7)
slip_rx-error_iff_example = slip_rx-error_iff (idle 5) 7

rx_run-frame_example :
    (s : SlipRxState) × (rx_run (idle 5) (frame packet ++ (9 ∷ [])) ≡ (complete, s, 9 ∷ []))
    × (s.length ≡ 4)
    × (take 4 s.buffer ≡ packet)
    × (length s.buffer ≡ s.buffer_length)
    × (s.buffer_length ≡ 5)
rx_run-frame_example =
    rx_run-frame (idle 5) packet (9 ∷ []) (record { sized = refl; empty = refl; plain = refl })
      (λ e. cc) (omega arith)

rx_run-frame_overlong_example : (rx_run (idle 3) (frame packet ++ (9 ∷ []))).0 ≡ buffer_limit
rx_run-frame_overlong_example =
    rx_run-frame_overlong (idle 3) packet (9 ∷ [])
      (record { sized = refl; empty = refl; plain = refl }) (omega arith)

slip_tx-frame_example : slip_tx recorder packet [] ≡ (pos 0, send_all recorder (frame packet) [])
slip_tx-frame_example = slip_tx-frame recorder (λ c s. refl) packet []

slip_tx-last_example :
    (slip_tx fussy (1 ∷ 2 ∷ []) []).0
    ≡ (tx_octet fussy 2 (tx_loop fussy (1 ∷ []) (pos 0) (0xc0 ∷ [])).1).0
slip_tx-last_example = slip_tx-last fussy (1 ∷ []) 2 []
