-- ===== src/Slip/RoundTrip.antt =====
-- The receiver on what the format makes of a packet.
use morse_cli.Base.{
  ℕ, ◌+◌, ◌≤◌, ◌<◌, ◌≡◌, ◌≢◌, refl, sym, ap, ◌∙◌, false, arith, [], ◌∷◌, ◌++◌, length, length-set,
  take, set, take-set_end, append_assoc, append-nil, Bytes,
}
use morse_cli.Slip.{
  SlipRxStatus, complete, in_progress, buffer_limit, SlipRxState, slip_rx, slip_rx_append,
  slip_frame_end,
}
use native.Mathlib.Decide.{dec_lt}
use morse_cli.Slip.Escape.{escape_octet, escaped, frame}

-- The octets handed to the receiver one by one until it answers anything but `in_progress`, with
-- the octets that it did not take.
unfoldable pub rx_run : SlipRxState → Bytes → SlipRxStatus × SlipRxState × Bytes
rx_run s [] = (in_progress, s, [])
rx_run s (c ∷ cs) =
    let (status, s') = slip_rx s c in
    elim status [ in_progress ↦ rx_run s' cs | other ↦ (other, s', cs) ]

-- One octet of a packet stored, and a whole packet stored.
abbrev pub push : SlipRxState → ℕ → SlipRxState
push s c = record s { buffer = set s.buffer s.length c; length = s.length + 1; escape = false }

abbrev pub store : SlipRxState → Bytes → SlipRxState
store s [] = s
store s (c ∷ cs) = store (push s c) cs

rx_run-escape_octet :
    (s : SlipRxState) (c : ℕ) (rest : Bytes)
    → s.escape ≡ false
    → s.length < s.buffer_length
    → rx_run s (escape_octet c ++ rest) ≡ rx_run (push s c) rest
unfolding rx_run slip_rx slip_rx_append escape_octet
rx_run-escape_octet s c rest e h = ground arith

rx_run-escape_octet_full :
    (s : SlipRxState) (c : ℕ) (rest : Bytes)
    → s.escape ≡ false
    → s.length ≡ s.buffer_length
    → (rx_run s (escape_octet c ++ rest)).0 ≡ buffer_limit
unfolding rx_run slip_rx slip_rx_append escape_octet
rx_run-escape_octet_full s c rest e h = ground arith

pub rx_run-escaped :
    (s : SlipRxState) (packet rest : Bytes)
    → s.escape ≡ false
    → s.length + length packet ≤ s.buffer_length
    → rx_run s (escaped packet ++ rest) ≡ rx_run (store s packet) rest
rx_run-escaped s [] rest e h = refl
rx_run-escaped s (c ∷ cs) rest e h =
    ap_rest
    ∙ rx_run-escape_octet s c (escaped cs ++ rest) e (omega arith)
    ∙ rx_run-escaped (push s c) cs rest refl (omega arith)
  where
    ap_rest :
        rx_run s (escaped (c ∷ cs) ++ rest) ≡ rx_run s (escape_octet c ++ (escaped cs ++ rest))
    ap_rest = rw append_assoc

store_shape :
    (s : SlipRxState) (packet : Bytes)
    → s.escape ≡ false
    → ((store s packet).length ≡ s.length + length packet)
      × ((store s packet).escape ≡ false)
      × ((store s packet).buffer_length ≡ s.buffer_length)
      × (length (store s packet).buffer ≡ length s.buffer)
store_shape s [] e = (omega arith, e, refl, refl)
store_shape s (c ∷ cs) e =
    let (a, b, k, d) = store_shape (push s c) cs refl in
    (omega arith, b, k, omega (arith, length-set s.buffer s.length c))

take-store :
    (s : SlipRxState) (packet : Bytes) (n : ℕ)
    → n ≡ s.length + length packet
    → n ≤ length s.buffer
    → take n (store s packet).buffer ≡ take s.length s.buffer ++ packet
take-store s [] n e h = ap (λ k. take k s.buffer) (omega arith) ∙ sym (append-nil _)
take-store s (c ∷ cs) n e h =
    take-store (push s c) cs n (omega arith) (omega (arith, length-set s.buffer s.length c))
    ∙ rw (take-set_end s.buffer s.length c (omega arith)) (append_assoc _ (c ∷ []) cs)

rx_run_open :
    (s : SlipRxState) (rest : Bytes)
    → s.escape ≡ false
    → s.length ≡ 0
    → rx_run s (slip_frame_end ∷ rest) ≡ rx_run s rest
unfolding rx_run slip_rx
rx_run_open s rest e h = ground arith

rx_run_close :
    (s : SlipRxState) (rest : Bytes)
    → s.escape ≡ false
    → 0 < s.length
    → rx_run s (slip_frame_end ∷ rest) ≡ (complete, s, rest)
unfolding rx_run slip_rx
rx_run_close s rest e h = ground arith

pos_of_ne-nil : (packet : Bytes) → packet ≢ [] → 0 < length packet
pos_of_ne-nil [] h = absurd (h refl)
pos_of_ne-nil (c ∷ cs) h = omega arith

-- The receiver between two frames, with its whole buffer.
pub record IsReady (s : SlipRxState) : Type 0 where
  pub sized : length s.buffer ≡ s.buffer_length
  pub empty : s.length ≡ 0
  pub plain : s.escape ≡ false

-- A receiver between frames that is fed the frame of a packet which is not empty and fits its buffer
-- completes at the last octet of the frame, with the packet at the front of the buffer and `length`
-- its length; the buffer keeps its size.
pub rx_run-frame :
    (s : SlipRxState) (packet rest : Bytes)
    → IsReady s
    → packet ≢ []
    → length packet ≤ s.buffer_length
    → (s' : SlipRxState) × (rx_run s (frame packet ++ rest) ≡ (complete, s', rest))
      × (s'.length ≡ length packet)
      × (take (length packet) s'.buffer ≡ packet)
      × (length s'.buffer ≡ s'.buffer_length)
      × (s'.buffer_length ≡ s.buffer_length)
rx_run-frame s packet rest r ne h =
    let (l, e, k, d) = store_shape s packet r.plain in
    (
      store s packet,
      rx_run_open s _ r.plain r.empty
          ∙ rw append_assoc (rx_run-escaped s packet _ r.plain (omega arith))
          ∙ rx_run_close (store s packet) rest e (omega (arith, pos_of_ne-nil packet ne)),
      omega arith,
      take-store s packet (length packet) (omega arith) (omega arith)
          ∙ ap (λ n. take n s.buffer ++ packet) r.empty,
      omega arith,
      k,
    )

rx_run-escaped_overlong :
    (s : SlipRxState) (packet rest : Bytes)
    → s.escape ≡ false
    → s.length ≤ s.buffer_length
    → s.buffer_length < s.length + length packet
    → (rx_run s (escaped packet ++ rest)).0 ≡ buffer_limit
rx_run-escaped_overlong s [] rest e w h = absurd (omega arith)
rx_run-escaped_overlong s (c ∷ cs) rest e w h =
    rw append_assoc (elim (dec_lt s.length s.buffer_length) [
      | yes room ↦
          rw (rx_run-escape_octet s c (escaped cs ++ rest) e room)
            (rx_run-escaped_overlong (push s c) cs rest refl (omega arith) (omega arith))
      | no full ↦ rx_run-escape_octet_full s c (escaped cs ++ rest) e (omega arith)
    ])

-- A receiver between frames that is fed the frame of a packet longer than its buffer answers
-- SLIP_RX_BUFFER_LIMIT.
pub rx_run-frame_overlong :
    (s : SlipRxState) (packet rest : Bytes)
    → IsReady s
    → s.buffer_length < length packet
    → (rx_run s (frame packet ++ rest)).0 ≡ buffer_limit
rx_run-frame_overlong s packet rest r h =
    rw (rx_run_open s _ r.plain r.empty)
      (rw append_assoc (rx_run-escaped_overlong s packet _ r.plain (omega arith) (omega arith)))
