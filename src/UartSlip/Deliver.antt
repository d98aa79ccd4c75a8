-- ===== src/UartSlip/Deliver.antt =====
-- The receive loop over whole frames: those that are passed over, and the response.
use morse_cli.Base.{
  ℕ, ◌+◌, ◌-◌, ◌≤◌, ◌≡◌, ◌≢◌, refl, ap, ◌∙◌, sym, arith, false, if◌then◌else◌, List, [], ◌∷◌, ◌++◌,
  map, Bytes, length, take, drop, take-append-drop, take-take, take-append_left, take-length,
  length-append, append_assoc, append-nil, ◌<◌, All,
}
use mathlib.Core.Path.{subst}
use morse_cli.Slip.{complete, SlipRxState, slip_rx_state_reset}
use morse_cli.Slip.Escape.{frame}
use morse_cli.Slip.RoundTrip.{IsReady, rx_run, rx_run-frame}
use morse_cli.Transport.{etranssucc}
use morse_cli.UartSlip.{UartRead, octet, RxLoop, returned, receive, ignore_frame}
use morse_cli.UartSlip.Accept.{
  accepts, ignored_len, response, check_frame-accepts, accepts-response, response_len,
}
use morse_cli.UartSlip.Receive.{resume, receive_complete}

-- A frame's octets as they come out of uart_read.
abbrev pub incoming : Bytes → List UartRead
incoming body = map octet (frame body)

abbrev pub incoming_all : List Bytes → List UartRead
incoming_all [] = []
incoming_all (body ∷ bodies) = incoming body ++ incoming_all bodies

-- The receiver's buffer after a frame holds the frame's body at its front.
record Holds (bound : ℕ) (body : Bytes) (s : SlipRxState) : Type 0 where
  len : s.length ≡ length body
  front : take (length body) s.buffer ≡ body
  sized : length s.buffer ≡ s.buffer_length
  bounded : s.buffer_length ≡ bound

-- One frame through the loop.
receive-incoming :
    (seq body : Bytes) (reads : List UartRead) (rx : RxLoop)
    → IsReady rx.slip
    → body ≢ []
    → length body ≤ rx.slip.buffer_length
    → (s : SlipRxState) × Holds rx.slip.buffer_length body s
      × (receive seq (incoming body ++ reads) rx
          ≡ resume seq
              (if accepts seq body
                then returned etranssucc
                    (record rx { slip = s; status = complete; data_len = length body - 2 - 4 })
                else ignore_frame
                    (record rx { slip = s; status = complete })
                    (ignored_len seq body))
              reads)
receive-incoming seq body reads rx r ne h =
    let (s, run, len, front, sized, same) = rx_run-frame rx.slip body [] r ne h in
    let rx' : RxLoop = record rx { slip = s; status = complete } in
    let buffer : s.buffer ≡ body ++ drop (length body) s.buffer =
      sym (take-append-drop (length body) s.buffer)
      ∙ ap (λ t. t ++ drop (length body) s.buffer) front in
    let run' : rx_run rx.slip (frame body) ≡ (complete, s, []) =
      ap (rx_run rx.slip) (sym (append-nil (frame body))) ∙ run in
    (
      s,
      record { len = len; front = front; sized = sized; bounded = same },
      receive_complete seq (frame body) reads rx s run'
          ∙ ap (λ t. resume seq t reads)
              (check_frame-accepts seq rx' body (drop (length body) s.buffer) buffer len),
    )

-- A frame that the loop passes over: not empty, within the buffer, and not the response.
abbrev pub IsForeign : Bytes → ℕ → Bytes → Type 0
IsForeign seq bound body = (body ≢ []) × (length body ≤ bound) × (accepts seq body ≡ false)

-- After it the receiver is ready again, whatever it received.
receive-IsForeign :
    (seq body : Bytes) (reads : List UartRead) (rx : RxLoop)
    → IsReady rx.slip
    → IsForeign seq rx.slip.buffer_length body
    → (rx' : RxLoop) × (receive seq (incoming body ++ reads) rx ≡ receive seq reads rx')
      × IsReady rx'.slip
      × (rx'.slip.buffer_length ≡ rx.slip.buffer_length)
receive-IsForeign seq body reads rx r (ne, h, foreign) =
    let (s, holds, run) = receive-incoming seq body reads rx r ne h in
    (
      record rx {
        slip = slip_rx_state_reset s;
        status = complete;
        data_len = ignored_len seq body;
      },
      run ∙ rw foreign,
      record { sized = holds.sized; empty = refl; plain = refl },
      holds.bounded,
    )

ne-nil_of_pos : (body : Bytes) → 0 < length body → body ≢ []
ne-nil_of_pos [] h = absurd (omega arith)
ne-nil_of_pos (c ∷ cs) h = λ e. cc

take-response : (payload seq : Bytes) → take (length payload) (response payload seq) ≡ payload
take-response payload seq =
    take-append_left (payload ++ seq) _ (length payload) (omega (arith, length-append payload seq))
    ∙ take-append_left payload seq (length payload) (omega arith)
    ∙ take-length payload

-- However many foreign frames come first, the loop delivers the payload of the response.
pub receive-response :
    (seq payload : Bytes) (bodies : List Bytes) (reads : List UartRead) (rx : RxLoop)
    → length seq ≡ 4
    → IsReady rx.slip
    → All (IsForeign seq rx.slip.buffer_length) bodies
    → length payload + 6 ≤ rx.slip.buffer_length
    → (rx' : RxLoop) × (receive seq
          (incoming_all bodies ++ (incoming (response payload seq) ++ reads))
          rx
        ≡ returned etranssucc rx')
      × (rx'.data_len ≡ length payload)
      × (take (length payload) rx'.slip.buffer ≡ payload)
receive-response seq payload [] reads rx four r h fits =
    let resp = response payload seq in
    let len = response_len payload seq four in
    let (s, holds, run) =
      receive-incoming seq resp reads rx r (ne-nil_of_pos resp (omega (arith, len)))
        (omega (arith, len)) in
    (
      record rx { slip = s; status = complete; data_len = length resp - 2 - 4 },
      run ∙ rw (accepts-response payload seq four),
      omega (arith, len),
      sym (take-take (length payload) (length resp) s.buffer (omega (arith, len)))
          ∙ ap (take (length payload)) holds.front
          ∙ take-response payload seq,
    )
receive-response seq payload (body ∷ bodies) reads rx four r (hb, h) fits =
    let rest = incoming (response payload seq) ++ reads in
    let (rx', run, ready, same) =
      receive-IsForeign seq body (incoming_all bodies ++ rest) rx r hb in
    let (rx'', run', len, front) =
      receive-response seq payload bodies reads rx' four ready
        (subst (λ n. All (IsForeign seq n) bodies) (sym same) h) (omega arith) in
    (
      rx'',
      ap (λ t. receive seq t rx) (append_assoc (incoming body) (incoming_all bodies) rest)
          ∙ run
          ∙ run',
      len,
      front,
    )
