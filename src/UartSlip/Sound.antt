-- ===== src/UartSlip/Sound.antt =====
-- What the response buffer holds whenever the receive loop reports success.
use morse_cli.Base.{
  ◌≡◌, refl, ap, ◌∙◌, sym, arith, Bool-cases, List, [], ◌∷◌, ◌++◌, Bytes, length, length-take, take,
  drop, take-append-drop, inl, inr,
}
use morse_cli.Slip.{complete, in_progress, buffer_limit, error, SlipRxStatus, slip_rx}
use morse_cli.Slip.Bounds.{IsValid, slip_rx-IsValid}
use morse_cli.Transport.{etranssucc}
use morse_cli.UartSlip.{
  UartRead, octet, timeout, failed, RxLoop, Turn, more, returned, check_frame, after_octet,
  receive_step, receive,
}
use morse_cli.UartSlip.Receive.{resume, receive-resume}
use morse_cli.UartSlip.Accept.{accepts, accepts_iff, response, response_len, check_frame-accepts}

-- The buffer begins with a payload, the sequence number `seq` and their checksum, and `data_len` is
-- the length of that payload.
pub record Answers (seq : Bytes) (rx : RxLoop) : Type 0 where
  pub payload : Bytes
  pub junk : Bytes
  pub buffer : rx.slip.buffer ≡ response payload seq ++ junk
  pub len : rx.data_len ≡ length payload

-- A turn is sound: it leaves a valid receiver, and success means that the buffer answers.
abbrev IsSound : Bytes → Turn → Type 0
IsSound seq (more rx) = IsValid rx.slip
IsSound seq (returned code rx) = code ≡ etranssucc → Answers seq rx

module _ (seq : Bytes) (four : length seq ≡ 4) where
  check_frame-IsSound : (rx : RxLoop) → IsValid rx.slip → IsSound seq (check_frame seq rx)
  check_frame-IsSound rx v =
      let s = rx.slip in
      let f = take s.length s.buffer in
      let len : s.length ≡ length f = omega (arith, length-take s.length s.buffer) in
      let buffer : s.buffer ≡ f ++ drop s.length s.buffer =
        sym (take-append-drop s.length s.buffer) in
      rw (check_frame-accepts seq rx f (drop s.length s.buffer) buffer len)
        (elim (Bool-cases (accepts seq f)) [
          | inl good ↦
              let (payload, shape) = (accepts_iff seq f four).0 good in
              rw good (λ _. record {
                payload = payload;
                junk = drop s.length s.buffer;
                buffer = buffer ∙ ap (λ t. t ++ drop s.length s.buffer) shape;
                len = omega (arith, ap length shape, response_len payload seq four);
              })
          | inr foreign ↦ rw foreign (omega arith)
        ])

  after_octet-IsSound :
      (status : SlipRxStatus) (rx : RxLoop)
      → IsValid rx.slip
      → IsSound seq (after_octet seq status rx)
  unfolding after_octet
  after_octet-IsSound in_progress rx v = v
  after_octet-IsSound complete rx v = check_frame-IsSound rx v
  after_octet-IsSound buffer_limit rx v = λ e. cc
  after_octet-IsSound error rx v = λ e. cc

  receive_step-IsSound :
      (r : UartRead) (rx : RxLoop) → IsValid rx.slip → IsSound seq (receive_step seq r rx)
  unfolding receive_step
  receive_step-IsSound (octet c) rx v =
      after_octet-IsSound _
        (record rx { slip = (slip_rx rx.slip c).1; status = (slip_rx rx.slip c).0 })
        (slip_rx-IsValid rx.slip c v).0
  receive_step-IsSound timeout rx v = after_octet-IsSound rx.status rx v
  receive_step-IsSound (failed code) rx v = λ e. cc

  resume-IsSound :
      (reads : List UartRead)
      → ((rx : RxLoop) → IsValid rx.slip → IsSound seq (receive seq reads rx))
      → (t : Turn) → IsSound seq t
      → IsSound seq (resume seq t reads)
  resume-IsSound reads ih (more rx) v = ih rx v
  resume-IsSound reads ih (returned code rx) h = h

  receive-IsSound :
      (reads : List UartRead) (rx : RxLoop) → IsValid rx.slip → IsSound seq (receive seq reads rx)
  receive-IsSound [] rx v = unfold receive in v
  receive-IsSound (r ∷ reads) rx v = rw receive-resume (
      resume-IsSound reads (receive-IsSound reads) (receive_step seq r rx)
        (receive_step-IsSound r rx v))

  -- Whatever comes out of the UART, the loop reports success only for a buffer that answers.
  pub receive_sound :
      (reads : List UartRead) (rx : RxLoop) {rx' : RxLoop}
      → IsValid rx.slip
      → receive seq reads rx ≡ returned etranssucc rx'
      → Answers seq rx'
  receive_sound reads rx v e = (rw e at (receive-IsSound reads rx v)) refl
