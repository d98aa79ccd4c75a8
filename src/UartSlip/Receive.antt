-- ===== src/UartSlip/Receive.antt =====
-- The receive loop over the octets of one frame, whatever follows them.
use morse_cli.Base.{◌≡◌, ◌∙◌, arith, List, [], ◌∷◌, ◌++◌, map, Bytes}
use morse_cli.Slip.{complete, in_progress, SlipRxState, slip_rx}
use morse_cli.Slip.RoundTrip.{rx_run}
use morse_cli.UartSlip.{
  UartRead, octet, RxLoop, Turn, more, returned, check_frame, after_octet, receive_step, receive,
}

-- The loop taken up again after a turn.
abbrev pub resume : Bytes → Turn → List UartRead → Turn
resume seq (more rx) reads = receive seq reads rx
resume seq (returned code rx) reads = returned code rx

pub receive-resume :
    (seq : Bytes) (r : UartRead) (reads : List UartRead) (rx : RxLoop)
    → receive seq (r ∷ reads) rx ≡ resume seq (receive_step seq r rx) reads
unfolding receive
receive-resume seq r reads rx = ground arith

-- Where the receiver completes at the last of some octets, the loop goes on with the frame's checks.
pub receive_complete :
    (seq cs : Bytes) (reads : List UartRead) (rx : RxLoop) (s : SlipRxState)
    → rx_run rx.slip cs ≡ (complete, s, [])
    → receive seq (map octet cs ++ reads) rx
      ≡ resume seq (check_frame seq (record rx { slip = s; status = complete })) reads
unfolding rx_run receive_step after_octet
receive_complete seq [] reads rx s e = cc
receive_complete seq (c ∷ cs) reads rx s e =
    receive-resume seq (octet c) _ rx
    ∙ ground (
      arith,
      receive_complete seq cs reads
          (record rx { slip = (slip_rx rx.slip c).1; status = in_progress }) s,
    )
