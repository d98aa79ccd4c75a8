-- ===== src/UartSlip/Runs.antt =====
-- A command sent and answered on a concrete UART.
use morse_cli.Base.{ℕ, ◌≡◌, refl, true, false, arith, [], ◌∷◌, ◌++◌, Bytes, replicate, ℤ, pos}
use morse_cli.Crc.{morse_crc16}
use morse_cli.Slip.{slip_rx, slip_rx_append, slip_rx_state_init, complete, in_progress}
use morse_cli.Slip.Escape.{escape_octet, frame}
use morse_cli.Slip.Transmit.{send_all}
use morse_cli.Transport.{TransportBuff, slice, etranssucc}
use morse_cli.UartSlip.{
  timeout, RxLoop, returned, bytes_eq, crc_mismatch, check_frame, after_octet, receive_step,
  receive, finished, seq_num, uart_slip_send,
}
use morse_cli.UartSlip.Accept.{accepts, response}
use morse_cli.UartSlip.Deliver.{incoming, incoming_all}
use morse_cli.UartSlip.Sound.{Answers, receive_sound}
use morse_cli.UartSlip.Send.{command_data, uart_slip_send-response}

abbrev rands : Bytes
rands = 1 ∷ 2 ∷ 3 ∷ 260 ∷ []

abbrev command : TransportBuff
command = record { memblock = 10 ∷ 11 ∷ replicate 6 0; capacity = 8; data_offset = 0; data_len = 2 }

abbrev reply : TransportBuff
reply = record { memblock = replicate 9 0; capacity = 9; data_offset = 0; data_len = 3 }

abbrev uart : ℕ → Bytes → ℤ × Bytes
uart c s = (pos 1, s ++ (c ∷ []))

-- An octet alone, which is too short to be a response.
abbrev stray : Bytes
stray = 5 ∷ []

stray_foreign : accepts (seq_num rands) stray ≡ false
unfolding accepts
stray_foreign = refl

uart_slip_send-response_example :
    (cmd' resp' : TransportBuff) × (uart_slip_send uart true command reply rands
        (incoming_all (stray ∷ []) ++ (incoming (response (7 ∷ 0xc0 ∷ []) (seq_num rands)) ++ []))
        []
      ≡ (
        finished etranssucc cmd' resp',
        send_all uart (frame (response (command_data command) (seq_num rands))) [],
      ))
    × (cmd'.data_len ≡ 2)
    × (resp'.data_len ≡ 2)
    × (slice resp'.memblock resp'.data_offset 2 ≡ 7 ∷ 0xc0 ∷ [])
uart_slip_send-response_example =
    uart_slip_send-response uart (λ c s. refl) command reply rands (7 ∷ 0xc0 ∷ []) (stray ∷ []) []
      [] (omega arith) refl refl (((λ e. cc), omega arith, stray_foreign), tt) (omega arith)

-- The receive loop alone: a time-out, then the response to the number 1 2 3 4.
abbrev waiting_rx : RxLoop
waiting_rx = record {
  slip = slip_rx_state_init (replicate 7 0) 7;
  status = in_progress;
  data_len = 0;
}

abbrev served_rx : RxLoop
served_rx = record {
  slip = record {
    buffer = response (7 ∷ []) (seq_num rands);
    buffer_length = 7;
    length = 7;
    escape = false;
  };
  status = complete;
  data_len = 1;
}

served :
    receive (seq_num rands) (timeout ∷ incoming (response (7 ∷ []) (seq_num rands))) waiting_rx
    ≡ returned etranssucc served_rx
unfolding receive receive_step after_octet check_frame crc_mismatch bytes_eq slip_rx slip_rx_append
    escape_octet morse_crc16
served = refl

receive_sound_example : Answers (seq_num rands) served_rx
receive_sound_example =
    receive_sound (seq_num rands) refl (timeout ∷ incoming (response (7 ∷ []) (seq_num rands)))
      waiting_rx (omega arith) served
