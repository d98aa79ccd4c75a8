-- ===== src/UartSlip.antt =====
-- transport/uart_slip.c: commands over a UART, each in a SLIP frame with a sequence number and a
-- CRC. The UART driver (uart_read and uart_write) is the environment: writing is a parameter over a
-- state `S`, and reading is the list of what its calls return. `rand` is the list of its results.
pub mod Setup
pub mod Receive
pub mod Accept
pub mod Deliver
pub mod Sound
pub mod Send
mod Runs
use morse_cli.Base.{
  ℕ, zero, suc, ◌+◌, ◌-◌, ◌%◌, ◌/◌, ◌^◌, bit_and, Bool, true, false, not, ◌&&◌, ◌||◌, ◌==◌, ltb,
  leb, if◌then◌else◌, List, [], ◌∷◌, ◌++◌, map, Bytes, take, drop, set, replicate, get_or, Option,
  none, some, ℤ, pos, negsuc, is_zero,
}
use morse_cli.Crc.{morse_crc16}
use morse_cli.Slip.{
  SlipRxStatus, complete, in_progress, buffer_limit, error, SlipRxState, slip_rx_state_init,
  slip_rx_state_reset, slip_rx, slip_tx,
}
use morse_cli.Transport.{TransportBuff, slice, store_bytes, etranssucc, minus_etranserr}

abbrev pub seqnum_len : ℕ
seqnum_len = 4

abbrev pub crc_len : ℕ
crc_len = 2

-- uart_slip_alloc; the flags say whether the transport is there and the two calls of calloc succeed.
unfoldable pub uart_slip_alloc : Bool → Bool → Bool → ℕ → Option TransportBuff
uart_slip_alloc transport buff_allocated block_allocated size =
    if not transport
    then none
    else if size == 0
    then none
    else if not buff_allocated
    then none
    else if not block_allocated
    then none
    else some (record {
      memblock = replicate (size + seqnum_len + crc_len) 0;
      capacity = size + seqnum_len + crc_len;
      data_offset = 0;
      data_len = size;
    })

-- memcmp(a, b, n) == 0 for two fields of one size
unfoldable pub bytes_eq : Bytes → Bytes → Bool
bytes_eq [] [] = true
bytes_eq (x ∷ xs) (y ∷ ys) = x == y && bytes_eq xs ys
bytes_eq _ _ = false

-- What a call of uart_read for one octet returns: the octet and 1, 0 at a timeout, or a negative code.
pub data UartRead : Type 0 where
  octet : ℕ → UartRead
  timeout : UartRead
  failed : ℕ → UartRead

-- The variables of the receive loop: slip_rx_state, slip_rx_status and resp->data_len.
pub record RxLoop : Type 0 where
  pub slip : SlipRxState
  pub status : SlipRxStatus
  pub data_len : ℕ

-- After one turn of the loops the function waits for the next octet, or has returned a code.
pub data Turn : Type 0 where
  more : RxLoop → Turn
  returned : ℤ → RxLoop → Turn

-- A frame that is passed over: the outer loop begins again, with a receiver that is reset.
abbrev pub ignore_frame : RxLoop → ℕ → Turn
ignore_frame rx len = more (record rx { slip = slip_rx_state_reset rx.slip; data_len = len })

-- The frame's checksum against the one that stands behind it.
unfoldable pub crc_mismatch : Bytes → ℕ → Bool
crc_mismatch buffer len =
    let crc = morse_crc16 0 (take len buffer) in
    not (get_or buffer len 0 == bit_and crc 0xff)
    || not (get_or buffer (len + 1) 0 == bit_and (crc / 2 ^ 8) 0xff)

-- The body of the outer loop behind the inner one, for the status `complete`.
unfoldable pub check_frame : Bytes → RxLoop → Turn
check_frame cmd_seq rx =
    let len = rx.slip.length in
    let len' = len - crc_len in
    let len'' = len' - seqnum_len in
    if ltb len (seqnum_len + crc_len)
    then ignore_frame rx len
    else if crc_mismatch rx.slip.buffer len'
    then ignore_frame rx len'
    else if not (bytes_eq cmd_seq (slice rx.slip.buffer len'' seqnum_len))
    then ignore_frame rx len''
    else returned etranssucc (record rx { data_len = len'' })

-- The inner loop's test, and what follows it.
unfoldable pub after_octet : Bytes → SlipRxStatus → RxLoop → Turn
after_octet cmd_seq in_progress rx = more rx
after_octet cmd_seq complete rx = check_frame cmd_seq rx
after_octet cmd_seq buffer_limit rx = returned minus_etranserr rx
after_octet cmd_seq error rx = returned minus_etranserr rx

-- The inner loop's body. At a timeout `continue` goes to the loop's test, which reads the status
-- that the last octet left.
unfoldable pub receive_step : Bytes → UartRead → RxLoop → Turn
receive_step cmd_seq (octet c) rx =
    let (status, slip) = slip_rx rx.slip c in
    after_octet cmd_seq status (record rx { slip = slip; status = status })
receive_step cmd_seq timeout rx = after_octet cmd_seq rx.status rx
receive_step cmd_seq (failed code) rx = returned (negsuc code) rx

-- The loops over what uart_read returns. `more` at the end: the function still waits.
unfoldable pub receive : Bytes → List UartRead → RxLoop → Turn
receive cmd_seq [] rx = more rx
receive cmd_seq (r ∷ reads) rx = elim (receive_step cmd_seq r rx) [
  | more rx' ↦ receive cmd_seq reads rx'
  | returned code rx' ↦ returned code rx'
]

module _ {S : Type 0} (uart_write : ℕ → S → ℤ × S) where
  -- ret == 1
  abbrev is_one : ℤ → Bool
  is_one (pos n) = n == 1
  is_one (negsuc n) = false

  unfoldable pub uart_slip_tx_char : ℕ → S → ℤ × S
  uart_slip_tx_char c s =
      let (ret, s') = uart_write c s in if is_one ret then (pos 0, s') else (negsuc 0, s')

-- The command with its sequence number and CRC appended; `none` where an assertion stops the program.
unfoldable pub append_trailer : TransportBuff → Bytes → Option TransportBuff
append_trailer cmd seq =
    let len = cmd.data_len + seqnum_len in
    let mem = store_bytes cmd.memblock (cmd.data_offset + cmd.data_len) seq in
    let crc = morse_crc16 0 (slice mem cmd.data_offset len) in
    let crc_field = cmd.data_offset + len in
    let mem' = store_bytes mem crc_field (bit_and crc 0xff ∷ bit_and (crc / 2 ^ 8) 0xff ∷ []) in
    if not (leb len cmd.capacity)
    then none
    else if not (leb (len + crc_len) cmd.capacity)
    then none
    else some (record cmd { memblock = mem'; data_len = len + crc_len })

-- `finished` has the code and the two buffers; `aborted` is a failed assertion; `waiting` is the
-- receive loop when `reads` has run out.
pub data SendResult : Type 0 where
  aborted : SendResult
  waiting : SendResult
  finished : ℤ → TransportBuff → TransportBuff → SendResult

-- The receive loop's result in terms of the response buffer.
unfoldable pub close : TransportBuff → TransportBuff → Turn → SendResult
close cmd resp (more rx) = waiting
close cmd resp (returned code rx) = finished code cmd (record resp {
  memblock = take resp.data_offset resp.memblock ++ rx.slip.buffer;
  data_len = rx.data_len;
})

-- The receive part of uart_slip_send, for the command whose sequence number is `seq`.
abbrev pub receive_response : TransportBuff → TransportBuff → Bytes → List UartRead → SendResult
receive_response cmd resp seq reads =
    let slip = slip_rx_state_init (drop resp.data_offset resp.memblock) resp.capacity in
    close cmd resp (receive seq reads (record { slip = slip; status = in_progress; data_len = 0 }))

-- The sequence number: of each result of `rand` a byte is kept.
abbrev pub seq_num : Bytes → Bytes
seq_num = map (λ r. r % 2 ^ 8)

module _ {S : Type 0} (uart_write : ℕ → S → ℤ × S) where
  -- uart_slip_send; `present` is the test of the pointers, `rands` the four results of `rand`.
  unfoldable pub uart_slip_send :
      Bool → TransportBuff → TransportBuff → Bytes → List UartRead → S → SendResult × S
  uart_slip_send present cmd resp rands reads s =
      let seq = seq_num rands in
      if not present
      then (finished minus_etranserr cmd resp, s)
      else elim (append_trailer cmd seq) [
        | none ↦ (aborted, s)
        | some tx ↦
            let (ret, s') =
              slip_tx (uart_slip_tx_char uart_write) (slice tx.memblock tx.data_offset tx.data_len)
                s in
            let cmd' = record tx { data_len = cmd.data_len } in
            if not (is_zero ret)
            then (finished ret cmd' resp, s')
            else (receive_response cmd' resp seq reads, s')
      ]
