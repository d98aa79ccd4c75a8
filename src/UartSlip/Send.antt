-- ===== src/UartSlip/Send.antt =====
-- uart_slip_send as a whole.
use morse_cli.Base.{
  ℕ, ◌+◌, ◌%◌, ◌^◌, ◌≤◌, ◌≡◌, refl, ap, ◌∙◌, sym, arith, true, List, [], ◌∷◌, ◌++◌, Bytes, length,
  leb, take, drop, some, ℤ, pos, All,
}
use morse_cli.Base.{length-map, length-drop, drop-take_append}
use morse_cli.Slip.{SlipRxState, slip_rx_state_init, in_progress}
use morse_cli.Slip.RoundTrip.{IsReady}
use morse_cli.Slip.Escape.{frame}
use morse_cli.Slip.Transmit.{send_all, slip_tx-frame}
use morse_cli.Transport.{TransportBuff, slice, store_bytes, etranssucc}
use morse_cli.Transport.Store.{slice-store_bytes, length-store_bytes}
use morse_cli.UartSlip.{
  append_trailer, UartRead, finished, seq_num, close, uart_slip_tx_char, uart_slip_send,
}
use morse_cli.UartSlip.Accept.{response, crc_octets}
use morse_cli.UartSlip.Deliver.{incoming, incoming_all, IsForeign, receive-response}

-- A buffer with room for the trailer behind its data, as uart_slip_alloc makes it.
pub record HasRoom (b : TransportBuff) : Type 0 where
  pub sized : length b.memblock ≡ b.capacity
  pub room : b.data_offset + b.data_len + 6 ≤ b.capacity

abbrev pub command_data : TransportBuff → Bytes
command_data b = slice b.memblock b.data_offset b.data_len

-- The command goes out as its data, the sequence number and the checksum of both.
append_trailer-response :
    (cmd : TransportBuff) (seq : Bytes)
    → HasRoom cmd
    → length seq ≡ 4
    → (mem : Bytes) × (append_trailer cmd seq
        ≡ some (record cmd { memblock = mem; data_len = cmd.data_len + 4 + 2 }))
      × (slice mem cmd.data_offset (cmd.data_len + 4 + 2)
          ≡ response (slice cmd.memblock cmd.data_offset cmd.data_len) seq)
unfolding append_trailer
append_trailer-response cmd seq r four =
    let len = cmd.data_len + 4 in
    let mem = store_bytes cmd.memblock (cmd.data_offset + cmd.data_len) seq in
    let crcs = crc_octets (slice mem cmd.data_offset len) in
    let text = slice cmd.memblock cmd.data_offset cmd.data_len in
    let body : slice mem cmd.data_offset len ≡ text ++ seq =
      ap (λ n. slice mem cmd.data_offset (cmd.data_len + n)) (sym four)
      ∙ slice-store_bytes seq cmd.memblock cmd.data_offset cmd.data_len (omega arith) in
    let kept = length-store_bytes seq cmd.memblock (cmd.data_offset + cmd.data_len) in
    let fits : leb len cmd.capacity ≡ true = ground arith in
    let fits' : leb (len + 2) cmd.capacity ≡ true = ground arith in
    (
      store_bytes mem (cmd.data_offset + len) crcs,
      rw fits (rw fits'),
      slice-store_bytes crcs mem cmd.data_offset len (omega (arith, kept))
          ∙ ap (λ b. b ++ crc_octets b) body,
    )

module _ {S : Type 0} (uart_write : ℕ → S → ℤ × S) where
  tx_char_state :
      (bs : Bytes) (s : S) → send_all (uart_slip_tx_char uart_write) bs s ≡ send_all uart_write bs s
  unfolding uart_slip_tx_char
  tx_char_state [] s = refl
  tx_char_state (b ∷ bs) s =
      let one : (uart_slip_tx_char uart_write b s).1 ≡ (uart_write b s).1 = ground arith in
      ap (send_all (uart_slip_tx_char uart_write) bs) one ∙ tx_char_state bs (uart_write b s).1

  module _ (works : (c : ℕ) (s : S) → (uart_write c s).0 ≡ pos 1) where
    tx_char_works : (c : ℕ) (s : S) → (uart_slip_tx_char uart_write c s).0 ≡ pos 0
    unfolding uart_slip_tx_char
    tx_char_works c s = grind (arith, works)

    -- On a UART that takes every octet the command goes out as one frame with its sequence number and
    -- checksum, and, once the answer to it has come in behind any foreign frames, the payload of
    -- the answer stands in the response buffer and the command buffer has its length back.
    pub uart_slip_send-response :
        (cmd resp : TransportBuff) (rands payload : Bytes) (bodies : List Bytes)
        (reads : List UartRead) (s : S)
        → HasRoom cmd
        → length rands ≡ 4
        → length resp.memblock ≡ resp.data_offset + resp.capacity
        → All (IsForeign (seq_num rands) resp.capacity) bodies
        → length payload + 6 ≤ resp.capacity
        → (cmd' resp' : TransportBuff) × (uart_slip_send uart_write true cmd resp rands
              (incoming_all bodies ++ (incoming (response payload (seq_num rands)) ++ reads))
              s
            ≡ (
              finished etranssucc cmd' resp',
              send_all uart_write (frame (response (command_data cmd) (seq_num rands))) s,
            ))
          × (cmd'.data_len ≡ cmd.data_len)
          × (resp'.data_len ≡ length payload)
          × (slice resp'.memblock resp'.data_offset (length payload) ≡ payload)
    unfolding uart_slip_send close
    uart_slip_send-response cmd resp rands payload bodies reads s r four sized h fits =
        let seq = seq_num rands in
        let four' : length seq ≡ 4 = omega (arith, length-map rands (λ (r : ℕ). r % 2 ^ 8)) in
        let (mem, appended, text) = append_trailer-response cmd seq r four' in
        let s0 : SlipRxState =
          slip_rx_state_init (drop resp.data_offset resp.memblock) resp.capacity in
        let ready : IsReady s0 = record {
          sized = omega (arith, length-drop resp.data_offset resp.memblock);
          empty = refl;
          plain = refl;
        } in
        let (rx, received, len, front) =
          receive-response seq payload bodies reads
            (record { slip = s0; status = in_progress; data_len = 0 }) four' ready h fits in
        (
          record cmd { memblock = mem },
          record resp {
            memblock = take resp.data_offset resp.memblock ++ rx.slip.buffer;
            data_len = rx.data_len;
          },
          rw appended (
              rw (slip_tx-frame (uart_slip_tx_char uart_write) tx_char_works)
                (rw text (rw tx_char_state (rw received)))),
          refl,
          len,
          ap (take (length payload))
                (drop-take_append resp.memblock rx.slip.buffer resp.data_offset (omega arith))
              ∙ front,
        )
