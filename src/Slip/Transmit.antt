-- ===== src/Slip/Transmit.antt =====
-- What slip_tx hands to the transmit function, and the code that it returns.
use morse_cli.Base.{ℕ, ◌≡◌, refl, arith, [], ◌∷◌, ◌++◌, Bytes, ℤ, pos}
use morse_cli.Slip.{slip_frame_end, tx_octet, tx_loop, slip_tx}
use morse_cli.Slip.Escape.{escape_octet, escaped, frame}

module _ {S : Type 0} (transport_tx_fn : ℕ → S → ℤ × S) where
  -- The transport's state after a row of octets.
  abbrev pub send_all : Bytes → S → S
  send_all [] s = s
  send_all (c ∷ cs) s = send_all cs (transport_tx_fn c s).1

  pub send_all-append : (a b : Bytes) (s : S) → send_all (a ++ b) s ≡ send_all b (send_all a s)
  send_all-append [] b s = refl
  send_all-append (c ∷ a) b s = send_all-append a b (transport_tx_fn c s).1

  tx_loop-last :
      (front : Bytes) (c : ℕ) (ret : ℤ) (s : S)
      → (tx_loop transport_tx_fn (front ++ (c ∷ [])) ret s).0
        ≡ (tx_octet transport_tx_fn c (tx_loop transport_tx_fn front ret s).1).0
  unfolding tx_loop
  tx_loop-last [] c ret s = refl
  tx_loop-last (x ∷ front) c ret s =
      tx_loop-last front c (tx_octet transport_tx_fn x s).0 (tx_octet transport_tx_fn x s).1

  -- The code that slip_tx returns is that of the packet's last octet: the codes of the octets before
  -- it, and of both frame ends, are overwritten or dropped.
  pub slip_tx-last :
      (front : Bytes) (c : ℕ) (s : S)
      → (slip_tx transport_tx_fn (front ++ (c ∷ [])) s).0
        ≡ (tx_octet transport_tx_fn c
            (tx_loop transport_tx_fn front (pos 0) (transport_tx_fn slip_frame_end s).1).1).0
  unfolding slip_tx
  slip_tx-last front c s = tx_loop-last front c (pos 0) (transport_tx_fn slip_frame_end s).1

  module _ (works : (c : ℕ) (s : S) → (transport_tx_fn c s).0 ≡ pos 0) where
    tx_octet-escape_octet :
        (c : ℕ) (s : S) → tx_octet transport_tx_fn c s ≡ (pos 0, send_all (escape_octet c) s)
    unfolding tx_octet escape_octet
    tx_octet-escape_octet c s = grind (arith, works)

    tx_loop-escaped :
        (packet : Bytes) (s : S)
        → tx_loop transport_tx_fn packet (pos 0) s ≡ (pos 0, send_all (escaped packet) s)
    unfolding tx_loop
    tx_loop-escaped [] s = refl
    tx_loop-escaped (c ∷ packet) s =
        rw (tx_octet-escape_octet c s, tx_loop-escaped packet, send_all-append (escape_octet c))

    -- Where the transmit function accepts every octet, slip_tx sends the frame of the packet, every
    -- octet in order, and returns 0.
    pub slip_tx-frame :
        (packet : Bytes) (s : S)
        → slip_tx transport_tx_fn packet s ≡ (pos 0, send_all (frame packet) s)
    unfolding slip_tx
    slip_tx-frame packet s = rw (
      tx_loop-escaped packet (transport_tx_fn slip_frame_end s).1,
      send_all-append (escaped packet),
    )
