-- ===== src/Slip/Escape.antt =====
-- The SLIP format, described without the transmitter: what stands for an octet, and the frame.
use morse_cli.Base.{ℕ, ◌==◌, if◌then◌else◌, [], ◌∷◌, ◌++◌, Bytes}
use morse_cli.Slip.{slip_frame_end, slip_frame_esc, slip_frame_esc_end, slip_frame_esc_esc}

unfoldable pub escape_octet : ℕ → Bytes
escape_octet c =
    if c == slip_frame_esc
    then slip_frame_esc ∷ slip_frame_esc_esc ∷ []
    else if c == slip_frame_end
    then slip_frame_esc ∷ slip_frame_esc_end ∷ []
    else c ∷ []

abbrev pub escaped : Bytes → Bytes
escaped [] = []
escaped (c ∷ cs) = escape_octet c ++ escaped cs

abbrev pub frame : Bytes → Bytes
frame packet = slip_frame_end ∷ (escaped packet ++ (slip_frame_end ∷ []))
