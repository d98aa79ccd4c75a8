-- ===== src/Transport.antt =====
-- transport/transport.h: the error codes and the buffer that commands and framing live in.
pub mod Store
pub mod Table
pub mod Dispatch
pub mod Choice
mod Runs
use morse_cli.Base.{ℕ, Bytes, take, drop, set, [], ◌∷◌, ◌+◌, ℤ, pos, negsuc}

-- enum moresctrl_transport_errnum, as the codes that functions return.
abbrev pub etranssucc : ℤ
etranssucc = pos 0

-- -ETRANSERR
abbrev pub minus_etranserr : ℤ
minus_etranserr = negsuc 1

-- -ETRANSNOTSUP
abbrev pub minus_etransnotsup : ℤ
minus_etransnotsup = negsuc 4

-- -ETRANSNODEV
abbrev pub minus_etransnodev : ℤ
minus_etransnodev = negsuc 18

-- struct morsectrl_transport_buff: `data` is the offset of the data pointer in the memory block.
pub record TransportBuff : Type 0 where
  pub memblock : Bytes
  pub capacity : ℕ
  pub data_offset : ℕ
  pub data_len : ℕ

-- The `n` bytes from an offset on.
abbrev pub slice : Bytes → ℕ → ℕ → Bytes
slice mem offset n = take n (drop offset mem)

-- Bytes stored one after the other from an offset on.
abbrev pub store_bytes : Bytes → ℕ → Bytes → Bytes
store_bytes mem offset [] = mem
store_bytes mem offset (b ∷ bs) = store_bytes (set mem offset b) (offset + 1) bs
