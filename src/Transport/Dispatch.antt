-- ===== src/Transport/Dispatch.antt =====
-- transport/transport.c: the functions that hand a request to the operations of the chosen
-- transport. A pointer to an operation may be null: `none`.
use morse_cli.Base.{ℕ, ◌+◌, ◌%◌, ◌^◌, Bool, false, Option, none, some, Bytes, List, ℤ}
use morse_cli.Transport.{
  TransportBuff, etranssucc, minus_etranserr, minus_etransnotsup, minus_etransnodev,
}
use morse_cli.Transport.Table.{Entry, find_transport_ops}

-- struct morsectrl_transport_ops, over a state of the device. The flags `start` and `finish` go to
-- the raw operations as they are.
pub record TransportOps (S : Type 0) : Type 0 where
  pub has_reset : Bool
  pub init : Option (S → ℤ × S)
  pub deinit : Option (S → ℤ × S)
  pub write_alloc : Option (ℕ → S → Option TransportBuff × S)
  pub read_alloc : Option (ℕ → S → Option TransportBuff × S)
  pub send : TransportBuff → TransportBuff → S → (ℤ × TransportBuff) × S
  pub reg_read : Option (ℕ → S → (ℤ × ℕ) × S)
  pub reg_write : Option (ℕ → ℕ → S → ℤ × S)
  pub mem_read : Option (TransportBuff → ℕ → S → (ℤ × TransportBuff) × S)
  pub mem_write : Option (TransportBuff → ℕ → S → ℤ × S)
  pub raw_read : TransportBuff → Bool → Bool → S → (ℤ × TransportBuff) × S
  pub raw_write : TransportBuff → Bool → Bool → S → ℤ × S
  pub raw_read_write : TransportBuff → TransportBuff → Bool → Bool → S → (ℤ × TransportBuff) × S
  pub reset_device : Option (S → ℤ × S)
  pub get_ifname : Option Bytes

-- sizeof(struct command) and sizeof(struct response)
abbrev pub sizeof_command : ℕ
sizeof_command = 12

abbrev pub sizeof_response : ℕ
sizeof_response = 16

-- A function's result where a null operation is called without a test.
pub data Called (A : Type 0) : Type 0 where
  crashed : Called A
  came_back : A → Called A

-- The length is a uint16_t.
unfoldable pub set_cmd_data_length : TransportBuff → ℕ → TransportBuff
set_cmd_data_length tbuff length = record tbuff { data_len = sizeof_command + length % 2 ^ 16 }

-- Each function takes `transport->tops`.
module _ {S : Type 0} where
  unfoldable pub transport_init : Option (TransportOps S) → S → ℤ × S
  transport_init none s = (minus_etranserr, s)
  transport_init (some ops) s = elim ops.init [ none ↦ (minus_etranserr, s) | some f ↦ f s ]

  -- The operations after it, with the code.
  unfoldable pub transport_deinit : Option (TransportOps S) → S → (ℤ × Option (TransportOps S)) × S
  transport_deinit none s = ((etranssucc, none), s)
  transport_deinit (some ops) s = elim ops.deinit [
    | none ↦ ((etranssucc, none), s)
    | some f ↦ let (ret, s') = f s in ((ret, none), s')
  ]

  abbrev pub alloc_with :
      Option (ℕ → S → Option TransportBuff × S) → ℕ → S → Called (Option TransportBuff × S)
  alloc_with none size s = crashed
  alloc_with (some f) size s = came_back (f size s)

  unfoldable pub cmd_alloc : Option (TransportOps S) → ℕ → S → Called (Option TransportBuff × S)
  cmd_alloc none size s = came_back (none, s)
  cmd_alloc (some ops) size s = alloc_with ops.write_alloc (sizeof_command + size) s

  unfoldable pub resp_alloc : Option (TransportOps S) → ℕ → S → Called (Option TransportBuff × S)
  resp_alloc none size s = came_back (none, s)
  resp_alloc (some ops) size s = alloc_with ops.read_alloc (sizeof_response + size) s

  unfoldable pub raw_read_alloc : Option (TransportOps S) → ℕ → S → Option TransportBuff × S
  raw_read_alloc none size s = (none, s)
  raw_read_alloc (some ops) size s = elim ops.read_alloc [ none ↦ (none, s) | some f ↦ f size s ]

  unfoldable pub raw_write_alloc : Option (TransportOps S) → ℕ → S → Option TransportBuff × S
  raw_write_alloc none size s = (none, s)
  raw_write_alloc (some ops) size s = elim ops.write_alloc [ none ↦ (none, s) | some f ↦ f size s ]

  -- A value that was not read is `none`.
  unfoldable pub reg_read : Option (TransportOps S) → ℕ → S → (ℤ × Option ℕ) × S
  reg_read none addr s = ((minus_etranserr, none), s)
  reg_read (some ops) addr s = elim ops.reg_read [
    | none ↦ ((minus_etranserr, none), s)
    | some f ↦ let ((ret, value), s') = f addr s in ((ret, some value), s')
  ]

  unfoldable pub reg_write : Option (TransportOps S) → ℕ → ℕ → S → ℤ × S
  reg_write none addr value s = (minus_etranserr, s)
  reg_write (some ops) addr value s = elim ops.reg_write [
    | none ↦ (minus_etransnotsup, s)
    | some f ↦ f addr value s
  ]

  unfoldable pub mem_read :
      Option (TransportOps S) → TransportBuff → ℕ → S → (ℤ × TransportBuff) × S
  mem_read none read addr s = ((minus_etranserr, read), s)
  mem_read (some ops) read addr s = elim ops.mem_read [
    | none ↦ ((minus_etransnotsup, read), s)
    | some f ↦ f read addr s
  ]

  unfoldable pub mem_write : Option (TransportOps S) → TransportBuff → ℕ → S → ℤ × S
  mem_write none write addr s = (minus_etranserr, s)
  mem_write (some ops) write addr s = elim ops.mem_write [
    | none ↦ (minus_etransnotsup, s)
    | some f ↦ f write addr s
  ]

  unfoldable pub transport_send :
      Option (TransportOps S) → TransportBuff → TransportBuff → S → (ℤ × TransportBuff) × S
  transport_send none cmd resp s = ((minus_etranserr, resp), s)
  transport_send (some ops) cmd resp s = ops.send cmd resp s

  unfoldable pub raw_read :
      Option (TransportOps S) → TransportBuff → Bool → Bool → S → (ℤ × TransportBuff) × S
  raw_read none read start finish s = ((minus_etranserr, read), s)
  raw_read (some ops) read start finish s = ops.raw_read read start finish s

  unfoldable pub raw_write : Option (TransportOps S) → TransportBuff → Bool → Bool → S → ℤ × S
  raw_write none write start finish s = (minus_etranserr, s)
  raw_write (some ops) write start finish s = ops.raw_write write start finish s

  unfoldable pub raw_read_write :
      Option (TransportOps S)
      → TransportBuff
      → TransportBuff
      → Bool
      → Bool
      → S
      → (ℤ × TransportBuff) × S
  raw_read_write none read write start finish s = ((minus_etranserr, read), s)
  raw_read_write (some ops) read write start finish s = ops.raw_read_write read write start finish s

  unfoldable pub reset_device : Option (TransportOps S) → S → ℤ × S
  reset_device none s = (minus_etranserr, s)
  reset_device (some ops) s = elim ops.reset_device [
    | none ↦ (minus_etransnotsup, s)
    | some f ↦ f s
  ]

  unfoldable pub get_ifname : Option (TransportOps S) → Option Bytes
  get_ifname none = none
  get_ifname (some ops) = ops.get_ifname

  -- A transport or its operations may be null.
  unfoldable pub transport_has_reset : Option (Option (TransportOps S)) → Bool
  transport_has_reset (some (some ops)) = ops.has_reset
  transport_has_reset (some none) = false
  transport_has_reset none = false

-- morsectrl_transport_parse: `parse` is the operation of the entry that was found.
module _ {S : Type 0} where
  unfoldable pub transport_parse : Option Bytes → List (Entry (S → ℤ × S)) → S → ℤ × S
  transport_parse trans_opts table s = elim (find_transport_ops trans_opts table) [
    | none ↦ (minus_etransnodev, s)
    | some e ↦ Entry.operations e s
  ]
