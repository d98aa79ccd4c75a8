-- ===== src/Sdio/Cover.antt =====
-- Where a memory transfer goes: the commands of memblock_common on a bus that keeps the keyhole
-- registers and notes every data command.
use morse_cli.Base.{
  ℕ, ◌+◌, ◌-◌, ◌*◌, ◌%◌, ◌/◌, ◌^◌, ◌≤◌, ◌<◌, ◌≡◌, refl, sym, arith, ◌==◌, Bool, Bool-cases, inl,
  inr, if◌then◌else◌, ℤ, pos, Bytes, List, [], ◌∷◌, ◌++◌, append-nil,
}
use morse_cli.Sdio.{fn_max_block_size}
use morse_cli.Sdio.Memblock.{Transfer, block_part, byte_part, section_body, align_size}

-- A data command as the chip sees it: the address with the window's upper half, and the octets of
-- memory and buffer.
pub record Chunk : Type 0 where
  pub chip_addr : ℕ
  pub at : ℕ
  pub octets : ℕ
  pub count : ℕ

pub record Bus : Type 0 where
  pub win0 : ℕ
  pub win1 : ℕ
  pub log : List Chunk

abbrev pub bus_cmd52 : Bool → ℕ → ℕ → ℕ → Bus → ℤ × Bus
bus_cmd52 write func addr octet bus =
    if addr == 0x10000
    then (pos 0, record bus { win0 = octet })
    else if addr == 0x10001
    then (pos 0, record bus { win1 = octet })
    else (pos 0, bus)

abbrev pub bus_cmd53 : Bytes → ℕ → Bool → ℕ → Bool → ℕ → ℕ → Bus → (ℤ × Bytes) × Bus
bus_cmd53 mem at write func block_mode addr count bus = (
  (pos 0, mem),
  record bus {
    log =
        bus.log
        ++ (record {
          chip_addr = (bus.win1 * 2 ^ 8 + bus.win0) * 2 ^ 16 + addr % 2 ^ 16;
          at = at;
          octets = if block_mode then count * 512 else count;
          count = count;
        }
            ∷ []);
  },
)

-- The commands cover `len` octets from an address and a buffer offset on, one behind the other and
-- with nothing left out, each inside one 64 KiB section and with a count of nine bits.
abbrev pub Covers : ℕ → ℕ → ℕ → List Chunk → Type 0
Covers addr at len [] = len ≡ 0
Covers addr at len (c ∷ cs) =
    (c.chip_addr ≡ addr)
    × (c.at ≡ at)
    × (0 < c.octets)
    × (c.octets ≤ len)
    × ((addr + c.octets - 1) / 2 ^ 16 ≡ addr / 2 ^ 16)
    × (c.count < 2 ^ 9)
    × Covers (addr + c.octets) (at + c.octets) (len - c.octets) cs

pub Covers-moved :
    (cs : List Chunk) {addr addr' at at' n n' : ℕ}
    → addr ≡ addr'
    → at ≡ at'
    → n ≡ n'
    → Covers addr at n cs
    → Covers addr' at' n' cs
Covers-moved cs p q r h = rw (sym p, sym q, sym r) h

pub Covers-append :
    (cs ds : List Chunk) (addr at n m : ℕ)
    → Covers addr at n cs
    → Covers (addr + n) (at + n) m ds
    → Covers addr at (n + m) (cs ++ ds)
Covers-append [] ds addr at n m h k = Covers-moved ds (omega arith) (omega arith) (omega arith) k
Covers-append (c ∷ cs) ds addr at n m (a, b, d, e, f, g, h) k =
    let rest : Covers (addr + c.octets + (n - c.octets)) (at + c.octets + (n - c.octets)) m ds =
      Covers-moved ds (omega arith) (omega arith) refl k in
    (
      a,
      b,
      d,
      omega arith,
      f,
      g,
      Covers-moved (cs ++ ds) refl refl (omega arith)
          (Covers-append cs ds (addr + c.octets) (at + c.octets) (n - c.octets) m h rest),
    )

-- The data commands of one section, under the window that is open.
abbrev pub block_chunk : ℕ → ℕ → ℕ → ℕ → List Chunk
block_chunk win addr at size =
    if size / 512 == 0
    then []
    else (record {
      chip_addr = win * 2 ^ 16 + addr % 2 ^ 16;
      at = at;
      octets = size / 512 % 2 ^ 16 * 512;
      count = size / 512 % 2 ^ 16;
    }
        ∷ [])

abbrev pub byte_chunk : ℕ → ℕ → ℕ → ℕ → List Chunk
byte_chunk win addr at size =
    if size % 512 == 0
    then []
    else (record {
      chip_addr = win * 2 ^ 16 + (addr + size - size % 512) % 2 ^ 32 % 2 ^ 16;
      at = at + (size - size % 512);
      octets = align_size (size % 512) 4 % 2 ^ 16;
      count = align_size (size % 512) 4 % 2 ^ 16;
    }
        ∷ [])

aligned : (n : ℕ) → n % 4 ≡ 0 → align_size n 4 ≡ n
unfolding align_size
aligned n h = ground arith

pub block_chunk-Covers :
    (win addr at size : ℕ)
    → win ≡ addr / 2 ^ 16
    → size ≤ 2 ^ 16
    → (addr + size - 1) / 2 ^ 16 ≡ addr / 2 ^ 16
    → Covers addr at (size - size % 512) (block_chunk win addr at size)
block_chunk-Covers win addr at size w k l = elim (Bool-cases (size / 512 == 0)) [
  | inl e ↦ rw e (ground arith)
  | inr e ↦
      let some_block : 0 < size / 512 = ground arith in
      rw e (omega arith, refl, omega arith, omega arith, omega arith, omega arith, omega arith)
]

pub byte_chunk-Covers :
    (win addr at size : ℕ)
    → win ≡ addr / 2 ^ 16
    → size % 4 ≡ 0
    → size ≤ 2 ^ 16
    → addr + size ≤ 2 ^ 32
    → (addr + size - 1) / 2 ^ 16 ≡ addr / 2 ^ 16
    → Covers
        (addr + (size - size % 512))
        (at + (size - size % 512))
        (size % 512)
        (byte_chunk win addr at size)
byte_chunk-Covers win addr at size w j k m l = elim (Bool-cases (size % 512 == 0)) [
  | inl e ↦ rw e (ground arith)
  | inr e ↦
      let some_octet : 0 < size % 512 = ground arith in
      rw (e, aligned (size % 512) (omega arith))
        (omega arith, refl, omega arith, omega arith, omega arith, omega arith, omega arith)
]

-- The two commands on the bus.
abbrev pub noted : Bus → List Chunk → Bus
noted bus cs = record bus { log = bus.log ++ cs }

abbrev pub window : Bus → ℕ
window bus = bus.win1 * 2 ^ 8 + bus.win0

module _ (write : Bool) (size : ℕ) (t : Transfer) (bus : Bus) where
  block_part-bus :
      block_part bus_cmd52 bus_cmd53 write size (record t { ret = pos 0 }) bus
      ≡ (record t { ret = pos 0 }, noted bus (block_chunk (window bus) t.chip_mem_addr t.at size))
  unfolding block_part fn_max_block_size
  block_part-bus = elim (Bool-cases (size / 512 == 0)) [
    | inl e ↦ rw e (rw append-nil refl)
    | inr e ↦ rw e refl
  ]

  byte_part-bus :
      byte_part bus_cmd52 bus_cmd53 write size
        (record t { ret = pos 0; at = t.at + (size - size % 512) })
        bus
      ≡ (
        record t { ret = pos 0; at = t.at + (size - size % 512) },
        noted bus (byte_chunk (window bus) t.chip_mem_addr t.at size),
      )
  unfolding byte_part fn_max_block_size
  byte_part-bus = elim (Bool-cases (size % 512 == 0)) [
    | inl e ↦ rw e (rw append-nil refl)
    | inr e ↦ rw e refl
  ]

abbrev pub moved : ℕ → Transfer → Transfer
moved size t = record t {
  ret = pos 0;
  at = t.at + size;
  chip_mem_addr = (t.chip_mem_addr + size) % 2 ^ 32;
  remaining = t.remaining - size;
}

-- The bus behind the data commands of a section.
abbrev pub served : Bus → ℕ → Transfer → Bus
served bus size t =
    noted (noted bus (block_chunk (window bus) t.chip_mem_addr t.at size))
      (byte_chunk (window bus) t.chip_mem_addr t.at size)

pub section_body-bus :
    (write : Bool) (size : ℕ) (t : Transfer) (bus : Bus)
    → section_body bus_cmd52 bus_cmd53 write size (record t { ret = pos 0 }) bus
      ≡ (moved size t, served bus size t)
unfolding section_body fn_max_block_size
section_body-bus write size t bus =
    let there_and_on : t.at + (size - size % 512) + size % 512 ≡ t.at + size = omega arith in
    let blocks = noted bus (block_chunk (window bus) t.chip_mem_addr t.at size) in
    rw (block_part-bus write size t bus, byte_part-bus write size t blocks, there_and_on) refl
