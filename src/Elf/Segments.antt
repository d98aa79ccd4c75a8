-- ===== src/Elf/Segments.antt =====
-- elf_file.c: the segments of a file by what stands in its program headers, and load_blobs, which
-- writes them.
use native.Mathlib.Nat.{mod-lt, mod-eq_of_lt, mod_self}
use morse_cli.Base.{
  ℕ, zero, suc, ◌+◌, ◌-◌, ◌*◌, ◌/◌, ◌%◌, ◌^◌, ◌≤◌, ◌<◌, ◌==◌, ltb, Bool, not, ◌&&◌, ◌||◌,
  if◌then◌else◌, Option, some, Bytes, List, [], ◌∷◌, ◌++◌, All, map, take, drop, get_or,
  get_or-take, length, bit_and, pos, ◌≡◌, refl, ap, ◌∙◌, inl, inr, Bool-cases, arith, append-nil,
  append_assoc,
}
use morse_cli.Base.Bits.{bit_and-mask}
use morse_cli.Base.Masks.{bit_and-shifted}
use morse_cli.Sdio.Memblock.{align_size, le32_value}
use morse_cli.Elf.{le32_at, Ehdr}
use morse_cli.Elf.Load.{
  phdr_size, program_header, is_skipped, blob_size, load_binary_data, blobs_from, load_phdrs,
  load_blobs,
}
use morse_cli.Elf.Written.{Writes, noted, load_binary_data-loaded, load_elf_blob-noted}

-- The next multiple of the alignment.
abbrev pub rounded : ℕ → ℕ → ℕ
rounded n alignment = n + (alignment - n % alignment) % alignment

-- The members of the program header at an offset of the file, by their own offsets: a segment is
-- loaded when its type is PT_LOAD, it has a size and one of the flags R, W and X, and it is not for
-- the flash at 0x40xxxx or 0xc0xxxx.
unfoldable pub is_loadable : Bytes → ℕ → Bool
is_loadable file at =
    le32_at at file == 1
    && (not (le32_at (at + 20) file == 0)
        && (not (le32_at (at + 24) file % 8 == 0)
            && (not (le32_at (at + 12) file / 2 ^ 16 % 2 ^ 16 == 0x40)
                && not (le32_at (at + 12) file / 2 ^ 16 % 2 ^ 16 == 0xc0))))

-- Where a segment stands in the file, its size on the chip, and its address.
pub record Segment : Type 0 where
  pub offset : ℕ
  pub size : ℕ
  pub addr : ℕ

abbrev pub segment_at : Bytes → ℕ → Segment
segment_at file at = record {
  offset = le32_at (at + 4) file;
  size = rounded (le32_at (at + 20) file) (le32_at (at + 28) file) % 2 ^ 32;
  addr = le32_at (at + 12) file;
}

-- Those of so many headers of 32 octets, from an offset on.
unfoldable pub segments : Bytes → ℕ → ℕ → List Segment
segments file at zero = []
segments file at (suc left) =
    let rest = segments file (at + 32) left in
    if is_loadable file at then segment_at file at ∷ rest else rest

abbrev pub SegmentsInFile : Bytes → List Segment → Type 0
SegmentsInFile file = All (λ (s : Segment). s.offset + s.size ≤ length file)

abbrev pub write_of : Bytes → Segment → Bytes × ℕ
write_of file s = (take s.size (drop s.offset file), s.addr)

get_or-drop : (n i : ℕ) (xs : Bytes) → get_or (drop n xs) i 0 ≡ get_or xs (n + i) 0
get_or-drop zero i xs = ap (λ k. get_or xs k 0) {y = 0 + i} (omega arith)
get_or-drop (suc n) i [] = refl
get_or-drop (suc n) i (x ∷ xs) =
    get_or-drop n i xs
    ∙ ap (λ k. get_or (x ∷ xs) k 0) {x = suc (n + i)} {y = suc n + i} (omega arith)

le32_at-octets :
    (at : ℕ) (b : Bytes)
    → le32_at at b
      ≡ get_or b at 0
        + get_or b (at + 1) 0 * 2 ^ 8
        + get_or b (at + 2) 0 * 2 ^ 16
        + get_or b (at + 3) 0 * 2 ^ 24
unfolding le32_value
le32_at-octets at b =
    let zeroth : get_or (drop at b) 0 0 ≡ get_or b at 0 =
      get_or-drop at 0 b ∙ ap (λ k. get_or b k 0) {x = at + 0} (omega arith) in
    rw (zeroth, get_or-drop at 1 b, get_or-drop at 2 b, get_or-drop at 3 b) refl

-- An octet of the headers in memory is one of the file.
header-octet :
    (file : Bytes) (phoff size n i : ℕ)
    → n + i < size
    → get_or (drop n (take size (drop phoff file))) i 0 ≡ get_or file (phoff + n + i) 0
header-octet file phoff size n i h =
    get_or-drop n i (take size (drop phoff file))
    ∙ get_or-take size (n + i) (drop phoff file) 0 h
    ∙ get_or-drop phoff (n + i) file
    ∙ ap (λ k. get_or file k 0) {x = phoff + (n + i)} {y = phoff + n + i} (omega arith)

header-member :
    (file : Bytes) (phoff size n k : ℕ)
    → n + k + 4 ≤ size
    → le32_at k (drop n (take size (drop phoff file))) ≡ le32_at (phoff + n + k) file
header-member file phoff size n k h =
    let mem = drop n (take size (drop phoff file)) in
    let at = phoff + n + k in
    let octet : (j : ℕ) → j < 4 → get_or mem (k + j) 0 ≡ get_or file (at + j) 0 = λ j l.
      header-octet file phoff size n (k + j) (omega arith)
      ∙ ap (λ i. get_or file i 0) {x = phoff + n + (k + j)} {y = at + j} (omega arith) in
    let first : get_or mem k 0 ≡ get_or file at 0 =
      header-octet file phoff size n k (omega arith) in
    omega (
      arith,
      le32_at-octets k mem,
      le32_at-octets at file,
      first,
      octet 1 (omega arith),
      octet 2 (omega arith),
      octet 3 (omega arith),
    )

align_size-rounded : (n m : ℕ) → align_size n m ≡ rounded n m
unfolding align_size
align_size-rounded n m = elim (Bool-cases (ltb 0 m)) [
  | inr nil ↦ let zero_m : m ≡ 0 = ground arith in rw (nil, zero_m) (omega arith)
  | inl some_m ↦
      let positive : 0 < m = ground arith in
      let below = mod-lt n positive in
      elim (Bool-cases (ltb 0 (n % m))) [
        | inr whole ↦
            let exact : n % m ≡ 0 = ground arith in
            rw (some_m, whole, exact)
              (let gone : (m - 0) % m ≡ 0 =
                  ap (λ k. k % m) {x = m - 0} {y = m} (omega arith) ∙ mod_self m in
                omega (arith, gone))
        | inl more ↦
            let left : 0 < n % m = ground arith in
            rw (some_m, more) (omega (arith, mod-eq_of_lt {n = m - n % m} {m = m} (omega arith)))
      ]
]

-- The test of the code on the members, and the one above.
skipped-loadable :
    (kind memsz flags paddr : ℕ)
    → (not (kind == 1)
        || (memsz == 0
            || (bit_and flags 7 == 0
                || (bit_and paddr 0xffff0000 == 0x00400000
                    || bit_and paddr 0xffff0000 == 0x00c00000))))
      ≡ not (
          kind == 1
          && (not (memsz == 0)
              && (not (flags % 8 == 0)
                  && (not (paddr / 2 ^ 16 % 2 ^ 16 == 0x40)
                      && not (paddr / 2 ^ 16 % 2 ^ 16 == 0xc0)))))
skipped-loadable kind memsz flags paddr =
    let low = bit_and-mask 3 7 flags refl in
    let high : bit_and paddr 0xffff0000 ≡ paddr / 2 ^ 16 % 2 ^ 16 * 2 ^ 16 =
      bit_and-shifted 16 paddr 0xffff
      ∙ ap (λ k. k * 2 ^ 16) (bit_and-mask 16 0xffff (paddr / 2 ^ 16) refl) in
    rw (low, high) (ground arith)

module _ (file : Bytes) (phoff size ii : ℕ) (h : ii * 32 + 32 ≤ size) where
  abbrev mem : Bytes
  mem = take size (drop phoff file)

  abbrev at : ℕ
  at = phoff + ii * 32

  member : (k : ℕ) → k ≤ 28 → le32_at k (drop (ii * 32) mem) ≡ le32_at (at + k) file
  member k l = header-member file phoff size (ii * 32) k (omega arith)

  kind : le32_at 0 (drop (ii * 32) mem) ≡ le32_at at file
  kind = member 0 (omega arith) ∙ ap (λ k. le32_at k file) {x = at + 0} {y = at} (omega arith)

  is_skipped-is_loadable : is_skipped (program_header mem ii) ≡ not (is_loadable file at)
  unfolding is_skipped program_header is_loadable
  is_skipped-is_loadable =
      rw (kind, member 20 (omega arith), member 24 (omega arith), member 12 (omega arith))
        (skipped-loadable (le32_at at file) (le32_at (at + 20) file) (le32_at (at + 24) file)
          (le32_at (at + 12) file))

  blob_size-size : blob_size (program_header mem ii) ≡ (segment_at file at).size
  unfolding program_header
  blob_size-size =
      rw (member 20 (omega arith), member 28 (omega arith))
        (ap (λ k. k % 2 ^ 32)
          (align_size-rounded (le32_at (at + 20) file) (le32_at (at + 28) file)))

  offset-offset : (program_header mem ii).p_offset ≡ (segment_at file at).offset
  unfolding program_header
  offset-offset = member 4 (omega arith)

  paddr-addr : (program_header mem ii).p_paddr ≡ (segment_at file at).addr
  unfolding program_header
  paddr-addr = member 12 (omega arith)

module _ (write_alloc : ℕ → Option Bytes)
    (alloc_gives : (n : ℕ) → (b : Bytes) × (write_alloc n ≡ some b) × (length b ≡ n)) where
  blobs_from-segments :
      (file : Bytes) (phoff size left ii : ℕ) (writes : Writes)
      → (ii + left) * 32 ≤ size
      → SegmentsInFile file (segments file (phoff + ii * 32) left)
      → blobs_from write_alloc noted file (take size (drop phoff file)) left ii writes
        ≡ some (pos 0, writes ++ map (write_of file) (segments file (phoff + ii * 32) left))
  unfolding blobs_from segments
  blobs_from-segments file phoff size zero ii writes h in_file = rw append-nil refl
  blobs_from-segments file phoff size (suc left) ii writes h in_file =
      let at = phoff + ii * 32 in
      let rest = segments file (at + 32) left in
      let here : ii * 32 + 32 ≤ size = omega arith in
      let next : phoff + (ii + 1) * 32 ≡ at + 32 = omega arith in
      let skipped = is_skipped-is_loadable file phoff size ii here in
      let go : (ws : Writes)
          → SegmentsInFile file rest
          → blobs_from write_alloc noted file (take size (drop phoff file)) left (ii + 1) ws
            ≡ some (pos 0, ws ++ map (write_of file) rest) =
        λ ws k.
          blobs_from-segments file phoff size left (ii + 1) ws (omega arith) (rw next k)
          ∙ ap (λ a. some (pos 0, ws ++ map (write_of file) (segments file a left))) next in
      elim (Bool-cases (is_loadable file at)) [
        | inr other ↦ rw (skipped, other) (go writes (rw other at in_file))
        | inl load ↦
            let (first, others) = rw load at in_file in
            let s = segment_at file at in
            rw
              (
                skipped,
                load,
                offset-offset file phoff size ii here,
                blob_size-size file phoff size ii here,
                paddr-addr file phoff size ii here,
                load_elf_blob-noted write_alloc alloc_gives file s.offset s.size s.addr writes
                    first,
              )
              (go (writes ++ write_of file s ∷ []) others
                ∙ ap (λ (w : Writes). some (pos 0, w))
                    (append_assoc writes (write_of file s ∷ []) (map (write_of file) rest)))
      ]

  -- The octets of the program headers that are read.
  abbrev pub headers_size : Ehdr → ℕ
  headers_size ehdr = phdr_size * (ehdr.e_phentsize * ehdr.e_phnum % 2 ^ 16)

  pub load_blobs-segments :
      (malloc : ℕ → Option Bytes) (file : Bytes) (ehdr : Ehdr) (mem : Bytes) (writes : Writes)
      → malloc (headers_size ehdr) ≡ some mem
      → length mem ≡ headers_size ehdr
      → ehdr.e_phoff + headers_size ehdr ≤ length file
      → ehdr.e_phnum ≤ ehdr.e_phentsize * ehdr.e_phnum % 2 ^ 16
      → SegmentsInFile file (segments file ehdr.e_phoff ehdr.e_phnum)
      → load_blobs write_alloc noted malloc file ehdr writes
        ≡ some (pos 0, writes ++ map (write_of file) (segments file ehdr.e_phoff ehdr.e_phnum))
  unfolding load_blobs load_phdrs
  load_blobs-segments malloc file ehdr mem writes given room fits all_read in_file =
      let size = headers_size ehdr in
      let start : ehdr.e_phoff + 0 * 32 ≡ ehdr.e_phoff = omega arith in
      ap
        (λ m.
          load_phdrs write_alloc noted file ehdr (load_binary_data file ehdr.e_phoff size m) writes)
        given
      ∙ ap (λ l. load_phdrs write_alloc noted file ehdr l writes)
          (load_binary_data-loaded file ehdr.e_phoff size mem room fits)
      ∙ blobs_from-segments file ehdr.e_phoff size ehdr.e_phnum 0 writes (omega arith)
          (rw start in_file)
      ∙ ap (λ a. some (pos 0, writes ++ map (write_of file) (segments file a ehdr.e_phnum))) start
