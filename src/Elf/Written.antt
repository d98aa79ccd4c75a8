-- ===== src/Elf/Written.antt =====
-- elf_file.c: what loading writes to the chip, and the code that comes back.
use morse_cli.Base.{
  ℕ, ◌+◌, ◌%◌, ◌^◌, ◌==◌, ◌≤◌, ltb, false, ◌&&◌, ◌||◌, Option, none, some, Bytes, List, [], ◌∷◌,
  ◌++◌, take, drop, length, bit_and, ℤ, pos, negsuc, is_negative, ◌≡◌, refl, ap, ◌∙◌, inl, inr,
  Bool-cases, arith, append-nil, length-take, length-drop,
}
use morse_cli.Base.Strings.{write_at}
use morse_cli.Elf.Stats.{drop_all}
use morse_cli.Elf.Load.{
  loaded, load_binary_data, BcfSections, write_result, write_loaded, load_into, load_elf_blob,
  code_lost, second_blob, load_bcf_found,
}

module _ {S : Type 0} (write_alloc : ℕ → Option Bytes) (mem_write : Bytes → ℕ → S → ℤ × S) where
  -- A read that begins in the file ends.
  load_binary_data_total :
      (file : Bytes) (offset size : ℕ) (buf : Bytes)
      → offset ≤ length file
      → load_binary_data file offset size (some buf)
        ≡ loaded (write_at 0 (take size (drop offset file)) buf)
  unfolding load_binary_data
  load_binary_data_total file offset size buf h =
      let here : (ltb (length file) offset && ltb 0 size) ≡ false = ground arith in rw here refl

  load_into_total :
      (file : Bytes) (offset size addr : ℕ) (mem : Option Bytes) (s : S)
      → offset ≤ length file
      → (r : ℤ × S) × (load_into write_alloc mem_write file offset size addr mem s ≡ some r)
  unfolding load_into write_loaded
  load_into_total file offset size addr none s h = ((negsuc 11, s), refl)
  load_into_total file offset size addr (some buf) s h = (
    write_result write_alloc mem_write
        (mem_write (write_at 0 (take size (drop offset file)) buf) addr s),
    ap (λ l. write_loaded write_alloc mem_write l addr s)
        (load_binary_data_total file offset size buf h),
  )

  load_elf_blob_total :
      (file : Bytes) (offset size addr : ℕ) (s : S)
      → offset ≤ length file
      → (r : ℤ × S) × (load_elf_blob write_alloc mem_write file offset size addr s ≡ some r)
  unfolding load_elf_blob
  load_elf_blob_total file offset size addr s h =
      load_into_total file offset size addr (write_alloc size) s h

  code_lost-some :
      (x : Option (ℤ × S)) (r : ℤ × S)
      → x ≡ some r
      → code_lost write_alloc mem_write x ≡ some (pos 0, r.1)
  unfolding code_lost
  code_lost-some x r e = ap (code_lost write_alloc mem_write) e

  second_blob-some :
      (file : Bytes) (f : BcfSections) (ret : ℤ) (s : S)
      → f.regdom_offset ≤ length file
      → (after : S) × (second_blob write_alloc mem_write file f (some (ret, s))
          ≡ some (pos 0, after))
  unfolding second_blob
  second_blob-some file f ret s h = elim (Bool-cases (is_negative ret)) [
    | inl y ↦ (s, rw y refl)
    | inr n ↦
        let addr = (f.addr + f.board_size) % 2 ^ 32 in
        let (r, e) = load_elf_blob_total file f.regdom_offset f.regdom_size addr s h in
        (
          r.1,
          rw n (
              code_lost-some
                (load_elf_blob write_alloc mem_write file f.regdom_offset f.regdom_size addr s) r
                e),
        )
  ]

  -- Whatever the writes return.
  pub load_bcf_found-code :
      (file : Bytes) (f : BcfSections) (s : S)
      → (f.board_offset == 0 || f.board_size == 0) ≡ false
      → (bit_and f.addr 0xffff0000 == 0) ≡ false
      → (f.regdom_offset == 0 || f.regdom_size == 0) ≡ false
      → f.board_offset ≤ length file
      → f.regdom_offset ≤ length file
      → (after : S) × (load_bcf_found write_alloc mem_write file f s ≡ some (pos 0, after))
  unfolding load_bcf_found
  load_bcf_found-code file f s board valid regdom board_in regdom_in =
      let (r, first) = load_elf_blob_total file f.board_offset f.board_size f.addr s board_in in
      let (after, e) = second_blob-some file f r.0 r.1 regdom_in in
      (after, rw (board, valid, regdom) (ap (second_blob write_alloc mem_write file f) first ∙ e))

abbrev pub Writes : Type 0
Writes = List (Bytes × ℕ)

-- Writes that succeed are noted with their address.
abbrev pub noted : Bytes → ℕ → Writes → ℤ × Writes
noted buf addr writes = (pos 0, writes ++ (buf, addr) ∷ [])

write_all : (text buf : Bytes) → length buf ≡ length text → write_at 0 text buf ≡ text
unfolding write_at
write_all text buf h =
    ap (◌++◌ text) (drop_all (0 + length text) buf (omega (arith, h))) ∙ append-nil text

pub load_binary_data-loaded :
    (file : Bytes) (offset size : ℕ) (buf : Bytes)
    → length buf ≡ size
    → offset + size ≤ length file
    → load_binary_data file offset size (some buf) ≡ loaded (take size (drop offset file))
unfolding load_binary_data
load_binary_data-loaded file offset size buf room h =
    let here : (ltb (length file) offset && ltb 0 size) ≡ false = ground arith in
    rw here (
      ap loaded (
        write_all (take size (drop offset file)) buf
          (omega (arith, room, length-take size (drop offset file), length-drop offset file))))

module _ (write_alloc : ℕ → Option Bytes)
    (alloc_gives : (n : ℕ) → (b : Bytes) × (write_alloc n ≡ some b) × (length b ≡ n)) where
  pub load_elf_blob-noted :
      (file : Bytes) (offset size addr : ℕ) (writes : Writes)
      → offset + size ≤ length file
      → load_elf_blob write_alloc noted file offset size addr writes
        ≡ some (pos 0, writes ++ (take size (drop offset file), addr) ∷ [])
  unfolding load_elf_blob load_into write_loaded write_result
  load_elf_blob-noted file offset size addr writes h =
      let (buf, given, room) = alloc_gives size in
      ap (λ b. load_into write_alloc noted file offset size addr b writes) given
      ∙ ap (λ l. write_loaded write_alloc noted l addr writes)
          (load_binary_data-loaded file offset size buf room h)
