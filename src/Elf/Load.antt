-- ===== src/Elf/Load.antt =====
-- elf_file.c: loading the segments of a file, or the sections of a board configuration, onto a chip.
-- A run is `none` when it does not end: the loop that reads goes on for ever when the offset lies
-- behind the end of the file, since the difference of the two wraps round.
use morse_cli.Base.{
  ℕ, zero, suc, ◌+◌, ◌*◌, ◌%◌, ◌^◌, ◌==◌, ltb, Bool, not, ◌&&◌, ◌||◌, if◌then◌else◌, Option, none,
  some, Bytes, List, [], ◌∷◌, take, drop, length, bit_and, ℤ, pos, negsuc, is_zero, is_negative,
}
use morse_cli.Base.Strings.{starts_with, write_at}
use morse_cli.Sdio.Memblock.{align_size}
use morse_cli.Transport.Table.{strings_eq}
use morse_cli.Utilities.Text.{codes}
use morse_cli.Elf.{le32_at, Ehdr, Shdr, sections_from, section_name}

-- The code and the buffer, or no end.
pub data Loaded : Type 0 where
  hangs : Loaded
  failed : Loaded
  loaded : Bytes → Loaded

-- elf_file_load_binary_data on a file that can be read, into a buffer if there is one. A size that
-- is greater than what is left of the file is only reported.
unfoldable pub load_binary_data : Bytes → ℕ → ℕ → Option Bytes → Loaded
load_binary_data file offset size none = failed
load_binary_data file offset size (some buf) =
    if ltb (length file) offset && ltb 0 size
    then hangs
    else loaded (write_at 0 (take size (drop offset file)) buf)

pub record Phdr : Type 0 where
  pub p_type : ℕ
  pub p_offset : ℕ
  pub p_paddr : ℕ
  pub p_memsz : ℕ
  pub p_flags : ℕ
  pub p_align : ℕ

abbrev pub phdr_size : ℕ
phdr_size = 32

-- The ii-th program header in the memory that they were read into.
unfoldable pub program_header : Bytes → ℕ → Phdr
program_header mem ii =
    let p = drop (ii * phdr_size) mem in
    record {
      p_type = le32_at 0 p;
      p_offset = le32_at 4 p;
      p_paddr = le32_at 12 p;
      p_memsz = le32_at 20 p;
      p_flags = le32_at 24 p;
      p_align = le32_at 28 p;
    }

-- PT_LOAD, and the bits of PF_X, PF_W and PF_R.
abbrev pub pt_load : ℕ
pt_load = 1

abbrev pub pf_any : ℕ
pf_any = 7

-- Empty or unloadable, or in the external flash.
unfoldable pub is_skipped : Phdr → Bool
is_skipped p =
    not (p.p_type == pt_load)
    || (p.p_memsz == 0
        || (bit_and p.p_flags pf_any == 0
            || (bit_and p.p_paddr 0xffff0000 == 0x00400000
                || bit_and p.p_paddr 0xffff0000 == 0x00c00000)))

-- The size of a blob, as an Elf32_Word.
abbrev pub blob_size : Phdr → ℕ
blob_size p = align_size p.p_memsz p.p_align % 2 ^ 32

-- The two sections of a board configuration: where the first goes, and what was found of each.
pub record BcfSections : Type 0 where
  pub addr : ℕ
  pub board_offset : ℕ
  pub board_size : ℕ
  pub regdom_offset : ℕ
  pub regdom_size : ℕ

abbrev pub no_sections : BcfSections
no_sections = record {
  addr = 0;
  board_offset = 0;
  board_size = 0;
  regdom_offset = 0;
  regdom_size = 0;
}

-- One round of the loop over the section headers; a later section takes the place of an earlier.
unfoldable pub bcf_section : Bytes → Bytes → Shdr → BcfSections → BcfSections
bcf_section name country shdr found =
    if strings_eq name (codes ".board_config")
    then record found {
      addr = shdr.sh_addr;
      board_offset = shdr.sh_offset;
      board_size = shdr.sh_size;
    }
    else if starts_with (codes ".regdom_") name && strings_eq (drop 8 name) country
    then record found { regdom_offset = shdr.sh_offset; regdom_size = shdr.sh_size }
    else found

unfoldable pub bcf_sections : Bytes → Ehdr → Bytes → List Shdr → BcfSections → BcfSections
bcf_sections b ehdr country [] found = found
bcf_sections b ehdr country (shdr ∷ rest) found =
    bcf_sections b ehdr country rest (bcf_section (section_name b ehdr shdr) country shdr found)

-- `write_alloc` is morsectrl_transport_raw_write_alloc, `mem_write` morsectrl_transport_mem_write.
module _ {S : Type 0} (write_alloc : ℕ → Option Bytes) (mem_write : Bytes → ℕ → S → ℤ × S) where
  -- The code of the write is not passed on.
  unfoldable pub write_result : ℤ × S → ℤ × S
  write_result (ret, s) = if is_zero ret then (pos 0, s) else (negsuc 5, s)

  unfoldable pub write_loaded : Loaded → ℕ → S → Option (ℤ × S)
  write_loaded hangs addr s = none
  write_loaded failed addr s = some (negsuc 1, s)
  write_loaded (loaded buf) addr s = some (write_result (mem_write buf addr s))

  unfoldable pub load_into : Bytes → ℕ → ℕ → ℕ → Option Bytes → S → Option (ℤ × S)
  load_into file offset size addr none s = some (negsuc 11, s)
  load_into file offset size addr (some buf) s =
      write_loaded (load_binary_data file offset size (some buf)) addr s

  unfoldable pub load_elf_blob : Bytes → ℕ → ℕ → ℕ → S → Option (ℤ × S)
  load_elf_blob file offset size addr s = load_into file offset size addr (write_alloc size) s

  -- What follows a blob in a loop that ends at a negative code.
  abbrev pub unless_negative : Option (ℤ × S) → (S → Option (ℤ × S)) → Option (ℤ × S)
  unless_negative none next = none
  unless_negative (some (ret, s)) next = if is_negative ret then some (ret, s) else next s

  -- The loop over the program headers, with so many left, from the index ii on.
  unfoldable pub blobs_from : Bytes → Bytes → ℕ → ℕ → S → Option (ℤ × S)
  blobs_from file mem zero ii s = some (pos 0, s)
  blobs_from file mem (suc left) ii s =
      let p = program_header mem ii in
      let next = blobs_from file mem left (ii + 1) in
      let blob = load_elf_blob file p.p_offset (blob_size p) p.p_paddr s in
      if is_skipped p then next s else unless_negative blob next

  unfoldable pub load_phdrs : Bytes → Ehdr → Loaded → S → Option (ℤ × S)
  load_phdrs file ehdr hangs s = none
  load_phdrs file ehdr failed s = some (negsuc 5, s)
  load_phdrs file ehdr (loaded mem) s = blobs_from file mem ehdr.e_phnum 0 s

  -- The code of a blob is lost in a variable of the loop.
  unfoldable pub code_lost : Option (ℤ × S) → Option (ℤ × S)
  code_lost none = none
  code_lost (some (ret, s)) = some (pos 0, s)

  -- The second blob goes behind the first, if that did not fail.
  unfoldable pub second_blob : Bytes → BcfSections → Option (ℤ × S) → Option (ℤ × S)
  second_blob file f none = none
  second_blob file f (some (ret, s)) =
      if is_negative ret
      then some (pos 0, s)
      else code_lost
          (load_elf_blob file f.regdom_offset f.regdom_size ((f.addr + f.board_size) % 2 ^ 32) s)

  unfoldable pub load_bcf_found : Bytes → BcfSections → S → Option (ℤ × S)
  load_bcf_found file f s =
      if f.board_offset == 0 || f.board_size == 0
      then some (negsuc 5, s)
      else if bit_and f.addr 0xffff0000 == 0
      then some (negsuc 5, s)
      else if f.regdom_offset == 0 || f.regdom_size == 0
      then some (negsuc 5, s)
      else second_blob file f (load_elf_blob file f.board_offset f.board_size f.addr s)

  -- load_bcf_sections; `b` is the file in memory.
  unfoldable pub load_bcf_file : Ehdr → Bytes → Bytes → Option Bytes → S → Option (ℤ × S)
  load_bcf_file ehdr country file none s = some (negsuc 1, s)
  load_bcf_file ehdr country file (some b) s =
      if ltb 100 ehdr.e_shnum
      then some (negsuc 0, s)
      else load_bcf_found file
          (bcf_sections b ehdr country (sections_from b ehdr ehdr.e_shnum 0) no_sections) s

  -- The number of headers to read is the octets that they take, as a 16-bit number.
  unfoldable pub load_blobs : (ℕ → Option Bytes) → Bytes → Ehdr → S → Option (ℤ × S)
  load_blobs malloc file ehdr s =
      let size = phdr_size * (ehdr.e_phentsize * ehdr.e_phnum % 2 ^ 16) in
      load_phdrs file ehdr (load_binary_data file ehdr.e_phoff size (malloc size)) s
