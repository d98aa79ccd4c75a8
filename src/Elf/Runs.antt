-- ===== src/Elf/Runs.antt =====
-- A file with one section of statistics, one with one segment, and a board configuration whose write
-- fails.
use morse_cli.Base.{
  map, ℕ, ◌+◌, ◌==◌, ◌||◌, ap, true, false, none, Option, some, Bytes, [], ◌∷◌, ◌++◌, take, bit_and,
  length, length-replicate, replicate, ℤ, pos, negsuc, ◌≡◌, refl, arith,
}
use morse_cli.Base.Strings.{c_str, starts_with, write_at}
use morse_cli.Sdio.Memblock.{le32_value}
use morse_cli.Transport.Table.{strings_eq}
use morse_cli.Utilities.Text.{codes}
use morse_cli.Elf.{
  Ehdr, get_file_header, has_magic, is_le_32bit, get_section_header, sections_from, section_name,
}
use morse_cli.Elf.Load.{
  BcfSections, bcf_section, bcf_sections, load_binary_data, write_result, write_loaded, load_into,
  load_elf_blob, second_blob, load_bcf_found,
}
use morse_cli.Elf.Command.{ehdr_size, load_elf}
use morse_cli.Elf.Written.{noted}
use morse_cli.Elf.Segments.{is_loadable, segments, SegmentsInFile, write_of}
use morse_cli.Elf.Whole.{bcf_of, load_elf-segments, load_elf-bcf_code}

abbrev memory : ℕ → Option Bytes
memory n = some (replicate n 7)

memory_gives : (n : ℕ) → (b : Bytes) × (memory n ≡ some b) × (length b ≡ n)
memory_gives n = (replicate n 7, refl, length-replicate n 7)

-- The section headers begin at 52, with one of 40 octets, which is that of the names too.
abbrev stats_header : Ehdr
stats_header = record {
  e_phoff = 0;
  e_phentsize = 0;
  e_phnum = 0;
  e_shoff = 52;
  e_shentsize = 40;
  e_shnum = 1;
  e_shstrndx = 0;
}

abbrev stats_file : Bytes
stats_file =
    (0x7f ∷ b'E' ∷ b'L' ∷ b'F' ∷ 1 ∷ 1 ∷ replicate 26 0)
    ++ (52 ∷ replicate 13 0)
    ++ (40 ∷ 0 ∷ 1 ∷ replicate 3 0)
    ++ (replicate 16 0 ++ (92 ∷ 0 ∷ 0 ∷ 0 ∷ 10 ∷ replicate 19 0))
    ++ (codes "_offchip_" ++ (0 ∷ []))

-- One program header of 32 octets, and its segment of four octets at 84, rounded up to eight. The
-- rest is what is read behind the header.
abbrev elf_file : Bytes
elf_file =
    (0x7f ∷ b'E' ∷ b'L' ∷ b'F' ∷ 1 ∷ 1 ∷ replicate 22 0)
    ++ (52 ∷ replicate 13 0 ++ (32 ∷ 0 ∷ 1 ∷ replicate 7 0))
    ++ (1 ∷ 0 ∷ 0 ∷ 0 ∷ 84 ∷ replicate 7 0)
    ++ (0 ∷ 0 ∷ 16 ∷ 0 ∷ 2 ∷ 0 ∷ 0 ∷ 0 ∷ 4 ∷ 0 ∷ 0 ∷ 0 ∷ [])
    ++ (5 ∷ 0 ∷ 0 ∷ 0 ∷ 8 ∷ 0 ∷ 0 ∷ 0 ∷ [])
    ++ (0xde ∷ 0xad ∷ 0xbe ∷ 0xef ∷ replicate 1000 0)

abbrev elf_header : Ehdr
elf_header = record {
  e_phoff = 52;
  e_phentsize = 32;
  e_phnum = 1;
  e_shoff = 0;
  e_shentsize = 0;
  e_shnum = 0;
  e_shstrndx = 0;
}

elf_header_found : get_file_header (take ehdr_size elf_file) ≡ (pos 0, some elf_header)
unfolding get_file_header has_magic is_le_32bit le32_value
elf_header_found = refl

elf_segments : segments elf_file 52 1 ≡ record { offset = 84; size = 8; addr = 0x100000 } ∷ []
unfolding segments is_loadable le32_value
elf_segments = refl

elf_file-SegmentsInFile : SegmentsInFile elf_file (segments elf_file 52 1)
unfolding segments is_loadable le32_value
elf_file-SegmentsInFile = (omega arith, tt)

load_elf-segments_example :
    load_elf memory noted memory (some elf_file) false none []
    ≡ some (pos 0, map (write_of elf_file) (segments elf_file 52 1))
load_elf-segments_example =
    load_elf-segments memory memory_gives elf_file elf_header [] (omega arith) elf_header_found
      (omega arith) (omega arith) elf_file-SegmentsInFile

-- A board configuration with two octets for the board and one for Australia.
abbrev bcf_names : Bytes
bcf_names = 0 ∷ (codes ".board_config" ++ (0 ∷ (codes ".regdom_AU" ++ (0 ∷ []))))

abbrev bcf_file : Bytes
bcf_file =
    (0x7f ∷ b'E' ∷ b'L' ∷ b'F' ∷ 1 ∷ 1 ∷ replicate 26 0)
    ++ (52 ∷ replicate 13 0)
    ++ (40 ∷ 0 ∷ 3 ∷ replicate 3 0)
    ++ (replicate 16 0 ++ (172 ∷ replicate 23 0))
    ++ (1 ∷ replicate 11 0 ++ (0 ∷ 0 ∷ 16 ∷ 0 ∷ 198 ∷ 0 ∷ 0 ∷ 0 ∷ 2 ∷ replicate 19 0))
    ++ (15 ∷ replicate 15 0 ++ (200 ∷ 0 ∷ 0 ∷ 0 ∷ 1 ∷ replicate 19 0))
    ++ bcf_names
    ++ (0xb0 ∷ 0xb1 ∷ 0xc0 ∷ [])

abbrev bcf_header : Ehdr
bcf_header = record {
  e_phoff = 0;
  e_phentsize = 0;
  e_phnum = 0;
  e_shoff = 52;
  e_shentsize = 40;
  e_shnum = 3;
  e_shstrndx = 0;
}

bcf_header_found : get_file_header (take ehdr_size bcf_file) ≡ (pos 0, some bcf_header)
unfolding get_file_header has_magic is_le_32bit le32_value
bcf_header_found = refl

abbrev bcf : BcfSections
bcf = record {
  addr = 0x100000;
  board_offset = 198;
  board_size = 2;
  regdom_offset = 200;
  regdom_size = 1;
}

bcf_found : bcf_of memory memory_gives bcf_file bcf_header (codes "AU") ≡ bcf
unfolding bcf_sections bcf_section sections_from get_section_header section_name c_str starts_with
    strings_eq le32_value
bcf_found = refl

-- The chip does not take a write; the code of load_elf is 0 all the same.
abbrev refusing : Bytes → ℕ → ℕ → ℤ × ℕ
refusing buf addr s = (negsuc 0, s + 1)

load_elf-bcf_code_example :
    (after : ℕ) × (load_elf memory refusing memory (some bcf_file) true (some (codes "AU")) 0
      ≡ some (pos 0, after))
load_elf-bcf_code_example =
    load_elf-bcf_code memory memory_gives bcf_file bcf_header refusing (codes "AU") 0 (omega arith)
      bcf_header_found (omega arith)
      (ap (λ (f : BcfSections). f.board_offset == 0 || f.board_size == 0) bcf_found)
      (ap (λ (f : BcfSections). bit_and f.addr 0xffff0000 == 0) bcf_found)
      (ap (λ (f : BcfSections). f.regdom_offset == 0 || f.regdom_size == 0) bcf_found)
      (omega (arith, ap (λ (f : BcfSections). f.board_offset) bcf_found))
      (omega (arith, ap (λ (f : BcfSections). f.regdom_offset) bcf_found))

bcf_run : load_bcf_found memory refusing bcf_file bcf 0 ≡ some (pos 0, 1)
unfolding load_bcf_found second_blob load_elf_blob load_into load_binary_data write_loaded
    write_result write_at
bcf_run = refl
