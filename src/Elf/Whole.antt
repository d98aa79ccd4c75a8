-- ===== src/Elf/Whole.antt =====
-- elf_file.c: load_elf as a whole, on a file with segments and on a board configuration.
use morse_cli.Base.{
  ℕ, ◌+◌, ◌==◌, ◌≤◌, ltb, true, false, ◌||◌, Option, none, some, Bytes, ◌++◌, map, ◌*◌, ◌%◌, ◌^◌,
  take, length, bit_and, ℤ, pos, ◌≡◌, ap, ◌∙◌, arith,
}
use morse_cli.Elf.{Ehdr, get_file_header, sections_from}
use morse_cli.Elf.Load.{load_binary_data, BcfSections, no_sections, bcf_sections, load_bcf_file}
use morse_cli.Elf.Command.{
  ehdr_size, checked_header, load_file_header, file_memory, load_bcf_sections, load_segments,
  load_headed, load_elf,
}
use morse_cli.Elf.Written.{Writes, noted, load_binary_data-loaded, load_bcf_found-code}
use morse_cli.Elf.Segments.{segments, SegmentsInFile, write_of, headers_size, load_blobs-segments}

-- Memory is given at the size that is asked for.
module _ (malloc : ℕ → Option Bytes)
    (malloc_gives : (n : ℕ) → (b : Bytes) × (malloc n ≡ some b) × (length b ≡ n)) (file : Bytes)
    (ehdr : Ehdr) where
  load_file_header-accepted :
      ehdr_size ≤ length file
      → get_file_header (take ehdr_size file) ≡ (pos 0, some ehdr)
      → load_file_header (load_binary_data file 0 ehdr_size (malloc ehdr_size)) ≡ (pos 0, some ehdr)
  unfolding load_file_header checked_header
  load_file_header-accepted long header =
      let (buf, given, room) = malloc_gives ehdr_size in
      ap (λ m. load_file_header (load_binary_data file 0 ehdr_size m)) given
      ∙ ap load_file_header (load_binary_data-loaded file 0 ehdr_size buf room long)
      ∙ ap checked_header header

  -- Where memory is given and every write succeeds, load_elf of a file with an accepted header,
  -- without the option of a board configuration, returns 0 and has written each segment that its
  -- program header gives as loadable and not for the flash, in the order of the headers, from its
  -- offset in the file to its address and with its size in memory rounded up to its alignment. The
  -- header of the file, the program headers, at the size that is read of them, and those segments lie
  -- in the file, and what is read holds all the headers.
  pub load_elf-segments :
      (writes : Writes)
      → ehdr_size ≤ length file
      → get_file_header (take ehdr_size file) ≡ (pos 0, some ehdr)
      → ehdr.e_phoff + headers_size malloc malloc_gives ehdr ≤ length file
      → ehdr.e_phnum ≤ ehdr.e_phentsize * ehdr.e_phnum % 2 ^ 16
      → SegmentsInFile file (segments file ehdr.e_phoff ehdr.e_phnum)
      → load_elf malloc noted malloc (some file) false none writes
        ≡ some (pos 0, writes ++ map (write_of file) (segments file ehdr.e_phoff ehdr.e_phnum))
  unfolding load_elf load_headed load_segments
  load_elf-segments writes long header fits all_read in_file =
      let (mem, given, room) = malloc_gives (headers_size malloc malloc_gives ehdr) in
      ap (λ h. load_headed malloc noted malloc file false none h writes)
        (load_file_header-accepted long header)
      ∙ load_blobs-segments malloc malloc_gives malloc file ehdr mem writes given room fits all_read
          in_file

  -- The sections of a board configuration for a country.
  abbrev pub bcf_of : Bytes → BcfSections
  bcf_of country =
      bcf_sections file ehdr country (sections_from file ehdr ehdr.e_shnum 0) no_sections

  module _ {S : Type 0} (mem_write : Bytes → ℕ → S → ℤ × S) where
    load_bcf_sections-code :
        (country : Bytes) (s : S)
        → ehdr.e_shnum ≤ 100
        → ((bcf_of country).board_offset == 0 || (bcf_of country).board_size == 0) ≡ false
        → (bit_and (bcf_of country).addr 0xffff0000 == 0) ≡ false
        → ((bcf_of country).regdom_offset == 0 || (bcf_of country).regdom_size == 0) ≡ false
        → (bcf_of country).board_offset ≤ length file
        → (bcf_of country).regdom_offset ≤ length file
        → (after : S) × (load_bcf_sections malloc mem_write malloc file ehdr (some country) s
            ≡ some (pos 0, after))
    unfolding load_bcf_sections load_bcf_file file_memory
    load_bcf_sections-code country s few board valid regdom board_in regdom_in =
        let (buf, given, room) = malloc_gives (length file) in
        let (after, e) =
          load_bcf_found-code malloc mem_write file (bcf_of country) s board valid regdom board_in
            regdom_in in
        let here : ltb 100 ehdr.e_shnum ≡ false = ground arith in
        (
          after,
          ap (λ m. load_bcf_file malloc mem_write ehdr country file (file_memory file m) s) given
              ∙ rw here e,
        )

    -- Where memory is given and both sections for the country are found in the file, load_elf of a
    -- board configuration returns 0, whatever the writes to the chip return. The header is accepted,
    -- there are 100 sections at most, the address of the first section is valid, and both begin in
    -- the file.
    pub load_elf-bcf_code :
        (country : Bytes) (s : S)
        → ehdr_size ≤ length file
        → get_file_header (take ehdr_size file) ≡ (pos 0, some ehdr)
        → ehdr.e_shnum ≤ 100
        → ((bcf_of country).board_offset == 0 || (bcf_of country).board_size == 0) ≡ false
        → (bit_and (bcf_of country).addr 0xffff0000 == 0) ≡ false
        → ((bcf_of country).regdom_offset == 0 || (bcf_of country).regdom_size == 0) ≡ false
        → (bcf_of country).board_offset ≤ length file
        → (bcf_of country).regdom_offset ≤ length file
        → (after : S) × (load_elf malloc mem_write malloc (some file) true (some country) s
            ≡ some (pos 0, after))
    unfolding load_elf load_headed
    load_elf-bcf_code country s long header few board valid regdom board_in regdom_in =
        let (after, e) =
          load_bcf_sections-code country s few board valid regdom board_in regdom_in in
        (
          after,
          ap (λ h. load_headed malloc mem_write malloc file true (some country) h s)
                (load_file_header-accepted long header)
              ∙ e,
        )
