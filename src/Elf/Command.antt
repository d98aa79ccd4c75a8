-- ===== src/Elf/Command.antt =====
-- elf_file.c: the command load_elf, from its options.
use morse_cli.Base.{ℕ, Bool, if◌then◌else◌, Option, none, some, Bytes, length, ℤ, pos, negsuc}
use morse_cli.Elf.{Ehdr, get_file_header}
use morse_cli.Elf.Load.{Loaded, hangs, failed, loaded, load_binary_data, load_bcf_file, load_blobs}

-- sizeof(Elf32_Ehdr)
abbrev pub ehdr_size : ℕ
ehdr_size = 52

-- The header, or -EBADF and -EINVAL as -ENXIO.
unfoldable pub checked_header : ℤ × Option Ehdr → ℤ × Option Ehdr
checked_header (ret, none) = (negsuc 5, none)
checked_header (ret, some ehdr) = (pos 0, some ehdr)

-- load_file_header; at the offset 0 the reading ends.
unfoldable pub load_file_header : Loaded → ℤ × Option Ehdr
load_file_header hangs = (negsuc 1, none)
load_file_header failed = (negsuc 1, none)
load_file_header (loaded mem) = checked_header (get_file_header mem)

-- load_file: the whole file in new memory.
unfoldable pub file_memory : Bytes → Option Bytes → Option Bytes
file_memory file none = none
file_memory file (some mem) = some file

module _ {S : Type 0} (write_alloc : ℕ → Option Bytes) (mem_write : Bytes → ℕ → S → ℤ × S)
    (malloc : ℕ → Option Bytes) where
  unfoldable pub load_bcf_sections : Bytes → Ehdr → Option Bytes → S → Option (ℤ × S)
  load_bcf_sections file ehdr none s = some (negsuc 21, s)
  load_bcf_sections file ehdr (some country) s =
      load_bcf_file write_alloc mem_write ehdr country file
        (file_memory file (malloc (length file))) s

  unfoldable pub load_segments : Bytes → Ehdr → Option Bytes → S → Option (ℤ × S)
  load_segments file ehdr none s = load_blobs write_alloc mem_write malloc file ehdr s
  load_segments file ehdr (some country) s = some (negsuc 21, s)

  -- With a header, whichever kind of file it is said to be.
  unfoldable pub load_headed : Bytes → Bool → Option Bytes → ℤ × Option Ehdr → S → Option (ℤ × S)
  load_headed file load_bcf country (ret, none) s = some (negsuc 5, s)
  load_headed file load_bcf country (ret, some ehdr) s =
      if load_bcf then load_bcf_sections file ehdr country s else load_segments file ehdr country s

  -- load_elf; the file is none when it cannot be opened.
  unfoldable pub load_elf : Option Bytes → Bool → Option Bytes → S → Option (ℤ × S)
  load_elf none load_bcf country s = some (negsuc 1, s)
  load_elf (some file) load_bcf country s =
      load_headed file load_bcf country
        (load_file_header (load_binary_data file 0 ehdr_size (malloc ehdr_size))) s
