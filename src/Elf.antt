-- ===== src/Elf.antt =====
-- elf_file.c: the headers of a 32-bit file in memory, and the sections of the statistics. What is
-- read behind the end of the memory is zero here.
pub mod Stats
pub mod Load
pub mod Command
pub mod Written
pub mod Segments
pub mod Whole
mod Runs
use morse_cli.Base.{
  ℕ, zero, suc, ◌+◌, ◌*◌, ◌/◌, ◌==◌, Bool, true, false, not, ◌&&◌, ◌||◌, if◌then◌else◌, Option,
  none, some, Bytes, List, [], ◌∷◌, ◌++◌, get_or, take, drop, replicate, length, ℤ, pos, negsuc,
}
use morse_cli.Base.Strings.{c_str, starts_with, write_at}
use morse_cli.Sdio.Memblock.{le32_value}
use morse_cli.Transport.Dispatch.{Called, crashed, came_back}
use morse_cli.Utilities.Text.{codes}

abbrev pub le32_at : ℕ → Bytes → ℕ
le32_at at b = le32_value (drop at b)

abbrev pub le16_at : ℕ → Bytes → ℕ
le16_at at b = get_or b at 0 + get_or b (at + 1) 0 * 256

-- The members of Elf32_Ehdr that get_file_header fills in.
pub record Ehdr : Type 0 where
  pub e_phoff : ℕ
  pub e_phentsize : ℕ
  pub e_phnum : ℕ
  pub e_shoff : ℕ
  pub e_shentsize : ℕ
  pub e_shnum : ℕ
  pub e_shstrndx : ℕ

unfoldable pub has_magic : Bytes → Bool
has_magic b =
    get_or b 0 0 == 0x7f && (get_or b 1 0 == b'E' && (get_or b 2 0 == b'L' && get_or b 3 0 == b'F'))

-- EI_CLASS and EI_DATA.
unfoldable pub is_le_32bit : Bytes → Bool
is_le_32bit b = get_or b 5 0 == 1 && get_or b 4 0 == 1

abbrev pub ehdr_of : Bytes → Ehdr
ehdr_of b = record {
  e_phoff = le32_at 28 b;
  e_phentsize = le16_at 42 b;
  e_phnum = le16_at 44 b;
  e_shoff = le32_at 32 b;
  e_shentsize = le16_at 46 b;
  e_shnum = le16_at 48 b;
  e_shstrndx = le16_at 50 b;
}

-- -EBADF and -EINVAL; the header is there when the code is 0.
unfoldable pub get_file_header : Bytes → ℤ × Option Ehdr
get_file_header b =
    if not (has_magic b)
    then (negsuc 8, none)
    else if not (is_le_32bit b)
    then (negsuc 21, none)
    else (pos 0, some (ehdr_of b))

pub record Shdr : Type 0 where
  pub sh_name : ℕ
  pub sh_addr : ℕ
  pub sh_offset : ℕ
  pub sh_size : ℕ

unfoldable pub get_section_header : Bytes → Ehdr → ℕ → Shdr
get_section_header b ehdr ii =
    let p = drop (ehdr.e_shoff + ii * ehdr.e_shentsize) b in
    record {
      sh_name = le32_at 0 p;
      sh_addr = le32_at 12 p;
      sh_offset = le32_at 16 p;
      sh_size = le32_at 20 p;
    }

-- strstr finds it.
unfoldable pub contains : Bytes → Bytes → Bool
contains needle [] = starts_with needle []
contains needle (c ∷ s) = starts_with needle (c ∷ s) || contains needle s

-- sh_strs + shdr.sh_name
unfoldable pub section_name : Bytes → Ehdr → Shdr → Bytes
section_name b ehdr shdr =
    c_str (drop ((get_section_header b ehdr ehdr.e_shstrndx).sh_offset + shdr.sh_name) b)

abbrev pub is_offchip : Bytes → Ehdr → Shdr → Bool
is_offchip b ehdr shdr = contains (codes "_offchip_") (section_name b ehdr shdr)

-- The sections from the index ii on, as the loops meet them.
unfoldable pub sections_from : Bytes → Ehdr → ℕ → ℕ → List Shdr
sections_from b ehdr zero ii = []
sections_from b ehdr (suc left) ii =
    get_section_header b ehdr ii ∷ sections_from b ehdr left (ii + 1)

-- The first loop.
unfoldable pub total_stats_size : Bytes → Ehdr → List Shdr → ℕ → ℕ
total_stats_size b ehdr [] total = total
total_stats_size b ehdr (shdr ∷ rest) total =
    total_stats_size b ehdr rest (if is_offchip b ehdr shdr then total + shdr.sh_size else total)

-- What the second loop works on.
pub record Copied : Type 0 where
  pub blob : Bytes
  pub offset : ℕ
  pub n_rec : ℕ

-- One round; `record_size` is the size of struct statistics_offchip_data.
unfoldable pub copy_section : ℕ → Bytes → Ehdr → Shdr → Copied → Copied
copy_section record_size b ehdr shdr c =
    if is_offchip b ehdr shdr
    then record {
      blob = write_at c.offset (take shdr.sh_size (drop shdr.sh_offset b)) c.blob;
      offset = c.offset + shdr.sh_size;
      n_rec = c.n_rec + shdr.sh_size / record_size;
    }
    else c

unfoldable pub copy_sections : ℕ → Bytes → Ehdr → List Shdr → Copied → Copied
copy_sections record_size b ehdr [] c = c
copy_sections record_size b ehdr (shdr ∷ rest) c =
    copy_sections record_size b ehdr rest (copy_section record_size b ehdr shdr c)

-- The memory of the statistics; memset writes to it before it is compared with null.
unfoldable pub stats_from :
    ℕ → Bytes → Ehdr → List Shdr → ℕ → Option Bytes → Called (ℤ × Option (Bytes × ℕ))
stats_from record_size b ehdr sections total none = crashed
stats_from record_size b ehdr sections total (some mem) =
    let c =
      copy_sections record_size b ehdr sections
        (record { blob = write_at 0 (replicate total 0) mem; offset = 0; n_rec = 0 }) in
    came_back (pos 0, some (c.blob, c.n_rec))

unfoldable pub stats_of :
    (ℕ → Option Bytes) → ℕ → Bytes → ℤ × Option Ehdr → Called (ℤ × Option (Bytes × ℕ))
stats_of malloc record_size b (ret, none) = came_back (negsuc 1, none)
stats_of malloc record_size b (ret, some ehdr) =
    let sections = sections_from b ehdr ehdr.e_shnum 0 in
    let total = total_stats_size b ehdr sections 0 in
    stats_from record_size b ehdr sections total (malloc total)

-- The code, with the array and the number of its records.
unfoldable pub morse_stats_load : (ℕ → Option Bytes) → ℕ → Bytes → Called (ℤ × Option (Bytes × ℕ))
morse_stats_load malloc record_size b = stats_of malloc record_size b (get_file_header b)
