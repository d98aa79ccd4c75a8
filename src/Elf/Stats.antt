-- ===== src/Elf/Stats.antt =====
-- elf_file.c: the memory that morse_stats_load fills.
use morse_cli.Base.{
  ℕ, zero, suc, ◌<◌, ◌^◌, ◌*◌, ◌+◌, ◌/◌, ◌≤◌, if◌then◌else◌, Option, Bytes, List, [], ◌∷◌, ◌++◌,
  take, drop, replicate, length, ◌≡◌, refl, arith, All,
}
use morse_cli.Elf.{Ehdr, Shdr, get_section_header, section_name, is_offchip, sections_from, Copied}

-- The sections whose name holds `_offchip_`, in their order.
unfoldable pub offchip : Bytes → Ehdr → List Shdr → List Shdr
offchip b ehdr [] = []
offchip b ehdr (shdr ∷ rest) =
    if is_offchip b ehdr shdr then shdr ∷ offchip b ehdr rest else offchip b ehdr rest

abbrev pub section_octets : Bytes → Shdr → Bytes
section_octets b shdr = take shdr.sh_size (drop shdr.sh_offset b)

unfoldable pub contents : Bytes → List Shdr → Bytes
contents b [] = []
contents b (shdr ∷ rest) = section_octets b shdr ++ contents b rest

unfoldable pub sum_sizes : List Shdr → ℕ
sum_sizes [] = 0
sum_sizes (shdr ∷ rest) = shdr.sh_size + sum_sizes rest

unfoldable pub records : ℕ → List Shdr → ℕ
records record_size [] = 0
records record_size (shdr ∷ rest) = shdr.sh_size / record_size + records record_size rest

-- Sections that lie in the file.
abbrev pub InFile : Bytes → List Shdr → Type 0
InFile b = All (λ shdr. shdr.sh_offset + shdr.sh_size ≤ length b)

-- The headers that the loops read, in a table whose entries have 40 octets.
unfoldable pub HeadersInFile : Bytes → Ehdr → ℕ → ℕ → Type 0
HeadersInFile b ehdr zero ii = Unit {0}
HeadersInFile b ehdr (suc left) ii =
    (ehdr.e_shoff + ii * ehdr.e_shentsize + 40 ≤ length b) × HeadersInFile b ehdr left (ii + 1)

-- Names that end in the file.
abbrev pub NamesInFile : Bytes → Ehdr → List Shdr → Type 0
NamesInFile b ehdr = All (λ (shdr : Shdr).
    (get_section_header b ehdr ehdr.e_shstrndx).sh_offset
      + shdr.sh_name
      + length (section_name b ehdr shdr)
    < length b)

-- What is read lies in the file, and the sums fit into an int.
abbrev pub IsReadable : Bytes → Ehdr → Type 0
IsReadable b ehdr =
    (52 ≤ length b)
    × (length b < 2 ^ 31)
    × (ehdr.e_shoff + ehdr.e_shstrndx * ehdr.e_shentsize + 40 ≤ length b)
    × HeadersInFile b ehdr ehdr.e_shnum 0
    × NamesInFile b ehdr (sections_from b ehdr ehdr.e_shnum 0)
    × (sum_sizes (offchip b ehdr (sections_from b ehdr ehdr.e_shnum 0)) < 2 ^ 31)

-- What the second loop has done behind the sections.
abbrev pub copied : ℕ → Bytes → List Shdr → Bytes → ℕ → Copied
copied record_size b found done n = record {
  blob = done ++ contents b found;
  offset = length done + sum_sizes found;
  n_rec = n + records record_size found;
}

abbrev pub start : List Shdr → Bytes → ℕ → Copied
start found done n = record {
  blob = done ++ replicate (sum_sizes found) 0;
  offset = length done;
  n_rec = n;
}

pub drop_all : (n : ℕ) (xs : Bytes) → length xs ≡ n → drop n xs ≡ []
drop_all zero [] h = refl
drop_all zero (x ∷ xs) h = absurd (omega arith)
drop_all (suc n) [] h = refl
drop_all (suc n) (x ∷ xs) h = drop_all n xs (omega arith)

module _ (malloc : ℕ → Option Bytes) (record_size : ℕ) (b : Bytes) (ehdr : Ehdr) where
  -- The sections of the statistics in the file.
  abbrev pub found : List Shdr
  found = offchip b ehdr (sections_from b ehdr ehdr.e_shnum 0)
