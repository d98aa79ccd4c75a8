-- ===== src/Sdio/Sections.antt =====
-- The length of a section in memblock_common (transport/sdio_over_spi.c): lemmas on its bounds.
use morse_cli.Base.{ℕ, ◌+◌, ◌-◌, ◌*◌, ◌%◌, ◌/◌, ◌^◌, ◌≤◌, ◌<◌, ◌≡◌, refl, ap, ◌∙◌, arith, bit_and}
use morse_cli.Base.Bits.{bit_and-mask}
use morse_cli.Base.Masks.{bit_and-shifted}
use morse_cli.Sdio.Memblock.{current_size}

pub section_base : (addr : ℕ) → addr < 2 ^ 32 → bit_and addr 0xffff0000 ≡ addr / 2 ^ 16 * 2 ^ 16
section_base addr h =
    let small : addr / 2 ^ 16 % 2 ^ 16 ≡ addr / 2 ^ 16 = omega arith in
    bit_and-shifted 16 addr 0xffff
    ∙ ap (λ t. t * 2 ^ 16) (bit_and-mask 16 0xffff (addr / 2 ^ 16) refl ∙ small)

-- A section is not empty, is no longer than what remains, and does not cross a boundary.
pub current_size-bounds :
    (addr remaining : ℕ)
    → addr < 2 ^ 32
    → 0 < remaining
    → remaining ≤ 2 ^ 32
    → (0 < current_size addr remaining) × (current_size addr remaining ≤ remaining)
unfolding current_size
current_size-bounds addr remaining h k l = rw (section_base addr h) (ground arith)

pub current_size-section :
    (addr remaining : ℕ)
    → 0 < remaining
    → addr + remaining ≤ 2 ^ 32
    → (addr + current_size addr remaining - 1) / 2 ^ 16 ≡ addr / 2 ^ 16
unfolding current_size
current_size-section addr remaining h k = rw (section_base addr (omega arith)) (ground arith)

pub current_size-aligned :
    (addr remaining : ℕ)
    → addr % 4 ≡ 0
    → remaining % 4 ≡ 0
    → addr + remaining ≤ 2 ^ 32
    → 0 < remaining
    → current_size addr remaining % 4 ≡ 0
unfolding current_size
current_size-aligned addr remaining h k l m = rw (section_base addr (omega arith)) (ground arith)

pub current_size-max :
    (addr remaining : ℕ)
    → 0 < remaining
    → addr + remaining ≤ 2 ^ 32
    → current_size addr remaining ≤ 2 ^ 16
unfolding current_size
current_size-max addr remaining h k = rw (section_base addr (omega arith)) (ground arith)
