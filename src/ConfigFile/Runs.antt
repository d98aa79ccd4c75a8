-- ===== src/ConfigFile/Runs.antt =====
-- A configuration file for a transport with two options, and a block that holds one option.
use morse_cli.Base.{
  ℕ, ◌≡◌, ◌⊎◌, refl, Bytes, [], ◌∷◌, ◌++◌, Option, some, pos, ℤ, length, replicate,
  length-replicate, ◌+◌, ◌≤◌, arith,
}
use morse_cli.Base.Strings.{c_str, is_space, strlen, starts_with, write_at}
use morse_cli.ConfigFile.{
  Purpose, options_block, null, block, Options, max_cfg_length, cfg_block, config_file_cfg,
  morsectrl_config_file_parse, remove_leading_ws, skip_from, trans_str, parse_opened, parse_lines,
  parse_line, parse_text, parse_option,
}
use morse_cli.ConfigFile.Append.{joined, config_file_cfg-joined}
use morse_cli.ConfigFile.Keeps.{config_file_parse-keeps, config_file_parse_total}
use morse_cli.ConfigFile.Lines.{IsWord, Says}
use morse_cli.ConfigFile.File.{IsOption, printed, all_joined}
use morse_cli.ConfigFile.RoundTrip.{config_file_parse-printed}
use morse_cli.Base.Trim.{before, trimmed, take_line, fgets}

-- Memory that is filled with 7.
abbrev malloc : Purpose → ℕ → Option Bytes
malloc purpose n = some (replicate n 7)

malloc_gives : (w : Purpose) (n : ℕ) → (b : Bytes) × (malloc w n ≡ some b) × (length b ≡ n)
malloc_gives w n = (replicate n 7, refl, length-replicate n 7)

abbrev nothing : Options
nothing = record { trans_opts = null; iface_opts = null; cfg_opts = null }

-- "spi", "dev0", "irq=4" and "hz=1".
abbrev spi : Bytes
spi = b's' ∷ b'p' ∷ b'i' ∷ []

abbrev dev : Bytes
dev = b'd' ∷ b'e' ∷ b'v' ∷ b'0' ∷ []

abbrev irq : Bytes
irq = b'i' ∷ b'r' ∷ b'q' ∷ b'=' ∷ b'4' ∷ []

abbrev hz : Bytes
hz = b'h' ∷ b'z' ∷ b'=' ∷ b'1' ∷ []

spi-IsWord : IsWord spi
unfolding is_space trimmed before
spi-IsWord = record { line = omega arith; first = refl; last = refl }

dev-IsWord : IsWord dev
unfolding is_space trimmed before
dev-IsWord = record { line = omega arith; first = refl; last = refl }

irq-IsOption : IsOption spi irq
unfolding is_space trimmed before
irq-IsOption = record { line = omega arith; last = refl; short = omega arith }

hz-IsOption : IsOption spi hz
unfolding is_space trimmed before
hz-IsOption = record { line = omega arith; last = refl; short = omega arith }

all_joined-fits : length (all_joined [] (irq ∷ hz ∷ [])) + 2 ≤ max_cfg_length
unfolding all_joined joined
all_joined-fits = omega arith

config_file_parse-printed_example :
    (o' : Options) × (morsectrl_config_file_parse malloc
        (some (printed spi dev (irq ∷ hz ∷ [])))
        nothing
      ≡ some (pos 0, o'))
    × Says o'.trans_opts spi
    × Says o'.iface_opts dev
    × Says o'.cfg_opts (all_joined [] (irq ∷ hz ∷ []))
config_file_parse-printed_example =
    config_file_parse-printed malloc malloc_gives spi dev irq (hz ∷ []) nothing spi-IsWord
      dev-IsWord (omega arith) (omega arith) (irq-IsOption, (hz-IsOption, tt)) all_joined-fits refl
      refl refl

-- The transport "spi" from the command line, and a file that names another.
abbrev known : Options
known = record { trans_opts = block (spi ++ (0 ∷ [])); iface_opts = null; cfg_opts = null }

abbrev file : Bytes
file = trans_str ++ (b'=' ∷ (dev ++ (10 ∷ [])))

parse-file : morsectrl_config_file_parse malloc (some file) known ≡ some (pos 0, known)
unfolding morsectrl_config_file_parse parse_opened parse_lines parse_line parse_text parse_option
    fgets take_line c_str is_space starts_with write_at remove_leading_ws skip_from
parse-file = refl

config_file_parse-keeps_example :
    ((known.trans_opts ≡ null) ⊎ (known.trans_opts ≡ known.trans_opts))
    × ((known.iface_opts ≡ null) ⊎ (known.iface_opts ≡ known.iface_opts))
config_file_parse-keeps_example =
    config_file_parse-keeps malloc (some file) known (pos 0) known parse-file

config_file_parse_total_example :
    (r : ℤ × Options) × (morsectrl_config_file_parse malloc (some file) known ≡ some r)
config_file_parse_total_example = config_file_parse_total malloc (some file) known

-- A block with "hz=1", and the text "irq=4" at the end of a line.
abbrev hz_block : Bytes
hz_block = hz ++ (0 ∷ replicate 250 7)

abbrev irq_line : Bytes
irq_line = irq ++ (10 ∷ 0 ∷ [])

hz_room : max_cfg_length ≤ length hz_block
hz_room = omega arith

irq_fits : strlen hz_block + length (trimmed (c_str irq_line)) + 2 ≤ max_cfg_length
unfolding c_str trimmed before is_space
irq_fits = omega arith

hz_found : cfg_block (malloc options_block) (block hz_block) ≡ some hz_block
unfolding cfg_block
hz_found = refl

config_file_cfg-joined_example :
    (b : Bytes) × ((config_file_cfg (malloc options_block) irq_line (block hz_block)).2 ≡ block b)
    × ((config_file_cfg (malloc options_block) irq_line (block hz_block)).0 ≡ pos 0)
    × (c_str b ≡ joined (c_str hz_block) (trimmed (c_str irq_line)))
    × (length b ≡ length hz_block)
config_file_cfg-joined_example =
    config_file_cfg-joined (malloc options_block) irq_line hz_block (block hz_block) hz_found
      hz_room irq_fits
