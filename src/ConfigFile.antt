-- ===== src/ConfigFile.antt =====
-- config_file.c: the file that gives the transport, its interface and its options. A pointer to a
-- text is null, freed, or a block of memory. Debug messages are left out.
pub mod Space
pub mod Append
pub mod Keeps
pub mod Lines
pub mod File
pub mod RoundTrip
mod Runs
use morse_cli.Base.{
  ℕ, zero, suc, ◌+◌, ◌-◌, ◌==◌, Bool, true, false, not, ◌&&◌, ◌||◌, ltb, if◌then◌else◌, Option,
  none, some, Bytes, [], ◌∷◌, ◌++◌, ℤ, pos, negsuc, length, get_or, set, take, drop, is_zero,
}
use morse_cli.Base.Strings.{c_str, strlen, is_space, starts_with, write_at, snprintf_s}
use morse_cli.Base.Trim.{trimmed, strchr, fgets}

pub data Pointer : Type 0 where
  null : Pointer
  block : Bytes → Pointer
  freed : Pointer

abbrev pub is_null : Pointer → Bool
is_null null = true
is_null _ = false

abbrev pub max_line_length : ℕ
max_line_length = 255

abbrev pub max_cfg_length : ℕ
max_cfg_length = 255

-- "transport"
abbrev pub trans_str : Bytes
trans_str = b't' ∷ b'r' ∷ b'a' ∷ b'n' ∷ b's' ∷ b'p' ∷ b'o' ∷ b'r' ∷ b't' ∷ []

-- "interface"
abbrev pub iface_str : Bytes
iface_str = b'i' ∷ b'n' ∷ b't' ∷ b'e' ∷ b'r' ∷ b'f' ∷ b'a' ∷ b'c' ∷ b'e' ∷ []

-- The loop from index ii - 1 downwards.
unfoldable pub trim_from : ℕ → Bytes → Bytes
trim_from zero buff = buff
trim_from (suc ii) buff =
    let shorter = trim_from ii (set buff ii 0) in
    if is_space (get_or buff ii 0) then shorter else buff

unfoldable pub remove_trailing_ws : Bytes → Bytes
remove_trailing_ws buff = trim_from (strlen buff) buff

-- The loop with so many rounds left, from index ii on. The result is the index that is returned;
-- it is zero, the start of the buffer, when the rounds run out.
unfoldable pub skip_from : ℕ → ℕ → Bytes → ℕ
skip_from zero ii buff = 0
skip_from (suc rounds) ii buff =
    let next = skip_from rounds (ii + 1) buff in
    let c = get_or buff ii 0 in
    if c == b'=' then next else if c == 0 || not (is_space c) then ii else next

unfoldable pub remove_leading_ws : Bytes → ℕ
remove_leading_ws buff = skip_from max_line_length 0 buff

abbrev pub free : Pointer → Pointer
free null = null
free _ = freed

pub record Options : Type 0 where
  pub trans_opts : Pointer
  pub iface_opts : Pointer
  pub cfg_opts : Pointer

-- An option behind those in the block, with a comma between.
unfoldable pub put_option : Bytes → Bytes → Bytes
put_option buff ptr =
    let size = strlen ptr in
    if size == 0
    then snprintf_s 0 max_cfg_length buff ptr
    else snprintf_s (size + 1) (max_cfg_length - (size + 1)) buff
        (write_at size (b',' ∷ 0 ∷ []) ptr)

abbrev pub is_comment : ℕ → Bool
is_comment c = c == b'#' || (c == 10 || c == 13)

-- The text that `buff` points to is trimmed in place: it is part of the result.
unfoldable pub cfg_add : Bytes → Bytes → ℤ × Bytes × Pointer
cfg_add buff ptr =
    let buff' = remove_trailing_ws buff in
    if ltb max_cfg_length (strlen ptr + strlen buff' + 2)
    then (negsuc 0, buff', block ptr)
    else (pos 0, buff', block (put_option buff' ptr))

unfoldable pub cfg_with : Bytes → Pointer → Option Bytes → ℤ × Bytes × Pointer
cfg_with buff cfg_opts none = (negsuc 0, buff, cfg_opts)
cfg_with buff cfg_opts (some ptr) = cfg_add buff ptr

-- The copy of a text in new memory, without the space at its end.
unfoldable pub copy_text : Bytes → Option Bytes → ℤ × Pointer
copy_text value none = (negsuc 0, null)
copy_text value (some b) = (pos 0, block (remove_trailing_ws (snprintf_s 0 max_cfg_length value b)))

-- What malloc returns for a size: null, or a block with what was in that memory.
module _ (malloc : ℕ → Option Bytes) where
  -- The rest of the function, from the index of the equals sign.
  unfoldable pub passthrough_from : Bytes → Pointer → Option ℕ → ℤ × Pointer
  passthrough_from src dst none = (negsuc 0, free dst)
  passthrough_from src dst (some i) =
      let ptr = drop i src in
      let value = drop (remove_leading_ws ptr) ptr in copy_text value (malloc (strlen value + 1))

  unfoldable pub passthrough : Bytes → Pointer → ℤ × Pointer
  passthrough src dst = passthrough_from src dst (strchr b'=' src)

  -- The block that the options are collected in.
  unfoldable pub cfg_block : Pointer → Option Bytes
  cfg_block (block b) = some b
  cfg_block null = elim (malloc max_cfg_length) [ none ↦ none | some b ↦ some (set b 0 0) ]
  cfg_block freed = none

  unfoldable pub config_file_cfg : Bytes → Pointer → ℤ × Bytes × Pointer
  config_file_cfg buff cfg_opts = cfg_with buff cfg_opts (cfg_block cfg_opts)

-- What a block is for; each call of malloc may fail by itself.
pub data Purpose : Type 0 where
  line_buffer : Purpose
  transport_text : Purpose
  interface_text : Purpose
  options_block : Purpose

module _ (malloc : Purpose → ℕ → Option Bytes) where
  -- The three uses of a line, from the index `at` on: the code that ends the loop when it is not
  -- zero, the buffer of the line, and the options.
  unfoldable pub take_trans : ℕ → Bytes → Options → ℤ × Bytes × Options
  take_trans at line o =
      let (ret, trans) = passthrough (malloc transport_text) (drop at line) o.trans_opts in
      (ret, line, record o { trans_opts = trans })

  unfoldable pub take_iface : ℕ → Bytes → Options → ℤ × Bytes × Options
  take_iface at line o =
      let (ret, iface) = passthrough (malloc interface_text) (drop at line) o.iface_opts in
      (ret, line, record o { iface_opts = iface })

  unfoldable pub take_cfg : ℕ → Bytes → Options → ℤ × Bytes × Options
  take_cfg at line o =
      let (ret, buff, cfg) = config_file_cfg (malloc options_block) (drop at line) o.cfg_opts in
      (ret, take at line ++ buff, record o { cfg_opts = cfg })

  -- A line that gives neither; the transport that is known by now is the last argument.
  unfoldable pub parse_option : ℕ → Bytes → Options → Pointer → ℤ × Bytes × Options
  parse_option ptr line o (block trans) =
      if starts_with (c_str trans) (drop ptr line)
      then take_cfg (ptr + (strlen trans + 1)) line o
      else (pos 0, line, o)
  parse_option ptr line o _ = (pos 0, line, o)

  -- One round of the loop, for the index of the first octet that is not skipped.
  unfoldable pub parse_text : ℕ → Bytes → Options → ℤ × Bytes × Options
  parse_text ptr line o =
      if starts_with trans_str (drop ptr line) && is_null o.trans_opts
      then take_trans (ptr + length trans_str) line o
      else if starts_with iface_str (drop ptr line) && is_null o.iface_opts
      then take_iface (ptr + length iface_str) line o
      else parse_option ptr line o o.trans_opts

  unfoldable pub parse_line : Bytes → Options → ℤ × Bytes × Options
  parse_line line o =
      if is_comment (get_or line 0 0)
      then (pos 0, line, o)
      else parse_text (remove_leading_ws line) line o

  -- The loop over the lines. A round reads an octet or more, so the length of the file and one
  -- more round are enough; `none` is a loop that has not ended.
  unfoldable pub parse_lines : ℕ → Bytes → Bytes → Options → Option (ℤ × Options)
  parse_lines zero file line o = none
  parse_lines (suc rounds) [] line o = some (pos 0, o)
  parse_lines (suc rounds) (c ∷ file) line o =
      let (line_in, rest) = fgets max_line_length line (c ∷ file) in
      let (ret, line', o') = parse_line line_in o in
      let next = parse_lines rounds rest line' o' in if is_zero ret then next else some (ret, o')

  -- A file that is open, with the buffer for its lines.
  unfoldable pub parse_opened : Bytes → Options → Option Bytes → Option (ℤ × Options)
  parse_opened text o none = some (negsuc 0, o)
  parse_opened text o (some line) = parse_lines (suc (length text)) text line o

  -- `file` is none when it cannot be opened. The result carries the options in any case.
  unfoldable pub morsectrl_config_file_parse : Option Bytes → Options → Option (ℤ × Options)
  morsectrl_config_file_parse none o = some (negsuc 0, o)
  morsectrl_config_file_parse (some text) o =
      parse_opened text o (malloc line_buffer max_line_length)
