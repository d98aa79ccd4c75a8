-- ===== src/Standby.antt =====
-- standby.c: the files of key=value lines that the standby commands read, over the code that takes
-- a pair. A text is its octets without the final zero.
pub mod Config
pub mod Session
pub mod Request
pub mod Top
pub mod Pairs
pub mod RoundTrip
pub mod Keeps
pub mod Bounds
pub mod Payload
pub mod Log
pub mod Sent
mod Runs
use morse_cli.Base.{
  ℕ, zero, suc, ◌+◌, ◌-◌, ◌==◌, Bool, true, false, ◌&&◌, ◌||◌, if◌then◌else◌, Option, none, some,
  Bytes, List, [], ◌∷◌, ◌++◌, get_or, set, drop, length, ℤ, pos, negsuc, is_zero, is_negative,
}
use morse_cli.Base.Strings.{c_str}
use morse_cli.Base.Trim.{strchr, take_line}
use morse_cli.Utilities.Text.{strip}

abbrev pub max_line_length : ℕ
max_line_length = 255

abbrev pub is_empty : Bytes → Bool
is_empty [] = true
is_empty (c ∷ cs) = false

abbrev pub pair_of : Bytes → Bytes → Option (Bytes × Bytes)
pair_of key val = if is_empty key || is_empty val then none else some (key, val)

-- The key and the value in the memory of a line, if it has both.
abbrev pub split_at : ℕ → Bytes → Option ℕ → Option (Bytes × Bytes)
split_at start line none = none
split_at start line (some i) =
    pair_of (c_str (drop start (set line i 0))) (c_str (drop (i + 1) (set line i 0)))

unfoldable pub config_pair : Bytes → Option (Bytes × Bytes)
config_pair line = let (start, line') = strip line in split_at start line' (strchr b'=' line')

abbrev pub is_comment : ℕ → Bool
is_comment c = c == b'#' || (c == 10 || c == 13)

-- `keyval_process` returns its code and the context with what it has stored.
module _ {C : Type 0} (keyval_process : C → Bytes → Bytes → ℤ × C) where
  unfoldable pub process_pair : C → Option (Bytes × Bytes) → ℤ × C
  process_pair context none = (negsuc 0, context)
  process_pair context (some (key, val)) = keyval_process context key val

  -- One line. Nothing is read behind the zero that fgets writes, so the memory of a line ends
  -- there.
  unfoldable pub config_line : Bytes → C → ℤ × C
  config_line line context =
      if is_comment (get_or line 0 0)
      then (pos 0, context)
      else process_pair context (config_pair (line ++ (0 ∷ [])))

  -- The loop over the lines; `none` is a loop that has not ended.
  unfoldable pub config_lines : ℕ → Bytes → C → Option (ℤ × C)
  config_lines zero file context = none
  config_lines (suc rounds) [] context = some (pos 0, context)
  config_lines (suc rounds) (c ∷ file) context =
      let (line, rest) = take_line (max_line_length - 1) (c ∷ file) in
      let (ret, context') = config_line line context in
      let next = config_lines rounds rest context' in
      if is_zero ret then next else some (ret, context')

  -- The file is none when there is no path, when it is a directory, or when it cannot be opened.
  unfoldable pub config_parse : Option Bytes → C → Option (ℤ × C)
  config_parse none context = some (negsuc 0, context)
  config_parse (some file) context = config_lines (suc (length file)) file context

-- A number or an address that was read, and where it goes.
abbrev pub store_value : {C : Type 0} → ℤ × ℕ → C → (ℕ → C) → ℤ × C
store_value (ret, temp) context store =
    if is_negative ret then (negsuc 0, context) else (pos 0, store temp)
