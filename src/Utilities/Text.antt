-- ===== src/Utilities/Text.antt =====
-- utilities.c: strip, tolower_str, expression_to_int and str_to_ip. strip works on the memory of
-- the text, up to its final zero; the others on the text alone.
use Prim.Native.String.{String}
use Prim.Native.Char.{code}
use morse_cli.Base.{
  ℕ, zero, suc, ◌+◌, leb, Bool, ◌&&◌, if◌then◌else◌, Option, none, some, Bytes, List, [], ◌∷◌, map,
  get_or, set, ℤ, pos, negsuc,
}
use morse_cli.Base.Strings.{strlen, is_space}
use morse_cli.Transport.Table.{strings_eq}

-- The octets of a literal.
abbrev pub codes : String → Bytes
codes String.[] = []
codes (String.◌∷◌ c s) = code c ∷ codes s

-- How far `start` moves.
unfoldable pub strip_start : Bytes → ℕ
strip_start [] = 0
strip_start (c ∷ s) = if is_space c then suc (strip_start s) else 0

-- The second loop, where `end` is one octet in front of the index.
unfoldable pub strip_end : ℕ → ℕ → Bytes → Bytes
strip_end start zero s = s
strip_end start (suc end) s =
    let shorter = strip_end start end (set s end 0) in
    if leb start end && is_space (get_or s end 0) then shorter else s

-- The index of the text that is returned, and the memory.
unfoldable pub strip : Bytes → ℕ × Bytes
strip s = (strip_start s, strip_end (strip_start s) (strlen s) s)

unfoldable pub tolower : ℕ → ℕ
tolower c = if leb b'A' c && leb c b'Z' then c + 32 else c

unfoldable pub tolower_str : Bytes → Bytes
tolower_str str = map tolower str

-- strncasecmp over the longer length of the two texts gives zero.
unfoldable pub same_expr : Bytes → Bytes → Bool
same_expr expr str = strings_eq (map tolower expr) (map tolower str)

-- The pairs of TRUE_EXPR and FALSE_EXPR.
abbrev pub exprs : List (Bytes × Bytes)
exprs =
    (codes "true", codes "false")
    ∷ (codes "enable", codes "disable")
    ∷ (codes "yes", codes "no")
    ∷ (codes "t", codes "f")
    ∷ (codes "y", codes "n")
    ∷ (codes "1", codes "0")
    ∷ []

unfoldable pub expression_from : List (Bytes × Bytes) → Bytes → ℤ
expression_from [] str = negsuc 0
expression_from ((yes_expr, no_expr) ∷ rest) str =
    let later = expression_from rest str in
    if same_expr yes_expr str then pos 1 else if same_expr no_expr str then pos 0 else later

unfoldable pub expression_to_int : Bytes → ℤ
expression_to_int str = expression_from exprs str

-- inet_pton: the address, if the text is one.
unfoldable pub str_to_ip : (Bytes → Option ℕ) → Bytes → ℕ → ℤ × ℕ
str_to_ip inet_pton s out = elim (inet_pton s) [
  | none ↦ (negsuc 0, out)
  | some addr ↦ (pos 0, addr)
]
