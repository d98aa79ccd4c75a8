-- ===== src/ConfigFile/Space.antt =====
-- config_file.c: what the functions that skip the space round a text leave of it.
use morse_cli.Base.{
  length-take, ℕ, zero, suc, ◌+◌, ◌==◌, ◌<◌, false, if◌then◌else◌, Bytes, [], ◌∷◌, get_or, set,
  take, drop, ◌≡◌, refl, sym, ap, ◌∙◌, inl, inr, Bool-cases, arith,
}
use morse_cli.Base.Strings.{c_str, strlen, is_space}
use morse_cli.ConfigFile.{
  trim_from, remove_trailing_ws, skip_from, remove_leading_ws, max_line_length,
}
use morse_cli.Base.Trim.{
  trimmed, trimmed-space, trimmed_other, c_str-set, c_str-nil, c_str-snoc, c_str-drop_get,
}

-- A text from its first octet on that is neither space nor an equals sign.
unfoldable pub stripped : Bytes → Bytes
stripped [] = []
stripped (c ∷ cs) =
    let rest = stripped cs in if c == b'=' then rest else if is_space c then rest else c ∷ cs

length-c_str-set : (b : Bytes) (i : ℕ) → strlen b ≡ suc i → strlen (set b i 0) ≡ i
length-c_str-set b i h = rw c_str-set (length-take i (c_str b) ∙ omega (arith, h))

c_str-trim_from : (i : ℕ) (b : Bytes) → strlen b ≡ i → c_str (trim_from i b) ≡ trimmed (c_str b)
unfolding trim_from trimmed
c_str-trim_from zero b h = rw (c_str-nil b h) refl
c_str-trim_from (suc i) b h = elim (Bool-cases (is_space (get_or b i 0))) [
  | inl s ↦ rw s (
      c_str-trim_from i (set b i 0) (length-c_str-set b i h)
      ∙ rw c_str-set
          (sym (ap trimmed (c_str-snoc b i h) ∙ trimmed-space (take i (c_str b)) (get_or b i 0) s)))
  | inr s ↦ rw s (
      c_str-snoc b i h
      ∙ sym (ap trimmed (c_str-snoc b i h) ∙ trimmed_other (take i (c_str b)) (get_or b i 0) s))
]

-- For every buffer, the text that config_file_remove_trailing_ws leaves is the text without the
-- space at its end, as defined by recursion on the text.
pub c_str-remove_trailing_ws : (b : Bytes) → c_str (remove_trailing_ws b) ≡ trimmed (c_str b)
unfolding remove_trailing_ws
c_str-remove_trailing_ws b = c_str-trim_from (strlen b) b refl

c_str-skip_from :
    (rounds i : ℕ) (b : Bytes)
    → strlen (drop i b) < rounds
    → c_str (drop (skip_from rounds i b) b) ≡ stripped (c_str (drop i b))
unfolding skip_from is_space stripped
c_str-skip_from zero i b h = absurd (omega arith)
c_str-skip_from (suc rounds) i b h =
    ground (arith, c_str-skip_from rounds (i + 1) b, c_str-drop_get b i)

-- A text of less than 255 octets is left from its first octet that is neither space nor `=`.
pub c_str-remove_leading_ws :
    (b : Bytes)
    → strlen b < max_line_length
    → c_str (drop (remove_leading_ws b) b) ≡ stripped (c_str b)
unfolding remove_leading_ws
c_str-remove_leading_ws b h = c_str-skip_from max_line_length 0 b h

pub stripped-equals :
    (c : ℕ) (t : Bytes) → is_space c ≡ false → (c == b'=') ≡ false → stripped (b'=' ∷ c ∷ t) ≡ c ∷ t
unfolding stripped
stripped-equals c t h e = rw (h, e, stripped)
