-- ===== src/Standby/Pairs.antt =====
-- standby.c: lines of a key and a value without space in them.
use morse_cli.Base.{
  ℕ, zero, suc, ◌+◌, ◌-◌, ◌≤◌, ◌<◌, false, some, Bytes, [], ◌∷◌, ◌++◌, length, set, take, drop, ℤ,
  pos, ◌≡◌, ◌≢◌, refl, sym, ap, ◌∙◌, arith, length-append, append_assoc, take-length,
  take-append_left, All,
}
use morse_cli.Base.Strings.{c_str, is_space, c_str-append, c_str-drop}
use morse_cli.Base.Trim.{
  trimmed, before, trimmed-space, c_str-set, strchr, IsLine, take_line-end, IsText-snoc,
}
use morse_cli.Utilities.Text.{strip, strip_start}
use morse_cli.Utilities.Strip.{front_trimmed, strip_lem}
use morse_cli.Standby.{
  config_pair, config_line, config_lines, split_at, is_comment, pair_of, process_pair,
  max_line_length,
}

-- No octet is space or an end.
abbrev pub IsSolid : Bytes → Type 0
IsSolid = All (λ c. 33 ≤ c)

-- A key: not empty, with no equals sign, and no comment.
abbrev pub IsKey : Bytes → Type 0
IsKey [] = ⊥
IsKey (c ∷ k) = (c ≢ b'#') × All (λ d. (33 ≤ d) × (d ≢ b'=')) (c ∷ k)

IsKey-IsSolid : (k : Bytes) → All (λ d. (33 ≤ d) × (d ≢ b'=')) k → IsSolid k
IsKey-IsSolid [] h = tt
IsKey-IsSolid (c ∷ k) (h, hs) = (h.0, IsKey-IsSolid k hs)

solid-IsLine : (v : Bytes) → IsSolid v → IsLine v
solid-IsLine [] h = tt
solid-IsLine (c ∷ v) (h, hs) = ((λ e. omega arith, λ e. omega arith), solid-IsLine v hs)

pub IsSolid-append : (s t : Bytes) → IsSolid s → IsSolid t → IsSolid (s ++ t)
IsSolid-append [] t _ h = h
IsSolid-append (c ∷ s) t (h, hs) ht = (h, IsSolid-append s t hs ht)

solid-is_space : (c : ℕ) → 33 ≤ c → is_space c ≡ false
unfolding is_space
solid-is_space c h = ground arith

solid-trimmed : (v : Bytes) → IsSolid v → trimmed v ≡ v
unfolding trimmed before
solid-trimmed [] h = refl
solid-trimmed (c ∷ []) (h, hs) = rw (solid-is_space c h) refl
solid-trimmed (c ∷ d ∷ v) (h, hs) = ap (before c) (solid-trimmed (d ∷ v) hs)

strchr_found :
    (b k rest : Bytes)
    → All (λ d. (33 ≤ d) × (d ≢ b'=')) k
    → c_str b ≡ k ++ (b'=' ∷ rest)
    → strchr b'=' b ≡ some (length k)
unfolding strchr c_str
strchr_found [] [] rest h e = cc
strchr_found [] (c ∷ k) rest h e = cc
strchr_found (d ∷ b) [] rest h e = ground arith
strchr_found (d ∷ b) (c ∷ k) rest (h, hs) e = ground (arith, strchr_found b k rest hs)

drop-set_before : (b : Bytes) (i v : ℕ) → drop (suc i) (set b i v) ≡ drop (suc i) b
drop-set_before [] zero v = refl
drop-set_before [] (suc i) v = refl
drop-set_before (c ∷ b) zero v = refl
drop-set_before (c ∷ b) (suc i) v = drop-set_before b i v

pair_of_both : {c : ℕ} {k : Bytes} (v : Bytes) → v ≢ [] → pair_of (c ∷ k) v ≡ some (c ∷ k, v)
pair_of_both [] h = absurd (h refl)
pair_of_both (d ∷ v) h = refl

not_comment : (c : ℕ) → 33 ≤ c → c ≢ b'#' → is_comment c ≡ false
not_comment c h e = ground arith

-- The text of such a line is not changed by strip but for the line's end.
module _ (c : ℕ) (k v : Bytes) (first : c ≢ b'#') (key : All (λ d. (33 ≤ d) × (d ≢ b'=')) (c ∷ k))
    (value : IsSolid v) where
  abbrev text : Bytes
  text = (c ∷ k) ++ (b'=' ∷ v)

  text-IsSolid : IsSolid text
  text-IsSolid = IsSolid-append (c ∷ k) (b'=' ∷ v) (IsKey-IsSolid (c ∷ k) key) (omega arith, value)

  abbrev memory : Bytes
  memory = (text ++ (10 ∷ [])) ++ (0 ∷ [])

  memory-c_str : c_str memory ≡ text ++ (10 ∷ [])
  memory-c_str =
      c_str-append (text ++ (10 ∷ [])) [] (IsText-snoc text (solid-IsLine text text-IsSolid))

  memory-start : (strip memory).0 ≡ 0
  unfolding strip strip_start
  memory-start = rw (solid-is_space c key.0.0) refl

  memory-front : front_trimmed (text ++ (10 ∷ [])) ≡ text ++ (10 ∷ [])
  unfolding front_trimmed
  memory-front = rw (solid-is_space c key.0.0) refl

  memory-strip : c_str (strip memory).1 ≡ text
  memory-strip =
      ap (λ n. c_str (drop n (strip memory).1)) (sym memory-start)
      ∙ strip_lem memory
      ∙ ap (λ t. trimmed (front_trimmed t)) memory-c_str
      ∙ ap trimmed memory-front
      ∙ trimmed-space text 10 (unfold is_space in refl)
      ∙ solid-trimmed text text-IsSolid

  key-c_str : c_str (set (strip memory).1 (length (c ∷ k)) 0) ≡ c ∷ k
  key-c_str =
      c_str-set (strip memory).1 (length (c ∷ k))
      ∙ ap (take (length (c ∷ k))) memory-strip
      ∙ take-append_left (c ∷ k) (b'=' ∷ v) (length (c ∷ k)) (omega arith)
      ∙ take-length (c ∷ k)

  value-c_str : c_str (drop (length (c ∷ k) + 1) (set (strip memory).1 (length (c ∷ k)) 0)) ≡ v
  value-c_str =
      ap c_str (
        ap (λ n. drop n (set (strip memory).1 (length (c ∷ k)) 0)) {y = suc (length (c ∷ k))}
          (omega arith)
        ∙ drop-set_before (strip memory).1 (length (c ∷ k)) 0
        ∙ ap (λ n. drop n (strip memory).1) {x = suc (length (c ∷ k))}
            {y = length ((c ∷ k) ++ (b'=' ∷ []))}
            (omega (arith, length-append (c ∷ k) (b'=' ∷ []))))
      ∙ c_str-drop (strip memory).1 ((c ∷ k) ++ (b'=' ∷ [])) v
          (memory-strip ∙ sym (append_assoc (c ∷ k) (b'=' ∷ []) v))

  pub config_pair_found : v ≢ [] → config_pair memory ≡ some (c ∷ k, v)
  unfolding config_pair
  config_pair_found some_value =
      ap (λ n. split_at n (strip memory).1 (strchr b'=' (strip memory).1)) memory-start
      ∙ ap (split_at 0 (strip memory).1) (strchr_found (strip memory).1 (c ∷ k) v key memory-strip)
      ∙ ap
          (λ t.
            pair_of t (c_str (drop (length (c ∷ k) + 1) (set (strip memory).1 (length (c ∷ k)) 0))))
          key-c_str
      ∙ ap (pair_of (c ∷ k)) value-c_str
      ∙ pair_of_both v some_value

  config_line_found :
      {C : Type 0} (process : C → Bytes → Bytes → ℤ × C) (context : C)
      → v ≢ []
      → config_line process (text ++ (10 ∷ [])) context ≡ process context (c ∷ k) v
  unfolding config_line process_pair
  config_line_found process context some_value =
      rw (not_comment c key.0.0 first)
        (ap (process_pair process context) (config_pair_found some_value))

  -- One round of the loop, over a line whose pair is taken.
  pub config_lines-step :
      {C : Type 0} (process : C → Bytes → Bytes → ℤ × C) (rounds : ℕ) (rest : Bytes)
      (context after : C)
      → v ≢ []
      → length text < max_line_length - 1
      → process context (c ∷ k) v ≡ (pos 0, after)
      → config_lines process (suc rounds) (text ++ (10 ∷ rest)) context
        ≡ config_lines process rounds rest after
  unfolding config_lines
  config_lines-step process rounds rest context after some_value short done =
      let cut = take_line-end 254 text rest (solid-IsLine text text-IsSolid) short in
      let one = config_line_found process context some_value ∙ done in rw (cut, one) refl
