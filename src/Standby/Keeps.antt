-- ===== src/Standby/Keeps.antt =====
-- standby.c: what holds of the context after every line of a file, and the rounds of the loop.
use morse_cli.Base.{
  ℕ, zero, suc, ◌<◌, Option, none, some, Bytes, [], ◌∷◌, ◌++◌, get_or, length, ℤ, pos, negsuc,
  is_zero, ◌≡◌, refl, inl, inr, Bool-cases, arith,
}
use mathlib.Core.Path.{subst}
use morse_cli.Base.Trim.{take_line, take_line-shorter}
use morse_cli.Standby.{
  config_pair, process_pair, config_line, config_lines, config_parse, is_comment,
}

module _ {C : Type 0} (process : C → Bytes → Bytes → ℤ × C) where
  config_lines_total :
      (rounds : ℕ) (file : Bytes) (context : C)
      → length file < rounds
      → (r : ℤ × C) × (config_lines process rounds file context ≡ some r)
  unfolding config_lines
  config_lines_total zero file context h = absurd (omega arith)
  config_lines_total (suc rounds) [] context h = ((pos 0, context), refl)
  config_lines_total (suc rounds) (c ∷ file) context h =
      let (line, rest) = take_line 254 (c ∷ file) in
      let (ret, context') = config_line process line context in
      elim (Bool-cases (is_zero ret)) [
        | inl z ↦
            rw z (
              config_lines_total rounds rest context' (omega (arith, take_line-shorter 253 c file)))
        | inr z ↦ rw z ((ret, context'), refl)
      ]

  -- The loop ends for every file.
  pub config_parse_total :
      (file : Option Bytes) (context : C)
      → (r : ℤ × C) × (config_parse process file context ≡ some r)
  unfolding config_parse
  config_parse_total none context = ((negsuc 0, context), refl)
  config_parse_total (some file) context =
      config_lines_total (suc (length file)) file context (omega arith)

  module _ (P : C → Type 0)
      (keep : (context : C) (key val : Bytes) → P context → P (process context key val).1) where
    process_pair-keeps :
        (context : C) (pair : Option (Bytes × Bytes))
        → P context
        → P (process_pair process context pair).1
    unfolding process_pair
    process_pair-keeps context none h = h
    process_pair-keeps context (some (key, val)) h = keep context key val h

    config_line-keeps :
        (line : Bytes) (context : C) → P context → P (config_line process line context).1
    unfolding config_line
    config_line-keeps line context h = elim (Bool-cases (is_comment (get_or line 0 0))) [
      | inl comment ↦ rw comment h
      | inr other ↦ rw other (process_pair-keeps context (config_pair (line ++ (0 ∷ []))) h)
    ]

    config_lines-keeps :
        (rounds : ℕ) (file : Bytes) (context : C) (ret : ℤ) (after : C)
        → config_lines process rounds file context ≡ some (ret, after)
        → P context
        → P after
    unfolding config_lines
    config_lines-keeps zero file context ret after e h = cc
    config_lines-keeps (suc rounds) [] context ret after e h = subst P (cc) h
    config_lines-keeps (suc rounds) (c ∷ file) context ret after e h =
        let (line, rest) = take_line 254 (c ∷ file) in
        let (code, context') = config_line process line context in
        elim (Bool-cases (is_zero code)) [
          | inl z ↦
              config_lines-keeps rounds rest context' ret after (ground arith)
                (config_line-keeps line context h)
          | inr z ↦ subst P {x = context'} (ground arith) (config_line-keeps line context h)
        ]

    -- What the code for a pair keeps holds after the whole file, whatever is returned.
    pub config_parse-keeps :
        (file : Option Bytes) (context : C) (ret : ℤ) (after : C)
        → config_parse process file context ≡ some (ret, after)
        → P context
        → P after
    unfolding config_parse
    config_parse-keeps none context ret after e h = subst P (cc) h
    config_parse-keeps (some file) context ret after e h =
        config_lines-keeps (suc (length file)) file context ret after e h
