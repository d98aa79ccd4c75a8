-- ===== src/ConfigFile/Keeps.antt =====
-- config_file.c: what parsing a file leaves alone, and the rounds that it takes.
use morse_cli.Base.{
  ℕ, zero, suc, ◌≤◌, ◌<◌, false, Option, none, some, Bytes, [], ◌∷◌, ℤ, pos, negsuc, is_zero,
  length, ◌≡◌, refl, ◌⊎◌, inl, inr, Bool-cases, arith,
}
use morse_cli.ConfigFile.{
  Purpose, line_buffer, Pointer, null, block, freed, is_null, Options, max_line_length, take_trans,
  take_iface, take_cfg, parse_option, parse_text, parse_line, parse_lines, parse_opened,
  morsectrl_config_file_parse, remove_leading_ws,
}
use morse_cli.Base.Trim.{take_line-shorter, fgets}

-- A pointer that is not null before is the same after.
abbrev pub Kept : Pointer → Pointer → Type 0
Kept p q = is_null p ≡ false → q ≡ p

given_or_null : (p q : Pointer) → Kept p q → (p ≡ null) ⊎ (q ≡ p)
given_or_null null q h = inl refl
given_or_null (block b) q h = inr (h refl)
given_or_null freed q h = inr (h refl)

module _ (malloc : Purpose → ℕ → Option Bytes) where
  parse_option-keeps :
      (ptr : ℕ) (line : Bytes) (o : Options) (p : Pointer)
      → ((parse_option malloc ptr line o p).2.trans_opts ≡ o.trans_opts)
        × ((parse_option malloc ptr line o p).2.iface_opts ≡ o.iface_opts)
  unfolding parse_option take_cfg
  parse_option-keeps ptr line o null = (refl, refl)
  parse_option-keeps ptr line o freed = (refl, refl)
  parse_option-keeps ptr line o (block b) = ground arith

  parse_text-Kept :
      (ptr : ℕ) (line : Bytes) (o : Options)
      → Kept o.trans_opts (parse_text malloc ptr line o).2.trans_opts
        × Kept o.iface_opts (parse_text malloc ptr line o).2.iface_opts
  unfolding parse_text take_trans take_iface
  parse_text-Kept ptr line o = (
    λ h. ground (arith, parse_option-keeps ptr line o o.trans_opts),
    λ h. ground (arith, parse_option-keeps ptr line o o.trans_opts),
  )

  parse_line-Kept :
      (line : Bytes) (o : Options)
      → Kept o.trans_opts (parse_line malloc line o).2.trans_opts
        × Kept o.iface_opts (parse_line malloc line o).2.iface_opts
  unfolding parse_line
  parse_line-Kept line o = (
    λ h. ground (arith, (parse_text-Kept (remove_leading_ws line) line o).0 h),
    λ h. ground (arith, (parse_text-Kept (remove_leading_ws line) line o).1 h),
  )

  parse_lines-Kept :
      (rounds : ℕ) (file line : Bytes) (o : Options) {ret : ℤ} {o' : Options}
      → parse_lines malloc rounds file line o ≡ some (ret, o')
      → Kept o.trans_opts o'.trans_opts × Kept o.iface_opts o'.iface_opts
  unfolding parse_lines
  parse_lines-Kept zero file line o e = cc
  parse_lines-Kept (suc rounds) [] line o e = (λ h. ground arith, λ h. ground arith)
  parse_lines-Kept (suc rounds) (c ∷ file) line o {ret = r} {o' = o'} e =
      let (line_in, rest) = fgets max_line_length line (c ∷ file) in
      let (ret, line', o1) = parse_line malloc line_in o in
      elim (Bool-cases (is_zero ret)) [
        | inl z ↦
            let kept = parse_line-Kept line_in o in
            let later = parse_lines-Kept rounds rest line' o1 {ret = r} {o' = o'} (ground arith) in
            (λ h. ground (arith, kept.0 h, later.0), λ h. ground (arith, kept.1 h, later.1))
        | inr z ↦ ground (arith, parse_line-Kept line_in o)
      ]

  fgets-shorter :
      (line : Bytes) (c : ℕ) (file : Bytes)
      → length (fgets max_line_length line (c ∷ file)).1 ≤ length file
  unfolding fgets
  fgets-shorter line c file = take_line-shorter 253 c file

  parse_lines_total :
      (rounds : ℕ) (file line : Bytes) (o : Options)
      → length file < rounds
      → (r : ℤ × Options) × (parse_lines malloc rounds file line o ≡ some r)
  unfolding parse_lines
  parse_lines_total zero file line o h = absurd (omega arith)
  parse_lines_total (suc rounds) [] line o h = ((pos 0, o), refl)
  parse_lines_total (suc rounds) (c ∷ file) line o h =
      let (line_in, rest) = fgets max_line_length line (c ∷ file) in
      let (ret, line', o1) = parse_line malloc line_in o in
      elim (Bool-cases (is_zero ret)) [
        | inl z ↦
            rw z (parse_lines_total rounds rest line' o1 (omega (arith, fgets-shorter line c file)))
        | inr z ↦ rw z ((ret, o1), refl)
      ]

  parse_opened-Kept :
      (text : Bytes) (o : Options) (line : Option Bytes) {ret : ℤ} {o' : Options}
      → parse_opened malloc text o line ≡ some (ret, o')
      → Kept o.trans_opts o'.trans_opts × Kept o.iface_opts o'.iface_opts
  unfolding parse_opened
  parse_opened-Kept text o none e = (λ h. ground arith, λ h. ground arith)
  parse_opened-Kept text o (some line) e = parse_lines-Kept (suc (length text)) text line o e

  parse_opened_total :
      (text : Bytes) (o : Options) (line : Option Bytes)
      → (r : ℤ × Options) × (parse_opened malloc text o line ≡ some r)
  unfolding parse_opened
  parse_opened_total text o none = ((negsuc 0, o), refl)
  parse_opened_total text o (some line) =
      parse_lines_total (suc (length text)) text line o (omega arith)

  kept :
      (file : Option Bytes) (o : Options) {ret : ℤ} {o' : Options}
      → morsectrl_config_file_parse malloc file o ≡ some (ret, o')
      → Kept o.trans_opts o'.trans_opts × Kept o.iface_opts o'.iface_opts
  unfolding morsectrl_config_file_parse
  kept none o e = (λ h. ground arith, λ h. ground arith)
  kept (some text) o e = parse_opened-Kept text o (malloc line_buffer max_line_length) e

  -- Whatever the file holds, with any code that morsectrl_config_file_parse returns and whatever
  -- malloc gives: a transport, and an interface, whose pointer is not null before the call has the
  -- same pointer after it.
  pub config_file_parse-keeps :
      (file : Option Bytes) (o : Options) (ret : ℤ) (o' : Options)
      → morsectrl_config_file_parse malloc file o ≡ some (ret, o')
      → ((o.trans_opts ≡ null) ⊎ (o'.trans_opts ≡ o.trans_opts))
        × ((o.iface_opts ≡ null) ⊎ (o'.iface_opts ≡ o.iface_opts))
  config_file_parse-keeps file o ret o' e =
      let (t, i) = kept file o e in
      (given_or_null o.trans_opts o'.trans_opts t, given_or_null o.iface_opts o'.iface_opts i)

  -- morsectrl_config_file_parse returns for every file, every options before and whatever malloc
  -- gives: one round more than the file has octets is enough for the loop over its lines.
  pub config_file_parse_total :
      (file : Option Bytes) (o : Options)
      → (r : ℤ × Options) × (morsectrl_config_file_parse malloc file o ≡ some r)
  unfolding morsectrl_config_file_parse
  config_file_parse_total none o = ((negsuc 0, o), refl)
  config_file_parse_total (some text) o =
      parse_opened_total text o (malloc line_buffer max_line_length)
