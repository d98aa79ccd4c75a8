-- ===== src/ConfigFile/Append.antt =====
-- config_file.c: the block that the options are collected in.
use morse_cli.Base.{
  ℕ, ◌+◌, ◌-◌, ◌==◌, ◌≤◌, ◌<◌, Bytes, [], ◌∷◌, ◌++◌, length, take, Option, some, pos, negsuc, ◌≡◌,
  refl, sym, ap, ◌∙◌, inl, inr, Bool-cases, arith, length-append, length-take, ◌≢◌, append_assoc,
}
use morse_cli.Base.Strings.{
  c_str, strlen, c_str-IsText, c_str-write_at, write_at, snprintf_s, length-write_at, take_all,
  take-IsText,
}
use morse_cli.ConfigFile.{
  Pointer, block, remove_trailing_ws, max_cfg_length, cfg_block, put_option, config_file_cfg,
  cfg_with, cfg_add,
}
use morse_cli.ConfigFile.Space.{c_str-remove_trailing_ws}
use morse_cli.Base.Trim.{trimmed}

-- A text and another one behind it, with a comma between if the first is not empty.
unfoldable pub joined : Bytes → Bytes → Bytes
joined [] o = o
joined (c ∷ cs) o = (c ∷ cs) ++ (b',' ∷ o)

joined-nil : (t o : Bytes) → length t ≡ 0 → joined t o ≡ o
unfolding joined
joined-nil [] o h = refl
joined-nil (c ∷ t) o h = absurd (omega arith)

joined_more : (t o : Bytes) → length t ≢ 0 → joined t o ≡ t ++ (b',' ∷ o)
unfolding joined
joined_more [] o h = absurd (h refl)
joined_more (c ∷ t) o h = refl

-- What is written of a text fits where there is room for one octet more than the text has.
length-cut : (n : ℕ) (t : Bytes) → length (take n t ++ (0 ∷ [])) ≤ length t + 1
length-cut n t = omega (arith, length-append (take n t) (0 ∷ []), length-take n t)

module _ (buff ptr : Bytes) (fits : strlen ptr + strlen buff + 2 ≤ max_cfg_length) where
  first-c_str : strlen ptr ≡ 0 → c_str (snprintf_s 0 max_cfg_length buff ptr) ≡ c_str buff
  unfolding snprintf_s
  first-c_str z =
      c_str-write_at ptr (take 254 (c_str buff)) 0 (omega arith)
        (take-IsText 254 (c_str buff) (c_str-IsText buff))
      ∙ take_all 254 (c_str buff) (omega arith)

  -- The comma and the zero behind it.
  abbrev comma_block : Bytes
  comma_block = write_at (strlen ptr) (b',' ∷ 0 ∷ []) ptr

  comma-c_str : c_str comma_block ≡ c_str ptr ++ (b',' ∷ [])
  comma-c_str =
      c_str-write_at ptr (b',' ∷ []) (strlen ptr) (omega arith) (omega arith, tt)
      ∙ ap (λ t. t ++ (b',' ∷ [])) (take_all (strlen ptr) (c_str ptr) (omega arith))

  comma-strlen : strlen comma_block ≡ strlen ptr + 1
  comma-strlen = ap length comma-c_str ∙ length-append (c_str ptr) (b',' ∷ [])

  later-c_str :
      c_str (snprintf_s (strlen ptr + 1) (max_cfg_length - (strlen ptr + 1)) buff comma_block)
      ≡ c_str ptr ++ (b',' ∷ c_str buff)
  unfolding snprintf_s
  later-c_str =
      c_str-write_at comma_block (take (max_cfg_length - (strlen ptr + 1) - 1) (c_str buff))
        (strlen ptr + 1) (omega (arith, comma-strlen))
        (take-IsText _ (c_str buff) (c_str-IsText buff))
      ∙ ap (◌++◌ (take (strlen ptr + 1) (c_str comma_block)))
          (take_all (max_cfg_length - (strlen ptr + 1) - 1) (c_str buff) (omega arith))
      ∙ ap (λ t. t ++ c_str buff)
          (take_all (strlen ptr + 1) (c_str comma_block) (omega (arith, comma-strlen))
            ∙ comma-c_str)
      ∙ append_assoc (c_str ptr) (b',' ∷ []) (c_str buff)

  put_option-c_str : c_str (put_option buff ptr) ≡ joined (c_str ptr) (c_str buff)
  unfolding put_option
  put_option-c_str = elim (Bool-cases (strlen ptr == 0)) [
    | inl z ↦
        rw z (first-c_str (ground arith) ∙ sym (joined-nil (c_str ptr) (c_str buff) (ground arith)))
    | inr z ↦ rw z (later-c_str ∙ sym (joined_more (c_str ptr) (c_str buff) (λ e. ground arith)))
  ]

  put_option-length : max_cfg_length ≤ length ptr → length (put_option buff ptr) ≡ length ptr
  unfolding put_option snprintf_s
  put_option-length room = elim (Bool-cases (strlen ptr == 0)) [
    | inl z ↦ rw z (length-write_at 0 _ ptr (omega (arith, length-cut 254 (c_str buff))))
    | inr z ↦ rw z (
        length-write_at _ _ comma_block (
          omega (
            arith,
            length-cut (max_cfg_length - (strlen ptr + 1) - 1) (c_str buff),
            length-write_at (strlen ptr) (b',' ∷ 0 ∷ []) ptr (omega arith),
          ))
        ∙ length-write_at _ _ ptr (omega arith))
  ]

module _ (buff ptr : Bytes) where
  cfg_add-fits :
      strlen ptr + length (trimmed (c_str buff)) + 2 ≤ max_cfg_length
      → cfg_add buff ptr
        ≡ (pos 0, remove_trailing_ws buff, block (put_option (remove_trailing_ws buff) ptr))
  unfolding cfg_add
  cfg_add-fits h = ground (arith, c_str-remove_trailing_ws buff)

  cfg_add_over :
      max_cfg_length < strlen ptr + length (trimmed (c_str buff)) + 2
      → cfg_add buff ptr ≡ (negsuc 0, remove_trailing_ws buff, block ptr)
  unfolding cfg_add
  cfg_add_over h = ground (arith, c_str-remove_trailing_ws buff)

  trimmed-fits :
      strlen ptr + length (trimmed (c_str buff)) + 2 ≤ max_cfg_length
      → strlen ptr + strlen (remove_trailing_ws buff) + 2 ≤ max_cfg_length
  trimmed-fits h = rw (c_str-remove_trailing_ws buff) h

module _ (malloc : ℕ → Option Bytes) (buff ptr : Bytes) (opts : Pointer)
    (found : cfg_block malloc opts ≡ some ptr) where
  -- Where the block for the options is there, or can be made, and has the 255 octets or more:
  -- if the trimmed text fits with the text in the block, in 255 octets with a comma and the zero,
  -- config_file_cfg returns 0, and the block, whose length is the same, holds both texts with a
  -- comma between, or the new text alone if there was none.
  pub config_file_cfg-joined :
      max_cfg_length ≤ length ptr
      → strlen ptr + length (trimmed (c_str buff)) + 2 ≤ max_cfg_length
      → (b : Bytes) × ((config_file_cfg malloc buff opts).2 ≡ block b)
        × ((config_file_cfg malloc buff opts).0 ≡ pos 0)
        × (c_str b ≡ joined (c_str ptr) (trimmed (c_str buff)))
        × (length b ≡ length ptr)
  unfolding config_file_cfg cfg_with
  config_file_cfg-joined room fits = (
    put_option (remove_trailing_ws buff) ptr,
    rw (found, cfg_with) (ap (λ r. r.2) (cfg_add-fits buff ptr fits)),
    rw (found, cfg_with) (ap (λ r. r.0) (cfg_add-fits buff ptr fits)),
    put_option-c_str (remove_trailing_ws buff) ptr (trimmed-fits buff ptr fits)
        ∙ ap (joined (c_str ptr)) (c_str-remove_trailing_ws buff),
    put_option-length (remove_trailing_ws buff) ptr (trimmed-fits buff ptr fits) room,
  )

  -- Where the trimmed text does not fit config_file_cfg returns -1 and leaves the block as it is.
  pub config_file_cfg_full :
      max_cfg_length < strlen ptr + length (trimmed (c_str buff)) + 2
      → ((config_file_cfg malloc buff opts).0 ≡ negsuc 0)
        × ((config_file_cfg malloc buff opts).2 ≡ block ptr)
  unfolding config_file_cfg cfg_with
  config_file_cfg_full over = (
    rw (found, cfg_with) (ap (λ r. r.0) (cfg_add_over buff ptr over)),
    rw (found, cfg_with) (ap (λ r. r.2) (cfg_add_over buff ptr over)),
  )
