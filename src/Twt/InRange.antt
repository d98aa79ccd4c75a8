-- ===== src/Twt/InRange.antt =====
-- The options of twt.c and the ranges of the request's fields.
use morse_cli.Base.{
  ℕ, ◌^◌, ◌≤◌, ◌<◌, ◌≡◌, refl, arith, ltb, ◌==◌, not, Bool, true, false, Bool-cases, ◌⊎◌, inl, inr,
  get_or, if◌then◌else◌, Bytes, List, [], ◌∷◌, Option, none, some, length, ℤ, pos, negsuc,
}
use morse_cli.Utilities.{str_to_uint32_range, str_to_uint8_range, str_to_uint16, str_to_uint64}
use morse_cli.Twt.{
  TwtSubcommand, TwtOptions, configure, force_install_agreement, remove_agreement,
  configure_explicit, no_options, flow_option, interval_option, duration_option, target_option,
  setup_option, mantissa_option, exponent_option, twt_option, remove_option, option_of, twt_options,
  twt_fill, twt_run, twt, twt_get_cmd,
}

abbrev pub InRange : TwtOptions → Type 0
InRange o =
    (o.flow_id ≤ 7)
    × (o.wake_duration_us ≤ 65280)
    × (o.wake_interval_us < 2 ^ 64)
    × (o.wake_interval_mantissa < 2 ^ 16)
    × (o.wake_interval_exponent ≤ 31)
    × (o.target_wake_time < 2 ^ 64)
    × (o.setup_cmd ≤ 7)

abbrev Keeps : Option TwtOptions → Type 0
Keeps none = Unit
Keeps (some o) = InRange o

module _ (strtoul : Bytes → ℕ × ℕ) (strtoull : Bytes → ℕ × ℕ) where
  flow_option-Keeps :
      (arg : Bytes) (o : TwtOptions) → InRange o → Keeps (flow_option strtoul strtoull arg o)
  unfolding flow_option str_to_uint32_range
  flow_option-Keeps arg o h = ground arith

  interval_option-Keeps :
      (arg : Bytes) (o : TwtOptions) → InRange o → Keeps (interval_option strtoul strtoull arg o)
  unfolding interval_option str_to_uint64
  interval_option-Keeps arg o h = ground arith

  duration_option-Keeps :
      (arg : Bytes) (o : TwtOptions) → InRange o → Keeps (duration_option strtoul strtoull arg o)
  unfolding duration_option str_to_uint32_range
  duration_option-Keeps arg o h = ground arith

  target_option-Keeps :
      (arg : Bytes) (o : TwtOptions) → InRange o → Keeps (target_option strtoul strtoull arg o)
  unfolding target_option str_to_uint64
  target_option-Keeps arg o h = ground arith

  setup_option-Keeps :
      (arg : Bytes) (o : TwtOptions) → InRange o → Keeps (setup_option strtoul strtoull arg o)
  unfolding setup_option str_to_uint32_range
  setup_option-Keeps arg o h = ground arith

  mantissa_option-Keeps :
      (arg : Bytes) (o : TwtOptions) → InRange o → Keeps (mantissa_option strtoul strtoull arg o)
  unfolding mantissa_option str_to_uint16
  mantissa_option-Keeps arg o h = ground arith

  exponent_option-Keeps :
      (arg : Bytes) (o : TwtOptions) → InRange o → Keeps (exponent_option strtoul strtoull arg o)
  unfolding exponent_option str_to_uint8_range str_to_uint32_range
  exponent_option-Keeps arg o h = ground arith

  if-Keeps : (b : Bool) (x y : Option TwtOptions) → Keeps x → Keeps y → Keeps (if b then x else y)
  if-Keeps true x y h k = h
  if-Keeps false x y h k = k

  twt_option-Keeps :
      (option : ℕ) (arg : Bytes) (o : TwtOptions)
      → InRange o
      → Keeps (twt_option strtoul strtoull option arg o)
  unfolding twt_option
  twt_option-Keeps option arg o h = if-Keeps (option == 102) _ _ (flow_option-Keeps arg o h) (
      if-Keeps (option == 119) _ _ (interval_option-Keeps arg o h) (
        if-Keeps (option == 100) _ _ (duration_option-Keeps arg o h) (
          if-Keeps (option == 116) _ _ (target_option-Keeps arg o h) (
            if-Keeps (option == 99) _ _ (setup_option-Keeps arg o h) (
              if-Keeps (option == 109) _ _ (mantissa_option-Keeps arg o h)
                (if-Keeps (option == 101) _ none (exponent_option-Keeps arg o h) tt))))))

  option_of-Keeps :
      (cmd : TwtSubcommand) (option : ℕ) (arg : Bytes) (o : TwtOptions)
      → InRange o
      → Keeps (option_of strtoul strtoull cmd option arg o)
  unfolding remove_option
  option_of-Keeps configure option arg o h = twt_option-Keeps option arg o h
  option_of-Keeps force_install_agreement option arg o h = twt_option-Keeps option arg o h
  option_of-Keeps configure_explicit option arg o h = twt_option-Keeps option arg o h
  option_of-Keeps remove_agreement option arg o h =
      if-Keeps (option == 102) _ none (flow_option-Keeps arg o h) tt

  twt_options-Keeps :
      (cmd : TwtSubcommand) (options : List (ℕ × Bytes)) (o : TwtOptions)
      → InRange o
      → Keeps (twt_options strtoul strtoull cmd options o)
  unfolding twt_options
  twt_options-Keeps cmd [] o h = h
  twt_options-Keeps cmd ((option, arg) ∷ rest) o h =
      on_rest (option_of strtoul strtoull cmd option arg o) (option_of-Keeps cmd option arg o h)
        (twt_options-Keeps cmd rest)
    where
      on_rest :
          (r : Option TwtOptions)
          → Keeps r
          → ((o : TwtOptions) → InRange o → Keeps (twt_options strtoul strtoull cmd rest o))
          → Keeps (elim r [ none ↦ none | some o' ↦ twt_options strtoul strtoull cmd rest o' ])
      on_rest none k later = tt
      on_rest (some o') k later = later o' k

-- What a call of twt comes to: it sends nothing, or one request that is filled from options in
-- their ranges.
abbrev pub Outcome : {S : Type 0} → (Bytes → S → ℤ × S) → S → ℤ × S → Type 0
Outcome send s r =
    ((ret : ℤ) × (r ≡ (ret, s)))
    ⊎ ((cmd : TwtSubcommand) × (o : TwtOptions) × (mem : Bytes) × (r ≡ send (twt_fill cmd o mem) s)
        × InRange o)

module _ {S : Type 0} (strtoul : Bytes → ℕ × ℕ) (strtoull : Bytes → ℕ × ℕ)
    (send : Bytes → S → ℤ × S) where
  filled :
      (cmd : TwtSubcommand) (mem : Bytes) (s : S) (r : Option TwtOptions)
      → Keeps r
      → Outcome send s (elim r [ none ↦ (negsuc 0, s) | some o ↦ send (twt_fill cmd o mem) s ])
  filled cmd mem s none h = inl (negsuc 0, refl)
  filled cmd mem s (some o) h = inr (cmd, o, mem, refl, h)

  twt_run-Outcome :
      (cmd : TwtSubcommand) (options : List (ℕ × Bytes)) (memory : Option Bytes) (s : S)
      → Outcome send s (twt_run strtoul strtoull send cmd options memory s)
  unfolding twt_run
  twt_run-Outcome cmd options none s = inl (negsuc 0, refl)
  twt_run-Outcome cmd options (some mem) s =
      filled cmd mem s (twt_options strtoul strtoull cmd options no_options) (
        twt_options-Keeps strtoul strtoull cmd options no_options (
          omega arith,
          omega arith,
          omega arith,
          omega arith,
          omega arith,
          omega arith,
          omega arith,
        ))

  chosen :
      (cmd : Option TwtSubcommand) (options : List (ℕ × Bytes)) (allocated : Bool)
      (memory : Option Bytes) (s : S)
      → Outcome send s (elim cmd [
        | none ↦ (negsuc 0, s)
        | some cmd ↦
            if not allocated
            then (negsuc 0, s)
            else twt_run strtoul strtoull send cmd options memory s
      ])
  chosen none options allocated memory s = inl (negsuc 0, refl)
  chosen (some cmd) options false memory s = inl (negsuc 0, refl)
  chosen (some cmd) options true memory s = twt_run-Outcome cmd options memory s

  -- Whatever the command line and the number conversions give, twt sends nothing, or it sends one
  -- request that is filled from a flow id and a setup command of at most 7, a wake duration of at
  -- most 65280, an exponent of at most 31, a mantissa of 16 bits, and times of 64 bits.
  pub twt-Outcome :
      (args : List Bytes) (options : List (ℕ × Bytes)) (allocated : Bool) (memory : Option Bytes)
      (s : S)
      → Outcome send s (twt strtoul strtoull send args options allocated memory s)
  unfolding twt
  twt-Outcome args options allocated memory s = elim (Bool-cases (length args == 0)) [
    | inl e ↦ rw e (inl (pos 0, refl))
    | inr e ↦ elim (Bool-cases (ltb (length args) 3)) [
      | inl f ↦ rw (e, f) (inl (negsuc 0, refl))
      | inr f ↦ rw (e, f) (chosen (twt_get_cmd (get_or args 1 [])) options allocated memory s)
    ]
  ]
