-- ===== src/Twt.antt =====
-- twt.c: the command for target wake time agreements, from its arguments to the request. What
-- getopt returns is a list of option characters with their arguments; strtoul and strtoull are
-- parameters. The machine is little-endian, as the code takes it to be.
pub mod InRange
mod Runs
use morse_cli.Base.{
  ℕ, ◌+◌, ◌-◌, ◌*◌, ◌%◌, ◌/◌, ◌^◌, ◌==◌, ltb, Bool, true, false, not, if◌then◌else◌, Option, none,
  some, Bytes, List, [], ◌∷◌, ◌++◌, length, get_or, ℤ, pos, negsuc, is_negative, is_zero,
}
use morse_cli.Transport.{store_bytes}
use morse_cli.Transport.Table.{strings_eq}
use morse_cli.Command.{le16_octets}
use morse_cli.Sdio.Memblock.{le32_octets}
use morse_cli.Utilities.{str_to_uint32_range, str_to_uint8_range, str_to_uint16, str_to_uint64}

abbrev pub twt_wake_interval_exponent_max_val : ℕ
twt_wake_interval_exponent_max_val = 31

abbrev pub twt_wake_duration_max_us : ℕ
twt_wake_duration_max_us = 65280

abbrev pub twt_max_setup_command_val : ℕ
twt_max_setup_command_val = 7

abbrev pub twt_max_flow_id_val : ℕ
twt_max_flow_id_val = 7

-- twt_subcommands_t
pub data TwtSubcommand : Type 0 where
  configure : TwtSubcommand
  force_install_agreement : TwtSubcommand
  remove_agreement : TwtSubcommand
  configure_explicit : TwtSubcommand

unfoldable pub subcommand_number : TwtSubcommand → ℕ
subcommand_number configure = 0
subcommand_number force_install_agreement = 1
subcommand_number remove_agreement = 2
subcommand_number configure_explicit = 3

abbrev pub conf_name : Bytes
conf_name = 99 ∷ 111 ∷ 110 ∷ 102 ∷ []

abbrev pub install_name : Bytes
install_name = 105 ∷ 110 ∷ 115 ∷ 116 ∷ 97 ∷ 108 ∷ 108 ∷ []

abbrev pub remove_name : Bytes
remove_name = 114 ∷ 101 ∷ 109 ∷ 111 ∷ 118 ∷ 101 ∷ []

abbrev pub explicit_name : Bytes
explicit_name = 101 ∷ 120 ∷ 112 ∷ 108 ∷ 105 ∷ 99 ∷ 105 ∷ 116 ∷ []

-- In the full build, not the one for clients.
unfoldable pub twt_get_cmd : Bytes → Option TwtSubcommand
twt_get_cmd str =
    if strings_eq conf_name str
    then some configure
    else if strings_eq install_name str
    then some force_install_agreement
    else if strings_eq remove_name str
    then some remove_agreement
    else if strings_eq explicit_name str
    then some configure_explicit
    else none

-- The local variables of the options.
pub record TwtOptions : Type 0 where
  pub flow_id : ℕ
  pub wake_duration_us : ℕ
  pub wake_interval_us : ℕ
  pub wake_interval_mantissa : ℕ
  pub wake_interval_exponent : ℕ
  pub target_wake_time : ℕ
  pub setup_cmd : ℕ

abbrev pub no_options : TwtOptions
no_options = record {
  flow_id = 0;
  wake_duration_us = 0;
  wake_interval_us = 0;
  wake_interval_mantissa = 0;
  wake_interval_exponent = 0;
  target_wake_time = 0;
  setup_cmd = 0;
}

module _ (strtoul : Bytes → ℕ × ℕ) (strtoull : Bytes → ℕ × ℕ) where
  -- The cases of the switch; `none` is the exit with -1.
  unfoldable pub flow_option : Bytes → TwtOptions → Option TwtOptions
  flow_option arg o =
      let (ret, temp) = str_to_uint32_range strtoul arg 0 twt_max_flow_id_val in
      if is_negative ret then none else some (record o { flow_id = temp % 2 ^ 8 })

  unfoldable pub interval_option : Bytes → TwtOptions → Option TwtOptions
  interval_option arg o =
      let (ret, value) = str_to_uint64 strtoull arg in
      if is_negative ret then none else some (record o { wake_interval_us = value })

  unfoldable pub duration_option : Bytes → TwtOptions → Option TwtOptions
  duration_option arg o =
      let (ret, value) = str_to_uint32_range strtoul arg 0 twt_wake_duration_max_us in
      if is_negative ret then none else some (record o { wake_duration_us = value })

  unfoldable pub target_option : Bytes → TwtOptions → Option TwtOptions
  target_option arg o =
      let (ret, value) = str_to_uint64 strtoull arg in
      if is_negative ret then none else some (record o { target_wake_time = value })

  unfoldable pub setup_option : Bytes → TwtOptions → Option TwtOptions
  setup_option arg o =
      let (ret, temp) = str_to_uint32_range strtoul arg 0 twt_max_setup_command_val in
      if is_negative ret then none else some (record o { setup_cmd = temp % 2 ^ 8 })

  unfoldable pub mantissa_option : Bytes → TwtOptions → Option TwtOptions
  mantissa_option arg o =
      let (ret, value) = str_to_uint16 strtoul arg in
      if not (is_zero ret) then none else some (record o { wake_interval_mantissa = value })

  unfoldable pub exponent_option : Bytes → TwtOptions → Option TwtOptions
  exponent_option arg o =
      let (ret, value) = str_to_uint8_range strtoul arg 0 twt_wake_interval_exponent_max_val in
      if is_negative ret then none else some (record o { wake_interval_exponent = value })

  -- f, w, d, t, c, m and e; the characters' codes.
  unfoldable pub twt_option : ℕ → Bytes → TwtOptions → Option TwtOptions
  twt_option option arg o =
      if option == 102
      then flow_option arg o
      else if option == 119
      then interval_option arg o
      else if option == 100
      then duration_option arg o
      else if option == 116
      then target_option arg o
      else if option == 99
      then setup_option arg o
      else if option == 109
      then mantissa_option arg o
      else if option == 101
      then exponent_option arg o
      else none

  -- A removal has the flow id alone.
  unfoldable pub remove_option : ℕ → Bytes → TwtOptions → Option TwtOptions
  remove_option option arg o = if option == 102 then flow_option arg o else none

  abbrev pub option_of : TwtSubcommand → ℕ → Bytes → TwtOptions → Option TwtOptions
  option_of configure = twt_option
  option_of force_install_agreement = twt_option
  option_of remove_agreement = remove_option
  option_of configure_explicit = twt_option

  -- The loop over what getopt returns.
  unfoldable pub twt_options : TwtSubcommand → List (ℕ × Bytes) → TwtOptions → Option TwtOptions
  twt_options cmd [] o = some o
  twt_options cmd ((option, arg) ∷ rest) o = elim (option_of cmd option arg o) [
    | none ↦ none
    | some o' ↦ twt_options cmd rest o'
  ]

abbrev pub le64_octets : ℕ → Bytes
le64_octets v = le32_octets (v % 2 ^ 32) ++ le32_octets (v / 2 ^ 32)

-- struct command_twt_req in the memory of the command: the fields that each subcommand sets.
unfoldable pub twt_interval : TwtSubcommand → TwtOptions → Bytes → Bytes
twt_interval configure_explicit o mem =
    store_bytes (store_bytes mem 12 (o.wake_interval_exponent ∷ [])) 10
      (le16_octets o.wake_interval_mantissa)
twt_interval _ o mem = store_bytes mem 10 (le64_octets o.wake_interval_us)

unfoldable pub twt_target : TwtSubcommand → TwtOptions → Bytes → Bytes
twt_target force_install_agreement o mem = store_bytes mem 2 (le64_octets o.target_wake_time)
twt_target _ o mem = mem

unfoldable pub twt_fill : TwtSubcommand → TwtOptions → Bytes → Bytes
twt_fill remove_agreement o mem = store_bytes mem 0 (2 ∷ o.flow_id ∷ [])
twt_fill cmd o mem =
    let head = store_bytes mem 0 (subcommand_number cmd ∷ o.flow_id ∷ []) in
    let duration = store_bytes (twt_interval cmd o head) 18 (le32_octets o.wake_duration_us) in
    twt_target cmd o (store_bytes duration 22 (o.setup_cmd ∷ []))

-- twt: `args` are the words of the command line, `options` what getopt makes of them, and the
-- allocations give the memory of the request, or nothing.
module _ {S : Type 0} (strtoul : Bytes → ℕ × ℕ) (strtoull : Bytes → ℕ × ℕ)
    (send : Bytes → S → ℤ × S) where
  unfoldable pub twt_run : TwtSubcommand → List (ℕ × Bytes) → Option Bytes → S → ℤ × S
  twt_run cmd options none s = (negsuc 0, s)
  twt_run cmd options (some mem) s = elim (twt_options strtoul strtoull cmd options no_options) [
    | none ↦ (negsuc 0, s)
    | some o ↦ send (twt_fill cmd o mem) s
  ]

  unfoldable pub twt : List Bytes → List (ℕ × Bytes) → Bool → Option Bytes → S → ℤ × S
  twt args options resp_allocated cmd_memory s =
      if length args == 0
      then (pos 0, s)
      else if ltb (length args) 3
      then (negsuc 0, s)
      else elim (twt_get_cmd (get_or args 1 [])) [
        | none ↦ (negsuc 0, s)
        | some cmd ↦ if not resp_allocated then (negsuc 0, s) else twt_run cmd options cmd_memory s
      ]
