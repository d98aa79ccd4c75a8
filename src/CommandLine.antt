-- ===== src/CommandLine.antt =====
-- morsectrl.c: main, from what the option table of argtable3 holds to the code that the program
-- exits with. The transport, the handlers of the commands and what they do are parameters over a
-- state; the printing is left out.
pub mod Protocol
mod Runs
use morse_cli.Base.{
  ℕ, ◌==◌, ltb, Bool, true, false, not, ◌&&◌, ◌||◌, if◌then◌else◌, Option, none, some, Bytes, List,
  [], ◌∷◌, ℤ, pos, negsuc, is_zero, is_negative,
}
use morse_cli.Base.Strings.{starts_with}
use morse_cli.ConfigFile.{Purpose, Pointer, null, block, Options, morsectrl_config_file_parse}
use morse_cli.Transport.Table.{strings_eq}
use morse_cli.Utilities.Text.{codes}

abbrev pub morse_ok : ℤ
morse_ok = pos 0

abbrev pub morse_arg_err : ℤ
morse_arg_err = pos 1

abbrev pub morse_cmd_err : ℤ
morse_cmd_err = pos 2

abbrev pub etransftdispierr : ℤ
etransftdispierr = pos 4

-- struct command_handler. `parse` is the result of mm_parse_argtable on the handler's own table;
-- `handler_without_args` is the handler with argc 0.
pub record CommandHandler (S : Type 0) : Type 0 where
  pub name : Bytes
  pub init : Option (S → ℤ × S)
  pub parse : S → ℤ
  pub handler : S → ℤ × S
  pub handler_without_args : S → ℤ × S
  pub is_intf_cmd : Bool
  pub direct_chip_supported_cmd : Bool

-- What main calls of the transport.
pub record TransportCalls (S : Type 0) : Type 0 where
  pub parse : Options → S → ℤ × S
  pub init : S → ℤ × S
  pub deinit : S → ℤ × S
  pub has_driver : S → Bool
  pub has_reset : S → Bool
  pub driver_commands : Bool

-- The option table of the program: the code of mm_parse_argtable_noerror, and the options.
pub record MainArgs : Type 0 where
  pub ret : ℤ
  pub help : Bool
  pub version : Bool
  pub iface_opts : Option Bytes
  pub trans_opts : Option Bytes
  pub cfg_opts : Option Bytes
  pub file_opts : Option Bytes
  pub command : Bytes

-- The end of main.
unfoldable pub exit_code : ℤ → ℤ
exit_code (pos n) = if ltb 254 n then morse_cmd_err else pos n
exit_code (negsuc n) = morse_cmd_err

abbrev pub pointer_to : Option Bytes → Pointer
pointer_to none = null
pointer_to (some text) = block text

abbrev pub options_of : MainArgs → Options
options_of a = record {
  trans_opts = pointer_to a.trans_opts;
  iface_opts = pointer_to a.iface_opts;
  cfg_opts = pointer_to a.cfg_opts;
}

abbrev pub is_positive : ℤ → Bool
is_positive ret = not (is_negative ret) && not (is_zero ret)

module _ {S : Type 0} (t : TransportCalls S) where
  -- Whether the transport is set up for a command.
  unfoldable pub wants_transport : CommandHandler S → S → Bool
  wants_transport h s = h.is_intf_cmd || (starts_with h.name (codes "reset") && t.has_reset s)

  -- The call of the handler, and what stands behind transport_exit.
  unfoldable pub call_handler : CommandHandler S → S → ℤ × S
  call_handler h s =
      let (ret, s1) = h.handler s in if h.is_intf_cmd then (ret, (t.deinit s1).1) else (ret, s1)

  unfoldable pub set_up : CommandHandler S → S → ℤ × S
  set_up h s =
      let (ret, s1) = t.init s in
      let set = call_handler h s1 in
      let unset = call_handler h s in
      if wants_transport h s then (if is_zero ret then set else (ret, s1)) else unset

  unfoldable pub check_driver : CommandHandler S → S → ℤ × S
  check_driver h s =
      if not h.direct_chip_supported_cmd && not (t.has_driver s)
      then (etransftdispierr, s)
      else set_up h s

  -- The handler's own options; an error of the table is positive, a request for help is not.
  unfoldable pub parse_command : CommandHandler S → S → ℤ × S
  parse_command h s =
      let ret = h.parse s in
      if is_zero ret
      then check_driver h s
      else (if is_positive ret then morse_arg_err else morse_ok, s)

  unfoldable pub init_command : CommandHandler S → Option (S → ℤ × S) → S → ℤ × S
  init_command h none s = check_driver h s
  init_command h (some init) s =
      let (ret, s1) = init s in if is_zero ret then parse_command h s1 else (morse_arg_err, s1)

  unfoldable pub run_handlers : Bytes → List (CommandHandler S) → S → ℤ × S
  run_handlers command [] s = (morse_cmd_err, s)
  run_handlers command (h ∷ handlers) s =
      let later = run_handlers command handlers s in
      if strings_eq command h.name then init_command h h.init s else later

  unfoldable pub run_transport : MainArgs → List (CommandHandler S) → ℤ × Options → S → ℤ × S
  run_transport a handlers (ret, o) s =
      let (parsed, s1) = t.parse o s in
      if is_zero ret
      then (if is_zero parsed then run_handlers a.command handlers s1 else (parsed, s1))
      else (ret, s)

  -- The usage of one handler: its option table is built, or it is called with no arguments.
  unfoldable pub usage_call : Option (S → ℤ × S) → CommandHandler S → S → S
  usage_call none h s = (h.handler_without_args s).1
  usage_call (some init) h s = (init s).1

  unfoldable pub usage_handler : CommandHandler S → S → S
  usage_handler h s =
      if h.direct_chip_supported_cmd || t.driver_commands then usage_call h.init h s else s

  -- The two loops: over the interface commands, and over the others.
  unfoldable pub usage_interface : List (CommandHandler S) → S → S
  usage_interface [] s = s
  usage_interface (h ∷ handlers) s =
      usage_interface handlers (if h.is_intf_cmd then usage_handler h s else s)

  unfoldable pub usage_general : List (CommandHandler S) → S → S
  usage_general [] s = s
  usage_general (h ∷ handlers) s =
      usage_general handlers (if h.is_intf_cmd then s else usage_handler h s)

  unfoldable pub usage : List (CommandHandler S) → S → S
  usage handlers s = usage_general handlers (usage_interface handlers s)

  -- What the table's errors lead to.
  unfoldable pub not_parsed : MainArgs → List (CommandHandler S) → S → ℤ × S
  not_parsed a handlers s =
      if a.help
      then (a.ret, usage handlers (t.parse (options_of a) s).1)
      else if a.version
      then (morse_ok, s)
      else (a.ret, s)

  module _ (malloc : Purpose → ℕ → Option Bytes) (read_file : Bytes → Option Bytes) where
    unfoldable pub read_config : MainArgs → Option Bytes → Option (ℤ × Options)
    read_config a none = some (morse_ok, options_of a)
    read_config a (some path) = morsectrl_config_file_parse malloc (read_file path) (options_of a)

    unfoldable pub run_main :
        MainArgs → List (CommandHandler S) → Option (ℤ × Options) → S → Option (ℤ × S)
    run_main a handlers none s = none
    run_main a handlers (some read) s = some (run_transport a handlers read s)

    abbrev pub exits : Option (ℤ × S) → Option (ℤ × S)
    exits none = none
    exits (some (ret, s)) = some (exit_code ret, s)

    -- main, when there is a regular expression for the transports. `none` is a configuration file
    -- whose reading has not ended.
    unfoldable pub main : MainArgs → List (CommandHandler S) → S → Option (ℤ × S)
    main a handlers s =
        let run = run_main a handlers (read_config a a.file_opts) s in
        exits (if is_zero a.ret then run else some (not_parsed a handlers s))
