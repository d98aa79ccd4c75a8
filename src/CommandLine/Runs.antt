-- ===== src/CommandLine/Runs.antt =====
-- morse_cli -t uart channel: the handler of an interface command.
use morse_cli.Base.{
  ℕ, ◌≤◌, true, false, Option, none, some, Bytes, List, [], ◌∷◌, map, replicate, ℤ, pos, negsuc,
  ◌≡◌, refl,
}
use morse_cli.Utilities.Text.{codes}
use morse_cli.ConfigFile.{Purpose}
use morse_cli.CommandLine.{MainArgs, exit_code, main}
use morse_cli.CommandLine.Protocol.{
  Call, asked, table_built, usages, Outcome, Ordered, handler_of, transport_of, main-Ordered,
}

abbrev memory : Purpose → ℕ → Option Bytes
memory purpose size = some (replicate size 0)

abbrev no_file : Bytes → Option Bytes
no_file path = none

abbrev args : MainArgs
args = record {
  ret = pos 0;
  help = false;
  version = false;
  iface_opts = none;
  trans_opts = some (codes "uart");
  cfg_opts = none;
  file_opts = none;
  command = codes "channel";
}

-- A handler that fails with -22.
abbrev failing : Outcome
failing = record {
  name = codes "channel";
  init = none;
  parse = pos 0;
  ret = negsuc 21;
  is_intf_cmd = true;
  direct_chip_supported_cmd = true;
}

-- A command with an option table.
abbrev tabled : Outcome
tabled = record {
  name = codes "opclass";
  init = some (pos 0);
  parse = pos 0;
  ret = pos 0;
  is_intf_cmd = true;
  direct_chip_supported_cmd = true;
}

main-Ordered_example :
    (code : ℤ) × (calls : List Call) × (n : ℕ) × (main
        (transport_of (pos 0) (pos 0) (pos 0) false false true)
        memory
        no_file
        args
        (map handler_of (failing ∷ tabled ∷ []))
        []
      ≡ some (exit_code code, calls))
    × Ordered args (failing ∷ tabled ∷ []) (pos 0) false true code calls
    × (exit_code code ≡ pos n)
    × (n ≤ 254)
main-Ordered_example =
    main-Ordered (pos 0) (pos 0) (pos 0) false false true memory no_file args
      (failing ∷ tabled ∷ [])

-- The usage: the one is called, the other builds its table.
help_run :
    usages true true (failing ∷ tabled ∷ [])
    ≡ asked (codes "channel") ∷ table_built (codes "opclass") ∷ []
unfolding usages
help_run = refl
