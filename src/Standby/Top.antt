-- ===== src/Standby/Top.antt =====
-- standby.c: enter, store and standby itself. Parameters as in Standby.Request; `read_file` gives
-- what is in the file at a path, `save` makes the directory and the file of a session and returns
-- 0 or -1, `ask` is morsectrl_send_command for the full channel.
use morse_cli.Base.{
  ℕ, ◌==◌, Bool, true, false, if◌then◌else◌, Option, none, some, Bytes, List, [], ◌∷◌, ◌++◌,
  replicate, take, drop, get_or, ℤ, pos, negsuc, is_zero, is_negative,
}
use morse_cli.Base.Strings.{write_at}
use morse_cli.Sdio.Memblock.{le32_octets, le32_value}
use morse_cli.Transport.Table.{strings_eq}
use morse_cli.Utilities.Text.{codes}
use morse_cli.Standby.{config_parse}
use morse_cli.Standby.Config.{ConfigContext, config_default, no_filter, parse_standby_config_keyval}
use morse_cli.Standby.Session.{
  ChannelFields, SessionContext, session_path, session_text, standby_session_load, str_to_mac_addr,
}
use morse_cli.Standby.Request.{
  StandbyMode, enter, set_status_payload, set_config_v2, standby_get_cmd, mode_number,
  mode_req_size, standby_mode_id, request, process_set_status_payload, with_request, send_config,
  send_payload,
}

-- The first members of struct command_set_channel_req in the memory of a command.
unfoldable pub channel_of : Bytes → ChannelFields
channel_of mem = record {
  operating_channel_freq_hz = le32_value mem;
  operating_channel_bw_mhz = get_or mem 4 0;
  primary_channel_bw_mhz = get_or mem 5 0;
  primary_1mhz_channel_index = get_or mem 6 0;
}

unfoldable pub channel_octets : ChannelFields → Bytes
channel_octets c =
    le32_octets c.operating_channel_freq_hz
    ++ (c.operating_channel_bw_mhz ∷ c.primary_channel_bw_mhz ∷ c.primary_1mhz_channel_index ∷ [])

-- The size of struct command_set_channel_req.
abbrev pub set_channel_req_size : ℕ
set_channel_req_size = 9

-- What the options of `store` give: the address, whether there is one, and the directory.
pub record StoreArgs : Type 0 where
  pub bssid : Bytes
  pub have_bssid : Bool
  pub standby_session_dir : Option Bytes

abbrev pub no_args : StoreArgs
no_args = record { bssid = replicate 6 0; have_bssid = false; standby_session_dir = none }

-- The loop over the options, each with its argument; `none` is an error.
unfoldable pub store_options :
    (Bytes → Bytes → ℕ × Bytes) → List (ℕ × Bytes) → StoreArgs → Option StoreArgs
store_options sscanf_mac [] a = some a
store_options sscanf_mac ((option, optarg) ∷ options) a =
    let (ret, mac) = str_to_mac_addr sscanf_mac a.bssid optarg in
    let with_bssid =
      store_options sscanf_mac options (record a { bssid = mac; have_bssid = true }) in
    let with_dir =
      store_options sscanf_mac options (record a { standby_session_dir = some optarg }) in
    if option == b'b'
    then (if is_negative ret then none else with_bssid)
    else if option == b'd'
    then with_dir
    else none

-- The address and the directory, when both are there.
unfoldable pub store_target : Option StoreArgs → Option (Bytes × Bytes)
store_target none = none
store_target (some a) = elim a.standby_session_dir [
  | none ↦ none
  | some dir ↦ if a.have_bssid then some (a.bssid, dir) else none
]

module _ {S : Type 0} (cmd_alloc : ℕ → Option Bytes) (resp_alloc : Bool)
    (send : ℕ → Bytes → S → ℤ × S) (ask : ℕ → Bytes → S → ℤ × (ChannelFields × S))
    (read_file : Bytes → Option Bytes) (save : Bytes → Bytes → S → ℤ × S) (strtoul : Bytes → ℕ × ℕ)
    (inet_pton : Bytes → Option ℕ) (sscanf_octet : Bytes → Option ℕ)
    (sscanf_mac : Bytes → Bytes → ℕ × Bytes) (ifname : Option Bytes)
    (getopt : List Bytes → List (ℕ × Bytes)) where
  -- standby_session_store
  unfoldable pub session_store : Bytes → Bytes → ChannelFields → Bytes → S → ℤ × S
  session_store name bssid rsp dir s =
      save (session_path (take 255 dir) name) (session_text bssid rsp) s

  unfoldable pub store_answer : Bytes → Bytes → Bytes → ℤ × (ChannelFields × S) → ℤ × S
  store_answer name bssid dir (ret, answer) =
      if is_negative ret
      then (negsuc 0, answer.1)
      else session_store name bssid answer.0 dir answer.1

  unfoldable pub store_with : Bytes → Option (Bytes × Bytes) → Bytes → S → ℤ × S
  store_with name none mem s = (negsuc 0, s)
  store_with name (some (bssid, dir)) mem s = store_answer name bssid dir (ask 0x13 mem s)

  -- standby_store_session_cmd; an address of no interface is found before the allocations are
  -- looked at.
  unfoldable pub store_session_cmd : Option Bytes → List Bytes → S → ℤ × S
  store_session_cmd none argv s = (negsuc 0, s)
  store_session_cmd (some name) argv s =
      with_request cmd_alloc resp_alloc send set_channel_req_size
        (store_with name (store_target (store_options sscanf_mac (getopt argv) no_args))) s

  -- The end of process_standby_enter: the channel is set, and the address goes into the request.
  unfoldable pub send_enter : Bytes → Bytes → ℤ × S → ℤ × S
  send_enter mem bssid (ret, s) =
      if is_zero ret then send standby_mode_id (request enter bssid mem) s else (negsuc 0, s)

  unfoldable pub enter_loaded : Bytes → Bytes → Option (ℤ × SessionContext) → S → Option (ℤ × S)
  enter_loaded mem channel_mem none s = none
  enter_loaded mem channel_mem (some (ret, context)) s = some (
      if is_negative ret
      then (negsuc 0, s)
      else send_enter mem context.bssid
          (send 0x1 (write_at 0 (channel_octets context.req) channel_mem) s))

  -- The context starts with what is in the memory of the two commands.
  unfoldable pub enter_session : Bytes → Bytes → Bytes → Bytes → S → Option (ℤ × S)
  enter_session mem channel_mem name dir s =
      enter_loaded mem channel_mem
        (standby_session_load sscanf_mac strtoul (read_file (session_path dir name))
          (record { bssid = take 6 (drop 4 mem); req = channel_of channel_mem }))
        s

  unfoldable pub enter_allocated : Bytes → Bytes → Bytes → Option Bytes → Bool → S → Option (ℤ × S)
  enter_allocated mem name dir none response s = some (negsuc 0, s)
  enter_allocated mem name dir (some channel_mem) response s =
      if response then enter_session mem channel_mem name dir s else some (negsuc 0, s)

  -- The text that snprintf of glibc prints for a null name.
  abbrev pub ifname_text : Bytes
  ifname_text = elim ifname [ none ↦ codes "(null)" | some name ↦ name ]

  -- process_standby_enter with what follows it, from the arguments behind the command's name.
  unfoldable pub run_enter : Bytes → List Bytes → S → Option (ℤ × S)
  run_enter mem [] s = some (send standby_mode_id (request enter [] mem) s)
  run_enter mem (dir ∷ []) s =
      enter_allocated mem ifname_text dir (cmd_alloc set_channel_req_size) resp_alloc s
  run_enter mem (dir ∷ more ∷ rest) s = some (negsuc 0, s)

  unfoldable pub config_parsed : Bytes → Option (ℤ × ConfigContext) → S → Option (ℤ × S)
  config_parsed mem none s = none
  config_parsed mem (some parsed) s = some (send_config cmd_alloc resp_alloc send mem parsed s)

  unfoldable pub run_config : Bytes → List Bytes → S → Option (ℤ × S)
  run_config mem (path ∷ []) s =
      config_parsed mem
        (config_parse (parse_standby_config_keyval strtoul inet_pton) (read_file path)
          (record { set_cfg = config_default; filter_cfg = no_filter }))
        s
  run_config mem args s = some (negsuc 0, s)

  unfoldable pub run_payload : Bytes → List Bytes → S → ℤ × S
  run_payload mem (str ∷ []) s =
      send_payload cmd_alloc resp_alloc send mem (process_set_status_payload sscanf_octet str) s
  run_payload mem args s = (negsuc 0, s)

  -- The switch, for the memory of the request and the arguments behind the command's name.
  unfoldable pub run_mode : StandbyMode → Bytes → List Bytes → S → Option (ℤ × S)
  run_mode set_config_v2 mem args s = run_config mem args s
  run_mode set_status_payload mem args s = some (run_payload mem args s)
  run_mode enter mem args s = run_enter mem args s
  run_mode mode mem args s = some (send standby_mode_id (request mode [] mem) s)

  -- Without memory the code is what standby_get_cmd gave.
  unfoldable pub run_allocated : StandbyMode → Option Bytes → Bool → List Bytes → S → Option (ℤ × S)
  run_allocated mode none response args s = some (pos (mode_number mode), s)
  run_allocated mode (some mem) response args s =
      if response then run_mode mode mem args s else some (pos (mode_number mode), s)

  unfoldable pub run_named : Option StandbyMode → List Bytes → S → Option (ℤ × S)
  run_named none args s = some (negsuc 0, s)
  run_named (some mode) args s = run_allocated mode (cmd_alloc mode_req_size) resp_alloc args s

  -- standby, for argv.
  unfoldable pub standby : List Bytes → S → Option (ℤ × S)
  standby [] s = some (pos 0, s)
  standby (name ∷ []) s = some (negsuc 0, s)
  standby (name ∷ command ∷ args) s =
      if strings_eq (codes "store") command
      then some (store_session_cmd ifname (command ∷ args) s)
      else run_named (standby_get_cmd command) args s
