-- ===== src/Standby/Request.antt =====
-- standby.c: the commands themselves. What is outside is a parameter: the allocation of a command's
-- memory and of a response, morsectrl_send_command over a state, the files, strtoul, inet_pton and
-- sscanf. `none` is a loop over a file that has not ended.
use morse_cli.Base.{
  ℕ, zero, suc, ◌/◌, ◌%◌, ◌^◌, ◌==◌, not, ltb, Bool, if◌then◌else◌, Option, none, some, Bytes, [],
  ◌∷◌, ◌++◌, length, drop, ℤ, pos, negsuc, is_zero,
}
use morse_cli.Base.Strings.{write_at}
use morse_cli.Sdio.Memblock.{le32_octets}
use morse_cli.Transport.Table.{strings_eq}
use morse_cli.Utilities.Text.{codes}
use morse_cli.Standby.Config.{SetWakeFilter, ConfigContext, config_octets, filter_octets}

-- standby_mode_commands_t
pub data StandbyMode : Type 0 where
  exit : StandbyMode
  enter : StandbyMode
  set_config_v1_deprecated : StandbyMode
  set_status_payload : StandbyMode
  set_wake_filter : StandbyMode
  set_config_v2 : StandbyMode

unfoldable pub mode_number : StandbyMode → ℕ
mode_number exit = 0
mode_number enter = 1
mode_number set_config_v1_deprecated = 2
mode_number set_status_payload = 3
mode_number set_wake_filter = 4
mode_number set_config_v2 = 5

unfoldable pub standby_get_cmd : Bytes → Option StandbyMode
standby_get_cmd str =
    if strings_eq (codes "enter") str
    then some enter
    else if strings_eq (codes "exit") str
    then some exit
    else if strings_eq (codes "config") str
    then some set_config_v2
    else if strings_eq (codes "payload") str
    then some set_status_payload
    else none

-- The size of struct command_standby_mode_req.
abbrev pub mode_req_size : ℕ
mode_req_size = 76

abbrev pub payload_max_len : ℕ
payload_max_len = 64

-- MORSE_COMMAND_STANDBY_MODE
abbrev pub standby_mode_id : ℕ
standby_mode_id = 0x31

-- The member `cmd` of a request, and its union behind it.
abbrev pub request : StandbyMode → Bytes → Bytes → Bytes
request mode rest mem = write_at 0 (le32_octets (mode_number mode) ++ rest) mem

-- The octets of a payload, for so many rounds; sscanf with %2hhx is the parameter.
unfoldable pub payload_octets : (Bytes → Option ℕ) → ℕ → Bytes → ℤ × Bytes
payload_octets sscanf_octet zero str = (pos 0, [])
payload_octets sscanf_octet (suc rounds) str =
    let (ret, octets) = payload_octets sscanf_octet rounds (drop 2 str) in
    elim (sscanf_octet str) [ none ↦ (negsuc 0, []) | some b ↦ (ret, b ∷ octets) ]

-- The code, and what is stored behind `cmd`: the length and the octets.
unfoldable pub process_set_status_payload : (Bytes → Option ℕ) → Bytes → ℤ × Bytes
process_set_status_payload sscanf_octet str =
    let payload_len = length str % 2 ^ 32 in
    let (ret, octets) = payload_octets sscanf_octet (payload_len / 2) str in
    if not (payload_len % 2 == 0)
    then (negsuc 0, [])
    else if ltb payload_max_len (payload_len / 2)
    then (negsuc 0, [])
    else (ret, le32_octets (payload_len / 2) ++ octets)

-- What is done with the memory of a command when its allocation and that of the response succeed.
-- Allocations of one size all succeed or all fail.
unfoldable pub when_allocated : {S : Type 0} → Option Bytes → Bool → (Bytes → S → ℤ × S) → S → ℤ × S
when_allocated none resp_alloc k s = (negsuc 0, s)
when_allocated (some mem) resp_alloc k s = if resp_alloc then k mem s else (negsuc 0, s)

module _ {S : Type 0} (cmd_alloc : ℕ → Option Bytes) (resp_alloc : Bool)
    (send : ℕ → Bytes → S → ℤ × S) where
  unfoldable pub with_request : ℕ → (Bytes → S → ℤ × S) → S → ℤ × S
  with_request size k s = when_allocated (cmd_alloc size) resp_alloc k s

  unfoldable pub send_wake_filter_cmd : SetWakeFilter → S → ℤ × S
  send_wake_filter_cmd wake_cmd s =
      with_request mode_req_size
        (λ mem s1. send standby_mode_id (request set_wake_filter (filter_octets wake_cmd) mem) s1) s

  -- process_set_config_cmd behind the parsing of the file.
  unfoldable pub set_config_filter : ℤ × ConfigContext → S → ℤ × S
  set_config_filter (ret, context) s =
      if not (is_zero ret)
      then (negsuc 0, s)
      else if context.filter_cfg.len == 0
      then (pos 0, s)
      else send_wake_filter_cmd context.filter_cfg s

  unfoldable pub send_config : Bytes → ℤ × ConfigContext → S → ℤ × S
  send_config mem parsed s =
      let (ret, s1) = set_config_filter parsed s in
      if is_zero ret
      then send standby_mode_id (request set_config_v2 (config_octets parsed.1.set_cfg) mem) s1
      else (negsuc 0, s1)

  unfoldable pub send_payload : Bytes → ℤ × Bytes → S → ℤ × S
  send_payload mem (ret, stored) s =
      if is_zero ret
      then send standby_mode_id (request set_status_payload stored mem) s
      else (negsuc 0, s)
