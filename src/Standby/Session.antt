-- ===== src/Standby/Session.antt =====
-- standby.c: the session file, as it is written and as it is read. strtoul and sscanf for an
-- address are parameters.
use morse_cli.Base.{
  ℕ, zero, suc, ◌+◌, ◌/◌, ◌%◌, ◌^◌, ◌==◌, ltb, false, if◌then◌else◌, Option, none, some, Bytes, [],
  ◌∷◌, ◌++◌, take, ℤ, pos, negsuc, is_zero, is_negative,
}
use morse_cli.Transport.Table.{strings_eq}
use morse_cli.Utilities.{str_to_uint32}
use morse_cli.Utilities.Hex.{hex_digit}
use morse_cli.Utilities.Text.{codes}
use morse_cli.Standby.{store_value, config_parse}

-- What struct command_set_channel_req and struct command_get_channel_cfm share.
pub record ChannelFields : Type 0 where
  pub operating_channel_freq_hz : ℕ
  pub operating_channel_bw_mhz : ℕ
  pub primary_channel_bw_mhz : ℕ
  pub primary_1mhz_channel_index : ℕ

-- struct standby_session_parse_context
pub record SessionContext : Type 0 where
  pub bssid : Bytes
  pub req : ChannelFields

-- %u
unfoldable pub decimal_from : ℕ → ℕ → Bytes
decimal_from zero n = []
decimal_from (suc places) n =
    let front = decimal_from places (n / 10) in
    if ltb n 10 then (b'0' + n) ∷ [] else front ++ ((b'0' + n % 10) ∷ [])

unfoldable pub decimal : ℕ → Bytes
decimal n = decimal_from 10 n

abbrev pub hex_pair : ℕ → Bytes → Bytes
hex_pair b rest = hex_digit false (b / 16) ∷ hex_digit false (b % 16) ∷ rest

-- MACSTR: two digits for each octet, with colons between.
unfoldable pub mac_str : Bytes → Bytes
mac_str [] = []
mac_str (b ∷ []) = hex_pair b []
mac_str (b ∷ c ∷ bs) = hex_pair b (b':' ∷ mac_str (c ∷ bs))

abbrev pub key_line : Bytes → Bytes → Bytes → Bytes
key_line key val rest = (key ++ (b'=' ∷ val)) ++ (10 ∷ rest)

-- What standby_session_store writes.
unfoldable pub session_text : Bytes → ChannelFields → Bytes
session_text bssid rsp = key_line (codes "bssid") (mac_str bssid) (
    key_line (codes "op_chan_freq") (decimal rsp.operating_channel_freq_hz) (
      key_line (codes "op_chan_bw") (decimal rsp.operating_channel_bw_mhz) (
        key_line (codes "pri_chan_bw") (decimal rsp.primary_channel_bw_mhz)
          (key_line (codes "pri_1mhz_chan") (decimal rsp.primary_1mhz_channel_index) []))))

-- snprintf of the path into MORSE_FILENAME_LEN_MAX octets.
unfoldable pub session_path : Bytes → Bytes → Bytes
session_path dir ifname = take 255 (dir ++ (b'/' ∷ ifname))

-- Any error of the parser is -1.
unfoldable pub load_result : Option (ℤ × SessionContext) → Option (ℤ × SessionContext)
load_result none = none
load_result (some (ret, context)) = some (if is_zero ret then pos 0 else negsuc 0, context)

module _ (sscanf_mac : Bytes → Bytes → ℕ × Bytes) where
  -- How many octets sscanf has read, and the six octets after it.
  unfoldable pub str_to_mac_addr : Bytes → Bytes → ℤ × Bytes
  str_to_mac_addr mac str =
      let (count, mac') = sscanf_mac mac str in (if count == 6 then pos 0 else negsuc 0, mac')

  module _ (strtoul : Bytes → ℕ × ℕ) where
    unfoldable pub parse_standby_session_keyval :
        SessionContext → Bytes → Bytes → ℤ × SessionContext
    parse_standby_session_keyval c key val =
        if strings_eq (codes "bssid") key
        then (let (ret, mac) = str_to_mac_addr c.bssid val in
            (if is_negative ret then negsuc 0 else pos 0, record c { bssid = mac }))
        else if strings_eq (codes "op_chan_freq") key
        then store_value (str_to_uint32 strtoul val) c
            (λ t. record c { req = record c.req { operating_channel_freq_hz = t } })
        else if strings_eq (codes "op_chan_bw") key
        then store_value (str_to_uint32 strtoul val) c
            (λ t. record c { req = record c.req { operating_channel_bw_mhz = t % 2 ^ 8 } })
        else if strings_eq (codes "pri_chan_bw") key
        then store_value (str_to_uint32 strtoul val) c
            (λ t. record c { req = record c.req { primary_channel_bw_mhz = t % 2 ^ 8 } })
        else if strings_eq (codes "pri_1mhz_chan") key
        then store_value (str_to_uint32 strtoul val) c
            (λ t. record c { req = record c.req { primary_1mhz_channel_index = t % 2 ^ 8 } })
        else (pos 0, c)

    -- The file at the path of the session, if there is one.
    unfoldable pub standby_session_load :
        Option Bytes → SessionContext → Option (ℤ × SessionContext)
    standby_session_load file context =
        load_result (config_parse parse_standby_session_keyval file context)
