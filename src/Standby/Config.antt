-- ===== src/Standby/Config.antt =====
-- standby.c: the keys of a configuration file and what each stores. inet_pton and strtoul are
-- parameters. An address is the number whose octets, the lowest first, stand in memory.
use morse_cli.Base.{
  ℕ, ◌-◌, ◌/◌, ◌%◌, ◌^◌, ltb, if◌then◌else◌, Option, Bytes, ◌∷◌, ◌++◌, length, replicate, ℤ, pos,
}
use morse_cli.Base.Strings.{write_at}
use morse_cli.Command.{le16_octets}
use morse_cli.Sdio.Memblock.{le32_octets}
use morse_cli.Transport.Table.{strings_eq}
use morse_cli.Utilities.{str_to_uint32, hexstr2bin}
use morse_cli.Utilities.Text.{codes, str_to_ip}
use morse_cli.Standby.{store_value}

-- struct command_standby_set_config
pub record SetConfig : Type 0 where
  pub notify_period_s : ℕ
  pub bss_inactivity_before_deep_sleep_s : ℕ
  pub deep_sleep_period_s : ℕ
  pub src_ip : ℕ
  pub dst_ip : ℕ
  pub dst_port : ℕ
  pub deep_sleep_increment_s : ℕ
  pub deep_sleep_max_s : ℕ

-- struct command_standby_set_wake_filter
pub record SetWakeFilter : Type 0 where
  pub len : ℕ
  pub offset : ℕ
  pub filter : Bytes

-- struct standby_config_parse_context
pub record ConfigContext : Type 0 where
  pub set_cfg : SetConfig
  pub filter_cfg : SetWakeFilter

abbrev pub filter_max_len : ℕ
filter_max_len = 64

abbrev pub config_default : SetConfig
config_default = record {
  notify_period_s = 15;
  bss_inactivity_before_deep_sleep_s = 60;
  deep_sleep_period_s = 120;
  src_ip = 0;
  dst_ip = 0;
  dst_port = 22000;
  deep_sleep_increment_s = 0;
  deep_sleep_max_s = 2 ^ 32 - 1;
}

abbrev pub no_filter : SetWakeFilter
no_filter = record { len = 0; offset = 0; filter = replicate filter_max_len 0 }

-- The structs as they stand in a command; the pad of the configuration is zero.
unfoldable pub config_octets : SetConfig → Bytes
config_octets c =
    le32_octets c.notify_period_s
    ++ (le32_octets c.bss_inactivity_before_deep_sleep_s
        ++ (le32_octets c.deep_sleep_period_s
            ++ (le32_octets c.src_ip
                ++ (le32_octets c.dst_ip
                    ++ (le16_octets c.dst_port
                        ++ (0
                            ∷ 0
                            ∷ (le32_octets c.deep_sleep_increment_s
                                ++ le32_octets c.deep_sleep_max_s)))))))

unfoldable pub filter_octets : SetWakeFilter → Bytes
filter_octets f = le32_octets f.len ++ (le32_octets f.offset ++ f.filter)

abbrev pub min_of : ℕ → ℕ → ℕ
min_of a b = if ltb a b then a else b

-- The octets that hexstr2bin stores before it fails stay, and its code is not looked at.
unfoldable pub wake_packet_filter : SetWakeFilter → Bytes → SetWakeFilter
wake_packet_filter f val =
    let len = min_of (length val / 2) filter_max_len in
    record f { len = len; filter = write_at 0 (hexstr2bin val len).1 f.filter }

-- What each number or address changes.
abbrev pub with_offset : ConfigContext → ℕ → ConfigContext
with_offset c t = record c { filter_cfg = record c.filter_cfg { offset = t } }

abbrev pub with_notify_period_s : ConfigContext → ℕ → ConfigContext
with_notify_period_s c t = record c { set_cfg = record c.set_cfg { notify_period_s = t } }

abbrev pub with_bss_inactivity_before_deep_sleep_s : ConfigContext → ℕ → ConfigContext
with_bss_inactivity_before_deep_sleep_s c t = record c {
  set_cfg = record c.set_cfg { bss_inactivity_before_deep_sleep_s = t };
}

abbrev pub with_deep_sleep_period_s : ConfigContext → ℕ → ConfigContext
with_deep_sleep_period_s c t = record c { set_cfg = record c.set_cfg { deep_sleep_period_s = t } }

abbrev pub with_src_ip : ConfigContext → ℕ → ConfigContext
with_src_ip c t = record c { set_cfg = record c.set_cfg { src_ip = t } }

abbrev pub with_dst_ip : ConfigContext → ℕ → ConfigContext
with_dst_ip c t = record c { set_cfg = record c.set_cfg { dst_ip = t } }

abbrev pub with_dst_port : ConfigContext → ℕ → ConfigContext
with_dst_port c t = record c { set_cfg = record c.set_cfg { dst_port = t % 2 ^ 16 } }

abbrev pub with_deep_sleep_increment_s : ConfigContext → ℕ → ConfigContext
with_deep_sleep_increment_s c t = record c {
  set_cfg = record c.set_cfg { deep_sleep_increment_s = t };
}

abbrev pub with_deep_sleep_max_s : ConfigContext → ℕ → ConfigContext
with_deep_sleep_max_s c t = record c { set_cfg = record c.set_cfg { deep_sleep_max_s = t } }

module _ (strtoul : Bytes → ℕ × ℕ) (inet_pton : Bytes → Option ℕ) where
  -- The keys of the wake filter.
  unfoldable pub parse_filter_keyval : ConfigContext → Bytes → Bytes → ℤ × ConfigContext
  parse_filter_keyval c key val =
      if strings_eq (codes "wake_packet_filter") key
      then (pos 0, record c { filter_cfg = wake_packet_filter c.filter_cfg val })
      else if strings_eq (codes "wake_packet_filter_offset") key
      then store_value (str_to_uint32 strtoul val) c (with_offset c)
      else (pos 0, c)

  unfoldable pub parse_standby_config_keyval : ConfigContext → Bytes → Bytes → ℤ × ConfigContext
  parse_standby_config_keyval c key val =
      if strings_eq (codes "notify_period_s") key
      then store_value (str_to_uint32 strtoul val) c (with_notify_period_s c)
      else if strings_eq (codes "bss_inactivity_before_deep_sleep_s") key
      then store_value (str_to_uint32 strtoul val) c (with_bss_inactivity_before_deep_sleep_s c)
      else if strings_eq (codes "deep_sleep_period_s") key
      then store_value (str_to_uint32 strtoul val) c (with_deep_sleep_period_s c)
      else if strings_eq (codes "src_ip") key
      then store_value (str_to_ip inet_pton val 0) c (with_src_ip c)
      else if strings_eq (codes "dest_ip") key
      then store_value (str_to_ip inet_pton val 0) c (with_dst_ip c)
      else if strings_eq (codes "dest_port") key
      then store_value (str_to_uint32 strtoul val) c (with_dst_port c)
      else if strings_eq (codes "deep_sleep_increment_s") key
      then store_value (str_to_uint32 strtoul val) c (with_deep_sleep_increment_s c)
      else if strings_eq (codes "deep_sleep_max_s") key
      then store_value (str_to_uint32 strtoul val) c (with_deep_sleep_max_s c)
      else parse_filter_keyval c key val
