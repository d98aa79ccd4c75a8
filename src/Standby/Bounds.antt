-- ===== src/Standby/Bounds.antt =====
-- standby.c: the ranges of what a configuration file can set.
use morse_cli.Base.{
  ℕ, zero, suc, ◌/◌, ◌^◌, ◌≤◌, ◌<◌, Bool, true, false, if◌then◌else◌, Option, some, Bytes, drop,
  length, ℤ, pos, negsuc, is_negative, ◌≡◌, ◌∙◌, refl, inl, inr, Bool-cases, arith,
}
use morse_cli.Base.Strings.{length-write_at}
use morse_cli.Transport.Table.{strings_eq}
use morse_cli.Utilities.{str_to_uint32, hexstr2bin, hex2byte, store_octet}
use morse_cli.Utilities.Text.{codes, str_to_ip}
use morse_cli.Standby.{store_value, config_parse}
use morse_cli.Standby.Config.{
  SetWakeFilter, ConfigContext, wake_packet_filter, parse_filter_keyval,
  parse_standby_config_keyval, min_of, filter_max_len, with_offset, with_notify_period_s,
  with_bss_inactivity_before_deep_sleep_s, with_deep_sleep_period_s, with_src_ip, with_dst_ip,
  with_dst_port, with_deep_sleep_increment_s, with_deep_sleep_max_s,
}
use morse_cli.Standby.Keeps.{config_parse-keeps}

-- The numbers fit in their members, and the filter is its array.
pub record IsInRange (c : ConfigContext) : Type 0 where
  pub notify : c.set_cfg.notify_period_s < 2 ^ 32
  pub inactivity : c.set_cfg.bss_inactivity_before_deep_sleep_s < 2 ^ 32
  pub deep_sleep : c.set_cfg.deep_sleep_period_s < 2 ^ 32
  pub port : c.set_cfg.dst_port < 2 ^ 16
  pub increment : c.set_cfg.deep_sleep_increment_s < 2 ^ 32
  pub most : c.set_cfg.deep_sleep_max_s < 2 ^ 32
  pub offset : c.filter_cfg.offset < 2 ^ 32
  pub len : c.filter_cfg.len ≤ filter_max_len
  pub filter : length c.filter_cfg.filter ≡ filter_max_len

length-store_octet : (b : ℤ) (r : ℤ × Bytes) → length (store_octet b r).1 ≤ suc (length r.1)
length-store_octet (pos a) (ret, octets) = omega arith
length-store_octet (negsuc a) (ret, octets) = omega arith

length-hexstr2bin : (hex : Bytes) (len : ℕ) → length (hexstr2bin hex len).1 ≤ len
unfolding hexstr2bin
length-hexstr2bin hex zero = omega arith
length-hexstr2bin hex (suc len) = omega (
  arith,
  length-store_octet (hex2byte hex) (hexstr2bin (drop 2 hex) len),
  length-hexstr2bin (drop 2 hex) len,
)

wake_packet_filter-len :
    (f : SetWakeFilter) (val : Bytes) → (wake_packet_filter f val).len ≤ filter_max_len
unfolding wake_packet_filter
wake_packet_filter-len f val = ground arith

length-wake_packet_filter :
    (f : SetWakeFilter) (val : Bytes)
    → length f.filter ≡ filter_max_len
    → length (wake_packet_filter f val).filter ≡ filter_max_len
unfolding wake_packet_filter
length-wake_packet_filter f val h =
    let n = min_of (length val / 2) filter_max_len in
    let small : n ≤ filter_max_len = ground arith in
    length-write_at 0 (hexstr2bin val n).1 f.filter (omega (arith, length-hexstr2bin val n)) ∙ h

wake_packet_filter-offset :
    (f : SetWakeFilter) (val : Bytes) → (wake_packet_filter f val).offset ≡ f.offset
unfolding wake_packet_filter
wake_packet_filter-offset f val = refl

-- What is stored of a number keeps a property that every 32-bit number may have.
store_value-keeps :
    {C : Type 0} (P : C → Type 0) (strtoul : Bytes → ℕ × ℕ) (val : Bytes) (c : C) (store : ℕ → C)
    → P c
    → ((t : ℕ) → t < 2 ^ 32 → P (store t))
    → P (store_value (str_to_uint32 strtoul val) c store).1
unfolding str_to_uint32
store_value-keeps P strtoul val c store h k =
    let (ret, t) = str_to_uint32 strtoul val in
    elim (Bool-cases (is_negative ret)) [ inl n ↦ rw n h | inr n ↦ rw n (k t (omega arith)) ]

ip-keeps :
    {C : Type 0} (P : C → Type 0) (inet_pton : Bytes → Option ℕ) (val : Bytes) (c : C)
    (store : ℕ → C)
    → P c
    → ((t : ℕ) → P (store t))
    → P (store_value (str_to_ip inet_pton val 0) c store).1
ip-keeps P inet_pton val c store h k =
    let (ret, t) = str_to_ip inet_pton val 0 in
    elim (Bool-cases (is_negative ret)) [ inl n ↦ rw n h | inr n ↦ rw n (k t) ]

if-keeps :
    {C : Type 0} (P : C → Type 0) (b : Bool) (x y : ℤ × C)
    → P x.1
    → P y.1
    → P (if b then x else y).1
if-keeps P true x y hx hy = hx
if-keeps P false x y hx hy = hy

module _ (strtoul : Bytes → ℕ × ℕ) (inet_pton : Bytes → Option ℕ) where
  filter_keyval-IsInRange :
      (c : ConfigContext) (key val : Bytes)
      → IsInRange c
      → IsInRange (parse_filter_keyval strtoul inet_pton c key val).1
  unfolding parse_filter_keyval
  filter_keyval-IsInRange c key val v =
      if-keeps IsInRange (strings_eq (codes "wake_packet_filter") key) _ _
        (ground (
          arith,
          wake_packet_filter-len c.filter_cfg val,
          length-wake_packet_filter c.filter_cfg val,
          wake_packet_filter-offset c.filter_cfg val,
        ))
        (if-keeps IsInRange (strings_eq (codes "wake_packet_filter_offset") key) _ _
          (store_value-keeps IsInRange strtoul val c (with_offset c) v (λ t h. ground arith)) v)

  config_keyval-IsInRange :
      (c : ConfigContext) (key val : Bytes)
      → IsInRange c
      → IsInRange (parse_standby_config_keyval strtoul inet_pton c key val).1
  unfolding parse_standby_config_keyval
  config_keyval-IsInRange c key val v =
      if-keeps IsInRange (strings_eq (codes "notify_period_s") key) _ _
        (store_value-keeps IsInRange strtoul val c (with_notify_period_s c) v (λ t h. ground arith))
        (if-keeps IsInRange (strings_eq (codes "bss_inactivity_before_deep_sleep_s") key) _ _
          (store_value-keeps IsInRange strtoul val c (with_bss_inactivity_before_deep_sleep_s c) v
            (λ t h. ground arith))
          (if-keeps IsInRange (strings_eq (codes "deep_sleep_period_s") key) _ _
            (store_value-keeps IsInRange strtoul val c (with_deep_sleep_period_s c) v
              (λ t h. ground arith))
            (if-keeps IsInRange (strings_eq (codes "src_ip") key) _ _
              (ip-keeps IsInRange inet_pton val c (with_src_ip c) v (λ t. ground arith))
              (if-keeps IsInRange (strings_eq (codes "dest_ip") key) _ _
                (ip-keeps IsInRange inet_pton val c (with_dst_ip c) v (λ t. ground arith))
                (if-keeps IsInRange (strings_eq (codes "dest_port") key) _ _
                  (store_value-keeps IsInRange strtoul val c (with_dst_port c) v
                    (λ t h. ground arith))
                  (if-keeps IsInRange (strings_eq (codes "deep_sleep_increment_s") key) _ _
                    (store_value-keeps IsInRange strtoul val c (with_deep_sleep_increment_s c) v
                      (λ t h. ground arith))
                    (if-keeps IsInRange (strings_eq (codes "deep_sleep_max_s") key) _ _
                      (store_value-keeps IsInRange strtoul val c (with_deep_sleep_max_s c) v
                        (λ t h. ground arith))
                      (filter_keyval-IsInRange c key val v))))))))

  -- Whatever a configuration file holds, with any code that is returned and any strtoul and
  -- inet_pton: if the numbers fit in their members before, the port in 16 bits, the filter's length
  -- is 64 at most and the filter has 64 octets, then all of this holds after it.
  pub config_parse-IsInRange :
      (file : Option Bytes) (c : ConfigContext) (ret : ℤ) (after : ConfigContext)
      → config_parse (parse_standby_config_keyval strtoul inet_pton) file c ≡ some (ret, after)
      → IsInRange c
      → IsInRange after
  config_parse-IsInRange file c ret after e v =
      config_parse-keeps (parse_standby_config_keyval strtoul inet_pton) IsInRange
        config_keyval-IsInRange file c ret after e v
