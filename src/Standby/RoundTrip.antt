-- ===== src/Standby/RoundTrip.antt =====
-- standby.c: a session file is read as it was written.
use morse_cli.Base.{
  ℕ, zero, suc, ◌+◌, ◌-◌, ◌*◌, ◌/◌, ◌%◌, ◌^◌, ◌≤◌, ◌<◌, ltb, some, Bytes, [], ◌∷◌, length, ℤ, pos,
  ◌≡◌, ◌≢◌, refl, ap, ◌∙◌, arith, length-append, All, IsByte, inl, inr, Bool-cases,
}
use morse_cli.Transport.Table.{strings_eq}
use morse_cli.Utilities.{str_to_uint32}
use morse_cli.Utilities.Text.{codes}
use morse_cli.Standby.{config_parse, config_lines}
use morse_cli.Standby.Session.{
  ChannelFields, SessionContext, decimal, decimal_from, mac_str, key_line, session_text,
  str_to_mac_addr, parse_standby_session_keyval, standby_session_load, load_result,
}
use morse_cli.Standby.Pairs.{IsSolid, IsSolid-append, config_lines-step}

decimal_from-IsSolid : (places n : ℕ) → IsSolid (decimal_from places n)
unfolding decimal_from
decimal_from-IsSolid zero n = tt
decimal_from-IsSolid (suc places) n = elim (Bool-cases (ltb n 10)) [
  | inl small ↦ rw small (omega arith, tt)
  | inr large ↦ rw large (
      IsSolid-append (decimal_from places (n / 10)) ((b'0' + n % 10) ∷ [])
        (decimal_from-IsSolid places (n / 10)) (omega arith, tt))
]

length-decimal_from : (places n : ℕ) → length (decimal_from places n) ≤ places
unfolding decimal_from
length-decimal_from zero n = omega arith
length-decimal_from (suc places) n = ground (
  arith,
  length-decimal_from places (n / 10),
  length-append (decimal_from places (n / 10)) ((b'0' + n % 10) ∷ []),
)

decimal-ne-nil : (n : ℕ) → decimal n ≢ []
unfolding decimal decimal_from
decimal-ne-nil n e =
    ground (arith, ap length e, length-append (decimal_from 9 (n / 10)) ((b'0' + n % 10) ∷ []))

mac_str-IsSolid : (mac : Bytes) → All IsByte mac → IsSolid (mac_str mac)
unfolding mac_str
mac_str-IsSolid [] h = tt
mac_str-IsSolid (b ∷ []) (h, hs) = (ground arith, (ground arith, tt))
mac_str-IsSolid (b ∷ c ∷ mac) (h, hs) =
    (ground arith, (ground arith, (omega arith, mac_str-IsSolid (c ∷ mac) hs)))

length-mac_str : (mac : Bytes) → length (mac_str mac) ≤ 3 * length mac
unfolding mac_str
length-mac_str [] = omega arith
length-mac_str (b ∷ []) = omega arith
length-mac_str (b ∷ c ∷ mac) = omega (arith, length-mac_str (c ∷ mac))

mac_str-ne-nil : (mac : Bytes) → length mac ≡ 6 → mac_str mac ≢ []
unfolding mac_str
mac_str-ne-nil [] h e = omega arith
mac_str-ne-nil (b ∷ []) h e = cc
mac_str-ne-nil (b ∷ c ∷ mac) h e = cc

length-session_text : (mac : Bytes) (ch : ChannelFields) → 5 ≤ length (session_text mac ch)
unfolding session_text
length-session_text mac ch = omega arith

module _ (sscanf_mac : Bytes → Bytes → ℕ × Bytes) (strtoul : Bytes → ℕ × ℕ)
    (scans : (old mac : Bytes)
      → length mac ≡ 6
      → All IsByte mac
      → sscanf_mac old (mac_str mac) ≡ (6, mac))
    (reads : (n : ℕ) → n < 2 ^ 32 → strtoul (decimal n) ≡ (n, length (decimal n))) where
  abbrev process : SessionContext → Bytes → Bytes → ℤ × SessionContext
  process = parse_standby_session_keyval sscanf_mac strtoul

  decimal-read : (n : ℕ) → n < 2 ^ 32 → str_to_uint32 strtoul (decimal n) ≡ (pos 0, n)
  unfolding str_to_uint32
  decimal-read n h = rw (reads n h) (ground arith)

  bssid-read :
      (c : SessionContext) (mac : Bytes)
      → length mac ≡ 6
      → All IsByte mac
      → process c (codes "bssid") (mac_str mac) ≡ (pos 0, record c { bssid = mac })
  unfolding parse_standby_session_keyval str_to_mac_addr strings_eq
  bssid-read c mac size octets = rw (scans c.bssid mac size octets) refl

  freq-read :
      (c : SessionContext) (n : ℕ)
      → n < 2 ^ 32
      → process c (codes "op_chan_freq") (decimal n)
        ≡ (pos 0, record c { req = record c.req { operating_channel_freq_hz = n } })
  unfolding parse_standby_session_keyval strings_eq
  freq-read c n h = rw (decimal-read n h) refl

  bw-read :
      (c : SessionContext) (n : ℕ)
      → n < 256
      → process c (codes "op_chan_bw") (decimal n)
        ≡ (pos 0, record c { req = record c.req { operating_channel_bw_mhz = n } })
  unfolding parse_standby_session_keyval strings_eq
  bw-read c n h =
      let small : n % 2 ^ 8 ≡ n = omega arith in rw (decimal-read n (omega arith), small) refl

  pri-read :
      (c : SessionContext) (n : ℕ)
      → n < 256
      → process c (codes "pri_chan_bw") (decimal n)
        ≡ (pos 0, record c { req = record c.req { primary_channel_bw_mhz = n } })
  unfolding parse_standby_session_keyval strings_eq
  pri-read c n h =
      let small : n % 2 ^ 8 ≡ n = omega arith in rw (decimal-read n (omega arith), small) refl

  index-read :
      (c : SessionContext) (n : ℕ)
      → n < 256
      → process c (codes "pri_1mhz_chan") (decimal n)
        ≡ (pos 0, record c { req = record c.req { primary_1mhz_channel_index = n } })
  unfolding parse_standby_session_keyval strings_eq
  index-read c n h =
      let small : n % 2 ^ 8 ≡ n = omega arith in rw (decimal-read n (omega arith), small) refl

  config_lines-nil :
      (rounds : ℕ) (context : SessionContext)
      → config_lines process (suc rounds) [] context ≡ some (pos 0, context)
  unfolding config_lines
  config_lines-nil rounds context = refl

  -- A line of a key and a number.
  number_line :
      (rounds c : ℕ) (k rest : Bytes) (n : ℕ) (context after : SessionContext)
      → c ≢ b'#'
      → All (λ d. (33 ≤ d) × (d ≢ b'=')) (c ∷ k)
      → length k < 100
      → process context (c ∷ k) (decimal n) ≡ (pos 0, after)
      → config_lines process (suc rounds) (key_line (c ∷ k) (decimal n) rest) context
        ≡ config_lines process rounds rest after
  unfolding decimal
  number_line rounds c k rest n context after first key short done =
      config_lines-step c k (decimal n) first key (decimal_from-IsSolid 10 n) process rounds rest
        context after (decimal-ne-nil n)
        (omega (arith, length-append (c ∷ k) (b'=' ∷ decimal n), length-decimal_from 10 n)) done

  -- The four lines of the channel.
  abbrev channel_text : ChannelFields → Bytes
  channel_text ch = key_line (codes "op_chan_freq") (decimal ch.operating_channel_freq_hz) (
      key_line (codes "op_chan_bw") (decimal ch.operating_channel_bw_mhz) (
        key_line (codes "pri_chan_bw") (decimal ch.primary_channel_bw_mhz)
          (key_line (codes "pri_1mhz_chan") (decimal ch.primary_1mhz_channel_index) [])))

  module _ (ch : ChannelFields) (hf : ch.operating_channel_freq_hz < 2 ^ 32)
      (hb : ch.operating_channel_bw_mhz < 256) (hp : ch.primary_channel_bw_mhz < 256)
      (hi : ch.primary_1mhz_channel_index < 256) where
    channel_lines :
        (rounds : ℕ) (context : SessionContext)
        → config_lines process (suc (suc (suc (suc (suc rounds))))) (channel_text ch) context
          ≡ some (pos 0, record context { req = ch })
    channel_lines rounds context =
        let c1 = record context {
          req = record context.req { operating_channel_freq_hz = ch.operating_channel_freq_hz };
        } in
        let c2 = record c1 {
          req = record c1.req { operating_channel_bw_mhz = ch.operating_channel_bw_mhz };
        } in
        let c3 = record c2 {
          req = record c2.req { primary_channel_bw_mhz = ch.primary_channel_bw_mhz };
        } in
        number_line (suc (suc (suc (suc rounds)))) b'o' (codes "p_chan_freq")
          (key_line (codes "op_chan_bw") (decimal ch.operating_channel_bw_mhz) (
            key_line (codes "pri_chan_bw") (decimal ch.primary_channel_bw_mhz)
              (key_line (codes "pri_1mhz_chan") (decimal ch.primary_1mhz_channel_index) [])))
          ch.operating_channel_freq_hz context c1 (omega arith) (omega arith) (omega arith)
          (freq-read context ch.operating_channel_freq_hz hf)
        ∙ number_line (suc (suc (suc rounds))) b'o' (codes "p_chan_bw")
            (key_line (codes "pri_chan_bw") (decimal ch.primary_channel_bw_mhz)
              (key_line (codes "pri_1mhz_chan") (decimal ch.primary_1mhz_channel_index) []))
            ch.operating_channel_bw_mhz c1 c2 (omega arith) (omega arith) (omega arith)
            (bw-read c1 ch.operating_channel_bw_mhz hb)
        ∙ number_line (suc (suc rounds)) b'p' (codes "ri_chan_bw")
            (key_line (codes "pri_1mhz_chan") (decimal ch.primary_1mhz_channel_index) [])
            ch.primary_channel_bw_mhz c2 c3 (omega arith) (omega arith) (omega arith)
            (pri-read c2 ch.primary_channel_bw_mhz hp)
        ∙ number_line (suc rounds) b'p' (codes "ri_1mhz_chan") [] ch.primary_1mhz_channel_index c3
            (record context { req = ch }) (omega arith) (omega arith) (omega arith)
            (index-read c3 ch.primary_1mhz_channel_index hi)
        ∙ config_lines-nil rounds (record context { req = ch })

    session_lines :
        (rounds : ℕ) (mac : Bytes) (context : SessionContext)
        → length mac ≡ 6
        → All IsByte mac
        → config_lines process
            (suc (suc (suc (suc (suc (suc rounds))))))
            (session_text mac ch)
            context
          ≡ some (pos 0, record { bssid = mac; req = ch })
    unfolding session_text
    session_lines rounds mac context size octets =
        config_lines-step b'b' (codes "ssid") (mac_str mac) (omega arith) (omega arith)
          (mac_str-IsSolid mac octets) process (suc (suc (suc (suc (suc rounds)))))
          (channel_text ch) context (record context { bssid = mac }) (mac_str-ne-nil mac size)
          (omega (arith, length-mac_str mac)) (bssid-read context mac size octets)
        ∙ channel_lines rounds (record context { bssid = mac })

    -- Where sscanf reads six octets back from their print, and strtoul a 32-bit number from its
    -- decimal print, the text that standby_session_store writes for an address of six octets and a
    -- channel in the ranges of its members is loaded with the code 0, and gives this address and
    -- this channel, whatever was in the memory before.
    pub session_load-session_text :
        (mac : Bytes) (context : SessionContext)
        → length mac ≡ 6
        → All IsByte mac
        → standby_session_load sscanf_mac strtoul (some (session_text mac ch)) context
          ≡ some (pos 0, record { bssid = mac; req = ch })
    unfolding standby_session_load config_parse load_result
    session_load-session_text mac context size octets = ap load_result (
        ap (λ n. config_lines process n (session_text mac ch) context)
          {x = suc (length (session_text mac ch))}
          {y = suc (suc (suc (suc (suc (suc (length (session_text mac ch) - 5))))))}
          (omega (arith, length-session_text mac ch))
        ∙ session_lines (length (session_text mac ch) - 5) mac context size octets)
