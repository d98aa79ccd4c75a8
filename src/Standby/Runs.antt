-- ===== src/Standby/Runs.antt =====
-- Sessions, configurations and payloads of the standby command at concrete inputs.
use morse_cli.Base.{
  ℕ, zero, suc, ◌+◌, ◌-◌, ◌*◌, ◌/◌, ◌%◌, ◌^◌, ◌<◌, true, false, Option, none, some, Bytes, List, [],
  ◌∷◌, ◌++◌, length, replicate, drop, ℤ, pos, negsuc, ◌≡◌, refl, ap, All, IsByte, arith,
}
use morse_cli.Sdio.Memblock.{le32_octets}
use morse_cli.Utilities.{hex2byte}
use morse_cli.Utilities.Hex.{print_hex, hex2byte-print}
use morse_cli.Utilities.Text.{codes}
use morse_cli.Standby.Config.{ConfigContext, config_default, no_filter, parse_standby_config_keyval}
use morse_cli.Standby.Session.{
  ChannelFields, SessionContext, decimal, decimal_from, mac_str, hex_pair, session_text,
  standby_session_load,
}
use morse_cli.Standby.Request.{request, set_status_payload, standby_mode_id}
use morse_cli.Standby.Top.{standby}
use morse_cli.Standby.Keeps.{config_parse_total}
use morse_cli.Standby.Bounds.{IsInRange, config_parse-IsInRange}
use morse_cli.Standby.Payload.{standby-payload}
use morse_cli.Standby.RoundTrip.{session_load-session_text}
use morse_cli.Standby.Log.{Log, send}
use morse_cli.Standby.Sent.{Outcome, ask, save, standby-Follows}

-- strtoul on decimal digits: all of them are read.
value : ℕ → Bytes → ℕ
value acc [] = acc
value acc (c ∷ s) = value (acc * 10 + (c - b'0')) s

abbrev strtoul : Bytes → ℕ × ℕ
strtoul s = (value 0 s, length s)

value-snoc :
    (acc : ℕ) (s : Bytes) (c : ℕ) → value acc (s ++ (c ∷ [])) ≡ value acc s * 10 + (c - b'0')
unfolding value
value-snoc acc [] c = refl
value-snoc acc (d ∷ s) c = value-snoc (acc * 10 + (d - b'0')) s c

abbrev places_bound : ℕ → ℕ
places_bound zero = 1
places_bound (suc places) = 10 * places_bound places

value-decimal_from : (places n : ℕ) → n < places_bound places → value 0 (decimal_from places n) ≡ n
unfolding value decimal_from
value-decimal_from zero n h = omega arith
value-decimal_from (suc places) n h = ground (
  arith,
  value-decimal_from places (n / 10),
  value-snoc 0 (decimal_from places (n / 10)) (b'0' + n % 10),
)

reads : (n : ℕ) → n < 2 ^ 32 → strtoul (decimal n) ≡ (n, length (decimal n))
unfolding decimal
reads n h = ap (λ (v : ℕ). (v, length (decimal_from 10 n))) (value-decimal_from 10 n (omega arith))

-- sscanf of two digits, by the model of hex2byte.
abbrev sscanf_octet : Bytes → Option ℕ
sscanf_octet s = elim (hex2byte s) [ pos b ↦ some b | negsuc n ↦ none ]

scans_octet : (b : ℕ) (rest : Bytes) → b < 256 → sscanf_octet (hex_pair b rest) ≡ some b
scans_octet b rest h = rw (hex2byte-print false b rest h, sscanf_octet) refl

-- sscanf of six pairs of digits, each with one octet behind it.
scan_pairs : ℕ → Bytes → ℕ × Bytes
scan_pairs zero s = (0, [])
scan_pairs (suc n) s =
    let (count, octets) = scan_pairs n (drop 3 s) in
    elim (hex2byte s) [ pos b ↦ (suc count, b ∷ octets) | negsuc e ↦ (0, []) ]

abbrev sscanf_mac : Bytes → Bytes → ℕ × Bytes
sscanf_mac old s = scan_pairs 6 s

scan_pairs-mac_str :
    (mac : Bytes) → All IsByte mac → scan_pairs (length mac) (mac_str mac) ≡ (length mac, mac)
unfolding scan_pairs mac_str
scan_pairs-mac_str [] h = refl
scan_pairs-mac_str (b ∷ []) (h, hs) = rw (hex2byte-print false b [] h, scan_pairs) refl
scan_pairs-mac_str (b ∷ c ∷ mac) (h, hs) =
    rw (hex2byte-print false b (b':' ∷ mac_str (c ∷ mac)) h, scan_pairs)
      (rw (scan_pairs-mac_str (c ∷ mac) hs) refl)

scans_mac :
    (old mac : Bytes) → length mac ≡ 6 → All IsByte mac → sscanf_mac old (mac_str mac) ≡ (6, mac)
scans_mac old mac size h = rw size at (scan_pairs-mac_str mac h)

-- The address 0c:bf:74:00:01:fe, on a channel of 8 MHz.
abbrev mac : Bytes
mac = 0x0c ∷ 0xbf ∷ 0x74 ∷ 0 ∷ 1 ∷ 0xfe ∷ []

abbrev channel_8mhz : ChannelFields
channel_8mhz = record {
  operating_channel_freq_hz = 908000000;
  operating_channel_bw_mhz = 8;
  primary_channel_bw_mhz = 2;
  primary_1mhz_channel_index = 3;
}

abbrev before_load : SessionContext
before_load = record {
  bssid = replicate 6 0;
  req = record {
    operating_channel_freq_hz = 0;
    operating_channel_bw_mhz = 0;
    primary_channel_bw_mhz = 0;
    primary_1mhz_channel_index = 0;
  };
}

session_load-session_text_example :
    standby_session_load sscanf_mac strtoul (some (session_text mac channel_8mhz)) before_load
    ≡ some (pos 0, record { bssid = mac; req = channel_8mhz })
session_load-session_text_example =
    session_load-session_text sscanf_mac strtoul scans_mac reads channel_8mhz (omega arith)
      (omega arith) (omega arith) (omega arith) mac before_load refl (omega arith)

-- A file that sets a filter of two octets and a port that does not fit.
abbrev file : Bytes
file = codes "dest_port=70000" ++ (10 ∷ (codes "wake_packet_filter=beef" ++ (10 ∷ [])))

abbrev no_address : Bytes → Option ℕ
no_address s = none

abbrev at_first : ConfigContext
at_first = record { set_cfg = config_default; filter_cfg = no_filter }

abbrev parsed : ℤ × ConfigContext
parsed =
    (config_parse_total (parse_standby_config_keyval strtoul no_address) (some file) at_first).0

at_first-IsInRange : IsInRange at_first
at_first-IsInRange = omega arith

config_parse-IsInRange_example : IsInRange parsed.1
config_parse-IsInRange_example =
    config_parse-IsInRange strtoul no_address (some file) at_first parsed.0 parsed.1
      (config_parse_total (parse_standby_config_keyval strtoul no_address) (some file) at_first).1
      at_first-IsInRange

-- Commands are counted, and answered by zero.
abbrev counted : ℕ → Bytes → ℕ → ℤ × ℕ
counted id cmd s = (pos 0, s + 1)

abbrev no_channel : ℕ → Bytes → ℕ → ℤ × (ChannelFields × ℕ)
no_channel id cmd s = (pos 0, (channel_8mhz, s))

abbrev saved : Bytes → Bytes → ℕ → ℤ × ℕ
saved path text s = (pos 0, s)

abbrev memory : ℕ → Option Bytes
memory size = some (replicate size 0)

abbrev read_file : Bytes → Option Bytes
read_file path = some file

abbrev options : List Bytes → List (ℕ × Bytes)
options argv = []

standby-payload_example :
    standby memory true counted no_channel read_file saved strtoul no_address sscanf_octet
      sscanf_mac none options
      (codes "standby" ∷ codes "payload" ∷ print_hex false (0xbe ∷ 0xef ∷ []) ∷ [])
      0
    ≡ some (
        counted standby_mode_id
          (request set_status_payload (le32_octets 2 ++ (0xbe ∷ 0xef ∷ [])) (replicate 76 0))
          0)
standby-payload_example =
    standby-payload memory counted no_channel read_file saved strtoul no_address sscanf_octet
      sscanf_mac none options scans_octet (codes "standby") (0xbe ∷ 0xef ∷ []) (replicate 76 0) 0
      refl (omega arith) (omega arith)

abbrev answer : ℕ → Bytes → ℤ
answer id cmd = pos 0

abbrev asked_channel : ℕ → Bytes → ℤ × ChannelFields
asked_channel id cmd = (pos 0, channel_8mhz)

abbrev saved_code : Bytes → Bytes → ℤ
saved_code path text = pos 0

standby-Follows_example :
    (ret : ℤ) × (log : Log) × (standby memory true
        (send answer)
        (ask answer memory true asked_channel saved_code read_file strtoul no_address sscanf_octet
          sscanf_mac none options)
        read_file
        (save answer memory true asked_channel saved_code read_file strtoul no_address sscanf_octet
          sscanf_mac none options)
        strtoul
        no_address
        sscanf_octet
        sscanf_mac
        none
        options
        (codes "standby" ∷ codes "config" ∷ codes "file" ∷ [])
        []
      ≡ some (ret, log))
    × Outcome answer memory true asked_channel saved_code read_file strtoul no_address sscanf_octet
        sscanf_mac none options
        (codes "standby" ∷ codes "config" ∷ codes "file" ∷ [])
        (ret, log)
standby-Follows_example =
    standby-Follows answer memory true asked_channel saved_code read_file strtoul no_address
      sscanf_octet sscanf_mac none options (codes "standby" ∷ codes "config" ∷ codes "file" ∷ [])
